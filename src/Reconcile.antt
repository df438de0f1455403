-- ===== src/Reconcile.antt =====
-- `aggregator/src/aggregator/reconcile.py`: the results of the workers for all cells, joined into the
-- verdicts of an epoch.
pub mod Weigh
pub mod Evidence
pub mod Consistent
pub mod Keyed
pub mod Accepted
pub mod Workers
use he_thong_chung_minh_luu.Prelude.{
  List, Option, Result, [], cardinality_mismatch, eqb, err, if◌then◌else◌, length, list_ord, none,
  not, ok, pair_eq, pair_ord, raise_if, snapshot_mismatch, some, ℕ, ℕ_eq, ℕ_ord, ◌+◌, ◌==◌, ◌>>=◌,
  ◌>>◌, ◌||◌, ◌∷◌,
}
use he_thong_chung_minh_luu.Bytes.{Bytes, bytes_eq}
use he_thong_chung_minh_luu.Dict.{Dict, add, insert, lookup}
use he_thong_chung_minh_luu.Verdict.{Verdict, none_v, pass, reconcile, verdict_eq, verdict_ord}
use he_thong_chung_minh_luu.Blob.{Key}
use he_thong_chung_minh_luu.Shard.{ShardResult}

-- `(deadline, shard)`
abbrev pub Cell : Type 0
Cell = ℕ × ℕ

pub record ReconcileStats : Type 0 where
  pub childproofs_seen : ℕ
  pub conflicts : ℕ
  pub upgraded_from_none : ℕ
  pub upgraded_to_pass : ℕ

pub record EpochVerdicts : Type 0 where
  pub verdicts : Dict Key Verdict
  pub snapshot_id : Option Bytes
  pub covered_cells : List Cell
  pub covered_shards : List ℕ
  pub cell_expected : Dict Cell ℕ
  pub stats : ReconcileStats

-- `EpochVerdicts()`
abbrev pub no_verdicts : EpochVerdicts
no_verdicts = record {
  verdicts = [];
  snapshot_id = none;
  covered_cells = [];
  covered_shards = [];
  cell_expected = [];
  stats = record {
    childproofs_seen = 0;
    conflicts = 0;
    upgraded_from_none = 0;
    upgraded_to_pass = 0;
  };
}

abbrev pub cell_of : ShardResult → Cell
cell_of r = (r.deadline, r.shard)

-- `out.snapshot_id` after the check against the result's.
unfoldable pub same_snapshot : Option Bytes → Bytes → Result Bytes
same_snapshot none s = ok s
same_snapshot (some t) s = if eqb t s then ok t else err snapshot_mismatch

-- `out.cell_expected` after the check of the two counts of one cell.
unfoldable pub same_count : Dict Cell ℕ → Cell → ℕ → Result (Dict Cell ℕ)
same_count d cell n = elim (lookup cell d) [
  | none ↦ ok (insert cell n d)
  | some m ↦ if m == n then ok d else err cardinality_mismatch
]

-- The counters when a verdict meets another one, `prev`.
unfoldable pub count_conflict : Verdict → Verdict → ReconcileStats → ReconcileStats
count_conflict prev v st = if eqb prev v then st else record st {
  conflicts = st.conflicts + 1;
  upgraded_from_none = st.upgraded_from_none + (if eqb prev none_v then 1 else 0);
  upgraded_to_pass = st.upgraded_to_pass + (if eqb v pass || eqb prev pass then 1 else 0);
}

-- One round of the loop over `res.verdicts.items()`.
unfoldable pub merge_verdict :
    Key → Verdict → Dict Key Verdict × ReconcileStats → Dict Key Verdict × ReconcileStats
unfolding count_conflict reconcile
merge_verdict k v (d, st) = elim (lookup k d) [
  | none ↦ (insert k v d, st)
  | some prev ↦ (insert k (reconcile prev v) d, count_conflict prev v st)
]

unfoldable pub merge_all :
    List (Key × Verdict) → Dict Key Verdict × ReconcileStats → Dict Key Verdict × ReconcileStats
merge_all [] acc = acc
merge_all ((k, v) ∷ vs) acc = merge_all vs (merge_verdict k v acc)

abbrev pub seen_one : ReconcileStats → ReconcileStats
seen_one st = record st { childproofs_seen = st.childproofs_seen + 1 }

-- One round of the loop over the results.
unfoldable pub add_result : ShardResult → EpochVerdicts → Result EpochVerdicts
unfolding same_snapshot same_count merge_all
add_result res out = do
  sid ← same_snapshot out.snapshot_id res.snapshot_id
  counts ← same_count out.cell_expected (cell_of res) res.expected_count
  raise_if (not (length res.verdicts == res.expected_count)) cardinality_mismatch
  let merged = merge_all res.verdicts (out.verdicts, seen_one out.stats)
  ok (record {
    verdicts = merged.0;
    snapshot_id = some sid;
    covered_cells = add (cell_of res) out.covered_cells;
    covered_shards = add res.shard out.covered_shards;
    cell_expected = counts;
    stats = merged.1;
  })

unfoldable pub reconcile_from : List ShardResult → EpochVerdicts → Result EpochVerdicts
reconcile_from [] out = ok out
reconcile_from (r ∷ rs) out = do out' ← add_result r out; reconcile_from rs out'

-- `reconcile_shard_results`
unfoldable pub reconcile_shard_results : List ShardResult → Result EpochVerdicts
unfolding reconcile_from
reconcile_shard_results results = reconcile_from results no_verdicts
