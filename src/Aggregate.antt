-- ===== src/Aggregate.antt =====
-- `aggregator/src/aggregator/aggregate.py`: the fold of one deadline and the aggregation of an epoch
-- into the public values and the settlement leaves.
pub mod Steps
pub mod Cells
pub mod Settled
pub mod Leaves
pub mod Saturation
pub mod Incremental
use he_thong_chung_minh_luu.Prelude.{
  Bool, Eq, List, Option, Result, [], coverage_gap, eqb, err, false, if◌then◌else◌, length,
  list_ord, map, max, none, not, ok, pair_eq, pair_ord, raise_if, snapshot_mismatch, some, suc,
  true, zero, ℕ, ℕ_eq, ℕ_ord, ◌&&◌, ◌*◌, ◌++◌, ◌+◌, ◌==◌, ◌>>=◌, ◌>>◌, ◌∷◌,
}
use he_thong_chung_minh_luu.Bytes.{Bytes, bytes_eq, codes, to_bytes_le, zeros}
use he_thong_chung_minh_luu.Dict.{member, set_of}
use he_thong_chung_minh_luu.Verdict.{verdict_ord}
use he_thong_chung_minh_luu.Sort.{sort_by}
use he_thong_chung_minh_luu.Crypto.{Digest, keccak, merkle_root}
use he_thong_chung_minh_luu.Blob.{build_namespace, child_proof}
use he_thong_chung_minh_luu.Shard.{ShardResult}
use he_thong_chung_minh_luu.Reconcile.{Cell, EpochVerdicts, reconcile_shard_results}
use he_thong_chung_minh_luu.Settlement.{SettlementLeaf, leaf_digests, settlement_leaf}
use he_thong_chung_minh_luu.Public.{PublicValues}
use he_thong_chung_minh_luu.Config.{groth16_proof_bytes}

-- `range(n)`, from `i` on
unfoldable pub range_from : ℕ → ℕ → List ℕ
range_from i zero = []
range_from i (suc n) = i ∷ range_from (i + 1) n

-- `a - b` on sets
unfoldable pub minus {ℓ} : {A : Type ℓ} → ⦃e : Eq A⦄ → List A → List A → List A
unfolding member
minus [] bs = []
minus (a ∷ rest) bs = if member a bs then minus rest bs else a ∷ minus rest bs

abbrev pub is_empty {ℓ} : {A : Type ℓ} → List A → Bool
is_empty [] = true
is_empty (_ ∷ _) = false

-- `class DeadlineFold`
pub record DeadlineFold : Type 0 where
  pub deadline : ℕ
  pub snapshot_id : Bytes
  pub shard_results : List ShardResult

-- `DeadlineFold.n_shards_covered`
unfoldable pub n_shards_covered : DeadlineFold → ℕ
unfolding set_of
n_shards_covered f = length (set_of (map (λ r. r.shard) f.shard_results))

-- The checks of the first loop of `fold_deadline`.
unfoldable pub check_results : ℕ → Bytes → List ShardResult → Result (Unit {0})
check_results deadline sid [] = ok tt
check_results deadline sid (r ∷ rs) =
    let rest = check_results deadline sid rs in
    do
      raise_if (not (r.deadline == deadline)) coverage_gap
      raise_if (not (eqb r.snapshot_id sid)) snapshot_mismatch
      rest

-- `fold_deadline`
unfoldable pub fold_deadline : ℕ → Bytes → List ShardResult → ℕ → Result DeadlineFold
unfolding check_results minus range_from
fold_deadline deadline sid rs n_shards = do
  check_results deadline sid rs
  raise_if (not (is_empty (minus (range_from 0 n_shards) (map (λ (r : ShardResult). r.shard) rs))))
      coverage_gap
  ok (record { deadline = deadline; snapshot_id = sid; shard_results = rs })

-- The cells of one deadline, then of the epoch: `expected_cells`.
abbrev pub row : ℕ → ℕ → List Cell
row deadline n_shards = map (λ s. (deadline, s)) (range_from 0 n_shards)

unfoldable pub grid_rows : ℕ → List ℕ → ℕ → List Cell
unfolding range_from
grid_rows epoch [] n_shards = []
grid_rows epoch (d ∷ ds) n_shards =
    row (epoch * 1000000 + d) n_shards ++ grid_rows epoch ds n_shards

unfoldable pub expected_cells : ℕ → ℕ → ℕ → List Cell
unfolding grid_rows range_from
expected_cells epoch deadlines n_shards = grid_rows epoch (range_from 0 deadlines) n_shards

-- The arguments of `aggregate_epoch` that `aggregate_epoch_incremental` passes on.
pub record EpochArgs : Type 0 where
  pub epoch : ℕ
  pub chain_id : ℕ
  pub deadlines_per_epoch : ℕ
  pub n_shards : ℕ
  pub prev_state_root : Bytes
  pub da_commitment : Bytes
  pub da_nonce : ℕ
  pub submitter : Bytes
  pub storage_vk_digest : Bytes
  pub require_full_coverage : Bool

-- `sum(d.values())`
unfoldable pub total {ℓ} : {K : Type ℓ} → List (K × ℕ) → ℕ
total [] = 0
total ((k, n) ∷ d) = n + total d

-- `max` over the coverage proofs of the results, 0 where there is none.
unfoldable pub max_saturation : List ShardResult → ℕ
max_saturation [] = 0
max_saturation (r ∷ rs) = elim r.coverage [
  | none ↦ max_saturation rs
  | some c ↦ max c.window_saturation (max_saturation rs)
]

-- `ev.snapshot_id is not None and ev.snapshot_id != snapshot_id`
abbrev pub other_snapshot : Option Bytes → Bytes → Bool
other_snapshot none sid = false
other_snapshot (some s) sid = not (eqb s sid)

-- The leaves of the verdicts in the order of the deals.
unfoldable pub epoch_leaves : ℕ → EpochVerdicts → List SettlementLeaf
unfolding sort_by settlement_leaf
epoch_leaves epoch ev = map (settlement_leaf epoch) (sort_by (λ x. x) ev.verdicts)

abbrev pub flatten : List DeadlineFold → List ShardResult
flatten [] = []
flatten (f ∷ fs) = f.shard_results ++ flatten fs

-- The loop that compares the snapshots of the folds.
unfoldable pub same_folds : Bytes → List DeadlineFold → Result (Unit {0})
same_folds sid [] = ok tt
same_folds sid (f ∷ fs) =
    let rest = same_folds sid fs in
    do raise_if (not (eqb f.snapshot_id sid)) snapshot_mismatch; rest

module _ (sha3 : Digest) where
  -- The public values of an epoch, from the root of its leaves and the bytes of its number.
  unfoldable pub epoch_values :
      EpochArgs → List ShardResult → Bytes → EpochVerdicts → Bytes → Bytes → PublicValues
  unfolding keccak merkle_root total max_saturation
  epoch_values a shard_results snapshot_id ev results_root epoch_bytes = record {
    epoch = a.epoch;
    batch_root =
        merkle_root (keccak sha3) (map (λ (r : ShardResult). r.results_root) shard_results);
    da_commitment = a.da_commitment;
    da_nonce = a.da_nonce;
    results_root = results_root;
    results_data_root = keccak sha3 (codes "RESULTS_DA" ∷ results_root ∷ []);
    storage_vk_digest = a.storage_vk_digest;
    snapshot_id = snapshot_id;
    submitter = a.submitter;
    prev_state_root = a.prev_state_root;
    new_state_root =
        keccak sha3
          (a.prev_state_root ∷ epoch_bytes ∷ results_root ∷ a.da_commitment ∷ snapshot_id ∷ []);
    num_verified = total ev.cell_expected;
    window_saturation = max_saturation shard_results;
  }

  -- `aggregate_epoch`
  unfoldable pub aggregate_epoch :
      EpochArgs → List ShardResult → Bytes → Result (PublicValues × Bytes × List SettlementLeaf)
  unfolding reconcile_shard_results minus expected_cells epoch_leaves leaf_digests total
      epoch_values to_bytes_le
  aggregate_epoch a shard_results snapshot_id = do
    ev ← reconcile_shard_results shard_results
    let cells = expected_cells a.epoch a.deadlines_per_epoch a.n_shards
    raise_if (a.require_full_coverage && not (is_empty (minus cells ev.covered_cells))) coverage_gap
    raise_if (a.require_full_coverage && not (is_empty (minus ev.covered_cells cells))) coverage_gap
    let leaves = epoch_leaves a.epoch ev
    digests ← leaf_digests sha3 leaves
    let results_root = merkle_root (keccak sha3) digests
    raise_if (other_snapshot ev.snapshot_id snapshot_id) snapshot_mismatch
    raise_if (not (total ev.cell_expected == length leaves)) coverage_gap
    e ← to_bytes_le 8 a.epoch
    ok (
      epoch_values a shard_results snapshot_id ev results_root e,
      zeros groth16_proof_bytes,
      leaves,
    )

  -- `aggregate_epoch_incremental`
  unfoldable pub aggregate_epoch_incremental :
      List DeadlineFold → EpochArgs → Result (PublicValues × Bytes × List SettlementLeaf)
  unfolding same_folds aggregate_epoch
  aggregate_epoch_incremental [] a = err coverage_gap
  aggregate_epoch_incremental (f ∷ fs) a = do
    same_folds f.snapshot_id (f ∷ fs)
    aggregate_epoch a (flatten (f ∷ fs)) f.snapshot_id

-- `childproof_namespace`
unfoldable pub childproof_namespace : ℕ → Result Bytes
unfolding build_namespace
childproof_namespace chain_id = build_namespace child_proof chain_id 0
