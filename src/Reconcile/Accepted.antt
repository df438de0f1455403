-- ===== src/Reconcile/Accepted.antt =====
-- `reconcile_shard_results` never raises for results that were made from one registry.
use he_thong_chung_minh_luu.Prelude.{
  ==_iff, All, List, Option, Option-cases, [], ap, dec_eq, eq→eqb, inl, inr, length, none,
  none-ne-some, ok, pair_eq, refl, some, some_inj, sym, true, ℕ, ℕ_eq, ◌==◌, ◌∙◌, ◌∷◌, ◌≡◌,
}
use he_thong_chung_minh_luu.Reconcile.{
  Cell, EpochVerdicts, add_result, cell_of, merge_all, no_verdicts, reconcile_from,
  reconcile_shard_results, same_count, same_snapshot, seen_one,
}
use he_thong_chung_minh_luu.Bytes.{Bytes, bytes_eq}
use he_thong_chung_minh_luu.Dict.{Dict, add, insert, lookup, lookup-insert_ne, lookup-insert_self}
use he_thong_chung_minh_luu.Shard.{ShardResult}

-- The result was made from the registry `s`, in which each cell has as many deals as `deals_in` says.
pub record IsFaithful (s : Bytes) (deals_in : Cell → ℕ) (r : ShardResult) : Type 0 where
  pub own_registry : r.snapshot_id ≡ s
  pub own_cell : r.expected_count ≡ deals_in (cell_of r)
  pub all_verdicts : length r.verdicts ≡ r.expected_count

-- The state knows nothing but that registry.
abbrev KnowsCounts : (Cell → ℕ) → Dict Cell ℕ → Type 0
KnowsCounts deals_in d = (c : Cell) (n : ℕ) → lookup c d ≡ some n → n ≡ deals_in c

record Knows (s : Bytes) (deals_in : Cell → ℕ) (out : EpochVerdicts) : Type 0 where
  one_registry : (t : Bytes) → out.snapshot_id ≡ some t → t ≡ s
  counts : KnowsCounts deals_in out.cell_expected

same_snapshot-accepts :
    (o : Option Bytes) (s : Bytes) → ((t : Bytes) → o ≡ some t → t ≡ s) → same_snapshot o s ≡ ok s
unfolding same_snapshot
same_snapshot-accepts none s k = refl
same_snapshot-accepts (some t) s k = let e : t ≡ s = k t refl in rw (e, eq→eqb s s refl) refl

same_count-accepts :
    (deals_in : Cell → ℕ) (d : Dict Cell ℕ) (c : Cell)
    → KnowsCounts deals_in d
    → (d' : Dict Cell ℕ) × (same_count d c (deals_in c) ≡ ok d') × KnowsCounts deals_in d'
unfolding same_count
same_count-accepts deals_in d c k = elim (Option-cases (lookup c d)) [
  | inl new ↦ (
    insert c (deals_in c) d,
    rw (new, same_count) refl,
    λ b m e. elim (dec_eq b c) [
      | yes p ↦
          some_inj (
            sym e
            ∙ ap (λ x. lookup x (insert c (deals_in c) d)) p
            ∙ lookup-insert_self c (deals_in c) d)
          ∙ ap deals_in (sym p)
      | no q ↦ k b m (sym (lookup-insert_ne b c (deals_in c) d q) ∙ e)
    ],
  )
  | inr (m, old) ↦
      let e : (m == deals_in c) ≡ true = (==_iff m (deals_in c)).1 (k c m old) in
      (d, rw (old, same_count) (rw e refl), k)
]

-- The state after a result that passed the checks.
abbrev added : ShardResult → EpochVerdicts → Dict Cell ℕ → EpochVerdicts
added r out counts =
    let merged = merge_all r.verdicts (out.verdicts, seen_one out.stats) in
    record {
      verdicts = merged.0;
      snapshot_id = some r.snapshot_id;
      covered_cells = add (cell_of r) out.covered_cells;
      covered_shards = add r.shard out.covered_shards;
      cell_expected = counts;
      stats = merged.1;
    }

add_result-accepts :
    (s : Bytes) (deals_in : Cell → ℕ) (r : ShardResult) (out : EpochVerdicts)
    → Knows s deals_in out
    → IsFaithful s deals_in r
    → (out' : EpochVerdicts) × (add_result r out ≡ ok out') × Knows s deals_in out'
unfolding add_result
add_result-accepts s deals_in r out k h =
    let p =
      same_snapshot-accepts out.snapshot_id r.snapshot_id
        (λ t e. k.one_registry t e ∙ sym h.own_registry) in
    let (d', q, k') = same_count-accepts deals_in out.cell_expected (cell_of r) k.counts in
    let q' : same_count out.cell_expected (cell_of r) r.expected_count ≡ ok d' =
      ap (same_count out.cell_expected (cell_of r)) h.own_cell ∙ q in
    let n : (length r.verdicts == r.expected_count) ≡ true =
      (==_iff (length r.verdicts) r.expected_count).1 h.all_verdicts in
    (
      added r out d',
      rw (p, q', n) refl,
      record { one_registry = λ t e. sym (some_inj e) ∙ h.own_registry; counts = k' },
    )

reconcile_from_accepts :
    (s : Bytes) (deals_in : Cell → ℕ) (rs : List ShardResult) (out : EpochVerdicts)
    → Knows s deals_in out
    → All (IsFaithful s deals_in) rs
    → (out' : EpochVerdicts) × (reconcile_from rs out ≡ ok out')
unfolding reconcile_from
reconcile_from_accepts s deals_in [] out k a = (out, refl)
reconcile_from_accepts s deals_in (r ∷ rs) out k a =
    let (mid, p, k') = add_result-accepts s deals_in r out k a.0 in
    let (out', q) = reconcile_from_accepts s deals_in rs mid k' a.1 in (out', rw p q)

-- Results of one registry, each with as many verdicts as that registry has deals in its cell, are
-- accepted, whatever the verdicts are, in whatever order the results come and however often a cell is
-- answered.
pub reconcile_accepts :
    (s : Bytes) (deals_in : Cell → ℕ) (rs : List ShardResult)
    → All (IsFaithful s deals_in) rs
    → (out : EpochVerdicts) × (reconcile_shard_results rs ≡ ok out)
unfolding reconcile_shard_results lookup
reconcile_accepts s deals_in rs a =
    reconcile_from_accepts s deals_in rs no_verdicts
      (record {
        one_registry = λ t e. absurd (none-ne-some e);
        counts = λ c n e. absurd (none-ne-some e);
      })
      a
