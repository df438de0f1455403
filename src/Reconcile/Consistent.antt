-- ===== src/Reconcile/Consistent.antt =====
-- What `reconcile_shard_results` demands of the results that it accepts: one registry, one declared
-- number of deals for each cell, and as many verdicts as that number.
use he_thong_chung_minh_luu.Prelude.{
  >>-eq-ok, >>=-eq-ok, All, Bool, Bool-cases, List, Option, Option-cases, [], ap, arith,
  cardinality_mismatch, dec_eq, eqb, eqb→eq, err-ne-ok, false, if_neg, if_pos, inl, inr, ite,
  length, list_ord, map, none, none-ne-some, not, not-not, ok, ok_inj, pair_eq, pair_ord, raise_if,
  raise_if-eq-ok, refl, some, some_inj, subst, sym, true, ℕ, ℕ_eq, ℕ_ord, ◌==◌, ◌||◌, ◌∙◌, ◌∷◌, ◌≡◌,
}
use he_thong_chung_minh_luu.Bytes.{Bytes, bytes_eq}
use he_thong_chung_minh_luu.Dict.{
  Dict, add, insert, lookup, lookup-insert_ne, lookup-insert_self, member, member-add_ne,
  member-add_self,
}
use he_thong_chung_minh_luu.Shard.{ShardResult}
use he_thong_chung_minh_luu.Reconcile.{
  Cell, EpochVerdicts, add_result, cell_of, no_verdicts, reconcile_from, reconcile_shard_results,
  same_count, same_snapshot,
}

same_snapshot-eq-ok :
    (o : Option Bytes) (s t : Bytes)
    → same_snapshot o s ≡ ok t
    → (t ≡ s) × ((u : Bytes) → o ≡ some u → u ≡ s)
unfolding same_snapshot
same_snapshot-eq-ok none s t h = (sym (ok_inj h), λ u e. absurd (none-ne-some e))
same_snapshot-eq-ok (some v) s t h = elim (Bool-cases (eqb v s)) [
  | inl same ↦
      let e : v ≡ t = ok_inj (rw (same, same_snapshot) at h) in
      let q : v ≡ s = eqb→eq v s same in (sym e ∙ q, λ u p. sym (some_inj p) ∙ q)
  | inr other ↦ absurd (err-ne-ok (rw (other, same_snapshot) at h))
]

same_count-eq-ok :
    (d d' : Dict Cell ℕ) (c : Cell) (n : ℕ)
    → same_count d c n ≡ ok d'
    → (lookup c d' ≡ some n) × ((b : Cell) (m : ℕ) → lookup b d ≡ some m → lookup b d' ≡ some m)
unfolding same_count
same_count-eq-ok d d' c n h = elim (Option-cases (lookup c d)) [
  | inl new ↦
      let e : insert c n d ≡ d' = ok_inj (rw (new, same_count) at h) in
      (
        ap (lookup c) (sym e) ∙ lookup-insert_self c n d,
        λ b m p.
            ap (lookup b) (sym e)
            ∙ lookup-insert_ne b c n d
                (λ q. none-ne-some (sym new ∙ ap (λ x. lookup x d) (sym q) ∙ p))
            ∙ p,
      )
  | inr (m, old) ↦ elim (Bool-cases (m == n)) [
    | inl same ↦
        let e : d ≡ d' = ok_inj (rw (old, same, same_count) at h) in
        (ap (lookup c) (sym e) ∙ old ∙ ap some (ground arith), λ b k p. ap (lookup b) (sym e) ∙ p)
    | inr other ↦ absurd (err-ne-ok (rw (old, other, same_count) at h))
  ]
]

-- What one accepted result has done to the state.
record IsAdded (r : ShardResult) (out out' : EpochVerdicts) : Type 0 where
  new_snapshot : out'.snapshot_id ≡ some r.snapshot_id
  old_snapshot : (s : Bytes) → out.snapshot_id ≡ some s → s ≡ r.snapshot_id
  all_judged : length r.verdicts ≡ r.expected_count
  new_count : lookup (cell_of r) out'.cell_expected ≡ some r.expected_count
  old_counts :
      (c : Cell) (n : ℕ)
      → lookup c out.cell_expected ≡ some n
      → lookup c out'.cell_expected ≡ some n
  new_cells : out'.covered_cells ≡ add (cell_of r) out.covered_cells

add_result-IsAdded :
    (r : ShardResult) (out out' : EpochVerdicts) → add_result r out ≡ ok out' → IsAdded r out out'
unfolding add_result
add_result-IsAdded r out out' h =
    let (sid, h1, g1) = >>=-eq-ok (same_snapshot out.snapshot_id r.snapshot_id) _ h in
    let (counts, h2, g2) =
      >>=-eq-ok (same_count out.cell_expected (cell_of r) r.expected_count) _ g1 in
    let (h3, g3) =
      >>-eq-ok (raise_if (not (length r.verdicts == r.expected_count)) cardinality_mismatch) _ g2 in
    let e = ok_inj g3 in
    let s = same_snapshot-eq-ok out.snapshot_id r.snapshot_id sid h1 in
    let c = same_count-eq-ok out.cell_expected counts (cell_of r) r.expected_count h2 in
    let n : (length r.verdicts == r.expected_count) ≡ true = not-not _ (raise_if-eq-ok _ _ h3) in
    record {
      new_snapshot = sym (ap (λ (o : EpochVerdicts). o.snapshot_id) e) ∙ ap some s.0;
      old_snapshot = s.1;
      all_judged = ground arith;
      new_count = ap (λ (o : EpochVerdicts). lookup (cell_of r) o.cell_expected) (sym e) ∙ c.0;
      old_counts =
          λ b m p. ap (λ (o : EpochVerdicts). lookup b o.cell_expected) (sym e) ∙ c.1 b m p;
      new_cells = ap (λ (o : EpochVerdicts). o.covered_cells) (sym e);
    }

-- The result names the registry of the epoch, has as many verdicts as it declares, and declares the
-- number that the epoch records for its cell.
pub record IsAgreed (out : EpochVerdicts) (r : ShardResult) : Type 0 where
  pub same_registry : out.snapshot_id ≡ some r.snapshot_id
  pub full : length r.verdicts ≡ r.expected_count
  pub same_expected : lookup (cell_of r) out.cell_expected ≡ some r.expected_count

-- The state only grows: its snapshot and its counts stay.
record IsLater (out out' : EpochVerdicts) : Type 0 where
  snapshot_stays : (s : Bytes) → out.snapshot_id ≡ some s → out'.snapshot_id ≡ some s
  counts_stay :
      (c : Cell) (n : ℕ)
      → lookup c out.cell_expected ≡ some n
      → lookup c out'.cell_expected ≡ some n

IsAdded-IsLater :
    (r : ShardResult) (out out' : EpochVerdicts) → IsAdded r out out' → IsLater out out'
IsAdded-IsLater r out out' a = record {
  snapshot_stays = λ s e. a.new_snapshot ∙ ap some (sym (a.old_snapshot s e));
  counts_stay = a.old_counts;
}

reconcile_from-IsLater :
    (rs : List ShardResult) (out out' : EpochVerdicts)
    → reconcile_from rs out ≡ ok out'
    → IsLater out out'
unfolding reconcile_from
reconcile_from-IsLater [] out out' h =
    subst (IsLater out) (ok_inj h) (record { snapshot_stays = λ s e. e; counts_stay = λ c n e. e })
reconcile_from-IsLater (r ∷ rs) out out' h =
    let (mid, p, q) = >>=-eq-ok (add_result r out) (reconcile_from rs) h in
    let first = IsAdded-IsLater r out mid (add_result-IsAdded r out mid p) in
    let later = reconcile_from-IsLater rs mid out' q in
    record {
      snapshot_stays = λ s e. later.snapshot_stays s (first.snapshot_stays s e);
      counts_stay = λ c n e. later.counts_stay c n (first.counts_stay c n e);
    }

reconcile_from-All :
    (rs : List ShardResult) (out out' : EpochVerdicts)
    → reconcile_from rs out ≡ ok out'
    → All (IsAgreed out') rs
unfolding reconcile_from
reconcile_from-All [] out out' h = tt
reconcile_from-All (r ∷ rs) out out' h =
    let (mid, p, q) = >>=-eq-ok (add_result r out) (reconcile_from rs) h in
    let a = add_result-IsAdded r out mid p in
    let later = reconcile_from-IsLater rs mid out' q in
    let here : IsAgreed out' r = record {
      same_registry = later.snapshot_stays r.snapshot_id a.new_snapshot;
      full = a.all_judged;
      same_expected = later.counts_stay (cell_of r) r.expected_count a.new_count;
    } in
    (here, reconcile_from-All rs mid out' q)

-- When the results are accepted, every one of them names the registry of the epoch, has as many
-- verdicts as it declares to be expected, and declares the number that the epoch records for its
-- cell, so that all results of a cell declare one number.
pub reconcile-IsAgreed :
    (rs : List ShardResult) (out : EpochVerdicts)
    → reconcile_shard_results rs ≡ ok out
    → All (IsAgreed out) rs
unfolding reconcile_shard_results
reconcile-IsAgreed rs out h = reconcile_from-All rs no_verdicts out h

member-add :
    (c b : Cell) (xs : List Cell) → member c (add b xs) ≡ ite (dec_eq c b) true (member c xs)
member-add c b xs = elim (dec_eq c b) [
  | yes p ↦ rw (p, if_pos (dec_eq b b) refl true (member b xs)) (member-add_self b xs)
  | no q ↦ rw (if_neg (dec_eq c b) q true (member c xs)) (member-add_ne c b xs q)
]

reconcile_from-covered :
    (rs : List ShardResult) (out out' : EpochVerdicts) (c : Cell)
    → reconcile_from rs out ≡ ok out'
    → member c out'.covered_cells ≡ (member c (map cell_of rs) || member c out.covered_cells)
unfolding reconcile_from member
reconcile_from-covered [] out out' c h =
    ap (λ (o : EpochVerdicts). member c o.covered_cells) (sym (ok_inj h))
reconcile_from-covered (r ∷ rs) out out' c h =
    let (mid, p, q) = >>=-eq-ok (add_result r out) (reconcile_from rs) h in
    reconcile_from-covered rs mid out' c q
    ∙ ap (λ b. member c (map cell_of rs) || b)
        (ap (member c) (add_result-IsAdded r out mid p).new_cells
          ∙ member-add c (cell_of r) out.covered_cells)
    ∙ swap_or (dec_eq c (cell_of r)) (member c (map cell_of rs)) (member c out.covered_cells)
  where
    swap_or : {P : Type 0} (d : Dec P) (x y : Bool) → (x || ite d true y) ≡ (ite d true x || y)
    swap_or d x y = ground arith

-- The cells that an accepted epoch covers are exactly those of its results.
pub reconcile_covered :
    (rs : List ShardResult) (out : EpochVerdicts) (c : Cell)
    → reconcile_shard_results rs ≡ ok out
    → member c out.covered_cells ≡ member c (map cell_of rs)
unfolding reconcile_shard_results member
reconcile_covered rs out c h = reconcile_from-covered rs no_verdicts out c h ∙ or_false _
  where
    or_false : (b : Bool) → (b || false) ≡ b
    or_false b = ground arith
