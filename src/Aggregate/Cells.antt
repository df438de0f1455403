-- ===== src/Aggregate/Cells.antt =====
-- An aggregated epoch covers its grid of cells: none is missing and none is foreign.
use he_thong_chung_minh_luu.Prelude.{
  Bool, Bool-cases, Eq, List, [], ap, arith, dec_eq, false, if_neg, if_pos, inl, inr, leb, list_ord,
  ltb, map, ok, pair_eq, pair_ord, refl, suc, sym, true, zero, ℕ, ℕ_eq, ℕ_ord, ◌&&◌, ◌*◌, ◌++◌, ◌+◌,
  ◌<◌, ◌||◌, ◌∙◌, ◌∷◌, ◌≡◌, ◌⊎◌,
}
use he_thong_chung_minh_luu.Bytes.{Bytes, bytes_eq}
use he_thong_chung_minh_luu.Dict.{member}
use he_thong_chung_minh_luu.Crypto.{Digest}
use he_thong_chung_minh_luu.Verdict.{verdict_ord}
use he_thong_chung_minh_luu.Shard.{ShardResult}
use he_thong_chung_minh_luu.Reconcile.{Cell, cell_of}
use he_thong_chung_minh_luu.Reconcile.Consistent.{reconcile_covered}
use he_thong_chung_minh_luu.Settlement.{SettlementLeaf}
use he_thong_chung_minh_luu.Public.{PublicValues}
use he_thong_chung_minh_luu.Aggregate.{
  EpochArgs, aggregate_epoch, expected_cells, grid_rows, is_empty, minus, range_from, row,
}
use he_thong_chung_minh_luu.Aggregate.Steps.{aggregate_epoch-IsAggregated}

module _ {ℓ} {A : Type ℓ} ⦃e : Eq A⦄ where
  member-append : (a : A) (xs ys : List A) → member a (xs ++ ys) ≡ (member a xs || member a ys)
  unfolding member
  member-append a [] ys = refl
  member-append a (x ∷ xs) ys = ground (arith, member-append a xs ys)

  -- Nothing is left of a set that another one contains.
  pub minus_empty :
      (xs ys : List A) (a : A)
      → is_empty (minus xs ys) ≡ true
      → member a xs ≡ true
      → member a ys ≡ true
  unfolding minus member
  minus_empty [] ys a h m = cc
  minus_empty (x ∷ xs) ys a h m = elim (Bool-cases (member x ys)) [
    | inl has ↦ elim (dec_eq a x) [
      | yes p ↦ ap (λ z. member z ys) p ∙ has
      | no q ↦
          minus_empty xs ys a (rw (has, minus) at h)
            (rw (if_neg (dec_eq a x) q true (member a xs)) at m)
    ]
    | inr misses ↦ absurd (ground arith)
  ]

pub member-range_from : (i k n : ℕ) → member i (range_from k n) ≡ (leb k i && ltb i (k + n))
unfolding member range_from
member-range_from i k zero = ground arith
member-range_from i k (suc n) = ground (arith, member-range_from i (k + 1) n)

row_sound :
    (c : Cell) (x : ℕ) (ss : List ℕ)
    → member c (map (λ s. (x, s)) ss) ≡ true
    → (c.0 ≡ x) × (member c.1 ss ≡ true)
unfolding member
row_sound c x [] h = cc
row_sound c x (s ∷ ss) h = elim (dec_eq c (x, s)) [
  | yes p ↦ (ap (λ z. z.0) p, if_pos (dec_eq c.1 s) (ap (λ z. z.1) p) true (member c.1 ss))
  | no q ↦
      let r =
        row_sound c x ss
          (sym (if_neg (dec_eq c (x, s)) q true (member c (map (λ t. (x, t)) ss))) ∙ h) in
      (r.0, ground (arith, r.1))
]

row_complete :
    (x s : ℕ) (ss : List ℕ)
    → member s ss ≡ true
    → member {A = Cell} (x, s) (map (λ t. (x, t)) ss) ≡ true
unfolding member
row_complete x s [] h = cc
row_complete x s (t ∷ ss) h = elim (dec_eq s t) [
  | yes p ↦
      if_pos (dec_eq {A = Cell} (x, s) (x, t)) (ap (λ z. (x, z)) p) true
        (member {A = Cell} (x, s) (map (λ u. (x, u)) ss))
  | no q ↦
      if_neg (dec_eq {A = Cell} (x, s) (x, t)) (λ e. q (ap (λ z. z.1) e)) true
        (member {A = Cell} (x, s) (map (λ u. (x, u)) ss))
      ∙ row_complete x s ss (sym (if_neg (dec_eq s t) q true (member s ss)) ∙ h)
]

or_true : (a b : Bool) → (a || b) ≡ true → (a ≡ true) ⊎ (b ≡ true)
or_true true b h = inl refl
or_true false b h = inr h

grid_rows_sound :
    (c : Cell) (epoch : ℕ) (ds : List ℕ) (n : ℕ)
    → member c (grid_rows epoch ds n) ≡ true
    → (d : ℕ) × (member d ds ≡ true)
      × (c.0 ≡ epoch * 1000000 + d)
      × (member c.1 (range_from 0 n) ≡ true)
unfolding grid_rows member
grid_rows_sound c epoch [] n h = absurd cc
grid_rows_sound c epoch (d ∷ ds) n h =
    elim (or_true (member c (row (epoch * 1000000 + d) n)) (member c (grid_rows epoch ds n))
      (sym (member-append c (row (epoch * 1000000 + d) n) (grid_rows epoch ds n)) ∙ h)) [
        | inl here ↦
            let r = row_sound c (epoch * 1000000 + d) (range_from 0 n) here in
            (d, if_pos (dec_eq d d) refl true (member d ds), r.0, r.1)
        | inr later ↦
            let (i, m, e, s) = grid_rows_sound c epoch ds n later in (i, ground arith, e, s)
      ]

grid_rows_complete :
    (epoch d s : ℕ) (ds : List ℕ) (n : ℕ)
    → member d ds ≡ true
    → member s (range_from 0 n) ≡ true
    → member (epoch * 1000000 + d, s) (grid_rows epoch ds n) ≡ true
unfolding grid_rows member
grid_rows_complete epoch d s [] n h k = cc
grid_rows_complete epoch d s (i ∷ ds) n h k =
    member-append _ (row (epoch * 1000000 + i) n) (grid_rows epoch ds n) ∙ elim (dec_eq d i) [
      | yes p ↦
          ap (λ b. b || member (epoch * 1000000 + d, s) (grid_rows epoch ds n))
            (ap (λ z. member (epoch * 1000000 + d, s) (row (epoch * 1000000 + z) n)) (sym p)
              ∙ row_complete (epoch * 1000000 + d) s (range_from 0 n) k)
      | no q ↦
          ap (λ b. member (epoch * 1000000 + d, s) (row (epoch * 1000000 + i) n) || b)
            (grid_rows_complete epoch d s ds n (sym (if_neg (dec_eq d i) q true (member d ds)) ∙ h)
              k)
          ∙ or_true_right _
    ]
  where
    or_true_right : (b : Bool) → (b || true) ≡ true
    or_true_right b = ground arith

cell-member :
    (epoch deadlines n d s : ℕ)
    → d < deadlines
    → s < n
    → member (epoch * 1000000 + d, s) (expected_cells epoch deadlines n) ≡ true
unfolding expected_cells
cell-member epoch deadlines n d s h k =
    grid_rows_complete epoch d s (range_from 0 deadlines) n
      (member-range_from d 0 deadlines ∙ ground arith) (member-range_from s 0 n ∙ ground arith)

member-cell :
    (c : Cell) (epoch deadlines n : ℕ)
    → member c (expected_cells epoch deadlines n) ≡ true
    → (d : ℕ) × (d < deadlines) × (c.1 < n) × (c.0 ≡ epoch * 1000000 + d)
unfolding expected_cells
member-cell c epoch deadlines n h =
    let (d, m, e, s) = grid_rows_sound c epoch (range_from 0 deadlines) n h in
    let dm : (leb 0 d && ltb d (0 + deadlines)) ≡ true =
      sym (member-range_from d 0 deadlines) ∙ m in
    let sm : (leb 0 c.1 && ltb c.1 (0 + n)) ≡ true = sym (member-range_from c.1 0 n) ∙ s in
    (d, ground arith, ground arith, e)

-- When an epoch is aggregated under full coverage, there is a result for every deadline and shard
-- of its grid, and every result is for such a cell.
pub aggregate_epoch-covers :
    (sha3 : Digest) (a : EpochArgs) (rs : List ShardResult) (sid : Bytes) (pv : PublicValues)
    (proof : Bytes) (leaves : List SettlementLeaf)
    → aggregate_epoch sha3 a rs sid ≡ ok (pv, proof, leaves)
    → a.require_full_coverage ≡ true
    → ((d s : ℕ)
        → d < a.deadlines_per_epoch
        → s < a.n_shards
        → member (a.epoch * 1000000 + d, s) (map cell_of rs) ≡ true)
      × ((c : Cell)
          → member c (map cell_of rs) ≡ true
          → (d : ℕ) × (d < a.deadlines_per_epoch)
            × (c.1 < a.n_shards)
            × (c.0 ≡ a.epoch * 1000000 + d))
aggregate_epoch-covers sha3 a rs sid pv proof leaves h full =
    let (ev, g) = aggregate_epoch-IsAggregated sha3 a rs sid pv proof leaves h in
    let grid = expected_cells a.epoch a.deadlines_per_epoch a.n_shards in
    (
      λ d s p q.
          sym (reconcile_covered rs ev (a.epoch * 1000000 + d, s) g.reconciled)
          ∙ minus_empty grid ev.covered_cells (a.epoch * 1000000 + d, s) (g.none_missing full)
              (cell-member a.epoch a.deadlines_per_epoch a.n_shards d s p q),
      λ c m. member-cell c a.epoch a.deadlines_per_epoch a.n_shards (
          minus_empty ev.covered_cells grid c (g.none_extra full)
            (reconcile_covered rs ev c g.reconciled ∙ m)),
    )
