-- ===== src/Aggregate/Incremental.antt =====
-- Folding the deadlines one by one, as they close, and aggregating the folds gives what aggregating
-- all results at once gives.
use he_thong_chung_minh_luu.Prelude.{
  ==_iff, >>-eq-ok, >>=-eq-ok, All, List, Result, [], ap, ap₂, arith, coverage_gap, eqb→eq, eq→eqb,
  list_ord, map, not-not, ok, ok_inj, pair_eq, pair_ord, raise_if, raise_if-eq-ok, refl,
  snapshot_mismatch, subst, sym, true, ℕ, ℕ_eq, ℕ_ord, ◌++◌, ◌<◌, ◌>>=◌, ◌>>◌, ◌∙◌, ◌∷◌, ◌≡◌,
}
use he_thong_chung_minh_luu.Bytes.{Bytes, bytes_eq}
use he_thong_chung_minh_luu.Dict.{member}
use he_thong_chung_minh_luu.Crypto.{Digest}
use he_thong_chung_minh_luu.Shard.{ShardResult}
use he_thong_chung_minh_luu.Aggregate.{
  DeadlineFold, EpochArgs, aggregate_epoch, aggregate_epoch_incremental, check_results, flatten,
  fold_deadline, is_empty, minus, range_from, same_folds,
}
use he_thong_chung_minh_luu.Aggregate.Cells.{member-range_from, minus_empty}

-- The deadlines of an epoch, each folded with the same registry when its window closes.
unfoldable pub fold_all : Bytes → ℕ → List (ℕ × List ShardResult) → Result (List DeadlineFold)
unfolding fold_deadline
fold_all sid n_shards [] = ok []
fold_all sid n_shards ((d, rs) ∷ parts) =
    let rest = fold_all sid n_shards parts in
    do f ← fold_deadline d sid rs n_shards; fs ← rest; ok (f ∷ fs)

-- All results, in the order of the deadlines.
abbrev pub all_results : List (ℕ × List ShardResult) → List ShardResult
all_results [] = []
all_results ((d, rs) ∷ parts) = rs ++ all_results parts

fold_deadline-eq-ok :
    (d : ℕ) (sid : Bytes) (rs : List ShardResult) (n : ℕ) (f : DeadlineFold)
    → fold_deadline d sid rs n ≡ ok f
    → (check_results d sid rs ≡ ok tt)
      × (is_empty (minus (range_from 0 n) (map (λ (r : ShardResult). r.shard) rs)) ≡ true)
      × (f ≡ record { deadline = d; snapshot_id = sid; shard_results = rs })
unfolding fold_deadline
fold_deadline-eq-ok d sid rs n f h =
    let (h1, g1) = >>-eq-ok (check_results d sid rs) _ h in
    let (h2, g2) = >>-eq-ok (raise_if _ coverage_gap) _ g1 in
    (h1, not-not _ (raise_if-eq-ok _ _ h2), sym (ok_inj g2))

check_results-All :
    (d : ℕ) (sid : Bytes) (rs : List ShardResult)
    → check_results d sid rs ≡ ok tt
    → All (λ (r : ShardResult). (r.deadline ≡ d) × (r.snapshot_id ≡ sid)) rs
unfolding check_results
check_results-All d sid [] h = tt
check_results-All d sid (r ∷ rs) h =
    let (h1, g1) = >>-eq-ok (raise_if _ coverage_gap) _ h in
    let (h2, g2) = >>-eq-ok (raise_if _ snapshot_mismatch) _ g1 in
    (
      (
        (==_iff r.deadline d).0 (not-not _ (raise_if-eq-ok _ _ h1)),
        eqb→eq r.snapshot_id sid (not-not _ (raise_if-eq-ok _ _ h2)),
      ),
      check_results-All d sid rs g2,
    )

-- A fold that is made holds a result for every shard, and all of its results are for its deadline
-- and of its registry.
pub fold_deadline_complete :
    (d : ℕ) (sid : Bytes) (rs : List ShardResult) (n : ℕ) (f : DeadlineFold)
    → fold_deadline d sid rs n ≡ ok f
    → ((s : ℕ) → s < n → member s (map (λ (r : ShardResult). r.shard) f.shard_results) ≡ true)
      × All (λ (r : ShardResult). (r.deadline ≡ d) × (r.snapshot_id ≡ sid)) f.shard_results
fold_deadline_complete d sid rs n f h =
    let (checked, full, e) = fold_deadline-eq-ok d sid rs n f h in
    subst
      (λ (g : DeadlineFold).
        ((s : ℕ) → s < n → member s (map (λ (r : ShardResult). r.shard) g.shard_results) ≡ true)
        × All (λ (r : ShardResult). (r.deadline ≡ d) × (r.snapshot_id ≡ sid)) g.shard_results)
      (sym e)
      (
        λ s k.
            minus_empty (range_from 0 n) (map (λ (r : ShardResult). r.shard) rs) s full
              (member-range_from s 0 n ∙ ground arith),
        check_results-All d sid rs checked,
      )

fold_all_lem :
    (sid : Bytes) (n : ℕ) (parts : List (ℕ × List ShardResult)) (folds : List DeadlineFold)
    → fold_all sid n parts ≡ ok folds
    → (same_folds sid folds ≡ ok tt) × (flatten folds ≡ all_results parts)
unfolding fold_all same_folds
fold_all_lem sid n [] folds h =
    subst (λ fs. (same_folds sid fs ≡ ok tt) × (flatten fs ≡ [])) (ok_inj h) (refl, refl)
fold_all_lem sid n ((d, rs) ∷ parts) folds h =
    let (f, h1, g1) = >>=-eq-ok (fold_deadline d sid rs n) _ h in
    let (fs, h2, g2) = >>=-eq-ok (fold_all sid n parts) _ g1 in
    let (_, _, e) = fold_deadline-eq-ok d sid rs n f h1 in
    let (same, flat) = fold_all_lem sid n parts fs h2 in
    let made : DeadlineFold = record { deadline = d; snapshot_id = sid; shard_results = rs } in
    subst (λ gs. (same_folds sid gs ≡ ok tt) × (flatten gs ≡ rs ++ all_results parts))
      (ap (λ g. g ∷ fs) (sym e) ∙ ok_inj g2)
      (rw (eq→eqb sid sid refl, same_folds) same, ap (◌++◌ rs) flat)

-- When the deadlines of an epoch, one at least, are folded with one registry and no fold is refused,
-- aggregating the folds is aggregating all results at once, errors included.
pub incremental_agrees :
    (sha3 : Digest) (a : EpochArgs) (sid : Bytes) (part : ℕ × List ShardResult)
    (parts : List (ℕ × List ShardResult)) (folds : List DeadlineFold)
    → fold_all sid a.n_shards (part ∷ parts) ≡ ok folds
    → aggregate_epoch_incremental sha3 folds a
      ≡ aggregate_epoch sha3 a (all_results (part ∷ parts)) sid
unfolding fold_all aggregate_epoch_incremental
incremental_agrees sha3 a sid (d, rs) parts folds h =
    let (f, h1, g1) = >>=-eq-ok (fold_deadline d sid rs a.n_shards) _ h in
    let (fs, h2, g2) = >>=-eq-ok (fold_all sid a.n_shards parts) _ g1 in
    let (_, _, e) = fold_deadline-eq-ok d sid rs a.n_shards f h1 in
    let (same, flat) =
      fold_all_lem sid a.n_shards ((d, rs) ∷ parts) (f ∷ fs) (h ∙ ap ok (sym (ok_inj g2))) in
    let s : f.snapshot_id ≡ sid = ap (λ (g : DeadlineFold). g.snapshot_id) e in
    subst
      (λ gs.
        aggregate_epoch_incremental sha3 gs a
        ≡ aggregate_epoch sha3 a (all_results ((d, rs) ∷ parts)) sid)
      (ok_inj g2)
      (ap (λ z. z >> aggregate_epoch sha3 a (flatten (f ∷ fs)) f.snapshot_id)
          (ap (λ x. same_folds x (f ∷ fs)) s ∙ same)
        ∙ ap₂ (aggregate_epoch sha3 a) flat s)
