-- ===== src/Sort.antt =====
-- Python's `sorted(items, key=...)`: a stable sort by a key, as insertion into a sorted list. The
-- laws are those that the callers need: the result has the same items, as many of them, and what
-- holds of all of them before holds after.
use mathlib.Core.List.{Perm}
use mathlib.Core.List.Perm
use he_thong_chung_minh_luu.Prelude.{
  All, Bool-cases, List, Ord, [], arith, before, if◌then◌else◌, inl, inr, length, refl, ◌+◌, ◌∷◌,
  ◌≡◌,
}

module _ {ℓ} {A K : Type ℓ} ⦃o : Ord K⦄ (key : A → K) where
  -- Before the first item whose key is not less.
  unfoldable pub insert_sorted : A → List A → List A
  insert_sorted x [] = x ∷ []
  insert_sorted x (y ∷ ys) = if before (key y) (key x) then y ∷ insert_sorted x ys else x ∷ y ∷ ys

  unfoldable pub sort_by : List A → List A
  unfolding insert_sorted
  sort_by [] = []
  sort_by (x ∷ xs) = insert_sorted x (sort_by xs)

  insert_sorted-perm : (x : A) (ys : List A) → Perm (insert_sorted x ys) (x ∷ ys)
  unfolding insert_sorted
  insert_sorted-perm x [] = Perm.refl (x ∷ [])
  insert_sorted-perm x (y ∷ ys) = elim (Bool-cases (before (key y) (key x))) [
    | inl less ↦ rw less (Perm.trans (Perm.cons y (insert_sorted-perm x ys)) (Perm.swap x y ys))
    | inr le ↦ rw le (Perm.refl (x ∷ y ∷ ys))
  ]

  pub sort_by-perm : (xs : List A) → Perm (sort_by xs) xs
  unfolding sort_by
  sort_by-perm [] = Perm.refl []
  sort_by-perm (x ∷ xs) =
      Perm.trans (insert_sorted-perm x (sort_by xs)) (Perm.cons x (sort_by-perm xs))

  length-insert_sorted : (x : A) (ys : List A) → length (insert_sorted x ys) ≡ length ys + 1
  unfolding insert_sorted
  length-insert_sorted x [] = omega arith
  length-insert_sorted x (y ∷ ys) = ground (arith, length-insert_sorted x ys)

  pub length-sort_by : (xs : List A) → length (sort_by xs) ≡ length xs
  unfolding sort_by
  length-sort_by [] = refl
  length-sort_by (x ∷ xs) = omega (arith, length-insert_sorted x (sort_by xs), length-sort_by xs)

  insert_All : (P : A → Type ℓ) (x : A) (ys : List A) → P x → All P ys → All P (insert_sorted x ys)
  unfolding insert_sorted
  insert_All P x [] p h = (p, tt)
  insert_All P x (y ∷ ys) p h = ground (arith, insert_All P x ys p h.1)

  pub sort_by-All : (P : A → Type ℓ) (xs : List A) → All P xs → All P (sort_by xs)
  unfolding sort_by
  sort_by-All P [] h = tt
  sort_by-All P (x ∷ xs) h = insert_All P x (sort_by xs) h.0 (sort_by-All P xs h.1)
