-- ===== src/Dict/Members.antt =====
-- The test `a in xs` of the code and the membership of a list.
use mathlib.Core.Logic.Or
use mathlib.Core.List.{Mem, eq-or-mem_of_mem-cons, mem-cons_of_mem, mem-cons_self, not-mem-nil}
use he_thong_chung_minh_luu.Prelude.{Eq, List, [], arith, dec_eq, subst, true, ◌∷◌, ◌≡◌}
use he_thong_chung_minh_luu.Dict.{member}

module _ {ℓ} {A : Type ℓ} ⦃e : Eq A⦄ where
  pub member_of_mem : (a : A) (xs : List A) → Mem a xs → member a xs ≡ true
  unfolding member
  member_of_mem a [] m = absurd (not-mem-nil m)
  member_of_mem a (x ∷ xs) m =
      Or.elim (hlevel) (eq-or-mem_of_mem-cons m) (λ q. ground arith)
        (λ later. let rest = member_of_mem a xs later in ground arith)

  pub mem_of_member : (a : A) (xs : List A) → member a xs ≡ true → Mem a xs
  unfolding member
  mem_of_member a [] h = cc
  mem_of_member a (x ∷ xs) h = elim (dec_eq a x) [
    | yes q ↦ subst (λ z. Mem a (z ∷ xs)) q mem-cons_self
    | no n ↦ mem-cons_of_mem x (mem_of_member a xs (ground arith))
  ]
