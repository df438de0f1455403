-- ===== src/Prelude/Members.antt =====
-- The items that a filter keeps, and what holds of all of them.
use mathlib.Core.Logic.Or
use mathlib.Core.Logic.{inl, inr}
use mathlib.Core.Path.{◌≡◌, ap, subst, sym, ◌∙◌}
use mathlib.Core.Bool.{Bool, true}
use mathlib.Core.List.{
  List, [], ◌∷◌, map, Mem, Mem-prop, eq-or-mem_of_mem-cons, mem-cons_of_mem, mem-cons_self,
  not-mem-nil,
}
use Prim.Native.Nat.{◌≤◌}
use native.Mathlib.Omega.{arith}
use he_thong_chung_minh_luu.Prelude.Tests.{Bool-cases, if◌then◌else◌}
use he_thong_chung_minh_luu.Prelude.Lists.{All, length, only}

pub All-only {ℓ} :
    {A : Type ℓ} (P : A → Type 0) (p : A → Bool) (xs : List A)
    → All P xs
    → All (λ x. P x × (p x ≡ true)) (only p xs)
All-only P p [] a = tt
All-only P p (x ∷ xs) a = elim (Bool-cases (p x)) [
  | inl kept ↦ rw kept ((a.0, kept), All-only P p xs a.1)
  | inr gone ↦ rw gone (All-only P p xs a.1)
]

pub All-image {ℓ κ} :
    {A : Type ℓ} {B : Type κ} (f : A → B) (P : B → Type 0) (xs : List A)
    → All (λ x. P (f x)) xs
    → All P (map f xs)
All-image f P [] a = tt
All-image f P (x ∷ xs) a = (a.0, All-image f P xs a.1)

pub mem-only {ℓ} :
    {A : Type ℓ} (p : A → Bool) (xs : List A) (x : A) → Mem x xs → p x ≡ true → Mem x (only p xs)
mem-only p [] x m h = absurd (not-mem-nil m)
mem-only p (y ∷ xs) x m h =
    Or.elim Mem-prop (eq-or-mem_of_mem-cons m)
      (λ q. rw (ap p (sym q) ∙ h) (subst (λ z. Mem x (z ∷ only p xs)) q mem-cons_self))
      (λ later. elim (Bool-cases (p y)) [
        | inl kept ↦ rw kept (mem-cons_of_mem y (mem-only p xs x later h))
        | inr gone ↦ rw gone (mem-only p xs x later h)
      ])

pub length-only {ℓ} : {A : Type ℓ} (p : A → Bool) (xs : List A) → length (only p xs) ≤ length xs
length-only p [] = omega arith
length-only p (x ∷ xs) = ground (arith, length-only p xs)

pub only-mem {ℓ} : {A : Type ℓ} (p : A → Bool) (xs : List A) (x : A) → Mem x (only p xs) → Mem x xs
only-mem p [] x m = m
only-mem p (y ∷ xs) x m = elim (Bool-cases (p y)) [
  | inl kept ↦
      Or.elim Mem-prop
        (eq-or-mem_of_mem-cons (subst (λ b. Mem x (if b then y ∷ only p xs else only p xs)) kept m))
        (λ q. subst (λ z. Mem x (z ∷ xs)) q mem-cons_self)
        (λ later. mem-cons_of_mem y (only-mem p xs x later))
  | inr gone ↦
      mem-cons_of_mem y
        (only-mem p xs x (subst (λ b. Mem x (if b then y ∷ only p xs else only p xs)) gone m))
]
