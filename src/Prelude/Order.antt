-- ===== src/Prelude/Order.antt =====
-- Strict orders as an instance: the `<` by which Python's `sorted` and `min` compare bytes, tuples
-- and numbers.
use Prim.Native.Nat.{ℕ}
use mathlib.Core.Bool.{Bool, true, false}
use mathlib.Core.Path.{◌≡◌, refl}
use mathlib.Core.List.{List, [], ◌∷◌}
use native.Mathlib.Omega.{arith}
use he_thong_chung_minh_luu.Prelude.Tests.{if◌then◌else◌, ltb}
use he_thong_chung_minh_luu.Prelude.Equality.{ℕ_eq}

pub record Ord {ℓ} (A : Type ℓ) : Type ℓ where
  pub lt : A → A → Bool
  pub lt_irrefl : (a : A) → lt a a ≡ false
  pub lt_trans : (a b c : A) → lt a b ≡ true → lt b c ≡ true → lt a c ≡ true
  pub lt_total : (a b : A) → lt a b ≡ false → lt b a ≡ false → a ≡ b

-- `a < b`
abbrev pub before {ℓ} : {A : Type ℓ} ⦃o : Ord A⦄ → A → A → Bool
before ⦃o⦄ = o.lt

pub ltb_irrefl : (a : ℕ) → ltb a a ≡ false
ltb_irrefl a = ground arith

pub ltb_trans : (a b c : ℕ) → ltb a b ≡ true → ltb b c ≡ true → ltb a c ≡ true
ltb_trans a b c h k = ground arith

pub ltb_total : (a b : ℕ) → ltb a b ≡ false → ltb b a ≡ false → a ≡ b
ltb_total a b h k = ground arith

instance abbrev pub ℕ_ord : Ord ℕ
ℕ_ord = record { lt = ltb; lt_irrefl = ltb_irrefl; lt_trans = ltb_trans; lt_total = ltb_total }

module _ {ℓ} {A : Type ℓ} ⦃o : Ord A⦄ where
  -- Lists compare at the first difference; a proper prefix is less.
  unfoldable pub lex : List A → List A → Bool
  lex [] [] = false
  lex [] (y ∷ ys) = true
  lex (x ∷ xs) [] = false
  lex (x ∷ xs) (y ∷ ys) = if o.lt x y then true else if o.lt y x then false else lex xs ys

  pub lex_irrefl : (xs : List A) → lex xs xs ≡ false
  unfolding lex
  lex_irrefl [] = refl
  lex_irrefl (x ∷ xs) = ground (arith, o.lt_irrefl x, lex_irrefl xs)

  pub lex_trans : (xs ys zs : List A) → lex xs ys ≡ true → lex ys zs ≡ true → lex xs zs ≡ true
  unfolding lex
  lex_trans [] [] zs h k = cc
  lex_trans [] (y ∷ ys) [] h k = cc
  lex_trans [] (y ∷ ys) (z ∷ zs) h k = refl
  lex_trans (x ∷ xs) [] zs h k = cc
  lex_trans (x ∷ xs) (y ∷ ys) [] h k = cc
  lex_trans (x ∷ xs) (y ∷ ys) (z ∷ zs) h k = ground (
    arith,
    o.lt_trans x y z,
    o.lt_trans y z x,
    o.lt_trans z x y,
    o.lt_total x y,
    o.lt_total y z,
    o.lt_irrefl x,
    o.lt_irrefl z,
    lex_trans xs ys zs,
  )

  pub lex_total : (xs ys : List A) → lex xs ys ≡ false → lex ys xs ≡ false → xs ≡ ys
  unfolding lex
  lex_total [] [] h k = refl
  lex_total [] (y ∷ ys) h k = cc
  lex_total (x ∷ xs) [] h k = cc
  lex_total (x ∷ xs) (y ∷ ys) h k = ground (arith, o.lt_total x y, lex_total xs ys)

module _ {ℓ} {A B : Type ℓ} ⦃o : Ord A⦄ ⦃p : Ord B⦄ where
  -- Pairs compare by the first component, then by the second.
  abbrev pub lex_pair : A × B → A × B → Bool
  lex_pair (a, b) (c, d) = if o.lt a c then true else if o.lt c a then false else p.lt b d

  pub lex_pair_irrefl : (x : A × B) → lex_pair x x ≡ false
  lex_pair_irrefl (a, b) = ground (arith, o.lt_irrefl a, p.lt_irrefl b)

  pub lex_pair_trans :
      (x y z : A × B) → lex_pair x y ≡ true → lex_pair y z ≡ true → lex_pair x z ≡ true
  lex_pair_trans (a, b) (c, d) (e, f) h k = ground (
    arith,
    o.lt_trans a c e,
    o.lt_trans c e a,
    o.lt_trans e a c,
    o.lt_total a c,
    o.lt_total c e,
    o.lt_irrefl a,
    o.lt_irrefl e,
    p.lt_trans b d f,
  )

  pub lex_pair_total : (x y : A × B) → lex_pair x y ≡ false → lex_pair y x ≡ false → x ≡ y
  lex_pair_total (a, b) (c, d) h k = ground (arith, o.lt_total a c, p.lt_total b d)

instance abbrev pub list_ord {ℓ} : {A : Type ℓ} ⦃o : Ord A⦄ → Ord (List A)
list_ord = record { lt = lex; lt_irrefl = lex_irrefl; lt_trans = lex_trans; lt_total = lex_total }

instance abbrev pub pair_ord {ℓ} : {A B : Type ℓ} ⦃o : Ord A⦄ ⦃p : Ord B⦄ → Ord (A × B)
pair_ord = record {
  lt = lex_pair;
  lt_irrefl = lex_pair_irrefl;
  lt_trans = lex_pair_trans;
  lt_total = lex_pair_total;
}
