-- ===== src/Prelude/Equality.antt =====
-- Decidable equality as an instance: the `==` of Python's bytes, tuples and dictionary keys.
use mathlib.Core.Bool.{Bool, true, false}
use mathlib.Core.Logic.{◌≢◌}
use mathlib.Core.Path.{◌≡◌, ap}
use native.Mathlib.Decide.{ℕ_discrete}
use native.Mathlib.Omega.{arith}
use Prim.Native.Nat.{ℕ}

pub record Eq {ℓ} (A : Type ℓ) : Type ℓ where
  pub eq? : Discrete A

abbrev pub dec_eq {ℓ} : {A : Type ℓ} ⦃e : Eq A⦄ → Discrete A
dec_eq ⦃e⦄ = e.eq?

instance abbrev pub ℕ_eq : Eq ℕ
ℕ_eq = record { eq? = ℕ_discrete }

-- The Boolean value of `a == b`.
abbrev pub eqb {ℓ} : {A : Type ℓ} ⦃e : Eq A⦄ → A → A → Bool
eqb ⦃e⦄ a b = elim (e.eq? a b) [ yes _ ↦ true | no _ ↦ false ]

module _ {ℓ} {A : Type ℓ} ⦃e : Eq A⦄ where
  pub eqb→eq : (a b : A) → eqb a b ≡ true → a ≡ b
  eqb→eq a b h = ground arith

  pub eq→eqb : (a b : A) → a ≡ b → eqb a b ≡ true
  eq→eqb a b h = ground arith

  pub ne→eqb : (a b : A) → a ≢ b → eqb a b ≡ false
  ne→eqb a b h = ground arith

  pub eqb→ne : (a b : A) → eqb a b ≡ false → a ≢ b
  eqb→ne a b h = ground arith

abbrev pub pair_discrete {ℓ} : {A B : Type ℓ} ⦃e : Eq A⦄ ⦃f : Eq B⦄ → Discrete (A × B)
pair_discrete ⦃e⦄ ⦃f⦄ (a, b) (c, d) = elim (e.eq? a c) [
  | no n ↦ no (λ q. n (ap (λ x. x.0) q))
  | yes p ↦ elim (f.eq? b d) [
    | no n ↦ no (λ q. n (ap (λ x. x.1) q))
    | yes q ↦ yes (λ i. (p i, q i))
  ]
]

instance abbrev pub pair_eq {ℓ} : {A B : Type ℓ} ⦃e : Eq A⦄ ⦃f : Eq B⦄ → Eq (A × B)
pair_eq = record { eq? = pair_discrete }
