-- ===== src/Prelude/Exceptions.antt =====
-- Python exceptions as values. Each constructor is one of the classes that the code raises.
use mathlib.Core.Path.{◌≡◌, refl}
use mathlib.Core.Bool.{Bool, true, false}
use mathlib.Core.Logic.{◌⊎◌, inl, inr}

-- The first seven are the language's own; the others are the classes of the repository.
pub data Error : Type 0 where
  struct_error overflow assertion value_error index_error zero_division file_not_found : Error
  snapshot_mismatch cardinality_mismatch coverage_gap da_error chunk_missing : Error

-- What a call gives: its value, or the exception that it raises.
pub data Result {ℓ} (V : Type ℓ) : Type ℓ where
  err : Error → Result V
  ok : V → Result V

-- `if cond: raise e`
abbrev pub raise_if : Bool → Error → Result (Unit {0})
raise_if false e = ok tt
raise_if true e = err e

-- A step after one that returned; an exception ends the chain.
infixl 5 ◌>>=◌
abbrev pub ◌>>=◌ {ℓ κ} : {V : Type ℓ} {W : Type κ} → Result V → (V → Result W) → Result W
err e >>= next = err e
ok v >>= next = next v

infixl 5 ◌>>◌
abbrev pub ◌>>◌ {ℓ} : {W : Type ℓ} → Result (Unit {0}) → Result W → Result W
err e >> next = err e
ok _ >> next = next

-- A chain of two steps that returned: the first one did, and so did the second on its value.
pub >>=-eq-ok {ℓ κ} :
    {V : Type ℓ} {W : Type κ} (first : Result V) (next : V → Result W) {w : W}
    → (first >>= next) ≡ ok w
    → (v : V) × (first ≡ ok v) × (next v ≡ ok w)
>>=-eq-ok (err e) next returned = cc
>>=-eq-ok (ok v) next returned = (v, refl, returned)

pub >>-eq-ok {ℓ} :
    {W : Type ℓ} (first : Result (Unit {0})) (next : Result W) {w : W}
    → (first >> next) ≡ ok w
    → (first ≡ ok tt) × (next ≡ ok w)
>>-eq-ok (err e) next returned = cc
>>-eq-ok (ok tt) next returned = (refl, returned)

pub raise_if-eq-ok : (c : Bool) (e : Error) → raise_if c e ≡ ok tt → c ≡ false
raise_if-eq-ok true e h = cc
raise_if-eq-ok false e h = refl

pub ok_inj {ℓ} : {A : Type ℓ} {a b : A} → ok a ≡ ok b → a ≡ b
ok_inj e = cc

pub err-ne-ok {ℓ} : {A : Type ℓ} {e : Error} {a : A} → err e ≡ ok a → ⊥
err-ne-ok e = cc

pub Result-cases {ℓ} :
    {A : Type ℓ} (r : Result A) → ((e : Error) × (r ≡ err e)) ⊎ ((a : A) × (r ≡ ok a))
Result-cases (err e) = inl (e, refl)
Result-cases (ok a) = inr (a, refl)
