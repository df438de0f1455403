-- ===== src/Dict.antt =====
-- Python's `dict` as an association list in insertion order, and `set` as a list of members.
pub mod Keyed
pub mod Members
use he_thong_chung_minh_luu.Prelude.{
  Bool, Eq, List, Option, [], arith, dec_eq, false, if◌then◌else◌, ite, length, none, refl, some,
  true, ◌+◌, ◌∷◌, ◌≡◌, ◌≢◌,
}

abbrev pub Dict {ℓ} : Type ℓ → Type ℓ → Type ℓ
Dict K V = List (K × V)

module _ {ℓ} {K V : Type ℓ} ⦃e : Eq K⦄ where
  -- `d.get(k)`
  unfoldable pub lookup : K → Dict K V → Option V
  lookup k [] = none
  lookup k ((j, v) ∷ d) = ite (dec_eq k j) (some v) (lookup k d)

  -- `d[k] = v`: a known key keeps its place.
  unfoldable pub insert : K → V → Dict K V → Dict K V
  insert k v [] = (k, v) ∷ []
  insert k v ((j, w) ∷ d) = ite (dec_eq k j) ((j, v) ∷ d) ((j, w) ∷ insert k v d)

  pub lookup-nil : (k : K) → lookup k [] ≡ none
  unfolding lookup
  lookup-nil k = refl

  pub lookup-insert_self : (k : K) (v : V) (d : Dict K V) → lookup k (insert k v d) ≡ some v
  unfolding lookup insert
  lookup-insert_self k v [] = ground arith
  lookup-insert_self k v ((j, w) ∷ d) = ground (arith, lookup-insert_self k v d)

  pub lookup-insert_ne :
      (j k : K) (v : V) (d : Dict K V) → j ≢ k → lookup j (insert k v d) ≡ lookup j d
  unfolding lookup insert
  lookup-insert_ne j k v [] h = ground arith
  lookup-insert_ne j k v ((i, w) ∷ d) h = ground (arith, lookup-insert_ne j k v d h)

  -- A reading after a write, at any key.
  pub lookup-insert :
      (j k : K) (v : V) (d : Dict K V)
      → lookup j (insert k v d) ≡ ite (dec_eq j k) (some v) (lookup j d)
  lookup-insert j k v d = elim (dec_eq j k) [
    | yes p ↦ ground (arith, lookup-insert_self k v d)
    | no p ↦ ground (arith, lookup-insert_ne j k v d p)
  ]

  pub length-insert_new :
      (k : K) (v : V) (d : Dict K V) → lookup k d ≡ none → length (insert k v d) ≡ length d + 1
  unfolding lookup insert
  length-insert_new k v [] h = omega arith
  length-insert_new k v ((j, w) ∷ d) h = ground (arith, length-insert_new k v d)

  pub length-insert_old :
      (k : K) (v w : V) (d : Dict K V) → lookup k d ≡ some w → length (insert k v d) ≡ length d
  unfolding lookup insert
  length-insert_old k v w [] h = cc
  length-insert_old k v w ((j, u) ∷ d) h = ground (arith, length-insert_old k v w d)

module _ {ℓ} {A : Type ℓ} ⦃e : Eq A⦄ where
  -- `a in s`
  unfoldable pub member : A → List A → Bool
  member a [] = false
  member a (x ∷ xs) = ite (dec_eq a x) true (member a xs)

  -- `s.add(a)`
  unfoldable pub add : A → List A → List A
  unfolding member
  add a xs = if member a xs then xs else a ∷ xs

  pub member-add_self : (a : A) (xs : List A) → member a (add a xs) ≡ true
  unfolding add
  member-add_self a xs = ground arith

  pub member-add_ne : (b a : A) (xs : List A) → b ≢ a → member b (add a xs) ≡ member b xs
  unfolding add
  member-add_ne b a xs h = ground arith

  -- `set(xs)`
  unfoldable pub set_of : List A → List A
  unfolding add
  set_of [] = []
  set_of (x ∷ xs) = add x (set_of xs)

  pub member-set_of : (a : A) (xs : List A) → member a (set_of xs) ≡ member a xs
  unfolding member set_of
  member-set_of a [] = refl
  member-set_of a (x ∷ xs) = elim (dec_eq a x) [
    | yes same ↦ ground (arith, member-add_self x (set_of xs))
    | no other ↦ ground (arith, member-add_ne a x (set_of xs) other, member-set_of a xs)
  ]
