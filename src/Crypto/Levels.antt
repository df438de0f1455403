-- ===== src/Crypto/Levels.antt =====
-- How one level of the tree lies over the level below it, for `merkle_root` and `merkle_proof`.
use he_thong_chung_minh_luu.Prelude.{
  Bool-cases, List, [], arith, get_or, if◌then◌else◌, inl, inr, length, length-append, ok, refl,
  suc, zero, ℕ, ◌%◌, ◌++◌, ◌+◌, ◌-◌, ◌/◌, ◌<◌, ◌==◌, ◌∷◌, ◌≡◌,
}
use he_thong_chung_minh_luu.Bytes.{Bytes}
use he_thong_chung_minh_luu.Crypto.{Hasher, item_at, next_level, node, pad_level, sibling}

pub get_or-append_left :
    (l r : List Bytes) (i : ℕ) → i < length l → get_or (l ++ r) i [] ≡ get_or l i []
get_or-append_left [] r i h = elim h [ ]
get_or-append_left (x ∷ l) r zero h = refl
get_or-append_left (x ∷ l) r (suc i) h = get_or-append_left l r i (omega arith)

pub get_or-append_end :
    (l : List Bytes) (x : Bytes) (i : ℕ) → i ≡ length l → get_or (l ++ x ∷ []) i [] ≡ x
get_or-append_end [] x zero h = refl
get_or-append_end [] x (suc i) h = absurd (omega arith)
get_or-append_end (y ∷ l) x zero h = absurd (omega arith)
get_or-append_end (y ∷ l) x (suc i) h = get_or-append_end l x i (omega arith)

pub item_at_lem : (l : List Bytes) (i : ℕ) → i < length l → item_at l i ≡ ok (get_or l i [])
unfolding item_at
item_at_lem [] i h = elim h [ ]
item_at_lem (x ∷ l) zero h = refl
item_at_lem (x ∷ l) (suc i) h = item_at_lem l i (omega arith)

-- Padding makes the length even and keeps every node at its place.
pub length-pad_level : (l : List Bytes) → length (pad_level l) ≡ length l + length l % 2
unfolding pad_level
length-pad_level l = ground (arith, length-append l (get_or l (length l - 1) [] ∷ []))

pub get_or-pad_level :
    (l : List Bytes) (i : ℕ) → i < length l → get_or (pad_level l) i [] ≡ get_or l i []
unfolding pad_level
get_or-pad_level l i h = ground (arith, get_or-append_left l (get_or l (length l - 1) [] ∷ []) i)

module _ (hasher : Hasher) where
  pub length-next_level : (l : List Bytes) → length (next_level hasher l) ≡ length l / 2
  unfolding next_level
  length-next_level [] = omega arith
  length-next_level (x ∷ []) = omega arith
  length-next_level (x ∷ y ∷ r) = omega (arith, length-next_level r)

  -- A node of the level above joins the two nodes under it.
  pub get_or-next_level :
      (l : List Bytes) (i j k : ℕ)
      → j ≡ i + i
      → k ≡ suc j
      → k < length l
      → get_or (next_level hasher l) i [] ≡ node hasher (get_or l j []) (get_or l k [])
  unfolding next_level
  get_or-next_level [] i j k p q h = elim h [ ]
  get_or-next_level (x ∷ []) i j k p q h = absurd (omega arith)
  get_or-next_level (x ∷ y ∷ r) zero j k p q h = let e : j ≡ 0 = omega arith in rw (q, e)
  get_or-next_level (x ∷ y ∷ r) (suc i) j k p q h =
      let e : j ≡ suc (suc (i + i)) = omega arith in
      rw (q, e) (get_or-next_level r i (i + i) (suc (i + i)) refl refl (omega arith))

  abbrev above : List Bytes → List Bytes
  above l = next_level hasher (pad_level l)

  pub length-above : (l : List Bytes) → length (above l) ≡ (length l + length l % 2) / 2
  length-above l = rw (length-next_level (pad_level l), length-pad_level l)

  pub sibling-lt :
      (l : List Bytes) (i : ℕ) → i < length l → 1 < length l → sibling i < length (pad_level l)
  unfolding sibling
  sibling-lt l i h big = ground (arith, length-pad_level l)

  -- One step of a climb: from a node and its sibling to the node above them.
  pub get_or-above :
      (l : List Bytes) (i : ℕ)
      → i < length l
      → get_or (above l) (i / 2) [] ≡ (
          if i % 2 == 0
          then node hasher (get_or l i []) (get_or (pad_level l) (sibling i) [])
          else node hasher (get_or (pad_level l) (sibling i) []) (get_or l i []))
  unfolding sibling
  get_or-above l i h = elim (Bool-cases (i % 2 == 0)) [
    | inl even ↦
        rw (even, ← get_or-pad_level l i h)
          (get_or-next_level (pad_level l) (i / 2) i (i + 1) (ground arith) (omega arith)
            (ground (arith, length-pad_level l)))
    | inr odd ↦
        rw (odd, ← get_or-pad_level l i h)
          (get_or-next_level (pad_level l) (i / 2) (i - 1) i (ground arith) (ground arith)
            (ground (arith, length-pad_level l)))
  ]
