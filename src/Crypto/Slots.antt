-- ===== src/Crypto/Slots.antt =====
-- `class SlotTree` of `common/src/engram_common/crypto.py`: the tree of a provider over a fixed number
-- of slots.
use Prim.Native.Nat.{bit_and}
use he_thong_chung_minh_luu.Prelude.{
  List, Result, [], ap, arith, eqb, err, get_or, if◌then◌else◌, index_error, length, length-set,
  ltb, lt→ltb, not, ok, only, raise_if, refl, replicate, set, suc, sym, true, value_error, zero, ℕ,
  ◌-◌, ◌<◌, ◌==◌, ◌>>◌, ◌∙◌, ◌∷◌, ◌≡◌,
}
use he_thong_chung_minh_luu.Bytes.{Bytes, bytes_eq, zeros}
use he_thong_chung_minh_luu.Crypto.{Hasher, merkle_proof, merkle_root, merkle_verify}
use he_thong_chung_minh_luu.Crypto.Merkle.{merkle_verify-merkle_proof}

pub record SlotTree : Type 0 where
  pub capacity : ℕ
  pub slots : List Bytes

-- `SlotTree.__init__`
unfoldable pub new_slots : ℕ → Result SlotTree
new_slots capacity_slots = do
  raise_if (not (bit_and capacity_slots (capacity_slots - 1) == 0)) value_error
  ok (record { capacity = capacity_slots; slots = replicate capacity_slots (zeros 32) })

-- `SlotTree.set`
unfoldable pub set_slot : ℕ → Bytes → SlotTree → Result SlotTree
set_slot slot_idx sealed_root t =
    if ltb slot_idx (length t.slots)
    then ok (record t { slots = set t.slots slot_idx sealed_root })
    else err index_error

-- `SlotTree.clear`
unfoldable pub clear_slot : ℕ → SlotTree → Result SlotTree
unfolding set_slot
clear_slot slot_idx t = set_slot slot_idx (zeros 32) t

module _ (hasher : Hasher) where
  -- `SlotTree.root` and `SlotTree.proof`
  unfoldable pub slots_root : SlotTree → Bytes
  unfolding merkle_root
  slots_root t = merkle_root hasher t.slots

  unfoldable pub slots_proof : SlotTree → ℕ → Result (List Bytes)
  unfolding merkle_proof
  slots_proof t slot_idx = merkle_proof hasher t.slots slot_idx

-- `SlotTree.used`
unfoldable pub used_slots : SlotTree → ℕ
used_slots t = length (only (λ s. not (eqb s (zeros 32))) t.slots)

get_or-set_self :
    (xs : List Bytes) (i : ℕ) (v : Bytes) → i < length xs → get_or (set xs i v) i [] ≡ v
get_or-set_self [] i v h = absurd (omega arith)
get_or-set_self (x ∷ xs) zero v h = refl
get_or-set_self (x ∷ xs) (suc i) v h = get_or-set_self xs i v (omega arith)

set-set : (xs : List Bytes) (i : ℕ) (v w : Bytes) → set (set xs i v) i w ≡ set xs i w
set-set [] i v w = refl
set-set (x ∷ xs) zero v w = refl
set-set (x ∷ xs) (suc i) v w = ap (◌∷◌ x) (set-set xs i v w)

set-get_or : (xs : List Bytes) (i : ℕ) → set xs i (get_or xs i []) ≡ xs
set-get_or [] i = refl
set-get_or (x ∷ xs) zero = refl
set-get_or (x ∷ xs) (suc i) = ap (◌∷◌ x) (set-get_or xs i)

set_slot_lem :
    (t : SlotTree) (i : ℕ) (v : Bytes)
    → i < length t.slots
    → set_slot i v t ≡ ok (record t { slots = set t.slots i v })
unfolding set_slot
set_slot_lem t i v h = rw (lt→ltb i (length t.slots) h) refl

-- After `set` on a slot of the tree the path of that slot proves the new root of the deal, and
-- `clear` of a slot that was empty before `set` brings the tree back as it was, so that the paths of
-- all other deals are those from before.
pub set_slot_opens :
    (hasher : Hasher) (t : SlotTree) (i : ℕ) (v : Bytes)
    → i < length t.slots
    → (later : SlotTree) × (set_slot i v t ≡ ok later)
      × ((path : List Bytes) × (slots_proof hasher later i ≡ ok path)
          × (merkle_verify hasher v path i (slots_root hasher later) ≡ true))
      × (get_or t.slots i [] ≡ zeros 32 → clear_slot i later ≡ ok t)
unfolding clear_slot slots_root slots_proof
set_slot_opens hasher t i v h =
    let later : SlotTree = record t { slots = set t.slots i v } in
    let n : i < length later.slots = omega (arith, length-set t.slots i v) in
    let (path, p, q) = merkle_verify-merkle_proof hasher later.slots i n in
    (
      later,
      set_slot_lem t i v h,
      (
        path,
        p,
        ap (λ x. merkle_verify hasher x path i (merkle_root hasher later.slots))
              (sym (get_or-set_self t.slots i v h))
            ∙ q,
      ),
      λ empty.
          set_slot_lem later i (zeros 32) n
          ∙ ap (λ xs. ok (record t { slots = xs }))
              (set-set t.slots i v (zeros 32)
                ∙ ap (set t.slots i) (sym empty)
                ∙ set-get_or t.slots i),
    )
