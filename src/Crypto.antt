-- ===== src/Crypto.antt =====
-- `common/src/engram_common/crypto.py`: the two hash layers and the Merkle tree over them. The two
-- digest functions of `hashlib` are arguments: `sha3` is `sha3_256` and `blake` is `blake2b` with
-- a digest of 32 bytes, each from the bytes absorbed to the digest.
mod Levels
pub mod Merkle
pub mod Binding
pub mod Roots
pub mod Slots
use he_thong_chung_minh_luu.Prelude.{
  Bool, List, Result, [], eqb, err, get_elem?, get_or, if◌then◌else◌, index_error, length, ltb,
  none, ok, some, suc, zero, ℕ, ◌%◌, ◌++◌, ◌+◌, ◌-◌, ◌/◌, ◌==◌, ◌>>=◌, ◌∷◌,
}
use he_thong_chung_minh_luu.Bytes.Struct.{join}
use he_thong_chung_minh_luu.Bytes.{Bytes, bytes_eq, zeros}

abbrev pub Digest : Type 0
Digest = Bytes → Bytes

-- A hash of several parts, as `keccak(*parts)` and `poseidon2_stub(*parts)` take them.
abbrev pub Hasher : Type 0
Hasher = List Bytes → Bytes

-- The parts are absorbed one after another.
unfoldable pub keccak : Digest → Hasher
keccak sha3 parts = sha3 (join parts)

unfoldable pub poseidon2_stub : Digest → Hasher
poseidon2_stub blake parts = blake (join parts)

-- `b"\x01"`
abbrev pub node_tag : Bytes
node_tag = 1 ∷ []

-- `_node`
unfoldable pub node : Hasher → Bytes → Bytes → Bytes
node hasher a b = hasher (node_tag ∷ a ∷ b ∷ [])

-- `level[i]`
unfoldable pub item_at {ℓ} : {A : Type ℓ} → List A → ℕ → Result A
item_at l i = elim (get_elem? l i) [ none ↦ err index_error | some x ↦ ok x ]

-- `if len(level) % 2: level.append(level[-1])`
unfoldable pub pad_level : List Bytes → List Bytes
pad_level level =
    if length level % 2 == 0 then level else level ++ get_or level (length level - 1) [] ∷ []

-- `idx ^ 1`
unfoldable pub sibling : ℕ → ℕ
sibling idx = if idx % 2 == 0 then idx + 1 else idx - 1

module _ (hasher : Hasher) where
  -- `[_node(level[i], level[i + 1], hasher) for i in range(0, len(level), 2)]`
  unfoldable pub next_level : List Bytes → List Bytes
  next_level (x ∷ y ∷ r) = node hasher x y ∷ next_level r
  next_level _ = []

  -- The loop of `merkle_root`, on fuel.
  unfoldable pub root_loop : ℕ → List Bytes → List Bytes
  root_loop zero level = level
  root_loop (suc f) level =
      let above = root_loop f (next_level (pad_level level)) in
      if ltb 1 (length level) then above else level

  unfoldable pub merkle_root : List Bytes → Bytes
  unfolding root_loop next_level pad_level
  merkle_root [] = zeros 32
  merkle_root (x ∷ xs) = get_or (root_loop (length (x ∷ xs)) (x ∷ xs)) 0 []

  -- The loop of `merkle_proof`, on fuel.
  unfoldable pub proof_loop : ℕ → List Bytes → ℕ → Result (List Bytes)
  proof_loop zero level idx = ok []
  proof_loop (suc f) level idx =
      let rest = proof_loop f (next_level (pad_level level)) (idx / 2) in
      if ltb 1 (length level)
      then (do s ← item_at (pad_level level) (sibling idx); path ← rest; ok (s ∷ path))
      else ok []

  unfoldable pub merkle_proof : List Bytes → ℕ → Result (List Bytes)
  unfolding proof_loop next_level pad_level sibling item_at
  merkle_proof leaves index = proof_loop (length leaves) leaves index

  -- The loop of `merkle_verify`: the node at the end of the path.
  unfoldable pub climb : Bytes → List Bytes → ℕ → Bytes
  climb leaf [] idx = leaf
  climb leaf (sib ∷ path) idx =
      climb (if idx % 2 == 0 then node hasher leaf sib else node hasher sib leaf) path (idx / 2)

  unfoldable pub merkle_verify : Bytes → List Bytes → ℕ → Bytes → Bool
  unfolding climb
  merkle_verify leaf path index root = eqb (climb leaf path index) root
