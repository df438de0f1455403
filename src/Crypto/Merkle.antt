-- ===== src/Crypto/Merkle.antt =====
-- The Merkle tree of `crypto.py`: the root is reached, and the path that `merkle_proof` gives for
-- an index is the one that `merkle_verify` accepts.
use he_thong_chung_minh_luu.Prelude.{
  Bool-cases, List, [], arith, eq→eqb, get_or, inl, inr, length, ltb, ltb→lt, ok, refl, suc, true,
  zero, ℕ, ◌+◌, ◌/◌, ◌<◌, ◌∷◌, ◌≡◌, ◌≤◌,
}
use he_thong_chung_minh_luu.Bytes.{Bytes, bytes_eq}
use he_thong_chung_minh_luu.Crypto.{
  Hasher, climb, merkle_proof, merkle_root, merkle_verify, next_level, pad_level, proof_loop,
  root_loop, sibling,
}
use he_thong_chung_minh_luu.Crypto.Levels.{get_or-above, item_at_lem, length-above, sibling-lt}

module _ (hasher : Hasher) where
  -- The loop ends with one node, within as many rounds as there are leaves.
  pub length-root_loop :
      (f : ℕ) (l : List Bytes) → 0 < length l → length l ≤ f + 1 → length (root_loop hasher f l) ≡ 1
  unfolding root_loop
  length-root_loop zero l h b = omega arith
  length-root_loop (suc f) l h b =
      ground (arith, length-above hasher l, length-root_loop f (next_level hasher (pad_level l)))

  proof_loop_lem :
      (f : ℕ) (l : List Bytes) (i : ℕ)
      → i < length l
      → length l ≤ f + 1
      → (path : List Bytes) × (proof_loop hasher f l i ≡ ok path)
        × (climb hasher (get_or l i []) path i ≡ get_or (root_loop hasher f l) 0 [])
  unfolding proof_loop root_loop climb
  proof_loop_lem zero l i h b = let e : i ≡ 0 = omega arith in ([], refl, rw e)
  proof_loop_lem (suc f) l i h b = elim (Bool-cases (ltb 1 (length l))) [
    | inr one ↦ let e : i ≡ 0 = ground arith in ([], rw one, rw one (rw e))
    | inl more ↦
        let (path, p, q) =
          proof_loop_lem f (next_level hasher (pad_level l)) (i / 2)
            (ground (arith, length-above hasher l)) (ground (arith, length-above hasher l)) in
        (
          get_or (pad_level l) (sibling i) [] ∷ path,
          rw (
            more,
            item_at_lem (pad_level l) (sibling i) (sibling-lt hasher l i h (ltb→lt _ _ more)),
            p,
          ),
          rw (more, ← get_or-above hasher l i h) q,
        )
  ]

  -- For every index of the list `merkle_proof` returns a path, and `merkle_verify` accepts it with
  -- the leaf of that index against `merkle_root`.
  pub merkle_verify-merkle_proof :
      (leaves : List Bytes) (i : ℕ)
      → i < length leaves
      → (path : List Bytes) × (merkle_proof hasher leaves i ≡ ok path)
        × (merkle_verify hasher (get_or leaves i []) path i (merkle_root hasher leaves) ≡ true)
  unfolding merkle_proof merkle_verify merkle_root
  merkle_verify-merkle_proof [] i h = elim h [ ]
  merkle_verify-merkle_proof (x ∷ xs) i h =
      let (path, p, q) = proof_loop_lem (length (x ∷ xs)) (x ∷ xs) i h (omega arith) in
      (path, p, eq→eqb _ _ q)
