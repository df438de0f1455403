-- ===== src/Crypto/Binding.antt =====
-- What a Merkle root commits to. Each statement ends in a collision of the digest function that
-- the two openings hand over, so no assumption on the digest is needed but its length.
use mathlib.Core.List.{append-nil}
use he_thong_chung_minh_luu.Prelude.{
  All, Bool, List, [], ap₂, arith, dec_eq, eqb→eq, false, if◌then◌else◌, inl, inr, length, refl,
  sym, true, ℕ, ◌%◌, ◌++◌, ◌/◌, ◌==◌, ◌∙◌, ◌∷◌, ◌≡◌, ◌≢◌, ◌⊎◌,
}
use he_thong_chung_minh_luu.Bytes.Struct.{join}
use he_thong_chung_minh_luu.Bytes.{Bytes, bytes_eq}
use he_thong_chung_minh_luu.Crypto.{Digest, climb, keccak, merkle_verify, node}

-- Two inputs with one digest.
abbrev pub Collision : Digest → Type 0
Collision sha3 = (x : Bytes) × (y : Bytes) × (x ≢ y) × (sha3 x ≡ sha3 y)

abbrev pub Sized : List Bytes → Type 0
Sized = All (λ b. length b ≡ 32)

-- Two messages that begin with parts of one length agree in both parts.
pub append_inj {ℓ} :
    {A : Type ℓ} (a a' b b' : List A)
    → length a ≡ length a'
    → a ++ b ≡ a' ++ b'
    → (a ≡ a') × (b ≡ b')
append_inj [] [] b b' h e = (refl, e)
append_inj [] (x ∷ a') b b' h e = absurd (omega arith)
append_inj (x ∷ a) [] b b' h e = absurd (omega arith)
append_inj (x ∷ a) (y ∷ a') b b' h e =
    let (p, q) = append_inj a a' b b' (omega arith) (cc) in let r : x ≡ y = cc in (ap₂ ◌∷◌ r p, q)

module _ (sha3 : Digest) where
  -- Equal digests: equal inputs or a collision.
  pub digest_binding : (x y : Bytes) → sha3 x ≡ sha3 y → (x ≡ y) ⊎ Collision sha3
  digest_binding x y e = elim (dec_eq x y) [ yes p ↦ inl p | no n ↦ inr (x, y, n, e) ]

  pub node_binding :
      (a b a' b' : Bytes)
      → length a ≡ length a'
      → node (keccak sha3) a b ≡ node (keccak sha3) a' b'
      → ((a ≡ a') × (b ≡ b')) ⊎ Collision sha3
  unfolding node keccak join
  node_binding a b a' b' h e =
      elim (digest_binding (1 ∷ (a ++ (b ++ []))) (1 ∷ (a' ++ (b' ++ []))) e) [
        | inr c ↦ inr c
        | inl p ↦
            let (q, r) = append_inj a a' (b ++ []) (b' ++ []) h (cc) in
            inl (q, sym (append-nil b) ∙ r ∙ append-nil b')
      ]

module _ (sha3 : Digest) (sized : (x : Bytes) → length (sha3 x) ≡ 32) where
  length-node : (a b : Bytes) → length (node (keccak sha3) a b) ≡ 32
  unfolding node keccak
  length-node a b = sized _

  -- One step of a climb, at whichever side the index puts the node.
  step_binding :
      (even : Bool) (a s a' s' : Bytes)
      → length a ≡ length a'
      → length s ≡ length s'
      → (if even then node (keccak sha3) a s else node (keccak sha3) s a)
        ≡ (if even then node (keccak sha3) a' s' else node (keccak sha3) s' a')
      → ((a ≡ a') × (s ≡ s')) ⊎ Collision sha3
  step_binding true a s a' s' h k e = node_binding sha3 a s a' s' h e
  step_binding false a s a' s' h k e = elim (node_binding sha3 s a s' a' k e) [
    | inl (p, q) ↦ inl (q, p)
    | inr c ↦ inr c
  ]

  length-step :
      (even : Bool) (a s : Bytes)
      → length (if even then node (keccak sha3) a s else node (keccak sha3) s a) ≡ 32
  length-step true a s = length-node a s
  length-step false a s = length-node s a

  climb_binding :
      (path path' : List Bytes) (a a' : Bytes) (i : ℕ)
      → length path ≡ length path'
      → Sized (a ∷ path)
      → Sized (a' ∷ path')
      → climb (keccak sha3) a path i ≡ climb (keccak sha3) a' path' i
      → ((a ≡ a') × (path ≡ path')) ⊎ Collision sha3
  unfolding climb
  climb_binding [] [] a a' i h s s' e = inl (e, refl)
  climb_binding [] (y ∷ q) a a' i h s s' e = absurd (omega arith)
  climb_binding (x ∷ p) [] a a' i h s s' e = absurd (omega arith)
  climb_binding (x ∷ p) (y ∷ q) a a' i h s s' e =
      elim (climb_binding p q _ _ (i / 2) (omega arith) (length-step (i % 2 == 0) a x, s.1.1)
        (length-step (i % 2 == 0) a' y, s'.1.1) e) [
          | inr c ↦ inr c
          | inl (below, rest) ↦
              elim (step_binding (i % 2 == 0) a x a' y (omega arith) (omega arith) below) [
                | inr c ↦ inr c
                | inl (leaf, sib) ↦ inl (leaf, ap₂ ◌∷◌ sib rest)
              ]
        ]

  -- Two leaves that `merkle_verify` accepts at one index of one root, by paths of one length, are
  -- the same leaf, and the paths are the same; otherwise the two openings hand over a collision.
  pub merkle_verify_binding :
      (root a a' : Bytes) (path path' : List Bytes) (i : ℕ)
      → length path ≡ length path'
      → Sized (a ∷ path)
      → Sized (a' ∷ path')
      → merkle_verify (keccak sha3) a path i root ≡ true
      → merkle_verify (keccak sha3) a' path' i root ≡ true
      → ((a ≡ a') × (path ≡ path')) ⊎ Collision sha3
  unfolding merkle_verify
  merkle_verify_binding root a a' path path' i h s s' v v' =
      climb_binding path path' a a' i h s s' (eqb→eq _ _ v ∙ sym (eqb→eq _ _ v'))
