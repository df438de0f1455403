-- ===== src/Crypto/Roots.antt =====
-- A Merkle root commits to its whole list of leaves, once the number of leaves is known: the point
-- that `crypto.py` leaves to the check of `num_verified`.
use mathlib.Core.List.{append-nil}
use he_thong_chung_minh_luu.Prelude.{
  Bool-cases, List, [], ap, arith, get_or, inl, inr, length, length-append, ltb, ltb→lt, lt→ltb,
  refl, suc, sym, zero, ℕ, ◌%◌, ◌++◌, ◌+◌, ◌-◌, ◌<◌, ◌==◌, ◌∙◌, ◌∷◌, ◌≡◌, ◌≤◌, ◌⊎◌,
}
use he_thong_chung_minh_luu.Bytes.{Bytes, bytes_eq}
use he_thong_chung_minh_luu.Crypto.{
  Digest, Hasher, keccak, merkle_root, next_level, node, pad_level, root_loop,
}
use he_thong_chung_minh_luu.Crypto.Levels.{length-above, length-next_level, length-pad_level}
use he_thong_chung_minh_luu.Crypto.Merkle.{length-root_loop}
use he_thong_chung_minh_luu.Crypto.Binding.{Collision, Sized, append_inj, node_binding}

-- Padding adds entries at the end only.
pad_level-append : (l : List Bytes) → (t : List Bytes) × (pad_level l ≡ l ++ t)
unfolding pad_level
pad_level-append l = elim (Bool-cases (length l % 2 == 0)) [
  | inl even ↦ ([], rw even (sym (append-nil l)))
  | inr odd ↦ (get_or l (length l - 1) [] ∷ [], rw odd)
]

pad_level_inj : (l l' : List Bytes) → length l ≡ length l' → pad_level l ≡ pad_level l' → l ≡ l'
pad_level_inj l l' h e =
    let (t, p) = pad_level-append l in
    let (t', p') = pad_level-append l' in (append_inj l l' t t' h (sym p ∙ e ∙ p')).0

get_or-Sized : (l : List Bytes) (i : ℕ) → Sized l → i < length l → length (get_or l i []) ≡ 32
get_or-Sized [] i s h = elim h [ ]
get_or-Sized (x ∷ l) zero s h = s.0
get_or-Sized (x ∷ l) (suc i) s h = get_or-Sized l i s.1 (omega arith)

append-Sized : (l : List Bytes) (x : Bytes) → Sized l → length x ≡ 32 → Sized (l ++ x ∷ [])
append-Sized [] x s h = (h, tt)
append-Sized (y ∷ l) x s h = (s.0, append-Sized l x s.1 h)

pad_level-Sized : (l : List Bytes) → Sized l → Sized (pad_level l)
unfolding pad_level
pad_level-Sized l s = elim (Bool-cases (length l % 2 == 0)) [
  | inl even ↦ rw even s
  | inr odd ↦ rw odd (append-Sized l _ s (get_or-Sized l (length l - 1) s (ground arith)))
]

single : (l m : List Bytes) → length l ≡ 1 → length m ≡ 1 → get_or l 0 [] ≡ get_or m 0 [] → l ≡ m
single [] m h k e = absurd (omega arith)
single (x ∷ []) [] h k e = absurd (omega arith)
single (x ∷ []) (y ∷ []) h k e = cc
single (x ∷ []) (y ∷ z ∷ m) h k e = absurd (omega arith)
single (x ∷ w ∷ l) m h k e = absurd (omega arith)

pad_level_odd :
    (l : List Bytes) → length l % 2 ≡ 1 → pad_level l ≡ l ++ get_or l (length l - 1) [] ∷ []
unfolding pad_level
pad_level_odd l h = ground arith

pad_level_even : (l : List Bytes) → length l % 2 ≡ 0 → pad_level l ≡ l
unfolding pad_level
pad_level_even l h = ground arith

module _ (hasher : Hasher) where
  root_loop-suc :
      (f : ℕ) (l : List Bytes)
      → 1 < length l
      → root_loop hasher (suc f) l ≡ root_loop hasher f (next_level hasher (pad_level l))
  unfolding root_loop
  root_loop-suc f l h = rw (lt→ltb _ _ h)

  -- More fuel than there are leaves changes nothing.
  root_loop_fuel :
      (f : ℕ) (l : List Bytes)
      → length l ≤ f + 1
      → root_loop hasher (suc f) l ≡ root_loop hasher f l
  unfolding root_loop
  root_loop_fuel zero l h = ground arith
  root_loop_fuel (suc f) l h = elim (Bool-cases (ltb 1 (length l))) [
    | inr one ↦ rw one
    | inl more ↦
        rw more (
          root_loop_fuel f (next_level hasher (pad_level l))
            (ground (arith, length-above hasher l)))
  ]

  merkle_root-loop :
      (l : List Bytes)
      → 0 < length l
      → merkle_root hasher l ≡ get_or (root_loop hasher (length l) l) 0 []
  unfolding merkle_root
  merkle_root-loop [] h = elim h [ ]
  merkle_root-loop (x ∷ l) h = refl

  -- The list whose last leaf is doubled has the same root: the ambiguity that `crypto.py` keeps on
  -- purpose, at every odd number of leaves above one.
  pub merkle_root_doubled :
      (l : List Bytes)
      → length l % 2 ≡ 1
      → 1 < length l
      → merkle_root hasher (l ++ get_or l (length l - 1) [] ∷ []) ≡ merkle_root hasher l
  merkle_root_doubled l odd h =
      let p : List Bytes = l ++ get_or l (length l - 1) [] ∷ [] in
      let long : length p ≡ suc (length l) =
        omega (arith, length-append l (get_or l (length l - 1) [] ∷ [])) in
      merkle_root-loop p (omega arith)
      ∙ ap (λ n. get_or (root_loop hasher n p) 0 []) long
      ∙ ap (λ m. get_or m 0 [])
          (root_loop-suc (length l) p (omega arith)
            ∙ ap (λ m. root_loop hasher (length l) (next_level hasher m))
                (pad_level_even p (omega arith) ∙ sym (pad_level_odd l odd))
            ∙ sym (root_loop-suc (length l) l h)
            ∙ root_loop_fuel (length l) l (omega arith))
      ∙ sym (merkle_root-loop l (omega arith))

module _ (sha3 : Digest) (sized : (x : Bytes) → length (sha3 x) ≡ 32) where
  next_level-Sized : (l : List Bytes) → Sized (next_level (keccak sha3) l)
  unfolding next_level node keccak
  next_level-Sized [] = tt
  next_level-Sized (x ∷ []) = tt
  next_level-Sized (x ∷ y ∷ r) = (sized _, next_level-Sized r)

  next_level_binding :
      (l l' : List Bytes)
      → length l ≡ length l'
      → length l % 2 ≡ 0
      → Sized l
      → Sized l'
      → next_level (keccak sha3) l ≡ next_level (keccak sha3) l'
      → (l ≡ l') ⊎ Collision sha3
  unfolding next_level
  next_level_binding [] [] h even s s' e = inl refl
  next_level_binding [] (x ∷ l') h even s s' e = absurd (omega arith)
  next_level_binding (x ∷ l) [] h even s s' e = absurd (omega arith)
  next_level_binding (x ∷ []) (y ∷ l') h even s s' e = absurd (omega arith)
  next_level_binding (x ∷ a ∷ l) (y ∷ []) h even s s' e = absurd (omega arith)
  next_level_binding (x ∷ a ∷ l) (y ∷ b ∷ l') h even s s' e =
      elim (next_level_binding l l' (omega arith) (omega arith) s.1.1 s'.1.1 (cc)) [
        | inr c ↦ inr c
        | inl rest ↦ elim (node_binding sha3 x a y b (omega arith) (cc)) [
          | inr c ↦ inr c
          | inl (p, q) ↦ inl (cc)
        ]
      ]

  root_loop_binding :
      (f : ℕ) (l l' : List Bytes)
      → length l ≡ length l'
      → Sized l
      → Sized l'
      → root_loop (keccak sha3) f l ≡ root_loop (keccak sha3) f l'
      → (l ≡ l') ⊎ Collision sha3
  unfolding root_loop
  root_loop_binding zero l l' h s s' e = inl e
  root_loop_binding (suc f) l l' h s s' e = elim (Bool-cases (ltb 1 (length l))) [
    | inr one ↦ inl (rw (one, ← h, one) at e)
    | inl more ↦
        let up : List Bytes → List Bytes = λ m. next_level (keccak sha3) (pad_level m) in
        let same : length (pad_level l) ≡ length (pad_level l') =
          omega (arith, length-pad_level l, length-pad_level l', ap (λ (n : ℕ). n % 2) h) in
        elim (root_loop_binding f (up l) (up l')
          (omega (
            arith,
            same,
            length-next_level (keccak sha3) (pad_level l),
            length-next_level (keccak sha3) (pad_level l'),
          ))
          (next_level-Sized (pad_level l)) (next_level-Sized (pad_level l'))
          (sym (root_loop-suc (keccak sha3) f l (ltb→lt _ _ more))
            ∙ e
            ∙ root_loop-suc (keccak sha3) f l' (ltb→lt _ _ (rw (← h) more)))) [
              | inr c ↦ inr c
              | inl p ↦
                  elim (next_level_binding (pad_level l) (pad_level l') same
                    (omega (arith, length-pad_level l)) (pad_level-Sized l s)
                    (pad_level-Sized l' s') p) [
                      | inr c ↦ inr c
                      | inl q ↦ inl (pad_level_inj l l' h q)
                    ]
            ]
  ]

  -- Two lists of equally many digests with one root are the same list, or hand over a collision.
  pub merkle_root_binding :
      (l l' : List Bytes)
      → length l ≡ length l'
      → Sized l
      → Sized l'
      → merkle_root (keccak sha3) l ≡ merkle_root (keccak sha3) l'
      → (l ≡ l') ⊎ Collision sha3
  merkle_root_binding [] [] h s s' e = inl refl
  merkle_root_binding [] (x ∷ l') h s s' e = absurd (omega arith)
  merkle_root_binding (x ∷ l) [] h s s' e = absurd (omega arith)
  merkle_root_binding (x ∷ l) (y ∷ l') h s s' e =
      let one : length (root_loop (keccak sha3) (length (x ∷ l)) (x ∷ l)) ≡ 1 =
        length-root_loop (keccak sha3) (length (x ∷ l)) (x ∷ l) (omega arith) (omega arith) in
      let one' : length (root_loop (keccak sha3) (length (x ∷ l)) (y ∷ l')) ≡ 1 =
        length-root_loop (keccak sha3) (length (x ∷ l)) (y ∷ l') (omega arith) (omega arith) in
      root_loop_binding (length (x ∷ l)) (x ∷ l) (y ∷ l') h s s' (
        single _ _ one one' (
          sym (merkle_root-loop (keccak sha3) (x ∷ l) (omega arith))
          ∙ e
          ∙ rw (← h) at (merkle_root-loop (keccak sha3) (y ∷ l') (omega arith))))
