-- ===== src/Lottery/Draw.antt =====
-- The weighted draw without replacement always finds a worker, so it fills every place it can.
use mathlib.Core.List.{Perm, append_assoc}
use mathlib.Core.List.Perm
use he_thong_chung_minh_luu.Prelude.{
  Bool-cases, List, [], arith, dec_eq, false, inl, inr, length, length-append, ltb, ok, refl, some,
  subst, suc, sym, take, zero, ℕ, ℕ_eq, ◌%◌, ◌++◌, ◌+◌, ◌<◌, ◌==◌, ◌>>=◌, ◌^◌, ◌∙◌, ◌∷◌, ◌≡◌, ◌≢◌,
  ◌≤◌,
}
use he_thong_chung_minh_luu.Bytes.{Bytes, bytes_eq, from_bytes_le, le_digits}
use he_thong_chung_minh_luu.Crypto.{Digest, keccak}
use he_thong_chung_minh_luu.Lottery.{Store, draw, pick, stakes, ticket}
use he_thong_chung_minh_luu.Bytes.Fields.{to_bytes_le_lem}

-- A ticket below the sum of the stakes falls to a worker.
pick-some :
    (s : Store) (x acc : ℕ) (ws : List ℕ)
    → acc ≤ x
    → x < acc + stakes s ws
    → (v : ℕ) × (others : List ℕ) × (pick s x acc ws ≡ some (v, others))
      × Perm (v ∷ others) ws
      × (length others + 1 ≡ length ws)
unfolding pick stakes
pick-some s x acc [] h k = absurd (omega arith)
pick-some s x acc (w ∷ ws) h k = elim (Bool-cases (ltb x (acc + (s w).stake_wei))) [
  | inl here ↦ (w, ws, rw (here, pick), Perm.refl (w ∷ ws), omega arith)
  | inr on ↦
      let le : acc + (s w).stake_wei ≤ x = ground arith in
      let (v, others, e, p, n) = pick-some s x (acc + (s w).stake_wei) ws le (omega arith) in
      (
        v,
        w ∷ others,
        rw (on, e, pick),
        Perm.trans (Perm.swap w v others) (Perm.cons w p),
        omega (arith, n),
      )
]

-- What a draw of `n` rounds leaves: `n` more chosen, and nobody lost or doubled.
pub record IsDrawn (chosen remaining : List ℕ) (n : ℕ) (out : List ℕ × List ℕ) : Type 0 where
  pub filled : length out.0 ≡ length chosen + n
  pub same : Perm (out.0 ++ out.1) (chosen ++ remaining)

ticket-ok :
    (sha3 : Digest) (beacon : Bytes) (shard i : ℕ)
    → shard < 256 ^ 4
    → i < 256 ^ 2
    → (t : ℕ) × (ticket sha3 beacon shard i ≡ ok t)
unfolding ticket
ticket-ok sha3 beacon shard i h k = (
  from_bytes_le (take 16 (keccak sha3 (beacon ∷ le_digits 4 shard ∷ le_digits 2 i ∷ []))),
  rw (to_bytes_le_lem 4 shard h, to_bytes_le_lem 2 i k),
)

module _ (sha3 : Digest) (s : Store) (beacon : Bytes) (shard : ℕ) where
  draw-none_staked :
      (i n w : ℕ) (chosen ws : List ℕ)
      → stakes s (w ∷ ws) ≡ 0
      → draw sha3 s beacon shard i (suc n) chosen (w ∷ ws)
        ≡ draw sha3 s beacon shard (i + 1) n (chosen ++ w ∷ []) ws
  unfolding draw
  draw-none_staked i n w chosen ws e = ground arith

  draw-picked :
      (i n w t v : ℕ) (chosen ws others : List ℕ)
      → stakes s (w ∷ ws) ≢ 0
      → ticket sha3 beacon shard i ≡ ok t
      → pick s (t % stakes s (w ∷ ws)) 0 (w ∷ ws) ≡ some (v, others)
      → draw sha3 s beacon shard i (suc n) chosen (w ∷ ws)
        ≡ draw sha3 s beacon shard (i + 1) n (chosen ++ v ∷ []) others
  unfolding draw
  draw-picked i n w t v chosen ws others staked e p =
      let ne : (stakes s (w ∷ ws) == 0) ≡ false = ground arith in rw (ne, e, ◌>>=◌, p, draw)

  -- One more chosen, with the rest of the rounds.
  extend :
      (v n : ℕ) (chosen ws others : List ℕ) (out : List ℕ × List ℕ)
      → Perm (v ∷ others) ws
      → IsDrawn (chosen ++ v ∷ []) others n out
      → IsDrawn chosen ws (suc n) out
  extend v n chosen ws others out p d = record {
    filled = omega (arith, d.filled, length-append chosen (v ∷ []));
    same = Perm.trans d.same (
        subst (λ xs. Perm xs (chosen ++ ws)) (sym (append_assoc chosen (v ∷ []) others))
          (Perm.append_left chosen p));
  }

  -- A draw of as many rounds as there are workers, or fewer, fills every place.
  pub draw-ok :
      (i n : ℕ) (chosen ws : List ℕ)
      → shard < 256 ^ 4
      → i + n ≤ 256 ^ 2
      → n ≤ length ws
      → (out : List ℕ × List ℕ) × (draw sha3 s beacon shard i n chosen ws ≡ ok out)
        × IsDrawn chosen ws n out
  unfolding draw
  draw-ok i zero chosen ws h k m =
      ((chosen, ws), refl, record { filled = omega arith; same = Perm.refl (chosen ++ ws) })
  draw-ok i (suc n) chosen [] h k m = absurd (omega arith)
  draw-ok i (suc n) chosen (w ∷ ws) h k m = elim (dec_eq (stakes s (w ∷ ws)) 0) [
    | yes e ↦
        let (out, q, d) = draw-ok (i + 1) n (chosen ++ w ∷ []) ws h (omega arith) (omega arith) in
        (
          out,
          draw-none_staked i n w chosen ws e ∙ q,
          extend w n chosen (w ∷ ws) ws out (Perm.refl (w ∷ ws)) d,
        )
    | no ne ↦
        let (t, e) = ticket-ok sha3 beacon shard i h (omega arith) in
        let lt : t % stakes s (w ∷ ws) < 0 + stakes s (w ∷ ws) = ground arith in
        let (v, others, p, perm, size) =
          pick-some s (t % stakes s (w ∷ ws)) 0 (w ∷ ws) (omega arith) lt in
        let (out, q, d) =
          draw-ok (i + 1) n (chosen ++ v ∷ []) others h (omega arith) (omega (arith, size)) in
        (
          out,
          draw-picked i n w t v chosen ws others ne e p ∙ q,
          extend v n chosen (w ∷ ws) others out perm d,
        )
  ]
