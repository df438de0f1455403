-- ===== src/Challenge/Spread.antt =====
-- The challenges of a deal lie in its range, one in each stretch of it.
use he_thong_chung_minh_luu.Prelude.{
  List, [], arith, false, get_or, length, max, min, ok, refl, subst, suc, zero, ℕ, ℕ_eq, ◌%◌, ◌*◌,
  ◌+◌, ◌-◌, ◌/◌, ◌<◌, ◌==◌, ◌^◌, ◌∙◌, ◌∷◌, ◌≡◌, ◌≤◌,
}
use he_thong_chung_minh_luu.Bytes.{Bytes, le_digits}
use he_thong_chung_minh_luu.Bytes.Fields.{to_bytes_le_lem}
use he_thong_chung_minh_luu.Crypto.{Digest, poseidon2_stub}
use he_thong_chung_minh_luu.Challenge.{challenge_at, head_number, spread_challenge, spread_loop}

-- A challenge of round `i` lies in the range of the deal and in the `i`-th stretch of it.
abbrev pub IsSpread : ℕ → ℕ → ℕ → ℕ → ℕ → Type 0
IsSpread offset count_chunks bucket i j =
    (offset + i * bucket ≤ j) × (j < offset + (i + 1) * bucket) × (j < offset + count_chunks)

rest_lt : (x k : ℕ) → 0 < k → x % k < k
rest_lt x k h = grind arith

next_round : (i k : ℕ) → (i + 1) * k ≡ i * k + k
next_round i k = grind arith

round_le : (i n k : ℕ) → i < n → (i + 1) * k ≤ n * k
round_le i n k h = grind arith

bucket_le : (n k : ℕ) → 0 < n → n ≤ k → (1 ≤ k / n) × (n * (k / n) ≤ k)
bucket_le n k h m = (grind arith, grind arith)

module _ (blake : Digest) (beacon deal_id : Bytes) (offset count_chunks bucket : ℕ) where
  challenge_at-ok :
      (i n : ℕ)
      → i < n
      → n < 256 ^ 4
      → 0 < bucket
      → n * bucket ≤ count_chunks
      → (j : ℕ) × (challenge_at blake beacon deal_id offset count_chunks bucket i ≡ ok j)
        × IsSpread offset count_chunks bucket i j
  unfolding challenge_at
  challenge_at-ok i n h small pos fits =
      let seed = poseidon2_stub blake (beacon ∷ deal_id ∷ le_digits 4 i ∷ []) in
      let at : ℕ = offset + i * bucket + head_number seed % bucket in
      let low : head_number seed % bucket < bucket = rest_lt (head_number seed) bucket pos in
      let step = next_round i bucket in
      let room : (i + 1) * bucket ≤ n * bucket = round_le i n bucket h in
      (
        min at (offset + count_chunks - 1),
        rw (to_bytes_le_lem 4 i (omega arith)),
        (
          omega (arith, low, step, room),
          omega (arith, low, step, room),
          omega (arith, low, step, room),
        ),
      )

  spread_loop-ok :
      (i k n : ℕ)
      → i + k ≡ n
      → n < 256 ^ 4
      → 0 < bucket
      → n * bucket ≤ count_chunks
      → (js : List ℕ) × (spread_loop blake beacon deal_id offset count_chunks bucket i k ≡ ok js)
        × (length js ≡ k)
        × ((m : ℕ) → m < k → IsSpread offset count_chunks bucket (i + m) (get_or js m 0))
  unfolding spread_loop
  spread_loop-ok i zero n e small pos fits = ([], refl, refl, λ m h. absurd (omega arith))
  spread_loop-ok i (suc k) n e small pos fits =
      let (j, q, s) = challenge_at-ok i n (omega arith) small pos fits in
      let (js, p, len, all) = spread_loop-ok (i + 1) k n (omega arith) small pos fits in
      (j ∷ js, rw (q, p), omega (arith, len), each i j js k s all)
    where
      each :
          (i j : ℕ) (js : List ℕ) (k : ℕ)
          → IsSpread offset count_chunks bucket i j
          → ((m : ℕ) → m < k → IsSpread offset count_chunks bucket (i + 1 + m) (get_or js m 0))
          → (m : ℕ) → m < suc k
          → IsSpread offset count_chunks bucket (i + m) (get_or (j ∷ js) m 0)
      each i j js k s all zero h =
          subst (λ x. IsSpread offset count_chunks bucket x j) (omega arith) s
      each i j js k s all (suc m) h =
          subst (λ x. IsSpread offset count_chunks bucket x (get_or js m 0)) (omega arith)
            (all m (omega arith))

spread_challenge-started :
    (blake : Digest) (beacon deal_id : Bytes) (n offset count_chunks : ℕ)
    → 0 < n
    → n ≤ count_chunks
    → 1 ≤ count_chunks / n
    → spread_challenge blake beacon deal_id n offset count_chunks
      ≡ spread_loop blake beacon deal_id offset count_chunks (count_chunks / n) 0 n
unfolding spread_challenge
spread_challenge-started blake beacon deal_id n offset count_chunks h m b =
    let e : max 1 (count_chunks / n) ≡ count_chunks / n = omega arith in
    let no_n : (n == 0) ≡ false = ground arith in
    let no_k : (count_chunks == 0) ≡ false = ground arith in rw (no_n, no_k, e)

-- For a deal of at least as many chunks as challenges, at least one and fewer than 2^32 of them,
-- `spread_challenge` returns that many positions. Each lies in the range of the deal, and the m-th
-- lies in the m-th of the stretches of `count_chunks / count_challenges` chunks.
pub spread_challenge-spreads :
    (blake : Digest) (beacon deal_id : Bytes) (count_challenges offset count_chunks : ℕ)
    → 0 < count_challenges
    → count_challenges ≤ count_chunks
    → count_challenges < 256 ^ 4
    → (js : List ℕ) × (spread_challenge blake beacon deal_id count_challenges offset count_chunks
        ≡ ok js)
      × (length js ≡ count_challenges)
      × ((m : ℕ)
          → m < count_challenges
          → IsSpread offset count_chunks (count_chunks / count_challenges) m (get_or js m 0))
spread_challenge-spreads blake beacon deal_id n offset count_chunks some_n fits small =
    let bucket : ℕ = count_chunks / n in
    let (pos, whole) = bucket_le n count_chunks some_n fits in
    let (js, p, len, all) =
      spread_loop-ok blake beacon deal_id offset count_chunks bucket 0 n n (omega arith) small
        (omega arith) whole in
    (
      js,
      spread_challenge-started blake beacon deal_id n offset count_chunks some_n fits pos ∙ p,
      len,
      λ m h.
          subst (λ x. IsSpread offset count_chunks bucket x (get_or js m 0)) (omega arith)
            (all m h),
    )
