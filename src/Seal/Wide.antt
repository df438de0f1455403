-- ===== src/Seal/Wide.antt =====
-- The fan-in of `seal_seqwide`: it asks only for links that are there.
use native.Mathlib.Nat.{mod-lt}
use he_thong_chung_minh_luu.Prelude.{
  All, All-map, List, [], ap, arith, before, false, if◌then◌else◌, length, length-append, ok, refl,
  subst, suc, take, zero, ℕ, ◌%◌, ◌*◌, ◌++◌, ◌+◌, ◌-◌, ◌<◌, ◌==◌, ◌^◌, ◌∙◌, ◌∷◌, ◌≡◌, ◌≤◌,
}
use he_thong_chung_minh_luu.Bytes.{Bytes, from_bytes_le, le_digits}
use he_thong_chung_minh_luu.Bytes.Fields.{to_bytes_le_lem}
use he_thong_chung_minh_luu.Crypto.{Hasher, item_at}
use he_thong_chung_minh_luu.Seal.{
  SealResult, Trace, absorb, fanin_loop, fanin_positions, linked, links_at, no_trace, pieces,
  result_of, seal_seqwide, wide_loop, wide_step,
}
use he_thong_chung_minh_luu.Config.{seal_fanin_phi}
use he_thong_chung_minh_luu.Seal.Chain.{IsTrace, linked-IsTrace}

item_at_lem : (xs : List Bytes) (i : ℕ) → i < length xs → (x : Bytes) × (item_at xs i ≡ ok x)
unfolding item_at
item_at_lem [] i h = absurd (omega arith)
item_at_lem (x ∷ xs) zero h = (x, refl)
item_at_lem (x ∷ xs) (suc i) h = item_at_lem xs i (omega arith)

links_at_lem :
    (s_chain : List Bytes) (ps : List ℕ)
    → All (λ p. p < length s_chain) ps
    → (ss : List Bytes) × (links_at s_chain ps ≡ ok ss)
unfolding links_at
links_at_lem s_chain [] a = ([], refl)
links_at_lem s_chain (p ∷ ps) a =
    let (s, q) = item_at_lem s_chain p a.0 in
    let (ss, r) = links_at_lem s_chain ps a.1 in (s ∷ ss, rw (q, r) refl)

module _ (hasher : Hasher) where
  fanin_loop_lem :
      (le replica : Bytes) (i t n : ℕ)
      → 0 < i
      → t + n ≤ 256 ^ 2
      → (ps : List ℕ) × (fanin_loop hasher le replica i t n ≡ ok ps)
        × (length ps ≡ n)
        × All (λ p. p < i) ps
  unfolding fanin_loop
  fanin_loop_lem le replica i t zero h k = ([], refl, refl, tt)
  fanin_loop_lem le replica i t (suc n) h k =
      let (ps, p, l, a) = fanin_loop_lem le replica i (t + 1) n h (omega arith) in
      let x : ℕ = from_bytes_le (take 8 (hasher (replica ∷ le ∷ le_digits 2 t ∷ []))) in
      (x % i ∷ ps, rw (to_bytes_le_lem 2 t (omega arith), p) refl, ap suc l, (mod-lt x h, a))

  -- For every chunk but the first `fanin_positions` gives one position fewer than the degree asked
  -- for, all of them before the chunk; for the first it gives none.
  pub fanin_positions_before :
      (i : ℕ) (replica : Bytes) (phi : ℕ)
      → i < 256 ^ 8
      → phi ≤ 256 ^ 2
      → (ps : List ℕ) × (fanin_positions hasher i replica phi ≡ ok ps)
        × (length ps ≡ (if i == 0 then 0 else phi - 1))
        × All (λ p. p < i) ps
  unfolding fanin_positions
  fanin_positions_before zero replica phi h k = ([], refl, refl, tt)
  fanin_positions_before (suc i) replica phi h k =
      let (ps, p, l, a) =
        fanin_loop_lem (le_digits 8 (suc i)) replica (suc i) 0 (phi - 1) (omega arith)
          (omega arith) in
      (ps, rw (to_bytes_le_lem 8 (suc i) h) p, l ∙ (ground arith), a)

  wide_step_lem :
      (rate i : ℕ) (replica s chunk : Bytes) (s_chain : List Bytes)
      → 0 < rate
      → i < 256 ^ 8
      → length s_chain ≡ i
      → (link : Bytes × Bytes) × (wide_step hasher rate replica s_chain i s chunk ≡ ok link)
  unfolding wide_step
  wide_step_lem rate i replica s chunk s_chain positive h n =
      let (ps, p, _, before) = fanin_positions_before i replica seal_fanin_phi h (omega arith) in
      let there : All (λ p. p < length s_chain) ps = All-map (λ p l. omega arith) ps before in
      let (links, q) = links_at_lem s_chain ps there in
      let nonzero : (rate == 0) ≡ false = ground arith in
      let size : ℕ = 31 * rate in
      let seed : Bytes = hasher (s ∷ (links ++ le_digits 8 i ∷ replica ∷ [])) in
      let r : Bytes = absorb hasher size (pieces (length chunk) size) chunk seed in
      ((r, hasher (s ∷ r ∷ [])), rw (p, q, to_bytes_le_lem 8 i h, nonzero) refl)

  wide_loop_lem :
      (rate i : ℕ) (replica s : Bytes) (s_chain cs : List Bytes)
      → 0 < rate
      → i + length cs ≤ 256 ^ 8
      → length s_chain ≡ i
      → (t : Trace) × (wide_loop hasher rate replica s_chain i s cs ≡ ok t)
        × IsTrace hasher (length cs) t
  unfolding wide_loop
  wide_loop_lem rate i replica s s_chain [] positive h n =
      (no_trace, refl, record { links = refl; values = refl; opened = refl })
  wide_loop_lem rate i replica s s_chain (c ∷ cs) positive h n =
      let (link, p) = wide_step_lem rate i replica s c s_chain positive (omega arith) n in
      let (t, q, v) =
        wide_loop_lem rate (i + 1) replica link.1 (s_chain ++ link.1 ∷ []) cs positive (omega arith)
          (omega (arith, length-append s_chain (link.1 ∷ []))) in
      (
        linked hasher link t,
        rw (p, q) refl,
        subst (λ n. IsTrace hasher n (linked hasher link t)) (omega arith)
            (linked-IsTrace hasher (length cs) link.0 link.1 t v),
      )

  -- Every link of `seal_seqwide` depends only on links made before it: at a positive rate and for at
  -- most 2^64 chunks it returns, whatever the hash gives as positions, and its trace has `R_i` and `S_i` for every chunk.
  pub seal_seqwide_returns :
      (cs : List Bytes) (replica : Bytes) (rate : ℕ)
      → 0 < rate
      → length cs ≤ 256 ^ 8
      → (r : SealResult) × (seal_seqwide hasher cs replica rate ≡ ok r)
        × (length r.s_chain ≡ length cs)
        × (length r.r_values ≡ length cs)
  unfolding seal_seqwide
  seal_seqwide_returns cs replica rate positive h =
      let (t, p, v) = wide_loop_lem rate 0 replica replica [] cs positive (omega arith) refl in
      (result_of hasher t, rw p refl, v.links, v.values)
