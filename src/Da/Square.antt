-- ===== src/Da/Square.antt =====
-- The loop of `MemoryDA.square_roots` ends, with the smallest square that holds the shares.
use native.Mathlib.Nat.{le-mul_of_pos_right, pow-suc}
use he_thong_chung_minh_luu.Prelude.{
  Bool-cases, List, [], arith, inl, inr, ltb, ltb→lt, max, refl, subst, suc, sym, zero, ℕ,
  ℕ_discrete, ◌*◌, ◌+◌, ◌<◌, ◌^◌, ◌∷◌, ◌≡◌, ◌≤◌,
}
use he_thong_chung_minh_luu.Da.{MemoryDa, shares_at, side_loop, square_roots}

-- `side` is the least power of two whose square holds `m` shares.
pub record IsLeastSide (m side : ℕ) : Type 0 where
  pub exponent : ℕ
  pub power : side ≡ 2 ^ exponent
  pub holds : m ≤ side * side
  pub least : (j : ℕ) → j < exponent → 2 ^ j * 2 ^ j < m

one_le_power : (k : ℕ) → 1 ≤ 2 ^ k
one_le_power zero = omega arith
one_le_power (suc k) = omega (arith, pow-suc 2 k, one_le_power k)

le-square : (n : ℕ) → n ≤ n * n
le-square zero = omega arith
le-square (suc n) = le-mul_of_pos_right (suc n) (omega arith)

side_loop-IsLeastSide :
    (f shares k : ℕ)
    → max 1 shares ≤ 2 ^ k + f
    → ((j : ℕ) → j < k → 2 ^ j * 2 ^ j < max 1 shares)
    → IsLeastSide (max 1 shares) (side_loop f shares (2 ^ k))
unfolding side_loop
side_loop-IsLeastSide zero shares k h below = record {
  exponent = k;
  power = refl;
  holds = omega (arith, le-square (2 ^ k));
  least = below;
}
side_loop-IsLeastSide (suc f) shares k h below =
    elim (Bool-cases (ltb (2 ^ k * 2 ^ k) (max 1 shares))) [
      | inr enough ↦
          rw enough (record { exponent = k; power = refl; holds = ground arith; least = below })
      | inl small ↦
          rw (small, sym (pow-suc 2 k))
            (side_loop-IsLeastSide f shares (suc k) (omega (arith, pow-suc 2 k, one_le_power k))
              (λ j l. elim (ℕ_discrete j k) [
                | yes same ↦ subst (λ x. 2 ^ x * 2 ^ x < max 1 shares) (sym same) (ltb→lt _ _ small)
                | no other ↦ below j (omega arith)
              ]))
    ]

-- Each figure is four times the side of the least square that holds the shares of its block.
abbrev pub IsMeasured : MemoryDa → List ℕ → List ℕ → Type 0
IsMeasured da [] [] = Unit
IsMeasured da (h ∷ hs) (r ∷ rs) =
    ((side : ℕ) × (r ≡ 4 * side) × IsLeastSide (max 1 (shares_at h da.entries)) side)
    × IsMeasured da hs rs
IsMeasured da _ _ = ⊥

-- For each block asked for, `square_roots` gives four times the side of the smallest square that
-- holds the shares of the block, or one share where it has none, among those whose side is a power
-- of two: the loop that doubles the side always ends.
pub square_roots-IsMeasured : (da : MemoryDa) (hs : List ℕ) → IsMeasured da hs (square_roots da hs)
unfolding square_roots
square_roots-IsMeasured da [] = tt
square_roots-IsMeasured da (h ∷ hs) =
    let shares : ℕ = shares_at h da.entries in
    (
      (
        side_loop shares shares 1,
        refl,
        side_loop-IsLeastSide shares shares 0 (omega arith) (λ j l. absurd (omega arith)),
      ),
      square_roots-IsMeasured da hs,
    )
