-- ===== src/Breaker/Trips.antt =====
-- When the circuit breaker makes an epoch void.
use he_thong_chung_minh_luu.Prelude.{arith, max, true, ℕ_eq, ◌*◌, ◌+◌, ◌<◌, ◌↔◌, ◌≡◌, ◌≤◌, ◌⊎◌}
use he_thong_chung_minh_luu.Config.{window_saturation_threshold}
use he_thong_chung_minh_luu.Breaker.{BreakerArgs, evaluate, is_covered, outcome, required_for}

-- Enough workers that low coverage cannot be the work of a few who are attacked.
abbrev pub IsLarge : BreakerArgs → Type 0
IsLarge a = a.n_shards * a.r * (a.cooldown + 1) ≤ a.n_workers

-- The coverage is below the threshold.
abbrev pub IsLow : BreakerArgs → Type 0
IsLow a = a.covered_cells * a.theta.1 < a.theta.0 * max 1 a.expected_cells

-- The breaker trips exactly when the saturation of the window reaches its threshold, or when the
-- coverage is low in a network of enough workers.
pub evaluate_tripped :
    (a : BreakerArgs)
    → ((evaluate a).tripped ≡ true)
      ↔ ((window_saturation_threshold ≤ a.window_saturation) ⊎ (IsLow a × IsLarge a))
unfolding evaluate outcome is_covered required_for
evaluate_tripped a = (λ h. ground arith, λ h. ground arith)
