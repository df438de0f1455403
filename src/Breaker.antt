-- ===== src/Breaker.antt =====
-- `aggregator/src/aggregator/circuit_breaker.py`: whether an epoch is void. The ratio of covered cells
-- and the threshold are fractions here, compared by their products.
pub mod Trips
pub mod Quiet
use he_thong_chung_minh_luu.Prelude.{
  Bool, false, if◌then◌else◌, leb, max, not, true, ℕ, ℕ_eq, ◌*◌, ◌+◌,
}
use he_thong_chung_minh_luu.Config.{window_saturation_threshold}

pub record BreakerArgs : Type 0 where
  pub covered_cells : ℕ
  pub expected_cells : ℕ
  pub n_workers : ℕ
  pub n_shards : ℕ
  pub cooldown : ℕ
  pub window_saturation : ℕ
  pub r : ℕ
  pub theta : ℕ × ℕ

-- The texts that `reason` holds, without their numbers.
pub data Reason : Type 0 where
  congested normal too_few_workers void : Reason

pub record BreakerResult : Type 0 where
  pub tripped : Bool
  pub coverage_ratio : ℕ × ℕ
  pub threshold_met : Bool
  pub n_workers : ℕ
  pub required_workers : ℕ
  pub reason : Reason
  pub da_congested : Bool

-- `ratio >= theta`
unfoldable pub is_covered : BreakerArgs → Bool
is_covered a = leb (a.theta.0 * max 1 a.expected_cells) (a.covered_cells * a.theta.1)

-- `required`
unfoldable pub required_for : BreakerArgs → ℕ
required_for a = a.n_shards * a.r * (a.cooldown + 1)

-- The result, but for the three fields in which its four cases differ.
abbrev pub outcome : BreakerArgs → Bool → Reason → Bool → BreakerResult
unfolding required_for
outcome a tripped reason da_congested = record {
  tripped = tripped;
  coverage_ratio = (a.covered_cells, max 1 a.expected_cells);
  threshold_met = leb (required_for a) a.n_workers;
  n_workers = a.n_workers;
  required_workers = required_for a;
  reason = reason;
  da_congested = da_congested;
}

-- `evaluate`
unfoldable pub evaluate : BreakerArgs → BreakerResult
unfolding is_covered outcome
evaluate a =
    if leb window_saturation_threshold a.window_saturation
    then outcome a true congested true
    else if is_covered a
    then outcome a false normal false
    else if not (leb (required_for a) a.n_workers)
    then outcome a false too_few_workers false
    else outcome a true void false
