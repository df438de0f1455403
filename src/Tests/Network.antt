-- ===== src/Tests/Network.antt =====
-- The circuit breaker and the challenges of a deal.
use he_thong_chung_minh_luu.Prelude.{
  List, arith, get_or, length, ok, refl, true, ℕ, ℕ_eq, ◌/◌, ◌<◌, ◌≡◌,
}
use he_thong_chung_minh_luu.Breaker.{BreakerArgs, evaluate}
use he_thong_chung_minh_luu.Challenge.{spread_challenge}
use he_thong_chung_minh_luu.Challenge.Spread.{IsSpread, spread_challenge-spreads}
use he_thong_chung_minh_luu.Tests.Setting.{alice, cut_digest, deal_one}

-- A third of the cells covered, in a network of six workers for three shards.
abbrev low_coverage : BreakerArgs
low_coverage = record {
  covered_cells = 4;
  expected_cells = 12;
  n_workers = 6;
  n_shards = 3;
  cooldown = 0;
  window_saturation = 0;
  r = 2;
  theta = (1, 2);
}

low_coverage-void : (evaluate low_coverage).tripped ≡ true
unfolding evaluate
low_coverage-void = refl

spread_challenge-spreads_example :
    (js : List ℕ) × (spread_challenge cut_digest alice deal_one 4 100 10 ≡ ok js)
    × (length js ≡ 4)
    × ((m : ℕ) → m < 4 → IsSpread 100 10 (10 / 4) m (get_or js m 0))
spread_challenge-spreads_example =
    spread_challenge-spreads cut_digest alice deal_one 4 100 10 (omega arith) (omega arith)
      (omega arith)
