-- ===== src/Breaker/Quiet.antt =====
-- The circuit breaker of an epoch that `aggregate_epoch` made, whose public values carry the saturation
-- of the window.
use he_thong_chung_minh_luu.Prelude.{
  All, List, arith, false, inl, inr, ok, true, ℕ_eq, ◌↔◌, ◌∙◌, ◌≡◌,
}
use he_thong_chung_minh_luu.Bytes.{Bytes}
use he_thong_chung_minh_luu.Crypto.{Digest}
use he_thong_chung_minh_luu.Shard.{ShardResult}
use he_thong_chung_minh_luu.Settlement.{SettlementLeaf}
use he_thong_chung_minh_luu.Public.{PublicValues}
use he_thong_chung_minh_luu.Aggregate.{EpochArgs, aggregate_epoch}
use he_thong_chung_minh_luu.Aggregate.Saturation.{IsJudged, aggregate_epoch-saturation}
use he_thong_chung_minh_luu.Breaker.{BreakerArgs, evaluate, is_covered, outcome, required_for}
use he_thong_chung_minh_luu.Breaker.Trips.{IsLarge, IsLow, evaluate_tripped}

evaluate_quiet :
    (b : BreakerArgs)
    → b.window_saturation ≡ 0
    → (((evaluate b).tripped ≡ true) ↔ (IsLow b × IsLarge b)) × ((evaluate b).da_congested ≡ false)
unfolding evaluate outcome is_covered required_for
evaluate_quiet b z =
    let (trips, low) = evaluate_tripped b in
    (
      (
        λ h. elim (trips h) [ inl full ↦ absurd (omega (arith, z)) | inr both ↦ both ],
        λ both. low (inr both),
      ),
      ground arith,
    )

-- Where the breaker is given the saturation in the public values of an epoch that was aggregated from
-- results of `verify_shard`, it never reports congestion, and it trips exactly when the coverage is
-- low in a network of enough workers, whatever the blocks of the window held.
pub evaluate_on_epoch :
    (sha3 : Digest) (a : EpochArgs) (rs : List ShardResult) (sid : Bytes) (pv : PublicValues)
    (proof : Bytes) (leaves : List SettlementLeaf) (b : BreakerArgs)
    → aggregate_epoch sha3 a rs sid ≡ ok (pv, proof, leaves)
    → All (IsJudged sha3) rs
    → b.window_saturation ≡ pv.window_saturation
    → (((evaluate b).tripped ≡ true) ↔ (IsLow b × IsLarge b)) × ((evaluate b).da_congested ≡ false)
evaluate_on_epoch sha3 a rs sid pv proof leaves b h judged given =
    evaluate_quiet b (given ∙ aggregate_epoch-saturation sha3 a rs sid pv proof leaves h judged)
