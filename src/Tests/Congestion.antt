-- ===== src/Tests/Congestion.antt =====
-- An epoch aggregated from a result of `verify_shard`: a cell of one deal for which nothing is posted.
use he_thong_chung_minh_luu.Prelude.{
  List, [], false, ok, refl, true, ℕ_discrete, ℕ_eq, ◌↔◌, ◌∷◌, ◌≡◌,
}
use he_thong_chung_minh_luu.Bytes.{Bytes-discrete, le_digits, zeros}
use he_thong_chung_minh_luu.Config.{profile_sim}
use he_thong_chung_minh_luu.Crypto.{keccak, merkle_root}
use he_thong_chung_minh_luu.Verdict.{Verdict-discrete, absent}
use he_thong_chung_minh_luu.Shard.{ShardResult, verify_shard}
use he_thong_chung_minh_luu.Reconcile.{
  EpochVerdicts, add_result, merge_verdict, no_verdicts, reconcile_shard_results,
}
use he_thong_chung_minh_luu.Settlement.{SettlementLeaf, leaf_digests, settlement_leaf}
use he_thong_chung_minh_luu.Public.{PublicValues}
use he_thong_chung_minh_luu.Aggregate.{EpochArgs, aggregate_epoch, epoch_values}
use he_thong_chung_minh_luu.Aggregate.Saturation.{CellArgs, aggregate_epoch-saturation}
use he_thong_chung_minh_luu.Tests.Setting.{
  alice, alice_deal, bob, book, cut_digest, deal_one, result_with, value_or,
}
use he_thong_chung_minh_luu.Dict.{add, insert, lookup}
use he_thong_chung_minh_luu.Breaker.{BreakerArgs, evaluate}
use he_thong_chung_minh_luu.Breaker.Quiet.{evaluate_on_epoch}
use he_thong_chung_minh_luu.Breaker.Trips.{IsLarge, IsLow}

abbrev empty_cell : CellArgs
empty_cell = record {
  epoch = 1;
  deadline_idx = 0;
  shard = 0;
  snapshot = book;
  namespace = zeros 29;
  expected =
      record {
        provider_id = alice;
        deal_id = deal_one;
        sealed_root = zeros 32;
        declared_unavailable = false;
      }
      ∷ [];
  observed = [];
  signer_of = [];
  clock = record { p = profile_sim; h0 = 0 };
  sha_cycles = 100;
}

abbrev empty_result : ShardResult
unfolding verify_shard
empty_result =
    value_or (result_with 0 [])
      (verify_shard cut_digest 1 0 0 book (zeros 29) empty_cell.expected [] [] empty_cell.clock 100)

empty_result-ok :
    verify_shard cut_digest 1 0 0 book (zeros 29) empty_cell.expected [] [] empty_cell.clock 100
    ≡ ok empty_result
unfolding verify_shard
empty_result-ok = refl

abbrev quiet_epoch : EpochArgs
quiet_epoch = record {
  epoch = 1;
  chain_id = 5;
  deadlines_per_epoch = 1;
  n_shards = 1;
  prev_state_root = zeros 32;
  da_commitment = zeros 32;
  da_nonce = 3;
  submitter = bob;
  storage_vk_digest = zeros 32;
  require_full_coverage = true;
}

abbrev quiet_out : EpochVerdicts
unfolding reconcile_shard_results
quiet_out = value_or no_verdicts (reconcile_shard_results (empty_result ∷ []))

abbrev quiet_leaves : List SettlementLeaf
quiet_leaves = settlement_leaf 1 (alice_deal, absent) ∷ []

abbrev quiet_values : PublicValues
unfolding epoch_values leaf_digests
quiet_values =
    epoch_values cut_digest quiet_epoch (empty_result ∷ []) book quiet_out
      (merkle_root (keccak cut_digest) (value_or [] (leaf_digests cut_digest quiet_leaves)))
      (1 ∷ zeros 7)

quiet_epoch-ok :
    aggregate_epoch cut_digest quiet_epoch (empty_result ∷ []) book
    ≡ ok (quiet_values, zeros 356, quiet_leaves)
unfolding aggregate_epoch add_result lookup empty_result insert add ℕ_discrete merge_verdict
    Verdict-discrete Bytes-discrete le_digits
quiet_epoch-ok = refl

aggregate_epoch-saturation_example : quiet_values.window_saturation ≡ 0
aggregate_epoch-saturation_example =
    aggregate_epoch-saturation cut_digest quiet_epoch (empty_result ∷ []) book quiet_values
      (zeros 356) quiet_leaves quiet_epoch-ok ((empty_cell, empty_result-ok), tt)

-- One cell of one, in a network of one worker.
abbrev quiet_breaker : BreakerArgs
quiet_breaker = record {
  covered_cells = 1;
  expected_cells = 1;
  n_workers = 1;
  n_shards = 1;
  cooldown = 0;
  window_saturation = quiet_values.window_saturation;
  r = 1;
  theta = (1, 2);
}

evaluate_on_epoch_example :
    (((evaluate quiet_breaker).tripped ≡ true) ↔ (IsLow quiet_breaker × IsLarge quiet_breaker))
    × ((evaluate quiet_breaker).da_congested ≡ false)
evaluate_on_epoch_example =
    evaluate_on_epoch cut_digest quiet_epoch (empty_result ∷ []) book quiet_values (zeros 356)
      quiet_leaves quiet_breaker quiet_epoch-ok ((empty_cell, empty_result-ok), tt) refl
