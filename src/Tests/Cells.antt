-- ===== src/Tests/Cells.antt =====
-- Reconciliation and aggregation of one cell that two workers judge.
use he_thong_chung_minh_luu.Prelude.{
  All, List, [], arith, length, lex, map, ok, pair_eq, refl, some, true, ℕ, ℕ_discrete, ℕ_eq, ◌*◌,
  ◌+◌, ◌<◌, ◌↔◌, ◌∷◌, ◌≡◌, ◌≤◌,
}
use he_thong_chung_minh_luu.Bytes.{Bytes-discrete, bytes_eq, le_digits, zeros}
use he_thong_chung_minh_luu.Verdict.{Verdict, Verdict-discrete, fail, pass, verdict_eq}
use he_thong_chung_minh_luu.Reconcile.{
  Cell, EpochVerdicts, add_result, cell_of, merge_verdict, no_verdicts, reconcile_shard_results,
}
use he_thong_chung_minh_luu.Reconcile.Evidence.{
  entries, reconcile_heaviest, reconcile_order, reconcile_pass,
}
use he_thong_chung_minh_luu.Reconcile.Consistent.{IsAgreed, reconcile-IsAgreed}
use he_thong_chung_minh_luu.Tests.Setting.{
  alice_deal, bob, bob_deal, book, cut_digest, honest_result, lazy_result, two_results, two_swapped,
  value_or,
}
use he_thong_chung_minh_luu.Dict.{add, insert, lookup, member}
use he_thong_chung_minh_luu.Aggregate.{
  DeadlineFold, EpochArgs, aggregate_epoch, aggregate_epoch_incremental, epoch_leaves, epoch_values,
  fold_deadline,
}
use he_thong_chung_minh_luu.Aggregate.Settled.{
  aggregate_epoch-pays, aggregate_epoch-pays_only, aggregate_epoch-slash_guard, deal_of,
}
use he_thong_chung_minh_luu.Aggregate.Cells.{aggregate_epoch-covers}
use he_thong_chung_minh_luu.Aggregate.Incremental.{all_results, fold_all, incremental_agrees}
use he_thong_chung_minh_luu.Settlement.{SettlementLeaf, leaf_digest, leaf_digests, settlement_leaf}
use he_thong_chung_minh_luu.Public.{PublicValues}
use he_thong_chung_minh_luu.Crypto.{keccak, merkle_root}
use he_thong_chung_minh_luu.Reconcile.Weigh.{weight}
use he_thong_chung_minh_luu.Aggregate.Leaves.{aggregate_epoch-counts, judged_deals}
use he_thong_chung_minh_luu.Blob.{Key}
use he_thong_chung_minh_luu.Reconcile.Accepted.{IsFaithful, reconcile_accepts}
use he_thong_chung_minh_luu.Settlement.Binding.{leaf_digest_binding, leaf_parts}
use he_thong_chung_minh_luu.Bytes.Struct.{join}
use mathlib.Core.List.{Mem, Nodup, mem-cons_self, mem-cons_of_mem}
use mathlib.Core.List.Perm

abbrev two_out : EpochVerdicts
unfolding reconcile_shard_results
two_out = value_or no_verdicts (reconcile_shard_results two_results)

two_out-ok : reconcile_shard_results two_results ≡ ok two_out
unfolding reconcile_shard_results add_result lookup Bytes-discrete insert
two_out-ok = refl

abbrev swapped_out : EpochVerdicts
unfolding reconcile_shard_results
swapped_out = value_or no_verdicts (reconcile_shard_results two_swapped)

swapped_out-ok : reconcile_shard_results two_swapped ≡ ok swapped_out
unfolding reconcile_shard_results add_result lookup Bytes-discrete insert
swapped_out-ok = refl

-- Bob's deal fails, since FAIL has evidence and ABSENT has not.
bob_fails : lookup bob_deal two_out.verdicts ≡ some fail
unfolding lookup two_out add_result Bytes-discrete insert merge_verdict
bob_fails = refl

alice_entry : Mem (alice_deal, pass) (entries two_results)
alice_entry = mem-cons_of_mem _ (mem-cons_of_mem _ mem-cons_self)

reconcile_pass_example : lookup alice_deal two_out.verdicts ≡ some pass
reconcile_pass_example = reconcile_pass two_results two_out alice_deal two_out-ok alice_entry

reconcile_heaviest_example :
    ((v : Verdict)
      → Mem (bob_deal, v) (entries two_results)
      → weight (some v) ≤ weight (lookup bob_deal two_out.verdicts))
    × ((n : ℕ)
        → ((v : Verdict) → Mem (bob_deal, v) (entries two_results) → weight (some v) ≤ n)
        → weight (lookup bob_deal two_out.verdicts) ≤ n)
reconcile_heaviest_example = reconcile_heaviest two_results two_out bob_deal two_out-ok

reconcile_order_example : lookup bob_deal two_out.verdicts ≡ lookup bob_deal swapped_out.verdicts
reconcile_order_example =
    reconcile_order two_results two_swapped two_out swapped_out bob_deal
      (Perm.swap honest_result lazy_result []) two_out-ok swapped_out-ok

reconcile-IsAgreed_example : All (IsAgreed two_out) two_results
reconcile-IsAgreed_example = reconcile-IsAgreed two_results two_out two_out-ok

-- An epoch of one deadline and one shard.
abbrev small_epoch : EpochArgs
small_epoch = record {
  epoch = 1;
  chain_id = 5;
  deadlines_per_epoch = 1;
  n_shards = 1;
  prev_state_root = zeros 32;
  da_commitment = zeros 32;
  da_nonce = 3;
  submitter = bob;
  storage_vk_digest = zeros 32;
  require_full_coverage = true;
}

abbrev small_values : PublicValues
unfolding epoch_values epoch_leaves leaf_digests
small_values =
    epoch_values cut_digest small_epoch two_results book two_out
      (merkle_root (keccak cut_digest)
        (value_or [] (leaf_digests cut_digest (epoch_leaves 1 two_out))))
      (1 ∷ zeros 7)

abbrev small_leaves : List SettlementLeaf
small_leaves = settlement_leaf 1 (alice_deal, pass) ∷ settlement_leaf 1 (bob_deal, fail) ∷ []

small_epoch-ok :
    aggregate_epoch cut_digest small_epoch two_results book
    ≡ ok (small_values, zeros 356, small_leaves)
unfolding aggregate_epoch add_result lookup Bytes-discrete insert add merge_verdict lex
    Verdict-discrete le_digits
small_epoch-ok = refl

aggregate_epoch-covers_example :
    ((d s : ℕ) → d < 1 → s < 1 → member (1 * 1000000 + d, s) (map cell_of two_results) ≡ true)
    × ((c : Cell)
        → member c (map cell_of two_results) ≡ true
        → (d : ℕ) × (d < 1) × (c.1 < 1) × (c.0 ≡ 1 * 1000000 + d))
aggregate_epoch-covers_example =
    aggregate_epoch-covers cut_digest small_epoch two_results book small_values (zeros 356)
      small_leaves small_epoch-ok refl

aggregate_epoch-pays_example : Mem (settlement_leaf 1 (alice_deal, pass)) small_leaves
aggregate_epoch-pays_example =
    aggregate_epoch-pays cut_digest small_epoch two_results book small_values (zeros 356)
      small_leaves alice_deal small_epoch-ok alice_entry

alice_paid : 0 < (settlement_leaf 1 (alice_deal, pass)).reward_wei
unfolding settlement_leaf Verdict-discrete ℕ_discrete
alice_paid = omega arith

aggregate_epoch-pays_only_example :
    Mem (deal_of (settlement_leaf 1 (alice_deal, pass)), pass) (entries two_results)
aggregate_epoch-pays_only_example =
    aggregate_epoch-pays_only cut_digest small_epoch two_results book small_values (zeros 356)
      small_leaves (settlement_leaf 1 (alice_deal, pass)) small_epoch-ok mem-cons_self alice_paid

alice_leaf_entry : Mem (deal_of (settlement_leaf 1 (alice_deal, pass)), pass) (entries two_results)
unfolding settlement_leaf
alice_leaf_entry = alice_entry

aggregate_epoch-slash_guard_example : (settlement_leaf 1 (alice_deal, pass)).slash_wei ≡ 0
aggregate_epoch-slash_guard_example =
    aggregate_epoch-slash_guard cut_digest small_epoch two_results book small_values (zeros 356)
      small_leaves (settlement_leaf 1 (alice_deal, pass)) small_epoch-ok mem-cons_self
      alice_leaf_entry

abbrev small_fold : DeadlineFold
small_fold = record { deadline = 1000000; snapshot_id = book; shard_results = two_results }

small_fold-ok : fold_deadline 1000000 book two_results 1 ≡ ok small_fold
unfolding fold_deadline Bytes-discrete
small_fold-ok = refl

small_folds-ok : fold_all book 1 ((1000000, two_results) ∷ []) ≡ ok (small_fold ∷ [])
unfolding fold_all Bytes-discrete
small_folds-ok = refl

incremental_agrees_example :
    aggregate_epoch_incremental cut_digest (small_fold ∷ []) small_epoch
    ≡ aggregate_epoch cut_digest small_epoch (all_results ((1000000, two_results) ∷ [])) book
incremental_agrees_example =
    incremental_agrees cut_digest small_epoch book (1000000, two_results) [] (small_fold ∷ [])
      small_folds-ok

two-IsFaithful : All (IsFaithful lazy_result.snapshot_id (λ c. 2)) two_results
two-IsFaithful = (
  record { own_registry = refl; own_cell = refl; all_verdicts = refl },
  (record { own_registry = refl; own_cell = refl; all_verdicts = refl }, tt),
)

reconcile_accepts_example : (out : EpochVerdicts) × (reconcile_shard_results two_results ≡ ok out)
reconcile_accepts_example =
    reconcile_accepts lazy_result.snapshot_id (λ c. 2) two_results two-IsFaithful

-- The leaf of Alice's deal, with its fields written out.
abbrev alice_leaf : SettlementLeaf
alice_leaf = record {
  epoch = 1;
  provider_id = alice_deal.0;
  deal_id = alice_deal.1;
  verdict = pass;
  challenges_total = 16;
  challenges_passed = 16;
  reward_wei = 1000000000000;
  slash_wei = 0;
}

alice_leaf-ok : leaf_digest (λ x. x) alice_leaf ≡ ok (join (leaf_parts alice_leaf))
unfolding leaf_digest
alice_leaf-ok = refl

alice_settled-ok :
    leaf_digest (λ x. x) (settlement_leaf 1 (alice_deal, pass)) ≡ ok (join (leaf_parts alice_leaf))
unfolding leaf_digest settlement_leaf Verdict-discrete ℕ_discrete
alice_settled-ok = refl

leaf_digest_binding_example : settlement_leaf 1 (alice_deal, pass) ≡ alice_leaf
leaf_digest_binding_example =
    leaf_digest_binding (λ x. x) (settlement_leaf 1 (alice_deal, pass)) alice_leaf
      (join (leaf_parts alice_leaf)) (λ e. e) alice_settled-ok alice_leaf-ok

aggregate_epoch-counts_example :
    Nodup (map deal_of small_leaves)
    × ((k : Key) → Mem k (map deal_of small_leaves) ↔ Mem k (judged_deals two_results))
    × (small_values.num_verified ≡ length small_leaves)
    × All (λ r. r.snapshot_id ≡ small_values.snapshot_id) two_results
aggregate_epoch-counts_example =
    aggregate_epoch-counts cut_digest small_epoch two_results book small_values (zeros 356)
      small_leaves small_epoch-ok
