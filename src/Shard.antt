-- ===== src/Shard.antt =====
-- `worker/src/worker/verify.py`: the guest program of a worker, which judges one cell.
pub mod Judgement
pub mod Verdicts
pub mod Registry
pub mod Counts
use he_thong_chung_minh_luu.Prelude.{
  Bool, List, Option, Result, [], eqb, false, if◌then◌else◌, length, list_ord, map, none, not, ok,
  pair_eq, pair_ord, some, take, ℕ, ℕ_eq, ℕ_ord, ◌+◌, ◌==◌, ◌>>=◌, ◌>>◌, ◌∷◌,
}
use he_thong_chung_minh_luu.Bytes.{Bytes, bytes_eq}
use he_thong_chung_minh_luu.Config.{bundle_size_bytes, shard_cycles}
use he_thong_chung_minh_luu.Dict.{Dict, insert, lookup}
use he_thong_chung_minh_luu.Sort.{sort_by}
use he_thong_chung_minh_luu.Verdict.{Verdict, absent, fail, pass, rank, verdict_eq, verdict_ord}
use he_thong_chung_minh_luu.Crypto.{Digest, keccak, merkle_root}
use he_thong_chung_minh_luu.Membership.{
  DealRecord, MembershipRegistry, expected_for, verify_registry,
}
use he_thong_chung_minh_luu.Blob.{Key, ObservedBlob}
use he_thong_chung_minh_luu.Blob.Filter.{Best, FilterArgs, FilterStats, filter_blobs}
use he_thong_chung_minh_luu.Clock.{Clock, absolute_deadline, slot_at}
use he_thong_chung_minh_luu.Coverage.{CoverageProof, prove_coverage}

-- `class ExpectedDeal`
pub record ExpectedDeal : Type 0 where
  pub provider_id : Bytes
  pub deal_id : Bytes
  pub sealed_root : Bytes
  pub declared_unavailable : Bool

-- `ExpectedDeal.key`
abbrev pub expected_key : ExpectedDeal → Key
expected_key e = (e.provider_id, e.deal_id)

-- `class ShardResult`; `coverage` is absent in results that tests build by hand.
pub record ShardResult : Type 0 where
  pub deadline : ℕ
  pub shard : ℕ
  pub snapshot_id : Bytes
  pub expected_count : ℕ
  pub verdicts : Dict Key Verdict
  pub coverage : Option CoverageProof
  pub filter_stats : Option FilterStats
  pub cycles : ℕ
  pub results_root : Bytes

-- `sum(1 for v in self.verdicts.values() if v is verdict)`
unfoldable pub count_verdict : Verdict → Dict Key Verdict → ℕ
count_verdict verdict [] = 0
count_verdict verdict ((k, v) ∷ d) =
    let rest = count_verdict verdict d in if eqb v verdict then 1 + rest else rest

-- `ShardResult.n_pass`, `ShardResult.n_fail` and `ShardResult.n_absent`
unfoldable pub n_pass : ShardResult → ℕ
unfolding count_verdict
n_pass r = count_verdict pass r.verdicts

unfoldable pub n_fail : ShardResult → ℕ
unfolding count_verdict
n_fail r = count_verdict fail r.verdicts

unfoldable pub n_absent : ShardResult → ℕ
unfolding count_verdict
n_absent r = count_verdict absent r.verdicts

-- `verify_bundle`
unfoldable pub verify_bundle : Bytes → ExpectedDeal → Bool
verify_bundle payload expected =
    if not (length payload == bundle_size_bytes)
    then false
    else eqb (take 32 payload) (take 32 expected.sealed_root)

unfoldable pub to_expected : DealRecord → ExpectedDeal
to_expected d = record {
  provider_id = d.provider_id;
  deal_id = d.deal_id;
  sealed_root = d.sealed_root;
  declared_unavailable = d.declared_unavailable;
}

-- `expected_from_registry`
unfoldable pub expected_from_registry :
    Digest → MembershipRegistry → Bytes → ℕ → ℕ → ℕ → Result (List ExpectedDeal)
unfolding verify_registry expected_for to_expected
expected_from_registry sha3 registry onchain_snapshot_id epoch deadline_idx shard = do
  verify_registry sha3 registry onchain_snapshot_id epoch
  ok (map to_expected (expected_for registry deadline_idx shard))

-- The verdict on a deal, from the blob kept for it.
unfoldable pub judge : ExpectedDeal → Option ObservedBlob → Verdict
unfolding verify_bundle
judge e none = absent
judge e (some blob) = if verify_bundle blob.payload e then pass else fail

-- `n_verified += 1` where there is a blob.
abbrev pub found {ℓ} : {A : Type ℓ} → Option A → ℕ
found none = 0
found (some _) = 1

-- The loop over the expected deals: the verdicts, and the number of bundles verified.
unfoldable pub judge_loop : Best → List ExpectedDeal → Dict Key Verdict × ℕ → Dict Key Verdict × ℕ
unfolding judge
judge_loop kept [] acc = acc
judge_loop kept (e ∷ es) (verdicts, n) =
    let blob = lookup (expected_key e) kept in
    judge_loop kept es (insert (expected_key e) (judge e blob) verdicts, n + found blob)

-- The arguments with which `verify_shard` calls `filter_blobs`.
abbrev pub cell_args : List ExpectedDeal → Dict Bytes Bytes → ℕ → ℕ → FilterArgs
cell_args expected signer_of deadline shard = record {
  expected_keys = map expected_key expected;
  signer_of = signer_of;
  deadline = deadline;
  shard = shard;
  max_payload = bundle_size_bytes;
}

module _ (sha3 : Digest) where
  -- `keccak(k[0], k[1], bytes([int(v)]))`
  unfoldable pub verdict_leaf : Key × Verdict → Bytes
  unfolding keccak rank
  verdict_leaf (k, v) = keccak sha3 (k.0 ∷ k.1 ∷ (rank v ∷ []) ∷ [])

  -- `verify_shard`, without the keyword names of its arguments.
  unfoldable pub verify_shard :
      (epoch deadline_idx shard : ℕ) (snapshot namespace : Bytes)
      → List ExpectedDeal
      → List ObservedBlob
      → Dict Bytes Bytes
      → Clock
      → ℕ
      → Result ShardResult
  unfolding slot_at absolute_deadline prove_coverage filter_blobs judge_loop sort_by verdict_leaf
      merkle_root shard_cycles
  verify_shard epoch deadline_idx shard snapshot namespace expected observed signer_of clock
        sha_cycles =
      do
        let slot = slot_at clock epoch deadline_idx
        let deadline = absolute_deadline slot
        cov ← prove_coverage sha3 namespace observed slot.window_start slot.window_end []
        let args = cell_args expected signer_of deadline shard
        let kept = (filter_blobs args observed).0
        let judged = judge_loop kept (sort_by expected_key expected) ([], 0)
        ok (record {
          deadline = deadline;
          shard = shard;
          snapshot_id = snapshot;
          expected_count = length expected;
          verdicts = judged.0;
          coverage = some cov;
          filter_stats = some (filter_blobs args observed).1;
          cycles = shard_cycles judged.1 sha_cycles;
          results_root = merkle_root (keccak sha3) (map verdict_leaf (sort_by (λ x. x) judged.0));
        })
