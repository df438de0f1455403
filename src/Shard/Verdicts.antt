-- ===== src/Shard/Verdicts.antt =====
-- What `verify_shard` returns: it returns for all blobs that Celestia can hold, with a verdict for
-- each expected deal and for nothing else, and foreign blobs change none of them.
use mathlib.Core.List.{Mem, Nodup}
use mathlib.Core.List.Perm
use he_thong_chung_minh_luu.Prelude.{
  All, List, Result, [], ap, arith, length, list_ord, map, ok, pair_eq, pair_ord, refl, some, sym,
  ℕ, ℕ_eq, ℕ_ord, ◌++◌, ◌∙◌, ◌∷◌, ◌≡◌, ◌≢◌,
}
use he_thong_chung_minh_luu.Bytes.{Bytes, bytes_eq}
use he_thong_chung_minh_luu.Dict.{Dict, lookup, lookup-nil}
use he_thong_chung_minh_luu.Sort.{length-sort_by, sort_by, sort_by-perm}
use he_thong_chung_minh_luu.Crypto.{Digest, keccak, merkle_root}
use he_thong_chung_minh_luu.Config.{shard_cycles}
use he_thong_chung_minh_luu.Verdict.{Verdict, verdict_ord}
use he_thong_chung_minh_luu.Blob.{BlobHeader, Key, ObservedBlob}
use he_thong_chung_minh_luu.Blob.Filter.{FilterArgs, filter_blobs}
use he_thong_chung_minh_luu.Blob.Earliest.{filter_blobs_foreign}
use he_thong_chung_minh_luu.Clock.{Clock, absolute_deadline, slot_at}
use he_thong_chung_minh_luu.Coverage.Total.{IsPlaced, coverage_of, prove_coverage_lem}
use he_thong_chung_minh_luu.Shard.{
  ExpectedDeal, ShardResult, cell_args, expected_key, judge, judge_loop, verdict_leaf, verify_shard,
}
use he_thong_chung_minh_luu.Shard.Judgement.{
  judge_loop_ext, judge_loop_member, keys_of, length-judge_loop,
}

module _ (sha3 : Digest) (epoch d shard : ℕ) (snapshot ns : Bytes) (expected : List ExpectedDeal)
    (signer_of : Dict Bytes Bytes) (clock : Clock) (sha_cycles : ℕ) where
  abbrev pub run : List ObservedBlob → Result ShardResult
  run observed =
      verify_shard sha3 epoch d shard snapshot ns expected observed signer_of clock sha_cycles

  abbrev pub args : FilterArgs
  args = cell_args expected signer_of (absolute_deadline (slot_at clock epoch d)) shard

  abbrev pub verdicts_of : List ObservedBlob → Dict Key Verdict × ℕ
  verdicts_of observed =
      judge_loop (filter_blobs args observed).0 (sort_by expected_key expected) ([], 0)

  pub verify_shard_lem :
      (observed : List ObservedBlob)
      → All IsPlaced observed
      → (r : ShardResult) × (run observed ≡ ok r)
        × (r.verdicts ≡ (verdicts_of observed).0)
        × (r.expected_count ≡ length expected)
        × (r.cycles ≡ shard_cycles (verdicts_of observed).1 sha_cycles)
        × (r.results_root
            ≡ merkle_root
                (keccak sha3)
                (map (verdict_leaf sha3) (sort_by (λ x. x) (verdicts_of observed).0)))
  unfolding verify_shard
  verify_shard_lem observed h =
      let s = slot_at clock epoch d in
      let r : ShardResult = record {
        deadline = absolute_deadline s;
        shard = shard;
        snapshot_id = snapshot;
        expected_count = length expected;
        verdicts = (verdicts_of observed).0;
        coverage = some (coverage_of sha3 ns observed s.window_start s.window_end []);
        filter_stats = some (filter_blobs args observed).1;
        cycles = shard_cycles (verdicts_of observed).1 sha_cycles;
        results_root =
            merkle_root (keccak sha3)
              (map (verdict_leaf sha3) (sort_by (λ x. x) (verdicts_of observed).0));
      } in
      (
        r,
        rw (prove_coverage_lem sha3 ns observed s.window_start s.window_end [] h),
        refl,
        refl,
        refl,
        refl,
      )

  sorted-Nodup : Nodup (keys_of expected) → Nodup (keys_of (sort_by expected_key expected))
  sorted-Nodup = Perm.nodup (Perm.map expected_key (Perm.symm (sort_by-perm expected_key expected)))

  -- For blobs at positions that Celestia can give, and expected deals with distinct keys,
  -- `verify_shard` returns. The result has as many verdicts as expected deals, as it says it has, and
  -- for each expected deal the verdict that `judge` gives on the blob kept for its key.
  pub verify_shard_verdicts :
      (observed : List ObservedBlob)
      → All IsPlaced observed
      → Nodup (keys_of expected)
      → (r : ShardResult) × (run observed ≡ ok r)
        × (r.expected_count ≡ length expected)
        × (length r.verdicts ≡ r.expected_count)
        × ((e : ExpectedDeal)
            → Mem e expected
            → lookup (expected_key e) r.verdicts
              ≡ some (judge e (lookup (expected_key e) (filter_blobs args observed).0)))
  verify_shard_verdicts observed h u =
      let (r, p, v, n, _, _) = verify_shard_lem observed h in
      let kept = (filter_blobs args observed).0 in
      let sorted = sort_by expected_key expected in
      let u' = sorted-Nodup u in
      (
        r,
        p,
        n,
        ap length v
            ∙ length-judge_loop kept sorted [] 0 u' (λ k m. lookup-nil k)
            ∙ omega (arith, length-sort_by expected_key expected)
            ∙ sym n,
        λ e m.
            ap (lookup (expected_key e)) v
            ∙ judge_loop_member kept e sorted [] 0 u'
                ((Perm.mem_iff (sort_by-perm expected_key expected)).1 m),
      )

  -- A blob that is not signed by the address registered for the provider that its header names,
  -- posted anywhere among the others, changes no verdict of the cell, nor the root over them, nor
  -- the number of cycles spent on bundles.
  pub verify_shard_foreign :
      (l : List ObservedBlob) (blob : ObservedBlob) (r : List ObservedBlob)
      → All IsPlaced (l ++ blob ∷ r)
      → All IsPlaced (l ++ r)
      → ((h : BlobHeader)
          → blob.header ≡ some h
          → lookup h.provider_id signer_of ≢ some blob.signer)
      → (x : ShardResult) × (y : ShardResult) × (run (l ++ blob ∷ r) ≡ ok x)
        × (run (l ++ r) ≡ ok y)
        × (x.verdicts ≡ y.verdicts)
        × (x.results_root ≡ y.results_root)
        × (x.cycles ≡ y.cycles)
  verify_shard_foreign l blob r h h' foreign =
      let (x, p, v, _, c, t) = verify_shard_lem (l ++ blob ∷ r) h in
      let (y, p', v', _, c', t') = verify_shard_lem (l ++ r) h' in
      let same : verdicts_of (l ++ blob ∷ r) ≡ verdicts_of (l ++ r) =
        judge_loop_ext _ _ (sort_by expected_key expected) ([], 0)
          (λ k. filter_blobs_foreign args k l blob r foreign) in
      (
        x,
        y,
        p,
        p',
        v ∙ ap (λ w. w.0) same ∙ sym v',
        t
            ∙ ap (λ w. merkle_root (keccak sha3) (map (verdict_leaf sha3) (sort_by (λ z. z) w.0)))
                same
            ∙ sym t',
        c ∙ ap (λ w. shard_cycles w.1 sha_cycles) same ∙ sym c',
      )
