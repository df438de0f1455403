-- ===== src/Tests/Blobs.antt =====
-- Headers, the ladder of filters and the judgement of one cell.
use he_thong_chung_minh_luu.Prelude.{
  List, Result, [], ap, arith, false, get_or, length, list_ord, map, none, ok, pair_eq, pair_ord,
  refl, replicate, some, some_inj, sym, ℕ_eq, ℕ_ord, ◌++◌, ◌+◌, ◌∙◌, ◌∷◌, ◌≡◌, ◌≢◌,
}
use he_thong_chung_minh_luu.Bytes.{Bytes, Bytes-discrete, IsBytes, bytes_eq, from_bytes_le, zeros}
use he_thong_chung_minh_luu.Dict.{Dict, insert, lookup, member}
use he_thong_chung_minh_luu.Verdict.{verdict_eq, verdict_ord}
use he_thong_chung_minh_luu.Config.{profile_sim}
use he_thong_chung_minh_luu.Clock.{Clock}
use he_thong_chung_minh_luu.Blob.{BlobHeader, ObservedBlob, bundle, header_size, pack, unpack}
use he_thong_chung_minh_luu.Blob.Header.{IsPackable, unpack-pack}
use he_thong_chung_minh_luu.Blob.Filter.{FilterArgs, filter_blobs, signed_by_owner}
use he_thong_chung_minh_luu.Blob.Earliest.{Choice, filter_blobs_earliest}
use he_thong_chung_minh_luu.Shard.{
  ExpectedDeal, ShardResult, expected_key, judge, n_absent, n_fail, n_pass,
}
use he_thong_chung_minh_luu.Shard.Verdicts.{args, run, verify_shard_foreign, verify_shard_verdicts}
use he_thong_chung_minh_luu.Tests.Setting.{
  alice, alice_deal, all_small-IsBytes, bob, book, cut_digest, deal_one,
}
use he_thong_chung_minh_luu.Reconcile.{EpochVerdicts, reconcile_shard_results}
use he_thong_chung_minh_luu.Reconcile.Workers.{Job, work_accepted, work_all}
use he_thong_chung_minh_luu.Shard.Counts.{verify_shard_counts}
use mathlib.Core.List.{Nodup, Nodup-cons, Nodup-nil, Mem, not-mem-nil}

abbrev pub alice_header : BlobHeader
alice_header = record {
  kind = bundle;
  deadline = 0;
  shard = 3;
  provider_id = alice;
  deal_id = deal_one;
  payload_len = 2;
  version = 1;
}

pub alice_header-IsPackable : IsPackable alice_header
alice_header-IsPackable = record {
  version_fits = omega arith;
  deadline_fits = omega arith;
  shard_fits = omega arith;
  payload_fits = omega arith;
  provider_size = refl;
  deal_size = refl;
}

unpack-pack_example :
    (raw : Bytes) × (pack alice_header ≡ ok raw)
    × (length raw ≡ header_size)
    × (unpack (raw ++ 5 ∷ 6 ∷ []) ≡ some alice_header)
unpack-pack_example = unpack-pack alice_header (5 ∷ 6 ∷ []) alice_header-IsPackable

abbrev alice_raw : Bytes
alice_raw =
    (69 ∷ 78 ∷ 71 ∷ 82 ∷ 1 ∷ 1 ∷ [])
    ++ zeros 8
    ++ (3 ∷ 0 ∷ 0 ∷ 0 ∷ [])
    ++ alice
    ++ deal_one
    ++ (2 ∷ 0 ∷ 0 ∷ 0 ∷ 5 ∷ 6 ∷ [])

alice_raw-read : unpack alice_raw ≡ some alice_header
unfolding unpack Bytes-discrete from_bytes_le
alice_raw-read = refl

alice_raw-IsBytes : IsBytes alice_raw
alice_raw-IsBytes = all_small-IsBytes alice_raw refl

-- Alice has registered Bob's address as the one that signs for her.
abbrev signers : Dict Bytes Bytes
signers = (alice, bob) ∷ []

abbrev own_blob : ObservedBlob
own_blob = record {
  height = 4;
  index = 1;
  signer = bob;
  header = some alice_header;
  payload = 5 ∷ 6 ∷ [];
}

-- The same header, posted earlier by somebody else.
abbrev foreign_blob : ObservedBlob
foreign_blob = record {
  height = 3;
  index = 0;
  signer = alice;
  header = some alice_header;
  payload = 5 ∷ 6 ∷ [];
}

abbrev cell_filter : FilterArgs
cell_filter = record {
  expected_keys = alice_deal ∷ [];
  signer_of = signers;
  deadline = 0;
  shard = 3;
  max_payload = 13776;
}

alice_signs : lookup alice signers ≡ some bob
unfolding lookup Bytes-discrete
alice_signs = refl

foreign_signer :
    (h : BlobHeader)
    → foreign_blob.header ≡ some h
    → lookup h.provider_id signers ≢ some foreign_blob.signer
foreign_signer h e p = absurd (
    omega (
      arith,
      ap (λ (b : Bytes). get_or b 0 0)
          (some_inj (
            sym alice_signs
            ∙ ap (λ (g : BlobHeader). lookup g.provider_id signers) (some_inj e)
            ∙ p)),
    ))

filter_blobs_earliest_example :
    Choice cell_filter alice_deal none
      (foreign_blob ∷ own_blob ∷ [])
      (lookup alice_deal (filter_blobs cell_filter (foreign_blob ∷ own_blob ∷ [])).0)
filter_blobs_earliest_example =
    filter_blobs_earliest cell_filter alice_deal (foreign_blob ∷ own_blob ∷ [])

-- The ladder keeps Alice's own blob, though the foreign one is earlier.
own_blob_kept :
    lookup alice_deal (filter_blobs cell_filter (foreign_blob ∷ own_blob ∷ [])).0 ≡ some own_blob
unfolding filter_blobs lookup member Bytes-discrete signed_by_owner insert
own_blob_kept = refl

abbrev sim_clock : Clock
sim_clock = record { p = profile_sim; h0 = 0 }

abbrev alice_expected : ExpectedDeal
alice_expected = record {
  provider_id = alice;
  deal_id = deal_one;
  sealed_root = replicate 32 4;
  declared_unavailable = false;
}

one_key-Nodup : Nodup (map expected_key (alice_expected ∷ []))
one_key-Nodup = Nodup-cons.1 (not-mem-nil, Nodup-nil)

abbrev run_cell : List ObservedBlob → Result ShardResult
run_cell = run cut_digest 0 0 3 book (zeros 29) (alice_expected ∷ []) signers sim_clock 100

verify_shard_verdicts_example :
    (r : ShardResult) × (run_cell (foreign_blob ∷ own_blob ∷ []) ≡ ok r)
    × (r.expected_count ≡ length (alice_expected ∷ []))
    × (length r.verdicts ≡ r.expected_count)
    × ((e : ExpectedDeal)
        → Mem e (alice_expected ∷ [])
        → lookup (expected_key e) r.verdicts
          ≡ some (
              judge e (
                lookup
                  (expected_key e)
                  (filter_blobs
                    (args cut_digest 0 0 3 book
                      (zeros 29)
                      (alice_expected ∷ [])
                      signers
                      sim_clock
                      100)
                    (foreign_blob ∷ own_blob ∷ [])).0)))
verify_shard_verdicts_example =
    verify_shard_verdicts cut_digest 0 0 3 book (zeros 29) (alice_expected ∷ []) signers sim_clock
      100 (foreign_blob ∷ own_blob ∷ [])
      ((omega arith, omega arith), ((omega arith, omega arith), tt)) one_key-Nodup

verify_shard_foreign_example :
    (x : ShardResult) × (y : ShardResult) × (run_cell ([] ++ foreign_blob ∷ own_blob ∷ []) ≡ ok x)
    × (run_cell ([] ++ own_blob ∷ []) ≡ ok y)
    × (x.verdicts ≡ y.verdicts)
    × (x.results_root ≡ y.results_root)
    × (x.cycles ≡ y.cycles)
verify_shard_foreign_example =
    verify_shard_foreign cut_digest 0 0 3 book (zeros 29) (alice_expected ∷ []) signers sim_clock
      100 [] foreign_blob (own_blob ∷ [])
      ((omega arith, omega arith), ((omega arith, omega arith), tt))
      ((omega arith, omega arith), tt) foreign_signer

-- Two workers of one cell, of which one has not seen the foreign blob.
abbrev two_jobs : List Job
two_jobs =
    record { deadline_idx = 0; shard = 3; observed = foreign_blob ∷ own_blob ∷ [] }
    ∷ record { deadline_idx = 0; shard = 3; observed = own_blob ∷ [] }
    ∷ []

work_accepted_example :
    (rs : List ShardResult) × (out : EpochVerdicts) × (work_all cut_digest 0 book
        (λ shard. zeros 29)
        (λ c. alice_expected ∷ [])
        signers
        sim_clock
        100
        two_jobs
      ≡ ok rs)
    × (reconcile_shard_results rs ≡ ok out)
work_accepted_example =
    work_accepted cut_digest 0 book (λ shard. zeros 29) (λ c. alice_expected ∷ []) signers sim_clock
      100 two_jobs
      (
        ((omega arith, omega arith), ((omega arith, omega arith), tt)),
        (((omega arith, omega arith), tt), tt),
      )
      (λ c. one_key-Nodup)

verify_shard_counts_example :
    (r : ShardResult) × (run_cell (foreign_blob ∷ own_blob ∷ []) ≡ ok r)
    × (n_pass r + n_fail r + n_absent r ≡ 1)
verify_shard_counts_example =
    verify_shard_counts cut_digest 0 0 3 book (zeros 29) (alice_expected ∷ []) signers sim_clock 100
      (foreign_blob ∷ own_blob ∷ []) ((omega arith, omega arith), ((omega arith, omega arith), tt))
      one_key-Nodup
