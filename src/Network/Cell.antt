-- ===== src/Network/Cell.antt =====
-- One honest blob is enough for a PASS, whatever else lies in the namespace.
use mathlib.Core.Logic.{∥∥₁_elim}
use mathlib.Core.Logic.Or
use mathlib.Core.List.{Mem, Nodup, eq-or-mem_of_mem-cons, not-mem-nil}
use he_thong_chung_minh_luu.Prelude.{
  All, List, [], ap, if◌then◌else◌, inl, inr, none-ne-some, ok, pair_eq, some, subst, sym, true, ℕ,
  ◌∙◌, ◌∷◌, ◌≡◌,
}
use he_thong_chung_minh_luu.Bytes.{Bytes, bytes_eq}
use he_thong_chung_minh_luu.Dict.{Dict, lookup}
use he_thong_chung_minh_luu.Crypto.{Digest}
use he_thong_chung_minh_luu.Clock.{Clock}
use he_thong_chung_minh_luu.Coverage.Total.{IsPlaced}
use he_thong_chung_minh_luu.Blob.{BlobHeader, Key, ObservedBlob, key}
use he_thong_chung_minh_luu.Blob.Filter.{FilterArgs, filter_blobs}
use he_thong_chung_minh_luu.Blob.Earliest.{filter_blobs_earliest}
use he_thong_chung_minh_luu.Blob.Ladder.{IsOwn, examine-IsOwn}
use he_thong_chung_minh_luu.Shard.{ExpectedDeal, ShardResult, expected_key, judge, verify_bundle}
use he_thong_chung_minh_luu.Shard.Judgement.{keys_of}
use he_thong_chung_minh_luu.Shard.Verdicts.{args, run, verify_shard_verdicts}
use he_thong_chung_minh_luu.Verdict.{fail, pass}

-- A blob that the ladder lets pass under a key.
abbrev pub PassesAs : FilterArgs → Key → ObservedBlob → Type 0
PassesAs a k b = (h : BlobHeader) × (key h ≡ k) × IsOwn a b h

pub All-Mem :
    (P : ObservedBlob → Type 0) (bs : List ObservedBlob) (b : ObservedBlob)
    → ((x : ObservedBlob) → IsProp (P x))
    → All P bs
    → Mem b bs
    → P b
All-Mem P [] b p a m = absurd (not-mem-nil m)
All-Mem P (c ∷ bs) b p a m =
    Or.elim (p b) (eq-or-mem_of_mem-cons m) (λ q. subst P (sym q) a.0) (All-Mem P bs b p a.1)

judge_good :
    (a : FilterArgs) (e : ExpectedDeal) (blobs : List ObservedBlob) (b : ObservedBlob)
    → Mem b blobs
    → PassesAs a (expected_key e) b
    → ((c : ObservedBlob)
        → Mem c blobs
        → PassesAs a (expected_key e) c
        → verify_bundle c.payload e ≡ true)
    → judge e (lookup (expected_key e) (filter_blobs a blobs).0) ≡ pass
unfolding judge
judge_good a e blobs b m own good = elim (filter_blobs_earliest a (expected_key e) blobs) [
  | inl (_, _, nobody) ↦
      absurd (All-Mem _ blobs b (λ x. hlevel) nobody m ((examine-IsOwn a b (expected_key e)).1 own))
  | inr (c, kept, i) ↦ elim i.source [
    | inl q ↦ absurd (none-ne-some q)
    | inr (n, p) ↦
        ap (judge e) kept
        ∙ ap (λ t. if t then pass else fail) (good c n ((examine-IsOwn a c (expected_key e)).0 p))
  ]
]

-- When the blobs of a cell are at positions that Celestia can give and the expected deals have
-- distinct keys, and some blob passes the ladder under the key of an expected deal, and each that
-- does so has a valid bundle, then `verify_shard` returns and gives the deal PASS.
pub verify_shard_honest :
    (sha3 : Digest) (epoch d shard : ℕ) (snapshot ns : Bytes) (expected : List ExpectedDeal)
    (signer_of : Dict Bytes Bytes) (clock : Clock) (sha_cycles : ℕ) (observed : List ObservedBlob)
    (e : ExpectedDeal)
    → All IsPlaced observed
    → Nodup (keys_of expected)
    → Mem e expected
    → ∥ (
        (b : ObservedBlob) × Mem b observed
        × PassesAs
            (args sha3 epoch d shard snapshot ns expected signer_of clock sha_cycles)
            (expected_key e)
            b) ∥₁
    → ((c : ObservedBlob)
        → Mem c observed
        → PassesAs
            (args sha3 epoch d shard snapshot ns expected signer_of clock sha_cycles)
            (expected_key e)
            c
        → verify_bundle c.payload e ≡ true)
    → (r : ShardResult) × (run sha3 epoch d shard snapshot ns expected signer_of clock sha_cycles
          observed
        ≡ ok r)
      × (lookup (expected_key e) r.verdicts ≡ some pass)
verify_shard_honest sha3 epoch d shard snapshot ns expected signer_of clock sha_cycles observed e
      placed distinct is_expected own good =
    let (r, p, _, _, verdicts) =
      verify_shard_verdicts sha3 epoch d shard snapshot ns expected signer_of clock sha_cycles
        observed placed distinct in
    let a : FilterArgs = args sha3 epoch d shard snapshot ns expected signer_of clock sha_cycles in
    (
      r,
      p,
      verdicts e is_expected
          ∙ ∥∥₁_elim own (hlevel)
              (λ (b, m, passes_b). ap some (judge_good a e observed b m passes_b good)),
    )
