-- ===== src/Shard/Counts.antt =====
-- The three counts of a result add up to the number of deals that its cell expects.
use mathlib.Core.List.{Nodup}
use he_thong_chung_minh_luu.Prelude.{
  All, List, Option, [], ap, arith, dec_eq, if_neg, if_pos, length, none, ok, ok_inj, pair_eq, refl,
  some, subst, sym, ℕ, ◌+◌, ◌∙◌, ◌∷◌, ◌≡◌, ◌≢◌,
}
use he_thong_chung_minh_luu.Bytes.{Bytes, bytes_eq}
use he_thong_chung_minh_luu.Verdict.{Verdict, absent, fail, none_v, pass, verdict_eq}
use he_thong_chung_minh_luu.Dict.{Dict, insert, lookup}
use he_thong_chung_minh_luu.Crypto.{Digest}
use he_thong_chung_minh_luu.Clock.{Clock}
use he_thong_chung_minh_luu.Coverage.Total.{IsPlaced}
use he_thong_chung_minh_luu.Blob.{Key, ObservedBlob}
use he_thong_chung_minh_luu.Blob.Filter.{Best}
use he_thong_chung_minh_luu.Shard.{
  ExpectedDeal, ShardResult, count_verdict, expected_key, judge, judge_loop, n_absent, n_fail,
  n_pass,
}
use he_thong_chung_minh_luu.Shard.Judgement.{keys_of}
use he_thong_chung_minh_luu.Shard.Verdicts.{run, verify_shard_lem, verify_shard_verdicts}

-- Every value is a judgement.
abbrev AllJudged : Dict Key Verdict → Type 0
AllJudged = All (λ e. e.1 ≢ none_v)

judge-ne : (e : ExpectedDeal) (o : Option ObservedBlob) → judge e o ≢ none_v
unfolding judge
judge-ne e none q = cc
judge-ne e (some b) q = ground arith

insert-AllJudged :
    (k : Key) (v : Verdict) (d : Dict Key Verdict)
    → v ≢ none_v
    → AllJudged d
    → AllJudged (insert k v d)
unfolding insert
insert-AllJudged k v [] h a = (h, tt)
insert-AllJudged k v ((j, w) ∷ d) h a = elim (dec_eq k j) [
  | yes q ↦ subst AllJudged (sym (if_pos (dec_eq k j) q ((j, v) ∷ d) _)) (h, a.1)
  | no n ↦
      subst AllJudged (sym (if_neg (dec_eq k j) n ((j, v) ∷ d) ((j, w) ∷ insert k v d)))
        (a.0, insert-AllJudged k v d h a.1)
]

judge_loop-AllJudged :
    (kept : Best) (es : List ExpectedDeal) (d : Dict Key Verdict) (n : ℕ)
    → AllJudged d
    → AllJudged (judge_loop kept es (d, n)).0
unfolding judge_loop
judge_loop-AllJudged kept [] d n a = a
judge_loop-AllJudged kept (e ∷ es) d n a =
    judge_loop-AllJudged kept es _ _
      (insert-AllJudged (expected_key e) _ d (judge-ne e (lookup (expected_key e) kept)) a)

count_all :
    (d : Dict Key Verdict)
    → AllJudged d
    → count_verdict pass d + count_verdict fail d + count_verdict absent d ≡ length d
unfolding count_verdict
count_all [] a = refl
count_all ((k, none_v) ∷ d) a = absurd (a.0 refl)
count_all ((k, absent) ∷ d) a = let rest = count_all d a.1 in ground arith
count_all ((k, fail) ∷ d) a = let rest = count_all d a.1 in ground arith
count_all ((k, pass) ∷ d) a = let rest = count_all d a.1 in ground arith

-- For blobs at positions that Celestia can give and expected deals with distinct keys, `verify_shard`
-- returns, and the deals that pass, fail and are absent are together all deals that the cell expects.
pub verify_shard_counts :
    (sha3 : Digest) (epoch d shard : ℕ) (snapshot ns : Bytes) (expected : List ExpectedDeal)
    (signer_of : Dict Bytes Bytes) (clock : Clock) (sha_cycles : ℕ) (observed : List ObservedBlob)
    → All IsPlaced observed
    → Nodup (keys_of expected)
    → (r : ShardResult) × (run sha3 epoch d shard snapshot ns expected signer_of clock sha_cycles
          observed
        ≡ ok r)
      × (n_pass r + n_fail r + n_absent r ≡ length expected)
unfolding n_pass n_fail n_absent
verify_shard_counts sha3 epoch d shard snapshot ns expected signer_of clock sha_cycles observed
      placed distinct =
    let (r, p, v, _, _, _) =
      verify_shard_lem sha3 epoch d shard snapshot ns expected signer_of clock sha_cycles observed
        placed in
    let (r', p', n, m, _) =
      verify_shard_verdicts sha3 epoch d shard snapshot ns expected signer_of clock sha_cycles
        observed placed distinct in
    let same : r' ≡ r = ok_inj (sym p' ∙ p) in
    (
      r,
      p,
      count_all r.verdicts (subst AllJudged (sym v) (judge_loop-AllJudged _ _ [] 0 tt))
          ∙ ap (λ x. length x.verdicts) (sym same)
          ∙ m
          ∙ n,
    )
