-- ===== src/Aggregate/Saturation.antt =====
-- The saturation of the window that reaches the public values: `verify_shard` gives no square roots
-- to `prove_coverage`.
use he_thong_chung_minh_luu.Prelude.{
  >>=-eq-ok, All, List, [], ap, arith, list_ord, ok, ok_inj, pair_ord, refl, some, sym, ℕ, ℕ_eq,
  ℕ_ord, ◌∙◌, ◌∷◌, ◌≡◌,
}
use he_thong_chung_minh_luu.Bytes.{Bytes, bytes_eq}
use he_thong_chung_minh_luu.Dict.{Dict}
use he_thong_chung_minh_luu.Crypto.{Digest}
use he_thong_chung_minh_luu.Clock.{Clock, slot_at}
use he_thong_chung_minh_luu.Blob.{ObservedBlob, position}
use he_thong_chung_minh_luu.Coverage.{CoverageProof, blob_leaves, prove_coverage, saturation}
use he_thong_chung_minh_luu.Shard.{ExpectedDeal, ShardResult, verify_shard}
use he_thong_chung_minh_luu.Settlement.{SettlementLeaf}
use he_thong_chung_minh_luu.Public.{PublicValues}
use he_thong_chung_minh_luu.Aggregate.{EpochArgs, aggregate_epoch, max_saturation}
use he_thong_chung_minh_luu.Aggregate.Steps.{aggregate_epoch-IsAggregated}
use he_thong_chung_minh_luu.Sort.{sort_by}

-- What a worker is given for one cell.
pub record CellArgs : Type 0 where
  pub epoch : ℕ
  pub deadline_idx : ℕ
  pub shard : ℕ
  pub snapshot : Bytes
  pub namespace : Bytes
  pub expected : List ExpectedDeal
  pub observed : List ObservedBlob
  pub signer_of : Dict Bytes Bytes
  pub clock : Clock
  pub sha_cycles : ℕ

-- The result is one that `verify_shard` returns.
abbrev pub IsJudged : Digest → ShardResult → Type 0
IsJudged sha3 r =
    (c : CellArgs) × (verify_shard sha3 c.epoch c.deadline_idx c.shard c.snapshot c.namespace
        c.expected c.observed c.signer_of c.clock c.sha_cycles
      ≡ ok r)

prove_coverage-saturation :
    (sha3 : Digest) (ns : Bytes) (blobs : List ObservedBlob) (first last : ℕ) (p : CoverageProof)
    → prove_coverage sha3 ns blobs first last [] ≡ ok p
    → p.window_saturation ≡ 0
unfolding prove_coverage saturation
prove_coverage-saturation sha3 ns blobs first last p h =
    let (leaves, _, e) = >>=-eq-ok (blob_leaves sha3 (sort_by position blobs)) _ h in
    sym (ap (λ (q : CoverageProof). q.window_saturation) (ok_inj e))

IsJudged-coverage :
    (sha3 : Digest) (r : ShardResult)
    → IsJudged sha3 r
    → (p : CoverageProof) × (r.coverage ≡ some p) × (p.window_saturation ≡ 0)
unfolding verify_shard
IsJudged-coverage sha3 r (c, h) =
    let s = slot_at c.clock c.epoch c.deadline_idx in
    let (p, made, e) =
      >>=-eq-ok (prove_coverage sha3 c.namespace c.observed s.window_start s.window_end []) _ h in
    (
      p,
      sym (ap (λ (q : ShardResult). q.coverage) (ok_inj e)),
      prove_coverage-saturation sha3 c.namespace c.observed s.window_start s.window_end p made,
    )

max_saturation_lem :
    (sha3 : Digest) (rs : List ShardResult) → All (IsJudged sha3) rs → max_saturation rs ≡ 0
unfolding max_saturation
max_saturation_lem sha3 [] h = refl
max_saturation_lem sha3 (r ∷ rs) h =
    let (p, e, z) = IsJudged-coverage sha3 r h.0 in
    rw (e, max_saturation) (omega (arith, z, max_saturation_lem sha3 rs h.1))

-- When an epoch is aggregated from results that `verify_shard` returned, the saturation of the window
-- in its public values is 0, whatever the blocks of the window held.
pub aggregate_epoch-saturation :
    (sha3 : Digest) (a : EpochArgs) (rs : List ShardResult) (sid : Bytes) (pv : PublicValues)
    (proof : Bytes) (leaves : List SettlementLeaf)
    → aggregate_epoch sha3 a rs sid ≡ ok (pv, proof, leaves)
    → All (IsJudged sha3) rs
    → pv.window_saturation ≡ 0
aggregate_epoch-saturation sha3 a rs sid pv proof leaves h judged =
    let (ev, g) = aggregate_epoch-IsAggregated sha3 a rs sid pv proof leaves h in
    g.saturation_lem ∙ max_saturation_lem sha3 rs judged
