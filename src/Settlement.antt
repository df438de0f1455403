-- ===== src/Settlement.antt =====
-- `SettlementLeaf` of `aggregator/src/aggregator/aggregate.py`: the row of one deal in one epoch, with
-- which a provider draws its reward from the contract.
pub mod Binding
use he_thong_chung_minh_luu.Prelude.{
  List, Result, [], assertion, eqb, if◌then◌else◌, length, not, ok, raise_if, ℕ, ◌==◌, ◌>>=◌, ◌>>◌,
  ◌^◌, ◌∷◌,
}
use he_thong_chung_minh_luu.Bytes.{Bytes, bytes_eq, codes, to_bytes_be}
use he_thong_chung_minh_luu.Verdict.{Verdict, fail, pass, rank, verdict_eq}
use he_thong_chung_minh_luu.Crypto.{Digest, keccak}
use he_thong_chung_minh_luu.Blob.{Key}

pub record SettlementLeaf : Type 0 where
  pub epoch : ℕ
  pub provider_id : Bytes
  pub deal_id : Bytes
  pub verdict : Verdict
  pub challenges_total : ℕ
  pub challenges_passed : ℕ
  pub reward_wei : ℕ
  pub slash_wei : ℕ

-- `b"ENGRAM_LEAF_V1"`
abbrev pub leaf_tag : Bytes
leaf_tag = codes "ENGRAM_LEAF_V1"

-- `SettlementLeaf.digest`
unfoldable pub leaf_digest : Digest → SettlementLeaf → Result Bytes
unfolding to_bytes_be rank keccak
leaf_digest sha3 lf = do
  raise_if (not (length lf.provider_id == 20)) assertion
  raise_if (not (length lf.deal_id == 32)) assertion
  e ← to_bytes_be 8 lf.epoch
  t ← to_bytes_be 4 lf.challenges_total
  p ← to_bytes_be 4 lf.challenges_passed
  r ← to_bytes_be 32 lf.reward_wei
  s ← to_bytes_be 32 lf.slash_wei
  ok (
      keccak sha3
        (leaf_tag ∷ e ∷ lf.provider_id ∷ lf.deal_id ∷ (rank lf.verdict ∷ []) ∷ t ∷ p ∷ r ∷ s ∷ []))

-- The leaf that `aggregate_epoch` makes of a deal and its verdict.
unfoldable pub settlement_leaf : ℕ → Key × Verdict → SettlementLeaf
settlement_leaf epoch (k, v) = record {
  epoch = epoch;
  provider_id = k.0;
  deal_id = k.1;
  verdict = v;
  challenges_total = 16;
  challenges_passed = if eqb v pass then 16 else 0;
  reward_wei = if eqb v pass then 10 ^ 12 else 0;
  slash_wei = if eqb v fail then 10 ^ 13 else 0;
}

-- `[lf.digest() for lf in leaves]`
unfoldable pub leaf_digests : Digest → List SettlementLeaf → Result (List Bytes)
unfolding leaf_digest
leaf_digests sha3 [] = ok []
leaf_digests sha3 (lf ∷ lfs) =
    let rest = leaf_digests sha3 lfs in do d ← leaf_digest sha3 lf; ds ← rest; ok (d ∷ ds)
