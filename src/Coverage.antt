-- ===== src/Coverage.antt =====
-- `worker/src/worker/coverage.py`: the commitment to the blobs that a worker has seen, its cost, and
-- the saturation of the window.
pub mod Total
use he_thong_chung_minh_luu.Prelude.{
  List, Result, [], if◌then◌else◌, leb, length, ltb, min, ok, pair_ord, ℕ, ℕ_ord, ◌%◌, ◌*◌, ◌+◌,
  ◌-◌, ◌/◌, ◌==◌, ◌>>=◌, ◌∷◌,
}
use he_thong_chung_minh_luu.Bytes.{Bytes, to_bytes_le}
use he_thong_chung_minh_luu.Config.{
  coverage_sha256_per_window, data_square_roots_max, square_saturated_min_roots,
}
use he_thong_chung_minh_luu.Sort.{sort_by}
use he_thong_chung_minh_luu.Crypto.{Digest, keccak, merkle_root}
use he_thong_chung_minh_luu.Blob.{ObservedBlob, position}

-- `class CoverageProof`
pub record CoverageProof : Type 0 where
  pub namespace : Bytes
  pub height_start : ℕ
  pub height_end : ℕ
  pub n_blobs_seen : ℕ
  pub commitment : Bytes
  pub sha256_ops : ℕ
  pub window_saturation : ℕ

-- `CoverageProof.cycles`
unfoldable pub coverage_cycles : CoverageProof → ℕ → ℕ
coverage_cycles c sha_cycles = c.sha256_ops * sha_cycles

-- Python's `round(a / b)`: to the nearest, a half to the even one.
unfoldable pub round_div : ℕ → ℕ → ℕ
round_div a b =
    let q = a / b in
    let twice = 2 * (a % b) in
    if ltb twice b then q else if ltb b twice then q + 1 else if q % 2 == 0 then q else q + 1

-- `sum(1 for r in square_roots if r >= SQUARE_SATURATED_MIN_ROOTS)`
unfoldable pub full_blocks : List ℕ → ℕ
full_blocks [] = 0
full_blocks (r ∷ rs) = (if leb square_saturated_min_roots r then 1 else 0) + full_blocks rs

-- `min(255, round(255 * full / n_blocks))`, or 0 without roots or without blocks.
unfoldable pub saturation : List ℕ → ℕ → ℕ
unfolding round_div full_blocks
saturation [] n_blocks = 0
saturation (r ∷ rs) n_blocks =
    if n_blocks == 0 then 0 else min 255 (round_div (255 * full_blocks (r ∷ rs)) n_blocks)

-- `(2 * n - 1) if n else 0`
unfoldable pub commit_ops : ℕ → ℕ
commit_ops n = if n == 0 then 0 else 2 * n - 1

-- The part of the cost that depends on the window.
unfoldable pub dataroot_ops : ℕ → ℕ
dataroot_ops n_blocks = min coverage_sha256_per_window (n_blocks * (data_square_roots_max - 1 + 9))

module _ (sha3 : Digest) where
  -- The leaf of one blob.
  unfoldable pub blob_leaf : ObservedBlob → Result Bytes
  unfolding to_bytes_le keccak
  blob_leaf b = do
    h ← to_bytes_le 8 b.height
    i ← to_bytes_le 4 b.index
    ok (keccak sha3 (h ∷ i ∷ b.signer ∷ []))

  unfoldable pub blob_leaves : List ObservedBlob → Result (List Bytes)
  unfolding blob_leaf
  blob_leaves [] = ok []
  blob_leaves (b ∷ bs) = let rest = blob_leaves bs in do l ← blob_leaf b; ls ← rest; ok (l ∷ ls)

  -- `prove_coverage`; a missing `square_roots` is the empty list.
  unfoldable pub prove_coverage : Bytes → List ObservedBlob → ℕ → ℕ → List ℕ → Result CoverageProof
  unfolding sort_by blob_leaves merkle_root saturation dataroot_ops commit_ops
  prove_coverage namespace blobs height_start height_end square_roots = do
    let ordered = sort_by position blobs
    leaves ← blob_leaves ordered
    let n_blocks = height_end - height_start
    ok (record {
      namespace = namespace;
      height_start = height_start;
      height_end = height_end;
      n_blobs_seen = length ordered;
      commitment = merkle_root (keccak sha3) leaves;
      sha256_ops = dataroot_ops n_blocks + commit_ops (length ordered);
      window_saturation = saturation square_roots n_blocks;
    })
