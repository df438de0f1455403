-- ===== src/Coverage/Total.antt =====
-- `prove_coverage` returns for all positions that Celestia can give a blob.
use he_thong_chung_minh_luu.Prelude.{
  All, List, [], length, map, ok, pair_ord, refl, ℕ, ℕ_eq, ℕ_ord, ◌+◌, ◌-◌, ◌<◌, ◌^◌, ◌∷◌, ◌≡◌,
}
use he_thong_chung_minh_luu.Bytes.{Bytes, le_digits}
use he_thong_chung_minh_luu.Sort.{length-sort_by, sort_by, sort_by-All}
use he_thong_chung_minh_luu.Crypto.{Digest, keccak, merkle_root}
use he_thong_chung_minh_luu.Blob.{ObservedBlob, position}
use he_thong_chung_minh_luu.Coverage.{
  CoverageProof, blob_leaf, blob_leaves, commit_ops, dataroot_ops, prove_coverage, saturation,
}
use he_thong_chung_minh_luu.Bytes.Fields.{to_bytes_le_lem}

-- The height fits into 8 bytes and the index into 4.
abbrev pub IsPlaced : ObservedBlob → Type 0
IsPlaced b = (b.height < 256 ^ 8) × (b.index < 256 ^ 4)

module _ (sha3 : Digest) where
  -- The leaf of a blob, when its position fits.
  abbrev pub leaf_of : ObservedBlob → Bytes
  leaf_of b = keccak sha3 (le_digits 8 b.height ∷ le_digits 4 b.index ∷ b.signer ∷ [])

  blob_leaves_lem :
      (bs : List ObservedBlob) → All IsPlaced bs → blob_leaves sha3 bs ≡ ok (map leaf_of bs)
  unfolding blob_leaves blob_leaf
  blob_leaves_lem [] h = refl
  blob_leaves_lem (b ∷ bs) ((p, q), h) =
      rw (to_bytes_le_lem 8 b.height p, to_bytes_le_lem 4 b.index q, blob_leaves_lem bs h)

  -- The coverage proof of blobs at such positions.
  abbrev pub coverage_of : Bytes → List ObservedBlob → ℕ → ℕ → List ℕ → CoverageProof
  coverage_of ns blobs first last roots = record {
    namespace = ns;
    height_start = first;
    height_end = last;
    n_blobs_seen = length blobs;
    commitment = merkle_root (keccak sha3) (map leaf_of (sort_by position blobs));
    sha256_ops = dataroot_ops (last - first) + commit_ops (length blobs);
    window_saturation = saturation roots (last - first);
  }

  pub prove_coverage_lem :
      (ns : Bytes) (blobs : List ObservedBlob) (first last : ℕ) (roots : List ℕ)
      → All IsPlaced blobs
      → prove_coverage sha3 ns blobs first last roots ≡ ok (coverage_of ns blobs first last roots)
  unfolding prove_coverage
  prove_coverage_lem ns blobs first last roots h = rw (
    blob_leaves_lem (sort_by position blobs) (sort_by-All position IsPlaced blobs h),
    length-sort_by position blobs,
  )
