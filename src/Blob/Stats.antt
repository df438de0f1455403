-- ===== src/Blob/Stats.antt =====
-- The counters of `FilterStats` account for every blob.
use he_thong_chung_minh_luu.Prelude.{
  List, Option-cases, [], arith, inl, inr, length, pair_eq, pair_ord, refl, ℕ, ℕ_eq, ℕ_ord, ◌+◌,
  ◌∷◌, ◌≡◌, ◌≤◌,
}
use he_thong_chung_minh_luu.Bytes.{bytes_eq}
use he_thong_chung_minh_luu.Dict.{insert, length-insert_new, length-insert_old, lookup}
use he_thong_chung_minh_luu.Blob.{Key, ObservedBlob}
use he_thong_chung_minh_luu.Blob.Filter.{
  Best, FilterArgs, FilterStats, Rung, drop_f1_length, drop_f2_header, drop_f3_key, drop_signer,
  examine, filter_blobs, filter_loop, no_stats, passes, place, see,
}

-- How many blobs pass the ladder.
abbrev passed_one : Rung → ℕ
passed_one (passes k) = 1
passed_one _ = 0

unfoldable pub passed : FilterArgs → List ObservedBlob → ℕ
passed a [] = 0
passed a (blob ∷ blobs) = passed_one (examine a blob) + passed a blobs

abbrev pub dropped : FilterStats → ℕ
dropped st = st.drop_f1_length + st.drop_f2_header + st.drop_f3_key + st.drop_signer

length-insert-le : (k : Key) (v : ObservedBlob) (d : Best) → length (insert k v d) ≤ length d + 1
length-insert-le k v d = elim (Option-cases (lookup k d)) [
  | inl new ↦ omega (arith, length-insert_new k v d new)
  | inr (w, old) ↦ omega (arith, length-insert_old k v w d old)
]

place_counts :
    (r : Rung) (blob : ObservedBlob) (best : Best) (st : FilterStats)
    → let (best', st') = place r blob (best, st) in
      (st'.seen ≡ st.seen)
      × (dropped st' + passed_one r ≡ dropped st + 1)
      × (length best' ≤ length best + passed_one r)
unfolding place
place_counts drop_f1_length blob best st = ground arith
place_counts drop_f2_header blob best st = ground arith
place_counts drop_f3_key blob best st = ground arith
place_counts drop_signer blob best st = ground arith
place_counts (passes k) blob best st = ground (arith, length-insert-le k blob best)

loop_counts :
    (a : FilterArgs) (blobs : List ObservedBlob) (best : Best) (st : FilterStats)
    → let (best', st') = filter_loop a blobs (best, st) in
      (st'.seen ≡ st.seen + length blobs)
      × (dropped st' + passed a blobs ≡ dropped st + length blobs)
      × (length best' ≤ length best + passed a blobs)
unfolding filter_loop passed
loop_counts a [] best st = omega arith
loop_counts a (blob ∷ blobs) best st =
    let (best', st') = place (examine a blob) blob (best, see st) in
    omega (arith, place_counts (examine a blob) blob best (see st), loop_counts a blobs best' st')

-- Every blob is seen once and either dropped at one rung or passed on, and no more blobs are kept
-- than pass.
pub filter_blobs_counts :
    (a : FilterArgs) (blobs : List ObservedBlob)
    → let (best, st) = filter_blobs a blobs in
      (st.seen ≡ length blobs)
      × (dropped st + passed a blobs ≡ length blobs)
      × (st.kept ≡ length best)
      × (st.kept ≤ passed a blobs)
unfolding filter_blobs
filter_blobs_counts a blobs =
    let (s, d, k) = loop_counts a blobs [] no_stats in
    (omega (arith, s), omega (arith, d), refl, omega (arith, k))
