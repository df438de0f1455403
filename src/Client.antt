-- ===== src/Client.antt =====
-- `client/src/client/prepare.py`: the chunks of a file and their root, and the check that copies
-- differ, which `constants.py` has again as `assert_distinct_piece_roots`.
use mathlib.Core.List.{Nodup, Nodup-cons, Nodup-nil}
use he_thong_chung_minh_luu.Prelude.{
  ==_iff, Bool-cases, List, Result, [], ap, arith, drop, false, inl, inr, length, map, not, not-not,
  ok, raise_if, raise_if-eq-ok, refl, replicate, suc, sym, take, true, value_error, zero, ℕ, ◌*◌,
  ◌++◌, ◌+◌, ◌-◌, ◌/◌, ◌==◌, ◌↔◌, ◌∙◌, ◌∷◌, ◌≡◌, ◌≤◌,
}
use he_thong_chung_minh_luu.Bytes.{Bytes, bytes_eq, ljust, zeros}
use he_thong_chung_minh_luu.Crypto.{Hasher, merkle_root}
use he_thong_chung_minh_luu.Config.{SectorProfile, chunk_size_bytes}
use he_thong_chung_minh_luu.Dict.{add, member, member-set_of, set_of}
use he_thong_chung_minh_luu.Dict.Members.{mem_of_member, member_of_mem}

-- `class PreparedPiece`, less the ratio of padding.
pub record PreparedPiece : Type 0 where
  pub piece_root : Bytes
  pub n_chunks_real : ℕ
  pub n_chunks_padded : ℕ
  pub chunks : List Bytes

-- `data[i : i + size].ljust(size, b"\0")` for `n` chunks.
unfoldable pub cut_chunks : ℕ → ℕ → Bytes → List Bytes
unfolding ljust
cut_chunks size zero b = []
cut_chunks size (suc n) b = ljust size (take size b) ∷ cut_chunks size n (drop size b)

-- The chunks of the data, or one chunk of zeros where there is no data.
unfoldable pub real_chunks : ℕ → Bytes → List Bytes
unfolding cut_chunks
real_chunks size [] = zeros size ∷ []
real_chunks size (b ∷ bs) = cut_chunks size ((length (b ∷ bs) + size - 1) / size) (b ∷ bs)

module _ (hasher : Hasher) where
  -- `prepare`, for chunks of `size` bytes and the profile of the sector.
  unfoldable pub prepare_with : ℕ → SectorProfile → Bytes → PreparedPiece
  unfolding real_chunks merkle_root
  prepare_with size prof content =
      let chunks : List Bytes = real_chunks size content in
      let n_real : ℕ = length chunks in
      let padded : List Bytes = chunks ++ replicate (prof.chunks - n_real) (zeros size) in
      record {
        piece_root = merkle_root hasher (map (λ c. hasher (c ∷ [])) padded);
        n_chunks_real = n_real;
        n_chunks_padded = prof.chunks;
        chunks = padded;
      }

  unfoldable pub prepare : SectorProfile → Bytes → PreparedPiece
  unfolding prepare_with
  prepare = prepare_with chunk_size_bytes

-- `assert_distinct_piece_roots`
unfoldable pub assert_distinct_piece_roots : List Bytes → Result (Unit {0})
unfolding set_of
assert_distinct_piece_roots roots =
    raise_if (not (length (set_of roots) == length roots)) value_error

-- `assert_distinct_replicas`
unfoldable pub assert_distinct_replicas : List PreparedPiece → Result (Unit {0})
unfolding assert_distinct_piece_roots
assert_distinct_replicas pieces = assert_distinct_piece_roots (map (λ p. p.piece_root) pieces)

-- `witness_bytes`
unfoldable pub witness_bytes : Bytes → List Bytes → List Bytes → ℕ
witness_bytes piece_root provider_path batch_path =
    32 + 32 * length provider_path + 32 * length batch_path

true-ne-false : ¬ (true ≡ false)
true-ne-false e = cc

length-set_of : (rs : List Bytes) → length (set_of rs) ≤ length rs
unfolding set_of add
length-set_of [] = omega arith
length-set_of (r ∷ rs) = let rest = length-set_of rs in ground arith

all_different : (rs : List Bytes) → length (set_of rs) ≡ length rs → Nodup rs
unfolding set_of add
all_different [] h = Nodup-nil
all_different (r ∷ rs) h =
    let few = length-set_of rs in
    let new : member r (set_of rs) ≡ false = ground arith in
    let same : length (set_of rs) ≡ length rs = ground arith in
    Nodup-cons.1 (
      λ m. true-ne-false (sym (member_of_mem r rs m) ∙ sym (member-set_of r rs) ∙ new),
      all_different rs same,
    )

length_all_different : (rs : List Bytes) → Nodup rs → length (set_of rs) ≡ length rs
unfolding set_of add
length_all_different [] u = refl
length_all_different (r ∷ rs) u =
    let (fresh, u') = Nodup-cons.0 u in
    let rest = length_all_different rs u' in
    elim (Bool-cases (member r (set_of rs))) [
      | inl old ↦ absurd (fresh (mem_of_member r rs (sym (member-set_of r rs) ∙ old)))
      | inr new ↦ rw new (ap suc rest)
    ]

-- The client is told that two copies have one root exactly when they do: the check returns for
-- roots that are pairwise different, and raises ValueError otherwise.
pub assert_distinct_iff :
    (roots : List Bytes) → (assert_distinct_piece_roots roots ≡ ok tt) ↔ Nodup roots
unfolding assert_distinct_piece_roots
assert_distinct_iff roots = (
  λ h.
      all_different roots
        ((==_iff (length (set_of roots)) (length roots)).0 (not-not _ (raise_if-eq-ok _ _ h))),
  λ u. rw ((==_iff (length (set_of roots)) (length roots)).1 (length_all_different roots u)) refl,
)
