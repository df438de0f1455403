-- ===== src/Sector/Losses.antt =====
-- Losing chunks of a sector, and losing all of it.
use he_thong_chung_minh_luu.Prelude.{
  All, Bool, Bool-cases, List, [], ap, arith, chunk_missing, err, false, if◌then◌else◌, inl, inr,
  ite, length, lt→ltb, ok, refl, some, sym, true, ℕ, ℕ_discrete, ℕ_eq, ℕ_ord, ◌*◌, ◌<◌, ◌==◌, ◌∙◌,
  ◌∷◌, ◌≡◌,
}
use he_thong_chung_minh_luu.Bytes.{Bytes, zeros}
use he_thong_chung_minh_luu.Sort.{insert_sorted, length-sort_by, sort_by, sort_by-All}
use he_thong_chung_minh_luu.Dict.{add, member, member-set_of, set_of}
use he_thong_chung_minh_luu.Sector.{
  Sector, chunk, delete, lose_chunks, on_disk_bytes, punch, read_at,
}
use he_thong_chung_minh_luu.Sector.Blocks.{erase, length-erase, read_at-erase}
use he_thong_chung_minh_luu.Sector.Reads.{IsWhole, chunk-IsWhole}

-- `sorted` and `set` keep the members.
member-insert_sorted :
    (j i : ℕ) (is : List ℕ) → member j (insert_sorted (λ x. x) i is) ≡ member j (i ∷ is)
unfolding member insert_sorted
member-insert_sorted j i [] = refl
member-insert_sorted j i (k ∷ is) = ground (arith, member-insert_sorted j i is)

member-sort_by : (j : ℕ) (is : List ℕ) → member j (sort_by (λ x. x) is) ≡ member j is
unfolding member sort_by
member-sort_by j [] = refl
member-sort_by j (i ∷ is) =
    ground (arith, member-insert_sorted j i (sort_by (λ x. x) is), member-sort_by j is)

-- Every index is one of a chunk.
abbrev pub AllBelow : ℕ → List ℕ → Type 0
AllBelow n = All (λ i. i < n)

either_way :
    (j i : ℕ) (m : Bool) (z y : Bytes)
    → (if m then z else if j == i then z else y) ≡ (if ite (ℕ_discrete j i) true m then z else y)
either_way j i m z y = ground arith

inside_ok : (m : Bool) (z y : Bytes) → ok (if m then z else y) ≡ (if m then ok z else ok y)
inside_ok true z y = refl
inside_ok false z y = refl

punch_lem :
    (width n : ℕ) (is : List ℕ) (f : Bytes)
    → AllBelow n is
    → length f ≡ n * width
    → (length (punch width is f) ≡ n * width)
      × ((j : ℕ)
          → j < n
          → read_at (punch width is f) (j * width) width
            ≡ (if member j is then zeros width else read_at f (j * width) width))
unfolding punch member
punch_lem width n [] f a h = (h, λ j k. refl)
punch_lem width n (i ∷ is) f a h =
    let (l, r) = punch_lem width n is (erase width i f) a.1 (length-erase width i n f a.0 h) in
    (
      l,
      λ j k.
          r j k
          ∙ ap (λ x. if member j is then zeros width else x) (read_at-erase width i j n f a.0 k h)
          ∙ either_way j i (member j is) (zeros width) (read_at f (j * width) width),
    )

set_of-AllBelow : (n : ℕ) (is : List ℕ) → AllBelow n is → AllBelow n (set_of is)
unfolding set_of add
set_of-AllBelow n [] a = tt
set_of-AllBelow n (i ∷ is) a = elim (Bool-cases (member i (set_of is))) [
  | inl old ↦ rw old (set_of-AllBelow n is a.1)
  | inr new ↦ rw new (a.0, set_of-AllBelow n is a.1)
]

-- For indices of chunks of a sector with a whole file, `lose_chunks` returns the number of different
-- indices and leaves a whole file in which the chunks at these indices are zeros and all others are
-- as they were.
pub lose_chunks_lem :
    (s : Sector) (is : List ℕ)
    → IsWhole s
    → AllBelow s.n_chunks is
    → (later : Sector) × (lose_chunks is s ≡ ok (length (set_of is), later))
      × IsWhole later
      × (later.n_chunks ≡ s.n_chunks)
      × (later.chunk_size ≡ s.chunk_size)
      × ((j : ℕ)
          → j < s.n_chunks
          → chunk later j ≡ (if member j is then ok (zeros s.chunk_size) else chunk s j))
unfolding lose_chunks
lose_chunks_lem s is w a =
    let lost : List ℕ = sort_by (λ i. i) (set_of is) in
    let below : AllBelow s.n_chunks lost =
      sort_by-All (λ i. i) (λ i. i < s.n_chunks) (set_of is) (set_of-AllBelow s.n_chunks is a) in
    let (l, r) = punch_lem s.chunk_size s.n_chunks lost w.content below w.sized in
    let later : Sector = record s { file = some (punch s.chunk_size lost w.content) } in
    let v : IsWhole later = record {
      content = punch s.chunk_size lost w.content;
      there = refl;
      sized = l;
    } in
    (
      later,
      rw (w.there, lose_chunks) (ap (λ n. ok (n, later)) (length-sort_by (λ i. i) (set_of is))),
      v,
      refl,
      refl,
      λ j k.
          chunk-IsWhole later v j k
          ∙ ap ok (r j k)
          ∙ ap
              (λ m. ok (
                if m
                then zeros s.chunk_size
                else read_at w.content (j * s.chunk_size) s.chunk_size))
              (member-sort_by j (set_of is) ∙ member-set_of j is)
          ∙ inside_ok (member j is) (zeros s.chunk_size) _
          ∙ ap (λ x. if member j is then ok (zeros s.chunk_size) else x)
              (sym (chunk-IsWhole s w j k)),
    )

-- After `delete` nothing is on the disk, and every chunk that the sector had is missing.
pub delete_lem :
    (s : Sector) (j : ℕ)
    → j < s.n_chunks
    → (chunk (delete s) j ≡ err chunk_missing) × (on_disk_bytes (delete s) ≡ 0)
unfolding chunk delete on_disk_bytes
delete_lem s j h = (rw (lt→ltb j s.n_chunks h) refl, refl)
