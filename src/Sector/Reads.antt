-- ===== src/Sector/Reads.antt =====
-- Reading a sector whose file is whole, and what `from_bytes` makes of the data of a client.
use mathlib.Core.List.{append-nil}
use native.Mathlib.Nat.{div-add-mod', mod-lt, suc-mul, zero-mul}
use he_thong_chung_minh_luu.Prelude.{
  List, [], ap, ap₂, arith, dec_lt, drop, err, false, get_or, ge→ltb, index_error, inl, inr, length,
  length-append, length-drop, length-replicate, length-take, ltb, lt→ltb, ok, refl, some, suc, sym,
  take, take-append-drop, zero, ℕ, ◌*◌, ◌++◌, ◌+◌, ◌-◌, ◌/◌, ◌<◌, ◌==◌, ◌∙◌, ◌∷◌, ◌≡◌, ◌≤◌, ◌⊎◌,
}
use he_thong_chung_minh_luu.Bytes.{Bytes, zeros}
use he_thong_chung_minh_luu.Bytes.Struct.{join}
use he_thong_chung_minh_luu.Sector.{Sector, chunk, from_bytes, iter_chunks, read_at, read_chunks}
use he_thong_chung_minh_luu.Sector.Blocks.{chunk_inside, read_at-suc}

-- The file is there, and holds as many bytes as its chunks.
pub record IsWhole (s : Sector) : Type 0 where
  pub content : Bytes
  pub there : s.file ≡ some content
  pub sized : length content ≡ s.n_chunks * s.chunk_size

pub chunk-IsWhole :
    (s : Sector) (w : IsWhole s) (i : ℕ)
    → i < s.n_chunks
    → chunk s i ≡ ok (read_at w.content (i * s.chunk_size) s.chunk_size)
unfolding chunk
chunk-IsWhole s w i h =
    let fits = chunk_inside s.chunk_size i s.n_chunks h in
    let long : length (read_at w.content (i * s.chunk_size) s.chunk_size) ≡ s.chunk_size = omega (
      arith,
      w.sized,
      length-take s.chunk_size (drop (i * s.chunk_size) w.content),
      length-drop (i * s.chunk_size) w.content,
    ) in
    let full : ltb (length (read_at w.content (i * s.chunk_size) s.chunk_size)) s.chunk_size
        ≡ false =
      ge→ltb _ s.chunk_size (omega (arith, long)) in
    rw (lt→ltb i s.n_chunks h, w.there, full) refl

pub chunk_outside : (s : Sector) (i : ℕ) → s.n_chunks ≤ i → chunk s i ≡ err index_error
unfolding chunk
chunk_outside s i h = rw (ge→ltb i s.n_chunks h) refl

-- The first of the chunks needs no padding.
first_whole :
    (width n : ℕ) (f : Bytes)
    → length f ≡ suc n * width
    → take width f ++ zeros (width - length (take width f)) ≡ take width f
first_whole width n f h =
    let fits = suc-mul n width in
    let none_missing : width - length (take width f) ≡ 0 = omega (arith, length-take width f) in
    ap (λ k. take width f ++ zeros k) none_missing ∙ append-nil (take width f)

join-read_chunks :
    (width n : ℕ) (f : Bytes) → length f ≡ n * width → join (read_chunks width n f) ≡ f
unfolding read_chunks join
join-read_chunks width zero [] h = refl
join-read_chunks width zero (b ∷ f) h = absurd (omega (arith, zero-mul width))
join-read_chunks width (suc n) f h =
    let fits = suc-mul n width in
    let left : length (drop width f) ≡ n * width = omega (arith, length-drop width f) in
    ap₂ ◌++◌ (first_whole width n f h) (join-read_chunks width n (drop width f) left)
    ∙ take-append-drop width f

pub get_or-read_chunks :
    (width n i : ℕ) (f : Bytes)
    → length f ≡ n * width
    → i < n
    → get_or (read_chunks width n f) i [] ≡ read_at f (i * width) width
unfolding read_chunks
get_or-read_chunks width zero i f h k = absurd (omega arith)
get_or-read_chunks width (suc n) zero f h k =
    first_whole width n f h ∙ ap (λ m. take width (drop m f)) (sym (zero-mul width))
get_or-read_chunks width (suc n) (suc i) f h k =
    get_or-read_chunks width n i (drop width f)
      (omega (arith, suc-mul n width, length-drop width f)) (omega arith)
    ∙ sym (read_at-suc width i f)

length-read_chunks : (width n : ℕ) (f : Bytes) → length (read_chunks width n f) ≡ n
unfolding read_chunks
length-read_chunks width zero f = refl
length-read_chunks width (suc n) f = ap suc (length-read_chunks width n (drop width f))

ceil_lem : (n width : ℕ) → 0 < width → n ≤ (n + width - 1) / width * width
ceil_lem n width h = omega (arith, div-add-mod' (n + width - 1) width, mod-lt (n + width - 1) h)

-- The reading operations on a sector whose file is whole.
pub whole_reads :
    (s : Sector) (w : IsWhole s)
    → (cs : List Bytes) × (iter_chunks s ≡ ok cs)
      × (join cs ≡ w.content)
      × (length cs ≡ s.n_chunks)
      × ((i : ℕ)
          → ((i < s.n_chunks) × (chunk s i ≡ ok (get_or cs i [])))
            ⊎ ((s.n_chunks ≤ i) × (chunk s i ≡ err index_error)))
unfolding iter_chunks
whole_reads s w = (
  read_chunks s.chunk_size s.n_chunks w.content,
  rw (w.there, iter_chunks) refl,
  join-read_chunks s.chunk_size s.n_chunks w.content w.sized,
  length-read_chunks s.chunk_size s.n_chunks w.content,
  λ i. elim (dec_lt i s.n_chunks) [
    | yes h ↦ inl (
      h,
      chunk-IsWhole s w i h
          ∙ ap ok (sym (get_or-read_chunks s.chunk_size s.n_chunks i w.content w.sized h)),
    )
    | no h ↦ inr (omega arith, chunk_outside s i (omega arith))
  ],
)

-- For chunks of at least one byte `from_bytes` makes a sector with a file, and from it the data
-- comes back: `iter_chunks` gives as many chunks as the sector has, which joined are the data and
-- zeros behind it; `chunk` gives the same chunks one by one, and raises behind the last one.
pub from_bytes_reads :
    (content : Bytes) (width : ℕ)
    → 0 < width
    → (s : Sector) × (cs : List Bytes) × (from_bytes content width ≡ ok s)
      × (iter_chunks s ≡ ok cs)
      × (join cs ≡ content ++ zeros (s.n_chunks * width - length content))
      × (length cs ≡ s.n_chunks)
      × ((i : ℕ)
          → ((i < s.n_chunks) × (chunk s i ≡ ok (get_or cs i [])))
            ⊎ ((s.n_chunks ≤ i) × (chunk s i ≡ err index_error)))
unfolding from_bytes
from_bytes_reads content width h =
    let n : ℕ = (length content + width - 1) / width in
    let pad : ℕ = n * width - length content in
    let s : Sector = record {
      file = some (content ++ zeros pad);
      n_chunks = n;
      chunk_size = width;
    } in
    let w : IsWhole s = record {
      content = content ++ zeros pad;
      there = refl;
      sized = omega (
        arith,
        length-append content (zeros pad),
        length-replicate {A = ℕ} pad 0,
        ceil_lem (length content) width h,
      );
    } in
    let (cs, iter, joined, many, single) = whole_reads s w in
    let positive : (width == 0) ≡ false = ground arith in
    (s, cs, rw positive refl, iter, joined, many, single)
