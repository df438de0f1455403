-- ===== src/Sector.antt =====
-- `provider/src/provider/sector.py`: the chunks of a deal in one file. The file at the path of the
-- sector is part of the state: its bytes, or nothing where there is no file.
pub mod Blocks
pub mod Reads
pub mod Losses
pub mod Life
pub mod Deal
use he_thong_chung_minh_luu.Prelude.{
  List, Option, Result, [], chunk_missing, drop, err, false, file_not_found, if◌then◌else◌,
  index_error, length, ltb, none, not, ok, raise_if, some, suc, take, true, zero, zero_division, ℕ,
  ℕ_eq, ℕ_ord, ◌*◌, ◌++◌, ◌+◌, ◌-◌, ◌/◌, ◌==◌, ◌>>=◌, ◌>>◌, ◌∷◌,
}
use he_thong_chung_minh_luu.Bytes.{Bytes, to_bytes_le, zeros}
use he_thong_chung_minh_luu.Crypto.{Digest}
use he_thong_chung_minh_luu.Sort.{sort_by}
use he_thong_chung_minh_luu.Dict.{set_of}

-- `class Sector`, with the file at its path.
pub record Sector : Type 0 where
  pub file : Option Bytes
  pub n_chunks : ℕ
  pub chunk_size : ℕ

module _ (blake64 : Digest) where
  -- The loop of `generate_chunk`, on fuel; the digest has 64 bytes here.
  unfoldable pub generate_loop : ℕ → Bytes → ℕ → ℕ → ℕ → Bytes → Result Bytes
  unfolding to_bytes_le
  generate_loop zero deal_id index size counter out = ok out
  generate_loop (suc f) deal_id index size counter out = elim (ltb (length out) size) [
    | false ↦ ok out
    | true ↦ do
      i ← to_bytes_le 8 index
      c ← to_bytes_le 4 counter
      generate_loop f deal_id index size (counter + 1) (out ++ blake64 (deal_id ++ i ++ c))
  ]

  -- `generate_chunk`
  unfoldable pub generate_chunk : Bytes → ℕ → ℕ → Result Bytes
  unfolding generate_loop
  generate_chunk deal_id index size = do
    out ← generate_loop size deal_id index size 0 []
    ok (take size out)

  -- The loop of `Sector.create`: what it writes from chunk `i` on.
  unfoldable pub write_chunks : Bytes → ℕ → ℕ → ℕ → Result Bytes
  unfolding generate_chunk
  write_chunks deal_id size i zero = ok []
  write_chunks deal_id size i (suc n) = do
    c ← generate_chunk deal_id i size
    rest ← write_chunks deal_id size (i + 1) n
    ok (c ++ rest)

  -- `Sector.create`
  unfoldable pub create : Bytes → ℕ → ℕ → Result Sector
  unfolding write_chunks
  create deal_id n_chunks chunk_size = do
    f ← write_chunks deal_id chunk_size 0 n_chunks
    ok (record { file = some f; n_chunks = n_chunks; chunk_size = chunk_size })

-- `Sector.from_bytes`
unfoldable pub from_bytes : Bytes → ℕ → Result Sector
from_bytes content chunk_size =
    let n : ℕ = (length content + chunk_size - 1) / chunk_size in
    do
      raise_if (chunk_size == 0) zero_division
      let pad : ℕ = n * chunk_size - length content
      ok (record { file = some (content ++ zeros pad); n_chunks = n; chunk_size = chunk_size })

-- `f.seek(off)` and `f.read(size)`
abbrev pub read_at : Bytes → ℕ → ℕ → Bytes
read_at f off size = take size (drop off f)

-- What `Sector.chunk` makes of the bytes that it read.
abbrev pub full_chunk : ℕ → Bytes → Result Bytes
full_chunk size c = if ltb (length c) size then err chunk_missing else ok c

-- `Sector.chunk`
unfoldable pub chunk : Sector → ℕ → Result Bytes
chunk s index = if not (ltb index s.n_chunks) then err index_error else elim s.file [
  | none ↦ err chunk_missing
  | some f ↦ full_chunk s.chunk_size (read_at f (index * s.chunk_size) s.chunk_size)
]

-- The loop of `iter_chunks` over the rest of the file.
unfoldable pub read_chunks : ℕ → ℕ → Bytes → List Bytes
read_chunks size zero f = []
read_chunks size (suc n) f =
    let c = take size f in (c ++ zeros (size - length c)) ∷ read_chunks size n (drop size f)

-- `Sector.iter_chunks`, all of it.
unfoldable pub iter_chunks : Sector → Result (List Bytes)
unfolding read_chunks
iter_chunks s = elim s.file [
  | none ↦ err chunk_missing
  | some f ↦ ok (read_chunks s.chunk_size s.n_chunks f)
]

-- `f.seek(off)` and `f.write(b)`: a gap behind the end of the file is filled with zeros.
unfoldable pub write_at : ℕ → Bytes → Bytes → Bytes
write_at off b f = take off (f ++ zeros (off - length f)) ++ b ++ drop (off + length b) f

unfoldable pub punch : ℕ → List ℕ → Bytes → Bytes
unfolding write_at
punch size [] f = f
punch size (i ∷ is) f = punch size is (write_at (i * size) (zeros size) f)

-- `Sector.lose_chunks`: the number returned and the sector left.
unfoldable pub lose_chunks : List ℕ → Sector → Result (ℕ × Sector)
unfolding punch set_of sort_by
lose_chunks indices s =
    let lost : List ℕ = sort_by (λ i. i) (set_of indices) in
    elim s.file [
      | none ↦ err file_not_found
      | some f ↦ ok (length lost, record s { file = some (punch s.chunk_size lost f) })
    ]

-- `range(i, n, step)`, on fuel.
unfoldable pub range_step : ℕ → ℕ → ℕ → ℕ → List ℕ
range_step zero i n step = []
range_step (suc f) i n step =
    let rest = range_step f (i + step) n step in if ltb i n then i ∷ rest else []

-- `Sector.lose_fraction`, once its step is computed from the fraction in floating point.
unfoldable pub lose_fraction : ℕ → Sector → Result (ℕ × Sector)
unfolding range_step lose_chunks
lose_fraction step s = lose_chunks (range_step s.n_chunks 0 s.n_chunks step) s

-- `Sector.delete`
unfoldable pub delete : Sector → Sector
delete s = record s { file = none }

-- `raw_bytes`, `on_disk_bytes` and `seal_form_bytes` of a sector
unfoldable pub raw_bytes : Sector → ℕ
raw_bytes s = s.n_chunks * s.chunk_size

unfoldable pub on_disk_bytes : Sector → ℕ
on_disk_bytes s = elim s.file [ none ↦ 0 | some f ↦ length f ]

unfoldable pub seal_form_bytes : ℕ → ℕ
seal_form_bytes n_chunks = n_chunks * 64
