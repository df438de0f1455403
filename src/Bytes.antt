-- ===== src/Bytes.antt =====
-- Python's `bytes` as lists of byte values, with the operations of the language that the code
-- uses on them: `rjust` and `ljust`, `int.to_bytes` and `int.from_bytes` in both orders, slices,
-- and the fields of `struct.pack`. `common/src/engram_common` builds every message from these.
mod Digits
pub mod Struct
pub mod Fields
unfoldable pub use Digits.*
use Prim.Native.Char.{code}
use Prim.Native.String.{String}
use he_thong_chung_minh_luu.Prelude.{
  Result, [], err, if◌then◌else◌, leb, length, ok, overflow, replicate, reverse, struct_error, take,
  ℕ, ◌++◌, ◌-◌, ◌^◌, ◌∷◌,
}

-- The bytes of an ASCII literal.
abbrev pub codes : String → Bytes
codes String.[] = []
codes (String.◌∷◌ c s) = code c ∷ codes s

-- `bytes(n)`
abbrev pub zeros : ℕ → Bytes
zeros n = replicate n 0

-- `b.rjust(n, b"\0")` and `b.ljust(n, b"\0")`: a longer value is left as it is.
unfoldable pub rjust : ℕ → Bytes → Bytes
rjust n b = zeros (n - length b) ++ b

unfoldable pub ljust : ℕ → Bytes → Bytes
ljust n b = b ++ zeros (n - length b)

-- `n.to_bytes(w, "little")` and `n.to_bytes(w, "big")`
unfoldable pub to_bytes_le : ℕ → ℕ → Result Bytes
to_bytes_le w n = if leb (256 ^ w) n then err overflow else ok (le_digits w n)

unfoldable pub to_bytes_be : ℕ → ℕ → Result Bytes
to_bytes_be w n = if leb (256 ^ w) n then err overflow else ok (reverse (le_digits w n))

-- An unsigned field of `struct.pack`, `w` bytes wide.
unfoldable pub pack_le : ℕ → ℕ → Result Bytes
pack_le w n = if leb (256 ^ w) n then err struct_error else ok (le_digits w n)

unfoldable pub pack_be : ℕ → ℕ → Result Bytes
pack_be w n = if leb (256 ^ w) n then err struct_error else ok (reverse (le_digits w n))

-- A field `{w}s` of `struct.pack`: cut or padded with zeros on the right.
unfoldable pub pack_str : ℕ → Bytes → Bytes
pack_str w b = take w b ++ zeros (w - length (take w b))
