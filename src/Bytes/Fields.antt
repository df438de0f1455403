-- ===== src/Bytes/Fields.antt =====
-- The laws of the fields of a `struct` layout: what is packed, and what a packed field reads as.
use mathlib.Core.List.{append-nil, reverse-reverse}
use he_thong_chung_minh_luu.Prelude.{
  All, List, [], ap, arith, drop, length, length-reverse, ok, reverse, suc, take, take_all, zero, ℕ,
  ◌-◌, ◌<◌, ◌^◌, ◌∙◌, ◌∷◌, ◌≡◌,
}
use he_thong_chung_minh_luu.Bytes.Digits.{
  Bytes, IsBytes, from_bytes_be, from_bytes_le, from_bytes_le-le_digits, from_bytes_le-lt,
  le_digits, le_digits-from_bytes_le, length-le_digits,
}
use he_thong_chung_minh_luu.Bytes.Struct.{fields}
use he_thong_chung_minh_luu.Bytes.{pack_le, pack_str, rjust, to_bytes_le}

pub pack_le_lem : (w n : ℕ) → n < 256 ^ w → pack_le w n ≡ ok (le_digits w n)
unfolding pack_le
pack_le_lem w n h = ground arith

pub to_bytes_le_lem : (w n : ℕ) → n < 256 ^ w → to_bytes_le w n ≡ ok (le_digits w n)
unfolding to_bytes_le
to_bytes_le_lem w n h = ground arith

pub pack_str_lem : (w : ℕ) (b : Bytes) → length b ≡ w → pack_str w b ≡ b
unfolding pack_str
pack_str_lem w b h =
    let e : w - length b ≡ 0 = omega arith in rw (take_all b w (omega arith), e) (append-nil b)

pub rjust_lem : (w : ℕ) (b : Bytes) → length b ≡ w → rjust w b ≡ b
unfolding rjust
rjust_lem w b h = let e : w - length b ≡ 0 = omega arith in rw e

-- A number written big end first, and what it reads as.
pub from_bytes_be_lem : (w n : ℕ) → n < 256 ^ w → from_bytes_be (reverse (le_digits w n)) ≡ n
unfolding from_bytes_be
from_bytes_be_lem w n h =
    ap from_bytes_le (reverse-reverse (le_digits w n)) ∙ from_bytes_le-le_digits w n h

pub length-be_digits : (w n : ℕ) → length (reverse (le_digits w n)) ≡ w
length-be_digits w n = length-reverse (le_digits w n) ∙ length-le_digits w n

pub take-IsBytes : (n : ℕ) (b : Bytes) → IsBytes b → IsBytes (take n b)
take-IsBytes zero b h = tt
take-IsBytes (suc n) [] h = tt
take-IsBytes (suc n) (x ∷ b) h = (h.0, take-IsBytes n b h.1)

pub drop-IsBytes : (n : ℕ) (b : Bytes) → IsBytes b → IsBytes (drop n b)
drop-IsBytes zero b h = h
drop-IsBytes (suc n) [] h = tt
drop-IsBytes (suc n) (x ∷ b) h = drop-IsBytes n b h.1

-- Packing what a field of `w` bytes reads as gives the field.
pub pack_le-from_bytes_le :
    (w : ℕ) (b : Bytes) → IsBytes b → length b ≡ w → pack_le w (from_bytes_le b) ≡ ok b
pack_le-from_bytes_le w b h e = rw (← e) (
    pack_le_lem (length b) (from_bytes_le b) (from_bytes_le-lt b h)
    ∙ ap ok (le_digits-from_bytes_le b h))

pub fields-All : (ws : List ℕ) (b : Bytes) → IsBytes b → All IsBytes (fields ws b)
unfolding fields
fields-All [] b h = tt
fields-All (w ∷ ws) b h = (take-IsBytes w b h, fields-All ws (drop w b) (drop-IsBytes w b h))
