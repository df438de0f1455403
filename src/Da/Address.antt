-- ===== src/Da/Address.antt =====
-- `bech32_to_bytes`: the 20 bytes of a Cosmos address. Texts are lists of ASCII codes.
pub mod Radix
use he_thong_chung_minh_luu.Prelude.{
  Bool, List, Option, Result, [], da_error, err, if◌then◌else◌, leb, length, ltb, map, none, not,
  ok, raise_if, reverse, some, suc, take, zero, ℕ, ◌%◌, ◌&&◌, ◌*◌, ◌++◌, ◌+◌, ◌-◌, ◌/◌, ◌==◌, ◌>>=◌,
  ◌>>◌, ◌^◌, ◌||◌, ◌∷◌,
}
use he_thong_chung_minh_luu.Bytes.{Bytes, bytes_eq, codes}

-- `c.isspace()` and `c.lower()`
abbrev pub is_space : ℕ → Bool
is_space c = c == 32 || (leb 9 c && leb c 13) || (leb 28 c && leb c 31)

abbrev pub lower_char : ℕ → ℕ
lower_char c = if leb 65 c && leb c 90 then c + 32 else c

unfoldable pub skip_space : Bytes → Bytes
skip_space [] = []
skip_space (c ∷ cs) = let rest = skip_space cs in if is_space c then rest else c ∷ cs

-- `s.strip()` and `s.lower()`
unfoldable pub strip : Bytes → Bytes
unfolding skip_space
strip s = reverse (skip_space (reverse (skip_space s)))

abbrev pub lower : Bytes → Bytes
lower = map lower_char

-- The text behind the last `c`, and the number of characters before that one: `s.rfind(c)`.
unfoldable pub after_last : ℕ → ℕ → Bytes → Option (ℕ × Bytes)
after_last c n [] = none
after_last c n (x ∷ xs) = elim (after_last c (n + 1) xs) [
  | some found ↦ some found
  | none ↦ if x == c then some (n, xs) else none
]

-- `_B32`
abbrev pub b32 : Bytes
b32 = codes "qpzry9x8gf2tvdw0s3jn54khce6mua7l"

-- `_B32.index(c)`, whose `ValueError` is raised again as a `DAError`.
unfoldable pub index_in : Bytes → ℕ → Result ℕ
index_in [] c = err da_error
index_in (x ∷ xs) c = if x == c then ok 0 else (do i ← index_in xs c; ok (i + 1))

-- `[_B32.index(c) for c in cs]`
unfoldable pub b32_values : Bytes → Result (List ℕ)
unfolding index_in
b32_values [] = ok []
b32_values (c ∷ cs) = do v ← index_in b32 c; vs ← b32_values cs; ok (v ∷ vs)

-- `acc`, `bits` and `out`
pub record Groups : Type 0 where
  pub acc : ℕ
  pub bits : ℕ
  pub out : Bytes

-- The loop that moves whole bytes to `out`, on fuel: every turn takes 8 of the bits.
unfoldable pub flush : ℕ → Groups → Groups
flush zero g = g
flush (suc f) g =
    let left : ℕ = g.bits - 8 in
    let rest =
      flush f (record { acc = g.acc; bits = left; out = g.out ++ g.acc / 2 ^ left % 256 ∷ [] }) in
    if leb 8 g.bits then rest else g

-- `acc = (acc << 5) | v`, where `v` has 5 bits, then `bits += 5` and the inner loop.
unfoldable pub feed : ℕ → Groups → Groups
unfolding flush
feed v g = flush (g.bits + 5) (record { acc = g.acc * 32 + v; bits = g.bits + 5; out = g.out })

unfoldable pub feed_all : List ℕ → Groups → Groups
unfolding feed
feed_all [] g = g
feed_all (v ∷ vs) g = feed_all vs (feed v g)

abbrev pub no_groups : Groups
no_groups = record { acc = 0; bits = 0; out = [] }

-- `bech32_to_bytes` once the last `1` is found at `pos`, with `digits` behind it.
unfoldable pub decode : ℕ → Bytes → Result Bytes
unfolding b32_values feed_all
decode pos digits = do
  raise_if (ltb pos 1) da_error
  vals ← b32_values (take (length digits - 6) digits)
  let decoded = (feed_all vals no_groups).out
  raise_if (not (length decoded == 20)) da_error
  ok decoded

unfoldable pub bech32_to_bytes : Bytes → Result Bytes
unfolding strip after_last decode
bech32_to_bytes address = elim (after_last 49 0 (lower (strip address))) [
  | none ↦ err da_error
  | some (pos, digits) ↦ decode pos digits
]
