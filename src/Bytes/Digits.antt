-- ===== src/Bytes/Digits.antt =====
-- The digits of a number to base 256, least first, and the number that digits stand for.
use he_thong_chung_minh_luu.Prelude.{
  All, Eq, List, [], ap, ap₂, arith, length, refl, reverse, suc, zero, ℕ, ℕ_discrete, ◌%◌, ◌*◌, ◌+◌,
  ◌/◌, ◌<◌, ◌^◌, ◌∙◌, ◌∷◌, ◌≡◌,
}
use native.Mathlib.Nat.{pow-suc}

abbrev pub Bytes : Type 0
Bytes = List ℕ

Bytes-decided : Discrete Bytes
Bytes-decided = hlevel ℕ_discrete

unfoldable pub Bytes-discrete : Discrete Bytes
unfolding Bytes-decided ℕ_discrete
Bytes-discrete = Bytes-decided

instance abbrev pub bytes_eq : Eq Bytes
bytes_eq = record { eq? = Bytes-discrete }

-- Every entry is the value of a byte.
abbrev pub IsBytes : Bytes → Type 0
IsBytes = All (λ x. x < 256)

unfoldable pub le_digits : ℕ → ℕ → Bytes
le_digits zero n = []
le_digits (suc w) n = n % 256 ∷ le_digits w (n / 256)

-- `int.from_bytes(b, "little")`
unfoldable pub from_bytes_le : Bytes → ℕ
from_bytes_le [] = 0
from_bytes_le (b ∷ bs) = b + 256 * from_bytes_le bs

-- `int.from_bytes(b, "big")`
unfoldable pub from_bytes_be : Bytes → ℕ
from_bytes_be b = from_bytes_le (reverse b)

pub length-le_digits : (w n : ℕ) → length (le_digits w n) ≡ w
unfolding le_digits
length-le_digits zero n = refl
length-le_digits (suc w) n = ap suc (length-le_digits w (n / 256))

pub le_digits-IsBytes : (w n : ℕ) → IsBytes (le_digits w n)
unfolding le_digits
le_digits-IsBytes zero n = tt
le_digits-IsBytes (suc w) n = (omega arith, le_digits-IsBytes w (n / 256))

-- Encoding and decoding a number that fits gives it back.
pub from_bytes_le-le_digits : (w n : ℕ) → n < 256 ^ w → from_bytes_le (le_digits w n) ≡ n
unfolding le_digits from_bytes_le
from_bytes_le-le_digits zero n h = omega arith
from_bytes_le-le_digits (suc w) n h =
    let e : 256 ^ suc w ≡ 256 ^ w * 256 = pow-suc 256 w in
    omega (arith, e, from_bytes_le-le_digits w (n / 256) (omega (arith, e)))

-- Decoding and encoding bytes gives them back.
pub le_digits-from_bytes_le :
    (bs : Bytes) → IsBytes bs → le_digits (length bs) (from_bytes_le bs) ≡ bs
unfolding le_digits from_bytes_le
le_digits-from_bytes_le [] h = refl
le_digits-from_bytes_le (b ∷ bs) (hb, hbs) = ap₂ ◌∷◌ (omega arith) (
    ap (le_digits (length bs)) {x = (b + 256 * from_bytes_le bs) / 256} (omega arith)
    ∙ le_digits-from_bytes_le bs hbs)

pub from_bytes_le-lt : (bs : Bytes) → IsBytes bs → from_bytes_le bs < 256 ^ length bs
unfolding from_bytes_le
from_bytes_le-lt [] h = omega arith
from_bytes_le-lt (b ∷ bs) (hb, hbs) =
    let e : 256 ^ suc (length bs) ≡ 256 ^ length bs * 256 = pow-suc 256 (length bs) in
    omega (arith, e, from_bytes_le-lt bs hbs)
