-- ===== src/Sector/Blocks.antt =====
-- A file of chunks of one size: reading the chunk `j` after writing zeros over the chunk `i`.
use mathlib.Core.List.{append_assoc, append-nil}
use native.Mathlib.Nat.{add_assoc, mul-le-mul_right, suc-add, suc-mul, zero-add, zero-mul}
use he_thong_chung_minh_luu.Prelude.{
  List, [], ap, ap₂, arith, drop, drop-append, false, if◌then◌else◌, length, length-append,
  length-drop, length-replicate, length-take, refl, suc, sym, take, take-add, take-append, zero, ℕ,
  ◌*◌, ◌++◌, ◌+◌, ◌-◌, ◌<◌, ◌==◌, ◌∙◌, ◌∷◌, ◌≡◌, ◌≤◌,
}
use he_thong_chung_minh_luu.Bytes.{Bytes, zeros}
use he_thong_chung_minh_luu.Sector.{read_at, write_at}

drop_nil {ℓ} : {A : Type ℓ} (n : ℕ) → ◌≡◌ {A = List A} (drop n []) []
drop_nil zero = refl
drop_nil (suc n) = refl

drop-add {ℓ} : {A : Type ℓ} (n m : ℕ) (xs : List A) → drop (n + m) xs ≡ drop m (drop n xs)
drop-add zero m xs = ap (λ k. drop k xs) (zero-add m)
drop-add (suc n) m [] = rw suc-add (sym (drop_nil m))
drop-add (suc n) m (x ∷ xs) = rw suc-add (drop-add n m xs)

rotate : (i size : ℕ) → suc i * size ≡ size + i * size
rotate i size = omega (arith, suc-mul i size)

-- The chunk `i + 1` is the chunk `i` of what stands behind the first one.
pub read_at-suc :
    (size i : ℕ) (f : Bytes) → read_at f (suc i * size) size ≡ read_at (drop size f) (i * size) size
read_at-suc size i f =
    ap (take size) (ap (λ k. drop k f) (rotate i size) ∙ drop-add size (i * size) f)

-- A write of zeros over one whole chunk.
abbrev pub erase : ℕ → ℕ → Bytes → Bytes
erase size i f = write_at (i * size) (zeros size) f

write_at_inside :
    (off : ℕ) (b f : Bytes)
    → off ≤ length f
    → write_at off b f ≡ take off f ++ b ++ drop (off + length b) f
unfolding write_at
write_at_inside off b f h =
    let fits : off - length f ≡ 0 = omega arith in
    ap (λ k. take off (f ++ zeros k) ++ b ++ drop (off + length b) f) fits
    ∙ ap (λ x. take off x ++ b ++ drop (off + length b) f) (append-nil f)

suc_ne : (j : ℕ) → false ≡ (suc j == 0)
suc_ne j = ground arith

ne_suc : (i : ℕ) → false ≡ (0 == suc i)
ne_suc i = ground arith

suc_== : (a b : ℕ) → (a == b) ≡ (suc a == suc b)
suc_== a b = ground arith

-- The chunk `i` of `n` is inside the file.
pub chunk_inside : (size i n : ℕ) → i < n → i * size + size ≤ n * size
chunk_inside size i n h = omega (arith, suc-mul i size, mul-le-mul_right size h)

erase_inside :
    (size i : ℕ) (f : Bytes)
    → i * size ≤ length f
    → erase size i f ≡ take (i * size) f ++ zeros size ++ drop (i * size + size) f
erase_inside size i f h =
    write_at_inside (i * size) (zeros size) f h
    ∙ ap (λ k. take (i * size) f ++ zeros size ++ drop (i * size + k) f)
        (length-replicate {A = ℕ} size 0)

pub length-erase :
    (size i n : ℕ) (f : Bytes) → i < n → length f ≡ n * size → length (erase size i f) ≡ n * size
length-erase size i n f h k =
    let fits : i * size + size ≤ n * size = chunk_inside size i n h in
    ap length (erase_inside size i f (omega arith))
    ∙ omega (
      arith,
      length-append (take (i * size) f ++ zeros size) (drop (i * size + size) f),
      length-append (take (i * size) f) (zeros size),
      length-take (i * size) f,
      length-replicate {A = ℕ} size 0,
      length-drop (i * size + size) f,
    )

erase_zero : (size : ℕ) (f : Bytes) → erase size 0 f ≡ zeros size ++ drop size f
erase_zero size f =
    erase_inside size 0 f (omega arith)
    ∙ ap (λ k. take k f ++ zeros size ++ drop (k + size) f) (zero-mul size)
    ∙ ap (λ k. zeros size ++ drop k f) (zero-add size)

behind : (size off : ℕ) (f : Bytes) → drop (size + off + size) f ≡ drop (off + size) (drop size f)
behind size off f = ap (λ k. drop k f) (add_assoc size off size) ∙ drop-add size (off + size) f

erase-suc :
    (size i : ℕ) (f : Bytes)
    → size + i * size ≤ length f
    → erase size (suc i) f ≡ take size f ++ erase size i (drop size f)
erase-suc size i f h =
    let step = rotate i size in
    let x : Bytes = take size f in
    let a : Bytes = take (i * size) (drop size f) in
    let d : Bytes = drop (i * size + size) (drop size f) in
    erase_inside size (suc i) f (omega arith)
    ∙ ap (λ k. take k f ++ zeros size ++ drop (k + size) f) step
    ∙ ap₂ (λ y z. y ++ zeros size ++ z) (take-add size (i * size) f) (behind size (i * size) f)
    ∙ ap (λ y. y ++ d) (append_assoc x a (zeros size))
    ∙ append_assoc x (a ++ zeros size) d
    ∙ ap (λ y. x ++ y) (sym (erase_inside size i (drop size f) (omega (arith, length-drop size f))))

pub read_at-erase :
    (size i j n : ℕ) (f : Bytes)
    → i < n
    → j < n
    → length f ≡ n * size
    → read_at (erase size i f) (j * size) size
      ≡ (if j == i then zeros size else read_at f (j * size) size)
read_at-erase size i j zero f h k l = absurd (omega arith)
read_at-erase size zero zero (suc n) f h k l =
    ap (λ m. take size (drop m (erase size 0 f))) (zero-mul size)
    ∙ ap (take size) (erase_zero size f)
    ∙ take-append (zeros size) (drop size f) size (length-replicate {A = ℕ} size 0)
read_at-erase size zero (suc j) (suc n) f h k l =
    read_at-suc size j (erase size 0 f)
    ∙ ap (λ x. read_at x (j * size) size)
        (ap (drop size) (erase_zero size f)
          ∙ drop-append (zeros size) (drop size f) size (length-replicate {A = ℕ} size 0))
    ∙ ap₂ (λ c x. if c then zeros size else x) (suc_ne j) (sym (read_at-suc size j f))
read_at-erase size (suc i) zero (suc n) f h k l =
    let fits = chunk_inside size (suc i) (suc n) h in
    let step = rotate i size in
    ap (λ m. take size (drop m (erase size (suc i) f))) (zero-mul size)
    ∙ ap (take size) (erase-suc size i f (omega arith))
    ∙ take-append (take size f) (erase size i (drop size f)) size
        (omega (arith, length-take size f))
    ∙ ap₂ (λ c m. if c then zeros size else take size (drop m f)) (ne_suc i) (sym (zero-mul size))
read_at-erase size (suc i) (suc j) (suc n) f h k l =
    let fits = chunk_inside size (suc i) (suc n) h in
    let step = rotate i size in
    let left : length (drop size f) ≡ n * size =
      omega (arith, suc-mul n size, length-drop size f) in
    read_at-suc size j (erase size (suc i) f)
    ∙ ap (λ x. read_at (drop size x) (j * size) size) (erase-suc size i f (omega arith))
    ∙ ap (λ x. read_at x (j * size) size)
        (drop-append (take size f) (erase size i (drop size f)) size
          (omega (arith, length-take size f)))
    ∙ read_at-erase size i j n (drop size f) (omega arith) (omega arith) left
    ∙ ap₂ (λ c x. if c then zeros size else x) (suc_== j i) (sym (read_at-suc size j f))
