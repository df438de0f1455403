-- ===== src/Bytes/Struct.antt =====
-- `struct.Struct`: a record of fields of fixed widths is the join of its fields, and is cut into
-- them again. `HEADER_STRUCT` of `blob.py` and `_PV` of `clock.py` are such layouts.
use mathlib.Core.List.{append_assoc}
use he_thong_chung_minh_luu.Prelude.{
  List, [], ap, arith, drop, drop-append, length, length-append, length-drop, length-take, refl,
  sym, take, take-add, take-append, ℕ, ◌++◌, ◌+◌, ◌∷◌, ◌≡◌, ◌≤◌,
}
use he_thong_chung_minh_luu.Bytes.Digits.{Bytes}

-- `b"".join(parts)`
unfoldable pub join : List Bytes → Bytes
join [] = []
join (p ∷ ps) = p ++ join ps

-- The pieces of `b` at the widths of a layout.
unfoldable pub fields : List ℕ → Bytes → List Bytes
fields [] b = []
fields (w ∷ ws) b = take w b ∷ fields ws (drop w b)

-- `Struct.size`
unfoldable pub size : List ℕ → ℕ
size [] = 0
size (w ∷ ws) = w + size ws

-- The parts have the widths of the layout.
abbrev pub Fits : List ℕ → List Bytes → Type 0
Fits [] [] = Unit
Fits [] (p ∷ ps) = ⊥
Fits (w ∷ ws) [] = ⊥
Fits (w ∷ ws) (p ∷ ps) = (length p ≡ w) × Fits ws ps

pub fields-join :
    (ws : List ℕ) (ps : List Bytes) (rest : Bytes) → Fits ws ps → fields ws (join ps ++ rest) ≡ ps
unfolding fields join
fields-join [] [] rest h = refl
fields-join [] (p ∷ ps) rest h = elim h [ ]
fields-join (w ∷ ws) [] rest h = elim h [ ]
fields-join (w ∷ ws) (p ∷ ps) rest (e, h) =
    rw
      (
        append_assoc p (join ps) rest,
        take-append p (join ps ++ rest) w e,
        drop-append p (join ps ++ rest) w e,
      )
      (ap (◌∷◌ p) (fields-join ws ps rest h))

pub length-join : (ws : List ℕ) (ps : List Bytes) → Fits ws ps → length (join ps) ≡ size ws
unfolding join size
length-join [] [] h = refl
length-join [] (p ∷ ps) h = elim h [ ]
length-join (w ∷ ws) [] h = elim h [ ]
length-join (w ∷ ws) (p ∷ ps) (e, h) = omega (arith, length-append p (join ps), length-join ws ps h)

pub fields-Fits : (ws : List ℕ) (b : Bytes) → size ws ≤ length b → Fits ws (fields ws b)
unfolding fields size
fields-Fits [] b h = tt
fields-Fits (w ∷ ws) b h =
    (omega (arith, length-take w b), fields-Fits ws (drop w b) (omega (arith, length-drop w b)))

-- Joining the pieces gives the bytes back, up to the size of the layout.
pub join-fields : (ws : List ℕ) (b : Bytes) → join (fields ws b) ≡ take (size ws) b
unfolding fields join size
join-fields [] b = refl
join-fields (w ∷ ws) b = rw (join-fields ws (drop w b)) (sym (take-add w (size ws) b))
