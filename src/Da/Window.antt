-- ===== src/Da/Window.antt =====
-- What `MemoryDA.read` gives for a window: after the other calls, and window by window.
use mathlib.Core.List.{map-append}
use he_thong_chung_minh_luu.Prelude.{
  All, All-map, List, [], ap, arith, dec_lt, if◌then◌else◌, map, ok, only, only-append, refl, sym,
  ℕ, ◌++◌, ◌∙◌, ◌∷◌, ◌≡◌, ◌≤◌,
}
use he_thong_chung_minh_luu.Bytes.{Bytes}
use he_thong_chung_minh_luu.Blob.{BlobHeader}
use he_thong_chung_minh_luu.Da.{Entry, MemoryDa, advance, blob_of, in_window, read, submit}
use he_thong_chung_minh_luu.Da.Chain.{IsBefore, IsChain, IsOrdered, posted, submit_inv}

abbrev InOrder : Entry → Entry → Type 0
InOrder (_, a) (_, b) = a.height ≤ b.height

IsBefore-height : (x e : Entry) → IsBefore x e → InOrder x e
IsBefore-height (ns, a) (ms, b) h = ground arith

-- A window that ends before every entry is empty.
only-in_window_none :
    (ns : Bytes) (a m : ℕ) (es : List Entry)
    → All (λ e. m ≤ e.1.height) es
    → only (in_window ns a m) es ≡ []
only-in_window_none ns a m [] h = refl
only-in_window_none ns a m ((ms, b) ∷ es) h =
    let rest = only-in_window_none ns a m es h.1 in ground arith

pub only-in_window_split :
    (ns : Bytes) (a m b : ℕ) (es : List Entry)
    → IsOrdered es
    → a ≤ m
    → m ≤ b
    → only (in_window ns a b) es ≡ only (in_window ns a m) es ++ only (in_window ns m b) es
only-in_window_split ns a m b [] o h k = refl
only-in_window_split ns a m b ((ms, c) ∷ es) o h k =
    let rest = only-in_window_split ns a m b es o.1 h k in
    elim (dec_lt c.height m) [
      | yes low ↦ ground (arith, rest)
      | no high ↦
          let none_left =
            only-in_window_none ns a m es
              (All-map (λ e f. omega (arith, IsBefore-height (ms, c) e f)) es o.0) in
          ground (arith, rest, none_left)
    ]

-- In a layer whose blobs lie in increasing order of position, two windows that meet, from `a` to `m`
-- and from `m` to `b` with `a ≤ m ≤ b`, read one after the other, give what one reading from `a` to `b`
-- gives.
pub read_split :
    (da : MemoryDa) (ns : Bytes) (a m b : ℕ)
    → IsChain da
    → a ≤ m
    → m ≤ b
    → read ns a b da ≡ read ns a m da ++ read ns m b da
unfolding read
read_split da ns a m b c h k =
    ap (map blob_of) (only-in_window_split ns a m b da.entries c.ordered h k)
    ∙ map-append blob_of (only (in_window ns a m) da.entries) _

-- After a `submit` that returned, a reading of any namespace and window gives what it gave before,
-- and behind it the new blob where the namespace is its own and its height is in the window; what
-- `advance` does changes no reading.
pub read-submit :
    (ns : Bytes) (h : BlobHeader) (p s : Bytes) (da da' : MemoryDa) (t n : ℕ) (ms : Bytes) (a b : ℕ)
    → submit ns h p s da ≡ ok (t, da')
    → (read ms a b da'
        ≡ read ms a b da
          ++ (if in_window ms a b (ns, posted h p s da) then posted h p s da ∷ [] else []))
      × (read ms a b (advance n da).1 ≡ read ms a b da)
unfolding read advance
read-submit ns h p s da da' t n ms a b e =
    let (_, _, q) = submit_inv ns h p s da (t, da') e in
    let x : Entry = (ns, posted h p s da) in
    (
      ap (λ r. read ms a b r.1) (sym q)
          ∙ ap (map blob_of) (only-append (in_window ms a b) da.entries (x ∷ []))
          ∙ map-append blob_of (only (in_window ms a b) da.entries) _
          ∙ ap (λ z. map blob_of (only (in_window ms a b) da.entries) ++ z) (ground arith),
      refl,
    )
