-- ===== src/Da/Chain.antt =====
-- What every state of `MemoryDA` that calls of `advance` and `submit` reach looks like.
use he_thong_chung_minh_luu.Prelude.{
  ==_iff, >>-eq-ok, All, All-append, All-map, List, [], ap, arith, before, da_error, if◌then◌else◌,
  length, length-append, not, not-not, ok, ok_inj, only, only-append, pair_ord, raise_if,
  raise_if-eq-ok, some, subst, true, ℕ, ℕ_discrete, ℕ_ord, ◌++◌, ◌+◌, ◌<◌, ◌==◌, ◌∷◌, ◌≡◌, ◌≤◌,
}
use he_thong_chung_minh_luu.Bytes.{Bytes}
use he_thong_chung_minh_luu.Config.{namespace_size}
use he_thong_chung_minh_luu.Blob.{BlobHeader, ObservedBlob, position}
use he_thong_chung_minh_luu.Da.{Entry, MemoryDa, advance, at_height, next_index, submit}

-- The blob that `submit` posts.
abbrev pub posted : BlobHeader → Bytes → Bytes → MemoryDa → ObservedBlob
posted header payload signer da = record {
  height = da.height;
  index = next_index da.height da.entries;
  signer = signer;
  header = some header;
  payload = payload;
}

-- The state after it.
abbrev pub with_entry : Entry → MemoryDa → MemoryDa
with_entry e da = record da { entries = da.entries ++ e ∷ [] }

pub submit_ok :
    (ns : Bytes) (h : BlobHeader) (p s : Bytes) (da : MemoryDa)
    → length ns ≡ namespace_size
    → length s ≡ 20
    → submit ns h p s da ≡ ok (da.height, with_entry (ns, posted h p s da) da)
unfolding submit
submit_ok ns h p s da m n = rw ((==_iff (length ns) namespace_size).1 m, (==_iff (length s) 20).1 n)

pub submit_inv :
    (ns : Bytes) (h : BlobHeader) (p s : Bytes) (da : MemoryDa) (r : ℕ × MemoryDa)
    → submit ns h p s da ≡ ok r
    → (length ns ≡ namespace_size)
      × (length s ≡ 20)
      × ((da.height, with_entry (ns, posted h p s da) da) ≡ r)
unfolding submit
submit_inv ns h p s da r e =
    let (a, f) = >>-eq-ok (raise_if (not (length ns == namespace_size)) da_error) _ e in
    let (b, g) = >>-eq-ok (raise_if (not (length s == 20)) da_error) _ f in
    (
      (==_iff (length ns) namespace_size).0 (not-not _ (raise_if-eq-ok _ _ a)),
      (==_iff (length s) 20).0 (not-not _ (raise_if-eq-ok _ _ b)),
      ok_inj g,
    )

-- One call that changes the state.
pub data Step : MemoryDa → MemoryDa → Type 0 where
  advanced : (da : MemoryDa) (n : ℕ) → Step da (advance n da).1
  submitted :
      {da da' : MemoryDa} (ns : Bytes) (h : BlobHeader) (p s : Bytes) (height : ℕ)
      → submit ns h p s da ≡ ok (height, da')
      → Step da da'

pub data Reach (s : MemoryDa) : MemoryDa → Type 0 where
  here : Reach s s
  next : {t u : MemoryDa} → Reach s t → Step t u → Reach s u

abbrev pub place_of : Entry → ℕ × ℕ
place_of (_, b) = position b

-- `a` lies before `b` on the chain.
abbrev pub IsBefore : Entry → Entry → Type 0
IsBefore a b = before (place_of a) (place_of b) ≡ true

-- Every entry lies before all later ones.
abbrev pub IsOrdered : List Entry → Type 0
IsOrdered [] = Unit
IsOrdered (e ∷ es) = All (IsBefore e) es × IsOrdered es

-- No entry is above the height `top`, and the index of each is below the one given out next at its
-- height.
abbrev pub IsPlaced : ℕ → List Entry → Entry → Type 0
IsPlaced top entries (_, b) = (b.height ≤ top) × (b.index < next_index b.height entries)

pub record IsChain (da : MemoryDa) : Type 0 where
  pub placed : All (IsPlaced da.height da.entries) da.entries
  pub ordered : IsOrdered da.entries

IsOrdered-snoc :
    (es : List Entry) (e : Entry)
    → IsOrdered es
    → All (λ x. IsBefore x e) es
    → IsOrdered (es ++ e ∷ [])
IsOrdered-snoc [] e o a = (tt, tt)
IsOrdered-snoc (x ∷ es) e o a =
    (All-append _ es (e ∷ []) o.0 (a.0, tt), IsOrdered-snoc es e o.1 a.1)

-- An entry more at the end gives out at most one index.
next_index-snoc :
    (h : ℕ) (es : List Entry) (e : Entry)
    → next_index h (es ++ e ∷ []) ≡ next_index h es + (if at_height h e then 1 else 0)
unfolding next_index
next_index-snoc h es e =
    rw (only-append (at_height h) es (e ∷ []), length-append (only (at_height h) es) _)
      (ground arith)

IsPlaced-later :
    (top : ℕ) (es : List Entry) (e x : Entry) → IsPlaced top es x → IsPlaced top (es ++ e ∷ []) x
IsPlaced-later top es e (ns, b) (l, i) = (l, omega (arith, next_index-snoc b.height es e))

advance-IsChain : (da : MemoryDa) (n : ℕ) → IsChain da → IsChain (advance n da).1
unfolding advance
advance-IsChain da n c = record {
  placed = All-map (λ x (l, i). (omega arith, i)) da.entries c.placed;
  ordered = c.ordered;
}

IsPlaced-new :
    (ns : Bytes) (h : BlobHeader) (p s : Bytes) (da : MemoryDa)
    → IsPlaced da.height (da.entries ++ (ns, posted h p s da) ∷ []) (ns, posted h p s da)
IsPlaced-new ns h p s da =
    let e : Entry = (ns, posted h p s da) in
    let n = next_index-snoc da.height da.entries e in (omega arith, ground (arith, n))

IsBefore-new :
    (ns : Bytes) (h : BlobHeader) (p s : Bytes) (da : MemoryDa) (x : Entry)
    → IsPlaced da.height da.entries x
    → IsBefore x (ns, posted h p s da)
IsBefore-new ns h p s da (ms, b) (l, i) = elim (ℕ_discrete b.height da.height) [
  | no lower ↦ ground arith
  | yes same ↦
      let i' : b.index < next_index da.height da.entries =
        subst (λ k. b.index < next_index k da.entries) same i in
      ground arith
]

pub submit-IsChain :
    (ns : Bytes) (h : BlobHeader) (p s : Bytes) (da : MemoryDa)
    → IsChain da
    → IsChain (with_entry (ns, posted h p s da) da)
submit-IsChain ns h p s da c =
    let e : Entry = (ns, posted h p s da) in
    record {
      placed =
          All-append _ da.entries (e ∷ [])
            (All-map (IsPlaced-later da.height da.entries e) da.entries c.placed)
            (IsPlaced-new ns h p s da, tt);
      ordered =
          IsOrdered-snoc da.entries e c.ordered
            (All-map (IsBefore-new ns h p s da) da.entries c.placed);
    }

Step-IsChain : {da da' : MemoryDa} → Step da da' → IsChain da → IsChain da'
Step-IsChain (advanced da n) c = advance-IsChain da n c
Step-IsChain (submitted {da} {da'} ns h p s t e) c =
    let (_, _, q) = submit_inv ns h p s da (t, da') e in
    subst IsChain (ap (λ r. r.1) q) (submit-IsChain ns h p s da c)

-- In every state that calls of `advance` and `submit` reach from an empty layer, the blobs lie in
-- strictly increasing order of position, so that no two share one, and none is above the present
-- height.
pub Reach-IsChain :
    (height : ℕ) (da : MemoryDa) → Reach (record { height = height; entries = [] }) da → IsChain da
Reach-IsChain height da here = record { placed = tt; ordered = tt }
Reach-IsChain height da (next r st) = Step-IsChain st (Reach-IsChain height _ r)
