-- ===== src/Da/Celestia/Refines.antt =====
-- The two backends agree: what `CelestiaDA.read` makes of the answers of a node that holds the blobs
-- of a `MemoryDA` is what `MemoryDA.read` gives.
use mathlib.Core.List.{map-append}
use he_thong_chung_minh_luu.Prelude.{
  All, All-map, All-only, List, Result, [], ap, ap₂, arith, drop, drop-append, err, length, map,
  none, ok, only, refl, some, suc, sym, zero, ℕ, ◌++◌, ◌+◌, ◌-◌, ◌∙◌, ◌∷◌, ◌≡◌, ◌≤◌,
}
use he_thong_chung_minh_luu.Bytes.{Bytes}
use he_thong_chung_minh_luu.Blob.{BlobHeader, ObservedBlob, header_size, pack, unpack}
use he_thong_chung_minh_luu.Da.{Entry, MemoryDa, blob_of, in_window, read}
use he_thong_chung_minh_luu.Da.Celestia.{
  Node, Reply, RpcBlob, blobs, blobs_at, celestia_read, not_found, number_from, read_blocks,
  signer_or_zeros,
}
use he_thong_chung_minh_luu.Blob.Header.{IsPackable, unpack-pack}
use he_thong_chung_minh_luu.Da.Chain.{IsChain, IsOrdered}
use he_thong_chung_minh_luu.Da.Window.{only-in_window_split}

-- What a blob carries: its header, packed, and its payload.
abbrev pub packed : Result Bytes → Bytes → Bytes
packed (err _) payload = []
packed (ok raw) payload = raw ++ payload

abbrev pub data_bytes : ObservedBlob → Bytes
data_bytes b = elim b.header [ none ↦ [] | some h ↦ packed (pack h) b.payload ]

-- The share of an entry on the wire.
abbrev pub wire : Entry → RpcBlob
wire (_, b) = record { bytes = data_bytes b; signer = b.signer }

-- Entries that `submit` posted with headers in range.
abbrev pub IsSent : Entry → Type 0
IsSent (_, b) = (h : BlobHeader) × (b.header ≡ some h) × IsPackable h × (length b.signer ≡ 20)

-- The answer of a node whose chain holds the entries: the blobs of one block and namespace.
abbrev pub answer : List RpcBlob → Reply
answer [] = not_found
answer (b ∷ bs) = blobs (b ∷ bs)

abbrev pub served : List Entry → ℕ → Bytes → Reply
served entries h ns = answer (map wire (only (in_window ns h (h + 1)) entries))

-- The index of a blob counts within its namespace on one side, and within its block on the other.
abbrev pub less_index : ObservedBlob → ObservedBlob
less_index b = record b { index = 0 }

only-IsAt :
    (P : Entry → Type 0) (ns : Bytes) (h : ℕ) (es : List Entry)
    → All P es
    → All (λ e. P e × (e.1.height ≡ h)) (only (in_window ns h (h + 1)) es)
only-IsAt P ns h es a =
    All-map (λ (ms, b) (x, kept). (x, ground arith)) (only (in_window ns h (h + 1)) es)
      (All-only P (in_window ns h (h + 1)) es a)

signer_kept : (s : Bytes) → length s ≡ 20 → signer_or_zeros s ≡ s
signer_kept [] h = absurd (omega arith)
signer_kept (b ∷ bs) h = refl

-- A blob survives the wire.
data_bytes_back :
    (e : Entry)
    → IsSent e
    → (unpack (data_bytes e.1) ≡ e.1.header)
      × (drop header_size (data_bytes e.1) ≡ e.1.payload)
      × (signer_or_zeros e.1.signer ≡ e.1.signer)
data_bytes_back (ns, b) (h, eq, fits, twenty) =
    let (raw, p, n, u) = unpack-pack h b.payload fits in
    let d : data_bytes b ≡ raw ++ b.payload = rw (eq, p) refl in
    (
      ap unpack d ∙ u ∙ sym eq,
      ap (drop header_size) d ∙ drop-append raw b.payload header_size n,
      signer_kept b.signer twenty,
    )

number_from-wire :
    (h i : ℕ) (es : List Entry)
    → All (λ e. IsSent e × (e.1.height ≡ h)) es
    → map less_index (number_from h i (map wire es)) ≡ map less_index (map blob_of es)
unfolding number_from
number_from-wire h i [] a = refl
number_from-wire h i ((ns, b) ∷ es) ((sent, level), a) =
    let (u, d, s) = data_bytes_back (ns, b) sent in
    let rest = number_from-wire h (i + 1) es a in
    λ k.
      record { height = sym level k; index = 0; signer = s k; header = u k; payload = d k } ∷ rest k

empty_window : (ns : Bytes) (h : ℕ) (es : List Entry) → only (in_window ns h h) es ≡ []
empty_window ns h [] = refl
empty_window ns h ((ms, b) ∷ es) = ground (arith, empty_window ns h es)

-- Both lists hold the same blobs, up to their indices.
abbrev SameBlobs : List ObservedBlob → List ObservedBlob → Type 0
SameBlobs cs bs = map less_index cs ≡ map less_index bs

SameBlobs-append :
    (cs bs : List ObservedBlob) (xs ys : List Entry)
    → SameBlobs cs (map blob_of xs)
    → SameBlobs bs (map blob_of ys)
    → SameBlobs (cs ++ bs) (map blob_of (xs ++ ys))
SameBlobs-append cs bs xs ys p q =
    map-append less_index cs bs
    ∙ ap₂ ◌++◌ p q
    ∙ sym (map-append less_index (map blob_of xs) (map blob_of ys))
    ∙ ap (map less_index) (sym (map-append blob_of xs ys))

module _ (node : Node) where
  blobs_at-answer :
      (h : ℕ) (ns : Bytes) (ws : List Entry)
      → node.get_all h ns ≡ answer (map wire ws)
      → All (λ e. IsSent e × (e.1.height ≡ h)) ws
      → (bs : List ObservedBlob) × (blobs_at node ns h ≡ ok bs) × SameBlobs bs (map blob_of ws)
  blobs_at-answer h ns [] g a = ([], rw (g, blobs_at) refl, refl)
  blobs_at-answer h ns (e ∷ ws) g a =
      (number_from h 0 (map wire (e ∷ ws)), rw (g, blobs_at) refl, number_from-wire h 0 (e ∷ ws) a)

  read_blocks-served :
      (n h end : ℕ) (ns : Bytes) (es : List Entry)
      → ((k : ℕ) → node.get_all k ns ≡ served es k ns)
      → All IsSent es
      → IsOrdered es
      → h + n ≡ end
      → (bs : List ObservedBlob) × (read_blocks node ns h n ≡ ok bs)
        × SameBlobs bs (map blob_of (only (in_window ns h end) es))
  unfolding read_blocks
  read_blocks-served zero h end ns es g a o q =
      let h_end : h ≡ end = omega arith in
      (
        [],
        refl,
        ap (λ z. map less_index (map blob_of z))
            (sym (empty_window ns h es) ∙ ap (λ z. only (in_window ns h z) es) h_end),
      )
  read_blocks-served (suc n) h end ns es g a o q =
      let first = only (in_window ns h (h + 1)) es in
      let (block, p, x) = blobs_at-answer h ns first (g h) (only-IsAt IsSent ns h es a) in
      let (rest, r, y) = read_blocks-served n (h + 1) end ns es g a o (omega arith) in
      let split = only-in_window_split ns h (h + 1) end es o (omega arith) (omega arith) in
      (
        block ++ rest,
        rw (p, r) refl,
        SameBlobs-append block rest first (only (in_window ns (h + 1) end) es) x y
            ∙ ap (λ z. map less_index (map blob_of z)) (sym split),
      )

  -- When the node answers for each block with the blobs that a `MemoryDA` holds there in the
  -- namespace, reading a window through the node returns, and gives the blobs that
  -- `MemoryDA.read` gives, in the same order and equal in all fields but the index. The state is one
  -- that `advance` and `submit` reach, and every blob in it has a packed header and a signer of 20
  -- bytes.
  pub celestia_read-refines :
      (da : MemoryDa) (ns : Bytes) (start end : ℕ)
      → IsChain da
      → All IsSent da.entries
      → ((k : ℕ) → node.get_all k ns ≡ served da.entries k ns)
      → start ≤ end
      → (bs : List ObservedBlob) × (celestia_read node ns start end ≡ ok bs)
        × (map less_index bs ≡ map less_index (read ns start end da))
  unfolding celestia_read read
  celestia_read-refines da ns start end c sent g h =
      read_blocks-served (end - start) start end ns da.entries g sent c.ordered (omega arith)
