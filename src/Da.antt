-- ===== src/Da.antt =====
-- `common/src/engram_common/da.py`: the data availability layer, in memory (`MemoryDA`) and behind
-- the RPC of a Celestia node (`CelestiaDA`), with the decoding of the node's bech32 address.
pub mod Chain
pub mod Window
pub mod Square
pub mod Celestia
pub mod Backend
pub mod Address
use he_thong_chung_minh_luu.Prelude.{
  Bool, List, Result, [], da_error, eqb, if◌then◌else◌, leb, length, ltb, map, max, not, ok, only,
  raise_if, some, suc, zero, ℕ, ◌&&◌, ◌*◌, ◌++◌, ◌+◌, ◌-◌, ◌/◌, ◌==◌, ◌>>=◌, ◌>>◌, ◌∷◌,
}
use he_thong_chung_minh_luu.Bytes.{Bytes, bytes_eq, codes, to_bytes_le}
use he_thong_chung_minh_luu.Config.{namespace_size, share_size}
use he_thong_chung_minh_luu.Crypto.{Digest, keccak}
use he_thong_chung_minh_luu.Blob.{BlobHeader, ObservedBlob}

-- A blob with the namespace that it was posted to.
abbrev pub Entry : Type 0
Entry = Bytes × ObservedBlob

-- `class MemoryDA`
pub record MemoryDa : Type 0 where
  pub height : ℕ
  pub entries : List Entry

-- `MemoryDA()`
abbrev pub fresh_da : MemoryDa
fresh_da = record { height = 1000000; entries = [] }

-- `MemoryDA.advance`: the height returned and the state left.
unfoldable pub advance : ℕ → MemoryDa → ℕ × MemoryDa
advance n da = (da.height + n, record da { height = da.height + n })

-- `b.height == height`
abbrev pub at_height : ℕ → Entry → Bool
at_height h (_, b) = b.height == h

-- `sum(1 for _, b in self.entries if b.height == self.height)`
unfoldable pub next_index : ℕ → List Entry → ℕ
next_index h entries = length (only (at_height h) entries)

-- `MemoryDA.submit`: the height returned and the state left.
unfoldable pub submit : Bytes → BlobHeader → Bytes → Bytes → MemoryDa → Result (ℕ × MemoryDa)
unfolding next_index
submit namespace header payload signer da = do
  raise_if (not (length namespace == namespace_size)) da_error
  raise_if (not (length signer == 20)) da_error
  let blob : ObservedBlob = record {
    height = da.height;
    index = next_index da.height da.entries;
    signer = signer;
    header = some header;
    payload = payload;
  }
  ok (da.height, record da { entries = da.entries ++ (namespace, blob) ∷ [] })

-- `ns == namespace and start <= b.height < end`
abbrev pub in_window : Bytes → ℕ → ℕ → Entry → Bool
in_window namespace start end (ns, b) = eqb ns namespace && leb start b.height && ltb b.height end

abbrev pub blob_of : Entry → ObservedBlob
blob_of (_, b) = b

-- `MemoryDA.read`
unfoldable pub read : Bytes → ℕ → ℕ → MemoryDa → List ObservedBlob
read namespace start end da = map blob_of (only (in_window namespace start end) da.entries)

-- `MemoryDA.data_roots`
unfoldable pub data_roots : Digest → List ℕ → Result (List Bytes)
unfolding to_bytes_le
data_roots sha3 [] = ok []
data_roots sha3 (h ∷ hs) = do
  le ← to_bytes_le 8 h
  rest ← data_roots sha3 hs
  ok (keccak sha3 (codes "DATA_ROOT" ∷ le ∷ []) ∷ rest)

-- `(len(b.payload) + SHARE_SIZE - 1) // SHARE_SIZE`
abbrev pub payload_shares : Entry → ℕ
payload_shares (_, b) = (length b.payload + share_size - 1) / share_size

unfoldable pub shares_at : ℕ → List Entry → ℕ
shares_at h [] = 0
shares_at h (e ∷ es) =
    let rest = shares_at h es in if at_height h e then payload_shares e + rest else rest

-- The loop that doubles `side`, on fuel.
unfoldable pub side_loop : ℕ → ℕ → ℕ → ℕ
side_loop zero shares side = side
side_loop (suc f) shares side =
    let wider = side_loop f shares (side * 2) in
    if ltb (side * side) (max 1 shares) then wider else side

-- `MemoryDA.square_roots`
unfoldable pub square_roots : MemoryDa → List ℕ → List ℕ
unfolding shares_at side_loop
square_roots da [] = []
square_roots da (h ∷ hs) =
    let shares = shares_at h da.entries in 2 * 2 * side_loop shares shares 1 ∷ square_roots da hs
