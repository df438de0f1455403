-- ===== src/Blob.antt =====
-- `common/src/engram_common/blob.py`: the namespace of a shard, the header of a blob, and the
-- ladder of filters that a worker applies to what it downloads.
pub mod Header
pub mod Filter
pub mod Ladder
pub mod Stats
pub mod Earliest
use he_thong_chung_minh_luu.Config.{cont_share_payload, first_share_payload_v1, share_size}
use he_thong_chung_minh_luu.Prelude.{
  List, Option, Result, [], eqb, if◌then◌else◌, leb, length, ltb, none, ok, some, take, ℕ, ◌*◌,
  ◌++◌, ◌+◌, ◌-◌, ◌/◌, ◌==◌, ◌>>=◌, ◌∷◌,
}
use he_thong_chung_minh_luu.Bytes.{Bytes, bytes_eq, from_bytes_le, pack_le, pack_str, rjust, zeros}
use he_thong_chung_minh_luu.Bytes.Struct.{fields, join}

-- `class BlobKind` of `constants.py`
pub data BlobKind : Type 0 where
  bundle child_proof settlement membership : BlobKind

-- `int(kind)`
unfoldable pub kind_code : BlobKind → ℕ
kind_code bundle = 1
kind_code child_proof = 2
kind_code settlement = 3
kind_code membership = 4

-- `BlobKind(kind)`, with the `ValueError` that `unpack` catches as `none`.
unfoldable pub kind_of : ℕ → Option BlobKind
kind_of n =
    if n == 1
    then some bundle
    else if n == 2
    then some child_proof
    else if n == 3
    then some settlement
    else if n == 4
    then some membership
    else none

abbrev pub protocol_version : ℕ
protocol_version = 1

-- `b"ENGR"`
abbrev pub blob_magic : Bytes
blob_magic = 69 ∷ 78 ∷ 71 ∷ 82 ∷ []

-- `"<BBII"` after the version byte and 18 zeros
unfoldable pub build_namespace : BlobKind → ℕ → ℕ → Result Bytes
unfolding kind_code pack_le
build_namespace kind chain_id shard = do
  c ← pack_le 4 chain_id
  s ← pack_le 4 shard
  ok ((0 ∷ zeros 18) ++ (protocol_version ∷ kind_code kind ∷ (c ++ s)))

pub record BlobHeader : Type 0 where
  pub kind : BlobKind
  pub deadline : ℕ
  pub shard : ℕ
  pub provider_id : Bytes
  pub deal_id : Bytes
  pub payload_len : ℕ
  pub version : ℕ

-- `HEADER_STRUCT`: magic, version, kind, deadline, shard, provider_id, deal_id, payload_len
abbrev pub header_layout : List ℕ
header_layout = 4 ∷ 1 ∷ 1 ∷ 8 ∷ 4 ∷ 20 ∷ 32 ∷ 4 ∷ []

abbrev pub header_size : ℕ
header_size = 74

-- `b.rjust(w, b"\0")[:w]` in a field of `w` bytes.
unfoldable pub fit_right : ℕ → Bytes → Bytes
unfolding rjust pack_str
fit_right w b = pack_str w (take w (rjust w b))

-- `BlobHeader.pack`
unfoldable pub pack : BlobHeader → Result Bytes
unfolding kind_code pack_le fit_right join
pack h = do
  v ← pack_le 1 h.version
  k ← pack_le 1 (kind_code h.kind)
  d ← pack_le 8 h.deadline
  s ← pack_le 4 h.shard
  n ← pack_le 4 h.payload_len
  ok (
      join
        (blob_magic ∷ v ∷ k ∷ d ∷ s ∷ fit_right 20 h.provider_id ∷ fit_right 32 h.deal_id ∷ n ∷ []))

-- The body of `BlobHeader.unpack` on the fields of the layout.
unfoldable pub header_of : List Bytes → Option BlobHeader
header_of (magic ∷ v ∷ k ∷ d ∷ s ∷ prov ∷ deal ∷ n ∷ []) =
    if eqb magic blob_magic
    then elim (kind_of (from_bytes_le k)) [
      | none ↦ none
      | some kind ↦ some (record {
        kind = kind;
        deadline = from_bytes_le d;
        shard = from_bytes_le s;
        provider_id = prov;
        deal_id = deal;
        payload_len = from_bytes_le n;
        version = from_bytes_le v;
      })
    ]
    else none
header_of _ = none

-- `BlobHeader.unpack`
unfoldable pub unpack : Bytes → Option BlobHeader
unfolding header_of kind_of fields
unpack raw = if ltb (length raw) header_size then none else header_of (fields header_layout raw)

-- `BlobHeader.key`
abbrev pub Key : Type 0
Key = Bytes × Bytes

abbrev pub key : BlobHeader → Key
key h = (h.provider_id, h.deal_id)

-- `class ObservedBlob`: `signer` is the field that Celestia's consensus fills in.
pub record ObservedBlob : Type 0 where
  pub height : ℕ
  pub index : ℕ
  pub signer : Bytes
  pub header : Option BlobHeader
  pub payload : Bytes

-- `ObservedBlob.position`
abbrev pub position : ObservedBlob → ℕ × ℕ
position b = (b.height, b.index)

-- `shares_for`
unfoldable pub shares_for : ℕ → ℕ
shares_for payload_bytes =
    if leb payload_bytes first_share_payload_v1
    then 1
    else 1 + (payload_bytes - first_share_payload_v1 + cont_share_payload - 1) / cont_share_payload

-- `pfb_gas`
unfoldable pub pfb_gas : ℕ → ℕ
unfolding shares_for
pfb_gas payload_bytes = 65000 + shares_for payload_bytes * share_size * 8
