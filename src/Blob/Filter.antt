-- ===== src/Blob/Filter.antt =====
-- `filter_blobs` of `common/src/engram_common/blob.py`: the ladder F1, F2, F3, F3b over one blob,
-- and the loop that keeps the earliest blob of each key.
use he_thong_chung_minh_luu.Prelude.{
  Bool, List, Option, [], before, eqb, false, if◌then◌else◌, leb, length, ltb, none, not, pair_eq,
  pair_ord, some, true, ℕ, ℕ_eq, ℕ_ord, ◌&&◌, ◌+◌, ◌==◌, ◌∷◌,
}
use he_thong_chung_minh_luu.Bytes.{Bytes, bytes_eq}
use he_thong_chung_minh_luu.Dict.{Dict, insert, lookup, member}
use he_thong_chung_minh_luu.Blob.{
  BlobHeader, BlobKind, Key, ObservedBlob, bundle, key, position, protocol_version,
}

-- The keyword arguments of `filter_blobs`.
pub record FilterArgs : Type 0 where
  pub expected_keys : List Key
  pub signer_of : Dict Bytes Bytes
  pub deadline : ℕ
  pub shard : ℕ
  pub max_payload : ℕ

-- Where the ladder leaves a blob.
pub data Rung : Type 0 where
  drop_f1_length drop_f2_header drop_f3_key drop_signer : Rung
  passes : Key → Rung

-- `h.kind is BlobKind.BUNDLE`
unfoldable pub is_bundle : BlobKind → Bool
is_bundle bundle = true
is_bundle _ = false

-- `registered is not None and blob.signer == registered`
unfoldable pub signed_by_owner : Dict Bytes Bytes → BlobHeader → ObservedBlob → Bool
signed_by_owner signer_of h blob = elim (lookup h.provider_id signer_of) [
  | none ↦ false
  | some registered ↦ eqb blob.signer registered
]

-- The rungs from F2 on, for a blob with a header.
unfoldable pub examine_header : FilterArgs → ObservedBlob → BlobHeader → Rung
unfolding is_bundle
examine_header a blob h =
    if not (h.version == protocol_version)
    then drop_f2_header
    else if not (is_bundle h.kind && (h.deadline == a.deadline && h.shard == a.shard))
    then drop_f2_header
    else if not (h.payload_len == length blob.payload)
    then drop_f2_header
    else if not (member (key h) a.expected_keys)
    then drop_f3_key
    else if not (signed_by_owner a.signer_of h blob)
    then drop_signer
    else passes (key h)

unfoldable pub examine : FilterArgs → ObservedBlob → Rung
unfolding examine_header
examine a blob =
    if not (ltb 0 (length blob.payload) && leb (length blob.payload) a.max_payload)
    then drop_f1_length
    else elim blob.header [ none ↦ drop_f2_header | some h ↦ examine_header a blob h ]

pub record FilterStats : Type 0 where
  pub seen : ℕ
  pub drop_f1_length : ℕ
  pub drop_f2_header : ℕ
  pub drop_f3_key : ℕ
  pub drop_signer : ℕ
  pub kept : ℕ

abbrev pub no_stats : FilterStats
no_stats = record {
  seen = 0;
  drop_f1_length = 0;
  drop_f2_header = 0;
  drop_f3_key = 0;
  drop_signer = 0;
  kept = 0;
}

abbrev pub Best : Type 0
Best = Dict Key ObservedBlob

-- `prev is None or blob.position < prev.position`
unfoldable pub improves : ObservedBlob → Option ObservedBlob → Bool
improves blob none = true
improves blob (some prev) = before (position blob) (position prev)

-- One round of the loop, after `stats.seen += 1`.
unfoldable pub place : Rung → ObservedBlob → Best × FilterStats → Best × FilterStats
unfolding improves
place drop_f1_length blob (best, st) = (best, record st { drop_f1_length = st.drop_f1_length + 1 })
place drop_f2_header blob (best, st) = (best, record st { drop_f2_header = st.drop_f2_header + 1 })
place drop_f3_key blob (best, st) = (best, record st { drop_f3_key = st.drop_f3_key + 1 })
place drop_signer blob (best, st) = (best, record st { drop_signer = st.drop_signer + 1 })
place (passes k) blob (best, st) =
    (if improves blob (lookup k best) then insert k blob best else best, st)

abbrev pub see : FilterStats → FilterStats
see st = record st { seen = st.seen + 1 }

unfoldable pub filter_loop :
    FilterArgs → List ObservedBlob → Best × FilterStats → Best × FilterStats
filter_loop a [] acc = acc
filter_loop a (blob ∷ blobs) (best, st) =
    filter_loop a blobs (place (examine a blob) blob (best, see st))

unfoldable pub filter_blobs : FilterArgs → List ObservedBlob → Best × FilterStats
unfolding filter_loop place examine
filter_blobs a blobs =
    let (best, st) = filter_loop a blobs ([], no_stats) in (best, record st { kept = length best })
