-- ===== src/Blob/Ladder.antt =====
-- What it takes to pass the ladder of `filter_blobs`.
use he_thong_chung_minh_luu.Prelude.{
  Option-cases, ap, arith, inl, inr, length, none, pair_eq, pair_ord, some, true, ℕ_eq, ℕ_ord, ◌<◌,
  ◌↔◌, ◌∙◌, ◌≡◌, ◌≢◌, ◌≤◌,
}
use he_thong_chung_minh_luu.Bytes.{Bytes, bytes_eq}
use he_thong_chung_minh_luu.Dict.{Dict, lookup, member}
use he_thong_chung_minh_luu.Blob.{BlobHeader, Key, ObservedBlob, bundle, key, protocol_version}
use he_thong_chung_minh_luu.Blob.Filter.{FilterArgs, examine, passes, signed_by_owner}

-- A blob of the expected deadline and shard, under an expected key, that is signed by the address
-- which the provider of its header has registered.
pub record IsOwn (a : FilterArgs) (blob : ObservedBlob) (h : BlobHeader) : Type 0 where
  pub has_header : blob.header ≡ some h
  pub nonempty : 0 < length blob.payload
  pub short : length blob.payload ≤ a.max_payload
  pub versioned : h.version ≡ protocol_version
  pub is_proof : h.kind ≡ bundle
  pub in_deadline : h.deadline ≡ a.deadline
  pub in_shard : h.shard ≡ a.shard
  pub announced : h.payload_len ≡ length blob.payload
  pub is_expected : member (key h) a.expected_keys ≡ true
  pub signed : lookup h.provider_id a.signer_of ≡ some blob.signer

signed_lem :
    (signer_of : Dict Bytes Bytes) (h : BlobHeader) (blob : ObservedBlob)
    → (signed_by_owner signer_of h blob ≡ true)
      ↔ (lookup h.provider_id signer_of ≡ some blob.signer)
unfolding signed_by_owner
signed_lem signer_of h blob = elim (Option-cases (lookup h.provider_id signer_of)) [
  | inl missing ↦ ground arith
  | inr (r, e) ↦ ground arith
]

pub passes_inj : {k k' : Key} → passes k ≡ passes k' → k ≡ k'
passes_inj e = cc

passes-IsOwn :
    (a : FilterArgs) (blob : ObservedBlob) (h : BlobHeader) (k : Key)
    → blob.header ≡ some h
    → examine a blob ≡ passes k
    → (key h ≡ k) × IsOwn a blob h
unfolding examine
passes-IsOwn a blob h k e p = ground (arith, signed_lem a.signer_of h blob)

own_passes :
    (a : FilterArgs) (blob : ObservedBlob) (h : BlobHeader)
    → IsOwn a blob h
    → examine a blob ≡ passes (key h)
unfolding examine
own_passes a blob h o = ground (arith, signed_lem a.signer_of h blob)

no_header :
    (a : FilterArgs) (blob : ObservedBlob) (k : Key)
    → blob.header ≡ none
    → examine a blob ≢ passes k
unfolding examine
no_header a blob k e p = ground arith

-- The ladder lets a blob pass exactly when it meets every check, and under the key of its header.
pub examine-IsOwn :
    (a : FilterArgs) (blob : ObservedBlob) (k : Key)
    → (examine a blob ≡ passes k) ↔ ((h : BlobHeader) × (key h ≡ k) × IsOwn a blob h)
examine-IsOwn a blob k = (
  λ p. elim (Option-cases blob.header) [
    | inl missing ↦ absurd (no_header a blob k missing p)
    | inr (h, e) ↦ let (q, o) = passes-IsOwn a blob h k e p in (h, q, o)
  ],
  λ (h, q, o). own_passes a blob h o ∙ ap passes q,
)

-- A blob whose signer is not the address registered for the provider that its header names is
-- dropped, whatever else it says.
pub foreign_dropped :
    (a : FilterArgs) (blob : ObservedBlob) (k : Key)
    → ((h : BlobHeader)
        → blob.header ≡ some h
        → lookup h.provider_id a.signer_of ≢ some blob.signer)
    → examine a blob ≢ passes k
foreign_dropped a blob k foreign p =
    let (h, q, o) = (examine-IsOwn a blob k).0 p in foreign h o.has_header o.signed
