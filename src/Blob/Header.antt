-- ===== src/Blob/Header.antt =====
-- The header of a blob survives the wire: what `BlobHeader.pack` writes `BlobHeader.unpack` reads
-- back, whatever follows, and the other way round.
use he_thong_chung_minh_luu.Prelude.{
  All, Bool-cases, List, Option, Option-cases, [], ap, arith, eqb, eqb→eq, eq→eqb, ge→ltb, inl, inr,
  length, length-append, ltb, none, none-ne-some, ok, refl, some, some_inj, subst, sym, take,
  take_all, ℕ, ◌++◌, ◌<◌, ◌^◌, ◌∙◌, ◌∷◌, ◌≡◌, ◌≤◌,
}
use he_thong_chung_minh_luu.Bytes.{
  Bytes, IsBytes, bytes_eq, from_bytes_le, from_bytes_le-le_digits, le_digits, length-le_digits,
}
use he_thong_chung_minh_luu.Bytes.Fields.{
  fields-All, pack_le-from_bytes_le, pack_le_lem, pack_str_lem, rjust_lem,
}
use he_thong_chung_minh_luu.Bytes.Struct.{
  Fits, fields, fields-Fits, fields-join, join, join-fields, length-join, size,
}
use he_thong_chung_minh_luu.Blob.{
  BlobHeader, BlobKind, blob_magic, fit_right, header_layout, header_of, header_size, kind_code,
  kind_of, pack, unpack,
}

-- The fields are in the ranges of the layout.
pub record IsPackable (h : BlobHeader) : Type 0 where
  pub version_fits : h.version < 256 ^ 1
  pub deadline_fits : h.deadline < 256 ^ 8
  pub shard_fits : h.shard < 256 ^ 4
  pub payload_fits : h.payload_len < 256 ^ 4
  pub provider_size : length h.provider_id ≡ 20
  pub deal_size : length h.deal_id ≡ 32

fit_right_lem : (w : ℕ) (b : Bytes) → length b ≡ w → fit_right w b ≡ b
unfolding fit_right
fit_right_lem w b h = rw (rjust_lem w b h, take_all b w (omega arith)) (pack_str_lem w b h)

kind_of-kind_code : (k : BlobKind) → kind_of (kind_code k) ≡ some k
unfolding kind_of kind_code
kind_of-kind_code k = ground arith

kind_code-lt : (k : BlobKind) → kind_code k < 256 ^ 1
unfolding kind_code
kind_code-lt k = ground arith

kind_code_of : (n : ℕ) (k : BlobKind) → kind_of n ≡ some k → kind_code k ≡ n
unfolding kind_of kind_code
kind_code_of n k h = ground arith

abbrev parts : BlobHeader → List Bytes
parts h =
    blob_magic
    ∷ le_digits 1 h.version
    ∷ le_digits 1 (kind_code h.kind)
    ∷ le_digits 8 h.deadline
    ∷ le_digits 4 h.shard
    ∷ h.provider_id
    ∷ h.deal_id
    ∷ le_digits 4 h.payload_len
    ∷ []

parts-Fits : (h : BlobHeader) → IsPackable h → Fits header_layout (parts h)
parts-Fits h v = (
  refl,
  (
    length-le_digits 1 _,
    (
      length-le_digits 1 _,
      (
        length-le_digits 8 _,
        (length-le_digits 4 _, (v.provider_size, (v.deal_size, (length-le_digits 4 _, tt)))),
      ),
    ),
  ),
)

pack_lem : (h : BlobHeader) → IsPackable h → pack h ≡ ok (join (parts h))
unfolding pack
pack_lem h v = rw (
  pack_le_lem 1 h.version v.version_fits,
  pack_le_lem 1 (kind_code h.kind) (kind_code-lt h.kind),
  pack_le_lem 8 h.deadline v.deadline_fits,
  pack_le_lem 4 h.shard v.shard_fits,
  pack_le_lem 4 h.payload_len v.payload_fits,
  fit_right_lem 20 h.provider_id v.provider_size,
  fit_right_lem 32 h.deal_id v.deal_size,
)

-- What `unpack` makes of eight fields under the right magic.
abbrev read : BlobKind → List Bytes → Option BlobHeader
read kind (magic ∷ v ∷ k ∷ d ∷ s ∷ prov ∷ deal ∷ n ∷ []) = some (record {
  kind = kind;
  deadline = from_bytes_le d;
  shard = from_bytes_le s;
  provider_id = prov;
  deal_id = deal;
  payload_len = from_bytes_le n;
  version = from_bytes_le v;
})
read kind _ = none

header_of_lem :
    (v k d s prov deal n : Bytes) (kind : BlobKind)
    → kind_of (from_bytes_le k) ≡ some kind
    → header_of (blob_magic ∷ v ∷ k ∷ d ∷ s ∷ prov ∷ deal ∷ n ∷ [])
      ≡ read kind (blob_magic ∷ v ∷ k ∷ d ∷ s ∷ prov ∷ deal ∷ n ∷ [])
unfolding header_of
header_of_lem v k d s prov deal n kind h = rw (eq→eqb blob_magic blob_magic refl, h)

read-parts : (h : BlobHeader) → IsPackable h → read h.kind (parts h) ≡ some h
read-parts h v = rw (
  from_bytes_le-le_digits 1 h.version v.version_fits,
  from_bytes_le-le_digits 8 h.deadline v.deadline_fits,
  from_bytes_le-le_digits 4 h.shard v.shard_fits,
  from_bytes_le-le_digits 4 h.payload_len v.payload_fits,
)

header_of-parts : (h : BlobHeader) → IsPackable h → header_of (parts h) ≡ some h
header_of-parts h v =
    header_of_lem _ _ _ _ _ _ _ h.kind (
      ap kind_of (from_bytes_le-le_digits 1 (kind_code h.kind) (kind_code-lt h.kind))
      ∙ kind_of-kind_code h.kind)
    ∙ read-parts h v

unpack_lem :
    (raw : Bytes) → header_size ≤ length raw → unpack raw ≡ header_of (fields header_layout raw)
unfolding unpack
unpack_lem raw h = rw (ge→ltb (length raw) header_size h)

-- A header whose fields are in range is packed into 74 bytes, and `unpack` reads the header back
-- from them, whatever payload follows.
pub unpack-pack :
    (h : BlobHeader) (payload : Bytes)
    → IsPackable h
    → (raw : Bytes) × (pack h ≡ ok raw)
      × (length raw ≡ header_size)
      × (unpack (raw ++ payload) ≡ some h)
unfolding size
unpack-pack h payload v =
    let n : length (join (parts h)) ≡ header_size =
      length-join header_layout (parts h) (parts-Fits h v) in
    (
      join (parts h),
      pack_lem h v,
      n,
      unpack_lem _ (omega (arith, length-append (join (parts h)) payload))
          ∙ ap header_of (fields-join header_layout (parts h) payload (parts-Fits h v))
          ∙ header_of-parts h v,
    )

header_of_inv :
    (m v k d s prov deal n : Bytes) (h : BlobHeader)
    → header_of (m ∷ v ∷ k ∷ d ∷ s ∷ prov ∷ deal ∷ n ∷ []) ≡ some h
    → (kind : BlobKind) × (kind_code kind ≡ from_bytes_le k)
      × (m ≡ blob_magic)
      × (read kind (m ∷ v ∷ k ∷ d ∷ s ∷ prov ∷ deal ∷ n ∷ []) ≡ some h)
unfolding header_of
header_of_inv m v k d s prov deal n h e = elim (Bool-cases (eqb m blob_magic)) [
  | inr differs ↦ absurd (none-ne-some (rw (differs, header_of) at e))
  | inl magic ↦ elim (Option-cases (kind_of (from_bytes_le k))) [
    | inl unknown ↦ absurd (none-ne-some (rw (magic, unknown, header_of) at e))
    | inr (kind, q) ↦
        (kind, kind_code_of _ kind q, eqb→eq m blob_magic magic, rw (magic, q, header_of) at e)
  ]
]

pack-read :
    (m v k d s prov deal n : Bytes) (h : BlobHeader) (kind : BlobKind)
    → All IsBytes (m ∷ v ∷ k ∷ d ∷ s ∷ prov ∷ deal ∷ n ∷ [])
    → Fits header_layout (m ∷ v ∷ k ∷ d ∷ s ∷ prov ∷ deal ∷ n ∷ [])
    → kind_code kind ≡ from_bytes_le k
    → m ≡ blob_magic
    → read kind (m ∷ v ∷ k ∷ d ∷ s ∷ prov ∷ deal ∷ n ∷ []) ≡ some h
    → pack h ≡ ok (join (m ∷ v ∷ k ∷ d ∷ s ∷ prov ∷ deal ∷ n ∷ []))
unfolding pack
pack-read m v k d s prov deal n h kind b f c magic e =
    subst (λ x. pack x ≡ ok (join (m ∷ v ∷ k ∷ d ∷ s ∷ prov ∷ deal ∷ n ∷ []))) (some_inj e)
      (rw (
        c,
        magic,
        pack_le-from_bytes_le 1 v b.1.0 f.1.0,
        pack_le-from_bytes_le 1 k b.1.1.0 f.1.1.0,
        pack_le-from_bytes_le 8 d b.1.1.1.0 f.1.1.1.0,
        pack_le-from_bytes_le 4 s b.1.1.1.1.0 f.1.1.1.1.0,
        pack_le-from_bytes_le 4 n b.1.1.1.1.1.1.1.0 f.1.1.1.1.1.1.1.0,
        fit_right_lem 20 prov f.1.1.1.1.1.0,
        fit_right_lem 32 deal f.1.1.1.1.1.1.0,
      ))

-- A header that `unpack` reads from bytes is packed into the first 74 of them again.
pub pack-unpack :
    (raw : Bytes) (h : BlobHeader)
    → IsBytes raw
    → unpack raw ≡ some h
    → pack h ≡ ok (take header_size raw)
unfolding fields size unpack
pack-unpack raw h b e = elim (Bool-cases (ltb (length raw) header_size)) [
  | inl short ↦ absurd (none-ne-some (rw (short, unpack) at e))
  | inr full ↦
      let long : header_size ≤ length raw = ground arith in
      let (kind, c, magic, r) =
        header_of_inv (take 4 raw) _ _ _ _ _ _ _ h (sym (unpack_lem raw long) ∙ e) in
      pack-read (take 4 raw) _ _ _ _ _ _ _ h kind (fields-All header_layout raw b)
        (fields-Fits header_layout raw long) c magic r
      ∙ ap ok (join-fields header_layout raw)
]
