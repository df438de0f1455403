-- ===== src/Public/Wire.antt =====
-- The public values survive the wire: 297 bytes that `unpack` reads back.
use mathlib.Core.List.{append-nil}
use he_thong_chung_minh_luu.Prelude.{
  List, [], ap, arith, length, ok, reverse, sym, ℕ, ℕ_eq, ◌<◌, ◌^◌, ◌∙◌, ◌∷◌, ◌≡◌,
}
use he_thong_chung_minh_luu.Bytes.{Bytes, le_digits, pack_be}
use he_thong_chung_minh_luu.Bytes.Fields.{from_bytes_be_lem, length-be_digits, pack_str_lem}
use he_thong_chung_minh_luu.Bytes.Struct.{Fits, fields, fields-join, join, length-join, size}
use he_thong_chung_minh_luu.Public.{
  PublicValues, pack_values, public_values_bytes, unpack_values, values_layout, values_of,
}

-- The numbers fit their fields and the byte strings have their sizes.
pub record IsWritable (v : PublicValues) : Type 0 where
  pub epoch_fits : v.epoch < 256 ^ 8
  pub nonce_fits : v.da_nonce < 256 ^ 8
  pub verified_fits : v.num_verified < 256 ^ 4
  pub saturation_fits : v.window_saturation < 256 ^ 1
  pub batch_size : length v.batch_root ≡ 32
  pub da_size : length v.da_commitment ≡ 32
  pub results_size : length v.results_root ≡ 32
  pub results_data_size : length v.results_data_root ≡ 32
  pub vk_size : length v.storage_vk_digest ≡ 32
  pub snapshot_size : length v.snapshot_id ≡ 32
  pub submitter_size : length v.submitter ≡ 20
  pub prev_size : length v.prev_state_root ≡ 32
  pub new_size : length v.new_state_root ≡ 32

pack_be_lem : (w n : ℕ) → n < 256 ^ w → pack_be w n ≡ ok (reverse (le_digits w n))
unfolding pack_be
pack_be_lem w n h = ground arith

abbrev value_parts : PublicValues → List Bytes
value_parts v =
    reverse (le_digits 8 v.epoch)
    ∷ v.batch_root
    ∷ v.da_commitment
    ∷ reverse (le_digits 8 v.da_nonce)
    ∷ v.results_root
    ∷ v.results_data_root
    ∷ v.storage_vk_digest
    ∷ v.snapshot_id
    ∷ v.submitter
    ∷ v.prev_state_root
    ∷ v.new_state_root
    ∷ reverse (le_digits 4 v.num_verified)
    ∷ reverse (le_digits 1 v.window_saturation)
    ∷ []

value_parts-Fits : (v : PublicValues) → IsWritable v → Fits values_layout (value_parts v)
value_parts-Fits v h = (
  length-be_digits 8 _,
  (
    h.batch_size,
    (
      h.da_size,
      (
        length-be_digits 8 _,
        (
          h.results_size,
          (
            h.results_data_size,
            (
              h.vk_size,
              (
                h.snapshot_size,
                (
                  h.submitter_size,
                  (h.prev_size, (h.new_size, (length-be_digits 4 _, (length-be_digits 1 _, tt)))),
                ),
              ),
            ),
          ),
        ),
      ),
    ),
  ),
)

length-value_parts :
    (v : PublicValues) → IsWritable v → length (join (value_parts v)) ≡ public_values_bytes
unfolding size
length-value_parts v h = length-join values_layout (value_parts v) (value_parts-Fits v h)

pack_values_lem : (v : PublicValues) → IsWritable v → pack_values v ≡ ok (join (value_parts v))
unfolding pack_values
pack_values_lem v h = rw (
  pack_be_lem 8 v.epoch h.epoch_fits,
  pack_be_lem 8 v.da_nonce h.nonce_fits,
  pack_be_lem 4 v.num_verified h.verified_fits,
  pack_be_lem 1 v.window_saturation h.saturation_fits,
  pack_str_lem 32 v.batch_root h.batch_size,
  pack_str_lem 32 v.da_commitment h.da_size,
  pack_str_lem 32 v.results_root h.results_size,
  pack_str_lem 32 v.results_data_root h.results_data_size,
  pack_str_lem 32 v.storage_vk_digest h.vk_size,
  pack_str_lem 32 v.snapshot_id h.snapshot_size,
  pack_str_lem 20 v.submitter h.submitter_size,
  pack_str_lem 32 v.prev_state_root h.prev_size,
  pack_str_lem 32 v.new_state_root h.new_size,
  length-value_parts v h,
)

values_of_lem : (v : PublicValues) → IsWritable v → values_of (value_parts v) ≡ ok v
unfolding values_of
values_of_lem v h = rw (
  from_bytes_be_lem 8 v.epoch h.epoch_fits,
  from_bytes_be_lem 8 v.da_nonce h.nonce_fits,
  from_bytes_be_lem 4 v.num_verified h.verified_fits,
  from_bytes_be_lem 1 v.window_saturation h.saturation_fits,
)

unpack_values_lem :
    (raw : Bytes)
    → length raw ≡ public_values_bytes
    → unpack_values raw ≡ values_of (fields values_layout raw)
unfolding unpack_values
unpack_values_lem raw h = rw h

-- Public values whose fields fit the layout are packed into 297 bytes, and `unpack` reads the
-- values back from them.
pub unpack_values-pack_values :
    (v : PublicValues)
    → IsWritable v
    → (raw : Bytes) × (pack_values v ≡ ok raw)
      × (length raw ≡ public_values_bytes)
      × (unpack_values raw ≡ ok v)
unpack_values-pack_values v h =
    let n = length-value_parts v h in
    let f = value_parts-Fits v h in
    (
      join (value_parts v),
      pack_values_lem v h,
      n,
      unpack_values_lem (join (value_parts v)) n
          ∙ ap values_of (
              ap (fields values_layout) (sym (append-nil (join (value_parts v))))
              ∙ fields-join values_layout (value_parts v) [] f)
          ∙ values_of_lem v h,
    )
