-- ===== src/Public.antt =====
-- `PublicValues` of `common/src/engram_common/clock.py`: the 297 bytes that the proof of an epoch says
-- to the contract.
use he_thong_chung_minh_luu.Prelude.{
  List, Result, [], assertion, err, if◌then◌else◌, length, not, ok, raise_if, struct_error,
  value_error, ℕ, ℕ_eq, ◌==◌, ◌>>=◌, ◌>>◌, ◌∷◌,
}
use he_thong_chung_minh_luu.Bytes.{Bytes, from_bytes_be, pack_be, pack_str}
use he_thong_chung_minh_luu.Bytes.Struct.{fields, join}
pub mod Wire

pub record PublicValues : Type 0 where
  pub epoch : ℕ
  pub batch_root : Bytes
  pub da_commitment : Bytes
  pub da_nonce : ℕ
  pub results_root : Bytes
  pub results_data_root : Bytes
  pub storage_vk_digest : Bytes
  pub snapshot_id : Bytes
  pub submitter : Bytes
  pub prev_state_root : Bytes
  pub new_state_root : Bytes
  pub num_verified : ℕ
  pub window_saturation : ℕ

-- `_PV`: the widths of the fields, all big-endian.
abbrev pub values_layout : List ℕ
values_layout = 8 ∷ 32 ∷ 32 ∷ 8 ∷ 32 ∷ 32 ∷ 32 ∷ 32 ∷ 20 ∷ 32 ∷ 32 ∷ 4 ∷ 1 ∷ []

abbrev pub public_values_bytes : ℕ
public_values_bytes = 297

-- `PublicValues.pack`
unfoldable pub pack_values : PublicValues → Result Bytes
unfolding pack_be pack_str join
pack_values v = do
  e ← pack_be 8 v.epoch
  n ← pack_be 8 v.da_nonce
  c ← pack_be 4 v.num_verified
  w ← pack_be 1 v.window_saturation
  let raw = join (
      e
      ∷ pack_str 32 v.batch_root
      ∷ pack_str 32 v.da_commitment
      ∷ n
      ∷ pack_str 32 v.results_root
      ∷ pack_str 32 v.results_data_root
      ∷ pack_str 32 v.storage_vk_digest
      ∷ pack_str 32 v.snapshot_id
      ∷ pack_str 20 v.submitter
      ∷ pack_str 32 v.prev_state_root
      ∷ pack_str 32 v.new_state_root
      ∷ c
      ∷ w
      ∷ [])
  raise_if (not (length raw == public_values_bytes)) assertion
  ok raw

-- `PublicValues` from the fields of the layout.
unfoldable pub values_of : List Bytes → Result PublicValues
unfolding from_bytes_be
values_of (e ∷ b ∷ d ∷ n ∷ r ∷ rd ∷ vk ∷ sn ∷ su ∷ ps ∷ ns ∷ c ∷ w ∷ []) = ok (record {
  epoch = from_bytes_be e;
  batch_root = b;
  da_commitment = d;
  da_nonce = from_bytes_be n;
  results_root = r;
  results_data_root = rd;
  storage_vk_digest = vk;
  snapshot_id = sn;
  submitter = su;
  prev_state_root = ps;
  new_state_root = ns;
  num_verified = from_bytes_be c;
  window_saturation = from_bytes_be w;
})
values_of _ = err struct_error

-- `PublicValues.unpack`
unfoldable pub unpack_values : Bytes → Result PublicValues
unfolding values_of fields
unpack_values raw =
    if not (length raw == public_values_bytes)
    then err value_error
    else values_of (fields values_layout raw)
