-- ===== src/Tests/Chain.antt =====
-- Merkle trees, the public values and the membership registry.
use he_thong_chung_minh_luu.Prelude.{
  List, [], arith, false, get_or, length, list_ord, map, ok, pair_ord, refl, replicate, true, ℕ_eq,
  ℕ_ord, ◌∷◌, ◌≡◌,
}
use he_thong_chung_minh_luu.Bytes.{Bytes, Bytes-discrete, bytes_eq}
use he_thong_chung_minh_luu.Crypto.{keccak, merkle_proof, merkle_root, merkle_verify}
use he_thong_chung_minh_luu.Crypto.Merkle.{merkle_verify-merkle_proof}
use he_thong_chung_minh_luu.Public.{PublicValues, pack_values, public_values_bytes, unpack_values}
use he_thong_chung_minh_luu.Public.Wire.{IsWritable, unpack_values-pack_values}
use he_thong_chung_minh_luu.Membership.{
  DealRecord, MembershipRegistry, deal_open, expected_for, registry_snapshot, verify_registry,
}
use he_thong_chung_minh_luu.Shard.{expected_from_registry, to_expected}
use he_thong_chung_minh_luu.Shard.Registry.{expected_from_registry-deals}
use he_thong_chung_minh_luu.Tests.Setting.{alice, bob, book, cut_digest, deal_one}
use he_thong_chung_minh_luu.Bytes.Struct.{join}

abbrev three_leaves : List Bytes
three_leaves = replicate 32 1 ∷ replicate 32 2 ∷ replicate 32 3 ∷ []

merkle_verify-merkle_proof_example :
    (path : List Bytes) × (merkle_proof (keccak cut_digest) three_leaves 2 ≡ ok path)
    × (merkle_verify
          (keccak cut_digest)
          (get_or three_leaves 2 [])
          path
          2
          (merkle_root (keccak cut_digest) three_leaves)
        ≡ true)
merkle_verify-merkle_proof_example =
    merkle_verify-merkle_proof (keccak cut_digest) three_leaves 2 (omega arith)

abbrev some_values : PublicValues
some_values = record {
  epoch = 300;
  batch_root = replicate 32 1;
  da_commitment = replicate 32 2;
  da_nonce = 7;
  results_root = replicate 32 3;
  results_data_root = replicate 32 4;
  storage_vk_digest = replicate 32 5;
  snapshot_id = book;
  submitter = bob;
  prev_state_root = replicate 32 6;
  new_state_root = replicate 32 7;
  num_verified = 2;
  window_saturation = 255;
}

some_values-IsWritable : IsWritable some_values
some_values-IsWritable = record {
  epoch_fits = omega arith;
  nonce_fits = omega arith;
  verified_fits = omega arith;
  saturation_fits = omega arith;
  batch_size = refl;
  da_size = refl;
  results_size = refl;
  results_data_size = refl;
  vk_size = refl;
  snapshot_size = refl;
  submitter_size = refl;
  prev_size = refl;
  new_size = refl;
}

unpack_values-pack_values_example :
    (raw : Bytes) × (pack_values some_values ≡ ok raw)
    × (length raw ≡ public_values_bytes)
    × (unpack_values raw ≡ ok some_values)
unpack_values-pack_values_example = unpack_values-pack_values some_values some_values-IsWritable

abbrev alice_record : DealRecord
alice_record = record {
  provider_id = alice;
  deal_id = deal_one;
  sealed_root = replicate 32 4;
  deadline_idx = 2;
  shard = 3;
  declared_unavailable = false;
}

abbrev small_registry : MembershipRegistry
small_registry = record {
  epoch = 1;
  cut_height = 90;
  entries = record { kind = deal_open; a = replicate 32 1; b = replicate 32 2 } ∷ [];
  deals = alice_record ∷ [];
}

small_registry-ok :
    verify_registry cut_digest small_registry (registry_snapshot cut_digest small_registry) 1
    ≡ ok tt
unfolding verify_registry Bytes-discrete join
small_registry-ok = refl

expected_from_registry-deals_example :
    expected_from_registry cut_digest
      (record small_registry { deals = [] })
      (registry_snapshot cut_digest small_registry)
      1
      2
      3
    ≡ ok (map to_expected (expected_for (record small_registry { deals = [] }) 2 3))
expected_from_registry-deals_example =
    expected_from_registry-deals cut_digest small_registry []
      (registry_snapshot cut_digest small_registry) 1 2 3 small_registry-ok
