-- ===== src/Shard/Registry.antt =====
-- What the gate of `expected_from_registry` binds: it compares the log of the registry with the
-- chain, and takes the deals of the registry as they are.
use he_thong_chung_minh_luu.Prelude.{List, map, ok, ℕ, ℕ_eq, ◌∙◌, ◌≡◌}
use he_thong_chung_minh_luu.Bytes.{Bytes, bytes_eq}
use he_thong_chung_minh_luu.Crypto.{Digest}
use he_thong_chung_minh_luu.Membership.{
  DealRecord, MembershipRegistry, expected_for, verify_registry,
}
use he_thong_chung_minh_luu.Shard.{expected_from_registry, to_expected}
use he_thong_chung_minh_luu.Membership.Gate.{verify_registry_deals}

-- If the gate admits a registry, it admits the registry with any other deals in place of its own,
-- and the expected deals of a cell are then taken from those.
pub expected_from_registry-deals :
    (sha3 : Digest) (r : MembershipRegistry) (ds : List DealRecord) (sid : Bytes)
    (epoch deadline_idx shard : ℕ)
    → verify_registry sha3 r sid epoch ≡ ok tt
    → expected_from_registry sha3 (record r { deals = ds }) sid epoch deadline_idx shard
      ≡ ok (map to_expected (expected_for (record r { deals = ds }) deadline_idx shard))
unfolding expected_from_registry
expected_from_registry-deals sha3 r ds sid epoch deadline_idx shard h =
    rw (verify_registry_deals sha3 r ds sid epoch ∙ h)
