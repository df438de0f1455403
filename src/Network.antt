-- ===== src/Network.antt =====
-- `orchestrator/src/orchestrator/harness.py` and the deadline of `scenarios.py`: a network of deals
-- whose providers post to the layer in memory, and workers that read a cell back and judge it.
pub mod Publish
pub mod Cell
pub mod Keys
pub mod Ready
pub mod Posted
pub mod Honest
use he_thong_chung_minh_luu.Prelude.{
  Bool, List, Result, [], false, if◌then◌else◌, length, map, ok, only, replicate, suc, take, true,
  zero, ℕ, ◌++◌, ◌-◌, ◌==◌, ◌>>=◌, ◌∷◌,
}
use he_thong_chung_minh_luu.Bytes.{Bytes, codes, zeros}
use he_thong_chung_minh_luu.Config.{bundle_size_bytes, profile_sim}
use he_thong_chung_minh_luu.Crypto.{Digest, keccak}
use he_thong_chung_minh_luu.Dict.{Dict}
use he_thong_chung_minh_luu.Clock.{Clock, Slot, absolute_deadline, beacon_heights, slot_at}
use he_thong_chung_minh_luu.Challenge.{derive_beacon}
use he_thong_chung_minh_luu.Membership.{
  DealRecord, MembershipEntry, MembershipRegistry, deal_active, registry_snapshot,
}
use he_thong_chung_minh_luu.Blob.{BlobHeader, build_namespace, bundle, protocol_version}
use he_thong_chung_minh_luu.Shard.{ShardResult, expected_from_registry, verify_shard}
use he_thong_chung_minh_luu.Da.{MemoryDa, advance, data_roots, read, submit}

-- `class SimDeal`
pub record SimDeal : Type 0 where
  pub deal_id : Bytes
  pub provider_id : Bytes
  pub provider_celestia : Bytes
  pub sealed_root : Bytes
  pub deadline_idx : ℕ
  pub shard : ℕ
  pub is_lost : Bool
  pub offline : Bool
  pub declared : Bool

-- `class SimNetwork`: the fields that the operations below use.
pub record SimNetwork : Type 0 where
  pub chain_id : ℕ
  pub sha_cycles : ℕ
  pub da : MemoryDa
  pub deals : List SimDeal
  pub signer_of : Dict Bytes Bytes
  pub clock : Clock

-- The entry and the record of a deal in `SimNetwork.registry`.
abbrev pub active_entry : SimDeal → MembershipEntry
active_entry d = record { kind = deal_active; a = d.deal_id; b = zeros 32 }

abbrev pub record_of : SimDeal → DealRecord
record_of d = record {
  provider_id = d.provider_id;
  deal_id = d.deal_id;
  sealed_root = d.sealed_root;
  deadline_idx = d.deadline_idx;
  shard = d.shard;
  declared_unavailable = d.declared;
}

-- `SimNetwork.registry`
abbrev pub registry : SimNetwork → ℕ → MembershipRegistry
registry net epoch = record {
  epoch = epoch;
  cut_height = net.da.height;
  entries = map active_entry net.deals;
  deals = map record_of net.deals;
}

-- `b"\xff" * BUNDLE_SIZE_BYTES`
unfoldable pub rubbish : Bytes
rubbish = replicate bundle_size_bytes 255

-- `d.sealed_root + bytes(size - 32)`
unfoldable pub padded_root : ℕ → Bytes → Bytes
padded_root size root = root ++ zeros (size - 32)

-- `payload` of `publish_bundles`
unfoldable pub payload_of : SimDeal → Bytes
unfolding rubbish padded_root
payload_of d = if d.is_lost then rubbish else padded_root bundle_size_bytes d.sealed_root

-- The header of `payload_len` bytes for a deal and deadline.
abbrev pub header_for : ℕ → SimDeal → ℕ → BlobHeader
header_for deadline_abs d n = record {
  kind = bundle;
  deadline = deadline_abs;
  shard = d.shard;
  provider_id = d.provider_id;
  deal_id = d.deal_id;
  payload_len = n;
  version = protocol_version;
}

-- `SimNetwork.publish_bundles`
unfoldable pub publish_bundles : ℕ → ℕ → List SimDeal → MemoryDa → Result MemoryDa
unfolding build_namespace submit payload_of
publish_bundles chain_id deadline_abs [] da = ok da
publish_bundles chain_id deadline_abs (d ∷ ds) da = elim d.offline [
  | true ↦ publish_bundles chain_id deadline_abs ds da
  | false ↦ do
    ns ← build_namespace bundle chain_id d.shard
    r ←
        submit ns (header_for deadline_abs d (length (payload_of d))) (payload_of d)
          d.provider_celestia da
    publish_bundles chain_id deadline_abs ds r.1
]

-- The deals of a deadline.
unfoldable pub due : ℕ → List SimDeal → List SimDeal
due d_idx deals = only (λ d. d.deadline_idx == d_idx) deals

module _ (sha3 : Digest) where
  -- `keccak(b"ATTACKER")[:20]`
  unfoldable pub attacker : Bytes
  unfolding keccak
  attacker = take 20 (keccak sha3 (codes "ATTACKER" ∷ []))

  -- `SimNetwork.publish_decoys`
  unfoldable pub publish_decoys : ℕ → ℕ → SimDeal → ℕ → MemoryDa → Result MemoryDa
  unfolding attacker rubbish
  publish_decoys chain_id deadline_abs target zero da = ok da
  publish_decoys chain_id deadline_abs target (suc n) da = do
    ns ← build_namespace bundle chain_id target.shard
    r ← submit ns (header_for deadline_abs target bundle_size_bytes) rubbish attacker da
    publish_decoys chain_id deadline_abs target n r.1

  -- `SimNetwork.beacon`
  unfoldable pub beacon : SimNetwork → Slot → Result Bytes
  unfolding beacon_heights data_roots derive_beacon
  beacon net slot = do
    roots ← data_roots sha3 (beacon_heights net.clock slot)
    ok (derive_beacon sha3 roots)

  -- The first half of `run_deadline`: the providers post, an attacker posts decoys for one deal, and
  -- the window passes.
  unfoldable pub publish_deadline : SimNetwork → ℕ → ℕ → SimDeal → ℕ → Result SimNetwork
  unfolding publish_bundles publish_decoys slot_at absolute_deadline due advance
  publish_deadline net epoch d_idx target n_decoys =
      let slot = slot_at net.clock epoch d_idx in
      let deadline_abs = absolute_deadline slot in
      do
        posted ←
            publish_bundles net.chain_id deadline_abs (due d_idx net.deals)
              (record net.da { height = slot.window_start })
        attacked ← publish_decoys net.chain_id deadline_abs target n_decoys posted
        ok (record net { da = (advance profile_sim.submit_window_blocks attacked).1 })

  -- What each worker of a shard computes in `run_deadline`.
  unfoldable pub judge_cell : SimNetwork → ℕ → ℕ → ℕ → Result ShardResult
  unfolding registry_snapshot expected_from_registry build_namespace read slot_at verify_shard
  judge_cell net epoch d_idx shard =
      let slot = slot_at net.clock epoch d_idx in
      let reg = registry net epoch in
      let sid = registry_snapshot sha3 reg in
      do
        expected ← expected_from_registry sha3 reg sid epoch d_idx shard
        ns ← build_namespace bundle net.chain_id shard
        let observed = read ns slot.window_start net.da.height net.da
        verify_shard sha3 epoch d_idx shard sid ns expected observed net.signer_of net.clock
            net.sha_cycles
