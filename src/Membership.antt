-- ===== src/Membership.antt =====
-- `common/src/engram_common/membership.py`: the membership log, its replay to a `snapshot_id`, the
-- list of deals that a cell expects, and the gate that compares the log with the chain.
pub mod Binding
pub mod Gate
pub mod Expected
use he_thong_chung_minh_luu.Prelude.{
  Bool, List, Result, [], eqb, err, if◌then◌else◌, lex, list_ord, not, ok, pair_ord,
  snapshot_mismatch, ℕ, ℕ_eq, ℕ_ord, ◌&&◌, ◌==◌, ◌∷◌,
}
use he_thong_chung_minh_luu.Bytes.{Bytes, bytes_eq, codes, ljust, rjust, zeros}
use he_thong_chung_minh_luu.Sort.{sort_by}
use he_thong_chung_minh_luu.Crypto.{Digest, keccak}

-- `class MembershipKind`
pub data MembershipKind : Type 0 where
  provider deal_open deal_active deal_closed : MembershipKind

-- The bytes of `b"PROVIDER"`, `b"DEAL_OPEN"`, `b"DEAL_ACTIVE"` and `b"DEAL_CLOSED"`.
unfoldable pub kind_value : MembershipKind → Bytes
kind_value provider = codes "PROVIDER"
kind_value deal_open = codes "DEAL_OPEN"
kind_value deal_active = codes "DEAL_ACTIVE"
kind_value deal_closed = codes "DEAL_CLOSED"

-- `as_bytes32`
unfoldable pub as_bytes32 : MembershipKind → Bytes
unfolding kind_value ljust
as_bytes32 k = ljust 32 (kind_value k)

pub record MembershipEntry : Type 0 where
  pub kind : MembershipKind
  pub a : Bytes
  pub b : Bytes

pub record DealRecord : Type 0 where
  pub provider_id : Bytes
  pub deal_id : Bytes
  pub sealed_root : Bytes
  pub deadline_idx : ℕ
  pub shard : ℕ
  pub declared_unavailable : Bool

pub record MembershipRegistry : Type 0 where
  pub epoch : ℕ
  pub cut_height : ℕ
  pub entries : List MembershipEntry
  pub deals : List DealRecord

module _ (sha3 : Digest) where
  -- One round of `replay`.
  unfoldable pub log_entry : Bytes → MembershipEntry → Bytes
  unfolding keccak as_bytes32 rjust
  log_entry log e = keccak sha3 (log ∷ as_bytes32 e.kind ∷ rjust 32 e.a ∷ rjust 32 e.b ∷ [])

  unfoldable pub replay : List MembershipEntry → Bytes → Bytes
  unfolding log_entry
  replay [] log = log
  replay (e ∷ es) log = replay es (log_entry log e)

  -- `MembershipRegistry.snapshot_id`
  unfoldable pub registry_snapshot : MembershipRegistry → Bytes
  unfolding replay
  registry_snapshot r = replay r.entries (zeros 32)

  -- `verify_registry`
  unfoldable pub verify_registry : MembershipRegistry → Bytes → ℕ → Result (Unit {0})
  unfolding registry_snapshot
  verify_registry r onchain_snapshot_id epoch =
      if not (r.epoch == epoch)
      then err snapshot_mismatch
      else if not (eqb (registry_snapshot r) onchain_snapshot_id)
      then err snapshot_mismatch
      else ok tt

-- The test in the comprehension of `expected_for`.
abbrev pub in_cell : ℕ → ℕ → DealRecord → Bool
in_cell deadline_idx shard d = d.deadline_idx == deadline_idx && d.shard == shard

unfoldable pub select : (DealRecord → Bool) → List DealRecord → List DealRecord
select p [] = []
select p (d ∷ ds) = if p d then d ∷ select p ds else select p ds

abbrev pub deal_key : DealRecord → Bytes × Bytes
deal_key d = (d.provider_id, d.deal_id)

-- `MembershipRegistry.expected_for`
unfoldable pub expected_for : MembershipRegistry → ℕ → ℕ → List DealRecord
unfolding select sort_by lex
expected_for r deadline_idx shard = sort_by deal_key (select (in_cell deadline_idx shard) r.deals)
