-- ===== src/Config.antt =====
-- `common/src/engram_common/constants.py`: the constants that the modelled parts compute with, and
-- the timing profile.
use he_thong_chung_minh_luu.Prelude.{if◌then◌else◌, max, ℕ, ◌*◌, ◌+◌, ◌/◌, ◌==◌}

-- `class TimingProfile`, without its display name.
pub record TimingProfile : Type 0 where
  pub deadline_len_blocks : ℕ
  pub deadlines_per_epoch : ℕ
  pub submit_window_blocks : ℕ
  pub beacon_delay_blocks : ℕ
  pub beacon_mix_blocks : ℕ

abbrev pub profile_sim : TimingProfile
profile_sim = record {
  deadline_len_blocks = 10;
  deadlines_per_epoch = 4;
  submit_window_blocks = 6;
  beacon_delay_blocks = 2;
  beacon_mix_blocks = 4;
}

abbrev pub profile_production : TimingProfile
profile_production = record {
  deadline_len_blocks = 300;
  deadlines_per_epoch = 48;
  submit_window_blocks = 200;
  beacon_delay_blocks = 5;
  beacon_mix_blocks = 4;
}

-- `TimingProfile.epoch_len_blocks`
unfoldable pub epoch_len_blocks : TimingProfile → ℕ
epoch_len_blocks p = p.deadline_len_blocks * p.deadlines_per_epoch

abbrev pub chunk_size_bytes : ℕ
chunk_size_bytes = 4096

-- `class SectorProfile`, without its name.
pub record SectorProfile : Type 0 where
  pub chunks : ℕ

-- `SectorProfile.bytes_` and `SectorProfile.seal_form_bytes`
abbrev pub profile_bytes : SectorProfile → ℕ
profile_bytes p = p.chunks * chunk_size_bytes

abbrev pub profile_seal_form_bytes : SectorProfile → ℕ
profile_seal_form_bytes p = p.chunks * 64

-- `SECTOR_PROFILES`
abbrev pub sector_tiny : SectorProfile
sector_tiny = record { chunks = 1024 }

abbrev pub sector_small : SectorProfile
sector_small = record { chunks = 16384 }

abbrev pub sector_medium : SectorProfile
sector_medium = record { chunks = 262144 }

abbrev pub sector_production : SectorProfile
sector_production = record { chunks = 8388608 }

-- `SEAL_RATE` and `SEAL_FANIN_PHI`
abbrev pub seal_rate : ℕ
seal_rate = 4

abbrev pub seal_fanin_phi : ℕ
seal_fanin_phi = 6

abbrev pub share_size : ℕ
share_size = 512

abbrev pub namespace_size : ℕ
namespace_size = 29

-- 512 - 29 - 1 - 4 - 20 and 512 - 29 - 1
abbrev pub first_share_payload_v1 : ℕ
first_share_payload_v1 = 458

abbrev pub cont_share_payload : ℕ
cont_share_payload = 482

abbrev pub data_square_roots_max : ℕ
data_square_roots_max = 2048

abbrev pub coverage_sha256_per_window : ℕ
coverage_sha256_per_window = 411200

abbrev pub square_saturated_min_roots : ℕ
square_saturated_min_roots = 1024

abbrev pub window_saturation_threshold : ℕ
window_saturation_threshold = 179

abbrev pub bundle_size_bytes : ℕ
bundle_size_bytes = 13776

abbrev pub groth16_proof_bytes : ℕ
groth16_proof_bytes = 356

abbrev pub zkvm_fixed_cost_f : ℕ
zkvm_fixed_cost_f = 45111000000

abbrev pub zkvm_marginal_cost_m : ℕ
zkvm_marginal_cost_m = 11254700000

-- `recommended_shard_count`
unfoldable pub recommended_shard_count : ℕ → ℕ → ℕ
recommended_shard_count n_deals deadlines_per_epoch =
    if n_deals == 0 then 1 else max 1 (n_deals / 20 / max 1 deadlines_per_epoch)

-- `shard_cycles` of `costs.py`, with the cost of the coverage proof.
unfoldable pub shard_cycles : ℕ → ℕ → ℕ
shard_cycles n_bundles sha_cycles =
    zkvm_fixed_cost_f + zkvm_marginal_cost_m * n_bundles + coverage_sha256_per_window * sha_cycles
