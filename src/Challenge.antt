-- ===== src/Challenge.antt =====
-- The derivations of `common/src/engram_common/crypto.py`: the positions that a deal is challenged at,
-- and the shard, the deadline and the beacon that follow from digests.
pub mod Spread
use he_thong_chung_minh_luu.Prelude.{
  List, Result, [], if◌then◌else◌, max, min, ok, suc, take, zero, ℕ, ℕ_eq, ◌%◌, ◌*◌, ◌+◌, ◌-◌, ◌/◌,
  ◌==◌, ◌>>=◌, ◌||◌, ◌∷◌,
}
use he_thong_chung_minh_luu.Bytes.{Bytes, codes, from_bytes_le, to_bytes_le}
use he_thong_chung_minh_luu.Crypto.{Digest, keccak, poseidon2_stub}

-- `int.from_bytes(d[:8], "little")`
unfoldable pub head_number : Bytes → ℕ
unfolding from_bytes_le
head_number d = from_bytes_le (take 8 d)

module _ (blake : Digest) where
  -- Round `i` of the loop of `spread_challenge`.
  unfoldable pub challenge_at : Bytes → Bytes → ℕ → ℕ → ℕ → ℕ → Result ℕ
  unfolding to_bytes_le poseidon2_stub head_number
  challenge_at beacon deal_id offset count_chunks bucket i = do
    b ← to_bytes_le 4 i
    let seed = poseidon2_stub blake (beacon ∷ deal_id ∷ b ∷ [])
    let pos = offset + i * bucket + head_number seed % bucket
    ok (min pos (offset + count_chunks - 1))

  -- `n` rounds from round `i` on.
  unfoldable pub spread_loop : Bytes → Bytes → ℕ → ℕ → ℕ → ℕ → ℕ → Result (List ℕ)
  unfolding challenge_at
  spread_loop beacon deal_id offset count_chunks bucket i zero = ok []
  spread_loop beacon deal_id offset count_chunks bucket i (suc n) =
      let rest = spread_loop beacon deal_id offset count_chunks bucket (i + 1) n in
      do j ← challenge_at beacon deal_id offset count_chunks bucket i; js ← rest; ok (j ∷ js)

  -- `spread_challenge`
  unfoldable pub spread_challenge : Bytes → Bytes → ℕ → ℕ → ℕ → Result (List ℕ)
  unfolding spread_loop
  spread_challenge beacon deal_id count_challenges offset count_chunks =
      if count_challenges == 0 || count_chunks == 0
      then ok []
      else let bucket = max 1 (count_chunks / count_challenges) in
        spread_loop beacon deal_id offset count_chunks bucket 0 count_challenges

module _ (sha3 : Digest) where
  -- `derive_shard`
  unfoldable pub derive_shard : Bytes → ℕ → ℕ
  unfolding keccak head_number
  derive_shard deal_id n_shards = head_number (keccak sha3 (deal_id ∷ [])) % max 1 n_shards

  -- `derive_deadline`
  unfoldable pub derive_deadline : Bytes → ℕ → ℕ
  unfolding keccak head_number
  derive_deadline deal_id deadlines_per_epoch =
      head_number (keccak sha3 (codes "ENGRAM_DEADLINE" ∷ deal_id ∷ [])) % max 1 deadlines_per_epoch

  -- `derive_beacon`
  unfoldable pub derive_beacon : List Bytes → Bytes
  unfolding keccak
  derive_beacon data_roots = keccak sha3 data_roots
