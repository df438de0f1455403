-- ===== src/Seal.antt =====
-- `provider/src/provider/sealing.py`: the two algorithms that seal a sector. The hash of several
-- parts stands for `poseidon2_stub`; the modelled duration of a sealing is left out.
pub mod Chain
pub mod Wide
use he_thong_chung_minh_luu.Prelude.{
  List, Result, [], drop, length, ok, raise_if, suc, take, value_error, zero, ℕ, ◌%◌, ◌*◌, ◌++◌,
  ◌+◌, ◌-◌, ◌/◌, ◌==◌, ◌>>=◌, ◌>>◌, ◌∷◌,
}
use he_thong_chung_minh_luu.Bytes.{Bytes, codes, from_bytes_le, to_bytes_le}
use he_thong_chung_minh_luu.Crypto.{Hasher, item_at, keccak, merkle_root}
use he_thong_chung_minh_luu.Config.{seal_fanin_phi}

-- `class SealResult`, less the duration.
pub record SealResult : Type 0 where
  pub sealed_root : Bytes
  pub s_chain : List Bytes
  pub r_values : List Bytes

-- The lists that the loop of a sealing extends.
pub record Trace : Type 0 where
  pub s_values : List Bytes
  pub r_values : List Bytes
  pub leaves : List Bytes

abbrev pub no_trace : Trace
no_trace = record { s_values = []; r_values = []; leaves = [] }

-- The number of pieces in `range(0, len(b), size)`.
abbrev pub pieces : ℕ → ℕ → ℕ
pieces len size = (len + size - 1) / size

-- `derive_replica_id`
unfoldable pub derive_replica_id : Hasher → Bytes → Bytes → Bytes → Bytes → Bytes
derive_replica_id keccak provider_id deal_id piece_root activation_beacon =
    keccak (codes "ENGRAM_REPLICA_V1" ∷ provider_id ∷ deal_id ∷ piece_root ∷ activation_beacon ∷ [])

-- `len(chunks[0]) if chunks else 0`
abbrev pub first_size : List Bytes → ℕ
first_size [] = 0
first_size (c ∷ cs) = length c

-- `[s_chain[pos] for pos in positions]`
unfoldable pub links_at : List Bytes → List ℕ → Result (List Bytes)
unfolding item_at
links_at s_chain [] = ok []
links_at s_chain (p ∷ ps) = do s ← item_at s_chain p; rest ← links_at s_chain ps; ok (s ∷ rest)

module _ (hasher : Hasher) where
  -- The loop over `n` pieces of `size` bytes.
  unfoldable pub absorb : ℕ → ℕ → Bytes → Bytes → Bytes
  absorb size zero b acc = acc
  absorb size (suc n) b acc = absorb size n (drop size b) (hasher (acc ∷ take size b ∷ []))

  -- `_fold_limbs` with its default rate of 31 bytes.
  unfoldable pub fold_limbs : Bytes → ℕ → Result Bytes
  unfolding absorb to_bytes_le
  fold_limbs chunk chunk_size = do
    le ← to_bytes_le 8 chunk_size
    ok (absorb 31 (pieces (length chunk) 31) chunk (hasher (le ∷ [])))

  -- One turn of the loop of `seal`: `R_i` and `S_i`.
  unfoldable pub seal_step : ℕ → Bytes → ℕ → Bytes → Bytes → Result (Bytes × Bytes)
  unfolding fold_limbs
  seal_step chunk_size replica_id i s_prev chunk = do
    d ← fold_limbs chunk chunk_size
    le ← to_bytes_le 8 i
    let r = hasher (hasher (d ∷ s_prev ∷ []) ∷ hasher (le ∷ replica_id ∷ []) ∷ [])
    ok (r, hasher (s_prev ∷ r ∷ []))

  -- The trace with one more link in front.
  abbrev pub linked : Bytes × Bytes → Trace → Trace
  linked (r, s) t = record {
    s_values = s ∷ t.s_values;
    r_values = r ∷ t.r_values;
    leaves = hasher (r ∷ s ∷ []) ∷ t.leaves;
  }

  -- The loop of `seal` from chunk `i` on, after the link `s_prev`.
  unfoldable pub seal_loop : ℕ → Bytes → ℕ → Bytes → List Bytes → Result Trace
  unfolding seal_step
  seal_loop chunk_size replica_id i s_prev [] = ok no_trace
  seal_loop chunk_size replica_id i s_prev (chunk ∷ chunks) = do
    link ← seal_step chunk_size replica_id i s_prev chunk
    rest ← seal_loop chunk_size replica_id (i + 1) link.1 chunks
    ok (linked link rest)

  abbrev pub result_of : Trace → SealResult
  result_of t = record {
    sealed_root = merkle_root hasher t.leaves;
    s_chain = t.s_values;
    r_values = t.r_values;
  }

  -- `seal`
  unfoldable pub seal : List Bytes → Bytes → Result SealResult
  unfolding seal_loop
  seal chunks replica_id = do
    t ← seal_loop (first_size chunks) replica_id 0 replica_id chunks
    ok (result_of t)

  -- The loop of `fanin_positions` over `n` values of `t`, from `t` on.
  unfoldable pub fanin_loop : Bytes → Bytes → ℕ → ℕ → ℕ → Result (List ℕ)
  fanin_loop le replica_id i t zero = ok []
  fanin_loop le replica_id i t (suc n) = do
    two ← to_bytes_le 2 t
    rest ← fanin_loop le replica_id i (t + 1) n
    ok (from_bytes_le (take 8 (hasher (replica_id ∷ le ∷ two ∷ []))) % i ∷ rest)

  -- `fanin_positions`
  unfoldable pub fanin_positions : ℕ → Bytes → ℕ → Result (List ℕ)
  unfolding fanin_loop
  fanin_positions zero replica_id phi = ok []
  fanin_positions (suc k) replica_id phi = do
    le ← to_bytes_le 8 (suc k)
    fanin_loop le replica_id (suc k) 0 (phi - 1)

  -- One turn of the loop of `seal_seqwide`.
  unfoldable pub wide_step : ℕ → Bytes → List Bytes → ℕ → Bytes → Bytes → Result (Bytes × Bytes)
  unfolding fanin_positions links_at
  wide_step rate replica_id s_chain i s_prev chunk = do
    ps ← fanin_positions i replica_id seal_fanin_phi
    links ← links_at s_chain ps
    le ← to_bytes_le 8 i
    raise_if (rate == 0) value_error
    let seed = hasher (s_prev ∷ (links ++ le ∷ replica_id ∷ []))
    let r = absorb (31 * rate) (pieces (length chunk) (31 * rate)) chunk seed
    ok (r, hasher (s_prev ∷ r ∷ []))

  -- The loop of `seal_seqwide`, with the links made so far.
  unfoldable pub wide_loop : ℕ → Bytes → List Bytes → ℕ → Bytes → List Bytes → Result Trace
  unfolding wide_step
  wide_loop rate replica_id s_chain i s_prev [] = ok no_trace
  wide_loop rate replica_id s_chain i s_prev (chunk ∷ chunks) = do
    link ← wide_step rate replica_id s_chain i s_prev chunk
    rest ← wide_loop rate replica_id (s_chain ++ link.1 ∷ []) (i + 1) link.1 chunks
    ok (linked link rest)

  -- `seal_seqwide`
  unfoldable pub seal_seqwide : List Bytes → Bytes → ℕ → Result SealResult
  unfolding wide_loop
  seal_seqwide chunks replica_id rate = do
    t ← wide_loop rate replica_id [] 0 replica_id chunks
    ok (result_of t)
