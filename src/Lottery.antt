-- ===== src/Lottery.antt =====
-- `worker/src/worker/lottery.py`: the draw of the workers of a shard, and the record of who delivers.
-- The entries of the pool are shared objects: a reference is a number, and the store maps it to the
-- entry. The two deadlines that start below zero are `none` until they are first set. The cap is
-- computed in floating point, and is a parameter.
pub mod Draw
pub mod Filters
pub mod Places
pub mod Suspension
use he_thong_chung_minh_luu.Prelude.{
  Bool, List, Option, Result, [], before, err, if◌then◌else◌, index_error, leb, length, ltb, max,
  min, none, ok, some, suc, take, true, zero, ℕ, ℕ_eq, ◌%◌, ◌*◌, ◌++◌, ◌+◌, ◌-◌, ◌/◌, ◌==◌, ◌>>=◌,
  ◌||◌, ◌∷◌,
}
use he_thong_chung_minh_luu.Bytes.{Bytes, bytes_eq, from_bytes_le, to_bytes_le}
use he_thong_chung_minh_luu.Dict.{Dict, insert, lookup}
use he_thong_chung_minh_luu.Crypto.{Digest, keccak}

pub record WorkerEntry : Type 0 where
  pub worker_id : Bytes
  pub stake_wei : ℕ
  pub last_assigned_deadline : Option ℕ
  pub consecutive_misses : ℕ
  pub suspended_until_deadline : Option ℕ

abbrev pub Store : Type 0
Store = ℕ → WorkerEntry

unfoldable pub write : Store → ℕ → WorkerEntry → Store
write s w e v = if v == w then e else s v

-- `WorkerEntry.is_live`, where the initial value is -1.
unfoldable pub is_live : WorkerEntry → ℕ → Bool
is_live e deadline = elim e.suspended_until_deadline [
  | none ↦ true
  | some until ↦ leb until deadline
]

-- `WorkerEntry.is_free`, where the initial value is -10^9.
unfoldable pub is_free : WorkerEntry → ℕ → ℕ → Bool
is_free e deadline cooldown = elim e.last_assigned_deadline [
  | none ↦ leb (cooldown + 1) (deadline + 1000000000)
  | some last ↦ leb (last + cooldown + 1) deadline
]

pub record LotteryStats : Type 0 where
  pub pool : ℕ
  pub dropped_suspended : ℕ
  pub dropped_cooldown : ℕ
  pub dropped_cap : ℕ
  pub relaxed_cap : Bool
  pub relaxed_cooldown : Bool
  pub chosen : ℕ

-- `required_workers`
unfoldable pub required_workers : ℕ → ℕ → ℕ → ℕ
required_workers n_shards r cooldown = n_shards * r * (cooldown + 1)

-- `[w for w in ws if p(w)]`
unfoldable pub keep : (ℕ → Bool) → List ℕ → List ℕ
keep p [] = []
keep p (w ∷ ws) = if p w then w ∷ keep p ws else keep p ws

-- The list kept by a filter, or the one before it where fewer than `r` are kept.
unfoldable pub relax : ℕ → List ℕ → List ℕ → List ℕ
relax r before kept = if ltb (length kept) r then before else kept

-- `assigned_count.get(w.worker_id, 0)`
unfoldable pub count_of : Dict Bytes ℕ → Bytes → ℕ
unfolding lookup
count_of d k = elim (lookup k d) [ none ↦ 0 | some n ↦ n ]

abbrev pub is_under : Dict Bytes ℕ → ℕ → WorkerEntry → Bool
is_under assigned cap e = ltb (count_of assigned e.worker_id) cap

-- `sum(w.stake_wei for w in ws)`
unfoldable pub stakes : Store → List ℕ → ℕ
stakes s [] = 0
stakes s (w ∷ ws) = (s w).stake_wei + stakes s ws

-- The inner loop of the draw: the worker at which the running sum passes `x`, and the others.
unfoldable pub pick : Store → ℕ → ℕ → List ℕ → Option (ℕ × List ℕ)
pick s x acc [] = none
pick s x acc (w ∷ ws) =
    let rest = pick s x (acc + (s w).stake_wei) ws in
    if ltb x (acc + (s w).stake_wei)
    then some (w, ws)
    else elim rest [ none ↦ none | some (v, others) ↦ some (v, w ∷ others) ]

module _ (sha3 : Digest) where
  -- `int.from_bytes(keccak(...)[:16], "little")` for round `i`
  unfoldable pub ticket : Bytes → ℕ → ℕ → Result ℕ
  unfolding to_bytes_le keccak from_bytes_le
  ticket beacon shard i = do
    s ← to_bytes_le 4 shard
    j ← to_bytes_le 2 i
    ok (from_bytes_le (take 16 (keccak sha3 (beacon ∷ s ∷ j ∷ []))))

  -- `n` rounds of the draw from round `i` on: the chosen and the remaining workers.
  unfoldable pub draw : Store → Bytes → ℕ → ℕ → ℕ → List ℕ → List ℕ → Result (List ℕ × List ℕ)
  unfolding stakes ticket pick
  draw s beacon shard i zero chosen remaining = ok (chosen, remaining)
  draw s beacon shard i (suc n) chosen [] = err index_error
  draw s beacon shard i (suc n) chosen (w ∷ ws) =
      let first = draw s beacon shard (i + 1) n (chosen ++ w ∷ []) ws in
      if stakes s (w ∷ ws) == 0
      then first
      else ticket beacon shard i >>= λ t. elim (pick s (t % stakes s (w ∷ ws)) 0 (w ∷ ws)) [
        | none ↦ draw s beacon shard (i + 1) n chosen (w ∷ ws)
        | some (v, others) ↦ draw s beacon shard (i + 1) n (chosen ++ v ∷ []) others
      ]

-- The last loop: the counts and the rotation of the chosen workers.
unfoldable pub assign_all : ℕ → List ℕ → Dict Bytes ℕ × Store → Dict Bytes ℕ × Store
unfolding insert count_of write
assign_all deadline [] acc = acc
assign_all deadline (w ∷ ws) (assigned, s) =
    let id = (s w).worker_id in
    assign_all deadline ws (
      insert id (count_of assigned id + 1) assigned,
      write s w (record (s w) { last_assigned_deadline = some deadline }),
    )

pub record LotteryArgs : Type 0 where
  pub beacon : Bytes
  pub shard : ℕ
  pub deadline : ℕ
  pub r : ℕ
  pub total_cells : ℕ
  pub cooldown : ℕ

-- What `worker_lottery` returns, and what it leaves in the objects that it changes.
pub record LotteryResult : Type 0 where
  pub chosen : List ℕ
  pub assigned_count : Dict Bytes ℕ
  pub store : Store
  pub stats : LotteryStats

module _ (sha3 : Digest) (slots : ℕ → ℕ → ℕ → ℕ) where
  -- `cap`; `slots` is `int(total_cells * adaptive_cap_ratio(len(pool), r))`.
  unfoldable pub cap_of : LotteryArgs → List ℕ → ℕ
  cap_of a pool = max 1 (slots a.total_cells (length pool) a.r)

  -- The three filters, each undone where it leaves fewer than `r` workers.
  unfoldable pub live_of : LotteryArgs → Store → List ℕ → List ℕ
  unfolding keep is_live relax
  live_of a s pool = relax a.r pool (keep (λ w. is_live (s w) a.deadline) pool)

  unfoldable pub free_of : LotteryArgs → Store → List ℕ → List ℕ
  unfolding keep is_free relax
  free_of a s live = relax a.r live (keep (λ w. is_free (s w) a.deadline a.cooldown) live)

  unfoldable pub eligible_of : LotteryArgs → Store → Dict Bytes ℕ → ℕ → List ℕ → List ℕ
  unfolding keep relax
  eligible_of a s assigned cap free = relax a.r free (keep (λ w. is_under assigned cap (s w)) free)

  -- What is left when the draw is done: the counts, the rotation and the statistics.
  unfoldable pub finish_lottery :
      LotteryArgs → Store → Dict Bytes ℕ → List ℕ → LotteryStats → List ℕ → LotteryResult
  unfolding live_of free_of assign_all cap_of keep is_live is_free
  finish_lottery a s assigned pool st drawn =
      let live = live_of a s pool in
      let free = free_of a s live in
      let done = assign_all a.deadline drawn (assigned, s) in
      let n_live = length (keep (λ v. is_live (s v) a.deadline) pool) in
      let n_free = length (keep (λ v. is_free (s v) a.deadline a.cooldown) live) in
      let n_under = length (keep (λ v. is_under assigned (cap_of a pool) (s v)) free) in
      record {
        chosen = drawn;
        assigned_count = done.0;
        store = done.1;
        stats = record {
          pool = length pool;
          dropped_suspended = length pool - n_live;
          dropped_cooldown = length live - n_free;
          dropped_cap = length free - n_under;
          relaxed_cap = ltb n_under a.r || st.relaxed_cap;
          relaxed_cooldown = ltb n_free a.r || st.relaxed_cooldown;
          chosen = length drawn;
        };
      }

  -- `worker_lottery`
  unfoldable pub worker_lottery :
      LotteryArgs → Store → Dict Bytes ℕ → List ℕ → LotteryStats → Result LotteryResult
  unfolding live_of free_of eligible_of draw cap_of finish_lottery
  worker_lottery a s assigned [] st =
      ok (record {
        chosen = [];
        assigned_count = assigned;
        store = s;
        stats = record st { pool = 0 };
      })
  worker_lottery a s assigned (w ∷ ws) st = do
    let pool = w ∷ ws
    let live = live_of a s pool
    let free = free_of a s live
    let eligible = eligible_of a s assigned (cap_of a pool) free
    drawn ← draw sha3 s a.beacon a.shard 0 (min a.r (length eligible)) [] eligible
    ok (finish_lottery a s assigned pool st drawn.0)

-- `absence_penalty_wei`
unfoldable pub absence_penalty_wei : ℕ → ℕ → ℕ → ℕ → ℕ
absence_penalty_wei deals_in_cell price_per_epoch_wei deadlines_per_epoch floor_wei =
    max (deals_in_cell * price_per_epoch_wei / max 1 deadlines_per_epoch) floor_wei

-- `record_outcome`
unfoldable pub record_outcome : WorkerEntry → Bool → ℕ → ℕ → ℕ → WorkerEntry
record_outcome w delivered deadline miss_threshold suspension =
    if delivered
    then record w { consecutive_misses = 0 }
    else if leb miss_threshold (w.consecutive_misses + 1)
    then record w {
      suspended_until_deadline = some (deadline + suspension);
      consecutive_misses = 0;
    }
    else record w { consecutive_misses = w.consecutive_misses + 1 }
