-- ===== src/Tests/Schedule.antt =====
-- The clock and the lottery of workers.
use mathlib.Core.List.{Perm, Mem, mem-cons_self}
use he_thong_chung_minh_luu.Prelude.{
  Bool, List, [], arith, false, if◌then◌else◌, length, min, none, none-ne-some, ok, refl, some,
  true, ℕ, ℕ_eq, ◌++◌, ◌+◌, ◌<◌, ◌==◌, ◌∷◌, ◌≡◌, ◌≤◌,
}
use he_thong_chung_minh_luu.Bytes.{bytes_eq}
use he_thong_chung_minh_luu.Config.{profile_production, profile_sim}
use he_thong_chung_minh_luu.Clock.{Clock, absolute_deadline, in_submit_window, slot_at, slot_of}
use he_thong_chung_minh_luu.Clock.Schedule.{IsSound, slot_of-slot_at}
use he_thong_chung_minh_luu.Lottery.{
  LotteryArgs, LotteryResult, LotteryStats, Store, WorkerEntry, cap_of, count_of, is_free, is_live,
  is_under, worker_lottery,
}
use he_thong_chung_minh_luu.Lottery.Places.{ready, worker_lottery-fills, worker_lottery-respects}
use he_thong_chung_minh_luu.Tests.Setting.{alice, cut_digest, value_or}
use he_thong_chung_minh_luu.Bytes.Struct.{join}
use he_thong_chung_minh_luu.Lottery.Suspension.{IsBound, next_epoch_forgets, record_all}

abbrev late_clock : Clock
late_clock = record { p = profile_sim; h0 = 1000 }

profile_sim-IsSound : IsSound profile_sim
profile_sim-IsSound = record {
  some_blocks = omega arith;
  some_deadlines = omega arith;
  window_fits = omega arith;
}

slot_of-slot_at_example :
    slot_of late_clock ((slot_at late_clock 2 1).open_height + 9) ≡ ok (slot_at late_clock 2 1)
slot_of-slot_at_example =
    slot_of-slot_at late_clock 2 1 9 profile_sim-IsSound (omega arith) (omega arith)

in_window_one : in_submit_window (slot_at late_clock 2 1) 1093 ≡ true
unfolding in_submit_window slot_at
in_window_one = refl

-- Two workers with equal stakes; the second is suspended until deadline 9.
abbrev worker_pool : Store
worker_pool w = record {
  worker_id = w ∷ [];
  stake_wei = 100;
  last_assigned_deadline = none;
  consecutive_misses = 0;
  suspended_until_deadline = if w == 1 then some 9 else none;
}

abbrev both : List ℕ
both = 0 ∷ 1 ∷ []

abbrev one_of_two : LotteryArgs
one_of_two = record {
  beacon = alice;
  shard = 3;
  deadline = 5;
  r = 1;
  total_cells = 4;
  cooldown = 2;
}

abbrev fresh_stats : LotteryStats
fresh_stats = record {
  pool = 0;
  dropped_suspended = 0;
  dropped_cooldown = 0;
  dropped_cap = 0;
  relaxed_cap = false;
  relaxed_cooldown = false;
  chosen = 0;
}

abbrev two_slots : ℕ → ℕ → ℕ → ℕ
two_slots cells workers r = 2

abbrev no_lottery : LotteryResult
no_lottery = record { chosen = []; assigned_count = []; store = worker_pool; stats = fresh_stats }

abbrev drawn_one : LotteryResult
unfolding worker_lottery
drawn_one =
    value_or no_lottery
      (worker_lottery cut_digest two_slots one_of_two worker_pool [] both fresh_stats)

drawn_one-ok :
    worker_lottery cut_digest two_slots one_of_two worker_pool [] both fresh_stats ≡ ok drawn_one
unfolding worker_lottery join
drawn_one-ok = refl

first_drawn : Mem 0 drawn_one.chosen
unfolding worker_lottery join
first_drawn = mem-cons_self

first_ready : 1 ≤ length (ready cut_digest two_slots one_of_two worker_pool [] both)
unfolding ready count_of
first_ready = omega arith

worker_lottery-fills_example :
    (out : LotteryResult) × (worker_lottery cut_digest two_slots one_of_two worker_pool [] both
        fresh_stats
      ≡ ok out)
    × (length out.chosen ≡ min 1 (length both))
    × ((others : List ℕ) × Perm (out.chosen ++ others) both)
    × (length both ≤ 1 → Perm out.chosen both)
worker_lottery-fills_example =
    worker_lottery-fills cut_digest two_slots one_of_two worker_pool [] both fresh_stats
      (omega arith) (omega arith)

worker_lottery-respects_example :
    (is_live (worker_pool 0) 5 ≡ true)
    × (is_free (worker_pool 0) 5 2 ≡ true)
    × (is_under [] (cap_of cut_digest two_slots one_of_two both) (worker_pool 0) ≡ true)
worker_lottery-respects_example =
    worker_lottery-respects cut_digest two_slots one_of_two worker_pool [] both fresh_stats
      drawn_one 0 (omega arith) (omega arith) drawn_one-ok first_ready first_drawn

-- Three missed jobs at the end of an epoch of 48 deadlines.
abbrev idle_worker : WorkerEntry
idle_worker = record {
  worker_id = [];
  stake_wei = 1;
  last_assigned_deadline = none;
  consecutive_misses = 0;
  suspended_until_deadline = none;
}

abbrev production : Clock
production = record { p = profile_production; h0 = 1000 }

abbrev three_misses : List (Bool × ℕ)
three_misses = (false, 45) ∷ (false, 46) ∷ (false, 47) ∷ []

-- Within an epoch the suspension would last for eight deadlines.
suspended_there : is_live (record_all idle_worker three_misses 3 8) 54 ≡ false
unfolding is_live record_all
suspended_there = refl

idle_worker-IsBound : IsBound idle_worker 1000000
idle_worker-IsBound until e = absurd (none-ne-some e)

next_epoch_forgets_example :
    (is_live (record_all idle_worker three_misses 3 8) (absolute_deadline (slot_at production 1 0))
      ≡ true)
    × ((i : ℕ)
        → i < 48
        → is_free
            (record idle_worker {
              last_assigned_deadline = some (absolute_deadline (slot_at production 0 i));
            })
            (absolute_deadline (slot_at production 1 0))
            6
          ≡ true)
next_epoch_forgets_example =
    next_epoch_forgets production 0 idle_worker three_misses 3 8 6 idle_worker-IsBound
      (omega arith, (omega arith, (omega arith, tt))) (omega arith) (omega arith)
