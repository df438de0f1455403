-- ===== src/Lottery/Suspension.antt =====
-- The record of missed work over many deadlines, and what it is worth at the turn of an epoch, where
-- `run_deadline` of `orchestrator/src/orchestrator/scenarios.py` counts in absolute deadlines.
use he_thong_chung_minh_luu.Prelude.{
  All, All-map, Bool, Bool-cases, List, Option-cases, [], ap, arith, false, inl, inr, leb, le→leb,
  refl, some, some_inj, sym, true, ℕ, ◌*◌, ◌+◌, ◌<◌, ◌∙◌, ◌∷◌, ◌≡◌, ◌≤◌,
}
use he_thong_chung_minh_luu.Clock.{Clock, absolute_deadline, slot_at}
use he_thong_chung_minh_luu.Lottery.{WorkerEntry, is_free, is_live, record_outcome}

-- `DEFAULT_MISS_THRESHOLD` and `DEFAULT_SUSPENSION_DEADLINES`
abbrev pub default_miss_threshold : ℕ
default_miss_threshold = 3

abbrev pub default_suspension_deadlines : ℕ
default_suspension_deadlines = 8

-- The outcomes of a worker's jobs: whether it delivered, and the deadline.
unfoldable pub record_all : WorkerEntry → List (Bool × ℕ) → ℕ → ℕ → WorkerEntry
unfolding record_outcome
record_all w [] threshold suspension = w
record_all w ((delivered, deadline) ∷ os) threshold suspension =
    record_all (record_outcome w delivered deadline threshold suspension) os threshold suspension

-- The counter stays below the threshold.
record_all_misses :
    (w : WorkerEntry) (os : List (Bool × ℕ)) (threshold suspension : ℕ)
    → w.consecutive_misses < threshold
    → (record_all w os threshold suspension).consecutive_misses < threshold
unfolding record_all record_outcome
record_all_misses w [] threshold suspension h = h
record_all_misses w ((delivered, deadline) ∷ os) threshold suspension h =
    record_all_misses (record_outcome w delivered deadline threshold suspension) os threshold
      suspension (ground arith)

-- Nobody is suspended beyond the last of its jobs and the suspension behind it.
abbrev pub IsBound : WorkerEntry → ℕ → Type 0
IsBound w top = (until : ℕ) → w.suspended_until_deadline ≡ some until → until ≤ top

miss_late :
    (w : WorkerEntry) (deadline threshold suspension : ℕ)
    → leb threshold (w.consecutive_misses + 1) ≡ true
    → record_outcome w false deadline threshold suspension
      ≡ record w { suspended_until_deadline = some (deadline + suspension); consecutive_misses = 0 }
unfolding record_outcome
miss_late w deadline threshold suspension h = rw h refl

miss_early :
    (w : WorkerEntry) (deadline threshold suspension : ℕ)
    → leb threshold (w.consecutive_misses + 1) ≡ false
    → record_outcome w false deadline threshold suspension
      ≡ record w { consecutive_misses = w.consecutive_misses + 1 }
unfolding record_outcome
miss_early w deadline threshold suspension h = rw h refl

record_outcome-IsBound :
    (w : WorkerEntry) (delivered : Bool) (deadline threshold suspension top : ℕ)
    → deadline + suspension ≤ top
    → IsBound w top
    → IsBound (record_outcome w delivered deadline threshold suspension) top
unfolding record_outcome
record_outcome-IsBound w true deadline threshold suspension top h b until e = b until e
record_outcome-IsBound w false deadline threshold suspension top h b until e =
    elim (Bool-cases (leb threshold (w.consecutive_misses + 1))) [
      | inl late ↦
          let q : deadline + suspension ≡ until = some_inj (
            ap (λ x. x.suspended_until_deadline)
              (sym (miss_late w deadline threshold suspension late))
            ∙ e) in
          omega arith
      | inr early ↦ b until (
          ap (λ x. x.suspended_until_deadline)
            (sym (miss_early w deadline threshold suspension early))
          ∙ e)
    ]

pub record_all-IsBound :
    (w : WorkerEntry) (os : List (Bool × ℕ)) (threshold suspension top : ℕ)
    → All (λ o. o.1 + suspension ≤ top) os
    → IsBound w top
    → IsBound (record_all w os threshold suspension) top
unfolding record_all
record_all-IsBound w [] threshold suspension top a b = b
record_all-IsBound w ((delivered, deadline) ∷ os) threshold suspension top a b =
    record_all-IsBound (record_outcome w delivered deadline threshold suspension) os threshold
      suspension top a.1
      (record_outcome-IsBound w delivered deadline threshold suspension top a.0 b)

bound_live :
    (w : WorkerEntry) (top deadline : ℕ)
    → IsBound w top
    → top ≤ deadline
    → is_live w deadline ≡ true
unfolding is_live
bound_live w top deadline b h = elim (Option-cases w.suspended_until_deadline) [
  | inl never ↦ rw (never, is_live) refl
  | inr (until, e) ↦ rw (e, is_live) (le→leb until deadline (omega (arith, b until e)))
]

-- Where the deadlines of an epoch with a suspension or a cooldown are fewer than a million, nothing
-- is carried over to the next epoch: a worker that is not suspended beyond its start before, and then
-- misses whatever it misses, is live in its first deadline, and one that is chosen in any deadline of
-- the epoch is free there. The absolute deadline leaps by a million at the turn.
pub next_epoch_forgets :
    (c : Clock) (epoch : ℕ) (w : WorkerEntry) (os : List (Bool × ℕ))
    (threshold suspension cooldown : ℕ)
    → IsBound w ((epoch + 1) * 1000000)
    → All (λ o. o.1 ≤ epoch * 1000000 + c.p.deadlines_per_epoch) os
    → c.p.deadlines_per_epoch + suspension ≤ 1000000
    → c.p.deadlines_per_epoch + cooldown < 1000000
    → (is_live (record_all w os threshold suspension) (absolute_deadline (slot_at c (epoch + 1) 0))
        ≡ true)
      × ((i : ℕ)
          → i < c.p.deadlines_per_epoch
          → is_free
              (record w { last_assigned_deadline = some (absolute_deadline (slot_at c epoch i)) })
              (absolute_deadline (slot_at c (epoch + 1) 0))
              cooldown
            ≡ true)
unfolding absolute_deadline slot_at is_free
next_epoch_forgets c epoch w os threshold suspension cooldown b a s k =
    let top : ℕ = (epoch + 1) * 1000000 in
    let ends : All (λ o. o.1 + suspension ≤ top) os = All-map (λ o h. omega arith) os a in
    (
      bound_live (record_all w os threshold suspension) top _
          (record_all-IsBound w os threshold suspension top ends b) (omega arith),
      λ i l. le→leb (epoch * 1000000 + i + cooldown + 1) ((epoch + 1) * 1000000 + 0) (omega arith),
    )
