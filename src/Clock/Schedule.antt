-- ===== src/Clock/Schedule.antt =====
-- The schedule of `clock.py`: every height lies in one slot, and a submit window in its own slot.
use he_thong_chung_minh_luu.Prelude.{
  ap, arith, err, false, ge→ltb, ltb, lt→ltb, ok, ok_inj, subst, sym, true, value_error, ℕ, ◌%◌,
  ◌*◌, ◌+◌, ◌-◌, ◌/◌, ◌<◌, ◌∙◌, ◌≡◌, ◌≤◌,
}
use he_thong_chung_minh_luu.Config.{TimingProfile}
use he_thong_chung_minh_luu.Clock.{
  Clock, absolute_deadline, epoch_bounds, in_submit_window, slot_at, slot_of,
}

-- A quotient and a remainder are found again.
div_lem : (n q r : ℕ) → r < n → (q * n + r) / n ≡ q
div_lem n q r h = grind arith

mod_lem : (n q r : ℕ) → r < n → (q * n + r) % n ≡ r
mod_lem n q r h = grind arith

split_lem : (n k : ℕ) → 0 < k → (n / k * k + n % k ≡ n) × (n % k < k)
split_lem n k h = grind arith

-- The lengths that the protocol needs: some deadlines of some blocks, and the wait for the beacon
-- and the window fit into one deadline.
pub record IsSound (p : TimingProfile) : Type 0 where
  pub some_blocks : 0 < p.deadline_len_blocks
  pub some_deadlines : 0 < p.deadlines_per_epoch
  pub window_fits : p.beacon_delay_blocks + p.submit_window_blocks ≤ p.deadline_len_blocks

-- Every height from the opening of a slot on, short of the next opening, belongs to the slot.
pub slot_of-slot_at :
    (c : Clock) (e d k : ℕ)
    → IsSound c.p
    → d < c.p.deadlines_per_epoch
    → k < c.p.deadline_len_blocks
    → slot_of c ((slot_at c e d).open_height + k) ≡ ok (slot_at c e d)
unfolding slot_of
slot_of-slot_at c e d k v hd hk =
    let n : ℕ = e * c.p.deadlines_per_epoch + d in
    let m : ℕ = c.h0 + n * c.p.deadline_len_blocks + k in
    let above : ltb m c.h0 ≡ false = ge→ltb m c.h0 (omega arith) in
    let off : m - c.h0 ≡ n * c.p.deadline_len_blocks + k = omega arith in
    rw (
      above,
      off,
      div_lem c.p.deadline_len_blocks n k hk,
      div_lem c.p.deadlines_per_epoch e d hd,
      mod_lem c.p.deadlines_per_epoch e d hd,
    )

in_window :
    (c : Clock) (e d h : ℕ)
    → in_submit_window (slot_at c e d) h ≡ true
    → let s = slot_at c e d in
      (s.open_height + c.p.beacon_delay_blocks ≤ h)
      × (h < s.open_height + c.p.beacon_delay_blocks + c.p.submit_window_blocks)
unfolding in_submit_window slot_at
in_window c e d h w = ground arith

-- A height in the submit window of a slot belongs to that slot.
pub slot_of_window :
    (c : Clock) (e d h : ℕ)
    → IsSound c.p
    → d < c.p.deadlines_per_epoch
    → in_submit_window (slot_at c e d) h ≡ true
    → slot_of c h ≡ ok (slot_at c e d)
slot_of_window c e d h v hd w =
    let (low, high) = in_window c e d h w in
    let k : ℕ = h - (slot_at c e d).open_height in
    let fits : c.p.beacon_delay_blocks + c.p.submit_window_blocks ≤ c.p.deadline_len_blocks =
      v.window_fits in
    let at : (slot_at c e d).open_height + k ≡ h = omega arith in
    subst (λ x. slot_of c x ≡ ok (slot_at c e d)) at (slot_of-slot_at c e d k v hd (omega arith))

slot_inj : (c : Clock) (e d e' d' : ℕ) → slot_at c e d ≡ slot_at c e' d' → (e ≡ e') × (d ≡ d')
unfolding slot_at
slot_inj c e d e' d' h = (ap (λ s. s.epoch) h, ap (λ s. s.deadline_idx) h)

-- No height lies in the submit windows of two slots.
pub windows_disjoint :
    (c : Clock) (e d e' d' h : ℕ)
    → IsSound c.p
    → d < c.p.deadlines_per_epoch
    → d' < c.p.deadlines_per_epoch
    → in_submit_window (slot_at c e d) h ≡ true
    → in_submit_window (slot_at c e' d') h ≡ true
    → (e ≡ e') × (d ≡ d')
windows_disjoint c e d e' d' h v hd hd' w w' =
    slot_inj c e d e' d'
      (ok_inj (sym (slot_of_window c e d h v hd w) ∙ slot_of_window c e' d' h v hd' w'))

-- Every height from the genesis on has a slot, whose deadline is below the number of deadlines and
-- which opens at or before the height, less than one deadline earlier; a height before has none.
pub slot_of_total :
    (c : Clock) (h : ℕ)
    → IsSound c.p
    → (h < c.h0 → slot_of c h ≡ err value_error)
      × (c.h0 ≤ h
          → (e : ℕ) × (d : ℕ) × (slot_of c h ≡ ok (slot_at c e d))
            × (d < c.p.deadlines_per_epoch)
            × ((slot_at c e d).open_height ≤ h)
            × (h < (slot_at c e d).open_height + c.p.deadline_len_blocks))
unfolding slot_of slot_at
slot_of_total c h v = (
  λ early. rw (lt→ltb _ _ early),
  λ late.
      let n : ℕ = (h - c.h0) / c.p.deadline_len_blocks in
      let (same, less) = split_lem n c.p.deadlines_per_epoch v.some_deadlines in
      let (same', less') = split_lem (h - c.h0) c.p.deadline_len_blocks v.some_blocks in
      let low : c.h0 + n * c.p.deadline_len_blocks ≤ h = omega arith in
      let high : h < c.h0 + n * c.p.deadline_len_blocks + c.p.deadline_len_blocks = omega arith in
      (
        n / c.p.deadlines_per_epoch,
        n % c.p.deadlines_per_epoch,
        rw (ge→ltb h c.h0 late),
        less,
        rw same low,
        rw same high,
      ),
)

-- Between the bounds of an epoch and those of the next lie the blocks that each deadline leaves
-- after its window: the ranges do not meet.
pub epoch_bounds_gap :
    (c : Clock) (e : ℕ)
    → IsSound c.p
    → (epoch_bounds c e).1
        + (c.p.deadline_len_blocks - c.p.beacon_delay_blocks - c.p.submit_window_blocks)
      ≡ (epoch_bounds c (e + 1)).0
unfolding epoch_bounds slot_at
epoch_bounds_gap c e v =
    let days : ℕ = c.p.deadlines_per_epoch in
    let len : ℕ = c.p.deadline_len_blocks in
    let fits : c.p.beacon_delay_blocks + c.p.submit_window_blocks ≤ len = v.window_fits in
    let some_days : 0 < days = v.some_deadlines in
    let next : e * days + (days - 1) + 1 ≡ (e + 1) * days + 0 = grind arith in
    omega (arith, ap (λ (n : ℕ). n * len) next)

-- The deadline index in a blob's header tells the slots apart, if an epoch has at most a million
-- deadlines.
pub absolute_deadline_inj :
    (c : Clock) (e d e' d' : ℕ)
    → c.p.deadlines_per_epoch ≤ 1000000
    → d < c.p.deadlines_per_epoch
    → d' < c.p.deadlines_per_epoch
    → absolute_deadline (slot_at c e d) ≡ absolute_deadline (slot_at c e' d')
    → (e ≡ e') × (d ≡ d')
unfolding absolute_deadline slot_at
absolute_deadline_inj c e d e' d' m hd hd' h = (omega arith, omega arith)
