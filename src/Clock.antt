-- ===== src/Clock.antt =====
-- `common/src/engram_common/clock.py`: the schedule. Heights are Celestia heights, natural numbers.
use he_thong_chung_minh_luu.Prelude.{
  Bool, List, Result, [], err, if◌then◌else◌, leb, ltb, ok, suc, value_error, zero, ℕ, ◌%◌, ◌&&◌,
  ◌*◌, ◌+◌, ◌-◌, ◌/◌, ◌∷◌,
}
use he_thong_chung_minh_luu.Config.{TimingProfile}
pub mod Schedule

pub record Slot : Type 0 where
  pub epoch : ℕ
  pub deadline_idx : ℕ
  pub open_height : ℕ
  pub window_start : ℕ
  pub window_end : ℕ

-- `Slot.absolute_deadline`
unfoldable pub absolute_deadline : Slot → ℕ
absolute_deadline s = s.epoch * 1000000 + s.deadline_idx

-- `class Clock`: `p` and `h0`
pub record Clock : Type 0 where
  pub p : TimingProfile
  pub h0 : ℕ

-- `Clock.slot_at`
unfoldable pub slot_at : Clock → ℕ → ℕ → Slot
slot_at c epoch deadline_idx =
    let n = epoch * c.p.deadlines_per_epoch + deadline_idx in
    let h = c.h0 + n * c.p.deadline_len_blocks in
    let ws = h + c.p.beacon_delay_blocks in
    record {
      epoch = epoch;
      deadline_idx = deadline_idx;
      open_height = h;
      window_start = ws;
      window_end = ws + c.p.submit_window_blocks;
    }

-- `Clock.slot_of`, for a profile whose lengths are positive.
unfoldable pub slot_of : Clock → ℕ → Result Slot
unfolding slot_at
slot_of c height =
    if ltb height c.h0
    then err value_error
    else let n = (height - c.h0) / c.p.deadline_len_blocks in
      ok (slot_at c (n / c.p.deadlines_per_epoch) (n % c.p.deadlines_per_epoch))

-- `n` heights downwards from `height - i` on.
unfoldable pub heights_back : ℕ → ℕ → ℕ → List ℕ
heights_back height i zero = []
heights_back height i (suc n) = (height - i) ∷ heights_back height (i + 1) n

-- `Clock.beacon_heights`, for a slot that opens at a height of at least `beacon_mix_blocks`.
unfoldable pub beacon_heights : Clock → Slot → List ℕ
unfolding heights_back
beacon_heights c slot = heights_back slot.open_height 0 c.p.beacon_mix_blocks

-- `Clock.in_submit_window`
unfoldable pub in_submit_window : Slot → ℕ → Bool
in_submit_window s height = leb s.window_start height && ltb height s.window_end

-- `Clock.epoch_bounds`
unfoldable pub epoch_bounds : Clock → ℕ → ℕ × ℕ
unfolding slot_at
epoch_bounds c epoch =
    ((slot_at c epoch 0).open_height, (slot_at c epoch (c.p.deadlines_per_epoch - 1)).window_end)
