-- ===== src/Simulator/Shifts.antt =====
-- Shifts and planned breaks (simulator/cell_sim/shifts.py). Instants are whole microseconds, at least two
-- days after their origin; times of day are in seconds.
pub mod NextBreak
pub mod Earliest
pub mod Cover
use cell_oee_demo.Prelude.{
  ℕ, suc, zero, ◌+◌, ◌-◌, ◌*◌, ◌/◌, ◌%◌, Bool, ◌&&◌, ◌||◌, Option, none, some, List, [], ◌∷◌, ltb,
  leb, if◌then◌else◌, sort_by, map,
}
use cell_oee_demo.Simulator.Config.{ShiftCfg, PlannedBreakCfg, start_s, end_s}

abbrev pub second : ℕ
second = 1000000

abbrev pub day : ℕ
day = 86400000000

pub record BreakWindow : Type 0 where
  pub start : ℕ
  pub end : ℕ

-- The test of `shift_at`, at a time of day in microseconds.
unfoldable pub holds_shift : ShiftCfg → ℕ → Bool
holds_shift s tod =
    if leb (start_s s) (end_s s)
    then leb (start_s s * second) tod && ltb tod (end_s s * second)
    else leb (start_s s * second) tod || ltb tod (end_s s * second)

unfoldable pub first_shift : List ShiftCfg → ℕ → Option ShiftCfg
first_shift [] tod = none
first_shift (s ∷ shifts) tod = if holds_shift s tod then some s else first_shift shifts tod

-- `shift_at`; `none` is the AssertionError.
unfoldable pub shift_at : List ShiftCfg → ℕ → Option ShiftCfg
shift_at shifts ts = first_shift shifts (ts % day)

-- `ShiftCalendar._starts`, in microseconds.
unfoldable pub starts : List ShiftCfg → List ℕ
starts shifts = sort_by leb (map (λ s. start_s s * second) shifts)

abbrev pub window_at : PlannedBreakCfg → ℕ → ℕ → BreakWindow
window_at planned n s =
    let start = n * day + s + planned.offset in
    record { start = start; end = start + planned.duration }

-- The first window of a day that has not ended.
unfoldable pub first_window : PlannedBreakCfg → ℕ → List ℕ → ℕ → Option BreakWindow
first_window planned n [] after = none
first_window planned n (s ∷ more) after =
    if ltb after (window_at planned n s).end
    then some (window_at planned n s)
    else first_window planned n more after

-- The loop over `_windows`, for at most as many days as there is fuel.
unfoldable pub search_windows : ℕ → PlannedBreakCfg → List ℕ → ℕ → ℕ → Option BreakWindow
search_windows zero planned from n after = none
search_windows (suc fuel) planned from n after = elim (first_window planned n from after) [
  | none ↦ search_windows fuel planned from (suc n) after
  | some window ↦ some window
]

-- Four days: the last one begins after `after`.
unfoldable pub next_window : List ShiftCfg → PlannedBreakCfg → ℕ → Option BreakWindow
next_window shifts planned after = search_windows 4 planned (starts shifts) (after / day - 2) after
