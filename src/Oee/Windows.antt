-- ===== src/Oee/Windows.antt =====
-- Reporting windows: shifts and production days (backend/app/oee/windows.py).
pub mod Days
use cell_oee_demo.Prelude.{
  ℕ, zero, suc, ◌+◌, ◌-◌, ◌*◌, ◌/◌, ◌%◌, max, min, Bool, true, false, Option, none, some, List, [],
  ◌∷◌, ◌++◌, ltb, leb, ◌==◌, if◌then◌else◌, sort_by,
}
use Prim.Native.String.{String}
use cell_oee_demo.Oee.Types.{Instant, Window, ShiftDef, ShiftPlan, second}

-- One day in microseconds.
abbrev pub day : ℕ
day = 86400 * second

-- `_midnight`, in UTC: the epoch is a midnight.
abbrev pub midnight : Instant → Instant
midnight ts = ts - ts % day

-- `_clip`
unfoldable pub clip_window : String → Instant → Instant → Instant → Instant → Option Window
clip_window label start end lo hi =
    let a = max start lo in
    let b = min end hi in
    if ltb a b then some (record { label = label; start = a; end = b }) else none

abbrev pub push_window : Option Window → List Window → List Window
push_window none out = out
push_window (some w) out = w ∷ out

-- `date_of` writes the date of an instant, as `str(ts.date())` of Python does; `shift_label` is
-- `f"{ts.date()} {name}"`.
module _ (date_of : Instant → String) (shift_label : Instant → String → String) where
  -- The inner loop of `shift_windows` over the shifts of one day. `start_s` is below a day.
  unfoldable pub shifts_of_day : List ShiftDef → Instant → Instant → Instant → List Window
  shifts_of_day [] at frm to = []
  shifts_of_day (shift ∷ shifts) at frm to =
      let start = at + shift.start_s * second in
      let wrapped = (shift.end_s + 86400 - shift.start_s) % 86400 in
      let length = if wrapped == 0 then 86400 else wrapped in
      push_window
        (clip_window (shift_label start shift.name) start (start + length * second) frm to)
        (shifts_of_day shifts at frm to)

  abbrev pub prepend : List Window → Option (List Window) → Option (List Window)
  prepend ws none = none
  prepend ws (some out) = some (ws ++ out)

  -- `while day < to`, on fuel; `none` means that the fuel ran out.
  unfoldable pub shift_days : ℕ → Instant → Instant → Instant → ShiftPlan → Option (List Window)
  shift_days zero at frm to plan = none
  shift_days (suc fuel) at frm to plan =
      let rest = shift_days fuel (at + day) frm to plan in
      if ltb at to then prepend (shifts_of_day plan.shifts at frm to) rest else some []

  abbrev pub keep : Option Window → Option (List Window) → Option (List Window)
  keep w none = none
  keep w (some out) = some (push_window w out)

  -- The window of the production day that starts on the day of `at`.
  abbrev pub day_window : Instant → Instant → Instant → ShiftPlan → Option Window
  day_window at frm to plan =
      let start = at + plan.day_start_s * second in
      clip_window (date_of start) start (start + day) frm to

  -- The same loop in `day_windows`.
  unfoldable pub days_from : ℕ → Instant → Instant → Instant → ShiftPlan → Option (List Window)
  days_from zero at frm to plan = none
  days_from (suc fuel) at frm to plan =
      let rest = days_from fuel (at + day) frm to plan in
      if ltb at to then keep (day_window at frm to plan) rest else some []

  abbrev pub by_start : Window → Window → Bool
  by_start a b = leb a.start b.start

  -- Fuel for every day from the one before `frm` on.
  abbrev pub enough : Instant → Instant → ℕ
  enough frm to = suc (to / day + 1)

  unfoldable pub shift_windows : Instant → Instant → ShiftPlan → Option (List Window)
  shift_windows frm to plan = elim (shift_days (enough frm to) (midnight frm - day) frm to plan) [
    | none ↦ none
    | some out ↦ some (sort_by by_start out)
  ]

  unfoldable pub day_windows : Instant → Instant → ShiftPlan → Option (List Window)
  day_windows frm to plan = days_from (enough frm to) (midnight frm - day) frm to plan

  -- `make_windows`: by shift if the flag is set, else by day.
  unfoldable pub make_windows : Instant → Instant → Bool → ShiftPlan → Option (List Window)
  make_windows frm to by_shift plan =
      if by_shift then shift_windows frm to plan else day_windows frm to plan
