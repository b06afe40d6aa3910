-- ===== src/Oee/Windows/Days.antt =====
-- Production days tile the requested range, and the loop over the days ends.
use cell_oee_demo.Prelude.{
  ℕ, zero, suc, ◌+◌, ◌-◌, ◌*◌, ◌/◌, ◌≤◌, ◌<◌, ◌≡◌, refl, max, min, some, List, [], ◌∷◌, arith, ltb,
  false, Bool-cases, inl, inr,
}
use Prim.Native.String.{String}
use cell_oee_demo.Oee.Types.{Instant, Window, ShiftPlan, second}
use cell_oee_demo.Oee.Windows.{
  day, midnight, clip_window, day_window, days_from, day_windows, push_window,
}

-- Windows that follow one another from `a` to `b` without a break, none of them empty.
abbrev pub Tiles : Instant → Instant → List Window → Type 0
Tiles a b [] = b ≤ a
Tiles a b (w ∷ windows) = (w.start ≡ a) × (w.start < w.end) × (w.end ≤ b) × Tiles w.end b windows

-- What tiles from one instant to `b` tiles from another, if they are the same or both not before `b`.
Tiles-move :
    (a c b : Instant) (windows : List Window)
    → (a < c → b ≤ a)
    → (c < a → b ≤ c)
    → Tiles a b windows
    → Tiles c b windows
Tiles-move a c b [] h k t = grind arith
Tiles-move a c b (w ∷ windows) h k t =
    let same : a ≡ c = grind arith in (omega arith, t.1, t.2, t.3)

push_clip-Tiles :
    (label : String) (start frm to : Instant) (rest : List Window)
    → Tiles (max (start + day) frm) to rest
    → Tiles (max start frm) to (push_window (clip_window label start (start + day) frm to) rest)
unfolding clip_window
push_clip-Tiles label start frm to rest t =
    elim (Bool-cases (ltb (max start frm) (min (start + day) to))) [
      | inl e ↦
          let lt : max start frm < min (start + day) to = ground (arith, e) in
          rw e (
            refl,
            lt,
            omega arith,
            Tiles-move (max (start + day) frm) (min (start + day) to) to rest (λ h. omega arith)
                (λ h. omega arith) t,
          )
      | inr e ↦
          let ge : min (start + day) to ≤ max start frm = ground (arith, e) in
          rw e (
            Tiles-move (max (start + day) frm) (max start frm) to rest (λ h. omega arith)
              (λ h. omega arith) t)
    ]

ltb-false : (a b : ℕ) → b ≤ a → ltb a b ≡ false
ltb-false a b h = ground arith

module _ (date_of : Instant → String) (shift_label : Instant → String → String) where
  days_from-Tiles :
      (fuel : ℕ) (at frm to : Instant) (plan : ShiftPlan)
      → to ≤ at + fuel * day
      → (windows : List Window) × (days_from date_of shift_label (suc fuel) at frm to plan
          ≡ some windows)
        × Tiles (max (at + plan.day_start_s * second) frm) to windows
  unfolding days_from
  days_from-Tiles zero at frm to plan h = ([], rw (ltb-false at to (omega arith)), omega arith)
  days_from-Tiles (suc fuel) at frm to plan h = elim (Bool-cases (ltb at to)) [
    | inr e ↦ ([], rw e, ground (arith, e))
    | inl e ↦
        let (rest, ran, tiles) = days_from-Tiles fuel (at + day) frm to plan (omega arith) in
        let start = at + plan.day_start_s * second in
        let next : start + day ≡ at + day + plan.day_start_s * second = omega arith in
        (
          push_window (day_window date_of shift_label at frm to plan) rest,
          rw e (rw ran),
          push_clip-Tiles (date_of start) start frm to rest (rw next tiles),
        )
  ]

-- The production days cover the requested range exactly: for a plan whose day starts within a day and a
-- range that does not start on the first day of the calendar, the loop ends, and its windows follow one
-- another without a break from the start of the range to its end, none of them empty.
pub day_windows-Tiles :
    (date_of : Instant → String) (shift_label : Instant → String → String) (frm to : Instant)
    (plan : ShiftPlan)
    → plan.day_start_s < 86400
    → day ≤ frm
    → (windows : List Window) × (day_windows date_of shift_label frm to plan ≡ some windows)
      × Tiles frm to windows
unfolding day_windows
day_windows-Tiles date_of shift_label frm to plan h k =
    let at = midnight frm - day in
    let (windows, ran, tiles) =
      days_from-Tiles date_of shift_label (to / day + 1) at frm to plan (omega arith) in
    let first : max (at + plan.day_start_s * second) frm ≡ frm = omega arith in
    (windows, ran, rw first at tiles)
