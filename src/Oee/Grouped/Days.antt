-- ===== src/Oee/Grouped/Days.antt =====
-- The production days of a range, computed one by one and combined.
use cell_oee_demo.Prelude.{
  ℕ, ◌≤◌, ◌<◌, ◌≡◌, refl, ◌∙◌, ap, max, false, Option, some, List, [], ◌∷◌, map, arith, All, ◌==◌,
}
use Prim.Native.String.{String}
use cell_oee_demo.Oee.Types.{
  Instant, Window, StopRecord, ClassifiedStop, CounterSample, CounterDelta, Gap, OeeParams,
  OeeResult, ShiftPlan, ok, Ratio,
}
use cell_oee_demo.Oee.Stops.{classify_stops, classified}
use cell_oee_demo.Oee.Counters.{counter_deltas}
use cell_oee_demo.Oee.Compute.{compute_oee}
use cell_oee_demo.Oee.Combine.{compute_oee_windows, combine, bound_of, latest_end}
use cell_oee_demo.Oee.Combine.Total.{Follows, check_invariant-combine}
use cell_oee_demo.Oee.Invariant.{check_invariant}
use cell_oee_demo.Oee.Invariant.Holds.{Accounts, compute_oee-Accounts}
use cell_oee_demo.Oee.Windows.{day, make_windows}
use cell_oee_demo.Oee.Windows.Days.{Tiles, day_windows-Tiles}
use cell_oee_demo.Oee.Grouped.{compute_oee_grouped}

-- A stop as the database keeps it, not in the state PRODUCING.
abbrev pub IsStop : StopRecord → Type 0
IsStop s = (s.state == 1) ≡ false

classify_stops-ok :
    (stops : List StopRecord) (until : Instant) (micro_stop_s : ℕ)
    → All IsStop stops
    → classify_stops stops until micro_stop_s ≡ ok (map (classified until micro_stop_s) stops)
unfolding classify_stops
classify_stops-ok [] until micro_stop_s h = refl
classify_stops-ok (s ∷ stops) until micro_stop_s h =
    rw (h.0, classify_stops-ok stops until micro_stop_s h.1) refl

module _ (stops : List ClassifiedStop) (deltas : List CounterDelta) (gaps : List Gap) where
  abbrev each : List Window → List OeeResult
  each = map (λ w. compute_oee w stops deltas gaps)

  each-Accounts : (windows : List Window) → All Accounts (each windows)
  each-Accounts [] = tt
  each-Accounts (w ∷ windows) = (compute_oee-Accounts w stops deltas gaps, each-Accounts windows)

  each-Follows :
      (a b : Instant) (windows : List Window) → Tiles a b windows → Follows a (each windows)
  unfolding compute_oee
  each-Follows a b [] t = tt
  each-Follows a b (w ∷ windows) t =
      (t.0, omega (arith, t.0, t.1), each-Follows w.end b windows t.3)

  latest_end-each :
      (a b : Instant) (windows : List Window)
      → a ≤ b
      → Tiles a b windows
      → latest_end a (each windows) ≡ b
  unfolding compute_oee
  latest_end-each a b [] h t = omega arith
  latest_end-each a b (w ∷ windows) h t =
      let later : max a w.end ≡ w.end = omega (arith, t.0, t.1) in
      rw (later, latest_end) (latest_end-each w.end b windows t.2 t.3)

-- What is combined of the windows of a range is one result for the whole range.
abbrev pub IsTotal : Instant → Instant → Ratio → OeeResult → Type 0
IsTotal frm to rel_tol r =
    (r.window.start ≡ frm) × (r.window.end ≡ to) × (check_invariant r rel_tol ≡ ok tt)

windows-IsTotal :
    (windows : List Window) (frm to : Instant) (stops : List StopRecord)
    (samples : List CounterSample) (gaps : List Gap) (params : OeeParams) (until : Option Instant)
    (label : String) (rel_tol : Ratio)
    → frm < to
    → Tiles frm to windows
    → All IsStop stops
    → (results : List OeeResult) × (compute_oee_windows windows stops samples gaps params until
        ≡ ok results)
      × (r : OeeResult) × (combine results label ≡ ok r)
      × IsTotal frm to rel_tol r
unfolding compute_oee_windows compute_oee
windows-IsTotal [] frm to stops samples gaps params until label rel_tol lt t h =
    absurd (ground (arith, lt, t))
windows-IsTotal (w ∷ windows) frm to stops samples gaps params until label rel_tol lt t h =
    let bound = bound_of until w windows in
    let kinds = map (classified bound params.micro_stop_s) stops in
    let deltas = counter_deltas samples params.rollover_window in
    let first = compute_oee w kinds deltas gaps in
    let rest = each kinds deltas gaps windows in
    let follows : Follows w.start (first ∷ rest) =
      each-Follows kinds deltas gaps w.start to (w ∷ windows) (refl, t.1, t.2, t.3) in
    let (r, combined, start, end, checked) =
      check_invariant-combine first rest label rel_tol
        (each-Accounts kinds deltas gaps (w ∷ windows)) follows in
    (
      first ∷ rest,
      rw (classify_stops-ok stops bound params.micro_stop_s h) refl,
      r,
      combined,
      (start ∙ t.0, end ∙ latest_end-each kinds deltas gaps w.end to windows t.2 t.3, checked),
    )

-- For a plan whose day starts within a day, a range that is not empty and does not start on the first day
-- of the calendar, and stops that are not PRODUCING: grouping by day computes a result for each production
-- day, `combine` takes them together without an error, and the total is over exactly the range asked for
-- and passes `check_invariant`.
pub compute_oee_grouped-IsTotal :
    (date_of : Instant → String) (shift_label : Instant → String → String) (frm to : Instant)
    (plan : ShiftPlan) (stops : List StopRecord) (samples : List CounterSample) (gaps : List Gap)
    (params : OeeParams) (until : Option Instant) (label : String) (rel_tol : Ratio)
    → plan.day_start_s < 86400
    → day ≤ frm
    → frm < to
    → All IsStop stops
    → (results : List OeeResult) × (compute_oee_grouped date_of shift_label frm to false plan stops
          samples gaps params until
        ≡ some (ok results))
      × (r : OeeResult) × (combine results label ≡ ok r)
      × IsTotal frm to rel_tol r
unfolding compute_oee_grouped make_windows
compute_oee_grouped-IsTotal date_of shift_label frm to plan stops samples gaps params until label
      rel_tol h k lt s =
    let (windows, made, tiles) = day_windows-Tiles date_of shift_label frm to plan h k in
    let (results, computed, r, combined, total) =
      windows-IsTotal windows frm to stops samples gaps params until label rel_tol lt tiles s in
    (results, rw (made, compute_oee_grouped) (ap some computed), r, combined, total)
