-- ===== src/Oee/Tests.antt =====
-- Concrete runs of the OEE core, and its theorems at concrete inputs.
use cell_oee_demo.Prelude.{
  ◌<◌, Option, map, ℕ, ◌+◌, ◌*◌, ◌≤◌, ◌≡◌, refl, true, false, none, some, List, [], ◌∷◌, ◌++◌,
  arith, sum_of, sort_by, insert_by,
}
use cell_oee_demo.Oee.Types.{
  StopRecord, default_params, Window, ClassifiedStop, StopKind, planned, loss, micro, CounterDelta,
  normal, Gap, CounterSample, OeeResult, loss_s, length_s, ok, ShiftPlan,
}
use cell_oee_demo.Oee.Intervals.{
  Interval, merge, merge_from, merge_sorted, clip, total, complement, intersect, subtract,
  subtract_from, push,
}
use cell_oee_demo.Oee.Intervals.Points.{IsMerged, covers, merge-IsMerged, covers-merge}
use cell_oee_demo.Oee.Intervals.Algebra.{covers-intersect, covers-subtract}
use cell_oee_demo.Oee.Intervals.Measure.{measure, total-eq-measure}
use cell_oee_demo.Oee.Observed.{gap_intervals, overlaps_gap, observed_intervals, within}
use cell_oee_demo.Oee.Counters.{counter_deltas}
use cell_oee_demo.Oee.Counters.Production.{
  Batch, samples_after, counter_deltas-le, counter_deltas_exact,
}
use cell_oee_demo.Oee.Compute.{compute_oee, claim, LossName, tally_one, tally_deltas}
use cell_oee_demo.Oee.Compute.Accounting.{compute_oee_accounts}
use cell_oee_demo.Oee.Compute.Pointwise.{
  compute_oee-eq-time_as, time_as, gap, planned_stop, lost, operating,
}
use cell_oee_demo.Oee.Compute.Split.{compute_oee-split}
use cell_oee_demo.Oee.Invariant.{check_invariant}
use cell_oee_demo.Oee.Invariant.Holds.{compute_oee-Accounts, check_invariant-compute_oee}
use cell_oee_demo.Oee.Combine.{combine}
use cell_oee_demo.Oee.Combine.Total.{Follows, check_invariant-combine}
use cell_oee_demo.Oee.Pareto.{StopFact, label, unqualified, compute_pareto, cause, duration}
use cell_oee_demo.Oee.Grouped.{compute_oee_grouped}
use cell_oee_demo.Oee.Grouped.Days.{IsTotal, compute_oee_grouped-IsTotal}
use cell_oee_demo.Oee.Pareto.Grouping.{compute_pareto_sums, expected, expected_micro, sums_at}
use cell_oee_demo.Oee.Weld.Buckets.{AreCounted, compute_weld_buckets-AreCounted}
use cell_oee_demo.Oee.Weld.{
  WeldPoint, WeldBucket, bucket_start, rows_from, update_row, add_points, add_deltas, bucket_of,
  compute_weld_buckets,
}
use cell_oee_demo.Oee.Timeline.{StateEvent, segments_of, build_timeline}
use cell_oee_demo.Oee.Timeline.Latest.{state_at, build_timeline-state_at}
use cell_oee_demo.Oee.Windows.{day, day_windows}
use cell_oee_demo.Oee.Windows.Days.{Tiles, day_windows-Tiles}

abbrev shift : Window
shift = record { label = "shift"; start = 1000; end = 9000 }

abbrev stop : ℕ → ℕ → ℕ → StopKind → ClassifiedStop
stop start end state kind = record { start = start; end = end; state = state; kind = kind }

-- A fault under a planned stop in part, a starved stop that starts before the fault is over, and a
-- micro-stop.
abbrev stops : List ClassifiedStop
stops =
    stop 500 2000 2 planned
    ∷ stop 1500 3000 3 loss
    ∷ stop 2500 4000 5 loss
    ∷ stop 5000 5100 6 micro
    ∷ []

abbrev gaps : List Gap
gaps = record { start = 8000; end = none } ∷ record { start = 3500; end = some 3700 } ∷ []

abbrev delta_at : ℕ → ℕ → ℕ → ℕ → CounterDelta
delta_at prev_ts ts good scrap = record {
  ts = ts;
  prev_ts = some prev_ts;
  good = good;
  scrap = scrap;
  theoretical_cycle_s = 50;
  kind = normal;
}

-- The third one is across a gap, and the last one at the end of the window.
abbrev deltas : List CounterDelta
deltas =
    delta_at 4000 5000 10 1
    ∷ delta_at 5000 6000 12 0
    ∷ delta_at 7900 8100 2 0
    ∷ delta_at 8900 9000 7 0
    ∷ []

abbrev shift_oee : OeeResult
shift_oee = compute_oee shift stops deltas gaps

abbrev times : OeeResult → List ℕ
times r = r.gap_s ∷ r.planned_stop_s ∷ r.fault_s ∷ r.starved_s ∷ r.operating_s ∷ r.micro_s ∷ []

abbrev counts : OeeResult → List ℕ
counts r = r.good ∷ r.scrap ∷ r.dropped_parts ∷ []

compute_oee_times : times shift_oee ≡ 1200 ∷ 1000 ∷ 1000 ∷ 800 ∷ 4000 ∷ 100 ∷ []
unfolding compute_oee gap_intervals observed_intervals within claim subtract subtract_from push
    intersect complement clip merge merge_sorted merge_from total sort_by insert_by
compute_oee_times = refl

compute_oee_counts : counts shift_oee ≡ 22 ∷ 1 ∷ 2 ∷ []
unfolding compute_oee tally_one tally_deltas overlaps_gap
compute_oee_counts = refl

compute_oee_accounts_example :
    (shift_oee.gap_s + shift_oee.planned_stop_s + loss_s shift_oee + shift_oee.operating_s
      ≡ length_s shift)
    × (shift_oee.gap_s + shift_oee.opening_s ≡ length_s shift)
    × (shift_oee.planned_stop_s + shift_oee.planned_s ≡ shift_oee.opening_s)
    × (loss_s shift_oee + shift_oee.operating_s ≡ shift_oee.planned_s)
compute_oee_accounts_example = compute_oee_accounts shift stops deltas gaps

compute_oee-eq-time_as_example :
    (shift_oee.gap_s ≡ time_as shift stops gaps gap)
    × (shift_oee.planned_stop_s ≡ time_as shift stops gaps planned_stop)
    × (shift_oee.fault_s ≡ time_as shift stops gaps (lost LossName.fault))
    × (shift_oee.setup_s ≡ time_as shift stops gaps (lost LossName.setup))
    × (shift_oee.starved_s ≡ time_as shift stops gaps (lost LossName.starved))
    × (shift_oee.blocked_s ≡ time_as shift stops gaps (lost LossName.blocked))
    × (shift_oee.manual_s ≡ time_as shift stops gaps (lost LossName.manual))
    × (shift_oee.operating_s ≡ time_as shift stops gaps operating)
compute_oee-eq-time_as_example = compute_oee-eq-time_as shift stops deltas gaps

abbrev morning : Window
morning = record { label = "morning"; start = 1000; end = 3600 }

abbrev afternoon : Window
afternoon = record { label = "afternoon"; start = 3600; end = 9000 }

abbrev morning_oee : OeeResult
morning_oee = compute_oee morning stops deltas gaps

abbrev afternoon_oee : OeeResult
afternoon_oee = compute_oee afternoon stops deltas gaps

compute_oee-split_example :
    (shift_oee.gap_s ≡ morning_oee.gap_s + afternoon_oee.gap_s)
    × (shift_oee.opening_s ≡ morning_oee.opening_s + afternoon_oee.opening_s)
    × (shift_oee.planned_stop_s ≡ morning_oee.planned_stop_s + afternoon_oee.planned_stop_s)
    × (shift_oee.planned_s ≡ morning_oee.planned_s + afternoon_oee.planned_s)
    × (shift_oee.fault_s ≡ morning_oee.fault_s + afternoon_oee.fault_s)
    × (shift_oee.setup_s ≡ morning_oee.setup_s + afternoon_oee.setup_s)
    × (shift_oee.starved_s ≡ morning_oee.starved_s + afternoon_oee.starved_s)
    × (shift_oee.blocked_s ≡ morning_oee.blocked_s + afternoon_oee.blocked_s)
    × (shift_oee.manual_s ≡ morning_oee.manual_s + afternoon_oee.manual_s)
    × (shift_oee.micro_s ≡ morning_oee.micro_s + afternoon_oee.micro_s)
    × (shift_oee.operating_s ≡ morning_oee.operating_s + afternoon_oee.operating_s)
    × (shift_oee.good ≡ morning_oee.good + afternoon_oee.good)
    × (shift_oee.scrap ≡ morning_oee.scrap + afternoon_oee.scrap)
    × (shift_oee.dropped_parts ≡ morning_oee.dropped_parts + afternoon_oee.dropped_parts)
    × (shift_oee.good_tct_s ≡ morning_oee.good_tct_s + afternoon_oee.good_tct_s)
    × (shift_oee.total_tct_s ≡ morning_oee.total_tct_s + afternoon_oee.total_tct_s)
compute_oee-split_example =
    compute_oee-split "morning" "afternoon" "shift" 1000 3600 9000 stops deltas gaps (omega arith)
      (omega arith)

check_invariant-compute_oee_example :
    check_invariant shift_oee (record { num = 1; den = 1000000 }) ≡ ok tt
check_invariant-compute_oee_example =
    check_invariant-compute_oee shift stops deltas gaps (record { num = 1; den = 1000000 })

halves-Follows : Follows 1000 (morning_oee ∷ afternoon_oee ∷ [])
unfolding compute_oee
halves-Follows = (refl, omega arith, (refl, omega arith, tt))

check_invariant-combine_example :
    (r : OeeResult) × (combine (morning_oee ∷ afternoon_oee ∷ []) "shift" ≡ ok r)
    × (r.window.start ≡ 1000)
    × (r.window.end ≡ 9000)
    × (check_invariant r (record { num = 1; den = 1000000 }) ≡ ok tt)
unfolding compute_oee
check_invariant-combine_example =
    check_invariant-combine morning_oee (afternoon_oee ∷ []) "shift"
      (record { num = 1; den = 1000000 })
      (
        compute_oee-Accounts morning stops deltas gaps,
        (compute_oee-Accounts afternoon stops deltas gaps, tt),
      )
      halves-Follows

-- A counter near the end of its range that wraps, and then a restart.
abbrev sample : CounterSample
sample = record { ts = 100; good_total = 4294967290; scrap_total = 7; theoretical_cycle_s = 50 }

abbrev wrapping : List Batch
wrapping =
    record { ts = 200; good = 10; scrap = 1; theoretical_cycle_s = 50; restarted = false }
    ∷ record { ts = 300; good = 20; scrap = 0; theoretical_cycle_s = 50; restarted = false }
    ∷ []

abbrev restarting : List Batch
restarting =
    wrapping
    ++ record { ts = 400; good = 5; scrap = 2; theoretical_cycle_s = 50; restarted = true } ∷ []

counter_deltas-le_example :
    (sum_of (λ d. d.good) (counter_deltas (sample ∷ samples_after sample restarting) 1000) ≤ 35)
    × (sum_of (λ d. d.scrap) (counter_deltas (sample ∷ samples_after sample restarting) 1000) ≤ 3)
counter_deltas-le_example =
    counter_deltas-le 1000 sample restarting (ground arith) (ground arith) (ground arith)
      (ground arith)

counter_deltas_exact_example :
    (sum_of (λ d. d.good) (counter_deltas (sample ∷ samples_after sample wrapping) 1000) ≡ 30)
    × (sum_of (λ d. d.scrap) (counter_deltas (sample ∷ samples_after sample wrapping) 1000) ≡ 1)
counter_deltas_exact_example =
    counter_deltas_exact 1000 sample wrapping (ground arith) (ground arith) (ground arith)
      (ground arith) (ground arith)

abbrev facts : List StopFact
facts =
    record {
      start = 1500;
      end = some 3000;
      state = 3;
      origin_station = "OP20";
      fault_code = 202;
      qualified_cause = some "tool_change";
    }
    ∷ record {
      start = 2500;
      end = none;
      state = 5;
      origin_station = "OP10";
      fault_code = 0;
      qualified_cause = none;
    }
    ∷ []

-- The day starts at six.
abbrev plan : ShiftPlan
plan = record { shifts = []; day_start_s = 21600 }

day_windows-Tiles_example :
    (windows : List Window) × (day_windows
        (λ t. "day")
        (λ t name. name)
        (5 * day + 7)
        (9 * day)
        plan
      ≡ some windows)
    × Tiles (5 * day + 7) (9 * day) windows
day_windows-Tiles_example =
    day_windows-Tiles (λ t. "day") (λ t name. name) (5 * day + 7) (9 * day) plan (omega arith)
      (omega arith)

abbrev ragged : List Interval
ragged = (5, 9) ∷ (1, 3) ∷ (3, 3) ∷ (2, 4) ∷ (7, 10) ∷ []

merge-IsMerged_example : IsMerged 0 10 (merge ragged)
merge-IsMerged_example = merge-IsMerged 10 ragged (ground arith)

covers-merge_example : covers (merge ragged) 8 ≡ true
covers-merge_example = covers-merge 10 ragged 8 (ground arith)

abbrev left : List Interval
left = (1, 4) ∷ (6, 10) ∷ []

abbrev right : List Interval
right = (3, 7) ∷ (8, 9) ∷ []

covers-intersect_example : covers (intersect left right) 8 ≡ true
covers-intersect_example = covers-intersect 0 0 10 left right 8 (ground arith) (ground arith)

covers-subtract_example : covers (subtract left right) 8 ≡ false
covers-subtract_example = covers-subtract 0 10 left right 8 (ground arith)

total-eq-measure_example : total left ≡ measure 10 (covers left)
total-eq-measure_example = total-eq-measure 10 0 left (ground arith)

abbrev state_event : ℕ → ℕ → StateEvent
state_event ts state = record { ts = ts; state = state }

-- A lead-in, two events of one instant, and one after the bound, not in order.
abbrev state_events : List StateEvent
state_events =
    state_event 2000 3
    ∷ state_event 500 1
    ∷ state_event 2000 5
    ∷ state_event 9500 1
    ∷ state_event 3000 1
    ∷ []

build_timeline-run :
    build_timeline state_events shift none
    ≡ record { start = 1000; end = 2000; state = 1 }
      ∷ record { start = 2000; end = 3000; state = 5 }
      ∷ record { start = 3000; end = 9000; state = 1 }
      ∷ []
unfolding build_timeline segments_of sort_by insert_by
build_timeline-run = refl

build_timeline-state_at_example : state_at (build_timeline state_events shift none) 2500 ≡ some 5
build_timeline-state_at_example =
    build_timeline-state_at state_events shift none 2500 (omega arith) (omega arith) (omega arith)

abbrev records : List StopRecord
records = record { start = 5 * day; end = some (6 * day); state = 3 } ∷ []

compute_oee_grouped-IsTotal_example :
    (results : List OeeResult) × (compute_oee_grouped
        (λ t. "day")
        (λ t name. name)
        (5 * day + 7)
        (9 * day)
        false
        plan
        records
        (sample ∷ [])
        gaps
        default_params
        none
      ≡ some (ok results))
    × (r : OeeResult) × (combine results "total" ≡ ok r)
    × IsTotal (5 * day + 7) (9 * day) (record { num = 1; den = 1000000000 }) r
compute_oee_grouped-IsTotal_example =
    compute_oee_grouped-IsTotal (λ t. "day") (λ t name. name) (5 * day + 7) (9 * day) plan records
      (sample ∷ []) gaps default_params none "total" (record { num = 1; den = 1000000000 })
      (omega arith) (omega arith) (omega arith) (ground arith)

abbrev points : List WeldPoint
points =
    record { ts = 1100; current_ka = 9000; ok = true }
    ∷ record { ts = 1200; current_ka = 9100; ok = false }
    ∷ record { ts = 4100; current_ka = 8800; ok = true }
    ∷ []

abbrev starts_and_points : Option (List WeldBucket) → List (ℕ × ℕ)
starts_and_points none = []
starts_and_points (some buckets) = map (λ b. (b.start, b.points)) buckets

-- Aligned on 500 with a width of 2000, the first bucket starts before the range.
compute_weld_buckets-run :
    starts_and_points (compute_weld_buckets points deltas gaps 1000 5000 2000 500)
    ≡ (500, 2) ∷ (2500, 1) ∷ (4500, 0) ∷ []
unfolding compute_weld_buckets rows_from bucket_start add_points add_deltas update_row bucket_of
    overlaps_gap
compute_weld_buckets-run = refl

compute_weld_buckets-AreCounted_example :
    (buckets : List WeldBucket) × (compute_weld_buckets points deltas gaps 1000 5000 2000 500
      ≡ some buckets)
    × (bucket_start 1000 500 2000 ≤ 1000)
    × (1000 < bucket_start 1000 500 2000 + 2000)
    × AreCounted 1000 5000 2000 points deltas gaps (bucket_start 1000 500 2000) buckets
compute_weld_buckets-AreCounted_example =
    compute_weld_buckets-AreCounted points deltas gaps 1000 5000 2000 500 (omega arith)
      (omega arith)

compute_pareto_sums_example :
    let r = compute_pareto facts shift gaps cause duration 120 none in
    (sums_at (label unqualified) r.buckets
      ≡ expected shift gaps 9000 120 cause (label unqualified) facts)
    × (r.micro_count ≡ (expected_micro shift gaps 9000 120 facts).0)
    × (r.micro_duration_s ≡ (expected_micro shift gaps 9000 120 facts).1)
compute_pareto_sums_example =
    compute_pareto_sums facts shift gaps cause duration 120 none (label unqualified)
