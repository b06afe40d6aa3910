-- ===== src/Oee/Combine.antt =====
-- OEE of several windows, and of windows together (`compute_oee_windows` and `combine` in
-- backend/app/oee/compute.py).
pub mod Total
use cell_oee_demo.Prelude.{max, min, Option, none, some, List, [], ◌∷◌, map, sum_of}
use Prim.Native.String.{String}
use cell_oee_demo.Oee.Types.{
  Instant, Window, StopRecord, make_window, CounterSample, Gap, OeeParams, Anomaly, OeeResult,
  Result, ok, err, ◌>>=◌, nothing_to_combine,
}
use cell_oee_demo.Oee.Ratios.{ratios}
use cell_oee_demo.Oee.Compute.{compute_oee}
use cell_oee_demo.Oee.Counters.{counter_deltas}
use cell_oee_demo.Oee.Stops.{classify_stops}

-- `max(w.end for w in windows)` of a list that is not empty.
abbrev pub last_end : Instant → List Window → Instant
last_end top [] = top
last_end top (w ∷ windows) = last_end (max top w.end) windows

abbrev pub bound_of : Option Instant → Window → List Window → Instant
bound_of (some until) w windows = until
bound_of none w windows = last_end w.end windows

unfoldable pub compute_oee_windows :
    List Window
    → List StopRecord
    → List CounterSample
    → List Gap
    → OeeParams
    → Option Instant
    → Result (List OeeResult)
compute_oee_windows [] stops samples gaps params until = ok []
compute_oee_windows (w ∷ windows) stops samples gaps params until =
    classify_stops stops (bound_of until w windows) params.micro_stop_s >>= λ stops'.
    let deltas = counter_deltas samples params.rollover_window in
    ok (map (λ v. compute_oee v stops' deltas gaps) (w ∷ windows))

abbrev pub first_start : Instant → List OeeResult → Instant
first_start low [] = low
first_start low (r ∷ results) = first_start (min low r.window.start) results

abbrev pub latest_end : Instant → List OeeResult → Instant
latest_end top [] = top
latest_end top (r ∷ results) = latest_end (max top r.window.end) results

-- `sorted({a for r in results for a in r.anomalies})`: there is one anomaly.
abbrev pub anomaly_set : List OeeResult → List Anomaly
anomaly_set [] = []
anomaly_set (r ∷ results) = elim r.anomalies [ [] ↦ anomaly_set results | a ∷ more ↦ a ∷ [] ]

-- The fields of the total.
unfoldable pub total_of : List OeeResult → Window → OeeResult
total_of results window =
    let planned_s = sum_of (λ r. r.planned_s) results in
    let operating_s = sum_of (λ r. r.operating_s) results in
    let good_tct_s = sum_of (λ r. r.good_tct_s) results in
    let total_tct_s = sum_of (λ r. r.total_tct_s) results in
    let q = ratios planned_s operating_s good_tct_s total_tct_s in
    record {
      window = window;
      gap_s = sum_of (λ r. r.gap_s) results;
      opening_s = sum_of (λ r. r.opening_s) results;
      planned_stop_s = sum_of (λ r. r.planned_stop_s) results;
      planned_s = planned_s;
      fault_s = sum_of (λ r. r.fault_s) results;
      setup_s = sum_of (λ r. r.setup_s) results;
      starved_s = sum_of (λ r. r.starved_s) results;
      blocked_s = sum_of (λ r. r.blocked_s) results;
      manual_s = sum_of (λ r. r.manual_s) results;
      micro_s = sum_of (λ r. r.micro_s) results;
      operating_s = operating_s;
      good = sum_of (λ r. r.good) results;
      scrap = sum_of (λ r. r.scrap) results;
      good_tct_s = good_tct_s;
      total_tct_s = total_tct_s;
      dropped_parts = sum_of (λ r. r.dropped_parts) results;
      availability = q.availability;
      performance = q.performance;
      quality = q.quality;
      oee = q.oee;
      anomalies = anomaly_set results;
    }

unfoldable pub combine : List OeeResult → String → Result OeeResult
combine [] label = err nothing_to_combine
combine (first ∷ rest) label =
    make_window label (first_start first.window.start rest) (latest_end first.window.end rest)
    >>= λ window. ok (total_of (first ∷ rest) window)
