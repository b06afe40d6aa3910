-- ===== src/Oee/Compute.antt =====
-- OEE of one window (`compute_oee` in backend/app/oee/compute.py).
pub mod Accounting
pub mod Pointwise
pub mod Split
use cell_oee_demo.Prelude.{
  ℕ, ◌+◌, ◌*◌, Bool, true, false, not, ◌&&◌, none, some, List, [], ◌∷◌, ◌++◌, ltb, leb,
  if◌then◌else◌,
}
use cell_oee_demo.Oee.Types.{
  Window, ClassifiedStop, planned, loss, micro, CounterDelta, parts, Gap, Anomaly,
  parts_without_operating_time, OeeResult, total_parts,
}
use cell_oee_demo.Oee.Intervals.{Interval, merge, total, subtract}
use cell_oee_demo.Oee.Ratios.{ratios}
use cell_oee_demo.Oee.Observed.{overlaps_gap, gap_intervals, observed_intervals, within}

-- The names of `_LOSS_STATES`, which key the dict of losses.
pub data LossName : Type 0 where
  fault setup starved blocked manual : LossName

abbrev pub loss_states : List (ℕ × LossName)
loss_states = (3, fault) ∷ (4, setup) ∷ (5, starved) ∷ (6, blocked) ∷ (7, manual) ∷ []

-- `_anomalies`
abbrev pub anomalies_of : ℕ → ℕ → List Anomaly
anomalies_of operating_s total_parts =
    if ltb 0 total_parts && leb operating_s 0 then parts_without_operating_time ∷ [] else []

-- The loop over `_LOSS_STATES`: `mine` for a state is the result of `within`. Each second is
-- claimed once.
unfoldable pub claim :
    (ℕ → List Interval) → List (ℕ × LossName) → List Interval → List (LossName × ℕ) × List Interval
claim within_state [] taken = ([], taken)
claim within_state ((state, name) ∷ states) taken =
    let mine = subtract (within_state state) taken in
    let (losses, last) = claim within_state states (merge (taken ++ mine)) in
    ((name, total mine) ∷ losses, last)

abbrev pub same_loss : LossName → LossName → Bool
same_loss fault fault = true
same_loss setup setup = true
same_loss starved starved = true
same_loss blocked blocked = true
same_loss manual manual = true
same_loss _ _ = false

-- `losses[name]`
abbrev pub seconds_lost : LossName → List (LossName × ℕ) → ℕ
seconds_lost name [] = 0
seconds_lost name ((n, s) ∷ losses) = if same_loss name n then s else seconds_lost name losses

pub record Tally : Type 0 where
  pub good : ℕ
  pub scrap : ℕ
  pub dropped : ℕ
  pub good_tct_s : ℕ
  pub total_tct_s : ℕ

abbrev pub zero_tally : Tally
zero_tally = record { good = 0; scrap = 0; dropped = 0; good_tct_s = 0; total_tct_s = 0 }

-- One round of the loop over the deltas.
unfoldable pub tally_one : Window → List Gap → Tally → CounterDelta → Tally
tally_one w gaps t d =
    if not (leb w.start d.ts && ltb d.ts w.end)
    then t
    else if overlaps_gap d gaps
    then record t { dropped = t.dropped + parts d }
    else record t {
      good = t.good + d.good;
      scrap = t.scrap + d.scrap;
      good_tct_s = t.good_tct_s + d.good * d.theoretical_cycle_s;
      total_tct_s = t.total_tct_s + parts d * d.theoretical_cycle_s;
    }

unfoldable pub tally_deltas : Window → List Gap → Tally → List CounterDelta → Tally
tally_deltas w gaps t [] = t
tally_deltas w gaps t (d ∷ deltas) = tally_deltas w gaps (tally_one w gaps t d) deltas

unfoldable pub compute_oee : Window → List ClassifiedStop → List CounterDelta → List Gap → OeeResult
compute_oee w stops deltas gaps =
    let gap_iv = gap_intervals w gaps in
    let observed = observed_intervals w gaps in
    let planned_iv = within w stops observed planned none in
    let planned_s = total (subtract observed planned_iv) in
    let (losses, taken) =
      claim (λ state. within w stops observed loss (some state)) loss_states planned_iv in
    let operating_s = total (subtract observed taken) in
    let t = tally_deltas w gaps zero_tally deltas in
    let r = ratios planned_s operating_s t.good_tct_s t.total_tct_s in
    record {
      window = w;
      gap_s = total gap_iv;
      opening_s = total observed;
      planned_stop_s = total planned_iv;
      planned_s = planned_s;
      fault_s = seconds_lost fault losses;
      setup_s = seconds_lost setup losses;
      starved_s = seconds_lost starved losses;
      blocked_s = seconds_lost blocked losses;
      manual_s = seconds_lost manual losses;
      micro_s = total (subtract (within w stops observed micro none) taken);
      operating_s = operating_s;
      good = t.good;
      scrap = t.scrap;
      good_tct_s = t.good_tct_s;
      total_tct_s = t.total_tct_s;
      dropped_parts = t.dropped;
      availability = r.availability;
      performance = r.performance;
      quality = r.quality;
      oee = r.oee;
      anomalies = anomalies_of operating_s (t.good + t.scrap);
    }
