-- ===== src/Oee/Grouped.antt =====
-- OEE by shift or by production day (`compute_oee_grouped` in backend/app/oee/compute.py).
pub mod Days
use cell_oee_demo.Prelude.{Bool, Option, none, some, List, [], ◌∷◌}
use Prim.Native.String.{String}
use cell_oee_demo.Oee.Types.{
  Instant, StopRecord, CounterSample, Gap, OeeParams, OeeResult, ShiftPlan, Result,
}
use cell_oee_demo.Oee.Windows.{make_windows}
use cell_oee_demo.Oee.Combine.{compute_oee_windows}

module _ (date_of : Instant → String) (shift_label : Instant → String → String) where
  -- `none` means that the loop of `make_windows` ran out of fuel.
  unfoldable pub compute_oee_grouped :
      Instant
      → Instant
      → Bool
      → ShiftPlan
      → List StopRecord
      → List CounterSample
      → List Gap
      → OeeParams
      → Option Instant
      → Option (Result (List OeeResult))
  compute_oee_grouped frm to by_shift plan stops samples gaps params until =
      elim (make_windows date_of shift_label frm to by_shift plan) [
        | none ↦ none
        | some windows ↦ some (compute_oee_windows windows stops samples gaps params until)
      ]
