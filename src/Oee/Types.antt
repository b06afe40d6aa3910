-- ===== src/Oee/Types.antt =====
-- Plain data types of the OEE core (backend/app/oee/types.py). An instant is a timezone-aware
-- datetime, as whole microseconds since an epoch; a length of time is in microseconds too.
use cell_oee_demo.Prelude.{◌*◌, ℕ, ◌+◌, ◌-◌, Bool, Option, List, ltb, ◌==◌, ◌||◌, if◌then◌else◌}
use Prim.Native.String.{String}

abbrev pub Instant : Type 0
Instant = ℕ

-- What the functions of the core raise.
pub data OeeError : Type 0 where
  window_end_before_start producing_stop nothing_to_combine : OeeError
  time_accounting ratios_without_planned oee_mismatch product_mismatch : OeeError

pub data Result {ℓ} (A : Type ℓ) : Type ℓ where
  ok : A → Result A
  err : OeeError → Result A

infixl 5 ◌>>=◌
abbrev pub ◌>>=◌ {ℓ κ} : {A : Type ℓ} {B : Type κ} → Result A → (A → Result B) → Result B
ok a >>= f = f a
err e >>= f = err e

pub data StopKind : Type 0 where
  planned loss micro : StopKind

pub data DeltaKind : Type 0 where
  first normal rollover reset : DeltaKind

pub record Window : Type 0 where
  pub label : String
  pub start : Instant
  pub end : Instant

-- `Window(label, start, end)` with its `__post_init__`.
unfoldable pub make_window : String → Instant → Instant → Result Window
make_window label start end =
    if ltb end start
    then err window_end_before_start
    else ok (record { label = label; start = start; end = end })

-- A window that was built has `start` at most `end`.
abbrev pub length_s : Window → ℕ
length_s w = w.end - w.start

pub record StopRecord : Type 0 where
  pub start : Instant
  pub end : Option Instant
  pub state : ℕ

pub record ClassifiedStop : Type 0 where
  pub start : Instant
  pub end : Instant
  pub state : ℕ
  pub kind : StopKind

unfoldable pub is_induced : ClassifiedStop → Bool
is_induced s = s.state == 5 || s.state == 6

pub record CounterSample : Type 0 where
  pub ts : Instant
  pub good_total : ℕ
  pub scrap_total : ℕ
  pub theoretical_cycle_s : ℕ

pub record CounterDelta : Type 0 where
  pub ts : Instant
  pub prev_ts : Option Instant
  pub good : ℕ
  pub scrap : ℕ
  pub theoretical_cycle_s : ℕ
  pub kind : DeltaKind

abbrev pub parts : CounterDelta → ℕ
parts d = d.good + d.scrap

pub record Gap : Type 0 where
  pub start : Instant
  pub end : Option Instant

pub record OeeParams : Type 0 where
  pub micro_stop_s : ℕ
  pub rollover_window : ℕ

-- One second in microseconds.
abbrev pub second : ℕ
second = 1000000

abbrev pub default_params : OeeParams
default_params = record { micro_stop_s = 120 * second; rollover_window = 1000 }

pub record ShiftDef : Type 0 where
  pub name : String
  pub start_s : ℕ
  pub end_s : ℕ

pub record ShiftPlan : Type 0 where
  pub shifts : List ShiftDef
  pub day_start_s : ℕ

-- A ratio of two numbers, for a float that the source gets by division.
pub record Ratio : Type 0 where
  pub num : ℕ
  pub den : ℕ

pub data Anomaly : Type 0 where
  parts_without_operating_time : Anomaly

pub record OeeResult : Type 0 where
  pub window : Window
  pub gap_s : ℕ
  pub opening_s : ℕ
  pub planned_stop_s : ℕ
  pub planned_s : ℕ
  pub fault_s : ℕ
  pub setup_s : ℕ
  pub starved_s : ℕ
  pub blocked_s : ℕ
  pub manual_s : ℕ
  pub micro_s : ℕ
  pub operating_s : ℕ
  pub good : ℕ
  pub scrap : ℕ
  pub good_tct_s : ℕ
  pub total_tct_s : ℕ
  pub dropped_parts : ℕ
  pub availability : Option Ratio
  pub performance : Option Ratio
  pub quality : Option Ratio
  pub oee : Option Ratio
  pub anomalies : List Anomaly

abbrev pub total_parts : OeeResult → ℕ
total_parts r = r.good + r.scrap

abbrev pub loss_s : OeeResult → ℕ
loss_s r = r.fault_s + r.setup_s + r.starved_s + r.blocked_s + r.manual_s

abbrev pub induced_s : OeeResult → ℕ
induced_s r = r.starved_s + r.blocked_s
