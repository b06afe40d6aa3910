-- ===== src/Simulator/Config.antt =====
-- The configuration of the simulator and its validation (simulator/cell_sim/config.py). Times of day are in
-- seconds, durations and rates that are drawn from are floats.
use cell_oee_demo.Prelude.{
  ℕ, ◌+◌, ◌*◌, Bool, true, false, ◌&&◌, Option, none, some, List, [], ◌∷◌, ◌==◌, ltb, if◌then◌else◌,
  any,
}
use cell_oee_demo.Simulator.World.{World}
use cell_oee_demo.Simulator.Model.{keys, mtbf_fault_codes, faults}

-- `Range`, in minutes
abbrev pub Range : World → Type 0
Range w = w.F × w.F

-- `_check_range`; `none` is the ValueError.
unfoldable pub check_range : (w : World) → Range w → Option (Range w)
check_range w (lo, hi) = if w.lt (w.real 0) lo && w.lt lo hi then some (lo, hi) else none

-- A shift, with `start` and `end` as hours and minutes.
pub record ShiftCfg : Type 0 where
  pub start : ℕ × ℕ
  pub end : ℕ × ℕ

-- The times that `_hhmm` lets pass.
unfoldable pub hhmm : ℕ × ℕ → Bool
hhmm (h, m) = ltb h 24 && ltb m 60

-- `_seconds`
unfoldable pub seconds : ℕ × ℕ → ℕ
seconds (h, m) = h * 3600 + m * 60

abbrev pub start_s : ShiftCfg → ℕ
start_s s = seconds s.start

abbrev pub end_s : ShiftCfg → ℕ
end_s s = seconds s.end

-- In microseconds.
pub record PlannedBreakCfg : Type 0 where
  pub offset : ℕ
  pub duration : ℕ

pub record CycleNoiseCfg (w : World) : Type 0 where
  pub mean_extra_s : w.F
  pub sigma : w.F

pub record CellCfg (w : World) : Type 0 where
  pub theoretical_cycle_s : w.F
  pub cycle_noise : CycleNoiseCfg w
  pub base_scrap_rate : w.F

pub record WearCfg (w : World) : Type 0 where
  pub irreversible_at_cap_life : w.F
  pub reversible_at_dressing_interval : w.F
  pub dressing_recovery : w.F
  pub dressing_material_loss : w.F
  pub drift_max_pct : w.F
  pub drift_exponent : w.F

-- `TipDressingCfg` and `CapChangeCfg`
pub record SetupCfg (w : World) : Type 0 where
  pub every_parts : ℕ
  pub jitter_pct : w.F
  pub duration_s : w.F

pub record WeldFaultCfg (w : World) : Type 0 where
  pub consecutive_nok_parts : ℕ
  pub duration_min : Range w

pub record WeldCfg (w : World) : Type 0 where
  pub points_per_part : ℕ
  pub nominal_current_ka : w.F
  pub tolerance_pct : w.F
  pub noise_sigma_pct : w.F
  pub noise_autocorrelation : w.F
  pub wear : WearCfg w
  pub tip_dressing : SetupCfg w
  pub cap_change : SetupCfg w
  pub fault_201 : WeldFaultCfg w

pub record FaultCfg (w : World) : Type 0 where
  pub mtbf_min : w.F
  pub duration_min : Range w

pub record StopProcessCfg (w : World) : Type 0 where
  pub rate_per_h : w.F
  pub p_short : w.F
  pub short_mean_s : w.F
  pub long_mean_min : w.F

pub record FlowCfg (w : World) : Type 0 where
  pub starved : StopProcessCfg w
  pub blocked : StopProcessCfg w

pub record ManualCfg (w : World) : Type 0 where
  pub after_faults : List ℕ
  pub probability : w.F
  pub duration_min : Range w

pub record CountersCfg : Type 0 where
  pub good : ℕ
  pub scrap : ℕ

-- In microseconds.
pub record HeartbeatFreezeCfg : Type 0 where
  pub every : ℕ
  pub duration : ℕ

pub record ChaosCfg : Type 0 where
  pub enabled : Bool
  pub counters_at_start : Option CountersCfg
  pub counter_reset_every : Option ℕ
  pub heartbeat_freeze : Option HeartbeatFreezeCfg

pub record SimConfig (w : World) : Type 0 where
  pub clock_start : ℕ
  pub shifts : List ShiftCfg
  pub planned_break : PlannedBreakCfg
  pub cell : CellCfg w
  pub weld : WeldCfg w
  pub faults : List (ℕ × FaultCfg w)
  pub flow : FlowCfg w
  pub manual : ManualCfg w
  pub chaos : ChaosCfg

abbrev pub is_in : ℕ → List ℕ → Bool
is_in n codes = any (λ c. c == n) codes

abbrev pub all_in : List ℕ → List ℕ → Bool
all_in [] codes = true
all_in (n ∷ ns) codes = is_in n codes && all_in ns codes

-- `_known_faults` lets the codes pass.
unfoldable pub known_faults : List ℕ → Bool
known_faults codes = all_in codes mtbf_fault_codes

abbrev pub same_time : ℕ × ℕ → ℕ × ℕ → Bool
same_time (h, m) (h', m') = h == h' && m == m'

-- The shifts after `cur`, each paired with the next one, and the last one with `first`.
unfoldable pub follow : ShiftCfg → ShiftCfg → List ShiftCfg → Bool
follow first cur [] = same_time cur.end first.start
follow first cur (nxt ∷ more) = same_time cur.end nxt.start && follow first nxt more

-- `_contiguous_shifts` lets the shifts pass.
unfoldable pub contiguous_shifts : List ShiftCfg → Bool
contiguous_shifts [] = false
contiguous_shifts (first ∷ more) = follow first first more

-- `_manual_codes_exist` lets the codes pass.
unfoldable pub manual_codes_exist : List ℕ → Bool
manual_codes_exist codes = all_in codes (keys faults)
