-- ===== src/Simulator/Cell.antt =====
-- The cell: its state, and the transitions between its states (simulator/cell_sim/cell.py). An operation
-- takes the simulation to the next; `none` is a KeyError, a ValueError or an AssertionError.
pub mod Handlers
use cell_oee_demo.Prelude.{
  ℕ, suc, ◌+◌, ◌-◌, ◌%◌, max, Bool, true, false, not, ◌&&◌, ◌||◌, Option, none, some, List, [], ◌∷◌,
  ◌==◌, ltb, leb, if◌then◌else◌, ℤ, pos, negsuc,
}
use cell_oee_demo.Domain.{Scope}
use cell_oee_demo.Collector.Types.{
  Tag, Station, op10, op20, op30, cell_state, cell_mode, cell_fault, cell_origin, good, scrap,
  heartbeat, station_state, station_fault, station_code,
}
use cell_oee_demo.Simulator.World.{World}
use cell_oee_demo.Simulator.Model.{
  CellState, producing, planned_stop, state_code, Mode, auto, mode_code, fault_station,
  default_origin, TagValue, int, TagChange,
}
use cell_oee_demo.Simulator.Config.{SimConfig, SetupCfg}
use cell_oee_demo.Simulator.Wear.{WearState}
use cell_oee_demo.Simulator.Faults.{Interruption, next_interruption, fault_duration_s}
use cell_oee_demo.Simulator.Shifts.{BreakWindow}
use cell_oee_demo.Simulator.Host.{
  SetupKind, dressing, cap_change, StopKind, Payload, nothing, interruption, stopped, EventKind,
  slot_end, interrupt, stop_end, Event, Image, push, set_tags,
}

-- The fields of `Cell`, with the generators that it and its parts draw from.
pub record Cell (w : World) : Type 0 where
  pub good : ℕ
  pub scrap : ℕ
  pub heartbeat : ℕ
  pub hb_frozen : Bool
  pub next_dressing : ℕ
  pub next_cap_change : ℕ
  pub dressing_due : Bool
  pub cap_change_due : Bool
  pub consecutive_weld_nok : ℕ
  pub epoch : ℕ
  pub state : CellState
  pub break_window : Option BreakWindow
  pub break_active : Bool
  pub part_active : Bool
  pub part_weld_ok : Bool
  pub cycle_s : w.F
  pub slot_idx : ℕ
  pub slot_len : w.F
  pub slot_remaining : ℤ
  pub slot_end_ts : Option ℕ
  pub wear : WearState w
  pub cycle_rng : w.R
  pub quality_rng : w.R
  pub jitter_rng : w.R
  pub weld_rng : w.R
  pub arrivals : w.R
  pub durations : w.R
  pub manual_rng : w.R

-- The fields of `Simulation`; a heap is in the order of its events.
pub record Simulation (w : World) : Type 0 where
  pub cell : Cell w
  pub now : ℕ
  pub heap : List (Event w)
  pub seq : ℕ
  pub image : Image w
  pub changes : List (TagChange w)

-- The instant after a delay; a negative one goes back, to the origin of the clock at most.
abbrev pub after_delay : ℕ → ℤ → ℕ
after_delay now (pos n) = now + n
after_delay now (negsuc n) = now - suc n

infixl 5 ◌>>=◌
abbrev pub ◌>>=◌ {ℓ κ} : {A : Type ℓ} {B : Type κ} → Option A → (A → Option B) → Option B
none >>= f = none
some x >>= f = f x

module _ (w : World) where
  -- `Simulation.schedule`
  unfoldable pub schedule : ℤ → EventKind → Option ℕ → Payload w → Simulation w → Simulation w
  schedule delay kind epoch payload s = record s {
    heap =
        push w
          (record {
            ts = after_delay s.now delay;
            seq = s.seq;
            kind = kind;
            epoch = epoch;
            payload = payload;
          })
          s.heap;
    seq = suc s.seq;
  }

  -- Several calls of `Simulation.set_tag`.
  unfoldable pub publish : List (Tag × TagValue w) → Simulation w → Simulation w
  publish tags s = record s {
    image = (set_tags w s.now tags (s.image, s.changes)).0;
    changes = (set_tags w s.now tags (s.image, s.changes)).1;
  }

  -- A change of the cell's fields.
  abbrev pub with_cell : (Cell w → Cell w) → Simulation w → Simulation w
  with_cell f s = record s { cell = f s.cell }

  abbrev pub remaining : Option ℕ → ℕ → ℤ → ℤ
  remaining none now old = old
  remaining (some end_ts) now old = pos (end_ts - now)

  abbrev pub is_at : Option Scope → Station → Bool
  is_at (some Scope.op10) op10 = true
  is_at (some Scope.op20) op20 = true
  is_at (some Scope.op30) op30 = true
  is_at _ _ = false

  abbrev pub code_at : ℕ → Station → ℕ
  code_at code station = if is_at (fault_station code) station then code else 0

  abbrev pub state_tags : CellState → ℕ → Mode → ℕ → List (Tag × TagValue w)
  state_tags state code mode origin =
      (cell_state, int (state_code state))
      ∷ (cell_mode, int (mode_code mode))
      ∷ (cell_fault, int code)
      ∷ (cell_origin, int origin)
      ∷ (station_state op10, int (state_code state))
      ∷ (station_fault op10, int (code_at code op10))
      ∷ (station_state op20, int (state_code state))
      ∷ (station_fault op20, int (code_at code op20))
      ∷ (station_state op30, int (state_code state))
      ∷ (station_fault op30, int (code_at code op30))
      ∷ []

  -- `_enter`, once the origin is known.
  unfoldable pub entered : CellState → ℕ → Mode → ℕ → Simulation w → Simulation w
  entered state code mode origin s = publish (state_tags state code mode origin) (record s {
    cell = record s.cell {
      slot_remaining = remaining s.cell.slot_end_ts s.now s.cell.slot_remaining;
      slot_end_ts = none;
      epoch = suc s.cell.epoch;
      state = state;
    };
  })

  -- `_enter` with the origin that the state implies.
  unfoldable pub enter : CellState → ℕ → Simulation w → Option (Simulation w)
  enter state code s =
      default_origin state code >>= λ origin. some (entered state code auto origin s)

  -- `_stop_for`
  unfoldable pub stop_for : w.F → StopKind → Simulation w → Simulation w
  stop_for duration kind s =
      schedule (w.micros duration) stop_end (some s.cell.epoch) (stopped kind) s

  -- `_threshold`
  unfoldable pub threshold : SetupCfg w → w.R → ℕ × w.R
  threshold setup rng =
      let (u, rng') = w.uniform setup.jitter_pct rng in
      let factor = w.add (w.real 1) (w.div u (w.real 100)) in
      (max 1 (w.round (w.mul (w.real setup.every_parts) factor)), rng')

  -- `_schedule_slot`
  unfoldable pub schedule_slot : Simulation w → Simulation w
  schedule_slot s =
      schedule s.cell.slot_remaining slot_end (some s.cell.epoch) nothing
        (with_cell (λ c. record c { slot_end_ts = some (after_delay s.now c.slot_remaining) }) s)

  -- `_start_setup`
  unfoldable pub start_setup : SetupKind → w.F → Simulation w → Option (Simulation w)
  start_setup kind duration s = enter CellState.setup 0 s >>= λ s'. some (
      stop_for duration (StopKind.setup kind) (
        with_cell
          (λ c. record c {
            dressing_due = false;
            cap_change_due = elim kind [ dressing ↦ c.cap_change_due | cap_change ↦ false ];
          })
          s'))

  module _ (cfg : SimConfig w) where
    -- `_sample_cycle_s`
    unfoldable pub sample_cycle_s : w.R → w.F × w.R
    sample_cycle_s rng =
        let noise = cfg.cell.cycle_noise in
        let mu =
          w.sub (w.log noise.mean_extra_s) (w.div (w.mul noise.sigma noise.sigma) (w.real 2)) in
        let (extra, rng') = w.lognormvariate mu noise.sigma rng in
        (w.add cfg.cell.theoretical_cycle_s extra, rng')

    -- A new part, unless one is in progress.
    unfoldable pub begin_part : Cell w → Cell w
    begin_part c =
        let (cycle, rng) = sample_cycle_s c.cycle_rng in
        let len = w.div cycle (w.real cfg.weld.points_per_part) in
        if c.part_active then c else record c {
          cycle_s = cycle;
          cycle_rng = rng;
          slot_len = len;
          slot_idx = 0;
          slot_remaining = w.micros len;
          part_weld_ok = true;
          part_active = true;
        }

    -- The interruption that may come.
    unfoldable pub arm_interrupt : Simulation w → Simulation w
    arm_interrupt s =
        let (it, rng) = next_interruption w cfg s.cell.arrivals in
        let s' : Simulation w = with_cell (λ c. record c { arrivals = rng }) s in
        elim it [
          | none ↦ s'
          | some i ↦
              schedule (w.micros i.delay_s) interrupt (some s'.cell.epoch) (interruption i) s'
        ]

    -- `_start_producing`
    unfoldable pub start_producing : Simulation w → Option (Simulation w)
    start_producing s =
        enter producing 0 s >>= λ s'. some (arm_interrupt (schedule_slot (with_cell begin_part s')))

    -- `_resume`
    unfoldable pub resume : Simulation w → Option (Simulation w)
    resume s =
        if s.cell.break_active
        then enter planned_stop 0 s
        else if s.cell.cap_change_due
        then start_setup cap_change cfg.weld.cap_change.duration_s s
        else if s.cell.dressing_due
        then start_setup dressing cfg.weld.tip_dressing.duration_s s
        else start_producing s

    -- `duration_s or self._dist.fault_duration_s(code)`
    unfoldable pub fault_seconds : ℕ → Option w.F → w.R → Option (w.F × w.R)
    fault_seconds code none rng = fault_duration_s w cfg code rng
    fault_seconds code (some d) rng =
        if w.eq d (w.real 0) then fault_duration_s w cfg code rng else some (d, rng)

    -- `_enter_fault`
    unfoldable pub enter_fault : ℕ → Option w.F → Simulation w → Option (Simulation w)
    enter_fault code duration s = enter CellState.fault code s >>= λ s'.
        fault_seconds code duration s'.cell.durations >>= λ (d, rng).
        some (stop_for d (StopKind.fault code) (with_cell (λ c. record c { durations = rng }) s'))
