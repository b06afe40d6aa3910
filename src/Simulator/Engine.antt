-- ===== src/Simulator/Engine.antt =====
-- The engine that runs the cell (simulator/cell_sim/engine.py), with the fault injection
-- (simulator/cell_sim/chaos.py) and the retentive data (simulator/cell_sim/persistence.py).
use cell_oee_demo.Prelude.{
  ℕ, suc, zero, ◌+◌, ◌-◌, ◌*◌, ◌/◌, max, Bool, true, false, Option, none, some, List, [], ◌∷◌, ◌++◌,
  leb, if◌then◌else◌, pos,
}
use cell_oee_demo.Simulator.World.{World}
use cell_oee_demo.Simulator.Model.{producing, TagChange}
use cell_oee_demo.Simulator.Config.{SimConfig, HeartbeatFreezeCfg, CountersCfg}
use cell_oee_demo.Simulator.Wear.{WearState, new_wear}
use cell_oee_demo.Simulator.Host.{
  Payload, nothing, EventKind, slot_end, interrupt, stop_end, break_start, break_end, heartbeat,
  chaos_freeze_start, chaos_freeze_end, chaos_counter_reset, Event,
}
use cell_oee_demo.Simulator.Cell.{Cell, Simulation, ◌>>=◌, schedule, threshold}
use cell_oee_demo.Simulator.Cell.Handlers.{
  is_current, set_counters, reset_plc, freeze_heartbeat, on_heartbeat, force_fault, start,
  on_slot_end, on_interrupt, on_stop_end, on_break_start, on_break_end,
}

-- `PersistedState`, of the version that is read back.
pub record PersistedState (w : World) : Type 0 where
  pub sim_time : ℕ
  pub high_water : ℕ
  pub clean_shutdown : Bool
  pub good_count : ℕ
  pub scrap_count : ℕ
  pub heartbeat : ℕ
  pub wear : WearState w
  pub next_dressing_parts : ℕ
  pub next_cap_change_parts : ℕ

-- The generators that `RngFactory` derives from the seed.
pub record Streams (w : World) : Type 0 where
  pub cycle : w.R
  pub quality : w.R
  pub jitter : w.R
  pub weld : w.R
  pub arrivals : w.R
  pub durations : w.R
  pub manual : w.R

module _ (w : World) where
  -- `resume_ts`
  unfoldable pub resume_ts : PersistedState w → ℕ
  resume_ts p = if p.clean_shutdown then p.sim_time else p.high_water

  -- `Cell.snapshot`
  abbrev pub cell_snapshot : Cell w → ℕ → ℕ → Bool → PersistedState w
  cell_snapshot c sim_time high_water clean = record {
    sim_time = sim_time;
    high_water = high_water;
    clean_shutdown = clean;
    good_count = c.good;
    scrap_count = c.scrap;
    heartbeat = c.heartbeat;
    wear = c.wear;
    next_dressing_parts = c.next_dressing;
    next_cap_change_parts = c.next_cap_change;
  }

  abbrev pub at_least_now : Option ℕ → ℕ → ℕ
  at_least_now none now = now
  at_least_now (some t) now = max now t

  -- `Simulation.snapshot`
  unfoldable pub snapshot : Bool → Option ℕ → ℕ → Simulation w → PersistedState w
  snapshot clean pacer_now lookahead s =
      let t = at_least_now pacer_now s.now in
      cell_snapshot s.cell t (if clean then t else t + lookahead) clean

  -- A new event of the fault injection, at the next multiple of its period.
  unfoldable pub schedule_next : EventKind → ℕ → Simulation w → Simulation w
  schedule_next kind period s =
      schedule w (pos ((s.now / period + 1) * period - s.now)) kind none nothing s

  abbrev pub drain : Simulation w → List (TagChange w) × Simulation w
  drain s = (s.changes, record s { changes = [] })

  module _ (cfg : SimConfig w) where
    -- The cell of `Cell.__init__` without retentive data.
    unfoldable pub new_cell : Streams w → Cell w
    new_cell streams =
        let (dressing, rng) = threshold w cfg.weld.tip_dressing streams.jitter in
        let (cap, rng') = threshold w cfg.weld.cap_change rng in
        record {
          good = 0;
          scrap = 0;
          heartbeat = 0;
          hb_frozen = false;
          next_dressing = dressing;
          next_cap_change = cap;
          dressing_due = false;
          cap_change_due = false;
          consecutive_weld_nok = 0;
          epoch = 0;
          state = producing;
          break_window = none;
          break_active = false;
          part_active = false;
          part_weld_ok = true;
          cycle_s = cfg.cell.theoretical_cycle_s;
          slot_idx = 0;
          slot_len = w.real 0;
          slot_remaining = pos 0;
          slot_end_ts = none;
          wear = new_wear w;
          cycle_rng = streams.cycle;
          quality_rng = streams.quality;
          jitter_rng = rng';
          weld_rng = streams.weld;
          arrivals = streams.arrivals;
          durations = streams.durations;
          manual_rng = streams.manual;
        }

    -- The cell of `Cell.__init__` from retentive data, which draws nothing.
    unfoldable pub restored_cell : PersistedState w → Streams w → Cell w
    restored_cell p streams = record (new_cell streams) {
      good = p.good_count;
      scrap = p.scrap_count;
      heartbeat = p.heartbeat;
      wear = p.wear;
      next_dressing = p.next_dressing_parts;
      next_cap_change = p.next_cap_change_parts;
      jitter_rng = streams.jitter;
    }

    abbrev pub at_time : Cell w → ℕ → Simulation w
    at_time c now = record {
      cell = c;
      now = now;
      heap = [];
      seq = 0;
      image = λ tag. none;
      changes = [];
    }

    -- `Simulation.__init__`
    unfoldable pub new_simulation : Option (PersistedState w) → Streams w → Simulation w
    new_simulation none streams = at_time (new_cell streams) cfg.clock_start
    new_simulation (some p) streams = at_time (restored_cell p streams) (resume_ts p)

    -- `apply_at_start`
    abbrev pub apply_counters : Option CountersCfg → Simulation w → Simulation w
    apply_counters none s = s
    apply_counters (some c) s = set_counters w c.good c.scrap s

    unfoldable pub apply_at_start : Simulation w → Simulation w
    apply_at_start s = if cfg.chaos.enabled then apply_counters cfg.chaos.counters_at_start s else s

    abbrev pub arm_freeze : Option HeartbeatFreezeCfg → Simulation w → Simulation w
    arm_freeze none s = s
    arm_freeze (some freeze) s = schedule_next chaos_freeze_start freeze.every s

    abbrev pub arm_reset : Option ℕ → Simulation w → Simulation w
    arm_reset none s = s
    arm_reset (some every) s = schedule_next chaos_counter_reset every s

    -- `arm`
    unfoldable pub arm : Simulation w → Simulation w
    arm s =
        if cfg.chaos.enabled
        then arm_reset cfg.chaos.counter_reset_every (arm_freeze cfg.chaos.heartbeat_freeze s)
        else s

    -- `_on_freeze_start`; `none` where its assertion fails.
    unfoldable pub on_freeze_start : Simulation w → Option (Simulation w)
    on_freeze_start s = cfg.chaos.heartbeat_freeze >>= λ freeze.
        some (
          schedule w (pos freeze.duration) chaos_freeze_end none nothing
            (freeze_heartbeat w true s))

    unfoldable pub on_freeze_end : Simulation w → Option (Simulation w)
    on_freeze_end s = cfg.chaos.heartbeat_freeze >>= λ freeze.
        some (schedule_next chaos_freeze_start freeze.every (freeze_heartbeat w false s))

    unfoldable pub on_counter_reset : Simulation w → Option (Simulation w)
    on_counter_reset s = cfg.chaos.counter_reset_every >>= λ every.
        some (schedule_next chaos_counter_reset every (reset_plc w s))

    -- A handler of a callback that carries its epoch.
    abbrev pub if_current :
        Option ℕ → (Simulation w → Option (Simulation w)) → Simulation w → Option (Simulation w)
    if_current epoch handler s = if is_current epoch s.cell.epoch then handler s else some s

    -- `self._handlers[kind](payload, epoch)`
    unfoldable pub handle : EventKind → Payload w → Option ℕ → Simulation w → Option (Simulation w)
    handle slot_end payload epoch s = if_current epoch (on_slot_end w cfg) s
    handle interrupt payload epoch s = if_current epoch (on_interrupt w cfg payload) s
    handle stop_end payload epoch s = if_current epoch (on_stop_end w cfg payload) s
    handle break_start payload epoch s = on_break_start w cfg s
    handle break_end payload epoch s = on_break_end w cfg s
    handle heartbeat payload epoch s = some (on_heartbeat w s)
    handle chaos_freeze_start payload epoch s = on_freeze_start s
    handle chaos_freeze_end payload epoch s = on_freeze_end s
    handle chaos_counter_reset payload epoch s = on_counter_reset s

    -- `Simulation.start`
    unfoldable pub start_all : Simulation w → Option (List (TagChange w) × Simulation w)
    start_all s = start w cfg (apply_at_start s) >>= λ s'. some (drain (arm s'))

    -- `step`; `none` also for an empty heap.
    unfoldable pub step_from :
        List (Event w) → Simulation w → Option (List (TagChange w) × Simulation w)
    step_from [] s = none
    step_from (e ∷ heap) s =
        handle e.kind e.payload e.epoch (record s { heap = heap; now = e.ts }) >>= λ s'.
        some (drain s')

    unfoldable pub step : Simulation w → Option (List (TagChange w) × Simulation w)
    step s = step_from s.heap s

    -- `self.next_event_time <= at`; `none` for an empty heap.
    abbrev pub is_due : List (Event w) → ℕ → Option Bool
    is_due [] at = none
    is_due (e ∷ heap) at = some (leb e.ts at)

    -- `run_until`, for at most as many events as there is fuel.
    unfoldable pub run_until : ℕ → ℕ → Simulation w → Option (List (TagChange w) × Simulation w)
    run_until zero end_ts s = none
    run_until (suc fuel) end_ts s = is_due s.heap end_ts >>= λ due. elim due [
      | false ↦ some ([], s)
      | true ↦ step s >>= λ (out, s').
          run_until fuel end_ts s' >>= λ (more, s''). some (out ++ more, s'')
    ]

    -- What `force_fault` returns, after the clock has moved.
    abbrev pub outcome :
        Simulation w → Option (Simulation w) → Option (List (TagChange w)) × Simulation w
    outcome moved none = (none, moved)
    outcome moved (some s) = (some (drain s).0, (drain s).1)

    -- `Simulation.force_fault`; the inner `none` is the refusal, which keeps the clock's move.
    unfoldable pub force :
        ℕ → w.F → ℕ → Simulation w → Option (Option (List (TagChange w)) × Simulation w)
    force code duration at s = is_due s.heap at >>= λ due.
        if due
        then some (none, s)
        else (force_fault w cfg code duration (record s { now = max s.now at }) >>= λ done.
            some (outcome (record s { now = max s.now at }) done))
