-- ===== src/Simulator/Ready/Start.antt =====
-- A simulation that has started is ready, and stays so.
use cell_oee_demo.Prelude.{ℕ, ◌<◌, ◌≡◌, refl, false, Option, none, some, List, arith, All, pos}
use cell_oee_demo.Simulator.Valid.{IsArithmetic, IsValidated}
use cell_oee_demo.Simulator.World.{World}
use cell_oee_demo.Simulator.Model.{uint32_range}
use cell_oee_demo.Simulator.Config.{SimConfig, CountersCfg, HeartbeatFreezeCfg}
use cell_oee_demo.Simulator.Shifts.{second}
use cell_oee_demo.Simulator.Host.{nothing, EventKind, chaos_freeze_start, chaos_counter_reset}
use cell_oee_demo.Simulator.Cell.{Simulation, ◌>>=◌, schedule, publish}
use cell_oee_demo.Simulator.Cell.Handlers.{set_counters, start_tags, announced, start, arm_break}
use cell_oee_demo.Simulator.Engine.{
  PersistedState, Streams, new_simulation, restored_cell, new_cell, apply_counters, apply_at_start,
  arm_freeze, arm_reset, arm, start_all,
}
use cell_oee_demo.Simulator.Ready.{Sure, is_kind, CoreOf, HasBeat, IsReady}
use cell_oee_demo.Simulator.Ready.Queue.{
  if-both, Sure-then, any-push-new, schedule-CoreOf, publish-CoreOf,
}
use cell_oee_demo.Simulator.Ready.Transitions.{resume-IsReady}
use cell_oee_demo.Simulator.Ready.Callbacks.{set_counters-CoreOf}
use cell_oee_demo.Simulator.Ready.Breaks.{IsArmed, arm_break-IsArmed}
use cell_oee_demo.Simulator.Ready.Injection.{schedule_next-IsReady}
use cell_oee_demo.Simulator.Ready.Runs.{
  Call, Output, calls, Lasts, IsIdle, IsPublished, drain-IsPublished, calls-IsIdle,
}

module _ (w : World) (cfg : SimConfig w) where
  -- The counters of the retentive data are those of a PLC.
  abbrev pub AreCounters : Option (PersistedState w) → Type 0
  AreCounters none = Unit
  AreCounters (some p) =
      (p.good_count < uint32_range) × (p.scrap_count < uint32_range) × (p.heartbeat < uint32_range)

  -- Not started: no window, no break, no callback.
  abbrev pub IsNew : Simulation w → Type 0
  IsNew s = CoreOf w cfg s × (s.cell.break_active ≡ false)

  pub new_simulation-IsNew :
      (laws : IsArithmetic w) (restored : Option (PersistedState w)) (streams : Streams w)
      → AreCounters restored
      → IsNew (new_simulation w cfg restored streams)
  unfolding new_simulation new_cell restored_cell
  new_simulation-IsNew laws none streams h =
      let zero_bound : 0 < uint32_range = omega arith in
      (
        record {
          sorted = tt;
          known = tt;
          stamped = tt;
          good_bound = zero_bound;
          scrap_bound = zero_bound;
          beats_bound = zero_bound;
          slot_forward = tt;
          len_forward = laws.real_zero;
        },
        refl,
      )
  new_simulation-IsNew laws (some p) streams (g, s, b) = (
    record {
      sorted = tt;
      known = tt;
      stamped = tt;
      good_bound = g;
      scrap_bound = s;
      beats_bound = b;
      slot_forward = tt;
      len_forward = laws.real_zero;
    },
    refl,
  )

  apply_counters-IsNew :
      (c : Option CountersCfg) (s : Simulation w) → IsNew s → IsNew (apply_counters w cfg c s)
  unfolding set_counters publish
  apply_counters-IsNew none s h = h
  apply_counters-IsNew (some c) s (core, off) =
      (set_counters-CoreOf w cfg c.good c.scrap s core, off)

  apply_at_start-IsNew : (s : Simulation w) → IsNew s → IsNew (apply_at_start w cfg s)
  unfolding apply_at_start
  apply_at_start-IsNew s h =
      if-both IsNew cfg.chaos.enabled (apply_counters w cfg cfg.chaos.counters_at_start s) s
        (λ e. apply_counters-IsNew cfg.chaos.counters_at_start s h) λ e. h

  arm_freeze-IsReady :
      (freeze : Option HeartbeatFreezeCfg) (s : Simulation w)
      → cfg.chaos.heartbeat_freeze ≡ freeze
      → IsReady w cfg s
      → IsReady w cfg (arm_freeze w cfg freeze s)
  arm_freeze-IsReady none s e h = h
  arm_freeze-IsReady (some freeze) s e h =
      schedule_next-IsReady w cfg chaos_freeze_start freeze.every s (rw e refl) h

  arm_reset-IsReady :
      (every : Option ℕ) (s : Simulation w)
      → cfg.chaos.counter_reset_every ≡ every
      → IsReady w cfg s
      → IsReady w cfg (arm_reset w cfg every s)
  arm_reset-IsReady none s e h = h
  arm_reset-IsReady (some every) s e h =
      schedule_next-IsReady w cfg chaos_counter_reset every s (rw e refl) h

  arm-IsReady : (s : Simulation w) → IsReady w cfg s → IsReady w cfg (arm w cfg s)
  unfolding arm
  arm-IsReady s h =
      let s' = arm_freeze w cfg cfg.chaos.heartbeat_freeze s in
      if-both (IsReady w cfg) cfg.chaos.enabled (arm_reset w cfg cfg.chaos.counter_reset_every s') s
        (λ e.
          arm_reset-IsReady cfg.chaos.counter_reset_every s' refl
            (arm_freeze-IsReady cfg.chaos.heartbeat_freeze s refl h))
        λ e. h

  announced-CoreOf : (s : Simulation w) → CoreOf w cfg s → CoreOf w cfg (announced w cfg s)
  announced-CoreOf s core =
      schedule-CoreOf w cfg (pos second) EventKind.heartbeat none nothing
        (publish w (start_tags w cfg s) s) tt tt (publish-CoreOf w cfg (start_tags w cfg s) s core)

  announced-HasBeat : (s : Simulation w) → HasBeat w cfg (announced w cfg s)
  unfolding schedule publish
  announced-HasBeat s = any-push-new w (is_kind w EventKind.heartbeat) _ s.heap refl

  announced-off :
      (s : Simulation w)
      → s.cell.break_active ≡ false
      → (announced w cfg s).cell.break_active ≡ false
  unfolding schedule publish
  announced-off s h = h

  module _ (laws : IsArithmetic w) (valid : IsValidated w cfg) where
    start-IsReady : (s : Simulation w) → IsNew s → Sure (IsReady w cfg) (start w cfg s)
    unfolding start
    start-IsReady s h =
        Sure-then (IsArmed w cfg ⊥) (IsReady w cfg) (arm_break w cfg s.now (announced w cfg s)) _
          (arm_break-IsArmed w cfg ⊥ s.now (announced w cfg s) valid.contiguous
            (announced-CoreOf s h.0) (announced-HasBeat s) (announced-off s h.1) λ q. elim q [ ])
          λ s' k. resume-IsReady w cfg s' laws valid k.0

    pub start_all-IsPublished :
        (s : Simulation w) → IsNew s → Sure (IsPublished w cfg) (start_all w cfg s)
    unfolding start_all
    start_all-IsPublished s h =
        Sure-then (IsReady w cfg) (IsPublished w cfg) (start w cfg (apply_at_start w cfg s)) _
          (start-IsReady (apply_at_start w cfg s) (apply_at_start-IsNew s h))
          λ s' ready. drain-IsPublished w cfg (arm w cfg s') (arm-IsReady s' ready)

    -- For a configuration that passes its validation, with or without retentive data whose counters fit
    -- 32 bits, and for floats and random draws that keep to `IsArithmetic` (positive floats do not overflow
    -- or underflow, `lognormvariate` draws positive ones and `expovariate` none below 0): the start and any
    -- number of events and forced faults of a duration that is neither 0 nor negative raise nothing, and
    -- after them the queue is in order from the current time on, the heartbeat and the next start or end of
    -- the planned break are in it, the counters and the heartbeat fit 32 bits, and the state of the cell has
    -- its way out: a slot of the current epoch for PRODUCING, the break for PLANNED_STOP, and the end of the
    -- stop, of the current epoch, for any other.
    pub run-IsIdle :
        (restored : Option (PersistedState w)) (streams : Streams w) (cs : List (Call w))
        → AreCounters restored
        → All (Lasts w cfg) cs
        → Sure
            (λ (r : Output w cfg). IsIdle w cfg r.1)
            (start_all w cfg (new_simulation w cfg restored streams) >>= λ (out, s).
              calls w cfg cs s)
    run-IsIdle restored streams cs h lasts =
        Sure-then (IsPublished w cfg) (λ (r : Output w cfg). IsIdle w cfg r.1)
          (start_all w cfg (new_simulation w cfg restored streams)) _
          (start_all-IsPublished (new_simulation w cfg restored streams)
            (new_simulation-IsNew laws restored streams h))
          λ r k. calls-IsIdle w cfg laws valid cs r.1 lasts k.0
