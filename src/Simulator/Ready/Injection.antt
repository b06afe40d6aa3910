-- ===== src/Simulator/Ready/Injection.antt =====
-- The heartbeat, and the fault injection.
use cell_oee_demo.Prelude.{
  ℕ, suc, ◌<◌, ◌≡◌, refl, Bool, true, false, Option, none, List, [], ◌∷◌, arith, is_some, ℤ, pos,
}
use cell_oee_demo.Simulator.Valid.{IsForward}
use cell_oee_demo.Collector.Types.{Tag, heartbeat}
use cell_oee_demo.Simulator.World.{World}
use cell_oee_demo.Simulator.Model.{TagValue, int, masked, uint32_range}
use cell_oee_demo.Simulator.Config.{SimConfig}
use cell_oee_demo.Simulator.Shifts.{second}
use cell_oee_demo.Simulator.Host.{
  Payload, nothing, EventKind, chaos_freeze_start, chaos_freeze_end, chaos_counter_reset,
}
use cell_oee_demo.Simulator.Cell.{Simulation, schedule, publish, with_cell}
use cell_oee_demo.Simulator.Cell.Handlers.{
  set_counters, reset_plc, freeze_heartbeat, beat_once, on_heartbeat,
}
use cell_oee_demo.Simulator.Engine.{schedule_next, on_freeze_start, on_freeze_end, on_counter_reset}
use cell_oee_demo.Simulator.Ready.{Sure, is_kind, IsKnown, CoreOf, HasBreak, HasWay, IsReady}
use cell_oee_demo.Simulator.Ready.Queue.{
  if-both, any-push-new, push-NextBreak, schedule-CoreOf, schedule-IsFree, schedule-HasWay,
  publish-CoreOf,
}
use cell_oee_demo.Simulator.Ready.Callbacks.{masked-bound, set_counters-CoreOf}
use cell_oee_demo.Simulator.Ready.Breaks.{Sure-some}

module _ (w : World) (cfg : SimConfig w) where
  set_beats-CoreOf :
      (n : ℕ) (s : Simulation w)
      → n < uint32_range
      → CoreOf w cfg s
      → CoreOf w cfg (with_cell w (λ c. record c { heartbeat = n }) s)
  set_beats-CoreOf n s lt core = record {
    sorted = core.sorted;
    known = core.known;
    stamped = core.stamped;
    good_bound = core.good_bound;
    scrap_bound = core.scrap_bound;
    beats_bound = lt;
    slot_forward = core.slot_forward;
    len_forward = core.len_forward;
  }

  -- Ready, but that the next beat is to be scheduled.
  abbrev IsSteady : Simulation w → Type 0
  IsSteady s = CoreOf w cfg s × (HasBreak w cfg s × HasWay w cfg s)

  beat_once-IsSteady : (s : Simulation w) → IsSteady s → IsSteady (beat_once w s)
  unfolding beat_once publish
  beat_once-IsSteady s (core, (next, way)) =
      let beat = masked (suc s.cell.heartbeat) in
      let tags : List (Tag × TagValue w) = (heartbeat, int beat) ∷ [] in
      let s₁ : Simulation w = with_cell w (λ c. record c { heartbeat = beat }) s in
      if-both IsSteady s.cell.hb_frozen s (publish w tags s₁) (λ e. (core, (next, way)))
        λ e. (
          publish-CoreOf w cfg tags s₁
              (set_beats-CoreOf beat s (masked-bound (suc s.cell.heartbeat)) core),
          (next, way),
        )

  pub on_heartbeat-IsReady :
      (s : Simulation w)
      → CoreOf w cfg s
      → HasBreak w cfg s
      → HasWay w cfg s
      → IsReady w cfg (on_heartbeat w s)
  unfolding on_heartbeat schedule
  on_heartbeat-IsReady s core next way =
      let s₁ = beat_once w s in
      let (core₁, (next₁, way₁)) = beat_once-IsSteady s (core, (next, way)) in
      (
        (
          schedule-CoreOf w cfg (pos second) EventKind.heartbeat none nothing s₁ tt tt core₁,
          any-push-new w (is_kind w EventKind.heartbeat) _ s₁.heap refl,
          (push-NextBreak w s₁.cell.break_active _ s₁.heap next₁.0, next₁.1),
        ),
        schedule-HasWay w cfg (pos second) EventKind.heartbeat none nothing s₁ way₁,
      )

  pub set_counters-IsReady :
      (g sc : ℕ) (s : Simulation w) → IsReady w cfg s → IsReady w cfg (set_counters w g sc s)
  unfolding set_counters publish
  set_counters-IsReady g sc s ((core, beat, next), way) =
      ((set_counters-CoreOf w cfg g sc s core, beat, next), way)

  reset_plc-IsReady : (s : Simulation w) → IsReady w cfg s → IsReady w cfg (reset_plc w s)
  unfolding reset_plc publish
  reset_plc-IsReady s h =
      let s₁ = set_counters w 0 0 s in
      let ((core, beat, next), way) = set_counters-IsReady 0 0 s h in
      let zero_bound : 0 < uint32_range = omega arith in
      (
        (
          publish-CoreOf w cfg ((heartbeat, int 0) ∷ [])
              (with_cell w (λ c. record c { heartbeat = 0 }) s₁)
              (set_beats-CoreOf 0 s₁ zero_bound core),
          beat,
          next,
        ),
        way,
      )

  pub schedule-IsReady :
      (delay : ℤ) (kind : EventKind) (epoch : Option ℕ) (payload : Payload w) (s : Simulation w)
      → IsForward delay
      → IsKnown w cfg kind payload
      → IsReady w cfg s
      → IsReady w cfg (schedule w delay kind epoch payload s)
  schedule-IsReady delay kind epoch payload s f known (free, way) = (
    schedule-IsFree w cfg delay kind epoch payload s f known free,
    schedule-HasWay w cfg delay kind epoch payload s way,
  )

  pub schedule_next-IsReady :
      (kind : EventKind) (period : ℕ) (s : Simulation w)
      → IsKnown w cfg kind nothing
      → IsReady w cfg s
      → IsReady w cfg (schedule_next w kind period s)
  unfolding schedule_next
  schedule_next-IsReady kind period s known h = schedule-IsReady _ kind none nothing s tt known h

  freeze_heartbeat-IsReady :
      (frozen : Bool) (s : Simulation w)
      → IsReady w cfg s
      → IsReady w cfg (freeze_heartbeat w frozen s)
  unfolding freeze_heartbeat
  freeze_heartbeat-IsReady frozen s h = h

  pub on_freeze_start-IsReady :
      (s : Simulation w)
      → is_some cfg.chaos.heartbeat_freeze ≡ true
      → IsReady w cfg s
      → Sure (IsReady w cfg) (on_freeze_start w cfg s)
  unfolding on_freeze_start
  on_freeze_start-IsReady s known h =
      Sure-some (IsReady w cfg) cfg.chaos.heartbeat_freeze _ known λ freeze e.
        schedule-IsReady (pos freeze.duration) chaos_freeze_end none nothing
          (freeze_heartbeat w true s) tt known (freeze_heartbeat-IsReady true s h)

  pub on_freeze_end-IsReady :
      (s : Simulation w)
      → is_some cfg.chaos.heartbeat_freeze ≡ true
      → IsReady w cfg s
      → Sure (IsReady w cfg) (on_freeze_end w cfg s)
  unfolding on_freeze_end
  on_freeze_end-IsReady s known h =
      Sure-some (IsReady w cfg) cfg.chaos.heartbeat_freeze _ known λ freeze e.
        schedule_next-IsReady chaos_freeze_start freeze.every (freeze_heartbeat w false s) known
          (freeze_heartbeat-IsReady false s h)

  pub on_counter_reset-IsReady :
      (s : Simulation w)
      → is_some cfg.chaos.counter_reset_every ≡ true
      → IsReady w cfg s
      → Sure (IsReady w cfg) (on_counter_reset w cfg s)
  unfolding on_counter_reset
  on_counter_reset-IsReady s known h =
      Sure-some (IsReady w cfg) cfg.chaos.counter_reset_every _ known λ every e.
        schedule_next-IsReady chaos_counter_reset every (reset_plc w s) known
          (reset_plc-IsReady s h)
