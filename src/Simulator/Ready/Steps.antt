-- ===== src/Simulator/Ready/Steps.antt =====
-- Every event finds the simulation ready, and leaves it so.
use cell_oee_demo.Prelude.{ℕ, ◌≡◌, refl, Bool, true, false, Option, some, List, ◌∷◌, any, is_some}
use cell_oee_demo.Simulator.Valid.{IsArithmetic, IsValidated}
use cell_oee_demo.Simulator.World.{World}
use cell_oee_demo.Simulator.Model.{
  CellState, producing, planned_stop, fault, setup, starved, blocked, manual,
}
use cell_oee_demo.Simulator.Config.{SimConfig}
use cell_oee_demo.Simulator.Host.{
  Payload, EventKind, slot_end, interrupt, stop_end, break_start, break_end, heartbeat,
  chaos_freeze_start, chaos_freeze_end, chaos_counter_reset, Event,
}
use cell_oee_demo.Simulator.Cell.{Simulation}
use cell_oee_demo.Simulator.Cell.Handlers.{is_current, on_slot_end, on_interrupt, on_stop_end}
use cell_oee_demo.Simulator.Engine.{handle}
use cell_oee_demo.Simulator.Ready.{
  Sure, is_kind, is_live, WayOut, NextBreak, IsKnown, CoreOf, IsFree, HasWay, IsReady,
}
use cell_oee_demo.Simulator.Ready.Queue.{if-both}
use cell_oee_demo.Simulator.Ready.Transitions.{StillWay}
use cell_oee_demo.Simulator.Ready.Callbacks.{
  on_slot_end-IsReady, on_interrupt-IsReady, on_stop_end-IsReady,
}
use cell_oee_demo.Simulator.Ready.Breaks.{on_break_start-IsReady, on_break_end-IsReady}
use cell_oee_demo.Simulator.Ready.Injection.{
  on_heartbeat-IsReady, on_freeze_start-IsReady, on_freeze_end-IsReady, on_counter_reset-IsReady,
}

module _ (w : World) where
  any-skip :
      (p : Event w → Bool) (e : Event w) (heap : List (Event w))
      → p e ≡ false
      → any p (e ∷ heap) ≡ true
      → any p heap ≡ true
  any-skip p e heap q h = let k = rw q at h in k

  NextBreak-skip :
      (active : Bool) (e : Event w) (heap : List (Event w))
      → is_kind w break_start e ≡ false
      → is_kind w break_end e ≡ false
      → NextBreak w active (e ∷ heap)
      → NextBreak w active heap
  NextBreak-skip true e heap s b h = any-skip (is_kind w break_end) e heap b h
  NextBreak-skip false e heap s b h = any-skip (is_kind w break_start) e heap s h

  StillWay-skip :
      (state : CellState) (epoch : ℕ) (active : Bool) (e : Event w) (heap : List (Event w))
      → is_live w stop_end epoch e ≡ false
      → WayOut w state epoch active (e ∷ heap)
      → StillWay w state epoch active heap
  StillWay-skip producing epoch active e heap l h = tt
  StillWay-skip planned_stop epoch active e heap l h = h
  StillWay-skip fault epoch active e heap l h = any-skip (is_live w stop_end epoch) e heap l h
  StillWay-skip setup epoch active e heap l h = any-skip (is_live w stop_end epoch) e heap l h
  StillWay-skip starved epoch active e heap l h = any-skip (is_live w stop_end epoch) e heap l h
  StillWay-skip blocked epoch active e heap l h = any-skip (is_live w stop_end epoch) e heap l h
  StillWay-skip manual epoch active e heap l h = any-skip (is_live w stop_end epoch) e heap l h

  WayOut-skip :
      (state : CellState) (epoch : ℕ) (active : Bool) (e : Event w) (heap : List (Event w))
      → is_live w slot_end epoch e ≡ false
      → is_live w stop_end epoch e ≡ false
      → WayOut w state epoch active (e ∷ heap)
      → WayOut w state epoch active heap
  WayOut-skip producing epoch active e heap p l h = any-skip (is_live w slot_end epoch) e heap p h
  WayOut-skip planned_stop epoch active e heap p l h = h
  WayOut-skip fault epoch active e heap p l h = any-skip (is_live w stop_end epoch) e heap l h
  WayOut-skip setup epoch active e heap p l h = any-skip (is_live w stop_end epoch) e heap l h
  WayOut-skip starved epoch active e heap p l h = any-skip (is_live w stop_end epoch) e heap l h
  WayOut-skip blocked epoch active e heap p l h = any-skip (is_live w stop_end epoch) e heap l h
  WayOut-skip manual epoch active e heap p l h = any-skip (is_live w stop_end epoch) e heap l h

  module _ (cfg : SimConfig w) where
    -- The simulation from which the event has just been taken.
    pub record Popped (e : Event w) (s : Simulation w) : Type 0 where
      pub known : IsKnown w cfg e.kind e.payload
      pub core : CoreOf w cfg s
      pub beat : any (is_kind w heartbeat) (e ∷ s.heap) ≡ true
      pub next : NextBreak w s.cell.break_active (e ∷ s.heap)
      pub armed : is_some s.cell.break_window ≡ true
      pub way : WayOut w s.cell.state s.cell.epoch s.cell.break_active (e ∷ s.heap)

    Popped-IsFree :
        (e : Event w) (s : Simulation w)
        → Popped e s
        → is_kind w heartbeat e ≡ false
        → is_kind w break_start e ≡ false
        → is_kind w break_end e ≡ false
        → IsFree w cfg s
    Popped-IsFree e s h a b c = (
      h.core,
      any-skip (is_kind w heartbeat) e s.heap a h.beat,
      (NextBreak-skip s.cell.break_active e s.heap b c h.next, h.armed),
    )

    Popped-HasWay :
        (e : Event w) (s : Simulation w)
        → Popped e s
        → is_live w slot_end s.cell.epoch e ≡ false
        → is_live w stop_end s.cell.epoch e ≡ false
        → HasWay w cfg s
    Popped-HasWay e s h a b =
        WayOut-skip s.cell.state s.cell.epoch s.cell.break_active e s.heap a b h.way

    module _ (laws : IsArithmetic w) (valid : IsValidated w cfg) where
      pub handle-IsReady :
          (ts seq : ℕ) (kind : EventKind) (epoch : Option ℕ) (payload : Payload w)
          (s : Simulation w)
          → Popped (record { ts = ts; seq = seq; kind = kind; epoch = epoch; payload = payload }) s
          → Sure (IsReady w cfg) (handle w cfg kind payload epoch s)
      unfolding handle
      handle-IsReady ts seq slot_end epoch payload s h =
          let e : Event w = record {
            ts = ts;
            seq = seq;
            kind = slot_end;
            epoch = epoch;
            payload = payload;
          } in
          let free = Popped-IsFree e s h refl refl refl in
          let still =
            StillWay-skip s.cell.state s.cell.epoch s.cell.break_active e s.heap refl h.way in
          if-both (Sure (IsReady w cfg)) (is_current epoch s.cell.epoch) (on_slot_end w cfg s)
            (some s) (λ c. on_slot_end-IsReady w cfg laws valid s free still)
            λ c. (free, Popped-HasWay e s h c refl)
      handle-IsReady ts seq interrupt epoch payload s h =
          let e : Event w = record {
            ts = ts;
            seq = seq;
            kind = interrupt;
            epoch = epoch;
            payload = payload;
          } in
          let free = Popped-IsFree e s h refl refl refl in
          if-both (Sure (IsReady w cfg)) (is_current epoch s.cell.epoch)
            (on_interrupt w cfg payload s) (some s)
            (λ c. on_interrupt-IsReady w cfg laws valid payload s h.known free)
            λ c. (free, Popped-HasWay e s h refl refl)
      handle-IsReady ts seq stop_end epoch payload s h =
          let e : Event w = record {
            ts = ts;
            seq = seq;
            kind = stop_end;
            epoch = epoch;
            payload = payload;
          } in
          let free = Popped-IsFree e s h refl refl refl in
          if-both (Sure (IsReady w cfg)) (is_current epoch s.cell.epoch)
            (on_stop_end w cfg payload s) (some s)
            (λ c. on_stop_end-IsReady w cfg laws valid payload s h.known free)
            λ c. (free, Popped-HasWay e s h refl c)
      handle-IsReady ts seq break_start epoch payload s h =
          let e : Event w = record {
            ts = ts;
            seq = seq;
            kind = break_start;
            epoch = epoch;
            payload = payload;
          } in
          on_break_start-IsReady w cfg laws valid s h.core
            (any-skip (is_kind w heartbeat) e s.heap refl h.beat) h.armed
            (Popped-HasWay e s h refl refl)
      handle-IsReady ts seq break_end epoch payload s h =
          let e : Event w = record {
            ts = ts;
            seq = seq;
            kind = break_end;
            epoch = epoch;
            payload = payload;
          } in
          on_break_end-IsReady w cfg laws valid s h.core
            (any-skip (is_kind w heartbeat) e s.heap refl h.beat) h.armed
            (Popped-HasWay e s h refl refl)
      handle-IsReady ts seq heartbeat epoch payload s h =
          let e : Event w = record {
            ts = ts;
            seq = seq;
            kind = heartbeat;
            epoch = epoch;
            payload = payload;
          } in
          on_heartbeat-IsReady w cfg s h.core
            (NextBreak-skip s.cell.break_active e s.heap refl refl h.next, h.armed)
            (Popped-HasWay e s h refl refl)
      handle-IsReady ts seq chaos_freeze_start epoch payload s h =
          let e : Event w = record {
            ts = ts;
            seq = seq;
            kind = chaos_freeze_start;
            epoch = epoch;
            payload = payload;
          } in
          on_freeze_start-IsReady w cfg s h.known
            (Popped-IsFree e s h refl refl refl, Popped-HasWay e s h refl refl)
      handle-IsReady ts seq chaos_freeze_end epoch payload s h =
          let e : Event w = record {
            ts = ts;
            seq = seq;
            kind = chaos_freeze_end;
            epoch = epoch;
            payload = payload;
          } in
          on_freeze_end-IsReady w cfg s h.known
            (Popped-IsFree e s h refl refl refl, Popped-HasWay e s h refl refl)
      handle-IsReady ts seq chaos_counter_reset epoch payload s h =
          let e : Event w = record {
            ts = ts;
            seq = seq;
            kind = chaos_counter_reset;
            epoch = epoch;
            payload = payload;
          } in
          on_counter_reset-IsReady w cfg s h.known
            (Popped-IsFree e s h refl refl refl, Popped-HasWay e s h refl refl)
