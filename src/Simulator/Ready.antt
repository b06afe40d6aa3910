-- ===== src/Simulator/Ready.antt =====
-- When the simulation is ready for its next event: its queue is in order, every state of the cell has a way
-- out in the queue, and no payload in it makes a handler raise.
pub mod Queue
pub mod Durations
pub mod Disturbances
pub mod Transitions
pub mod Callbacks
pub mod Breaks
pub mod Injection
pub mod Steps
pub mod Runs
pub mod Start
pub mod Clock
pub mod Order
pub mod Restart
use cell_oee_demo.Prelude.{
  ℕ, ◌≤◌, ◌<◌, ◌≡◌, Bool, true, false, ◌&&◌, Option, none, some, List, [], ◌∷◌, ◌==◌, if◌then◌else◌,
  any, All, is_some, ℤ,
}
use cell_oee_demo.Simulator.Valid.{IsForward, Forward}
use cell_oee_demo.Simulator.World.{World}
use cell_oee_demo.Simulator.Model.{
  CellState, producing, planned_stop, fault_station, uint32_range, TagChange,
}
use cell_oee_demo.Simulator.Config.{SimConfig}
use cell_oee_demo.Simulator.Faults.{Kind, fault_range}
use cell_oee_demo.Simulator.Shifts.{BreakWindow}
use cell_oee_demo.Simulator.Host.{
  StopKind, Payload, nothing, interruption, stopped, EventKind, kind_code, slot_end, interrupt,
  stop_end, break_start, break_end, heartbeat, chaos_freeze_start, chaos_freeze_end,
  chaos_counter_reset, Event,
}
use cell_oee_demo.Simulator.Cell.{Simulation}
use cell_oee_demo.Simulator.Cell.Handlers.{is_current}

abbrev pub Sure {ℓ} : {A : Type ℓ} → (A → Type 0) → Option A → Type 0
Sure P none = ⊥
Sure P (some x) = P x

module _ (w : World) where
  -- The events come in the order of their times, from a time on.
  abbrev pub SortedFrom : ℕ → List (Event w) → Type 0
  SortedFrom t [] = Unit
  SortedFrom t (e ∷ heap) = (t ≤ e.ts) × SortedFrom e.ts heap

  abbrev pub is_kind : EventKind → Event w → Bool
  is_kind kind e = kind_code e.kind == kind_code kind

  -- A callback of the current epoch.
  abbrev pub is_live : EventKind → ℕ → Event w → Bool
  is_live kind epoch e = is_kind kind e && is_current e.epoch epoch

  -- What ends the state of the cell.
  abbrev pub WayOut : CellState → ℕ → Bool → List (Event w) → Type 0
  WayOut producing epoch active heap = any (is_live slot_end epoch) heap ≡ true
  WayOut planned_stop epoch active heap = active ≡ true
  WayOut _ epoch active heap = any (is_live stop_end epoch) heap ≡ true

  -- The planned break ends if it has begun, and begins if it has not.
  abbrev pub NextBreak : Bool → List (Event w) → Type 0
  NextBreak true heap = any (is_kind break_end) heap ≡ true
  NextBreak false heap = any (is_kind break_start) heap ≡ true

  module _ (cfg : SimConfig w) where
    abbrev pub IsConfigured : Kind → Type 0
    IsConfigured (Kind.fault code) =
        (is_some (fault_station code) ≡ true) × (is_some (fault_range w cfg code) ≡ true)
    IsConfigured _ = Unit

    -- The payload is what the handler of the event asserts.
    abbrev pub IsKnown : EventKind → Payload w → Type 0
    IsKnown interrupt (interruption i) = IsConfigured i.kind
    IsKnown interrupt _ = ⊥
    IsKnown stop_end (stopped (StopKind.fault code)) = is_some (fault_station code) ≡ true
    IsKnown stop_end (stopped _) = Unit
    IsKnown stop_end _ = ⊥
    IsKnown chaos_freeze_start _ = is_some cfg.chaos.heartbeat_freeze ≡ true
    IsKnown chaos_freeze_end _ = is_some cfg.chaos.heartbeat_freeze ≡ true
    IsKnown chaos_counter_reset _ = is_some cfg.chaos.counter_reset_every ≡ true
    IsKnown _ _ = Unit

    abbrev pub AreKnown : List (Event w) → Type 0
    AreKnown heap = All (λ (e : Event w). IsKnown e.kind e.payload) heap

    -- All but the way out and the beat: the clock, the queue, the changes, the three counters, and the length and
    -- the rest of a slot.
    pub record Core (now : ℕ) (heap : List (Event w)) (changes : List (TagChange w))
        (good scrap beats : ℕ) (slot : ℤ) (len : w.F) : Type 0 where
      pub sorted : SortedFrom now heap
      pub known : AreKnown heap
      pub stamped : All (λ (c : TagChange w). c.ts ≡ now) changes
      pub good_bound : good < uint32_range
      pub scrap_bound : scrap < uint32_range
      pub beats_bound : beats < uint32_range
      pub slot_forward : IsForward slot
      pub len_forward : Forward w len

    abbrev pub CoreOf : Simulation w → Type 0
    CoreOf s =
        Core s.now s.heap s.changes s.cell.good s.cell.scrap s.cell.heartbeat s.cell.slot_remaining
          s.cell.slot_len

    abbrev pub HasBeat : Simulation w → Type 0
    HasBeat s = any (is_kind heartbeat) s.heap ≡ true

    abbrev pub HasBreak : Simulation w → Type 0
    HasBreak s = NextBreak s.cell.break_active s.heap × (is_some s.cell.break_window ≡ true)

    abbrev pub HasWay : Simulation w → Type 0
    HasWay s = WayOut s.cell.state s.cell.epoch s.cell.break_active s.heap

    -- Ready but for the way out of the cell's state.
    abbrev pub IsFree : Simulation w → Type 0
    IsFree s = CoreOf s × HasBeat s × HasBreak s

    abbrev pub IsReady : Simulation w → Type 0
    IsReady s = IsFree s × HasWay s
