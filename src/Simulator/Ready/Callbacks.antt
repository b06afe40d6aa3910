-- ===== src/Simulator/Ready/Callbacks.antt =====
-- The callbacks of the current epoch: the end of a slot, an interruption, the end of a stop.
use cell_oee_demo.Prelude.{
  ℕ, suc, ◌<◌, ◌≡◌, refl, true, none, some, List, [], ◌∷◌, arith, leb, ltb, is_some,
}
use cell_oee_demo.Simulator.Ready.Durations.{
  bounded_lognormal-Forward, fault_range-IsRange, flow_duration_s-Forward,
  manual_duration_s-Forward,
}
use cell_oee_demo.Simulator.Valid.{IsArithmetic, IsValidated, IsProcess}
use cell_oee_demo.Collector.Types.{Tag, good, scrap, last_cycle, weld_points}
use cell_oee_demo.Simulator.World.{World}
use cell_oee_demo.Simulator.Model.{
  CellState, fault_station, origin_of_station, weld_fault_code, TagValue, int, float, masked,
  uint32_range, lookup, by_hand, auto, default_origin,
}
use cell_oee_demo.Simulator.Config.{SimConfig, StopProcessCfg}
use cell_oee_demo.Simulator.Faults.{Kind, fault_range, fault_duration_s, manual_follows}
use cell_oee_demo.Simulator.Host.{
  SetupKind, dressing, cap_change, StopKind, Payload, nothing, interruption, stopped, interrupt,
  stop_end,
}
use cell_oee_demo.Simulator.Cell.{
  Simulation, publish, with_cell, entered, enter, schedule_slot, resume, fault_seconds, enter_fault,
}
use cell_oee_demo.Simulator.Cell.Handlers.{
  set_counters, count_scrap, count_good, is_scrap, quality_left, count_part, forced_dressing,
  plan_setup, nok_run, wear_part, welded, weld_tags, next_slot, caps_changed, drawn_manual,
  after_part, complete_part, weld_slot, on_slot_end, wait_for_flow, interrupted, on_interrupt,
  finish_setup, recover_by_hand, on_stop_end,
}
use cell_oee_demo.Simulator.Ready.{Sure, IsConfigured, IsKnown, CoreOf, IsFree, IsReady}
use cell_oee_demo.Simulator.Ready.Queue.{if-both, publish-IsFree, publish-CoreOf, slot-CoreOf}
use cell_oee_demo.Simulator.Ready.Transitions.{
  IsStop, StillWay, entered-IsFree, stop_for-IsReady, schedule_slot-IsReady, resume-IsReady,
  is_some-cases, fault_origin-known, enter_fault-IsReady, HasDuration,
}

pub masked-bound : (n : ℕ) → masked n < uint32_range
unfolding masked
masked-bound n = omega arith

module _ (w : World) (cfg : SimConfig w) where
  set_good-CoreOf :
      (n : ℕ) (s : Simulation w)
      → n < uint32_range
      → CoreOf w cfg s
      → CoreOf w cfg (with_cell w (λ c. record c { good = n }) s)
  set_good-CoreOf n s lt core = record {
    sorted = core.sorted;
    known = core.known;
    stamped = core.stamped;
    good_bound = lt;
    scrap_bound = core.scrap_bound;
    beats_bound = core.beats_bound;
    slot_forward = core.slot_forward;
    len_forward = core.len_forward;
  }

  set_scrap-CoreOf :
      (n : ℕ) (s : Simulation w)
      → n < uint32_range
      → CoreOf w cfg s
      → CoreOf w cfg (with_cell w (λ c. record c { scrap = n }) s)
  set_scrap-CoreOf n s lt core = record {
    sorted = core.sorted;
    known = core.known;
    stamped = core.stamped;
    good_bound = core.good_bound;
    scrap_bound = lt;
    beats_bound = core.beats_bound;
    slot_forward = core.slot_forward;
    len_forward = core.len_forward;
  }

  pub set_counters-CoreOf :
      (g sc : ℕ) (s : Simulation w) → CoreOf w cfg s → CoreOf w cfg (set_counters w g sc s)
  unfolding set_counters
  set_counters-CoreOf g sc s core =
      let s₁ : Simulation w = with_cell w (λ c. record c { good = masked g }) s in
      let s₂ : Simulation w = with_cell w (λ c. record c { scrap = masked sc }) s₁ in
      publish-CoreOf w cfg ((good, int (masked g)) ∷ (scrap, int (masked sc)) ∷ []) s₂ (
        set_scrap-CoreOf (masked sc) s₁ (masked-bound sc)
          (set_good-CoreOf (masked g) s (masked-bound g) core))

  count_scrap-IsFree :
      (rng : w.R) (s : Simulation w) → IsFree w cfg s → IsFree w cfg (count_scrap w cfg rng s)
  unfolding count_scrap publish
  count_scrap-IsFree rng s (core, beat, next) =
      publish-IsFree w cfg ((scrap, int (masked (suc s.cell.scrap))) ∷ [])
        (with_cell w (λ c. record c { scrap = masked (suc c.scrap) }) s)
        (
          set_scrap-CoreOf (masked (suc s.cell.scrap)) s (masked-bound (suc s.cell.scrap)) core,
          beat,
          next,
        )

  count_good-IsFree :
      (rng : w.R) (s : Simulation w) → IsFree w cfg s → IsFree w cfg (count_good w cfg rng s)
  unfolding count_good publish
  count_good-IsFree rng s (core, beat, next) =
      publish-IsFree w cfg ((good, int (masked (suc s.cell.good))) ∷ [])
        (with_cell w (λ c. record c { good = masked (suc c.good) }) s)
        (
          set_good-CoreOf (masked (suc s.cell.good)) s (masked-bound (suc s.cell.good)) core,
          beat,
          next,
        )

  count_part-IsFree : (s : Simulation w) → IsFree w cfg s → IsFree w cfg (count_part w cfg s)
  unfolding count_part
  count_part-IsFree s h =
      let rng = quality_left w cfg s in
      if-both (IsFree w cfg) (is_scrap w cfg s) (count_scrap w cfg rng s) (count_good w cfg rng s)
        (λ e. count_scrap-IsFree rng s h) λ e. count_good-IsFree rng s h

  weld_slot-IsFree : (s : Simulation w) → IsFree w cfg s → IsFree w cfg (weld_slot w cfg s)
  unfolding weld_slot
  weld_slot-IsFree s h = publish-IsFree w cfg (weld_tags w cfg s) (welded w cfg s) h

  weld_slot-still :
      (s : Simulation w)
      → StillWay w s.cell.state s.cell.epoch s.cell.break_active s.heap
      → StillWay w
          (weld_slot w cfg s).cell.state
          (weld_slot w cfg s).cell.epoch
          (weld_slot w cfg s).cell.break_active
          (weld_slot w cfg s).heap
  unfolding weld_slot publish
  weld_slot-still s h = h

  next_slot-IsFree : (s : Simulation w) → IsFree w cfg s → IsFree w cfg (next_slot w cfg s)
  next_slot-IsFree s (core, beat, next) = (
    slot-CoreOf w cfg (w.micros s.cell.slot_len) s.cell.slot_len s core.len_forward core.len_forward
        core,
    beat,
    next,
  )

  module _ (laws : IsArithmetic w) (valid : IsValidated w cfg) where
    configured-lasts :
        (code : ℕ)
        → is_some (fault_range w cfg code) ≡ true
        → (rng : w.R) → HasDuration w cfg code none rng
    unfolding fault_seconds fault_duration_s
    configured-lasts code h rng =
        let (range, e) = is_some-cases w cfg (fault_range w cfg code) h in
        rw (e, fault_duration_s)
          (bounded_lognormal-Forward w laws range rng
            (fault_range-IsRange w cfg valid code range e))

    after_part-IsReady :
        (run : ℕ) (s : Simulation w)
        → IsFree w cfg s
        → Sure (IsReady w cfg) (after_part w cfg run s)
    unfolding after_part
    after_part-IsReady run s h =
        let weld_known : is_some (fault_station weld_fault_code) ≡ true =
          unfold fault_station lookup in refl in
        let weld_lasts : is_some (fault_range w cfg weld_fault_code) ≡ true =
          unfold fault_range in refl in
        if-both (Sure (IsReady w cfg)) (leb cfg.weld.fault_201.consecutive_nok_parts run)
          (enter_fault w cfg weld_fault_code none (forced_dressing w cfg s))
          (resume w cfg (plan_setup w cfg run s))
          (λ e.
            enter_fault-IsReady w cfg weld_fault_code none (forced_dressing w cfg s) weld_known
              (configured-lasts weld_fault_code weld_lasts) h)
          λ e. resume-IsReady w cfg (plan_setup w cfg run s) laws valid h

    complete_part-IsReady :
        (s : Simulation w) → IsFree w cfg s → Sure (IsReady w cfg) (complete_part w cfg s)
    unfolding complete_part
    complete_part-IsReady s h =
        let tags : List (Tag × TagValue w) = (last_cycle, float (w.round_3 s.cell.cycle_s)) ∷ [] in
        let counted = publish w tags (count_part w cfg s) in
        after_part-IsReady (nok_run w cfg s.cell) (wear_part w cfg counted)
          (publish-IsFree w cfg tags (count_part w cfg s) (count_part-IsFree s h))

    pub on_slot_end-IsReady :
        (s : Simulation w)
        → IsFree w cfg s
        → StillWay w s.cell.state s.cell.epoch s.cell.break_active s.heap
        → Sure (IsReady w cfg) (on_slot_end w cfg s)
    unfolding on_slot_end
    on_slot_end-IsReady s h still =
        let s' = weld_slot w cfg s in
        let free = weld_slot-IsFree s h in
        if-both (Sure (IsReady w cfg)) (ltb s'.cell.slot_idx cfg.weld.points_per_part)
          (some (schedule_slot w (next_slot w cfg s'))) (complete_part w cfg s')
          (λ e.
            schedule_slot-IsReady w cfg (next_slot w cfg s') (next_slot-IsFree s' free)
              (weld_slot-still s still))
          λ e. complete_part-IsReady s' free

    wait_for_flow-starved :
        (proc : StopProcessCfg w) (s : Simulation w)
        → IsProcess w proc
        → IsFree w cfg s
        → Sure (IsReady w cfg) (wait_for_flow w cfg CellState.starved StopKind.starved proc s)
    unfolding wait_for_flow enter default_origin entered publish
    wait_for_flow-starved proc s mean h =
        stop_for-IsReady w cfg _ StopKind.starved _ (flow_duration_s-Forward w laws cfg proc _ mean)
          (entered-IsFree w cfg CellState.starved 0 auto 10 s h) tt tt

    wait_for_flow-blocked :
        (proc : StopProcessCfg w) (s : Simulation w)
        → IsProcess w proc
        → IsFree w cfg s
        → Sure (IsReady w cfg) (wait_for_flow w cfg CellState.blocked StopKind.blocked proc s)
    unfolding wait_for_flow enter default_origin entered publish
    wait_for_flow-blocked proc s mean h =
        stop_for-IsReady w cfg _ StopKind.blocked _ (flow_duration_s-Forward w laws cfg proc _ mean)
          (entered-IsFree w cfg CellState.blocked 0 auto 30 s h) tt tt

    interrupted-IsReady :
        (kind : Kind) (s : Simulation w)
        → IsConfigured w cfg kind
        → IsFree w cfg s
        → Sure (IsReady w cfg) (interrupted w cfg kind s)
    unfolding interrupted
    interrupted-IsReady (Kind.fault code) s (known, lasts) h =
        enter_fault-IsReady w cfg code none s known (configured-lasts code lasts) h
    interrupted-IsReady Kind.starved s known h =
        wait_for_flow-starved cfg.flow.starved s valid.starved h
    interrupted-IsReady Kind.blocked s known h =
        wait_for_flow-blocked cfg.flow.blocked s valid.blocked h

    pub on_interrupt-IsReady :
        (payload : Payload w) (s : Simulation w)
        → IsKnown w cfg interrupt payload
        → IsFree w cfg s
        → Sure (IsReady w cfg) (on_interrupt w cfg payload s)
    unfolding on_interrupt
    on_interrupt-IsReady nothing s known h = known
    on_interrupt-IsReady (stopped kind) s known h = known
    on_interrupt-IsReady (interruption i) s known h = interrupted-IsReady i.kind s known h

    recover_by_hand-IsReady :
        (code : ℕ) (s : Simulation w)
        → is_some (fault_station code) ≡ true
        → IsFree w cfg s
        → Sure (IsReady w cfg) (recover_by_hand w cfg code s)
    unfolding recover_by_hand
    recover_by_hand-IsReady code s known h =
        let (station, found) = is_some-cases w cfg (fault_station code) known in
        let origin = origin_of_station station in
        let s₁ = entered w CellState.manual 0 by_hand origin s in
        let free = entered-IsFree w cfg CellState.manual 0 by_hand origin s h in
        let st : IsStop s₁.cell.state = unfold entered publish in tt in
        rw (fault_origin-known w cfg code station found) (
          stop_for-IsReady w cfg _ StopKind.manual _ (manual_duration_s-Forward w laws cfg valid _)
            free tt st)

    finish_setup-IsFree :
        (kind : SetupKind) (s : Simulation w)
        → IsFree w cfg s
        → IsFree w cfg (finish_setup w cfg kind s)
    unfolding finish_setup
    finish_setup-IsFree dressing s h = h
    finish_setup-IsFree cap_change s h =
        publish-IsFree w cfg ((weld_points, int 0) ∷ []) (caps_changed w cfg s) h

    pub on_stop_end-IsReady :
        (payload : Payload w) (s : Simulation w)
        → IsKnown w cfg stop_end payload
        → IsFree w cfg s
        → Sure (IsReady w cfg) (on_stop_end w cfg payload s)
    unfolding on_stop_end
    on_stop_end-IsReady nothing s known h = known
    on_stop_end-IsReady (interruption i) s known h = known
    on_stop_end-IsReady (stopped (StopKind.setup kind)) s known h =
        resume-IsReady w cfg (finish_setup w cfg kind s) laws valid (finish_setup-IsFree kind s h)
    on_stop_end-IsReady (stopped StopKind.starved) s known h = resume-IsReady w cfg s laws valid h
    on_stop_end-IsReady (stopped StopKind.blocked) s known h = resume-IsReady w cfg s laws valid h
    on_stop_end-IsReady (stopped StopKind.manual) s known h = resume-IsReady w cfg s laws valid h
    on_stop_end-IsReady (stopped (StopKind.fault code)) s known h =
        let s' = drawn_manual w cfg code s in
        if-both (Sure (IsReady w cfg)) (manual_follows w cfg code s.cell.manual_rng).0
          (recover_by_hand w cfg code s') (resume w cfg s')
          (λ e. recover_by_hand-IsReady code s' known h) λ e. resume-IsReady w cfg s' laws valid h
