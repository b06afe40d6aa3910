-- ===== src/Simulator/Cell/Handlers.antt =====
-- The cell's start, its handlers and the hooks of the fault injection (simulator/cell_sim/cell.py).
use cell_oee_demo.Prelude.{
  ℕ, suc, ◌+◌, ◌-◌, max, Bool, true, false, not, ◌&&◌, ◌||◌, Option, none, some, List, [], ◌∷◌,
  ◌==◌, ltb, leb, if◌then◌else◌, is_some, pos,
}
use cell_oee_demo.Collector.Types.{
  Tag, good, scrap, last_cycle, tct, heartbeat, weld_current, weld_points, weld_ok,
}
use cell_oee_demo.Simulator.World.{World}
use cell_oee_demo.Simulator.Model.{
  CellState, state_code, producing, planned_stop, starved, blocked, manual, by_hand, fault_origin,
  fault_station, TagValue, int, float, flag, masked, weld_fault_code,
}
use cell_oee_demo.Simulator.Config.{SimConfig, StopProcessCfg}
use cell_oee_demo.Simulator.Wear.{weld_point, part_done, dress, new_wear}
use cell_oee_demo.Simulator.Faults.{flow_duration_s, manual_follows, manual_duration_s, Kind}
use cell_oee_demo.Simulator.Shifts.{BreakWindow, next_window, second}
use cell_oee_demo.Simulator.Host.{
  SetupKind, dressing, cap_change, StopKind, Payload, nothing, interruption, stopped, EventKind,
  break_start, break_end,
}
use cell_oee_demo.Simulator.Cell.{
  Cell, Simulation, ◌>>=◌, schedule, publish, with_cell, enter, entered, stop_for, threshold,
  schedule_slot, resume, enter_fault,
}

-- `epoch != self._epoch`, negated
abbrev pub is_current : Option ℕ → ℕ → Bool
is_current none epoch = false
is_current (some e) epoch = e == epoch

abbrev pub same_state : CellState → CellState → Bool
same_state a b = state_code a == state_code b

module _ (w : World) where
  -- `set_counters`
  unfoldable pub set_counters : ℕ → ℕ → Simulation w → Simulation w
  set_counters g s sim =
      publish w ((good, int (masked g)) ∷ (scrap, int (masked s)) ∷ [])
        (with_cell w (λ c. record c { good = masked g; scrap = masked s }) sim)

  -- `reset_plc`
  unfoldable pub reset_plc : Simulation w → Simulation w
  reset_plc sim =
      publish w ((heartbeat, int 0) ∷ [])
        (with_cell w (λ c. record c { heartbeat = 0 }) (set_counters 0 0 sim))

  -- `freeze_heartbeat`
  unfoldable pub freeze_heartbeat : Bool → Simulation w → Simulation w
  freeze_heartbeat frozen sim = with_cell w (λ c. record c { hb_frozen = frozen }) sim

  -- One more beat, unless it is frozen.
  unfoldable pub beat_once : Simulation w → Simulation w
  beat_once s =
      if s.cell.hb_frozen
      then s
      else publish w ((heartbeat, int (masked (suc s.cell.heartbeat))) ∷ [])
          (with_cell w (λ c. record c { heartbeat = masked (suc c.heartbeat) }) s)

  -- `_on_heartbeat`
  unfoldable pub on_heartbeat : Simulation w → Simulation w
  on_heartbeat s = schedule w (pos second) EventKind.heartbeat none nothing (beat_once s)

  abbrev pub with_window : BreakWindow → Simulation w → Simulation w
  with_window window s = with_cell w (λ c. record c { break_window = some window }) s

  abbrev pub in_break : Simulation w → Simulation w
  in_break s = with_cell w (λ c. record c { break_active = true }) s

  abbrev pub past_break : Simulation w → Simulation w
  past_break s = with_cell w (λ c. record c { break_active = false }) s

  module _ (cfg : SimConfig w) where
    -- `force_fault`; the inner `none` is `False`.
    unfoldable pub force_fault : ℕ → w.F → Simulation w → Option (Option (Simulation w))
    force_fault code duration s =
        if same_state s.cell.state producing && is_some (fault_station code)
        then (enter_fault w cfg code (some duration) s >>= λ s'. some (some s'))
        else some none

    -- `_arm_break`, from the instant after which to look; `none` if there is no window.
    unfoldable pub arm_break : ℕ → Simulation w → Option (Simulation w)
    arm_break after s = next_window cfg.shifts cfg.planned_break after >>= λ window. some (
        if leb window.start s.now
        then schedule w (pos (window.end - s.now)) break_end none nothing
            (in_break (with_window window s))
        else schedule w (pos (window.start - s.now)) break_start none nothing
            (with_window window s))

    abbrev pub start_tags : Simulation w → List (Tag × TagValue w)
    start_tags s =
        (tct, float cfg.cell.theoretical_cycle_s)
        ∷ (last_cycle, float (w.real 0))
        ∷ (good, int s.cell.good)
        ∷ (scrap, int s.cell.scrap)
        ∷ (heartbeat, int s.cell.heartbeat)
        ∷ (weld_current, float (w.real 0))
        ∷ (weld_points, int s.cell.wear.points_since_cap_change)
        ∷ (weld_ok, flag true)
        ∷ []

    -- The first beat is scheduled, and the tags that no state writes are published.
    abbrev pub announced : Simulation w → Simulation w
    announced s =
        schedule w (pos second) EventKind.heartbeat none nothing (publish w (start_tags s) s)

    -- `start`
    unfoldable pub start : Simulation w → Option (Simulation w)
    start s = arm_break s.now (announced s) >>= λ s'. resume w cfg s'

    -- The part is scrap; `rng` is what is left of the generator of the quality.
    unfoldable pub count_scrap : w.R → Simulation w → Simulation w
    count_scrap rng s = publish w ((scrap, int (masked (suc s.cell.scrap))) ∷ []) (
        with_cell w
          (λ c. record c { part_active = false; quality_rng = rng; scrap = masked (suc c.scrap) })
          s)

    unfoldable pub count_good : w.R → Simulation w → Simulation w
    count_good rng s = publish w ((good, int (masked (suc s.cell.good))) ∷ []) (
        with_cell w
          (λ c. record c { part_active = false; quality_rng = rng; good = masked (suc c.good) }) s)

    abbrev pub is_scrap : Simulation w → Bool
    is_scrap s =
        not s.cell.part_weld_ok || w.lt (w.random s.cell.quality_rng).0 cfg.cell.base_scrap_rate

    -- A part that is not welded well takes no draw.
    abbrev pub quality_left : Simulation w → w.R
    quality_left s =
        if s.cell.part_weld_ok then (w.random s.cell.quality_rng).1 else s.cell.quality_rng

    unfoldable pub count_part : Simulation w → Simulation w
    count_part s =
        if is_scrap s then count_scrap (quality_left s) s else count_good (quality_left s) s

    -- The dressing that the fault of the weld current forces.
    abbrev pub forced_dressing : Simulation w → Simulation w
    forced_dressing s =
        with_cell w (λ c. record c { consecutive_weld_nok = 0; dressing_due = true }) s

    -- The setup that is due; a cap change goes first.
    abbrev pub plan_setup : ℕ → Simulation w → Simulation w
    plan_setup run s =
        let cap = leb s.cell.next_cap_change s.cell.wear.parts_since_cap_change in
        let dressed = leb s.cell.next_dressing s.cell.wear.parts_since_dressing in
        with_cell w
          (λ c. record c {
            consecutive_weld_nok = run;
            cap_change_due = cap || c.cap_change_due;
            dressing_due = (not cap && dressed) || c.dressing_due;
          })
          s

    -- What follows a part, from the number of parts in a row that were not welded well.
    unfoldable pub after_part : ℕ → Simulation w → Option (Simulation w)
    after_part run s =
        if leb cfg.weld.fault_201.consecutive_nok_parts run
        then enter_fault w cfg weld_fault_code none (forced_dressing s)
        else resume w cfg (plan_setup run s)

    abbrev pub nok_run : Cell w → ℕ
    nok_run c = if c.part_weld_ok then 0 else suc c.consecutive_weld_nok

    -- `self._wear.part_done()`
    abbrev pub wear_part : Simulation w → Simulation w
    wear_part s = with_cell w (λ c. record c { wear = part_done w cfg.weld c.wear }) s

    -- `_complete_part`
    unfoldable pub complete_part : Simulation w → Option (Simulation w)
    complete_part s =
        after_part (nok_run s.cell) (
          wear_part
            (publish w ((last_cycle, float (w.round_3 s.cell.cycle_s)) ∷ []) (count_part s)))

    -- The cell after a weld point.
    abbrev pub welded : Simulation w → Simulation w
    welded s =
        let (point, (worn, rng)) = weld_point w cfg.weld s.cell.wear s.cell.weld_rng in
        with_cell w
          (λ c. record c {
            slot_end_ts = none;
            wear = worn;
            weld_rng = rng;
            part_weld_ok = c.part_weld_ok && point.ok;
            slot_idx = suc c.slot_idx;
          })
          s

    abbrev pub weld_tags : Simulation w → List (Tag × TagValue w)
    weld_tags s =
        let (point, (worn, rng)) = weld_point w cfg.weld s.cell.wear s.cell.weld_rng in
        (weld_current, float (w.round_3 point.current_ka))
        ∷ (weld_ok, flag point.ok)
        ∷ (weld_points, int worn.points_since_cap_change)
        ∷ []

    -- `_on_slot_end`, up to the next slot or the end of the part.
    unfoldable pub weld_slot : Simulation w → Simulation w
    weld_slot s = publish w (weld_tags s) (welded s)

    -- The length of the next slot.
    abbrev pub next_slot : Simulation w → Simulation w
    next_slot s = with_cell w (λ c. record c { slot_remaining = w.micros c.slot_len }) s

    -- `_on_slot_end`, for the current epoch.
    unfoldable pub on_slot_end : Simulation w → Option (Simulation w)
    on_slot_end s =
        let s' = weld_slot s in
        if ltb s'.cell.slot_idx cfg.weld.points_per_part
        then some (schedule_slot w (next_slot s'))
        else complete_part s'

    -- A starved or blocked period, with a duration from its process.
    unfoldable pub wait_for_flow :
        CellState → StopKind → StopProcessCfg w → Simulation w → Option (Simulation w)
    wait_for_flow state kind proc s = enter w state 0 s >>= λ s'.
        (let (d, rng) = flow_duration_s w cfg proc s'.cell.durations in
          some (stop_for w d kind (with_cell w (λ c. record c { durations = rng }) s')))

    -- What interrupts the production.
    unfoldable pub interrupted : Kind → Simulation w → Option (Simulation w)
    interrupted (Kind.fault code) s = enter_fault w cfg code none s
    interrupted Kind.starved s = wait_for_flow starved StopKind.starved cfg.flow.starved s
    interrupted Kind.blocked s = wait_for_flow blocked StopKind.blocked cfg.flow.blocked s

    -- `_on_interrupt`, for the current epoch; `none` where its assertion fails.
    unfoldable pub on_interrupt : Payload w → Simulation w → Option (Simulation w)
    on_interrupt (interruption i) s = interrupted i.kind s
    on_interrupt nothing s = none
    on_interrupt (stopped kind) s = none

    -- The cell after a cap change; its two thresholds are drawn one after the other.
    abbrev pub caps_changed : Simulation w → Simulation w
    caps_changed s =
        let (cap, rng) = threshold w cfg.weld.cap_change s.cell.jitter_rng in
        let (dressed, rng') = threshold w cfg.weld.tip_dressing rng in
        with_cell w
          (λ c. record c {
            wear = new_wear w;
            next_cap_change = cap;
            next_dressing = dressed;
            jitter_rng = rng';
          })
          s

    -- `_finish_setup`
    unfoldable pub finish_setup : SetupKind → Simulation w → Simulation w
    finish_setup cap_change s = publish w ((weld_points, int 0) ∷ []) (caps_changed s)
    finish_setup dressing s =
        let (dressed, rng) = threshold w cfg.weld.tip_dressing s.cell.jitter_rng in
        with_cell w
          (λ c. record c {
            wear = dress w cfg.weld c.wear;
            next_dressing = dressed;
            jitter_rng = rng;
          })
          s

    -- Manual recovery, where the fault was.
    unfoldable pub recover_by_hand : ℕ → Simulation w → Option (Simulation w)
    recover_by_hand code s = fault_origin code >>= λ origin.
        (let s' = entered w manual 0 by_hand origin s in
          let (d, rng) = manual_duration_s w cfg s'.cell.manual_rng in
          some (stop_for w d StopKind.manual (with_cell w (λ c. record c { manual_rng = rng }) s')))

    abbrev pub drawn_manual : ℕ → Simulation w → Simulation w
    drawn_manual code s =
        with_cell w (λ c. record c { manual_rng = (manual_follows w cfg code c.manual_rng).1 }) s

    -- `_on_stop_end`, for the current epoch; `none` where its assertion fails.
    unfoldable pub on_stop_end : Payload w → Simulation w → Option (Simulation w)
    on_stop_end (stopped (StopKind.fault code)) s =
        if (manual_follows w cfg code s.cell.manual_rng).0
        then recover_by_hand code (drawn_manual code s)
        else resume w cfg (drawn_manual code s)
    on_stop_end (stopped (StopKind.setup kind)) s = resume w cfg (finish_setup kind s)
    on_stop_end (stopped kind) s = resume w cfg s
    on_stop_end nothing s = none
    on_stop_end (interruption i) s = none

    abbrev pub is_idle : CellState → Bool
    is_idle state = same_state state starved || same_state state blocked

    -- `_on_break_start`
    unfoldable pub on_break_start : Simulation w → Option (Simulation w)
    on_break_start s = s.cell.break_window >>= λ window.
        (let s' = schedule w (pos (window.end - s.now)) break_end none nothing (in_break s) in
          if is_idle s.cell.state then resume w cfg s' else some s')

    -- `_on_break_end`; it looks for the next window one second past the end of this one.
    unfoldable pub on_break_end : Simulation w → Option (Simulation w)
    on_break_end s = s.cell.break_window >>= λ window.
        (arm_break (max s.now window.end + second) (past_break s) >>= λ s'.
        if same_state s'.cell.state planned_stop then resume w cfg s' else some s')
