-- ===== src/Simulator/Ready/Clock.antt =====
-- A callback does not move the clock.
use cell_oee_demo.Prelude.{
  ℕ, ◌+◌, ◌-◌, ◌≡◌, max, Option, none, some, leb, ltb, if◌then◌else◌, Option-cases, inl, inr, pos,
}
use cell_oee_demo.Simulator.World.{World}
use cell_oee_demo.Simulator.Model.{
  CellState, planned_stop, fault_origin, default_origin, weld_fault_code,
}
use cell_oee_demo.Simulator.Config.{SimConfig, StopProcessCfg}
use cell_oee_demo.Simulator.Faults.{Kind, next_interruption, manual_follows}
use cell_oee_demo.Simulator.Shifts.{next_window, second}
use cell_oee_demo.Simulator.Host.{
  SetupKind, dressing, cap_change, StopKind, Payload, nothing, interruption, stopped, EventKind,
  slot_end, interrupt, stop_end, break_start, break_end, heartbeat, chaos_freeze_start,
  chaos_freeze_end, chaos_counter_reset,
}
use cell_oee_demo.Simulator.Cell.{
  Simulation, ◌>>=◌, schedule, publish, entered, enter, stop_for, schedule_slot, start_setup,
  arm_interrupt, start_producing, resume, fault_seconds, enter_fault,
}
use cell_oee_demo.Simulator.Cell.Handlers.{
  is_current, same_state, set_counters, reset_plc, freeze_heartbeat, beat_once, on_heartbeat,
  with_window, in_break, past_break, arm_break, count_scrap, count_good, is_scrap, quality_left,
  count_part, forced_dressing, plan_setup, after_part, nok_run, complete_part, weld_slot, next_slot,
  on_slot_end, wait_for_flow, interrupted, on_interrupt, finish_setup, recover_by_hand,
  drawn_manual, on_stop_end, is_idle, on_break_start, on_break_end,
}
use cell_oee_demo.Simulator.Engine.{
  schedule_next, on_freeze_start, on_freeze_end, on_counter_reset, handle,
}
use cell_oee_demo.Simulator.Ready.Queue.{if-both}

-- What holds of a result, if there is one.
abbrev pub Each {ℓ} : {A : Type ℓ} → (A → Type 0) → Option A → Type 0
Each P none = Unit
Each P (some x) = P x

pub Each-then {ℓ} :
    {A B : Type ℓ} (P : A → Type 0) (Q : B → Type 0) (o : Option A) (f : A → Option B)
    → Each P o
    → ((x : A) → P x → Each Q (f x))
    → Each Q (o >>= f)
Each-then P Q none f h k = tt
Each-then P Q (some x) f h k = k x h

pub Each-any {ℓ} :
    {A B : Type ℓ} (Q : B → Type 0) (o : Option A) (f : A → Option B)
    → ((x : A) → Each Q (f x))
    → Each Q (o >>= f)
Each-any Q none f k = tt
Each-any Q (some x) f k = k x

module _ (w : World) (cfg : SimConfig w) (t : ℕ) where
  abbrev pub IsAt : Simulation w → Type 0
  IsAt s = s.now ≡ t

  enter-IsAt :
      (state : CellState) (code : ℕ) (s : Simulation w) → IsAt s → Each IsAt (enter w state code s)
  unfolding enter entered publish
  enter-IsAt state code s h = Each-any IsAt (default_origin state code) _ λ origin. h

  start_setup-IsAt :
      (kind : SetupKind) (d : w.F) (s : Simulation w) → IsAt s → Each IsAt (start_setup w kind d s)
  unfolding start_setup stop_for schedule
  start_setup-IsAt kind d s h =
      Each-then IsAt IsAt (enter w CellState.setup 0 s) _ (enter-IsAt CellState.setup 0 s h)
        λ s' k. k

  arm_interrupt-IsAt : (s : Simulation w) → IsAt s → IsAt (arm_interrupt w cfg s)
  unfolding arm_interrupt schedule
  arm_interrupt-IsAt s h = elim (Option-cases (next_interruption w cfg s.cell.arrivals).0) [
    | inl e ↦ rw (e, arm_interrupt) h
    | inr (i, e) ↦ rw (e, arm_interrupt) h
  ]

  start_producing-IsAt : (s : Simulation w) → IsAt s → Each IsAt (start_producing w cfg s)
  unfolding start_producing schedule_slot schedule
  start_producing-IsAt s h =
      Each-then IsAt IsAt (enter w CellState.producing 0 s) _ (enter-IsAt CellState.producing 0 s h)
        λ s' k. arm_interrupt-IsAt _ k

  pub resume-IsAt : (s : Simulation w) → IsAt s → Each IsAt (resume w cfg s)
  unfolding resume
  resume-IsAt s h =
      if-both (Each IsAt) s.cell.break_active _ _ (λ e. enter-IsAt planned_stop 0 s h)
        λ e.
          if-both (Each IsAt) s.cell.cap_change_due _ _
            (λ k. start_setup-IsAt cap_change cfg.weld.cap_change.duration_s s h)
            λ k.
              if-both (Each IsAt) s.cell.dressing_due _ _
                (λ m. start_setup-IsAt dressing cfg.weld.tip_dressing.duration_s s h)
                λ m. start_producing-IsAt s h

  pub enter_fault-IsAt :
      (code : ℕ) (d : Option w.F) (s : Simulation w)
      → IsAt s
      → Each IsAt (enter_fault w cfg code d s)
  unfolding enter_fault stop_for schedule
  enter_fault-IsAt code d s h =
      Each-then IsAt IsAt (enter w CellState.fault code s) _ (enter-IsAt CellState.fault code s h)
        λ s' k. Each-any IsAt (fault_seconds w cfg code d s'.cell.durations) _ λ x. k

  count_part-IsAt : (s : Simulation w) → IsAt s → IsAt (count_part w cfg s)
  unfolding count_part count_scrap count_good publish
  count_part-IsAt s h =
      let rng = quality_left w cfg s in
      if-both IsAt (is_scrap w cfg s) (count_scrap w cfg rng s) (count_good w cfg rng s) (λ e. h)
        λ e. h

  after_part-IsAt : (run : ℕ) (s : Simulation w) → IsAt s → Each IsAt (after_part w cfg run s)
  unfolding after_part
  after_part-IsAt run s h =
      if-both (Each IsAt) (leb cfg.weld.fault_201.consecutive_nok_parts run)
        (enter_fault w cfg weld_fault_code none (forced_dressing w cfg s))
        (resume w cfg (plan_setup w cfg run s))
        (λ e. enter_fault-IsAt weld_fault_code none (forced_dressing w cfg s) h)
        λ e. resume-IsAt (plan_setup w cfg run s) h

  complete_part-IsAt : (s : Simulation w) → IsAt s → Each IsAt (complete_part w cfg s)
  unfolding complete_part publish
  complete_part-IsAt s h = after_part-IsAt (nok_run w cfg s.cell) _ (count_part-IsAt s h)

  on_slot_end-IsAt : (s : Simulation w) → IsAt s → Each IsAt (on_slot_end w cfg s)
  unfolding on_slot_end weld_slot publish schedule_slot schedule
  on_slot_end-IsAt s h =
      let s' = weld_slot w cfg s in
      if-both (Each IsAt) (ltb s'.cell.slot_idx cfg.weld.points_per_part)
        (some (schedule_slot w (next_slot w cfg s'))) (complete_part w cfg s') (λ e. h)
        λ e. complete_part-IsAt s' h

  wait_for_flow-IsAt :
      (state : CellState) (kind : StopKind) (proc : StopProcessCfg w) (s : Simulation w)
      → IsAt s
      → Each IsAt (wait_for_flow w cfg state kind proc s)
  unfolding wait_for_flow stop_for schedule
  wait_for_flow-IsAt state kind proc s h =
      Each-then IsAt IsAt (enter w state 0 s) _ (enter-IsAt state 0 s h) λ s' k. k

  interrupted-IsAt :
      (kind : Kind) (s : Simulation w) → IsAt s → Each IsAt (interrupted w cfg kind s)
  unfolding interrupted
  interrupted-IsAt (Kind.fault code) s h = enter_fault-IsAt code none s h
  interrupted-IsAt Kind.starved s h =
      wait_for_flow-IsAt CellState.starved StopKind.starved cfg.flow.starved s h
  interrupted-IsAt Kind.blocked s h =
      wait_for_flow-IsAt CellState.blocked StopKind.blocked cfg.flow.blocked s h

  on_interrupt-IsAt :
      (payload : Payload w) (s : Simulation w) → IsAt s → Each IsAt (on_interrupt w cfg payload s)
  unfolding on_interrupt
  on_interrupt-IsAt nothing s h = tt
  on_interrupt-IsAt (stopped kind) s h = tt
  on_interrupt-IsAt (interruption i) s h = interrupted-IsAt i.kind s h

  recover_by_hand-IsAt :
      (code : ℕ) (s : Simulation w) → IsAt s → Each IsAt (recover_by_hand w cfg code s)
  unfolding recover_by_hand entered publish stop_for schedule
  recover_by_hand-IsAt code s h = Each-any IsAt (fault_origin code) _ λ origin. h

  finish_setup-IsAt :
      (kind : SetupKind) (s : Simulation w) → IsAt s → IsAt (finish_setup w cfg kind s)
  unfolding finish_setup publish
  finish_setup-IsAt dressing s h = h
  finish_setup-IsAt cap_change s h = h

  on_stop_end-IsAt :
      (payload : Payload w) (s : Simulation w) → IsAt s → Each IsAt (on_stop_end w cfg payload s)
  unfolding on_stop_end
  on_stop_end-IsAt nothing s h = tt
  on_stop_end-IsAt (interruption i) s h = tt
  on_stop_end-IsAt (stopped (StopKind.setup kind)) s h =
      resume-IsAt (finish_setup w cfg kind s) (finish_setup-IsAt kind s h)
  on_stop_end-IsAt (stopped StopKind.starved) s h = resume-IsAt s h
  on_stop_end-IsAt (stopped StopKind.blocked) s h = resume-IsAt s h
  on_stop_end-IsAt (stopped StopKind.manual) s h = resume-IsAt s h
  on_stop_end-IsAt (stopped (StopKind.fault code)) s h =
      let s' = drawn_manual w cfg code s in
      if-both (Each IsAt) (manual_follows w cfg code s.cell.manual_rng).0
        (recover_by_hand w cfg code s') (resume w cfg s') (λ e. recover_by_hand-IsAt code s' h)
        λ e. resume-IsAt s' h

  pub arm_break-IsAt : (after : ℕ) (s : Simulation w) → IsAt s → Each IsAt (arm_break w cfg after s)
  unfolding arm_break schedule
  arm_break-IsAt after s h =
      Each-any IsAt (next_window cfg.shifts cfg.planned_break after) _ λ window.
        if-both IsAt (leb window.start s.now)
          (schedule w (pos (window.end - s.now)) break_end none nothing
            (in_break w (with_window w window s)))
          (schedule w (pos (window.start - s.now)) break_start none nothing
            (with_window w window s))
          (λ e. h) λ e. h

  on_break_start-IsAt : (s : Simulation w) → IsAt s → Each IsAt (on_break_start w cfg s)
  unfolding on_break_start schedule
  on_break_start-IsAt s h = Each-any IsAt s.cell.break_window _ λ window.
      let s' = schedule w (pos (window.end - s.now)) break_end none nothing (in_break w s) in
      if-both (Each IsAt) (is_idle w cfg s.cell.state) (resume w cfg s') (some s')
        (λ e. resume-IsAt s' h) λ e. h

  on_break_end-IsAt : (s : Simulation w) → IsAt s → Each IsAt (on_break_end w cfg s)
  unfolding on_break_end
  on_break_end-IsAt s h = Each-any IsAt s.cell.break_window _ λ window.
      Each-then IsAt IsAt (arm_break w cfg (max s.now window.end + second) (past_break w s)) _
        (arm_break-IsAt (max s.now window.end + second) (past_break w s) h)
        λ s' k.
          if-both (Each IsAt) (same_state s'.cell.state planned_stop) (resume w cfg s') (some s')
            (λ e. resume-IsAt s' k) λ e. k

  on_heartbeat-IsAt : (s : Simulation w) → IsAt s → IsAt (on_heartbeat w s)
  unfolding on_heartbeat beat_once schedule publish
  on_heartbeat-IsAt s h = if-both IsAt s.cell.hb_frozen s _ (λ e. h) λ e. h

  if_current-IsAt :
      (epoch : Option ℕ) (s : Simulation w) (o : Option (Simulation w))
      → IsAt s
      → Each IsAt o
      → Each IsAt (if is_current epoch s.cell.epoch then o else some s)
  if_current-IsAt epoch s o h k =
      if-both (Each IsAt) (is_current epoch s.cell.epoch) o (some s) (λ e. k) λ e. h

  pub handle-IsAt :
      (kind : EventKind) (payload : Payload w) (epoch : Option ℕ) (s : Simulation w)
      → IsAt s
      → Each IsAt (handle w cfg kind payload epoch s)
  unfolding handle on_freeze_start on_freeze_end on_counter_reset schedule_next schedule
      freeze_heartbeat reset_plc set_counters publish
  handle-IsAt slot_end payload epoch s h = if_current-IsAt epoch s _ h (on_slot_end-IsAt s h)
  handle-IsAt interrupt payload epoch s h =
      if_current-IsAt epoch s _ h (on_interrupt-IsAt payload s h)
  handle-IsAt stop_end payload epoch s h =
      if_current-IsAt epoch s _ h (on_stop_end-IsAt payload s h)
  handle-IsAt break_start payload epoch s h = on_break_start-IsAt s h
  handle-IsAt break_end payload epoch s h = on_break_end-IsAt s h
  handle-IsAt heartbeat payload epoch s h = on_heartbeat-IsAt s h
  handle-IsAt chaos_freeze_start payload epoch s h =
      Each-any IsAt cfg.chaos.heartbeat_freeze _ λ freeze. h
  handle-IsAt chaos_freeze_end payload epoch s h =
      Each-any IsAt cfg.chaos.heartbeat_freeze _ λ freeze. h
  handle-IsAt chaos_counter_reset payload epoch s h =
      Each-any IsAt cfg.chaos.counter_reset_every _ λ every. h
