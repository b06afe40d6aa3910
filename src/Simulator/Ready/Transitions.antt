-- ===== src/Simulator/Ready/Transitions.antt =====
-- Each transition of the cell leaves it with a way out of its state.
use cell_oee_demo.Prelude.{
  ℕ, suc, ◌≡◌, refl, sym, ◌∙◌, Bool, true, Option, none, some, List, arith, Bool-cases,
  Option-cases, inl, inr, any, is_some, ℤ,
}
use cell_oee_demo.Simulator.Valid.{IsForward, Forward, Positive, IsArithmetic, IsValidated}
use mathlib.Core.Path.{subst}
use cell_oee_demo.Domain.{Scope}
use cell_oee_demo.Simulator.World.{World}
use cell_oee_demo.Simulator.Model.{
  CellState, producing, planned_stop, Mode, fault_station, fault_origin, default_origin,
  origin_of_station,
}
use cell_oee_demo.Simulator.Config.{SimConfig}
use cell_oee_demo.Simulator.Faults.{next_interruption}
use cell_oee_demo.Simulator.Host.{
  SetupKind, dressing, cap_change, StopKind, nothing, interruption, stopped, slot_end, interrupt,
  stop_end, Event, push,
}
use cell_oee_demo.Simulator.Cell.{
  Cell, Simulation, schedule, publish, with_cell, entered, enter, stop_for, schedule_slot,
  start_setup, begin_part, arm_interrupt, start_producing, resume, fault_seconds, enter_fault,
  state_tags, remaining, after_delay, sample_cycle_s,
}
use cell_oee_demo.Simulator.Ready.{Sure, is_live, WayOut, IsKnown, IsFree, IsReady}
use cell_oee_demo.Simulator.Ready.Queue.{
  if-both, any-push-new, push-WayOut, schedule-IsFree, schedule-HasWay, publish-IsFree, slot-CoreOf,
}
use cell_oee_demo.Simulator.Ready.Disturbances.{next_interruption-MayInterrupt}

-- The states that `stop_end` ends.
abbrev pub IsStop : CellState → Type 0
IsStop producing = ⊥
IsStop planned_stop = ⊥
IsStop _ = Unit

module _ (w : World) where
  WayOut-IsStop :
      (state : CellState) (epoch : ℕ) (active : Bool) (heap : List (Event w))
      → IsStop state
      → any (is_live w stop_end epoch) heap ≡ true
      → WayOut w state epoch active heap
  WayOut-IsStop producing epoch active heap st h = elim st [ ]
  WayOut-IsStop planned_stop epoch active heap st h = elim st [ ]
  WayOut-IsStop CellState.fault epoch active heap st h = h
  WayOut-IsStop CellState.setup epoch active heap st h = h
  WayOut-IsStop CellState.starved epoch active heap st h = h
  WayOut-IsStop CellState.blocked epoch active heap st h = h
  WayOut-IsStop CellState.manual epoch active heap st h = h

  -- The way out of a state other than producing.
  abbrev pub StillWay : CellState → ℕ → Bool → List (Event w) → Type 0
  StillWay producing epoch active heap = Unit
  StillWay state epoch active heap = WayOut w state epoch active heap

  renewed :
      (state : CellState) (epoch : ℕ) (active : Bool) (e : Event w) (heap : List (Event w))
      → is_live w slot_end epoch e ≡ true
      → StillWay state epoch active heap
      → WayOut w state epoch active (push w e heap)
  renewed producing epoch active e heap live h =
      any-push-new w (is_live w slot_end epoch) e heap live
  renewed planned_stop epoch active e heap live h = h
  renewed CellState.fault epoch active e heap live h =
      push-WayOut w CellState.fault epoch active e heap h
  renewed CellState.setup epoch active e heap live h =
      push-WayOut w CellState.setup epoch active e heap h
  renewed CellState.starved epoch active e heap live h =
      push-WayOut w CellState.starved epoch active e heap h
  renewed CellState.blocked epoch active e heap live h =
      push-WayOut w CellState.blocked epoch active e heap h
  renewed CellState.manual epoch active e heap live h =
      push-WayOut w CellState.manual epoch active e heap h

  module _ (cfg : SimConfig w) where
    remaining-IsForward :
        (end_ts : Option ℕ) (now : ℕ) (old : ℤ)
        → IsForward old
        → IsForward (remaining w end_ts now old)
    remaining-IsForward none now old h = h
    remaining-IsForward (some end_ts) now old h = tt

    pub entered-IsFree :
        (state : CellState) (code : ℕ) (mode : Mode) (origin : ℕ) (s : Simulation w)
        → IsFree w cfg s
        → IsFree w cfg (entered w state code mode origin s)
    unfolding entered
    entered-IsFree state code mode origin s (core, beat, next) =
        let slot = remaining w s.cell.slot_end_ts s.now s.cell.slot_remaining in
        let forward =
          remaining-IsForward s.cell.slot_end_ts s.now s.cell.slot_remaining core.slot_forward in
        publish-IsFree w cfg (state_tags w state code mode origin)
          (record s {
            cell = record s.cell {
              slot_remaining = slot;
              slot_end_ts = none;
              epoch = suc s.cell.epoch;
              state = state;
            };
          })
          (slot-CoreOf w cfg slot s.cell.slot_len s forward core.len_forward core, beat, next)

    pub stop_for-IsReady :
        (duration : w.F) (kind : StopKind) (s : Simulation w)
        → Forward w duration
        → IsFree w cfg s
        → IsKnown w cfg stop_end (stopped kind)
        → IsStop s.cell.state
        → IsReady w cfg (stop_for w duration kind s)
    unfolding stop_for schedule
    stop_for-IsReady duration kind s forward h known st =
        let due : Event w = record {
          ts = after_delay s.now (w.micros duration);
          seq = s.seq;
          kind = stop_end;
          epoch = some s.cell.epoch;
          payload = stopped kind;
        } in
        let live : is_live w stop_end s.cell.epoch due ≡ true = ground arith in
        (
          schedule-IsFree w cfg (w.micros duration) stop_end (some s.cell.epoch) (stopped kind) s
              forward known h,
          WayOut-IsStop s.cell.state s.cell.epoch s.cell.break_active (push w due s.heap) st
              (any-push-new w (is_live w stop_end s.cell.epoch) due s.heap live),
        )

    pub start_setup-IsReady :
        (kind : SetupKind) (duration : w.F) (s : Simulation w)
        → Forward w duration
        → IsFree w cfg s
        → Sure (IsReady w cfg) (start_setup w kind duration s)
    unfolding start_setup enter default_origin entered publish
    start_setup-IsReady kind duration s forward h =
        stop_for-IsReady duration (StopKind.setup kind) _ forward
          (entered-IsFree CellState.setup 0 Mode.auto 20 s h) tt tt

    -- A new slot gives the producing cell its way out, and leaves that of any other state.
    pub schedule_slot-IsReady :
        (s : Simulation w)
        → IsFree w cfg s
        → StillWay s.cell.state s.cell.epoch s.cell.break_active s.heap
        → IsReady w cfg (schedule_slot w s)
    unfolding schedule_slot schedule
    schedule_slot-IsReady s h still =
        let due : Event w = record {
          ts = after_delay s.now s.cell.slot_remaining;
          seq = s.seq;
          kind = slot_end;
          epoch = some s.cell.epoch;
          payload = nothing;
        } in
        let live : is_live w slot_end s.cell.epoch due ≡ true = ground arith in
        (
          schedule-IsFree w cfg s.cell.slot_remaining slot_end (some s.cell.epoch) nothing s
              h.0.slot_forward tt h,
          renewed s.cell.state s.cell.epoch s.cell.break_active due s.heap live still,
        )

    -- The length of the slots of a new part.
    slot-Positive :
        (rng : w.R)
        → IsArithmetic w
        → IsValidated w cfg
        → Positive w (w.div (sample_cycle_s w cfg rng).0 (w.real cfg.weld.points_per_part))
    unfolding sample_cycle_s
    slot-Positive rng laws valid =
        laws.div_positive _ _
          (laws.add_positive _ _ valid.cycle (laws.lognormvariate_positive _ _ rng))
          (laws.real_positive cfg.weld.points_per_part valid.points)

    begin_part-IsFree :
        (s : Simulation w)
        → IsArithmetic w
        → IsValidated w cfg
        → IsFree w cfg s
        → IsFree w cfg (with_cell w (begin_part w cfg) s)
    unfolding begin_part
    begin_part-IsFree s laws valid (core, beat, next) =
        let (cycle, rng) = sample_cycle_s w cfg s.cell.cycle_rng in
        let len = w.div cycle (w.real cfg.weld.points_per_part) in
        let forward = laws.positive_forward len (slot-Positive s.cell.cycle_rng laws valid) in
        if-both (λ (c : Cell w). IsFree w cfg (with_cell w (λ _. c) s)) s.cell.part_active _ _
          (λ e. (core, beat, next))
          λ e. (slot-CoreOf w cfg (w.micros len) len s forward forward core, beat, next)

    begin_part-state : (c : Cell w) → (begin_part w cfg c).state ≡ c.state
    unfolding begin_part
    begin_part-state c = elim (Bool-cases c.part_active) [ inl e ↦ rw e refl | inr e ↦ rw e refl ]

    arm_interrupt-IsReady :
        (s : Simulation w)
        → IsArithmetic w
        → IsValidated w cfg
        → IsReady w cfg s
        → IsReady w cfg (arm_interrupt w cfg s)
    unfolding arm_interrupt
    arm_interrupt-IsReady s laws valid (free, way) =
        let rng = (next_interruption w cfg s.cell.arrivals).1 in
        let s' : Simulation w = with_cell w (λ c. record c { arrivals = rng }) s in
        let drawn = next_interruption-MayInterrupt w laws cfg s.cell.arrivals valid in
        elim (Option-cases (next_interruption w cfg s.cell.arrivals).0) [
          | inl e ↦ rw (e, arm_interrupt) (free, way)
          | inr (i, e) ↦
              let known = rw e at drawn in
              rw (e, arm_interrupt)
                (
                  schedule-IsFree w cfg (w.micros i.delay_s) interrupt (some s.cell.epoch)
                      (interruption i) s' known.1 known.0 free,
                  schedule-HasWay w cfg (w.micros i.delay_s) interrupt (some s.cell.epoch)
                      (interruption i) s' way,
                )
        ]

    start_producing-IsReady :
        (s : Simulation w)
        → IsArithmetic w
        → IsValidated w cfg
        → IsFree w cfg s
        → Sure (IsReady w cfg) (start_producing w cfg s)
    unfolding start_producing enter default_origin
    start_producing-IsReady s laws valid h =
        let s₁ = entered w producing 0 Mode.auto 0 s in
        let made : s₁.cell.state ≡ producing = unfold entered publish in refl in
        let s₂ : Simulation w = with_cell w (begin_part w cfg) s₁ in
        arm_interrupt-IsReady (schedule_slot w s₂) laws valid (
          schedule_slot-IsReady s₂
            (begin_part-IsFree s₁ laws valid (entered-IsFree producing 0 Mode.auto 0 s h))
            (subst (λ st. StillWay st s₂.cell.epoch s₂.cell.break_active s₂.heap)
              (sym (begin_part-state s₁.cell ∙ made)) tt))

    on_break-IsReady :
        (s : Simulation w)
        → s.cell.break_active ≡ true
        → IsFree w cfg s
        → Sure (IsReady w cfg) (enter w planned_stop 0 s)
    unfolding enter default_origin entered publish
    on_break-IsReady s e h = (entered-IsFree planned_stop 0 Mode.auto 99 s h, e)

    -- `_resume` never raises, and leaves a state that ends.
    pub resume-IsReady :
        (s : Simulation w)
        → IsArithmetic w
        → IsValidated w cfg
        → IsFree w cfg s
        → Sure (IsReady w cfg) (resume w cfg s)
    unfolding resume
    resume-IsReady s laws valid h =
        if-both (Sure (IsReady w cfg)) s.cell.break_active _ _ (λ e. on_break-IsReady s e h)
          λ e.
            if-both (Sure (IsReady w cfg)) s.cell.cap_change_due _ _
              (λ k.
                start_setup-IsReady cap_change cfg.weld.cap_change.duration_s s
                  (laws.positive_forward cfg.weld.cap_change.duration_s valid.cap_change) h)
              λ k.
                if-both (Sure (IsReady w cfg)) s.cell.dressing_due _ _
                  (λ m.
                    start_setup-IsReady dressing cfg.weld.tip_dressing.duration_s s
                      (laws.positive_forward cfg.weld.tip_dressing.duration_s valid.dressing) h)
                  λ m. start_producing-IsReady s laws valid h

    pub is_some-cases {ℓ} : {A : Type ℓ} (o : Option A) → is_some o ≡ true → (x : A) × (o ≡ some x)
    is_some-cases none h = absurd (ground arith)
    is_some-cases (some x) h = (x, refl)

    pub fault_origin-known :
        (code : ℕ) (station : Scope)
        → fault_station code ≡ some station
        → fault_origin code ≡ some (origin_of_station station)
    unfolding fault_origin
    fault_origin-known code station e = rw (e, fault_origin) refl

    pub Sure-cases {ℓ} :
        {A : Type ℓ} (Q : A → Type 0) (o : Option A) → Sure Q o → (x : A) × (o ≡ some x) × Q x
    Sure-cases Q none h = elim h [ ]
    Sure-cases Q (some x) h = (x, refl, h)

    -- The duration of a fault, drawn or given, is there and not negative.
    abbrev pub HasDuration : ℕ → Option w.F → w.R → Type 0
    HasDuration code duration rng =
        Sure (λ (r : w.F × w.R). Forward w r.0) (fault_seconds w cfg code duration rng)

    -- A fault of a known station.
    pub enter_fault-IsReady :
        (code : ℕ) (duration : Option w.F) (s : Simulation w)
        → is_some (fault_station code) ≡ true
        → ((rng : w.R) → HasDuration code duration rng)
        → IsFree w cfg s
        → Sure (IsReady w cfg) (enter_fault w cfg code duration s)
    unfolding enter_fault enter
    enter_fault-IsReady code duration s known lasts h =
        let (station, found) = is_some-cases (fault_station code) known in
        let origin = origin_of_station station in
        let e : default_origin CellState.fault code ≡ some origin =
          unfold default_origin in fault_origin-known code station found in
        let s₁ = entered w CellState.fault code Mode.auto origin s in
        let made : s₁.cell.state ≡ CellState.fault = unfold entered publish in refl in
        let free = entered-IsFree CellState.fault code Mode.auto origin s h in
        let ((d, rng), k, forward) =
          Sure-cases (λ (r : w.F × w.R). Forward w r.0)
            (fault_seconds w cfg code duration s₁.cell.durations) (lasts s₁.cell.durations) in
        let s₂ : Simulation w = with_cell w (λ c. record c { durations = rng }) s₁ in
        let st : IsStop s₂.cell.state = subst IsStop (sym made) tt in
        rw e (rw k (stop_for-IsReady d (StopKind.fault code) s₂ forward free known st))
