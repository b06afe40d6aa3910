-- ===== src/Simulator/Ready/Breaks.antt =====
-- Planned breaks, the heartbeat and the fault injection.
use cell_oee_demo.Prelude.{
  ℕ, ◌+◌, ◌-◌, ◌≡◌, refl, sym, max, Bool, true, false, Option, none, some, List, arith, leb, any,
  is_some, ℤ, pos,
}
use cell_oee_demo.Simulator.Valid.{IsForward, IsArithmetic, IsValidated}
use mathlib.Core.Path.{subst}
use cell_oee_demo.Simulator.World.{World}
use cell_oee_demo.Simulator.Model.{
  CellState, producing, planned_stop, fault, setup, starved, blocked, manual,
}
use cell_oee_demo.Simulator.Config.{SimConfig, contiguous_shifts}
use cell_oee_demo.Simulator.Shifts.{second}
use cell_oee_demo.Simulator.Shifts.NextBreak.{next_window-IsFirst}
use cell_oee_demo.Simulator.Host.{nothing, break_start, break_end, Event}
use cell_oee_demo.Simulator.Cell.{Simulation, ◌>>=◌, schedule, resume}
use cell_oee_demo.Simulator.Cell.Handlers.{
  same_state, arm_break, with_window, in_break, past_break, is_idle, on_break_start, on_break_end,
}
use cell_oee_demo.Simulator.Ready.{
  Sure, is_kind, WayOut, NextBreak, CoreOf, HasBeat, IsFree, HasWay, IsReady,
}
use cell_oee_demo.Simulator.Ready.Queue.{
  if-both, Sure-then, any-push-new, schedule-CoreOf, schedule-HasBeat, schedule-HasWay,
}
use cell_oee_demo.Simulator.Ready.Transitions.{resume-IsReady}

pub Sure-some {ℓ} :
    {A B : Type ℓ} (Q : B → Type 0) (o : Option A) (f : A → Option B)
    → is_some o ≡ true
    → ((x : A) → o ≡ some x → Sure Q (f x))
    → Sure Q (o >>= f)
Sure-some Q none f h k = absurd (ground arith)
Sure-some Q (some x) f h k = k x refl

module _ (w : World) where
  -- A state other than a planned stop does not depend on the break.
  WayOut-unplanned :
      (state : CellState) (epoch : ℕ) (a b : Bool) (heap : List (Event w))
      → same_state state planned_stop ≡ false
      → WayOut w state epoch a heap
      → WayOut w state epoch b heap
  WayOut-unplanned producing epoch a b heap u h = h
  WayOut-unplanned planned_stop epoch a b heap u h = absurd (ground arith)
  WayOut-unplanned fault epoch a b heap u h = h
  WayOut-unplanned setup epoch a b heap u h = h
  WayOut-unplanned starved epoch a b heap u h = h
  WayOut-unplanned blocked epoch a b heap u h = h
  WayOut-unplanned manual epoch a b heap u h = h

  WayOut-in_break :
      (state : CellState) (epoch : ℕ) (a : Bool) (heap : List (Event w))
      → WayOut w state epoch a heap
      → WayOut w state epoch true heap
  WayOut-in_break producing epoch a heap h = h
  WayOut-in_break planned_stop epoch a heap h = refl
  WayOut-in_break fault epoch a heap h = h
  WayOut-in_break setup epoch a heap h = h
  WayOut-in_break starved epoch a heap h = h
  WayOut-in_break blocked epoch a heap h = h
  WayOut-in_break manual epoch a heap h = h

  module _ (cfg : SimConfig w) where
    break_end-IsFree :
        (delay : ℤ) (s : Simulation w)
        → IsForward delay
        → CoreOf w cfg s
        → HasBeat w cfg s
        → is_some s.cell.break_window ≡ true
        → s.cell.break_active ≡ true
        → IsFree w cfg (schedule w delay break_end none nothing s)
    unfolding schedule
    break_end-IsFree delay s f core beat window e =
        let s' = schedule w delay break_end none nothing s in
        let due : any (is_kind w break_end) s'.heap ≡ true =
          any-push-new w (is_kind w break_end) _ s.heap refl in
        (
          schedule-CoreOf w cfg delay break_end none nothing s f tt core,
          schedule-HasBeat w cfg delay break_end none nothing s beat,
          (subst (λ b. NextBreak w b s'.heap) (sym e) due, window),
        )

    break_start-IsFree :
        (delay : ℤ) (s : Simulation w)
        → IsForward delay
        → CoreOf w cfg s
        → HasBeat w cfg s
        → is_some s.cell.break_window ≡ true
        → s.cell.break_active ≡ false
        → IsFree w cfg (schedule w delay break_start none nothing s)
    unfolding schedule
    break_start-IsFree delay s f core beat window e =
        let s' = schedule w delay break_start none nothing s in
        let due : any (is_kind w break_start) s'.heap ≡ true =
          any-push-new w (is_kind w break_start) _ s.heap refl in
        (
          schedule-CoreOf w cfg delay break_start none nothing s f tt core,
          schedule-HasBeat w cfg delay break_start none nothing s beat,
          (subst (λ b. NextBreak w b s'.heap) (sym e) due, window),
        )

    -- Ready, but that a planned stop may have lost its break; where `Q` does not hold, any state may.
    abbrev pub IsArmed : Type 0 → Simulation w → Type 0
    IsArmed Q s =
        IsFree w cfg s × (Q → same_state s.cell.state planned_stop ≡ false → HasWay w cfg s)

    pub arm_break-IsArmed :
        (Q : Type 0) (after : ℕ) (s : Simulation w)
        → contiguous_shifts cfg.shifts ≡ true
        → CoreOf w cfg s
        → HasBeat w cfg s
        → s.cell.break_active ≡ false
        → (Q → same_state s.cell.state planned_stop ≡ false → HasWay w cfg s)
        → Sure (IsArmed Q) (arm_break w cfg after s)
    unfolding arm_break schedule
    arm_break-IsArmed Q after s valid core beat off way =
        let (window, found, first) = next_window-IsFirst cfg.shifts cfg.planned_break after valid in
        let s₁ : Simulation w = with_window w window s in
        let s₂ : Simulation w = in_break w s₁ in
        let unplanned_way : Q → same_state s.cell.state planned_stop ≡ false → HasWay w cfg s₂ =
          λ q u.
            WayOut-unplanned s.cell.state s.cell.epoch s.cell.break_active true s.heap u
              (way q u) in
        rw found (
          if-both (IsArmed Q) (leb window.start s.now)
            (schedule w (pos (window.end - s.now)) break_end none nothing s₂)
            (schedule w (pos (window.start - s.now)) break_start none nothing s₁)
            (λ e. (
              break_end-IsFree (pos (window.end - s.now)) s₂ tt core beat refl refl,
              λ q u.
                  schedule-HasWay w cfg (pos (window.end - s.now)) break_end none nothing s₂
                    (unplanned_way q u),
            ))
            λ e. (
              break_start-IsFree (pos (window.start - s.now)) s₁ tt core beat refl off,
              λ q u.
                  schedule-HasWay w cfg (pos (window.start - s.now)) break_start none nothing s₁
                    (way q u),
            ))

    module _ (laws : IsArithmetic w) (valid : IsValidated w cfg) where
      pub on_break_start-IsReady :
          (s : Simulation w)
          → CoreOf w cfg s
          → HasBeat w cfg s
          → is_some s.cell.break_window ≡ true
          → HasWay w cfg s
          → Sure (IsReady w cfg) (on_break_start w cfg s)
      unfolding on_break_start
      on_break_start-IsReady s core beat armed way =
          Sure-some (IsReady w cfg) s.cell.break_window _ armed λ window e.
            let s₁ : Simulation w = in_break w s in
            let delay = pos (window.end - s.now) in
            let s' = schedule w delay break_end none nothing s₁ in
            let free = break_end-IsFree delay s₁ tt core beat armed refl in
            if-both (Sure (IsReady w cfg)) (is_idle w cfg s.cell.state) (resume w cfg s') (some s')
              (λ i. resume-IsReady w cfg s' laws valid free)
              λ i. (
                free,
                schedule-HasWay w cfg delay break_end none nothing s₁
                    (WayOut-in_break s.cell.state s.cell.epoch s.cell.break_active s.heap way),
              )

      pub on_break_end-IsReady :
          (s : Simulation w)
          → CoreOf w cfg s
          → HasBeat w cfg s
          → is_some s.cell.break_window ≡ true
          → HasWay w cfg s
          → Sure (IsReady w cfg) (on_break_end w cfg s)
      unfolding on_break_end
      on_break_end-IsReady s core beat armed way =
          Sure-some (IsReady w cfg) s.cell.break_window _ armed λ window e.
            Sure-then (IsArmed Unit) (IsReady w cfg)
              (arm_break w cfg (max s.now window.end + second) (past_break w s)) _
              (arm_break-IsArmed Unit (max s.now window.end + second) (past_break w s)
                valid.contiguous core beat refl
                λ q u.
                  WayOut-unplanned s.cell.state s.cell.epoch s.cell.break_active false s.heap u way)
              λ s' h.
                if-both (Sure (IsReady w cfg)) (same_state s'.cell.state planned_stop)
                  (resume w cfg s') (some s') (λ p. resume-IsReady w cfg s' laws valid h.0)
                  λ u. (h.0, h.1 tt u)
