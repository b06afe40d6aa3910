-- ===== src/Simulator/Ready/Order.antt =====
-- The changes of a run come in the order of their times.
use cell_oee_demo.Prelude.{
  ℕ, ◌≤◌, ◌≡◌, refl, ◌∙◌, max, ◌&&◌, Option, none, some, List, [], ◌∷◌, ◌++◌, arith, All, is_some,
}
use cell_oee_demo.Simulator.Valid.{IsArithmetic, IsValidated}
use cell_oee_demo.Simulator.World.{World}
use cell_oee_demo.Simulator.Model.{TagChange, fault_station, producing}
use cell_oee_demo.Simulator.Config.{SimConfig, CountersCfg, HeartbeatFreezeCfg}
use cell_oee_demo.Simulator.Host.{Event}
use cell_oee_demo.Simulator.Cell.{Simulation, ◌>>=◌, schedule, publish, enter_fault}
use cell_oee_demo.Simulator.Cell.Handlers.{
  set_counters, same_state, force_fault, announced, arm_break, start,
}
use cell_oee_demo.Simulator.Engine.{
  PersistedState, Streams, new_simulation, apply_counters, apply_at_start, schedule_next,
  arm_freeze, arm_reset, arm, start_all, handle, step, step_from, is_due, outcome, force,
}
use cell_oee_demo.Simulator.Ready.{Sure, SortedFrom}
use cell_oee_demo.Simulator.Ready.Queue.{if-both, Sure-then}
use cell_oee_demo.Simulator.Ready.Runs.{
  Call, event, forced, Output, call, calls, Lasts, IsIdle, IsPublished, call-IsPublished,
}
use cell_oee_demo.Simulator.Ready.Start.{AreCounters, new_simulation-IsNew, start_all-IsPublished}
use cell_oee_demo.Simulator.Ready.Clock.{
  Each, Each-then, Each-any, IsAt, resume-IsAt, enter_fault-IsAt, arm_break-IsAt, handle-IsAt,
}

Sure-both {ℓ} :
    {A : Type ℓ} (P Q : A → Type 0) (o : Option A) → Sure P o → Each Q o → Sure (λ x. P x × Q x) o
Sure-both P Q none h k = h
Sure-both P Q (some x) h k = (h, k)

module _ (w : World) where
  -- Each change is at the time of the one before or later, the first from `t` on and the last by `until`.
  abbrev pub AreOrdered : ℕ → List (TagChange w) → ℕ → Type 0
  AreOrdered t [] until = t ≤ until
  AreOrdered t (c ∷ out) until = (t ≤ c.ts) × AreOrdered c.ts out until

  AreOrdered-earlier :
      (t u : ℕ) (out : List (TagChange w)) (until : ℕ)
      → t ≤ u
      → AreOrdered u out until
      → AreOrdered t out until
  AreOrdered-earlier t u [] until le h = omega (arith, le, h)
  AreOrdered-earlier t u (c ∷ out) until le h = let k = h.0 in (omega arith, h.1)

  AreOrdered-append :
      (t u until : ℕ) (out more : List (TagChange w))
      → AreOrdered t out u
      → AreOrdered u more until
      → AreOrdered t (out ++ more) until
  AreOrdered-append t u until [] more h k = AreOrdered-earlier t u more until h k
  AreOrdered-append t u until (c ∷ out) more h k =
      (h.0, AreOrdered-append c.ts u until out more h.1 k)

  AreOrdered-stamped :
      (t now : ℕ) (out : List (TagChange w))
      → t ≤ now
      → All (λ (c : TagChange w). c.ts ≡ now) out
      → AreOrdered t out now
  AreOrdered-stamped t now [] le h = le
  AreOrdered-stamped t now (c ∷ out) le h =
      let at = h.0 in
      let here : t ≤ c.ts = omega arith in
      let rest : c.ts ≤ now = omega arith in (here, AreOrdered-stamped c.ts now out rest h.1)

  module _ (cfg : SimConfig w) where
    abbrev IsLater : ℕ → Output w cfg → Type 0
    IsLater t r = t ≤ r.1.now

    step_from-IsLater :
        (t : ℕ) (heap : List (Event w)) (s : Simulation w)
        → SortedFrom w t heap
        → Each (IsLater t) (step_from w cfg heap s)
    unfolding step_from
    step_from-IsLater t [] s h = tt
    step_from-IsLater t (e ∷ heap) s h =
        let s' : Simulation w = record s { heap = heap; now = e.ts } in
        Each-then (IsAt w cfg e.ts) (IsLater t) (handle w cfg e.kind e.payload e.epoch s') _
          (handle-IsAt w cfg e.ts e.kind e.payload e.epoch s' refl)
          λ s'' k. let le = h.0 in omega (arith, le, k)

    -- A forced fault that is not refused keeps the clock.
    abbrev MovedBy : ℕ → Option (Simulation w) → Type 0
    MovedBy t none = Unit
    MovedBy t (some s) = s.now ≡ t

    force_fault-MovedBy :
        (code : ℕ) (duration : w.F) (s : Simulation w)
        → Each (MovedBy s.now) (force_fault w cfg code duration s)
    unfolding force_fault
    force_fault-MovedBy code duration s =
        if-both (Each (MovedBy s.now))
          (same_state s.cell.state producing && is_some (fault_station code))
          (enter_fault w cfg code (some duration) s >>= λ s'. some (some s')) (some none)
          (λ e.
            Each-then (IsAt w cfg s.now) (MovedBy s.now) (enter_fault w cfg code (some duration) s)
              _ (enter_fault-IsAt w cfg s.now code (some duration) s refl) λ s' k. k)
          λ e. tt

    outcome-later :
        (t : ℕ) (moved : Simulation w) (done : Option (Simulation w))
        → t ≤ moved.now
        → MovedBy moved.now done
        → t ≤ (outcome w cfg moved done).1.now
    outcome-later t moved none le k = le
    outcome-later t moved (some s) le k = omega (arith, le, k)

    force-IsLater :
        (code : ℕ) (duration : w.F) (at : ℕ) (s : Simulation w)
        → Each
            (λ (r : Option (List (TagChange w)) × Simulation w). s.now ≤ r.1.now)
            (force w cfg code duration at s)
    unfolding force
    force-IsLater code duration at s =
        let Later : Option (List (TagChange w)) × Simulation w → Type 0 = λ r. s.now ≤ r.1.now in
        let moved : Simulation w = record s { now = max s.now at } in
        let same : s.now ≤ s.now = omega arith in
        let le : s.now ≤ max s.now at = omega arith in
        Each-any Later (is_due w cfg s.heap at) _ λ due.
          if-both (Each Later) due (some (none, s))
            (force_fault w cfg code duration moved >>= λ done. some (outcome w cfg moved done))
            (λ e. same)
            λ e.
              Each-then (MovedBy (max s.now at)) Later (force_fault w cfg code duration moved) _
                (force_fault-MovedBy code duration moved)
                λ done k. outcome-later s.now moved done le k

    apply_counters-IsAt :
        (c : Option CountersCfg) (s : Simulation w) → (apply_counters w cfg c s).now ≡ s.now
    unfolding set_counters publish
    apply_counters-IsAt none s = refl
    apply_counters-IsAt (some c) s = refl

    apply_at_start-IsAt : (s : Simulation w) → (apply_at_start w cfg s).now ≡ s.now
    unfolding apply_at_start
    apply_at_start-IsAt s =
        if-both (λ (x : Simulation w). x.now ≡ s.now) cfg.chaos.enabled
          (apply_counters w cfg cfg.chaos.counters_at_start s) s
          (λ e. apply_counters-IsAt cfg.chaos.counters_at_start s) λ e. refl

    start-IsAt : (t : ℕ) (s : Simulation w) → s.now ≡ t → Each (IsAt w cfg t) (start w cfg s)
    unfolding start schedule publish
    start-IsAt t s h =
        Each-then (IsAt w cfg t) (IsAt w cfg t) (arm_break w cfg s.now (announced w cfg s)) _
          (arm_break-IsAt w cfg t s.now (announced w cfg s) h) λ s' k. resume-IsAt w cfg t s' k

    arm_freeze-IsAt :
        (freeze : Option HeartbeatFreezeCfg) (s : Simulation w)
        → (arm_freeze w cfg freeze s).now ≡ s.now
    unfolding schedule_next schedule
    arm_freeze-IsAt none s = refl
    arm_freeze-IsAt (some freeze) s = refl

    arm_reset-IsAt : (every : Option ℕ) (s : Simulation w) → (arm_reset w cfg every s).now ≡ s.now
    unfolding schedule_next schedule
    arm_reset-IsAt none s = refl
    arm_reset-IsAt (some every) s = refl

    arm-IsAt : (t : ℕ) (s : Simulation w) → s.now ≡ t → (arm w cfg s).now ≡ t
    unfolding arm
    arm-IsAt t s h =
        let s' = arm_freeze w cfg cfg.chaos.heartbeat_freeze s in
        if-both (λ (x : Simulation w). x.now ≡ t) cfg.chaos.enabled
          (arm_reset w cfg cfg.chaos.counter_reset_every s') s
          (λ e.
            arm_reset-IsAt cfg.chaos.counter_reset_every s'
            ∙ arm_freeze-IsAt cfg.chaos.heartbeat_freeze s
            ∙ h)
          λ e. h

    call-IsLater :
        (c : Call w) (s : Simulation w) → IsIdle w cfg s → Each (IsLater s.now) (call w cfg c s)
    unfolding call step
    call-IsLater event s h = step_from-IsLater s.now s.heap s h.0.0.0.sorted
    call-IsLater (forced code duration at) s h =
        Each-then (λ (r : Option (List (TagChange w)) × Simulation w). s.now ≤ r.1.now)
          (IsLater s.now) (force w cfg code duration at s) _ (force-IsLater code duration at s)
          λ r k. k

    start_all-IsLater : (s : Simulation w) → Each (IsLater s.now) (start_all w cfg s)
    unfolding start_all
    start_all-IsLater s =
        Each-then (IsAt w cfg s.now) (IsLater s.now) (start w cfg (apply_at_start w cfg s)) _
          (start-IsAt s.now (apply_at_start w cfg s) (apply_at_start-IsAt s))
          λ s' k. let armed = arm-IsAt s.now s' k in omega (arith, armed)

    -- From a time on, in order, until the clock of what is left.
    abbrev pub RunsFrom : ℕ → Output w cfg → Type 0
    RunsFrom t r = AreOrdered t r.0 r.1.now

    module _ (laws : IsArithmetic w) (valid : IsValidated w cfg) where
      calls-RunsFrom :
          (cs : List (Call w)) (s : Simulation w)
          → All (Lasts w cfg) cs
          → IsIdle w cfg s
          → Sure (RunsFrom s.now) (calls w cfg cs s)
      unfolding calls
      calls-RunsFrom [] s lasts h = omega arith
      calls-RunsFrom (c ∷ cs) s lasts h =
          Sure-then (λ (r : Output w cfg). IsPublished w cfg r × IsLater s.now r) (RunsFrom s.now)
            (call w cfg c s) _
            (Sure-both (IsPublished w cfg) (IsLater s.now) (call w cfg c s)
              (call-IsPublished w cfg laws valid c s lasts.0 h) (call-IsLater c s h))
            λ r k.
              Sure-then (RunsFrom r.1.now) (RunsFrom s.now) (calls w cfg cs r.1) _
                (calls-RunsFrom cs r.1 lasts.1 k.0.0)
                λ q m.
                  AreOrdered-append s.now r.1.now q.1.now r.0 q.0
                    (AreOrdered-stamped s.now r.1.now r.0 k.1 k.0.1) m

      -- For a configuration that passes its validation, with or without retentive data whose counters fit
      -- 32 bits, and for floats and random draws that keep to `IsArithmetic`: the start and any number of
      -- events and forced faults of a duration that is neither 0 nor negative publish changes whose
      -- timestamps never go back, from the time at which the simulation starts until the clock at the end.
      pub run-AreOrdered :
          (restored : Option (PersistedState w)) (streams : Streams w) (cs : List (Call w))
          → AreCounters w cfg restored
          → All (Lasts w cfg) cs
          → Sure (RunsFrom (new_simulation w cfg restored streams).now) (
              start_all w cfg (new_simulation w cfg restored streams) >>= λ (out, s).
              calls w cfg cs s >>= λ (more, s'). some (out ++ more, s'))
      run-AreOrdered restored streams cs h lasts =
          let s = new_simulation w cfg restored streams in
          Sure-then (λ (r : Output w cfg). IsPublished w cfg r × IsLater s.now r) (RunsFrom s.now)
            (start_all w cfg s) _
            (Sure-both (IsPublished w cfg) (IsLater s.now) (start_all w cfg s)
              (start_all-IsPublished w cfg laws valid s
                (new_simulation-IsNew w cfg laws restored streams h))
              (start_all-IsLater s))
            λ r k.
              Sure-then (RunsFrom r.1.now) (RunsFrom s.now) (calls w cfg cs r.1) _
                (calls-RunsFrom cs r.1 lasts k.0.0)
                λ q m.
                  AreOrdered-append s.now r.1.now q.1.now r.0 q.0
                    (AreOrdered-stamped s.now r.1.now r.0 k.1 k.0.1) m
