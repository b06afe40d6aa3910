-- ===== src/Simulator/Ready/Runs.antt =====
-- Whole runs: the start, and then any events and forced faults.
use cell_oee_demo.Prelude.{
  ℕ, ◌≤◌, ◌≡◌, refl, sym, max, true, false, ◌&&◌, Option, none, some, List, [], ◌∷◌, ◌++◌, arith,
  leb, any, All, is_some,
}
use cell_oee_demo.Simulator.Valid.{IsArithmetic, IsValidated, Forward}
use mathlib.Core.Path.{subst}
use cell_oee_demo.Simulator.World.{World}
use cell_oee_demo.Simulator.Model.{producing, TagChange, fault_station}
use cell_oee_demo.Simulator.Config.{SimConfig}
use cell_oee_demo.Simulator.Host.{EventKind, Event}
use cell_oee_demo.Simulator.Cell.{Simulation, ◌>>=◌, fault_seconds, enter_fault}
use cell_oee_demo.Simulator.Cell.Handlers.{same_state, force_fault}
use cell_oee_demo.Simulator.Engine.{handle, step, step_from, is_due, outcome, force, drain}
use cell_oee_demo.Simulator.Ready.{Sure, is_kind, SortedFrom, WayOut, NextBreak, AreKnown, IsReady}
use cell_oee_demo.Simulator.Ready.Queue.{if-both, Sure-then}
use cell_oee_demo.Simulator.Ready.Transitions.{enter_fault-IsReady, HasDuration}
use cell_oee_demo.Simulator.Ready.Breaks.{Sure-some}
use cell_oee_demo.Simulator.Ready.Steps.{Popped, handle-IsReady}

-- The calls of the pacer, once the simulation has started.
pub data Call (w : World) : Type 0 where
  event : Call w
  forced : ℕ → w.F → ℕ → Call w

module _ (w : World) (cfg : SimConfig w) where
  abbrev pub Output : Type 0
  Output = List (TagChange w) × Simulation w

  abbrev pub changes_of : Option (List (TagChange w)) → List (TagChange w)
  changes_of none = []
  changes_of (some out) = out

  -- One call, and what it publishes.
  unfoldable pub call : Call w → Simulation w → Option Output
  call event s = step w cfg s
  call (forced code duration at) s =
      force w cfg code duration at s >>= λ (out, s'). some (changes_of out, s')

  unfoldable pub calls : List (Call w) → Simulation w → Option Output
  calls [] s = some ([], s)
  calls (c ∷ more) s =
      call c s >>= λ (out, s'). calls more s' >>= λ (rest, s''). some (out ++ rest, s'')

  -- The durations of forced faults are neither 0 nor negative.
  abbrev pub Lasts : Call w → Type 0
  Lasts event = Unit
  Lasts (forced code duration at) = (w.eq duration (w.real 0) ≡ false) × Forward w duration

  -- Ready, with all changes handed over.
  abbrev pub IsIdle : Simulation w → Type 0
  IsIdle s = IsReady w cfg s × (s.changes ≡ [])

  -- The changes that a call published carry the time at which it left the clock.
  abbrev pub IsPublished : Output → Type 0
  IsPublished (out, s) = IsIdle s × All (λ (c : TagChange w). c.ts ≡ s.now) out

  pub drain-IsPublished : (s : Simulation w) → IsReady w cfg s → IsPublished (drain w s)
  drain-IsPublished s ((core, beat, next), way) = (
    (
      (
        (
          record {
            sorted = core.sorted;
            known = core.known;
            stamped = tt;
            good_bound = core.good_bound;
            scrap_bound = core.scrap_bound;
            beats_bound = core.beats_bound;
            slot_forward = core.slot_forward;
            len_forward = core.len_forward;
          },
          beat,
          next,
        ),
        way,
      ),
      refl,
    ),
    core.stamped,
  )

  -- The simulation without its next event, at the time of it.
  abbrev taken : Event w → List (Event w) → Simulation w → Simulation w
  taken e heap s = record s { heap = heap; now = e.ts }

  taken-Popped :
      (e : Event w) (heap : List (Event w)) (s : Simulation w)
      → s.heap ≡ e ∷ heap
      → IsIdle s
      → Popped w cfg e (taken e heap s)
  taken-Popped e heap s same (((core, beat, (next, armed)), way), none_left) =
      let sorted = subst (λ l. SortedFrom w s.now l) same core.sorted in
      let known = subst (λ l. AreKnown w cfg l) same core.known in
      record {
        known = known.0;
        core = record {
          sorted = sorted.1;
          known = known.1;
          stamped = subst (λ l. All (λ (c : TagChange w). c.ts ≡ e.ts) l) (sym none_left) tt;
          good_bound = core.good_bound;
          scrap_bound = core.scrap_bound;
          beats_bound = core.beats_bound;
          slot_forward = core.slot_forward;
          len_forward = core.len_forward;
        };
        beat = subst (λ l. any (is_kind w EventKind.heartbeat) l ≡ true) same beat;
        next = subst (λ l. NextBreak w s.cell.break_active l) same next;
        armed = armed;
        way = subst (λ l. WayOut w s.cell.state s.cell.epoch s.cell.break_active l) same way;
      }

  -- A forced fault that is not refused leaves the simulation ready.
  abbrev MayBeReady : Option (Simulation w) → Type 0
  MayBeReady none = Unit
  MayBeReady (some s) = IsReady w cfg s

  given-lasts :
      (code : ℕ) (duration : w.F)
      → w.eq duration (w.real 0) ≡ false
      → Forward w duration
      → (rng : w.R) → HasDuration w cfg code (some duration) rng
  unfolding fault_seconds
  given-lasts code duration e forward rng = rw e forward

  force_fault-IsReady :
      (code : ℕ) (duration : w.F) (s : Simulation w)
      → Lasts (forced code duration s.now)
      → IsReady w cfg s
      → Sure MayBeReady (force_fault w cfg code duration s)
  unfolding force_fault
  force_fault-IsReady code duration s lasts h =
      if-both (Sure MayBeReady) (same_state s.cell.state producing && is_some (fault_station code))
        (enter_fault w cfg code (some duration) s >>= λ s'. some (some s')) (some none)
        (λ e.
          Sure-then (IsReady w cfg) MayBeReady (enter_fault w cfg code (some duration) s) _
            (enter_fault-IsReady w cfg code (some duration) s (ground arith)
              (given-lasts code duration lasts.0 lasts.1) h.0)
            λ s' ready. ready)
        λ e. tt

  later-IsReady :
      (at : ℕ) (e : Event w) (heap : List (Event w)) (s : Simulation w)
      → s.heap ≡ e ∷ heap
      → leb e.ts at ≡ false
      → IsIdle s
      → IsReady w cfg (record s { now = max s.now at })
  later-IsReady at e heap s same ahead (((core, beat, next), way), none_left) =
      let sorted = subst (λ l. SortedFrom w s.now l) same core.sorted in
      let from : s.now ≤ e.ts = sorted.0 in
      let first : max s.now at ≤ e.ts = ground arith in
      (
        (
          record {
            sorted = subst (λ l. SortedFrom w (max s.now at) l) (sym same) (first, sorted.1);
            known = core.known;
            stamped =
                subst (λ l. All (λ (c : TagChange w). c.ts ≡ max s.now at) l) (sym none_left) tt;
            good_bound = core.good_bound;
            scrap_bound = core.scrap_bound;
            beats_bound = core.beats_bound;
            slot_forward = core.slot_forward;
            len_forward = core.len_forward;
          },
          beat,
          next,
        ),
        way,
      )

  is_due-is_some :
      (heap : List (Event w)) (at : ℕ)
      → any (is_kind w EventKind.heartbeat) heap ≡ true
      → is_some (is_due w cfg heap at) ≡ true
  is_due-is_some [] at h = h
  is_due-is_some (e ∷ heap) at h = refl

  is_due-false :
      (heap : List (Event w)) (at : ℕ)
      → is_due w cfg heap at ≡ some false
      → (e : Event w) × (rest : List (Event w)) × (heap ≡ e ∷ rest) × (leb e.ts at ≡ false)
  is_due-false [] at h = absurd (ground arith)
  is_due-false (e ∷ heap) at h = (e, heap, refl, ground arith)

  -- A forced fault that is refused publishes nothing.
  abbrev pub IsForced : Option (List (TagChange w)) × Simulation w → Type 0
  IsForced (out, s) = IsPublished (changes_of out, s)

  outcome-IsForced :
      (moved : Simulation w) (done : Option (Simulation w))
      → IsIdle moved
      → MayBeReady done
      → IsForced (outcome w cfg moved done)
  outcome-IsForced moved none h k = (h, tt)
  outcome-IsForced moved (some s) h k = drain-IsPublished s k

  force-IsForced :
      (code : ℕ) (duration : w.F) (at : ℕ) (s : Simulation w)
      → Lasts (forced code duration at)
      → IsIdle s
      → Sure IsForced (force w cfg code duration at s)
  unfolding force
  force-IsForced code duration at s lasts h =
      Sure-some IsForced (is_due w cfg s.heap at) _ (is_due-is_some s.heap at h.0.0.1) λ due known.
        let moved : Simulation w = record s { now = max s.now at } in
        if-both (Sure IsForced) due (some (none, s))
          (force_fault w cfg code duration moved >>= λ done. some (outcome w cfg moved done))
          (λ e. (h, tt))
          λ e.
            let not_due = rw e at known in
            let (next, rest, same, ahead) = is_due-false s.heap at not_due in
            let ready = later-IsReady at next rest s same ahead h in
            Sure-then MayBeReady IsForced (force_fault w cfg code duration moved) _
              (force_fault-IsReady code duration moved lasts ready)
              λ done k. outcome-IsForced moved done (ready, h.1) k

  module _ (laws : IsArithmetic w) (valid : IsValidated w cfg) where
    step_from-IsPublished :
        (heap : List (Event w)) (s : Simulation w)
        → s.heap ≡ heap
        → IsIdle s
        → Sure IsPublished (step_from w cfg heap s)
    unfolding step_from
    step_from-IsPublished [] s e h = let beat = rw e at h.0.0.1 in absurd (ground (arith, beat))
    step_from-IsPublished (e ∷ heap) s same h =
        Sure-then (IsReady w cfg) IsPublished
          (handle w cfg e.kind e.payload e.epoch (taken e heap s)) _
          (handle-IsReady w cfg laws valid e.ts e.seq e.kind e.epoch e.payload (taken e heap s)
            (taken-Popped e heap s same h))
          λ s' ready. drain-IsPublished s' ready

    step-IsPublished : (s : Simulation w) → IsIdle s → Sure IsPublished (step w cfg s)
    unfolding step
    step-IsPublished s h = step_from-IsPublished s.heap s refl h

    pub call-IsPublished :
        (c : Call w) (s : Simulation w) → Lasts c → IsIdle s → Sure IsPublished (call c s)
    unfolding call
    call-IsPublished event s lasts h = step-IsPublished s h
    call-IsPublished (forced code duration at) s lasts h =
        Sure-then IsForced IsPublished (force w cfg code duration at s) _
          (force-IsForced code duration at s lasts h) λ out k. k

    -- Any calls in a row.
    pub calls-IsIdle :
        (cs : List (Call w)) (s : Simulation w)
        → All Lasts cs
        → IsIdle s
        → Sure (λ (r : Output). IsIdle r.1) (calls cs s)
    unfolding calls
    calls-IsIdle [] s lasts h = h
    calls-IsIdle (c ∷ cs) s lasts h =
        Sure-then IsPublished (λ (r : Output). IsIdle r.1) (call c s) _
          (call-IsPublished c s lasts.0 h)
          λ r k.
            Sure-then (λ (q : Output). IsIdle q.1) (λ (q : Output). IsIdle q.1) (calls cs r.1) _
              (calls-IsIdle cs r.1 lasts.1 k.0) λ q m. m
