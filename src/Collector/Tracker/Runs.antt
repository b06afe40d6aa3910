-- ===== src/Collector/Tracker/Runs.antt =====
-- The tracker raises nothing while the cell's state is one of those of the enum.
use cell_oee_demo.Prelude.{
  ℕ, ◌≡◌, refl, ◌∙◌, sym, true, ◌||◌, Option, none, some, List, [], ◌∷◌, ◌++◌, arith, leb,
  Option-cases, Bool-cases, inl, inr, All, is_some,
}
use mathlib.Core.Path.{subst}
use cell_oee_demo.Domain.{suggest_cause, cell_state}
use cell_oee_demo.Oee.Types.{Instant}
use cell_oee_demo.Collector.Types.{
  Station, op10, op20, op30, Tag, TagValue, to_int, Group, Op, value_of,
}
use cell_oee_demo.Collector.Tracker.{
  Tracker, Latest, newer, learn, changes, value, cell_values, is_stale, transition, cell_event,
  station_event, station_events, counter_event, weld_event, other_events, then_others, apply,
  apply_all,
}
use cell_oee_demo.Collector.Tracker.Stops.{IsFaithful, StopLog, log_ops, apply_all-IsFaithful}

-- A value of the cell's state that stands for one of its states.
abbrev pub IsReadable : Option TagValue → Type 0
IsReadable none = Unit
IsReadable (some v) = is_some (cell_state (to_int v)) ≡ true

abbrev pub Knows : Latest → Type 0
Knows latest = IsReadable (value latest Tag.cell_state)

abbrev pub AreReadable : List Group → Type 0
AreReadable = All (λ g. IsReadable (value_of Tag.cell_state g.values))

newer-IsReadable :
    (ts : Instant) (known : Option (Instant × TagValue)) (v : TagValue)
    → IsReadable (elim known [ none ↦ none | some (at, w) ↦ some w ])
    → IsReadable (some v)
    → IsReadable (elim (newer ts known v) [ none ↦ none | some (at, w) ↦ some w ])
newer-IsReadable ts none v h k = k
newer-IsReadable ts (some (at, w)) v h k = elim (Bool-cases (leb at ts)) [
  | inl e ↦ rw e k
  | inr e ↦ rw e h
]

pub learn-Knows :
    (g : Group) (latest : Latest)
    → Knows latest
    → IsReadable (value_of Tag.cell_state g.values)
    → Knows (learn g latest)
unfolding learn
learn-Knows g latest h k = elim (Option-cases (value_of Tag.cell_state g.values)) [
  | inl e ↦ rw (e, Knows, IsReadable, value, learn) h
  | inr (v, e) ↦
      rw (e, Knows, IsReadable, value, learn)
        (newer-IsReadable g.ts (latest Tag.cell_state) v h (subst IsReadable e k))
]

cell_values-state :
    (latest : Latest) (s f o : ℕ)
    → Knows latest
    → cell_values latest ≡ some (s, f, o)
    → is_some (cell_state s) ≡ true
cell_values-state latest s f o h e = ground (arith, h, e)

suggest_cause-some : (s f : ℕ) → is_some (cell_state s) ≡ true → is_some (suggest_cause s f) ≡ true
unfolding suggest_cause
suggest_cause-some s f h = ground (arith, h)

-- A step that does not raise, and leaves these values known.
abbrev pub Runs : Latest → Option (Tracker × List Op) → Type 0
Runs latest none = ⊥
Runs latest (some (t, ops)) = t.latest ≡ latest

transition-Runs :
    (t : Tracker) (ts s f o : ℕ)
    → is_some (cell_state s) ≡ true
    → Runs t.latest (transition t ts s f o)
unfolding transition
transition-Runs t ts s f o h = ground (arith, suggest_cause-some s f h)

pub cell_event-Runs : (t : Tracker) (g : Group) → Knows t.latest → Runs t.latest (cell_event t g)
unfolding cell_event
cell_event-Runs t g h =
    elim (Bool-cases
      (changes g Tag.cell_state || (changes g Tag.cell_fault || changes g Tag.cell_origin))) [
        | inr e ↦ rw e refl
        | inl e ↦ rw e (elim (Option-cases (cell_values t.latest)) [
          | inl n ↦ rw n refl
          | inr ((s, f, o), k) ↦ rw k (elim (Bool-cases (is_stale t.last_cell g.ts (s, f, o))) [
            | inl stale ↦ rw stale refl
            | inr fresh ↦
                rw fresh (transition-Runs t g.ts s f o (cell_values-state t.latest s f o h k))
          ])
        ])
      ]

pub station_event_latest :
    (t : Tracker) (g : Group) (st : Station) → (station_event t g st).0.latest ≡ t.latest
unfolding station_event
station_event_latest t g op10 = ground arith
station_event_latest t g op20 = ground arith
station_event_latest t g op30 = ground arith

pub counter_event_latest : (t : Tracker) (g : Group) → (counter_event t g).0.latest ≡ t.latest
unfolding counter_event
counter_event_latest t g = ground arith

weld_event_latest : (t : Tracker) (g : Group) → (weld_event t g).0.latest ≡ t.latest
unfolding weld_event
weld_event_latest t g = ground arith

other_events_latest : (t : Tracker) (g : Group) → (other_events t g).0.latest ≡ t.latest
unfolding other_events station_events
other_events_latest t g =
    let (t₁, a) = station_event t g op10 in
    let (t₂, b) = station_event t₁ g op20 in
    let (t₃, c) = station_event t₂ g op30 in
    let (t₄, d) = counter_event t₃ g in
    weld_event_latest t₄ g
    ∙ counter_event_latest t₃ g
    ∙ station_event_latest t₂ g op30
    ∙ station_event_latest t₁ g op20
    ∙ station_event_latest t g op10

then_others-Runs :
    (latest : Latest) (g : Group) (r : Option (Tracker × List Op))
    → Runs latest r
    → Runs latest (then_others g r)
then_others-Runs latest g none h = h
then_others-Runs latest g (some (t, ops)) h = other_events_latest t g ∙ h

pub apply-Runs :
    (t : Tracker) (g : Group) → Knows (learn g t.latest) → Runs (learn g t.latest) (apply t g)
unfolding apply
apply-Runs t g h =
    let known : Tracker = record t { latest = learn g t.latest } in
    then_others-Runs known.latest g (cell_event known g) (cell_event-Runs known g h)

-- The result of a run that raised nothing.
abbrev pub Returns : Option (Tracker × List Op) → Type 0
Returns r = (t : Tracker) × (ops : List Op) × (r ≡ some (t, ops))

pub apply_all-Returns :
    (t : Tracker) (groups : List Group) (ops : List Op)
    → Knows t.latest
    → AreReadable groups
    → Returns (apply_all t groups ops)
unfolding apply_all
apply_all-Returns t [] ops h r = (t, ops, refl)
apply_all-Returns t (g ∷ groups) ops h r =
    let knows = learn-Knows g t.latest h r.0 in
    let runs = apply-Runs t g knows in
    elim (Option-cases (apply t g)) [
      | inl e ↦ absurd (subst (Runs (learn g t.latest)) e runs)
      | inr ((t', more), e) ↦
          rw (e, Returns, apply_all)
            (apply_all-Returns t' groups (ops ++ more)
              (subst Knows (sym (subst (Runs (learn g t.latest)) e runs)) knows) r.1)
    ]

-- As long as every state of the cell that arrives, and the one known, is a state of the enum, applying
-- any groups raises nothing, and what is stored stays faithful: the cell events in strict order of time,
-- and the stops exactly their periods that are not PRODUCING.
pub apply_all-Runs :
    (t : Tracker) (log : StopLog) (groups : List Group)
    → IsFaithful t log
    → Knows t.latest
    → AreReadable groups
    → (t' : Tracker) × (ops : List Op) × (apply_all t groups [] ≡ some (t', ops))
      × IsFaithful t' (log_ops log ops)
apply_all-Runs t log groups h k r =
    let (t', ops, e) = apply_all-Returns t groups [] k r in
    (t', ops, e, apply_all-IsFaithful t log groups h e)
