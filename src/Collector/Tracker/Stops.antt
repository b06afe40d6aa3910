-- ===== src/Collector/Tracker/Stops.antt =====
-- The stops that the tracker opens and closes, against the cell events that it emits.
use cell_oee_demo.Prelude.{
  ℕ, ◌<◌, ◌≡◌, refl, ◌∙◌, sym, ap, ap₂, false, ◌||◌, Option, none, some, List, [], ◌∷◌, ◌++◌, arith,
  ◌==◌, if◌then◌else◌, Option-cases, Bool-cases, inl, inr,
}
use mathlib.Core.Path.{subst}
use cell_oee_demo.Domain.{Scope, suggest_cause}
use cell_oee_demo.Oee.Types.{Instant}
use cell_oee_demo.Collector.Types.{
  Station, op10, op20, op30, Tag, Group, Op, state_event, open_stop, close_stop,
}
use cell_oee_demo.Collector.Tracker.{
  Tracker, CellRow, learn, changes, cell_values, is_stale, closing, station_of, transition,
  cell_event, station_event, station_events, counter_event, weld_event, other_events, then_others,
  apply, apply_all,
}

-- What the operations have stored: the cell events, the latest first, and the stops.
pub record StopLog : Type 0 where
  pub rows : List (Instant × ℕ)
  pub opened : Option Instant
  pub closed : List (Instant × Instant)

abbrev pub log_op : StopLog → Op → StopLog
log_op log (state_event Scope.cell ts state fault origin) = record log {
  rows = (ts, state) ∷ log.rows;
}
log_op log (open_stop start state station fault cause) = record log { opened = some start }
log_op log (close_stop start end) = record log { opened = none; closed = (start, end) ∷ log.closed }
log_op log _ = log

abbrev pub log_ops : StopLog → List Op → StopLog
log_ops log [] = log
log_ops log (op ∷ ops) = log_ops (log_op log op) ops

-- The stop that is open after a sequence of cell events: the last one, if it is not PRODUCING (1).
abbrev pub open_after : List (Instant × ℕ) → Option Instant
open_after [] = none
open_after ((ts, state) ∷ rows) = if state == 1 then none else some ts

-- A stop for each earlier event that is not PRODUCING, until the next event.
abbrev pub end_previous :
    Option Instant → Instant → List (Instant × Instant) → List (Instant × Instant)
end_previous none ts stops = stops
end_previous (some start) ts stops = (start, ts) ∷ stops

abbrev pub closed_after : List (Instant × ℕ) → List (Instant × Instant)
closed_after [] = []
closed_after ((ts, state) ∷ rows) = end_previous (open_after rows) ts (closed_after rows)

-- Strictly later than all of these.
abbrev pub After : List (Instant × ℕ) → Instant → Type 0
After [] ts = Unit
After ((last, state) ∷ rows) ts = last < ts

abbrev pub IsHistory : List (Instant × ℕ) → Type 0
IsHistory [] = Unit
IsHistory ((ts, state) ∷ rows) = After rows ts × IsHistory rows

-- The tracker's last cell event is the last one stored.
abbrev pub IsLast : Option CellRow → List (Instant × ℕ) → Type 0
IsLast none rows = rows ≡ []
IsLast (some (ts, s, f, o)) rows = (older : List (Instant × ℕ)) × (rows ≡ (ts, s) ∷ older)

-- The events are in strict order of time, the stops are exactly those of the events, and the tracker
-- knows the last event and the open stop.
pub record IsFaithful (t : Tracker) (log : StopLog) : Type 0 where
  pub last : IsLast t.last_cell log.rows
  pub history : IsHistory log.rows
  pub open_known : t.open_stop_start ≡ open_after log.rows
  pub open_stored : log.opened ≡ open_after log.rows
  pub closed_stored : log.closed ≡ closed_after log.rows

log_ops-append : (log : StopLog) (a b : List Op) → log_ops log (a ++ b) ≡ log_ops (log_ops log a) b
log_ops-append log [] b = refl
log_ops-append log (op ∷ a) b = log_ops-append (log_op log op) a b

-- The other operations store no cell event and no stop.
abbrev IsOther : Tracker → Tracker × List Op → Type 0
IsOther t r =
    (r.0.last_cell ≡ t.last_cell)
    × (r.0.open_stop_start ≡ t.open_stop_start)
    × ((log : StopLog) → log_ops log r.1 ≡ log)

station_event-IsOther : (t : Tracker) (g : Group) (st : Station) → IsOther t (station_event t g st)
unfolding station_event
station_event-IsOther t g op10 = (ground arith, ground arith, λ log. ground arith)
station_event-IsOther t g op20 = (ground arith, ground arith, λ log. ground arith)
station_event-IsOther t g op30 = (ground arith, ground arith, λ log. ground arith)

counter_event-IsOther : (t : Tracker) (g : Group) → IsOther t (counter_event t g)
unfolding counter_event
counter_event-IsOther t g = (ground arith, ground arith, λ log. ground arith)

weld_event-IsOther : (t : Tracker) (g : Group) → IsOther t (weld_event t g)
unfolding weld_event
weld_event-IsOther t g = (ground arith, ground arith, λ log. ground arith)

IsOther-then :
    (t t₁ t₂ : Tracker) (a b : List Op)
    → IsOther t (t₁, a)
    → IsOther t₁ (t₂, b)
    → IsOther t (t₂, a ++ b)
IsOther-then t t₁ t₂ a b h k =
    (k.0 ∙ h.0, k.1 ∙ h.1, λ log. rw (log_ops-append log a b) (rw (h.2 log) (k.2 log)))

station_events-IsOther : (t : Tracker) (g : Group) → IsOther t (station_events t g)
unfolding station_events
station_events-IsOther t g =
    let (t₁, a) = station_event t g op10 in
    let (t₂, b) = station_event t₁ g op20 in
    let (t₃, c) = station_event t₂ g op30 in
    IsOther-then t t₁ t₃ a (b ++ c) (station_event-IsOther t g op10) (
      IsOther-then t₁ t₂ t₃ b c (station_event-IsOther t₁ g op20) (station_event-IsOther t₂ g op30))

other_events-IsOther : (t : Tracker) (g : Group) → IsOther t (other_events t g)
unfolding other_events
other_events-IsOther t g =
    let (t₁, a) = station_events t g in
    let (t₂, b) = counter_event t₁ g in
    let (t₃, c) = weld_event t₂ g in
    IsOther-then t t₁ t₃ a (b ++ c) (station_events-IsOther t g)
      (IsOther-then t₁ t₂ t₃ b c (counter_event-IsOther t₁ g) (weld_event-IsOther t₂ g))

-- An event that is not stale comes strictly after the last stored one.
After-of_fresh :
    (last : Option CellRow) (rows : List (Instant × ℕ)) (ts s f o : ℕ)
    → IsLast last rows
    → is_stale last ts (s, f, o) ≡ false
    → After rows ts
After-of_fresh none rows ts s f o h e = rw h tt
After-of_fresh (some (last, s', f', o')) rows ts s f o h e = rw h.1 (ground arith)

log_closing :
    (open_stop_start : Option Instant) (ts : Instant) (log : StopLog)
    → log.opened ≡ open_stop_start
    → log_ops log (closing open_stop_start ts)
      ≡ record log { opened = none; closed = end_previous open_stop_start ts log.closed }
log_closing none ts log e = λ i. record log { opened = e i }
log_closing (some start) ts log e = refl

-- What a step that may raise has kept.
abbrev pub Keeps : StopLog → Option (Tracker × List Op) → Type 0
Keeps log none = Unit
Keeps log (some (t, ops)) = IsFaithful t (log_ops log ops)

-- The record after a cell event, and after the stop before it is closed.
abbrev with_event : StopLog → Instant → ℕ → StopLog
with_event log ts state = record log { rows = (ts, state) ∷ log.rows }

abbrev after_close : StopLog → Option Instant → Instant → ℕ → StopLog
after_close log start ts state = record log {
  rows = (ts, state) ∷ log.rows;
  opened = none;
  closed = end_previous start ts log.closed;
}

module _ (t : Tracker) (log : StopLog) (ts s : ℕ) (h : IsFaithful t log)
    (after : After log.rows ts) where
  closed_event :
      log_ops (with_event log ts s) (closing t.open_stop_start ts)
      ≡ after_close log t.open_stop_start ts s
  closed_event =
      log_closing t.open_stop_start ts (with_event log ts s) (h.open_stored ∙ sym h.open_known)

  ended : end_previous t.open_stop_start ts log.closed ≡ closed_after ((ts, s) ∷ log.rows)
  ended = ap₂ (λ a b. end_previous a ts b) h.open_known h.closed_stored

  transition-Keeps : (f o : ℕ) → Keeps log (transition t ts s f o)
  unfolding transition
  transition-Keeps f o = elim (Bool-cases (s == 1)) [
    | inl e ↦ rw e (
        subst (IsFaithful _) (sym closed_event) (record {
          last = (log.rows, refl);
          history = (after, h.history);
          open_known = rw e;
          open_stored = rw e;
          closed_stored = ended;
        }))
    | inr e ↦ rw e (elim (Option-cases (suggest_cause s f)) [
      | inl n ↦ rw n tt
      | inr (cause, k) ↦ rw k (
          subst (IsFaithful _)
            (sym (
              log_ops-append (with_event log ts s) (closing t.open_stop_start ts)
                (open_stop ts s (station_of o) f cause ∷ [])
              ∙ ap (λ l. log_op l (open_stop ts s (station_of o) f cause)) closed_event))
            (record {
              last = (log.rows, refl);
              history = (after, h.history);
              open_known = rw e;
              open_stored = rw e;
              closed_stored = ended;
            }))
    ])
  ]

cell_event-Keeps :
    (t : Tracker) (log : StopLog) (g : Group) → IsFaithful t log → Keeps log (cell_event t g)
unfolding cell_event
cell_event-Keeps t log g h =
    elim (Bool-cases
      (changes g Tag.cell_state || (changes g Tag.cell_fault || changes g Tag.cell_origin))) [
        | inr e ↦ rw e h
        | inl e ↦ rw e (elim (Option-cases (cell_values t.latest)) [
          | inl n ↦ rw n h
          | inr ((s, f, o), k) ↦ rw k (elim (Bool-cases (is_stale t.last_cell g.ts (s, f, o))) [
            | inl stale ↦ rw stale h
            | inr fresh ↦ rw fresh (
                transition-Keeps t log g.ts s h
                  (After-of_fresh t.last_cell log.rows g.ts s f o h.last fresh) f o)
          ])
        ])
      ]

other_events-Keeps :
    (t : Tracker) (log : StopLog) (g : Group) (ops : List Op)
    → IsFaithful t (log_ops log ops)
    → IsFaithful (other_events t g).0 (log_ops log (ops ++ (other_events t g).1))
other_events-Keeps t log g ops h =
    let other = other_events-IsOther t g in
    rw (log_ops-append log ops (other_events t g).1) (
      rw (other.2 (log_ops log ops)) (record {
        last = rw other.0 h.last;
        history = h.history;
        open_known = other.1 ∙ h.open_known;
        open_stored = h.open_stored;
        closed_stored = h.closed_stored;
      }))

then_others-Keeps :
    (log : StopLog) (g : Group) (r : Option (Tracker × List Op))
    → Keeps log r
    → Keeps log (then_others g r)
then_others-Keeps log g none h = tt
then_others-Keeps log g (some (t, ops)) h = other_events-Keeps t log g ops h

apply-Keeps : (t : Tracker) (log : StopLog) (g : Group) → IsFaithful t log → Keeps log (apply t g)
unfolding apply
apply-Keeps t log g h =
    let known : Tracker = record t { latest = learn g t.latest } in
    let kept : IsFaithful known log = record {
      last = h.last;
      history = h.history;
      open_known = h.open_known;
      open_stored = h.open_stored;
      closed_stored = h.closed_stored;
    } in
    then_others-Keeps log g (cell_event known g) (cell_event-Keeps known log g kept)

apply_all-Keeps :
    (t : Tracker) (log : StopLog) (groups : List Group) (ops : List Op)
    → IsFaithful t (log_ops log ops)
    → Keeps log (apply_all t groups ops)
unfolding apply_all
apply_all-Keeps t log [] ops h = h
apply_all-Keeps t log (g ∷ groups) ops h =
    let kept = apply-Keeps t (log_ops log ops) g h in
    elim (Option-cases (apply t g)) [
      | inl e ↦ rw (e, Keeps) tt
      | inr ((t', more), e) ↦
          rw (e, Keeps)
            (apply_all-Keeps t' log groups (ops ++ more)
              (rw (log_ops-append log ops more) (subst (Keeps (log_ops log ops)) e kept)))
    ]

abbrev pub empty_log : StopLog
empty_log = record { rows = []; opened = none; closed = [] }

-- From a tracker and a record of stored rows that agree, whatever groups arrive, in whatever order, and
-- however often: the cell events stored are in strict order of time, and the stops stored are exactly
-- the periods of these events that are not PRODUCING, each closed at the next event, the last one open;
-- and the tracker knows the last event and the open stop.
pub apply_all-IsFaithful :
    (t : Tracker) (log : StopLog) (groups : List Group) {t' : Tracker} {ops : List Op}
    → IsFaithful t log
    → apply_all t groups [] ≡ some (t', ops)
    → IsFaithful t' (log_ops log ops)
apply_all-IsFaithful t log groups h e = subst (Keeps log) e (apply_all-Keeps t log groups [] h)
