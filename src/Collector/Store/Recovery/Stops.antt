-- ===== src/Collector/Store/Recovery/Stops.antt =====
-- The events of the cell, and its stops.
use cell_oee_demo.Prelude.{
  ℕ, ◌<◌, ◌≡◌, refl, ◌∙◌, sym, ap, false, ◌||◌, Option, none, some, List, [], ◌∷◌, ◌++◌, arith,
  ◌==◌, Option-cases, Bool-cases, inl, inr, All, any, map,
}
use mathlib.Core.Path.{subst}
use mathlib.Core.List.{append-nil}
use cell_oee_demo.Domain.{Scope, Cause, suggest_cause}
use cell_oee_demo.Oee.Types.{Instant}
use cell_oee_demo.Collector.Types.{
  Station, op10, op20, op30, Tag, Group, Op, state_event, open_stop,
}
use cell_oee_demo.Collector.Tracker.{
  Tracker, CellRow, changes, cell_values, is_stale, closing, station_of, transition, cell_event,
  scope_of,
}
use cell_oee_demo.Collector.Store.{
  Db, EventRow, StopRow, is_open, scope_code, close_stop_row, change, ◌>>=◌, latest_event,
  open_stops, cell_row,
}
use cell_oee_demo.Collector.Store.Recovery.{
  IsAfter, row_of, with_event, open_of, StartsBy, list_of, Agrees, Commits, Commits-none,
  change_all, change_all-append, change_event, latest_event_self, latest_event_other,
  change_all_one,
}

-- The rows of the stops, after the open one is closed.
abbrev closed_stops : Option Instant → Instant → List StopRow → List StopRow
closed_stops none ts rows = rows
closed_stops (some start) ts rows = map (close_stop_row start ts) rows

abbrev OpenBefore : Option Instant → Instant → Type 0
OpenBefore none ts = Unit
OpenBefore (some start) ts = start < ts

open_of-OpenBefore :
    (last : Option CellRow) (ts : Instant) (v : ℕ × ℕ × ℕ)
    → is_stale last ts v ≡ false
    → OpenBefore (open_of last) ts
open_of-OpenBefore none ts v h = tt
open_of-OpenBefore (some (last, s', f', o')) ts (s, f, o) h = elim (Bool-cases (s' == 1)) [
  | inl e ↦ rw e tt
  | inr e ↦ rw e (ground (arith, h))
]

IsAfter-cell_row :
    (o : Option EventRow) (ts : Instant) (v : ℕ × ℕ × ℕ)
    → is_stale (cell_row o) ts v ≡ false
    → IsAfter o ts
IsAfter-cell_row none ts v h = tt
IsAfter-cell_row (some r) ts (s, f, o) h = ground (arith, h)

StartsBy-lt :
    (last : Option CellRow) (ts : Instant) (v : ℕ × ℕ × ℕ) (start : Instant)
    → is_stale last ts v ≡ false
    → StartsBy last start
    → start < ts
StartsBy-lt none ts v start h k = absurd k
StartsBy-lt (some (last, s', f', o')) ts (s, f, o) start h k = ground (arith, h, k)

abbrev StartBefore : Instant → List StopRow → Type 0
StartBefore ts = All (λ r. r.start_ts < ts)

started-StartBefore :
    (last : Option CellRow) (ts : Instant) (v : ℕ × ℕ × ℕ) (rows : List StopRow)
    → is_stale last ts v ≡ false
    → All (λ r. StartsBy last r.start_ts) rows
    → StartBefore ts rows
started-StartBefore last ts v [] h k = tt
started-StartBefore last ts v (r ∷ rows) h k =
    (StartsBy-lt last ts v r.start_ts h k.0, started-StartBefore last ts v rows h k.1)

StartBefore-close :
    (start ts bound : Instant) (rows : List StopRow)
    → StartBefore bound rows
    → StartBefore bound (map (close_stop_row start ts) rows)
StartBefore-close start ts bound [] h = tt
StartBefore-close start ts bound (r ∷ rows) h = (h.0, StartBefore-close start ts bound rows h.1)

open_stops-close :
    (start ts : Instant) (rows : List StopRow)
    → start < ts
    → All (λ s. s ≡ start) (open_stops rows)
    → open_stops (map (close_stop_row start ts) rows) ≡ []
unfolding open_stops
open_stops-close start ts [] lt h = refl
open_stops-close start ts (r ∷ rows) lt h = elim (Option-cases r.end_ts) [
  | inl e ↦ let k = rw e at h in ground (arith, e, k.0, open_stops-close start ts rows lt k.1)
  | inr (end, e) ↦ let k = rw e at h in ground (arith, e, open_stops-close start ts rows lt k)
]

closed_stops_lem :
    (o : Option Instant) (ts : Instant) (rows : List StopRow)
    → OpenBefore o ts
    → open_stops rows ≡ list_of o
    → StartBefore ts rows
    → (open_stops (closed_stops o ts rows) ≡ []) × StartBefore ts (closed_stops o ts rows)
closed_stops_lem none ts rows b e h = (e, h)
closed_stops_lem (some start) ts rows b e h =
    (open_stops-close start ts rows b (rw e (refl, tt)), StartBefore-close start ts ts rows h)

change_closing :
    (db : Db) (o : Option Instant) (ts : Instant)
    → change_all db (closing o ts) ≡ some (record db { stops = closed_stops o ts db.stops })
unfolding change_all change
change_closing db none ts = refl
change_closing db (some start) ts = refl

no_open : (rows : List StopRow) → open_stops rows ≡ [] → any (λ r. is_open r.end_ts) rows ≡ false
unfolding open_stops
no_open [] h = refl
no_open (r ∷ rows) h = elim (Option-cases r.end_ts) [
  | inl e ↦ let k = rw e at h in absurd (ground (arith, k))
  | inr (end, e) ↦ let k = rw e at h in rw e (no_open rows k)
]

abbrev opened_row : Instant → ℕ → Scope → ℕ → Option Cause → StopRow
opened_row ts s station f cause = record {
  start_ts = ts;
  end_ts = none;
  state = s;
  origin_station = station;
  fault_code = f;
  suggested_category = cause;
}

fresh_start :
    (ts : Instant) (rows : List StopRow)
    → StartBefore ts rows
    → any (λ r. r.start_ts == ts) rows ≡ false
fresh_start ts [] h = refl
fresh_start ts (r ∷ rows) h = ground (arith, h.0, fresh_start ts rows h.1)

StartBefore-started :
    (ts s f o : ℕ) (rows : List StopRow)
    → StartBefore ts rows
    → All (λ r. StartsBy (some (ts, s, f, o)) r.start_ts) rows
StartBefore-started ts s f o [] h = tt
StartBefore-started ts s f o (r ∷ rows) h =
    (omega (arith, h.0), StartBefore-started ts s f o rows h.1)

cell_not : (st : Station) → (scope_code Scope.cell == scope_code (scope_of st)) ≡ false
cell_not op10 = refl
cell_not op20 = refl
cell_not op30 = refl

change_open :
    (db : Db) (ts s : ℕ) (station : Scope) (f : ℕ) (cause : Option Cause)
    → open_stops db.stops ≡ []
    → StartBefore ts db.stops
    → change db (open_stop ts s station f cause)
      ≡ some (record db { stops = opened_row ts s station f cause ∷ db.stops })
unfolding change
change_open db ts s station f cause none_open before =
    rw (fresh_start ts db.stops before, no_open db.stops none_open) refl

open_stops_cons :
    (ts s : ℕ) (station : Scope) (f : ℕ) (cause : Option Cause) (rows : List StopRow)
    → open_stops rows ≡ []
    → open_stops (opened_row ts s station f cause ∷ rows) ≡ ts ∷ []
unfolding open_stops
open_stops_cons ts s station f cause rows h = ap (◌∷◌ ts) h

change_all_none : (db : Db) → change_all db [] ≡ some db
unfolding change_all
change_all_none db = refl

-- A step that may raise.
abbrev pub Kept : Db → Option (Tracker × List Op) → Type 0
Kept db none = Unit
Kept db (some r) = Commits db r

module _ (t : Tracker) (db : Db) (h : Agrees t db) (ts s f o : ℕ)
    (fresh : is_stale t.last_cell ts (s, f, o) ≡ false) where
  IsAfter-last : IsAfter (latest_event Scope.cell db.state_events) ts
  IsAfter-last =
      IsAfter-cell_row (latest_event Scope.cell db.state_events) ts (s, f, o)
        (subst (λ c. is_stale c ts (s, f, o) ≡ false) h.last_cell fresh)

  abbrev cell_event_row : EventRow
  cell_event_row = row_of Scope.cell ts s f (some o)

  abbrev db_closed : Db
  db_closed = record db {
    state_events = cell_event_row ∷ db.state_events;
    stops = closed_stops t.open_stop_start ts db.stops;
  }

  closed : (open_stops db_closed.stops ≡ []) × StartBefore ts db_closed.stops
  closed =
      closed_stops_lem t.open_stop_start ts db.stops
        (subst (λ c. OpenBefore c ts) (sym h.open_known)
          (open_of-OpenBefore t.last_cell ts (s, f, o) fresh))
        h.open_stored (started-StartBefore t.last_cell ts (s, f, o) db.stops fresh h.started)

  -- The event is stored, and the open stop is closed.
  change_event_closing :
      (more : List Op)
      → change_all db
          (state_event Scope.cell ts s f (some o) ∷ (closing t.open_stop_start ts ++ more))
        ≡ change_all db_closed more
  unfolding change_all
  change_event_closing more =
      let db₁ = with_event db cell_event_row in
      rw (change_event db Scope.cell ts s f (some o) IsAfter-last, ◌>>=◌)
        (change_all-append db₁ (closing t.open_stop_start ts) more
          ∙ rw (change_closing db₁ t.open_stop_start ts, ◌>>=◌) refl)

  module _ (open_stop_start : Option Instant) (stops : List StopRow) where
    abbrev next_tracker : Tracker
    next_tracker = record t { open_stop_start = open_stop_start; last_cell = some (ts, s, f, o) }

    abbrev next_db : Db
    next_db = record db { state_events = cell_event_row ∷ db.state_events; stops = stops }

    next-Agrees :
        (open_stop_start ≡ open_of (some (ts, s, f, o)))
        → (open_stops stops ≡ list_of open_stop_start)
        → All (λ r. StartsBy (some (ts, s, f, o)) r.start_ts) stops
        → Agrees next_tracker next_db
    next-Agrees known stored started = record {
      last_cell =
          rw (latest_event_self Scope.cell ts s f (some o) db.state_events IsAfter-last) refl;
      last_station = λ st.
          rw (latest_event_other (scope_of st) cell_event_row db.state_events (cell_not st))
            (h.last_station st);
      open_known = known;
      open_stored = stored;
      started = started;
      counter = h.counter;
      weld = h.weld;
      one_gap = h.one_gap;
    }

  transition-Kept : Kept db (transition t ts s f o)
  unfolding transition
  transition-Kept = elim (Bool-cases (s == 1)) [
    | inl e ↦ rw e (
      db_closed,
      ap (λ c. change_all db (state_event Scope.cell ts s f (some o) ∷ c))
            (sym (append-nil (closing t.open_stop_start ts)))
          ∙ change_event_closing []
          ∙ change_all_none db_closed,
      next-Agrees none db_closed.stops (rw e refl) closed.0
          (StartBefore-started ts s f o db_closed.stops closed.1),
    )
    | inr e ↦ rw e (elim (Option-cases (suggest_cause s f)) [
      | inl n ↦ rw n tt
      | inr (cause, k) ↦
          let r = opened_row ts s (station_of o) f cause in
          rw k (
            record db_closed { stops = r ∷ db_closed.stops },
            change_event_closing (open_stop ts s (station_of o) f cause ∷ [])
                ∙ change_all_one db_closed (open_stop ts s (station_of o) f cause)
                ∙ change_open db_closed ts s (station_of o) f cause closed.0 closed.1,
            next-Agrees (some ts) (r ∷ db_closed.stops) (rw e refl)
                (open_stops_cons ts s (station_of o) f cause db_closed.stops closed.0)
                (omega arith, StartBefore-started ts s f o db_closed.stops closed.1),
          )
    ])
  ]

pub cell_event-Kept : (t : Tracker) (g : Group) (db : Db) → Agrees t db → Kept db (cell_event t g)
unfolding cell_event
cell_event-Kept t g db h =
    elim (Bool-cases
      (changes g Tag.cell_state || (changes g Tag.cell_fault || changes g Tag.cell_origin))) [
        | inr e ↦ rw e (Commits-none db t h)
        | inl e ↦ rw e (elim (Option-cases (cell_values t.latest)) [
          | inl n ↦ rw n (Commits-none db t h)
          | inr ((s, f, o), k) ↦ rw k (elim (Bool-cases (is_stale t.last_cell g.ts (s, f, o))) [
            | inl stale ↦ rw stale (Commits-none db t h)
            | inr fresh ↦ rw fresh (transition-Kept t db h g.ts s f o fresh)
          ])
        ])
      ]
