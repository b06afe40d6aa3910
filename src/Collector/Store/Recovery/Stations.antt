-- ===== src/Collector/Store/Recovery/Stations.antt =====
-- The events of the stations.
use cell_oee_demo.Prelude.{
  ℕ, ◌≡◌, refl, ◌∙◌, true, false, ◌||◌, Option, none, some, ◌∷◌, ◌++◌, arith, ◌==◌, Option-cases,
  Bool-cases, inl, inr,
}
use mathlib.Core.Path.{subst}
use cell_oee_demo.Domain.{Scope}
use cell_oee_demo.Oee.Types.{Instant}
use cell_oee_demo.Collector.Types.{
  Station, op10, op20, op30, Group, state_event, station_state, station_fault, station_code,
}
use cell_oee_demo.Collector.Tracker.{
  Tracker, changes, value, both, scope_of, is_stale_station, set_station, station_event,
  station_events,
}
use cell_oee_demo.Collector.Store.{Db, EventRow, scope_code, latest_event, station_row}
use cell_oee_demo.Collector.Store.Recovery.{
  IsAfter, row_of, with_event, Agrees, Commits, Commits-then, Commits-none, change_event,
  latest_event_self, latest_event_other, change_all_one,
}

-- A station's event.
IsAfter-station_row :
    (o : Option EventRow) (ts : Instant) (v : ℕ × ℕ)
    → is_stale_station (station_row o) ts v ≡ false
    → IsAfter o ts
IsAfter-station_row none ts v h = tt
IsAfter-station_row (some r) ts (s, f) h = ground (arith, h)

station_code-eq : (a b : Station) → (station_code a == station_code b) ≡ true → a ≡ b
station_code-eq op10 op10 h = refl
station_code-eq op10 op20 h = cc
station_code-eq op10 op30 h = cc
station_code-eq op20 op10 h = cc
station_code-eq op20 op20 h = refl
station_code-eq op20 op30 h = cc
station_code-eq op30 op10 h = cc
station_code-eq op30 op20 h = cc
station_code-eq op30 op30 h = refl

scope_code-scope_of :
    (a b : Station)
    → (scope_code (scope_of a) == scope_code (scope_of b)) ≡ (station_code a == station_code b)
scope_code-scope_of op10 op10 = refl
scope_code-scope_of op10 op20 = refl
scope_code-scope_of op10 op30 = refl
scope_code-scope_of op20 op10 = refl
scope_code-scope_of op20 op20 = refl
scope_code-scope_of op20 op30 = refl
scope_code-scope_of op30 op10 = refl
scope_code-scope_of op30 op20 = refl
scope_code-scope_of op30 op30 = refl

not_cell : (st : Station) → (scope_code (scope_of st) == scope_code Scope.cell) ≡ false
not_cell op10 = refl
not_cell op20 = refl
not_cell op30 = refl

module _ (t : Tracker) (db : Db) (agrees : Agrees t db) (ts s f : ℕ) (st : Station)
    (after : IsAfter (latest_event (scope_of st) db.state_events) ts) where
  abbrev stored_row : EventRow
  stored_row = row_of (scope_of st) ts s f none

  set_station-stored :
      (other : Station)
      → set_station st (ts, s, f) t.last_station other
        ≡ station_row (latest_event (scope_of other) (stored_row ∷ db.state_events))
  set_station-stored other = elim (Bool-cases (station_code st == station_code other)) [
    | inl e ↦
        subst
          (λ o.
            set_station st (ts, s, f) t.last_station o
            ≡ station_row (latest_event (scope_of o) (stored_row ∷ db.state_events)))
          (station_code-eq st other e)
          (let same : (station_code st == station_code st) ≡ true = ground arith in
            rw (same, latest_event_self (scope_of st) ts s f none db.state_events after) refl)
    | inr e ↦
        rw
          (
            e,
            latest_event_other (scope_of other) stored_row db.state_events
                (scope_code-scope_of st other ∙ e),
          )
          (agrees.last_station other)
  ]

  set_station-Agrees :
      Agrees
        (record t { last_station = set_station st (ts, s, f) t.last_station })
        (with_event db stored_row)
  set_station-Agrees = record {
    last_cell =
        rw (latest_event_other Scope.cell stored_row db.state_events (not_cell st))
          agrees.last_cell;
    last_station = set_station-stored;
    open_known = agrees.open_known;
    open_stored = agrees.open_stored;
    started = agrees.started;
    counter = agrees.counter;
    weld = agrees.weld;
    one_gap = agrees.one_gap;
  }

station_event-Commits :
    (t : Tracker) (g : Group) (st : Station) (db : Db)
    → Agrees t db
    → Commits db (station_event t g st)
unfolding station_event
station_event-Commits t g st db h =
    elim (Bool-cases (changes g (station_state st) || changes g (station_fault st))) [
      | inr e ↦ rw e (Commits-none db t h)
      | inl e ↦
          rw e
            (elim (Option-cases
              (both (value t.latest (station_state st)) (value t.latest (station_fault st)))) [
                | inl n ↦ rw n (Commits-none db t h)
                | inr ((s, f), k) ↦
                    rw k (elim (Bool-cases (is_stale_station (t.last_station st) g.ts (s, f))) [
                      | inl stale ↦ rw stale (Commits-none db t h)
                      | inr fresh ↦
                          let after : IsAfter (latest_event (scope_of st) db.state_events) g.ts =
                            IsAfter-station_row (latest_event (scope_of st) db.state_events) g.ts
                              (s, f)
                              (subst (λ o. is_stale_station o g.ts (s, f) ≡ false)
                                (h.last_station st) fresh) in
                          rw fresh (
                            with_event db (row_of (scope_of st) g.ts s f none),
                            change_all_one db (state_event (scope_of st) g.ts s f none)
                                ∙ change_event db (scope_of st) g.ts s f none after,
                            set_station-Agrees t db h g.ts s f st after,
                          )
                    ])
              ])
    ]

pub station_events-Commits :
    (t : Tracker) (g : Group) (db : Db) → Agrees t db → Commits db (station_events t g)
unfolding station_events
station_events-Commits t g db h =
    let (t₁, a) = station_event t g op10 in
    let (t₂, b) = station_event t₁ g op20 in
    let (t₃, c) = station_event t₂ g op30 in
    Commits-then db t₁ t₃ a (b ++ c) (station_event-Commits t g op10 db h) λ db₁ h₁.
      Commits-then db₁ t₂ t₃ b c (station_event-Commits t₁ g op20 db₁ h₁)
        λ db₂ h₂. station_event-Commits t₂ g op30 db₂ h₂
