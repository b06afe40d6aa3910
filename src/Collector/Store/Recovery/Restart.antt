-- ===== src/Collector/Store/Recovery/Restart.antt =====
-- What a restart reads is what the tracker knew.
use cell_oee_demo.Prelude.{
  ◌≡◌, refl, ◌∙◌, sym, ap, true, Option, none, some, List, [], ◌∷◌, ◌++◌, arith, ◌==◌, Option-cases,
  Bool-cases, inl, inr, map,
}
use mathlib.Core.Path.{subst}
use cell_oee_demo.Domain.{Scope}
use cell_oee_demo.Oee.Types.{Instant}
use cell_oee_demo.Collector.Types.{Station, Group, Op}
use cell_oee_demo.Collector.Tracker.{
  Tracker, learn, cell_event, scope_of, station_events, counter_event, weld_event, other_events,
  then_others, apply, apply_all,
}
use cell_oee_demo.Collector.Store.{
  Db, EventRow, exec_all, latest_event, open_stops, greatest_of, cell_row, station_row,
}
use cell_oee_demo.Collector.Store.Recovery.Checks.{
  KnowsFit, AllFit, Passes, apply_all-Passes, AllFit-AreReadable, KnowsFit-Knows,
}
use cell_oee_demo.Collector.Store.Recovery.{
  exec_all-checks, open_of, list_of, Agrees, Commits, Commits-then, Commits-none,
}
use cell_oee_demo.Collector.Store.Recovery.Stops.{Kept, cell_event-Kept}
use cell_oee_demo.Collector.Store.Recovery.Stations.{station_events-Commits}
use cell_oee_demo.Collector.Store.Recovery.Samples.{counter_event-Commits, weld_event-Commits}
use cell_oee_demo.Collector.Tracker.Runs.{apply_all-Returns}
use cell_oee_demo.Collector.Store.{
  empty_db, repair_open_stop, repair_from, read_state, resume, Resume, one_or_none, open_gaps,
}

other_events-Commits :
    (t : Tracker) (g : Group) (db : Db) → Agrees t db → Commits db (other_events t g)
unfolding other_events
other_events-Commits t g db h =
    let (t₁, a) = station_events t g in
    let (t₂, b) = counter_event t₁ g in
    let (t₃, c) = weld_event t₂ g in
    Commits-then db t₁ t₃ a (b ++ c) (station_events-Commits t g db h) λ db₁ h₁.
      Commits-then db₁ t₂ t₃ b c (counter_event-Commits t₁ g db₁ h₁)
        λ db₂ h₂. weld_event-Commits t₂ g db₂ h₂

then_others-Kept :
    (db : Db) (g : Group) (r : Option (Tracker × List Op)) → Kept db r → Kept db (then_others g r)
then_others-Kept db g none h = tt
then_others-Kept db g (some (t, ops)) h =
    Commits-then db t (other_events t g).0 ops (other_events t g).1 h
      λ db' h'. other_events-Commits t g db' h'

apply-Kept : (t : Tracker) (g : Group) (db : Db) → Agrees t db → Kept db (apply t g)
unfolding apply
apply-Kept t g db h =
    let known : Tracker = record t { latest = learn g t.latest } in
    let same : Agrees known db = record {
      last_cell = h.last_cell;
      last_station = h.last_station;
      open_known = h.open_known;
      open_stored = h.open_stored;
      started = h.started;
      counter = h.counter;
      weld = h.weld;
      one_gap = h.one_gap;
    } in
    then_others-Kept db g (cell_event known g) (cell_event-Kept known g db same)

-- The operations so far have taken the tables to where the tracker is.
apply_all-Kept :
    (t : Tracker) (groups : List Group) (ops : List Op) (db : Db)
    → Commits db (t, ops)
    → Kept db (apply_all t groups ops)
unfolding apply_all
apply_all-Kept t [] ops db h = h
apply_all-Kept t (g ∷ groups) ops db h = elim (Option-cases (apply t g)) [
  | inl e ↦ rw (e, Kept, apply_all) tt
  | inr ((t', more), e) ↦
      rw (e, Kept, apply_all)
        (apply_all-Kept t' groups (ops ++ more) db
          (Commits-then db t t' ops more h λ db' h'. subst (Kept db') e (apply-Kept t g db' h')))
]

-- A tracker and a database with nothing in them.
abbrev pub new_tracker : Tracker
new_tracker = record {
  last_cell = none;
  last_station = λ st. none;
  open_stop_start = none;
  last_counter_ts = none;
  last_weld_ts = none;
  latest = λ tag. none;
}

pub empty_db-Agrees : Agrees new_tracker empty_db
unfolding latest_event open_stops open_gaps
empty_db-Agrees = record {
  last_cell = refl;
  last_station = λ st. refl;
  open_known = refl;
  open_stored = refl;
  started = tt;
  counter = refl;
  weld = refl;
  one_gap = (none, refl);
}

-- What is read back of a tracker.
pub record IsResumed (t : Tracker) (r : Resume) : Type 0 where
  pub last_cell : r.last_cell ≡ t.last_cell
  pub last_station : (st : Station) → r.last_station st ≡ t.last_station st
  pub open_stop_start : r.open_stop_start ≡ t.open_stop_start
  pub last_counter_ts : r.last_counter_ts ≡ t.last_counter_ts
  pub last_weld_ts : r.last_weld_ts ≡ t.last_weld_ts

-- There is nothing to repair.
repair_from-open_of :
    (db : Db) (e : EventRow) → repair_from db e (open_of (cell_row (some e))) ≡ some db
unfolding repair_from
repair_from-open_of db e = elim (Bool-cases (e.state == 1)) [
  | inl p ↦ rw (p, repair_from, p) refl
  | inr p ↦ let same : (e.ts == e.ts) ≡ true = ground arith in rw (p, same, p) refl
]

one_or_none-list_of : (o : Option Instant) → one_or_none (list_of o) ≡ some o
one_or_none-list_of none = refl
one_or_none-list_of (some ts) = refl

repair_open_stop-Agrees : (t : Tracker) (db : Db) → Agrees t db → repair_open_stop db ≡ some db
unfolding repair_open_stop
repair_open_stop-Agrees t db h = elim (Option-cases (latest_event Scope.cell db.state_events)) [
  | inl e ↦ rw (e, repair_open_stop) refl
  | inr (row, e) ↦
      let known : t.open_stop_start ≡ open_of (cell_row (some row)) =
        h.open_known ∙ ap open_of (h.last_cell ∙ ap cell_row e) in
      rw (e, repair_open_stop)
        (rw (h.open_stored, one_or_none-list_of t.open_stop_start, known)
          (repair_from-open_of db row))
]

-- The queries of `resume` find what they want.
read_state-one :
    (db : Db) (stop gap : Option Instant)
    → open_stops db.stops ≡ list_of stop
    → open_gaps db.comm_gaps ≡ list_of gap
    → read_state db
      ≡ some (record {
        last_cell = cell_row (latest_event Scope.cell db.state_events);
        last_station = λ st. station_row (latest_event (scope_of st) db.state_events);
        open_stop_start = stop;
        last_counter_ts = greatest_of (map (λ r. r.ts) db.counter_samples);
        last_weld_ts = greatest_of (map (λ r. r.ts) db.weld_samples);
        last_seen_ts = db.last_seen_ts;
        open_gap_start = gap;
      })
unfolding read_state
read_state-one db stop gap e k =
    let stops : one_or_none (open_stops db.stops) ≡ some stop =
      ap one_or_none e ∙ one_or_none-list_of stop in
    let gaps : one_or_none (open_gaps db.comm_gaps) ≡ some gap =
      ap one_or_none k ∙ one_or_none-list_of gap in
    rw (stops, read_state) (rw gaps refl)

read_state-Agrees :
    (t : Tracker) (db : Db) → Agrees t db → (r : Resume) × (read_state db ≡ some r) × IsResumed t r
read_state-Agrees t db h = (
  _,
  read_state-one db t.open_stop_start h.one_gap.0 h.open_stored h.one_gap.1,
  record {
    last_cell = sym h.last_cell;
    last_station = λ st. sym (h.last_station st);
    open_stop_start = refl;
    last_counter_ts = sym h.counter;
    last_weld_ts = sym h.weld;
  },
)

-- For a tracker and a database that agree, whatever groups are applied, if every value of a tag that
-- arrives or is known fits its column (a state of the enum, an origin of the enum, a fault code that is a
-- smallint, counters of 32 bits, a theoretical cycle above 0): the tracker raises nothing, the operations
-- violate no constraint of the tables, and a restart after them changes nothing in the database and resumes
-- with exactly the last events, open stop and last samples that the tracker had.
pub resume-IsResumed :
    (t : Tracker) (db : Db) (groups : List Group)
    → Agrees t db
    → KnowsFit t.latest
    → AllFit groups
    → (t' : Tracker) × (ops : List Op) × (db' : Db) × (r : Resume) × (apply_all t groups []
        ≡ some (t', ops))
      × (exec_all db ops ≡ some db')
      × (resume db' ≡ some (db', r))
      × IsResumed t' r
unfolding resume
resume-IsResumed t db groups h k fit =
    let knows = KnowsFit-Knows t.latest k in
    let readable = AllFit-AreReadable groups fit in
    let (t', ops, e) = apply_all-Returns t groups [] knows readable in
    let (db', ran, agrees) =
      subst (Kept db) e (apply_all-Kept t groups [] db (Commits-none db t h)) in
    let passes = subst Passes e (apply_all-Passes t groups [] knows readable k fit tt) in
    let (r, read, resumed) = read_state-Agrees t' db' agrees in
    (
      t',
      ops,
      db',
      r,
      e,
      exec_all-checks db ops passes ∙ ran,
      rw (repair_open_stop-Agrees t' db' agrees, resume) (rw read refl),
      resumed,
    )
