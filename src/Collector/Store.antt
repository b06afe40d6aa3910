-- ===== src/Collector/Store.antt =====
-- The tables that the collector writes, and what it resumes from (backend/app/collector/store.py, with the
-- keys and indexes of backend/app/db/migrations/versions/0001_initial_schema.py). Only the columns that
-- the collector writes are kept; an SQL statement is what it does to the rows of a table.
pub mod Batches
pub mod Repeats
pub mod Recovery
mod Tests
use cell_oee_demo.Prelude.{
  ℕ, max, Bool, true, false, not, ◌&&◌, ◌||◌, Option, none, some, List, [], ◌∷◌, ◌++◌, map, any,
  filter, ◌==◌, ltb, leb, if◌then◌else◌, is_some,
}
use cell_oee_demo.Domain.{Scope, Cause, suggest_cause, station_of_origin}
use cell_oee_demo.Oee.Types.{Instant}
use cell_oee_demo.Collector.Types.{
  Station, Op, state_event, open_stop, close_stop, counter_sample, weld_sample, open_gap, close_gap,
  closed_gap,
}
use cell_oee_demo.Collector.Tracker.{CellRow, StationRow, scope_of, station_of}

pub record EventRow : Type 0 where
  pub scope : Scope
  pub ts : Instant
  pub state : ℕ
  pub fault_code : ℕ
  pub stop_origin : Option ℕ

pub record StopRow : Type 0 where
  pub start_ts : Instant
  pub end_ts : Option Instant
  pub state : ℕ
  pub origin_station : Scope
  pub fault_code : ℕ
  pub suggested_category : Option Cause

pub record CounterRow : Type 0 where
  pub ts : Instant
  pub good : ℕ
  pub scrap : ℕ
  pub theoretical_cycle_s : ℕ
  pub last_cycle_s : ℕ

pub record WeldRow : Type 0 where
  pub ts : Instant
  pub current_ka : ℕ
  pub points_since_cap_change : ℕ
  pub ok : Bool

pub record GapRow : Type 0 where
  pub start_ts : Instant
  pub end_ts : Option Instant

pub record Db : Type 0 where
  pub state_events : List EventRow
  pub stops : List StopRow
  pub counter_samples : List CounterRow
  pub weld_samples : List WeldRow
  pub comm_gaps : List GapRow
  pub last_seen_ts : Option Instant

abbrev pub empty_db : Db
empty_db = record {
  state_events = [];
  stops = [];
  counter_samples = [];
  weld_samples = [];
  comm_gaps = [];
  last_seen_ts = none;
}

abbrev pub scope_code : Scope → ℕ
scope_code Scope.cell = 0
scope_code Scope.op10 = 1
scope_code Scope.op20 = 2
scope_code Scope.op30 = 3

-- The primary key of `state_events`.
abbrev pub is_event : Scope → Instant → EventRow → Bool
is_event scope ts r = scope_code r.scope == scope_code scope && r.ts == ts

abbrev pub is_open : Option Instant → Bool
is_open end_ts = not (is_some end_ts)

-- `UPDATE … SET end_ts = :end_ts WHERE start_ts = :start_ts AND end_ts IS NULL AND start_ts < :end_ts`
abbrev pub end_if : Bool → Instant → Option Instant → Option Instant
end_if hit end_ts old = if hit then some end_ts else old

abbrev pub close_stop_row : Instant → Instant → StopRow → StopRow
close_stop_row start_ts end_ts r = record r {
  end_ts =
      end_if (r.start_ts == start_ts && (is_open r.end_ts && ltb start_ts end_ts)) end_ts r.end_ts;
}

abbrev pub close_gap_row : Instant → Instant → GapRow → GapRow
close_gap_row start_ts end_ts r = record r {
  end_ts =
      end_if (r.start_ts == start_ts && (is_open r.end_ts && ltb start_ts end_ts)) end_ts r.end_ts;
}

-- `state BETWEEN … AND 7`
abbrev pub is_state : ℕ → ℕ → Bool
is_state least n = leb least n && leb n 7

-- `ck_state_events_origin`
abbrev pub is_origin : ℕ → Bool
is_origin n = n == 0 || (n == 10 || (n == 20 || (n == 30 || n == 99)))

-- `ck_state_events_origin` and `ck_state_events_origin_scope`
abbrev pub origin_fits : Scope → Option ℕ → Bool
origin_fits Scope.cell (some origin) = is_origin origin
origin_fits Scope.cell none = false
origin_fits _ (some origin) = false
origin_fits _ none = true

-- The values of the type `smallint` that are not negative.
abbrev pub is_smallint : ℕ → Bool
is_smallint n = ltb n 32768

abbrev pub is_uint32 : ℕ → Bool
is_uint32 n = leb n 4294967295

-- The types and the CHECK constraints of the table that an insert is for. An update does not change what
-- they are about, but for `end_ts`, which its condition puts after `start_ts`.
unfoldable pub checks : Op → Bool
checks (state_event scope ts state fault_code stop_origin) =
    is_state 1 state && (is_smallint fault_code && origin_fits scope stop_origin)
checks (open_stop start_ts state station fault_code cause) =
    is_state 2 state && is_smallint fault_code
checks (close_stop start_ts end_ts) = true
checks (counter_sample ts good scrap tct cycle) = is_uint32 good && (is_uint32 scrap && ltb 0 tct)
checks (weld_sample ts current points ok) = is_uint32 points
checks (open_gap start_ts) = true
checks (close_gap start_ts end_ts) = true
checks (closed_gap start_ts end_ts) = ltb start_ts end_ts

-- What a statement of `_SQL` does to the rows. `none` is a second open stop or gap. A conflict on the key
-- comes first, and does nothing.
unfoldable pub change : Db → Op → Option Db
change db (state_event scope ts state fault_code stop_origin) =
    if any (is_event scope ts) db.state_events
    then some db
    else some (record db {
      state_events =
          record {
            scope = scope;
            ts = ts;
            state = state;
            fault_code = fault_code;
            stop_origin = stop_origin;
          }
          ∷ db.state_events;
    })
change db (open_stop start_ts state station fault_code cause) =
    if any (λ r. r.start_ts == start_ts) db.stops
    then some db
    else if any (λ r. is_open r.end_ts) db.stops
    then none
    else some (record db {
      stops =
          record {
            start_ts = start_ts;
            end_ts = none;
            state = state;
            origin_station = station;
            fault_code = fault_code;
            suggested_category = cause;
          }
          ∷ db.stops;
    })
change db (close_stop start_ts end_ts) =
    some (record db { stops = map (close_stop_row start_ts end_ts) db.stops })
change db (counter_sample ts good scrap tct cycle) =
    if any (λ r. r.ts == ts) db.counter_samples
    then some db
    else some (record db {
      counter_samples =
          record {
            ts = ts;
            good = good;
            scrap = scrap;
            theoretical_cycle_s = tct;
            last_cycle_s = cycle;
          }
          ∷ db.counter_samples;
    })
change db (weld_sample ts current points ok) =
    if any (λ r. r.ts == ts) db.weld_samples
    then some db
    else some (record db {
      weld_samples =
          record { ts = ts; current_ka = current; points_since_cap_change = points; ok = ok }
          ∷ db.weld_samples;
    })
change db (open_gap start_ts) =
    if any (λ r. r.start_ts == start_ts) db.comm_gaps
    then some db
    else if any (λ r. is_open r.end_ts) db.comm_gaps
    then none
    else some
        (record db { comm_gaps = record { start_ts = start_ts; end_ts = none } ∷ db.comm_gaps })
change db (close_gap start_ts end_ts) =
    some (record db { comm_gaps = map (close_gap_row start_ts end_ts) db.comm_gaps })
change db (closed_gap start_ts end_ts) =
    if any (λ r. r.start_ts == start_ts) db.comm_gaps
    then some db
    else some (record db {
      comm_gaps = record { start_ts = start_ts; end_ts = some end_ts } ∷ db.comm_gaps;
    })

-- One statement of `_SQL`: the values are checked before any conflict. `none` is a violated constraint.
unfoldable pub exec : Db → Op → Option Db
unfolding checks change
exec db op = if checks op then change db op else none

infixl 5 ◌>>=◌
abbrev pub ◌>>=◌ : Option Db → (Db → Option Db) → Option Db
none >>= f = none
some db >>= f = f db

-- The statements one after another, as `executemany` runs the rows of one statement.
unfoldable pub exec_all : Db → List Op → Option Db
exec_all db [] = some db
exec_all db (op ∷ ops) = exec db op >>= λ db'. exec_all db' ops

-- `type(op)`
abbrev pub op_type : Op → ℕ
op_type (state_event _ _ _ _ _) = 0
op_type (open_stop _ _ _ _ _) = 1
op_type (close_stop _ _) = 2
op_type (counter_sample _ _ _ _ _) = 3
op_type (weld_sample _ _ _ _) = 4
op_type (open_gap _) = 5
op_type (close_gap _ _) = 6
op_type (closed_gap _ _) = 7

-- `type(op) is not run_type`, where `run_type` is `None` at first.
abbrev pub is_run_type : Option ℕ → Op → Bool
is_run_type none op = false
is_run_type (some n) op = op_type op == n

-- The loop of `apply`, which collects runs of one operation, with `_flush`.
unfoldable pub exec_runs : Db → Option ℕ → List Op → List Op → Option Db
exec_runs db run_type run [] = exec_all db run
exec_runs db run_type run (op ∷ ops) =
    if is_run_type run_type op
    then exec_runs db run_type (run ++ op ∷ []) ops
    else exec_all db run >>= λ db'. exec_runs db' (some (op_type op)) (op ∷ []) ops

-- `GREATEST(collector_state.last_seen_ts, EXCLUDED.last_seen_ts)`
abbrev pub greatest : Option Instant → Option Instant → Option Instant
greatest old none = old
greatest none (some ts) = some ts
greatest (some old) (some ts) = some (max old ts)

-- `apply`, in one transaction: `none` leaves the database as it was.
unfoldable pub apply : Db → List Op → Option Instant → Option Db
apply db ops last_seen = exec_runs db none [] ops >>= λ db'.
    some (record db' { last_seen_ts = greatest db'.last_seen_ts last_seen })

-- `WHERE scope = … ORDER BY ts DESC LIMIT 1`
abbrev pub newer_row : EventRow → Option EventRow → Option EventRow
newer_row r none = some r
newer_row r (some s) = if leb s.ts r.ts then some r else some s

unfoldable pub latest_event : Scope → List EventRow → Option EventRow
latest_event scope [] = none
latest_event scope (r ∷ rows) =
    if scope_code r.scope == scope_code scope
    then newer_row r (latest_event scope rows)
    else latest_event scope rows

-- `SELECT start_ts … WHERE end_ts IS NULL`
unfoldable pub open_stops : List StopRow → List Instant
open_stops [] = []
open_stops (r ∷ rows) = if is_open r.end_ts then r.start_ts ∷ open_stops rows else open_stops rows

unfoldable pub open_gaps : List GapRow → List Instant
open_gaps [] = []
open_gaps (r ∷ rows) = if is_open r.end_ts then r.start_ts ∷ open_gaps rows else open_gaps rows

-- `scalar_one_or_none()`; the outer `none` where there are several rows.
abbrev pub one_or_none : List Instant → Option (Option Instant)
one_or_none [] = some none
one_or_none (ts ∷ []) = some (some ts)
one_or_none (ts ∷ other ∷ more) = none

-- `SELECT max(ts)`
abbrev pub greatest_of : List Instant → Option Instant
greatest_of [] = none
greatest_of (ts ∷ rows) = greatest (some ts) (greatest_of rows)

-- An event of the cell has a `stop_origin`, by a constraint of its table.
abbrev pub origin_of : Option ℕ → ℕ
origin_of none = 0
origin_of (some o) = o

-- The stop that `_repair_open_stop` inserts.
abbrev pub reopened : EventRow → Option Cause → Op
reopened e cause = open_stop e.ts e.state (station_of (origin_of e.stop_origin)) e.fault_code cause

-- The second half of `_repair_open_stop`: no stop is open, and the cell does not produce.
unfoldable pub reopen : Db → EventRow → Option Db
reopen db e =
    if any (λ r. r.start_ts == e.ts) db.stops
    then some db
    else elim (suggest_cause e.state e.fault_code) [
      | none ↦ none
      | some cause ↦ exec db (reopened e cause)
    ]

-- `_repair_open_stop`, from the latest event and the open stop.
unfoldable pub repair_from : Db → EventRow → Option Instant → Option Db
repair_from db e none = if e.state == 1 then some db else reopen db e
repair_from db e (some start) =
    if e.state == 1 || not (start == e.ts)
    then (exec db (close_stop start (max e.ts start)) >>= λ db'.
        if not (e.state == 1) && ltb start e.ts then reopen db' e else some db')
    else some db

unfoldable pub repair_open_stop : Db → Option Db
repair_open_stop db = elim (latest_event Scope.cell db.state_events) [
  | none ↦ some db
  | some e ↦ elim (one_or_none (open_stops db.stops)) [
    | none ↦ none
    | some start ↦ repair_from db e start
  ]
]

-- `Resume`, with its `TrackerState`.
pub record Resume : Type 0 where
  pub last_cell : Option CellRow
  pub last_station : Station → Option StationRow
  pub open_stop_start : Option Instant
  pub last_counter_ts : Option Instant
  pub last_weld_ts : Option Instant
  pub last_seen_ts : Option Instant
  pub open_gap_start : Option Instant

abbrev pub cell_row : Option EventRow → Option CellRow
cell_row none = none
cell_row (some r) = some (r.ts, r.state, r.fault_code, origin_of r.stop_origin)

abbrev pub station_row : Option EventRow → Option StationRow
station_row none = none
station_row (some r) = some (r.ts, r.state, r.fault_code)

-- What `resume` reads; the outer `none` where a query that wants one row finds several.
unfoldable pub read_state : Db → Option Resume
read_state db = elim (one_or_none (open_stops db.stops)) [
  | none ↦ none
  | some stop ↦ elim (one_or_none (open_gaps db.comm_gaps)) [
    | none ↦ none
    | some gap ↦ some (record {
      last_cell = cell_row (latest_event Scope.cell db.state_events);
      last_station = λ st. station_row (latest_event (scope_of st) db.state_events);
      open_stop_start = stop;
      last_counter_ts = greatest_of (map (λ r. r.ts) db.counter_samples);
      last_weld_ts = greatest_of (map (λ r. r.ts) db.weld_samples);
      last_seen_ts = db.last_seen_ts;
      open_gap_start = gap;
    })
  ]
]

unfoldable pub resume : Db → Option (Db × Resume)
resume db = elim (repair_open_stop db) [
  | none ↦ none
  | some db' ↦ elim (read_state db') [ none ↦ none | some r ↦ some (db', r) ]
]
