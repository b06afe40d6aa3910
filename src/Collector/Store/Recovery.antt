-- ===== src/Collector/Store/Recovery.antt =====
-- The database and the tracker agree, so that a restart resumes with the state that was lost.
mod Stations
mod Samples
mod Stops
pub mod Checks
pub mod Restart
use cell_oee_demo.Prelude.{
  ℕ, ◌≤◌, ◌<◌, ◌≡◌, refl, ◌∙◌, sym, ap, fun_ext, ap₂, Bool, true, false, not, ◌&&◌, ◌||◌, Option,
  none, some, List, [], ◌∷◌, ◌++◌, arith, ◌==◌, leb, ltb, if◌then◌else◌, Option-cases, Bool-cases,
  inl, inr, All, any, map, is_some,
}
use mathlib.Core.Path.{subst}
use cell_oee_demo.Domain.{Scope, Cause, suggest_cause}
use cell_oee_demo.Oee.Types.{Instant}
use cell_oee_demo.Collector.Types.{
  Station, op10, op20, op30, Tag, TagValue, Group, Op, state_event, open_stop, close_stop,
  counter_sample, weld_sample, station_state, station_fault, station_code, to_int, to_float,
  to_bool,
}
use cell_oee_demo.Collector.Tracker.{
  Tracker, CellRow, StationRow, learn, changes, value, both, all_four, all_three, cell_values,
  is_stale, closing, station_of, transition, cell_event, scope_of, is_stale_station, set_station,
  station_event, station_events, is_stored, counter_event, weld_event, other_events, then_others,
  apply, apply_all,
}
use cell_oee_demo.Collector.Store.{
  Db, EventRow, StopRow, CounterRow, WeldRow, is_event, is_open, scope_code, end_if, close_stop_row,
  checks, change, exec, exec_all, ◌>>=◌, newer_row, latest_event, open_stops, open_gaps, greatest,
  greatest_of, cell_row, station_row, origin_of,
}
use cell_oee_demo.Collector.Store.Batches.{>>=-assoc}

-- The statements one after another, without the checks of their values.
unfoldable pub change_all : Db → List Op → Option Db
change_all db [] = some db
change_all db (op ∷ ops) = change db op >>= λ db'. change_all db' ops

pub change_all-append :
    (db : Db) (a b : List Op)
    → change_all db (a ++ b) ≡ (change_all db a >>= λ db'. change_all db' b)
unfolding change_all
change_all-append db [] b = refl
change_all-append db (op ∷ a) b =
    ap (λ f. change db op >>= f) (fun_ext λ db'. change_all-append db' a b)
    ∙ sym (>>=-assoc (change db op) (λ db'. change_all db' a) (λ db'. change_all db' b))

-- Without a difference, if all values pass.
pub exec_all-checks :
    (db : Db) (ops : List Op)
    → All (λ op. checks op ≡ true) ops
    → exec_all db ops ≡ change_all db ops
unfolding exec_all exec change_all
exec_all-checks db [] h = refl
exec_all-checks db (op ∷ ops) h =
    rw (h.0, exec) (ap (λ f. change db op >>= f) (fun_ext λ db'. exec_all-checks db' ops h.1))

-- Later than a row.
abbrev pub IsAfter : Option EventRow → Instant → Type 0
IsAfter none ts = Unit
IsAfter (some r) ts = r.ts < ts

newer_row-IsAfter :
    (r : EventRow) (o : Option EventRow) (ts : Instant)
    → IsAfter (newer_row r o) ts
    → (r.ts < ts) × IsAfter o ts
newer_row-IsAfter r none ts h = (h, tt)
newer_row-IsAfter r (some s) ts h = elim (Bool-cases (leb s.ts r.ts)) [
  | inl e ↦ let k = rw e at h in ground (arith, e, k)
  | inr e ↦ let k = rw e at h in ground (arith, e, k)
]

newer_row-latest : (r : EventRow) (o : Option EventRow) → IsAfter o r.ts → newer_row r o ≡ some r
newer_row-latest r none h = refl
newer_row-latest r (some s) h = ground (arith, h)

-- A later event has a new key.
fresh_event :
    (scope : Scope) (ts : Instant) (rows : List EventRow)
    → IsAfter (latest_event scope rows) ts
    → any (is_event scope ts) rows ≡ false
unfolding latest_event
fresh_event scope ts [] h = refl
fresh_event scope ts (r ∷ rows) h = elim (Bool-cases (scope_code r.scope == scope_code scope)) [
  | inl e ↦
      let k = newer_row-IsAfter r (latest_event scope rows) ts (rw e at h) in
      ground (arith, e, k.0, fresh_event scope ts rows k.1)
  | inr e ↦ ground (arith, e, fresh_event scope ts rows (rw e at h))
]

abbrev pub row_of : Scope → Instant → ℕ → ℕ → Option ℕ → EventRow
row_of scope ts state fault origin = record {
  scope = scope;
  ts = ts;
  state = state;
  fault_code = fault;
  stop_origin = origin;
}

abbrev pub with_event : Db → EventRow → Db
with_event db r = record db { state_events = r ∷ db.state_events }

pub change_event :
    (db : Db) (scope : Scope) (ts state fault : ℕ) (origin : Option ℕ)
    → IsAfter (latest_event scope db.state_events) ts
    → change db (state_event scope ts state fault origin)
      ≡ some (with_event db (row_of scope ts state fault origin))
unfolding change
change_event db scope ts state fault origin h = rw (fresh_event scope ts db.state_events h) refl

pub latest_event_self :
    (scope : Scope) (ts state fault : ℕ) (origin : Option ℕ) (rows : List EventRow)
    → IsAfter (latest_event scope rows) ts
    → latest_event scope (row_of scope ts state fault origin ∷ rows)
      ≡ some (row_of scope ts state fault origin)
unfolding latest_event
latest_event_self scope ts state fault origin rows h =
    let same : (scope_code scope == scope_code scope) ≡ true = ground arith in
    rw same (newer_row-latest (row_of scope ts state fault origin) (latest_event scope rows) h)

pub latest_event_other :
    (scope : Scope) (r : EventRow) (rows : List EventRow)
    → (scope_code r.scope == scope_code scope) ≡ false
    → latest_event scope (r ∷ rows) ≡ latest_event scope rows
unfolding latest_event
latest_event_other scope r rows e = rw e refl

-- The open stop that a cell event implies.
abbrev pub open_of : Option CellRow → Option Instant
open_of none = none
open_of (some (ts, state, fault, origin)) = if state == 1 then none else some ts

abbrev pub StartsBy : Option CellRow → Instant → Type 0
StartsBy none start = ⊥
StartsBy (some (ts, state, fault, origin)) start = start ≤ ts

abbrev pub list_of : Option Instant → List Instant
list_of none = []
list_of (some ts) = ts ∷ []

-- What the tracker knows is what the tables say.
pub record Agrees (t : Tracker) (db : Db) : Type 0 where
  pub last_cell : t.last_cell ≡ cell_row (latest_event Scope.cell db.state_events)
  pub last_station :
      (st : Station) → t.last_station st ≡ station_row (latest_event (scope_of st) db.state_events)
  pub open_known : t.open_stop_start ≡ open_of t.last_cell
  pub open_stored : open_stops db.stops ≡ list_of t.open_stop_start
  pub started : All (λ r. StartsBy t.last_cell r.start_ts) db.stops
  pub counter : t.last_counter_ts ≡ greatest_of (map (λ r. r.ts) db.counter_samples)
  pub weld : t.last_weld_ts ≡ greatest_of (map (λ r. r.ts) db.weld_samples)
  pub one_gap : (gap : Option Instant) × (open_gaps db.comm_gaps ≡ list_of gap)

-- The operations violate no constraint, and the tables then agree with the new tracker.
abbrev pub Commits : Db → Tracker × List Op → Type 0
Commits db (t, ops) = (db' : Db) × (change_all db ops ≡ some db') × Agrees t db'

pub Commits-then :
    (db : Db) (t₁ t₂ : Tracker) (a b : List Op)
    → Commits db (t₁, a)
    → ((db' : Db) → Agrees t₁ db' → Commits db' (t₂, b))
    → Commits db (t₂, a ++ b)
Commits-then db t₁ t₂ a b (db', ran, agrees) next =
    let (db'', ran', agrees') = next db' agrees in
    (db'', change_all-append db a b ∙ rw (ran, ◌>>=◌) ran', agrees')

pub Commits-none : (db : Db) (t : Tracker) → Agrees t db → Commits db (t, [])
unfolding change_all
Commits-none db t h = (db, refl, h)

pub change_all_one : (db : Db) (op : Op) → change_all db (op ∷ []) ≡ change db op
unfolding change_all
change_all_one db op = ground arith
