-- ===== src/Collector/Store/Tests.antt =====
-- Concrete runs of the store, and its theorems at concrete inputs.
use cell_oee_demo.Prelude.{ℕ, ◌≡◌, refl, true, false, Option, none, some, List, [], ◌∷◌, ◌++◌}
use cell_oee_demo.Domain.{
  Scope, Cause, suggest_cause, station_of_origin, cell_state, cause_of_fault,
}
use cell_oee_demo.Oee.Types.{Instant}
use cell_oee_demo.Collector.Types.{
  Tag, int, op10, op30, value_of, counter_sample, Group, Op, state_event, open_stop, close_stop,
  station_state, station_fault, op20,
}
use cell_oee_demo.Collector.Tracker.{Tracker, apply_all}
use cell_oee_demo.Collector.Store.{
  checks, is_state, is_smallint, is_origin, Db, StopRow, empty_db, exec, exec_all, exec_runs, apply,
  ◌>>=◌, greatest, Resume, resume, repair_open_stop, repair_from, reopen, latest_event, open_stops,
}
use cell_oee_demo.Collector.Store.Batches.{apply-eq-exec_all}
use cell_oee_demo.Collector.Store.Repeats.{exec_again}
use cell_oee_demo.Collector.Store.Recovery.Checks.{Fits, AllFit}
use cell_oee_demo.Collector.Store.Recovery.Restart.{
  IsResumed, new_tracker, empty_db-Agrees, resume-IsResumed,
}

abbrev produce : Op
produce = state_event Scope.cell 10 1 0 (some 0)

abbrev fail_at : Instant → List Op
fail_at ts =
    state_event Scope.cell ts 3 202 (some 20)
    ∷ open_stop ts 3 Scope.op20 202 (some Cause.electrical_breakdown)
    ∷ []

abbrev stops_after : Option Db → List StopRow
stops_after none = []
stops_after (some db) = db.stops

abbrev stopped : Option Instant → StopRow
stopped end_ts = record {
  start_ts = 20;
  end_ts = end_ts;
  state = 3;
  origin_station = Scope.op20;
  fault_code = 202;
  suggested_category = some Cause.electrical_breakdown;
}

-- Opening twice and closing twice.
apply-run :
    stops_after (
      apply empty_db
        (produce ∷ (fail_at 20 ++ (fail_at 20 ++ close_stop 20 30 ∷ close_stop 20 40 ∷ [])))
        (some 30))
    ≡ stopped (some 30) ∷ []
unfolding apply exec_runs exec_all exec
apply-run = refl

-- A second open stop is refused.
second_open : exec_all empty_db (fail_at 20 ++ fail_at 25) ≡ none
unfolding exec_all exec
second_open = refl

abbrev one_event : Db
one_event = record empty_db {
  state_events =
      record { scope = Scope.cell; ts = 20; state = 3; fault_code = 202; stop_origin = some 20 }
      ∷ [];
}

-- A stop that is missing is opened again.
repair_open_stop-run : stops_after (repair_open_stop one_event) ≡ stopped none ∷ []
unfolding repair_open_stop repair_from reopen exec latest_event open_stops suggest_cause
    station_of_origin cell_state cause_of_fault
repair_open_stop-run = refl

apply-eq-exec_all_example : apply empty_db (produce ∷ fail_at 20) (some 30) ≡ (
    exec_all empty_db (produce ∷ fail_at 20) >>= λ db.
    some (record db { last_seen_ts = greatest db.last_seen_ts (some 30) }))
apply-eq-exec_all_example = apply-eq-exec_all empty_db (produce ∷ fail_at 20) (some 30)

abbrev one_stop : Db
one_stop = record empty_db { stops = stopped none ∷ [] }

abbrev one_closed : Db
one_closed = record empty_db { stops = stopped (some 30) ∷ [] }

abbrev reopening : Op
reopening = open_stop 20 3 Scope.op20 202 (some Cause.electrical_breakdown)

opened : exec empty_db reopening ≡ some one_stop
unfolding exec
opened = refl

then_closed : exec_all one_stop (close_stop 20 30 ∷ []) ≡ some one_closed
unfolding exec_all exec
then_closed = refl

exec_again_example : exec one_closed reopening ≡ some one_closed
exec_again_example = exec_again empty_db reopening (close_stop 20 30 ∷ []) refl opened then_closed

abbrev state_at : Instant → ℕ → ℕ → ℕ → Group
state_at ts state fault origin = record {
  ts = ts;
  values =
      (Tag.cell_state, int state)
      ∷ (Tag.cell_fault, int fault)
      ∷ (Tag.cell_origin, int origin)
      ∷ (station_state op20, int state)
      ∷ (station_fault op20, int fault)
      ∷ (Tag.good, int 5)
      ∷ (Tag.scrap, int 0)
      ∷ (Tag.tct, int 55)
      ∷ (Tag.last_cycle, int 56)
      ∷ [];
  late = false;
}

abbrev shift : List Group
shift = state_at 10 1 0 0 ∷ state_at 20 3 202 20 ∷ state_at 15 1 0 0 ∷ state_at 30 5 0 10 ∷ []

values-Fit :
    (state fault origin : ℕ)
    → is_state 1 state ≡ true
    → is_smallint fault ≡ true
    → is_origin origin ≡ true
    → (tag : Tag) → Fits tag (value_of tag (state_at 10 state fault origin).values)
values-Fit state fault origin s f o Tag.cell_state = s
values-Fit state fault origin s f o Tag.cell_mode = tt
values-Fit state fault origin s f o Tag.cell_fault = f
values-Fit state fault origin s f o Tag.cell_origin = o
values-Fit state fault origin s f o Tag.good = refl
values-Fit state fault origin s f o Tag.scrap = refl
values-Fit state fault origin s f o Tag.last_cycle = refl
values-Fit state fault origin s f o Tag.tct = refl
values-Fit state fault origin s f o Tag.heartbeat = tt
values-Fit state fault origin s f o (station_state op10) = tt
values-Fit state fault origin s f o (station_state op20) = s
values-Fit state fault origin s f o (station_state op30) = tt
values-Fit state fault origin s f o (station_fault op10) = tt
values-Fit state fault origin s f o (station_fault op20) = f
values-Fit state fault origin s f o (station_fault op30) = tt
values-Fit state fault origin s f o Tag.weld_current = tt
values-Fit state fault origin s f o Tag.weld_points = tt
values-Fit state fault origin s f o Tag.weld_ok = tt

shift-AllFit : AllFit shift
shift-AllFit = (
  λ tag. values-Fit 1 0 0 refl refl refl tag,
  (
    λ tag. values-Fit 3 202 20 refl refl refl tag,
    (λ tag. values-Fit 1 0 0 refl refl refl tag, (λ tag. values-Fit 5 0 10 refl refl refl tag, tt)),
  ),
)

resume-IsResumed_example :
    (t' : Tracker) × (ops : List Op) × (db' : Db) × (r : Resume) × (apply_all new_tracker shift []
      ≡ some (t', ops))
    × (exec_all empty_db ops ≡ some db')
    × (resume db' ≡ some (db', r))
    × IsResumed t' r
resume-IsResumed_example =
    resume-IsResumed new_tracker empty_db shift empty_db-Agrees (λ tag. tt) shift-AllFit

-- An origin that is not of the enum, and a sample with a theoretical cycle of 0, are refused.
odd_origin : exec empty_db (state_event Scope.cell 20 3 202 (some 42)) ≡ none
unfolding exec checks
odd_origin = refl

no_cycle : exec empty_db (counter_sample 20 5 0 0 56000) ≡ none
unfolding exec checks
no_cycle = refl
