-- ===== src/Collector/Tests.antt =====
-- Concrete runs of the collector, and its theorems at concrete inputs.
use cell_oee_demo.Prelude.{
  ℕ, ◌≤◌, ◌<◌, ◌≡◌, refl, true, false, Option, none, some, List, [], ◌∷◌, arith, sort_by, insert_by,
}
use cell_oee_demo.Domain.{
  Scope, Cause, suggest_cause, station_of_origin, cell_state, cause_of_fault,
}
use cell_oee_demo.Oee.Types.{Instant}
use cell_oee_demo.Collector.Types.{
  Tag, int, RawChange, Group, Op, open_gap, close_gap, closed_gap, state_event, open_stop,
  close_stop,
}
use cell_oee_demo.Collector.Watchdog.{
  Watchdog, new_watchdog, in_gap, on_connected, on_heartbeat, poll, seed,
}
use cell_oee_demo.Collector.Watchdog.Gaps.{
  Event, GapLog, IsLog, run, run-IsLog, loss_recorded, jump_recorded,
}
use cell_oee_demo.Collector.Tracker.{
  Tracker, learn, transition, cell_event, station_event, station_events, counter_event, weld_event,
  other_events, apply, apply_all,
}
use cell_oee_demo.Collector.Tracker.Stops.{IsFaithful, empty_log, log_ops}
use cell_oee_demo.Collector.Tracker.Runs.{AreReadable, apply_all-Runs}
use cell_oee_demo.Collector.Pipeline.{Collector, process, write, on_heartbeats, safe_last_seen}
use cell_oee_demo.Collector.Pipeline.LastSeen.{Writes, write-Writes}
use cell_oee_demo.Collector.Assembler.{
  feed, sort_changes, add_pending, release, oldest_pending, Assembler, new_assembler,
  poll as poll_groups, by_ts,
}
use cell_oee_demo.Collector.Assembler.Release.{Released, IsValid, InOrder, poll-Released}
use cell_oee_demo.Collector.Assembler.Trace.{
  Call, changed, polled, on_time, run as run_calls, run-InOrder,
}

abbrev watchdog : Watchdog
watchdog = new_watchdog 10 0 5 (some 100) none

abbrev no_gaps : GapLog
no_gaps = record { opened = none; closed = [] }

-- A silence, a heartbeat, a reconnection and a jump.
abbrev events : List Event
events =
    Event.polled 20
    ∷ Event.polled 25
    ∷ Event.heartbeat 130 30
    ∷ Event.connected 40
    ∷ Event.heartbeat 150 41
    ∷ []

run-events :
    (run watchdog no_gaps events).1
    ≡ record { opened = none; closed = (130, 150) ∷ (100, 130) ∷ [] }
unfolding new_watchdog poll on_heartbeat on_connected
run-events = refl

run-IsLog_example : IsLog (run watchdog no_gaps events).0 (run watchdog no_gaps events).1
unfolding new_watchdog
run-IsLog_example = run-IsLog watchdog no_gaps events (refl, tt)

loss_recorded_example :
    let (w₁, ops₁) = poll watchdog 20 in
    let (w₂, ops₂) = poll w₁ 25 in
    let (w₃, ops₃) = on_heartbeat w₂ 130 30 in
    (ops₁ ≡ open_gap 100 ∷ [])
    × (ops₂ ≡ [])
    × (ops₃ ≡ close_gap 100 130 ∷ [])
    × (in_gap w₃ ≡ false)
    × (w₃.last_hb ≡ some 130)
unfolding new_watchdog
loss_recorded_example =
    loss_recorded watchdog 100 130 20 25 30 refl refl (omega arith) (omega arith)

jump_recorded_example :
    let ops = (on_heartbeat (on_connected watchdog 3) 150 4).1 in
    (105 < 150 → ops ≡ closed_gap 100 150 ∷ []) × (150 ≤ 105 → ops ≡ [])
unfolding new_watchdog
jump_recorded_example = jump_recorded watchdog 100 150 3 4 refl refl (omega arith)

abbrev tracker : Tracker
tracker = record {
  last_cell = none;
  last_station = λ st. none;
  open_stop_start = none;
  last_counter_ts = none;
  last_weld_ts = none;
  latest = λ tag. none;
}

abbrev state_at : Instant → ℕ → ℕ → ℕ → Group
state_at ts state fault origin = record {
  ts = ts;
  values =
      (Tag.cell_state, int state)
      ∷ (Tag.cell_fault, int fault)
      ∷ (Tag.cell_origin, int origin)
      ∷ [];
  late = false;
}

-- Producing, a fault of OP20, the same again, starved, and producing.
abbrev groups : List Group
groups =
    state_at 10 1 0 0
    ∷ state_at 20 3 202 20
    ∷ state_at 20 3 202 20
    ∷ state_at 30 5 101 10
    ∷ state_at 40 1 0 0
    ∷ []

abbrev stored : List Op
stored =
    state_event Scope.cell 10 1 0 (some 0)
    ∷ state_event Scope.cell 20 3 202 (some 20)
    ∷ open_stop 20 3 Scope.op20 202 (some Cause.electrical_breakdown)
    ∷ state_event Scope.cell 30 5 101 (some 10)
    ∷ close_stop 20 30
    ∷ open_stop 30 5 Scope.op10 101 (some Cause.missing_parts)
    ∷ state_event Scope.cell 40 1 0 (some 0)
    ∷ close_stop 30 40
    ∷ []

abbrev after : Option (Tracker × List Op) → Tracker
after none = tracker
after (some (t, ops)) = t

apply_all-groups : apply_all tracker groups [] ≡ some (after (apply_all tracker groups []), stored)
unfolding apply_all apply cell_event transition learn other_events station_events station_event
    counter_event weld_event suggest_cause station_of_origin cell_state cause_of_fault
apply_all-groups = refl

empty-IsFaithful : IsFaithful tracker empty_log
empty-IsFaithful = record {
  last = refl;
  history = tt;
  open_known = refl;
  open_stored = refl;
  closed_stored = refl;
}

groups-AreReadable : AreReadable groups
unfolding cell_state
groups-AreReadable = ground arith

apply_all-Runs_example :
    (t' : Tracker) × (ops : List Op) × (apply_all tracker groups [] ≡ some (t', ops))
    × IsFaithful t' (log_ops empty_log ops)
apply_all-Runs_example =
    apply_all-Runs tracker empty_log groups empty-IsFaithful tt groups-AreReadable

abbrev change : Instant → Tag → ℕ → RawChange
change ts tag n = record { tag = tag; value = int n; ts = ts }

abbrev waiting : Assembler
waiting = record {
  settle_s = 5;
  pending =
      record { group = state_at 30 1 0 0; arrived = 0 }
      ∷ record { group = state_at 20 3 202 20; arrived = 1 }
      ∷ record { group = state_at 40 1 0 0; arrived = 4 }
      ∷ [];
  released_up_to = some 10;
}

waiting-IsValid : IsValid waiting
waiting-IsValid = ground arith

poll-Released_example : Released waiting.settle_s 7 (some 10) (sort_by by_ts waiting.pending) (
  (poll_groups waiting 7).1,
  (poll_groups waiting 7).0.pending,
  (poll_groups waiting 7).0.released_up_to,
)
poll-Released_example = poll-Released waiting 7 waiting-IsValid

-- A change out of order, a poll that releases both groups, and a change that comes late.
abbrev calls : List Call
calls =
    changed (change 30 Tag.good 5 ∷ change 20 Tag.good 4 ∷ change 30 Tag.scrap 1 ∷ []) 0
    ∷ polled 3
    ∷ changed (change 25 Tag.good 4 ∷ change 40 Tag.good 6 ∷ []) 4
    ∷ polled 9
    ∷ []

run-InOrder_example : InOrder none (on_time (run_calls (new_assembler 2) calls).1)
run-InOrder_example = run-InOrder 2 calls

abbrev collector : Collector
collector = record {
  tracker = tracker;
  assembler = new_assembler 2;
  watchdog = new_watchdog 10 0 5 none none;
  first_run = true;
  max_ts = none;
  written_ts = none;
  last_flush = 0;
  last_seen_flush_s = 100;
}

-- A first batch: the cell's state waits in the assembler, the heartbeat opens and closes a gap.
process-first :
    (r : Collector) × (process collector
        (change 50 Tag.heartbeat 1)
        (change 40 Tag.cell_state 1 ∷ [])
        7
      ≡ some (r, some (record { ops = closed_gap 40 50 ∷ []; last_seen = some 39 })))
unfolding process write on_heartbeats on_heartbeat seed apply_all feed sort_changes poll_groups
    release add_pending sort_by insert_by safe_last_seen oldest_pending new_assembler new_watchdog
process-first = (_, refl)

abbrev halfway : Collector
halfway = record collector { assembler = waiting; max_ts = some 40; written_ts = some 12 }

write-Writes_example : Writes halfway [] (write halfway [] 200 false)
unfolding new_assembler
write-Writes_example =
    write-Writes halfway [] 200 false (omega arith, (omega arith, (omega arith, tt)))
