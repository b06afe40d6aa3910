-- ===== src/Collector/Tracker.antt =====
-- Groups of changes into database operations (backend/app/collector/tracker.py).
pub mod Stops
pub mod Runs
use cell_oee_demo.Prelude.{
  ℕ, Bool, true, false, not, ◌&&◌, ◌||◌, Option, none, some, List, [], ◌∷◌, ◌++◌, ◌==◌, ltb, leb,
  if◌then◌else◌, is_some,
}
use cell_oee_demo.Domain.{Scope, Cause, suggest_cause, station_of_origin}
use cell_oee_demo.Oee.Types.{Instant}
use cell_oee_demo.Collector.Types.{
  Station, op10, op20, op30, Tag, TagValue, Group, Values, Op, value_of, same_tag, to_int, to_float,
  to_bool, state_event, open_stop, close_stop, counter_sample, weld_sample, station_state,
  station_fault, station_code,
}

-- The latest value of each tag, with its timestamp (`_latest`).
abbrev pub Latest : Type 0
Latest = Tag → Option (Instant × TagValue)

abbrev pub CellRow : Type 0
CellRow = Instant × ℕ × ℕ × ℕ

abbrev pub StationRow : Type 0
StationRow = Instant × ℕ × ℕ

-- `TrackerState` with the tracker's `_latest`.
pub record Tracker : Type 0 where
  pub last_cell : Option CellRow
  pub last_station : Station → Option StationRow
  pub open_stop_start : Option Instant
  pub last_counter_ts : Option Instant
  pub last_weld_ts : Option Instant
  pub latest : Latest

-- What is known of one tag after a group: a value that is not older replaces the known one.
abbrev pub newer : Instant → Option (Instant × TagValue) → TagValue → Option (Instant × TagValue)
newer ts none v = some (ts, v)
newer ts (some (known, old)) v = if leb known ts then some (ts, v) else some (known, old)

-- `changed`: the tags of the group but the heartbeat.
abbrev pub changes : Group → Tag → Bool
changes g tag = not (same_tag tag Tag.heartbeat) && is_some (value_of tag g.values)

-- The loop over `changed`, which sets each tag of a dict once.
unfoldable pub learn : Group → Latest → Latest
learn g latest tag = elim (value_of tag g.values) [
  | none ↦ latest tag
  | some v ↦ if same_tag tag Tag.heartbeat then latest tag else newer g.ts (latest tag) v
]

-- `_value`
abbrev pub value : Latest → Tag → Option TagValue
value latest tag = elim (latest tag) [ none ↦ none | some (ts, v) ↦ some v ]

-- State, fault code and origin, once all three are known.
abbrev pub both : Option TagValue → Option TagValue → Option (ℕ × ℕ)
both none b = none
both (some a) none = none
both (some a) (some b) = some (to_int a, to_int b)

abbrev pub cell_values : Latest → Option (ℕ × ℕ × ℕ)
cell_values latest = elim (both (value latest Tag.cell_state) (value latest Tag.cell_fault)) [
  | none ↦ none
  | some (s, f) ↦ elim (value latest Tag.cell_origin) [
    | none ↦ none
    | some o ↦ some (s, f, to_int o)
  ]
]

-- A replay, or an event that is not newer than the last stored one.
abbrev pub is_stale : Option CellRow → Instant → ℕ × ℕ × ℕ → Bool
is_stale none ts v = false
is_stale (some (last_ts, s, f, o)) ts (s', f', o') =
    s == s' && (f == f' && o == o') || leb ts last_ts

abbrev pub station_of : ℕ → Scope
station_of origin = elim (station_of_origin origin) [ none ↦ Scope.cell | some s ↦ s ]

abbrev pub closing : Option Instant → Instant → List Op
closing none ts = []
closing (some start) ts = close_stop start ts ∷ []

-- `_transition`; `none` where `suggest_cause` raises.
unfoldable pub transition : Tracker → Instant → ℕ → ℕ → ℕ → Option (Tracker × List Op)
transition t ts state fault origin =
    let event = state_event Scope.cell ts state fault (some origin) in
    let row = some (ts, state, fault, origin) in
    let closed = closing t.open_stop_start ts in
    if state == 1
    then some (record t { open_stop_start = none; last_cell = row }, event ∷ closed)
    else elim (suggest_cause state fault) [
      | none ↦ none
      | some cause ↦ some (
        record t { open_stop_start = some ts; last_cell = row },
        event ∷ (closed ++ open_stop ts state (station_of origin) fault cause ∷ []),
      )
    ]

-- `_cell_event`
unfoldable pub cell_event : Tracker → Group → Option (Tracker × List Op)
cell_event t g =
    if changes g Tag.cell_state || (changes g Tag.cell_fault || changes g Tag.cell_origin)
    then elim (cell_values t.latest) [
      | none ↦ some (t, [])
      | some (s, f, o) ↦
          if is_stale t.last_cell g.ts (s, f, o) then some (t, []) else transition t g.ts s f o
    ]
    else some (t, [])

abbrev pub scope_of : Station → Scope
scope_of op10 = Scope.op10
scope_of op20 = Scope.op20
scope_of op30 = Scope.op30

abbrev pub is_stale_station : Option StationRow → Instant → ℕ × ℕ → Bool
is_stale_station none ts v = false
is_stale_station (some (last_ts, s, f)) ts (s', f') = s == s' && f == f' || leb ts last_ts

abbrev pub set_station :
    Station → StationRow → (Station → Option StationRow) → Station → Option StationRow
set_station st row rows other =
    if station_code st == station_code other then some row else rows other

-- The body of the loop of `_station_events` for one station.
unfoldable pub station_event : Tracker → Group → Station → Tracker × List Op
station_event t g st =
    if changes g (station_state st) || changes g (station_fault st)
    then elim (both (value t.latest (station_state st)) (value t.latest (station_fault st))) [
      | none ↦ (t, [])
      | some (s, f) ↦ if is_stale_station (t.last_station st) g.ts (s, f) then (t, []) else (
        record t { last_station = set_station st (g.ts, s, f) t.last_station },
        state_event (scope_of st) g.ts s f none ∷ [],
      )
    ]
    else (t, [])

-- `_station_events`
unfoldable pub station_events : Tracker → Group → Tracker × List Op
station_events t g =
    let (t₁, ops₁) = station_event t g op10 in
    let (t₂, ops₂) = station_event t₁ g op20 in
    let (t₃, ops₃) = station_event t₂ g op30 in (t₃, ops₁ ++ (ops₂ ++ ops₃))

-- Not newer than the last stored sample.
abbrev pub is_stored : Option Instant → Instant → Bool
is_stored none ts = false
is_stored (some last) ts = leb ts last

abbrev pub all_four :
    Option TagValue
    → Option TagValue
    → Option TagValue
    → Option TagValue
    → Option (TagValue × TagValue × TagValue × TagValue)
all_four (some a) (some b) (some c) (some d) = some (a, b, c, d)
all_four none b c d = none
all_four (some a) none c d = none
all_four (some a) (some b) none d = none
all_four (some a) (some b) (some c) none = none

-- `_counter_sample`
unfoldable pub counter_event : Tracker → Group → Tracker × List Op
counter_event t g =
    if changes g Tag.good || changes g Tag.scrap
    then elim (all_four (value t.latest Tag.good) (value t.latest Tag.scrap)
        (value t.latest Tag.tct) (value t.latest Tag.last_cycle)) [
          | none ↦ (t, [])
          | some (good, scrap, tct, cycle) ↦ if is_stored t.last_counter_ts g.ts then (t, []) else (
            record t { last_counter_ts = some g.ts },
            counter_sample g.ts (to_int good) (to_int scrap) (to_float tct) (to_float cycle) ∷ [],
          )
        ]
    else (t, [])

abbrev pub all_three :
    Option TagValue → Option TagValue → Option TagValue → Option (TagValue × TagValue × TagValue)
all_three (some a) (some b) (some c) = some (a, b, c)
all_three none b c = none
all_three (some a) none c = none
all_three (some a) (some b) none = none

-- `_weld_sample`
unfoldable pub weld_event : Tracker → Group → Tracker × List Op
weld_event t g =
    if changes g Tag.weld_current
    then elim (all_three (value t.latest Tag.weld_current) (value t.latest Tag.weld_points)
        (value t.latest Tag.weld_ok)) [
          | none ↦ (t, [])
          | some (current, points, ok) ↦ if is_stored t.last_weld_ts g.ts then (t, []) else (
            record t { last_weld_ts = some g.ts },
            weld_sample g.ts (to_float current) (to_int points) (to_bool ok) ∷ [],
          )
        ]
    else (t, [])

-- The events that cannot raise, in the order of `apply`.
unfoldable pub other_events : Tracker → Group → Tracker × List Op
other_events t g =
    let (t₁, ops₁) = station_events t g in
    let (t₂, ops₂) = counter_event t₁ g in
    let (t₃, ops₃) = weld_event t₂ g in (t₃, ops₁ ++ (ops₂ ++ ops₃))

abbrev pub then_others : Group → Option (Tracker × List Op) → Option (Tracker × List Op)
then_others g none = none
then_others g (some (t, ops)) = let (t', others) = other_events t g in some (t', ops ++ others)

-- `StopTracker.apply`. `none` is a `ValueError`, which ends the collector's process.
unfoldable pub apply : Tracker → Group → Option (Tracker × List Op)
apply t g = then_others g (cell_event (record t { latest = learn g t.latest }) g)

-- `for group in groups: ops += tracker.apply(group)`, as in the pipeline.
unfoldable pub apply_all : Tracker → List Group → List Op → Option (Tracker × List Op)
apply_all t [] ops = some (t, ops)
apply_all t (g ∷ groups) ops = elim (apply t g) [
  | none ↦ none
  | some (t', more) ↦ apply_all t' groups (ops ++ more)
]
