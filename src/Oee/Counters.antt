-- ===== src/Oee/Counters.antt =====
-- Cumulative UInt32 counters to production deltas (backend/app/oee/counters.py).
pub mod Production
use cell_oee_demo.Prelude.{
  ℕ, ◌+◌, ◌-◌, ◌^◌, Option, none, some, List, [], ◌∷◌, ltb, leb, ◌&&◌, sort_by, if◌then◌else◌, Bool,
}
use cell_oee_demo.Oee.Types.{CounterSample, CounterDelta, DeltaKind, first, normal, rollover, reset}

abbrev pub uint32_range : ℕ
uint32_range = 2 ^ 32

-- `_delta`
unfoldable pub delta : ℕ → ℕ → ℕ → ℕ × DeltaKind
delta prev cur rollover_window =
    if leb prev cur
    then (cur - prev, normal)
    else if leb (uint32_range - rollover_window) prev && leb cur rollover_window
    then (cur + uint32_range - prev, rollover)
    else (0, reset)

-- `_SEVERITY`. The source's table has no entry for `first`, which `delta` never returns.
abbrev pub severity : DeltaKind → ℕ
severity first = 0
severity normal = 0
severity rollover = 1
severity reset = 2

-- `max(good_kind, scrap_kind, key=…)`: the first of two equal ones.
abbrev pub worse : DeltaKind → DeltaKind → DeltaKind
worse a b = if ltb (severity a) (severity b) then b else a

abbrev pub by_ts : CounterSample → CounterSample → Bool
by_ts a b = leb a.ts b.ts

abbrev pub first_delta : CounterSample → CounterDelta
first_delta s = record {
  ts = s.ts;
  prev_ts = none;
  good = 0;
  scrap = 0;
  theoretical_cycle_s = s.theoretical_cycle_s;
  kind = first;
}

unfoldable pub delta_between : ℕ → CounterSample → CounterSample → CounterDelta
unfolding delta
delta_between rollover_window prev s =
    let (good, good_kind) = delta prev.good_total s.good_total rollover_window in
    let (scrap, scrap_kind) = delta prev.scrap_total s.scrap_total rollover_window in
    record {
      ts = s.ts;
      prev_ts = some prev.ts;
      good = good;
      scrap = scrap;
      theoretical_cycle_s = s.theoretical_cycle_s;
      kind = worse good_kind scrap_kind;
    }

-- The loop once there is a previous sample.
unfoldable pub deltas_after : ℕ → CounterSample → List CounterSample → List CounterDelta
unfolding delta_between
deltas_after rollover_window prev [] = []
deltas_after rollover_window prev (s ∷ rest) =
    delta_between rollover_window prev s ∷ deltas_after rollover_window s rest

unfoldable pub deltas_of : ℕ → List CounterSample → List CounterDelta
unfolding deltas_after
deltas_of rollover_window [] = []
deltas_of rollover_window (s ∷ rest) = first_delta s ∷ deltas_after rollover_window s rest

unfoldable pub counter_deltas : List CounterSample → ℕ → List CounterDelta
unfolding deltas_of sort_by
counter_deltas samples rollover_window = deltas_of rollover_window (sort_by by_ts samples)
