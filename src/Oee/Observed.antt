-- ===== src/Oee/Observed.antt =====
-- What of a window was observed, and the stops within it (the gaps, `rel`, `observed` and `within` of
-- `compute_oee` in backend/app/oee/compute.py).
use cell_oee_demo.Prelude.{
  ℕ, Bool, true, false, ◌&&◌, Option, none, some, List, [], ◌∷◌, map, ℤ, pos, sub_ℕ, ltb, ◌==◌,
  if◌then◌else◌, any,
}
use cell_oee_demo.Oee.Types.{
  Instant, Window, length_s, ClassifiedStop, StopKind, planned, loss, micro, CounterDelta, Gap,
}
use cell_oee_demo.Oee.Intervals.{Interval, clip, complement, intersect}

abbrev pub touches : Instant → Instant → Gap → Bool
touches prev_ts ts g = ltb g.start ts && elim g.end [ none ↦ true | some end ↦ ltb prev_ts end ]

-- `_overlaps_gap`
unfoldable pub overlaps_gap : CounterDelta → List Gap → Bool
overlaps_gap d gaps = elim d.prev_ts [
  | none ↦ false
  | some prev_ts ↦ any (touches prev_ts d.ts) gaps
]

-- An instant relative to the window's start: negative before it.
abbrev pub rel : Window → Instant → ℤ
rel w ts = sub_ℕ ts w.start

abbrev pub rel_gap : Window → Gap → ℤ × ℤ
rel_gap w g = (rel w g.start, elim g.end [ some end ↦ rel w end | none ↦ pos (length_s w) ])

unfoldable pub gap_intervals : Window → List Gap → List Interval
gap_intervals w gaps = clip (map (rel_gap w) gaps) 0 (length_s w)

unfoldable pub observed_intervals : Window → List Gap → List Interval
observed_intervals w gaps = complement (gap_intervals w gaps) 0 (length_s w)

abbrev pub same_kind : StopKind → StopKind → Bool
same_kind planned planned = true
same_kind loss loss = true
same_kind micro micro = true
same_kind planned loss = false
same_kind planned micro = false
same_kind loss planned = false
same_kind loss micro = false
same_kind micro planned = false
same_kind micro loss = false

abbrev pub wanted : StopKind → Option ℕ → ClassifiedStop → Bool
wanted kind state s = same_kind s.kind kind && elim state [ none ↦ true | some n ↦ s.state == n ]

abbrev pub raw_stops : Window → List ClassifiedStop → StopKind → Option ℕ → List (ℤ × ℤ)
raw_stops w [] kind state = []
raw_stops w (s ∷ stops) kind state =
    if wanted kind state s
    then (rel w s.start, rel w s.end) ∷ raw_stops w stops kind state
    else raw_stops w stops kind state

-- `within`: the sets of kinds and of states that the source passes are singletons.
unfoldable pub within :
    Window → List ClassifiedStop → List Interval → StopKind → Option ℕ → List Interval
within w stops observed kind state =
    intersect (clip (raw_stops w stops kind state) 0 (length_s w)) observed
