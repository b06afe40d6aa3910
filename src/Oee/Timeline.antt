-- ===== src/Oee/Timeline.antt =====
-- The sequence of the cell's states as segments (backend/app/oee/timeline.py).
pub mod Latest
use cell_oee_demo.Prelude.{
  ℕ, min, max, Bool, true, false, Option, none, some, List, [], ◌∷◌, ltb, leb, if◌then◌else◌,
  filter, sort_by,
}
use cell_oee_demo.Oee.Types.{Instant, Window}

pub record StateEvent : Type 0 where
  pub ts : Instant
  pub state : ℕ

pub record TimelineSegment : Type 0 where
  pub start : Instant
  pub end : Instant
  pub state : ℕ

abbrev pub by_ts : StateEvent → StateEvent → Bool
by_ts a b = leb a.ts b.ts

abbrev pub bound_of : Window → Option Instant → Instant
bound_of w none = w.end
bound_of w (some until) = until

-- `ordered[i + 1].ts if i + 1 < len(ordered) else bound`
abbrev pub next_ts : Instant → List StateEvent → Instant
next_ts bound [] = bound
next_ts bound (e ∷ events) = e.ts

-- The loop over the ordered events.
unfoldable pub segments_of : Window → Instant → List StateEvent → List TimelineSegment
segments_of w bound [] = []
segments_of w bound (e ∷ events) =
    let end = min (next_ts bound events) bound in
    let start = max e.ts w.start in
    let rest = segments_of w bound events in
    if ltb start end then record { start = start; end = end; state = e.state } ∷ rest else rest

unfoldable pub build_timeline : List StateEvent → Window → Option Instant → List TimelineSegment
build_timeline events w until =
    let bound = bound_of w until in
    segments_of w bound (sort_by by_ts (filter (λ e. ltb e.ts bound) events))
