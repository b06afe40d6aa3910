-- ===== src/Oee/Timeline/Latest.antt =====
-- What the timeline shows at an instant is the state of the latest event until then.
use cell_oee_demo.Prelude.{
  ℕ, ◌≤◌, ◌<◌, ◌≡◌, refl, ◌∙◌, min, max, true, false, ◌&&◌, Option, none, some, List, [], ◌∷◌,
  arith, ltb, leb, if◌then◌else◌, filter, sort_by, insert_by, Bool-cases, inl, inr, IsAscending,
  LeHead,
}
use cell_oee_demo.Oee.Types.{Instant, Window}
use cell_oee_demo.Oee.Timeline.{
  StateEvent, TimelineSegment, by_ts, bound_of, next_ts, segments_of, build_timeline,
}

-- The later of two events, the second one if they are of one instant.
abbrev pub later : StateEvent → Option StateEvent → Option StateEvent
later e none = some e
later e (some f) = if leb e.ts f.ts then some f else some e

-- The latest event until `t`, the last in the list of those of one instant.
abbrev pub latest_of : List StateEvent → Instant → Option StateEvent
latest_of [] t = none
latest_of (e ∷ events) t = if leb e.ts t then later e (latest_of events t) else latest_of events t

abbrev pub state_of : Option StateEvent → Option ℕ
state_of none = none
state_of (some e) = some e.state

-- The state shown at an instant.
abbrev pub state_at : List TimelineSegment → Instant → Option ℕ
state_at [] t = none
state_at (s ∷ segments) t =
    if leb s.start t && ltb t s.end then some s.state else state_at segments t

later_swap :
    (x y : StateEvent) (o : Option StateEvent)
    → y.ts < x.ts
    → later y (later x o) ≡ later x (later y o)
later_swap x y none h = ground (arith, h)
later_swap x y (some e) h = ground (arith, h)

latest_of_swap :
    (x y : StateEvent) (l : List StateEvent) (t : Instant)
    → y.ts < x.ts
    → latest_of (y ∷ x ∷ l) t ≡ latest_of (x ∷ y ∷ l) t
latest_of_swap x y l t h = elim (Bool-cases (leb x.ts t)) [
  | inl e ↦
      let d : leb y.ts t ≡ true = ground (arith, e, h) in
      rw (e, d) (later_swap x y (latest_of l t) h)
  | inr e ↦ rw e refl
]

latest_of-insert_by :
    (x : StateEvent) (l : List StateEvent) (t : Instant)
    → latest_of (insert_by by_ts x l) t ≡ latest_of (x ∷ l) t
unfolding insert_by
latest_of-insert_by x [] t = refl
latest_of-insert_by x (y ∷ l) t = elim (Bool-cases (by_ts x y)) [
  | inl e ↦ rw e refl
  | inr e ↦ rw (e, latest_of-insert_by x l t) (latest_of_swap x y l t (ground (arith, e)))
]

latest_of-sort_by :
    (l : List StateEvent) (t : Instant) → latest_of (sort_by by_ts l) t ≡ latest_of l t
unfolding sort_by
latest_of-sort_by [] t = refl
latest_of-sort_by (x ∷ l) t =
    latest_of-insert_by x (sort_by by_ts l) t ∙ rw (latest_of-sort_by l t) refl

-- Later events are not seen before they happen.
latest_of-filter :
    (bound : Instant) (l : List StateEvent) (t : Instant)
    → t < bound
    → latest_of (filter (λ e. ltb e.ts bound) l) t ≡ latest_of l t
latest_of-filter bound [] t h = refl
latest_of-filter bound (e ∷ l) t h = ground (arith, latest_of-filter bound l t h)

insert_by-LeHead_of :
    (y x : StateEvent) (l : List StateEvent)
    → by_ts y x ≡ true
    → LeHead by_ts y l
    → LeHead by_ts y (insert_by by_ts x l)
unfolding insert_by
insert_by-LeHead_of y x [] e h = e
insert_by-LeHead_of y x (z ∷ l) e h = elim (Bool-cases (by_ts x z)) [
  | inl d ↦ rw d e
  | inr d ↦ rw d h
]

insert_by-IsAscending :
    (x : StateEvent) (l : List StateEvent)
    → IsAscending by_ts l
    → IsAscending by_ts (insert_by by_ts x l)
unfolding insert_by
insert_by-IsAscending x [] h = (tt, tt)
insert_by-IsAscending x (y ∷ l) h = elim (Bool-cases (by_ts x y)) [
  | inl e ↦ rw e (e, h)
  | inr e ↦ rw e (insert_by-LeHead_of y x l (ground (arith, e)) h.0, insert_by-IsAscending x l h.1)
]

sort_by-IsAscending : (l : List StateEvent) → IsAscending by_ts (sort_by by_ts l)
unfolding sort_by
sort_by-IsAscending [] = tt
sort_by-IsAscending (x ∷ l) = insert_by-IsAscending x (sort_by by_ts l) (sort_by-IsAscending l)

-- Nothing is known before the first event, and something that is not older after it.
latest_of-none :
    (e : StateEvent) (l : List StateEvent) (t : Instant)
    → IsAscending by_ts (e ∷ l)
    → t < e.ts
    → latest_of (e ∷ l) t ≡ none
latest_of-none e [] t a h = ground (arith, h)
latest_of-none e (f ∷ l) t a h = ground (arith, a, latest_of-none f l t a.1)

abbrev IsSince : Instant → Option StateEvent → Type 0
IsSince ts none = ⊥
IsSince ts (some e) = ts ≤ e.ts

later-IsSince : (e : StateEvent) (o : Option StateEvent) → IsSince e.ts (later e o)
later-IsSince e none = omega arith
later-IsSince e (some f) = elim (Bool-cases (leb e.ts f.ts)) [
  | inl d ↦ rw d (ground (arith, d))
  | inr d ↦ rw d (omega arith)
]

latest_of-IsSince :
    (e : StateEvent) (l : List StateEvent) (t : Instant)
    → leb e.ts t ≡ true
    → IsSince e.ts (latest_of (e ∷ l) t)
latest_of-IsSince e l t h = rw h (later-IsSince e (latest_of l t))

state_at_push :
    (start end state : ℕ) (rest : List TimelineSegment) (t : Instant)
    → state_at
        (if ltb start end then record { start = start; end = end; state = state } ∷ rest else rest)
        t
      ≡ (if leb start t && ltb t end then some state else state_at rest t)
state_at_push start end state rest t = ground arith

segments_of_step :
    (w : Window) (bound : Instant) (e : StateEvent) (l : List StateEvent) (t : Instant)
    → state_at (segments_of w bound (e ∷ l)) t ≡ (
        if leb (max e.ts w.start) t && ltb t (min (next_ts bound l) bound)
        then some e.state
        else state_at (segments_of w bound l) t)
unfolding segments_of
segments_of_step w bound e l t =
    state_at_push (max e.ts w.start) (min (next_ts bound l) bound) e.state (segments_of w bound l) t

-- A known event is not replaced by an older one.
later_since :
    (e : StateEvent) (ts : Instant) (o : Option StateEvent)
    → e.ts ≤ ts
    → IsSince ts o
    → later e o ≡ o
later_since e ts none h k = absurd k
later_since e ts (some f) h k = ground (arith, h, k)

segments_of-none : (w : Window) (bound t : Instant) → state_at (segments_of w bound []) t ≡ none
unfolding segments_of
segments_of-none w bound t = refl

-- One segment against one event, from what is known of the later ones.
segment_shows :
    (start bound t : Instant) (e : StateEvent) (next : Instant) (o : Option StateEvent)
    → e.ts ≤ next
    → start ≤ t
    → t < bound
    → (leb next t ≡ true → IsSince next o)
    → (leb next t ≡ false → o ≡ none)
    → (if leb (max e.ts start) t && ltb t (min next bound) then some e.state else state_of o)
      ≡ state_of (if leb e.ts t then later e o else o)
segment_shows start bound t e next o le h k since unseen = elim (Bool-cases (leb next t)) [
  | inl d ↦
      let seen : leb e.ts t ≡ true = ground (arith, d, le) in
      let over : ltb t (min next bound) ≡ false = ground (arith, d) in
      rw (seen, over, later_since e next o le (since d)) (ground arith)
  | inr d ↦ rw (unseen d) (ground (arith, d))
]

segments_of-state_at :
    (w : Window) (bound : Instant) (l : List StateEvent) (t : Instant)
    → IsAscending by_ts l
    → w.start ≤ t
    → t < bound
    → state_at (segments_of w bound l) t ≡ state_of (latest_of l t)
segments_of-state_at w bound [] t a h k = segments_of-none w bound t
segments_of-state_at w bound (e ∷ []) t a h k =
    rw (segments_of_step w bound e [] t, segments_of-none w bound t) (ground arith)
segments_of-state_at w bound (e ∷ f ∷ l) t a h k =
    let ih = segments_of-state_at w bound (f ∷ l) t a.1 h k in
    rw (segments_of_step w bound e (f ∷ l) t, ih)
      (segment_shows w.start bound t e f.ts (latest_of (f ∷ l) t) (ground (arith, a.0)) h k
        (latest_of-IsSince f l t) (λ d. latest_of-none f l t a.1 (ground (arith, d))))

-- At each instant of the window that is before the bound (`until`, or the end of the window if none is
-- given), the timeline shows the state of the latest event until then, the last in the list of those of
-- one instant, and no state if there is none.
pub build_timeline-state_at :
    (events : List StateEvent) (w : Window) (until : Option Instant) (t : Instant)
    → w.start ≤ t
    → t < w.end
    → t < bound_of w until
    → state_at (build_timeline events w until) t ≡ state_of (latest_of events t)
unfolding build_timeline
build_timeline-state_at events w until t h within k =
    let bound = bound_of w until in
    let before = filter (λ e. ltb e.ts bound) events in
    segments_of-state_at w bound (sort_by by_ts before) t (sort_by-IsAscending before) h k
    ∙ rw (latest_of-sort_by before t, latest_of-filter bound events t k) refl
