-- ===== src/Oee/Compute/Pointwise.antt =====
-- `compute_oee` against a description that looks at one microsecond of the window at a time.
use cell_oee_demo.Prelude.{
  ℕ, ◌+◌, ◌<◌, ◌≡◌, refl, ◌∙◌, Bool, true, false, not, ◌&&◌, ◌||◌, Option, none, some, List, [],
  ◌∷◌, ◌++◌, arith, map, any, leb, ltb, if◌then◌else◌, fun_ext, ap, ap₂, Bool-cases, inl, inr,
}
use cell_oee_demo.Oee.Types.{
  Window, length_s, ClassifiedStop, StopKind, planned, loss, micro, CounterDelta, Gap,
}
use cell_oee_demo.Oee.Intervals.{Interval, merge, clip, clip_one, total, subtract}
use cell_oee_demo.Oee.Intervals.Points.{covers, IsMerged}
use cell_oee_demo.Oee.Intervals.Algebra.{
  covers-complement, covers-intersect, covers-subtract, subtract-IsMerged,
}
use cell_oee_demo.Oee.Intervals.Measure.{
  measure, measure_congr, total-eq-measure, clip-IsMerged, covers-clip,
}
use cell_oee_demo.Oee.Observed.{
  rel_gap, wanted, raw_stops, gap_intervals, observed_intervals, within,
}
use cell_oee_demo.Oee.Compute.{
  LossName, loss_states, seconds_lost, same_loss, fault, setup, starved, blocked, manual, claim,
  compute_oee,
}
use cell_oee_demo.Oee.Compute.Accounting.{
  IsPart, joined-IsPart, covers-joined, mine-IsMerged, observed_intervals-IsMerged,
  gap_intervals-IsMerged, within-IsPart, claim_accounts,
}

-- The instant falls into a gap.
abbrev pub in_gap : List Gap → ℕ → Bool
in_gap gaps x = any (λ g. leb g.start x && elim g.end [ none ↦ true | some end ↦ ltb x end ]) gaps

-- It falls into a stop of the kind, and of the state if one is given.
abbrev pub in_stop : List ClassifiedStop → StopKind → Option ℕ → ℕ → Bool
in_stop stops kind state x = any (λ s. wanted kind state s && (leb s.start x && ltb x s.end)) stops

pub data Category : Type 0 where
  gap planned_stop operating : Category
  lost : LossName → Category

-- What one microsecond counts as. The first that applies: a communication gap, a planned stop, a
-- fault, a setup, starved, blocked, manual; else operating time.
abbrev pub category_at : List ClassifiedStop → List Gap → ℕ → Category
category_at stops gaps x =
    if in_gap gaps x
    then gap
    else if in_stop stops planned none x
    then planned_stop
    else if in_stop stops loss (some 3) x
    then lost fault
    else if in_stop stops loss (some 4) x
    then lost setup
    else if in_stop stops loss (some 5) x
    then lost starved
    else if in_stop stops loss (some 6) x
    then lost blocked
    else if in_stop stops loss (some 7) x
    then lost manual
    else operating

-- The same for the microsecond `t` of the window.
abbrev pub gap_at : Window → List Gap → ℕ → Bool
gap_at w gaps t = in_gap gaps (w.start + t)

abbrev pub stop_at : Window → List ClassifiedStop → StopKind → Option ℕ → ℕ → Bool
stop_at w stops kind state t = in_stop stops kind state (w.start + t)

abbrev pub category : Window → List ClassifiedStop → List Gap → ℕ → Category
category w stops gaps t = category_at stops gaps (w.start + t)

covers-gap_intervals :
    (w : Window) (gaps : List Gap) (t : ℕ)
    → t < length_s w
    → covers (map (clip_one 0 (length_s w)) (map (rel_gap w) gaps)) t ≡ gap_at w gaps t
covers-gap_intervals w [] t h = refl
covers-gap_intervals w (g ∷ gaps) t h = ground (arith, covers-gap_intervals w gaps t h)

covers-raw_stops :
    (w : Window) (stops : List ClassifiedStop) (kind : StopKind) (state : Option ℕ) (t : ℕ)
    → t < length_s w
    → covers (map (clip_one 0 (length_s w)) (raw_stops w stops kind state)) t
      ≡ stop_at w stops kind state t
covers-raw_stops w [] kind state t h = refl
covers-raw_stops w (s ∷ stops) kind state t h = elim (Bool-cases (wanted kind state s)) [
  | inl e ↦ rw e (ground (arith, covers-raw_stops w stops kind state t h))
  | inr e ↦ rw e (covers-raw_stops w stops kind state t h)
]

-- What `claim` returns, with a test at each point in place of the interval lists.
abbrev claim_points : ℕ → (ℕ → ℕ → Bool) → List (ℕ × LossName) → (ℕ → Bool) → List (LossName × ℕ)
claim_points n at [] taken = []
claim_points n at ((state, name) ∷ states) taken =
    (name, measure n (λ t. at state t && not (taken t)))
    ∷ claim_points n at states (λ t. taken t || at state t)

module _ (n : ℕ) (observed : List Interval) (whole : IsMerged 0 n observed) where
  claim-eq-claim_points :
      (of_state : ℕ → List Interval)
      → ((state : ℕ) → IsPart n observed (of_state state))
      → (states : List (ℕ × LossName)) (taken : List Interval) → IsPart n observed taken
      → (claim of_state states taken).0
        ≡ claim_points n (λ state t. covers (of_state state) t) states (λ t. covers taken t)
  unfolding claim
  claim-eq-claim_points of_state parts [] taken p = refl
  claim-eq-claim_points of_state parts ((state, name) ∷ states) taken p =
      let fresh = of_state state in
      let ih =
        claim-eq-claim_points of_state parts states (merge (taken ++ subtract fresh taken))
          (joined-IsPart n observed whole taken fresh p (parts state)) in
      let both : (λ t. covers (merge (taken ++ subtract fresh taken)) t)
          ≡ (λ t. covers taken t || covers fresh t) =
        fun_ext
          (λ t. ground (arith, covers-joined n observed whole taken fresh p (parts state) t)) in
      let mine =
        total-eq-measure n 0 (subtract fresh taken)
          (mine-IsMerged n observed whole taken fresh p (parts state))
        ∙ measure_congr n (covers (subtract fresh taken))
            (λ t. covers fresh t && not (covers taken t))
            (λ t _. covers-subtract 0 n fresh taken t p.0) in
      ap₂ ◌∷◌ (ap (λ k. (name, k)) mine)
        (ih ∙ ap (claim_points n (λ state t. covers (of_state state) t) states) both)

  covers-claim :
      (of_state : ℕ → List Interval)
      → ((state : ℕ) → IsPart n observed (of_state state))
      → (states : List (ℕ × LossName)) (taken : List Interval) (t : ℕ) → IsPart n observed taken
      → covers (claim of_state states taken).1 t
        ≡ (covers taken t || any (λ s. covers (of_state s.0) t) states)
  unfolding claim
  covers-claim of_state parts [] taken t p = ground arith
  covers-claim of_state parts ((state, name) ∷ states) taken t p =
      let fresh = of_state state in
      ground (
        arith,
        covers-joined n observed whole taken fresh p (parts state) t,
        covers-claim of_state parts states (merge (taken ++ subtract fresh taken)) t
            (joined-IsPart n observed whole taken fresh p (parts state)),
      )

abbrev pub same_category : Category → Category → Bool
same_category gap gap = true
same_category planned_stop planned_stop = true
same_category operating operating = true
same_category (lost m) (lost n) = same_loss m n
same_category _ _ = false

-- The microsecond is operating time and falls into a microstop.
abbrev pub micro_at : List ClassifiedStop → List Gap → ℕ → Bool
micro_at stops gaps x =
    in_stop stops micro none x && same_category operating (category_at stops gaps x)

-- How many microseconds of the window count as the category.
abbrev pub time_as : Window → List ClassifiedStop → List Gap → Category → ℕ
time_as w stops gaps c = measure (length_s w) (λ t. same_category c (category w stops gaps t))

module _ (w : Window) (stops : List ClassifiedStop) (gaps : List Gap) where
  gap_point : (t : ℕ) → t < length_s w → covers (gap_intervals w gaps) t ≡ gap_at w gaps t
  unfolding gap_intervals
  gap_point t h =
      covers-clip 0 (length_s w) (map (rel_gap w) gaps) t ∙ covers-gap_intervals w gaps t h

  pub observed_point :
      (t : ℕ) → t < length_s w → covers (observed_intervals w gaps) t ≡ not (gap_at w gaps t)
  unfolding observed_intervals
  observed_point t h = ground (
    arith,
    gap_point t h,
    covers-complement 0 (length_s w) (gap_intervals w gaps) t (gap_intervals-IsMerged w gaps),
  )

  within_point :
      (kind : StopKind) (state : Option ℕ) (t : ℕ)
      → t < length_s w
      → covers (within w stops (observed_intervals w gaps) kind state) t
        ≡ (stop_at w stops kind state t && not (gap_at w gaps t))
  unfolding within
  within_point kind state t h = ground (
    arith,
    observed_point t h,
    covers-intersect 0 0 (length_s w) (clip (raw_stops w stops kind state) 0 (length_s w))
        (observed_intervals w gaps) t (clip-IsMerged 0 (length_s w) (raw_stops w stops kind state))
        (observed_intervals-IsMerged w gaps),
    covers-clip 0 (length_s w) (raw_stops w stops kind state) t,
    covers-raw_stops w stops kind state t h,
  )

module _ (w : Window) (stops : List ClassifiedStop) (gaps : List Gap) where
  -- The pieces of `compute_oee`, named.
  abbrev pieces : StopKind → Option ℕ → List Interval
  pieces = within w stops (observed_intervals w gaps)

  part :
      (kind : StopKind) (state : Option ℕ)
      → IsPart (length_s w) (observed_intervals w gaps) (pieces kind state)
  part kind state =
      within-IsPart w stops (observed_intervals w gaps) kind state
        (observed_intervals-IsMerged w gaps)

  loss_points :
      (name : LossName)
      → seconds_lost name (
          claim_points
            (length_s w)
            (λ state t. covers (pieces loss (some state)) t)
            loss_states
            (λ t. covers (pieces planned none) t))
        ≡ time_as w stops gaps (lost name)
  loss_points fault = measure_congr (length_s w) _ _ (λ t h. ground (
    arith,
    within_point w stops gaps planned none t h,
    within_point w stops gaps loss (some 3) t h,
  ))
  loss_points setup = measure_congr (length_s w) _ _ (λ t h. ground (
    arith,
    within_point w stops gaps planned none t h,
    within_point w stops gaps loss (some 3) t h,
    within_point w stops gaps loss (some 4) t h,
  ))
  loss_points starved = measure_congr (length_s w) _ _ (λ t h. ground (
    arith,
    within_point w stops gaps planned none t h,
    within_point w stops gaps loss (some 3) t h,
    within_point w stops gaps loss (some 4) t h,
    within_point w stops gaps loss (some 5) t h,
  ))
  loss_points blocked = measure_congr (length_s w) _ _ (λ t h. ground (
    arith,
    within_point w stops gaps planned none t h,
    within_point w stops gaps loss (some 3) t h,
    within_point w stops gaps loss (some 4) t h,
    within_point w stops gaps loss (some 5) t h,
    within_point w stops gaps loss (some 6) t h,
  ))
  loss_points manual = measure_congr (length_s w) _ _ (λ t h. ground (
    arith,
    within_point w stops gaps planned none t h,
    within_point w stops gaps loss (some 3) t h,
    within_point w stops gaps loss (some 4) t h,
    within_point w stops gaps loss (some 5) t h,
    within_point w stops gaps loss (some 6) t h,
    within_point w stops gaps loss (some 7) t h,
  ))

  abbrev claims : List (LossName × ℕ) × List Interval
  claims = claim (λ state. pieces loss (some state)) loss_states (pieces planned none)

  loss_time : (name : LossName) → seconds_lost name claims.0 ≡ time_as w stops gaps (lost name)
  loss_time name =
      ap (seconds_lost name) (
        claim-eq-claim_points (length_s w) (observed_intervals w gaps)
          (observed_intervals-IsMerged w gaps) (λ state. pieces loss (some state))
          (λ state. part loss (some state)) loss_states (pieces planned none) (part planned none))
      ∙ loss_points name

  left_IsPart : IsPart (length_s w) (observed_intervals w gaps) claims.1
  left_IsPart =
      (claim_accounts (length_s w) (observed_intervals w gaps) (observed_intervals-IsMerged w gaps)
        (λ state. pieces loss (some state)) (λ state. part loss (some state)) loss_states
        (pieces planned none) (part planned none)).1

  left_point :
      (t : ℕ)
      → t < length_s w
      → covers (subtract (observed_intervals w gaps) claims.1) t
        ≡ same_category operating (category w stops gaps t)
  left_point t h = ground (
    arith,
    covers-subtract 0 (length_s w) (observed_intervals w gaps) claims.1 t left_IsPart.0,
    covers-claim (length_s w) (observed_intervals w gaps) (observed_intervals-IsMerged w gaps)
        (λ state. pieces loss (some state)) (λ state. part loss (some state)) loss_states
        (pieces planned none) t (part planned none),
    observed_point w stops gaps t h,
    within_point w stops gaps planned none t h,
    within_point w stops gaps loss (some 3) t h,
    within_point w stops gaps loss (some 4) t h,
    within_point w stops gaps loss (some 5) t h,
    within_point w stops gaps loss (some 6) t h,
    within_point w stops gaps loss (some 7) t h,
  )

  operating_time :
      total (subtract (observed_intervals w gaps) claims.1) ≡ time_as w stops gaps operating
  operating_time =
      let n = length_s w in
      let observed = observed_intervals w gaps in
      total-eq-measure n 0 (subtract observed claims.1) (
        subtract-IsMerged 0 n 0 n observed claims.1 (observed_intervals-IsMerged w gaps)
          left_IsPart.0)
      ∙ measure_congr n _ _ left_point

  micro_point :
      (t : ℕ)
      → t < length_s w
      → covers (subtract (pieces micro none) claims.1) t ≡ micro_at stops gaps (w.start + t)
  micro_point t h = ground (
    arith,
    covers-subtract 0 (length_s w) (pieces micro none) claims.1 t left_IsPart.0,
    covers-claim (length_s w) (observed_intervals w gaps) (observed_intervals-IsMerged w gaps)
        (λ state. pieces loss (some state)) (λ state. part loss (some state)) loss_states
        (pieces planned none) t (part planned none),
    within_point w stops gaps micro none t h,
    within_point w stops gaps planned none t h,
    within_point w stops gaps loss (some 3) t h,
    within_point w stops gaps loss (some 4) t h,
    within_point w stops gaps loss (some 5) t h,
    within_point w stops gaps loss (some 6) t h,
    within_point w stops gaps loss (some 7) t h,
  )

-- The microstops are the microseconds of operating time that fall into one.
pub micro_s-eq-measure :
    (w : Window) (stops : List ClassifiedStop) (deltas : List CounterDelta) (gaps : List Gap)
    → (compute_oee w stops deltas gaps).micro_s
      ≡ measure (length_s w) (λ t. micro_at stops gaps (w.start + t))
unfolding compute_oee
micro_s-eq-measure w stops deltas gaps =
    let n = length_s w in
    let left = claims w stops gaps in
    total-eq-measure n 0 (subtract (pieces w stops gaps micro none) left.1) (
      subtract-IsMerged 0 n 0 n (pieces w stops gaps micro none) left.1
        (part w stops gaps micro none).0 (left_IsPart w stops gaps).0)
    ∙ measure_congr n _ _ (micro_point w stops gaps)

-- Each time of the result is the number of microseconds of the window whose category it is, for any
-- stops and gaps, overlapping or not: gaps, planned stops, the five losses and operating time.
pub compute_oee-eq-time_as :
    (w : Window) (stops : List ClassifiedStop) (deltas : List CounterDelta) (gaps : List Gap)
    → let r = compute_oee w stops deltas gaps in
      (r.gap_s ≡ time_as w stops gaps gap)
      × (r.planned_stop_s ≡ time_as w stops gaps planned_stop)
      × (r.fault_s ≡ time_as w stops gaps (lost fault))
      × (r.setup_s ≡ time_as w stops gaps (lost setup))
      × (r.starved_s ≡ time_as w stops gaps (lost starved))
      × (r.blocked_s ≡ time_as w stops gaps (lost blocked))
      × (r.manual_s ≡ time_as w stops gaps (lost manual))
      × (r.operating_s ≡ time_as w stops gaps operating)
unfolding compute_oee
compute_oee-eq-time_as w stops deltas gaps =
    let losses = loss_time w stops gaps in
    (
      total-eq-measure (length_s w) 0 (gap_intervals w gaps) (gap_intervals-IsMerged w gaps)
          ∙ measure_congr (length_s w) _ _ (λ t h. ground (arith, gap_point w stops gaps t h)),
      total-eq-measure (length_s w) 0 (pieces w stops gaps planned none)
            (part w stops gaps planned none).0
          ∙ measure_congr (length_s w) _ _
              (λ t h. ground (arith, within_point w stops gaps planned none t h)),
      losses fault,
      losses setup,
      losses starved,
      losses blocked,
      losses manual,
      operating_time w stops gaps,
    )
