-- ===== src/Oee/Compute/Accounting.antt =====
-- The time accounting of `compute_oee`: every part of the window is counted exactly once.
use cell_oee_demo.Prelude.{
  ℕ, ◌+◌, ◌≡◌, sym, false, not, ◌&&◌, ◌||◌, Option, none, some, List, [], ◌∷◌, ◌++◌, sum_of, arith,
  suc, map,
}
use cell_oee_demo.Oee.Types.{
  Window, length_s, ClassifiedStop, StopKind, planned, loss, CounterDelta, Gap, loss_s,
}
use cell_oee_demo.Oee.Intervals.{Interval, merge, clip, total, complement, subtract}
use cell_oee_demo.Oee.Intervals.Points.{
  inside, covers, IsMerged, EndsBy, covers_above, merge-IsMerged, covers-merge, covers-append,
}
use cell_oee_demo.Oee.Intervals.Algebra.{
  complement-IsMerged, covers-complement, intersect-IsMerged, covers-intersect, subtract-IsMerged,
  covers-subtract,
}
use cell_oee_demo.Oee.Intervals.Measure.{
  measure_split, measure-all, total-eq-measure, clip-IsMerged,
}
use cell_oee_demo.Oee.Observed.{rel_gap, raw_stops, gap_intervals, observed_intervals, within}
use cell_oee_demo.Oee.Compute.{
  LossName, loss_states, seconds_lost, fault, setup, starved, blocked, manual, claim, compute_oee,
}

-- Every point of the first list is a point of the second.
abbrev pub Within : List Interval → List Interval → Type 0
Within l r = (t : ℕ) → (covers l t && not (covers r t)) ≡ false

-- A merged list in [0, n) that lies within the observed time.
abbrev pub IsPart : ℕ → List Interval → List Interval → Type 0
IsPart n observed l = IsMerged 0 n l × Within l observed

pub IsMerged-EndsBy : (lo hi : ℕ) (l : List Interval) → IsMerged lo hi l → EndsBy hi l
IsMerged-EndsBy lo hi [] m = tt
IsMerged-EndsBy lo hi ((a, b) ∷ l) m = (m.2, IsMerged-EndsBy (suc b) hi l m.3)

EndsBy-append : (hi : ℕ) (l r : List Interval) → EndsBy hi l → EndsBy hi r → EndsBy hi (l ++ r)
EndsBy-append hi [] r p q = q
EndsBy-append hi (x ∷ l) r p q = (p.0, EndsBy-append hi l r p.1 q)

module _ (n : ℕ) (observed : List Interval) (whole : IsMerged 0 n observed) where
  -- What is taken and what is left make up the observed time.
  pub total_split :
      (taken : List Interval)
      → IsPart n observed taken
      → total observed ≡ total taken + total (subtract observed taken)
  total_split taken p =
      let left = subtract-IsMerged 0 n 0 n observed taken whole p.0 in
      omega (
        arith,
        total-eq-measure n 0 observed whole,
        total-eq-measure n 0 taken p.0,
        total-eq-measure n 0 (subtract observed taken) left,
        measure_split n (covers observed) (covers taken) (covers (subtract observed taken))
            (λ t. ground (arith, p.1 t, covers-subtract 0 n observed taken t p.0))
            (λ t. ground (arith, covers-subtract 0 n observed taken t p.0)),
      )

  module _ (taken fresh : List Interval) (p : IsPart n observed taken)
      (q : IsPart n observed fresh) where
    pub mine-IsMerged : IsMerged 0 n (subtract fresh taken)
    mine-IsMerged = subtract-IsMerged 0 n 0 n fresh taken q.0 p.0

    joined-EndsBy : EndsBy n (taken ++ subtract fresh taken)
    joined-EndsBy =
        EndsBy-append n taken (subtract fresh taken) (IsMerged-EndsBy 0 n taken p.0)
          (IsMerged-EndsBy 0 n (subtract fresh taken) mine-IsMerged)

    pub covers-joined :
        (t : ℕ)
        → covers (merge (taken ++ subtract fresh taken)) t
          ≡ (covers taken t || (covers fresh t && not (covers taken t)))
    covers-joined t = ground (
      arith,
      covers-merge n (taken ++ subtract fresh taken) t joined-EndsBy,
      covers-append taken (subtract fresh taken) t,
      covers-subtract 0 n fresh taken t p.0,
    )

    pub joined-IsPart : IsPart n observed (merge (taken ++ subtract fresh taken))
    joined-IsPart = (
      merge-IsMerged n (taken ++ subtract fresh taken) joined-EndsBy,
      λ t. ground (arith, covers-joined t, p.1 t, q.1 t),
    )

    -- One claim: what was left is what is claimed now and what is left after that.
    pub claim_one :
        total (subtract observed taken)
        ≡ total (subtract fresh taken)
          + total (subtract observed (merge (taken ++ subtract fresh taken)))
    claim_one =
        let next = merge (taken ++ subtract fresh taken) in
        let before = subtract-IsMerged 0 n 0 n observed taken whole p.0 in
        let after = subtract-IsMerged 0 n 0 n observed next whole joined-IsPart.0 in
        omega (
          arith,
          total-eq-measure n 0 (subtract observed taken) before,
          total-eq-measure n 0 (subtract fresh taken) mine-IsMerged,
          total-eq-measure n 0 (subtract observed next) after,
          measure_split n (covers (subtract observed taken)) (covers (subtract fresh taken))
              (covers (subtract observed next))
              (λ t. ground (
                arith,
                covers-subtract 0 n observed taken t p.0,
                covers-subtract 0 n fresh taken t p.0,
                covers-joined t,
                q.1 t,
                covers-subtract 0 n observed next t joined-IsPart.0,
              ))
              (λ t. ground (
                arith,
                covers-subtract 0 n fresh taken t p.0,
                covers-joined t,
                covers-subtract 0 n observed next t joined-IsPart.0,
              )),
        )

  -- All the claims together.
  pub claim_accounts :
      (within_state : ℕ → List Interval)
      → ((state : ℕ) → IsPart n observed (within_state state))
      → (states : List (ℕ × LossName)) (taken : List Interval) → IsPart n observed taken
      → let (losses, last) = claim within_state states taken in
        (total (subtract observed taken)
          ≡ sum_of (λ x. x.1) losses + total (subtract observed last))
        × IsPart n observed last
  unfolding claim
  claim_accounts within_state parts [] taken p = (omega arith, p)
  claim_accounts within_state parts ((state, name) ∷ states) taken p =
      let fresh = within_state state in
      let ih =
        claim_accounts within_state parts states (merge (taken ++ subtract fresh taken))
          (joined-IsPart taken fresh p (parts state)) in
      (omega (arith, ih.0, claim_one taken fresh p (parts state)), ih.1)

pub gap_intervals-IsMerged :
    (w : Window) (gaps : List Gap) → IsMerged 0 (length_s w) (gap_intervals w gaps)
unfolding gap_intervals
gap_intervals-IsMerged w gaps = clip-IsMerged 0 (length_s w) (map (rel_gap w) gaps)

pub observed_intervals-IsMerged :
    (w : Window) (gaps : List Gap) → IsMerged 0 (length_s w) (observed_intervals w gaps)
unfolding observed_intervals
observed_intervals-IsMerged w gaps =
    complement-IsMerged 0 (length_s w) (gap_intervals w gaps) (gap_intervals-IsMerged w gaps)

-- Gaps and observed time make up the window.
opening_accounts :
    (w : Window) (gaps : List Gap)
    → total (gap_intervals w gaps) + total (observed_intervals w gaps) ≡ length_s w
unfolding observed_intervals
opening_accounts w gaps =
    let n = length_s w in
    let gap_iv = gap_intervals w gaps in
    let m = gap_intervals-IsMerged w gaps in
    omega (
      arith,
      total-eq-measure n 0 gap_iv m,
      measure-all n,
      total-eq-measure n 0 (complement gap_iv 0 n) (complement-IsMerged 0 n gap_iv m),
      measure_split n (inside (0, n)) (covers gap_iv) (covers (complement gap_iv 0 n))
          (λ t. ground (arith, covers-complement 0 n gap_iv t m, covers_above 0 n t gap_iv m))
          (λ t. ground (arith, covers-complement 0 n gap_iv t m)),
    )

pub within-IsPart :
    (w : Window) (stops : List ClassifiedStop) (observed : List Interval) (kind : StopKind)
    (state : Option ℕ)
    → IsMerged 0 (length_s w) observed
    → IsPart (length_s w) observed (within w stops observed kind state)
unfolding within
within-IsPart w stops observed kind state m =
    let n = length_s w in
    let raw = clip (raw_stops w stops kind state) 0 n in
    let c = clip-IsMerged 0 n (raw_stops w stops kind state) in
    (
      intersect-IsMerged 0 0 0 n raw observed (omega arith) c m,
      λ t. ground (arith, covers-intersect 0 0 n raw observed t c m),
    )

-- The dict of losses has an entry for each of the five names.
five_losses :
    (of_state : ℕ → List Interval) (taken : List Interval)
    → let losses = (claim of_state loss_states taken).0 in
      sum_of (λ x. x.1) losses
      ≡ seconds_lost fault losses
        + seconds_lost setup losses
        + seconds_lost starved losses
        + seconds_lost blocked losses
        + seconds_lost manual losses
unfolding claim
five_losses of_state taken = omega arith

-- The identities of the NF E60-182 time accounting, for every window and any stops and gaps, even
-- overlapping ones: the window is gaps, planned stops, the five losses and operating time; opening
-- time is the window without gaps; required time is opening time without planned stops; and
-- required time is the five losses and operating time.
pub compute_oee_accounts :
    (w : Window) (stops : List ClassifiedStop) (deltas : List CounterDelta) (gaps : List Gap)
    → let r = compute_oee w stops deltas gaps in
      (r.gap_s + r.planned_stop_s + loss_s r + r.operating_s ≡ length_s w)
      × (r.gap_s + r.opening_s ≡ length_s w)
      × (r.planned_stop_s + r.planned_s ≡ r.opening_s)
      × (loss_s r + r.operating_s ≡ r.planned_s)
unfolding compute_oee
compute_oee_accounts w stops deltas gaps =
    let n = length_s w in
    let observed = observed_intervals w gaps in
    let whole = observed_intervals-IsMerged w gaps in
    let part =
      λ (kind : StopKind) (state : Option ℕ). within-IsPart w stops observed kind state whole in
    let planned_iv = within w stops observed planned none in
    let of_state = λ (state : ℕ). within w stops observed loss (some state) in
    let split = total_split n observed whole planned_iv (part planned none) in
    let claims =
      claim_accounts n observed whole of_state (λ state. part loss (some state)) loss_states
        planned_iv (part planned none) in
    let opening = opening_accounts w gaps in
    let five = five_losses of_state planned_iv in
    (
      omega (arith, split, claims.0, opening, five),
      opening,
      sym split,
      omega (arith, claims.0, five),
    )
