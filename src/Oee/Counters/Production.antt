-- ===== src/Oee/Counters/Production.antt =====
-- The deltas against what the cell really made, through wrap-arounds and PLC restarts.
use cell_oee_demo.Prelude.{
  ℕ, ◌+◌, ◌%◌, ◌≤◌, ◌<◌, ◌≡◌, refl, List, [], ◌∷◌, arith, sum_of, All, Bool, true, false,
  if◌then◌else◌, sort_by-IsAscending, IsAscending,
}
use cell_oee_demo.Oee.Types.{Instant, CounterSample}
use cell_oee_demo.Oee.Counters.{
  uint32_range, delta, delta_between, deltas_after, deltas_of, counter_deltas, by_ts,
}

-- What happens in the cell between two samples: parts are made, perhaps after a restart that
-- clears the counters.
pub record Batch : Type 0 where
  pub ts : Instant
  pub good : ℕ
  pub scrap : ℕ
  pub theoretical_cycle_s : ℕ
  pub restarted : Bool

-- A 32-bit counter of the PLC.
abbrev pub advance : Bool → ℕ → ℕ → ℕ
advance restarted counter made = if restarted then made else (counter + made) % uint32_range

abbrev pub sample_after : CounterSample → Batch → CounterSample
sample_after s b = record {
  ts = b.ts;
  good_total = advance b.restarted s.good_total b.good;
  scrap_total = advance b.restarted s.scrap_total b.scrap;
  theoretical_cycle_s = b.theoretical_cycle_s;
}

abbrev pub samples_after : CounterSample → List Batch → List CounterSample
samples_after s [] = []
samples_after s (b ∷ rest) = sample_after s b ∷ samples_after (sample_after s b) rest

-- Between two samples at most `window` parts of each kind are made; a restart is not confused with
-- a wrap-around, as it happens while the counters are not within `window` of the wrap.
abbrev pub IsRun : ℕ → CounterSample → List Batch → Type 0
IsRun window s [] = Unit
IsRun window s (b ∷ rest) =
    (b.good ≤ window)
    × (b.scrap ≤ window)
    × (b.restarted ≡ true → s.good_total + window < uint32_range)
    × (b.restarted ≡ true → s.scrap_total + window < uint32_range)
    × IsRun window (sample_after s b) rest

abbrev pub InRange : CounterSample → Type 0
InRange s = (s.good_total < uint32_range) × (s.scrap_total < uint32_range)

abbrev pub HasNoRestart : Batch → Type 0
HasNoRestart b = b.restarted ≡ false

-- Without a restart, the delta of a wrapping counter is the number of parts made.
delta_recovers :
    (prev n window : ℕ)
    → prev < uint32_range
    → n ≤ window
    → window < uint32_range
    → (delta prev ((prev + n) % uint32_range) window).0 ≡ n
unfolding delta
delta_recovers prev n window p q r = ground arith

-- After a restart away from the wrap, no more is counted than was made since.
delta_restarted : (prev n window : ℕ) → prev + window < uint32_range → (delta prev n window).0 ≤ n
unfolding delta
delta_restarted prev n window h = ground arith

delta-le :
    (restarted : Bool) (prev n window : ℕ)
    → prev < uint32_range
    → n ≤ window
    → window < uint32_range
    → (restarted ≡ true → prev + window < uint32_range)
    → (delta prev (advance restarted prev n) window).0 ≤ n
delta-le true prev n window p q r h = delta_restarted prev n window (h refl)
delta-le false prev n window p q r h = omega (arith, delta_recovers prev n window p q r)

delta_exact :
    (restarted : Bool) (prev n window : ℕ)
    → prev < uint32_range
    → n ≤ window
    → window < uint32_range
    → restarted ≡ false
    → (delta prev (advance restarted prev n) window).0 ≡ n
delta_exact restarted prev n window p q r e = rw e (delta_recovers prev n window p q r)

advance-lt :
    (restarted : Bool) (prev n window : ℕ)
    → n ≤ window
    → window < uint32_range
    → advance restarted prev n < uint32_range
advance-lt true prev n window q r = omega arith
advance-lt false prev n window q r = omega arith

deltas_after-le :
    (window : ℕ) (s : CounterSample) (run : List Batch)
    → window < uint32_range
    → InRange s
    → IsRun window s run
    → (sum_of (λ d. d.good) (deltas_after window s (samples_after s run))
        ≤ sum_of (λ b. b.good) run)
      × (sum_of (λ d. d.scrap) (deltas_after window s (samples_after s run))
          ≤ sum_of (λ b. b.scrap) run)
unfolding deltas_after delta_between
deltas_after-le window s [] w r h = (omega arith, omega arith)
deltas_after-le window s (b ∷ run) w r h =
    let ih =
      deltas_after-le window (sample_after s b) run w
        (
          advance-lt b.restarted s.good_total b.good window h.0 w,
          advance-lt b.restarted s.scrap_total b.scrap window h.1 w,
        )
        h.4 in
    (
      omega (arith, ih.0, delta-le b.restarted s.good_total b.good window r.0 h.0 w h.2),
      omega (arith, ih.1, delta-le b.restarted s.scrap_total b.scrap window r.1 h.1 w h.3),
    )

deltas_after_exact :
    (window : ℕ) (s : CounterSample) (run : List Batch)
    → window < uint32_range
    → InRange s
    → IsRun window s run
    → All HasNoRestart run
    → (sum_of (λ d. d.good) (deltas_after window s (samples_after s run))
        ≡ sum_of (λ b. b.good) run)
      × (sum_of (λ d. d.scrap) (deltas_after window s (samples_after s run))
          ≡ sum_of (λ b. b.scrap) run)
unfolding deltas_after delta_between
deltas_after_exact window s [] w r h n = (refl, refl)
deltas_after_exact window s (b ∷ run) w r h n =
    let ih =
      deltas_after_exact window (sample_after s b) run w
        (
          advance-lt b.restarted s.good_total b.good window h.0 w,
          advance-lt b.restarted s.scrap_total b.scrap window h.1 w,
        )
        h.4 n.1 in
    (
      omega (arith, ih.0, delta_exact b.restarted s.good_total b.good window r.0 h.0 w n.0),
      omega (arith, ih.1, delta_exact b.restarted s.scrap_total b.scrap window r.1 h.1 w n.0),
    )

-- Samples in timestamp order.
abbrev pub InOrder : CounterSample → List Batch → Type 0
InOrder s run = IsAscending by_ts (s ∷ samples_after s run)

-- If the counters start below 2 ^ 32, the samples of a run are in timestamp order, at most
-- `rollover_window` parts of each kind, itself below 2 ^ 32, are made between two of them, and a restart
-- comes only while both counters are further than that from the wrap, then `counter_deltas` never counts
-- more good parts or more scrap than were made after the first sample, through any wrap-arounds and
-- restarts.
pub counter_deltas-le :
    (window : ℕ) (s : CounterSample) (run : List Batch)
    → window < uint32_range
    → InRange s
    → IsRun window s run
    → InOrder s run
    → (sum_of (λ d. d.good) (counter_deltas (s ∷ samples_after s run) window)
        ≤ sum_of (λ b. b.good) run)
      × (sum_of (λ d. d.scrap) (counter_deltas (s ∷ samples_after s run) window)
          ≤ sum_of (λ b. b.scrap) run)
unfolding counter_deltas deltas_of
counter_deltas-le window s run w r h o =
    let after = deltas_after-le window s run w r h in
    rw (sort_by-IsAscending by_ts (s ∷ samples_after s run) o)
      (omega (arith, after.0), omega (arith, after.1))

-- If the counters start below 2 ^ 32, the samples of a run are in timestamp order, at most
-- `rollover_window` parts of each kind, itself below 2 ^ 32, are made between two of them, and nothing
-- restarts, then `counter_deltas` counts exactly the good parts and the scrap made after the first sample,
-- through any number of wrap-arounds.
pub counter_deltas_exact :
    (window : ℕ) (s : CounterSample) (run : List Batch)
    → window < uint32_range
    → InRange s
    → IsRun window s run
    → InOrder s run
    → All HasNoRestart run
    → (sum_of (λ d. d.good) (counter_deltas (s ∷ samples_after s run) window)
        ≡ sum_of (λ b. b.good) run)
      × (sum_of (λ d. d.scrap) (counter_deltas (s ∷ samples_after s run) window)
          ≡ sum_of (λ b. b.scrap) run)
unfolding counter_deltas deltas_of
counter_deltas_exact window s run w r h o n =
    let after = deltas_after_exact window s run w r h n in
    rw (sort_by-IsAscending by_ts (s ∷ samples_after s run) o)
      (omega (arith, after.0), omega (arith, after.1))
