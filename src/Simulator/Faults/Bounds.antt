-- ===== src/Simulator/Faults/Bounds.antt =====
-- A duration lies in its configured range.
use cell_oee_demo.Prelude.{ℕ, suc, zero, ◌≡◌, true, false, Bool-cases, inl, inr}
use cell_oee_demo.Simulator.World.{World}
use cell_oee_demo.Simulator.Config.{Range}
use cell_oee_demo.Simulator.Faults.{tries, bounded_lognormal}

-- What `min` and `max` rely on: for floats that are numbers.
pub record IsOrder (w : World) : Type 0 where
  pub le_refl : (x : w.F) → w.le x x ≡ true
  pub not_lt : (x y : w.F) → w.lt x y ≡ false → w.le y x ≡ true
  pub lt_le : (x y : w.F) → w.lt x y ≡ true → w.le x y ≡ true

-- The lower and the upper bound, in seconds.
abbrev pub low : (w : World) → Range w → w.F
low w (lo, hi) = w.mul lo (w.real 60)

abbrev pub high : (w : World) → Range w → w.F
high w (lo, hi) = w.mul hi (w.real 60)

abbrev pub IsBetween : (w : World) → w.F → w.F → w.F → Type 0
IsBetween w lo hi x = (w.le lo x ≡ true) × (w.le x hi ≡ true)

module _ (w : World) (order : IsOrder w) where
  tries-IsBetween :
      (n : ℕ) (mu sigma lo hi : w.F) (rng : w.R)
      → w.le lo hi ≡ true
      → IsBetween w lo hi (tries w n mu sigma lo hi rng).0
  unfolding tries
  tries-IsBetween zero mu sigma lo hi rng h = elim (Bool-cases (w.lt (w.exp mu) lo)) [
    | inl e ↦ elim (Bool-cases (w.lt hi lo)) [
      | inl k ↦ rw e (rw k (h, order.le_refl hi))
      | inr k ↦ rw e (rw k (order.le_refl lo, h))
    ]
    | inr e ↦ elim (Bool-cases (w.lt hi (w.exp mu))) [
      | inl k ↦ rw e (rw k (h, order.le_refl hi))
      | inr k ↦ rw e (rw k (order.not_lt (w.exp mu) lo e, order.not_lt hi (w.exp mu) k))
    ]
  ]
  tries-IsBetween (suc n) mu sigma lo hi rng h =
      let x = (w.lognormvariate mu sigma rng).0 in
      elim (Bool-cases (w.le lo x)) [
        | inl e ↦ elim (Bool-cases (w.le x hi)) [
          | inl k ↦ rw (e, k) (e, k)
          | inr k ↦ rw (e, k) (tries-IsBetween n mu sigma lo hi _ h)
        ]
        | inr e ↦ rw e (tries-IsBetween n mu sigma lo hi _ h)
      ]

  -- bounded_lognormal ends and returns a duration between the two bounds of the range, in seconds, whatever
  -- is drawn, if the comparisons of floats are an order and the first bound is not above the second.
  pub bounded_lognormal-IsBetween :
      (range : Range w) (rng : w.R)
      → w.le (low w range) (high w range) ≡ true
      → IsBetween w (low w range) (high w range) (bounded_lognormal w range rng).0
  unfolding bounded_lognormal
  bounded_lognormal-IsBetween (lo, hi) rng h =
      tries-IsBetween 50 _ _ (low w (lo, hi)) (high w (lo, hi)) rng h
