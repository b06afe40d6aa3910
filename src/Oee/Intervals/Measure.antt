-- ===== src/Oee/Intervals/Measure.antt =====
-- The total of a merged list is the number of points that it covers, so identities between totals
-- are Boolean identities at each point.
use cell_oee_demo.Prelude.{
  ℕ, zero, suc, ◌+◌, ◌-◌, ◌≤◌, ◌<◌, ◌≡◌, refl, Bool, false, ◌&&◌, ◌||◌, List, [], ◌∷◌, arith,
  if◌then◌else◌, ℤ, map, min,
}
use cell_oee_demo.Oee.Intervals.{Interval, total, clip, clip_one}
use cell_oee_demo.Oee.Intervals.Points.{
  inside, covers, IsMerged, covers_below, EndsBy, merge-IsMerged, covers-merge,
}

-- How many points below `n` pass the test.
unfoldable pub measure : ℕ → (ℕ → Bool) → ℕ
measure zero p = 0
measure (suc n) p = (if p n then 1 else 0) + measure n p

-- Tests that agree below `n` have one measure.
pub measure_congr :
    (n : ℕ) (p q : ℕ → Bool) → ((t : ℕ) → t < n → p t ≡ q t) → measure n p ≡ measure n q
unfolding measure
measure_congr zero p q h = refl
measure_congr (suc n) p q h =
    ground (arith, h n (omega arith), measure_congr n p q (λ t lt. h t (omega arith)))

-- A split of one test into two that exclude each other.
pub measure_split :
    (n : ℕ) (p q r : ℕ → Bool)
    → ((t : ℕ) → p t ≡ (q t || r t))
    → ((t : ℕ) → (q t && r t) ≡ false)
    → measure n p ≡ measure n q + measure n r
unfolding measure
measure_split zero p q r h d = omega arith
measure_split (suc n) p q r h d = ground (arith, h n, d n, measure_split n p q r h d)

pub measure-le : (n : ℕ) (p : ℕ → Bool) → measure n p ≤ n
unfolding measure
measure-le zero p = omega arith
measure-le (suc n) p = ground (arith, measure-le n p)

measure-none : (n : ℕ) → measure n (λ _. false) ≡ 0
unfolding measure
measure-none zero = refl
measure-none (suc n) = omega (arith, measure-none n)

measure-inside_from : (n lo hi : ℕ) → measure n (inside (lo, hi)) ≡ min n hi - lo
unfolding measure
measure-inside_from zero lo hi = omega arith
measure-inside_from (suc n) lo hi = ground (arith, measure-inside_from n lo hi)

-- The total length of a merged list within [lo, n] is the number of points below `n` that it covers.
pub total-eq-measure :
    (n lo : ℕ) (l : List Interval) → IsMerged lo n l → total l ≡ measure n (covers l)
unfolding total
total-eq-measure n lo [] m = rw measure-none
total-eq-measure n lo ((a, b) ∷ l) m = omega (
  arith,
  total-eq-measure n (suc b) l m.3,
  measure-inside_from n a b,
  measure_split n (covers ((a, b) ∷ l)) (inside (a, b)) (covers l) (λ t. refl)
      (λ t. ground (arith, covers_below (suc b) n t l m.3)),
)

pub measure-all : (n : ℕ) → measure n (inside (0, n)) ≡ n
measure-all n = omega (arith, measure-inside_from n 0 n)

-- Clipping to [lo, hi).

clip_one-EndsBy : (lo hi : ℕ) (l : List (ℤ × ℤ)) → EndsBy hi (map (clip_one lo hi) l)
clip_one-EndsBy lo hi [] = tt
clip_one-EndsBy lo hi (x ∷ l) = (omega arith, clip_one-EndsBy lo hi l)

pub clip-IsMerged : (lo hi : ℕ) (l : List (ℤ × ℤ)) → IsMerged 0 hi (clip l lo hi)
unfolding clip
clip-IsMerged lo hi l = merge-IsMerged hi (map (clip_one lo hi) l) (clip_one-EndsBy lo hi l)

pub covers-clip :
    (lo hi : ℕ) (l : List (ℤ × ℤ)) (t : ℕ)
    → covers (clip l lo hi) t ≡ covers (map (clip_one lo hi) l) t
unfolding clip
covers-clip lo hi l t = covers-merge hi (map (clip_one lo hi) l) t (clip_one-EndsBy lo hi l)
