-- ===== src/Oee/Intervals.antt =====
-- Interval arithmetic (backend/app/oee/intervals.py).
pub mod Points
pub mod Algebra
pub mod Measure
use cell_oee_demo.Prelude.{
  ℕ, ◌+◌, ◌-◌, min, max, Bool, ltb, leb, ◌||◌, ◌&&◌, ◌==◌, List, [], ◌∷◌, ◌++◌, map, filter,
  sort_by, if◌then◌else◌, ℤ, pos_part, true, false,
}

-- Offsets are whole microseconds.
abbrev pub Interval : Type 0
Interval = ℕ × ℕ

-- Python's order of pairs.
abbrev pub le_interval : Interval → Interval → Bool
le_interval (a, b) (c, d) = ltb a c || (a == c && leb b d)

abbrev pub is_proper : Interval → Bool
is_proper (lo, hi) = ltb lo hi

-- `last` is `out[-1]`; what stands before it is final.
unfoldable pub merge_from : Interval → List Interval → List Interval
merge_from last [] = last ∷ []
merge_from last ((lo, hi) ∷ rest) = elim (leb lo last.1) [
  | true ↦ merge_from (last.0, if ltb last.1 hi then hi else last.1) rest
  | false ↦ last ∷ merge_from (lo, hi) rest
]

unfoldable pub merge_sorted : List Interval → List Interval
unfolding merge_from
merge_sorted [] = []
merge_sorted (first ∷ rest) = merge_from first rest

unfoldable pub merge : List Interval → List Interval
merge intervals = merge_sorted (sort_by le_interval (filter is_proper intervals))

abbrev pub clip_one : ℕ → ℕ → ℤ × ℤ → Interval
clip_one lo hi (a, b) = (max (pos_part a) lo, min (pos_part b) hi)

unfoldable pub clip : List (ℤ × ℤ) → ℕ → ℕ → List Interval
clip intervals lo hi = merge (map (clip_one lo hi) intervals)

unfoldable pub total : List Interval → ℕ
total [] = 0
total ((lo, hi) ∷ rest) = hi - lo + total rest

-- `if hi > lo: out.append((lo, hi))`
unfoldable pub push : ℕ → ℕ → List Interval → List Interval
push lo hi out = if ltb lo hi then (lo, hi) ∷ out else out

-- The loop, from a cursor.
unfoldable pub complement : List Interval → ℕ → ℕ → List Interval
complement [] cursor hi = push cursor hi []
complement ((a, b) ∷ rest) cursor hi = push cursor a (complement rest (max cursor b) hi)

-- The two indices are the suffixes that are left.
unfoldable pub intersect : List Interval → List Interval → List Interval
intersect [] b = []
intersect (x ∷ a) [] = []
intersect ((a_lo, a_hi) ∷ a) ((b_lo, b_hi) ∷ b) =
    let advance_a = intersect a ((b_lo, b_hi) ∷ b) in
    let advance_b = intersect ((a_lo, a_hi) ∷ a) b in
    let rest = if ltb a_hi b_hi then advance_a else advance_b in
    push (max a_lo b_lo) (min a_hi b_hi) rest

-- The inner loop of `subtract` over one interval, from a cursor.
unfoldable pub subtract_from : ℕ → ℕ → List Interval → List Interval
subtract_from cursor hi [] = push cursor hi []
subtract_from cursor hi ((h_lo, h_hi) ∷ holes) =
    let skipped = subtract_from cursor hi holes in
    let cut = subtract_from (max cursor h_hi) hi holes in
    if leb h_hi cursor || leb hi h_lo then skipped else push cursor h_lo cut

unfoldable pub subtract : List Interval → List Interval → List Interval
subtract [] holes = []
subtract ((lo, hi) ∷ a) holes = subtract_from lo hi holes ++ subtract a holes
