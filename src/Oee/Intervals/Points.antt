-- ===== src/Oee/Intervals/Points.antt =====
-- What a list of intervals covers, point by point, under each operation of `intervals.py`.
use cell_oee_demo.Prelude.{
  All, ℕ, suc, ◌≤◌, ◌<◌, ◌≡◌, refl, ◌∙◌, ap, Bool, false, ◌&&◌, ◌||◌, List, [], ◌∷◌, ◌++◌, filter,
  sort_by, insert_by, arith, ltb, leb, Bool-cases, inl, inr,
}
use cell_oee_demo.Oee.Intervals.{Interval, le_interval, is_proper, merge_from, merge_sorted, merge}

-- The point lies in [lo, hi).
abbrev pub inside : Interval → ℕ → Bool
inside (lo, hi) t = leb lo t && ltb t hi

abbrev pub covers : List Interval → ℕ → Bool
covers [] t = false
covers (x ∷ l) t = inside x t || covers l t

-- Proper intervals in order of their starts, within [lo, hi].
abbrev pub StartsFrom : ℕ → ℕ → List Interval → Type 0
StartsFrom lo hi [] = Unit
StartsFrom lo hi ((a, b) ∷ l) = (lo ≤ a) × (a < b) × (b ≤ hi) × StartsFrom a hi l

abbrev pub EndsBy : ℕ → List Interval → Type 0
EndsBy hi = All (λ x. x.1 ≤ hi)

-- Sorted, disjoint, not even touching, none empty, all within [lo, hi].
abbrev pub IsMerged : ℕ → ℕ → List Interval → Type 0
IsMerged lo hi [] = Unit
IsMerged lo hi ((a, b) ∷ l) = (lo ≤ a) × (a < b) × (b ≤ hi) × IsMerged (suc b) hi l

pub IsMerged-le :
    (lo lo' hi : ℕ) (l : List Interval) → lo' ≤ lo → IsMerged lo hi l → IsMerged lo' hi l
IsMerged-le lo lo' hi [] h m = tt
IsMerged-le lo lo' hi (x ∷ l) h m = (omega arith, m.1, m.2, m.3)

StartsFrom-le :
    (lo lo' hi : ℕ) (l : List Interval) → StartsFrom lo hi l → lo' ≤ lo → StartsFrom lo' hi l
StartsFrom-le lo lo' hi [] s h = tt
StartsFrom-le lo lo' hi (x ∷ l) s h = (omega arith, s.1, s.2, s.3)

-- Nothing is covered outside the bounds.
pub covers_below :
    (lo hi t : ℕ) (l : List Interval) → IsMerged lo hi l → t < lo → covers l t ≡ false
covers_below lo hi t [] m h = refl
covers_below lo hi t ((a, b) ∷ l) m h = ground (arith, covers_below (suc b) hi t l m.3)

pub covers_above :
    (lo hi t : ℕ) (l : List Interval) → IsMerged lo hi l → hi ≤ t → covers l t ≡ false
covers_above lo hi t [] m h = refl
covers_above lo hi t ((a, b) ∷ l) m h = ground (arith, covers_above (suc b) hi t l m.3)

pub covers-append : (l r : List Interval) (t : ℕ) → covers (l ++ r) t ≡ (covers l t || covers r t)
covers-append [] r t = refl
covers-append (x ∷ l) r t = ground (arith, covers-append l r t)

-- Sorting and dropping empty intervals.

covers-insert_by :
    (x : Interval) (l : List Interval) (t : ℕ)
    → covers (insert_by le_interval x l) t ≡ (inside x t || covers l t)
unfolding insert_by
covers-insert_by x [] t = refl
covers-insert_by x (y ∷ l) t = elim (Bool-cases (le_interval x y)) [
  | inl e ↦ ground (arith, e)
  | inr e ↦ ground (arith, e, covers-insert_by x l t)
]

covers-sort_by : (l : List Interval) (t : ℕ) → covers (sort_by le_interval l) t ≡ covers l t
unfolding sort_by
covers-sort_by [] t = refl
covers-sort_by (x ∷ l) t =
    covers-insert_by x (sort_by le_interval l) t ∙ ap (◌||◌ (inside x t)) (covers-sort_by l t)

covers-filter : (l : List Interval) (t : ℕ) → covers (filter is_proper l) t ≡ covers l t
covers-filter [] t = refl
covers-filter ((a, b) ∷ l) t = ground (arith, covers-filter l t)

insert_by-StartsFrom :
    (lo hi a b : ℕ) (l : List Interval)
    → lo ≤ a
    → a < b
    → b ≤ hi
    → StartsFrom lo hi l
    → StartsFrom lo hi (insert_by le_interval (a, b) l)
unfolding insert_by
insert_by-StartsFrom lo hi a b [] p q r s = (p, q, r, tt)
insert_by-StartsFrom lo hi a b ((c, d) ∷ l) p q r s =
    ground (arith, insert_by-StartsFrom c hi a b l)

sort_by-StartsFrom :
    (hi : ℕ) (l : List Interval)
    → EndsBy hi l
    → StartsFrom 0 hi (sort_by le_interval (filter is_proper l))
unfolding sort_by
sort_by-StartsFrom hi [] e = tt
sort_by-StartsFrom hi ((a, b) ∷ l) e = ground (
  arith,
  sort_by-StartsFrom hi l e.1,
  insert_by-StartsFrom 0 hi a b (sort_by le_interval (filter is_proper l)),
)

-- merge

merge_from-IsMerged :
    (lo hi a b : ℕ) (l : List Interval)
    → lo ≤ a
    → a < b
    → b ≤ hi
    → StartsFrom a hi l
    → IsMerged lo hi (merge_from (a, b) l)
unfolding merge_from
merge_from-IsMerged lo hi a b [] p q r s = (p, q, r, tt)
merge_from-IsMerged lo hi a b ((c, d) ∷ l) p q r s = ground (
  arith,
  merge_from-IsMerged lo hi a d l,
  merge_from-IsMerged lo hi a b l,
  merge_from-IsMerged (suc b) hi c d l,
  StartsFrom-le c a hi l s.3 s.0,
)

covers-merge_from :
    (hi a b : ℕ) (l : List Interval) (t : ℕ)
    → a < b
    → StartsFrom a hi l
    → covers (merge_from (a, b) l) t ≡ (inside (a, b) t || covers l t)
unfolding merge_from
covers-merge_from hi a b [] t q s = refl
covers-merge_from hi a b ((c, d) ∷ l) t q s = ground (
  arith,
  covers-merge_from hi a d l t,
  covers-merge_from hi a b l t,
  covers-merge_from hi c d l t,
  StartsFrom-le c a hi l s.3 s.0,
)

merge_sorted-IsMerged :
    (hi : ℕ) (l : List Interval) → StartsFrom 0 hi l → IsMerged 0 hi (merge_sorted l)
unfolding merge_sorted
merge_sorted-IsMerged hi [] s = tt
merge_sorted-IsMerged hi ((a, b) ∷ l) s = merge_from-IsMerged 0 hi a b l s.0 s.1 s.2 s.3

covers-merge_sorted :
    (hi : ℕ) (l : List Interval) (t : ℕ)
    → StartsFrom 0 hi l
    → covers (merge_sorted l) t ≡ covers l t
unfolding merge_sorted
covers-merge_sorted hi [] t s = refl
covers-merge_sorted hi ((a, b) ∷ l) t s = covers-merge_from hi a b l t s.1 s.3

-- For intervals that end by `hi`, in any order, overlapping or empty, `merge` returns proper intervals
-- within [0, hi], sorted, disjoint and not even touching.
pub merge-IsMerged : (hi : ℕ) (l : List Interval) → EndsBy hi l → IsMerged 0 hi (merge l)
unfolding merge
merge-IsMerged hi l e =
    merge_sorted-IsMerged hi (sort_by le_interval (filter is_proper l)) (sort_by-StartsFrom hi l e)

-- For intervals that end by `hi`, `merge` covers exactly the points that its input covers.
pub covers-merge :
    (hi : ℕ) (l : List Interval) (t : ℕ) → EndsBy hi l → covers (merge l) t ≡ covers l t
unfolding merge
covers-merge hi l t e =
    covers-merge_sorted hi (sort_by le_interval (filter is_proper l)) t (sort_by-StartsFrom hi l e)
    ∙ covers-sort_by (filter is_proper l) t
    ∙ covers-filter l t
