-- ===== src/Simulator/Shifts/Earliest.antt =====
-- The planned break that is found is the earliest one that is not over.
use cell_oee_demo.Prelude.{
  ℕ, ◌+◌, ◌-◌, ◌*◌, ◌/◌, ◌≤◌, ◌<◌, ◌≡◌, sym, true, some, List, [], ◌∷◌, ◌++◌, arith, leb, ltb, ◌⊎◌,
  inl, inr, map, sort_by, insert_by, All, IsAscending, LeHead, Bool-cases,
}
use mathlib.Core.Path.{subst}
use cell_oee_demo.Simulator.Config.{ShiftCfg, PlannedBreakCfg, start_s, contiguous_shifts}
use cell_oee_demo.Simulator.Shifts.{day, second, BreakWindow, window_at, starts, next_window}
use cell_oee_demo.Simulator.Shifts.NextBreak.{HaveEnded, IsFirst, next_window-IsFirst}

module _ (P : ℕ → Type 0) where
  All-insert_by : (x : ℕ) (l : List ℕ) → P x → All P l → All P (insert_by leb x l)
  unfolding insert_by
  All-insert_by x [] h k = (h, tt)
  All-insert_by x (y ∷ l) h k = elim (Bool-cases (leb x y)) [
    | inl e ↦ rw e (h, k)
    | inr e ↦ rw e (k.0, All-insert_by x l h k.1)
  ]

  All-sort_by : (l : List ℕ) → All P l → All P (sort_by leb l)
  unfolding sort_by
  All-sort_by [] h = tt
  All-sort_by (x ∷ l) h = All-insert_by x (sort_by leb l) h.0 (All-sort_by l h.1)

  All-of_insert_by : (x : ℕ) (l : List ℕ) → All P (insert_by leb x l) → P x × All P l
  unfolding insert_by
  All-of_insert_by x [] h = (h.0, tt)
  All-of_insert_by x (y ∷ l) h = elim (Bool-cases (leb x y)) [
    | inl e ↦ let k = rw e at h in (k.0, k.1)
    | inr e ↦
        let k = rw e at h in let (here, rest) = All-of_insert_by x l k.1 in (here, (k.0, rest))
  ]

  All-of_sort_by : (l : List ℕ) → All P (sort_by leb l) → All P l
  unfolding sort_by
  All-of_sort_by [] h = tt
  All-of_sort_by (x ∷ l) h =
      let (here, rest) = All-of_insert_by x (sort_by leb l) h in (here, All-of_sort_by l rest)

  All-of_starts :
      (shifts : List ShiftCfg)
      → All P (map (λ s. start_s s * second) shifts)
      → All (λ (s : ShiftCfg). P (start_s s * second)) shifts
  All-of_starts [] h = tt
  All-of_starts (s ∷ shifts) h = (h.0, All-of_starts shifts h.1)

  All-starts :
      (shifts : List ShiftCfg)
      → All (λ (s : ShiftCfg). P (start_s s * second)) shifts
      → All P (map (λ s. start_s s * second) shifts)
  All-starts [] h = tt
  All-starts (s ∷ shifts) h = (h.0, All-starts shifts h.1)

  All-append : (xs ys : List ℕ) → All P xs → All P ys → All P (xs ++ ys)
  All-append [] ys h k = k
  All-append (x ∷ xs) ys h k = (h.0, All-append xs ys h.1 k)

  All-right : (xs ys : List ℕ) → All P (xs ++ ys) → All P ys
  All-right [] ys h = h
  All-right (x ∷ xs) ys h = All-right xs ys h.1

All-map : (P Q : ℕ → Type 0) (l : List ℕ) → ((x : ℕ) → P x → Q x) → All P l → All Q l
All-map P Q [] f h = tt
All-map P Q (x ∷ l) f h = (f x h.0, All-map P Q l f h.1)

insert_by-LeHead_from :
    (y x : ℕ) (l : List ℕ) → leb y x ≡ true → LeHead leb y l → LeHead leb y (insert_by leb x l)
unfolding insert_by
insert_by-LeHead_from y x [] e h = e
insert_by-LeHead_from y x (z ∷ l) e h = elim (Bool-cases (leb x z)) [
  | inl d ↦ rw d e
  | inr d ↦ rw d h
]

insert_by-IsAscending :
    (x : ℕ) (l : List ℕ) → IsAscending leb l → IsAscending leb (insert_by leb x l)
unfolding insert_by
insert_by-IsAscending x [] h = (tt, tt)
insert_by-IsAscending x (y ∷ l) h = elim (Bool-cases (leb x y)) [
  | inl e ↦ rw e (e, h)
  | inr e ↦
      rw e (insert_by-LeHead_from y x l (ground (arith, e)) h.0, insert_by-IsAscending x l h.1)
]

sort_by-Ascending : (l : List ℕ) → IsAscending leb (sort_by leb l)
unfolding sort_by
sort_by-Ascending [] = tt
sort_by-Ascending (x ∷ l) = insert_by-IsAscending x (sort_by leb l) (sort_by-Ascending l)

-- What follows in an ascending list is not less.
after-le : (x y : ℕ) (l : List ℕ) → x ≤ y → IsAscending leb (y ∷ l) → All (λ z. x ≤ z) l
after-le x y [] le h = tt
after-le x y (z ∷ l) le h =
    let next : x ≤ z = ground (arith, le, h.0) in (next, after-le x z l next h.1)

IsAscending-right : (xs ys : List ℕ) → IsAscending leb (xs ++ ys) → IsAscending leb ys
IsAscending-right [] ys h = h
IsAscending-right (x ∷ xs) ys h = IsAscending-right xs ys h.1

-- The break of a day after a start is over, or it does not begin before the instant.
abbrev pub IsNotEarlier : PlannedBreakCfg → ℕ → ℕ → ℕ → ℕ → Type 0
IsNotEarlier planned after t n s =
    ((window_at planned n s).end ≤ after) ⊎ (t ≤ (window_at planned n s).start)

-- It does not matter in which order the shifts are: of the breaks of all days and all shifts, each that is
-- not over begins at the window or after it.
abbrev pub IsEarliest : PlannedBreakCfg → List ShiftCfg → ℕ → BreakWindow → Type 0
IsEarliest planned shifts after window =
    (n : ℕ)
    → All (λ (s : ShiftCfg). IsNotEarlier planned after window.start n (start_s s * second)) shifts

module _ (planned : PlannedBreakCfg) (after : ℕ) where
  ended-IsNotEarlier :
      (t n : ℕ) (l : List ℕ) → HaveEnded planned n l after → All (IsNotEarlier planned after t n) l
  ended-IsNotEarlier t n [] h = tt
  ended-IsNotEarlier t n (s ∷ l) h = (inl h.0, ended-IsNotEarlier t n l h.1)

  same_day-IsNotEarlier :
      (n : ℕ) (earlier : List ℕ) (begin : ℕ) (later : List ℕ)
      → HaveEnded planned n earlier after
      → IsAscending leb (earlier ++ begin ∷ later)
      → All
          (IsNotEarlier planned after (n * day + begin + planned.offset) n)
          (earlier ++ begin ∷ later)
  same_day-IsNotEarlier n earlier begin later over up =
      let t = n * day + begin + planned.offset in
      let rest = IsAscending-right earlier (begin ∷ later) up in
      let self : begin ≤ begin = omega arith in
      let from_here : t ≤ t = omega arith in
      All-append (IsNotEarlier planned after t n) earlier (begin ∷ later)
        (ended-IsNotEarlier t n earlier over)
        (
          inr from_here,
          All-map (λ z. begin ≤ z) (IsNotEarlier planned after t n) later
              (λ z le. let d : t ≤ (window_at planned n z).start = omega (arith, le) in inr d)
              (after-le begin begin later self rest),
        )

  later_day-IsNotEarlier :
      (d begin n : ℕ) (l : List ℕ)
      → begin < day
      → d < n
      → All (IsNotEarlier planned after (d * day + begin + planned.offset) n) l
  later_day-IsNotEarlier d begin n [] lt h = tt
  later_day-IsNotEarlier d begin n (s ∷ l) lt h =
      let le : d * day + begin + planned.offset ≤ (window_at planned n s).start =
        omega (arith, lt, h) in
      (inr le, later_day-IsNotEarlier d begin n l lt h)

  -- Days that are two whole days back are over.
  early_day-IsNotEarlier :
      (t n : ℕ) (l : List ℕ)
      → planned.offset + planned.duration ≤ 2 * day
      → All (λ s. s < day) l
      → n < after / day - 2
      → All (IsNotEarlier planned after t n) l
  early_day-IsNotEarlier t n [] short small h = tt
  early_day-IsNotEarlier t n (s ∷ l) short small h =
      let lt = small.0 in
      let over : (window_at planned n s).end ≤ after = omega (arith, short, lt, h) in
      (inl over, early_day-IsNotEarlier t n l short small.1 h)

  IsFirst-IsNotEarlier :
      (begins : List ℕ) (window : BreakWindow)
      → planned.offset + planned.duration ≤ 2 * day
      → All (λ s. s < day) begins
      → IsAscending leb begins
      → IsFirst planned (after / day - 2) begins after window
      → (n : ℕ) → All (IsNotEarlier planned after window.start n) begins
  IsFirst-IsNotEarlier begins window short small up first n =
      let d = first.day_no in
      let t = d * day + first.begin + planned.offset in
      let lt =
        (All-right (λ s. s < day) first.earlier (first.begin ∷ first.later)
          (subst (λ l. All (λ s. s < day) l) first.split small)).0 in
      let found : All (IsNotEarlier planned after t n) begins =
        elim (Bool-cases (ltb n (after / day - 2))) [
          | inl e ↦ early_day-IsNotEarlier t n begins short small (ground (arith, e))
          | inr e ↦ elim (Bool-cases (ltb n d)) [
            | inl k ↦
                ended-IsNotEarlier t n begins
                  (first.days_over n (ground (arith, e)) (ground (arith, k)))
            | inr k ↦ elim (Bool-cases (ltb d n)) [
              | inl m ↦ later_day-IsNotEarlier d first.begin n begins lt (ground (arith, m))
              | inr m ↦
                  let same : d ≡ n = ground (arith, k, m) in
                  subst (λ x. All (IsNotEarlier planned after t x) begins) same
                    (subst (λ l. All (IsNotEarlier planned after t d) l) (sym first.split)
                      (same_day-IsNotEarlier d first.earlier first.begin first.later first.day_over
                        (subst (λ l. IsAscending leb l) first.split up)))
            ]
          ]
        ] in
      subst (λ (x : BreakWindow). All (IsNotEarlier planned after x.start n) begins)
        (sym first.same) found

-- For shifts that the configuration lets pass, with start times within the day, and breaks that end
-- within two days of their shift's start: the loop of `next_window` ends, and finds the break of some
-- day and shift that is not over at `after`; of the breaks of all days and shifts, in whatever order
-- the shifts are listed, none that is not over begins before it.
pub next_window-IsEarliest :
    (shifts : List ShiftCfg) (planned : PlannedBreakCfg) (after : ℕ)
    → contiguous_shifts shifts ≡ true
    → All (λ (s : ShiftCfg). start_s s * second < day) shifts
    → planned.offset + planned.duration ≤ 2 * day
    → (window : BreakWindow) × (next_window shifts planned after ≡ some window)
      × IsFirst planned (after / day - 2) (starts shifts) after window
      × IsEarliest planned shifts after window
unfolding starts
next_window-IsEarliest shifts planned after h small short =
    let (window, found, first) = next_window-IsFirst shifts planned after h in
    let begins = map (λ s. start_s s * second) shifts in
    let earliest =
      IsFirst-IsNotEarlier planned after (starts shifts) window short
        (All-sort_by (λ s. s < day) begins (All-starts (λ s. s < day) shifts small))
        (sort_by-Ascending begins) first in
    (
      window,
      found,
      first,
      λ n.
          All-of_starts (IsNotEarlier planned after window.start n) shifts
            (All-of_sort_by (IsNotEarlier planned after window.start n) begins (earliest n)),
    )
