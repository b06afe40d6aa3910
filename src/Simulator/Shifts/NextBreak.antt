-- ===== src/Simulator/Shifts/NextBreak.antt =====
-- The search for the next planned break ends.
use cell_oee_demo.Prelude.{
  ℕ, suc, zero, ◌+◌, ◌-◌, ◌*◌, ◌/◌, ◌≤◌, ◌<◌, ◌≡◌, refl, ap, ◌++◌, ◌==◌, true, Option, none, some,
  List, [], ◌∷◌, arith, ltb, Bool-cases, Option-cases, inl, inr, map, sort_by, insert_by, leb,
}
use mathlib.Core.Path.{subst}
use cell_oee_demo.Simulator.Config.{ShiftCfg, PlannedBreakCfg, start_s, contiguous_shifts}
use cell_oee_demo.Simulator.Shifts.{
  day, second, BreakWindow, window_at, first_window, search_windows, starts, next_window,
}

-- The breaks of day `n` after these starts are over.
abbrev pub HaveEnded : PlannedBreakCfg → ℕ → List ℕ → ℕ → Type 0
HaveEnded planned n [] after = Unit
HaveEnded planned n (s ∷ more) after =
    ((window_at planned n s).end ≤ after) × HaveEnded planned n more after

-- The window is the break of a day after one of the starts, it is not over, and all breaks before it, from
-- day `from` on, are.
pub record IsFirst (planned : PlannedBreakCfg) (from : ℕ) (begins : List ℕ) (after : ℕ)
    (window : BreakWindow) : Type 0 where
  pub day_no : ℕ
  pub earlier : List ℕ
  pub begin : ℕ
  pub later : List ℕ
  pub split : begins ≡ earlier ++ begin ∷ later
  pub same : window ≡ window_at planned day_no begin
  pub not_over : after < window.end
  pub days_over : (n : ℕ) → from ≤ n → n < day_no → HaveEnded planned n begins after
  pub day_over : HaveEnded planned day_no earlier after

-- What `first_window` finds on day `n`.
abbrev Found : PlannedBreakCfg → ℕ → List ℕ → ℕ → Option BreakWindow → Type 0
Found planned n begins after none = HaveEnded planned n begins after
Found planned n begins after (some window) =
    (earlier : List ℕ) × (begin : ℕ) × (later : List ℕ) × (begins ≡ earlier ++ begin ∷ later)
    × (window ≡ window_at planned n begin)
    × (after < window.end)
    × HaveEnded planned n earlier after

Found-more :
    (planned : PlannedBreakCfg) (n s : ℕ) (more : List ℕ) (after : ℕ)
    → (window_at planned n s).end ≤ after
    → (found : Option BreakWindow) → Found planned n more after found
    → Found planned n (s ∷ more) after found
Found-more planned n s more after over none h = (over, h)
Found-more planned n s more after over (some window)
      (earlier, begin, later, split, same, ahead, h) =
    (s ∷ earlier, begin, later, ap (λ l. s ∷ l) split, same, ahead, (over, h))

first_window-Found :
    (planned : PlannedBreakCfg) (n : ℕ) (begins : List ℕ) (after : ℕ)
    → Found planned n begins after (first_window planned n begins after)
unfolding first_window
first_window-Found planned n [] after = tt
first_window-Found planned n (s ∷ more) after =
    elim (Bool-cases (ltb after (window_at planned n s).end)) [
      | inl e ↦
          let ahead : after < (window_at planned n s).end = ground arith in
          rw e ([], s, more, refl, refl, ahead, tt)
      | inr e ↦ rw e (
          let over : (window_at planned n s).end ≤ after = ground arith in
          Found-more planned n s more after over (first_window planned n more after)
            (first_window-Found planned n more after))
    ]

-- A day that begins after `after` has a break that is not over.
Found-late :
    (planned : PlannedBreakCfg) (n s : ℕ) (more : List ℕ) (after : ℕ)
    → after < n * day
    → ¬ HaveEnded planned n (s ∷ more) after
Found-late planned n s more after late h = let over = h.0 in omega arith

-- The case of a window that is found on day `n`.
Found-IsFirst :
    (planned : PlannedBreakCfg) (begins : List ℕ) (from n after : ℕ) (window : BreakWindow)
    → ((m : ℕ) → from ≤ m → m < n → HaveEnded planned m begins after)
    → Found planned n begins after (some window)
    → IsFirst planned from begins after window
Found-IsFirst planned begins from n after window over
      (earlier, begin, later, split, same, ahead, h) =
    record {
      day_no = n;
      earlier = earlier;
      begin = begin;
      later = later;
      split = split;
      same = same;
      not_over = ahead;
      days_over = over;
      day_over = h;
    }

-- The days until `n` are over, if those before `n` and `n` itself are.
over-suc :
    (planned : PlannedBreakCfg) (begins : List ℕ) (from n after : ℕ)
    → ((m : ℕ) → from ≤ m → m < n → HaveEnded planned m begins after)
    → HaveEnded planned n begins after
    → (m : ℕ) → from ≤ m
    → m < suc n
    → HaveEnded planned m begins after
over-suc planned begins from n after over h m le lt = elim (Bool-cases (m == n)) [
  | inl e ↦ let same : n ≡ m = ground arith in subst (λ k. HaveEnded planned k begins after) same h
  | inr e ↦ let before : m < n = ground arith in over m le before
]

-- `after` lies before the last day that the fuel reaches.
search_windows-IsFirst :
    (fuel : ℕ) (planned : PlannedBreakCfg) (s : ℕ) (more : List ℕ) (from n after : ℕ)
    → from ≤ n
    → after < (n + fuel) * day
    → ((m : ℕ) → from ≤ m → m < n → HaveEnded planned m (s ∷ more) after)
    → (window : BreakWindow) × (search_windows (suc fuel) planned (s ∷ more) n after ≡ some window)
      × IsFirst planned from (s ∷ more) after window
unfolding search_windows
search_windows-IsFirst zero planned s more from n after le late over =
    let found = first_window-Found planned n (s ∷ more) after in
    elim (Option-cases (first_window planned n (s ∷ more) after)) [
      | inr (window, e) ↦
          let h = rw e at found in
          (
            window,
            rw (e, search_windows) refl,
            Found-IsFirst planned (s ∷ more) from n after window over h,
          )
      | inl e ↦
          let h = rw e at found in
          let day_late : after < n * day = omega (arith, late) in
          absurd (Found-late planned n s more after day_late h)
    ]
search_windows-IsFirst (suc fuel) planned s more from n after le late over =
    let found = first_window-Found planned n (s ∷ more) after in
    elim (Option-cases (first_window planned n (s ∷ more) after)) [
      | inr (window, e) ↦
          let h = rw e at found in
          (
            window,
            rw (e, search_windows) refl,
            Found-IsFirst planned (s ∷ more) from n after window over h,
          )
      | inl e ↦
          let h = rw e at found in
          let next_le : from ≤ suc n = omega (arith, le) in
          let next_late : after < (suc n + fuel) * day = omega (arith, late) in
          let (window, found', first) =
            search_windows-IsFirst fuel planned s more from (suc n) after next_le next_late
              (over-suc planned (s ∷ more) from n after over h) in
          (window, rw (e, search_windows) found', first)
    ]

insert_by-cons : (s : ℕ) (l : List ℕ) → (t : ℕ) × (more : List ℕ) × (insert_by leb s l ≡ t ∷ more)
unfolding insert_by
insert_by-cons s [] = (s, [], refl)
insert_by-cons s (t ∷ l) = elim (Bool-cases (leb s t)) [
  | inl e ↦ (s, t ∷ l, rw e refl)
  | inr e ↦ (t, insert_by leb s l, rw e refl)
]

starts-cons :
    (shifts : List ShiftCfg)
    → contiguous_shifts shifts ≡ true
    → (s : ℕ) × (more : List ℕ) × (starts shifts ≡ s ∷ more)
unfolding starts contiguous_shifts sort_by
starts-cons [] h = absurd (ground arith)
starts-cons (cur ∷ shifts) h =
    insert_by-cons (start_s cur * second) (sort_by leb (map (λ x. start_s x * second) shifts))

-- The loop of `next_window` ends within four days, for any shifts that the configuration lets pass: it
-- finds the break of a day after the start of a shift that is not over at `after`, and every break before
-- it, in the order of the loop from two days before, is over.
pub next_window-IsFirst :
    (shifts : List ShiftCfg) (planned : PlannedBreakCfg) (after : ℕ)
    → contiguous_shifts shifts ≡ true
    → (window : BreakWindow) × (next_window shifts planned after ≡ some window)
      × IsFirst planned (after / day - 2) (starts shifts) after window
unfolding next_window
next_window-IsFirst shifts planned after h =
    let (s, more, e) = starts-cons shifts h in
    let late : after < (after / day - 2 + 3) * day = omega arith in
    let (window, found, first) =
      search_windows-IsFirst 3 planned s more (after / day - 2) (after / day - 2) after
        (omega arith) late λ m le lt. absurd (omega arith) in
    (window, rw (e, next_window) found, rw e first)
