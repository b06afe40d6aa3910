-- ===== src/Simulator/Shifts/Cover.antt =====
-- Contiguous shifts cover the day.
use cell_oee_demo.Prelude.{
  ℕ, ◌*◌, ◌%◌, ◌≤◌, ◌<◌, ◌≡◌, ◌≢◌, ◌⊎◌, refl, true, false, Option, none, some, List, [], ◌∷◌, arith,
  leb, Bool-cases, inl, inr, All,
}
use cell_oee_demo.Simulator.Config.{
  ShiftCfg, start_s, end_s, seconds, same_time, follow, contiguous_shifts,
}
use cell_oee_demo.Simulator.Shifts.{second, day, holds_shift, first_shift, shift_at}

-- The shift that is returned holds the time of day.
abbrev pub Returns : ℕ → Option ShiftCfg → Type 0
Returns tod none = ⊥
Returns tod (some s) = holds_shift s tod ≡ true

-- A shift that does not hold the time: if it starts by then, it also ends by then, and it wraps around
-- midnight only if it ends by then and starts after it.
abbrev IsMissed : ℕ → ShiftCfg → Type 0
IsMissed tod s = holds_shift s tod ≡ false

same_time-seconds : (a b : ℕ × ℕ) → same_time a b ≡ true → seconds a ≡ seconds b
unfolding seconds
same_time-seconds (h, m) (h', m') e =
    let hours : h ≡ h' = ground arith in let minutes : m ≡ m' = ground arith in omega arith

-- Past a shift that does not hold the time, time does not go back.
IsMissed-later :
    (tod : ℕ) (s : ShiftCfg)
    → IsMissed tod s
    → start_s s * second ≤ tod
    → (start_s s ≤ end_s s) × (end_s s * second ≤ tod)
unfolding holds_shift
IsMissed-later tod s h le = (ground arith, ground arith)

-- A shift that ends after the time does not hold it only if it starts after it, and then starts no later.
IsMissed-earlier :
    (tod : ℕ) (s : ShiftCfg)
    → IsMissed tod s
    → tod < end_s s * second
    → (start_s s ≤ end_s s) × (tod < start_s s * second)
unfolding holds_shift
IsMissed-earlier tod s h lt = (ground arith, ground arith)

-- Along a chain of shifts that do not hold the time, the starts do not decrease once the time is past one.
follow-past :
    (tod : ℕ) (first cur : ShiftCfg) (shifts : List ShiftCfg)
    → follow first cur shifts ≡ true
    → All (IsMissed tod) (cur ∷ shifts)
    → start_s cur * second ≤ tod
    → (start_s cur ≤ end_s cur) × (end_s cur ≤ start_s first)
unfolding follow
follow-past tod first cur [] h missed le =
    let same = same_time-seconds cur.end first.start h in
    let (a, b) = IsMissed-later tod cur missed.0 le in (a, omega (arith, same))
follow-past tod first cur (nxt ∷ shifts) h missed le =
    let meet : same_time cur.end nxt.start ≡ true = ground arith in
    let same = same_time-seconds cur.end nxt.start meet in
    let (a, b) = IsMissed-later tod cur missed.0 le in
    let (c, d) = follow-past tod first nxt shifts (ground arith) missed.1 (omega arith) in
    (a, omega arith)

-- Nor do they if the time is not past the start at which the chain closes.
follow-before :
    (tod : ℕ) (first cur : ShiftCfg) (shifts : List ShiftCfg)
    → follow first cur shifts ≡ true
    → All (IsMissed tod) (cur ∷ shifts)
    → tod < start_s first * second
    → (start_s cur ≤ end_s cur) × (end_s cur ≤ start_s first) × (tod < start_s cur * second)
unfolding follow
follow-before tod first cur [] h missed lt =
    let same = same_time-seconds cur.end first.start h in
    let (a, b) = IsMissed-earlier tod cur missed.0 (omega arith) in (a, omega arith, b)
follow-before tod first cur (nxt ∷ shifts) h missed lt =
    let meet : same_time cur.end nxt.start ≡ true = ground arith in
    let same = same_time-seconds cur.end nxt.start meet in
    let (c, d, f) = follow-before tod first nxt shifts (ground arith) missed.1 lt in
    let (a, b) = IsMissed-earlier tod cur missed.0 (omega arith) in (a, omega arith, b)

follow-degenerate :
    (tod : ℕ) (first : ShiftCfg) (shifts : List ShiftCfg)
    → follow first first shifts ≡ true
    → All (IsMissed tod) (first ∷ shifts)
    → start_s first ≡ end_s first
follow-degenerate tod first shifts h missed = elim (Bool-cases (leb (start_s first * second) tod)) [
  | inl e ↦ let (a, b) = follow-past tod first first shifts h missed (ground arith) in omega arith
  | inr e ↦
      let (a, b, c) = follow-before tod first first shifts h missed (ground arith) in omega arith
]

-- A shift that holds the time is found, or none does.
first_shift-Returns :
    (tod : ℕ) (shifts : List ShiftCfg)
    → Returns tod (first_shift shifts tod) ⊎ All (IsMissed tod) shifts
unfolding first_shift
first_shift-Returns tod [] = inr tt
first_shift-Returns tod (s ∷ shifts) = elim (Bool-cases (holds_shift s tod)) [
  | inl e ↦ inl (rw (e, e) refl)
  | inr e ↦ elim (first_shift-Returns tod shifts) [
    | inl found ↦ inl (rw e found)
    | inr missed ↦ inr (e, missed)
  ]
]

-- For shifts that the configuration lets pass, the first of which does not end at the time at which it
-- starts, shift_at never fails: it returns a shift that holds the time of day.
pub shift_at-Returns :
    (first : ShiftCfg) (shifts : List ShiftCfg) (ts : ℕ)
    → contiguous_shifts (first ∷ shifts) ≡ true
    → start_s first ≢ end_s first
    → Returns (ts % day) (shift_at (first ∷ shifts) ts)
unfolding contiguous_shifts shift_at
shift_at-Returns first shifts ts h proper = elim (first_shift-Returns (ts % day) (first ∷ shifts)) [
  | inl found ↦ found
  | inr missed ↦ absurd (proper (follow-degenerate (ts % day) first shifts h missed))
]
