-- ===== src/Oee/Weld/Gains.antt =====
-- The rows of the buckets, and what each of them gains.
use cell_oee_demo.Prelude.{
  ℕ, zero, suc, ◌+◌, ◌-◌, ◌*◌, ◌/◌, ◌≤◌, ◌<◌, ◌≡◌, refl, sym, ◌∙◌, ap, Bool, true, false, ◌&&◌,
  some, List, [], ◌∷◌, arith, leb, ltb, ◌==◌, Bool-cases, inl, inr, length, length-append,
  if◌then◌else◌,
}
use native.Mathlib.Nat.{div-mul-le_self, lt-div-mul-add, div-eq_of_lt-le, suc-mul}
use cell_oee_demo.Oee.Types.{Instant}
use cell_oee_demo.Oee.Weld.{WeldPoint, Row, bucket_start, rows_from, update_row, with_point}

-- The bucket that starts `k` widths after the origin is that of the instants of its interval.
abbrev pub IsAligned : Instant → ℕ → Instant → Type 0
IsAligned origin b c = (k : ℕ) × (c ≡ origin + k * b)

pub bucket_start-inside :
    (origin c ts : Instant) (b : ℕ)
    → 0 < b
    → origin ≤ ts
    → IsAligned origin b c
    → (c == bucket_start ts origin b) ≡ (leb c ts && ltb ts (c + b))
unfolding bucket_start
bucket_start-inside origin c ts b p h (k, e) =
    let seen : leb origin ts ≡ true = ground (arith, h) in
    let below = div-mul-le_self (ts - origin) b in
    let above = lt-div-mul-add {a = ts - origin} {b = b} p in
    rw seen (elim (Bool-cases (c == origin + (ts - origin) / b * b)) [
      | inl d ↦ rw d (ground (arith, d, below, above, h))
      | inr d ↦ elim (Bool-cases (leb c ts && ltb ts (c + b))) [
        | inr f ↦ rw (d, f) refl
        | inl f ↦
            let low : k * b ≤ ts - origin = ground (arith, f, e, h) in
            let high : ts - origin < k * b + b = ground (arith, f, e, h) in
            let one_more : k + 1 ≡ suc k = omega arith in
            let next : (k + 1) * b ≡ k * b + b = rw one_more (suc-mul k b) in
            let same : (ts - origin) / b ≡ k = div-eq_of_lt-le b low (omega (arith, high, next)) in
            let hit : c ≡ origin + (ts - origin) / b * b = rw same e in
            absurd (ground (arith, d, hit))
      ]
    ])

-- Starts `b` apart, from `cursor` until `to`.
abbrev pub Steps : ℕ → Instant → Instant → List Row → Type 0
Steps b cursor to [] = to ≤ cursor
Steps b cursor to (r ∷ rows) = (r.start ≡ cursor) × (cursor < to) × Steps b (cursor + b) to rows

-- Rows with nothing in them.
abbrev pub AreEmpty : List Row → Type 0
AreEmpty [] = Unit
AreEmpty (r ∷ rows) =
    ((length r.currents ≡ 0) × (r.nok ≡ 0) × (r.good ≡ 0) × (r.scrap ≡ 0)) × AreEmpty rows

pub rows_from-Steps :
    (fuel : ℕ) (cursor to : Instant) (b : ℕ)
    → 0 < b
    → to ≤ cursor + fuel
    → (rows : List Row) × (rows_from (suc fuel) cursor to b ≡ some rows)
      × Steps b cursor to rows
      × AreEmpty rows
unfolding rows_from
rows_from-Steps zero cursor to b p h =
    let over : ltb cursor to ≡ false = ground arith in ([], rw over refl, omega arith, tt)
rows_from-Steps (suc fuel) cursor to b p h =
    let (rows, ran, steps, empty) = rows_from-Steps fuel (cursor + b) to b p (omega arith) in
    elim (Bool-cases (ltb cursor to)) [
      | inr e ↦ ([], rw e refl, ground (arith, e), tt)
      | inl e ↦ (
        record { start = cursor; currents = []; nok = 0; good = 0; scrap = 0 } ∷ rows,
        rw (e, ran) refl,
        (refl, ground (arith, e), steps),
        ((refl, refl, refl, refl), empty),
      )
    ]

-- What a row gains.
pub record Gain : Type 0 where
  pub points : ℕ
  pub nok : ℕ
  pub good : ℕ
  pub scrap : ℕ

abbrev nothing_gained : Gain
nothing_gained = record { points = 0; nok = 0; good = 0; scrap = 0 }

abbrev pub gain_if : Bool → Gain → Gain
gain_if true g = g
gain_if false g = nothing_gained

abbrev pub plus_gain : Gain → Gain → Gain
plus_gain g h = record {
  points = g.points + h.points;
  nok = g.nok + h.nok;
  good = g.good + h.good;
  scrap = g.scrap + h.scrap;
}

abbrev pub HasGained : Gain → Row → Row → Type 0
HasGained g r q =
    (q.start ≡ r.start)
    × (length q.currents ≡ length r.currents + g.points)
    × (q.nok ≡ r.nok + g.nok)
    × (q.good ≡ r.good + g.good)
    × (q.scrap ≡ r.scrap + g.scrap)

abbrev pub HaveGained : (Instant → Gain) → List Row → List Row → Type 0
HaveGained gain [] [] = Unit
HaveGained gain (r ∷ rows) (q ∷ grown) = HasGained (gain r.start) r q × HaveGained gain rows grown
HaveGained gain [] (q ∷ grown) = ⊥
HaveGained gain (r ∷ rows) [] = ⊥

pub point-HasGained :
    (q : WeldPoint) (r : Row)
    → HasGained
        (record { points = 1; nok = if q.ok then 0 else 1; good = 0; scrap = 0 })
        r
        (with_point q r)
point-HasGained q r =
    let more = length-append r.currents (q.current_ka ∷ []) in
    (refl, omega (arith, more), refl, omega arith, omega arith)

pub HaveGained-Steps :
    (b : ℕ) (gain : Instant → Gain) (cursor to : Instant) (rows grown : List Row)
    → HaveGained gain rows grown
    → Steps b cursor to rows
    → Steps b cursor to grown
HaveGained-Steps b gain cursor to [] [] h s = s
HaveGained-Steps b gain cursor to [] (q ∷ grown) h s = elim h [ ]
HaveGained-Steps b gain cursor to (r ∷ rows) [] h s = elim h [ ]
HaveGained-Steps b gain cursor to (r ∷ rows) (q ∷ grown) ((e, a, b₁, c, d), h) s =
    (e ∙ s.0, s.1, HaveGained-Steps b gain (cursor + b) to rows grown h s.2)

pub HaveGained-none : (rows : List Row) → HaveGained (λ c. nothing_gained) rows rows
HaveGained-none [] = tt
HaveGained-none (r ∷ rows) =
    ((refl, omega arith, omega arith, omega arith, omega arith), HaveGained-none rows)

pub HaveGained-then :
    (g h : Instant → Gain) (rows grown more : List Row)
    → HaveGained g rows grown
    → HaveGained h grown more
    → HaveGained (λ c. plus_gain (g c) (h c)) rows more
HaveGained-then g h [] [] [] p q = tt
HaveGained-then g h [] [] (z ∷ more) p q = elim q [ ]
HaveGained-then g h [] (y ∷ grown) more p q = elim p [ ]
HaveGained-then g h (x ∷ rows) [] more p q = elim p [ ]
HaveGained-then g h (x ∷ rows) (y ∷ grown) [] p q = elim q [ ]
HaveGained-then g h (x ∷ rows) (y ∷ grown) (z ∷ more) ((e₁, a₁, b₁, c₁, d₁), p)
      ((e₂, a₂, b₂, c₂, d₂), q) =
    let at : h y.start ≡ h x.start = ap h e₁ in
    let a₃ : length z.currents ≡ length y.currents + (h x.start).points = rw (sym at) a₂ in
    let b₃ : z.nok ≡ y.nok + (h x.start).nok = rw (sym at) b₂ in
    let c₃ : z.good ≡ y.good + (h x.start).good = rw (sym at) c₂ in
    let d₃ : z.scrap ≡ y.scrap + (h x.start).scrap = rw (sym at) d₂ in
    (
      (
        e₂ ∙ e₁,
        omega (arith, a₁, a₃),
        omega (arith, b₁, b₃),
        omega (arith, c₁, c₃),
        omega (arith, d₁, d₃),
      ),
      HaveGained-then g h rows grown more p q,
    )

module _ (origin : Instant) (b : ℕ) (p : 0 < b) where
  IsAligned-next : (c : Instant) → IsAligned origin b c → IsAligned origin b (c + b)
  IsAligned-next c (k, e) =
      (suc k, let next : suc k * b ≡ k * b + b = suc-mul k b in omega (arith, e, next))

  -- A change of the row that starts at `s`, which is the row for which the test holds.
  module _ (s : Instant) (hit : Instant → Bool) (gain : Gain)
      (is_hit : (c : Instant) → IsAligned origin b c → (c == s) ≡ hit c) where
    past-HaveGained :
        (cursor to : Instant) (rows : List Row)
        → IsAligned origin b cursor
        → s < cursor
        → Steps b cursor to rows
        → HaveGained (λ c. gain_if (hit c) gain) rows rows
    past-HaveGained cursor to [] at lt steps = tt
    past-HaveGained cursor to (r ∷ rows) at lt (e, within, steps) =
        let off : hit cursor ≡ false = sym (is_hit cursor at) ∙ ground (arith, lt) in
        let here : hit r.start ≡ false = rw e off in
        (
          rw here (refl, omega arith, omega arith, omega arith, omega arith),
          past-HaveGained (cursor + b) to rows (IsAligned-next cursor at) (omega arith) steps,
        )

    pub update_row-HaveGained :
        (f : Row → Row) (cursor to : Instant) (rows : List Row)
        → ((r : Row) → HasGained gain r (f r))
        → IsAligned origin b cursor
        → Steps b cursor to rows
        → HaveGained (λ c. gain_if (hit c) gain) rows (update_row s f rows)
    unfolding update_row
    update_row-HaveGained f cursor to [] grown at steps = tt
    update_row-HaveGained f cursor to (r ∷ rows) grown at (e, within, steps) =
        let test : (r.start == s) ≡ hit r.start = rw e (is_hit cursor at) in
        elim (Bool-cases (r.start == s)) [
          | inl d ↦
              let here : hit r.start ≡ true = sym test ∙ d in
              rw d (
                rw here (grown r),
                past-HaveGained (cursor + b) to rows (IsAligned-next cursor at)
                    (ground (arith, d, e, p)) steps,
              )
          | inr d ↦
              let here : hit r.start ≡ false = sym test ∙ d in
              rw d (
                rw here (refl, omega arith, omega arith, omega arith, omega arith),
                update_row-HaveGained f (cursor + b) to rows grown (IsAligned-next cursor at) steps,
              )
        ]
