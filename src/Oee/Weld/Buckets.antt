-- ===== src/Oee/Weld/Buckets.antt =====
-- Each bucket counts what falls into its interval, and the loop that makes them ends.
use cell_oee_demo.Prelude.{
  ℕ, ◌+◌, ◌-◌, ◌*◌, ◌/◌, ◌≤◌, ◌<◌, ◌≡◌, refl, ◌∙◌, fun_ext, Bool, true, not, ◌&&◌, ◌||◌, some, List,
  [], ◌∷◌, map, arith, leb, ltb, Bool-cases, inl, inr, sum_of, length, if◌then◌else◌,
}
use mathlib.Core.Path.{subst}
use native.Mathlib.Nat.{div-mul-le_self, lt-div-mul-add}
use cell_oee_demo.Oee.Types.{Instant, CounterDelta, Gap}
use cell_oee_demo.Oee.Observed.{overlaps_gap}
use cell_oee_demo.Oee.Weld.{
  WeldPoint, WeldBucket, Row, bucket_start, update_row, in_range, with_point, with_delta,
  add_points, add_deltas, bucket_of, compute_weld_buckets,
}
use cell_oee_demo.Oee.Weld.Gains.{
  IsAligned, Steps, AreEmpty, rows_from-Steps, gain_if, HaveGained, point-HasGained,
  HaveGained-Steps, HaveGained-none, HaveGained-then, update_row-HaveGained, bucket_start-inside,
  Gain, plus_gain,
}

abbrev pub when : Bool → ℕ → ℕ
when b n = if b then n else 0

-- The instant is in the range, and in the bucket that starts at `c`.
abbrev pub falls : Instant → Instant → ℕ → Instant → Instant → Bool
falls frm to b c ts = (leb frm ts && ltb ts to) && (leb c ts && ltb ts (c + b))

module _ (frm to : Instant) (b : ℕ) where
  -- What the points and the deltas add to the bucket that starts at an instant.
  abbrev pub points_gained : List WeldPoint → Instant → Gain
  points_gained points c = record {
    points = sum_of (λ q. when (falls frm to b c q.ts) 1) points;
    nok = sum_of (λ q. when (falls frm to b c q.ts && not q.ok) 1) points;
    good = 0;
    scrap = 0;
  }

  abbrev pub deltas_gained : List Gap → List CounterDelta → Instant → Gain
  deltas_gained gaps deltas c = record {
    points = 0;
    nok = 0;
    good = sum_of (λ d. when (falls frm to b c d.ts && not (overlaps_gap d gaps)) d.good) deltas;
    scrap = sum_of (λ d. when (falls frm to b c d.ts && not (overlaps_gap d gaps)) d.scrap) deltas;
  }

  -- Buckets that follow one another from `cursor` until `to`, each of the same width, with what falls
  -- into each.
  abbrev pub AreCounted :
      List WeldPoint → List CounterDelta → List Gap → Instant → List WeldBucket → Type 0
  AreCounted points deltas gaps cursor [] = to ≤ cursor
  AreCounted points deltas gaps cursor (k ∷ buckets) =
      (k.start ≡ cursor)
      × (k.end ≡ cursor + b)
      × (cursor < to)
      × (k.points ≡ (points_gained points cursor).points)
      × (k.points_nok ≡ (points_gained points cursor).nok)
      × (k.good ≡ (deltas_gained gaps deltas cursor).good)
      × (k.scrap ≡ (deltas_gained gaps deltas cursor).scrap)
      × AreCounted points deltas gaps (cursor + b) buckets

  module _ (origin : Instant) (p : 0 < b) (first : origin ≤ frm) where
    add_points-HaveGained :
        (points : List WeldPoint) (cursor : Instant) (rows : List Row)
        → IsAligned origin b cursor
        → Steps b cursor to rows
        → HaveGained (points_gained points) rows (add_points frm to b origin points rows)
    unfolding add_points
    add_points-HaveGained [] cursor rows at steps = HaveGained-none rows
    add_points-HaveGained (q ∷ points) cursor rows at steps =
        elim (Bool-cases (in_range frm to q.ts)) [
          | inr e ↦
              let same : points_gained points ≡ points_gained (q ∷ points) =
                fun_ext (λ c. ground (arith, e)) in
              rw e (
                subst (λ g. HaveGained g rows (add_points frm to b origin points rows)) same
                  (add_points-HaveGained points cursor rows at steps))
          | inl e ↦
              let s = bucket_start q.ts origin b in
              let one : Gain = record {
                points = 1;
                nok = if q.ok then 0 else 1;
                good = 0;
                scrap = 0;
              } in
              let hit : Instant → Bool = λ c. leb c q.ts && ltb q.ts (c + b) in
              let late : origin ≤ q.ts = ground (arith, e, first) in
              let updated = update_row s (with_point q) rows in
              let grown =
                update_row-HaveGained origin b p s hit one
                  (λ c al. bucket_start-inside origin c q.ts b p late al) (with_point q) cursor to
                  rows (λ r. point-HasGained q r) at steps in
              let rest = add_points-HaveGained points cursor updated at (
                HaveGained-Steps b (λ c. gain_if (hit c) one) cursor to rows updated grown steps) in
              let same : (λ (c : Instant). plus_gain (gain_if (hit c) one) (points_gained points c))
                  ≡ points_gained (q ∷ points) =
                fun_ext (λ c. ground (arith, e)) in
              rw e (
                subst (λ g. HaveGained g rows (add_points frm to b origin points updated)) same
                  (HaveGained-then (λ c. gain_if (hit c) one) (points_gained points) rows updated
                    (add_points frm to b origin points updated) grown rest))
        ]

    add_deltas-HaveGained :
        (gaps : List Gap) (deltas : List CounterDelta) (cursor : Instant) (rows : List Row)
        → IsAligned origin b cursor
        → Steps b cursor to rows
        → HaveGained (deltas_gained gaps deltas) rows (add_deltas frm to b origin gaps deltas rows)
    unfolding add_deltas
    add_deltas-HaveGained gaps [] cursor rows at steps = HaveGained-none rows
    add_deltas-HaveGained gaps (d ∷ deltas) cursor rows at steps =
        elim (Bool-cases (not (in_range frm to d.ts) || overlaps_gap d gaps)) [
          | inl e ↦
              let same : deltas_gained gaps deltas ≡ deltas_gained gaps (d ∷ deltas) =
                fun_ext (λ c. ground (arith, e)) in
              rw e (
                subst (λ g. HaveGained g rows (add_deltas frm to b origin gaps deltas rows)) same
                  (add_deltas-HaveGained gaps deltas cursor rows at steps))
          | inr e ↦
              let s = bucket_start d.ts origin b in
              let one : Gain = record { points = 0; nok = 0; good = d.good; scrap = d.scrap } in
              let hit : Instant → Bool = λ c. leb c d.ts && ltb d.ts (c + b) in
              let late : origin ≤ d.ts = ground (arith, e, first) in
              let updated = update_row s (with_delta d) rows in
              let grown =
                update_row-HaveGained origin b p s hit one
                  (λ c al. bucket_start-inside origin c d.ts b p late al) (with_delta d) cursor to
                  rows (λ r. (refl, omega arith, omega arith, refl, refl)) at steps in
              let rest = add_deltas-HaveGained gaps deltas cursor updated at (
                HaveGained-Steps b (λ c. gain_if (hit c) one) cursor to rows updated grown steps) in
              let same : (λ (c : Instant).
                plus_gain (gain_if (hit c) one) (deltas_gained gaps deltas c))
                  ≡ deltas_gained gaps (d ∷ deltas) =
                fun_ext (λ c. ground (arith, e)) in
              rw e (
                subst (λ g. HaveGained g rows (add_deltas frm to b origin gaps deltas updated)) same
                  (HaveGained-then (λ c. gain_if (hit c) one) (deltas_gained gaps deltas) rows
                    updated (add_deltas frm to b origin gaps deltas updated) grown rest))
        ]

    buckets-AreCounted :
        (points : List WeldPoint) (deltas : List CounterDelta) (gaps : List Gap) (cursor : Instant)
        (rows grown : List Row)
        → Steps b cursor to rows
        → AreEmpty rows
        → HaveGained
            (λ c. plus_gain (points_gained points c) (deltas_gained gaps deltas c))
            rows
            grown
        → AreCounted points deltas gaps cursor (map (bucket_of b) grown)
    unfolding bucket_of
    buckets-AreCounted points deltas gaps cursor [] [] s z h = s
    buckets-AreCounted points deltas gaps cursor [] (q ∷ grown) s z h = elim h [ ]
    buckets-AreCounted points deltas gaps cursor (r ∷ rows) [] s z h = elim h [ ]
    buckets-AreCounted points deltas gaps cursor (r ∷ rows) (q ∷ grown) (e, within, s)
          ((z₁, z₂, z₃, z₄), z) ((e₁, a, n, g, c), h) =
        let start : q.start ≡ cursor = e₁ ∙ e in
        let total : Instant → Gain =
          λ t. plus_gain (points_gained points t) (deltas_gained gaps deltas t) in
        let a₁ = subst (λ t. length q.currents ≡ length r.currents + (total t).points) e a in
        let n₁ = subst (λ t. q.nok ≡ r.nok + (total t).nok) e n in
        let g₁ = subst (λ t. q.good ≡ r.good + (total t).good) e g in
        let c₁ = subst (λ t. q.scrap ≡ r.scrap + (total t).scrap) e c in
        (
          start,
          omega (arith, start),
          within,
          omega (arith, a₁, z₁),
          omega (arith, n₁, z₂),
          omega (arith, g₁, z₃),
          omega (arith, c₁, z₄),
          buckets-AreCounted points deltas gaps (cursor + b) rows grown s z h,
        )

-- For buckets of a width that is not 0 and an origin at or before `frm`, the loop over the starts ends, and
-- the first bucket is the one into which `frm` falls. From it on the buckets follow one another until
-- `to`, each of that width, and each counts exactly what is in the range and in its own interval: the
-- points, those that are not ok, and the good parts and the scrap of the deltas that no gap overlaps.
pub compute_weld_buckets-AreCounted :
    (points : List WeldPoint) (deltas : List CounterDelta) (gaps : List Gap) (frm to : Instant)
    (bucket_s : ℕ) (day_origin : Instant)
    → 0 < bucket_s
    → day_origin ≤ frm
    → let first = bucket_start frm day_origin bucket_s in
      (buckets : List WeldBucket) × (compute_weld_buckets points deltas gaps frm to bucket_s
          day_origin
        ≡ some buckets)
      × (first ≤ frm)
      × (frm < first + bucket_s)
      × AreCounted frm to bucket_s points deltas gaps first buckets
unfolding compute_weld_buckets bucket_start
compute_weld_buckets-AreCounted points deltas gaps frm to bucket_s day_origin p h =
    let first = bucket_start frm day_origin bucket_s in
    let seen : leb day_origin frm ≡ true = ground (arith, h) in
    let k = (frm - day_origin) / bucket_s in
    let e : first ≡ day_origin + k * bucket_s = rw seen refl in
    let below = div-mul-le_self (frm - day_origin) bucket_s in
    let above = lt-div-mul-add {a = frm - day_origin} {b = bucket_s} p in
    let (rows, ran, steps, empty) =
      rows_from-Steps (to - first) first to bucket_s p (omega arith) in
    let with_points = add_points frm to bucket_s day_origin points rows in
    let filled = add_deltas frm to bucket_s day_origin gaps deltas with_points in
    let gained =
      add_points-HaveGained frm to bucket_s day_origin p h points first rows (k, e) steps in
    let steps' =
      HaveGained-Steps bucket_s (points_gained frm to bucket_s points) first to rows with_points
        gained steps in
    let more =
      add_deltas-HaveGained frm to bucket_s day_origin p h gaps deltas first with_points (k, e)
        steps' in
    (
      map (bucket_of bucket_s) filled,
      rw (ran, compute_weld_buckets) refl,
      omega (arith, e, below, h),
      omega (arith, e, above, h),
      buckets-AreCounted frm to bucket_s day_origin p h points deltas gaps first rows filled steps
          empty
          (HaveGained-then (points_gained frm to bucket_s points)
            (deltas_gained frm to bucket_s gaps deltas) rows with_points filled gained more),
    )
