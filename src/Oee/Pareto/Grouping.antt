-- ===== src/Oee/Pareto/Grouping.antt =====
-- The buckets of the Pareto, key by key.
use cell_oee_demo.Prelude.{
  ℕ, ℤ, ◌+◌, ◌≡◌, refl, sym, ◌∙◌, ap, Bool, not, ◌&&◌, Option, none, some, List, [], ◌∷◌, arith,
  sum_of, if◌then◌else◌, sort_by, insert_by, Bool-cases, Option-cases, inl, inr, is_some, leb, ltb,
  ◌==◌, max, false, true,
}
use text.Mathlib.Text.{◌==◌ as str_eq}
use cell_oee_demo.Oee.Types.{Instant, Window, Gap, length_s}
use cell_oee_demo.Oee.Intervals.{Interval}
use cell_oee_demo.Oee.Intervals.Measure.{measure}
use cell_oee_demo.Oee.Compute.Pointwise.{in_gap}
use text.Mathlib.TextEquality.{eq_iff}
use cell_oee_demo.Oee.Observed.{observed_intervals, rel}
use cell_oee_demo.Oee.Intervals.{intersect, clip}
use cell_oee_demo.Oee.Intervals.Algebra.{covers-intersect, intersect-IsMerged}
use cell_oee_demo.Oee.Intervals.Measure.{
  measure_congr, total-eq-measure, clip-IsMerged, covers-clip,
}
use cell_oee_demo.Oee.Compute.Accounting.{observed_intervals-IsMerged}
use cell_oee_demo.Oee.Compute.Pointwise.{observed_point}
use cell_oee_demo.Oee.Pareto.{
  end_of, bound_of, By, cause, station, fault_code, Key, label, code, state, key_of, unqualified,
  Metric, StopFact, Bucket, Totals, is_relevant, is_micro, starts_here, overlap, row_of, add_row,
  add_fact, add_facts, compute_pareto, same_key, before, no_totals,
}

-- A stop that is open lasts until the bound, or until its start if that is later.
abbrev pub last_instant : Instant → StopFact → Instant
last_instant bound f = elim f.end [ none ↦ max bound f.start | some end ↦ end ]

-- The stop is no planned stop, and some of it lies in the window.
abbrev pub counts : Window → Instant → StopFact → Bool
counts w bound f = not (f.state == 2) && (ltb f.start w.end && ltb w.start (last_instant bound f))

-- It lasts for the threshold at least.
abbrev pub is_long : Instant → ℕ → StopFact → Bool
is_long bound micro_stop_s f = leb (f.start + micro_stop_s) (last_instant bound f)

abbrev pub begins_in : Window → StopFact → Bool
begins_in w f = leb w.start f.start && ltb f.start w.end

-- How many microseconds of the window are in the stop and in no gap.
abbrev pub seconds_in : Window → List Gap → Instant → StopFact → ℕ
seconds_in w gaps bound f = measure (length_s w) (λ t.
    (leb f.start (w.start + t) && ltb (w.start + t) (last_instant bound f))
    && not (in_gap gaps (w.start + t)))

-- The key is that of the stop: its qualified cause, "unqualified" if it has none or an empty one; its
-- station; or its fault code, or its state if it has none.
abbrev pub has_key : By → Key → StopFact → Bool
has_key cause (label a) f = elim f.qualified_cause [
  | none ↦ str_eq unqualified a
  | some c ↦ if str_eq c "" then str_eq unqualified a else str_eq c a
]
has_key station (label a) f = str_eq f.origin_station a
has_key fault_code (code n) f = not (f.fault_code == 0) && f.fault_code == n
has_key fault_code (state n) f = f.fault_code == 0 && f.state == n
has_key _ _ f = false

has_key-eq : (by : By) (k : Key) (f : StopFact) → same_key (key_of f by) k ≡ has_key by k f
unfolding key_of
has_key-eq cause (label a) f = elim (Option-cases f.qualified_cause) [
  | inl e ↦ rw e refl
  | inr (c, e) ↦ rw e (ground arith)
]
has_key-eq cause (code n) f = refl
has_key-eq cause (state n) f = refl
has_key-eq station (label a) f = refl
has_key-eq station (code n) f = refl
has_key-eq station (state n) f = refl
has_key-eq fault_code (label a) f = ground arith
has_key-eq fault_code (code n) f = ground arith
has_key-eq fault_code (state n) f = ground arith

counts-eq : (w : Window) (bound : Instant) (f : StopFact) → is_relevant w bound f ≡ counts w bound f
counts-eq w bound f = ground arith

is_long-eq :
    (bound : Instant) (micro_stop_s : ℕ) (f : StopFact)
    → not (is_micro bound micro_stop_s f) ≡ is_long bound micro_stop_s f
is_long-eq bound micro_stop_s f = ground arith

same_key_trans : (a b k : Key) → same_key a b ≡ true → same_key a k ≡ same_key b k
same_key_trans (label a) (label b) (label k) h = let e : a ≡ b = (eq_iff a b).0 h in rw e refl
same_key_trans (label a) (label b) (code k) h = refl
same_key_trans (label a) (label b) (state k) h = refl
same_key_trans (label a) (code b) k h = absurd (ground arith)
same_key_trans (label a) (state b) k h = absurd (ground arith)
same_key_trans (code a) (label b) k h = absurd (ground arith)
same_key_trans (code a) (state b) k h = absurd (ground arith)
same_key_trans (state a) (label b) k h = absurd (ground arith)
same_key_trans (state a) (code b) k h = absurd (ground arith)
same_key_trans (code a) (code b) (label k) h = refl
same_key_trans (code a) (code b) (code k) h = ground (arith, h)
same_key_trans (code a) (code b) (state k) h = refl
same_key_trans (state a) (state b) (label k) h = refl
same_key_trans (state a) (state b) (code k) h = refl
same_key_trans (state a) (state b) (state k) h = ground (arith, h)

overlap-eq-measure :
    (w : Window) (gaps : List Gap) (bound : Instant) (f : StopFact)
    → overlap w (observed_intervals w gaps) bound f ≡ seconds_in w gaps bound f
unfolding overlap
overlap-eq-measure w gaps bound f =
    let n = length_s w in
    let span : List (ℤ × ℤ) = (rel w f.start, rel w (end_of bound f)) ∷ [] in
    let observed = observed_intervals w gaps in
    let whole = observed_intervals-IsMerged w gaps in
    total-eq-measure n 0 (intersect (clip span 0 n) observed) (
      intersect-IsMerged 0 0 0 n (clip span 0 n) observed (omega arith) (clip-IsMerged 0 n span)
        whole)
    ∙ measure_congr n _ _ (λ t h. ground (
      arith,
      observed_point w [] gaps t h,
      covers-intersect 0 0 n (clip span 0 n) observed t (clip-IsMerged 0 n span) whole,
      covers-clip 0 n span t,
      h,
    ))

sum_of-insert_by {ℓ} :
    {A : Type ℓ} (le : A → A → Bool) (f : A → ℕ) (x : A) (l : List A)
    → sum_of f (insert_by le x l) ≡ f x + sum_of f l
unfolding insert_by
sum_of-insert_by le f x [] = refl
sum_of-insert_by le f x (y ∷ l) = ground (arith, sum_of-insert_by le f x l)

sum_of-sort_by {ℓ} :
    {A : Type ℓ} (le : A → A → Bool) (f : A → ℕ) (l : List A) → sum_of f (sort_by le l) ≡ sum_of f l
unfolding sort_by
sum_of-sort_by le f [] = refl
sum_of-sort_by le f (x ∷ l) =
    omega (arith, sum_of-insert_by le f x (sort_by le l), sum_of-sort_by le f l)

-- A sum over the buckets of a key.
pub record Sums : Type 0 where
  pub duration_s : ℕ
  pub count : ℕ
  pub unqualified_duration_s : ℕ
  pub unqualified_count : ℕ

abbrev pub when : Bool → ℕ → ℕ
when b n = if b then n else 0

abbrev pub sums_at : Key → List Bucket → Sums
sums_at k rows = record {
  duration_s = sum_of (λ b. when (same_key b.key k) b.duration_s) rows;
  count = sum_of (λ b. when (same_key b.key k) b.count) rows;
  unqualified_duration_s = sum_of (λ b. when (same_key b.key k) b.unqualified_duration_s) rows;
  unqualified_count = sum_of (λ b. when (same_key b.key k) b.unqualified_count) rows;
}

-- What the loss stops of a key come to, one by one.
module _ (w : Window) (gaps : List Gap) (bound : Instant) (micro_stop_s : ℕ) where
  abbrev pub is_loss : StopFact → Bool
  is_loss f = counts w bound f && is_long bound micro_stop_s f

  abbrev pub expected : By → Key → List StopFact → Sums
  expected by k facts = record {
    duration_s = sum_of (λ f. when (has_key by k f && is_loss f) (seconds_in w gaps bound f)) facts;
    count = sum_of (λ f. when (has_key by k f && (is_loss f && begins_in w f)) 1) facts;
    unqualified_duration_s =
        sum_of
          (λ f.
            when (has_key by k f && (is_loss f && not (is_some f.qualified_cause)))
              (seconds_in w gaps bound f))
          facts;
    unqualified_count =
        sum_of
          (λ f.
            when
              (has_key by k f && (is_loss f && (not (is_some f.qualified_cause) && begins_in w f)))
              1)
          facts;
  }

  abbrev pub expected_micro : List StopFact → ℕ × ℕ
  expected_micro facts = (
    sum_of (λ f. when (counts w bound f && (not (is_long bound micro_stop_s f) && begins_in w f)) 1)
        facts,
    sum_of
        (λ f.
          when (counts w bound f && (not (is_long bound micro_stop_s f) && begins_in w f))
            (seconds_in w gaps bound f))
        facts,
  )

abbrev plus : Sums → Sums → Sums
plus a b = record {
  duration_s = a.duration_s + b.duration_s;
  count = a.count + b.count;
  unqualified_duration_s = a.unqualified_duration_s + b.unqualified_duration_s;
  unqualified_count = a.unqualified_count + b.unqualified_count;
}

sums_at-add_row :
    (k : Key) (r : Bucket) (rows : List Bucket)
    → sums_at k (add_row r rows) ≡ plus (sums_at k (r ∷ [])) (sums_at k rows)
unfolding add_row
sums_at-add_row k r [] = ground arith
sums_at-add_row k r (b ∷ rows) = elim (Bool-cases (same_key r.key b.key)) [
  | inl e ↦ rw e (ground (arith, same_key_trans r.key b.key k e))
  | inr e ↦ rw e (ground (arith, sums_at-add_row k r rows))
]

plus_zero : (k : Key) (a : Sums) → plus a (sums_at k []) ≡ a
plus_zero k a = ground arith

sums_at-sort_by :
    (k : Key) (metric : Metric) (rows : List Bucket)
    → sums_at k (sort_by (before metric) rows) ≡ sums_at k rows
sums_at-sort_by k metric rows = λ i. record {
  duration_s = sum_of-sort_by (before metric) (λ b. when (same_key b.key k) b.duration_s) rows i;
  count = sum_of-sort_by (before metric) (λ b. when (same_key b.key k) b.count) rows i;
  unqualified_duration_s =
      sum_of-sort_by (before metric) (λ b. when (same_key b.key k) b.unqualified_duration_s) rows i;
  unqualified_count =
      sum_of-sort_by (before metric) (λ b. when (same_key b.key k) b.unqualified_count) rows i;
}

module _ (w : Window) (gaps : List Gap) (bound : Instant) (micro_stop_s : ℕ) (by : By) where
  abbrev observed : List Interval
  observed = observed_intervals w gaps

  abbrev one : Key → StopFact → Sums
  one k f = expected w gaps bound micro_stop_s by k (f ∷ [])

  add_fact_sums :
      (k : Key) (t : Totals) (f : StopFact)
      → let t' = add_fact w observed bound micro_stop_s by t f in
        (sums_at k t'.rows ≡ plus (one k f) (sums_at k t.rows))
        × (t'.micro_count ≡ (expected_micro w gaps bound micro_stop_s (f ∷ [])).0 + t.micro_count)
        × (t'.micro_duration_s
            ≡ (expected_micro w gaps bound micro_stop_s (f ∷ [])).1 + t.micro_duration_s)
  unfolding add_fact row_of
  add_fact_sums k t f =
      let row = row_of by (overlap w observed bound f) (starts_here w f) f in
      let amount = overlap-eq-measure w gaps bound f in
      let key = has_key-eq by k f in
      let seen = counts-eq w bound f in
      let long = is_long-eq bound micro_stop_s f in
      elim (Bool-cases (is_relevant w bound f)) [
        | inr e ↦
            let off : counts w bound f ≡ false = sym seen ∙ e in
            rw (e, off) (ground arith, ground arith, ground arith)
        | inl e ↦
            let on : counts w bound f ≡ true = sym seen ∙ e in
            rw (e, on)
              (elim (Bool-cases (is_micro bound micro_stop_s f)) [
                | inl m ↦
                    let short : is_long bound micro_stop_s f ≡ false = sym long ∙ rw m refl in
                    rw (m, short) (ground arith, ground arith, ground (arith, amount))
                | inr m ↦
                    let lasts : is_long bound micro_stop_s f ≡ true = sym long ∙ rw m refl in
                    rw (m, lasts)
                      (
                        ground (arith, sums_at-add_row k row t.rows, amount, key),
                        ground arith,
                        ground arith,
                      )
              ])
      ]

  plus_swap :
      (k : Key) (facts : List StopFact) (f : StopFact) (t : Totals)
      → plus (expected w gaps bound micro_stop_s by k facts) (plus (one k f) (sums_at k t.rows))
        ≡ plus (expected w gaps bound micro_stop_s by k (f ∷ facts)) (sums_at k t.rows)
  plus_swap k facts f t = ground arith

  add_facts_sums :
      (k : Key) (t : Totals) (facts : List StopFact)
      → let t' = add_facts w observed bound micro_stop_s by t facts in
        (sums_at k t'.rows
          ≡ plus (expected w gaps bound micro_stop_s by k facts) (sums_at k t.rows))
        × (t'.micro_count ≡ (expected_micro w gaps bound micro_stop_s facts).0 + t.micro_count)
        × (t'.micro_duration_s
            ≡ (expected_micro w gaps bound micro_stop_s facts).1 + t.micro_duration_s)
  unfolding add_facts
  add_facts_sums k t [] = (ground arith, ground arith, ground arith)
  add_facts_sums k t (f ∷ facts) =
      let now = add_fact_sums k t f in
      let t' = add_fact w observed bound micro_stop_s by t f in
      let later = add_facts_sums k t' facts in
      (
        later.0
            ∙ ap (plus (expected w gaps bound micro_stop_s by k facts)) now.0
            ∙ plus_swap k facts f t,
        omega (arith, now.1, later.1),
        omega (arith, now.2, later.2),
      )

-- Whatever the grouping and the metric, the buckets of a key sum up to the loss stops of that key, counted
-- one by one: stops that are not planned, that lie in part in the window and that last for the threshold
-- at least. What is summed is the microseconds of the window that are in the stop and in no gap, how many
-- stops start in the window, and the same of those with no qualified cause. The shorter stops that start
-- in the window are summed apart.
pub compute_pareto_sums :
    (facts : List StopFact) (w : Window) (gaps : List Gap) (by : By) (metric : Metric)
    (micro_stop_s : ℕ) (until : Option Instant) (k : Key)
    → let r = compute_pareto facts w gaps by metric micro_stop_s until in
      let bound = bound_of w until in
      (sums_at k r.buckets ≡ expected w gaps bound micro_stop_s by k facts)
      × (r.micro_count ≡ (expected_micro w gaps bound micro_stop_s facts).0)
      × (r.micro_duration_s ≡ (expected_micro w gaps bound micro_stop_s facts).1)
unfolding compute_pareto
compute_pareto_sums facts w gaps by metric micro_stop_s until k =
    let bound = bound_of w until in
    let t = add_facts w (observed_intervals w gaps) bound micro_stop_s by no_totals facts in
    let sums = add_facts_sums w gaps bound micro_stop_s by k no_totals facts in
    (
      sums_at-sort_by k metric t.rows
          ∙ sums.0
          ∙ plus_zero k (expected w gaps bound micro_stop_s by k facts),
      omega (arith, sums.1),
      omega (arith, sums.2),
    )
