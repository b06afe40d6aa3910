-- ===== src/Oee/Compute/Split.antt =====
-- Splitting a window: what straddles the boundary contributes exactly its overlap to each side.
use cell_oee_demo.Prelude.{
  ℕ, zero, suc, ◌+◌, ◌-◌, ◌≤◌, ◌≡◌, refl, Bool, List, [], ◌∷◌, arith, ◌∙◌, ap,
}
use native.Mathlib.Nat.{add-zero, add-suc, add_assoc}
use Prim.Native.String.{String}
use cell_oee_demo.Oee.Types.{Window, ClassifiedStop, CounterDelta, Gap}
use cell_oee_demo.Oee.Intervals.Measure.{measure}
use cell_oee_demo.Oee.Compute.{
  Tally, tally_one, tally_deltas, zero_tally, compute_oee, fault, setup, starved, blocked, manual,
}
use cell_oee_demo.Oee.Compute.Pointwise.{
  Category, gap, planned_stop, operating, lost, same_category, category, category_at, time_as,
  micro_at, compute_oee-eq-time_as, micro_s-eq-measure,
}
use cell_oee_demo.Oee.Compute.Accounting.{compute_oee_accounts}

measure-add :
    (base m n : ℕ) (p : ℕ → Bool)
    → measure (m + n) (λ t. p (base + t))
      ≡ measure m (λ t. p (base + t)) + measure n (λ t. p (base + m + t))
unfolding measure
measure-add base m zero p = rw add-zero (omega arith)
measure-add base m (suc n) p = rw (add-suc, ← add_assoc) (omega (arith, measure-add base m n p))

measure-cut :
    (a b c : ℕ) (p : ℕ → Bool)
    → a ≤ b
    → b ≤ c
    → measure (c - a) (λ t. p (a + t))
      ≡ measure (b - a) (λ t. p (a + t)) + measure (c - b) (λ t. p (b + t))
measure-cut a b c p h k =
    let whole : c - a ≡ (b - a) + (c - b) = omega arith in
    let here : a + (b - a) ≡ b = omega arith in
    rw whole (
      measure-add a (b - a) (c - b) p
      ∙ ap (λ (x : ℕ). measure (b - a) (λ t. p (a + t)) + measure (c - b) (λ t. p (x + t))) here)

abbrev pub plus_tally : Tally → Tally → Tally
plus_tally s t = record {
  good = s.good + t.good;
  scrap = s.scrap + t.scrap;
  dropped = s.dropped + t.dropped;
  good_tct_s = s.good_tct_s + t.good_tct_s;
  total_tct_s = s.total_tct_s + t.total_tct_s;
}

module _ (v u : String) (w : String) (a b c : ℕ) (h : a ≤ b) (k : b ≤ c) where
  abbrev whole : Window
  whole = record { label = w; start = a; end = c }

  abbrev left : Window
  left = record { label = v; start = a; end = b }

  abbrev right : Window
  right = record { label = u; start = b; end = c }

  tally_one-split :
      (gaps : List Gap) (s t : Tally) (d : CounterDelta)
      → tally_one whole gaps (plus_tally s t) d
        ≡ plus_tally (tally_one left gaps s d) (tally_one right gaps t d)
  unfolding tally_one
  tally_one-split gaps s t d = ground arith

  tally_deltas-split :
      (gaps : List Gap) (s t : Tally) (deltas : List CounterDelta)
      → tally_deltas whole gaps (plus_tally s t) deltas
        ≡ plus_tally (tally_deltas left gaps s deltas) (tally_deltas right gaps t deltas)
  unfolding tally_deltas
  tally_deltas-split gaps s t [] = refl
  tally_deltas-split gaps s t (d ∷ deltas) =
      rw (tally_one-split gaps s t d)
        (tally_deltas-split gaps (tally_one left gaps s d) (tally_one right gaps t d) deltas)

  time_as-split :
      (stops : List ClassifiedStop) (gaps : List Gap) (category : Category)
      → time_as whole stops gaps category
        ≡ time_as left stops gaps category + time_as right stops gaps category
  time_as-split stops gaps category =
      measure-cut a b c (λ x. same_category category (category_at stops gaps x)) h k

  micro_s-split :
      (stops : List ClassifiedStop) (deltas : List CounterDelta) (gaps : List Gap)
      → (compute_oee whole stops deltas gaps).micro_s
        ≡ (compute_oee left stops deltas gaps).micro_s
          + (compute_oee right stops deltas gaps).micro_s
  micro_s-split stops deltas gaps =
      rw
        (
          micro_s-eq-measure whole stops deltas gaps,
          micro_s-eq-measure left stops deltas gaps,
          micro_s-eq-measure right stops deltas gaps,
        )
        (measure-cut a b c (micro_at stops gaps) h k)

-- Cutting a window at an instant inside it changes no total: each time, the
-- microstops included, and each count of the whole window is the sum over the two parts. A stop or a gap across the cut gives each side exactly its
-- overlap, and each delta is counted on one side.
pub compute_oee-split :
    (v u w : String) (a b c : ℕ) (stops : List ClassifiedStop) (deltas : List CounterDelta)
    (gaps : List Gap)
    → a ≤ b
    → b ≤ c
    → let r = compute_oee (record { label = w; start = a; end = c }) stops deltas gaps in
      let l = compute_oee (record { label = v; start = a; end = b }) stops deltas gaps in
      let m = compute_oee (record { label = u; start = b; end = c }) stops deltas gaps in
      (r.gap_s ≡ l.gap_s + m.gap_s)
      × (r.opening_s ≡ l.opening_s + m.opening_s)
      × (r.planned_stop_s ≡ l.planned_stop_s + m.planned_stop_s)
      × (r.planned_s ≡ l.planned_s + m.planned_s)
      × (r.fault_s ≡ l.fault_s + m.fault_s)
      × (r.setup_s ≡ l.setup_s + m.setup_s)
      × (r.starved_s ≡ l.starved_s + m.starved_s)
      × (r.blocked_s ≡ l.blocked_s + m.blocked_s)
      × (r.manual_s ≡ l.manual_s + m.manual_s)
      × (r.micro_s ≡ l.micro_s + m.micro_s)
      × (r.operating_s ≡ l.operating_s + m.operating_s)
      × (r.good ≡ l.good + m.good)
      × (r.scrap ≡ l.scrap + m.scrap)
      × (r.dropped_parts ≡ l.dropped_parts + m.dropped_parts)
      × (r.good_tct_s ≡ l.good_tct_s + m.good_tct_s)
      × (r.total_tct_s ≡ l.total_tct_s + m.total_tct_s)
unfolding compute_oee
compute_oee-split v u w a b c stops deltas gaps h k =
    let r = compute_oee-eq-time_as (whole v u w a b c h k) stops deltas gaps in
    let l = compute_oee-eq-time_as (left v u w a b c h k) stops deltas gaps in
    let m = compute_oee-eq-time_as (right v u w a b c h k) stops deltas gaps in
    let ra = compute_oee_accounts (whole v u w a b c h k) stops deltas gaps in
    let la = compute_oee_accounts (left v u w a b c h k) stops deltas gaps in
    let ma = compute_oee_accounts (right v u w a b c h k) stops deltas gaps in
    let micro = micro_s-split v u w a b c h k stops deltas gaps in
    let time = time_as-split v u w a b c h k stops gaps in
    let opening : (compute_oee (whole v u w a b c h k) stops deltas gaps).opening_s
        ≡ (compute_oee (left v u w a b c h k) stops deltas gaps).opening_s
          + (compute_oee (right v u w a b c h k) stops deltas gaps).opening_s =
      omega (arith, r.0, l.0, m.0, time gap, ra.1, la.1, ma.1) in
    let t = tally_deltas-split v u w a b c h k gaps zero_tally zero_tally deltas in
    (
      omega (arith, r.0, l.0, m.0, time gap),
      opening,
      omega (arith, r.1, l.1, m.1, time planned_stop),
      omega (arith, r.1, l.1, m.1, time planned_stop, opening, ra.2, la.2, ma.2),
      omega (arith, r.2, l.2, m.2, time (lost fault)),
      omega (arith, r.3, l.3, m.3, time (lost setup)),
      omega (arith, r.4, l.4, m.4, time (lost starved)),
      omega (arith, r.5, l.5, m.5, time (lost blocked)),
      omega (arith, r.6, l.6, m.6, time (lost manual)),
      micro,
      omega (arith, r.7, l.7, m.7, time operating),
      ap (λ (x : Tally). x.good) t,
      ap (λ (x : Tally). x.scrap) t,
      ap (λ (x : Tally). x.dropped) t,
      ap (λ (x : Tally). x.good_tct_s) t,
      ap (λ (x : Tally). x.total_tct_s) t,
    )
