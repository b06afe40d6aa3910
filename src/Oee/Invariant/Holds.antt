-- ===== src/Oee/Invariant/Holds.antt =====
-- The run-time check never fails on a computed result.
use cell_oee_demo.Prelude.{
  ℕ, ◌+◌, ◌*◌, ◌<◌, ◌≡◌, refl, ap, true, none, List, arith, leb, Bool-cases, inl, inr,
}
use cell_oee_demo.Oee.Types.{
  Ratio, OeeResult, Window, loss_s, length_s, second, ok, ClassifiedStop, CounterDelta, Gap,
}
use cell_oee_demo.Oee.Ratios.{over, ◌⊗◌, ratios}
use cell_oee_demo.Oee.Invariant.{
  pico, one_micro, is_close, check_invariant, check_ratios, check_required, ratios_of,
}
use cell_oee_demo.Oee.Compute.{compute_oee}
use cell_oee_demo.Oee.Compute.Accounting.{compute_oee_accounts}

-- Equal fractions.
abbrev pub SameRatio : Ratio → Ratio → Type 0
SameRatio a b = a.num * b.den ≡ b.num * a.den

pub is_close-SameRatio :
    (a b rel_tol abs_tol : Ratio) → SameRatio a b → is_close a b rel_tol abs_tol ≡ true
unfolding is_close
is_close-SameRatio a b rel_tol abs_tol h = ground arith

oee_of-SameRatio :
    (planned_s operating_s good_tct_s total_tct_s : ℕ)
    → SameRatio
        (over operating_s planned_s ⊗ over total_tct_s operating_s ⊗ over good_tct_s total_tct_s)
        (over good_tct_s planned_s)
oee_of-SameRatio planned_s operating_s good_tct_s total_tct_s = omega arith

-- The ratios that `_ratios` returns pass the check, where some time is required.
pub check_ratios_of_ratios :
    (planned_s operating_s good_tct_s total_tct_s : ℕ) (rel_tol : Ratio)
    → 0 < planned_s
    → let r = ratios planned_s operating_s good_tct_s total_tct_s in
      check_ratios r.oee (over good_tct_s planned_s) r.availability r.performance r.quality rel_tol
      ≡ ok tt
unfolding ratios
check_ratios_of_ratios planned_s operating_s good_tct_s total_tct_s rel_tol h =
    let reference = over good_tct_s planned_s in
    let product =
      over operating_s planned_s ⊗ over total_tct_s operating_s ⊗ over good_tct_s total_tct_s in
    ground (
      arith,
      is_close-SameRatio reference reference rel_tol pico refl,
      is_close-SameRatio product product rel_tol pico refl,
      is_close-SameRatio product reference rel_tol pico
          (oee_of-SameRatio planned_s operating_s good_tct_s total_tct_s),
    )

ratios_unrequired :
    (planned_s operating_s good_tct_s total_tct_s : ℕ)
    → leb planned_s 0 ≡ true
    → ratios planned_s operating_s good_tct_s total_tct_s
      ≡ record { availability = none; performance = none; quality = none; oee = none }
unfolding ratios
ratios_unrequired planned_s operating_s good_tct_s total_tct_s e = rw e

check_required_of_ratios :
    (planned_s operating_s good_tct_s total_tct_s : ℕ) (rel_tol : Ratio)
    → check_required planned_s good_tct_s
        (ratios planned_s operating_s good_tct_s total_tct_s)
        rel_tol
      ≡ ok tt
unfolding check_required
check_required_of_ratios planned_s operating_s good_tct_s total_tct_s rel_tol =
    elim (Bool-cases (leb planned_s 0)) [
      | inl e ↦ rw e (rw (ratios_unrequired planned_s operating_s good_tct_s total_tct_s e))
      | inr e ↦ rw e (
          check_ratios_of_ratios planned_s operating_s good_tct_s total_tct_s rel_tol
            (ground (arith, e)))
    ]

-- The window is the sum of the times.
abbrev pub Accounts : OeeResult → Type 0
Accounts r = r.gap_s + r.planned_stop_s + loss_s r + r.operating_s ≡ length_s r.window

-- The ratios are those of the times.
abbrev pub HasRatios : OeeResult → Type 0
HasRatios r = ratios_of r ≡ ratios r.planned_s r.operating_s r.good_tct_s r.total_tct_s

pub check_invariant-ok :
    (r : OeeResult) (rel_tol : Ratio) → Accounts r → HasRatios r → check_invariant r rel_tol ≡ ok tt
unfolding check_invariant
check_invariant-ok r rel_tol h e =
    let time =
      is_close-SameRatio (over (r.gap_s + r.planned_stop_s + loss_s r + r.operating_s) second)
        (over (length_s r.window) second) rel_tol one_micro (ap (λ (x : ℕ). x * second) h) in
    rw time
      (rw e (check_required_of_ratios r.planned_s r.operating_s r.good_tct_s r.total_tct_s rel_tol))

compute_oee-HasRatios :
    (w : Window) (stops : List ClassifiedStop) (deltas : List CounterDelta) (gaps : List Gap)
    → HasRatios (compute_oee w stops deltas gaps)
unfolding compute_oee
compute_oee-HasRatios w stops deltas gaps = refl

pub compute_oee-Accounts :
    (w : Window) (stops : List ClassifiedStop) (deltas : List CounterDelta) (gaps : List Gap)
    → Accounts (compute_oee w stops deltas gaps)
unfolding compute_oee
compute_oee-Accounts w stops deltas gaps = (compute_oee_accounts w stops deltas gaps).0

-- `check_invariant` accepts every result of `compute_oee`, whatever the tolerance: the times add up to
-- the window; without required time all ratios are absent; and with it the OEE is useful time over
-- required time, and the product of the three ratios where they are all defined.
pub check_invariant-compute_oee :
    (w : Window) (stops : List ClassifiedStop) (deltas : List CounterDelta) (gaps : List Gap)
    (rel_tol : Ratio)
    → check_invariant (compute_oee w stops deltas gaps) rel_tol ≡ ok tt
check_invariant-compute_oee w stops deltas gaps rel_tol =
    check_invariant-ok (compute_oee w stops deltas gaps) rel_tol
      (compute_oee-Accounts w stops deltas gaps) (compute_oee-HasRatios w stops deltas gaps)
