-- ===== src/Oee/Invariant.antt =====
-- The accounting identities that are verified at run time (`check_invariant` in
-- backend/app/oee/compute.py, and the `math.isclose` that it calls, on exact fractions).
pub mod Holds
use cell_oee_demo.Prelude.{
  ℕ, ◌+◌, ◌-◌, ◌*◌, ◌^◌, Bool, true, false, not, ◌&&◌, ◌||◌, Option, none, some, leb, ◌==◌,
  if◌then◌else◌, is_some,
}
use cell_oee_demo.Oee.Types.{
  Ratio, OeeResult, loss_s, length_s, second, Result, ok, err, time_accounting,
  ratios_without_planned, oee_mismatch, product_mismatch,
}
use cell_oee_demo.Oee.Ratios.{over, ◌⊗◌, Ratios}

abbrev pub distance : ℕ → ℕ → ℕ
distance a b = (a - b) + (b - a)

-- abs(a - b) for fractions.
abbrev pub abs_diff : Ratio → Ratio → Ratio
abs_diff a b = over (distance (a.num * b.den) (b.num * a.den)) (a.den * b.den)

abbrev pub le_ratio : Ratio → Ratio → Bool
le_ratio a b = leb (a.num * b.den) (b.num * a.den)

-- `math.isclose` of Python's standard library, for numbers that are not negative.
unfoldable pub is_close : Ratio → Ratio → Ratio → Ratio → Bool
is_close a b rel_tol abs_tol =
    (a.num * b.den == b.num * a.den)
    || le_ratio (abs_diff a b) (rel_tol ⊗ b)
    || le_ratio (abs_diff a b) (rel_tol ⊗ a)
    || le_ratio (abs_diff a b) abs_tol

abbrev pub nano : Ratio
nano = over 1 (10 ^ 9)

abbrev pub pico : Ratio
pico = over 1 (10 ^ 12)

abbrev pub one_micro : Ratio
one_micro = over 1 (10 ^ 6)

-- The last test: the three ratios, where all are defined.
abbrev pub check_product :
    Option Ratio → Option Ratio → Option Ratio → Ratio → Ratio → Result (Unit {0})
check_product (some a) (some p) (some q) oee rel_tol =
    if is_close (a ⊗ p ⊗ q) oee rel_tol pico then ok tt else err product_mismatch
check_product none p q oee rel_tol = ok tt
check_product (some a) none q oee rel_tol = ok tt
check_product (some a) (some p) none oee rel_tol = ok tt

-- The tests on the ratios, against the reference.
abbrev pub check_ratios :
    Option Ratio → Ratio → Option Ratio → Option Ratio → Option Ratio → Ratio → Result (Unit {0})
check_ratios none reference a p q rel_tol = err oee_mismatch
check_ratios (some oee) reference a p q rel_tol =
    if not (is_close oee reference rel_tol pico)
    then err oee_mismatch
    else check_product a p q oee rel_tol

-- What follows the test of the times.
unfoldable pub check_required : ℕ → ℕ → Ratios → Ratio → Result (Unit {0})
check_required planned_s good_tct_s q rel_tol =
    if leb planned_s 0
    then if is_some q.availability || is_some q.performance || is_some q.quality || is_some q.oee
      then err ratios_without_planned
      else ok tt
    else check_ratios q.oee (over good_tct_s planned_s) q.availability q.performance q.quality
        rel_tol

abbrev pub ratios_of : OeeResult → Ratios
ratios_of r = record {
  availability = r.availability;
  performance = r.performance;
  quality = r.quality;
  oee = r.oee;
}

unfoldable pub check_invariant : OeeResult → Ratio → Result (Unit {0})
check_invariant r rel_tol =
    let accounted = r.gap_s + r.planned_stop_s + loss_s r + r.operating_s in
    if not (is_close (over accounted second) (over (length_s r.window) second) rel_tol one_micro)
    then err time_accounting
    else check_required r.planned_s r.good_tct_s (ratios_of r) rel_tol
