-- ===== src/Oee/Combine/Total.antt =====
-- Windows taken together: the sums keep the accounting, so the run-time check holds for the total.
use cell_oee_demo.Prelude.{◌+◌, ◌≤◌, ◌≡◌, refl, min, max, List, [], ◌∷◌, arith, sum_of, All}
use Prim.Native.String.{String}
use cell_oee_demo.Oee.Types.{Instant, OeeResult, Ratio, ok, length_s, make_window, Window}
use cell_oee_demo.Oee.Combine.{combine, total_of, first_start, latest_end}
use cell_oee_demo.Oee.Invariant.{check_invariant}
use cell_oee_demo.Oee.Invariant.Holds.{Accounts, check_invariant-ok}

-- Windows that follow one another without a break, the first from `at`.
abbrev pub Follows : Instant → List OeeResult → Type 0
Follows at [] = Unit
Follows at (r ∷ results) =
    (r.window.start ≡ at) × (at ≤ r.window.end) × Follows r.window.end results

first_start-Follows :
    (low at : Instant) (results : List OeeResult)
    → low ≤ at
    → Follows at results
    → first_start low results ≡ low
first_start-Follows low at [] h f = refl
first_start-Follows low at (r ∷ results) h f =
    let same : min low r.window.start ≡ low = omega arith in
    rw same (first_start-Follows low r.window.end results (omega arith) f.2)

latest_end-Follows :
    (at : Instant) (results : List OeeResult)
    → Follows at results
    → latest_end at results ≡ at + sum_of (λ r. length_s r.window) results
latest_end-Follows at [] f = omega arith
latest_end-Follows at (r ∷ results) f =
    let same : max at r.window.end ≡ r.window.end = omega arith in
    rw same (omega (arith, latest_end-Follows r.window.end results f.2))

-- The sum of the windows' lengths is the sum of all the times.
sums_account :
    (results : List OeeResult)
    → All Accounts results
    → sum_of (λ r. r.gap_s) results
        + sum_of (λ r. r.planned_stop_s) results
        + (sum_of (λ r. r.fault_s) results
            + sum_of (λ r. r.setup_s) results
            + sum_of (λ r. r.starved_s) results
            + sum_of (λ r. r.blocked_s) results
            + sum_of (λ r. r.manual_s) results)
        + sum_of (λ r. r.operating_s) results
      ≡ sum_of (λ r. length_s r.window) results
sums_account [] a = omega arith
sums_account (r ∷ results) a = omega (arith, sums_account results a.1)

make_window-ok :
    (label : String) (a b : Instant)
    → a ≤ b
    → make_window label a b ≡ ok (record { label = label; start = a; end = b })
unfolding make_window
make_window-ok label a b h = ground arith

-- For results whose times add up to their windows, over windows that follow one another without a
-- break, `combine` succeeds, the window of the total runs from the first start to the last end, and
-- `check_invariant` accepts the total.
pub check_invariant-combine :
    (first : OeeResult) (rest : List OeeResult) (label : String) (rel_tol : Ratio)
    → All Accounts (first ∷ rest)
    → Follows first.window.start (first ∷ rest)
    → (r : OeeResult) × (combine (first ∷ rest) label ≡ ok r)
      × (r.window.start ≡ first.window.start)
      × (r.window.end ≡ latest_end first.window.end rest)
      × (check_invariant r rel_tol ≡ ok tt)
unfolding combine total_of
check_invariant-combine first rest label rel_tol a f =
    let start = first.window.start in
    let end = latest_end first.window.end rest in
    let ends = latest_end-Follows first.window.end rest f.2 in
    let window : Window = record { label = label; start = start; end = end } in
    let r = total_of (first ∷ rest) window in
    let accounts : Accounts r = omega (arith, sums_account (first ∷ rest) a, ends, f.1) in
    (
      r,
      rw (first_start-Follows start first.window.end rest f.1 f.2)
          (rw (make_window-ok label start end (omega (arith, ends, f.1)))),
      refl,
      refl,
      check_invariant-ok r rel_tol accounts refl,
    )
