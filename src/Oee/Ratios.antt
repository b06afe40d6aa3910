-- ===== src/Oee/Ratios.antt =====
-- The ratios of an OEE (`_ratios` in backend/app/oee/compute.py), as exact fractions.
use cell_oee_demo.Prelude.{ℕ, ◌*◌, Option, none, some, ltb, leb, if◌then◌else◌}
use cell_oee_demo.Oee.Types.{Ratio}

-- Quotients and products of ratios.
abbrev pub over : ℕ → ℕ → Ratio
over a b = record { num = a; den = b }

infixl 70 ◌⊗◌
abbrev pub ◌⊗◌ : Ratio → Ratio → Ratio
a ⊗ b = over (a.num * b.num) (a.den * b.den)

pub record Ratios : Type 0 where
  pub availability : Option Ratio
  pub performance : Option Ratio
  pub quality : Option Ratio
  pub oee : Option Ratio

-- `_ratios`, once the time required is not zero.
abbrev pub oee_of : ℕ → ℕ → Ratio → Option Ratio → Option Ratio → Ratio
oee_of planned_s good_tct_s a (some p) (some q) = a ⊗ p ⊗ q
oee_of planned_s good_tct_s a none q = over good_tct_s planned_s
oee_of planned_s good_tct_s a (some p) none = over good_tct_s planned_s

-- `_ratios`
unfoldable pub ratios : ℕ → ℕ → ℕ → ℕ → Ratios
ratios planned_s operating_s good_tct_s total_tct_s =
    if leb planned_s 0
    then record { availability = none; performance = none; quality = none; oee = none }
    else let availability = over operating_s planned_s in
      let performance : Option Ratio =
        if ltb 0 operating_s then some (over total_tct_s operating_s) else none in
      let quality : Option Ratio =
        if ltb 0 total_tct_s then some (over good_tct_s total_tct_s) else none in
      record {
        availability = some availability;
        performance = performance;
        quality = quality;
        oee = some (oee_of planned_s good_tct_s availability performance quality);
      }
