-- ===== src/Simulator/Tests.antt =====
-- A cell on whole numbers, and the theorems on it.
use cell_oee_demo.Prelude.{
  ℕ, ◌+◌, ◌-◌, ◌*◌, ◌/◌, ◌%◌, ◌≡◌, ◌≢◌, refl, true, false, none, some, List, [], ◌∷◌, ◌++◌, arith,
  ◌==◌, ◌<◌, All, ltb, leb, suc, zero, pos, max,
}
use cell_oee_demo.Simulator.Valid.{IsArithmetic, IsValidated}
use cell_oee_demo.Simulator.World.{World}
use cell_oee_demo.Simulator.Model.{keys}
use cell_oee_demo.Simulator.Config.{
  ShiftCfg, SimConfig, SetupCfg, StopProcessCfg, contiguous_shifts, follow, known_faults, start_s,
  end_s, seconds,
}
use cell_oee_demo.Simulator.Shifts.{
  BreakWindow, next_window, starts, shift_at, first_shift, holds_shift, day, second,
}
use cell_oee_demo.Simulator.Shifts.NextBreak.{IsFirst}
use cell_oee_demo.Simulator.Shifts.Earliest.{IsEarliest, next_window-IsEarliest}
use cell_oee_demo.Simulator.Shifts.Cover.{Returns, shift_at-Returns}
use cell_oee_demo.Simulator.Faults.{bounded_lognormal}
use cell_oee_demo.Simulator.Faults.Bounds.{IsOrder, IsBetween, bounded_lognormal-IsBetween}
use cell_oee_demo.Simulator.Cell.{Simulation, ◌>>=◌}
use cell_oee_demo.Simulator.Engine.{Streams, snapshot, new_simulation, start_all}
use cell_oee_demo.Simulator.Ready.Transitions.{Sure-cases}
use cell_oee_demo.Simulator.Ready.{Sure}
use cell_oee_demo.Simulator.Ready.Runs.{Call, event, forced, Output, calls, IsIdle}
use cell_oee_demo.Simulator.Ready.Start.{run-IsIdle}
use cell_oee_demo.Simulator.Ready.Order.{RunsFrom, run-AreOrdered}

-- Floats are whole numbers, with no quotient and no power of e below 1, and every draw is the state of its
-- generator or the next number.
abbrev whole : World
whole = record {
  F = ℕ;
  R = ℕ;
  real = λ n. n;
  add = λ x y. x + y;
  sub = λ x y. x - y;
  mul = λ x y. x * y;
  div = λ x y. max 1 (x / y);
  pow = λ x y. x;
  sqrt = λ x. x;
  log = λ x. x;
  exp = λ x. suc x;
  abs = λ x. x;
  le = leb;
  lt = ltb;
  eq = λ x y. x == y;
  round_3 = λ x. x;
  round = λ x. x;
  trunc = λ x. x;
  micros = λ x. pos (x * 1000000);
  uniform = λ x r. (0, r);
  random = λ r. (r, r);
  gauss = λ r. (r, r);
  expovariate = λ x r. (r, r);
  lognormvariate = λ m s r. (suc r, r);
}

whole-IsOrder : IsOrder whole
whole-IsOrder = record {
  le_refl = λ x. ground arith;
  not_lt = λ x y h. ground arith;
  lt_le = λ x y h. ground arith;
}

mul-Positive : (x y : ℕ) → ltb 0 x ≡ true → ltb 0 y ≡ true → ltb 0 (x * y) ≡ true
mul-Positive zero y h k = absurd (ground (arith, h))
mul-Positive (suc x) y h k = ground (arith, k, mul-Positive x y)

whole-IsArithmetic : IsArithmetic whole
whole-IsArithmetic = record {
  real_zero = tt;
  real_positive = λ n h. ground (arith, h);
  positive_forward = λ x h. tt;
  add_positive = λ x y h k. ground (arith, h, k);
  mul_positive = λ x y h k. mul-Positive x y h k;
  div_positive = λ x y h k. ground arith;
  exp_positive = λ x. ground arith;
  lognormvariate_positive = λ m s r. ground arith;
  expovariate_forward = λ x r h. tt;
}

abbrev shifts_3 : List ShiftCfg
shifts_3 =
    record { start = (6, 0); end = (14, 0) }
    ∷ record { start = (14, 0); end = (22, 0) }
    ∷ record { start = (22, 0); end = (6, 0) }
    ∷ []

abbrev every_150 : SetupCfg whole
every_150 = record { every_parts = 150; jitter_pct = 10; duration_s = 30 }

abbrev never : StopProcessCfg whole
never = record { rate_per_h = 0; p_short = 1; short_mean_s = 1; long_mean_min = 1 }

abbrev config : SimConfig whole
config = record {
  clock_start = 864000000000;
  shifts = shifts_3;
  planned_break = record { offset = 14400000000; duration = 1200000000 };
  cell = record {
    theoretical_cycle_s = 55;
    cycle_noise = record { mean_extra_s = 2; sigma = 1 };
    base_scrap_rate = 0;
  };
  weld = record {
    points_per_part = 2;
    nominal_current_ka = 8;
    tolerance_pct = 1000;
    noise_sigma_pct = 0;
    noise_autocorrelation = 0;
    wear = record {
      irreversible_at_cap_life = 0;
      reversible_at_dressing_interval = 0;
      dressing_recovery = 0;
      dressing_material_loss = 0;
      drift_max_pct = 0;
      drift_exponent = 1;
    };
    tip_dressing = every_150;
    cap_change = every_150;
    fault_201 = record { consecutive_nok_parts = 2; duration_min = (5, 20) };
  };
  faults = (202, record { mtbf_min = 100; duration_min = (5, 45) }) ∷ [];
  flow = record { starved = never; blocked = never };
  manual = record { after_faults = 202 ∷ []; probability = 1; duration_min = (2, 10) };
  chaos = record {
    enabled = true;
    counters_at_start = some (record { good = 7; scrap = 4294967296 });
    counter_reset_every = none;
    heartbeat_freeze = some (record { every = 3600000000; duration = 60000000 });
  };
}

abbrev streams_9 : Streams whole
streams_9 = record {
  cycle = 5;
  quality = 0;
  jitter = 0;
  weld = 0;
  arrivals = 400;
  durations = 0;
  manual = 3;
}

abbrev fresh : Simulation whole
fresh = new_simulation whole config none streams_9

abbrev two_calls : List (Call whole)
two_calls = event ∷ forced 202 600 864000500000 ∷ event ∷ []

shifts_3-contiguous : contiguous_shifts shifts_3 ≡ true
unfolding contiguous_shifts follow
shifts_3-contiguous = refl

faults-known : known_faults (keys config.faults) ≡ true
unfolding known_faults
faults-known = refl

config-IsValidated : IsValidated whole config
config-IsValidated = record {
  known = faults-known;
  contiguous = shifts_3-contiguous;
  cycle = refl;
  points = omega arith;
  dressing = refl;
  cap_change = refl;
  weld_fault = (refl, refl);
  faults = ((refl, (refl, refl)), tt);
  starved = (refl, refl);
  blocked = (refl, refl);
  manual = (refl, refl);
}

-- The shifts, listed from the second on.
abbrev from_afternoon : List ShiftCfg
from_afternoon =
    record { start = (14, 0); end = (22, 0) }
    ∷ record { start = (22, 0); end = (6, 0) }
    ∷ record { start = (6, 0); end = (14, 0) }
    ∷ []

from_afternoon-contiguous : contiguous_shifts from_afternoon ≡ true
unfolding contiguous_shifts follow
from_afternoon-contiguous = refl

from_afternoon-daily : All (λ (s : ShiftCfg). start_s s * second < day) from_afternoon
unfolding seconds
from_afternoon-daily = (omega arith, (omega arith, (omega arith, tt)))

next_window-IsEarliest_example :
    (window : BreakWindow) × (next_window from_afternoon config.planned_break 864000000000
      ≡ some window)
    × IsFirst config.planned_break
        (864000000000 / day - 2)
        (starts from_afternoon)
        864000000000
        window
    × IsEarliest config.planned_break from_afternoon 864000000000 window
next_window-IsEarliest_example =
    next_window-IsEarliest from_afternoon config.planned_break 864000000000
      from_afternoon-contiguous from_afternoon-daily (omega arith)

abbrev morning : ShiftCfg
morning = record { start = (6, 0); end = (14, 0) }

abbrev others : List ShiftCfg
others = record { start = (14, 0); end = (22, 0) } ∷ record { start = (22, 0); end = (6, 0) } ∷ []

morning-proper : start_s morning ≢ end_s morning
unfolding seconds
morning-proper e = omega (arith, e)

shift_at-Returns_example : Returns (864000000000 % day) (shift_at (morning ∷ others) 864000000000)
shift_at-Returns_example =
    shift_at-Returns morning others 864000000000 shifts_3-contiguous morning-proper

-- A single shift around the clock passes the validation, and holds no time of day.
abbrev around_the_clock : List ShiftCfg
around_the_clock = record { start = (6, 0); end = (6, 0) } ∷ []

around_the_clock-contiguous : contiguous_shifts around_the_clock ≡ true
unfolding contiguous_shifts follow
around_the_clock-contiguous = refl

around_the_clock-fails : shift_at around_the_clock 864000000000 ≡ none
unfolding shift_at first_shift holds_shift seconds
around_the_clock-fails = refl

bounded_lognormal-IsBetween_example :
    IsBetween whole 300 2700 (bounded_lognormal whole (5, 45) 400).0
bounded_lognormal-IsBetween_example =
    bounded_lognormal-IsBetween whole whole-IsOrder (5, 45) 400 refl

run-IsIdle_example :
    Sure
      (λ (r : Output whole config). IsIdle whole config r.1)
      (start_all whole config fresh >>= λ (out, s). calls whole config two_calls s)
run-IsIdle_example =
    run-IsIdle whole config whole-IsArithmetic config-IsValidated none streams_9 two_calls tt
      (tt, ((refl, tt), (tt, tt)))

run-AreOrdered_example : Sure (RunsFrom whole config fresh.now) (
    start_all whole config fresh >>= λ (out, s).
    calls whole config two_calls s >>= λ (more, s'). some (out ++ more, s'))
run-AreOrdered_example =
    run-AreOrdered whole config whole-IsArithmetic config-IsValidated none streams_9 two_calls tt
      (tt, ((refl, tt), (tt, tt)))

-- What is left after the two calls.
idle_run :
    (r : Output whole config) × ((start_all whole config fresh >>= λ (out, s).
    calls whole config two_calls s)
      ≡ some r)
    × IsIdle whole config r.1
idle_run =
    Sure-cases whole config (λ (r : Output whole config). IsIdle whole config r.1)
      (start_all whole config fresh >>= λ (out, s). calls whole config two_calls s)
      (run-IsIdle whole config whole-IsArithmetic config-IsValidated none streams_9 two_calls tt
        (tt, ((refl, tt), (tt, tt))))

abbrev restored : Simulation whole
restored =
    new_simulation whole config
      (some (snapshot whole false (some 864000900000) 70000000 idle_run.0.1)) streams_9
