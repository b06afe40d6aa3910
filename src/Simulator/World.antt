-- ===== src/Simulator/World.antt =====
-- What the simulator takes from Python: floats, and the generators of `random`. A float is a value of an
-- unknown type `F`, and a generator is a state `R` that a draw changes.
use cell_oee_demo.Prelude.{ℕ, ℤ, Bool}

pub record World : Type 1 where
  pub F : Type 0
  pub R : Type 0
  pub real : ℕ → F
  pub add : F → F → F
  pub sub : F → F → F
  pub mul : F → F → F
  pub div : F → F → F
  pub pow : F → F → F
  pub sqrt : F → F
  pub log : F → F
  pub exp : F → F
  pub abs : F → F
  pub le : F → F → Bool
  pub lt : F → F → Bool
  pub eq : F → F → Bool
  -- `round(x, 3)`, `round(x)` and `int(x)`, for values that are not negative
  pub round_3 : F → F
  pub round : F → ℕ
  pub trunc : F → ℕ
  -- a duration in seconds, which may be negative, in whole microseconds of the clock
  pub micros : F → ℤ
  -- `uniform(-x, x)`
  pub uniform : F → R → F × R
  pub random : R → F × R
  pub gauss : R → F × R
  pub expovariate : F → R → F × R
  pub lognormvariate : F → F → R → F × R
