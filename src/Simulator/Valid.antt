-- ===== src/Simulator/Valid.antt =====
-- What the simulator relies on: the arithmetic of positive floats and the draws of `random`, and a
-- configuration that passes the validation of simulator/cell_sim/config.py.
use cell_oee_demo.Prelude.{ℕ, ◌<◌, ◌≡◌, true, ℤ, pos, negsuc, All}
use cell_oee_demo.Simulator.World.{World}
use cell_oee_demo.Simulator.Model.{keys}
use cell_oee_demo.Simulator.Config.{
  Range, SimConfig, FaultCfg, StopProcessCfg, known_faults, contiguous_shifts,
}

-- The delay does not go back.
abbrev pub IsForward : ℤ → Type 0
IsForward (pos n) = Unit
IsForward (negsuc n) = ⊥

module _ (w : World) where
  abbrev pub Positive : w.F → Type 0
  Positive x = w.lt (w.real 0) x ≡ true

  -- The duration is not negative.
  abbrev pub Forward : w.F → Type 0
  Forward x = IsForward (w.micros x)

  -- Positive floats that neither overflow nor underflow, and the documented ranges of the draws:
  -- `lognormvariate` is positive, and `expovariate` of a positive rate is not negative.
  pub record IsArithmetic : Type 0 where
    pub real_zero : Forward (w.real 0)
    pub real_positive : (n : ℕ) → 0 < n → Positive (w.real n)
    pub positive_forward : (x : w.F) → Positive x → Forward x
    pub add_positive : (x y : w.F) → Positive x → Positive y → Positive (w.add x y)
    pub mul_positive : (x y : w.F) → Positive x → Positive y → Positive (w.mul x y)
    pub div_positive : (x y : w.F) → Positive x → Positive y → Positive (w.div x y)
    pub exp_positive : (x : w.F) → Positive (w.exp x)
    pub lognormvariate_positive :
        (mu sigma : w.F) (rng : w.R) → Positive (w.lognormvariate mu sigma rng).0
    pub expovariate_forward :
        (rate : w.F) (rng : w.R) → Positive rate → Forward (w.expovariate rate rng).0

  abbrev pub IsRange : Range w → Type 0
  IsRange (lo, hi) = Positive lo × Positive hi

  abbrev pub IsFault : ℕ × FaultCfg w → Type 0
  IsFault (code, f) = Positive f.mtbf_min × IsRange f.duration_min

  abbrev pub IsProcess : StopProcessCfg w → Type 0
  IsProcess proc = Positive proc.short_mean_s × Positive proc.long_mean_min

  -- What the validation of the configuration ensures.
  pub record IsValidated (cfg : SimConfig w) : Type 0 where
    pub known : known_faults (keys cfg.faults) ≡ true
    pub contiguous : contiguous_shifts cfg.shifts ≡ true
    pub cycle : Positive cfg.cell.theoretical_cycle_s
    pub points : 0 < cfg.weld.points_per_part
    pub dressing : Positive cfg.weld.tip_dressing.duration_s
    pub cap_change : Positive cfg.weld.cap_change.duration_s
    pub weld_fault : IsRange cfg.weld.fault_201.duration_min
    pub faults : All IsFault cfg.faults
    pub starved : IsProcess cfg.flow.starved
    pub blocked : IsProcess cfg.flow.blocked
    pub manual : IsRange cfg.manual.duration_min
