-- ===== src/Simulator/Faults.antt =====
-- Disturbances of the cell (simulator/cell_sim/faults.py). Each draw takes a generator and returns the next.
pub mod Bounds
use cell_oee_demo.Prelude.{
  ℕ, suc, zero, ◌+◌, ◌*◌, Bool, not, ◌&&◌, Option, none, some, List, [], ◌∷◌, ◌==◌, if◌then◌else◌,
  ◌++◌,
}
use cell_oee_demo.Simulator.World.{World}
use cell_oee_demo.Simulator.Model.{lookup}
use cell_oee_demo.Simulator.Config.{Range, SimConfig, FaultCfg, StopProcessCfg, is_in}

-- `Interruption`, with its kind; a fault has a code.
pub data Kind : Type 0 where
  fault : ℕ → Kind
  starved blocked : Kind

pub record Interruption (w : World) : Type 0 where
  pub delay_s : w.F
  pub kind : Kind

module _ (w : World) where
  -- The loop of `bounded_lognormal`; at its end, what it falls back to.
  unfoldable pub tries : ℕ → w.F → w.F → w.F → w.F → w.R → w.F × w.R
  tries zero mu sigma lo hi rng =
      let x = w.exp mu in
      let low = if w.lt x lo then lo else x in (if w.lt hi low then hi else low, rng)
  tries (suc n) mu sigma lo hi rng =
      let (x, rng') = w.lognormvariate mu sigma rng in
      let rest = tries n mu sigma lo hi rng' in if w.le lo x && w.le x hi then (x, rng') else rest

  unfoldable pub bounded_lognormal : Range w → w.R → w.F × w.R
  bounded_lognormal (lo_min, hi_min) rng =
      let lo = w.mul lo_min (w.real 60) in
      let hi = w.mul hi_min (w.real 60) in
      let mu = w.log (w.sqrt (w.mul lo hi)) in
      let sigma = w.div (w.log (w.div hi lo)) (w.real 4) in tries 50 mu sigma lo hi rng

  -- The arrivals of the faults, drawn in order.
  unfoldable pub fault_arrivals : List (ℕ × FaultCfg w) → w.R → List (Interruption w) × w.R
  fault_arrivals [] rng = ([], rng)
  fault_arrivals ((code, f) ∷ rows) rng =
      let (delay, rng₁) = w.expovariate (w.div (w.real 1) (w.mul f.mtbf_min (w.real 60))) rng in
      let (more, rng₂) = fault_arrivals rows rng₁ in
      (record { delay_s = delay; kind = fault code } ∷ more, rng₂)

  unfoldable pub flow_arrival : Kind → StopProcessCfg w → w.R → List (Interruption w) × w.R
  flow_arrival kind proc rng =
      if w.lt (w.real 0) proc.rate_per_h
      then (let (delay, rng') = w.expovariate (w.div proc.rate_per_h (w.real 3600)) rng in
          (record { delay_s = delay; kind = kind } ∷ [], rng'))
      else ([], rng)

  -- `min(…, key=…)`, which returns the first of several.
  unfoldable pub earliest : Interruption w → List (Interruption w) → Interruption w
  earliest best [] = best
  earliest best (i ∷ more) =
      if w.lt i.delay_s best.delay_s then earliest i more else earliest best more

  abbrev pub earliest_of : List (Interruption w) → Option (Interruption w)
  earliest_of [] = none
  earliest_of (i ∷ more) = some (earliest i more)

  module _ (cfg : SimConfig w) where
    unfoldable pub next_interruption : w.R → Option (Interruption w) × w.R
    next_interruption rng =
        let (on_faults, rng₁) = fault_arrivals cfg.faults rng in
        let (on_starved, rng₂) = flow_arrival starved cfg.flow.starved rng₁ in
        let (on_blocked, rng₃) = flow_arrival blocked cfg.flow.blocked rng₂ in
        (earliest_of (on_faults ++ on_starved ++ on_blocked), rng₃)

    -- `none` for the KeyError of a fault that is not configured.
    unfoldable pub fault_range : ℕ → Option (Range w)
    fault_range code =
        if code == 201
        then some cfg.weld.fault_201.duration_min
        else elim (lookup code cfg.faults) [ none ↦ none | some f ↦ some f.duration_min ]

    unfoldable pub fault_duration_s : ℕ → w.R → Option (w.F × w.R)
    fault_duration_s code rng = elim (fault_range code) [
      | none ↦ none
      | some range ↦ some (bounded_lognormal range rng)
    ]

    abbrev pub at_least_1 : w.F → w.F
    at_least_1 x = if w.lt (w.real 1) x then x else w.real 1

    unfoldable pub flow_duration_s : StopProcessCfg w → w.R → w.F × w.R
    flow_duration_s proc rng =
        let (p, rng₁) = w.random rng in
        let (x, rng₂) =
          if w.lt p proc.p_short
          then w.expovariate (w.div (w.real 1) proc.short_mean_s) rng₁
          else w.expovariate (w.div (w.real 1) (w.mul proc.long_mean_min (w.real 60))) rng₁ in
        (at_least_1 x, rng₂)

    -- The draw is only made if the fault is in the list.
    unfoldable pub manual_follows : ℕ → w.R → Bool × w.R
    manual_follows code rng =
        if is_in code cfg.manual.after_faults
        then (let (p, rng') = w.random rng in (w.lt p cfg.manual.probability, rng'))
        else (Bool.false, rng)

    unfoldable pub manual_duration_s : w.R → w.F × w.R
    manual_duration_s rng = bounded_lognormal cfg.manual.duration_min rng
