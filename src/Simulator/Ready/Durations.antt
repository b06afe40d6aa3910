-- ===== src/Simulator/Ready/Durations.antt =====
-- The durations that are drawn do not go back.
use cell_oee_demo.Prelude.{
  ℕ, zero, suc, ◌≡◌, ◌&&◌, Option, none, some, List, [], ◌∷◌, ◌==◌, arith, if◌then◌else◌,
  Bool-cases, Option-cases, inl, inr, All,
}
use mathlib.Core.Path.{subst}
use cell_oee_demo.Simulator.World.{World}
use cell_oee_demo.Simulator.Model.{lookup}
use cell_oee_demo.Simulator.Config.{Range, SimConfig, FaultCfg, StopProcessCfg}
use cell_oee_demo.Simulator.Valid.{
  Forward, Positive, IsArithmetic, IsRange, IsFault, IsProcess, IsValidated,
}
use cell_oee_demo.Simulator.Faults.{
  tries, bounded_lognormal, fault_range, flow_duration_s, manual_duration_s,
}
use cell_oee_demo.Simulator.Ready.Queue.{if-both}

module _ (w : World) (laws : IsArithmetic w) where
  tries-Positive :
      (n : ℕ) (mu sigma lo hi : w.F) (rng : w.R)
      → Positive w lo
      → Positive w hi
      → Positive w (tries w n mu sigma lo hi rng).0
  unfolding tries
  tries-Positive zero mu sigma lo hi rng l h =
      if-both (Positive w) (w.lt hi (if w.lt (w.exp mu) lo then lo else w.exp mu)) hi _ (λ e. h)
        λ e.
          if-both (Positive w) (w.lt (w.exp mu) lo) lo (w.exp mu) (λ d. l) λ d. laws.exp_positive mu
  tries-Positive (suc n) mu sigma lo hi rng l h =
      let (x, rng') = w.lognormvariate mu sigma rng in
      if-both (λ (r : w.F × w.R). Positive w r.0) (w.le lo x && w.le x hi) (x, rng')
        (tries w n mu sigma lo hi rng') (λ e. laws.lognormvariate_positive mu sigma rng)
        λ e. tries-Positive n mu sigma lo hi rng' l h

  pub bounded_lognormal-Forward :
      (range : Range w) (rng : w.R) → IsRange w range → Forward w (bounded_lognormal w range rng).0
  unfolding bounded_lognormal
  bounded_lognormal-Forward (lo_min, hi_min) rng (l, h) =
      let sixty = laws.real_positive 60 (omega arith) in
      laws.positive_forward _ (
        tries-Positive 50 _ _ (w.mul lo_min (w.real 60)) (w.mul hi_min (w.real 60)) rng
          (laws.mul_positive lo_min (w.real 60) l sixty)
          (laws.mul_positive hi_min (w.real 60) h sixty))

  module _ (cfg : SimConfig w) where
    pub flow_duration_s-Forward :
        (proc : StopProcessCfg w) (rng : w.R)
        → IsProcess w proc
        → Forward w (flow_duration_s w cfg proc rng).0
    unfolding flow_duration_s
    flow_duration_s-Forward proc rng (short, long) =
        let one = laws.real_positive 1 (omega arith) in
        let sixty = laws.real_positive 60 (omega arith) in
        let (p, rng₁) = w.random rng in
        let long_s = w.mul proc.long_mean_min (w.real 60) in
        let drawn =
          if-both (λ (r : w.F × w.R). Forward w r.0) (w.lt p proc.p_short)
            (w.expovariate (w.div (w.real 1) proc.short_mean_s) rng₁)
            (w.expovariate (w.div (w.real 1) long_s) rng₁)
            (λ e.
              laws.expovariate_forward _ rng₁
                (laws.div_positive (w.real 1) proc.short_mean_s one short))
            λ e. laws.expovariate_forward _ rng₁ (
              laws.div_positive (w.real 1) long_s one
                (laws.mul_positive proc.long_mean_min (w.real 60) long sixty)) in
        if-both (Forward w) _ _ (w.real 1) (λ e. drawn) λ e. laws.positive_forward (w.real 1) one

    pub manual_duration_s-Forward :
        (valid : IsValidated w cfg) (rng : w.R) → Forward w (manual_duration_s w cfg rng).0
    unfolding manual_duration_s
    manual_duration_s-Forward valid rng =
        bounded_lognormal-Forward cfg.manual.duration_min rng valid.manual

module _ (w : World) (cfg : SimConfig w) where
  abbrev MayBeRange : Option (Range w) → Type 0
  MayBeRange none = Unit
  MayBeRange (some range) = IsRange w range

  abbrev RangeOf : Option (FaultCfg w) → Type 0
  RangeOf none = Unit
  RangeOf (some f) = IsRange w f.duration_min

  lookup-IsRange :
      (rows : List (ℕ × FaultCfg w)) (code : ℕ) (f : FaultCfg w)
      → All (IsFault w) rows
      → lookup code rows ≡ some f
      → IsRange w f.duration_min
  unfolding lookup
  lookup-IsRange [] code f h e = absurd (ground (arith, e))
  lookup-IsRange ((k, x) ∷ rows) code f h e = elim (Bool-cases (k == code)) [
    | inl d ↦ let same = rw d at e in subst (λ (o : Option (FaultCfg w)). RangeOf o) same h.0.1
    | inr d ↦ let rest = rw d at e in lookup-IsRange rows code f h.1 rest
  ]

  pub fault_range-IsRange :
      (valid : IsValidated w cfg) (code : ℕ) (range : Range w)
      → fault_range w cfg code ≡ some range
      → IsRange w range
  unfolding fault_range
  fault_range-IsRange valid code range e = elim (Bool-cases (code == 201)) [
    | inl d ↦ let same = rw d at e in subst MayBeRange same valid.weld_fault
    | inr d ↦ elim (Option-cases (lookup code cfg.faults)) [
      | inl missing ↦ let off = rw (d, missing) at e in absurd (ground (arith, off))
      | inr (f, found) ↦
          let same = rw (d, found) at e in
          subst MayBeRange same (lookup-IsRange cfg.faults code f valid.faults found)
    ]
  ]
