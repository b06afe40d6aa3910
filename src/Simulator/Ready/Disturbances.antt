-- ===== src/Simulator/Ready/Disturbances.antt =====
-- The interruptions that are drawn are of faults that are configured and exist.
use cell_oee_demo.Prelude.{
  ℕ, ◌≡◌, refl, Bool, true, not, Option, none, some, List, [], ◌∷◌, ◌++◌, arith, ◌==◌, Bool-cases,
  Option-cases, inl, inr, All, is_some, filter,
}
use cell_oee_demo.Simulator.Valid.{Forward, IsArithmetic, IsFault, IsValidated}
use cell_oee_demo.Simulator.World.{World}
use cell_oee_demo.Simulator.Model.{
  lookup, keys, faults, fault_station, mtbf_fault_codes, weld_fault_code,
}
use cell_oee_demo.Simulator.Config.{
  SimConfig, FaultCfg, StopProcessCfg, is_in, all_in, known_faults,
}
use cell_oee_demo.Simulator.Faults.{
  Interruption, Kind, fault_arrivals, flow_arrival, earliest, earliest_of, next_interruption,
  fault_range,
}
use cell_oee_demo.Simulator.Ready.{IsConfigured}

lookup-is_in {ℓ} :
    {A : Type ℓ} (rows : List (ℕ × A)) (code : ℕ)
    → is_in code (keys rows) ≡ true
    → is_some (lookup code rows) ≡ true
unfolding lookup
lookup-is_in [] code h = h
lookup-is_in ((k, x) ∷ rows) code h = elim (Bool-cases (k == code)) [
  | inl e ↦ rw e refl
  | inr e ↦ let rest = rw e at h in rw e (lookup-is_in rows code rest)
]

is_in-filter :
    (keep : ℕ → Bool) (codes : List ℕ) (code : ℕ)
    → is_in code (filter keep codes) ≡ true
    → is_in code codes ≡ true
is_in-filter keep [] code h = h
is_in-filter keep (c ∷ codes) code h = elim (Bool-cases (c == code)) [
  | inl e ↦ rw e refl
  | inr e ↦ rw e (elim (Bool-cases (keep c)) [
    | inl k ↦ let rest = rw (k, e) at h in is_in-filter keep codes code rest
    | inr k ↦ let rest = rw k at h in is_in-filter keep codes code rest
  ])
]

abbrev AllIn : List ℕ → List ℕ → Type 0
AllIn codes known = All (λ c. is_in c known ≡ true) codes

all_in-AllIn : (codes known : List ℕ) → all_in codes known ≡ true → AllIn codes known
all_in-AllIn [] known h = tt
all_in-AllIn (c ∷ codes) known h = (ground arith, all_in-AllIn codes known (ground arith))

AllIn-more : (codes known : List ℕ) (k : ℕ) → AllIn codes known → AllIn codes (k ∷ known)
AllIn-more [] known k h = tt
AllIn-more (c ∷ codes) known k h = let hit = h.0 in (ground arith, AllIn-more codes known k h.1)

AllIn-self : (codes : List ℕ) → AllIn codes codes
AllIn-self [] = tt
AllIn-self (c ∷ codes) = (ground arith, AllIn-more codes codes c (AllIn-self codes))

module _ (w : World) (laws : IsArithmetic w) (cfg : SimConfig w) where
  abbrev AreConfigured : List (Interruption w) → Type 0
  AreConfigured is =
      All (λ (i : Interruption w). IsConfigured w cfg i.kind × Forward w i.delay_s) is

  abbrev pub MayInterrupt : Option (Interruption w) → Type 0
  MayInterrupt none = Unit
  MayInterrupt (some i) = IsConfigured w cfg i.kind × Forward w i.delay_s

  fault_range-is_in :
      (code : ℕ) → is_in code (keys cfg.faults) ≡ true → is_some (fault_range w cfg code) ≡ true
  unfolding fault_range
  fault_range-is_in code h = elim (Bool-cases (code == 201)) [
    | inl e ↦ rw e refl
    | inr e ↦ rw e (elim (Option-cases (lookup code cfg.faults)) [
      | inl none_found ↦
          let found = lookup-is_in cfg.faults code h in
          let off = rw none_found at found in rw none_found off
      | inr (f, found) ↦ rw found refl
    ])
  ]

  fault_station-is_in :
      (code : ℕ) → is_in code mtbf_fault_codes ≡ true → is_some (fault_station code) ≡ true
  unfolding fault_station
  fault_station-is_in code h =
      lookup-is_in faults code (is_in-filter (λ c. not (c == weld_fault_code)) (keys faults) code h)

  fault_arrivals-AreConfigured :
      (rows : List (ℕ × FaultCfg w)) (rng : w.R)
      → AllIn (keys rows) mtbf_fault_codes
      → AllIn (keys rows) (keys cfg.faults)
      → All (IsFault w) rows
      → AreConfigured (fault_arrivals w rows rng).0
  unfolding fault_arrivals
  fault_arrivals-AreConfigured [] rng known configured valid = tt
  fault_arrivals-AreConfigured ((code, f) ∷ rows) rng known configured valid = (
    (
      (fault_station-is_in code known.0, fault_range-is_in code configured.0),
      laws.expovariate_forward (w.div (w.real 1) (w.mul f.mtbf_min (w.real 60))) rng (
          laws.div_positive (w.real 1) (w.mul f.mtbf_min (w.real 60))
            (laws.real_positive 1 (omega arith))
            (laws.mul_positive f.mtbf_min (w.real 60) valid.0.0
              (laws.real_positive 60 (omega arith)))),
    ),
    fault_arrivals-AreConfigured rows _ known.1 configured.1 valid.1,
  )

  append-AreConfigured :
      (xs ys : List (Interruption w))
      → AreConfigured xs
      → AreConfigured ys
      → AreConfigured (xs ++ ys)
  append-AreConfigured [] ys h k = k
  append-AreConfigured (x ∷ xs) ys h k = (h.0, append-AreConfigured xs ys h.1 k)

  flow_arrival-AreConfigured :
      (kind : Kind) (proc : StopProcessCfg w) (rng : w.R)
      → IsConfigured w cfg kind
      → AreConfigured (flow_arrival w kind proc rng).0
  unfolding flow_arrival
  flow_arrival-AreConfigured kind proc rng h = elim (Bool-cases (w.lt (w.real 0) proc.rate_per_h)) [
    | inl e ↦
        let forward = laws.expovariate_forward (w.div proc.rate_per_h (w.real 3600)) rng (
          laws.div_positive proc.rate_per_h (w.real 3600) e
            (laws.real_positive 3600 (omega arith))) in
        rw e ((h, forward), tt)
    | inr e ↦ rw e tt
  ]

  earliest-IsConfigured :
      (best : Interruption w) (is : List (Interruption w))
      → MayInterrupt (some best)
      → AreConfigured is
      → MayInterrupt (some (earliest w best is))
  unfolding earliest
  earliest-IsConfigured best [] h k = h
  earliest-IsConfigured best (i ∷ is) h k = elim (Bool-cases (w.lt i.delay_s best.delay_s)) [
    | inl e ↦ rw e (earliest-IsConfigured i is k.0 k.1)
    | inr e ↦ rw e (earliest-IsConfigured best is h k.1)
  ]

  earliest_of-MayInterrupt :
      (is : List (Interruption w)) → AreConfigured is → MayInterrupt (earliest_of w is)
  earliest_of-MayInterrupt [] h = tt
  earliest_of-MayInterrupt (i ∷ is) h = earliest-IsConfigured i is h.0 h.1

  pub next_interruption-MayInterrupt :
      (rng : w.R) → IsValidated w cfg → MayInterrupt (next_interruption w cfg rng).0
  unfolding next_interruption known_faults
  next_interruption-MayInterrupt rng valid =
      let codes = keys cfg.faults in
      let rng₁ = (fault_arrivals w cfg.faults rng).1 in
      let (on_starved, rng₂) = flow_arrival w Kind.starved cfg.flow.starved rng₁ in
      let on_blocked = (flow_arrival w Kind.blocked cfg.flow.blocked rng₂).0 in
      let on_faults = (fault_arrivals w cfg.faults rng).0 in
      earliest_of-MayInterrupt (on_faults ++ on_starved ++ on_blocked) (
        append-AreConfigured (on_faults ++ on_starved) on_blocked
          (append-AreConfigured on_faults on_starved
            (fault_arrivals-AreConfigured cfg.faults rng
              (all_in-AllIn codes mtbf_fault_codes valid.known) (AllIn-self codes) valid.faults)
            (flow_arrival-AreConfigured Kind.starved cfg.flow.starved rng₁ tt))
          (flow_arrival-AreConfigured Kind.blocked cfg.flow.blocked rng₂ tt))
