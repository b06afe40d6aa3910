-- ===== src/Simulator/Wear.antt =====
-- Electrode wear (simulator/cell_sim/wear.py).
use cell_oee_demo.Prelude.{ℕ, suc, ◌*◌, Bool}
use cell_oee_demo.Simulator.World.{World}
use cell_oee_demo.Simulator.Config.{WeldCfg}

pub record WearState (w : World) : Type 0 where
  pub reversible : w.F
  pub irreversible : w.F
  pub deviation : w.F
  pub points_since_cap_change : ℕ
  pub parts_since_cap_change : ℕ
  pub parts_since_dressing : ℕ

pub record WeldPoint (w : World) : Type 0 where
  pub current_ka : w.F
  pub ok : Bool

-- `WearState()`
abbrev pub new_wear : (w : World) → WearState w
new_wear w = record {
  reversible = w.real 0;
  irreversible = w.real 0;
  deviation = w.real 0;
  points_since_cap_change = 0;
  parts_since_cap_change = 0;
  parts_since_dressing = 0;
}

module _ (w : World) (cfg : WeldCfg w) where
  abbrev pub irr_per_point : w.F
  irr_per_point =
      w.div cfg.wear.irreversible_at_cap_life
        (w.real (cfg.cap_change.every_parts * cfg.points_per_part))

  abbrev pub rev_per_point : w.F
  rev_per_point =
      w.div cfg.wear.reversible_at_dressing_interval
        (w.real (cfg.tip_dressing.every_parts * cfg.points_per_part))

  abbrev pub innovation : w.F
  innovation =
      let rho = cfg.noise_autocorrelation in
      w.div (w.mul (w.sqrt (w.sub (w.real 1) (w.mul rho rho))) cfg.noise_sigma_pct) (w.real 100)

  unfoldable pub drift : WearState w → w.F
  drift s =
      w.mul (w.div cfg.wear.drift_max_pct (w.real 100))
        (w.pow (w.add s.reversible s.irreversible) cfg.wear.drift_exponent)

  unfoldable pub weld_point : WearState w → w.R → WeldPoint w × (WearState w × w.R)
  weld_point s rng =
      let (noise, rng') = w.gauss rng in
      let deviation =
        w.add (w.mul cfg.noise_autocorrelation s.deviation) (w.mul innovation noise) in
      let rel = w.sub deviation (drift s) in
      let ok = w.le (w.abs rel) (w.div cfg.tolerance_pct (w.real 100)) in
      let current = w.mul cfg.nominal_current_ka (w.add (w.real 1) rel) in
      (
        record { current_ka = current; ok = ok },
        (
          record s {
            deviation = deviation;
            reversible = w.add s.reversible rev_per_point;
            irreversible = w.add s.irreversible irr_per_point;
            points_since_cap_change = suc s.points_since_cap_change;
          },
          rng',
        ),
      )

  unfoldable pub part_done : WearState w → WearState w
  part_done s = record s {
    parts_since_cap_change = suc s.parts_since_cap_change;
    parts_since_dressing = suc s.parts_since_dressing;
  }

  unfoldable pub dress : WearState w → WearState w
  dress s = record s {
    reversible = w.mul s.reversible (w.sub (w.real 1) cfg.wear.dressing_recovery);
    irreversible = w.add s.irreversible cfg.wear.dressing_material_loss;
    parts_since_dressing = 0;
  }
