-- ===== src/Simulator/Ready/Restart.antt =====
-- What a restart of the simulator keeps, and when it goes on.
use cell_oee_demo.Prelude.{ℕ, ◌+◌, ◌≡◌, max, Bool, true, false, Option, none, some}
use cell_oee_demo.Simulator.World.{World}
use cell_oee_demo.Simulator.Config.{SimConfig}
use cell_oee_demo.Simulator.Cell.{Simulation}
use cell_oee_demo.Simulator.Engine.{cell_snapshot, snapshot}

-- When a restart goes on, from the clock of the simulation and that of the pacer, if there is one: after a
-- clean stop at the later of the two, after any other save the lookahead past it.
abbrev pub goes_on_at : Bool → Option ℕ → ℕ → ℕ → ℕ
goes_on_at true none lookahead now = now
goes_on_at true (some t) lookahead now = max now t
goes_on_at false none lookahead now = now + lookahead
goes_on_at false (some t) lookahead now = max now t + lookahead

module _ (w : World) (cfg : SimConfig w) where
  -- The clock is at the time, and the next snapshot says the same as one of the old cell.
  abbrev pub IsRestored : ℕ → Simulation w → Simulation w → Type 0
  IsRestored t s r = (r.now ≡ t) × (snapshot w true none 0 r ≡ cell_snapshot w s.cell t t true)
