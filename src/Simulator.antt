-- ===== src/Simulator.antt =====
-- The simulated cell (simulator/cell_sim): its configuration, state machine, engine and retentive data.
pub mod World
pub mod Model
pub mod Config
pub mod Valid
pub mod Wear
pub mod Faults
pub mod Shifts
pub mod Host
pub mod Cell
pub mod Engine
pub mod Ready
mod Tests
