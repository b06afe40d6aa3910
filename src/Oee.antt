-- ===== src/Oee.antt =====
-- The pure OEE core (backend/app/oee).
pub mod Types
pub mod Intervals
pub mod Counters
pub mod Stops
pub mod Ratios
pub mod Observed
pub mod Compute
pub mod Invariant
pub mod Combine
pub mod Pareto
pub mod Windows
pub mod Timeline
pub mod Grouped
pub mod Weld
mod Tests
