-- ===== src/Collector.antt =====
-- The collector (backend/app/collector): changes in, database operations out.
pub mod Types
pub mod Watchdog
pub mod Tracker
pub mod Assembler
pub mod Pipeline
pub mod Store
mod Tests
