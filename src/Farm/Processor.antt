-- ===== src/Farm/Processor.antt =====
-- The handlers of the farm: farm/src/processor.rs. Each takes its accounts in the order of the source.
pub mod Checks
pub mod Instructions
pub mod Handlers
pub mod Loads
pub mod Admission
pub mod Booking
pub mod Outcomes
pub mod Claims
