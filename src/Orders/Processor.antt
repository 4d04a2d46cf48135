-- ===== src/Orders/Processor.antt =====
-- The handlers of the order program: orders/src/processor.rs.
pub mod Checks
pub mod Instructions
pub mod Handlers
pub mod Loads
pub mod Closing
pub mod Closings
pub mod Placing
pub mod Pinning
pub mod Execution
