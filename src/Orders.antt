-- ===== src/Orders.antt =====
-- The order program: limit and recurring orders that anyone may execute, orders/src.
pub mod State
pub mod Codec
pub mod Tranches
pub mod Limits
pub mod Completion
pub mod Processor
