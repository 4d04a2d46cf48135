-- ===== src/Pool/Processor.antt =====
-- The handlers of the token swap program: program/src/processor.rs.
pub mod Tokens
pub mod Checks
pub mod Admin
pub mod Swap
pub mod Collect
pub mod Deposit
pub mod Withdraw
pub mod Create
pub mod Entry
