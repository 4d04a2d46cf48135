-- ===== src/Pool.antt =====
-- The token swap program: program/src/state.rs, config.rs, constraints.rs, instruction.rs, processor.rs.
pub mod Platform
pub mod State
pub mod Codec
pub mod Version
pub mod Config
pub mod Counters
pub mod Constraints
pub mod Loads
pub mod Repack
pub mod Governance
pub mod Exchange
pub mod Collection
pub mod Redemption
pub mod Funding
pub mod Ledger
pub mod Creation
pub mod FeeTier
pub mod Instructions
pub mod Builders
pub mod Processor
