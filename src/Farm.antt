-- ===== src/Farm.antt =====
-- The liquidity-mining farm: farm/src.
pub mod State
pub mod Codec
pub mod Accrual
pub mod Rewards
pub mod Emission
pub mod Processor
