-- ===== src/Examples.antt =====
-- The theorems at concrete inputs, with concrete functions for the crate `spl_math` and for the runtime.
pub mod Curve
pub mod Farm
pub mod Orders
pub mod Host
pub mod FarmRuns
pub mod OrderRuns
pub mod PoolHost
pub mod PoolRuns
pub mod PoolSwaps
pub mod PoolFees
pub mod PoolExits
pub mod PoolClient
pub mod PoolDeposits
pub mod PoolAdmin
pub mod PoolBooks
pub mod PoolCreate
