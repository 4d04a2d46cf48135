-- ===== src/Curve.antt =====
-- The swap curves of the pool program: program/src/curve.
pub mod SplMath
pub mod Calculator
pub mod Fees
pub mod ConstantProduct
pub mod ConstantPrice
pub mod Offset
pub mod SwapCurve
