-- ===== src/Solana.antt =====
-- What the programs use of the Solana runtime: error codes, account bytes, accounts, and the calls that
-- leave the program. The runtime itself is not in the repository and is a parameter.
pub mod Errors
pub mod Bytes
pub mod Codec
pub mod Runtime
pub mod Steps
