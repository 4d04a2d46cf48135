-- ===== src/Lib.antt =====
-- A model of the Solana programs of rome-dex and the theorems about them: the token swap program
-- (program/src), the staking farm (farm/src) and the order program (orders/src).
--
-- The parts and how they interact. A pool keeps two vaults, of which it owes the protocol a counter of fees
-- on each side; `SwapCurve` (program/src/curve/base.rs) sees the rest, and takes the fees of
-- program/src/curve/fees.rs around one of three curves, constant product, constant price and offset. The
-- processor (program/src/processor.rs) checks the accounts of an instruction, asks the curve, and moves
-- tokens by calls of the token program. One configuration account says who the admin and the treasury are
-- and who may create pools. A farm keeps stakes of pool tokens and mints a reward by an accumulator for each
-- share. An order keeps input in an escrow, and anyone may execute it, tranche by tranche, through the
-- exchange.
--
-- The files.
--   Base: Boolean tests on numbers, `Result` (a Rust `Result` that may also panic), checked arithmetic of
--   machine integers (Base/Words; the bound 2 ^ w is written out), integers and the lemmas on products.
--   Solana: accounts as one store by key, so that two names of one account alias; a handler is an action on
--   the store that gives a new store, an error or a panic (Solana/Runtime). Solana/Codec reads and writes
--   account bytes. Solana/Steps inverts each step of a handler that succeeded.
--   Curve: Calculator is program/src/curve/calculator.rs, Fees is fees.rs, ConstantProduct, ConstantPrice and
--   Offset are the files of these names, SwapCurve is base.rs, with the trait object as a data type in
--   SwapCurve/Dispatch. An `Option` of the source is an `Option` here, and `?` is a bind of a do block.
--   Pool: State has the records and constants of program/src/state.rs and config.rs and the codes of
--   error.rs, Codec their bytes, Version the version tag of state.rs, Constraints is constraints.rs, and
--   Instructions and Builders are instruction.rs. Of processor.rs, Counters has the reserves without the fees of the
--   protocol, FeeTier the fee tier of a new pool, Config the configuration account, Processor/Tokens and
--   Processor/Checks the shared helpers, Processor/Swap, Collect, Deposit, Withdraw, Create and Admin the
--   handlers, one function for each, and Processor/Entry the dispatch. A block of a handler that has a
--   meaning of its own is a function (`admit_swap`, `accrue_fee`, `clamped`), with the block's lines.
--   Exchange, Collection, Funding, Redemption and Creation say what a successful handler did; Ledger is the
--   abstract view of the vaults and counters under swaps and collections, Governance that of the
--   configuration account.
--   Farm: State and Codec are farm/src/state.rs, Processor/Instructions is farm/src/instruction.rs,
--   Processor/Checks and Processor/Handlers are farm/src/processor.rs, one function for each handler; the
--   error codes are farm/src/error.rs. The other modules hold lemmas.
--   Orders: State and Codec are orders/src/state.rs, Processor/Instructions is orders/src/instruction.rs,
--   Processor/Checks and Processor/Handlers are orders/src/processor.rs; Tranches and Completion are the
--   sequences of executions of one order.
--   Examples: the theorems at concrete inputs, with concrete functions for the parameters.
--
-- The parameters. Curve/SplMath stands for the crate `spl_math`; the exchange relies on `checked_ceil_div`
-- by `CeilDivLaws`: a quotient rounded up, and an adjusted divisor. Solana/Runtime.Runtime stands for the
-- Solana runtime and the token program: calls of other programs, derived addresses, the clock, the rent, and
-- the decoding of token accounts. `RuntimeLaws` says that a call leaves the owner and the data of the calling
-- program's accounts alone. Building an instruction and sending it is one call of the runtime.
-- Pool/Platform gathers what the token swap program calls: the runtime, `spl_math`, the decoding of the
-- accounts of Token-2022 with the transfer fee of a mint and the close authority, and the methods that
-- `Pack` of solana_program derives from a codec, on which the theorems rely by `PackLaws`.
--
-- The numbers. Amounts are native numbers with the bounds of the source checked where it checks them; an i64
-- is an integer, stored as its bit pattern; a public key is the number of its 32 bytes. The definitions are
-- structural, so no fuel is used; `completes` bounds the number of executions of an order.
--
-- Not modelled: the printing of errors, the panic of `U256::as_u128` above 2 ^ 128, the precision of the square roots in the single-sided formulas (spl_math computes them), the
-- concentrated-liquidity program (clmm/src), the Solidity routers (contracts), the application (app), the
-- test harness and the fuzzers, and the logs of the handlers.
pub mod Base
pub mod Solana
pub mod Curve
pub mod Pool
pub mod Farm
pub mod Orders
pub mod Examples
