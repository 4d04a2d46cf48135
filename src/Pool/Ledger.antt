-- ===== src/Pool/Ledger.antt =====
-- A pool's books: the amounts in the two vaults and the two fee counters, under the exact-in swaps and the
-- collections of program/src/processor.rs. The reserves are what `lp_owned` makes of them.
pub mod Growth
use rome_dex.Base.{ℕ, ◌+◌, ◌-◌, ◌*◌, ◌≤◌, ◌≡◌, refl, some, Result, ok, arith}
use rome_dex.Base.Arith.{mul_mono}
use rome_dex.Curve.SplMath.{SplMath, CeilDivLaws}
use rome_dex.Curve.Calculator.{SwapError, TradeDirection, a_to_b, b_to_a}
use rome_dex.Curve.Fees.{Fees, owner_trading_fee}
use rome_dex.Curve.Fees.Bounds.{IsFraction, calculate_fee-le}
use rome_dex.Curve.SwapCurve.{SwapResult, swap, swap_for_exact_out}
use rome_dex.Curve.SwapCurve.Dispatch.{Calculator, product}
use rome_dex.Curve.SwapCurve.Exchange.{swap_steps, exact_out_steps, swap-keeps_fees}
use rome_dex.Pool.Counters.{lp_owned}

pub record Ledger : Type 0 where
  pub vault_a : ℕ
  pub vault_b : ℕ
  pub fees_a : ℕ
  pub fees_b : ℕ

-- The side that a swap pays into, and the side that pays.
abbrev pub source_lp : Ledger → TradeDirection → Result SwapError ℕ
source_lp l a_to_b = lp_owned l.vault_a l.fees_a
source_lp l b_to_a = lp_owned l.vault_b l.fees_b

abbrev pub destination_lp : Ledger → TradeDirection → Result SwapError ℕ
destination_lp l a_to_b = lp_owned l.vault_b l.fees_b
destination_lp l b_to_a = lp_owned l.vault_a l.fees_a

abbrev pub exchanged : Ledger → TradeDirection → ℕ → ℕ → ℕ → Ledger
exchanged l a_to_b received paid fee = record {
  vault_a = l.vault_a + received;
  vault_b = l.vault_b - paid;
  fees_a = l.fees_a + fee;
  fees_b = l.fees_b;
}
exchanged l b_to_a received paid fee = record {
  vault_a = l.vault_a - paid;
  vault_b = l.vault_b + received;
  fees_a = l.fees_a;
  fees_b = l.fees_b + fee;
}

module _ (math : SplMath) (calculator : Calculator) (fees : Fees) where
  -- A swap by its input, or a collection of the fees. A vault receives at least what the curve counts.
  pub data Trade : Ledger → Ledger → Type 0 where
    swapped :
        (l : Ledger) (direction : TradeDirection) (offered lp_source lp_dest received : ℕ)
        (r : SwapResult)
        → source_lp l direction ≡ ok lp_source
        → destination_lp l direction ≡ ok lp_dest
        → swap math calculator offered lp_source lp_dest direction fees ≡ some r
        → r.source_amount_swapped ≤ received
        → Trade l (exchanged l direction received r.destination_amount_swapped r.owner_fee)
    collected :
        (l : Ledger)
        → Trade l (record {
          vault_a = l.vault_a - l.fees_a;
          vault_b = l.vault_b - l.fees_b;
          fees_a = 0;
          fees_b = 0;
        })

  pub data Trades : Ledger → Ledger → Type 0 where
    idle : (l : Ledger) → Trades l l
    trade : {first l next : Ledger} → Trades first l → Trade l next → Trades first next

pub owned :
    (vault fees : ℕ) {lp : ℕ} → lp_owned vault fees ≡ ok lp → (fees ≤ vault) × (lp ≡ vault - fees)
unfolding lp_owned
owned vault fees h = (ground arith, ground arith)
