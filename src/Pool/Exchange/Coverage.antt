-- ===== src/Pool/Exchange/Coverage.antt =====
-- The fee counters of a pool through a swap of program/src/processor.rs: what it may pay and book.
use rome_dex.Base.{ℕ, ◌+◌, ◌≤◌, ◌<◌, ◌^◌, ◌≡◌, inl, inr, none, some, Option, List, ◌∷◌, ok, arith}
use rome_dex.Solana.Runtime.{Pubkey, AccountInfo, Store, RuntimeLaws}
use rome_dex.Curve.Calculator.{TradeDirection}
use rome_dex.Curve.Fees.{owner_trading_fee}
use rome_dex.Curve.Fees.Bounds.{IsFraction, calculate_fee-le}
use rome_dex.Curve.SwapCurve.{SwapResult}
use rome_dex.Curve.SwapCurve.Exchange.{swap_steps, exact_out_steps}
use rome_dex.Pool.Platform.{Platform, PackLaws, TransferFeeConfig}
use rome_dex.Pool.State.{SwapV2}
use rome_dex.Pool.Codec.RoundTrips.{IsSwapV2}
use rome_dex.Pool.Repack.{HoldsPool}
use rome_dex.Pool.Exchange.{Answers, Grosses, Sends}
use rome_dex.Pool.Exchange.Admission.{fees_out}
use rome_dex.Pool.Exchange.Outcome.{Quoted, Settled, swap_outcome}
use rome_dex.Pool.Processor.Swap.{SwapSpec, exact_in, exact_out, direction_from, swap_generic}

module _ (platform : Platform) where
  -- The curve pays from the reserve it was given, and the owner's fee is a part of what it takes.
  answer_bounds :
      (spec : SwapSpec) (pool : SwapV2) (mint_info : AccountInfo) (direction : TradeDirection)
      (lp_source lp_dest : ℕ) (s : Store) (r : SwapResult)
      → IsFraction pool.fees.owner_trade_fee_numerator pool.fees.owner_trade_fee_denominator
      → Answers platform spec pool mint_info direction lp_source lp_dest s r
      → (r.destination_amount_swapped ≤ lp_dest) × (r.owner_fee ≤ r.source_amount_swapped)
  unfolding owner_trading_fee
  answer_bounds (exact_in a minimum) pool mint_info direction lp_source lp_dest s r fair
        (mint, arrived, _, _, answer) =
      let (x, _, _, _, _, source_eq, _, balances) =
        swap_steps platform.math pool.swap_curve.calculator arrived lp_source lp_dest direction
          pool.fees {r = r} answer in
      let out = balances.destination_out in (omega arith, omega arith)
  answer_bounds (exact_out b maximum) pool mint_info direction lp_source lp_dest s r fair answer =
      let (x, _, _, _, owner, _, balances) =
        exact_out_steps platform.math pool.swap_curve.calculator b lp_source lp_dest direction
          pool.fees {r = r} answer in
      let out = balances.destination_out in
      let less =
        calculate_fee-le r.source_amount_swapped pool.fees.owner_trade_fee_numerator
          pool.fees.owner_trade_fee_denominator fair owner in
      (omega arith, omega arith)

  grossed_up :
      (config : Option TransferFeeConfig) (amount sent fee : ℕ)
      → fee ≤ amount
      → fee < 2 ^ 64
      → Grosses platform config amount sent
      → fee ≤ sent
  grossed_up none amount sent fee less small same = omega arith
  grossed_up (some config) amount sent fee less small (_, _, _, _, either) = elim either [
    | inl (_, same) ↦ omega arith
    | inr (_, capped) ↦ omega arith
  ]

  sent_covers :
      (mint_info : AccountInfo) (amount sent fee : ℕ) (s : Store)
      → fee ≤ amount
      → fee < 2 ^ 64
      → Sends platform mint_info amount s sent
      → fee ≤ sent
  sent_covers mint_info amount sent fee s less small (mint, _, grosses) =
      grossed_up mint.transfer_fee_config amount sent fee less small grosses

paid_within :
    (paid answer lp fees total : ℕ)
    → paid ≡ answer
    → answer ≤ lp
    → lp + fees ≡ total
    → paid + fees ≤ total
paid_within paid answer lp fees total same less whole = omega arith

module _ (platform : Platform) (program_id : Pubkey) (packs : PackLaws platform)
    (laws : RuntimeLaws platform.runtime program_id)
    (swap_info authority_info user_info source_info swap_source_info swap_destination_info
      destination_info pool_mint_info source_mint_info destination_mint_info source_program_info
      destination_program_info pool_program_info : AccountInfo)
    (rest : List AccountInfo) (pool : SwapV2) (s s' : Store) where
  abbrev direction : TradeDirection
  direction = direction_from swap_source_info pool

  abbrev pub PaysOwn : SwapSpec → Type 0
  PaysOwn spec =
      (result : SwapResult) × (sent paid : ℕ) × (quoted : Quoted platform program_id packs laws
        swap_info authority_info user_info source_info swap_source_info swap_destination_info
        destination_info pool_mint_info source_mint_info destination_mint_info source_program_info
        destination_program_info pool_program_info rest pool s s' spec result sent paid)
      × Settled platform program_id packs laws swap_info authority_info user_info source_info
          swap_source_info swap_destination_info destination_info pool_mint_info source_mint_info
          destination_mint_info source_program_info destination_program_info pool_program_info rest
          pool s s' result sent paid
      × (paid + fees_out pool direction ≤ quoted.dest_account.amount)
      × (result.owner_fee ≤ sent)

  -- A swap that succeeded, on any curve, pays nothing of the protocol's fees: what it takes out of the
  -- destination's vault leaves that side's counter covered, and the fee that it adds to the counter of
  -- the other side is within what the user sent into that side's vault.
  -- Conditions: the owner's fee passed validation, the account holds a pool whose fields fit their types,
  -- the runtime keeps `RuntimeLaws` and `Pack` keeps `PackLaws`.
  pub swap_covers_fees :
      (spec : SwapSpec)
      → IsFraction pool.fees.owner_trade_fee_numerator pool.fees.owner_trade_fee_denominator
      → HoldsPool platform program_id swap_info s pool
      → IsSwapV2 pool
      → swap_generic platform program_id spec
          (swap_info ∷ authority_info ∷ user_info ∷ source_info ∷ swap_source_info
            ∷ swap_destination_info ∷ destination_info ∷ pool_mint_info ∷ source_mint_info
            ∷ destination_mint_info ∷ source_program_info ∷ destination_program_info
            ∷ pool_program_info ∷ rest)
          s
        ≡ ok (tt, s')
      → PaysOwn spec
  swap_covers_fees spec fair held fits h =
      let (result, sent, paid, quoted, settled) =
        swap_outcome platform program_id packs laws swap_info authority_info user_info source_info
          swap_source_info swap_destination_info destination_info pool_mint_info source_mint_info
          destination_mint_info source_program_info destination_program_info pool_program_info rest
          pool s s' spec held fits h in
      let (within_reserve, part) =
        answer_bounds platform spec pool source_mint_info direction quoted.lp_source quoted.lp_dest
          s result fair quoted.answered in
      let small : result.owner_fee < 2 ^ 64 = omega (arith, settled.counter_fits) in
      (
        result,
        sent,
        paid,
        quoted,
        settled,
        paid_within paid _ _ _ _ quoted.paid_is within_reserve quoted.dest_owned,
        sent_covers platform source_mint_info _ sent result.owner_fee s part small quoted.sent_is,
      )
