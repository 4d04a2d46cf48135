-- ===== src/Pool/Exchange.antt =====
-- What a swap of program/src/processor.rs leaves behind when it succeeds.
pub mod Admission
pub mod Accrual
pub mod Outcome
pub mod Coverage
use mathlib.Core.Path.{subst}
use rome_dex.Base.{
  ℕ, ◌+◌, ◌-◌, ◌≤◌, ◌<◌, ◌≡◌, ◌≢◌, ap, true, ◌||◌, ◌==◌, ==_iff, leb→le, none, some, Option, ok,
  ok_or, arith, refl, ltb, Bool-cases, ◌^◌, ◌⊎◌, Option-cases, inl, inr,
}
use rome_dex.Base.Words.{IsU64}
use rome_dex.Solana.Runtime.{Pubkey, AccountInfo, Store, Action, ◌>>=◌, ◌>>◌, pure}
use rome_dex.Solana.Steps.{
  require_step, lift_step, require_last, owner_step, pure_step, read_step, pass_step, pure_last,
}
use rome_dex.Curve.Calculator.{TradeDirection}
use rome_dex.Curve.SwapCurve
use rome_dex.Curve.SwapCurve.{SwapResult}
use rome_dex.Pool.Platform.{Platform, Mint, TransferFeeConfig}
use rome_dex.Pool.State.{SwapV2, lifted}
use rome_dex.Pool.Version.{unpack_version}
use rome_dex.Pool.Counters.{saturating_add}
use rome_dex.Pool.Loads.{
  lifted_step, lifted_last, lift_last, some_of, differ, to_u64_value, load_version_step, mint_step,
  IsAuthority, derived_step,
}
use rome_dex.Pool.Processor.Swap.{
  SwapSpec, exact_in, exact_out, guard_input, guard_output, less_transfer_fee, plus_transfer_fee,
  curve_result, source_side, destination_side,
}

-- The slippage limits: what the user receives reaches the minimum, what is taken stays within the maximum.
abbrev pub Within : SwapSpec → ℕ → ℕ → Type 0
Within (exact_in amount_in minimum_amount_out) sent received = minimum_amount_out ≤ received
Within (exact_out amount_out maximum_amount_in) sent received = sent ≤ maximum_amount_in

abbrev InputWithin : SwapSpec → ℕ → Type 0
InputWithin (exact_in amount_in minimum_amount_out) sent = Unit {0}
InputWithin (exact_out amount_out maximum_amount_in) sent = sent ≤ maximum_amount_in

abbrev OutputWithin : SwapSpec → ℕ → Type 0
OutputWithin (exact_in amount_in minimum_amount_out) received = minimum_amount_out ≤ received
OutputWithin (exact_out amount_out maximum_amount_in) received = Unit {0}

pub within :
    (spec : SwapSpec) (sent received : ℕ)
    → InputWithin spec sent
    → OutputWithin spec received
    → Within spec sent received
within (exact_in a b) sent received i o = o
within (exact_out a b) sent received i o = i

pub guard_input_step :
    {B : Type 0} (spec : SwapSpec) (sent : ℕ) (k : Action B) (s : Store) {r : B × Store}
    → (guard_input spec sent >> k) s ≡ ok r
    → InputWithin spec sent × (k s ≡ ok r)
unfolding guard_input
guard_input_step (exact_in a b) sent k s h =
    pass_step (Unit {0}) _ k s (λ p e. pure_last (λ _. Unit {0}) tt s tt e) h
guard_input_step (exact_out a b) sent k s h =
    let (c, h1) = require_step _ _ k s h in (leb→le sent b c, h1)

module _ (platform : Platform) where
  -- What arrives of an amount on a mint: all of it, or all but the transfer fee of the present epoch.
  abbrev pub Arrives : Option TransferFeeConfig → ℕ → ℕ → Type 0
  Arrives none amount arrived = arrived ≡ amount
  Arrives (some config) amount arrived =
      (epoch fee : ℕ) × (platform.epoch ≡ ok epoch)
      × (config.calculate_epoch_fee epoch amount ≡ some fee)
      × (arrived ≡ amount - fee)

  -- What is sent for an amount to arrive on a mint: no more, or the inverse transfer fee of the present
  -- epoch on top, at most the largest u64.
  abbrev pub Grosses : Option TransferFeeConfig → ℕ → ℕ → Type 0
  Grosses none amount sent = sent ≡ amount
  Grosses (some config) amount sent =
      (epoch fee : ℕ) × (platform.epoch ≡ ok epoch)
      × (config.calculate_inverse_epoch_fee epoch amount ≡ some fee)
      × (((amount + fee < 2 ^ 64) × (sent ≡ amount + fee))
          ⊎ ((2 ^ 64 ≤ amount + fee) × (sent ≡ 2 ^ 64 - 1)))

  less_last :
      (config : Option TransferFeeConfig) (amount : ℕ) (s : Store) {p : ℕ × Store}
      → less_transfer_fee platform config amount s ≡ ok p
      → (p.1 ≡ s) × Arrives config amount p.0
  unfolding less_transfer_fee
  less_last none amount s e = pure_last (Arrives none amount) amount s refl e
  less_last (some config) amount s e =
      let (epoch, now, e1) = lift_step _ _ s e in
      let (fee, found, e2) = lifted_step _ _ s e1 in
      pure_last (Arrives (some config) amount) (amount - fee) s
        (epoch, fee, now, some_of _ _ found, refl) e2

  saturates :
      (a b : ℕ)
      → ((a + b < 2 ^ 64) × (saturating_add a b ≡ a + b))
        ⊎ ((2 ^ 64 ≤ a + b) × (saturating_add a b ≡ 2 ^ 64 - 1))
  saturates a b = elim (Bool-cases (ltb (a + b) (2 ^ 64))) [
    | inl low ↦ inl (ground arith, ground arith)
    | inr high ↦ inr (ground arith, ground arith)
  ]

  plus_last :
      (config : Option TransferFeeConfig) (amount : ℕ) (s : Store) {p : ℕ × Store}
      → plus_transfer_fee platform config amount s ≡ ok p
      → (p.1 ≡ s) × Grosses config amount p.0
  unfolding plus_transfer_fee
  plus_last none amount s e = pure_last (Grosses none amount) amount s refl e
  plus_last (some config) amount s e =
      let (epoch, now, e1) = lift_step _ _ s e in
      let (fee, found, e2) = lifted_step _ _ s e1 in
      pure_last (Grosses (some config) amount) (saturating_add amount fee) s
        (epoch, fee, now, some_of _ _ found, saturates amount fee) e2

  -- What the curve was asked, and what it answered: on an exact input, for what arrives of it.
  abbrev pub Answers :
      SwapSpec → SwapV2 → AccountInfo → TradeDirection → ℕ → ℕ → Store → SwapResult → Type 0
  Answers (exact_in amount_in minimum) pool mint_info direction lp_source lp_dest s result =
      (mint : Mint) × (arrived : ℕ) × (platform.unpack_mint (s mint_info.key).contents ≡ some mint)
      × Arrives mint.transfer_fee_config amount_in arrived
      × (SwapCurve.swap platform.math pool.swap_curve.calculator arrived lp_source lp_dest direction
            pool.fees
          ≡ some result)
  Answers (exact_out amount_out maximum) pool mint_info direction lp_source lp_dest s result =
      SwapCurve.swap_for_exact_out platform.math pool.swap_curve.calculator amount_out lp_source
        lp_dest direction pool.fees
      ≡ some result

  curve_last :
      (spec : SwapSpec) (pool : SwapV2) (mint_info : AccountInfo) (direction : TradeDirection)
      (lp_source lp_dest : ℕ) (s : Store) {p : SwapResult × Store}
      → curve_result platform spec pool mint_info direction lp_source lp_dest s ≡ ok p
      → (p.1 ≡ s) × Answers spec pool mint_info direction lp_source lp_dest s p.0
  unfolding curve_result
  curve_last (exact_in amount_in minimum) pool mint_info direction lp_source lp_dest s e =
      let (mint, read, e1) = mint_step platform mint_info _ _ s e in
      let (arrived, arrives, e2) =
        read_step (Arrives mint.transfer_fee_config amount_in) _ _ s
          (λ p k. less_last mint.transfer_fee_config amount_in s k) e1 in
      let (stays, found) = lifted_last _ s e2 in
      (stays, (mint, arrived, read.1, arrives, some_of _ _ found))
  curve_last (exact_out amount_out maximum) pool mint_info direction lp_source lp_dest s e =
      let (stays, found) = lifted_last _ s e in (stays, some_of _ _ found)

  pub curve_step :
      {B : Type 0} (spec : SwapSpec) (pool : SwapV2) (mint_info : AccountInfo)
      (direction : TradeDirection) (lp_source lp_dest : ℕ) (f : SwapResult → Action B) (s : Store)
      {r : B × Store}
      → (curve_result platform spec pool mint_info direction lp_source lp_dest >>= f) s ≡ ok r
      → (result : SwapResult) × Answers spec pool mint_info direction lp_source lp_dest s result
        × (f result s ≡ ok r)
  curve_step spec pool mint_info direction lp_source lp_dest f s h =
      read_step (Answers spec pool mint_info direction lp_source lp_dest s) _ f s
        (λ p e. curve_last spec pool mint_info direction lp_source lp_dest s e) h

  -- What the user sends, by the source's mint.
  abbrev pub Sends : AccountInfo → ℕ → Store → ℕ → Type 0
  Sends mint_info amount s sent =
      (mint : Mint) × (platform.unpack_mint (s mint_info.key).contents ≡ some mint)
      × Grosses mint.transfer_fee_config amount sent

  pub source_step :
      {B : Type 0} (pool : SwapV2) (result : SwapResult) (mint_info : AccountInfo)
      (f : ℕ × ℕ → Action B) (s : Store) {r : B × Store}
      → (source_side platform pool result mint_info >>= f) s ≡ ok r
      → (sent : ℕ × ℕ) × Sends mint_info result.source_amount_swapped s sent.0 × (f sent s ≡ ok r)
  unfolding source_side
  source_step pool result mint_info f s h =
      read_step (λ sent. Sends mint_info result.source_amount_swapped s sent.0) _ f s
        (λ p e.
          let (swapped, value, e1) = lifted_step _ _ s e in
          let same = (to_u64_value result.source_amount_swapped value).0 in
          let (mint, read, e2) = mint_step platform mint_info _ _ s e1 in
          let (amount, grosses, e3) =
            read_step (Grosses mint.transfer_fee_config swapped) _ _ s
              (λ q k. plus_last mint.transfer_fee_config swapped s k) e2 in
          pure_last (λ sent. Sends mint_info result.source_amount_swapped s sent.0)
            (amount, mint.decimals) s
            (mint, read.1, subst (λ n. Grosses mint.transfer_fee_config n amount) same grosses) e3)
        h

  guard_output_step :
      {B : Type 0} (spec : SwapSpec) (received : ℕ) (k : Action B) (s : Store) {r : B × Store}
      → (guard_output spec received >> k) s ≡ ok r
      → OutputWithin spec received × (k s ≡ ok r)
  unfolding guard_output
  guard_output_step (exact_in a minimum) received k s h =
      let (c, h1) = require_step _ _ k s h in (leb→le minimum received c, h1)
  guard_output_step (exact_out a b) received k s h =
      pass_step (Unit {0}) _ k s (λ p e. pure_last (λ _. Unit {0}) tt s tt e) h

  -- What is paid out is the curve's answer, and of it the user receives what the destination's mint
  -- leaves.
  abbrev pub Receives : SwapSpec → AccountInfo → ℕ → Store → ℕ → Type 0
  Receives spec mint_info amount s paid =
      (paid ≡ amount)
      × (received : ℕ) × (mint : Mint) × (platform.unpack_mint (s mint_info.key).contents
          ≡ some mint)
      × Arrives mint.transfer_fee_config paid received
      × OutputWithin spec received

  pub destination_step :
      {B : Type 0} (spec : SwapSpec) (pool : SwapV2) (result : SwapResult) (mint_info : AccountInfo)
      (f : ℕ × ℕ → Action B) (s : Store) {r : B × Store}
      → (destination_side platform spec pool result mint_info >>= f) s ≡ ok r
      → (paid : ℕ × ℕ) × Receives spec mint_info result.destination_amount_swapped s paid.0
        × (f paid s ≡ ok r)
  unfolding destination_side
  destination_step spec pool result mint_info f s h =
      read_step (λ paid. Receives spec mint_info result.destination_amount_swapped s paid.0) _ f s
        (λ p e.
          let (mint, read, e1) = mint_step platform mint_info _ _ s e in
          let (out, value, e2) = lifted_step _ _ s e1 in
          let same = (to_u64_value result.destination_amount_swapped value).0 in
          let (received, arrives, e3) =
            read_step (Arrives mint.transfer_fee_config out) _ _ s
              (λ q k. less_last mint.transfer_fee_config out s k) e2 in
          let (reached, e4) = guard_output_step spec received _ s e3 in
          pure_last (λ paid. Receives spec mint_info result.destination_amount_swapped s paid.0)
            (out, mint.decimals) s (same, received, mint, read.1, arrives, reached) e4)
        h
