-- ===== src/Examples/Curve.antt =====
-- Pools at concrete numbers: program/src/curve.
use rome_dex.Base.{
  ℕ, ◌+◌, ◌-◌, ◌*◌, ◌/◌, ◌%◌, ◌^◌, ◌≤◌, ◌<◌, ◌≡◌, ◌≢◌, ◌⊎◌, inl, inr, refl, Option, none, some, ltb,
  ◌==◌, if◌then◌else◌, arith,
}
use native.Mathlib.Nat.{div-add-mod'}
use rome_dex.Base.Arith.{div-lt, lt-of_mul_lt, lt-div_suc}
use rome_dex.Curve.SplMath.{SplMath, CeilDivLaws}
use rome_dex.Curve.Calculator.{
  a_to_b, floor, ceiling, SwapWithoutFeesResult, TradingTokenResult, map_zero_to_none,
}
use rome_dex.Curve.Fees.{
  Fees, calculate_fee, ceil_div, pre_fee_amount, trading_fee, owner_trading_fee,
  pre_trading_fee_amount,
}
use rome_dex.Curve.Fees.Inverse.{pre_trading_fee_amount_covers, pre_trading_fee_amount_short}
use rome_dex.Curve.ConstantProduct.{swap_to_exact_out, swap, pool_tokens_to_trading_tokens}
use rome_dex.Curve.ConstantProduct.ExactOut.{ExactOut, swap_to_exact_out-ExactOut}
use rome_dex.Curve.ConstantProduct.Shares.{
  WithdrawalKeepsShare, DepositKeepsShare, withdrawal-KeepsShare, deposit-KeepsShare,
}
use rome_dex.Curve.ConstantPrice
use rome_dex.Curve.ConstantPrice.{ConstantPriceCurve}
use rome_dex.Curve.ConstantPrice.Value.{SameValue, swap_without_fees-SameValue}
use rome_dex.Curve.Offset
use rome_dex.Curve.Offset.{OffsetCurve}
use rome_dex.Curve.Offset.Invariant.{OffsetKeepsProduct, swap_without_fees-KeepsProduct}
use rome_dex.Curve.SwapCurve
use rome_dex.Curve.SwapCurve.{SwapResult}
use rome_dex.Curve.SwapCurve.Dispatch
use rome_dex.Curve.SwapCurve.Dispatch.{product, Calculator}
use rome_dex.Curve.SwapCurve.Exchange.{
  Balances, swap-keeps_fees, swap_for_exact_out-keeps, swap_for_exact_out_free,
}

unfoldable pub up : ℕ → ℕ → ℕ
up n q = if n % q == 0 then n / q else n / q + 1

-- A quotient rounded up, with its adjusted divisor.
unfoldable pub ceil : ℕ → ℕ → Option (ℕ × ℕ)
unfolding up
ceil n d =
    if d == 0
    then none
    else if n / d == 0
    then none
    else if n % d == 0
    then some (n / d, d)
    else some (n / d + 1, up n (n / d + 1))

abbrev pub math : SplMath
math = record {
  checked_ceil_div = ceil;
  PreciseNumber = ℕ;
  new = λ n. some n;
  to_imprecise = λ n. some n;
  checked_add = λ a b. some (a + b);
  checked_sub = λ a b. if ltb a b then none else some (a - b);
  checked_mul = λ a b. some (a * b);
  checked_div = λ a b. if b == 0 then none else some (a / b);
  sqrt = λ n. some n;
  floor = λ n. some n;
  ceiling = λ n. some n;
  zero_number = 0;
  u256_checked_mul = λ a b. some (a * b);
  u256_checked_add = λ a b. some (a + b);
  u256_checked_div = λ a b. if b == 0 then none else some (a / b);
  u256_checked_ceil_div = ceil;
  as_u128 = λ n. n % 2 ^ 128;
}

up_cases : (n q : ℕ) → (n % q ≡ 0) × (up n q ≡ n / q) ⊎ (0 < n % q) × (up n q ≡ n / q + 1)
unfolding up
up_cases n q = ground arith

up_lem : (n q d : ℕ) → 0 < q → n ≤ q * d → (n ≤ q * up n q) × (up n q ≤ d)
up_lem n q d h k =
    let split = div-add-mod' n q in
    elim (up_cases n q) [
      | inl (none_left, e) ↦
          rw e (omega (arith, split), omega (arith, div-lt (d + 1) n q h (omega arith)))
      | inr (some_left, e) ↦ rw e (
        omega (arith, lt-div_suc n q h),
        omega (arith, lt-of_mul_lt (n / q) d q (omega (arith, split))),
      )
    ]

raised : (n d : ℕ) → 0 < d → (n ≤ (n / d + 1) * d) × (n % d ≢ 0 → (n / d + 1) * d < n + d)
raised n d h = (grind arith, λ k. grind arith)

exact : (n d : ℕ) → 0 < d → n % d ≡ 0 → n / d * d ≡ n
exact n d h k = grind arith

ceil_lem :
    (n d q r : ℕ) → ceil n d ≡ some (q, r) → (n ≤ q * d) × (q * d < n + d) × (n ≤ q * r) × (r ≤ d)
unfolding ceil
ceil_lem n d q r h = ground (arith, exact n d, raised n d, up_lem n (n / d + 1) d)

pub laws : CeilDivLaws math
laws = record {
  rounds_up = λ n d q r h. let (a, b, _, _) = ceil_lem n d q r h in (a, b);
  adjusts = λ n d q r h. let (_, _, a, b) = ceil_lem n d q r h in (a, b);
}

-- Fees of 3 and 1 in a thousand.
abbrev fees : Fees
fees = record {
  trade_fee_numerator = 3;
  trade_fee_denominator = 1_000;
  owner_trade_fee_numerator = 1;
  owner_trade_fee_denominator = 1_000;
  owner_withdraw_fee_numerator = 0;
  owner_withdraw_fee_denominator = 0;
  host_fee_numerator = 0;
  host_fee_denominator = 0;
}

-- 10,000 offered against 1,000,000 and 2,000,000: 40 are fees, and 19,723 come out. To get that
-- output exactly takes the same input.
abbrev swapped : SwapResult
swapped = record {
  new_swap_source_amount = 1_010_000;
  new_swap_destination_amount = 1_980_277;
  source_amount_swapped = 10_000;
  destination_amount_swapped = 19_723;
  trade_fee = 30;
  owner_fee = 10;
}

swap_run : SwapCurve.swap math product 10_000 1_000_000 2_000_000 a_to_b fees ≡ some swapped
unfolding SwapCurve.swap Dispatch.swap_without_fees swap trading_fee owner_trading_fee calculate_fee
    map_zero_to_none ceil up
swap_run = refl

exact_run :
    SwapCurve.swap_for_exact_out math product 19_723 1_000_000 2_000_000 a_to_b fees ≡ some swapped
unfolding SwapCurve.swap_for_exact_out Dispatch.swap_to_exact_out swap_to_exact_out
    pre_trading_fee_amount pre_fee_amount ceil_div trading_fee owner_trading_fee calculate_fee
    map_zero_to_none ceil up
exact_run = refl

-- `swap-keeps_fees` at this pool.
swap-keeps_fees_example :
    Balances 1_000_000 2_000_000 swapped
    × (10_000 ≤ 10_000)
    × (0 < 19_723)
    × (30 + 10 ≤ 10_000)
    × (1_000_000 * 2_000_000 + (30 + 10) * 1_980_277 ≤ 1_010_000 * 1_980_277)
swap-keeps_fees_example =
    swap-keeps_fees math laws 10_000 1_000_000 2_000_000 a_to_b fees {r = swapped} swap_run

-- 19,723 wanted, with fees that add up to 4 in a thousand.
swap_for_exact_out-keeps_example :
    Balances 1_000_000 2_000_000 swapped
    × (swapped.destination_amount_swapped ≡ 19_723)
    × (0 < 10_000)
    × (1_000_000 * 2_000_000 ≤ 1_010_000 * 1_980_277)
swap_for_exact_out-keeps_example =
    swap_for_exact_out-keeps math laws 19_723 1_000_000 2_000_000 a_to_b fees {r = swapped}
      (inr (omega arith), inr (omega arith), inr (inr (omega arith))) exact_run

-- Two fees of one half each.
abbrev halves : Fees
halves = record {
  trade_fee_numerator = 1;
  trade_fee_denominator = 2;
  owner_trade_fee_numerator = 1;
  owner_trade_fee_denominator = 2;
  owner_withdraw_fee_numerator = 0;
  owner_withdraw_fee_denominator = 0;
  host_fee_numerator = 0;
  host_fee_denominator = 0;
}

abbrev given_away : SwapResult
given_away = record {
  new_swap_source_amount = 1_000_000;
  new_swap_destination_amount = 1_980_277;
  source_amount_swapped = 0;
  destination_amount_swapped = 19_723;
  trade_fee = 0;
  owner_fee = 0;
}

free_run :
    SwapCurve.swap_for_exact_out math product 19_723 1_000_000 2_000_000 a_to_b halves
    ≡ some given_away
unfolding SwapCurve.swap_for_exact_out Dispatch.swap_to_exact_out swap_to_exact_out
    pre_trading_fee_amount pre_fee_amount ceil_div trading_fee owner_trading_fee calculate_fee
    map_zero_to_none ceil up
free_run = refl

swap_for_exact_out_free_example :
    (given_away.source_amount_swapped ≡ 0)
    × (given_away.destination_amount_swapped ≡ 19_723)
    × (0 < 19_723)
    × (given_away.new_swap_source_amount ≡ 1_000_000)
    × (given_away.new_swap_destination_amount + 19_723 ≡ 2_000_000)
swap_for_exact_out_free_example =
    swap_for_exact_out_free math laws 19_723 1_000_000 2_000_000 a_to_b halves {r = given_away}
      (omega arith) (omega arith) (omega arith) (omega arith) refl free_run

abbrev plain : SwapWithoutFeesResult
plain = record { source_amount_swapped = 9_960; destination_amount_swapped = 19_723 }

plain_run : swap_to_exact_out math 19_723 1_000_000 2_000_000 ≡ some plain
unfolding swap_to_exact_out map_zero_to_none ceil up
plain_run = refl

swap_to_exact_out-ExactOut_example : ExactOut 19_723 1_000_000 2_000_000 plain
swap_to_exact_out-ExactOut_example =
    swap_to_exact_out-ExactOut math laws 19_723 1_000_000 2_000_000 {r = plain} plain_run

abbrev shares : TradingTokenResult
shares = record { token_a_amount = 333; token_b_amount = 666 }

withdrawal_run : pool_tokens_to_trading_tokens 1 3 1_000 2_000 floor ≡ some shares
unfolding pool_tokens_to_trading_tokens
withdrawal_run = refl

withdrawal-KeepsShare_example :
    WithdrawalKeepsShare 1 3 1_000 333 × WithdrawalKeepsShare 1 3 2_000 666
withdrawal-KeepsShare_example =
    withdrawal-KeepsShare 1 3 1_000 2_000 {r = shares} (omega arith) withdrawal_run

abbrev raised_shares : TradingTokenResult
raised_shares = record { token_a_amount = 334; token_b_amount = 667 }

deposit_run : pool_tokens_to_trading_tokens 1 3 1_000 2_000 ceiling ≡ some raised_shares
unfolding pool_tokens_to_trading_tokens
deposit_run = refl

deposit-KeepsShare_example : DepositKeepsShare 1 3 1_000 334 × DepositKeepsShare 1 3 2_000 667
deposit-KeepsShare_example = deposit-KeepsShare 1 3 1_000 2_000 {r = raised_shares} deposit_run

abbrev price : ConstantPriceCurve
price = record { token_b_price = 7 }

abbrev bought : SwapWithoutFeesResult
bought = record { source_amount_swapped = 98; destination_amount_swapped = 14 }

price_run : ConstantPrice.swap_without_fees price 100 0 50 a_to_b ≡ some bought
unfolding ConstantPrice.swap_without_fees map_zero_to_none
price_run = refl

swap_without_fees-SameValue_example :
    SameValue price a_to_b bought × (98 ≤ 100) × (100 < 98 + 7) × (0 < 98) × (0 < 14)
swap_without_fees-SameValue_example =
    swap_without_fees-SameValue price 100 0 50 a_to_b {r = bought} price_run

abbrev offset : OffsetCurve
offset = record { token_b_offset = 500_000 }

abbrev shifted_swap : SwapWithoutFeesResult
shifted_swap = record { source_amount_swapped = 10_000; destination_amount_swapped = 24_752 }

offset_run :
    Offset.swap_without_fees offset math 10_000 1_000_000 2_000_000 a_to_b ≡ some shifted_swap
unfolding Offset.swap_without_fees Offset.offset_source Offset.offset_destination swap
    map_zero_to_none ceil up
offset_run = refl

swap_without_fees-KeepsProduct_example :
    OffsetKeepsProduct offset a_to_b 10_000 1_000_000 2_000_000 shifted_swap
swap_without_fees-KeepsProduct_example =
    swap_without_fees-KeepsProduct math laws offset 10_000 1_000_000 2_000_000 a_to_b
      {r = shifted_swap} offset_run

-- A trade fee of 3 in a thousand alone.
abbrev trade_only : Fees
trade_only = record fees { owner_trade_fee_numerator = 0; owner_trade_fee_denominator = 0 }

covers_run : pre_trading_fee_amount trade_only 1_000 ≡ some 1_004
unfolding pre_trading_fee_amount pre_fee_amount ceil_div
covers_run = refl

covers_fee_run : trading_fee trade_only 1_004 ≡ some 3
unfolding trading_fee calculate_fee
covers_fee_run = refl

pre_trading_fee_amount_covers_example :
    (1_000 + 3 ≤ 1_004) × ((1_004 - 1) * (1_000 - 3) < 1_000 * 1_000)
pre_trading_fee_amount_covers_example =
    pre_trading_fee_amount_covers trade_only 1_000 {pre = 1_004} {fee = 3} refl (omega arith)
      (omega arith) (omega arith) covers_run covers_fee_run

short_run : pre_trading_fee_amount fees 100 ≡ some 101
unfolding pre_trading_fee_amount pre_fee_amount ceil_div
short_run = refl

abbrev grossed : ℕ
grossed = 101

pre_trading_fee_amount_short_example :
    (grossed ≡ 100 + 1)
    × (trading_fee fees 101 ≡ some 1)
    × (owner_trading_fee fees 101 ≡ some 1)
    × (101 - 1 - 1 < 100)
pre_trading_fee_amount_short_example =
    pre_trading_fee_amount_short fees 100 {pre = 101} (omega arith) (omega arith) (omega arith)
      (omega arith) (omega arith) (omega arith) (omega arith) (omega arith) short_run

fee_run : calculate_fee 10_000 3 1_000 ≡ some 30
unfolding calculate_fee
fee_run = refl
