-- ===== src/Curve/ConstantProduct/Shares.antt =====
-- Deposits and withdrawals of pool tokens never lower what a remaining pool token is worth.
use rome_dex.Base.{ℕ, zero, suc, ◌+◌, ◌-◌, ◌*◌, ◌/◌, ◌%◌, ◌≤◌, ◌<◌, ◌≡◌, ◌⊎◌, inl, inr, some, arith}
use rome_dex.Base.Arith.{div-mul-le, sub_mul}
use native.Mathlib.Nat.{mul-sub, div-add-mod', mod-lt}
use rome_dex.Curve.Calculator.{floor, ceiling, TradingTokenResult}
use rome_dex.Curve.ConstantProduct.{pool_tokens_to_trading_tokens, round_up_nonzero}

-- `tokens` of `supply` pool tokens leave with `amount` of a reserve: the reserve for each pool token
-- does not fall.
abbrev pub WithdrawalKeepsShare : ℕ → ℕ → ℕ → ℕ → Type 0
WithdrawalKeepsShare tokens supply reserve amount =
    (amount * supply ≤ tokens * reserve)
    × (reserve * (supply - tokens) ≤ (reserve - amount) * supply)

-- The same on the way in, where a side may be asked for nothing.
abbrev pub DepositKeepsShare : ℕ → ℕ → ℕ → ℕ → Type 0
DepositKeepsShare tokens supply reserve amount =
    (amount ≡ 0) × (tokens * reserve < supply)
    ⊎ (reserve * (supply + tokens) ≤ (reserve + amount) * supply)
      × (amount * supply < tokens * reserve + supply)

withdrawal :
    (tokens supply reserve : ℕ)
    → tokens ≤ supply
    → WithdrawalKeepsShare tokens supply reserve (tokens * reserve / supply)
withdrawal tokens supply reserve h =
    let below = div-mul-le (tokens * reserve) supply in (below, rw (sub_mul, mul-sub) (omega arith))

raised :
    (tokens supply reserve q rem : ℕ)
    → q * supply + rem ≡ tokens * reserve
    → rem < supply
    → 0 < rem
    → (reserve * (supply + tokens) ≤ (reserve + (q + 1)) * supply)
      × ((q + 1) * supply < tokens * reserve + supply)
raised tokens supply reserve q rem e h k = (omega arith, omega arith)

rounded_deposit :
    (tokens supply reserve q rem : ℕ)
    → q * supply + rem ≡ tokens * reserve
    → rem < supply
    → DepositKeepsShare tokens supply reserve (round_up_nonzero rem q)
rounded_deposit tokens supply reserve zero rem e h = inl (ground arith)
rounded_deposit tokens supply reserve (suc q) zero e h = inr (omega arith)
rounded_deposit tokens supply reserve (suc q) (suc rem) e h =
    let up : round_up_nonzero (suc rem) (suc q) ≡ suc q + 1 = ground arith in
    inr (rw up (raised tokens supply reserve (suc q) (suc rem) e h (omega arith)))

deposit :
    (tokens supply reserve : ℕ)
    → 0 < supply
    → DepositKeepsShare tokens supply reserve
        (round_up_nonzero (tokens * reserve % supply) (tokens * reserve / supply))
deposit tokens supply reserve h =
    rounded_deposit tokens supply reserve (tokens * reserve / supply) (tokens * reserve % supply)
      (div-add-mod' (tokens * reserve) supply) (mod-lt (tokens * reserve) h)

-- A withdrawal of at most the supply, rounded down: for each of the two reserves, what leaves is at most
-- the share of the pool tokens, and the reserve for each pool token that stays does not fall.
pub withdrawal-KeepsShare :
    (tokens supply token_a token_b : ℕ) {r : TradingTokenResult}
    → tokens ≤ supply
    → pool_tokens_to_trading_tokens tokens supply token_a token_b floor ≡ some r
    → WithdrawalKeepsShare tokens supply token_a r.token_a_amount
      × WithdrawalKeepsShare tokens supply token_b r.token_b_amount
unfolding pool_tokens_to_trading_tokens
withdrawal-KeepsShare tokens supply token_a token_b h e =
    ground (arith, withdrawal tokens supply token_a h, withdrawal tokens supply token_b h)

-- A deposit, rounded up: on each side either nothing is asked for, because the share of the pool tokens is
-- less than one token, or the reserve for each pool token does not fall and less than one token more than
-- the share is asked for.
pub deposit-KeepsShare :
    (tokens supply token_a token_b : ℕ) {r : TradingTokenResult}
    → pool_tokens_to_trading_tokens tokens supply token_a token_b ceiling ≡ some r
    → DepositKeepsShare tokens supply token_a r.token_a_amount
      × DepositKeepsShare tokens supply token_b r.token_b_amount
unfolding pool_tokens_to_trading_tokens
deposit-KeepsShare tokens supply token_a token_b {r} e =
    ground (arith, deposit tokens supply token_a, deposit tokens supply token_b)
