-- ===== src/Curve/Fees/Inverse.antt =====
-- `pre_fee_amount` grosses an amount up so that it is left after the fee, and by no more than needed.
use rome_dex.Base.{ℕ, zero, suc, ◌+◌, ◌-◌, ◌*◌, ◌/◌, ◌≤◌, ◌<◌, ◌≡◌, refl, some, arith}
use rome_dex.Base.Words.{IsU64}
use rome_dex.Base.Arith.{
  mul_pos, lt-of_mul_lt, mul_mono, le-of_mul_lt, div-mul-le, lt-div_suc, div-lt,
}
use rome_dex.Curve.Fees.{
  Fees, at_least_one, calculate_fee, ceil_div, pre_fee_amount, pre_trading_fee_amount, trading_fee,
  owner_trading_fee,
}

-- `ceil_div` rounds the quotient up, and by less than one.
pub ceil_div_lem :
    (n d : ℕ) {q : ℕ} → ceil_div n d ≡ some q → (0 < d) × (n ≤ q * d) × (q * d < n + d)
unfolding ceil_div
ceil_div_lem n d {q} h = ground (arith, lt-div_suc (n + d - 1) d, div-mul-le (n + d - 1) d)

split_whole : (pre num den : ℕ) → num < den → pre * (den - num) + pre * num ≡ pre * den
split_whole pre num den h = grind arith

-- What is left of the gross amount after a fraction of it, and at least one token, is taken.
left_after_fee :
    (post pre num den fee : ℕ)
    → num < den
    → 0 < num
    → 0 < post
    → post * den ≤ pre * (den - num)
    → fee ≡ at_least_one (pre * num / den)
    → post + fee ≤ pre
left_after_fee post pre num den fee h hn hp g e = grind (
  arith,
  split_whole pre num den,
  div-mul-le (pre * num) den,
  le-of_mul_lt (post + pre * num / den) pre den,
  le-of_mul_lt (post + 1) pre den,
)

pub pre_fee_amount_lem :
    (post num den : ℕ) {pre : ℕ}
    → num < den
    → 0 < num
    → 0 < post
    → pre_fee_amount post num den ≡ some pre
    → (post * den ≤ pre * (den - num)) × (pre * (den - num) < post * den + (den - num))
unfolding pre_fee_amount
pre_fee_amount_lem post num den {pre} h hn hp e =
    ground (arith, ceil_div_lem (post * den) (den - num) {q = pre})

pre_minus_one : (pre m : ℕ) → (pre - 1) * m ≡ pre * m - m
pre_minus_one zero m = omega arith
pre_minus_one (suc pre) m = grind arith

-- The fee on a gross amount that is large enough leaves the wanted amount.
calculate_fee_leaves :
    (post pre num den : ℕ) {fee : ℕ}
    → num < den
    → 0 < num
    → 0 < post
    → post * den ≤ pre * (den - num)
    → calculate_fee pre num den ≡ some fee
    → post + fee ≤ pre
unfolding calculate_fee
calculate_fee_leaves post pre num den {fee} h hn hp g e =
    ground (arith, mul_pos post den hp, left_after_fee post pre num den fee h hn hp g)

-- A schedule without an owner fee inverts the trade fee alone.
pre_trading_fee_amount_single :
    (fees : Fees) (post : ℕ)
    → fees.owner_trade_fee_numerator ≡ 0
    → 0 < fees.trade_fee_numerator
    → fees.trade_fee_numerator < fees.trade_fee_denominator
    → pre_trading_fee_amount fees post
      ≡ pre_fee_amount post fees.trade_fee_numerator fees.trade_fee_denominator
unfolding pre_trading_fee_amount
pre_trading_fee_amount_single fees post ho hn hd = ground arith

-- Where only the trade fee is charged, what `pre_trading_fee_amount` asks for leaves at least the
-- wanted amount after the fee, and one step less of the net rate would not: the gross amount is the
-- least that the exact rate allows.
pub pre_trading_fee_amount_covers :
    (fees : Fees) (post : ℕ) {pre fee : ℕ}
    → fees.owner_trade_fee_numerator ≡ 0
    → 0 < fees.trade_fee_numerator
    → fees.trade_fee_numerator < fees.trade_fee_denominator
    → 0 < post
    → pre_trading_fee_amount fees post ≡ some pre
    → trading_fee fees pre ≡ some fee
    → (post + fee ≤ pre)
      × ((pre - 1) * (fees.trade_fee_denominator - fees.trade_fee_numerator)
          < post * fees.trade_fee_denominator)
unfolding trading_fee
pre_trading_fee_amount_covers fees post {pre} {fee} ho hn hd hp e f =
    let n = fees.trade_fee_numerator in
    let d = fees.trade_fee_denominator in
    ground (
      arith,
      pre_trading_fee_amount_single fees post ho hn hd,
      pre_fee_amount_lem post n d {pre = pre} hd hn hp,
      calculate_fee_leaves post pre n d {fee = fee} hd hn hp,
      pre_minus_one pre (d - n),
      mul_pos post d hp,
    )

-- A small fraction of an amount is the minimum fee.
calculate_fee_minimum :
    (amount num den : ℕ)
    → IsU64 den
    → 0 < amount
    → 0 < num
    → amount * num < den
    → calculate_fee amount num den ≡ some 1
unfolding calculate_fee
calculate_fee_minimum amount num den b ha hn h = ground (arith, div-lt 1 (amount * num) den)

next_above :
    (post num den : ℕ) {g : ℕ}
    → num < den
    → (post + 1) * num ≤ den
    → g < post * den + (den - num)
    → g < (post + 2) * (den - num)
next_above post num den {g} h small k = grind (arith, split_whole post num den h)

next_below :
    (post num den : ℕ) {g : ℕ}
    → 0 < num
    → 0 < post
    → num < den
    → post * den ≤ g
    → post * (den - num) < g
next_below post num den {g} hn hp h k =
    grind (arith, split_whole post num den h, mul_pos post num hp hn)

-- The gross amount is one token more where the net rate times the amount loses less than a token.
pre_fee_amount_next :
    (post num den : ℕ) {pre : ℕ}
    → 0 < num
    → 0 < post
    → (post + 1) * num ≤ den
    → pre_fee_amount post num den ≡ some pre
    → pre ≡ post + 1
pre_fee_amount_next post num den {pre} hn hp small e =
    let below : num < den = grind (arith, mul_mono 2 (post + 1) num num) in
    let (lo, hi) = pre_fee_amount_lem post num den {pre = pre} below hn hp e in
    let up : pre < post + 2 =
      lt-of_mul_lt pre (post + 2) (den - num) (next_above post num den below small hi) in
    let down : post < pre =
      lt-of_mul_lt post pre (den - num) (next_below post num den hn hp below lo) in
    omega arith

-- Each of two rates stays below its denominator where their sum does.
share_small :
    (x n1 d1 n2 d2 : ℕ) → 0 < x → 0 < n2 → 0 < d1 → x * (n1 * d2 + n2 * d1) ≤ d1 * d2 → x * n1 < d1
share_small x n1 d1 n2 d2 hx h2 hd small =
    lt-of_mul_lt (x * n1) d1 d2 (grind (arith, mul_pos (x * n2) d1 (mul_pos x n2 hx h2) hd))

share_small' :
    (x n1 d1 n2 d2 : ℕ) → 0 < x → 0 < n1 → 0 < d2 → x * (n1 * d2 + n2 * d1) ≤ d1 * d2 → x * n2 < d2
share_small' x n1 d1 n2 d2 hx h1 hd small = share_small x n2 d2 n1 d1 hx h1 hd (omega arith)

pub pre_trading_fee_amount_both :
    (fees : Fees) (post : ℕ) {pre : ℕ}
    → 0 < fees.trade_fee_numerator
    → fees.trade_fee_numerator < fees.trade_fee_denominator
    → 0 < fees.owner_trade_fee_numerator
    → fees.owner_trade_fee_numerator < fees.owner_trade_fee_denominator
    → pre_trading_fee_amount fees post ≡ some pre
    → pre_fee_amount post
        (fees.trade_fee_numerator * fees.owner_trade_fee_denominator
          + fees.owner_trade_fee_numerator * fees.trade_fee_denominator)
        (fees.trade_fee_denominator * fees.owner_trade_fee_denominator)
      ≡ some pre
unfolding pre_trading_fee_amount
pre_trading_fee_amount_both fees post h1 k1 h2 k2 e = ground arith

-- Where a trade fee and an owner fee are both charged and the wanted amount is small against both
-- rates, `pre_trading_fee_amount` adds one token, while each fee is then its minimum of one token:
-- what is left after the fees is one less than was wanted.
pub pre_trading_fee_amount_short :
    (fees : Fees) (post : ℕ) {pre : ℕ}
    → IsU64 fees.trade_fee_denominator
    → IsU64 fees.owner_trade_fee_denominator
    → 0 < fees.trade_fee_numerator
    → fees.trade_fee_numerator < fees.trade_fee_denominator
    → 0 < fees.owner_trade_fee_numerator
    → fees.owner_trade_fee_numerator < fees.owner_trade_fee_denominator
    → 0 < post
    → (post + 1)
        * (fees.trade_fee_numerator * fees.owner_trade_fee_denominator
            + fees.owner_trade_fee_numerator * fees.trade_fee_denominator)
      ≤ fees.trade_fee_denominator * fees.owner_trade_fee_denominator
    → pre_trading_fee_amount fees post ≡ some pre
    → (pre ≡ post + 1)
      × (trading_fee fees pre ≡ some 1)
      × (owner_trading_fee fees pre ≡ some 1)
      × (pre - 1 - 1 < post)
unfolding trading_fee owner_trading_fee
pre_trading_fee_amount_short fees post {pre} b1 b2 h1 k1 h2 k2 hp small e =
    let n1 = fees.trade_fee_numerator in
    let d1 = fees.trade_fee_denominator in
    let n2 = fees.owner_trade_fee_numerator in
    let d2 = fees.owner_trade_fee_denominator in
    let small1 : (post + 1) * n1 < d1 =
      share_small (post + 1) n1 d1 n2 d2 (omega arith) h2 (omega arith) small in
    let small2 : (post + 1) * n2 < d2 =
      share_small' (post + 1) n1 d1 n2 d2 (omega arith) h1 (omega arith) small in
    let joined : pre_fee_amount post (n1 * d2 + n2 * d1) (d1 * d2) ≡ some pre =
      pre_trading_fee_amount_both fees post h1 k1 h2 k2 e in
    let next : pre ≡ post + 1 =
      pre_fee_amount_next post (n1 * d2 + n2 * d1) (d1 * d2) (grind (arith, mul_pos n1 d2 h1)) hp
        small joined in
    rw next (
      refl,
      calculate_fee_minimum (post + 1) n1 d1 b1 (omega arith) h1 small1,
      calculate_fee_minimum (post + 1) n2 d2 b2 (omega arith) h2 small2,
      omega arith,
    )
