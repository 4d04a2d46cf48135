-- ===== src/Farm/Rewards.antt =====
-- What a stake is owed: its share of the accumulator's growth, to within one token.
use rome_dex.Base.{ℕ, suc, ◌+◌, ◌-◌, ◌*◌, ◌/◌, ◌^◌, ◌≤◌, ◌<◌, ◌≡◌, ok, err, List, [], ◌∷◌, arith}
use rome_dex.Base.Arith.{mul_mono}
use native.Mathlib.Nat.{mul-sub}
use rome_dex.Farm.State.{UserStake, overflow, acc_precision, pending, set_debt}

-- The reward between two snapshots of the accumulator, in tokens.
abbrev pub share : ℕ → ℕ → ℕ → ℕ
share amount before after = amount * after / acc_precision - amount * before / acc_precision

pub pending-set_debt :
    (stake s : UserStake) (before after owed : ℕ)
    → set_debt stake before ≡ ok s
    → pending s after ≡ ok owed
    → owed ≡ stake.reward_pending + share stake.amount before after
unfolding pending set_debt
pending-set_debt stake s before after owed h k = ground arith

-- A stake that has just been settled is owed what it had pending and nothing more: a newcomer has no
-- claim on the past.
pub pending_settled :
    (stake s : UserStake) (acc owed : ℕ)
    → set_debt stake acc ≡ ok s
    → pending s acc ≡ ok owed
    → owed ≡ stake.reward_pending
pending_settled stake s acc owed h k = omega (arith, pending-set_debt stake s acc acc owed h k)

share_bounds :
    (amount before after : ℕ)
    → before ≤ after
    → (share amount before after * acc_precision < amount * (after - before) + acc_precision)
      × (amount * (after - before) < (share amount before after + 1) * acc_precision)
share_bounds amount before after h = rw mul-sub (omega (arith, mul_mono amount amount before after))

-- From a settlement on, a stake is owed its amount times the growth of the accumulator, to within one
-- token either way, on top of what it had pending.
pub pending_bounds :
    (stake s : UserStake) (before after owed : ℕ)
    → before ≤ after
    → set_debt stake before ≡ ok s
    → pending s after ≡ ok owed
    → (stake.reward_pending ≤ owed)
      × ((owed - stake.reward_pending) * acc_precision
          < stake.amount * (after - before) + acc_precision)
      × (stake.amount * (after - before) < (owed - stake.reward_pending + 1) * acc_precision)
pending_bounds stake s before after owed h e k =
    let whole = pending-set_debt stake s before after owed e k in
    let (low, high) = share_bounds stake.amount before after h in
    (omega arith, omega arith, omega arith)

-- Once the product of amount and accumulator has left the u128, `pending` fails with `Overflow` for
-- good, since the accumulator only grows.
pub pending_stuck :
    (stake : UserStake) (acc later : ℕ)
    → 2 ^ 128 ≤ stake.amount * acc
    → acc ≤ later
    → pending stake later ≡ err overflow
unfolding pending
pending_stuck stake acc later h k = ground (arith, mul_mono stake.amount stake.amount acc later)

abbrev pub total_amount : List UserStake → ℕ
total_amount [] = 0
total_amount (s ∷ ss) = s.amount + total_amount ss

-- The rewards of all stakes between two snapshots.
abbrev pub total_share : ℕ → ℕ → List UserStake → ℕ
total_share before after [] = 0
total_share before after (s ∷ ss) = share s.amount before after + total_share before after ss

abbrev pub count : List UserStake → ℕ
count [] = 0
count (s ∷ ss) = suc (count ss)

pub total_share-le :
    (before after : ℕ) (stakes : List UserStake)
    → before ≤ after
    → total_share before after stakes * acc_precision
      ≤ total_amount stakes * (after - before) + count stakes * acc_precision
total_share-le before after [] h = omega arith
total_share-le before after (s ∷ ss) h =
    let (low, _) = share_bounds s.amount before after h in
    omega (arith, total_share-le before after ss h)
