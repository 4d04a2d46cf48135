-- ===== src/Farm/Emission.antt =====
-- All stakers together are owed no more than what the farm emitted, and one token each for rounding.
use rome_dex.Base.{ℕ, ◌+◌, ◌-◌, ◌*◌, ◌≤◌, ◌≡◌, Result, ok, ◌>>=◌, >>=-eq-ok, List, [], ◌∷◌, arith}
use rome_dex.Base.Arith.{mul_mono, div-mul-le, le-of_mul_lt}
use rome_dex.Base.Int.{ℤ, pos_part, ◌-ℤ◌}
use rome_dex.Farm.State.{Farm, UserStake, FarmError, acc_precision, accrue, pending, set_debt}
use rome_dex.Farm.Accrual.{accrue-Accrues}
use rome_dex.Farm.Rewards.{total_share, total_share-le, total_amount, count, pending-set_debt}

-- Every stake settled at one accumulator and read at a later one: the sum of the new rewards.
unfoldable pub new_rewards : ℕ → ℕ → List UserStake → Result FarmError ℕ
new_rewards before after [] = ok 0
new_rewards before after (s ∷ ss) = do
  settled ← set_debt s before
  owed ← pending settled after
  rest ← new_rewards before after ss
  ok (owed - s.reward_pending + rest)

new_rewards-total_share :
    (before after : ℕ) (stakes : List UserStake) (total : ℕ)
    → new_rewards before after stakes ≡ ok total
    → total ≡ total_share before after stakes
unfolding new_rewards
new_rewards-total_share before after [] total e = ground arith
new_rewards-total_share before after (s ∷ ss) total e =
    let (settled, e1, k1) = >>=-eq-ok (set_debt s before) _ e in
    let (owed, e2, k2) = >>=-eq-ok (pending settled after) _ k1 in
    let (rest, e3, k3) = >>=-eq-ok (new_rewards before after ss) _ k2 in
    let tail = new_rewards-total_share before after ss rest e3 in
    let head = pending-set_debt s settled before after owed e1 e2 in ground arith

-- The growth of the accumulator, spread over what is staked, is no more than the emission.
growth_bound :
    (farm farm' : Farm) (now : ℤ)
    → accrue farm now ≡ ok farm'
    → (farm'.acc_reward_per_share - farm.acc_reward_per_share) * farm.total_staked
      ≤ pos_part (now -ℤ farm.last_update_ts) * farm.reward_per_second * acc_precision
unfolding accrue
growth_bound farm farm' now e =
    let elapsed = pos_part (now -ℤ farm.last_update_ts) in
    ground (arith, div-mul-le (elapsed * farm.reward_per_second * acc_precision) farm.total_staked)

-- After one update of the farm, stakes that make up at most what is staked, all settled before it, are
-- together owed at most the seconds passed times the rate, and at most one token each for rounding.
pub new_rewards-accrue :
    (farm farm' : Farm) (now : ℤ) (stakes : List UserStake) (total : ℕ)
    → accrue farm now ≡ ok farm'
    → total_amount stakes ≤ farm.total_staked
    → new_rewards farm.acc_reward_per_share farm'.acc_reward_per_share stakes ≡ ok total
    → total ≤ pos_part (now -ℤ farm.last_update_ts) * farm.reward_per_second + count stakes
new_rewards-accrue farm farm' now stakes total e h k =
    let elapsed = pos_part (now -ℤ farm.last_update_ts) in
    let growth = farm'.acc_reward_per_share - farm.acc_reward_per_share in
    let shares =
      total_share-le farm.acc_reward_per_share farm'.acc_reward_per_share stakes
        (accrue-Accrues farm now e).grows in
    le-of_mul_lt total (elapsed * farm.reward_per_second + count stakes) acc_precision (
      omega (
        arith,
        new_rewards-total_share _ _ stakes total k,
        shares,
        growth_bound farm farm' now e,
        mul_mono (total_amount stakes) farm.total_staked growth growth h (omega arith),
      ))
