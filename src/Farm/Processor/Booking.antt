-- ===== src/Farm/Processor/Booking.antt =====
-- What a handler of farm/src/processor.rs has written when it closes with the farm and the stake.
use mathlib.Core.Path.{subst}
use rome_dex.Base.{ℕ, ◌+◌, ◌-◌, ◌≤◌, ◌<◌, ◌^◌, ◌≡◌, ◌≢◌, ok, arith, ap, sym, ◌∙◌, ok_or}
use rome_dex.Base.Words.{checked_add_u64, checked_sub}
use rome_dex.Solana.Runtime.{AccountInfo, Store, ◌>>◌}
use rome_dex.Solana.Steps.{check_step, update_self, update_ne}
use rome_dex.Farm.State.{Farm, UserStake, FarmError, set_debt}
use rome_dex.Farm.Codec.{pack_farm, pack_user_stake}
use rome_dex.Farm.Processor.Checks.{store_farm, store_user_stake}
use rome_dex.Farm.Processor.Loads.{store_farm_step, store_user_stake_step}

-- The two accounts hold the packed farm and the packed stake, over what they held before.
pub record Booked (farm_ai user_stake_ai : AccountInfo) (s s' : Store) (farm : Farm)
    (position : UserStake) : Type 0 where
  pub farm_booked : pack_farm farm (s farm_ai.key).contents ≡ ok (s' farm_ai.key).contents
  pub stake_booked :
      pack_user_stake position (s user_stake_ai.key).contents ≡ ok (s' user_stake_ai.key).contents

-- The closing of the four paths, over a store in which the two accounts are as they were.
pub book_step :
    (farm_ai user_stake_ai : AccountInfo) (farm : Farm) (position : UserStake) (s s1 : Store)
    {r : Unit {0} × Store}
    → farm_ai.key ≢ user_stake_ai.key
    → (s1 farm_ai.key).contents ≡ (s farm_ai.key).contents
    → (s1 user_stake_ai.key).contents ≡ (s user_stake_ai.key).contents
    → (store_farm farm_ai farm >> store_user_stake user_stake_ai position) s1 ≡ ok r
    → Booked farm_ai user_stake_ai s r.1 farm position
book_step farm_ai user_stake_ai farm position s s1 {r} apart same_farm same_stake h =
    let (p, e1, h1) = check_step _ _ s1 h in
    let (bytes, packed, s2) = store_farm_step farm_ai farm s1 e1 in
    let (bytes', packed', s3) = store_user_stake_step user_stake_ai position p.1 h1 in
    let other : (p.1 user_stake_ai.key).contents ≡ (s user_stake_ai.key).contents =
      ap (λ st. (st user_stake_ai.key).contents) s2
      ∙ ap (λ a. a.contents) (update_ne s1 user_stake_ai.key farm_ai.key _ (λ e. apart (sym e)))
      ∙ same_stake in
    let farm_bytes : (r.1 farm_ai.key).contents ≡ bytes =
      ap (λ st. (st farm_ai.key).contents) s3
      ∙ ap (λ a. a.contents) (update_ne p.1 farm_ai.key user_stake_ai.key _ apart)
      ∙ ap (λ st. (st farm_ai.key).contents) s2
      ∙ ap (λ a. a.contents) (update_self s1 farm_ai.key _) in
    let stake_bytes : (r.1 user_stake_ai.key).contents ≡ bytes' =
      ap (λ st. (st user_stake_ai.key).contents) s3
      ∙ ap (λ a. a.contents) (update_self p.1 user_stake_ai.key _) in
    record {
      farm_booked = ap (λ c. pack_farm farm c) (sym same_farm) ∙ packed ∙ ap ok (sym farm_bytes);
      stake_booked =
          ap (λ c. pack_user_stake position c) (sym other) ∙ packed' ∙ ap ok (sym stake_bytes);
    }

pub ok_sub :
    (a b : ℕ) {c : ℕ} → ok_or (checked_sub a b) FarmError.overflow ≡ ok c → (b ≤ a) × (c ≡ a - b)
ok_sub a b h = ground arith

pub ok_add :
    (a b : ℕ) {c : ℕ}
    → ok_or (checked_add_u64 a b) FarmError.overflow ≡ ok c
    → (a + b < 2 ^ 64) × (c ≡ a + b)
ok_add a b h = ground arith

-- The same for equal numbers.
pub debt_at :
    (position : UserStake) (acc owed : ℕ) {n m : ℕ} {r : UserStake}
    → n ≡ m
    → set_debt (record position { amount = n; reward_pending = owed }) acc ≡ ok r
    → set_debt (record position { amount = m; reward_pending = owed }) acc ≡ ok r
debt_at position acc owed {r = r} e h =
    subst (λ k. set_debt (record position { amount = k; reward_pending = owed }) acc ≡ ok r) e h

pub rebook :
    (farm_ai user_stake_ai : AccountInfo) (s s' : Store) (farm : Farm) (position : UserStake)
    {n m : ℕ}
    → n ≡ m
    → Booked farm_ai user_stake_ai s s' (record farm { total_staked = n }) position
    → Booked farm_ai user_stake_ai s s' (record farm { total_staked = m }) position
rebook farm_ai user_stake_ai s s' farm position e h =
    subst (λ k. Booked farm_ai user_stake_ai s s' (record farm { total_staked = k }) position) e h
