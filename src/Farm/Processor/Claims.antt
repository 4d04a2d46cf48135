-- ===== src/Farm/Processor/Claims.antt =====
-- What a claim leaves behind, and who may set the rate.
use rome_dex.Base.{
  ℕ, ◌<◌, ◌≡◌, ◌≢◌, ◌⊎◌, inl, inr, List, [], ◌∷◌, ok, arith, ap, ltb, if◌then◌else◌, Bool-cases,
  ltb→lt,
}
use rome_dex.Base.Int.{ℤ}
use rome_dex.Solana.Runtime.{
  Pubkey, AccountInfo, Store, Runtime, RuntimeLaws, Instruction, Seeds, pure, invoke,
}
use rome_dex.Solana.Steps.{check_step, lift_step, invoked, pure_step}
use rome_dex.Farm.State.{Farm, UserStake, accrue, pending, set_debt}
use rome_dex.Farm.Processor.Checks.{farm_seeds}
use rome_dex.Farm.Processor.Loads.{lifted_step}
use rome_dex.Farm.Processor.Admission.{Admitted, admit_step}
use rome_dex.Farm.Processor.Booking.{Booked, book_step}
use rome_dex.Farm.Processor.Handlers.{claim}

-- Exactly the reward due is minted, or nothing where none is due.
abbrev pub Minted : Runtime → Instruction → List Seeds → ℕ → Store → Store → Type 0
Minted runtime instruction seeds owed s s1 =
    (0 < owed) × (runtime.invoke_signed instruction seeds s ≡ ok s1) ⊎ (owed ≡ 0) × (s1 ≡ s)

mint_step :
    (runtime : Runtime) (instruction : Instruction) (seeds : List Seeds) (owed : ℕ) (s : Store)
    {p : Unit {0} × Store}
    → (if ltb 0 owed then invoke runtime instruction seeds else pure tt) s ≡ ok p
    → Minted runtime instruction seeds owed s p.1
mint_step runtime instruction seeds owed s h = elim (Bool-cases (ltb 0 owed)) [
  | inl some_due ↦ inl (ltb→lt _ _ some_due, invoked runtime instruction seeds s (rw some_due at h))
  | inr none_due ↦ inr (ground arith, ap (λ x. x.1) (pure_step tt s (rw none_due at h)))
]

module _ (runtime : Runtime) (program_id : Pubkey) (laws : RuntimeLaws runtime program_id)
    (farm_ai pda_ai authority_ai user_stake_ai reward_mint_ai user_ai
      token_program_ai : AccountInfo)
    (rest : List AccountInfo) (s s' : Store) (apart : farm_ai.key ≢ user_stake_ai.key) where
  abbrev pub Claimed : Type 0
  Claimed =
      (farm accrued : Farm) × (position indebted : UserStake) × (now : ℤ) × (owed : ℕ)
      × (s1 : Store) × Admitted runtime program_id farm_ai pda_ai authority_ai user_stake_ai
          reward_mint_ai token_program_ai (λ f. f.reward_mint) s farm position
      × (runtime.unix_timestamp ≡ ok now)
      × (accrue farm now ≡ ok accrued)
      × (pending position accrued.acc_reward_per_share ≡ ok owed)
      × Minted runtime
          (Instruction.mint_to token_program_ai.key reward_mint_ai.key user_ai.key pda_ai.key owed)
          (farm_seeds farm_ai accrued ∷ []) owed s s1
      × (set_debt (record position { reward_pending = 0 }) accrued.acc_reward_per_share
          ≡ ok indebted)
      × Booked farm_ai user_stake_ai s s' accrued indebted

  -- A claim that succeeded: the caller signed, exactly the reward due was minted to the caller's account
  -- (no call is made for none), nothing is left pending, and stake and total are as they were.
  -- Conditions: farm and stake are two accounts, and the runtime keeps `RuntimeLaws`.
  pub claim_outcome :
      claim runtime program_id
          (farm_ai ∷ pda_ai ∷ authority_ai ∷ user_stake_ai ∷ reward_mint_ai ∷ user_ai
            ∷ token_program_ai ∷ rest)
          s
        ≡ ok (tt, s')
      → Claimed
  unfolding claim
  claim_outcome h =
      let (farm, position, admitted, h1) =
        admit_step runtime program_id farm_ai pda_ai authority_ai user_stake_ai reward_mint_ai
          token_program_ai (λ f. f.reward_mint) _ _ _ s h in
      let (now, clock, h2) = lift_step _ _ s h1 in
      let (accrued, accrual, h3) = lifted_step _ _ s h2 in
      let (owed, due, h4) = lifted_step _ _ s h3 in
      let (p5, e5, h5) = check_step _ _ s h4 in
      let minted = mint_step runtime _ _ owed s e5 in
      let (indebted, debt, h6) = lifted_step _ _ p5.1 h5 in
      let kept : (k : Pubkey) → (s k).owner ≡ program_id → (p5.1 k).contents ≡ (s k).contents =
        λ k own. elim minted [
          | inl (_, called) ↦ (laws.keeps_own _ _ s p5.1 k called own).1
          | inr (_, same) ↦ ap (λ st. (st k).contents) same
        ] in
      (
        farm,
        accrued,
        position,
        indebted,
        now,
        owed,
        p5.1,
        admitted,
        clock,
        accrual,
        due,
        minted,
        debt,
        book_step farm_ai user_stake_ai _ _ s p5.1 apart
            (kept farm_ai.key admitted.farm_loaded.owned)
            (kept user_stake_ai.key admitted.stake_loaded.owned) h6,
      )
