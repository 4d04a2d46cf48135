-- ===== src/Orders/Processor/Loads.antt =====
-- What the loads and checks of the handlers guarantee when they succeed.
use rome_dex.Base.{
  ℕ, ◌≡◌, refl, true, List, [], ◌∷◌, Result, ok, err, panic, ltb, ◌==◌, if◌then◌else◌, ◌⊎◌, inl,
  inr, Bool-cases, arith, ap, ==_iff,
}
use rome_dex.Solana.Runtime.{
  Pubkey, AccountInfo, Store, Action, Runtime, Instruction, Seeds, update, ◌>>=◌, lift, pure,
}
use rome_dex.Solana.Steps.{
  require_step, lift_step, owner_step, contents_step, pure_step, write_step, require_last, invoked,
}
use rome_dex.Orders.State.{Order, OrderError}
use rome_dex.Orders.Codec.{unpack_order, pack_order}
use rome_dex.Orders.Processor.Checks.{
  lifted, store_order, load_order, check_dex_program, check_token_program, escrow_transfer,
  dex_program_id,
}

pub record LoadsOrder (program_id : Pubkey) (info : AccountInfo) (s : Store) (order : Order)
    : Type 0 where
  pub owned : (s info.key).owner ≡ program_id
  pub unpacked : unpack_order (s info.key).contents ≡ ok order
  pub initialized : order.is_initialized ≡ true

pub load_order_step :
    (program_id : Pubkey) (info : AccountInfo) (s : Store) {p : Order × Store}
    → load_order program_id info s ≡ ok p
    → (p.1 ≡ s) × LoadsOrder program_id info s p.0
unfolding load_order
load_order_step program_id info s {p} h =
    let (own, h1) = require_step _ _ _ s (owner_step info _ s h) in
    let (order, unpacked, h2) = lift_step _ _ s (contents_step info _ s h1) in
    let (initialized, h3) = require_step _ _ _ s h2 in
    let result = pure_step order s h3 in
    (
      ap (λ x. x.1) result,
      rw result
          (record { owned = (==_iff _ _).0 own; unpacked = unpacked; initialized = initialized }),
    )

pub lifted_step :
    {A B : Type 0} (m : Result OrderError A) (f : A → Action B) (s : Store) {r : B × Store}
    → (lifted m >>= f) s ≡ ok r
    → (a : A) × (m ≡ ok a) × (f a s ≡ ok r)
unfolding lift ◌>>=◌
lifted_step (ok a) f s h = (a, refl, h)
lifted_step (err e) f s h = cc
lifted_step panic f s h = cc

pub store_order_step :
    (info : AccountInfo) (order : Order) (s : Store) {p : Unit {0} × Store}
    → store_order info order s ≡ ok p
    → (bytes : List ℕ) × (pack_order order (s info.key).contents ≡ ok bytes)
      × (p.1
          ≡ update s info.key (record {
            owner = (s info.key).owner;
            lamports = (s info.key).lamports;
            contents = bytes;
          }))
unfolding store_order
store_order_step info order s h =
    let (bytes, e, h1) = lift_step _ _ s (contents_step info _ s h) in
    (bytes, e, write_step info bytes s h1)

pub check_dex_program_step :
    (key : Pubkey) (s : Store) {p : Unit {0} × Store}
    → check_dex_program key s ≡ ok p
    → (key ≡ dex_program_id) × (p.1 ≡ s)
unfolding check_dex_program
check_dex_program_step key s h =
    let (same, stays) = require_last _ _ s h in ((==_iff _ _).0 same, stays)

pub check_token_program_step :
    (runtime : Runtime) (key : Pubkey) (s : Store) {p : Unit {0} × Store}
    → check_token_program runtime key s ≡ ok p
    → (key ≡ runtime.spl_token_id) × (p.1 ≡ s)
unfolding check_token_program
check_token_program_step runtime key s h =
    let (same, stays) = require_last _ _ s h in ((==_iff _ _).0 same, stays)

-- A transfer that is left out when there is nothing to move.
pub refund_step :
    (runtime : Runtime) (token_program_ai from_ai to_ai order_ai : AccountInfo) (seeds : Seeds)
    (amount : ℕ) (s : Store) {p : Unit {0} × Store}
    → (if amount == 0
          then pure tt
          else escrow_transfer runtime token_program_ai from_ai to_ai order_ai seeds amount)
        s
      ≡ ok p
    → ((amount ≡ 0) × (p.1 ≡ s))
      ⊎ (runtime.invoke_signed
            (Instruction.transfer token_program_ai.key from_ai.key to_ai.key order_ai.key amount)
            (seeds ∷ [])
            s
          ≡ ok p.1)
unfolding escrow_transfer pure
refund_step runtime token_program_ai from_ai to_ai order_ai seeds amount s h =
    elim (Bool-cases (amount == 0)) [
      | inl e ↦ inl ((==_iff _ _).0 e, ground arith)
      | inr e ↦ let h' = rw e at h in inr (invoked runtime _ _ s h')
    ]

pub fee_step :
    (runtime : Runtime) (token_program_ai from_ai to_ai order_ai : AccountInfo) (seeds : Seeds)
    (amount : ℕ) (s : Store) {p : Unit {0} × Store}
    → (if ltb 0 amount
          then escrow_transfer runtime token_program_ai from_ai to_ai order_ai seeds amount
          else pure tt)
        s
      ≡ ok p
    → ((amount ≡ 0) × (p.1 ≡ s))
      ⊎ (runtime.invoke_signed
            (Instruction.transfer token_program_ai.key from_ai.key to_ai.key order_ai.key amount)
            (seeds ∷ [])
            s
          ≡ ok p.1)
unfolding escrow_transfer pure
fee_step runtime token_program_ai from_ai to_ai order_ai seeds amount s h =
    elim (Bool-cases (ltb 0 amount)) [
      | inr e ↦ inl (ground arith, ground arith)
      | inl e ↦ let h' = rw e at h in inr (invoked runtime _ _ s h')
    ]
