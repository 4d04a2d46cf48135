-- ===== src/Pool/Creation/Opening.antt =====
-- `init_pool_state` of program/src/processor.rs, when it succeeds.
use mathlib.Core.Path.{subst}
use rome_dex.Base.{
  Result, ℕ, ◌≡◌, ◌≢◌, ◌⊎◌, inl, inr, true, false, not, ◌==◌, ==_iff, Option, none, some, [], ◌∷◌,
  ok, arith, refl, ap, sym, ◌∙◌, Bool,
}
use rome_dex.Solana.Runtime.{
  Pubkey, to_bytes, AccountInfo, Instruction, Store, Action, ◌>>◌, fail, require,
}
use rome_dex.Solana.Steps.{
  require_step, require_last, lift_step, contents_step, pass_step, pure_last, write_step,
  update_self, invoke_step,
}
use rome_dex.Curve.Calculator
use rome_dex.Curve.Calculator.{SwapError}
use rome_dex.Curve.Fees
use rome_dex.Curve.Fees.{Fees}
use rome_dex.Curve.SwapCurve.Dispatch
use rome_dex.Pool.Platform.{Platform, Mint, TokenAccount}
use rome_dex.Pool.State.{SwapCurve, SwapV2, from_error, lifted}
use rome_dex.Pool.Version
use rome_dex.Pool.Constraints.{SwapConstraints, validate_curve, validate_fees}
use rome_dex.Pool.Loads.{
  differ, lifted_step, lifted_last, to_u64_value, token_account_step, mint_step,
}
use rome_dex.Pool.Processor.Tokens.{authority_seeds, token_mint_to}
use rome_dex.Pool.Processor.Create.{
  require_none, close_authority_of, mints_for, check_new_pool, check_constraints, require_new,
  store_version, init_pool_state,
}

-- The two vaults, the user's destination and the pool's mint: the pool's authority owns both vaults and
-- mints the pool's tokens, nobody else has a hold on them, and there are no pool tokens yet.
pub record Fresh (curve : SwapCurve) (authority : Pubkey)
    (token_a token_b destination : TokenAccount) (pool_mint : Mint) : Type 0 where
  pub owns_a : token_a.owner ≡ authority
  pub owns_b : token_b.owner ≡ authority
  pub gives_away : destination.owner ≢ authority
  pub mints : pool_mint.mint_authority ≡ some authority
  pub two_mints : token_a.mint ≢ token_b.mint
  pub supplied : Dispatch.validate_supply curve.calculator token_a.amount token_b.amount ≡ ok tt
  pub no_delegate_a : token_a.delegate ≡ none
  pub no_delegate_b : token_b.delegate ≡ none
  pub no_closer_a : token_a.close_authority ≡ none
  pub no_closer_b : token_b.close_authority ≡ none
  pub no_supply : pool_mint.supply ≡ 0
  pub no_freezer : pool_mint.freeze_authority ≡ none

is_false : {b : Bool} → not b ≡ true → b ≡ false
is_false {b} h = ground arith

lifted_pass :
    {B : Type 0} (m : Result SwapError (Unit {0})) (k : Action B) (s : Store) {r : B × Store}
    → (lifted m >> k) s ≡ ok r
    → (m ≡ ok tt) × (k s ≡ ok r)
lifted_pass m k s h = pass_step (m ≡ ok tt) _ k s (λ p e. lifted_last m s e) h

none_last :
    (o : Option Pubkey) (e : SwapError) (s : Store) {p : Unit {0} × Store}
    → require_none o e s ≡ ok p
    → (p.1 ≡ s) × (o ≡ none)
unfolding fail
none_last none e s h = pure_last (λ (u : Unit {0}). ◌≡◌ {A = Option Pubkey} none none) tt s refl h
none_last (some key) e s h = cc

none_step :
    {B : Type 0} (o : Option Pubkey) (e : SwapError) (k : Action B) (s : Store) {r : B × Store}
    → (require_none o e >> k) s ≡ ok r
    → (o ≡ none) × (k s ≡ ok r)
none_step o e k s h = pass_step (o ≡ none) (require_none o e) k s (λ p x. none_last o e s x) h

minter_step :
    {B : Type 0} (mint : Mint) (authority : Pubkey) (k : Action B) (s : Store) {r : B × Store}
    → (mints_for mint authority >> k) s ≡ ok r
    → (mint.mint_authority ≡ some authority) × (k s ≡ ok r)
unfolding fail ◌>>◌
minter_step mint authority k s {r} h = found mint.mint_authority h
  where
    found :
        (o : Option Pubkey)
        → ((elim o [
          | none ↦ fail (from_error Calculator.invalid_owner)
          | some key ↦ require (authority == key) (from_error Calculator.invalid_owner)
        ])
              >> k)
            s
          ≡ ok r
        → (o ≡ some authority) × (k s ≡ ok r)
    found none h = cc
    found (some key) h =
        let (same, h1) = require_step _ _ k s h in
        (ap some (sym ((==_iff authority key).0 same)), h1)

-- No authority is left in the extension that closes a mint.
abbrev pub NoCloser : Option (Option Pubkey) → Type 0
NoCloser extension = (extension ≡ none) ⊎ (extension ≡ some none)

no_closer : (mint : Mint) → close_authority_of mint ≡ none → NoCloser mint.mint_close_authority
no_closer mint h = found mint.mint_close_authority h
  where
    found :
        (o : Option (Option Pubkey))
        → ◌≡◌ {A = Option Pubkey} (elim o [ none ↦ none | some key ↦ key ]) none
        → NoCloser o
    found none h = inl refl
    found (some key) h = inr (ap some h)

new_pool_step :
    {B : Type 0} (curve : SwapCurve) (authority : Pubkey)
    (token_a token_b destination : TokenAccount) (pool_mint : Mint) (k : Action B) (s : Store)
    {r : B × Store}
    → (check_new_pool curve authority token_a token_b destination pool_mint >> k) s ≡ ok r
    → Fresh curve authority token_a token_b destination pool_mint × (k s ≡ ok r)
unfolding check_new_pool
new_pool_step curve authority token_a token_b destination pool_mint k s h =
    pass_step (Fresh curve authority token_a token_b destination pool_mint) _ k s
      (λ p e.
        let (a, e1) = require_step _ _ _ s e in
        let (b, e2) = require_step _ _ _ s e1 in
        let (other, e3) = require_step _ _ _ s e2 in
        let (mints, e4) = minter_step pool_mint authority _ s e3 in
        let (apart, e5) = require_step _ _ _ s e4 in
        let (supplied, e6) = lifted_pass _ _ s e5 in
        let (delegate_a, e7) = none_step _ _ _ s e6 in
        let (delegate_b, e8) = none_step _ _ _ s e7 in
        let (closer_a, e9) = none_step _ _ _ s e8 in
        let (closer_b, e10) = none_step _ _ _ s e9 in
        let (supply, e11) = require_step _ _ _ s e10 in
        let (stays, freezer) = none_last _ _ s e11 in
        (
          stays,
          record {
            owns_a = sym ((==_iff _ _).0 a);
            owns_b = sym ((==_iff _ _).0 b);
            gives_away = λ x. differ _ _ other (sym x);
            mints = mints;
            two_mints = differ _ _ apart;
            supplied = supplied;
            no_delegate_a = delegate_a;
            no_delegate_b = delegate_b;
            no_closer_a = closer_a;
            no_closer_b = closer_b;
            no_supply = (==_iff _ _).0 supply;
            no_freezer = freezer;
          },
        ))
      h

-- The constraints of the deployment, where there are any.
abbrev pub Meets : Option SwapConstraints → SwapCurve → Fees → Type 0
Meets none curve fees = Unit {0}
Meets (some constraints) curve fees =
    (validate_curve constraints curve ≡ ok tt) × (validate_fees constraints fees ≡ ok tt)

constraints_last :
    (constraints : Option SwapConstraints) (curve : SwapCurve) (fees : Fees) (s : Store)
    {p : Unit {0} × Store}
    → check_constraints constraints curve fees s ≡ ok p
    → (p.1 ≡ s) × Meets constraints curve fees
unfolding check_constraints
constraints_last none curve fees s h = pure_last (λ _. Unit {0}) tt s tt h
constraints_last (some constraints) curve fees s h =
    let (right_curve, h1) = lifted_pass _ _ s h in
    let (stays, right_fees) = lifted_last _ s h1 in (stays, (right_curve, right_fees))

module _ (platform : Platform) (program_id : Pubkey) where
  store_version_last :
      (info : AccountInfo) (pool : SwapV2) (s : Store) {p : Unit {0} × Store}
      → store_version platform program_id info pool s ≡ ok p
      → Version.pack_version platform pool (s info.key).contents ≡ ok (p.1 info.key).contents
  unfolding store_version
  store_version_last info pool s h =
      let (bytes, e, h1) = lift_step _ _ s (contents_step info _ s h) in
      let same = ap (λ st. (st info.key).contents) (write_step info bytes s h1) in
      e ∙ ap ok (sym (same ∙ ap (λ a. a.contents) (update_self s info.key _)))

  -- Nothing is in the account yet.
  pub new_step :
      {B : Type 0} (info : AccountInfo) (k : Action B) (s : Store) {r : B × Store}
      → (require_new platform program_id info >> k) s ≡ ok r
      → (Version.is_initialized platform (s info.key).contents ≡ ok false) × (k s ≡ ok r)
  unfolding require_new
  new_step info k s h =
      pass_step (Version.is_initialized platform (s info.key).contents ≡ ok false) _ k s
        (λ p e.
          let (taken, read, e1) = lift_step _ _ s (contents_step info _ s e) in
          let (free, stays) = require_last _ _ s e1 in (stays, read ∙ ap ok (is_false free)))
        h

  module _ (fees : Fees) (curve : SwapCurve)
      (pool_info authority_info vault_a_info vault_b_info lp_mint_info destination_info
        program_info : AccountInfo)
      (constraints : Option SwapConstraints) (s s' : Store) where
    -- From the accounts as they are before the first pool tokens are minted to the new pool.
    pub record Opens : Type 0 where
      pub free : Version.is_initialized platform (s pool_info.key).contents ≡ ok false
      pub token_a : TokenAccount
      pub token_b : TokenAccount
      pub destination : TokenAccount
      pub pool_mint : Mint
      pub read_a : platform.unpack_account (s vault_a_info.key).contents ≡ some token_a
      pub read_b : platform.unpack_account (s vault_b_info.key).contents ≡ some token_b
      pub read_destination :
          platform.unpack_account (s destination_info.key).contents ≡ some destination
      pub read_mint : platform.unpack_mint (s lp_mint_info.key).contents ≡ some pool_mint
      pub bump : ℕ
      pub authority :
          platform.runtime.find_program_address (to_bytes pool_info.key ∷ []) program_id
          ≡ (authority_info.key, bump)
      pub unclosable : NoCloser pool_mint.mint_close_authority
      pub fresh : Fresh curve authority_info.key token_a token_b destination pool_mint
      pub meets : Meets constraints curve fees
      pub fees_valid : Fees.validate fees ≡ ok tt
      pub curve_valid : Dispatch.validate curve.calculator ≡ ok tt
      pub minted_store : Store
      pub minted :
          platform.runtime.invoke_signed
            (Instruction.mint_to program_info.key lp_mint_info.key destination_info.key
              authority_info.key 1_000_000_000)
            (authority_seeds pool_info.key bump ∷ [])
            s
          ≡ ok minted_store
      pub packed :
          Version.pack_version platform
            (record {
              is_initialized = true;
              bump_seed = bump;
              token_program_id = program_info.key;
              token_a = vault_a_info.key;
              token_b = vault_b_info.key;
              pool_mint = lp_mint_info.key;
              token_a_mint = token_a.mint;
              token_b_mint = token_b.mint;
              fees = fees;
              swap_curve = curve;
              protocol_fees_a = 0;
              protocol_fees_b = 0;
            })
            (minted_store pool_info.key).contents
          ≡ ok (s' pool_info.key).contents

    pub init_last :
        init_pool_state platform program_id fees curve
            (pool_info ∷ authority_info ∷ vault_a_info ∷ vault_b_info ∷ lp_mint_info
              ∷ destination_info ∷ program_info ∷ [])
            constraints
            s
          ≡ ok (tt, s')
        → Opens
    unfolding init_pool_state token_mint_to
    init_last h =
        let (free, h1) = new_step pool_info _ s h in
        let (same, h2) = require_step _ _ _ s h1 in
        let (token_a, read_a, h3) = token_account_step platform vault_a_info _ _ s h2 in
        let (token_b, read_b, h4) = token_account_step platform vault_b_info _ _ s h3 in
        let (destination, read_d, h5) = token_account_step platform destination_info _ _ s h4 in
        let (pool_mint, read_mint, h6) = mint_step platform lp_mint_info _ _ s h5 in
        let (closer, h7) = none_step _ _ _ s h6 in
        let (fresh, h8) =
          new_pool_step curve authority_info.key token_a token_b destination pool_mint _ s h7 in
        let (meets, h9) =
          pass_step (Meets constraints curve fees) _ _ s
            (λ p e. constraints_last constraints curve fees s e) h8 in
        let (fees_valid, h10) = lifted_pass _ _ s h9 in
        let (curve_valid, h11) = lifted_pass _ _ s h10 in
        let (initial, value, h12) = lifted_step _ _ s h11 in
        let initial_is = (to_u64_value 1_000_000_000 value).0 in
        let (s1, minted, h13) = invoke_step platform.runtime _ _ _ s h12 in
        record {
          free = free;
          token_a = token_a;
          token_b = token_b;
          destination = destination;
          pool_mint = pool_mint;
          read_a = read_a.1;
          read_b = read_b.1;
          read_destination = read_d.1;
          read_mint = read_mint.1;
          bump = (platform.runtime.find_program_address (to_bytes pool_info.key ∷ []) program_id).1;
          authority =
              ap
                (λ k. (
                  k,
                  (platform.runtime.find_program_address (to_bytes pool_info.key ∷ [])
                      program_id).1,
                ))
                (sym ((==_iff _ _).0 same));
          unclosable = no_closer pool_mint closer;
          fresh = fresh;
          meets = meets;
          fees_valid = fees_valid;
          curve_valid = curve_valid;
          minted_store = s1;
          minted =
              subst
                (λ n.
                  platform.runtime.invoke_signed
                    (Instruction.mint_to program_info.key lp_mint_info.key destination_info.key
                      authority_info.key n)
                    (authority_seeds pool_info.key
                        (platform.runtime.find_program_address (to_bytes pool_info.key ∷ [])
                          program_id).1
                      ∷ [])
                    s
                  ≡ ok s1)
                initial_is minted;
          packed = store_version_last pool_info _ s1 h13;
        }
