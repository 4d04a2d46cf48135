-- ===== src/Orders/Processor/Pinning.antt =====
-- The opening of `execute`: what holds once it passed.
use rome_dex.Base.{◌≡◌, Bool, true, false, not, ◌&&◌, ok, ◌==◌, arith, ==_iff}
use rome_dex.Base.Int.{ℤ}
use rome_dex.Solana.Errors.{ProgramError}
use rome_dex.Solana.Runtime.{
  Pubkey, AccountInfo, Store, Action, Runtime, TokenAccount, ◌>>=◌, ◌>>◌, lift, require,
  contents_of, >>=-eq-ok,
}
use rome_dex.Solana.Steps.{require_step, check_step, lift_step, contents_step}
use rome_dex.Orders.State.{Order, is_open, is_expired, dca_ready}
use rome_dex.Orders.Processor.Checks.{
  load_order, check_dex_program, check_token_program, dex_program_id,
}
use rome_dex.Orders.Processor.Loads.{
  LoadsOrder, load_order_step, check_token_program_step, check_dex_program_step,
}

both : {b c : Bool} → (b && c) ≡ true → (b ≡ true) × (c ≡ true)
both {b} {c} h = (ground arith, ground arith)

is_false : {b : Bool} → not b ≡ true → b ≡ false
is_false {b} h = ground arith

-- The order may be executed now.
pub record IsDue (runtime : Runtime) (order : Order) (now : ℤ) : Type 0 where
  pub clock : runtime.unix_timestamp ≡ ok now
  pub live : is_open order ≡ true
  pub unexpired : is_expired order now ≡ false
  pub ready : dca_ready order now ≡ true

pub opening_step :
    {B : Type 0} (runtime : Runtime) (program_id : Pubkey) (order_ai : AccountInfo)
    (e e' e'' : ProgramError) (k : Order → ℤ → Action B) (s : Store) {r : B × Store}
    → (load_order program_id order_ai >>= λ order.
          require (is_open order) e
          >> (lift runtime.unix_timestamp >>= λ now.
              require (not (is_expired order now)) e'
              >> (require (dca_ready order now) e'' >> k order now)))
        s
      ≡ ok r
    → (order : Order) × (now : ℤ) × LoadsOrder program_id order_ai s order
      × IsDue runtime order now
      × (k order now s ≡ ok r)
opening_step runtime program_id order_ai e e' e'' k s h =
    let (p1, e1, h1) = >>=-eq-ok _ _ s h in
    let (s1, loaded) = load_order_step program_id order_ai s e1 in
    let h1' = rw s1 at h1 in
    let (live, h2) = require_step _ _ _ s h1' in
    let (now, clock, h3) = lift_step _ _ s h2 in
    let (unexpired, h4) = require_step _ _ _ s h3 in
    let (ready, h5) = require_step _ _ _ s h4 in
    (
      p1.0,
      now,
      loaded,
      record { clock = clock; live = live; unexpired = is_false unexpired; ready = ready },
      h5,
    )

module _ (runtime : Runtime)
    (dex_program_ai token_program_ai pool_ai input_escrow_ai dst_ata_ai dst_mint_ai keeper_fee_ai
      src_mint_ai : AccountInfo) where
  -- Every account that the caller chose is the order's, or is checked against it.
  pub record Pinned (s : Store) (order : Order) : Type 0 where
    pub dex : dex_program_ai.key ≡ dex_program_id
    pub token_program : token_program_ai.key ≡ runtime.spl_token_id
    pub pool : pool_ai.key ≡ order.pool
    pub escrow : input_escrow_ai.key ≡ order.input_escrow
    pub destination : dst_ata_ai.key ≡ order.dst_ata
    pub dst : TokenAccount
    pub dst_read : runtime.unpack_token_account (s dst_ata_ai.key).contents ≡ ok dst
    pub dst_owner : dst.owner ≡ order.owner
    pub dst_mint : dst.mint ≡ dst_mint_ai.key
    pub keeper : TokenAccount
    pub keeper_read : runtime.unpack_token_account (s keeper_fee_ai.key).contents ≡ ok keeper
    pub keeper_mint : keeper.mint ≡ src_mint_ai.key

  pub accounts_step :
      {B : Type 0} (order : Order) (e e' e'' : ProgramError) (k : Action B) (s : Store)
      {r : B × Store}
      → (check_dex_program dex_program_ai.key
            >> (check_token_program runtime token_program_ai.key
                >> (require
                      (pool_ai.key == order.pool
                        && (input_escrow_ai.key == order.input_escrow
                            && dst_ata_ai.key == order.dst_ata))
                      e
                    >> (contents_of dst_ata_ai >>= λ bytes.
                        lift (runtime.unpack_token_account bytes) >>= λ dst.
                        require (dst.owner == order.owner && dst.mint == dst_mint_ai.key) e'
                        >> (contents_of keeper_fee_ai >>= λ bytes.
                            lift (runtime.unpack_token_account bytes) >>= λ keeper.
                            require (keeper.mint == src_mint_ai.key) e'' >> k)))))
          s
        ≡ ok r
      → Pinned s order × (k s ≡ ok r)
  accounts_step order e e' e'' k s h =
      let (p6, e6, h6) = check_step _ _ s h in
      let (dex, s6) = check_dex_program_step dex_program_ai.key s e6 in
      let h6' = rw s6 at h6 in
      let (p7, e7, h7) = check_step _ _ s h6' in
      let (token, s7) = check_token_program_step runtime token_program_ai.key s e7 in
      let h7' = rw s7 at h7 in
      let (theirs, h8) = require_step _ _ _ s h7' in
      let (pool, accounts) = both theirs in
      let (escrow, destination) = both accounts in
      let (dst, dst_read, h9) = lift_step _ _ s (contents_step dst_ata_ai _ s h8) in
      let (dst_checked, h10) = require_step _ _ _ s h9 in
      let (dst_owner, dst_mint) = both dst_checked in
      let (keeper, keeper_read, h11) = lift_step _ _ s (contents_step keeper_fee_ai _ s h10) in
      let (keeper_mint, h12) = require_step _ _ _ s h11 in
      (
        record {
          dex = dex;
          token_program = token;
          pool = (==_iff _ _).0 pool;
          escrow = (==_iff _ _).0 escrow;
          destination = (==_iff _ _).0 destination;
          dst = dst;
          dst_read = dst_read;
          dst_owner = (==_iff _ _).0 dst_owner;
          dst_mint = (==_iff _ _).0 dst_mint;
          keeper = keeper;
          keeper_read = keeper_read;
          keeper_mint = (==_iff _ _).0 keeper_mint;
        },
        h12,
      )
