-- ===== src/Orders/Processor/Closings.antt =====
-- Who may close an order, when, and where everything goes: `cancel`, `crank_expired` and `close_filled`.
use rome_dex.Base.{◌≡◌, ◌≢◌, Bool, true, ◌&&◌, List, ◌∷◌, ok, ◌==◌, arith, ==_iff}
use rome_dex.Base.Int.{ℤ}
use rome_dex.Solana.Errors.{ProgramError}
use rome_dex.Solana.Runtime.{
  Pubkey, AccountInfo, Store, Action, Runtime, TokenAccount, ◌>>=◌, ◌>>◌, lift, require, owner_of,
  contents_of, >>=-eq-ok,
}
use rome_dex.Solana.Steps.{require_step, check_step, lift_step, owner_step, contents_step}
use rome_dex.Orders.State.{Order, is_open, is_expired, status_filled}
use rome_dex.Orders.Processor.Checks.{load_order, check_token_program}
use rome_dex.Orders.Processor.Loads.{LoadsOrder, load_order_step, check_token_program_step}
use rome_dex.Orders.Processor.Closing.{Closed, close_step}
use rome_dex.Orders.Processor.Handlers.{cancel, crank_expired, close_filled}

both : {b c : Bool} → (b && c) ≡ true → (b ≡ true) × (c ≡ true)
both {b} {c} h = (ground arith, ground arith)

module _ (runtime : Runtime) (program_id : Pubkey)
    (order_ai owner_ai input_escrow_ai owner_src_ai token_program_ai : AccountInfo) where
  -- The opening of the three handlers.
  open_step :
      {B : Type 0} (k : Order → Action B) (s : Store) {r : B × Store}
      → (load_order program_id order_ai >>= λ order.
            check_token_program runtime token_program_ai.key >> k order)
          s
        ≡ ok r
      → (order : Order) × LoadsOrder program_id order_ai s order
        × (token_program_ai.key ≡ runtime.spl_token_id)
        × (k order s ≡ ok r)
  open_step k s h =
      let (p1, e1, h1) = >>=-eq-ok _ _ s h in
      let (s1, loaded) = load_order_step program_id order_ai s e1 in
      let h1' = rw s1 at h1 in
      let (p2, e2, h2) = check_step _ _ s h1' in
      let (token, s2) = check_token_program_step runtime token_program_ai.key s e2 in
      (p1.0, loaded, token, rw s2 at h2)

  -- The account that takes a refund when anyone may close: a token account of the order's owner.
  pub record IsOwnersAccount (s : Store) (order : Order) : Type 0 where
    pub of_token_program : (s owner_src_ai.key).owner ≡ runtime.spl_token_id
    pub account : TokenAccount
    pub account_read : runtime.unpack_token_account (s owner_src_ai.key).contents ≡ ok account
    pub owners : account.owner ≡ order.owner

  owners_step :
      {B : Type 0} (order : Order) (e e' : ProgramError) (k : Action B) (s : Store) {r : B × Store}
      → (owner_of owner_src_ai >>= λ src_program.
            require (src_program == runtime.spl_token_id) e
            >> (contents_of owner_src_ai >>= λ bytes.
                lift (runtime.unpack_token_account bytes) >>= λ refund.
                require (refund.owner == order.owner) e' >> k))
          s
        ≡ ok r
      → IsOwnersAccount s order × (k s ≡ ok r)
  owners_step order e e' k s h =
      let (program, h1) = require_step _ _ _ s (owner_step owner_src_ai _ s h) in
      let (account, read, h2) = lift_step _ _ s (contents_step owner_src_ai _ s h1) in
      let (same, h3) = require_step _ _ _ s h2 in
      (
        record {
          of_token_program = (==_iff _ _).0 program;
          account = account;
          account_read = read;
          owners = (==_iff _ _).0 same;
        },
        h3,
      )

  abbrev pub Cancelled : Store → Store → Type 0
  Cancelled s s' =
      (order : Order) × LoadsOrder program_id order_ai s order
      × (is_open order ≡ true)
      × (owner_ai.is_signer ≡ true)
      × (owner_ai.key ≡ order.owner)
      × (input_escrow_ai.key ≡ order.input_escrow)
      × (token_program_ai.key ≡ runtime.spl_token_id)
      × Closed runtime token_program_ai input_escrow_ai owner_src_ai owner_ai order_ai order s s'

  -- A cancellation that succeeded: the order is the program's own and open, its owner signed, its whole
  -- escrow went to the account the owner named, and escrow and order are closed to the owner.
  -- Condition: the accounts of owner and order are two.
  pub cancel_outcome :
      (rest : List AccountInfo) (s s' : Store)
      → owner_ai.key ≢ order_ai.key
      → cancel runtime program_id
          (order_ai ∷ owner_ai ∷ input_escrow_ai ∷ owner_src_ai ∷ token_program_ai ∷ rest)
          s
        ≡ ok (tt, s')
      → Cancelled s s'
  unfolding cancel
  cancel_outcome rest s s' apart h =
      let (order, loaded, token, h1) = open_step _ s h in
      let (authorized, h2) = require_step _ _ _ s h1 in
      let (signed, owner) = both authorized in
      let (live, h3) = require_step _ _ _ s h2 in
      let (escrow, h4) = require_step _ _ _ s h3 in
      (
        order,
        loaded,
        live,
        signed,
        (==_iff _ _).0 owner,
        (==_iff _ _).0 escrow,
        token,
        close_step runtime token_program_ai input_escrow_ai owner_src_ai owner_ai order_ai order s
            apart h4,
      )

  abbrev pub CrankedExpired : Store → Store → Type 0
  CrankedExpired s s' =
      (order : Order) × (now : ℤ) × LoadsOrder program_id order_ai s order
      × (is_open order ≡ true)
      × (runtime.unix_timestamp ≡ ok now)
      × (is_expired order now ≡ true)
      × (owner_ai.key ≡ order.owner)
      × (input_escrow_ai.key ≡ order.input_escrow)
      × (token_program_ai.key ≡ runtime.spl_token_id)
      × IsOwnersAccount s order
      × Closed runtime token_program_ai input_escrow_ai owner_src_ai owner_ai order_ai order s s'

  -- An expiry that succeeded, whoever asked for it: the order is the program's own, open and past its
  -- expiry, its whole escrow went to a token account of its owner, and escrow and order are closed to the
  -- owner.
  -- Condition: the accounts of owner and order are two.
  pub crank_expired_outcome :
      (rest : List AccountInfo) (s s' : Store)
      → owner_ai.key ≢ order_ai.key
      → crank_expired runtime program_id
          (order_ai ∷ owner_ai ∷ input_escrow_ai ∷ owner_src_ai ∷ token_program_ai ∷ rest)
          s
        ≡ ok (tt, s')
      → CrankedExpired s s'
  unfolding crank_expired
  crank_expired_outcome rest s s' apart h =
      let (order, loaded, token, h1) = open_step _ s h in
      let (live, h2) = require_step _ _ _ s h1 in
      let (now, clock, h3) = lift_step _ _ s h2 in
      let (late, h4) = require_step _ _ _ s h3 in
      let (escrow, h5) = require_step _ _ _ s h4 in
      let (owner, h6) = require_step _ _ _ s h5 in
      let (owners, h7) = owners_step order _ _ _ s h6 in
      (
        order,
        now,
        loaded,
        live,
        clock,
        late,
        (==_iff _ _).0 owner,
        (==_iff _ _).0 escrow,
        token,
        owners,
        close_step runtime token_program_ai input_escrow_ai owner_src_ai owner_ai order_ai order s
            apart h7,
      )

  abbrev pub ClosedFilled : Store → Store → Type 0
  ClosedFilled s s' =
      (order : Order) × LoadsOrder program_id order_ai s order
      × (order.status ≡ status_filled)
      × (order.remaining_in ≡ 0)
      × (owner_ai.key ≡ order.owner)
      × (input_escrow_ai.key ≡ order.input_escrow)
      × (token_program_ai.key ≡ runtime.spl_token_id)
      × IsOwnersAccount s order
      × Closed runtime token_program_ai input_escrow_ai owner_src_ai owner_ai order_ai order s s'

  -- A close of a filled order that succeeded, whoever asked for it: the order is the program's own, filled
  -- and without remaining input, what was left in its escrow went to a token account of its owner, and
  -- escrow and order are closed to the owner.
  -- Condition: the accounts of owner and order are two.
  pub close_filled_outcome :
      (rest : List AccountInfo) (s s' : Store)
      → owner_ai.key ≢ order_ai.key
      → close_filled runtime program_id
          (order_ai ∷ owner_ai ∷ input_escrow_ai ∷ owner_src_ai ∷ token_program_ai ∷ rest)
          s
        ≡ ok (tt, s')
      → ClosedFilled s s'
  unfolding close_filled
  close_filled_outcome rest s s' apart h =
      let (order, loaded, token, h1) = open_step _ s h in
      let (over, h2) = require_step _ _ _ s h1 in
      let (filled, drained) = both over in
      let (theirs, h3) = require_step _ _ _ s h2 in
      let (owner, escrow) = both theirs in
      let (owners, h4) = owners_step order _ _ _ s h3 in
      (
        order,
        loaded,
        (==_iff _ _).0 filled,
        (==_iff _ _).0 drained,
        (==_iff _ _).0 owner,
        (==_iff _ _).0 escrow,
        token,
        owners,
        close_step runtime token_program_ai input_escrow_ai owner_src_ai owner_ai order_ai order s
            apart h4,
      )
