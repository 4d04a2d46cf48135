-- ===== src/Solana/Runtime.antt =====
-- Accounts as one store of the transaction, and the calls that leave a program. Two `AccountInfo`s with
-- one key share the account, as they do in the runtime. An instruction that fails changes nothing, so a
-- handler returns the new store, an error, or a panic.
use rome_dex.Base.{ℕ, ◌≡◌, refl, Bool, Option, List, Result, ok, err, panic, ◌==◌, if◌then◌else◌}
use rome_dex.Base.Int.{ℤ}
use rome_dex.Solana.Errors.{ProgramError}
use rome_dex.Solana.Bytes.{le_bytes}

-- The 32 bytes of a key, read as a little-endian number.
abbrev pub Pubkey : Type 0
Pubkey = ℕ

abbrev pub to_bytes : Pubkey → List ℕ
to_bytes key = le_bytes 32 key

pub record Account : Type 0 where
  pub owner : Pubkey
  pub lamports : ℕ
  pub contents : List ℕ

abbrev pub Store : Type 0
Store = Pubkey → Account

abbrev pub update : Store → Pubkey → Account → Store
update store key account k = if k == key then account else store k

pub record AccountInfo : Type 0 where
  pub key : Pubkey
  pub is_signer : Bool

-- `spl_token::state::Mint` and `Account`, as far as the programs read them.
pub record Mint : Type 0 where
  pub mint_authority : Option Pubkey

pub record TokenAccount : Type 0 where
  pub mint : Pubkey
  pub owner : Pubkey
  pub amount : ℕ

pub record AccountMeta : Type 0 where
  pub key : Pubkey
  pub is_signer : Bool
  pub is_writable : Bool

-- The instructions that the programs send to other programs.
pub data Instruction : Type 0 where
  -- token program, source, destination, authority, amount
  transfer : Pubkey → Pubkey → Pubkey → Pubkey → ℕ → Instruction
  -- token program, mint, destination, authority, amount
  mint_to : Pubkey → Pubkey → Pubkey → Pubkey → ℕ → Instruction
  -- token program, account, destination of the rent, authority
  close_account : Pubkey → Pubkey → Pubkey → Pubkey → Instruction
  -- payer, new account, lamports, space, owner
  create_account : Pubkey → Pubkey → ℕ → ℕ → Pubkey → Instruction
  -- token program, source, mint, destination, authority, amount, decimals
  transfer_checked : Pubkey → Pubkey → Pubkey → Pubkey → Pubkey → ℕ → ℕ → Instruction
  -- token program, account, mint, authority, amount
  burn : Pubkey → Pubkey → Pubkey → Pubkey → ℕ → Instruction
  -- token program, mint, mint authority, freeze authority, decimals
  initialize_mint2 : Pubkey → Pubkey → Pubkey → Option Pubkey → ℕ → Instruction
  -- token program, account, mint, owner
  initialize_account3 : Pubkey → Pubkey → Pubkey → Pubkey → Instruction
  -- payer, target, lamports
  system_transfer : Pubkey → Pubkey → ℕ → Instruction
  -- target, space
  allocate : Pubkey → ℕ → Instruction
  -- target, owner
  assign : Pubkey → Pubkey → Instruction
  -- program, accounts, data
  raw : Pubkey → List AccountMeta → List ℕ → Instruction

abbrev pub Seeds : Type 0
Seeds = List (List ℕ)

pub record Runtime : Type 0 where
  pub spl_token_id : Pubkey
  -- `invoke_signed` by the running program; `invoke` has no seeds.
  pub invoke_signed : Instruction → List Seeds → Store → Result ProgramError Store
  pub find_program_address : Seeds → Pubkey → Pubkey × ℕ
  pub create_program_address : Seeds → Pubkey → Option Pubkey
  -- `Clock::get()?.unix_timestamp`
  pub unix_timestamp : Result ProgramError ℤ
  -- `Rent::get()?.minimum_balance(space)`
  pub minimum_balance : ℕ → Result ProgramError ℕ
  pub unpack_mint : List ℕ → Result ProgramError Mint
  pub unpack_token_account : List ℕ → Result ProgramError TokenAccount

-- Only its owner changes an account's data or gives the account away, and a program that was called does
-- not call back into the running one: a call that succeeds leaves the owner and the data of the running
-- program's accounts as they are.
pub record RuntimeLaws (runtime : Runtime) (program_id : Pubkey) : Type 0 where
  pub keeps_own :
      (instruction : Instruction) (seeds : List Seeds) (s s' : Store) (k : Pubkey)
      → runtime.invoke_signed instruction seeds s ≡ ok s'
      → (s k).owner ≡ program_id
      → ((s' k).owner ≡ program_id) × ((s' k).contents ≡ (s k).contents)

abbrev pub Action : Type 0 → Type 0
Action A = Store → Result ProgramError (A × Store)

infixl 5 ◌>>=◌ ◌>>◌
unfoldable pub ◌>>=◌ : {A B : Type 0} → Action A → (A → Action B) → Action B
◌>>=◌ m f s = elim (m s) [ ok (a, s') ↦ f a s' | err e ↦ err e | panic ↦ panic ]

unfoldable pub ◌>>◌ : {B : Type 0} → Action (Unit {0}) → Action B → Action B
unfolding ◌>>=◌
m >> k = m >>= λ _. k

unfoldable pub pure : {A : Type 0} → A → Action A
pure a s = ok (a, s)

unfoldable pub fail : {A : Type 0} → ProgramError → Action A
fail e s = err e

-- A computation that does not touch the accounts.
unfoldable pub lift : {A : Type 0} → Result ProgramError A → Action A
lift r s = elim r [ ok a ↦ ok (a, s) | err e ↦ err e | panic ↦ panic ]

-- `if !c { return Err(e) }`
unfoldable pub require : Bool → ProgramError → Action (Unit {0})
require c e s = if c then ok (tt, s) else err e

unfoldable pub owner_of : AccountInfo → Action Pubkey
owner_of info s = ok ((s info.key).owner, s)

unfoldable pub lamports_of : AccountInfo → Action ℕ
lamports_of info s = ok ((s info.key).lamports, s)

unfoldable pub contents_of : AccountInfo → Action (List ℕ)
contents_of info s = ok ((s info.key).contents, s)

-- A write through `data.borrow_mut()`.
unfoldable pub write : AccountInfo → List ℕ → Action (Unit {0})
write info bytes s =
    let account = s info.key in ok (tt, update s info.key (record account { contents = bytes }))

module _ (runtime : Runtime) where
  unfoldable pub invoke : Instruction → List Seeds → Action (Unit {0})
  invoke instruction seeds s = elim (runtime.invoke_signed instruction seeds s) [
    | ok s' ↦ ok (tt, s')
    | err e ↦ err e
    | panic ↦ panic
  ]

-- Inversion of a successful step.
bind_step :
    {A B : Type 0} (x : Result ProgramError (A × Store)) (f : A → Action B) {r : B × Store}
    → elim x [ ok (a, s') ↦ f a s' | err e ↦ err e | panic ↦ panic ] ≡ ok r
    → (p : A × Store) × (x ≡ ok p) × (f p.0 p.1 ≡ ok r)
bind_step (ok (a, s')) f e = ((a, s'), refl, e)
bind_step (err e) f k = cc
bind_step panic f k = cc

pub >>=-eq-ok :
    {A B : Type 0} (m : Action A) (f : A → Action B) (s : Store) {r : B × Store}
    → (m >>= f) s ≡ ok r
    → (p : A × Store) × (m s ≡ ok p) × (f p.0 p.1 ≡ ok r)
unfolding ◌>>=◌
>>=-eq-ok m f s h = bind_step (m s) f h
