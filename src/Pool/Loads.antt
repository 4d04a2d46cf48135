-- ===== src/Pool/Loads.antt =====
-- What the reads and checks of the pool's handlers guarantee when they succeed.
use rome_dex.Base.{
  ℕ, ◌≡◌, ◌≢◌, refl, true, not, ◌==◌, ==_iff, none, some, Option, List, Result, ok, err, panic,
  arith, ok_or, ◌||◌,
}
use rome_dex.Base.Words
use rome_dex.Solana.Errors.{ProgramError}
use rome_dex.Solana.Runtime.{Pubkey, AccountInfo, Store, Action, update, ◌>>=◌, ◌>>◌, lift}
use rome_dex.Solana.Steps.{
  require_last, lift_step, owner_step, contents_step, write_step, read_step, pass_step,
}
use rome_dex.Curve.Calculator.{SwapError}
use rome_dex.Pool.Platform.{Platform, Mint, TokenAccount}
use rome_dex.Pool.State.{SwapV2, lifted}
use rome_dex.Pool.Version.{unpack_version, unpack_v2, pack_v2}
use rome_dex.Pool.Processor.Tokens.{
  to_u64, require_token_owner, unpack_token_account, unpack_mint, authority_id, authority_seeds,
}
use rome_dex.Pool.Processor.Checks.{load_version, load_v2, store_v2, require_authority}

pub lifted_step :
    {A B : Type 0} (m : Result SwapError A) (f : A → Action B) (s : Store) {r : B × Store}
    → (lifted m >>= f) s ≡ ok r
    → (a : A) × (m ≡ ok a) × (f a s ≡ ok r)
unfolding lift ◌>>=◌
lifted_step (ok a) f s h = (a, refl, h)
lifted_step (err e) f s h = cc
lifted_step panic f s h = cc

pub lifted_last :
    {A : Type 0} (m : Result SwapError A) (s : Store) {p : A × Store}
    → lifted m s ≡ ok p
    → (p.1 ≡ s) × (m ≡ ok p.0)
unfolding lift
lifted_last (ok a) s h = ground arith
lifted_last (err e) s h = cc
lifted_last panic s h = cc

pub lift_last :
    {A : Type 0} (m : Result ProgramError A) (s : Store) {p : A × Store}
    → lift m s ≡ ok p
    → (p.1 ≡ s) × (m ≡ ok p.0)
unfolding lift
lift_last (ok a) s h = ground arith
lift_last (err e) s h = cc
lift_last panic s h = cc

pub some_of : {A E : Type 0} (o : Option A) (e : E) {a : A} → ok_or o e ≡ ok a → o ≡ some a
some_of none e h = cc
some_of (some a) e h = ground arith

-- `if a == b { return Err(e) }` was passed.
pub differ : (a b : ℕ) → not (a == b) ≡ true → a ≢ b
differ a b h e = ground arith

pub to_u64_value : (x : ℕ) {y : ℕ} → to_u64 x ≡ ok y → (y ≡ x) × Words.IsU64 x
unfolding to_u64
to_u64_value x h = ground arith

module _ (platform : Platform) where
  pub load_version_step :
      {B : Type 0} (info : AccountInfo) (f : SwapV2 → Action B) (s : Store) {r : B × Store}
      → (load_version platform info >>= f) s ≡ ok r
      → (pool : SwapV2) × (unpack_version platform (s info.key).contents ≡ ok pool)
        × (f pool s ≡ ok r)
  unfolding load_version
  load_version_step info f s h =
      read_step (λ pool. unpack_version platform (s info.key).contents ≡ ok pool) _ f s
        (λ p e. lift_last _ s (contents_step info _ s e)) h

  pub load_v2_step :
      {B : Type 0} (info : AccountInfo) (f : SwapV2 → Action B) (s : Store) {r : B × Store}
      → (load_v2 platform info >>= f) s ≡ ok r
      → (pool : SwapV2) × (unpack_v2 platform (s info.key).contents ≡ ok pool) × (f pool s ≡ ok r)
  unfolding load_v2
  load_v2_step info f s h =
      read_step (λ pool. unpack_v2 platform (s info.key).contents ≡ ok pool) _ f s
        (λ p e. lift_last _ s (contents_step info _ s e)) h

  -- The account holds the packed pool, and no other account changed.
  pub store_v2_step :
      (info : AccountInfo) (pool : SwapV2) (s : Store) {p : Unit {0} × Store}
      → store_v2 platform info pool s ≡ ok p
      → (bytes : List ℕ) × (pack_v2 platform pool (s info.key).contents ≡ ok bytes)
        × (p.1
            ≡ update s info.key (record {
              owner = (s info.key).owner;
              lamports = (s info.key).lamports;
              contents = bytes;
            }))
  unfolding store_v2
  store_v2_step info pool s h =
      let (bytes, e, h1) = lift_step _ _ s (contents_step info _ s h) in
      (bytes, e, write_step info bytes s h1)

  -- An account that the pool's token program, or a known one, owns.
  abbrev pub TokenOwned : AccountInfo → Pubkey → Store → Type 0
  TokenOwned info id s =
      ((s info.key).owner == id || platform.is_spl_token_program (s info.key).owner) ≡ true

  token_owner_step :
      {B : Type 0} (info : AccountInfo) (id : Pubkey) (k : Action B) (s : Store) {r : B × Store}
      → (require_token_owner platform info id >> k) s ≡ ok r
      → TokenOwned info id s × (k s ≡ ok r)
  unfolding require_token_owner
  token_owner_step info id k s h =
      pass_step (TokenOwned info id s) _ k s
        (λ p e. let (c, stays) = require_last _ _ s (owner_step info _ s e) in (stays, c)) h

  pub token_account_step :
      {B : Type 0} (info : AccountInfo) (id : Pubkey) (f : TokenAccount → Action B) (s : Store)
      {r : B × Store}
      → (unpack_token_account platform info id >>= f) s ≡ ok r
      → (t : TokenAccount) × (TokenOwned info id s
          × (platform.unpack_account (s info.key).contents ≡ some t))
        × (f t s ≡ ok r)
  unfolding unpack_token_account
  token_account_step info id f s h =
      read_step
        (λ t. TokenOwned info id s × (platform.unpack_account (s info.key).contents ≡ some t)) _ f s
        (λ p e.
          let (owned, e1) = token_owner_step info id _ s e in
          let (stays, found) = lifted_last _ s (contents_step info _ s e1) in
          (stays, (owned, some_of _ _ found)))
        h

  pub mint_step :
      {B : Type 0} (info : AccountInfo) (id : Pubkey) (f : Mint → Action B) (s : Store)
      {r : B × Store}
      → (unpack_mint platform info id >>= f) s ≡ ok r
      → (m : Mint) × (TokenOwned info id s × (platform.unpack_mint (s info.key).contents ≡ some m))
        × (f m s ≡ ok r)
  unfolding unpack_mint
  mint_step info id f s h =
      read_step (λ m. TokenOwned info id s × (platform.unpack_mint (s info.key).contents ≡ some m))
        _ f s
        (λ p e.
          let (owned, e1) = token_owner_step info id _ s e in
          let (stays, found) = lifted_last _ s (contents_step info _ s e1) in
          (stays, (owned, some_of _ _ found)))
        h

  -- The account that was passed is the pool's authority.
  abbrev pub IsAuthority : Pubkey → AccountInfo → AccountInfo → SwapV2 → Type 0
  IsAuthority program_id authority_info swap_info pool =
      platform.runtime.create_program_address (authority_seeds swap_info.key pool.bump_seed)
        program_id
      ≡ some authority_info.key

  pub derived_step :
      {B : Type 0} (program_id : Pubkey) (authority_info swap_info : AccountInfo) (pool : SwapV2)
      (k : Action B) (s : Store) {r : B × Store}
      → (require_authority platform program_id authority_info swap_info pool >> k) s ≡ ok r
      → IsAuthority program_id authority_info swap_info pool × (k s ≡ ok r)
  unfolding require_authority authority_id
  derived_step program_id authority_info swap_info pool k s h =
      pass_step (IsAuthority program_id authority_info swap_info pool) _ k s
        (λ p e.
          let (key, derived, e1) = lifted_step _ _ s e in
          let (same, stays) = require_last _ _ s e1 in
          let found = some_of _ _ derived in
          let at = (==_iff authority_info.key key).0 same in (stays, rw at found))
        h
