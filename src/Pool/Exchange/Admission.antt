-- ===== src/Pool/Exchange/Admission.antt =====
-- The accounts of a swap, once program/src/processor.rs has checked them.
use mathlib.Core.Path.{subst}
use rome_dex.Base.{ℕ, ◌+◌, ◌≡◌, ◌≢◌, true, sym, ◌∙◌, ==_iff, ok, ok_inj, arith}
use rome_dex.Solana.Runtime.{Pubkey, AccountInfo, Store, Action, ◌>>=◌}
use rome_dex.Solana.Steps.{require_step, owner_step, read_step, pure_last}
use rome_dex.Curve.Calculator.{TradeDirection, a_to_b, b_to_a}
use rome_dex.Pool.Platform.{Platform}
use rome_dex.Pool.State.{SwapV2}
use rome_dex.Pool.Repack.{HoldsPool}
use rome_dex.Pool.Counters.{lp_owned, lp_reserves}
use rome_dex.Pool.Loads.{differ, load_version_step, IsAuthority, derived_step}
use rome_dex.Pool.Processor.Swap.{direction_from, is_vault, admit_swap}

abbrev pub source_vault : SwapV2 → TradeDirection → Pubkey
source_vault pool a_to_b = pool.token_a
source_vault pool b_to_a = pool.token_b

abbrev pub destination_vault : SwapV2 → TradeDirection → Pubkey
destination_vault pool a_to_b = pool.token_b
destination_vault pool b_to_a = pool.token_a

-- The counters of the side that a swap pays into, and of the side that pays.
abbrev pub fees_in : SwapV2 → TradeDirection → ℕ
fees_in pool a_to_b = pool.protocol_fees_a
fees_in pool b_to_a = pool.protocol_fees_b

abbrev pub fees_out : SwapV2 → TradeDirection → ℕ
fees_out pool a_to_b = pool.protocol_fees_b
fees_out pool b_to_a = pool.protocol_fees_a

vaults_lem :
    (source destination : AccountInfo) (pool : SwapV2)
    → is_vault source pool ≡ true
    → is_vault destination pool ≡ true
    → source.key ≢ destination.key
    → (source.key ≡ source_vault pool (direction_from source pool))
      × (destination.key ≡ destination_vault pool (direction_from source pool))
unfolding direction_from
vaults_lem source destination pool h k apart = (ground arith, ground arith)

pub lp_reserves_lem :
    (pool : SwapV2) (direction : TradeDirection) (source dest : ℕ) {reserves : ℕ × ℕ}
    → lp_reserves pool direction source dest ≡ ok reserves
    → (reserves.0 + fees_in pool direction ≡ source) × (reserves.1 + fees_out pool direction ≡ dest)
unfolding lp_reserves lp_owned
lp_reserves_lem pool a_to_b source dest h = (ground arith, ground arith)
lp_reserves_lem pool b_to_a source dest h = (ground arith, ground arith)

module _ (platform : Platform) (program_id : Pubkey)
    (swap_info authority_info source_info swap_source_info swap_destination_info destination_info
      pool_mint_info pool_token_program_info : AccountInfo) where
  pub record SwapAdmits (s : Store) (pool : SwapV2) : Type 0 where
    pub held : HoldsPool platform program_id swap_info s pool
    pub authority : IsAuthority platform program_id authority_info swap_info pool
    pub source_is : swap_source_info.key ≡ source_vault pool (direction_from swap_source_info pool)
    pub destination_is :
        swap_destination_info.key ≡ destination_vault pool (direction_from swap_source_info pool)
    pub source_apart : swap_source_info.key ≢ source_info.key
    pub destination_apart : swap_destination_info.key ≢ destination_info.key

  admit_swap_step :
      {B : Type 0} (f : SwapV2 → Action B) (s : Store) {r : B × Store}
      → (admit_swap platform program_id swap_info authority_info source_info swap_source_info
              swap_destination_info destination_info pool_mint_info pool_token_program_info
            >>= f)
          s
        ≡ ok r
      → (pool : SwapV2) × SwapAdmits s pool × (f pool s ≡ ok r)
  unfolding admit_swap
  admit_swap_step f s h =
      read_step (SwapAdmits s) _ f s
        (λ p e.
          let (own, e1) = require_step _ _ _ s (owner_step swap_info _ s e) in
          let (pool, unpacked, e2) = load_version_step platform swap_info _ s e1 in
          let (authority, e3) = derived_step platform program_id _ _ pool _ s e2 in
          let (source, e4) = require_step _ _ _ s e3 in
          let (destination, e5) = require_step _ _ _ s e4 in
          let (apart, e6) = require_step _ _ _ s e5 in
          let (source_apart, e7) = require_step _ _ _ s e6 in
          let (destination_apart, e8) = require_step _ _ _ s e7 in
          let (_, e9) = require_step _ _ _ s e8 in
          let (_, e10) = require_step _ _ _ s e9 in
          let (source_is, destination_is) =
            vaults_lem swap_source_info swap_destination_info pool source destination
              (differ _ _ apart) in
          pure_last (SwapAdmits s) pool s
            (record {
              held = record { owned = (==_iff _ _).0 own; unpacked = unpacked };
              authority = authority;
              source_is = source_is;
              destination_is = destination_is;
              source_apart = differ _ _ source_apart;
              destination_apart = differ _ _ destination_apart;
            })
            e10)
        h

  -- The same for the pool that the account is known to hold.
  pub admit_held_step :
      {B : Type 0} (pool : SwapV2) (f : SwapV2 → Action B) (s : Store) {r : B × Store}
      → HoldsPool platform program_id swap_info s pool
      → (admit_swap platform program_id swap_info authority_info source_info swap_source_info
              swap_destination_info destination_info pool_mint_info pool_token_program_info
            >>= f)
          s
        ≡ ok r
      → SwapAdmits s pool × (f pool s ≡ ok r)
  admit_held_step pool f s {r} held h =
      let (loaded, admits, h1) = admit_swap_step f s h in
      subst (λ x. SwapAdmits s x × (f x s ≡ ok r))
        (ok_inj (sym admits.held.unpacked ∙ held.unpacked)) (admits, h1)
