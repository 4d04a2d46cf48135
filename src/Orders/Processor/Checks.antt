-- ===== src/Orders/Processor/Checks.antt =====
-- The helpers below the handlers of orders/src/processor.rs.
use rome_dex.Base.{ℕ, ◌+◌, ◌^◌, List, [], ◌∷◌, Result, ok, ◌==◌, if◌then◌else◌, map_err, ok_or}
use rome_dex.Base.Words.{fits}
use rome_dex.Solana.Errors.{ProgramError}
use rome_dex.Solana.Bytes.{le_bytes}
use rome_dex.Solana.Runtime.{
  Pubkey, to_bytes, Account, AccountInfo, Runtime, Instruction, Seeds, Action, update, ◌>>=◌, ◌>>◌,
  pure, lift, require, owner_of, contents_of, write, invoke,
}
use rome_dex.Orders.State.{Order, OrderError, from_error}
use rome_dex.Orders.Codec.{unpack_order, pack_order}

-- `DEX_PROGRAM_ID`, the 32 bytes of Fv2LgkewH9114T6Gg99ERq8TxMVj2MGPRC73dJ4AKb1A.
abbrev pub dex_program_id : Pubkey
dex_program_id = 36967273500017228623170263317162475399644078898083318279210104768393168722141

-- `?` on an `OrderError`.
abbrev pub lifted : {A : Type 0} → Result OrderError A → Action A
lifted r = lift (map_err from_error r)

-- `order.pack(&mut order_ai.data.borrow_mut())`
unfoldable pub store_order : AccountInfo → Order → Action (Unit {0})
store_order order_ai order = do
  old ← contents_of order_ai
  bytes ← lift (pack_order order old)
  write order_ai bytes

unfoldable pub load_order : Pubkey → AccountInfo → Action Order
load_order program_id order_ai = do
  owner ← owner_of order_ai
  require (owner == program_id) ProgramError.illegal_owner
  bytes ← contents_of order_ai
  order ← lift (unpack_order bytes)
  require order.is_initialized (from_error OrderError.uninitialized)
  pure order

unfoldable pub check_dex_program : Pubkey → Action (Unit {0})
check_dex_program key =
    require (key == dex_program_id) (from_error OrderError.incorrect_dex_program)

-- b"order"
abbrev order_tag : List ℕ
order_tag = 111 ∷ 114 ∷ 100 ∷ 101 ∷ 114 ∷ []

abbrev pub order_seeds : Pubkey → ℕ → Seeds
order_seeds owner nonce = order_tag ∷ to_bytes owner ∷ le_bytes 8 nonce ∷ []

abbrev pub signer_seeds : Pubkey → ℕ → ℕ → Seeds
signer_seeds owner nonce bump = order_tag ∷ to_bytes owner ∷ le_bytes 8 nonce ∷ (bump ∷ []) ∷ []

abbrev pub seeds_of : Order → Seeds
seeds_of order = signer_seeds order.owner order.nonce order.bump

-- What the account of a closed order holds.
abbrev with_lamports : Account → ℕ → Account
with_lamports account lamports = record account { lamports = lamports }

abbrev set_lamports : AccountInfo → ℕ → Action (Unit {0})
set_lamports info lamports s = ok (tt, update s info.key (with_lamports (s info.key) lamports))

abbrev lamports_of : AccountInfo → Action ℕ
lamports_of info s = ok ((s info.key).lamports, s)

-- `resize(0)` leaves no data.
unfoldable pub close_state_account : AccountInfo → AccountInfo → Action (Unit {0})
close_state_account order_ai dest_ai = do
  rent ← lamports_of order_ai
  held ← lamports_of dest_ai
  sum ← lifted (ok_or (fits (2 ^ 64) (held + rent)) OrderError.overflow)
  set_lamports dest_ai sum
  set_lamports order_ai 0
  write order_ai []

module _ (runtime : Runtime) where
  unfoldable pub check_token_program : Pubkey → Action (Unit {0})
  check_token_program key =
      require (key == runtime.spl_token_id) (from_error OrderError.incorrect_token_program)

  unfoldable pub escrow_transfer :
      AccountInfo → AccountInfo → AccountInfo → AccountInfo → Seeds → ℕ → Action (Unit {0})
  escrow_transfer token_program_ai from_ai to_ai order_ai seeds amount =
      invoke runtime
        (Instruction.transfer token_program_ai.key from_ai.key to_ai.key order_ai.key amount)
        (seeds ∷ [])

  unfoldable pub refund_escrow :
      AccountInfo → AccountInfo → AccountInfo → AccountInfo → Order → Action (Unit {0})
  refund_escrow token_program_ai input_escrow_ai owner_src_ai order_ai order = do
    bytes ← contents_of input_escrow_ai
    escrow ← lift (runtime.unpack_token_account bytes)
    if escrow.amount == 0
        then pure tt
        else escrow_transfer token_program_ai input_escrow_ai owner_src_ai order_ai (seeds_of order)
            escrow.amount

  unfoldable pub close_escrow :
      AccountInfo → AccountInfo → AccountInfo → AccountInfo → Order → Action (Unit {0})
  close_escrow token_program_ai input_escrow_ai dest_ai order_ai order =
      invoke runtime
        (Instruction.close_account token_program_ai.key input_escrow_ai.key dest_ai.key
          order_ai.key)
        (seeds_of order ∷ [])
