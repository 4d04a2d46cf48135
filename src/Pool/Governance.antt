-- ===== src/Pool/Governance.antt =====
-- Who may change the protocol's configuration: an abstract view of `SetTreasury`, `TransferAdmin`,
-- `AcceptAdmin` and `SetPoolCreation` of program/src/processor.rs, and histories of such changes.
pub mod Refinement
use mathlib.Core.Path.{subst}
use rome_dex.Base.{ℕ, ◌≤◌, ◌≡◌, ◌≢◌, refl, sym, ◌∙◌, ◌⊎◌, inl, inr}
use rome_dex.Solana.Runtime.{Pubkey}
use rome_dex.Pool.State.{ProtocolConfig, default_key, mode_permissionless, config_version}
use rome_dex.Pool.Instructions
use rome_dex.Pool.Instructions.{SwapInstruction}

-- The change that an instruction asks for, with the key that signed for it.
pub data Change (signer : Pubkey) : SwapInstruction → ProtocolConfig → ProtocolConfig → Type 0 where
  treasury_set :
      (config : ProtocolConfig) (treasury : Pubkey)
      → signer ≡ config.admin
      → treasury ≢ default_key
      → Change signer
          (Instructions.set_treasury treasury)
          config
          (record config { treasury = treasury })
  admin_proposed :
      (config : ProtocolConfig) (pending_admin : Pubkey)
      → signer ≡ config.admin
      → Change signer
          (Instructions.transfer_admin pending_admin)
          config
          (record config { pending_admin = pending_admin })
  admin_accepted :
      (config : ProtocolConfig)
      → signer ≡ config.pending_admin
      → config.pending_admin ≢ default_key
      → Change signer Instructions.accept_admin config
          (record config { admin = config.pending_admin; pending_admin = default_key })
  mode_set :
      (config : ProtocolConfig) (mode : ℕ)
      → signer ≡ config.admin
      → mode ≤ mode_permissionless
      → Change signer
          (Instructions.set_pool_creation mode)
          config
          (record config { pool_creation_mode = mode })

-- A sequence of changes, each with its signer.
pub data History : ProtocolConfig → ProtocolConfig → Type 0 where
  start : (config : ProtocolConfig) → History config config
  change :
      {first last next : ProtocolConfig} (signer : Pubkey) (instruction : SwapInstruction)
      → History first last
      → Change signer instruction last next
      → History first next

-- `key` signed for some change of the history.
pub data Signed (key : Pubkey) : (first last : ProtocolConfig) → History first last → Type 0 where
  now :
      {first last next : ProtocolConfig} (instruction : SwapInstruction) (h : History first last)
      (c : Change key instruction last next)
      → Signed key first next (change key instruction h c)
  before :
      {first last next : ProtocolConfig} (signer : Pubkey) (instruction : SwapInstruction)
      (h : History first last) (c : Change signer instruction last next)
      → Signed key first last h
      → Signed key first next (change signer instruction h c)

-- What every configuration of the program keeps.
pub record Sound (config : ProtocolConfig) : Type 0 where
  pub has_version : config.version ≡ config_version
  pub has_admin : config.admin ≢ default_key
  pub has_treasury : config.treasury ≢ default_key
  pub has_mode : config.pool_creation_mode ≤ mode_permissionless

fields_stay :
    {signer : Pubkey} {instruction : SwapInstruction} {config next : ProtocolConfig}
    → Change signer instruction config next
    → Sound config
    → Sound next
fields_stay (treasury_set config treasury by set) h = record {
  has_version = h.has_version;
  has_admin = h.has_admin;
  has_treasury = set;
  has_mode = h.has_mode;
}
fields_stay (admin_proposed config pending_admin by) h = record {
  has_version = h.has_version;
  has_admin = h.has_admin;
  has_treasury = h.has_treasury;
  has_mode = h.has_mode;
}
fields_stay (admin_accepted config by set) h = record {
  has_version = h.has_version;
  has_admin = set;
  has_treasury = h.has_treasury;
  has_mode = h.has_mode;
}
fields_stay (mode_set config mode by low) h = record {
  has_version = h.has_version;
  has_admin = h.has_admin;
  has_treasury = h.has_treasury;
  has_mode = low;
}

-- A history never unsets the admin or the treasury and never leaves the two pool creation modes.
-- Condition: the configuration it starts from is sound.
pub History-Sound : {first last : ProtocolConfig} → History first last → Sound first → Sound last
History-Sound (start config) h = h
History-Sound (change signer instruction past c) h = fields_stay c (History-Sound past h)

-- Who the admin is after a change.
admin_after :
    {signer : Pubkey} {instruction : SwapInstruction} {config next : ProtocolConfig}
    → Change signer instruction config next
    → (next.admin ≡ config.admin) ⊎ (next.admin ≡ signer)
admin_after (treasury_set config treasury by set) = inl refl
admin_after (admin_proposed config pending_admin by) = inl refl
admin_after (admin_accepted config by set) = inr (sym by)
admin_after (mode_set config mode by low) = inl refl

-- The admin at the end of a history is the first admin, or a key that signed in it.
pub admin_signed :
    {first last : ProtocolConfig} (h : History first last)
    → (last.admin ≡ first.admin) ⊎ Signed last.admin first last h
admin_signed (start config) = inl refl
admin_signed {first} {last = next} (change signer instruction past c) = elim (admin_after c) [
  | inl same ↦ elim (admin_signed past) [
    | inl e ↦ inl (same ∙ e)
    | inr k ↦ inr (
        subst (λ key. Signed key first next (change signer instruction past c)) (sym same)
          (before signer instruction past c k))
  ]
  | inr e ↦ inr (
      subst (λ key. Signed key first next (change signer instruction past c)) (sym e)
        (now instruction past c))
]
