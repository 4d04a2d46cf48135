-- ===== src/Pool/Governance/Refinement.antt =====
-- The handlers on the configuration make the changes of the abstract view, and no others.
use mathlib.Core.Path.{subst}
use rome_dex.Base.{
  ℕ, ◌^◌, ◌<◌, ◌≡◌, ap, sym, ◌∙◌, true, ==_iff, leb→le, List, ◌∷◌, Option, ok, ok_inj, arith,
  and_true,
}
use rome_dex.Solana.Runtime.{Pubkey, AccountInfo, Store, Action, ◌>>=◌, ◌>>◌}
use rome_dex.Solana.Steps.{
  require_step, require_last, lift_step, owner_step, contents_step, write_step, read_step,
  pass_step, pure_last, update_self,
}
use rome_dex.Curve.Calculator.{SwapError}
use rome_dex.Pool.Platform.{Platform, PackLaws}
use rome_dex.Pool.State.{ProtocolConfig, config_version, default_key, mode_permissionless}
use rome_dex.Pool.Constraints.{SwapConstraints}
use rome_dex.Pool.Codec.{packed_protocol_config}
use rome_dex.Pool.Codec.RoundTrips.{IsProtocolConfig, protocol_config_kept}
use rome_dex.Pool.Config.{find_address, load_config, store_config, require_admin}
use rome_dex.Pool.Loads.{differ}
use rome_dex.Pool.Processor.Admin.{set_treasury, transfer_admin, accept_admin, set_pool_creation}
use rome_dex.Pool.Processor.Entry.{dispatch}
use rome_dex.Pool.Instructions
use rome_dex.Pool.Instructions.{SwapInstruction}
use rome_dex.Pool.Governance.{Change, treasury_set, admin_proposed, admin_accepted, mode_set}

-- The four instructions, with arguments that fit.
pub data Governs : SwapInstruction → Type 0 where
  sets_treasury :
      (treasury : Pubkey) → treasury < 256 ^ 32 → Governs (Instructions.set_treasury treasury)
  proposes : (pending : Pubkey) → pending < 256 ^ 32 → Governs (Instructions.transfer_admin pending)
  accepts : Governs Instructions.accept_admin
  sets_mode : (mode : ℕ) → Governs (Instructions.set_pool_creation mode)

zero_fits : 0 < 256 ^ 32
zero_fits = omega arith

module _ (platform : Platform) (program_id : Pubkey) where
  -- The account is the program's configuration, and holds this one.
  pub record HoldsConfig (info : AccountInfo) (s : Store) (config : ProtocolConfig) : Type 0 where
    pub at_address : info.key ≡ (find_address platform program_id).0
    pub owned : (s info.key).owner ≡ program_id
    pub unpacked : packed_protocol_config.unpack_from_slice (s info.key).contents ≡ ok config
    pub live : config.version ≡ config_version

  pub load_config_step :
      {B : Type 0} (info : AccountInfo) (absent : SwapError) (f : ProtocolConfig → Action B)
      (s : Store) {r : B × Store}
      → (load_config platform program_id info absent >>= f) s ≡ ok r
      → (config : ProtocolConfig) × HoldsConfig info s config × (f config s ≡ ok r)
  unfolding load_config
  load_config_step info absent f s h =
      read_step (HoldsConfig info s) _ f s
        (λ p e.
          let (at, e1) = require_step _ _ _ s e in
          let (own, e2) = require_step _ _ _ s (owner_step info _ s e1) in
          let (config, unpacked, e3) = lift_step _ _ s (contents_step info _ s e2) in
          let (live, e4) = require_step _ _ _ s e3 in
          pure_last (HoldsConfig info s) config s
            (record {
              at_address = (==_iff _ _).0 at;
              owned = (==_iff _ _).0 own;
              unpacked = unpacked;
              live = (==_iff _ _).0 live;
            })
            e4)
        h

  -- A configuration that was written is held.
  stored :
      (laws : PackLaws platform) (info : AccountInfo) (old config : ProtocolConfig) (s : Store)
      {p : Unit {0} × Store}
      → HoldsConfig info s old
      → IsProtocolConfig config
      → config.version ≡ config_version
      → store_config platform info config s ≡ ok p
      → HoldsConfig info p.1 config
  unfolding store_config
  stored laws info old config s {p} was fits live h =
      let (bytes, e, h1) = lift_step _ _ s (contents_step info _ s h) in
      let (room, packed) =
        laws.pack_checks ProtocolConfig packed_protocol_config config _ bytes e in
      let at = ap (λ st. st info.key) (write_step info bytes s h1) ∙ update_self s info.key _ in
      record {
        at_address = was.at_address;
        owned = ap (λ a. a.owner) at ∙ was.owned;
        unpacked =
            ap (λ a. packed_protocol_config.unpack_from_slice a.contents) at
            ∙ (protocol_config_kept config (s info.key).contents fits packed).0;
        live = live;
      }

  -- The configuration that a handler loads is the one that is held.
  load_held_step :
      {B : Type 0} (info : AccountInfo) (absent : SwapError) (config : ProtocolConfig)
      (f : ProtocolConfig → Action B) (s : Store) {r : B × Store}
      → HoldsConfig info s config
      → (load_config platform program_id info absent >>= f) s ≡ ok r
      → f config s ≡ ok r
  load_held_step info absent config f s {r} held h =
      let (loaded, k, h1) = load_config_step info absent f s h in
      subst (λ c. f c s ≡ ok r) (ok_inj (sym k.unpacked ∙ held.unpacked)) h1

  admin_step :
      {B : Type 0} (admin_info : AccountInfo) (config : ProtocolConfig) (k : Action B) (s : Store)
      {r : B × Store}
      → (require_admin admin_info config >> k) s ≡ ok r
      → ((admin_info.is_signer ≡ true) × (admin_info.key ≡ config.admin)) × (k s ≡ ok r)
  unfolding require_admin
  admin_step admin_info config k s h =
      pass_step ((admin_info.is_signer ≡ true) × (admin_info.key ≡ config.admin)) _ k s
        (λ p e.
          let (signed, e1) = require_step _ _ _ s e in
          let (same, stays) = require_last _ _ s e1 in (stays, (signed, (==_iff _ _).0 same)))
        h

  -- What the abstract view says of a run: the account holds the changed configuration, and the key that
  -- the change needs has signed.
  abbrev pub Changed : SwapInstruction → AccountInfo → AccountInfo → ProtocolConfig → Store → Type 0
  Changed instruction config_info signer_info config s' =
      (next : ProtocolConfig) × HoldsConfig config_info s' next
      × Change signer_info.key instruction config next
      × (signer_info.is_signer ≡ true)

  module _ (laws : PackLaws platform) (config_info signer_info : AccountInfo)
      (rest : List AccountInfo) (config : ProtocolConfig) (s s' : Store)
      (held : HoldsConfig config_info s config) (fits : IsProtocolConfig config) where
    set_treasury-Changed :
        (treasury : Pubkey)
        → treasury < 256 ^ 32
        → set_treasury platform program_id treasury (config_info ∷ signer_info ∷ rest) s
          ≡ ok (tt, s')
        → Changed (Instructions.set_treasury treasury) config_info signer_info config s'
    unfolding set_treasury
    set_treasury-Changed treasury small h =
        let h1 = load_held_step config_info _ config _ s held h in
        let ((signed, same), h2) = admin_step signer_info config _ s h1 in
        let (given, h3) = require_step _ _ _ s h2 in
        (
          record config { treasury = treasury },
          stored laws config_info config _ s held
              (record {
                version_fits = fits.version_fits;
                admin_fits = fits.admin_fits;
                pending_admin_fits = fits.pending_admin_fits;
                treasury_fits = small;
                mode_fits = fits.mode_fits;
              })
              held.live h3,
          treasury_set config treasury same (differ treasury default_key given),
          signed,
        )

    transfer_admin-Changed :
        (pending_admin : Pubkey)
        → pending_admin < 256 ^ 32
        → transfer_admin platform program_id pending_admin (config_info ∷ signer_info ∷ rest) s
          ≡ ok (tt, s')
        → Changed (Instructions.transfer_admin pending_admin) config_info signer_info config s'
    unfolding transfer_admin
    transfer_admin-Changed pending_admin small h =
        let h1 = load_held_step config_info _ config _ s held h in
        let ((signed, same), h2) = admin_step signer_info config _ s h1 in
        (
          record config { pending_admin = pending_admin },
          stored laws config_info config _ s held
              (record {
                version_fits = fits.version_fits;
                admin_fits = fits.admin_fits;
                pending_admin_fits = small;
                treasury_fits = fits.treasury_fits;
                mode_fits = fits.mode_fits;
              })
              held.live h2,
          admin_proposed config pending_admin same,
          signed,
        )

    accept_admin-Changed :
        accept_admin platform program_id (config_info ∷ signer_info ∷ rest) s ≡ ok (tt, s')
        → Changed Instructions.accept_admin config_info signer_info config s'
    unfolding accept_admin
    accept_admin-Changed h =
        let h1 = load_held_step config_info _ config _ s held h in
        let (signed, h2) = require_step _ _ _ s h1 in
        let (both, h3) = require_step _ _ _ s h2 in
        let (set, same) = and_true _ _ both in
        (
          record config { admin = config.pending_admin; pending_admin = default_key },
          stored laws config_info config _ s held
              (record {
                version_fits = fits.version_fits;
                admin_fits = fits.pending_admin_fits;
                pending_admin_fits = zero_fits;
                treasury_fits = fits.treasury_fits;
                mode_fits = fits.mode_fits;
              })
              held.live h3,
          admin_accepted config ((==_iff _ _).0 same) (differ config.pending_admin default_key set),
          signed,
        )

    set_pool_creation-Changed :
        (mode : ℕ)
        → set_pool_creation platform program_id mode (config_info ∷ signer_info ∷ rest) s
          ≡ ok (tt, s')
        → Changed (Instructions.set_pool_creation mode) config_info signer_info config s'
    unfolding set_pool_creation
    set_pool_creation-Changed mode h =
        let h1 = load_held_step config_info _ config _ s held h in
        let ((signed, same), h2) = admin_step signer_info config _ s h1 in
        let (low, h3) = require_step _ _ _ s h2 in
        let small = leb→le mode mode_permissionless low in
        (
          record config { pool_creation_mode = mode },
          stored laws config_info config _ s held
              (record {
                version_fits = fits.version_fits;
                admin_fits = fits.admin_fits;
                pending_admin_fits = fits.pending_admin_fits;
                treasury_fits = fits.treasury_fits;
                mode_fits = omega (arith, small);
              })
              held.live h3,
          mode_set config mode same small,
          signed,
        )

    -- A successful `SetTreasury`, `TransferAdmin`, `AcceptAdmin` or `SetPoolCreation` makes its own change,
    -- with its own argument, and no other: the account then holds the configuration with the treasury set,
    -- the proposed admin set, the proposed admin made the admin, or the mode set, and the key that this
    -- change needs (the admin's, or for the third the proposed admin's) signed the instruction.
    -- Conditions: the account holds a configuration whose fields fit their types, the instruction's
    -- argument fits its type, and `Pack` keeps `PackLaws`.
    pub dispatch-Changed :
        (instruction : SwapInstruction) (constraints : Option SwapConstraints)
        → Governs instruction
        → dispatch platform program_id instruction (config_info ∷ signer_info ∷ rest) constraints s
          ≡ ok (tt, s')
        → Changed instruction config_info signer_info config s'
    unfolding dispatch
    dispatch-Changed _ constraints accepts h = accept_admin-Changed h
    dispatch-Changed _ constraints (sets_treasury t small) h = set_treasury-Changed t small h
    dispatch-Changed _ constraints (proposes p small) h = transfer_admin-Changed p small h
    dispatch-Changed _ constraints (sets_mode mode) h = set_pool_creation-Changed mode h
