-- ===== src/Pool/Config.antt =====
-- The protocol's configuration account: program/src/config.rs and `load_config` of processor.rs.
use rome_dex.Base.{ℕ, List, [], ◌∷◌, ◌==◌}
use rome_dex.Solana.Errors.{missing_required_signature}
use rome_dex.Solana.Runtime.{
  Pubkey, AccountInfo, Action, ◌>>=◌, ◌>>◌, pure, lift, require, owner_of, contents_of, write,
}
use rome_dex.Curve.Calculator.{SwapError, invalid_program_address, not_admin}
use rome_dex.Pool.Platform.{Platform}
use rome_dex.Pool.State.{ProtocolConfig, config_version, from_error}
use rome_dex.Pool.Codec.{packed_protocol_config}

-- The bytes of "config".
abbrev pub config_seed : List ℕ
config_seed = 99 ∷ 111 ∷ 110 ∷ 102 ∷ 105 ∷ 103 ∷ []

module _ (platform : Platform) (program_id : Pubkey) where
  unfoldable pub find_address : Pubkey × ℕ
  find_address = platform.runtime.find_program_address (config_seed ∷ []) program_id

  unfoldable pub load_config : AccountInfo → SwapError → Action ProtocolConfig
  load_config config_info absent_error = do
    require (config_info.key == find_address.0) (from_error invalid_program_address)
    owner ← owner_of config_info
    require (owner == program_id) (from_error absent_error)
    bytes ← contents_of config_info
    config ← lift (packed_protocol_config.unpack_from_slice bytes)
    require (config.version == config_version) (from_error absent_error)
    pure config

module _ (platform : Platform) where
  -- `ProtocolConfig::pack(config, &mut config_info.data.borrow_mut())`
  unfoldable pub store_config : AccountInfo → ProtocolConfig → Action (Unit {0})
  store_config config_info config = do
    old ← contents_of config_info
    bytes ← lift (platform.pack ProtocolConfig packed_protocol_config config old)
    write config_info bytes

-- The admin signed: `is_signer`, then the key.
unfoldable pub require_admin : AccountInfo → ProtocolConfig → Action (Unit {0})
require_admin admin_info config = do
  require admin_info.is_signer missing_required_signature
  require (admin_info.key == config.admin) (from_error not_admin)
