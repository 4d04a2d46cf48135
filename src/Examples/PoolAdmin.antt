-- ===== src/Examples/PoolAdmin.antt =====
-- Changes of the protocol's configuration of the examples: program/src/processor.rs.
use rome_dex.Base.{◌≡◌, refl, List, [], ◌∷◌, ok, none}
use rome_dex.Solana.Bytes.{from_le_bytes, le_bytes}
use rome_dex.Solana.Codec.{number}
use rome_dex.Solana.Runtime.{
  AccountInfo, Store, ◌>>=◌, ◌>>◌, pure, fail, lift, require, owner_of, contents_of, write,
}
use rome_dex.Pool.Codec.{read_protocol_config, protocol_config_bytes}
use rome_dex.Pool.Config.{find_address, load_config, store_config}
use rome_dex.Pool.Instructions
use rome_dex.Pool.Processor.Admin
use rome_dex.Pool.Processor.Entry.{dispatch}
use rome_dex.Pool.Governance.Refinement.{HoldsConfig, Changed, accepts, dispatch-Changed}
use rome_dex.Examples.Host.{account_at, signer_at, left_by}
use rome_dex.Examples.PoolHost.{of_length, platform, packs}
use rome_dex.Examples.PoolRuns.{config, config_fits, before}

pub configured : HoldsConfig platform 9 (account_at 2) before config
unfolding find_address read_protocol_config protocol_config_bytes number from_le_bytes le_bytes
configured = record { at_address = refl; owned = refl; unpacked = refl; live = refl }

abbrev accounts : List AccountInfo
accounts = account_at 2 ∷ signer_at 21 ∷ []

abbrev after : Store
after = left_by (dispatch platform 9 Instructions.accept_admin accounts none before) before

accept_run : dispatch platform 9 Instructions.accept_admin accounts none before ≡ ok (tt, after)
unfolding dispatch Admin.accept_admin load_config store_config find_address of_length
    read_protocol_config protocol_config_bytes number from_le_bytes le_bytes ◌>>=◌ ◌>>◌ pure fail
    lift require owner_of contents_of write
accept_run = refl

dispatch-Changed_example :
    Changed platform 9 Instructions.accept_admin (account_at 2) (signer_at 21) config after
dispatch-Changed_example =
    dispatch-Changed platform 9 packs (account_at 2) (signer_at 21) [] config before after
      configured config_fits Instructions.accept_admin none accepts accept_run
