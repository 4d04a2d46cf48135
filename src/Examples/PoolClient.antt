-- ===== src/Examples/PoolClient.antt =====
-- A swap of a client on the pool of the examples: program/src/instruction.rs.
use rome_dex.Base.{◌≡◌, none, arith}
use rome_dex.Pool.Processor.Swap
use rome_dex.Pool.Builders
use rome_dex.Pool.Builders.Exchange.{receives, swap_accounts, swaps-receives}
use rome_dex.Examples.PoolHost.{platform, packs}
use rome_dex.Examples.PoolRuns.{before}

swaps-receives_example :
    (receives platform none (Builders.swap 9 15 15 15 1 3 4 33 5 6 34 7 11 12 10_000 19_000) before
      ≡ Swap.swap platform 9 10_000 19_000 (swap_accounts 15 15 15 1 3 4 33 5 6 34 7 11 12) before)
    × (receives platform none
          (Builders.swap_exact_out 9 15 15 15 1 3 4 33 5 6 34 7 11 12 10_000 19_000)
          before
        ≡ Swap.swap_exact_out platform 9 10_000 19_000
            (swap_accounts 15 15 15 1 3 4 33 5 6 34 7 11 12)
            before)
swaps-receives_example =
    swaps-receives platform packs 9 none 15 15 15 1 3 4 33 5 6 34 7 11 12 10_000 19_000 before
      (omega arith) (omega arith)
