-- ===== src/Orders/Processor/Placing.antt =====
-- What the parameters of an order satisfy once `place` let them pass.
use rome_dex.Base.{ℕ, ◌≤◌, ◌≡◌, ok, arith, leb→le, true, not, ◌&&◌, ◌||◌, ◌==◌, ltb}
use rome_dex.Base.Words.{IsU64}
use rome_dex.Solana.Runtime.{Pubkey, Store}
use rome_dex.Solana.Steps.{require_step, require_last}
use rome_dex.Orders.State.{max_keeper_fee_bps, max_interval_secs}
use rome_dex.Orders.Tranches.{IsOrder}
use rome_dex.Orders.Processor.Instructions.{Placement}
use rome_dex.Orders.Processor.Handlers.{check_placement, new_order}

amounts :
    (total tranche : ℕ)
    → not (total == 0 || (tranche == 0 || ltb total tranche)) ≡ true
    → (1 ≤ tranche) × (tranche ≤ total)
amounts total tranche h = (ground arith, ground arith)

floored : (interval min : ℕ) → not (interval == 0 && min == 0) ≡ true → interval ≡ 0 → 1 ≤ min
floored interval min h e = ground arith

-- Parameters of 64 bits that pass the checks of `place` give a well-formed order, an interval of at most a
-- year, a fee within the cap, and, for an order without an interval, a floor above zero.
pub check_placement-IsOrder :
    (p : Placement) (owner pool input_escrow dst_ata : Pubkey) (s : Store) {r : Unit {0} × Store}
    → IsU64 p.amount_in_total
    → IsU64 p.min_out_per_tranche
    → check_placement p s ≡ ok r
    → IsOrder (new_order p owner pool input_escrow dst_ata)
      × (p.interval_secs ≤ max_interval_secs)
      × (p.keeper_fee_bps ≤ max_keeper_fee_bps)
      × (p.interval_secs ≡ 0 → 1 ≤ p.min_out_per_tranche)
unfolding check_placement
check_placement-IsOrder p owner pool input_escrow dst_ata s total_fits minimum_fits h =
    let (e1, h1) = require_step _ _ _ s h in
    let (e2, h2) = require_step _ _ _ s h1 in
    let (e3, h3) = require_step _ _ _ s h2 in
    let (e4, _) = require_last _ _ s h3 in
    let (positive, bounded) = amounts p.amount_in_total p.tranche_in e1 in
    (
      record {
        tranche_positive = positive;
        tranche_bounded = bounded;
        remaining_bounded = omega arith;
        open_or_filled = ground arith;
        total_fits = total_fits;
        minimum_fits = minimum_fits;
      },
      leb→le _ _ e4,
      leb→le _ _ e2,
      floored p.interval_secs p.min_out_per_tranche e3,
    )
