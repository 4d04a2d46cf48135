-- ===== src/Examples/Orders.antt =====
-- An order at concrete numbers: orders/src/state.rs.
use rome_dex.Base.{ℕ, ◌+◌, ◌*◌, ◌≤◌, ◌≡◌, refl, true, ok, List, [], ◌∷◌, arith}
use rome_dex.Base.Int.{pos}
use rome_dex.Solana.Bytes.{length, le_bytes}
use rome_dex.Orders.State.{Order, is_open, next_tranche_in, effective_min_out, debit, status_filled}
use rome_dex.Orders.Codec.{FitsOrder, pack_order, unpack_order, unpack-pack_order}
use rome_dex.Orders.Tranches.{IsOrder, Executes, Runs, done, next, total_in, total_floor, runs_lem}
use rome_dex.Orders.Completion.{completes}
use rome_dex.Solana.Runtime.{Store, ◌>>=◌, ◌>>◌, require}
use rome_dex.Orders.State.{max_interval_secs, max_keeper_fee_bps}
use rome_dex.Orders.Processor.Instructions.{Placement}
use rome_dex.Orders.Processor.Handlers.{check_placement, new_order}
use rome_dex.Orders.Processor.Placing.{check_placement-IsOrder}

-- 250 in tranches of 100, each for at least 33, with half an hour between two of them.
abbrev pub with_left : ℕ → ℕ → Order
with_left status remaining_in = record {
  is_initialized = true;
  bump = 253;
  status = status;
  owner = 21;
  pool = 22;
  input_escrow = 23;
  output_escrow = 0;
  dst_ata = 24;
  nonce = 7;
  a_to_b = true;
  amount_in_total = 250;
  remaining_in = remaining_in;
  tranche_in = 100;
  min_out_per_tranche = 33;
  interval_secs = 1_800;
  last_exec_ts = pos 1_000;
  expiry_ts = pos 100_000;
  keeper_fee_bps = 10;
}

abbrev pub order : Order
order = with_left 0 250

well_formed : IsOrder order
well_formed = record {
  tranche_positive = omega arith;
  tranche_bounded = omega arith;
  remaining_bounded = omega arith;
  open_or_filled = refl;
  total_fits = omega arith;
  minimum_fits = omega arith;
}

-- The last tranche is half a tranche, and its floor is rounded up.
first : Executes order 33 (with_left 0 150)
unfolding is_open effective_min_out next_tranche_in debit
first = record { was_open = refl; floored = refl; debited = refl }

second : Executes (with_left 0 150) 33 (with_left 0 50)
unfolding is_open effective_min_out next_tranche_in debit
second = record { was_open = refl; floored = refl; debited = refl }

last : Executes (with_left 0 50) 17 (with_left 1 0)
unfolding is_open effective_min_out next_tranche_in debit
last = record { was_open = refl; floored = refl; debited = refl }

abbrev fills : List (ℕ × ℕ)
fills =
    (next_tranche_in order, 33)
    ∷ (next_tranche_in (with_left 0 150), 33)
    ∷ (next_tranche_in (with_left 0 50), 17)
    ∷ []

runs_lem_example : (total_in fills + 0 ≡ 250) × (33 * total_in fills ≤ total_floor fills * 100)
runs_lem_example =
    runs_lem {order = order} {order' = with_left 1 0} {fills = fills} well_formed
      (next first (next second (next last done)))

completes_example :
    (fills : List (ℕ × ℕ)) × (order' : Order) × Runs order fills order'
    × (order'.status ≡ status_filled)
    × (order'.remaining_in ≡ 0)
    × (length fills ≤ 3)
completes_example = completes 3 order well_formed (omega arith)

order_fits : FitsOrder order
order_fits = record {
  bump_fits = omega arith;
  status_fits = omega arith;
  owner_fits = omega arith;
  pool_fits = omega arith;
  input_escrow_fits = omega arith;
  output_escrow_fits = omega arith;
  dst_ata_fits = omega arith;
  nonce_fits = omega arith;
  amount_in_total_fits = omega arith;
  remaining_in_fits = omega arith;
  tranche_in_fits = omega arith;
  min_out_per_tranche_fits = omega arith;
  interval_secs_fits = omega arith;
  last_exec_ts_fits = (omega arith, omega arith);
  expiry_ts_fits = (omega arith, omega arith);
  keeper_fee_bps_fits = omega arith;
}

abbrev zeros : ℕ → List ℕ
zeros n = le_bytes n 0

abbrev pub account : List ℕ
account = elim (pack_order order (zeros 230)) [ ok bytes ↦ bytes | _ ↦ [] ]

order_packed : pack_order order (zeros 230) ≡ ok account
unfolding pack_order le_bytes
order_packed = refl

unpack-pack_order_example :
    (unpack_order account ≡ ok order) × (length account ≡ length (zeros 230))
unpack-pack_order_example =
    unpack-pack_order order (zeros 230) {bytes = account} order_fits order_packed

abbrev placement : Placement
placement = record {
  nonce = 7;
  bump = 253;
  a_to_b = true;
  amount_in_total = 250;
  tranche_in = 100;
  min_out_per_tranche = 33;
  interval_secs = 1_800;
  expiry_ts = pos 100_000;
  keeper_fee_bps = 10;
}

abbrev nothing : Store
nothing key = record { owner = 0; lamports = 0; contents = [] }

placement_run : check_placement placement nothing ≡ ok (tt, nothing)
unfolding check_placement ◌>>=◌ ◌>>◌ require
placement_run = refl

check_placement-IsOrder_example :
    IsOrder (new_order placement 21 22 23 24)
    × (1_800 ≤ max_interval_secs)
    × (10 ≤ max_keeper_fee_bps)
    × (placement.interval_secs ≡ 0 → 1 ≤ placement.min_out_per_tranche)
check_placement-IsOrder_example =
    check_placement-IsOrder placement 21 22 23 24 nothing {r = (tt, nothing)} (omega arith)
      (omega arith) placement_run
