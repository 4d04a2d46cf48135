-- ===== src/Orders/Completion.antt =====
-- The debits of an order, to its end.
use rome_dex.Base.{
  ℕ, zero, suc, ◌-◌, ◌*◌, ◌≤◌, ◌≡◌, true, List, [], ◌∷◌, ◌==◌, arith, sym, Bool-cases, inl, inr,
  ==_iff,
}
use mathlib.Core.Path.{subst}
use rome_dex.Solana.Bytes.{length}
use rome_dex.Orders.Limits.{effective_min_out_lem}
use rome_dex.Orders.State.{Order, is_open, next_tranche_in, status_filled}
use rome_dex.Orders.Tranches.{
  IsOrder, Executes, Runs, done, next, debited_order, debit_ok, next_tranche_bounds, executes_lem,
}

filled_when_drained :
    (order : Order) → IsOrder order → order.remaining_in ≡ 0 → order.status ≡ status_filled
filled_when_drained order h e = let s = h.open_or_filled in ground arith

open_when_live : (order : Order) → IsOrder order → 1 ≤ order.remaining_in → is_open order ≡ true
unfolding is_open
open_when_live order h live = let s = h.open_or_filled in ground arith

left_after_tranche :
    (n : ℕ) (order : Order)
    → order.remaining_in ≤ suc n * order.tranche_in
    → order.remaining_in - next_tranche_in order ≤ n * order.tranche_in
unfolding next_tranche_in
left_after_tranche n order h = grind arith

can_execute :
    (n : ℕ) (order : Order)
    → IsOrder order
    → 1 ≤ order.remaining_in
    → order.remaining_in ≤ suc n * order.tranche_in
    → (floor : ℕ) × (order1 : Order) × Executes order floor order1
      × (order1.remaining_in ≤ n * order.tranche_in)
unfolding debited_order
can_execute n order h live bound =
    let (within, covered, _) = next_tranche_bounds order in
    let (floor, floored, _, _, _) =
      effective_min_out_lem order (next_tranche_in order) h.tranche_positive within
        (omega (arith, h.tranche_bounded, h.total_fits)) h.minimum_fits in
    (
      floor,
      debited_order order (next_tranche_in order),
      record {
        was_open = open_when_live order h live;
        floored = floored;
        debited = debit_ok order (next_tranche_in order) covered;
      },
      left_after_tranche n order bound,
    )

-- The bookkeeping of an order ends: from a well-formed order whose remaining input is at most `n`
-- tranches there is a sequence of at most `n` tranches, each taken while the order is open, with a floor
-- that `effective_min_out` computes and a `debit` that succeeds, after which nothing remains and the order
-- is filled. Nothing is said of the rest of `execute`: the expiry, the interval, the accounts, the fee
-- and the calls, which can stop an execution.
pub completes :
    (n : ℕ) (order : Order)
    → IsOrder order
    → order.remaining_in ≤ n * order.tranche_in
    → (fills : List (ℕ × ℕ)) × (order' : Order) × Runs order fills order'
      × (order'.status ≡ status_filled)
      × (order'.remaining_in ≡ 0)
      × (length fills ≤ n)
completes zero order h bound =
    let drained : order.remaining_in ≡ 0 = grind arith in
    ([], order, done, filled_when_drained order h drained, drained, omega arith)
completes (suc n) order h bound = elim (Bool-cases (order.remaining_in == 0)) [
  | inl e ↦
      let drained = (==_iff _ _).0 e in
      ([], order, done, filled_when_drained order h drained, drained, omega arith)
  | inr e ↦
      let live : 1 ≤ order.remaining_in = ground arith in
      let (floor, order1, execution, left) = can_execute n order h live bound in
      let (h1, _, same_tranche, _, _) = executes_lem order order1 floor h execution in
      let (fills, order', runs, filled, drained, short) =
        completes n order1 h1 (subst (λ t. order1.remaining_in ≤ n * t) (sym same_tranche) left) in
      (
        (next_tranche_in order, floor) ∷ fills,
        order',
        next execution runs,
        filled,
        drained,
        omega (arith, short),
      )
]
