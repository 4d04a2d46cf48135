-- ===== src/Orders/Tranches.antt =====
-- A sequence of executions of one order, as far as orders/src/state.rs decides it.
use rome_dex.Base.{
  ℕ, ◌+◌, ◌-◌, ◌*◌, ◌≤◌, ◌≡◌, refl, true, List, [], ◌∷◌, Result, ok, ◌==◌, if◌then◌else◌, arith, ap,
  sym, ◌∙◌,
}
use mathlib.Core.Path.{subst}
use rome_dex.Base.Words.{IsU64}
use rome_dex.Orders.Limits.{effective_min_out_lem}
use rome_dex.Orders.State.{
  Order, is_open, next_tranche_in, effective_min_out, debit, status_open, status_filled,
}

-- An order as `place` makes it and as every execution leaves it: open as long as input remains, and
-- filled when none does.
pub record IsOrder (order : Order) : Type 0 where
  pub tranche_positive : 1 ≤ order.tranche_in
  pub tranche_bounded : order.tranche_in ≤ order.amount_in_total
  pub remaining_bounded : order.remaining_in ≤ order.amount_in_total
  pub open_or_filled :
      order.status ≡ (if order.remaining_in == 0 then status_filled else status_open)
  pub total_fits : IsU64 order.amount_in_total
  pub minimum_fits : IsU64 order.min_out_per_tranche

-- One execution: the order is open, its tranche is debited, and the tranche has a floor.
pub record Executes (order : Order) (floor : ℕ) (order' : Order) : Type 0 where
  pub was_open : is_open order ≡ true
  pub floored : effective_min_out order (next_tranche_in order) ≡ ok floor
  pub debited : debit order (next_tranche_in order) ≡ ok order'

-- A sequence of executions, with the tranches taken and their floors.
pub data Runs : Order → List (ℕ × ℕ) → Order → Type 0 where
  done : {order : Order} → Runs order [] order
  next :
      {order order1 order2 : Order} {floor : ℕ} {rest : List (ℕ × ℕ)}
      → Executes order floor order1
      → Runs order1 rest order2
      → Runs order ((next_tranche_in order, floor) ∷ rest) order2

abbrev pub total_in : List (ℕ × ℕ) → ℕ
total_in [] = 0
total_in ((taken, floor) ∷ rest) = taken + total_in rest

abbrev pub total_floor : List (ℕ × ℕ) → ℕ
total_floor [] = 0
total_floor ((taken, floor) ∷ rest) = floor + total_floor rest

-- What a debit that succeeds returns.
unfoldable pub debited_order : Order → ℕ → Order
debited_order order amount = record order {
  remaining_in = order.remaining_in - amount;
  status = if order.remaining_in - amount == 0 then status_filled else order.status;
}

pub debit_ok :
    (order : Order) (amount : ℕ)
    → amount ≤ order.remaining_in
    → debit order amount ≡ ok (debited_order order amount)
unfolding debit debited_order
debit_ok order amount h = ground arith

debit-eq_ok :
    (order : Order) (amount : ℕ) {order' : Order}
    → debit order amount ≡ ok order'
    → (amount ≤ order.remaining_in) × (debited_order order amount ≡ order')
unfolding debit debited_order
debit-eq_ok order amount e = ground arith

pub next_tranche_bounds :
    (order : Order)
    → (next_tranche_in order ≤ order.tranche_in)
      × (next_tranche_in order ≤ order.remaining_in)
      × (1 ≤ order.tranche_in → 1 ≤ order.remaining_in → 1 ≤ next_tranche_in order)
unfolding next_tranche_in
next_tranche_bounds order = (ground arith, ground arith, λ h k. ground arith)

open_iff : (order : Order) → IsOrder order → is_open order ≡ true → 1 ≤ order.remaining_in
unfolding is_open
open_iff order h e = let s = h.open_or_filled in ground arith

debited_order-IsOrder :
    (order : Order) (amount : ℕ)
    → IsOrder order
    → 1 ≤ order.remaining_in
    → IsOrder (debited_order order amount)
unfolding debited_order
debited_order-IsOrder order amount h live =
    let s = h.open_or_filled in
    record {
      tranche_positive = h.tranche_positive;
      tranche_bounded = h.tranche_bounded;
      remaining_bounded = omega (arith, h.remaining_bounded);
      open_or_filled = ground arith;
      total_fits = h.total_fits;
      minimum_fits = h.minimum_fits;
    }

debited-remaining :
    (order : Order) (amount : ℕ)
    → amount ≤ order.remaining_in
    → amount + (debited_order order amount).remaining_in ≡ order.remaining_in
unfolding debited_order
debited-remaining order amount h = omega arith

debited-tranche :
    (order : Order) (amount : ℕ) → (debited_order order amount).tranche_in ≡ order.tranche_in
unfolding debited_order
debited-tranche order amount = refl

debited-minimum :
    (order : Order) (amount : ℕ)
    → (debited_order order amount).min_out_per_tranche ≡ order.min_out_per_tranche
unfolding debited_order
debited-minimum order amount = refl

paid :
    (price tranche taken floor more floors : ℕ)
    → price * taken ≤ floor * tranche
    → price * more ≤ floors * tranche
    → price * (taken + more) ≤ (floor + floors) * tranche
paid price tranche taken floor more floors h k = grind arith

ok_same : {A E : Type 0} {r : Result E A} {a b : A} → r ≡ ok a → r ≡ ok b → a ≡ b
ok_same h k = cc

-- What an execution does to an order.
pub executes_lem :
    (order order' : Order) (floor : ℕ)
    → IsOrder order
    → Executes order floor order'
    → IsOrder order'
      × (next_tranche_in order + order'.remaining_in ≡ order.remaining_in)
      × (order'.tranche_in ≡ order.tranche_in)
      × (order'.min_out_per_tranche ≡ order.min_out_per_tranche)
      × (order.min_out_per_tranche * next_tranche_in order ≤ floor * order.tranche_in)
executes_lem order order' floor h e =
    let live = open_iff order h e.was_open in
    let (within, covered, _) = next_tranche_bounds order in
    let (enough, same) = debit-eq_ok order (next_tranche_in order) e.debited in
    let (floor', floored', priced, _, _) =
      effective_min_out_lem order (next_tranche_in order) h.tranche_positive within
        (omega (arith, h.tranche_bounded, h.total_fits)) h.minimum_fits in
    let same_floor = ok_same floored' e.floored in
    (
      subst IsOrder same (debited_order-IsOrder order (next_tranche_in order) h live),
      ap (λ o. next_tranche_in order + o.remaining_in) (sym same)
          ∙ debited-remaining order (next_tranche_in order) enough,
      ap (λ o. o.tranche_in) (sym same) ∙ debited-tranche order (next_tranche_in order),
      ap (λ o. o.min_out_per_tranche) (sym same) ∙ debited-minimum order (next_tranche_in order),
      subst (λ f. order.min_out_per_tranche * next_tranche_in order ≤ f * order.tranche_in)
          same_floor priced,
    )

-- However often a well-formed order is executed, what was taken and what remains make up what was there,
-- and the floors of the tranches together pay at least the order's price for all that was taken.
pub runs_lem :
    {order order' : Order} {fills : List (ℕ × ℕ)}
    → IsOrder order
    → Runs order fills order'
    → (total_in fills + order'.remaining_in ≡ order.remaining_in)
      × (order.min_out_per_tranche * total_in fills ≤ total_floor fills * order.tranche_in)
runs_lem {order} h done = (omega arith, omega arith)
runs_lem {order} h
      (next {order1 = order1} {order2 = order2} {floor = floor} {rest = rest} e later) =
    let (h', moved, same_tranche, same_min, priced) = executes_lem order order1 floor h e in
    let (rest_moved, rest_priced) = runs_lem h' later in
    (
      omega (arith, moved, rest_moved),
      paid order.min_out_per_tranche order.tranche_in (next_tranche_in order) floor (total_in rest)
          (total_floor rest) priced
          (subst (λ t. order.min_out_per_tranche * total_in rest ≤ total_floor rest * t)
            same_tranche
            (subst (λ m. m * total_in rest ≤ total_floor rest * order1.tranche_in) same_min
              rest_priced)),
    )
