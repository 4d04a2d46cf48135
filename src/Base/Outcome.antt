-- ===== src/Base/Outcome.antt =====
-- Outcomes of fallible code. `Result E A` is a Rust `Result<A, E>` of code that may also panic: an
-- overflow under `overflow-checks`, an index out of range, a failed `unwrap`.
use mathlib.Core.Bool.{Bool, true, false}
use mathlib.Core.Option.{Option, none, some}
use mathlib.Core.Path.{◌≡◌, refl, ap}

pub data Result {ℓ κ} (E : Type ℓ) (A : Type κ) : Type (ℓ ⊔ κ) where
  ok : A → Result E A
  err : E → Result E A
  panic : Result E A

module _ {ℓ} {E : Type ℓ} where
  -- `?` on a `Result`, and a panic, leave the function.
  infixl 5 ◌>>=◌ ◌>>◌
  abbrev pub ◌>>=◌ {κ μ} : {A : Type κ} {B : Type μ} → Result E A → (A → Result E B) → Result E B
  panic >>= next = panic
  err e >>= next = err e
  ok a >>= next = next a

  abbrev pub ◌>>◌ {κ} : {B : Type κ} → Result E (Unit {0}) → Result E B → Result E B
  first >> second = first >>= λ _. second

  -- `if !c { return Err(e) }`
  abbrev pub require : Bool → E → Result E (Unit {0})
  require false e = err e
  require true _ = ok tt

  -- `Option::ok_or`
  abbrev pub ok_or {κ} : {A : Type κ} → Option A → E → Result E A
  ok_or none e = err e
  ok_or (some a) e = ok a

  -- An operation that panics where `checked_*` gives `None`.
  abbrev pub or_panic {κ} : {A : Type κ} → Option A → Result E A
  or_panic none = panic
  or_panic (some a) = ok a

  -- Where a chain succeeded, its first part did, and the rest succeeded on what that gave.
  pub >>=-eq-ok {κ μ} :
      {A : Type κ} {B : Type μ} (first : Result E A) (next : A → Result E B) {last : B}
      → (first >>= next) ≡ ok last
      → (mid : A) × (first ≡ ok mid) × (next mid ≡ ok last)
  >>=-eq-ok panic next reached = cc
  >>=-eq-ok (err e) next reached = cc
  >>=-eq-ok (ok mid) next reached = (mid, refl, reached)

-- `Result::map_err` and `.into()`
abbrev pub map_err {ℓ κ μ} :
    {E : Type ℓ} {F : Type κ} {A : Type μ} → (E → F) → Result E A → Result F A
map_err f (ok a) = ok a
map_err f (err e) = err (f e)
map_err f panic = panic

-- The value of an outcome is unique.
pub ok_inj {ℓ κ} : {E : Type ℓ} {A : Type κ} {a b : A} → ◌≡◌ {A = Result E A} (ok a) (ok b) → a ≡ b
ok_inj {a = a} e = ap (λ r. elim r [ ok x ↦ x | err x ↦ a | panic ↦ a ]) e
