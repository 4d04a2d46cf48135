-- ===== src/Solana/Steps.antt =====
-- Inversion of the steps of a handler that succeeded, one lemma for each kind of step.
use mathlib.Core.Path.{subst}
use rome_dex.Base.{
  ℕ, ◌≡◌, ◌≢◌, refl, ap, sym, Bool, true, false, List, Result, ok, err, panic, arith, if◌then◌else◌,
  ◌⊎◌, inl, inr,
}
use rome_dex.Solana.Errors.{ProgramError}
use rome_dex.Solana.Runtime.{
  Pubkey, Account, AccountInfo, Store, Action, Instruction, Seeds, Runtime, update, ◌>>=◌, ◌>>◌,
  pure, lift, require, owner_of, contents_of, write, invoke, >>=-eq-ok,
}

pub require_step :
    {B : Type 0} (c : Bool) (e : ProgramError) (k : Action B) (s : Store) {r : B × Store}
    → (require c e >> k) s ≡ ok r
    → (c ≡ true) × (k s ≡ ok r)
unfolding require ◌>>◌
require_step true e k s h = (refl, h)
require_step false e k s h = cc

-- The last check of a helper.
pub require_last :
    (c : Bool) (e : ProgramError) (s : Store) {r : Unit {0} × Store}
    → require c e s ≡ ok r
    → (c ≡ true) × (r.1 ≡ s)
unfolding require
require_last true e s h = (refl, ground arith)
require_last false e s h = cc

pub lift_step :
    {A B : Type 0} (m : Result ProgramError A) (f : A → Action B) (s : Store) {r : B × Store}
    → (lift m >>= f) s ≡ ok r
    → (a : A) × (m ≡ ok a) × (f a s ≡ ok r)
unfolding lift ◌>>=◌
lift_step (ok a) f s h = (a, refl, h)
lift_step (err e) f s h = cc
lift_step panic f s h = cc

pub owner_step :
    {B : Type 0} (info : AccountInfo) (f : Pubkey → Action B) (s : Store) {r : B × Store}
    → (owner_of info >>= f) s ≡ ok r
    → f (s info.key).owner s ≡ ok r
unfolding owner_of ◌>>=◌
owner_step info f s h = h

pub contents_step :
    {B : Type 0} (info : AccountInfo) (f : List ℕ → Action B) (s : Store) {r : B × Store}
    → (contents_of info >>= f) s ≡ ok r
    → f (s info.key).contents s ≡ ok r
unfolding contents_of ◌>>=◌
contents_step info f s h = h

pub pure_step : {A : Type 0} (a : A) (s : Store) {r : A × Store} → pure a s ≡ ok r → r ≡ (a, s)
unfolding pure
pure_step a s h = ground arith

pub write_step :
    (info : AccountInfo) (bytes : List ℕ) (s : Store) {r : Unit {0} × Store}
    → write info bytes s ≡ ok r
    → r.1
      ≡ update s info.key (record {
        owner = (s info.key).owner;
        lamports = (s info.key).lamports;
        contents = bytes;
      })
unfolding write
write_step info bytes s h = ground arith

pub invoked :
    (runtime : Runtime) (i : Instruction) (seeds : List Seeds) (s : Store) {p : Unit {0} × Store}
    → invoke runtime i seeds s ≡ ok p
    → runtime.invoke_signed i seeds s ≡ ok p.1
unfolding invoke
invoked runtime i seeds s e = ground arith

-- A check with no result.
pub check_step :
    {B : Type 0} (m : Action (Unit {0})) (k : Action B) (s : Store) {r : B × Store}
    → (m >> k) s ≡ ok r
    → (p : Unit {0} × Store) × (m s ≡ ok p) × (k p.1 ≡ ok r)
unfolding ◌>>◌
check_step m k s h = >>=-eq-ok m (λ _. k) s h

pub invoke_step :
    {B : Type 0} (runtime : Runtime) (i : Instruction) (seeds : List Seeds) (k : Action B)
    (s : Store) {r : B × Store}
    → (invoke runtime i seeds >> k) s ≡ ok r
    → (s' : Store) × (runtime.invoke_signed i seeds s ≡ ok s') × (k s' ≡ ok r)
invoke_step runtime i seeds k s h =
    let (p, e, rest) = check_step (invoke runtime i seeds) k s h in
    (p.1, invoked runtime i seeds s e, rest)

pub update_self : (s : Store) (k : Pubkey) (a : Account) → update s k a k ≡ a
update_self s k a = ground arith

pub update_ne : (s : Store) (j k : Pubkey) (a : Account) → j ≢ k → update s k a j ≡ s j
update_ne s j k a h = ground arith

-- A step that leaves the accounts as they are, given what it guarantees.
pub read_step :
    {A B : Type 0} (Q : A → Type 0) (m : Action A) (f : A → Action B) (s : Store) {r : B × Store}
    → ((p : A × Store) → m s ≡ ok p → (p.1 ≡ s) × Q p.0)
    → (m >>= f) s ≡ ok r
    → (a : A) × Q a × (f a s ≡ ok r)
read_step Q m f s {r} inverts h =
    let (p, e, h1) = >>=-eq-ok m f s h in
    let (stays, q) = inverts p e in (p.0, q, subst (λ st. f p.0 st ≡ ok r) stays h1)

pub pass_step :
    {B : Type 0} (Q : Type 0) (m : Action (Unit {0})) (k : Action B) (s : Store) {r : B × Store}
    → ((p : Unit {0} × Store) → m s ≡ ok p → (p.1 ≡ s) × Q)
    → (m >> k) s ≡ ok r
    → Q × (k s ≡ ok r)
pass_step Q m k s {r} inverts h =
    let (p, e, h1) = check_step m k s h in
    let (stays, q) = inverts p e in (q, subst (λ st. k st ≡ ok r) stays h1)

-- The last step of a read.
pub pure_last :
    {A : Type 0} (Q : A → Type 0) (a : A) (s : Store) {p : A × Store}
    → Q a
    → pure a s ≡ ok p
    → (p.1 ≡ s) × Q p.0
pure_last Q a s {p} q h =
    let same = pure_step a s h in (ap (λ x. x.1) same, subst (λ x. Q x.0) (sym same) q)

-- Either branch of a conditional step.
pub if_step :
    {A : Type 0} (c : Bool) (x y : Action A) (s : Store) {p : A × Store}
    → (if c then x else y) s ≡ ok p
    → ((c ≡ true) × (x s ≡ ok p)) ⊎ ((c ≡ false) × (y s ≡ ok p))
if_step true x y s h = inl (refl, h)
if_step false x y s h = inr (refl, h)
