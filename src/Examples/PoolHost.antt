-- ===== src/Examples/PoolHost.antt =====
-- A platform for the pool's examples: token accounts and mints of a plain layout, and `Pack` by its
-- documentation.
use mathlib.Core.Path.{subst}
use rome_dex.Base.{
  ℕ, ◌≡◌, refl, Bool, true, false, none, some, List, Result, ok, err, panic, ◌==◌, ==_iff,
  if◌then◌else◌, ap, ok_inj, ◌∙◌,
}
use rome_dex.Solana.Errors.{ProgramError, invalid_account_data, uninitialized_account}
use rome_dex.Solana.Bytes.{length, take, drop, from_le_bytes}
use rome_dex.Pool.Platform.{Platform, PackLaws}
use rome_dex.Examples.Curve.{math}
use rome_dex.Examples.Host.{runtime, key_at}

-- A value that must be initialized.
unfoldable pub live_only : {A : Type 0} → (A → Bool) → Result ProgramError A → Result ProgramError A
live_only is_initialized (ok a) = if is_initialized a then ok a else err uninitialized_account
live_only is_initialized (err e) = err e
live_only is_initialized panic = panic

-- A buffer that must have the length.
unfoldable pub of_length : {A : Type 0} → ℕ → List ℕ → Result ProgramError A → Result ProgramError A
of_length len buffer r = if length buffer == len then r else err invalid_account_data

abbrev pub platform : Platform
platform = record {
  runtime = runtime;
  math = math;
  is_spl_token_program = λ key. key == 15;
  unpack_mint = λ bytes. some (record {
    mint_authority = some 3;
    supply = from_le_bytes (take 8 bytes);
    decimals = 6;
    freeze_authority = none;
    mint_close_authority = none;
    transfer_fee_config = none;
  });
  unpack_account = λ bytes. some (record {
    mint = key_at 0 bytes;
    owner = key_at 32 bytes;
    amount = from_le_bytes (take 8 (drop 64 bytes));
    delegate = none;
    close_authority = none;
  });
  mint_len = 82;
  account_len = 165;
  bpf_loader_upgradeable_id = 16;
  epoch = ok 1;
  unpack =
      λ A p input. of_length p.len input (live_only p.is_initialized (p.unpack_from_slice input));
  unpack_unchecked = λ A p input. of_length p.len input (p.unpack_from_slice input);
  pack = λ A p a output. of_length p.len output (p.pack_into_slice a output);
}

tested :
    {A : Type 0} (c : Bool) (x : Result ProgramError A) (e : ProgramError) {a : A}
    → (if c then x else err e) ≡ ok a
    → (c ≡ true) × (x ≡ ok a)
tested true x e h = (refl, h)
tested false x e h = cc

of_length_lem :
    {A : Type 0} (len : ℕ) (buffer : List ℕ) (r : Result ProgramError A) {a : A}
    → of_length len buffer r ≡ ok a
    → (length buffer ≡ len) × (r ≡ ok a)
unfolding of_length
of_length_lem len buffer r h =
    let (c, e) = tested (length buffer == len) r _ h in ((==_iff _ _).0 c, e)

of_length_ok :
    {A : Type 0} (len : ℕ) (buffer : List ℕ) (r : Result ProgramError A)
    → length buffer ≡ len
    → of_length len buffer r ≡ r
unfolding of_length
of_length_ok len buffer r h =
    ap (λ c. if c then r else err invalid_account_data) ((==_iff (length buffer) len).1 h)

live_only_lem :
    {A : Type 0} (is_initialized : A → Bool) (r : Result ProgramError A) {a : A}
    → live_only is_initialized r ≡ ok a
    → (r ≡ ok a) × (is_initialized a ≡ true)
unfolding live_only
live_only_lem is_initialized (ok x) h =
    let (c, e) = tested (is_initialized x) (ok x) _ h in
    (e, subst (λ y. is_initialized y ≡ true) (ok_inj e) c)
live_only_lem is_initialized (err e) h = cc
live_only_lem is_initialized panic h = cc

live_only_ok :
    {A : Type 0} (is_initialized : A → Bool) {r : Result ProgramError A} {a : A}
    → r ≡ ok a
    → is_initialized a ≡ true
    → live_only is_initialized r ≡ ok a
unfolding live_only
live_only_ok is_initialized {a = a} e h =
    ap (live_only is_initialized) e ∙ ap (λ c. if c then ok a else err uninitialized_account) h

pub packs : PackLaws platform
packs = record {
  unpack_checks = λ A p input a e.
      let (room, e1) =
        of_length_lem p.len input (live_only p.is_initialized (p.unpack_from_slice input)) e in
      let (read, live) = live_only_lem p.is_initialized (p.unpack_from_slice input) e1 in
      (room, read, live);
  unpack_reads = λ A p input a room read live.
      of_length_ok p.len input _ room ∙ live_only_ok p.is_initialized read live;
  unpack_unchecked_reads = λ A p input a room read. of_length_ok p.len input _ room ∙ read;
  pack_checks = λ A p a output bytes e. of_length_lem p.len output (p.pack_into_slice a output) e;
}
