-- ===== src/Pool/Instructions/RoundTrip.antt =====
-- Every instruction that program/src/instruction.rs packs is unpacked to itself.
use mathlib.Core.Path.{subst}
use mathlib.Core.List.{append-nil}
use rome_dex.Base.{
  ℕ, ◌+◌, ◌<◌, ◌^◌, ◌≡◌, refl, ◌∙◌, List, [], ◌∷◌, ◌++◌, Result, ok, arith, ◌>>=◌, ltb, false,
}
use rome_dex.Solana.Errors.{ProgramError}
use rome_dex.Solana.Bytes.{
  length, le_bytes, length-append, length-le_bytes, take-le_bytes, drop-le_bytes,
  from_le_bytes-le_bytes,
}
use rome_dex.Solana.Codec.{parsed_lem}
use rome_dex.Curve.Fees.{Fees}
use rome_dex.Pool.Platform.{Platform, PackLaws}
use rome_dex.Pool.State.{SwapCurve}
use rome_dex.Pool.Codec.{
  read_fees, read_swap_curve, fees_bytes, swap_curve_bytes, packed_fees, packed_swap_curve,
}
use rome_dex.Pool.Codec.RoundTrips.{
  IsFees, IsCurve, read_fees-bytes, length-fees_bytes, read_swap_curve-bytes,
  length-swap_curve_bytes, fees_cut,
}
use rome_dex.Pool.Instructions.{
  SwapInstruction, initialize, accept_admin, collect_protocol_fees, swap, deposit_all_token_types,
  withdraw_all_token_types, deposit_single_token_type_exact_amount_in,
  withdraw_single_token_type_exact_amount_out, swap_exact_out, create_pool, initialize_config,
  set_treasury, transfer_admin, set_pool_creation, unpack_number, split_first, two, three, amounts,
  zeros, unpack_create_pool, unpack_tag, unpack, pack,
}

enough : (n : ℕ) → ltb (64 + n) 64 ≡ false
enough n = ground arith

-- The front of a buffer, read back.
number_read :
    {B : Type 0} (w x : ℕ) (rest : List ℕ) (f : ℕ × List ℕ → Result ProgramError B)
    → x < 256 ^ w
    → (unpack_number w (le_bytes w x ++ rest) >>= f) ≡ f (x, rest)
unfolding unpack_number
number_read w x rest f h =
    rw
      (
        length-append (le_bytes w x) rest,
        length-le_bytes w x,
        take-le_bytes w x rest,
        drop-le_bytes w x rest,
        from_le_bytes-le_bytes w x h,
      )
      (ground arith)

number_last :
    {B : Type 0} (w x : ℕ) (f : ℕ × List ℕ → Result ProgramError B)
    → x < 256 ^ w
    → (unpack_number w (le_bytes w x) >>= f) ≡ f (x, [])
number_last w x f h =
    subst (λ l. (unpack_number w l >>= f) ≡ f (x, [])) (append-nil (le_bytes w x))
      (number_read w x [] f h)

two_read :
    (make : ℕ → ℕ → SwapInstruction) (a b : ℕ)
    → a < 256 ^ 8
    → b < 256 ^ 8
    → two make (amounts a b) ≡ ok (make a b)
unfolding two
two_read make a b h k = number_read 8 a _ _ h ∙ number_last 8 b _ k

three_read :
    (make : ℕ → ℕ → ℕ → SwapInstruction) (a b c : ℕ)
    → a < 256 ^ 8
    → b < 256 ^ 8
    → c < 256 ^ 8
    → three make (le_bytes 8 a ++ amounts b c) ≡ ok (make a b c)
unfolding three
three_read make a b c h k m = number_read 8 a _ _ h ∙ number_read 8 b _ _ k ∙ number_last 8 c _ m

-- Every argument fits its type.
abbrev pub IsInstruction : SwapInstruction → Type 0
IsInstruction initialize = Unit {0}
IsInstruction accept_admin = Unit {0}
IsInstruction collect_protocol_fees = Unit {0}
IsInstruction (swap a b) = (a < 256 ^ 8) × (b < 256 ^ 8)
IsInstruction (deposit_all_token_types a b c) = (a < 256 ^ 8) × (b < 256 ^ 8) × (c < 256 ^ 8)
IsInstruction (withdraw_all_token_types a b c) = (a < 256 ^ 8) × (b < 256 ^ 8) × (c < 256 ^ 8)
IsInstruction (deposit_single_token_type_exact_amount_in a b) = (a < 256 ^ 8) × (b < 256 ^ 8)
IsInstruction (withdraw_single_token_type_exact_amount_out a b) = (a < 256 ^ 8) × (b < 256 ^ 8)
IsInstruction (swap_exact_out a b) = (a < 256 ^ 8) × (b < 256 ^ 8)
IsInstruction (create_pool fees curve fee_bps pool_bump lp_bump) =
    IsFees fees × IsCurve curve × (fee_bps < 256 ^ 2)
IsInstruction (initialize_config admin treasury mode) = (admin < 256 ^ 32) × (treasury < 256 ^ 32)
IsInstruction (set_treasury treasury) = treasury < 256 ^ 32
IsInstruction (transfer_admin pending_admin) = pending_admin < 256 ^ 32
IsInstruction (set_pool_creation mode) = Unit {0}

module _ (platform : Platform) (laws : PackLaws platform) where
  fees_unpacked :
      (fees : Fees)
      → IsFees fees
      → platform.unpack_unchecked Fees packed_fees (fees_bytes fees []) ≡ ok fees
  fees_unpacked fees f =
      let len = length-fees_bytes fees [] in
      laws.unpack_unchecked_reads Fees packed_fees (fees_bytes fees []) fees len (
        parsed_lem 64 read_fees (fees_bytes fees []) [] fees (omega (arith, len))
          (read_fees-bytes fees [] f))

  curve_unpacked :
      (curve : SwapCurve)
      → IsCurve curve
      → platform.unpack_unchecked SwapCurve packed_swap_curve (swap_curve_bytes curve zeros [])
        ≡ ok curve
  curve_unpacked curve c =
      let len = length-swap_curve_bytes curve zeros [] (length-le_bytes 32 0) in
      laws.unpack_unchecked_reads SwapCurve packed_swap_curve (swap_curve_bytes curve zeros [])
        curve len
        (parsed_lem 33 read_swap_curve (swap_curve_bytes curve zeros []) [] curve
          (omega (arith, len)) (read_swap_curve-bytes curve zeros [] (length-le_bytes 32 0) c))

  create_pool_read :
      (fees : Fees) (curve : SwapCurve) (fee_bps pool_bump lp_bump : ℕ)
      → IsFees fees
      → IsCurve curve
      → fee_bps < 256 ^ 2
      → unpack_create_pool platform (
          le_bytes 2 fee_bps
          ++ (pool_bump ∷ lp_bump ∷ fees_bytes fees (swap_curve_bytes curve zeros [])))
        ≡ ok (create_pool fees curve fee_bps pool_bump lp_bump)
  unfolding unpack_create_pool split_first
  create_pool_read fees curve fee_bps pool_bump lp_bump f c h =
      let rest = swap_curve_bytes curve zeros [] in
      let cut = fees_cut fees rest in
      number_read 2 fee_bps _ _ h
      ∙ rw
          (
            length-fees_bytes fees rest,
            cut.0,
            cut.1,
            fees_unpacked fees f,
            curve_unpacked curve c,
            enough (length rest),
          )
          refl

  -- An instruction whose arguments fit their types, packed, is unpacked to itself, for each of the
  -- fourteen instructions.
  -- Conditions: the curve of a `CreatePool` carries the tag of its own kind, and `Pack` keeps `PackLaws`.
  pub unpack-pack : (i : SwapInstruction) → IsInstruction i → unpack platform (pack i) ≡ ok i
  unfolding unpack pack unpack_tag split_first
  unpack-pack initialize h = refl
  unpack-pack accept_admin h = refl
  unpack-pack collect_protocol_fees h = refl
  unpack-pack (swap a b) (h, k) = two_read swap a b h k
  unpack-pack (deposit_all_token_types a b c) (h, k, m) =
      three_read deposit_all_token_types a b c h k m
  unpack-pack (withdraw_all_token_types a b c) (h, k, m) =
      three_read withdraw_all_token_types a b c h k m
  unpack-pack (deposit_single_token_type_exact_amount_in a b) (h, k) =
      two_read deposit_single_token_type_exact_amount_in a b h k
  unpack-pack (withdraw_single_token_type_exact_amount_out a b) (h, k) =
      two_read withdraw_single_token_type_exact_amount_out a b h k
  unpack-pack (swap_exact_out a b) (h, k) = two_read swap_exact_out a b h k
  unpack-pack (create_pool fees curve fee_bps pool_bump lp_bump) (f, c, h) =
      create_pool_read fees curve fee_bps pool_bump lp_bump f c h
  unpack-pack (initialize_config admin treasury mode) (h, k) =
      number_read 32 admin _ _ h ∙ number_read 32 treasury _ _ k
  unpack-pack (set_treasury treasury) h = number_last 32 treasury _ h
  unpack-pack (transfer_admin pending_admin) h = number_last 32 pending_admin _ h
  unpack-pack (set_pool_creation mode) h = refl
