-- ===== src/Solana/Codec.antt =====
-- Readers of account data: each takes its bytes from the front, as `array_refs!` cuts them.
use rome_dex.Base.{
  ℕ, ◌+◌, ◌-◌, ◌^◌, ◌<◌, ◌≤◌, ◌≡◌, refl, Bool, true, false, List, ◌++◌, Result, ok, err, panic,
  arith, ltb, ◌==◌, if◌then◌else◌,
}
use rome_dex.Base.Int.{ℤ, pos, negsuc, pos_part, neg_part}
use rome_dex.Solana.Errors.{ProgramError, invalid_account_data}
use rome_dex.Solana.Bytes.{
  length, length-drop, take, drop, le_bytes, from_le_bytes, take-le_bytes, drop-le_bytes,
  from_le_bytes-le_bytes,
}

abbrev pub Reader : Type 0 → Type 0
Reader A = List ℕ → Result ProgramError (A × List ℕ)

infixl 5 ◌>>=◌
abbrev pub ◌>>=◌ : {A B : Type 0} → Reader A → (A → Reader B) → Reader B
◌>>=◌ m f input = elim (m input) [ ok (a, rest) ↦ f a rest | err e ↦ err e | panic ↦ panic ]

abbrev pub pure : {A : Type 0} → A → Reader A
pure a input = ok (a, input)

-- An unsigned integer of `w` bytes, or a public key of 32.
unfoldable pub number : ℕ → Reader ℕ
number w input = ok (from_le_bytes (take w input), drop w input)

-- A byte that must be 0 or 1.
unfoldable pub flag : Reader Bool
flag input =
    let byte = from_le_bytes (take 1 input) in
    if byte == 0
    then ok (false, drop 1 input)
    else if byte == 1
    then ok (true, drop 1 input)
    else err invalid_account_data

-- An i64 is stored as its bit pattern, below 2 ^ 64.
abbrev pub pattern_of : ℤ → ℕ
pattern_of (pos n) = n
pattern_of (negsuc n) = 2 ^ 64 - (n + 1)

abbrev pub signed_of : ℕ → ℤ
signed_of n = if ltb n (2 ^ 63) then pos n else negsuc (2 ^ 64 - n - 1)

abbrev pub IsI64 : ℤ → Type 0
IsI64 z = (pos_part z < 2 ^ 63) × (neg_part z ≤ 2 ^ 63)

unfoldable pub signed : Reader ℤ
signed input = ok (signed_of (from_le_bytes (take 8 input)), drop 8 input)

-- `self.is_initialized as u8`
abbrev pub of_bool : Bool → ℕ
of_bool false = 0
of_bool true = 1

-- Reading gives back what was written, and leaves what follows.
pub number-le_bytes :
    {B : Type 0} (w x : ℕ) (rest : List ℕ) (f : ℕ → Reader B)
    → x < 256 ^ w
    → (number w >>= f) (le_bytes w x ++ rest) ≡ f x rest
unfolding number
number-le_bytes w x rest f h =
    rw (take-le_bytes w x rest, drop-le_bytes w x rest, from_le_bytes-le_bytes w x h)

pub flag-le_bytes :
    {B : Type 0} (b : Bool) (rest : List ℕ) (f : Bool → Reader B)
    → (flag >>= f) (le_bytes 1 (of_bool b) ++ rest) ≡ f b rest
unfolding flag le_bytes from_le_bytes
flag-le_bytes true rest f = refl
flag-le_bytes false rest f = refl

signed_of-pattern_of : (z : ℤ) → IsI64 z → signed_of (pattern_of z) ≡ z
signed_of-pattern_of (pos n) h = ground arith
signed_of-pattern_of (negsuc n) h = ground arith

pattern_of-lt : (z : ℤ) → IsI64 z → pattern_of z < 256 ^ 8
pattern_of-lt (pos n) h = omega arith
pattern_of-lt (negsuc n) h = omega arith

pub signed-le_bytes :
    {B : Type 0} (z : ℤ) (rest : List ℕ) (f : ℤ → Reader B)
    → IsI64 z
    → (signed >>= f) (le_bytes 8 (pattern_of z) ++ rest) ≡ f z rest
unfolding signed
signed-le_bytes z rest f h = rw (
  take-le_bytes 8 (pattern_of z) rest,
  drop-le_bytes 8 (pattern_of z) rest,
  from_le_bytes-le_bytes 8 (pattern_of z) (pattern_of-lt z h),
  signed_of-pattern_of z h,
)

-- What a parse of a prefix of fixed length returns; a shorter buffer panics.
abbrev pub parsed : {A : Type 0} → ℕ → Reader A → List ℕ → Result ProgramError A
parsed len reader input =
    if ltb (length input) len
    then panic
    else elim (reader input) [ ok (a, rest) ↦ ok a | err e ↦ err e | panic ↦ panic ]

-- What is left of a buffer after a write of `len` bytes at its front; a shorter buffer panics.
abbrev pub packed : ℕ → (List ℕ → List ℕ) → List ℕ → Result ProgramError (List ℕ)
packed len bytes output = if ltb (length output) len then panic else ok (bytes (drop len output))

pub parsed_lem :
    {A : Type 0} (len : ℕ) (reader : Reader A) (input rest : List ℕ) (a : A)
    → len ≤ length input
    → reader input ≡ ok (a, rest)
    → parsed len reader input ≡ ok a
parsed_lem len reader input rest a h e = rw e (ground arith)

packed_lem :
    (len : ℕ) (bytes : List ℕ → List ℕ) (output : List ℕ) {b : List ℕ}
    → packed len bytes output ≡ ok b
    → (len ≤ length output) × (bytes (drop len output) ≡ b)
packed_lem len bytes output e = ground arith

-- What is written by `packed` is read back by a reader that inverts it, and the buffer keeps its length.
pub parsed-packed :
    {A : Type 0} (len : ℕ) (reader : Reader A) (bytes : List ℕ → List ℕ) (a : A) (output : List ℕ)
    {b : List ℕ}
    → ((rest : List ℕ) → reader (bytes rest) ≡ ok (a, rest))
    → ((rest : List ℕ) → length (bytes rest) ≡ len + length rest)
    → packed len bytes output ≡ ok b
    → (parsed len reader b ≡ ok a) × (length b ≡ length output)
parsed-packed len reader bytes a output reads measures e =
    let (room, same) = packed_lem len bytes output e in
    let long = measures (drop len output) in
    let tail = length-drop len output in
    rw (← same) (
      parsed_lem len reader (bytes (drop len output)) (drop len output) a (omega arith)
          (reads (drop len output)),
      omega arith,
    )
