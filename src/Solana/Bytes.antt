-- ===== src/Solana/Bytes.antt =====
-- Little-endian bytes: `to_le_bytes` and `from_le_bytes` at any width, and slices of a buffer.
use rome_dex.Base.{
  ℕ, zero, suc, ◌+◌, ◌*◌, ◌-◌, ◌/◌, ◌%◌, ◌^◌, ◌<◌, ◌≡◌, refl, List, [], ◌∷◌, ◌++◌, arith,
}
use native.Mathlib.Nat.{pow-suc}

module _ {ℓ} {A : Type ℓ} where
  abbrev pub length : List A → ℕ
  length [] = 0
  length (x ∷ xs) = suc (length xs)

  abbrev pub take : ℕ → List A → List A
  take zero xs = []
  take (suc n) [] = []
  take (suc n) (x ∷ xs) = x ∷ take n xs

  abbrev pub drop : ℕ → List A → List A
  drop zero xs = xs
  drop (suc n) [] = []
  drop (suc n) (x ∷ xs) = drop n xs

  pub length-append : (xs ys : List A) → length (xs ++ ys) ≡ length xs + length ys
  length-append [] ys = omega arith
  length-append (x ∷ xs) ys = omega (arith, length-append xs ys)

  pub length-drop : (n : ℕ) (xs : List A) → length (drop n xs) ≡ length xs - n
  length-drop zero xs = omega arith
  length-drop (suc n) [] = omega arith
  length-drop (suc n) (x ∷ xs) = omega (arith, length-drop n xs)

unfoldable pub le_bytes : ℕ → ℕ → List ℕ
le_bytes zero x = []
le_bytes (suc w) x = (x % 256) ∷ le_bytes w (x / 256)

unfoldable pub from_le_bytes : List ℕ → ℕ
from_le_bytes [] = 0
from_le_bytes (b ∷ bs) = b + 256 * from_le_bytes bs

pub length-le_bytes : (w x : ℕ) → length (le_bytes w x) ≡ w
unfolding le_bytes
length-le_bytes zero x = refl
length-le_bytes (suc w) x = omega (arith, length-le_bytes w (x / 256))

pub take-le_bytes : (w x : ℕ) (rest : List ℕ) → take w (le_bytes w x ++ rest) ≡ le_bytes w x
unfolding le_bytes
take-le_bytes zero x rest = refl
take-le_bytes (suc w) x rest = rw (take-le_bytes w (x / 256) rest)

pub drop-le_bytes : (w x : ℕ) (rest : List ℕ) → drop w (le_bytes w x ++ rest) ≡ rest
unfolding le_bytes
drop-le_bytes zero x rest = refl
drop-le_bytes (suc w) x rest = drop-le_bytes w (x / 256) rest

pub from_le_bytes-le_bytes : (w x : ℕ) → x < 256 ^ w → from_le_bytes (le_bytes w x) ≡ x
unfolding le_bytes from_le_bytes
from_le_bytes-le_bytes zero x h = omega arith
from_le_bytes-le_bytes (suc w) x h =
    omega (arith, from_le_bytes-le_bytes w (x / 256) (grind (arith, pow-suc)))
