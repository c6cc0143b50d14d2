-- ===== src/Convert/Defs.antt =====
-- src/Util.cpp: the function convert. A character is its code.
use generic_server.Prelude.{
  ℕ, zero, suc, ◌+◌, ◌-◌, ◌/◌, ◌%◌, Bool, false, Option, none, some, List, [], ◌∷◌, ◌++◌, get_elem?,
  if◌then◌else◌, ◌==◌, ◌>>=◌,
}
use generic_server.Prelude.Int.{ℤ, pos, negsuc, pos_part, neg_part}
use mathlib.Core.List.{reverse}

-- The array `digits`, in which `zero` points at index 9.
abbrev pub digits : List ℕ
digits =
    b'9' ∷ b'8' ∷ b'7' ∷ b'6' ∷ b'5' ∷ b'4' ∷ b'3' ∷ b'2' ∷ b'1' ∷ b'0' ∷ b'1' ∷ b'2' ∷ b'3' ∷ b'4'
    ∷ b'5' ∷ b'6' ∷ b'7' ∷ b'8' ∷ b'9' ∷ []

-- `zero[i % 10]`: the remainder has the sign of i.
unfoldable pub last_digit : ℤ → Option ℕ
last_digit (pos n) = get_elem? digits (9 + n % 10)
last_digit (negsuc n) = get_elem? digits (9 - suc n % 10)

-- `i / 10`, towards 0.
abbrev pub tenth : ℤ → ℤ
tenth (pos n) = pos (n / 10)
tenth (negsuc n) = if suc n / 10 == 0 then pos 0 else negsuc (suc n / 10 - 1)

abbrev pub is_zero : ℤ → Bool
is_zero (pos n) = n == 0
is_zero (negsuc n) = false

-- The do loop: the characters that it writes, the last digit first. `none` is a read outside the
-- array, or that the fuel ran out.
unfoldable pub convert_loop : ℕ → ℤ → Option (List ℕ)
convert_loop zero i = none
convert_loop (suc fuel) i = do
  c ← last_digit i
  let rest = convert_loop fuel (tenth i)
  if is_zero (tenth i) then some (c ∷ []) else (do cs ← rest; some (c ∷ cs))

-- A number has fewer digits than its size counts, and one digit at least.
abbrev pub fuel_for : ℤ → ℕ
fuel_for i = suc (pos_part i + neg_part i)

-- What convert leaves in the buffer before the final 0; it returns the length.
unfoldable pub convert : ℤ → Option (List ℕ)
convert (pos n) = do cs ← convert_loop (fuel_for (pos n)) (pos n); some (reverse cs)
convert (negsuc n) = do
  cs ← convert_loop (fuel_for (negsuc n)) (negsuc n)
  some (reverse (cs ++ b'-' ∷ []))
