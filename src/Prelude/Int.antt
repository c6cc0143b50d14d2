-- ===== src/Prelude/Int.antt =====
-- Signed numbers: the `int` results of system calls and the lengths that callers pass.
use Prim.Native.Nat.{ℕ, ◌+◌, ◌-◌, ◌<◌, min}
use mathlib.Core.Path.{◌≡◌}
use native.Mathlib.Omega.{arith}
use mathlib.Core.Bool.{Bool}
use generic_server.Prelude.Tests.{leb, if◌then◌else◌}

-- `negsuc n` is -(n + 1).
pub data ℤ : Type 0 where
  pos : ℕ → ℤ
  negsuc : ℕ → ℤ

abbrev pub pos_part : ℤ → ℕ
pos_part (pos n) = n
pos_part (negsuc n) = 0

abbrev pub neg_part : ℤ → ℕ
neg_part (pos n) = 0
neg_part (negsuc n) = n + 1

-- a - b, as an integer.
abbrev pub sub_ℕ : ℕ → ℕ → ℤ
sub_ℕ a b = if leb b a then pos (a - b) else negsuc (b - a - 1)

infixl 65 ◌-ℤ◌
abbrev pub ◌-ℤ◌ : ℤ → ℤ → ℤ
a -ℤ b = sub_ℕ (pos_part a + neg_part b) (neg_part a + pos_part b)

abbrev pub leb_ℤ : ℤ → ℤ → Bool
leb_ℤ a b = leb (pos_part a + neg_part b) (pos_part b + neg_part a)

-- `std::min` on `int`.
abbrev pub min_ℤ : ℤ → ℤ → ℤ
min_ℤ a b = if leb_ℤ a b then a else b

pub min_ℤ-pred : (a b : ℕ) → 0 < b → min_ℤ (pos a) (pos b -ℤ pos 1) ≡ pos (min a (b - 1))
min_ℤ-pred a b h = ground arith

pub min_ℤ-neg : (a : ℕ) → min_ℤ (pos a) (pos 0 -ℤ pos 1) ≡ negsuc 0
min_ℤ-neg a = ground arith
