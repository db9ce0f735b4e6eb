-- ===== src/Common/Bits.antt =====
-- Masking by a power of two less one: the ring's index mask.
use Prim.Native.Nat.{ℕ, zero, suc, ◌+◌, ◌*◌, ◌/◌, ◌%◌, ◌≤◌, min, bit_and, digits, bit_and-bitwise}
use mathlib.Core.Path.{◌≡◌, refl}
use native.Mathlib.Omega.{arith}

-- The recursion on digits that `bit_and` stands for; any fuel from the first number on will do.
abbrev masked : ℕ → ℕ → ℕ → ℕ
masked fuel a m = digits (λ _. zero) min fuel a m

masked_fuel : (f g a m : ℕ) → a ≤ f → a ≤ g → masked f a m ≡ masked g a m
masked_fuel zero zero a m p q = refl
masked_fuel (suc f) (suc g) (suc a) m p q =
    omega (arith, masked_fuel f g (suc a / 2) (m / 2) (omega arith) (omega arith))
masked_fuel zero (suc g) zero m p q = refl
masked_fuel (suc f) zero zero m p q = refl
masked_fuel (suc f) (suc g) zero m p q = refl
masked_fuel zero (suc g) (suc a) m p q = absurd (omega arith)
masked_fuel (suc f) zero (suc a) m p q = absurd (omega arith)

-- One binary digit.
mask_step : (a m : ℕ) → bit_and a m ≡ bit_and (a / 2) (m / 2) * 2 + min (a % 2) (m % 2)
mask_step zero m = omega (arith, bit_and-bitwise 0 m, bit_and-bitwise 0 (m / 2))
mask_step (suc a) m = omega (
  arith,
  masked_fuel a (suc a / 2) (suc a / 2) (m / 2) (omega arith) (omega arith),
  bit_and-bitwise (suc a / 2) (m / 2),
  bit_and-bitwise (suc a) m,
)

no_mask_fuel : (f a : ℕ) → a ≤ f → bit_and a 0 ≡ 0
no_mask_fuel f zero h = refl
no_mask_fuel zero (suc a) h = absurd (omega arith)
no_mask_fuel (suc f) (suc a) h = omega (arith, no_mask_fuel f (suc a / 2), mask_step (suc a) 0)

mask1 : (a : ℕ) → bit_and a 1 ≡ a % 2
mask1 a = omega (arith, mask_step a 1, no_mask_fuel (a / 2) (a / 2) (omega arith))

mask3 : (a : ℕ) → bit_and a 3 ≡ a % 4
mask3 a = omega (arith, mask_step a 3, mask1 (a / 2))

mask7 : (a : ℕ) → bit_and a 7 ≡ a % 8
mask7 a = omega (arith, mask_step a 7, mask3 (a / 2))

mask15 : (a : ℕ) → bit_and a 15 ≡ a % 16
mask15 a = omega (arith, mask_step a 15, mask7 (a / 2))

mask31 : (a : ℕ) → bit_and a 31 ≡ a % 32
mask31 a = omega (arith, mask_step a 31, mask15 (a / 2))

mask63 : (a : ℕ) → bit_and a 63 ≡ a % 64
mask63 a = omega (arith, mask_step a 63, mask31 (a / 2))

mask127 : (a : ℕ) → bit_and a 127 ≡ a % 128
mask127 a = omega (arith, mask_step a 127, mask63 (a / 2))

mask255 : (a : ℕ) → bit_and a 255 ≡ a % 256
mask255 a = omega (arith, mask_step a 255, mask127 (a / 2))

mask511 : (a : ℕ) → bit_and a 511 ≡ a % 512
mask511 a = omega (arith, mask_step a 511, mask255 (a / 2))

pub bit_and-ten_ones : (a : ℕ) → bit_and a 1023 ≡ a % 1024
bit_and-ten_ones a = omega (arith, mask_step a 1023, mask511 (a / 2))
