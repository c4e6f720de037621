-- ===== src/Prelude/Bits.antt =====
-- Masks on one byte as arithmetic, and `bit_or` of a multiple of 128 with seven bits.
use Prim.Native.Nat.{
  ℕ, zero, suc, ◌+◌, ◌*◌, ◌/◌, ◌%◌, ◌≤◌, ◌<◌, max, min, bit_and, bit_or, digits, bit_and-bitwise,
  bit_or-bitwise,
}
use mathlib.Core.Path.{◌≡◌, refl, ◌∙◌}
use mathlib.Core.Logic.{◌⊎◌, inl, inr}
use mathlib.Core.Bool.{Bool, true, ◌&&◌}
use native.Mathlib.Omega.{arith}
use pigeonhole.Prelude.Tests.{◌==◌, ==_iff}

-- Two functions compared at each number below a bound.
same_below : (ℕ → ℕ) → (ℕ → ℕ) → ℕ → Bool
same_below f g zero = true
same_below f g (suc bound) = same_below f g bound && (f bound == g bound)

agree_below :
    (f g : ℕ → ℕ) (bound : ℕ) → same_below f g bound ≡ true → (b : ℕ) → b < bound → f b ≡ g b
unfolding same_below
agree_below f g zero checked b small = absurd (omega arith)
agree_below f g (suc bound) checked b small =
    let last : (b < bound) ⊎ (b ≡ bound) = ground arith in
    let below : same_below f g bound ≡ true = ground (arith, checked) in
    let at_last : f bound ≡ g bound = ground (arith, checked, ==_iff (f bound) (g bound)) in
    elim last [ inl smaller ↦ agree_below f g bound below b smaller | inr same ↦ rw same at_last ]

pub top_bit : (b : ℕ) → b < 256 → bit_and b 0x80 ≡ b / 128 * 128
unfolding same_below
top_bit = agree_below _ _ 256 refl

pub set_top_bit : (b : ℕ) → b < 128 → bit_or b 0x80 ≡ b + 128
unfolding same_below
set_top_bit = agree_below _ _ 128 refl

-- What the lowest digits do, for any operation that goes digit by digit.
module _ (leaf : ℕ → ℕ) (op : ℕ → ℕ → ℕ) where
  abbrev on_digits : ℕ → ℕ → ℕ → ℕ
  on_digits rounds x y = digits leaf op rounds x y

  spare_rounds : (x y k l : ℕ) → x ≤ k → x ≤ l → on_digits k x y ≡ on_digits l x y
  spare_rounds (suc x) y (suc k) (suc l) more more' =
      omega (arith, spare_rounds (suc x / 2) (y / 2) k l (omega arith) (omega arith))
  spare_rounds (suc x) y (suc k) zero more more' = absurd (omega arith)
  spare_rounds (suc x) y zero l more more' = absurd (omega arith)
  spare_rounds zero y (suc k) (suc l) more more' = refl
  spare_rounds zero y (suc k) zero more more' = refl
  spare_rounds zero y zero (suc l) more more' = refl
  spare_rounds zero y zero zero more more' = refl

  lowest_digit :
      (x y : ℕ)
      → on_digits (suc x) (suc x) y
        ≡ on_digits (suc x / 2) (suc x / 2) (y / 2) * 2 + op (suc x % 2) (y % 2)
  lowest_digit x y =
      omega (arith, spare_rounds (suc x / 2) (y / 2) x (suc x / 2) (omega arith) (omega arith))

bit_or_step : (x y : ℕ) → bit_or x y ≡ bit_or (x / 2) (y / 2) * 2 + max (x % 2) (y % 2)
bit_or_step zero y = omega (arith, bit_or-bitwise 0 y, bit_or-bitwise 0 (y / 2))
bit_or_step (suc x) y =
    bit_or-bitwise (suc x) y
    ∙ lowest_digit (λ c. c) max x y
    ∙ omega (arith, bit_or-bitwise (suc x / 2) (y / 2))

-- `rounds` halvings reach all digits of a number that is not larger.
or_nothing : (rounds x : ℕ) → x ≤ rounds → bit_or x 0 ≡ x
or_nothing rounds zero bound = refl
or_nothing (suc rounds) (suc x) bound =
    omega (arith, or_nothing rounds (suc x / 2) (omega arith), bit_or_step (suc x) 0)
or_nothing zero (suc x) bound = absurd (omega arith)

bit_or-zero : (x : ℕ) → bit_or x 0 ≡ x
bit_or-zero x = or_nothing x x (omega arith)

bit_or_even : (k g : ℕ) → bit_or (k * 2) g ≡ bit_or k (g / 2) * 2 + g % 2
bit_or_even k g = bit_or_step (k * 2) g ∙ rw halve (omega arith)
  where
    halve : k * 2 / 2 ≡ k
    halve = omega arith

or_one_bit : (k g : ℕ) → g < 2 → bit_or (k * 2) g ≡ k * 2 + g
or_one_bit k g h = bit_or_even k g ∙ rw (low, bit_or-zero) (omega arith)
  where
    low : g / 2 ≡ 0
    low = omega arith

or_step :
    (m k g : ℕ) → bit_or (k * m) (g / 2) ≡ k * m + g / 2 → bit_or (k * (m * 2)) g ≡ k * (m * 2) + g
or_step m k g ih = rw regroup (bit_or_even (k * m) g ∙ rw ih (omega arith))
  where
    regroup : k * (m * 2) ≡ k * m * 2
    regroup = omega arith

or_two_bits : (k g : ℕ) → g < 4 → bit_or (k * 4) g ≡ k * 4 + g
or_two_bits k g h = or_step 2 k g (or_one_bit k (g / 2) (omega arith))

or_three_bits : (k g : ℕ) → g < 8 → bit_or (k * 8) g ≡ k * 8 + g
or_three_bits k g h = or_step 4 k g (or_two_bits k (g / 2) (omega arith))

or_four_bits : (k g : ℕ) → g < 16 → bit_or (k * 16) g ≡ k * 16 + g
or_four_bits k g h = or_step 8 k g (or_three_bits k (g / 2) (omega arith))

or_five_bits : (k g : ℕ) → g < 32 → bit_or (k * 32) g ≡ k * 32 + g
or_five_bits k g h = or_step 16 k g (or_four_bits k (g / 2) (omega arith))

or_six_bits : (k g : ℕ) → g < 64 → bit_or (k * 64) g ≡ k * 64 + g
or_six_bits k g h = or_step 32 k g (or_five_bits k (g / 2) (omega arith))

-- The low seven bits of a multiple of 128 are clear, so `|` fills them in.
pub or_seven_bits : (k g : ℕ) → g < 128 → bit_or (k * 128) g ≡ k * 128 + g
or_seven_bits k g h = or_step 64 k g (or_six_bits k (g / 2) (omega arith))

bit_and_step : (x y : ℕ) → bit_and x y ≡ bit_and (x / 2) (y / 2) * 2 + min (x % 2) (y % 2)
bit_and_step zero y = omega (arith, bit_and-bitwise 0 y, bit_and-bitwise 0 (y / 2))
bit_and_step (suc x) y =
    bit_and-bitwise (suc x) y
    ∙ lowest_digit (λ c. zero) min x y
    ∙ omega (arith, bit_and-bitwise (suc x / 2) (y / 2))

-- `rounds` halvings leave nothing of a number that is not larger.
masked_out : (rounds x : ℕ) → x ≤ rounds → bit_and x 0 ≡ 0
masked_out rounds zero bound = refl
masked_out (suc rounds) (suc x) bound =
    omega (arith, masked_out rounds (suc x / 2) (omega arith), bit_and_step (suc x) 0)
masked_out zero (suc x) bound = absurd (omega arith)

low_bit : (a : ℕ) → bit_and a 1 ≡ a % 2
low_bit a = omega (arith, bit_and_step a 1, masked_out (a / 2) (a / 2) (omega arith))

low_three_bits : (a : ℕ) → bit_and a 7 ≡ a % 8
low_three_bits a = omega (arith, bit_and_step a 7, bit_and_step (a / 2) 3, low_bit (a / 2 / 2))

low_five_bits : (a : ℕ) → bit_and a 31 ≡ a % 32
low_five_bits a =
    omega (arith, bit_and_step a 31, bit_and_step (a / 2) 15, low_three_bits (a / 2 / 2))

-- `n & 0x7f`, at any width.
pub low_seven_bits : (a : ℕ) → bit_and a 0x7f ≡ a % 128
low_seven_bits a =
    omega (arith, bit_and_step a 127, bit_and_step (a / 2) 63, low_five_bits (a / 2 / 2))
