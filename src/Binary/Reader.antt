-- ===== src/Binary/Reader.antt =====
-- The integer reader on any bytes: its bounds, and when it reads behind the end of the data.
use pigeonhole.Prelude.{
  ℕ, ◌+◌, ◌-◌, ◌*◌, ◌%◌, ◌^◌, ◌≤◌, ◌<◌, bit_and, bit_or, ◌≡◌, refl, ◌↔◌, List, [], ◌∷◌, length,
  length-drop, drop, All, arith,
}
use pigeonhole.Prelude.Bits.{low_seven_bits, top_bit, or_seven_bits}
use pigeonhole.Binary.{ok, fault, integer_loop, read_integer}

abbrev pub IsByte : ℕ → Type 0
IsByte b = b < 256

-- A byte that announces another one.
abbrev pub IsContinued : ℕ → Type 0
IsContinued b = 128 ≤ b

-- The value that goes into the next round is again a multiple of 128.
next_value :
    (k b : ℕ)
    → k * 128 < 2 ^ 64
    → bit_or (k * 128) (bit_and b 0x7f) * 128 % 2 ^ 64 ≡ (k * 128 + b % 128) % 2 ^ 57 * 128
next_value k b h = rw (low_seven_bits, or_seven_bits k (b % 128) (omega arith)) (omega arith)

last_value : (k b : ℕ) → k * 128 < 2 ^ 64 → bit_or (k * 128) (bit_and b 0x7f) < 2 ^ 64
last_value k b h = rw (low_seven_bits, or_seven_bits k (b % 128) (omega arith)) (omega arith)

loop_bounds :
    (code : List ℕ) (a bits k a' n : ℕ)
    → k * 128 < 2 ^ 64
    → integer_loop code a bits (k * 128) ≡ ok a' n
    → (n < 2 ^ 64) × (a < a') × (a' ≤ a + length code) × (7 * (a' - a) < bits + 14)
unfolding integer_loop
loop_bounds [] a bits k a' n h e = cc
loop_bounds (b ∷ rest) a bits k a' n h e = ground (
  arith,
  next_value k b h,
  last_value k b h,
  loop_bounds rest (a + 1) (bits - 7) ((k * 128 + b % 128) % 2 ^ 57) a' n,
)

-- A number that is read is below 2^64, and the reader takes between one and eleven bytes, all of them
-- inside the code.
pub read_integer_bounds :
    (code : List ℕ) (a a' n : ℕ)
    → read_integer code a ≡ ok a' n
    → (n < 2 ^ 64) × (a < a') × (a' ≤ length code) × (a' ≤ a + 11)
unfolding read_integer
read_integer_bounds code a a' n e =
    ground (arith, length-drop a code, loop_bounds (drop a code) a 64 0 a' n)

loop-fault→ :
    (code : List ℕ) (a bits n : ℕ)
    → All IsByte code
    → integer_loop code a bits n ≡ fault
    → All IsContinued code × (7 * length code < bits + 7)
unfolding integer_loop
loop-fault→ [] a bits n h e = (tt, omega arith)
loop-fault→ (b ∷ rest) a bits n h e = ground (
  arith,
  top_bit b,
  loop-fault→ rest (a + 1) (bits - 7) (bit_or n (bit_and b 0x7f) * 128 % 2 ^ 64),
)

loop-fault← :
    (code : List ℕ) (a bits n : ℕ)
    → All IsByte code
    → All IsContinued code
    → 7 * length code < bits + 7
    → integer_loop code a bits n ≡ fault
unfolding integer_loop
loop-fault← [] a bits n h c l = refl
loop-fault← (b ∷ rest) a bits n h c l = ground (
  arith,
  top_bit b,
  loop-fault← rest (a + 1) (bits - 7) (bit_or n (bit_and b 0x7f) * 128 % 2 ^ 64),
)

-- In a block of bytes, reading behind the end happens exactly if at least one byte is left at the address, all bytes from
-- there on are continued, and there are at most ten of them; no other code makes the reader do so.
pub read_integer-fault_iff :
    (code : List ℕ) (a : ℕ)
    → All IsByte (drop a code)
    → (read_integer code a ≡ fault)
      ↔ (a < length code) × All IsContinued (drop a code) × (length code ≤ a + 10)
unfolding read_integer
read_integer-fault_iff code a h = (
  λ e. ground (arith, length-drop a code, loop-fault→ (drop a code) a 64 0 h),
  λ p. ground (arith, length-drop a code, loop-fault← (drop a code) a 64 0 h p.1),
)
