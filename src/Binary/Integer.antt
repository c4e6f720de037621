-- ===== src/Binary/Integer.antt =====
-- Integers as 7-bit groups: what sieve_binary_emit_integer writes, when it leaves its array, and
-- what sieve_binary_read_integer makes of it.
use pigeonhole.Prelude.{
  ℕ, zero, suc, ◌+◌, ◌-◌, ◌*◌, ◌/◌, ◌%◌, ◌^◌, ◌≤◌, ◌<◌, bit_and, bit_or, ◌≡◌, refl, ◌∙◌, ◌↔◌, none,
  some, List, [], ◌∷◌, ◌++◌, append_assoc, length, length-append, drop-append, Option-cases, inl,
  inr, arith,
}
use native.Mathlib.Nat.{pow-succ'}
use native.Mathlib.Decide.{dec_lt}
use pigeonhole.Prelude.Bits.{low_seven_bits, top_bit, set_top_bit, or_seven_bits}
use pigeonhole.Binary.{
  Buffer, Read, ok, fill_groups, encode_integer, emit_integer, integer_loop, read_integer,
}

-- One round of the reader on a byte with the top bit set over the group `g`, and on a last byte.
inner_round :
    (g : ℕ) (rest : List ℕ) (a bits k : ℕ)
    → g < 128
    → 0 < bits
    → k * 128 * 128 < 2 ^ 64
    → integer_loop ((g + 128) ∷ rest) a bits (k * 128)
      ≡ integer_loop rest (a + 1) (bits - 7) ((k * 128 + g) * 128 % 2 ^ 64)
unfolding integer_loop
inner_round g rest a bits k hg hb hk =
    ground (arith, low_seven_bits (g + 128), top_bit (g + 128), or_seven_bits k g)

last_round :
    (g : ℕ) (rest : List ℕ) (a bits k : ℕ)
    → g < 128
    → integer_loop (g ∷ rest) a bits (k * 128) ≡ ok (a + 1) (k * 128 + g)
unfolding integer_loop
last_round g rest a bits k hg = ground (arith, low_seven_bits g, top_bit g, or_seven_bits k g)

group_byte : (n : ℕ) → bit_or (bit_and n 0x7f) 0x80 ≡ n % 128 + 128
group_byte n = rw low_seven_bits (set_top_bit (n % 128) (omega arith))

loop_at :
    (rest : List ℕ) {a a' bits bits' k k' : ℕ}
    → a ≡ a'
    → bits ≡ bits'
    → k ≡ k'
    → integer_loop rest a bits k ≡ integer_loop rest a' bits' k'
loop_at rest p q r = cc

-- The round that takes the lowest group of `n`, after `g` groups above it.
group_round :
    (n g a : ℕ) (rest : List ℕ)
    → n < 2 ^ 57
    → g ≤ 8
    → integer_loop (bit_or (bit_and n 0x7f) 0x80 ∷ rest) (a + g) (64 - 7 * g) (n / 128 * 128)
      ≡ integer_loop rest (a + suc g) (64 - 7 * suc g) (n * 128)
group_round n g a rest hn hg = rw group_byte (
    inner_round (n % 128) rest (a + g) (64 - 7 * g) (n / 128) (omega arith) (omega arith)
      (omega arith)
    ∙ loop_at rest (omega arith) (omega arith) (omega arith))

-- What the reader has after the groups of `n` in front of `out`.
read_groups :
    (free n : ℕ) (out out' : List ℕ)
    → free ≤ 8
    → n < 2 ^ 57
    → fill_groups free n out ≡ some out'
    → (g : ℕ) × (g ≤ free)
      × (length out' ≡ g + length out)
      × ((rest : List ℕ) (a : ℕ)
          → integer_loop (out' ++ rest) a 64 0
            ≡ integer_loop (out ++ rest) (a + g) (64 - 7 * g) (n * 128))
unfolding fill_groups
read_groups free zero out out' hf hn e =
    let same : out' ≡ out = cc in
    (
      0,
      omega arith,
      rw same (omega arith),
      λ rest a. rw same (loop_at (out ++ rest) (omega arith) (omega arith) (omega arith)),
    )
read_groups zero (suc n) out out' hf hn e = cc
read_groups (suc free) (suc n) out out' hf hn e =
    let (g, hg, hl, hr) =
      read_groups free (suc n / 128) (bit_or (bit_and (suc n) 0x7f) 0x80 ∷ out) out' (omega arith)
        (omega arith) e in
    (
      suc g,
      omega arith,
      omega arith,
      λ rest a. hr rest a ∙ group_round (suc n) g a (out ++ rest) hn (omega arith),
    )

-- The array holds the groups of `n` exactly if there are no more of them than free elements.
pub fill_groups-fits :
    (free n : ℕ) (out : List ℕ)
    → n < 128 ^ free
    → (out' : List ℕ) × (fill_groups free n out ≡ some out')
unfolding fill_groups
fill_groups-fits free zero out h = (out, refl)
fill_groups-fits zero (suc n) out h = absurd (omega arith)
fill_groups-fits (suc free) (suc n) out h =
    fill_groups-fits free (suc n / 128) (bit_or (bit_and (suc n) 0x7f) 0x80 ∷ out)
      (omega (arith, pow-succ' 128 free))

power-pos : (k : ℕ) → 1 ≤ 128 ^ k
power-pos zero = omega arith
power-pos (suc k) = omega (arith, pow-succ' 128 k, power-pos k)

pub fill_groups-overflow :
    (free n : ℕ) (out : List ℕ) → 128 ^ free ≤ n → fill_groups free n out ≡ none
unfolding fill_groups
fill_groups-overflow free zero out h = absurd (omega (arith, power-pos free))
fill_groups-overflow zero (suc n) out h = refl
fill_groups-overflow (suc free) (suc n) out h =
    fill_groups-overflow free (suc n / 128) (bit_or (bit_and (suc n) 0x7f) 0x80 ∷ out)
      (omega (arith, pow-succ' 128 free))

-- A number below 2^63 is written, a larger one is a write in front of the array, and nothing else
-- happens.
pub encode_integer_iff : (n : ℕ) → (encode_integer n ≡ none) ↔ (2 ^ 63 ≤ n)
unfolding encode_integer
encode_integer_iff n = (too_large, λ h. fill_groups-overflow 8 (n / 128) _ (omega arith))
  where
    too_large : fill_groups 8 (n / 128) (bit_and n 0x7f ∷ []) ≡ none → 2 ^ 63 ≤ n
    too_large e = elim (dec_lt n (2 ^ 63)) [
      | yes small ↦
          let (out', fits) = fill_groups-fits 8 (n / 128) (bit_and n 0x7f ∷ []) (omega arith) in
          cc (fits, e)
      | no large ↦ omega arith
    ]

pub encoded_small : (n : ℕ) {encoded : List ℕ} → encode_integer n ≡ some encoded → n < 2 ^ 63
encoded_small n e = elim (dec_lt n (2 ^ 63)) [
  | yes small ↦ small
  | no large ↦ let h = (encode_integer_iff n).1 (omega arith) in cc
]

ok_at : {a a' n n' : ℕ} → a ≡ a' → n ≡ n' → Read.ok a n ≡ ok a' n'
ok_at p q = cc

-- The reader takes exactly the bytes of an encoding, whatever follows them.
pub read-encode :
    (n : ℕ) (encoded rest : List ℕ) (a : ℕ)
    → encode_integer n ≡ some encoded
    → integer_loop (encoded ++ rest) a 64 0 ≡ ok (a + length encoded) n
unfolding encode_integer
read-encode n encoded rest a e =
    let small : n < 2 ^ 63 = encoded_small n e in
    let (g, hg, hl, hr) = read_groups 8 (n / 128) _ encoded (omega arith) (omega arith) e in
    hr rest a
    ∙ rw low_seven_bits (
        last_round (n % 128) rest (a + g) (64 - 7 * g) (n / 128) (omega arith)
        ∙ ok_at (omega arith) (omega arith))

length-encode : (n : ℕ) (encoded : List ℕ) → encode_integer n ≡ some encoded → 1 ≤ length encoded
unfolding encode_integer
length-encode n encoded e =
    let small : n < 2 ^ 63 = encoded_small n e in
    let (g, hg, hl, hr) = read_groups 8 (n / 128) _ encoded (omega arith) (omega arith) e in
    omega arith

length-fill_groups :
    (free n : ℕ) (out encoded : List ℕ)
    → fill_groups free n out ≡ some encoded
    → length encoded ≤ free + length out
unfolding fill_groups
length-fill_groups zero zero out encoded e = let same : out ≡ encoded = cc in rw same (omega arith)
length-fill_groups (suc free) zero out encoded e =
    let same : out ≡ encoded = cc in rw same (omega arith)
length-fill_groups zero (suc n) out encoded e = absurd (ground (arith, e))
length-fill_groups (suc free) (suc n) out encoded e =
    omega (arith, length-fill_groups free (suc n / 128) _ encoded e)

-- An encoded number takes at most nine bytes.
pub length-encode_le :
    (n : ℕ) (encoded : List ℕ) → encode_integer n ≡ some encoded → length encoded ≤ 9
unfolding encode_integer
length-encode_le n encoded e = length-fill_groups 8 (n / 128) _ encoded e

pub read_integer-encode :
    (front encoded rest : List ℕ) (n : ℕ)
    → encode_integer n ≡ some encoded
    → read_integer (front ++ (encoded ++ rest)) (length front)
      ≡ ok (length front + length encoded) n
unfolding read_integer
read_integer-encode front encoded rest n e = ground (
  arith,
  length-append front (encoded ++ rest),
  length-append encoded rest,
  length-encode n encoded e,
  drop-append front (encoded ++ rest),
  read-encode n encoded rest (length front) e,
)

pub encode_some : (n : ℕ) → n < 2 ^ 63 → (encoded : List ℕ) × (encode_integer n ≡ some encoded)
encode_some n h = elim (Option-cases (encode_integer n)) [
  | inl e ↦ absurd (omega (arith, (encode_integer_iff n).0 e))
  | inr found ↦ found
]

module _ (B : Buffer) where
  open B use {Buf, bytes, append, bytes-append}

  -- A number below 2^63 is emitted at the end of the block, and reading at the returned address
  -- gives it back and ends where the block ended, whatever is emitted behind it.
  pub read-emit_integer :
      (b : Buf) (n : ℕ) (rest : List ℕ)
      → n < 2 ^ 63
      → (b' : Buf) × (emit_integer B b n ≡ some (b', length (bytes b)))
        × (read_integer (bytes b' ++ rest) (length (bytes b)) ≡ ok (length (bytes b')) n)
  unfolding emit_integer
  read-emit_integer b n rest h =
      let (encoded, e) = encode_some n h in
      (
        append b encoded,
        rw (e, emit_integer),
        rw (bytes-append, append_assoc, length-append)
            (read_integer-encode (bytes b) encoded rest n e),
      )

  -- The emitter writes in front of its array exactly if the number is 2^63 or more.
  pub emit_integer-overflow : (b : Buf) (n : ℕ) → (emit_integer B b n ≡ none) ↔ (2 ^ 63 ≤ n)
  unfolding emit_integer
  emit_integer-overflow b n = (
    λ e. (encode_integer_iff n).0 (ground arith),
    λ h. rw ((encode_integer_iff n).1 h, emit_integer),
  )
