-- ===== src/Binary.antt =====
-- Emission and retrieval of byte code in a block of a Sieve binary
-- (src/lib-sieve/sieve-binary-code.c, and the inline readers of sieve-binary.h).
--
-- A block's data is a `buffer_t` of Dovecot's core library, which is not part of the repository:
-- the record `Buffer` holds the two operations the emitters call, with their documented effect.
-- The readers work on the bytes `code` that ADDR_CODE_READ takes from the block; a byte is a number
-- below 256. `sieve_size_t` is as wide as a pointer, so an address inside a block cannot wrap.
pub mod Integer
pub mod Reader
pub mod Text
pub mod Offset
use pigeonhole.Prelude.{
  ℕ, zero, suc, ◌+◌, ◌-◌, ◌*◌, ◌/◌, ◌%◌, ◌^◌, ◌≤◌, bit_and, bit_or, ◌≡◌, ◌&&◌, Option, none, some,
  List, [], ◌∷◌, ◌++◌, length, get_elem?, take, drop, ltb, leb, ◌==◌, if◌then◌else◌, arith,
}
use pigeonhole.Prelude.Int.{ℤ, pos, negsuc}

pub record Buffer : Type 1 where
  pub Buf : Type 0
  pub bytes : Buf → List ℕ
  pub append : Buf → List ℕ → Buf
  pub write : Buf → ℕ → List ℕ → Buf
  pub bytes-append : (b : Buf) (d : List ℕ) → bytes (append b d) ≡ bytes b ++ d
  pub bytes-write :
      (b : Buf) (a : ℕ) (d : List ℕ)
      → a + length d ≤ length (bytes b)
      → bytes (write b a d) ≡ take a (bytes b) ++ d ++ drop (a + length d) (bytes b)

-- What a reader returns: TRUE with the new address and the value, FALSE with the address it has
-- come to, or `fault` for a read of a byte behind the end of the data.
pub data Read {ℓ} (A : Type ℓ) : Type ℓ where
  ok : ℕ → A → Read A
  refused : ℕ → Read A
  fault : Read A

abbrev pub then_read {ℓ κ} : {A : Type ℓ} {B : Type κ} → Read A → (ℕ → A → Read B) → Read B
then_read (ok a x) f = f a x
then_read (refused a) f = refused a
then_read fault f = fault

-- strlen: a C string's memory up to the first NUL.
unfoldable pub strlen : List ℕ → ℕ
strlen [] = 0
strlen (c ∷ cs) = if c == 0 then 0 else suc (strlen cs)

-- The bytes of `offset`, highest first: round `i` stores the low byte in front of the others.
unfoldable pub offset_bytes : ℕ → ℕ → List ℕ → List ℕ
offset_bytes zero offset encoded = encoded
offset_bytes (suc i) offset encoded = offset_bytes i (offset / 256) ((offset % 256) ∷ encoded)

-- The groups of seven bits are written from the end of an array of `sizeof(sieve_number_t) + 1`
-- bytes; `free` is `bufpos + 1`, the number of array elements in front of the written ones, and
-- `none` is a write to `buffer[-1]`.
pub fill_groups : ℕ → ℕ → List ℕ → Option (List ℕ)
fill_groups free zero out = some out
fill_groups zero (suc n) out = none
fill_groups (suc free) (suc n) out =
    fill_groups free (suc n / 128) (bit_or (bit_and (suc n) 0x7f) 0x80 ∷ out)

pub encode_integer : ℕ → Option (List ℕ)
encode_integer integer = fill_groups 8 (integer / 128) (bit_and integer 0x7f ∷ [])

module _ (B : Buffer) where
  open B use {Buf, bytes, append, write}

  abbrev pub block_size : Buf → ℕ
  block_size b = length (bytes b)

  abbrev pub emit_data : Buf → List ℕ → Buf × ℕ
  emit_data b d = (append b d, block_size b)

  unfoldable pub emit_byte : Buf → ℕ → Buf × ℕ
  emit_byte b byte = (append b (byte ∷ []), block_size b)

  unfoldable pub update_data : Buf → ℕ → List ℕ → Buf
  update_data b address d = write b address d

  unfoldable pub emit_offset : Buf → ℕ → Buf × ℕ
  emit_offset b offset = (append b (offset_bytes 4 offset []), block_size b)

  -- `none` is a failed assertion; an offset is a uint32_t.
  unfoldable pub resolve_offset : Buf → ℕ → Option Buf
  resolve_offset b address =
      if ltb address (block_size b) && leb (block_size b - address) (2 ^ 32 - 1)
      then some (update_data b address (offset_bytes 4 (block_size b - address) []))
      else none

  unfoldable pub emit_integer : Buf → ℕ → Option (Buf × ℕ)
  emit_integer b integer = elim (encode_integer integer) [
    | none ↦ none
    | some encoded ↦ some (append b encoded, block_size b)
  ]

  unfoldable pub emit_dynamic_data : Buf → List ℕ → Option (Buf × ℕ)
  emit_dynamic_data b d = elim (emit_integer b (length d)) [
    | none ↦ none
    | some (b', address) ↦ some (append b' d, address)
  ]

  unfoldable pub emit_string : Buf → List ℕ → Option (Buf × ℕ)
  emit_string b str = elim (emit_dynamic_data b str) [
    | none ↦ none
    | some (b', address) ↦ some ((emit_byte b' 0).0, address)
  ]

  abbrev pub emit_cstring : Buf → List ℕ → Option (Buf × ℕ)
  emit_cstring b str = elim (emit_dynamic_data b (take (strlen str) str)) [
    | none ↦ none
    | some (b', address) ↦ some ((emit_byte b' 0).0, address)
  ]

abbrev pub bytes_left : List ℕ → ℕ → ℕ
bytes_left code address = if ltb (length code) address then 0 else length code - address

-- `_code[address]`, handed to what follows.
abbrev pub fetch {ℓ} : {A : Type ℓ} → List ℕ → ℕ → (ℕ → Read A) → Read A
fetch code address next = elim (get_elem? code address) [ none ↦ fault | some b ↦ next b ]

-- (int8_t)
abbrev pub int8 : ℕ → ℤ
int8 b = if ltb b 128 then pos b else negsuc (255 - b)

abbrev pub read_byte : List ℕ → ℕ → Read ℕ
read_byte code address =
    if leb 1 (bytes_left code address)
    then fetch code address (λ b. ok (address + 1) b)
    else refused address

abbrev pub read_code : List ℕ → ℕ → Read ℤ
read_code code address =
    if leb 1 (bytes_left code address)
    then fetch code address (λ b. ok (address + 1) (int8 b))
    else refused address

-- `offs << 8` and the sum are uint32_t.
unfoldable pub offset_loop : ℕ → List ℕ → ℕ → ℕ → Read ℕ
offset_loop zero code address offs = ok address offs
offset_loop (suc i) code address offs =
    fetch code address (λ b. offset_loop i code (address + 1) ((offs * 256 % 2 ^ 32 + b) % 2 ^ 32))

unfoldable pub read_offset : List ℕ → ℕ → Read ℕ
read_offset code address =
    if leb 4 (bytes_left code address) then offset_loop 4 code address 0 else refused address

-- The list is what lies at `address` and behind it. `bits` is only asked for being positive, so it
-- may stop at 0 where the source's goes below.
unfoldable pub integer_loop : List ℕ → ℕ → ℕ → ℕ → Read ℕ
integer_loop [] address bits integer = fault
integer_loop (b ∷ rest) address bits integer =
    let more =
      integer_loop rest (address + 1) (bits - 7) (bit_or integer (bit_and b 0x7f) * 128 % 2 ^ 64) in
    if ltb 0 (bit_and b 0x80)
    then if ltb 0 bits then more else refused address
    else ok (address + 1) (bit_or integer (bit_and b 0x7f))

unfoldable pub read_integer : List ℕ → ℕ → Read ℕ
read_integer code address =
    if bytes_left code address == 0
    then refused address
    else integer_loop (drop address code) address 64 0

-- `unsigned int` keeps the low 32 bits.
abbrev pub read_unsigned : List ℕ → ℕ → Read ℕ
read_unsigned code address = then_read (read_integer code address) (λ a n. ok a (n % 2 ^ 32))

unfoldable pub read_string : List ℕ → ℕ → Read (List ℕ)
read_string code address = then_read (read_unsigned code address) (λ a n.
    if ltb (bytes_left code a) n
    then refused a
    else fetch code (a + n)
        (λ c. if c == 0 then ok (a + n + 1) (take n (drop a code)) else refused (a + n)))
