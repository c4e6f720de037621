-- ===== src/Tests/Blocks.antt =====
-- Byte code at concrete blocks (src/lib-sieve/sieve-binary-code.c), over a list of bytes.
use pigeonhole.Prelude.{
  ℕ, ◌+◌, ◌^◌, ◌≤◌, ◌<◌, ◌≡◌, refl, ◌↔◌, ◌⊎◌, none, some, List, [], ◌∷◌, ◌++◌, length, take, drop,
  All, arith,
}
use pigeonhole.Binary.{
  Buffer, ok, refused, fault, emit_integer, read_integer, integer_loop, emit_string, read_string,
  read_offset, resolve_offset,
}
use pigeonhole.Binary.Integer.{read-emit_integer, emit_integer-overflow}
use pigeonhole.Binary.Reader.{IsContinued, read_integer_bounds, read_integer-fault_iff}
use pigeonhole.Binary.Text.{read-emit_string}
use pigeonhole.Binary.Offset.{read-resolve_offset, read_offset_cases}

abbrev pub list_buffer : Buffer
list_buffer = record {
  Buf = List ℕ;
  bytes = λ b. b;
  append = λ b d. b ++ d;
  write = λ b a d. take a b ++ d ++ drop (a + length d) b;
  bytes-append = λ b d. refl;
  bytes-write = λ b a d h. refl;
}

read-emit_integer_example :
    (b' : List ℕ) × (emit_integer list_buffer (1 ∷ []) 300 ≡ some (b', 1))
    × (read_integer (b' ++ (7 ∷ [])) 1 ≡ ok (length b') 300)
read-emit_integer_example = read-emit_integer list_buffer (1 ∷ []) 300 (7 ∷ []) (omega arith)

emit_integer-overflow_example : (emit_integer list_buffer [] (2 ^ 63) ≡ none) ↔ (2 ^ 63 ≤ 2 ^ 63)
emit_integer-overflow_example = emit_integer-overflow list_buffer [] (2 ^ 63)

read_300 : read_integer (130 ∷ 44 ∷ 7 ∷ []) 0 ≡ ok 2 300
unfolding read_integer integer_loop
read_300 = refl

read_integer_bounds_example : (300 < 2 ^ 64) × (0 < 2) × (2 ≤ 3) × (2 ≤ 0 + 11)
read_integer_bounds_example = read_integer_bounds (130 ∷ 44 ∷ 7 ∷ []) 0 2 300 read_300

read_integer-fault_example :
    (read_integer (130 ∷ 131 ∷ []) 0 ≡ fault)
    ↔ (0 < 2) × All IsContinued (130 ∷ 131 ∷ []) × (2 ≤ 0 + 10)
read_integer-fault_example =
    read_integer-fault_iff (130 ∷ 131 ∷ []) 0 ((omega arith), ((omega arith), tt))

read-emit_string_example :
    (b' : List ℕ) × (emit_string list_buffer [] (104 ∷ 105 ∷ []) ≡ some (b', 0))
    × (read_string (b' ++ []) 0 ≡ ok (length b') (104 ∷ 105 ∷ []))
read-emit_string_example = read-emit_string list_buffer [] (104 ∷ 105 ∷ []) [] (omega arith)

-- A jump at 1 whose offset is resolved when two more bytes have been emitted.
abbrev open_jump : List ℕ
open_jump = 9 ∷ 0 ∷ 0 ∷ 0 ∷ 0 ∷ 5 ∷ 6 ∷ []

read-resolve_offset_example :
    (b' : List ℕ) × (resolve_offset list_buffer open_jump 1 ≡ some b')
    × (read_offset b' 1 ≡ ok 5 6)
    × (take 1 b' ≡ 9 ∷ [])
    × (drop 5 b' ≡ 5 ∷ 6 ∷ [])
read-resolve_offset_example =
    read-resolve_offset list_buffer open_jump 1 (omega arith) (omega arith)

read_offset_example :
    ((1 + 4 ≤ 7) × ((n : ℕ) × (n < 2 ^ 32) × (read_offset open_jump 1 ≡ ok (1 + 4) n)))
    ⊎ ((7 < 1 + 4) × (read_offset open_jump 1 ≡ refused 1))
read_offset_example = read_offset_cases open_jump 1
