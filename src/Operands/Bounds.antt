-- ===== src/Operands/Bounds.antt =====
-- String lists and numbers at the ends of a block (src/lib-sieve/sieve-code.c).
use pigeonhole.Prelude.{
  ℕ, ◌+◌, ◌^◌, ◌<◌, ◌≡◌, ◌↔◌, ◌⊎◌, ◌∙◌, ap, refl, inl, inr, Option, none, some, List, [], ◌∷◌, ◌++◌,
  append_assoc, length, length-append, ltb, Bool-cases, arith,
}
use pigeonhole.Binary.{
  Buffer, ok, read_offset, read_unsigned, encode_integer, emit_integer, emit_byte, read_integer,
}
use pigeonhole.Binary.Integer.{encode_some, read_integer-encode}
use pigeonhole.Operands.{
  Extension, got, or_corrupt, StringList, as_int, code_stringlist, opr_stringlist_read,
  code_stringlist_create, number_read, number_operand,
}
use pigeonhole.Operands.Emit.{number_emit, operand_emit}
use pigeonhole.Operands.Layout.{operand_read-core}

-- A list, at the addresses that are given and not yet begun.
abbrev pub NewList : ℕ → ℕ → ℕ → Option StringList → Type 0
NewList start end len none = ⊥
NewList start end len (some l) =
    l
    ≡ code_stringlist (record {
      start_address = start;
      end_address = end;
      current_offset = start;
      list_length = as_int len;
      list_index = 0;
    })

-- A string list whose end and length can be read is read with SIEVE_EXEC_OK and the address of its
-- end, also if that lies behind the block. There is no list exactly if it does; otherwise the list
-- is at its first item, which stands behind the length.
pub opr_stringlist_read-end :
    (code : List ℕ) (a items distance start len : ℕ)
    → read_offset code a ≡ ok items distance
    → read_unsigned code items ≡ ok start len
    → (l : Option StringList) × (opr_stringlist_read code a ≡ got (a + distance) l)
      × ((l ≡ none) ↔ (length code < a + distance))
      × ((l ≡ none) ⊎ NewList start (a + distance) len l)
unfolding opr_stringlist_read
opr_stringlist_read-end code a items distance start len e f =
    elim (Bool-cases (ltb (length code) (a + distance))) [
      | inl b ↦ (
        none,
        rw (e, opr_stringlist_read) (rw f (rw b refl)),
        (λ _. ground (arith, b), λ _. refl),
        inl refl,
      )
      | inr b ↦ (
        code_stringlist_create code start len (a + distance),
        rw (e, opr_stringlist_read) (rw f refl),
        (rw b (λ h. cc), λ h. ground (arith, b)),
        rw b (inr refl),
      )
    ]

number_read_lem :
    (registered : List Extension) (front encoded rest : List ℕ) (n : ℕ)
    → encode_integer n ≡ some encoded
    → number_read registered (front ++ (1 ∷ (encoded ++ rest))) (length front)
      ≡ got (length front + (1 + length encoded)) n
unfolding number_read
number_read_lem registered front encoded rest n e =
    let operand =
      operand_read-core registered front (encoded ++ rest) 1 number_operand (omega arith) refl in
    let read : read_integer (front ++ (1 ∷ (encoded ++ rest))) (length front + 1)
        ≡ ok (length front + 1 + length encoded) n =
      rw (append_assoc, length-append) at
        (read_integer-encode (front ++ (1 ∷ [])) encoded rest n e) in
    let size : length front + 1 + length encoded ≡ length front + (1 + length encoded) =
      omega arith in
    rw (operand, number_read) (ap or_corrupt read ∙ ap (λ m. got m n) size)

module _ (B : Buffer) (registered : List Extension) where
  open B use {Buf, bytes, append, bytes-append}

  -- A number below 2^63 is emitted as an operand, and reading at where that begins gives it back and
  -- ends where the block ended, whatever is emitted behind it.
  pub read-number_emit :
      (n : ℕ) (b : Buf) (rest : List ℕ)
      → n < 2 ^ 63
      → (b' : Buf) × (number_emit B n b ≡ some b')
        × (number_read registered (bytes b' ++ rest) (length (bytes b)) ≡ got (length (bytes b')) n)
  unfolding number_emit operand_emit emit_byte emit_integer
  read-number_emit n b rest small =
      let (encoded, e) = encode_some n small in
      (
        append (append b (1 ∷ [])) encoded,
        rw (e, number_emit, emit_integer) refl,
        simp (bytes-append, append_assoc, length-append)
            (number_read_lem registered (bytes b) encoded rest n e),
      )
