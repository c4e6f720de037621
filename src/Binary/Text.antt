-- ===== src/Binary/Text.antt =====
-- Strings in the byte code: a length, the bytes and a NUL.
use pigeonhole.Prelude.{
  ℕ, ◌+◌, ◌%◌, ◌^◌, ◌<◌, ◌≡◌, ◌∙◌, some, List, [], ◌∷◌, ◌++◌, append_assoc, length, length-append,
  drop, drop-append, drop-drop, take-append, ap, length-drop, get_elem?-append, get_elem?-add,
  arith,
}
use pigeonhole.Binary.{
  Buffer, ok, encode_integer, emit_integer, emit_byte, emit_dynamic_data, emit_string, read_integer,
  read_string,
}
use pigeonhole.Binary.Integer.{encode_some, read_integer-encode}

-- A string whose bytes stand at `a'`, with the NUL behind them.
read_string_at :
    (code str rest : List ℕ) (a a' : ℕ)
    → read_integer code a ≡ ok a' (length str)
    → drop a' code ≡ str ++ (0 ∷ rest)
    → length str < 2 ^ 32
    → read_string code a ≡ ok (a' + length str + 1) str
unfolding read_string
read_string_at code str rest a a' r d h =
    rw (r, whole)
      (ground (
        arith,
        d,
        ap length d,
        length-drop a' code,
        length-append str (0 ∷ rest),
        get_elem?-add a' (length str) code,
        get_elem?-append str 0 rest,
        take-append str (0 ∷ rest),
      ))
  where
    whole : length str % 2 ^ 32 ≡ length str
    whole = omega arith

-- A string laid out behind `front`: the encoded length, the bytes and the NUL.
pub read_string-layout :
    (front encoded str rest : List ℕ)
    → length str < 2 ^ 32
    → encode_integer (length str) ≡ some encoded
    → read_string (front ++ (encoded ++ (str ++ (0 ∷ rest)))) (length front)
      ≡ ok (length front + length encoded + length str + 1) str
read_string-layout front encoded str rest h e =
    read_string_at _ str rest (length front) (length front + length encoded)
      (read_integer-encode front encoded (str ++ (0 ∷ rest)) (length str) e)
      (rw (← drop-drop, drop-append, drop-append)) h

module _ (B : Buffer) where
  open B use {Buf, bytes, append, bytes-append}

  -- A string shorter than 2^32 is emitted at the end of the block, and reading at the returned
  -- address gives it back and ends where the block ended, whatever is emitted behind it.
  pub read-emit_string :
      (b : Buf) (str rest : List ℕ)
      → length str < 2 ^ 32
      → (b' : Buf) × (emit_string B b str ≡ some (b', length (bytes b)))
        × (read_string (bytes b' ++ rest) (length (bytes b)) ≡ ok (length (bytes b')) str)
  unfolding emit_string emit_dynamic_data emit_integer emit_byte
  read-emit_string b str rest h =
      let (encoded, e) = encode_some (length str) (omega arith) in
      (
        append (append (append b encoded) str) (0 ∷ []),
        rw (e, emit_string),
        simp (bytes-append, append_assoc, length-append)
            (read_string-layout (bytes b) encoded str rest h e ∙ ground arith),
      )
