-- ===== src/Operands/RoundTrip.antt =====
-- What is emitted for a string argument is read back (src/lib-sieve/sieve-code.c and
-- sieve-commands.c).
use pigeonhole.Prelude.{
  ℕ, zero, suc, ◌+◌, ◌^◌, ◌≤◌, ◌<◌, ◌≡◌, ◌∙◌, sym, ap, refl, false, Option, some, List, [], ◌∷◌,
  ◌++◌, append_assoc, append-nil, length, length-append, take, ◌==◌, arith,
}
use pigeonhole.Binary.{
  Buffer, encode_integer, emit_integer, emit_string, emit_dynamic_data, emit_byte,
}
use pigeonhole.Binary.Integer.{encode_some, length-encode_le}
use pigeonhole.Lexer.{max_string}
use pigeonhole.Operands.{Extension, got, string_read}
use pigeonhole.Operands.Emit.{
  StringArg, literal, catenated, StringArgs, no_args, and_arg, arg_count, operand_emit, string_emit,
  catenated_string_emit, string_arg_generate, string_args_generate, then_some,
}
use pigeonhole.Operands.Layout.{
  concat, string_value, string_values, Fits, FitAll, levels, levels_all, room, rooms, Reads, Laid,
  Laid-single, literal-Reads, catenated-Reads,
}

pub count-values : (args : StringArgs) → arg_count args ≡ length (string_values args)
unfolding string_value
count-values no_args = refl
count-values (and_arg arg args) = ap suc (count-values args)

module _ (B : Buffer) where
  open B use {Buf, bytes, append, bytes-append}

  string_emit_lem :
      (str : List ℕ) (b : Buf)
      → length str < 2 ^ 32
      → (b' : Buf) × (encoded : List ℕ) × (string_emit B str b ≡ some b')
        × (encode_integer (length str) ≡ some encoded)
        × (bytes b' ≡ bytes b ++ (2 ∷ (encoded ++ (str ++ (0 ∷ [])))))
  unfolding string_emit operand_emit emit_string emit_dynamic_data emit_integer emit_byte
  string_emit_lem str b small =
      let (encoded, e) = encode_some (length str) (omega arith) in
      (
        append (append (append (append b (2 ∷ [])) encoded) str) (0 ∷ []),
        encoded,
        rw (e, string_emit, emit_string, emit_dynamic_data, emit_integer) refl,
        e,
        simp (bytes-append, append_assoc) refl,
      )

  catenated_string_emit_lem :
      (n : ℕ) (b : Buf)
      → n < 2 ^ 32
      → (b' : Buf) × (encoded : List ℕ) × (catenated_string_emit B n b ≡ some b')
        × (encode_integer n ≡ some encoded)
        × (bytes b' ≡ bytes b ++ (7 ∷ encoded))
  unfolding catenated_string_emit operand_emit emit_integer emit_byte
  catenated_string_emit_lem n b small =
      let (encoded, e) = encode_some n (omega arith) in
      (
        append (append b (7 ∷ [])) encoded,
        encoded,
        rw (e, catenated_string_emit, emit_integer) refl,
        e,
        simp (bytes-append, append_assoc) refl,
      )

  module _ (registered : List Extension) where
    -- What is emitted for an argument, and what it reads as.
    abbrev pub Emits : Option Buf → Buf → (ℕ → List ℕ → Type 0) → ℕ → ℕ → Type 0
    Emits result b Meaning least most =
        (b' : Buf) × (enc : List ℕ) × (result ≡ some b')
        × (bytes b' ≡ bytes b ++ enc)
        × (least ≤ length enc)
        × (length enc ≤ most)
        × ((depth : ℕ) → least ≤ depth → Meaning depth enc)

    Emits-literal :
        (str : List ℕ) (b : Buf)
        → length str < 2 ^ 32
        → Emits
            (string_emit B str b)
            b
            (λ depth enc. Reads registered depth enc str)
            1
            (length str + 11)
    Emits-literal str b small =
        let (b', encoded, e, e', all) = string_emit_lem str b small in
        (
          b',
          2 ∷ (encoded ++ (str ++ (0 ∷ []))),
          e,
          all,
          omega arith,
          omega (
            arith,
            length-append encoded (str ++ (0 ∷ [])),
            length-append str (0 ∷ []),
            length-encode_le (length str) encoded e',
          ),
          λ depth deep. literal-Reads registered depth encoded str deep small e',
        )

    abbrev AllEmit : StringArgs → Type 0
    AllEmit args =
        (b : Buf)
        → Emits (string_args_generate B args b) b
            (λ depth enc. Laid registered depth enc (string_values args)) (levels_all args)
            (rooms args)

    many-Emits :
        (args : StringArgs) (b : Buf)
        → arg_count args < 2 ^ 32
        → AllEmit args
        → Emits
            (then_some (catenated_string_emit B (arg_count args) b) (string_args_generate B args))
            b
            (λ depth enc.
              Reads registered depth enc (take max_string (concat (string_values args))))
            (suc (levels_all args))
            (rooms args + 10)
    many-Emits args b small all =
        let (b1, encoded, r1, e, w1) = catenated_string_emit_lem (arg_count args) b small in
        let (b2, enc, r2, w2, l, u, m) = all b1 in
        (
          b2,
          7 ∷ (encoded ++ enc),
          rw r1 r2,
          w2 ∙ ap (λ x. x ++ enc) w1 ∙ append_assoc (bytes b) (7 ∷ encoded) enc,
          omega (arith, length-append encoded enc),
          omega (arith, length-append encoded enc, length-encode_le (arg_count args) encoded e),
          reads encoded enc e m,
        )
      where
        reads :
            (encoded enc : List ℕ)
            → encode_integer (arg_count args) ≡ some encoded
            → ((depth : ℕ)
                → levels_all args ≤ depth
                → Laid registered depth enc (string_values args))
            → (depth : ℕ) → suc (levels_all args) ≤ depth
            → Reads registered depth
                (7 ∷ (encoded ++ enc))
                (take max_string (concat (string_values args)))
        reads encoded enc e m zero deep = absurd (omega arith)
        reads encoded enc e m (suc depth) deep =
            catenated-Reads registered depth encoded enc (string_values args)
              (omega (arith, count-values args)) (rw (← count-values args) e)
              (m depth (omega arith))

    catenated-Emits :
        (args : StringArgs) (b : Buf)
        → arg_count args < 2 ^ 32
        → AllEmit args
        → Emits
            (string_arg_generate B (catenated args) b)
            b
            (λ depth enc. Reads registered depth enc (string_value (catenated args)))
            (levels (catenated args))
            (room (catenated args))
    unfolding string_arg_generate string_value levels room
    catenated-Emits no_args b small all = many-Emits no_args b small all
    catenated-Emits (and_arg arg no_args) b small all =
        let (b', enc, r, w, l, u, m) = all b in
        (
          b',
          enc,
          r,
          w,
          l,
          omega arith,
          λ depth deep. Laid-single registered depth enc (string_value arg) (m depth deep),
        )
    catenated-Emits (and_arg arg (and_arg next args)) b small all =
        let two : (suc (suc (arg_count args)) == 1) ≡ false = ground arith in
        rw two (many-Emits (and_arg arg (and_arg next args)) b small all)

    mutual
      unfolding string_arg_generate string_args_generate string_value levels Fits room

      pub string_arg-Emits :
          (arg : StringArg) (b : Buf)
          → Fits arg
          → Emits
              (string_arg_generate B arg b)
              b
              (λ depth enc. Reads registered depth enc (string_value arg))
              (levels arg)
              (room arg)
      string_arg-Emits (literal str) b fits = Emits-literal str b fits
      string_arg-Emits (catenated args) b (small, fit) =
          catenated-Emits args b small (λ b'. string_args-Emits args b' fit)

      pub string_args-Emits :
          (args : StringArgs) (b : Buf)
          → FitAll args
          → Emits
              (string_args_generate B args b)
              b
              (λ depth enc. Laid registered depth enc (string_values args))
              (levels_all args)
              (rooms args)
      string_args-Emits no_args b fits =
          (b, [], refl, sym (append-nil (bytes b)), omega arith, omega arith, λ depth deep. refl)
      string_args-Emits (and_arg arg args) b (fits, fit) =
          let (b1, e1, r1, w1, l1, u1, m1) = string_arg-Emits arg b fits in
          let (b2, e2, r2, w2, l2, u2, m2) = string_args-Emits args b1 fit in
          (
            b2,
            e1 ++ e2,
            rw (r1, string_args_generate, r2) refl,
            w2 ∙ ap (λ x. x ++ e2) w1 ∙ append_assoc (bytes b) e1 e2,
            omega (arith, length-append e1 e2),
            omega (arith, length-append e1 e2),
            λ depth deep. (e1, e2, refl, m1 depth (omega arith), m2 depth (omega arith)),
          )

    -- A string argument whose sizes and counts fit is emitted, and reading at where it begins gives
    -- its value and ends where the block ended, whatever is emitted behind it: a literal as it is,
    -- strings to be catenated as one, cut off at the limit for strings. Nesting as deep as the block
    -- has bytes is enough.
    pub read-string_arg_generate :
        (arg : StringArg) (b : Buf)
        → Fits arg
        → (b' : Buf) × (string_arg_generate B arg b ≡ some b')
          × ((depth : ℕ) (rest : List ℕ)
              → length (bytes b') ≤ depth
              → string_read depth registered (bytes b' ++ rest) (length (bytes b))
                ≡ got (length (bytes b')) (string_value arg))
    read-string_arg_generate arg b fits =
        let (b', enc, e, all, least, most, reads) = string_arg-Emits arg b fits in
        let size : length (bytes b') ≡ length (bytes b) + length enc =
          ap length all ∙ length-append (bytes b) enc in
        (
          b',
          e,
          λ depth rest deep.
              rw (size, all, append_assoc) (reads depth (omega (arith, size)) (bytes b) rest),
        )
