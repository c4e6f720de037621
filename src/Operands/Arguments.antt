-- ===== src/Operands/Arguments.antt =====
-- The emission of string list arguments, and their round trip (src/lib-sieve/sieve-code.c and
-- sieve-commands.c).
use pigeonhole.Prelude.{
  append-take-drop, ℕ, suc, ◌+◌, inl, drop-append_at, length-take_le, ◌-◌, ◌^◌, ◌≤◌, ◌<◌, ◌≡◌, ◌∙◌,
  sym, ap, refl, true, false, Option, some, List, [], ◌∷◌, ◌++◌, append_assoc, length,
  length-append, take, drop, get_elem?, get_elem?-append, ◌==◌, arith,
}
use pigeonhole.Binary.{Buffer, encode_integer, emit_integer, emit_byte, emit_offset, offset_bytes}
use pigeonhole.Binary.Integer.{encode_some, length-encode_le}
use pigeonhole.Binary.Offset.{read-resolve_offset}
use pigeonhole.Generator.Resolve.{resolved, LeadsTo, LeadsTo-same, get_elem?-append_left}
use pigeonhole.Operands.{
  Extension, got, StringList, single_stringlist, stringlist_read, stringlist_next_item,
}
use pigeonhole.Operands.Emit.{
  StringArg, StringArgs, no_args, and_arg, arg_count, operand_emit, stringlist_emit_start,
  string_list_emit, string_list_generate, string_args_generate,
}
use pigeonhole.Operands.Layout.{
  string_value, string_values, Fits, FitAll, levels, levels_all, rooms, count_le_rooms, Reads, Laid,
}
use pigeonhole.Operands.RoundTrip.{string_arg-Emits, string_args-Emits, count-values}
use pigeonhole.Operands.Lists.{Delivers, list-Laid_read, stringlist_read-string}

-- A list that begins at the end of `front`, once its offset has been resolved to its end.
resolved_list_read :
    (registered : List Extension) (depth : ℕ) (front code code' encoded enc rest : List ℕ)
    (vs : List (List ℕ))
    → code ≡ front ++ (3 ∷ 0 ∷ 0 ∷ 0 ∷ 0 ∷ (encoded ++ enc))
    → length code' ≡ length code
    → LeadsTo code' (length code) (length front + 1)
    → get_elem? code' (length front) ≡ get_elem? code (length front)
    → drop (length front + 1 + 4) code' ≡ drop (length front + 1 + 4) code
    → length vs < 2 ^ 31
    → encode_integer (length vs) ≡ some encoded
    → Laid registered depth enc vs
    → (l : StringList) × (stringlist_read depth registered (code' ++ rest) (length front)
        ≡ got (length code') (some l))
      × Delivers registered depth (code' ++ rest) l vs
resolved_list_read registered depth front code code' encoded enc rest vs w size leads same behind
      few e laid =
    let p = length front in
    let opening : List ℕ = 3 ∷ 0 ∷ 0 ∷ 0 ∷ 0 ∷ [] in
    let total : length code ≡ p + (5 + length (encoded ++ enc)) =
      omega (arith, ap length w, length-append front (3 ∷ 0 ∷ 0 ∷ 0 ∷ 0 ∷ (encoded ++ enc))) in
    let longer = length-append code' rest in
    let three : get_elem? (code' ++ rest) p ≡ some 3 =
      get_elem?-append_left code' rest p (omega (arith, size, total))
      ∙ same
      ∙ ap (λ x. get_elem? x p) w
      ∙ get_elem?-append front 3 (0 ∷ 0 ∷ 0 ∷ 0 ∷ (encoded ++ enc)) in
    let further =
      LeadsTo-same code' (code' ++ rest) (length code) (p + 1) leads (omega (arith, longer))
        (λ i l k. get_elem?-append_left code' rest i (omega (arith, size, total))) in
    let tail : drop (p + 1 + 4) code' ≡ encoded ++ enc =
      behind
      ∙ ap (drop (p + 1 + 4)) (w ∙ sym (append_assoc front opening (encoded ++ enc)))
      ∙ drop-append_at (p + 1 + 4) (front ++ opening) (encoded ++ enc)
          (omega (arith, length-append front opening)) in
    let whole : code' ++ rest ≡ take (p + 1 + 4) code' ++ (encoded ++ (enc ++ rest)) =
      ap (λ x. x ++ rest)
        (append-take-drop (p + 1 + 4) code' ∙ ap (λ x. take (p + 1 + 4) code' ++ x) tail)
      ∙ append_assoc (take (p + 1 + 4) code') (encoded ++ enc) rest
      ∙ ap (λ x. take (p + 1 + 4) code' ++ x) (append_assoc encoded enc rest) in
    let end : p + 1 + (length code - (p + 1)) ≡ length code' = omega (arith, size, total) in
    rw (← end) (
      list-Laid_read registered depth (code' ++ rest) (take (p + 1 + 4) code') encoded enc rest p
        (length code - (p + 1)) vs three further.offset whole
        (length-take_le (p + 1 + 4) code' (omega (arith, size, total))) (omega (arith, end, longer))
        few e laid)

-- A string at the end of the code, read as a list.
single_read :
    (registered : List Extension) (depth : ℕ) (front code enc rest v : List ℕ)
    → code ≡ front ++ enc
    → Reads registered (suc depth) enc v
    → stringlist_read depth registered (code ++ rest) (length front)
      ≡ got (length code) (some (single_stringlist v false))
single_read registered depth front code enc rest v w reads =
    stringlist_read-string registered depth (code ++ rest) _ _ _
      (rw (w, append_assoc, length-append) (reads front rest))

module _ (B : Buffer) where
  open B use {Buf, bytes, append, bytes-append}

  emit_start_lem :
      (n : ℕ) (b : Buf)
      → n < 2 ^ 32
      → (b' : Buf) × (encoded : List ℕ) × (stringlist_emit_start B n b
          ≡ some (b', length (bytes b) + 1))
        × (encode_integer n ≡ some encoded)
        × (bytes b' ≡ bytes b ++ (3 ∷ 0 ∷ 0 ∷ 0 ∷ 0 ∷ encoded))
  unfolding stringlist_emit_start operand_emit emit_integer emit_byte emit_offset offset_bytes
  emit_start_lem n b small =
      let (encoded, e) = encode_some n (omega arith) in
      let zeros : List ℕ = 0 ∷ 0 ∷ 0 ∷ 0 ∷ [] in
      (
        append (append (append b (3 ∷ [])) zeros) encoded,
        encoded,
        rw (e, stringlist_emit_start, emit_integer)
            (ap (λ (m : ℕ). some (append (append (append b (3 ∷ [])) zeros) encoded, m))
              (ap length (bytes-append b (3 ∷ [])) ∙ length-append (bytes b) (3 ∷ []))),
        e,
        simp (bytes-append, append_assoc) refl,
      )

  -- The whole list, with the offset resolved to its end.
  emit_list_lem :
      (registered : List Extension) (args : StringArgs) (b : Buf)
      → FitAll args
      → arg_count args < 2 ^ 32
      → rooms args + 14 < 2 ^ 32
      → (b' : Buf) × (string_list_emit B args b ≡ some b')
        × ((depth : ℕ) (rest : List ℕ)
            → levels_all args ≤ depth
            → (l : StringList) × (stringlist_read depth registered
                  (bytes b' ++ rest)
                  (length (bytes b))
                ≡ got (length (bytes b')) (some l))
              × Delivers registered depth (bytes b' ++ rest) l (string_values args))
  unfolding string_list_emit
  emit_list_lem registered args b fit few near =
      let p = length (bytes b) in
      let (b1, encoded, r1, e, w1) = emit_start_lem (arg_count args) b few in
      let (b2, enc, r2, w2, least, most, laid) = string_args-Emits B registered args b1 fit in
      let w : bytes b2 ≡ bytes b ++ (3 ∷ 0 ∷ 0 ∷ 0 ∷ 0 ∷ (encoded ++ enc)) =
        w2 ∙ ap (λ x. x ++ enc) w1 ∙ append_assoc (bytes b) (3 ∷ 0 ∷ 0 ∷ 0 ∷ 0 ∷ encoded) enc in
      let total : length (bytes b2) ≡ p + 5 + length encoded + length enc = omega (
        arith,
        ap length w,
        length-append (bytes b) (3 ∷ 0 ∷ 0 ∷ 0 ∷ 0 ∷ (encoded ++ enc)),
        length-append encoded enc,
      ) in
      let short = length-encode_le (arg_count args) encoded e in
      let (b3, r3, offset, before, behind) =
        read-resolve_offset B b2 (p + 1) (omega arith) (omega arith) in
      let (size, leads, same) =
        resolved (bytes b2) (bytes b3) (p + 1) offset before behind (omega arith) in
      (
        b3,
        rw (r1, string_list_emit, r2, r3) refl,
        λ depth rest deep.
            resolved_list_read registered depth (bytes b) (bytes b2) (bytes b3) encoded enc rest
              (string_values args) w size leads (same p (inl (omega arith))) behind
              (omega (arith, count-values args, count_le_rooms args)) (rw (← count-values args) e)
              (laid depth deep),
      )

  module _ (registered : List Extension) where
    -- What a string list argument is read back as.
    abbrev pub ReadsBack : Option Buf → Buf → ℕ → List (List ℕ) → Type 0
    ReadsBack result b least vs =
        (b' : Buf) × (result ≡ some b')
        × ((depth : ℕ) (rest : List ℕ)
            → least ≤ depth
            → (l : StringList) × (stringlist_read depth registered (bytes b' ++ rest)
                  (length (bytes b))
                ≡ got (length (bytes b')) (some l))
              × Delivers registered depth (bytes b' ++ rest) l vs)

    single_ReadsBack :
        (arg : StringArg) (b : Buf)
        → Fits arg
        → ReadsBack
            (string_args_generate B (and_arg arg no_args) b)
            b
            (levels_all (and_arg arg no_args))
            (string_values (and_arg arg no_args))
    unfolding string_args_generate string_value levels stringlist_next_item
    single_ReadsBack arg b fits =
        let (b', enc, e, w, least, most, reads) = string_arg-Emits B registered arg b fits in
        (
          b',
          rw (e, string_args_generate) refl,
          λ depth rest deep. (
            single_stringlist (string_value arg) false,
            single_read registered depth (bytes b) (bytes b') enc rest (string_value arg) w
                (reads (suc depth) (omega arith)),
            (single_stringlist (string_value arg) true, refl, refl),
          ),
        )

    -- A string list argument whose sizes and counts fit, and which takes less than 4 GiB, is emitted,
    -- and reading at where it begins gives a list that delivers exactly its strings, in order, and
    -- ends where the block ended, whatever is emitted behind it; also where it has one string
    -- only and is emitted as a string, and where it is empty. Nesting as deep as the strings do is
    -- enough.
    pub read-string_list_generate :
        (args : StringArgs) (b : Buf)
        → FitAll args
        → arg_count args < 2 ^ 32
        → rooms args + 14 < 2 ^ 32
        → ReadsBack (string_list_generate B args b) b (levels_all args) (string_values args)
    unfolding string_list_generate string_value levels FitAll
    read-string_list_generate no_args b fit few near =
        emit_list_lem registered no_args b fit few near
    read-string_list_generate (and_arg arg no_args) b fit few near = single_ReadsBack arg b fit.0
    read-string_list_generate (and_arg arg (and_arg next args)) b fit few near =
        let two : (suc (suc (arg_count args)) == 1) ≡ false = ground arith in
        rw two (emit_list_lem registered (and_arg arg (and_arg next args)) b fit few near)
