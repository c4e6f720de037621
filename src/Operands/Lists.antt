-- ===== src/Operands/Lists.antt =====
-- String list arguments, emitted and read back (src/lib-sieve/sieve-code.c and sieve-commands.c).
use pigeonhole.Prelude.{
  ℕ, suc, ◌+◌, ◌^◌, ◌≤◌, ◌<◌, ◌≡◌, ◌∙◌, sym, ap, refl, false, some, List, [], ◌∷◌, ◌++◌,
  append_assoc, length, length-append, get_elem?, arith,
}
use pigeonhole.Prelude.Int.{pos}
use pigeonhole.Binary.{ok, Read, refused, fault, encode_integer, read_offset, read_unsigned}
use pigeonhole.Operands.{
  Extension, Answer, got, then_answer, or_corrupt, as_single, OperandDef, omitted_operand,
  number_operand, string_operand, stringlist_operand, comparator_operand, match_type_operand,
  address_part_operand, catenated_string_operand, extension_operand, number_class, string_class,
  stringlist_class, other_class, StringList, CodeList, code_stringlist, single_stringlist,
  is_behind, operand_read, string_read, string_read_data, opr_stringlist_read, stringlist_read,
  stringlist_read_data, next_item, end_of_list, code_next_item, stringlist_next_item,
}
use pigeonhole.Operands.Layout.{Laid, moved, operand_read_at, read_unsigned_at}

module _ (registered : List Extension) (depth : ℕ) where
  -- Calls of next_item deliver the strings in order, and then the end.
  abbrev pub Delivers : List ℕ → StringList → List (List ℕ) → Type 0
  Delivers code l [] = stringlist_next_item depth registered code l ≡ end_of_list l
  Delivers code l (v ∷ vs) =
      (l' : StringList) × (stringlist_next_item depth registered code l ≡ next_item v l')
      × Delivers code l' vs

  code_next_item_step :
      (code : List ℕ) (l : CodeList) (v : List ℕ) (a : ℕ)
      → is_behind l.list_index l.list_length ≡ false
      → string_read depth registered code l.current_offset ≡ got a v
      → code_next_item depth registered code l
        ≡ next_item v
            (code_stringlist (record l { list_index = l.list_index + 1; current_offset = a }))
  unfolding code_next_item
  code_next_item_step code l v a more e = rw (more, code_next_item) (rw e refl)

  Delivers-Laid :
      (code : List ℕ) (vs : List (List ℕ)) (front enc rest : List ℕ) (l : CodeList)
      → code ≡ front ++ (enc ++ rest)
      → Laid registered depth enc vs
      → l.current_offset ≡ length front
      → l.list_length ≡ pos (l.list_index + length vs)
      → Delivers code (code_stringlist l) vs
  unfolding stringlist_next_item code_next_item
  Delivers-Laid code [] front enc rest l whole laid here left = rw left (ground arith)
  Delivers-Laid code (v ∷ vs) front enc rest l whole (e1, e2, split, reads, more) here left =
      let parts : code ≡ front ++ ((e1 ++ e2) ++ rest) =
        whole ∙ ap (λ x. front ++ (x ++ rest)) split in
      let read : string_read depth registered code l.current_offset
          ≡ got (length front + length e1) v =
        rw (parts, here, append_assoc e1 e2 rest) (reads front (e2 ++ rest)) in
      let l' : CodeList = record l {
        list_index = l.list_index + 1;
        current_offset = length front + length e1;
      } in
      (
        code_stringlist l',
        code_next_item_step code l v _ (rw left (ground arith)) read,
        Delivers-Laid code vs (front ++ e1) e2 rest l'
            (parts ∙ moved registered depth front e1 e2 rest) more (sym (length-append front e1))
            (left ∙ ap pos (omega arith)),
      )

  as_list :
      (nested : ℕ → Answer (List ℕ)) (code : List ℕ) (operand : Read OperandDef) (a' : ℕ)
      (v : List ℕ)
      → then_answer (or_corrupt operand) (λ a def. string_read_data nested def code a) ≡ got a' v
      → then_answer (or_corrupt operand) (λ a def. stringlist_read_data nested def code a)
        ≡ got a' (some (single_stringlist v false))
  unfolding string_read_data stringlist_read_data
  as_list nested code fault a' v e = absurd (ground (arith, e))
  as_list nested code (refused a) a' v e = absurd (ground (arith, e))
  as_list nested code (ok a string_operand) a' v e = ap as_single e
  as_list nested code (ok a catenated_string_operand) a' v e = ap as_single e
  as_list nested code (ok a (extension_operand (string_class read))) a' v e = ap as_single e
  as_list nested code (ok a (extension_operand (number_class read))) a' v e =
      absurd (ground (arith, e))
  as_list nested code (ok a (extension_operand (stringlist_class read))) a' v e =
      absurd (ground (arith, e))
  as_list nested code (ok a (extension_operand other_class)) a' v e = absurd (ground (arith, e))
  as_list nested code (ok a omitted_operand) a' v e = absurd (ground (arith, e))
  as_list nested code (ok a number_operand) a' v e = absurd (ground (arith, e))
  as_list nested code (ok a stringlist_operand) a' v e = absurd (ground (arith, e))
  as_list nested code (ok a comparator_operand) a' v e = absurd (ground (arith, e))
  as_list nested code (ok a match_type_operand) a' v e = absurd (ground (arith, e))
  as_list nested code (ok a address_part_operand) a' v e = absurd (ground (arith, e))

  -- What is read as a string is read as the list of that string.
  pub stringlist_read-string :
      (code : List ℕ) (a a' : ℕ) (v : List ℕ)
      → string_read (suc depth) registered code a ≡ got a' v
      → stringlist_read depth registered code a ≡ got a' (some (single_stringlist v false))
  unfolding string_read stringlist_read
  stringlist_read-string code a a' v e =
      as_list (string_read depth registered code) code (operand_read registered code a) a' v e

  abbrev list_at : ℕ → ℕ → ℕ → CodeList
  list_at start len end = record {
    start_address = start;
    end_address = end;
    current_offset = start;
    list_length = pos len;
    list_index = 0;
  }

  opr_stringlist_read_lem :
      (code : List ℕ) (a start distance n : ℕ)
      → read_offset code a ≡ ok (a + 4) distance
      → read_unsigned code (a + 4) ≡ ok start n
      → a + distance ≤ length code
      → n < 2 ^ 31
      → opr_stringlist_read code a
        ≡ got (a + distance) (some (code_stringlist (list_at start n (a + distance))))
  unfolding opr_stringlist_read
  opr_stringlist_read_lem code a start distance n offset count inside few =
      rw (offset, count) (ground (arith, inside, few))

  stringlist_read_step :
      (code : List ℕ) (a a' : ℕ) (operand : OperandDef)
      → operand_read registered code a ≡ ok a' operand
      → stringlist_read depth registered code a
        ≡ stringlist_read_data (string_read depth registered code) operand code a'
  unfolding stringlist_read
  stringlist_read_step code a a' operand e = rw (e, stringlist_read) refl

  -- A string list that stands at `p` in the code.
  pub list-Laid_read :
      (code front encoded enc rest : List ℕ) (p distance : ℕ) (vs : List (List ℕ))
      → get_elem? code p ≡ some 3
      → read_offset code (p + 1) ≡ ok (p + 1 + 4) distance
      → code ≡ front ++ (encoded ++ (enc ++ rest))
      → length front ≡ p + 1 + 4
      → p + 1 + distance ≤ length code
      → length vs < 2 ^ 31
      → encode_integer (length vs) ≡ some encoded
      → Laid registered depth enc vs
      → (l : StringList) × (stringlist_read depth registered code p
          ≡ got (p + 1 + distance) (some l))
        × Delivers code l vs
  unfolding stringlist_read_data opr_stringlist_read
  list-Laid_read code front encoded enc rest p distance vs three offset whole from inside small e
        laid =
      let count : read_unsigned code (p + 1 + 4) ≡ ok (length front + length encoded) (length vs) =
        rw (whole, ← from)
          (read_unsigned_at front encoded (enc ++ rest) (length vs) (omega (arith, small)) e) in
      let l = list_at (length front + length encoded) (length vs) (p + 1 + distance) in
      (
        code_stringlist l,
        stringlist_read_step code p (p + 1) stringlist_operand (
              operand_read_at registered code p 3 stringlist_operand (omega arith) refl
                (omega (arith, inside)) three)
            ∙ opr_stringlist_read_lem code (p + 1) _ distance (length vs) offset count inside small,
        Delivers-Laid code vs (front ++ encoded) enc rest l
            (whole ∙ sym (append_assoc front encoded (enc ++ rest))) laid
            (sym (length-append front encoded)) (ap pos (omega arith)),
      )
