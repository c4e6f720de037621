-- ===== src/Operands.antt =====
-- Operands of the byte code and how they are read (src/lib-sieve/sieve-code.c, sieve-code.h), with
-- the extension part of src/lib-sieve/sieve-binary-code.c.
--
-- An operand begins with its code; a code of eight or more stands for an extension that is
-- registered in the binary, whose operand follows. Strings catenated of strings are read
-- recursively: `depth` bounds how far they nest. The address after a failed read is left out, since
-- the interpreter stops there; traces are left out too.
pub mod Emit
pub mod Layout
pub mod RoundTrip
pub mod Lists
pub mod Arguments
pub mod Bounds
pub mod Forward
pub mod Depth
use pigeonhole.Prelude.{
  ℕ, zero, suc, ◌+◌, ◌-◌, ◌%◌, ◌^◌, ◌≤◌, ◌<◌, ◌≡◌, Bool, true, false, Option, none, some, List, [],
  ◌∷◌, ◌++◌, length, get_elem?, take, ltb, leb, ◌==◌, if◌then◌else◌,
}
use pigeonhole.Prelude.Int.{ℤ, pos, negsuc}
use pigeonhole.Binary.{
  Read, ok, refused, fault, bytes_left, fetch, then_read, read_byte, read_code, read_offset,
  read_integer, read_unsigned, read_string,
}
use pigeonhole.Interpreter.{Exec, exec_ok, failure, bin_corrupt}
use pigeonhole.Lexer.{max_string}

-- What reading an operand returns: SIEVE_EXEC_OK with the address behind it, another status, a read
-- behind the end of the block, or strings that nest deeper than was allowed for.
pub data Answer {ℓ} (A : Type ℓ) : Type ℓ where
  got : ℕ → A → Answer A
  stopped : Exec → Answer A
  overrun : Answer A
  too_deep : Answer A

abbrev pub then_answer {ℓ κ} : {A : Type ℓ} {B : Type κ} → Answer A → (ℕ → A → Answer B) → Answer B
then_answer (got a x) f = f a x
then_answer (stopped e) f = stopped e
then_answer overrun f = overrun
then_answer too_deep f = too_deep

-- A read that fails makes the binary corrupt.
abbrev pub or_corrupt {ℓ} : {A : Type ℓ} → Read A → Answer A
or_corrupt (ok a x) = got a x
or_corrupt (refused a) = stopped bin_corrupt
or_corrupt fault = overrun

-- struct sieve_code_stringlist: `list_length` is an int, and `list_index` one that is never negative.
pub record CodeList : Type 0 where
  pub start_address : ℕ
  pub end_address : ℕ
  pub current_offset : ℕ
  pub list_length : ℤ
  pub list_index : ℕ

-- A string list in the byte code, or one of a single string, with whether that has been delivered.
pub data StringList : Type 0 where
  code_stringlist : CodeList → StringList
  single_stringlist : List ℕ → Bool → StringList

-- The class of an extension's operand with the read function of its interface, where it has one.
pub data Interface : Type 0 where
  number_class : Option (List ℕ → ℕ → Answer ℕ) → Interface
  string_class : Option (List ℕ → ℕ → Answer (List ℕ)) → Interface
  stringlist_class : Option (List ℕ → ℕ → Answer (Option StringList)) → Interface
  other_class : Interface

pub data OperandDef : Type 0 where
  omitted_operand number_operand string_operand stringlist_operand : OperandDef
  comparator_operand match_type_operand address_part_operand catenated_string_operand : OperandDef
  extension_operand : Interface → OperandDef

abbrev pub sieve_operands : List OperandDef
sieve_operands =
    omitted_operand ∷ number_operand ∷ string_operand ∷ stringlist_operand ∷ comparator_operand
    ∷ match_type_operand ∷ address_part_operand ∷ catenated_string_operand ∷ []

-- The operands of an extension that is registered in the binary, or none if it is not known.
pub record Extension : Type 0 where
  pub operands : Option (List OperandDef)

abbrev pub read_extension : List Extension → List ℕ → ℕ → ℕ → Read (ℕ × Option Extension)
read_extension registered code address offset =
    if bytes_left code address == 0
    then refused address
    else fetch code address (λ c.
      if leb offset c
      then elim (get_elem? registered (c - offset)) [
        | none ↦ refused (address + 1)
        | some ext ↦ ok (address + 1) (c, some ext)
      ]
      else ok (address + 1) (c, none))

abbrev pub object_at {ℓ} : {A : Type ℓ} → List A → ℕ → ℕ → Read A
object_at objects address c = elim (get_elem? objects c) [
  | none ↦ refused address
  | some object ↦ ok address object
]

abbrev pub read_extension_object {ℓ} : {A : Type ℓ} → List A → List ℕ → ℕ → Read A
read_extension_object [] code address = refused address
read_extension_object (object ∷ []) code address = ok address object
read_extension_object (object ∷ next ∷ more) code address =
    if bytes_left code address == 0
    then refused address
    else fetch code address (object_at (object ∷ next ∷ more) (address + 1))

abbrev pub extension_operands : Extension → ℕ → List ℕ → Read OperandDef
extension_operands ext address code = elim ext.operands [
  | none ↦ refused address
  | some operands ↦ read_extension_object operands code address
]

unfoldable pub operand_read : List Extension → List ℕ → ℕ → Read OperandDef
operand_read registered code address =
    then_read (read_extension registered code address (length sieve_operands)) (λ a found.
      elim found.1 [
        | none ↦ object_at sieve_operands a found.0
        | some ext ↦ extension_operands ext a code
      ])

-- The code of the next optional operand, `0` where none has been read: 1 with the code, 0 or -1.
pub data NextOptional : Type 0 where
  optional_code : ℕ → ℤ → NextOptional
  no_more : ℕ → NextOptional
  bad_code : NextOptional

unfoldable pub optional_code_at : List ℕ → ℕ → NextOptional
optional_code_at code address = elim (read_code code address) [
  | ok a (pos zero) ↦ no_more a
  | ok a c ↦ optional_code a c
  | _ ↦ bad_code
]

unfoldable pub optional_next : List ℕ → ℕ → Bool → NextOptional
unfolding optional_code_at
optional_next code address first =
    if first
    then elim (read_byte code address) [ ok a zero ↦ optional_code_at code a | _ ↦ no_more address ]
    else optional_code_at code address

abbrev pub implemented {ℓ} : {A : Type ℓ} → Option (List ℕ → ℕ → Answer A) → List ℕ → ℕ → Answer A
implemented none code address = stopped failure
implemented (some read) code address = read code address

abbrev pub number_read_data : OperandDef → List ℕ → ℕ → Answer ℕ
number_read_data number_operand code address = or_corrupt (read_integer code address)
number_read_data (extension_operand (number_class read)) code address =
    implemented read code address
number_read_data _ code address = stopped bin_corrupt

unfoldable pub number_read : List Extension → List ℕ → ℕ → Answer ℕ
unfolding operand_read
number_read registered code address =
    then_answer (or_corrupt (operand_read registered code address))
      (λ a operand. number_read_data operand code a)

-- str_append_str and str_truncate. Behind a truncated string the others are skipped.
abbrev pub append_truncated : List ℕ → List ℕ → List ℕ
append_truncated str element = take max_string (str ++ element)

-- The elements of a catenated string, each read by `read`.
unfoldable pub catenate : (ℕ → Answer (List ℕ)) → ℕ → ℕ → List ℕ → Answer (List ℕ)
catenate read zero address str = got address str
catenate read (suc elements) address str = elim (read address) [
  | got a element ↦ catenate read elements a (append_truncated str element)
  | stopped e ↦ stopped e
  | overrun ↦ overrun
  | too_deep ↦ too_deep
]

unfoldable pub catenated_string_read : (ℕ → Answer (List ℕ)) → List ℕ → ℕ → Answer (List ℕ)
unfolding catenate
catenated_string_read read code address =
    then_answer (or_corrupt (read_unsigned code address))
      (λ a elements. catenate read elements a [])

-- `nested` reads the elements of a catenated string.
abbrev pub string_read_data : (ℕ → Answer (List ℕ)) → OperandDef → List ℕ → ℕ → Answer (List ℕ)
unfolding catenated_string_read
string_read_data nested string_operand code address = or_corrupt (read_string code address)
string_read_data nested catenated_string_operand code address =
    catenated_string_read nested code address
string_read_data nested (extension_operand (string_class read)) code address =
    implemented read code address
string_read_data nested _ code address = stopped bin_corrupt

unfoldable pub string_read : ℕ → List Extension → List ℕ → ℕ → Answer (List ℕ)
unfolding operand_read string_read_data
string_read zero registered code address = too_deep
string_read (suc depth) registered code address =
    then_answer (or_corrupt (operand_read registered code address))
      (λ a operand. string_read_data (string_read depth registered code) operand code a)

-- None where the list does not end inside the block; the status is SIEVE_EXEC_OK all the same.
-- An unsigned int as an int: from 2^31 on it is negative.
abbrev pub as_int : ℕ → ℤ
as_int n = if ltb n (2 ^ 31) then pos n else negsuc (2 ^ 32 - 1 - n)

abbrev pub code_stringlist_create : List ℕ → ℕ → ℕ → ℕ → Option StringList
code_stringlist_create code start_address len end =
    if ltb (length code) end
    then none
    else some (
        code_stringlist (record {
          start_address = start_address;
          end_address = end;
          current_offset = start_address;
          list_length = as_int len;
          list_index = 0;
        }))

unfoldable pub opr_stringlist_read : List ℕ → ℕ → Answer (Option StringList)
opr_stringlist_read code address =
    then_answer (or_corrupt (read_offset code address)) (λ a end_offset.
      then_answer (or_corrupt (read_unsigned code a)) (λ a' len.
        got (address + end_offset) (code_stringlist_create code a' len (address + end_offset))))

-- The status SIEVE_EXEC_OK is returned for the list of a single string.
abbrev pub as_single : Answer (List ℕ) → Answer (Option StringList)
as_single answer = then_answer answer (λ a str. got a (some (single_stringlist str false)))

abbrev pub stringlist_read_data :
    (ℕ → Answer (List ℕ)) → OperandDef → List ℕ → ℕ → Answer (Option StringList)
unfolding opr_stringlist_read
stringlist_read_data nested stringlist_operand code address = opr_stringlist_read code address
stringlist_read_data nested (extension_operand (stringlist_class read)) code address =
    implemented read code address
stringlist_read_data nested string_operand code address =
    as_single (string_read_data nested string_operand code address)
stringlist_read_data nested catenated_string_operand code address =
    as_single (string_read_data nested catenated_string_operand code address)
stringlist_read_data nested (extension_operand (string_class read)) code address =
    as_single (implemented read code address)
stringlist_read_data nested _ code address = stopped bin_corrupt

unfoldable pub stringlist_read : ℕ → List Extension → List ℕ → ℕ → Answer (Option StringList)
unfolding operand_read stringlist_read_data
stringlist_read depth registered code address =
    then_answer (or_corrupt (operand_read registered code address))
      (λ a operand. stringlist_read_data (string_read depth registered code) operand code a)

-- sieve_opr_stringlist_read_ex: an omitted operand is no list.
unfoldable pub stringlist_read_ex :
    ℕ → List Extension → List ℕ → ℕ → Bool → Answer (Option StringList)
unfolding operand_read stringlist_read_data
stringlist_read_ex depth registered code address optional =
    then_answer (or_corrupt (operand_read registered code address)) (λ a operand.
      let data' = stringlist_read_data (string_read depth registered code) operand code a in
      elim operand [ omitted_operand ↦ if optional then got a none else data' | _ ↦ data' ])

-- What next_item returns, with the list afterwards: 1 with an item, 0, or -1 with the status.
pub data NextItem : Type 0 where
  next_item : List ℕ → StringList → NextItem
  end_of_list : StringList → NextItem
  item_failed : Answer (List ℕ) → NextItem

-- index >= length
abbrev pub is_behind : ℕ → ℤ → Bool
is_behind index (pos n) = leb n index
is_behind index (negsuc n) = true

unfoldable pub code_next_item : ℕ → List Extension → List ℕ → CodeList → NextItem
unfolding string_read
code_next_item depth registered code l =
    if is_behind l.list_index l.list_length
    then end_of_list (code_stringlist l)
    else elim (string_read depth registered code l.current_offset) [
      | got a str ↦
          next_item str
            (code_stringlist (record l { list_index = l.list_index + 1; current_offset = a }))
      | failed ↦ item_failed failed
    ]

unfoldable pub stringlist_next_item : ℕ → List Extension → List ℕ → StringList → NextItem
unfolding code_next_item
stringlist_next_item depth registered code (code_stringlist l) =
    code_next_item depth registered code l
stringlist_next_item depth registered code (single_stringlist value end) =
    if end
    then end_of_list (single_stringlist value end)
    else next_item value (single_stringlist value true)

abbrev pub stringlist_reset : StringList → StringList
stringlist_reset (code_stringlist l) =
    code_stringlist (record l { current_offset = l.start_address; list_index = 0 })
stringlist_reset (single_stringlist value end) = single_stringlist value false

-- A single empty string does not count.
abbrev pub stringlist_get_length : StringList → ℤ
stringlist_get_length (code_stringlist l) = l.list_length
stringlist_get_length (single_stringlist value end) = if ltb 0 (length value) then pos 1 else pos 0
