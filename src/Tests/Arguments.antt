-- ===== src/Tests/Arguments.antt =====
-- Arguments of commands, emitted to a concrete block and read back (src/lib-sieve/sieve-code.c and
-- sieve-commands.c).
use pigeonhole.Prelude.{
  ℕ, ◌≤◌, ◌<◌, ◌≡◌, ◌↔◌, ◌⊎◌, refl, Option, none, some, List, [], ◌∷◌, ◌++◌, length, arith,
}
use pigeonhole.Binary.{ok, read_offset, offset_loop, read_unsigned, read_integer, integer_loop}
use pigeonhole.Operands.{
  StringList, Extension, Answer, stopped, extension_operand, string_class, got, string_read,
  opr_stringlist_read, number_read,
}
use pigeonhole.Operands.Emit.{
  StringArg, literal, catenated, StringArgs, no_args, and_arg, string_arg_generate,
  string_list_generate, number_emit,
}
use pigeonhole.Operands.Layout.{string_value, string_values, levels_all, Fits, rooms}
use pigeonhole.Operands.RoundTrip.{read-string_arg_generate}
use pigeonhole.Operands.Arguments.{ReadsBack, read-string_list_generate}
use pigeonhole.Operands.Bounds.{NewList, opr_stringlist_read-end, read-number_emit}
use pigeonhole.Operands.Forward.{ExtensionsSettle, Settles}
use pigeonhole.Operands.Depth.{string_read-Settles}
use pigeonhole.Interpreter.{bin_corrupt}
use pigeonhole.Tests.Blocks.{list_buffer}

abbrev no_string : List ℕ → ℕ → Answer (List ℕ)
no_string code a = stopped bin_corrupt

abbrev parts : StringArg
parts = catenated (and_arg (literal (97 ∷ [])) (and_arg (literal (98 ∷ 99 ∷ [])) no_args))

abbrev two_strings : StringArgs
two_strings = and_arg (literal []) (and_arg parts no_args)

read-string_arg_generate_example :
    (b' : List ℕ) × (string_arg_generate list_buffer parts (9 ∷ []) ≡ some b')
    × ((depth : ℕ) (rest : List ℕ)
        → length b' ≤ depth
        → string_read depth [] (b' ++ rest) 1 ≡ got (length b') (string_value parts))
unfolding Fits
read-string_arg_generate_example =
    read-string_arg_generate list_buffer [] parts (9 ∷ [])
      (omega arith, (omega arith, (omega arith, tt)))

read-string_list_generate_example :
    ReadsBack list_buffer []
      (string_list_generate list_buffer two_strings (9 ∷ []))
      (9 ∷ [])
      (levels_all two_strings)
      (string_values two_strings)
unfolding Fits rooms
read-string_list_generate_example =
    read-string_list_generate list_buffer [] two_strings (9 ∷ [])
      (omega arith, ((omega arith, (omega arith, (omega arith, tt))), tt)) (omega arith)
      (omega arith)

abbrev open_list : List ℕ
open_list = 0 ∷ 0 ∷ 0 ∷ 200 ∷ 2 ∷ []

open_offset : read_offset open_list 0 ≡ ok 4 200
unfolding read_offset offset_loop
open_offset = refl

open_length : read_unsigned open_list 4 ≡ ok 5 2
unfolding read_integer integer_loop
open_length = refl

opr_stringlist_read-end_example :
    (l : Option StringList) × (opr_stringlist_read open_list 0 ≡ got 200 l)
    × ((l ≡ none) ↔ (length open_list < 200))
    × ((l ≡ none) ⊎ NewList 5 200 2 l)
opr_stringlist_read-end_example =
    opr_stringlist_read-end open_list 0 4 200 5 2 open_offset open_length

read-number_emit_example :
    (b' : List ℕ) × (number_emit list_buffer 300 (9 ∷ []) ≡ some b')
    × (number_read [] (b' ++ (7 ∷ [])) 1 ≡ got (length b') 300)
read-number_emit_example = read-number_emit list_buffer [] 300 (9 ∷ []) (7 ∷ []) (omega arith)

-- Extension 0 has one operand, a string that fails to be read.
abbrev failing : List Extension
failing = record { operands = some (extension_operand (string_class (some no_string)) ∷ []) } ∷ []

failing_settles : ExtensionsSettle failing
failing_settles = ((λ code a. tt, tt), tt)

-- A catenated string of three elements, two of which are the extension's and missing.
abbrev cut_off : List ℕ
cut_off = 7 ∷ 3 ∷ 8 ∷ []

string_read-Settles_example : Settles 0 (string_read 4 failing cut_off 0)
string_read-Settles_example =
    string_read-Settles failing failing_settles 4 cut_off 0 (omega arith) (omega arith)
