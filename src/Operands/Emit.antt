-- ===== src/Operands/Emit.antt =====
-- Emission of operands (src/lib-sieve/sieve-code.c) and of the arguments of commands
-- (src/lib-sieve/sieve-commands.c). `none` is a number that emission writes in front of its array.
use pigeonhole.Prelude.{ℕ, suc, Option, none, some, List, if◌then◌else◌, ◌==◌}
use pigeonhole.Binary.{Buffer, emit_byte, emit_offset, resolve_offset, emit_integer, emit_string}

abbrev pub then_some {ℓ κ} : {A : Type ℓ} {B : Type κ} → Option A → (A → Option B) → Option B
then_some none f = none
then_some (some x) f = f x

-- A string argument: a literal, or strings to be catenated when it is evaluated.
mutual
  pub data StringArg : Type 0 where
    literal : List ℕ → StringArg
    catenated : StringArgs → StringArg

  pub data StringArgs : Type 0 where
    no_args : StringArgs
    and_arg : StringArg → StringArgs → StringArgs

abbrev pub arg_count : StringArgs → ℕ
arg_count no_args = 0
arg_count (and_arg arg args) = suc (arg_count args)

module _ (B : Buffer) where
  open B use {Buf}

  -- A core operand, by its code.
  unfoldable pub operand_emit : ℕ → Buf → Buf
  unfolding emit_byte
  operand_emit code b = (emit_byte B b code).0

  unfoldable pub number_emit : ℕ → Buf → Option Buf
  unfolding operand_emit emit_integer
  number_emit n b = then_some (emit_integer B (operand_emit 1 b) n) (λ e. some e.0)

  unfoldable pub string_emit : List ℕ → Buf → Option Buf
  unfolding operand_emit emit_string
  string_emit str b = then_some (emit_string B (operand_emit 2 b) str) (λ e. some e.0)

  unfoldable pub catenated_string_emit : ℕ → Buf → Option Buf
  unfolding operand_emit emit_integer
  catenated_string_emit elements b =
      then_some (emit_integer B (operand_emit 7 b) elements) (λ e. some e.0)

  -- The block, and where the offset to the end of the list stands.
  unfoldable pub stringlist_emit_start : ℕ → Buf → Option (Buf × ℕ)
  unfolding operand_emit emit_offset emit_integer
  stringlist_emit_start listlen b =
      let (b', end_offset) = emit_offset B (operand_emit 3 b) 0 in
      then_some (emit_integer B b' listlen) (λ e. some (e.0, end_offset))

  unfoldable pub stringlist_emit_end : ℕ → Buf → Option Buf
  unfolding resolve_offset
  stringlist_emit_end end_offset b = resolve_offset B b end_offset

  -- sieve_generate_argument of a string argument, and of each in turn. Of a single string to be
  -- catenated nothing is made but the string.
  unfoldable mutual
    unfolding string_emit catenated_string_emit

    pub string_arg_generate : StringArg → Buf → Option Buf
    string_arg_generate (literal str) b = string_emit str b
    string_arg_generate (catenated args) b =
        let elements = string_args_generate args in
        if arg_count args == 1
        then elements b
        else then_some (catenated_string_emit (arg_count args) b) elements

    pub string_args_generate : StringArgs → Buf → Option Buf
    string_args_generate no_args b = some b
    string_args_generate (and_arg arg args) b =
        then_some (string_arg_generate arg b) (string_args_generate args)

  unfoldable pub string_list_emit : StringArgs → Buf → Option Buf
  unfolding stringlist_emit_start stringlist_emit_end string_args_generate
  string_list_emit args b =
      then_some (stringlist_emit_start (arg_count args) b)
        (λ started. then_some (string_args_generate args started.0) (stringlist_emit_end started.1))

  -- arg_string_list_generate: a list of one string is emitted as that string.
  unfoldable pub string_list_generate : StringArgs → Buf → Option Buf
  unfolding string_list_emit
  string_list_generate args b =
      if arg_count args == 1 then string_args_generate args b else string_list_emit args b
