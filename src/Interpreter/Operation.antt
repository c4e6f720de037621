-- ===== src/Interpreter/Operation.antt =====
-- Reading and executing one operation (src/lib-sieve/sieve-interpreter.c,
-- sieve_interpreter_operation_execute; src/lib-sieve/sieve-code.c, sieve_operation_read and
-- sieve_operations), and STOP (src/lib-sieve/cmd-stop.c).
--
-- The jumps and STOP are executed here; `others` executes every other operation by its code, those
-- of extensions included, from the position behind the code.
use pigeonhole.Prelude.{ℕ, ◌==◌, if◌then◌else◌}
use pigeonhole.Binary.{ok, refused, fault, read_byte}
use pigeonhole.Interpreter.{
  exec_ok, bin_corrupt, Interp, Run, done, crash, jmp_execute, jmptrue_execute, jmpfalse_execute,
  interp_interrupt,
}

-- SIEVE_OPERATION_*
abbrev pub operation_invalid : ℕ
operation_invalid = 0

abbrev pub operation_jmp : ℕ
operation_jmp = 1

abbrev pub operation_jmptrue : ℕ
operation_jmptrue = 2

abbrev pub operation_jmpfalse : ℕ
operation_jmpfalse = 3

abbrev pub operation_stop : ℕ
operation_stop = 4

abbrev pub stop_execute : Interp → Run
stop_execute s = done exec_ok (interp_interrupt s)

unfoldable pub operation_execute : (ℕ → Interp → Run) → Interp → Run
unfolding jmp_execute jmptrue_execute jmpfalse_execute
operation_execute others s = elim (read_byte s.code s.pc) [
  | fault ↦ crash
  | refused address ↦ done bin_corrupt s
  | ok address code ↦
      let s' : Interp = record s { pc = address } in
      if code == operation_invalid
      then done bin_corrupt s'
      else if code == operation_jmp
      then jmp_execute s'
      else if code == operation_jmptrue
      then jmptrue_execute s'
      else if code == operation_jmpfalse
      then jmpfalse_execute s'
      else if code == operation_stop
      then stop_execute s'
      else others code s'
]
