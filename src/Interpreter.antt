-- ===== src/Interpreter.antt =====
-- Loops and jumps of the byte code interpreter (src/lib-sieve/sieve-interpreter.c), and the jump
-- operations of src/lib-sieve/sieve-code.c.
--
-- The array `loop_stack` is a list with the innermost loop first: `loops[count - 1]` is its head,
-- and an array that has not been created is empty. A pointer to a loop is its depth, the number of
-- loops inside it. An extension is known by a number. Trace output, memory pools, the loop's
-- `context` and the table of extensions are left out: none of them is read here.
pub mod Invariant
pub mod Jump
pub mod Nesting
pub mod Continue
pub mod Operation
use pigeonhole.Prelude.{
  ℕ, zero, suc, ◌+◌, ◌-◌, ◌≤◌, ◌<◌, ◌≡◌, Bool, true, false, not, ◌&&◌, ◌||◌, Option, none, some,
  List, [], ◌∷◌, length, get_elem?, drop, ltb, leb, ◌==◌, if◌then◌else◌,
}
use pigeonhole.Binary.{Read, ok, refused, fault, read_offset}

-- The SIEVE_EXEC_* codes; those behind the first are not positive.
pub data Exec : Type 0 where
  exec_ok failure temp_failure bin_corrupt keep_failed resource_limit : Exec

pub record Loop : Type 0 where
  pub level : ℕ
  pub begin : ℕ
  pub end_at : ℕ
  pub ext_def : ℕ

-- `code` is the data of the block that runs, and `pc` is `runenv.pc`.
pub record Interp : Type 0 where
  pub code : List ℕ
  pub pc : ℕ
  pub reset_vector : ℕ
  pub loop_stack : List Loop
  pub loop_limit : ℕ
  pub parent_loop_level : ℕ
  pub interrupted : Bool
  pub test_result : Bool

-- A call returns a status and the new state, or it ends in a failed assertion or a read behind the
-- end of the code.
pub data Run : Type 0 where
  done : Exec → Interp → Run
  crash : Run

-- SIEVE_MAX_LOOP_DEPTH
abbrev pub max_loop_depth : ℕ
max_loop_depth = 4

unfoldable pub loop_start : Interp → ℕ → ℕ → Run
loop_start s loop_end ext =
    let count = length s.loop_stack in
    if not (ltb s.pc loop_end)
    then crash
    else if ltb (length s.code) loop_end
    then done bin_corrupt s
    else if leb max_loop_depth (s.parent_loop_level + count)
    then done failure s
    else done exec_ok (record s {
      loop_stack =
          record { level = count; begin = s.pc; end_at = loop_end; ext_def = ext } ∷ s.loop_stack;
      loop_limit = loop_end;
    })

-- The depth of the innermost loop that passes a test.
unfoldable pub find_loop : (Loop → Bool) → List Loop → Option ℕ
find_loop test [] = none
find_loop test (l ∷ loops) =
    if test l then some 0 else elim (find_loop test loops) [ none ↦ none | some d ↦ some (suc d) ]

unfoldable pub loop_get : Interp → ℕ → ℕ → Option ℕ
unfolding find_loop
loop_get s loop_end ext = find_loop (λ l. l.end_at == loop_end && l.ext_def == ext) s.loop_stack

unfoldable pub loop_next : Interp → ℕ → ℕ → Run
loop_next s depth loop_begin = elim (get_elem? s.loop_stack depth) [
  | none ↦ crash
  | some l ↦
      if not (l.begin == loop_begin)
      then done bin_corrupt s
      else if not (depth == 0)
      then crash
      else done exec_ok (record s { pc = loop_begin })
]

-- `loops[i]` is the loop that is left and `i` the number of loops around it.
unfoldable pub loop_break : Interp → ℕ → Run
loop_break s depth = elim (get_elem? s.loop_stack depth) [
  | none ↦ crash
  | some l ↦
      let around = drop (suc depth) s.loop_stack in
      done exec_ok (record s {
        loop_limit = if ltb 0 (length around) then l.end_at else 0;
        loop_stack = around;
        pc = l.end_at;
      })
]

-- The number of loops, from the innermost on, that end at `target` or before it.
unfoldable pub ended_loops : ℕ → List Loop → ℕ
ended_loops target [] = 0
ended_loops target (l ∷ loops) = if ltb target l.end_at then 0 else suc (ended_loops target loops)

unfoldable pub loop_break_out : Interp → ℕ → Run
unfolding ended_loops loop_break
loop_break_out s target = elim (ended_loops target s.loop_stack) [
  | zero ↦ done exec_ok s
  | suc d ↦ loop_break s d
]

-- The innermost loop, or with `some depth` the innermost one around the loop at that depth, that
-- belongs to the extension; `none` for `ext` stands for NULL.
unfoldable pub loop_get_local : Interp → Option ℕ → Option ℕ → Option ℕ
unfolding find_loop
loop_get_local s inside ext =
    let test : Loop → Bool = λ l. elim ext [ none ↦ true | some e ↦ l.ext_def == e ] in
    elim inside [
      | none ↦ find_loop test s.loop_stack
      | some depth ↦ elim (find_loop test (drop (suc depth) s.loop_stack)) [
        | none ↦ none
        | some d ↦ some (suc depth + d)
      ]
    ]

unfoldable pub check_program_jump : Interp → ℕ → Bool → Exec
check_program_jump s jmp_target break_loops =
    let limit = if break_loops then 0 else s.loop_limit in
    if jmp_target == 0 || (ltb (length s.code) jmp_target || (ltb 0 limit && leb limit jmp_target))
    then bin_corrupt
    else exec_ok

-- `ret <= 0` returns; otherwise the program counter is set.
abbrev pub then_run : Run → (Interp → Run) → Run
then_run crash next = crash
then_run (done exec_ok s) next = next s
then_run (done failure s) next = done failure s
then_run (done temp_failure s) next = done temp_failure s
then_run (done bin_corrupt s) next = done bin_corrupt s
then_run (done keep_failed s) next = done keep_failed s
then_run (done resource_limit s) next = done resource_limit s

unfoldable pub do_program_jump : Interp → ℕ → Bool → Run
unfolding loop_break_out
do_program_jump s jmp_target break_loops =
    then_run (if break_loops then loop_break_out s jmp_target else done exec_ok s)
      (λ s'. done exec_ok (record s' { pc = jmp_target }))

unfoldable pub program_jump_to : Interp → ℕ → Bool → Run
unfolding check_program_jump do_program_jump
program_jump_to s jmp_target break_loops =
    then_run (done (check_program_jump s jmp_target break_loops) s)
      (λ s'. do_program_jump s' jmp_target break_loops)

-- The offset counts from where it stands. Reading it moves the program counter behind it.
unfoldable pub program_jump : Interp → Bool → Bool → Run
unfolding check_program_jump do_program_jump
program_jump s jump break_loops = elim (read_offset s.code s.pc) [
  | fault ↦ crash
  | refused address ↦ done bin_corrupt (record s { pc = address })
  | ok address jmp_offset ↦
      let jmp_target = s.pc + jmp_offset in
      let s' : Interp = record s { pc = address } in
      then_run (done (check_program_jump s' jmp_target break_loops) s')
        (λ s''. if not jump then done exec_ok s'' else do_program_jump s'' jmp_target break_loops)
]

-- The operations JMP, JMPTRUE and JMPFALSE.
unfoldable pub jmp_execute : Interp → Run
unfolding program_jump
jmp_execute s = program_jump s true false

unfoldable pub jmptrue_execute : Interp → Run
unfolding program_jump
jmptrue_execute s = program_jump s s.test_result false

unfoldable pub jmpfalse_execute : Interp → Run
unfolding program_jump
jmpfalse_execute s = program_jump s (not s.test_result) false

abbrev pub interp_reset : Interp → Interp
interp_reset s = record s { pc = s.reset_vector; interrupted = false; test_result = false }

abbrev pub interp_interrupt : Interp → Interp
interp_interrupt s = record s { interrupted = true }

abbrev pub set_test_result : Interp → Bool → Interp
set_test_result s result = record s { test_result = result }

pub data Round : Type 0 where
  again : Interp → Round
  stop : Run → Round

-- One round of the loop of sieve_interpreter_continue: `execute` is
-- sieve_interpreter_operation_execute at the program counter, and `exceeded` says that a CPU limit
-- is set and exceeded.
unfoldable pub continue_round : (Interp → Run) → Bool → Interp → Round
continue_round execute exceeded s =
    if s.interrupted || leb (length s.code) s.pc
    then stop (done exec_ok s)
    else if exceeded
    then stop (done resource_limit s)
    else if not (s.loop_limit == 0) && ltb s.loop_limit s.pc
    then stop (done bin_corrupt s)
    else elim (execute s) [
      | crash ↦ stop crash
      | done ret s' ↦ elim ret [ exec_ok ↦ again s' | other ↦ stop (done other s') ]
    ]

-- A program with loops may run for long, so the rounds are counted down; `none` says that there
-- were too few. `exceeded` is asked in each round.
unfoldable pub continue_loop : (Interp → Run) → (ℕ → Bool) → ℕ → Interp → Option Run
unfolding continue_round
continue_loop execute exceeded zero s = none
continue_loop execute exceeded (suc rounds) s = elim (continue_round execute (exceeded rounds) s) [
  | stop r ↦ some r
  | again s' ↦ continue_loop execute exceeded rounds s'
]

unfoldable pub interp_continue : (Interp → Run) → (ℕ → Bool) → ℕ → Interp → Option Run
unfolding continue_loop
interp_continue execute exceeded rounds s =
    continue_loop execute exceeded rounds (record s { interrupted = false })
