-- ===== src/Tests/Loops.antt =====
-- Loops and jumps at concrete programs (src/lib-sieve/sieve-interpreter.c).
use pigeonhole.Prelude.{ℕ, suc, ◌≡◌, refl, true, false, some, List, [], ◌∷◌, ◌++◌, ◌≤◌, All, arith}
use pigeonhole.Binary.{read_offset, offset_loop}
use pigeonhole.Interpreter.{
  exec_ok, bin_corrupt, Loop, Interp, Run, done, stop, loop_start, loop_get, loop_next, loop_break,
  loop_break_out, check_program_jump, do_program_jump, program_jump, continue_round,
  interp_continue,
}
use pigeonhole.Interpreter.Invariant.{IsValid, EndsBehind, loop_break_out_lem}
use pigeonhole.Interpreter.Nesting.{
  loop_start_lem, nested_break_corrupt, start, other, here, more, leave, jump, Reach-IsValid,
}
use pigeonhole.Interpreter.Continue.{MovesOn, interp_continue_ends}

-- Eight bytes of code: an offset of 6 at address 1.
abbrev program : List ℕ
program = 1 ∷ 0 ∷ 0 ∷ 0 ∷ 6 ∷ 5 ∷ 5 ∷ 5 ∷ []

abbrev at_begin : Interp
at_begin = record {
  code = program;
  pc = 1;
  reset_vector = 0;
  loop_stack = [];
  loop_limit = 0;
  parent_loop_level = 0;
  interrupted = false;
  test_result = false;
}

at_begin-IsValid : IsValid at_begin
at_begin-IsValid = record { loops_in = tt; depth = omega arith }

abbrev in_loop : Interp
in_loop = record at_begin {
  loop_stack = record { level = 0; begin = 1; end_at = 6; ext_def = 3 } ∷ [];
  loop_limit = 6;
}

loop_started : loop_start at_begin 6 3 ≡ done exec_ok in_loop
unfolding loop_start
loop_started = refl

-- The loop is left from behind the end of the code, where another operation has ended, and a jump
-- follows in front.
abbrev far_out : Interp
far_out = record in_loop { pc = 99; test_result = true; interrupted = false }

abbrev left_again : Interp
left_again = record far_out { pc = 6; loop_stack = []; loop_limit = 0 }

loop_left : loop_break far_out 0 ≡ done exec_ok left_again
unfolding loop_break
loop_left = refl

jump_taken :
    program_jump (record left_again { pc = 1 }) true true
    ≡ done exec_ok (record left_again { pc = 7 })
unfolding program_jump check_program_jump do_program_jump read_offset offset_loop loop_break_out
jump_taken = refl

Reach-IsValid_example :
    IsValid (record left_again { pc = 1 }) × IsValid (record left_again { pc = 7 }) × (7 ≤ 8)
Reach-IsValid_example =
    Reach-IsValid at_begin-IsValid
      (other (more (other (more here (start 6 3 loop_started)) 99 true false) (leave 0 loop_left)) 1
        true false)
      (jump true true jump_taken) (omega arith)

loop_start_example :
    (loop_get in_loop 6 3 ≡ some 0)
    × ((pc : ℕ)
        → loop_next (record in_loop { pc = pc }) 0 1 ≡ done exec_ok (record in_loop { pc = 1 }))
    × ((s'' : Interp) × (loop_break in_loop 0 ≡ done exec_ok s'')
        × (s''.loop_stack ≡ [])
        × (s''.pc ≡ 6))
loop_start_example = loop_start_lem at_begin in_loop 6 3 loop_started

abbrev inner : Loop
inner = record { level = 1; begin = 2; end_at = 4; ext_def = 3 }

abbrev outer : Loop
outer = record { level = 0; begin = 1; end_at = 6; ext_def = 3 }

abbrev in_two : Interp
in_two = record at_begin { pc = 3; loop_stack = inner ∷ (outer ∷ []); loop_limit = 4 }

abbrev after_inner : Interp
after_inner = record in_two { pc = 4; loop_stack = outer ∷ []; loop_limit = 4 }

inner_left : loop_break in_two 0 ≡ done exec_ok after_inner
unfolding loop_break
inner_left = refl

abbrev next_byte : Interp → Run
next_byte s = done exec_ok (record s { pc = suc s.pc })

nested_break_example :
    continue_round next_byte false (record after_inner { pc = 5 })
    ≡ stop (done bin_corrupt (record after_inner { pc = 5 }))
nested_break_example =
    nested_break_corrupt next_byte in_two after_inner inner outer [] 5 refl inner_left refl
      (omega arith) (omega arith) (omega arith)

loop_break_out_example :
    (s' : Interp) × (loop_break_out in_two 4 ≡ done exec_ok s')
    × ((ended : List Loop) × (inner ∷ (outer ∷ []) ≡ ended ++ s'.loop_stack)
        × All (λ l. l.end_at ≤ 4) ended
        × EndsBehind 4 s'.loop_stack)
    × (s'.code ≡ program)
loop_break_out_example = loop_break_out_lem in_two 4

next_byte-MovesOn : MovesOn next_byte
next_byte-MovesOn s s' e = ground arith

interp_continue_example :
    (r : Run) × (interp_continue next_byte (λ left. false) 9 at_begin ≡ some r)
interp_continue_example = interp_continue_ends next_byte (λ left. false) at_begin next_byte-MovesOn
