-- ===== src/Interpreter/Nesting.antt =====
-- Entering, repeating and leaving loops, nested ones included.
use pigeonhole.Prelude.{
  ℕ, zero, suc, ◌≤◌, ◌<◌, ◌≡◌, refl, Bool, false, some, List, [], ◌∷◌, length, arith, ap, get_elem?,
  if◌then◌else◌, ltb, Option-cases, inl, inr,
}
use pigeonhole.Interpreter.{
  Exec, exec_ok, bin_corrupt, Loop, Interp, Run, done, loop_start, loop_get, loop_next, loop_break,
  stop, continue_round, program_jump, program_jump_to,
}
use pigeonhole.Interpreter.Invariant.{
  IsValid, EndsValid, loop_start-IsValid, LoopsIn-get, loop_break-IsValid,
}
use pigeonhole.Interpreter.Jump.{program_jump-IsValid, program_jump_to-IsValid}

abbrev started : Interp → ℕ → ℕ → Interp
started s loop_end ext = record s {
  loop_stack =
      record { level = length s.loop_stack; begin = s.pc; end_at = loop_end; ext_def = ext }
      ∷ s.loop_stack;
  loop_limit = loop_end;
}

started_state :
    (s s' : Interp) (loop_end ext : ℕ)
    → loop_start s loop_end ext ≡ done exec_ok s'
    → s' ≡ started s loop_end ext
unfolding loop_start
started_state s s' loop_end ext e = ground arith

-- A loop that has been started is found again by its end and extension, goes back to where it was
-- started, and leaving it restores the loops around it and continues at its end.
pub loop_start_lem :
    (s s' : Interp) (loop_end ext : ℕ)
    → loop_start s loop_end ext ≡ done exec_ok s'
    → (loop_get s' loop_end ext ≡ some 0)
      × ((pc : ℕ)
          → loop_next (record s' { pc = pc }) 0 s.pc ≡ done exec_ok (record s' { pc = s.pc }))
      × ((s'' : Interp) × (loop_break s' 0 ≡ done exec_ok s'')
          × (s''.loop_stack ≡ s.loop_stack)
          × (s''.pc ≡ loop_end))
unfolding loop_get loop_next loop_break
loop_start_lem s s' loop_end ext e = rw (started_state s s' loop_end ext e) (
  ground arith,
  λ pc. ground arith,
  (
    record (started s loop_end ext) {
      loop_stack = s.loop_stack;
      pc = loop_end;
      loop_limit = if ltb 0 (length s.loop_stack) then loop_end else 0;
    },
    refl,
    refl,
    refl,
  ),
)

-- Leaving a loop that stands inside another one sets the limit to the end of the loop that is left,
-- not to that of the loop around it. So a round of a program that is not interrupted, with the
-- program counter behind that end (which is not 0) and inside the code, stops as a corrupt binary.
pub nested_break_corrupt :
    (execute : Interp → Run) (s s' : Interp) (inner outer : Loop) (loops : List Loop) (pc : ℕ)
    → s.loop_stack ≡ inner ∷ (outer ∷ loops)
    → loop_break s 0 ≡ done exec_ok s'
    → s.interrupted ≡ false
    → 0 < inner.end_at
    → inner.end_at < pc
    → pc < length s.code
    → continue_round execute false (record s' { pc = pc })
      ≡ stop (done bin_corrupt (record s' { pc = pc }))
unfolding loop_break continue_round
nested_break_corrupt execute s s' inner outer loops pc hs e hi h0 h1 h2 =
    ground (arith, ap (λ (l : List Loop). get_elem? l 0) hs)

-- One operation on loops or jumps, whatever its status.
pub data Step : Interp → Interp → Type 0 where
  start :
      {s s' : Interp} {r : Exec} (loop_end ext : ℕ)
      → loop_start s loop_end ext ≡ done r s'
      → Step s s'
  repeat :
      {s s' : Interp} {r : Exec} (depth loop_begin : ℕ)
      → loop_next s depth loop_begin ≡ done r s'
      → Step s s'
  leave : {s s' : Interp} {r : Exec} (depth : ℕ) → loop_break s depth ≡ done r s' → Step s s'
  jump :
      {s s' : Interp} {r : Exec} (taken break_loops : Bool)
      → program_jump s taken break_loops ≡ done r s'
      → Step s s'
  jump_to :
      {s s' : Interp} {r : Exec} (target : ℕ) (break_loops : Bool)
      → program_jump_to s target break_loops ≡ done r s'
      → Step s s'

-- Operations in turn. The others touch no loop; they may set the result of a test, interrupt the
-- program and leave the program counter anywhere, also behind the code.
pub data Reach (s : Interp) : Interp → Type 0 where
  here : Reach s s
  more : {t u : Interp} → Reach s t → Step t u → Reach s u
  other :
      {t : Interp}
      → Reach s t
      → (pc : ℕ) (test_result interrupted : Bool)
      → Reach s (record t { pc = pc; test_result = test_result; interrupted = interrupted })

start_asserts :
    (s : Interp) (loop_end ext : ℕ) {r : Exec} {s' : Interp}
    → loop_start s loop_end ext ≡ done r s'
    → s.pc < loop_end
unfolding loop_start
start_asserts s loop_end ext e = ground arith

inside_loops :
    (loops : List Loop) (depth : ℕ) {l : Loop}
    → get_elem? loops depth ≡ some l
    → depth < length loops
inside_loops [] depth e = cc
inside_loops (l ∷ loops) zero e = omega arith
inside_loops (l ∷ loops) (suc depth) e = omega (arith, inside_loops loops depth e)

leave_inside :
    (s : Interp) (depth : ℕ) {r : Exec} {s' : Interp}
    → loop_break s depth ≡ done r s'
    → depth < length s.loop_stack
unfolding loop_break
leave_inside s depth e = elim (Option-cases (get_elem? s.loop_stack depth)) [
  | inl missing ↦ ground arith
  | inr (l, found) ↦ inside_loops s.loop_stack depth found
]

repeat-IsValid :
    (s : Interp) (depth loop_begin : ℕ) {r : Exec} {s' : Interp}
    → loop_next s depth loop_begin ≡ done r s'
    → IsValid s
    → EndsValid s (done r s')
unfolding loop_next
repeat-IsValid s depth loop_begin e v = elim (Option-cases (get_elem? s.loop_stack depth)) [
  | inl missing ↦ ground arith
  | inr (l, found) ↦
      ground (arith, LoopsIn-get (length s.code) depth s.loop_stack l v.loops_in found)
]

Step-IsValid :
    {s s' : Interp}
    → Step s s'
    → IsValid s
    → IsValid s' × (s.pc ≤ length s.code → s'.pc ≤ length s'.code)
Step-IsValid {s} {s'} (start loop_end ext e) v =
    rw e at (loop_start-IsValid s loop_end ext (start_asserts s loop_end ext e) v)
Step-IsValid {s} {s'} (repeat depth loop_begin e) v = repeat-IsValid s depth loop_begin e v
Step-IsValid {s} {s'} (leave depth e) v =
    rw e at (loop_break-IsValid s depth (leave_inside s depth e) v)
Step-IsValid {s} {s'} (jump taken break_loops e) v =
    rw e at (program_jump-IsValid s taken break_loops v)
Step-IsValid {s} {s'} (jump_to target break_loops e) v =
    rw e at (program_jump_to-IsValid s target break_loops v)

run-IsValid : {s t : Interp} → IsValid s → Reach s t → IsValid t
run-IsValid v here = v
run-IsValid v (more r st) = (Step-IsValid st (run-IsValid v r)).0
run-IsValid v (other r pc test_result interrupted) =
    let v' = run-IsValid v r in record { loops_in = v'.loops_in; depth = v'.depth }

-- From a valid state, whatever sequence of loop starts, repetitions, exits and jumps runs, with
-- other operations between them that touch no loop but may leave the program counter anywhere, the
-- state stays valid: all loops lie in the code, levels count the loops around, and no more than
-- SIEVE_MAX_LOOP_DEPTH loops are open. A further loop start, repetition, exit or jump for which the
-- program counter is in the code leaves it there, in a valid state.
pub Reach-IsValid :
    {s t u : Interp}
    → IsValid s
    → Reach s t
    → Step t u
    → t.pc ≤ length t.code
    → IsValid t × IsValid u × (u.pc ≤ length u.code)
Reach-IsValid v r st h =
    let v' = run-IsValid v r in (v', (Step-IsValid st v').0, (Step-IsValid st v').1 h)
