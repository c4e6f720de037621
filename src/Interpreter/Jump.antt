-- ===== src/Interpreter/Jump.antt =====
-- Jumps: which targets are accepted, and where the program goes.
use pigeonhole.Prelude.{
  ℕ, ◌+◌, ◌≤◌, ◌<◌, ◌≡◌, refl, ◌↔◌, ◌⊎◌, inl, inr, Bool, true, false, length, not, if◌then◌else◌,
  arith,
}
use pigeonhole.Binary.Offset.{read_offset_cases}
use pigeonhole.Interpreter.{
  Exec, exec_ok, Interp, Run, done, check_program_jump, do_program_jump, program_jump,
  program_jump_to, then_run,
}
use pigeonhole.Interpreter.Invariant.{IsValid, EndsValid, loop_break_out-IsValid}

-- A target is accepted exactly if it lies in the code behind its first byte and, unless loops are
-- broken, in front of the end of the innermost loop.
pub check_program_jump_iff :
    (s : Interp) (target : ℕ) (break_loops : Bool)
    → (check_program_jump s target break_loops ≡ exec_ok)
      ↔ (0 < target)
        × (target ≤ length s.code)
        × ((break_loops ≡ true) ⊎ (s.loop_limit ≡ 0) ⊎ (target < s.loop_limit))
unfolding check_program_jump
check_program_jump_iff s target true = ground arith
check_program_jump_iff s target false = ground arith

-- A jump of the byte code (JMP, JMPTRUE, JMPFALSE) never goes back and stays in the code and in
-- front of the loop's end; the loops stay as they are.
program_jump_bounds :
    (s s' : Interp) (jump : Bool)
    → program_jump s jump false ≡ done exec_ok s'
    → (s.pc ≤ s'.pc)
      × (s'.pc ≤ length s.code)
      × (s'.code ≡ s.code)
      × (s'.loop_stack ≡ s.loop_stack)
      × (s'.loop_limit ≡ s.loop_limit)
      × (jump ≡ true → 0 < s.loop_limit → s'.pc < s.loop_limit)
unfolding program_jump check_program_jump do_program_jump
program_jump_bounds s s' jump e = elim (read_offset_cases s.code s.pc) [
  | inl (h, (n, hn, r)) ↦ ground (arith, r)
  | inr (h, r) ↦ ground (arith, r)
]

then_run-IsValid :
    (e : Exec) (s t : Interp) (next : Interp → Run)
    → EndsValid s (done e t)
    → (e ≡ exec_ok → EndsValid s (next t))
    → EndsValid s (then_run (done e t) next)
then_run-IsValid exec_ok s t next v h = h refl
then_run-IsValid _ s t next v h = v

do_program_jump-IsValid :
    (s t : Interp) (target : ℕ) (break_loops : Bool)
    → IsValid t
    → target ≤ length t.code
    → EndsValid s (do_program_jump t target break_loops)
unfolding do_program_jump
do_program_jump-IsValid s t target true v h =
    let (s', e, same, v') = loop_break_out-IsValid t target v in
    rw (e, do_program_jump) (record { loops_in = v'.loops_in; depth = v'.depth }, λ k. rw same h)
do_program_jump-IsValid s t target false v h =
    (record { loops_in = v.loops_in; depth = v.depth }, λ k. h)

pub program_jump_to-IsValid :
    (s : Interp) (target : ℕ) (break_loops : Bool)
    → IsValid s
    → EndsValid s (program_jump_to s target break_loops)
unfolding program_jump_to
program_jump_to-IsValid s target break_loops v =
    then_run-IsValid (check_program_jump s target break_loops) s s _ (v, λ h. h)
      (λ accepted.
        do_program_jump-IsValid s s target break_loops v
          ((check_program_jump_iff s target break_loops).0 accepted).1)

-- From a valid state, whatever the bytes are, a jump does not crash: it ends in a valid state, and
-- leaves the code nowhere.
pub program_jump-IsValid :
    (s : Interp) (jump break_loops : Bool)
    → IsValid s
    → EndsValid s (program_jump s jump break_loops)
unfolding program_jump
program_jump-IsValid s jump break_loops v = elim (read_offset_cases s.code s.pc) [
  | inr (h, r) ↦ rw (r, program_jump) (v, λ k. k)
  | inl (h, (n, hn, r)) ↦
      let s' : Interp = record s { pc = s.pc + 4 } in
      let v' : IsValid s' = record { loops_in = v.loops_in; depth = v.depth } in
      rw (r, program_jump)
        (then_run-IsValid (check_program_jump s' (s.pc + n) break_loops) s s' _ (v', λ k. h)
          (λ accepted.
            jump_or_stay jump s s' (s.pc + n) break_loops v' h
              ((check_program_jump_iff s' (s.pc + n) break_loops).0 accepted).1))
]
  where
    jump_or_stay :
        (jump : Bool) (s t : Interp) (target : ℕ) (break_loops : Bool)
        → IsValid t
        → t.pc ≤ length t.code
        → target ≤ length t.code
        → EndsValid s (if not jump then done exec_ok t else do_program_jump t target break_loops)
    jump_or_stay true s t target break_loops v k h =
        do_program_jump-IsValid s t target break_loops v h
    jump_or_stay false s t target break_loops v k h = (v, λ _. k)
