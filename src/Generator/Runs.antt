-- ===== src/Generator/Runs.antt =====
-- Running generated jumps (src/lib-sieve/sieve-interpreter.c, sieve_interpreter_continue).
use pigeonhole.Prelude.{
  ℕ, ◌+◌, ◌-◌, ◌<◌, ◌≡◌, Bool, true, false, not, some, length, get_elem?, if◌then◌else◌, arith,
}
use pigeonhole.Interpreter.{
  exec_ok, Interp, Run, done, again, continue_round, program_jump, check_program_jump,
  do_program_jump, jmp_execute, jmptrue_execute, jmpfalse_execute,
}
use pigeonhole.Interpreter.Operation.{
  operation_execute, operation_jmp, operation_jmptrue, operation_jmpfalse,
}
use pigeonhole.Generator.Resolve.{LeadsTo}

-- Rounds of the interpreter's loop, none of which ends it.
pub data Rounds (execute : Interp → Run) (s : Interp) : Interp → Type 0 where
  stay : Rounds execute s s
  round :
      {t u : Interp}
      → Rounds execute s t
      → continue_round execute false t ≡ again u
      → Rounds execute s u

pub Rounds-trans :
    {execute : Interp → Run} {s t u : Interp}
    → Rounds execute s t
    → Rounds execute t u
    → Rounds execute s u
Rounds-trans h stay = h
Rounds-trans h (round k e) = round (Rounds-trans h k) e

program_jump_lem :
    (s : Interp) (jump : Bool) (target : ℕ)
    → LeadsTo s.code target s.pc
    → s.loop_limit ≡ 0
    → program_jump s jump false ≡ done exec_ok (record s { pc = if jump then target else s.pc + 4 })
unfolding program_jump check_program_jump do_program_jump
program_jump_lem s jump target h l =
    let sum : s.pc + (target - s.pc) ≡ target = omega (arith, h.forward) in
    ground (arith, h.offset, h.forward, h.inside, sum)

-- A result is the one that is jumped on.
abbrev pub agrees : Bool → Bool → Bool
agrees jump_true result = if jump_true then result else not result

-- A program with no open loop, at a position and with a test result.
module _ (others : ℕ → Interp → Run) (base : Interp) where
  abbrev pub at : ℕ → Bool → Interp
  at pc result = record base { pc = pc; test_result = result }

  abbrev pub RunsTo : Interp → Interp → Type 0
  RunsTo s t = Rounds (operation_execute others) s t

  module _ (no_loop : base.loop_limit ≡ 0) (runs : base.interrupted ≡ false) where
    -- An operation that goes on, as a round.
    pub round_of :
        (p : ℕ) (r : Bool) (s : Interp)
        → p < length base.code
        → operation_execute others (at p r) ≡ done exec_ok s
        → RunsTo (at p r) s
    unfolding continue_round
    round_of p r s h e = round stay (ground arith)

    pub jmp-RunsTo :
        (p target : ℕ) (r : Bool)
        → get_elem? base.code p ≡ some operation_jmp
        → LeadsTo base.code target (p + 1)
        → RunsTo (at p r) (at target r)
    unfolding operation_execute jmp_execute
    jmp-RunsTo p target r e h =
        round_of p r (at target r) (omega (arith, h.forward, h.inside)) (
          ground
            (arith, h.forward, h.inside, program_jump_lem (at (p + 1) r) true target h no_loop))

    pub jump_if-RunsTo :
        (jump_true : Bool) (p target : ℕ) (r : Bool)
        → get_elem? base.code p ≡ some (if jump_true then operation_jmptrue else operation_jmpfalse)
        → LeadsTo base.code target (p + 1)
        → RunsTo (at p r) (at (if agrees jump_true r then target else p + 5) r)
    unfolding operation_execute jmptrue_execute jmpfalse_execute
    jump_if-RunsTo true p target r e h =
        round_of p r (at (if r then target else p + 5) r) (omega (arith, h.forward, h.inside))
          (ground (arith, h.forward, h.inside, program_jump_lem (at (p + 1) r) r target h no_loop))
    jump_if-RunsTo false p target r e h =
        round_of p r (at (if not r then target else p + 5) r) (omega (arith, h.forward, h.inside)) (
          ground
            (arith, h.forward, h.inside, program_jump_lem (at (p + 1) r) (not r) target h no_loop))
