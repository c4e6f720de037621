-- ===== src/Interpreter/Continue.antt =====
-- When the interpreter's main loop ends.
use pigeonhole.Prelude.{
  ℕ, zero, suc, ◌-◌, ◌<◌, ◌≡◌, refl, ◌⊎◌, inl, inr, Bool, false, some, length, arith,
}
use pigeonhole.Interpreter.{
  exec_ok, Interp, Run, done, Round, again, stop, continue_round, continue_loop, interp_continue,
}

-- An operation that moves the program counter on inside an unchanged block, or ends the program.
abbrev pub MovesOn : (Interp → Run) → Type 0
MovesOn execute =
    (s s' : Interp) → execute s ≡ done exec_ok s' → (s.pc < s'.pc) × (s'.code ≡ s.code)

round_again :
    (execute : Interp → Run) (exceeded : Bool) (s s' : Interp)
    → continue_round execute exceeded s ≡ again s'
    → (s.pc < length s.code) × (execute s ≡ done exec_ok s')
unfolding continue_round
round_again execute exceeded s s' e = ground arith

Round-cases : (r : Round) → ((s : Interp) × (r ≡ again s)) ⊎ ((end : Run) × (r ≡ stop end))
Round-cases (again s) = inl (s, refl)
Round-cases (stop end) = inr (end, refl)

loop_ends :
    (execute : Interp → Run) (exceeded : ℕ → Bool) (rounds : ℕ) (s : Interp)
    → MovesOn execute
    → length s.code - s.pc < rounds
    → (r : Run) × (continue_loop execute exceeded rounds s ≡ some r)
unfolding continue_loop
loop_ends execute exceeded zero s moves h = absurd (omega arith)
loop_ends execute exceeded (suc rounds) s moves h =
    elim (Round-cases (continue_round execute (exceeded rounds) s)) [
      | inr (end, e) ↦ (end, rw (e, continue_loop))
      | inl (s', e) ↦
          let (inside, step) = round_again execute (exceeded rounds) s s' e in
          let (on, same) = moves s s' step in
          let fewer : length s'.code - s'.pc < rounds = rw same (omega arith) in
          rw (e, continue_loop) (loop_ends execute exceeded rounds s' moves fewer)
    ]

-- Where each operation moves on, as all but the end of a loop does, the main loop ends: one round
-- more than there are bytes is enough.
pub interp_continue_ends :
    (execute : Interp → Run) (exceeded : ℕ → Bool) (s : Interp)
    → MovesOn execute
    → (r : Run) × (interp_continue execute exceeded (suc (length s.code)) s ≡ some r)
unfolding interp_continue
interp_continue_ends execute exceeded s moves =
    loop_ends execute exceeded (suc (length s.code)) (record s { interrupted = false }) moves
      (omega arith)
