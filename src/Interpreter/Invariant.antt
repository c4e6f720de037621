-- ===== src/Interpreter/Invariant.antt =====
-- What holds of every state that the loop and jump operations reach.
use pigeonhole.Prelude.{
  ℕ, zero, suc, ◌+◌, ◌≤◌, ◌<◌, ◌≡◌, refl, some, List, [], ◌∷◌, ◌++◌, length, get_elem?, drop, ltb,
  All, ap, Bool-cases, inl, inr, if◌then◌else◌, length-drop, get_elem?-some, arith,
}
use pigeonhole.Interpreter.{
  exec_ok, Loop, Interp, Run, done, crash, max_loop_depth, loop_start, loop_next, loop_break,
  loop_break_out, ended_loops,
}

-- Loops lie in the code, and a loop's level is the number of loops around it.
abbrev pub LoopsIn : ℕ → List Loop → Type 0
LoopsIn size [] = Unit {0}
LoopsIn size (l ∷ loops) =
    (l.begin < l.end_at) × (l.end_at ≤ size) × (l.level ≡ length loops) × LoopsIn size loops

pub record IsValid (s : Interp) : Type 0 where
  pub loops_in : LoopsIn (length s.code) s.loop_stack
  pub depth : s.parent_loop_level + length s.loop_stack ≤ max_loop_depth

-- The run from `s` does not crash and ends in a valid state, with the program counter in the code
-- if it has been there.
abbrev pub EndsValid : Interp → Run → Type 0
EndsValid s (done e s') = IsValid s' × (s.pc ≤ length s.code → s'.pc ≤ length s'.code)
EndsValid s crash = ⊥

-- An asserted loop end behind the program counter is all that a loop start needs.
pub loop_start-IsValid :
    (s : Interp) (loop_end ext : ℕ)
    → s.pc < loop_end
    → IsValid s
    → EndsValid s (loop_start s loop_end ext)
unfolding loop_start
loop_start-IsValid s loop_end ext h v = ground arith

LoopsIn-drop : (size n : ℕ) (loops : List Loop) → LoopsIn size loops → LoopsIn size (drop n loops)
LoopsIn-drop size zero loops h = h
LoopsIn-drop size (suc n) [] h = tt
LoopsIn-drop size (suc n) (l ∷ loops) h = LoopsIn-drop size n loops h.3

pub LoopsIn-get :
    (size n : ℕ) (loops : List Loop) (l : Loop)
    → LoopsIn size loops
    → get_elem? loops n ≡ some l
    → (l.begin < l.end_at) × (l.end_at ≤ size)
LoopsIn-get size n [] l h e = cc
LoopsIn-get size zero (l' ∷ loops) l h e = ground arith
LoopsIn-get size (suc n) (l' ∷ loops) l h e = LoopsIn-get size n loops l h.3 e

length-drop_le : (n : ℕ) (loops : List Loop) → length (drop n loops) ≤ length loops
length-drop_le n loops = omega (arith, length-drop n loops)

-- Going back needs the innermost loop; at a wrong begin address nothing happens.
pub loop_next-IsValid :
    (s : Interp) (loop_begin : ℕ)
    → 0 < length s.loop_stack
    → IsValid s
    → EndsValid s (loop_next s 0 loop_begin)
unfolding loop_next
loop_next-IsValid s loop_begin h v =
    let (l, e) = get_elem?-some s.loop_stack 0 h in
    rw (e, loop_next) (ground (arith, LoopsIn-get (length s.code) 0 s.loop_stack l v.loops_in e))

-- The state in which `loop_break` leaves the loop `l` at `depth`.
abbrev left_loops : Interp → ℕ → Loop → Interp
left_loops s depth l = record s {
  loop_limit = if ltb 0 (length (drop (suc depth) s.loop_stack)) then l.end_at else 0;
  loop_stack = drop (suc depth) s.loop_stack;
  pc = l.end_at;
}

pub loop_break-IsValid :
    (s : Interp) (depth : ℕ)
    → depth < length s.loop_stack
    → IsValid s
    → EndsValid s (loop_break s depth)
unfolding loop_break
loop_break-IsValid s depth h v =
    let (l, e) = get_elem?-some s.loop_stack depth h in
    rw (e, loop_break)
      (
        record {
          loops_in = LoopsIn-drop (length s.code) (suc depth) s.loop_stack v.loops_in;
          depth = omega (arith, length-drop_le (suc depth) s.loop_stack);
        },
        λ h. (LoopsIn-get (length s.code) depth s.loop_stack l v.loops_in e).1,
      )

ended_loops-le : (target : ℕ) (loops : List Loop) → ended_loops target loops ≤ length loops
unfolding ended_loops
ended_loops-le target [] = omega arith
ended_loops-le target (l ∷ loops) = ground (arith, ended_loops-le target loops)

-- The first of the loops, if there is one, ends behind the target.
abbrev pub EndsBehind : ℕ → List Loop → Type 0
EndsBehind target [] = Unit {0}
EndsBehind target (l ∷ loops) = target < l.end_at

abbrev Parts : ℕ → List Loop → List Loop → Type 0
Parts target loops left =
    (ended : List Loop) × (loops ≡ ended ++ left)
    × All (λ l. l.end_at ≤ target) ended
    × EndsBehind target left

ended_loops-Parts :
    (target : ℕ) (loops : List Loop) → Parts target loops (drop (ended_loops target loops) loops)
unfolding ended_loops
ended_loops-Parts target [] = ([], refl, tt, tt)
ended_loops-Parts target (l ∷ loops) = elim (Bool-cases (ltb target l.end_at)) [
  | inl e ↦ rw (e, Parts) ([], refl, tt, ground (arith, e))
  | inr e ↦
      let (ended, same, all, behind) = ended_loops-Parts target loops in
      rw (e, Parts) (l ∷ ended, ap (λ t. l ∷ t) same, (ground (arith, e), all), behind)
]

broken_out :
    (s : Interp) (target : ℕ)
    → (s' : Interp) × (loop_break_out s target ≡ done exec_ok s')
      × (s'.loop_stack ≡ drop (ended_loops target s.loop_stack) s.loop_stack)
      × (s'.code ≡ s.code)
      × (IsValid s → EndsValid s (done exec_ok s'))
unfolding loop_break_out
broken_out s target = go (ended_loops target s.loop_stack) refl
  where
    go :
        (k : ℕ)
        → ended_loops target s.loop_stack ≡ k
        → (s' : Interp) × (loop_break_out s target ≡ done exec_ok s')
          × (s'.loop_stack ≡ drop (ended_loops target s.loop_stack) s.loop_stack)
          × (s'.code ≡ s.code)
          × (IsValid s → EndsValid s (done exec_ok s'))
    go zero e = rw e (s, rw (e, loop_break_out), refl, refl, λ v. (v, λ h. h))
    go (suc d) e =
        let inside : d < length s.loop_stack =
          omega (arith, e, ended_loops-le target s.loop_stack) in
        let (l, found) = get_elem?-some s.loop_stack d inside in
        rw e (
          left_loops s d l,
          rw (e, loop_break_out) (rw (found, loop_break) refl),
          refl,
          refl,
          λ v. rw (found, loop_break) at (loop_break-IsValid s d inside v),
        )

pub loop_break_out-IsValid :
    (s : Interp) (target : ℕ)
    → IsValid s
    → (s' : Interp) × (loop_break_out s target ≡ done exec_ok s') × (s'.code ≡ s.code) × IsValid s'
loop_break_out-IsValid s target v =
    let (s', e, left, same, valid) = broken_out s target in (s', e, same, (valid v).0)

-- Breaking out always succeeds. It drops the innermost loops that end at the target or before it,
-- up to the first one that ends behind it, and keeps that one and those around it.
pub loop_break_out_lem :
    (s : Interp) (target : ℕ)
    → (s' : Interp) × (loop_break_out s target ≡ done exec_ok s')
      × ((ended : List Loop) × (s.loop_stack ≡ ended ++ s'.loop_stack)
          × All (λ l. l.end_at ≤ target) ended
          × EndsBehind target s'.loop_stack)
      × (s'.code ≡ s.code)
loop_break_out_lem s target =
    let (s', e, left, same, valid) = broken_out s target in
    (s', e, rw left (ended_loops-Parts target s.loop_stack), same)
