-- ===== src/Generator/Steps.antt =====
-- What the steps of the generation of a test add to a block and to a jump list.
use pigeonhole.Prelude.{
  ℕ, suc, ◌+◌, inl, some, ◌^◌, ◌≤◌, ◌<◌, ◌≡◌, ◌∙◌, sym, ap, refl, Bool, true, false, not, ◌&&◌,
  ◌||◌, List, [], ◌∷◌, ◌++◌, if◌then◌else◌, ltb, arith, append-nil,
}
use pigeonhole.Binary.{Buffer}
use pigeonhole.Interpreter.{Interp, Run}
use pigeonhole.Interpreter.Operation.{operation_jmp, operation_jmptrue, operation_jmpfalse}
use pigeonhole.Generator.{
  Test, Tests, no_tests, and_test, Gen, done, ignore_result, emit_jump, resolve_all, redirected,
  resolved_behind, generate_leaf,
}
use pigeonhole.Generator.Meaning.{holds, all_hold, any_holds, some_agrees, LeafRuns}
use pigeonhole.Generator.Resolve.{resolve_all_lem, emit_jump_lem}
use pigeonhole.Generator.Runs.{agrees, Rounds-trans}
use pigeonhole.Generator.Pieces.{
  size, Generated, nothing-Generated, jump-Generated, jump_if_runs, redirected-Generated,
}

-- The Boolean identities of the cases.
agrees-not : (jump_true v : Bool) → agrees (not jump_true) v ≡ agrees jump_true (not v)
agrees-not true v = refl
agrees-not false true = refl
agrees-not false false = refl

abbrev pub first_holds : (ℕ → Bool) → Tests → Bool
unfolding holds
first_holds value no_tests = false
first_holds value (and_test t ts) = holds value t

pub not_and : (v w : Bool) → (not v || not w) ≡ not (v && w)
not_and true w = refl
not_and false w = refl

pub some_agrees-step :
    (value : ℕ → Bool) (jump_true : Bool) (t : Test) (ts : Tests)
    → (agrees jump_true (holds value t) || some_agrees value jump_true ts)
      ≡ some_agrees value jump_true (and_test t ts)
unfolding all_hold any_holds
some_agrees-step value true t ts = refl
some_agrees-step value false t ts = not_and (holds value t) (all_hold value ts)

pub and_true : (v : Bool) → (v && true) ≡ v
and_true true = refl
and_true false = refl

pub or_false : (v : Bool) → (v || false) ≡ v
or_false true = refl
or_false false = refl

pub not-not : (v : Bool) → not (not v) ≡ v
not-not true = refl
not-not false = refl

pub both : (a c : Bool) → (a && c) ≡ true → (a ≡ true) × (c ≡ true)
both true c h = (refl, h)
both false c h = absurd (ground (arith, h))

module _ (B : Buffer) (others : ℕ → Interp → Run) where
  open B use {Buf, bytes}

  -- Generation gives a block and new jumps, and the new code goes where it is to go.
  abbrev pub Generates : Gen Buf → Buf → List ℕ → ℕ → Bool → Type 0
  Generates result b jumps most goes =
      (b' : Buf) × (new : List ℕ) × (result ≡ done true b' (jumps ++ new))
      × Generated B others b b' new goes
      × (size B others b' ≤ size B others b + most)

  pub Generates-none :
      (b : Buf) (jumps : List ℕ) (most : ℕ) → Generates (done true b jumps) b jumps most false
  Generates-none b jumps most =
      (b, [], ap (done true b) (sym (append-nil jumps)), nothing-Generated B others b, omega arith)

  pub Generates-emit_jump :
      (b : Buf) (jumps : List ℕ) → Generates (emit_jump B operation_jmp jumps b) b jumps 5 true
  Generates-emit_jump b jumps =
      let (b', e, n, o, kept) = emit_jump_lem B operation_jmp jumps b in
      (b', (size B others b + 1) ∷ [], e, jump-Generated B others b b' n o kept, omega (arith, n))

  -- The result of the only test of a list is not looked at.
  pub Generates-ignore_result :
      (result : Gen Buf) (b : Buf) (jumps : List ℕ) (most : ℕ) (goes goes' : Bool)
      → goes ≡ goes'
      → Generates result b jumps most goes
      → Generates (ignore_result result) b jumps (most + 5) goes'
  Generates-ignore_result result b jumps most goes goes' same (b', new, e, g, m) =
      (b', new, ap ignore_result e, rw (← same) g, omega (arith, m))

  -- The branch for two or more tests.
  pub Generates-many :
      (n : ℕ) (result single : Gen Buf) (b : Buf) (jumps : List ℕ) (most : ℕ) (goes : Bool)
      → Generates result b jumps most goes
      → Generates (if ltb 1 (suc (suc n)) then result else single) b jumps most goes
  Generates-many n result single b jumps most goes h =
      let more : ltb 1 (suc (suc n)) ≡ true = ground arith in rw more h

  pub Generates-wider :
      (result : Gen Buf) (b : Buf) (jumps : List ℕ) (most more : ℕ) (goes : Bool)
      → Generates result b jumps most goes
      → Generates result b jumps (most + more) goes
  Generates-wider result b jumps most more goes (b', new, e, g, m) =
      (b', new, e, g, omega (arith, m))

  pub redirected_lem :
      (b b' b'' : Buf) (own jumps jumps' : List ℕ)
      → emit_jump B operation_jmp jumps b ≡ done true b' jumps'
      → resolve_all B own b' ≡ some b''
      → redirected B (done true b own) jumps ≡ done true b'' jumps'
  unfolding redirected resolved_behind
  redirected_lem b b' b'' own jumps jumps' e e' = ap (resolved_behind B own) e ∙ resolves
    where
      resolves : resolved_behind B own (done true b' jumps') ≡ done true b'' jumps'
      resolves = rw (e', resolved_behind) refl

  pub Generates-redirected :
      (result : Gen Buf) (b : Buf) (jumps : List ℕ) (most : ℕ) (goes : Bool)
      → Generates result b [] most goes
      → size B others b + most + 5 < 2 ^ 32
      → Generates (redirected B result jumps) b jumps (most + 5) (not goes)
  Generates-redirected result b jumps most goes (b1, own, e1, g, m) near =
      let (b2, e2, n, o, kept) = emit_jump_lem B operation_jmp jumps b1 in
      let (b3, e3, n', kept', leads) =
        resolve_all_lem B own (size B others b) (size B others b1) b2 g.spans (omega (arith, n))
          (omega (arith, n)) in
      (
        b3,
        (size B others b1 + 1) ∷ [],
        ap (λ x. redirected B x jumps) e1
            ∙ redirected_lem b1 b2 b3 own jumps (jumps ++ ((size B others b1 + 1) ∷ [])) e2 e3,
        redirected-Generated B others b b1 b2 b3 own goes g n o kept n' kept' leads,
        omega (arith, n, n'),
      )

  -- A leaf, with the conditional jump behind it.
  pub Generates-leaf :
      (generate : ℕ → Buf → Bool × Buf) (n most : ℕ) (value : Bool)
      (leaf_runs : LeafRuns B others (generate n) value most) (jumps : List ℕ) (jump_true : Bool)
      (b : Buf)
      → Generates
          (generate_leaf B generate n jumps jump_true b)
          b
          jumps
          (most + 5)
          (agrees jump_true value)
  unfolding generate_leaf
  Generates-leaf generate n most value l jumps jump_true b =
      let b1 = l.after b in
      let (b2, e, more, o, kept) =
        emit_jump_lem B (if jump_true then operation_jmptrue else operation_jmpfalse) jumps b1 in
      (
        b2,
        (size B others b1 + 1) ∷ [],
        rw (l.succeeds b) e,
        record {
          spans = (omega (arith, l.grows b), omega (arith, more));
          kept = λ i k. kept i (omega (arith, l.grows b)) ∙ l.keeps b i k;
          runs = λ base target c link r. (
            value,
            Rounds-trans
                (l.runs b base c
                  (λ i g k out.
                    link.same i g (omega (arith, more)) (inl (omega arith), tt) ∙ kept i k)
                  (omega (arith, more, link.enough)) r)
                (jump_if_runs B others jump_true b1 b2 more o base target c
                  (record {
                    same = λ i g k out. link.same i (omega (arith, l.grows b)) k out;
                    enough = link.enough;
                    leads = link.leads;
                  })
                  value),
          );
        },
        omega (arith, more, l.bounded b),
      )
