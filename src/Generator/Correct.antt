-- ===== src/Generator/Correct.antt =====
-- The generated code of a test decides as the test does (src/lib-sieve/sieve-generator.c,
-- sieve_generate_test, and tst-allof.c, tst-anyof.c, tst-not.c, tst-truefalse.c).
use pigeonhole.Prelude.{
  ℕ, ◌+◌, ◌^◌, ◌<◌, ◌≡◌, sym, ap, refl, Bool, true, false, not, List, [], ◌++◌, ltb, arith,
  append_assoc,
}
use pigeonhole.Binary.{Buffer}
use pigeonhole.Interpreter.{Interp, Run}
use pigeonhole.Generator.{
  Test, leaf, bare, tst_true, tst_false, tst_not, tst_allof, tst_anyof, Tests, no_tests, and_test,
  done, test_count, generate_test, generate_first, generate_tests,
}
use pigeonhole.Generator.Meaning.{
  holds, all_hold, any_holds, coded, all_coded, code_size, code_sizes, some_agrees, LeafRuns,
}
use pigeonhole.Generator.Runs.{agrees}
use pigeonhole.Generator.Pieces.{size, seq-Generated}
use pigeonhole.Generator.Steps.{
  first_holds, some_agrees-step, and_true, or_false, not-not, both, Generates, Generates-none,
  Generates-emit_jump, Generates-ignore_result, Generates-many, Generates-wider,
  Generates-redirected, Generates-leaf,
}

agrees-not : (jump_true v : Bool) → agrees (not jump_true) v ≡ agrees jump_true (not v)
agrees-not true v = refl
agrees-not false true = refl
agrees-not false false = refl

module _ (B : Buffer) (others : ℕ → Interp → Run) where
  open B use {Buf, bytes}

  module _ (generate : ℕ → Buf → Bool × Buf) (value : ℕ → Bool) (leaf_size : ℕ → ℕ)
      (leaves : (n : ℕ) → LeafRuns B others (generate n) (value n) (leaf_size n)) where
    -- Test lists, given what the code of their tests does.
    module _ (jumps : List ℕ) (b : Buf) where
      abbrev TestsRun : Tests → Type 0
      TestsRun ts =
          (jumps' : List ℕ) (jump_true : Bool)
          → Generates B others (generate_tests B generate ts jumps' jump_true b) b jumps'
              (code_sizes leaf_size ts) (some_agrees value jump_true ts)

      abbrev FirstRuns : Tests → Type 0
      FirstRuns ts =
          (jump_true : Bool)
          → Generates B others (generate_first B generate ts jumps jump_true b) b jumps
              (code_sizes leaf_size ts) (agrees jump_true (first_holds value ts))

      allof_runs :
          (ts : Tests) (jump_true : Bool)
          → ltb 0 (test_count ts) ≡ true
          → size B others b + (code_sizes leaf_size ts + 5) < 2 ^ 32
          → TestsRun ts
          → FirstRuns ts
          → Generates B others
              (generate_test B generate (tst_allof ts) jumps jump_true b)
              b
              jumps
              (code_sizes leaf_size ts + 5)
              (agrees jump_true (all_hold value ts))
      unfolding generate_test holds
      allof_runs no_tests jump_true some_tests near all first = absurd (ground (arith, some_tests))
      allof_runs (and_test t no_tests) jump_true some_tests near all first =
          Generates-ignore_result B others _ b jumps _ _ _
            (ap (agrees jump_true) (sym (and_true (holds value t)))) (first jump_true)
      allof_runs (and_test t (and_test u ts)) true some_tests near all first =
          Generates-many B others (test_count ts) _ _ b jumps _ _ (
            rw (not-not (all_hold value (and_test t (and_test u ts)))) at (
              Generates-redirected B others _ b jumps _
                (not (all_hold value (and_test t (and_test u ts)))) (all [] false)
                (omega (arith, near))))
      allof_runs (and_test t (and_test u ts)) false some_tests near all first =
          Generates-many B others (test_count ts) _ _ b jumps _ _
            (Generates-wider B others _ b jumps _ 5 _ (all jumps false))

      anyof_runs :
          (ts : Tests) (jump_true : Bool)
          → ltb 0 (test_count ts) ≡ true
          → size B others b + (code_sizes leaf_size ts + 5) < 2 ^ 32
          → TestsRun ts
          → FirstRuns ts
          → Generates B others
              (generate_test B generate (tst_anyof ts) jumps jump_true b)
              b
              jumps
              (code_sizes leaf_size ts + 5)
              (agrees jump_true (any_holds value ts))
      unfolding generate_test holds
      anyof_runs no_tests jump_true some_tests near all first = absurd (ground (arith, some_tests))
      anyof_runs (and_test t no_tests) jump_true some_tests near all first =
          Generates-ignore_result B others _ b jumps _ _ _
            (ap (agrees jump_true) (sym (or_false (holds value t)))) (first jump_true)
      anyof_runs (and_test t (and_test u ts)) true some_tests near all first =
          Generates-many B others (test_count ts) _ _ b jumps _ _
            (Generates-wider B others _ b jumps _ 5 _ (all jumps true))
      anyof_runs (and_test t (and_test u ts)) false some_tests near all first =
          Generates-many B others (test_count ts) _ _ b jumps _ _
            (Generates-redirected B others _ b jumps _ _ (all [] true) (omega (arith, near)))

    mutual
      unfolding generate_test generate_first generate_tests holds coded code_size

      generate_test_runs :
          (t : Test) (jumps : List ℕ) (jump_true : Bool) (b : Buf)
          → coded t ≡ true
          → size B others b + code_size leaf_size t < 2 ^ 32
          → Generates B others
              (generate_test B generate t jumps jump_true b)
              b
              jumps
              (code_size leaf_size t)
              (agrees jump_true (holds value t))
      generate_test_runs (leaf n) jumps jump_true b c near =
          Generates-leaf B others generate n (leaf_size n) (value n) (leaves n) jumps jump_true b
      generate_test_runs bare jumps jump_true b c near = absurd (ground (arith, c))
      generate_test_runs tst_true jumps true b c near = Generates-emit_jump B others b jumps
      generate_test_runs tst_true jumps false b c near = Generates-none B others b jumps 5
      generate_test_runs tst_false jumps true b c near = Generates-none B others b jumps 5
      generate_test_runs tst_false jumps false b c near = Generates-emit_jump B others b jumps
      generate_test_runs (tst_not t) jumps jump_true b c near =
          rw (← agrees-not jump_true (holds value t))
            (generate_test_runs t jumps (not jump_true) b c near)
      generate_test_runs (tst_allof ts) jumps jump_true b c near =
          let (c1, c2) = both (ltb 0 (test_count ts)) (all_coded ts) c in
          allof_runs jumps b ts jump_true c1 near
            (λ jumps' jump_true'.
              generate_tests_runs ts jumps' jump_true' b c2 (omega (arith, near)))
            (λ jump_true'. generate_first_runs ts jumps jump_true' b c1 c2 (omega (arith, near)))
      generate_test_runs (tst_anyof ts) jumps jump_true b c near =
          let (c1, c2) = both (ltb 0 (test_count ts)) (all_coded ts) c in
          anyof_runs jumps b ts jump_true c1 near
            (λ jumps' jump_true'.
              generate_tests_runs ts jumps' jump_true' b c2 (omega (arith, near)))
            (λ jump_true'. generate_first_runs ts jumps jump_true' b c1 c2 (omega (arith, near)))

      generate_first_runs :
          (ts : Tests) (jumps : List ℕ) (jump_true : Bool) (b : Buf)
          → ltb 0 (test_count ts) ≡ true
          → all_coded ts ≡ true
          → size B others b + code_sizes leaf_size ts < 2 ^ 32
          → Generates B others
              (generate_first B generate ts jumps jump_true b)
              b
              jumps
              (code_sizes leaf_size ts)
              (agrees jump_true (first_holds value ts))
      generate_first_runs no_tests jumps jump_true b some_tests c near =
          absurd (ground (arith, some_tests))
      generate_first_runs (and_test t ts) jumps jump_true b some_tests c near =
          let (c', _) = both (coded t) (all_coded ts) c in
          Generates-wider B others _ b jumps _ (code_sizes leaf_size ts) _
            (generate_test_runs t jumps jump_true b c' (omega (arith, near)))

      generate_tests_runs :
          (ts : Tests) (jumps : List ℕ) (jump_true : Bool) (b : Buf)
          → all_coded ts ≡ true
          → size B others b + code_sizes leaf_size ts < 2 ^ 32
          → Generates B others
              (generate_tests B generate ts jumps jump_true b)
              b
              jumps
              (code_sizes leaf_size ts)
              (some_agrees value jump_true ts)
      generate_tests_runs no_tests jumps true b c near = Generates-none B others b jumps 0
      generate_tests_runs no_tests jumps false b c near = Generates-none B others b jumps 0
      generate_tests_runs (and_test t ts) jumps jump_true b c near =
          let (c1, c2) = both (coded t) (all_coded ts) c in
          let (b1, new1, e1, g1, m1) = generate_test_runs t jumps jump_true b c1 (omega arith) in
          let (b2, new2, e2, g2, m2) =
            generate_tests_runs ts (jumps ++ new1) jump_true b1 c2 (omega arith) in
          (
            b2,
            new1 ++ new2,
            rw (e1, generate_tests, e2) (ap (done true b2) (append_assoc jumps new1 new2)),
            rw (← some_agrees-step value jump_true t ts)
                (seq-Generated B others b b1 b2 new1 new2 _ _ g1 g2),
            omega arith,
          )

    -- Where all commands of a test generate code, no test list in it is empty and the block stays below 4
    -- GiB, generating the test succeeds and adds to the block and to the jump list. Wherever the
    -- program has the code so added, outside of any loop, it runs from the beginning of that code to
    -- the target of the added jumps if the test has the value that is jumped on, and to the end of
    -- that code otherwise. Every leaf is to generate code that sets the test result to its value and
    -- goes on behind itself.
    pub generate_test_lem :
        (t : Test) (jumps : List ℕ) (jump_true : Bool) (b : Buf)
        → coded t ≡ true
        → size B others b + code_size leaf_size t < 2 ^ 32
        → Generates B others
            (generate_test B generate t jumps jump_true b)
            b
            jumps
            (code_size leaf_size t)
            (agrees jump_true (holds value t))
    generate_test_lem = generate_test_runs
