-- ===== src/Tests/Jumps.antt =====
-- Generated tests at a concrete buffer, with two leaves: operation 5 sets the test result to false
-- and operation 6 sets it to true.
use pigeonhole.Prelude.{
  ℕ, ◌+◌, ◌≤◌, ◌≡◌, ◌∙◌, refl, Bool, true, false, some, List, [], ◌∷◌, ◌++◌, length, length-append,
  ◌==◌, get_elem?, get_elem?-append, if◌then◌else◌, arith,
}
use pigeonhole.Interpreter.{exec_ok, Interp, Run, done}
use pigeonhole.Interpreter.Operation.{operation_execute}
use pigeonhole.Generator.{
  Test, leaf, tst_not, tst_allof, tst_anyof, no_tests, and_test, generate_test,
}
use pigeonhole.Generator.Meaning.{holds, coded, code_size, LeafRuns}
use pigeonhole.Generator.Resolve.{get_elem?-append_left}
use pigeonhole.Generator.Runs.{round_of, agrees, at, RunsTo}
use pigeonhole.Generator.Pieces.{CanRun}
use pigeonhole.Generator.Steps.{Generates}
use pigeonhole.Generator.Correct.{generate_test_lem}
use pigeonhole.Generator.If.{IfCommand, if_command, else_command, unknown, always, validated}
use pigeonhole.Generator.If.Exits.{BlockWrites}
use pigeonhole.Generator.If.Correct.{ChainRuns, chain_size, generate_chain_lem}
use pigeonhole.Tests.Blocks.{list_buffer}

abbrev sets_result : ℕ → Interp → Run
sets_result code s = done exec_ok (record s { test_result = code == 6 })

abbrev leaf_code : ℕ → ℕ
leaf_code n = if n == 0 then 5 else 6

abbrev write_leaf : ℕ → List ℕ → Bool × List ℕ
write_leaf n b = (true, b ++ (leaf_code n ∷ []))

abbrev leaf_value : ℕ → Bool
leaf_value n = leaf_code n == 6

leaf_code_big : (n : ℕ) → 5 ≤ leaf_code n
leaf_code_big n = ground arith

-- One round at an operation that sets the test result.
sets_result_runs :
    (base : Interp) (code p : ℕ) (r : Bool)
    → CanRun list_buffer sets_result base
    → 5 ≤ code
    → get_elem? base.code p ≡ some code
    → p + 1 ≤ length base.code
    → RunsTo sets_result base (at sets_result base p r) (at sets_result base (p + 1) (code == 6))
unfolding operation_execute
sets_result_runs base code p r c big found enough =
    round_of sets_result base c.0 c.1 p r (at sets_result base (p + 1) (code == 6))
      (omega (arith, enough)) (ground (arith, found, big, enough))

leaf_runs : (n : ℕ) → LeafRuns list_buffer sets_result (write_leaf n) (leaf_value n) 1
leaf_runs n = record {
  after = λ b. b ++ (leaf_code n ∷ []);
  succeeds = λ b. refl;
  grows = λ b. omega (arith, length-append b (leaf_code n ∷ []));
  bounded = λ b. omega (arith, length-append b (leaf_code n ∷ []));
  keeps = λ b i l. get_elem?-append_left b (leaf_code n ∷ []) i l;
  runs = λ b base c same enough r. rw (length-append b (leaf_code n ∷ [])) (
      sets_result_runs base (leaf_code n) (length b) r c (leaf_code_big n)
        (same (length b) (omega arith) (omega (arith, length-append b (leaf_code n ∷ []))) tt
          ∙ get_elem?-append b (leaf_code n) [])
        (omega (arith, enough, length-append b (leaf_code n ∷ []))));
}

abbrev nested : Test
nested = tst_anyof (
    and_test (tst_allof (and_test (leaf 1) (and_test (tst_not (leaf 1)) no_tests)))
      (and_test (leaf 0) no_tests))

generate_test_lem_example :
    Generates list_buffer sets_result
      (generate_test list_buffer write_leaf nested [] true [])
      []
      []
      (code_size (λ n. 1) nested)
      (agrees true (holds leaf_value nested))
unfolding coded code_size
generate_test_lem_example =
    generate_test_lem list_buffer sets_result write_leaf leaf_value (λ n. 1) leaf_runs nested []
      true [] refl (omega arith)

-- A block of commands is one byte.
abbrev write_block : ℕ → List ℕ → Bool × List ℕ
write_block n b = (true, b ++ (n ∷ []))

block_writes : (n : ℕ) → BlockWrites list_buffer sets_result (write_block n) 1
block_writes n = record {
  after = λ b. b ++ (n ∷ []);
  succeeds = λ b. refl;
  grows = λ b. omega (arith, length-append b (n ∷ []));
  bounded = λ b. omega (arith, length-append b (n ∷ []));
  keeps = λ b i l. get_elem?-append_left b (n ∷ []) i l;
}

abbrev if_elsif_else : List IfCommand
if_elsif_else =
    if_command unknown nested 7 false
    ∷ if_command always (leaf 1) 8 false
    ∷ else_command unknown 9
    ∷ []

generate_chain_lem_example :
    ChainRuns list_buffer sets_result write_leaf leaf_value
      (λ n. 1)
      leaf_runs
      write_block
      (λ n. 1)
      block_writes
      (validated false if_elsif_else)
      []
      (9 ∷ [])
      (chain_size (λ n. 1) (λ n. 1) if_elsif_else)
unfolding coded code_size
generate_chain_lem_example =
    generate_chain_lem list_buffer sets_result write_leaf leaf_value (λ n. 1) leaf_runs write_block
      (λ n. 1) block_writes if_elsif_else (9 ∷ []) (omega arith) (refl, (refl, refl)) (omega arith)
