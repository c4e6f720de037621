-- ===== src/Generator.antt =====
-- Code generation of tests (src/lib-sieve/sieve-generator.c, tst-allof.c, tst-anyof.c, tst-not.c,
-- tst-truefalse.c): a test becomes code that jumps if it has the value asked for and goes on behind
-- itself otherwise. Where to jump is not known then: the addresses of the offsets are gathered in a
-- jump list and resolved later.
--
-- The block is a buffer of Binary. The generate function of a test is a parameter `generate`, by a
-- number that stands for the command with its arguments. Debug information goes to another block
-- and is left out.
pub mod Slots
pub mod Resolve
pub mod Runs
pub mod Pieces
pub mod Meaning
pub mod Steps
pub mod Correct
pub mod If
use pigeonhole.Prelude.{
  ℕ, zero, suc, ◌+◌, ◌<◌, Bool, true, false, not, ◌&&◌, ◌||◌, Option, none, some, List, [], ◌∷◌,
  ◌++◌, ltb, if◌then◌else◌,
}
use pigeonhole.Binary.{Buffer, emit_byte, emit_offset, resolve_offset}
use pigeonhole.Interpreter.Operation.{operation_jmp, operation_jmptrue, operation_jmpfalse}

-- The commands of a test list. `bare` is a test without any code generation.
mutual
  pub data Test : Type 0 where
    leaf : ℕ → Test
    bare tst_true tst_false : Test
    tst_not : Test → Test
    tst_allof tst_anyof : Tests → Test

  pub data Tests : Type 0 where
    no_tests : Tests
    and_test : Test → Tests → Tests

-- What a generation function returns, with the block and the caller's jump list as they are then.
-- `crash` is a failed assertion or a missing node.
pub data Gen (A : Type 0) : Type 0 where
  done : Bool → A → List ℕ → Gen A
  crash : Gen A

-- Whatever was returned, TRUE.
abbrev pub ignore_result : {A : Type 0} → Gen A → Gen A
ignore_result (done result b jumps) = done true b jumps
ignore_result crash = crash

abbrev pub test_count : Tests → ℕ
test_count no_tests = 0
test_count (and_test t ts) = suc (test_count ts)

module _ (B : Buffer) where
  open B use {Buf}

  -- sieve_operation_emit with no extension, sieve_binary_emit_offset and sieve_jumplist_add
  unfoldable pub emit_jump : ℕ → List ℕ → Buf → Gen Buf
  unfolding emit_byte emit_offset
  emit_jump code jumps b =
      let (b', address) = emit_offset B (emit_byte B b code).0 0 in
      done true b' (jumps ++ (address ∷ []))

  -- sieve_jumplist_resolve
  unfoldable pub resolve_all : List ℕ → Buf → Option Buf
  unfolding resolve_offset
  resolve_all [] b = some b
  resolve_all (jump ∷ jumps) b = elim (resolve_offset B b jump) [
    | none ↦ none
    | some b' ↦ resolve_all jumps b'
  ]

  -- Jumps gathered apart resolved to the end of what was emitted.
  unfoldable pub resolved_behind : List ℕ → Gen Buf → Gen Buf
  unfolding resolve_all
  resolved_behind own crash = crash
  resolved_behind own (done result b jumps) = elim (resolve_all own b) [
    | none ↦ crash
    | some b' ↦ done true b' jumps
  ]

  -- The end of a test list whose own jumps have been gathered apart: a jump for the caller, behind
  -- which the others lead.
  unfoldable pub redirected : Gen Buf → List ℕ → Gen Buf
  unfolding emit_jump resolved_behind
  redirected crash jumps = crash
  redirected (done false b own) jumps = done false b jumps
  redirected (done true b own) jumps = resolved_behind own (emit_jump operation_jmp jumps b)

  unfoldable pub tst_true_generate : List ℕ → Bool → Buf → Gen Buf
  unfolding emit_jump
  tst_true_generate jumps jump_true b =
      if jump_true then emit_jump operation_jmp jumps b else done true b jumps

  unfoldable pub tst_false_generate : List ℕ → Bool → Buf → Gen Buf
  unfolding emit_jump
  tst_false_generate jumps jump_true b =
      if not jump_true then emit_jump operation_jmp jumps b else done true b jumps

  -- `all` generates every test of the list in turn to jump on FALSE, with the jump list it is given;
  -- `single` is what generating the first one returned.
  unfoldable pub tst_allof_generate : ℕ → (List ℕ → Gen Buf) → Gen Buf → List ℕ → Bool → Gen Buf
  unfolding redirected
  tst_allof_generate tests all single jumps jump_true =
      if ltb 1 tests
      then (if jump_true then redirected (all []) jumps else all jumps)
      else ignore_result single

  -- The same with tests that jump on TRUE.
  unfoldable pub tst_anyof_generate : ℕ → (List ℕ → Gen Buf) → Gen Buf → List ℕ → Bool → Gen Buf
  unfolding redirected
  tst_anyof_generate tests all single jumps jump_true =
      if ltb 1 tests
      then (if not jump_true then redirected (all []) jumps else all jumps)
      else ignore_result single

module _ (B : Buffer) (generate : ℕ → B.Buf → Bool × B.Buf) where
  open B use {Buf}

  unfoldable pub generate_leaf : ℕ → List ℕ → Bool → Buf → Gen Buf
  unfolding emit_jump
  generate_leaf n jumps jump_true b =
      let (result, b') = generate n b in
      if result
      then emit_jump B (if jump_true then operation_jmptrue else operation_jmpfalse) jumps b'
      else done false b' jumps

  unfoldable mutual
    unfolding tst_true_generate tst_false_generate tst_allof_generate tst_anyof_generate
        generate_leaf

    pub generate_test : Test → List ℕ → Bool → Buf → Gen Buf
    generate_test (leaf n) jumps jump_true b = generate_leaf n jumps jump_true b
    generate_test bare jumps jump_true b = done true b jumps
    generate_test tst_true jumps jump_true b = tst_true_generate B jumps jump_true b
    generate_test tst_false jumps jump_true b = tst_false_generate B jumps jump_true b
    generate_test (tst_not t) jumps jump_true b = generate_test t jumps (not jump_true) b
    generate_test (tst_allof ts) jumps jump_true b =
        tst_allof_generate B (test_count ts) (λ jumps'. generate_tests ts jumps' false b)
          (generate_first ts jumps jump_true b) jumps jump_true
    generate_test (tst_anyof ts) jumps jump_true b =
        tst_anyof_generate B (test_count ts) (λ jumps'. generate_tests ts jumps' true b)
          (generate_first ts jumps jump_true b) jumps jump_true

    pub generate_first : Tests → List ℕ → Bool → Buf → Gen Buf
    generate_first no_tests jumps jump_true b = crash
    generate_first (and_test t ts) jumps jump_true b = generate_test t jumps jump_true b

    pub generate_tests : Tests → List ℕ → Bool → Buf → Gen Buf
    generate_tests no_tests jumps jump_true b = done true b jumps
    generate_tests (and_test t ts) jumps jump_true b = elim (generate_test t jumps jump_true b) [
      | crash ↦ crash
      | done false b' jumps' ↦ done false b' jumps'
      | done true b' jumps' ↦ generate_tests ts jumps' jump_true b'
    ]
