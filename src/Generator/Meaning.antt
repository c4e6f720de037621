-- ===== src/Generator/Meaning.antt =====
-- What a test means and what is needed of the commands in it for its code to decide the same.
use pigeonhole.Prelude.{
  ℕ, ◌+◌, ◌≤◌, ◌<◌, ◌≡◌, Bool, true, false, not, ◌&&◌, ◌||◌, [], length, get_elem?, ltb,
  if◌then◌else◌,
}
use pigeonhole.Binary.{Buffer}
use pigeonhole.Interpreter.{Interp, Run}
use pigeonhole.Generator.{
  Test, leaf, bare, tst_true, tst_false, tst_not, tst_allof, tst_anyof, Tests, no_tests, and_test,
  test_count,
}
use pigeonhole.Generator.Resolve.{SameBytes}
use pigeonhole.Generator.Runs.{at, RunsTo}
use pigeonhole.Generator.Pieces.{size, CanRun}

-- What a test means, where `value` gives the value of each leaf.
unfoldable mutual
  pub holds : (ℕ → Bool) → Test → Bool
  holds value (leaf n) = value n
  holds value bare = false
  holds value tst_true = true
  holds value tst_false = false
  holds value (tst_not t) = not (holds value t)
  holds value (tst_allof ts) = all_hold value ts
  holds value (tst_anyof ts) = any_holds value ts

  pub all_hold : (ℕ → Bool) → Tests → Bool
  all_hold value no_tests = true
  all_hold value (and_test t ts) = holds value t && all_hold value ts

  pub any_holds : (ℕ → Bool) → Tests → Bool
  any_holds value no_tests = false
  any_holds value (and_test t ts) = holds value t || any_holds value ts

-- Every command in the test generates code, and no list of tests is empty.
unfoldable mutual
  pub coded : Test → Bool
  coded (leaf n) = true
  coded bare = false
  coded tst_true = true
  coded tst_false = true
  coded (tst_not t) = coded t
  coded (tst_allof ts) = ltb 0 (test_count ts) && all_coded ts
  coded (tst_anyof ts) = ltb 0 (test_count ts) && all_coded ts

  pub all_coded : Tests → Bool
  all_coded no_tests = true
  all_coded (and_test t ts) = coded t && all_coded ts

-- The most bytes a test generates, where `leaf_size` gives those of each leaf.
unfoldable mutual
  pub code_size : (ℕ → ℕ) → Test → ℕ
  code_size leaf_size (leaf n) = leaf_size n + 5
  code_size leaf_size bare = 0
  code_size leaf_size tst_true = 5
  code_size leaf_size tst_false = 5
  code_size leaf_size (tst_not t) = code_size leaf_size t
  code_size leaf_size (tst_allof ts) = code_sizes leaf_size ts + 5
  code_size leaf_size (tst_anyof ts) = code_sizes leaf_size ts + 5

  pub code_sizes : (ℕ → ℕ) → Tests → ℕ
  code_sizes leaf_size no_tests = 0
  code_sizes leaf_size (and_test t ts) = code_size leaf_size t + code_sizes leaf_size ts

-- Whether some test of the list has the value jumped on.
abbrev pub some_agrees : (ℕ → Bool) → Bool → Tests → Bool
some_agrees value jump_true ts = if jump_true then any_holds value ts else not (all_hold value ts)

module _ (B : Buffer) (others : ℕ → Interp → Run) where
  open B use {Buf, bytes}

  -- What a generation function of a leaf is to do: it succeeds, writes behind the block at most
  -- `most` bytes, and the code it writes goes on behind itself with the test's value.
  pub record LeafRuns (generate : Buf → Bool × Buf) (value : Bool) (most : ℕ) : Type 0 where
    pub after : Buf → Buf
    pub succeeds : (b : Buf) → generate b ≡ (true, after b)
    pub grows : (b : Buf) → size B others b ≤ size B others (after b)
    pub bounded : (b : Buf) → size B others (after b) ≤ size B others b + most
    pub keeps :
        (b : Buf) (i : ℕ)
        → i < size B others b
        → get_elem? (bytes (after b)) i ≡ get_elem? (bytes b) i
    pub runs :
        (b : Buf) (base : Interp)
        → CanRun B others base
        → SameBytes [] (size B others b) (size B others (after b)) (bytes (after b)) base.code
        → size B others (after b) ≤ length base.code
        → (r : Bool)
        → RunsTo others base
            (at others base (size B others b) r)
            (at others base (size B others (after b)) value)
