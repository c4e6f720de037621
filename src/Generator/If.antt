-- ===== src/Generator/If.antt =====
-- Code generation of if, elsif and else (src/lib-sieve/cmd-if.c): no operations of their own, but
-- jumps around the blocks of commands.
--
-- The generate function of a block is a parameter `generate_block`, by a number that stands for the
-- block. The exit jumps of the commands before are a list, oldest first, in place of the linked
-- contexts.
pub mod Branch
pub mod Compose
pub mod Exits
pub mod Commands
pub mod Chain
pub mod Never
pub mod Correct
use pigeonhole.Prelude.{
  ℕ, Bool, true, false, ◌||◌, not, Option, none, some, List, [], ◌∷◌, if◌then◌else◌,
}
use pigeonhole.Binary.{Buffer, resolve_offset}
use pigeonhole.Interpreter.Operation.{operation_jmp}
use pigeonhole.Generator.{Test, Gen, done, crash, emit_jump, resolved_behind, generate_test}

-- const_condition: below 0, 1 or 0.
pub data Condition : Type 0 where
  unknown always never : Condition

-- `block_exits` tells that the block has a command that leaves it unconditionally.
pub data IfCommand : Type 0 where
  if_command : (condition : Condition) (test : Test) (block : ℕ) (block_exits : Bool) → IfCommand
  else_command : (condition : Condition) (block : ℕ) → IfCommand

abbrev pub is_never : Condition → Bool
is_never never = true
is_never _ = false

abbrev pub is_always : Condition → Bool
is_always always = true
is_always _ = false

-- The conditions as validation leaves them: behind a test that is known to hold nothing is tried,
-- and an else has no test.
abbrev pub with_condition : Bool → IfCommand → IfCommand
with_condition after_always (if_command condition t n block_exits) =
    if_command (if after_always then never else condition) t n block_exits
with_condition after_always (else_command condition n) =
    else_command (if after_always then never else unknown) n

abbrev pub surely_holds : IfCommand → Bool
surely_holds (if_command condition t n block_exits) = is_always condition
surely_holds (else_command condition n) = false

abbrev pub validated : Bool → List IfCommand → List IfCommand
validated after_always [] = []
validated after_always (c ∷ rest) =
    with_condition after_always c ∷ validated (after_always || surely_holds c) rest

module _ (B : Buffer) where
  open B use {Buf}

  -- What follows a command that has been generated.
  abbrev pub then_generate : Gen Buf → (List ℕ → Buf → Gen Buf) → Gen Buf
  then_generate crash next = crash
  then_generate (done false b exits) next = done false b exits
  then_generate (done true b exits) next = next exits b

  -- cmd_if_resolve_exit_jumps: backwards from the newest.
  unfoldable pub resolve_exit_jumps : List ℕ → Buf → Option Buf
  unfolding resolve_offset
  resolve_exit_jumps [] b = some b
  resolve_exit_jumps (jump ∷ newer) b = elim (resolve_exit_jumps newer b) [
    | none ↦ none
    | some b' ↦ resolve_offset B b' jump
  ]

  unfoldable pub all_resolved : List ℕ → Buf → Gen Buf
  unfolding resolve_exit_jumps
  all_resolved previous b = elim (resolve_exit_jumps previous b) [
    | none ↦ crash
    | some b' ↦ done true b' previous
  ]

  -- The end of the block: `previous` are the exit jumps so far, and what is returned with the block
  -- of code are those with the new one.
  unfoldable pub if_exit : Condition → Bool → Bool → List ℕ → Buf → Gen Buf
  unfolding all_resolved emit_jump
  if_exit condition last block_exits previous b =
      if last || is_always condition then all_resolved previous b else elim condition [
        | unknown ↦
            if block_exits then done true b previous else emit_jump B operation_jmp previous b
        | _ ↦ done true b previous
      ]

module _ (B : Buffer) (generate : ℕ → B.Buf → Bool × B.Buf)
    (generate_block : ℕ → B.Buf → Bool × B.Buf) where
  open B use {Buf}

  -- The block of commands, unless the condition never holds.
  unfoldable pub if_block : Condition → ℕ → Buf → Bool × Buf
  if_block condition n b = if is_never condition then (true, b) else generate_block n b

  -- What follows the test: the block, the exit, and the FALSE jumps of the test.
  unfoldable pub if_body : Condition → Bool → ℕ → Bool → List ℕ → List ℕ → Buf → Gen Buf
  unfolding if_block if_exit resolved_behind
  if_body condition last n block_exits previous false_jumps b =
      let (result, b1) = if_block condition n b in
      if not result
      then done false b1 previous
      else resolved_behind B false_jumps (if_exit B condition last block_exits previous b1)

  -- What follows a test that is to be evaluated.
  unfoldable pub if_tested : Bool → ℕ → Bool → List ℕ → Gen Buf → Gen Buf
  unfolding if_body
  if_tested last n block_exits previous crash = crash
  if_tested last n block_exits previous (done false b false_jumps) = done false b previous
  if_tested last n block_exits previous (done true b false_jumps) =
      if_body unknown last n block_exits previous false_jumps b

  unfoldable pub cmd_if_generate : Condition → Test → ℕ → Bool → Bool → List ℕ → Buf → Gen Buf
  unfolding if_tested generate_test
  cmd_if_generate unknown t n block_exits last previous b =
      if_tested last n block_exits previous (generate_test B generate t [] false b)
  cmd_if_generate always t n block_exits last previous b =
      if_body always last n block_exits previous [] b
  cmd_if_generate never t n block_exits last previous b =
      if_body never last n block_exits previous [] b

  unfoldable pub cmd_else_generate : Condition → ℕ → List ℕ → Buf → Gen Buf
  unfolding all_resolved
  cmd_else_generate condition n previous b =
      if is_never condition
      then done true b previous
      else (let (result, b1) = generate_block n b in
          if not result then done false b1 previous else all_resolved B previous b1)

  unfoldable pub generate_command : Bool → IfCommand → List ℕ → Buf → Gen Buf
  unfolding cmd_if_generate cmd_else_generate
  generate_command last (if_command condition t n block_exits) previous b =
      cmd_if_generate condition t n block_exits last previous b
  generate_command last (else_command condition n) previous b =
      cmd_else_generate condition n previous b

  -- The commands of one structure, in turn; the last one has no command behind it.
  unfoldable pub generate_chain : List IfCommand → List ℕ → Buf → Gen Buf
  unfolding generate_command
  generate_chain [] previous b = done true b previous
  generate_chain (c ∷ []) previous b = generate_command true c previous b
  generate_chain (c ∷ next ∷ rest) previous b =
      then_generate B (generate_command false c previous b) (generate_chain (next ∷ rest))
