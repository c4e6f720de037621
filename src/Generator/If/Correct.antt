-- ===== src/Generator/If/Correct.antt =====
-- The code of an if structure does what the structure means (src/lib-sieve/cmd-if.c).
use pigeonhole.Prelude.{
  ℕ, ◌+◌, ◌^◌, ◌≤◌, ◌<◌, ◌≡◌, ◌∙◌, ap, refl, Bool, true, false, List, [], ◌∷◌, ◌++◌, append-nil,
  All, length, arith,
}
use pigeonhole.Binary.{Buffer}
use pigeonhole.Interpreter.{Interp, Run}
use pigeonhole.Generator.{Test, done}
use pigeonhole.Generator.Meaning.{code_size, LeafRuns}
use pigeonhole.Generator.Slots.{Spans, Spans-append}
use pigeonhole.Generator.Resolve.{LeadsTo}
use pigeonhole.Generator.Pieces.{size}
use pigeonhole.Generator.If.{
  unknown, always, never, IfCommand, if_command, else_command, validated, generate_command,
  generate_chain, then_generate,
}
use pigeonhole.Generator.If.Branch.{Branch}
use pigeonhole.Generator.If.Commands.{CommandRuns, cmd_if_generate_lem, cmd_else_generate_lem}
use pigeonhole.Generator.If.Exits.{BlockWrites, BlockAt}
use pigeonhole.Generator.If.Chain.{
  is_chosen, is_left, is_written, block_of, Chain, Chain-nil, Chain-step,
}
use pigeonhole.Generator.If.Never.{IsFormed, nowhere, never_chain, Chain-never}

abbrev pub chain_size : (ℕ → ℕ) → (ℕ → ℕ) → List IfCommand → ℕ
chain_size leaf_size block_size [] = 0
chain_size leaf_size block_size (if_command condition t n block_exits ∷ rest) =
    code_size leaf_size t + block_size n + 5 + chain_size leaf_size block_size rest
chain_size leaf_size block_size (else_command condition n ∷ rest) =
    block_size n + 5 + chain_size leaf_size block_size rest

module _ (B : Buffer) (others : ℕ → Interp → Run) (generate : ℕ → B.Buf → Bool × B.Buf)
    (value : ℕ → Bool) (leaf_size : ℕ → ℕ)
    (leaves : (n : ℕ) → LeafRuns B others (generate n) (value n) (leaf_size n))
    (generate_block : ℕ → B.Buf → Bool × B.Buf) (block_size : ℕ → ℕ)
    (blocks : (n : ℕ) → BlockWrites B others (generate_block n) (block_size n)) where
  open B use {Buf, bytes}

  -- What generating commands gives.
  abbrev pub ChainRuns : List IfCommand → List ℕ → Buf → ℕ → Type 0
  ChainRuns cs previous b most =
      (b' : Buf) × (exits : List ℕ) × (places : List (ℕ × ℕ)) × (generate_chain B generate
          generate_block cs previous b
        ≡ done true b' exits)
      × Chain B others value generate_block cs previous b b' places
      × (size B others b' ≤ size B others b + most)

  -- A command with no other behind it.
  last_chain :
      (c : IfCommand) (lo : ℕ) (previous : List ℕ) (b : Buf) (most : ℕ)
      → Spans lo previous (size B others b)
      → CommandRuns B others generate value leaf_size leaves generate_block block_size blocks
          (generate_command B generate generate_block true c previous b)
          previous
          b
          (is_chosen value c)
          true
          (is_left c)
          (block_of c)
          (is_written c)
          most
      → ChainRuns (c ∷ []) previous b most
  unfolding generate_chain
  last_chain c lo previous b most before (b', xs, start, stop, e, branch, block, m) =
      let none_new = branch.none_new refl in
      let all_lead : All (LeadsTo (bytes b') (size B others b')) (previous ++ xs) =
        rw (none_new, append-nil) (branch.leads refl) in
      (
        b',
        previous ++ xs,
        (start, stop) ∷ [],
        e,
        Chain-step B others value generate_block lo previous xs b b' b' c [] true start stop []
            before branch block
            (Chain-nil B others value generate_block (previous ++ xs) b' all_lead) (λ _. refl),
        m,
      )

  -- A command with others behind it, which go on where it ends.
  next_chain :
      (c : IfCommand) (cs : List IfCommand) (lo : ℕ) (previous xs : List ℕ) (b b1 : Buf)
      (start stop most more : ℕ)
      → Spans lo previous (size B others b)
      → generate_chain B generate generate_block (c ∷ cs) previous b
        ≡ then_generate B
            (generate_command B generate generate_block false c previous b)
            (generate_chain B generate generate_block cs)
      → generate_command B generate generate_block false c previous b
        ≡ done true b1 (previous ++ xs)
      → Branch B others previous b b1 xs (is_chosen value c) false (is_left c) start stop
      → (is_written c ≡ true → BlockAt B others (generate_block (block_of c)) b b1 xs start stop)
      → size B others b1 ≤ size B others b + most
      → ChainRuns cs (previous ++ xs) b1 more
      → ChainRuns (c ∷ cs) previous b (most + more)
  next_chain c cs lo previous xs b b1 start stop most more before split e branch block m rest =
      let (b', exits, places, e', chain, m') = rest in
      (
        b',
        exits,
        (start, stop) ∷ places,
        split ∙ ap (λ r. then_generate B r (generate_chain B generate generate_block cs)) e ∙ e',
        Chain-step B others value generate_block lo previous xs b b1 b' c cs false start stop places
            before branch block chain (λ none_is. absurd (ground (arith, none_is))),
        omega (arith, m, m'),
      )

  -- A command whose test surely holds, with others behind it, which are not tried.
  always_chain :
      (t : Test) (n : ℕ) (block_exits : Bool) (cs : List IfCommand) (lo : ℕ) (previous : List ℕ)
      (b : Buf) (most : ℕ)
      → Spans lo previous (size B others b)
      → IsFormed cs
      → size B others b + most < 2 ^ 32
      → (generate_chain B generate generate_block
            (if_command always t n block_exits ∷ validated true cs)
            previous
            b
          ≡ then_generate B
              (generate_command B generate generate_block false
                (if_command always t n block_exits)
                previous
                b)
              (generate_chain B generate generate_block (validated true cs)))
      → CommandRuns B others generate value leaf_size leaves generate_block block_size blocks
          (generate_command B generate generate_block false
            (if_command always t n block_exits)
            previous
            b)
          previous
          b
          true
          true
          block_exits
          n
          true
          most
      → ChainRuns (if_command always t n block_exits ∷ validated true cs) previous b most
  always_chain t n block_exits cs lo previous b most before formed near split
        (b1, xs, start, stop, e, branch, block, m) =
      let none_new = branch.none_new refl in
      let to_here : previous ++ xs ≡ previous =
        ap (λ x. previous ++ x) none_new ∙ append-nil previous in
      let spans : Spans lo previous (size B others b1) =
        rw to_here at
          (Spans-append lo previous (size B others b) xs (size B others b1) before branch.spans) in
      let (b', e', n', same, leads) =
        never_chain B others generate value generate_block lo previous b1 spans (omega (arith, m))
          (branch.leads refl) cs formed in
      let rest =
        Chain-never B others generate value generate_block cs previous b1 b' n' same leads in
      (
        b',
        previous,
        (start, stop) ∷ nowhere cs,
        split
            ∙ ap
                (λ r.
                  then_generate B r (generate_chain B generate generate_block (validated true cs)))
                (e ∙ ap (done true b1) to_here)
            ∙ e',
        Chain-step B others value generate_block lo previous xs b b1 b'
            (if_command always t n block_exits) (validated true cs) true start stop (nowhere cs)
            before branch block (rw to_here rest) (λ _. n'),
        omega (arith, m, n'),
      )

  widened :
      (cs : List IfCommand) (previous : List ℕ) (b : Buf) (most more : ℕ)
      → most ≤ more
      → ChainRuns cs previous b most
      → ChainRuns cs previous b more
  widened cs previous b most more le (b', exits, places, e, chain, m) =
      (b', exits, places, e, chain, omega (arith, m, le))

  chain_runs :
      (cs : List IfCommand) (lo : ℕ) (previous : List ℕ) (b : Buf)
      → 1 ≤ length cs
      → IsFormed cs
      → Spans lo previous (size B others b)
      → size B others b + chain_size leaf_size block_size cs < 2 ^ 32
      → ChainRuns (validated false cs) previous b (chain_size leaf_size block_size cs)
  unfolding generate_chain generate_command
  chain_runs [] lo previous b some_command formed before near = absurd (omega (arith, some_command))
  chain_runs (else_command condition n ∷ next ∷ rest) lo previous b some_command formed before
        near =
      absurd (ground (arith, formed))
  chain_runs (else_command condition n ∷ []) lo previous b some_command formed before near =
      widened _ previous b _ _ (omega arith) (
        last_chain (else_command unknown n) lo previous b (block_size n + 5) before (
          cmd_else_generate_lem B others generate value leaf_size leaves generate_block block_size
            blocks lo previous n b before (omega (arith, near))))
  chain_runs (if_command condition t n block_exits ∷ []) lo previous b some_command formed before
        near =
      widened _ previous b _ _ (omega arith) (
        last_chain (if_command condition t n block_exits) lo previous b _ before (
          cmd_if_generate_lem B others generate value leaf_size leaves generate_block block_size
            blocks lo previous n b before condition t true block_exits formed.0
            (omega (arith, near))))
  chain_runs (if_command always t n block_exits ∷ next ∷ rest) lo previous b some_command formed
        before near =
      widened _ previous b _ _ (omega arith) (
        always_chain t n block_exits (next ∷ rest) lo previous b _ before formed.1
          (omega (arith, near)) refl
          (cmd_if_generate_lem B others generate value leaf_size leaves generate_block block_size
            blocks lo previous n b before always t false block_exits formed.0
            (omega (arith, near))))
  chain_runs (if_command unknown t n block_exits ∷ next ∷ rest) lo previous b some_command formed
        before near =
      let (b1, xs, start, stop, e, branch, block, m) =
        cmd_if_generate_lem B others generate value leaf_size leaves generate_block block_size
          blocks lo previous n b before unknown t false block_exits formed.0
          (omega (arith, near)) in
      next_chain (if_command unknown t n block_exits) (validated false (next ∷ rest)) lo previous xs
        b b1 start stop _ _ before refl e branch block m
        (chain_runs (next ∷ rest) lo (previous ++ xs) b1 (omega arith) formed.1
          (Spans-append lo previous (size B others b) xs (size B others b1) before branch.spans)
          (omega (arith, near, m)))
  chain_runs (if_command never t n block_exits ∷ next ∷ rest) lo previous b some_command formed
        before near =
      let (b1, xs, start, stop, e, branch, block, m) =
        cmd_if_generate_lem B others generate value leaf_size leaves generate_block block_size
          blocks lo previous n b before never t false block_exits formed.0 (omega (arith, near)) in
      next_chain (if_command never t n block_exits) (validated false (next ∷ rest)) lo previous xs b
        b1 start stop _ _ before refl e branch block m
        (chain_runs (next ∷ rest) lo (previous ++ xs) b1 (omega arith) formed.1
          (Spans-append lo previous (size B others b) xs (size B others b1) before branch.spans)
          (omega (arith, near, m)))

  -- An if structure whose tests generate code and whose code stays below 4 GiB is generated, from
  -- any block. Wherever a program has that code, outside of any loop, it runs from the beginning to
  -- the block of the first command whose condition holds, and to the end of the code if none does;
  -- and from the end of a block that can be reached it runs to the end of the code. Each block
  -- stands where it is entered as its function has written it. Leaves and blocks succeed, and a leaf
  -- sets the test result to its value; behind a test that surely holds no other is tried.
  pub generate_chain_lem :
      (cs : List IfCommand) (b : Buf)
      → 1 ≤ length cs
      → IsFormed cs
      → size B others b + chain_size leaf_size block_size cs < 2 ^ 32
      → ChainRuns (validated false cs) [] b (chain_size leaf_size block_size cs)
  generate_chain_lem cs b some_command formed near =
      chain_runs cs 0 [] b some_command formed (omega arith) near
