-- ===== src/Generator/If/Commands.antt =====
-- What one if, elsif or else adds to a block (src/lib-sieve/cmd-if.c).
use pigeonhole.Prelude.{
  ℕ, ◌+◌, ◌^◌, ◌≤◌, ◌<◌, ◌≡◌, ◌∙◌, sym, ap, refl, Bool, true, false, not, ◌||◌, List, [], ◌++◌,
  append-nil, if◌then◌else◌, arith,
}
use pigeonhole.Binary.{Buffer}
use pigeonhole.Interpreter.{Interp, Run}
use pigeonhole.Generator.{Gen, done, resolved_behind, Test}
use pigeonhole.Generator.Meaning.{holds, coded, code_size, LeafRuns}
use pigeonhole.Generator.Slots.{Spans, Spans-le, Outside-above, Outside-below}
use pigeonhole.Generator.Resolve.{resolve_all_lem}
use pigeonhole.Generator.Pieces.{size, Generated, nothing-Generated}
use pigeonhole.Generator.Steps.{not-not}
use pigeonhole.Generator.Correct.{generate_test_lem}
use pigeonhole.Generator.If.{
  Condition, unknown, always, never, is_never, is_always, if_tested, if_exit, if_block, if_body,
  cmd_if_generate, cmd_else_generate,
}
use pigeonhole.Generator.If.Branch.{
  resolve_exit_jumps_lem, Exit-last, Exit-none, Branch, never-Branch,
}
use pigeonhole.Generator.If.Compose.{compose-Branch}
use pigeonhole.Generator.If.Exits.{
  resolved_exit, if_exit_lem, BlockWrites, BlockAt, behind_lem, all_resolved_lem,
}

-- The value of a condition with its test.
abbrev pub decided : (ℕ → Bool) → Condition → Test → Bool
decided value unknown t = holds value t
decided value always t = true
decided value never t = false

module _ (B : Buffer) (others : ℕ → Interp → Run) where
  open B use {Buf, bytes}

  if_body_step :
      (generate generate_block : ℕ → Buf → Bool × Buf) (condition : Condition) (last : Bool) (n : ℕ)
      (block_exits : Bool) (previous own : List ℕ) (b b1 : Buf)
      → is_never condition ≡ false
      → generate_block n b ≡ (true, b1)
      → if_body B generate generate_block condition last n block_exits previous own b
        ≡ resolved_behind B own (if_exit B condition last block_exits previous b1)
  unfolding if_body
  if_body_step generate generate_block condition last n block_exits previous own b b1 written e =
      ap
        (λ (w : Bool × Buf).
          if not w.0
          then done false w.1 previous
          else resolved_behind B own (if_exit B condition last block_exits previous w.1))
        block
    where
      block : if_block B generate generate_block condition n b ≡ (true, b1)
      block = rw (written, if_block) e

  module _ (generate : ℕ → Buf → Bool × Buf) (value : ℕ → Bool) (leaf_size : ℕ → ℕ)
      (leaves : (n : ℕ) → LeafRuns B others (generate n) (value n) (leaf_size n))
      (generate_block : ℕ → Buf → Bool × Buf) (block_size : ℕ → ℕ)
      (blocks : (n : ℕ) → BlockWrites B others (generate_block n) (block_size n)) where
    -- A command that has been generated, as a branch.
    abbrev pub CommandRuns : Gen Buf → List ℕ → Buf → Bool → Bool → Bool → ℕ → Bool → ℕ → Type 0
    CommandRuns result previous b selects last exits n written most =
        (b' : Buf) × (xs : List ℕ) × (start : ℕ) × (stop : ℕ) × (result
          ≡ done true b' (previous ++ xs))
        × Branch B others previous b b' xs selects last exits start stop
        × (written ≡ true → BlockAt B others (generate_block n) b b' xs start stop)
        × (size B others b' ≤ size B others b + most)

    module _ (lo : ℕ) (previous : List ℕ) (n : ℕ) (last block_exits : Bool) (b : Buf)
        (before : Spans lo previous (size B others b)) where
      body_lem :
          (condition : Condition) (own : List ℕ) (b1 : Buf) (g : Bool) (most : ℕ)
          → is_never condition ≡ false
          → Generated B others b b1 own g
          → size B others b1 ≤ size B others b + most
          → size B others b + most + block_size n + 5 < 2 ^ 32
          → CommandRuns
              (if_body B generate generate_block condition last n block_exits previous own b1)
              previous
              b
              (not g)
              (last || is_always condition)
              (is_never condition || block_exits)
              n
              true
              (most + block_size n + 5)
      body_lem condition own b1 g most written p m near =
          let w = blocks n in
          let b2 = w.after b1 in
          let le = Spans-le (size B others b) own (size B others b1) p.spans in
          let (b3, xs, e3, x, m3) =
            if_exit_lem B others lo (size B others b) previous b2 before (omega (arith, w.grows b1))
              (omega (arith, w.bounded b1)) condition last block_exits in
          let le3 = Spans-le (size B others b2) xs (size B others b3) x.spans in
          let (b4, e4, n4, same, leads) =
            resolve_all_lem B own (size B others b) (size B others b1) b3 p.spans
              (omega (arith, w.grows b1, le3)) (omega (arith, w.bounded b1)) in
          (
            b4,
            xs,
            size B others b1,
            size B others b2,
            if_body_step generate generate_block condition last n block_exits previous own b1 b2
                  written (w.succeeds b1)
                ∙ (ap (resolved_behind B own) e3 ∙ behind_lem B others own _ b3 b4 true e4),
            compose-Branch B others lo previous own xs b b1 b2 b3 b4 g (last || is_always condition)
                (is_never condition || block_exits) before p (w.grows b1) (w.keeps b1) x n4 same
                leads,
            λ _. record {
              before = b1;
              after = b2;
              made = w.succeeds b1;
              from = refl;
              to = refl;
              same = λ i l k.
                  same i (Outside-above (size B others b) own (size B others b1) i p.spans l)
                  ∙ x.kept i k
                      (Outside-above lo previous (size B others b) i before (omega (arith, le)));
              low = le;
              high = omega (arith, n4, le3);
              clear = λ i l k. Outside-below (size B others b2) xs (size B others b3) i x.spans k;
            },
            omega (arith, n4, w.bounded b1),
          )

    module _ (lo : ℕ) (previous : List ℕ) (n : ℕ) (b : Buf)
        (before : Spans lo previous (size B others b)) (near : size B others b + 5 < 2 ^ 32) where
      no_block :
          {b' : Buf} {xs : List ℕ} → false ≡ true → BlockAt B others (generate_block n) b b' xs 0 0
      no_block none_made = absurd (ground (arith, none_made))

      never_lem :
          (last block_exits : Bool) (most : ℕ)
          → CommandRuns
              (if_body B generate generate_block never last n block_exits previous [] b)
              previous
              b
              false
              (last || false)
              true
              n
              false
              most
      unfolding if_body if_block if_exit resolved_behind
      never_lem true block_exits most =
          let (b3, e, n', same, leads) =
            resolve_exit_jumps_lem B previous lo _ b before (omega arith) (omega arith) in
          (
            b3,
            [],
            0,
            0,
            ap (resolved_behind B []) (all_resolved_lem B others previous b b3 e)
                ∙ ap (done true b3) (sym (append-nil previous)),
            never-Branch B others previous b b3 true 0 0 n'
                (Exit-last B others previous b b3 n' same leads true),
            no_block,
            omega (arith, n'),
          )
      never_lem false block_exits most = (
        b,
        [],
        0,
        0,
        ap (done true b) (sym (append-nil previous)),
        never-Branch B others previous b b false 0 0 refl (Exit-none B others previous b),
        no_block,
        omega arith,
      )

    module _ (lo : ℕ) (previous : List ℕ) (n : ℕ) (b : Buf)
        (before : Spans lo previous (size B others b)) where
      pub cmd_if_generate_lem :
          (condition : Condition) (t : Test) (last block_exits : Bool)
          → coded t ≡ true
          → size B others b + code_size leaf_size t + block_size n + 5 < 2 ^ 32
          → CommandRuns
              (cmd_if_generate B generate generate_block condition t n block_exits last previous b)
              previous
              b
              (decided value condition t)
              (last || is_always condition)
              (is_never condition || block_exits)
              n
              (not (is_never condition))
              (code_size leaf_size t + block_size n + 5)
      unfolding cmd_if_generate
      cmd_if_generate_lem unknown t last block_exits c near =
          let (b1, own, e, g, m) =
            generate_test_lem B others generate value leaf_size leaves t [] false b c
              (omega arith) in
          let (b', xs, start, stop, e', branch, block, m') =
            body_lem lo previous n last block_exits b before unknown own b1 _
              (code_size leaf_size t) refl g m near in
          (
            b',
            xs,
            start,
            stop,
            ap (if_tested B generate generate_block last n block_exits previous) e ∙ e',
            (rw not-not at branch),
            block,
            m',
          )
      cmd_if_generate_lem always t last block_exits c near =
          body_lem lo previous n last block_exits b before always [] b false (code_size leaf_size t)
            refl (nothing-Generated B others b) (omega arith) near
      cmd_if_generate_lem never t last block_exits c near =
          let (b', xs, start, stop, e, branch, block, m) =
            never_lem lo previous n b before (omega arith) last block_exits
              (code_size leaf_size t + block_size n + 5) in
          (b', xs, start, stop, e, branch, block, m)

      pub cmd_else_generate_lem :
          size B others b + block_size n + 5 < 2 ^ 32
          → CommandRuns
              (cmd_else_generate B generate generate_block unknown n previous b)
              previous
              b
              true
              true
              false
              n
              true
              (block_size n + 5)
      unfolding cmd_else_generate
      cmd_else_generate_lem near =
          let w = blocks n in
          let b2 = w.after b in
          let (b3, xs, e3, x, m3) =
            resolved_exit B others lo (size B others b) previous b2 before (w.grows b)
              (omega (arith, w.bounded b)) false in
          let le3 = Spans-le (size B others b2) xs (size B others b3) x.spans in
          (
            b3,
            xs,
            size B others b,
            size B others b2,
            rw (w.succeeds b) e3,
            compose-Branch B others lo previous [] xs b b b2 b3 b3 false true false before
                (nothing-Generated B others b) (w.grows b) (w.keeps b) x refl (λ i out. refl) tt,
            λ _. record {
              before = b;
              after = b2;
              made = w.succeeds b;
              from = refl;
              to = refl;
              same = λ i l k. x.kept i k (Outside-above lo previous (size B others b) i before l);
              low = omega arith;
              high = le3;
              clear = λ i l k. Outside-below (size B others b2) xs (size B others b3) i x.spans k;
            },
            omega (arith, w.bounded b),
          )
