-- ===== src/Generator/If/Chain.antt =====
-- How the commands of one if structure are put together (src/lib-sieve/cmd-if.c).
use pigeonhole.Prelude.{
  ℕ, ◌≤◌, ◌<◌, ◌≡◌, ◌∙◌, sym, refl, Bool, true, false, not, ◌||◌, List, [], ◌∷◌, ◌++◌, All, length,
  get_elem?, if◌then◌else◌, arith,
}
use pigeonhole.Binary.{Buffer}
use pigeonhole.Interpreter.{Interp, Run}
use pigeonhole.Generator.Slots.{
  Spans, Spans-le, Outside, Outside-append, Outside-above, Outside-below,
}
use pigeonhole.Generator.Resolve.{LeadsTo, SameBytes}
use pigeonhole.Generator.Runs.{at, RunsTo, stay, Rounds-trans}
use pigeonhole.Generator.Pieces.{size, CanRun, Linked, All-LeadsTo-same, All-append}
use pigeonhole.Generator.If.{IfCommand, if_command, else_command, is_never}
use pigeonhole.Generator.If.Branch.{Branch}
use pigeonhole.Generator.If.Commands.{decided}
use pigeonhole.Generator.If.Exits.{BlockAt}

abbrev pub block_of : IfCommand → ℕ
block_of (if_command condition t n block_exits) = n
block_of (else_command condition n) = n

-- Whether the block of a command is generated.
abbrev pub is_written : IfCommand → Bool
is_written (if_command condition t n block_exits) = not (is_never condition)
is_written (else_command condition n) = not (is_never condition)

-- Whether the end of the block cannot be reached.
abbrev pub is_left : IfCommand → Bool
is_left (if_command condition t n block_exits) = is_never condition || block_exits
is_left (else_command condition n) = is_never condition

-- Whether the command's condition holds.
abbrev pub is_chosen : (ℕ → Bool) → IfCommand → Bool
is_chosen value (if_command condition t n block_exits) = decided value condition t
is_chosen value (else_command condition n) = not (is_never condition)

-- Where control gets: to the block of the first command whose condition holds, or to the end.
abbrev pub entry : (ℕ → Bool) → List IfCommand → List (ℕ × ℕ) → ℕ → ℕ
entry value (c ∷ cs) (place ∷ places) end =
    if is_chosen value c then place.0 else entry value cs places end
entry value _ _ end = end

module _ (B : Buffer) (others : ℕ → Interp → Run) where
  open B use {Buf, bytes}

  -- What the function of a block has written stands in `b'` from `start` to `stop`.
  pub record Placed (generate_block : Buf → Bool × Buf) (b' : Buf) (place : ℕ × ℕ) : Type 0 where
    pub before : Buf
    pub after : Buf
    pub made : generate_block before ≡ (true, after)
    pub from : size B others before ≡ place.0
    pub to : size B others after ≡ place.1
    pub same :
        (i : ℕ) → place.0 ≤ i → i < place.1 → get_elem? (bytes b') i ≡ get_elem? (bytes after) i

  module _ (value : ℕ → Bool) (generate_block : ℕ → Buf → Bool × Buf) where
    abbrev pub AllPlaced : Buf → List IfCommand → List (ℕ × ℕ) → Type 0
    AllPlaced b' (c ∷ cs) (place ∷ places) =
        (is_written c ≡ true → Placed (generate_block (block_of c)) b' place)
        × AllPlaced b' cs places
    AllPlaced b' _ _ = Unit {0}

    -- From the end of each block control gets to `end`.
    abbrev pub AllLeave : Interp → ℕ → List IfCommand → List (ℕ × ℕ) → Type 0
    AllLeave base end (c ∷ cs) (place ∷ places) =
        (is_left c ≡ false
          → (r : Bool)
          → (r' : Bool) × RunsTo others base (at others base place.1 r) (at others base end r'))
        × AllLeave base end cs places
    AllLeave base end _ _ = Unit {0}

    -- Commands generated from `b` to `b'`, with exit jumps `previous` in front of them.
    pub record Chain (cs : List IfCommand) (previous : List ℕ) (b b' : Buf) (places : List (ℕ × ℕ))
        : Type 0 where
      pub grows : size B others b ≤ size B others b'
      pub kept :
          (i : ℕ)
          → i < size B others b
          → Outside previous i
          → get_elem? (bytes b') i ≡ get_elem? (bytes b) i
      pub leads : All (LeadsTo (bytes b') (size B others b')) previous
      pub placed : AllPlaced b' cs places
      pub enters :
          (base : Interp)
          → CanRun B others base
          → SameBytes [] (size B others b) (size B others b') (bytes b') base.code
          → size B others b' ≤ length base.code
          → (r : Bool)
          → (r' : Bool) × RunsTo others base
              (at others base (size B others b) r)
              (at others base (entry value cs places (size B others b')) r')
      pub leaves :
          (base : Interp)
          → CanRun B others base
          → SameBytes [] (size B others b) (size B others b') (bytes b') base.code
          → size B others b' ≤ length base.code
          → AllLeave base (size B others b') cs places

    pub Chain-nil :
        (previous : List ℕ) (b : Buf)
        → All (LeadsTo (bytes b) (size B others b)) previous
        → Chain [] previous b b []
    Chain-nil previous b leads = record {
      grows = omega arith;
      kept = λ i l out. refl;
      leads = leads;
      placed = tt;
      enters = λ base c same enough r. (r, stay);
      leaves = λ base c same enough. tt;
    }

    module _ (lo : ℕ) (previous xs : List ℕ) (b b1 b' : Buf) (c : IfCommand) (cs : List IfCommand)
        (last : Bool) (start stop : ℕ) (places : List (ℕ × ℕ))
        (before : Spans lo previous (size B others b))
        (branch : Branch B others previous b b1 xs (is_chosen value c) last (is_left c) start stop)
        (block : is_written c ≡ true
          → BlockAt B others (generate_block (block_of c)) b b1 xs start stop)
        (rest : Chain cs (previous ++ xs) b1 b' places)
        (ends : last ≡ true → size B others b' ≡ size B others b1) where
      step_le : size B others b ≤ size B others b1
      step_le = Spans-le (size B others b) xs (size B others b1) branch.spans

      -- The bytes of the command, in the finished code.
      step_bytes :
          (i : ℕ)
          → size B others b ≤ i
          → i < size B others b1
          → Outside xs i
          → get_elem? (bytes b') i ≡ get_elem? (bytes b1) i
      step_bytes i l k out = rest.kept i k (
          Outside-append previous xs i (Outside-above lo previous (size B others b) i before l) out)

      step_link :
          (code : List ℕ)
          → SameBytes [] (size B others b) (size B others b') (bytes b') code
          → size B others b' ≤ length code
          → Linked B others code b b1 xs (size B others b')
      step_link code same enough = record {
        same = λ i l k out. same i l (omega (arith, rest.grows)) tt ∙ step_bytes i l k out;
        enough = omega (arith, rest.grows, enough);
        leads =
            All-LeadsTo-same xs (size B others b) (size B others b1) (bytes b') code
              (size B others b') branch.spans
              (All-append (LeadsTo (bytes b') (size B others b')) previous xs rest.leads).1 enough
              (λ i l k. same i l (omega (arith, rest.grows)) tt);
      }

      enter_or_go_on :
          (base : Interp) (chosen : Bool) (end : ℕ)
          → ((r : Bool)
              → (r' : Bool) × RunsTo others base
                  (at others base (size B others b) r)
                  (at others base (if chosen then start else size B others b1) r'))
          → ((r : Bool)
              → (r' : Bool) × RunsTo others base
                  (at others base (size B others b1) r)
                  (at others base end r'))
          → (r : Bool)
          → (r' : Bool) × RunsTo others base
              (at others base (size B others b) r)
              (at others base (if chosen then start else end) r')
      enter_or_go_on base true end h k r = h r
      enter_or_go_on base false end h k r =
          let (r1, run1) = h r in let (r2, run2) = k r1 in (r2, Rounds-trans run1 run2)

      ended :
          (is_last : Bool)
          → (is_last ≡ true → size B others b' ≡ size B others b1)
          → (if is_last then size B others b1 else size B others b') ≡ size B others b'
      ended true h = sym (h refl)
      ended false h = refl

      Placed-BlockAt :
          {n : ℕ}
          → BlockAt B others (generate_block n) b b1 xs start stop
          → Placed (generate_block n) b' (start, stop)
      Placed-BlockAt h = record {
        before = h.before;
        after = h.after;
        made = h.made;
        from = h.from;
        to = h.to;
        same = λ i l k.
            step_bytes i (omega (arith, h.low)) (omega (arith, h.high)) (h.clear i l k)
            ∙ h.same i l k;
      }

      pub Chain-step : Chain (c ∷ cs) previous b b' ((start, stop) ∷ places)
      Chain-step = record {
        grows = omega (arith, step_le, rest.grows);
        kept = λ i l out.
            rest.kept i (omega (arith, step_le)) (
              Outside-append previous xs i out
                (Outside-below (size B others b) xs (size B others b1) i branch.spans l))
            ∙ branch.kept i l out;
        leads = (All-append (LeadsTo (bytes b') (size B others b')) previous xs rest.leads).0;
        placed = (λ written. Placed-BlockAt (block written), rest.placed);
        enters = λ base can same enough.
            enter_or_go_on base (is_chosen value c) (entry value cs places (size B others b'))
              (branch.enters base (size B others b') can (step_link base.code same enough))
              (rest.enters base can (λ i l. same i (omega (arith, step_le))) enough);
        leaves = λ base can same enough. (
          λ goes r.
              rw (ended last ends) at (
                branch.leaves base (size B others b') can (step_link base.code same enough) goes r),
          rest.leaves base can (λ i l. same i (omega (arith, step_le))) enough,
        );
      }
