-- ===== src/Generator/If/Compose.antt =====
-- A branch from its test, its block and its end (src/lib-sieve/cmd-if.c, cmd_if_generate).
use pigeonhole.Prelude.{
  ℕ, ◌≤◌, ◌<◌, ◌≡◌, ◌∙◌, Bool, true, false, not, List, All, get_elem?, if◌then◌else◌, arith,
}
use pigeonhole.Binary.{Buffer}
use pigeonhole.Interpreter.{Interp, Run}
use pigeonhole.Generator.Slots.{Spans, Spans-lower, Spans-le, Outside, Outside-above, Outside-below}
use pigeonhole.Generator.Resolve.{LeadsTo}
use pigeonhole.Generator.Runs.{at, RunsTo}
use pigeonhole.Generator.Pieces.{size, Linked, Generated, All-LeadsTo-same}
use pigeonhole.Generator.If.Branch.{Exit, Branch}

module _ (B : Buffer) (others : ℕ → Interp → Run) where
  open B use {Buf, bytes}

  module _ (lo : ℕ) (previous own xs : List ℕ) (b b1 b2 b3 b4 : Buf) (g last exits : Bool)
      (before : Spans lo previous (size B others b)) (p : Generated B others b b1 own g)
      (grows : size B others b1 ≤ size B others b2)
      (keeps : (i : ℕ) → i < size B others b1 → get_elem? (bytes b2) i ≡ get_elem? (bytes b1) i)
      (e : Exit B others previous b2 b3 xs last exits) (n : size B others b4 ≡ size B others b3)
      (same : (i : ℕ) → Outside own i → get_elem? (bytes b4) i ≡ get_elem? (bytes b3) i)
      (leads : All (LeadsTo (bytes b4) (size B others b3)) own) where
    test_le : size B others b ≤ size B others b1
    test_le = Spans-le (size B others b) own (size B others b1) p.spans

    exit_le : size B others b2 ≤ size B others b3
    exit_le = Spans-le (size B others b2) xs (size B others b3) e.spans

    -- The bytes of the test, in the finished branch.
    test_bytes :
        (i : ℕ)
        → i < size B others b1
        → Outside own i
        → Outside previous i
        → get_elem? (bytes b4) i ≡ get_elem? (bytes b1) i
    test_bytes i k out out' = same i out ∙ e.kept i (omega (arith, grows)) out' ∙ keeps i k

    previous_out : (i : ℕ) → size B others b ≤ i → Outside previous i
    previous_out i l = Outside-above lo previous (size B others b) i before l

    xs_out : (i : ℕ) → i < size B others b1 → Outside xs i
    xs_out i k =
        Outside-below (size B others b2) xs (size B others b3) i e.spans (omega (arith, grows))

    own_link :
        (code : List ℕ) (end : ℕ)
        → Linked B others code b b4 xs end
        → Linked B others code b b1 own (size B others b4)
    own_link code end link = record {
      same = λ i l k out.
          link.same i l (omega (arith, n, exit_le, grows)) (xs_out i k)
          ∙ test_bytes i k out (previous_out i l);
      enough = omega (arith, n, exit_le, grows, link.enough);
      leads =
          All-LeadsTo-same own (size B others b) (size B others b1) (bytes b4) code
            (size B others b4) p.spans (rw n leads) link.enough
            (λ i l k. link.same i l (omega (arith, n, exit_le, grows)) (xs_out i k));
    }

    exit_link :
        (code : List ℕ) (end : ℕ)
        → Linked B others code b b4 xs end
        → Linked B others code b2 b3 xs end
    exit_link code end link = record {
      same = λ i l k out.
          link.same i (omega (arith, test_le, grows)) (omega (arith, n)) out
          ∙ same i (
              Outside-above (size B others b) own (size B others b1) i p.spans
                (omega (arith, grows)));
      enough = omega (arith, n, link.enough);
      leads = link.leads;
    }

    selected :
        (base : Interp) (end : ℕ) (g' : Bool)
        → ((r : Bool)
            → (r' : Bool) × RunsTo others base
                (at others base (size B others b) r)
                (at others base (if g' then end else size B others b1) r'))
        → (r : Bool)
        → (r' : Bool) × RunsTo others base
            (at others base (size B others b) r)
            (at others base (if not g' then size B others b1 else end) r')
    selected base end true h r = h r
    selected base end false h r = h r

    -- The FALSE jumps of the test are resolved behind the exit, so control gets to the block where
    -- the test does not jump.
    pub compose-Branch :
        Branch B others previous b b4 xs (not g) last exits (size B others b1) (size B others b2)
    compose-Branch = record {
      spans = rw n (
          Spans-lower (size B others b) (size B others b2) xs (size B others b3)
            (omega (arith, test_le, grows)) e.spans);
      kept = λ i l out.
          test_bytes i (omega (arith, test_le))
            (Outside-below (size B others b) own (size B others b1) i p.spans l) out
          ∙ p.kept i l;
      leads = λ is_last. rw n (
          All-LeadsTo-same previous lo (size B others b) (bytes b3) (bytes b4) (size B others b3)
            before (e.leads is_last) (omega (arith, n))
            (λ i l k. same i (Outside-below (size B others b) own (size B others b1) i p.spans k)));
      none_new = e.none_new;
      enters = λ base end c link.
          selected base (size B others b4) g
            (p.runs base (size B others b4) c (own_link base.code end link));
      leaves =
          λ base end c link goes. rw n (e.leaves base end c (exit_link base.code end link) goes);
    }
