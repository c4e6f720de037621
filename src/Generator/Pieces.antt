-- ===== src/Generator/Pieces.antt =====
-- How pieces of generated code RunsTo, and how they are put together.
use pigeonhole.Prelude.{
  ℕ, ◌+◌, ◌≤◌, ◌<◌, ◌≡◌, ◌∙◌, refl, inl, Bool, true, false, not, ◌||◌, some, List, [], ◌∷◌, ◌++◌,
  All, length, get_elem?, if◌then◌else◌, arith,
}
use pigeonhole.Binary.{Buffer}
use pigeonhole.Interpreter.{Interp, Run}
use pigeonhole.Interpreter.Operation.{operation_jmp, operation_jmptrue, operation_jmpfalse}
use pigeonhole.Generator.Slots.{
  Spans, Spans-le, Spans-append, Outside, Outside-append, Outside-below, Outside-above,
}
use pigeonhole.Generator.Resolve.{LeadsTo, LeadsTo-same, SameBytes}
use pigeonhole.Generator.Runs.{Rounds-trans, stay, at, RunsTo, jmp-RunsTo, jump_if-RunsTo, agrees}

pub All-append : (P : ℕ → Type 0) (xs ys : List ℕ) → All P (xs ++ ys) → All P xs × All P ys
All-append P [] ys h = (tt, h)
All-append P (x ∷ xs) ys (p, h) = let (a, c) = All-append P xs ys h in ((p, a), c)

-- Offsets keep leading where they lead in code that has the same bytes around them.
pub All-LeadsTo-same :
    (jumps : List ℕ) (lo hi : ℕ) (code code' : List ℕ) (target : ℕ)
    → Spans lo jumps hi
    → All (LeadsTo code target) jumps
    → length code ≤ length code'
    → ((i : ℕ) → lo ≤ i → i < hi → get_elem? code' i ≡ get_elem? code i)
    → All (LeadsTo code' target) jumps
All-LeadsTo-same [] lo hi code code' target sp h size same = tt
All-LeadsTo-same (a ∷ jumps) lo hi code code' target (l, sp) (p, h) size same = (
  LeadsTo-same code code' target a p size
      (λ i g k. same i (omega arith) (omega (arith, Spans-le (a + 4) jumps hi sp))),
  All-LeadsTo-same jumps (a + 4) hi code code' target sp h size (λ i g k. same i (omega arith) k),
)

module _ (B : Buffer) (others : ℕ → Interp → Run) where
  open B use {Buf, bytes}

  abbrev pub size : Buf → ℕ
  size b = length (bytes b)

  -- Code that has what `b'` has behind `b`, with the offsets of `jumps` leading to `target`.
  pub record Linked (code : List ℕ) (b b' : Buf) (jumps : List ℕ) (target : ℕ) : Type 0 where
    pub same : SameBytes jumps (size b) (size b') (bytes b') code
    pub enough : size b' ≤ length code
    pub leads : All (LeadsTo code target) jumps

  abbrev pub CanRun : Interp → Type 0
  CanRun base = (base.loop_limit ≡ 0) × (base.interrupted ≡ false)

  -- What stands in `b'` behind `b` is code that goes to the target of its jumps or to its end.
  pub record Generated (b b' : Buf) (jumps : List ℕ) (goes : Bool) : Type 0 where
    pub spans : Spans (size b) jumps (size b')
    pub kept : (i : ℕ) → i < size b → get_elem? (bytes b') i ≡ get_elem? (bytes b) i
    pub runs :
        (base : Interp) (target : ℕ)
        → CanRun base
        → Linked base.code b b' jumps target
        → (r : Bool)
        → (r' : Bool) × RunsTo others base
            (at others base (size b) r)
            (at others base (if goes then target else size b') r')

  pub nothing-Generated : (b : Buf) → Generated b b [] false
  nothing-Generated b = record {
    spans = omega arith;
    kept = λ i l. refl;
    runs = λ base target c link r. (r, stay);
  }

  Linked-first :
      (code : List ℕ) (b b1 b2 : Buf) (js ks : List ℕ) (target : ℕ) (g h : Bool)
      → Generated b b1 js g
      → Generated b1 b2 ks h
      → Linked code b b2 (js ++ ks) target
      → Linked code b b1 js target
  Linked-first code b b1 b2 js ks target g h p q link =
      let le = Spans-le (size b1) ks (size b2) q.spans in
      record {
        same = λ i l k out.
            link.same i l (omega (arith, le))
              (Outside-append js ks i out (Outside-below (size b1) ks (size b2) i q.spans k))
            ∙ q.kept i k;
        enough = omega (arith, le, link.enough);
        leads = (All-append (LeadsTo code target) js ks link.leads).0;
      }

  Linked-second :
      (code : List ℕ) (b b1 b2 : Buf) (js ks : List ℕ) (target : ℕ) (g h : Bool)
      → Generated b b1 js g
      → Generated b1 b2 ks h
      → Linked code b b2 (js ++ ks) target
      → Linked code b1 b2 ks target
  Linked-second code b b1 b2 js ks target g h p q link =
      let le = Spans-le (size b) js (size b1) p.spans in
      record {
        same = λ i l k out.
            link.same i (omega (arith, le)) k
              (Outside-append js ks i (Outside-above (size b) js (size b1) i p.spans l) out);
        enough = link.enough;
        leads = (All-append (LeadsTo code target) js ks link.leads).1;
      }

  -- Where one piece falls through, the next one runs.
  RunsTo-seq :
      (base : Interp) (g h : Bool) (from mid end target : ℕ)
      → ((r : Bool)
          → (r' : Bool) × RunsTo others base
              (at others base from r)
              (at others base (if g then target else mid) r'))
      → ((r : Bool)
          → (r' : Bool) × RunsTo others base
              (at others base mid r)
              (at others base (if h then target else end) r'))
      → (r : Bool)
      → (r' : Bool) × RunsTo others base
          (at others base from r)
          (at others base (if g || h then target else end) r')
  RunsTo-seq base true h from mid end target first second r = first r
  RunsTo-seq base false h from mid end target first second r =
      let (r1, k) = first r in let (r2, k') = second r1 in (r2, Rounds-trans k k')

  pub seq-Generated :
      (b b1 b2 : Buf) (js ks : List ℕ) (g h : Bool)
      → Generated b b1 js g
      → Generated b1 b2 ks h
      → Generated b b2 (js ++ ks) (g || h)
  seq-Generated b b1 b2 js ks g h p q = record {
    spans = Spans-append (size b) js (size b1) ks (size b2) p.spans q.spans;
    kept = λ i l. q.kept i (omega (arith, first_le)) ∙ p.kept i l;
    runs = λ base target c link.
        RunsTo-seq base g h (size b) (size b1) (size b2) target
          (p.runs base target c (Linked-first base.code b b1 b2 js ks target g h p q link))
          (q.runs base target c (Linked-second base.code b b1 b2 js ks target g h p q link));
  }
    where
      first_le : size b ≤ size b1
      first_le = Spans-le (size b) js (size b1) p.spans

  -- The operation code of a jump at the end, and where its offset leads.
  code_at :
      (code : List ℕ) (op : ℕ) (b b' : Buf) (target : ℕ)
      → size b' ≡ size b + 5
      → get_elem? (bytes b') (size b) ≡ some op
      → Linked code b b' ((size b + 1) ∷ []) target
      → get_elem? code (size b) ≡ some op
  code_at code op b b' target n o link =
      link.same (size b) (omega arith) (omega (arith, n)) (inl (omega arith), tt) ∙ o

  pub jump-Generated :
      (b b' : Buf)
      → size b' ≡ size b + 5
      → get_elem? (bytes b') (size b) ≡ some operation_jmp
      → ((i : ℕ) → i < size b → get_elem? (bytes b') i ≡ get_elem? (bytes b) i)
      → Generated b b' ((size b + 1) ∷ []) true
  jump-Generated b b' n o kept = record {
    spans = (omega arith, omega (arith, n));
    kept = kept;
    runs = λ base target c link r. (
      r,
      jmp-RunsTo others base c.0 c.1 (size b) target r
          (code_at base.code operation_jmp b b' target n o link) link.leads.0,
    );
  }

  -- A conditional jump behind code that sets the test result.
  pub jump_if_runs :
      (jump_true : Bool) (b b' : Buf)
      → size b' ≡ size b + 5
      → get_elem? (bytes b') (size b)
        ≡ some (if jump_true then operation_jmptrue else operation_jmpfalse)
      → (base : Interp) (target : ℕ) → CanRun base
      → Linked base.code b b' ((size b + 1) ∷ []) target
      → (r : Bool)
      → RunsTo others base
          (at others base (size b) r)
          (at others base (if agrees jump_true r then target else size b') r)
  jump_if_runs jump_true b b' n o base target c link r = rw n (
      jump_if-RunsTo others base c.0 c.1 jump_true (size b) target r
        (code_at base.code _ b b' target n o link) link.leads.0)

  -- Where the first piece falls through, a jump goes to the target.
  RunsTo-redirect :
      (base : Interp) (g : Bool) (from mid end target : ℕ)
      → ((r : Bool)
          → (r' : Bool) × RunsTo others base
              (at others base from r)
              (at others base (if g then end else mid) r'))
      → ((r : Bool) → RunsTo others base (at others base mid r) (at others base target r))
      → (r : Bool)
      → (r' : Bool) × RunsTo others base
          (at others base from r)
          (at others base (if not g then target else end) r')
  RunsTo-redirect base true from mid end target first jump r = first r
  RunsTo-redirect base false from mid end target first jump r =
      let (r1, k) = first r in (r1, Rounds-trans k (jump r1))

  -- Jumps gathered apart lead behind the jump for the caller, so the code goes where they do not.
  pub redirected-Generated :
      (b b1 b2 b3 : Buf) (own : List ℕ) (g : Bool)
      → Generated b b1 own g
      → size b2 ≡ size b1 + 5
      → get_elem? (bytes b2) (size b1) ≡ some operation_jmp
      → ((i : ℕ) → i < size b1 → get_elem? (bytes b2) i ≡ get_elem? (bytes b1) i)
      → size b3 ≡ size b2
      → ((i : ℕ) → Outside own i → get_elem? (bytes b3) i ≡ get_elem? (bytes b2) i)
      → All (LeadsTo (bytes b3) (size b2)) own
      → Generated b b3 ((size b1 + 1) ∷ []) (not g)
  redirected-Generated b b1 b2 b3 own g p n o kept n' kept' leads = record {
    spans = (omega (arith, le), omega (arith, n, n'));
    kept = λ i l.
        kept' i (Outside-below (size b) own (size b1) i p.spans l)
        ∙ kept i (omega (arith, le))
        ∙ p.kept i l;
    runs = λ base target c link. rw n' (
        RunsTo-redirect base g (size b) (size b1) (size b2) target
          (p.runs base (size b2) c (own_link base.code target link))
          (λ r.
            jmp-RunsTo others base c.0 c.1 (size b1) target r (jump_code base.code target link)
              link.leads.0));
  }
    where
      le : size b ≤ size b1
      le = Spans-le (size b) own (size b1) p.spans

      own_link :
          (code : List ℕ) (target : ℕ)
          → Linked code b b3 ((size b1 + 1) ∷ []) target
          → Linked code b b1 own (size b2)
      own_link code target link = record {
        same = λ i l k out.
            link.same i l (omega (arith, n, n')) (inl (omega arith), tt) ∙ kept' i out ∙ kept i k;
        enough = omega (arith, n, n', link.enough);
        leads =
            All-LeadsTo-same own (size b) (size b1) (bytes b3) code (size b2) p.spans leads
              link.enough (λ i l k. link.same i l (omega (arith, n, n')) (inl (omega arith), tt));
      }

      jump_code :
          (code : List ℕ) (target : ℕ)
          → Linked code b b3 ((size b1 + 1) ∷ []) target
          → get_elem? code (size b1) ≡ some operation_jmp
      jump_code code target link =
          link.same (size b1) le (omega (arith, n, n')) (inl (omega arith), tt)
          ∙ kept' (size b1) (Outside-above (size b) own (size b1) (size b1) p.spans (omega arith))
          ∙ o
