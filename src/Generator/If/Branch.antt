-- ===== src/Generator/If/Branch.antt =====
-- How the code of one if, elsif or else is put together (src/lib-sieve/cmd-if.c).
use pigeonhole.Prelude.{
  ℕ, ◌+◌, ◌^◌, ◌≤◌, ◌<◌, ◌≡◌, ◌∙◌, refl, inr, Bool, true, false, some, List, [], ◌∷◌, All, length,
  get_elem?, if◌then◌else◌, arith,
}
use pigeonhole.Binary.{Buffer}
use pigeonhole.Interpreter.{Interp, Run}
use pigeonhole.Generator.Slots.{Spans, Spans-le, Outside}
use pigeonhole.Generator.Resolve.{LeadsTo, resolve_offset_lem}
use pigeonhole.Generator.Runs.{at, RunsTo, stay}
use pigeonhole.Generator.Pieces.{size, CanRun, Linked, Generated, All-LeadsTo-same}
use pigeonhole.Generator.If.{resolve_exit_jumps}

module _ (B : Buffer) where
  open B use {Buf, bytes}

  -- Resolving the exit jumps makes them lead to the end of the block, and changes nothing else.
  pub resolve_exit_jumps_lem :
      (own : List ℕ) (lo hi : ℕ) (b : Buf)
      → Spans lo own hi
      → hi ≤ length (bytes b)
      → length (bytes b) < 2 ^ 32
      → (b' : Buf) × (resolve_exit_jumps B own b ≡ some b')
        × (length (bytes b') ≡ length (bytes b))
        × ((i : ℕ) → Outside own i → get_elem? (bytes b') i ≡ get_elem? (bytes b) i)
        × All (LeadsTo (bytes b') (length (bytes b))) own
  unfolding resolve_exit_jumps
  resolve_exit_jumps_lem [] lo hi b sp h near = (b, refl, refl, λ i out. refl, tt)
  resolve_exit_jumps_lem (a ∷ newer) lo hi b (l, sp) h near =
      let (b1, found, n, same, leads) = resolve_exit_jumps_lem newer (a + 4) hi b sp h near in
      let (b', e, n', lead, same') =
        resolve_offset_lem B b1 a (omega (arith, n, Spans-le (a + 4) newer hi sp))
          (omega (arith, n)) in
      let rest =
        All-LeadsTo-same newer (a + 4) hi (bytes b1) (bytes b') (length (bytes b)) sp leads
          (omega (arith, n')) (λ i g k. same' i (inr g)) in
      (
        b',
        rw (found, resolve_exit_jumps) e,
        n' ∙ n,
        λ i out. same' i out.0 ∙ same i out.1,
        (rw n at lead, rest),
      )

module _ (B : Buffer) (others : ℕ → Interp → Run) where
  open B use {Buf, bytes}

  -- The end of a block of commands from `b2` on, `previous` being the exit jumps so far and `xs` the
  -- new one. Behind the last command, and where no other can be reached, they are resolved.
  pub record Exit (previous : List ℕ) (b2 b3 : Buf) (xs : List ℕ) (last exits : Bool) : Type 0 where
    pub spans : Spans (size B others b2) xs (size B others b3)
    pub kept :
        (i : ℕ)
        → i < size B others b2
        → Outside previous i
        → get_elem? (bytes b3) i ≡ get_elem? (bytes b2) i
    pub leads : last ≡ true → All (LeadsTo (bytes b3) (size B others b3)) previous
    pub none_new : last ≡ true → xs ≡ []
    pub leaves :
        (base : Interp) (end : ℕ)
        → CanRun B others base
        → Linked B others base.code b2 b3 xs end
        → exits ≡ false
        → (r : Bool)
        → (r' : Bool) × RunsTo others base
            (at others base (size B others b2) r)
            (at others base (if last then size B others b3 else end) r')

  pub Exit-last :
      (previous : List ℕ) (b2 b3 : Buf)
      → size B others b3 ≡ size B others b2
      → ((i : ℕ) → Outside previous i → get_elem? (bytes b3) i ≡ get_elem? (bytes b2) i)
      → All (LeadsTo (bytes b3) (size B others b2)) previous
      → (exits : Bool) → Exit previous b2 b3 [] true exits
  Exit-last previous b2 b3 n same leads exits = record {
    spans = omega (arith, n);
    kept = λ i l out. same i out;
    leads = λ _. rw n leads;
    none_new = λ _. refl;
    leaves = λ base end c link goes r. (r, rw n stay);
  }

  pub Exit-jump :
      (previous : List ℕ) (b2 b3 : Buf) (exits : Bool)
      → Generated B others b2 b3 ((size B others b2 + 1) ∷ []) true
      → Exit previous b2 b3 ((size B others b2 + 1) ∷ []) false exits
  Exit-jump previous b2 b3 exits g = record {
    spans = g.spans;
    kept = λ i l out. g.kept i l;
    leads = λ no. absurd (ground (arith, no));
    none_new = λ no. absurd (ground (arith, no));
    leaves = λ base end c link goes r. g.runs base end c link r;
  }

  pub Exit-none : (previous : List ℕ) (b : Buf) → Exit previous b b [] false true
  Exit-none previous b = record {
    spans = omega arith;
    kept = λ i l out. refl;
    leads = λ no. absurd (ground (arith, no));
    none_new = λ no. absurd (ground (arith, no));
    leaves = λ base end c link goes r. absurd (ground (arith, goes));
  }

  -- One command: where its block stands, and that control gets there if `selects` and behind the
  -- command otherwise, and from the end of the block to the end of the whole.
  pub record Branch (previous : List ℕ) (b b' : Buf) (xs : List ℕ) (selects last exits : Bool)
      (start stop : ℕ) : Type 0 where
    pub spans : Spans (size B others b) xs (size B others b')
    pub kept :
        (i : ℕ)
        → i < size B others b
        → Outside previous i
        → get_elem? (bytes b') i ≡ get_elem? (bytes b) i
    pub leads : last ≡ true → All (LeadsTo (bytes b') (size B others b')) previous
    pub none_new : last ≡ true → xs ≡ []
    pub enters :
        (base : Interp) (end : ℕ)
        → CanRun B others base
        → Linked B others base.code b b' xs end
        → (r : Bool)
        → (r' : Bool) × RunsTo others base
            (at others base (size B others b) r)
            (at others base (if selects then start else size B others b') r')
    pub leaves :
        (base : Interp) (end : ℕ)
        → CanRun B others base
        → Linked B others base.code b b' xs end
        → exits ≡ false
        → (r : Bool)
        → (r' : Bool) × RunsTo others base
            (at others base stop r)
            (at others base (if last then size B others b' else end) r')

  -- A command that writes nothing.
  pub never-Branch :
      (previous : List ℕ) (b b' : Buf) (last : Bool) (start stop : ℕ)
      → size B others b' ≡ size B others b
      → Exit previous b b' [] last true
      → Branch previous b b' [] false last true start stop
  never-Branch previous b b' last start stop n e = record {
    spans = e.spans;
    kept = e.kept;
    leads = e.leads;
    none_new = λ _. refl;
    enters = λ base end c link r. (r, rw n stay);
    leaves = λ base end c link goes r. absurd (ground (arith, goes));
  }
