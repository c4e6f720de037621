-- ===== src/Generator/If/Never.antt =====
-- Commands behind one whose condition surely holds: nothing is generated for them
-- (src/lib-sieve/cmd-if.c).
use pigeonhole.Prelude.{
  ℕ, ◌^◌, ◌<◌, ◌≡◌, ap, refl, Bool, true, List, [], ◌∷◌, All, get_elem?, arith,
}
use pigeonhole.Binary.{Buffer}
use pigeonhole.Interpreter.{Interp, Run}
use pigeonhole.Generator.{done, resolved_behind}
use pigeonhole.Generator.Meaning.{coded}
use pigeonhole.Generator.Slots.{Spans, Outside}
use pigeonhole.Generator.Resolve.{LeadsTo}
use pigeonhole.Generator.Runs.{stay}
use pigeonhole.Generator.Pieces.{size}
use pigeonhole.Generator.If.{
  IfCommand, if_command, else_command, validated, generate_command, generate_chain, cmd_if_generate,
  cmd_else_generate,
}
use pigeonhole.Generator.If.Branch.{resolve_exit_jumps_lem}
use pigeonhole.Generator.If.Exits.{all_resolved_lem}
use pigeonhole.Generator.If.Chain.{Chain, AllPlaced, AllLeave, entry}

-- An else has no command behind it, and all tests generate code.
abbrev pub IsFormed : List IfCommand → Type 0
IsFormed [] = Unit {0}
IsFormed (if_command condition t n block_exits ∷ rest) = (coded t ≡ true) × IsFormed rest
IsFormed (else_command condition n ∷ rest) = rest ≡ []

abbrev pub nowhere : List IfCommand → List (ℕ × ℕ)
nowhere [] = []
nowhere (c ∷ cs) = (0, 0) ∷ nowhere cs

module _ (B : Buffer) (others : ℕ → Interp → Run) (generate : ℕ → B.Buf → Bool × B.Buf)
    (value : ℕ → Bool) (generate_block : ℕ → B.Buf → Bool × B.Buf) where
  open B use {Buf, bytes}

  -- Commands that are never tried.
  never_entry :
      (cs : List IfCommand) (end : ℕ) → entry value (validated true cs) (nowhere cs) end ≡ end
  never_entry [] end = refl
  never_entry (if_command condition t n block_exits ∷ rest) end = never_entry rest end
  never_entry (else_command condition n ∷ rest) end = never_entry rest end

  never_placed :
      (cs : List IfCommand) (b : Buf)
      → AllPlaced B others value generate_block b (validated true cs) (nowhere cs)
  never_placed [] b = tt
  never_placed (if_command condition t n block_exits ∷ rest) b =
      (λ none_made. absurd (ground (arith, none_made)), never_placed rest b)
  never_placed (else_command condition n ∷ rest) b =
      (λ none_made. absurd (ground (arith, none_made)), never_placed rest b)

  never_leave :
      (cs : List IfCommand) (base : Interp) (end : ℕ)
      → AllLeave B others value generate_block base end (validated true cs) (nowhere cs)
  never_leave [] base end = tt
  never_leave (if_command condition t n block_exits ∷ rest) base end =
      (λ goes r. absurd (ground (arith, goes)), never_leave rest base end)
  never_leave (else_command condition n ∷ rest) base end =
      (λ goes r. absurd (ground (arith, goes)), never_leave rest base end)

  pub Chain-never :
      (cs : List IfCommand) (previous : List ℕ) (b b' : Buf)
      → size B others b' ≡ size B others b
      → ((i : ℕ) → Outside previous i → get_elem? (bytes b') i ≡ get_elem? (bytes b) i)
      → All (LeadsTo (bytes b') (size B others b')) previous
      → Chain B others value generate_block (validated true cs) previous b b' (nowhere cs)
  Chain-never cs previous b b' n same leads = record {
    grows = omega (arith, n);
    kept = λ i l out. same i out;
    leads = leads;
    placed = never_placed cs b';
    enters = λ base can _ enough r. (r, rw (never_entry cs, n) stay);
    leaves = λ base can _ enough. never_leave cs base (size B others b');
  }

  -- What generating such commands gives.
  abbrev pub NeverRuns : List IfCommand → List ℕ → Buf → Type 0
  NeverRuns cs previous b =
      (b' : Buf) × (generate_chain B generate generate_block (validated true cs) previous b
        ≡ done true b' previous)
      × (size B others b' ≡ size B others b)
      × ((i : ℕ) → Outside previous i → get_elem? (bytes b') i ≡ get_elem? (bytes b) i)
      × All (LeadsTo (bytes b') (size B others b')) previous

  module _ (lo : ℕ) (previous : List ℕ) (b : Buf) (before : Spans lo previous (size B others b))
      (near : size B others b < 2 ^ 32)
      (leads : All (LeadsTo (bytes b) (size B others b)) previous) where
    pub never_chain : (cs : List IfCommand) → IsFormed cs → NeverRuns cs previous b
    unfolding generate_chain generate_command cmd_if_generate cmd_else_generate resolved_behind
    never_chain [] formed = (b, refl, refl, λ i out. refl, leads)
    never_chain (else_command condition n ∷ []) formed = (b, refl, refl, λ i out. refl, leads)
    never_chain (else_command condition n ∷ next ∷ rest) formed = absurd (ground (arith, formed))
    never_chain (if_command condition t n block_exits ∷ []) formed =
        let (b', e, n', same, leads') =
          resolve_exit_jumps_lem B previous lo (size B others b) b before (omega arith) near in
        (
          b',
          ap (resolved_behind B []) (all_resolved_lem B others previous b b' e),
          n',
          same,
          rw n' leads',
        )
    never_chain (if_command condition t n block_exits ∷ next ∷ rest) (_, formed) =
        never_chain (next ∷ rest) formed
