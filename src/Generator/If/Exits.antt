-- ===== src/Generator/If/Exits.antt =====
-- The end of the block of a command, and what is asked of blocks (src/lib-sieve/cmd-if.c).
use pigeonhole.Prelude.{
  ℕ, ◌+◌, ◌^◌, ◌≤◌, ◌<◌, ◌≡◌, sym, ap, refl, Bool, true, false, ◌||◌, some, List, [], ◌∷◌, ◌++◌,
  append-nil, get_elem?, arith,
}
use pigeonhole.Binary.{Buffer}
use pigeonhole.Interpreter.{Interp, Run}
use pigeonhole.Interpreter.Operation.{operation_jmp}
use pigeonhole.Generator.{Gen, done, resolve_all, resolved_behind}
use pigeonhole.Generator.Slots.{Spans, Outside}
use pigeonhole.Generator.Resolve.{emit_jump_lem}
use pigeonhole.Generator.Pieces.{size, jump-Generated}
use pigeonhole.Generator.If.{
  Condition, unknown, always, never, is_never, is_always, resolve_exit_jumps, all_resolved, if_exit,
}
use pigeonhole.Generator.If.Branch.{resolve_exit_jumps_lem, Exit, Exit-last, Exit-jump, Exit-none}

module _ (B : Buffer) (others : ℕ → Interp → Run) where
  open B use {Buf, bytes}

  abbrev pub ExitsLike : Gen Buf → List ℕ → Buf → Bool → Bool → Type 0
  ExitsLike result previous b2 last exits =
      (b3 : Buf) × (xs : List ℕ) × (result ≡ done true b3 (previous ++ xs))
      × Exit B others previous b2 b3 xs last exits
      × (size B others b3 ≤ size B others b2 + 5)

  module _ (lo hi : ℕ) (previous : List ℕ) (b2 : Buf) (before : Spans lo previous hi)
      (inside : hi ≤ size B others b2) (near : size B others b2 + 5 < 2 ^ 32) where
    pub resolved_exit :
        (exits : Bool) → ExitsLike (all_resolved B previous b2) previous b2 true exits
    unfolding all_resolved
    resolved_exit exits =
        let (b3, e, n, same, leads) =
          resolve_exit_jumps_lem B previous lo hi b2 before inside (omega arith) in
        (
          b3,
          [],
          rw (e, all_resolved) (ap (done true b3) (sym (append-nil previous))),
          Exit-last B others previous b2 b3 n same leads exits,
          omega (arith, n),
        )

    no_exit : (last : Bool) → ExitsLike (done true b2 previous) previous b2 false true
    no_exit last = (
      b2,
      [],
      ap (done true b2) (sym (append-nil previous)),
      Exit-none B others previous b2,
      omega arith,
    )

    pub if_exit_lem :
        (condition : Condition) (last block_exits : Bool)
        → ExitsLike
            (if_exit B condition last block_exits previous b2)
            previous
            b2
            (last || is_always condition)
            (is_never condition || block_exits)
    unfolding if_exit
    if_exit_lem condition true block_exits = resolved_exit _
    if_exit_lem always false block_exits = resolved_exit _
    if_exit_lem never false true = no_exit false
    if_exit_lem never false false = no_exit false
    if_exit_lem unknown false true = no_exit false
    if_exit_lem unknown false false =
        let (b3, e, n, o, kept) = emit_jump_lem B operation_jmp previous b2 in
        (
          b3,
          (size B others b2 + 1) ∷ [],
          e,
          Exit-jump B others previous b2 b3 false (jump-Generated B others b2 b3 n o kept),
          omega (arith, n),
        )

  -- What the generate function of a block is to do: it succeeds and writes behind the block of code
  -- at most `most` bytes.
  pub record BlockWrites (generate_block : Buf → Bool × Buf) (most : ℕ) : Type 0 where
    pub after : Buf → Buf
    pub succeeds : (b : Buf) → generate_block b ≡ (true, after b)
    pub grows : (b : Buf) → size B others b ≤ size B others (after b)
    pub bounded : (b : Buf) → size B others (after b) ≤ size B others b + most
    pub keeps :
        (b : Buf) (i : ℕ)
        → i < size B others b
        → get_elem? (bytes (after b)) i ≡ get_elem? (bytes b) i

  -- From `start` to `stop` stands what the function of a block has written.
  pub record BlockAt (generate_block : Buf → Bool × Buf) (b b' : Buf) (xs : List ℕ) (start stop : ℕ)
      : Type 0 where
    pub before : Buf
    pub after : Buf
    pub made : generate_block before ≡ (true, after)
    pub from : size B others before ≡ start
    pub to : size B others after ≡ stop
    pub same : (i : ℕ) → start ≤ i → i < stop → get_elem? (bytes b') i ≡ get_elem? (bytes after) i
    pub low : size B others b ≤ start
    pub high : stop ≤ size B others b'
    pub clear : (i : ℕ) → start ≤ i → i < stop → Outside xs i

  pub behind_lem :
      (own exits : List ℕ) (b b' : Buf) (result : Bool)
      → resolve_all B own b ≡ some b'
      → resolved_behind B own (done result b exits) ≡ done true b' exits
  unfolding resolved_behind
  behind_lem own exits b b' result e = rw (e, resolved_behind) refl

  pub all_resolved_lem :
      (previous : List ℕ) (b b' : Buf)
      → resolve_exit_jumps B previous b ≡ some b'
      → all_resolved B previous b ≡ done true b' previous
  unfolding all_resolved
  all_resolved_lem previous b b' e = rw (e, all_resolved) refl
