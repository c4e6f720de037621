-- ===== src/Generator/Resolve.antt =====
-- What emitting a jump and resolving a jump list do to the bytes of a block
-- (src/lib-sieve/sieve-generator.c, sieve_jumplist_resolve).
use pigeonhole.Prelude.{
  ℕ, zero, suc, ◌+◌, ◌-◌, ◌^◌, ◌≤◌, ◌<◌, ◌≡◌, ◌∙◌, sym, ap, refl, ◌⊎◌, inl, inr, some, List, [],
  ◌∷◌, ◌++◌, All, length, get_elem?, take, drop, arith, get_elem?-some, get_elem?-add, length-drop,
  length-append, true, append_assoc, get_elem?-append,
}
use pigeonhole.Binary.{
  Buffer, ok, read_offset, offset_loop, emit_byte, emit_offset, offset_bytes, resolve_offset,
}
use pigeonhole.Binary.Offset.{read-resolve_offset, read_offset_cases}
use pigeonhole.Generator.{done, emit_jump, resolve_all}
use pigeonhole.Generator.Slots.{Spans, Spans-le, Outside, Outside-below, get_elem?-take}

-- The offset at `a` leads to `target`, in code that goes on at least to there.
pub record LeadsTo (code : List ℕ) (target a : ℕ) : Type 0 where
  pub offset : read_offset code a ≡ ok (a + 4) (target - a)
  pub forward : a < target
  pub inside : target ≤ length code

-- `code'` has the bytes of `code` from `lo` to `hi`, outside of some places.
abbrev pub SameBytes : List ℕ → ℕ → ℕ → List ℕ → List ℕ → Type 0
SameBytes jumps lo hi code code' =
    (i : ℕ) → lo ≤ i → i < hi → Outside jumps i → get_elem? code' i ≡ get_elem? code i

-- Reading an offset looks at four bytes.
pub read_offset_same :
    (code code' : List ℕ) (a : ℕ)
    → a + 4 ≤ length code
    → a + 4 ≤ length code'
    → get_elem? code' a ≡ get_elem? code a
    → get_elem? code' (a + 1) ≡ get_elem? code (a + 1)
    → get_elem? code' (a + 1 + 1) ≡ get_elem? code (a + 1 + 1)
    → get_elem? code' (a + 1 + 1 + 1) ≡ get_elem? code (a + 1 + 1 + 1)
    → read_offset code' a ≡ read_offset code a
unfolding read_offset offset_loop
read_offset_same code code' a h h' e0 e1 e2 e3 =
    let (b0, f0) = get_elem?-some code a (omega arith) in
    let (b1, f1) = get_elem?-some code (a + 1) (omega arith) in
    let (b2, f2) = get_elem?-some code (a + 1 + 1) (omega arith) in
    let (b3, f3) = get_elem?-some code (a + 1 + 1 + 1) (omega arith) in ground arith

-- The parts of a resolved block, byte by byte.
pub resolved :
    (code code' : List ℕ) (a : ℕ)
    → read_offset code' a ≡ ok (a + 4) (length code - a)
    → take a code' ≡ take a code
    → drop (a + 4) code' ≡ drop (a + 4) code
    → a + 4 ≤ length code
    → (length code' ≡ length code)
      × LeadsTo code' (length code) a
      × ((i : ℕ) → ((i < a) ⊎ (a + 4 ≤ i)) → get_elem? code' i ≡ get_elem? code i)
resolved code code' a r t d h =
    let in' : a + 4 ≤ length code' = elim (read_offset_cases code' a) [
      | inl (k, _) ↦ k
      | inr (k, e) ↦ absurd (ground (arith, e, r))
    ] in
    let size : length code' ≡ length code =
      omega (arith, ap length d, length-drop (a + 4) code', length-drop (a + 4) code) in
    (
      size,
      record { offset = r; forward = omega arith; inside = omega arith },
      λ i out. elim out [
        | inl l ↦
            sym (get_elem?-take a i code' l) ∙ ap (λ x. get_elem? x i) t ∙ get_elem?-take a i code l
        | inr g ↦ above i g
      ],
    )
  where
    above : (i : ℕ) → a + 4 ≤ i → get_elem? code' i ≡ get_elem? code i
    above i g =
        let split : a + 4 + (i - (a + 4)) ≡ i = omega arith in
        rw (← split) (
          get_elem?-add (a + 4) (i - (a + 4)) code'
          ∙ ap (λ x. get_elem? x (i - (a + 4))) d
          ∙ sym (get_elem?-add (a + 4) (i - (a + 4)) code))

pub LeadsTo-same :
    (code code' : List ℕ) (target a : ℕ)
    → LeadsTo code target a
    → length code ≤ length code'
    → ((i : ℕ) → a ≤ i → i < a + 4 → get_elem? code' i ≡ get_elem? code i)
    → LeadsTo code' target a
LeadsTo-same code code' target a h size same =
    let in' : a + 4 ≤ length code = elim (read_offset_cases code a) [
      | inl (k, _) ↦ k
      | inr (k, e) ↦ absurd (ground (arith, e, h.offset))
    ] in
    let read =
      read_offset_same code code' a in' (omega arith) (same a (omega arith) (omega arith))
        (same (a + 1) (omega arith) (omega arith)) (same (a + 1 + 1) (omega arith) (omega arith))
        (same (a + 1 + 1 + 1) (omega arith) (omega arith)) in
    record { offset = read ∙ h.offset; forward = h.forward; inside = omega (arith, h.inside) }

pub get_elem?-append_left :
    (xs ys : List ℕ) (i : ℕ) → i < length xs → get_elem? (xs ++ ys) i ≡ get_elem? xs i
get_elem?-append_left [] ys i h = elim h [ ]
get_elem?-append_left (x ∷ xs) ys zero h = refl
get_elem?-append_left (x ∷ xs) ys (suc i) h = get_elem?-append_left xs ys i (omega arith)

module _ (B : Buffer) where
  open B use {Buf, bytes, append, bytes-append}

  pub resolve_offset_lem :
      (b : Buf) (a : ℕ)
      → a + 4 ≤ length (bytes b)
      → length (bytes b) < 2 ^ 32
      → (b' : Buf) × (resolve_offset B b a ≡ some b')
        × (length (bytes b') ≡ length (bytes b))
        × LeadsTo (bytes b') (length (bytes b)) a
        × ((i : ℕ) → ((i < a) ⊎ (a + 4 ≤ i)) → get_elem? (bytes b') i ≡ get_elem? (bytes b) i)
  resolve_offset_lem b a h near =
      let (b', e, r, t, d) = read-resolve_offset B b a h (omega arith) in
      let (size, leads, same) = resolved (bytes b) (bytes b') a r t d h in
      (b', e, size, leads, same)

  -- Resolving a jump list makes all its offsets lead to the end of the block, and changes nothing
  -- else.
  pub resolve_all_lem :
      (own : List ℕ) (lo hi : ℕ) (b : Buf)
      → Spans lo own hi
      → hi ≤ length (bytes b)
      → length (bytes b) < 2 ^ 32
      → (b' : Buf) × (resolve_all B own b ≡ some b')
        × (length (bytes b') ≡ length (bytes b))
        × ((i : ℕ) → Outside own i → get_elem? (bytes b') i ≡ get_elem? (bytes b) i)
        × All (LeadsTo (bytes b') (length (bytes b))) own
  unfolding resolve_all
  resolve_all_lem [] lo hi b sp h near = (b, refl, refl, λ i out. refl, tt)
  resolve_all_lem (a ∷ own) lo hi b (_, sp) h near =
      let (b1, found, size, leads, same) =
        resolve_offset_lem b a (omega (arith, Spans-le (a + 4) own hi sp)) near in
      let (b', rest, size', same', leads') =
        resolve_all_lem own (a + 4) hi b1 sp (omega (arith, size)) (omega (arith, size)) in
      (
        b',
        rw (found, resolve_all) rest,
        size' ∙ size,
        λ i out. same' i out.1 ∙ same i out.0,
        (
          LeadsTo-same (bytes b1) (bytes b') (length (bytes b)) a leads (omega (arith, size'))
              (λ i l g. same' i (Outside-below (a + 4) own hi i sp g)),
          rw size at leads',
        ),
      )

  pub emit_jump_lem :
      (code : ℕ) (jumps : List ℕ) (b : Buf)
      → (b' : Buf) × (emit_jump B code jumps b
          ≡ done true b' (jumps ++ ((length (bytes b) + 1) ∷ [])))
        × (length (bytes b') ≡ length (bytes b) + 5)
        × (get_elem? (bytes b') (length (bytes b)) ≡ some code)
        × ((i : ℕ) → i < length (bytes b) → get_elem? (bytes b') i ≡ get_elem? (bytes b) i)
  unfolding emit_jump emit_byte emit_offset offset_bytes
  emit_jump_lem code jumps b =
      let zeros : List ℕ = 0 ∷ 0 ∷ 0 ∷ 0 ∷ [] in
      let b1 = append b (code ∷ []) in
      let b2 = append b1 zeros in
      let all : bytes b2 ≡ bytes b ++ (code ∷ zeros) =
        bytes-append b1 zeros
        ∙ ap (λ x. x ++ zeros) (bytes-append b (code ∷ []))
        ∙ append_assoc (bytes b) (code ∷ []) zeros in
      let size : length (bytes b1) ≡ length (bytes b) + 1 =
        ap length (bytes-append b (code ∷ [])) ∙ length-append (bytes b) (code ∷ []) in
      (
        b2,
        ap (λ (n : ℕ). done true b2 (jumps ++ (n ∷ []))) size,
        ap length all ∙ length-append (bytes b) (code ∷ zeros),
        rw all (get_elem?-append (bytes b) code zeros),
        λ i l. rw all (get_elem?-append_left (bytes b) (code ∷ zeros) i l),
      )
