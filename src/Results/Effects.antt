-- ===== src/Results/Effects.antt =====
-- Lists of side effects (sieve_side_effects_list_add, src/lib-sieve/sieve-result.c).
use pigeonhole.Prelude.{
  ℕ, ◌+◌, ◌≤◌, ◌≡◌, refl, inl, inr, Bool, true, false, ◌||◌, none, List, [], ◌∷◌, ◌++◌, ltb, ◌==◌,
  if◌then◌else◌, Bool-cases, arith,
}
use pigeonhole.Results.{
  SideEffect, find_effect, Position, listed, bad_position, at_end, before_index, later_position,
  find_position, effects_add,
}

module _ (precedence : ℕ → ℕ) where
  -- Some side effect has a lower precedence than the new one.
  abbrev pub any_lower : ℕ → List SideEffect → Bool
  any_lower d [] = false
  any_lower d (e ∷ l) = ltb (precedence e.effect_def) (precedence d) || any_lower d l

  abbrev Found : ℕ → Bool → Position → Type 0
  Found i false p = p ≡ at_end
  Found i true p = (j : ℕ) × (p ≡ before_index j) × (i ≤ j)

  later-Found :
      (i : ℕ) (lower : Bool) (more : Bool) (p : Position)
      → Found (i + 1) more p
      → Found i (lower || more) (later_position lower i p)
  later-Found i true false p h = (i, rw h refl, omega arith)
  later-Found i false false p h = h
  later-Found i true true p (j, e, le) = (j, rw e refl, omega arith)
  later-Found i false true p (j, e, le) = (j, e, omega arith)

  find_position-Found :
      (d i : ℕ) (l : List SideEffect)
      → find_effect d l ≡ none
      → Found i (any_lower d l) (find_position precedence d i l)
  unfolding find_position find_effect
  find_position-Found d i [] h = refl
  find_position-Found d i (e ∷ l) h = elim (Bool-cases (d == e.effect_def)) [
    | inl same ↦ ground arith
    | inr other ↦
        rw (other, Found)
          (later-Found i _ (any_lower d l) _ (find_position-Found d (i + 1) l (ground arith)))
  ]

  -- Where the new side effect goes, from the place that has been found.
  abbrev placed : SideEffect → SideEffect → List SideEffect → Position → Bool × List SideEffect
  placed a e l listed = (true, a ∷ l)
  placed a e l bad_position = (false, a ∷ l)
  placed a e l at_end = (true, a ∷ l ++ (e ∷ []))
  placed a e l (before_index i) = (true, if i == 0 then e ∷ a ∷ l else a ∷ l)

  placed_cases :
      (a e : SideEffect) (l : List SideEffect) (lower more : Bool) (p : Position)
      → Found 1 more p
      → placed a e l (later_position lower 0 p)
        ≡ (true, if more then a ∷ l else if lower then e ∷ a ∷ l else a ∷ l ++ (e ∷ []))
  placed_cases a e l true false p h = rw h refl
  placed_cases a e l false false p h = rw h refl
  placed_cases a e l true true p (j, h, le) = rw h (ground arith)
  placed_cases a e l false true p (j, h, le) = rw h (ground arith)

  -- The list with a new side effect.
  abbrev pub with_effect : SideEffect → List SideEffect → List SideEffect
  with_effect e [] = e ∷ []
  with_effect e (a ∷ l) =
      if any_lower e.effect_def l
      then a ∷ l
      else if ltb (precedence a.effect_def) (precedence e.effect_def)
      then e ∷ a ∷ l
      else a ∷ l ++ (e ∷ [])

  -- A side effect that is not listed yet is put at the end of any list, also of the empty one, if
  -- none there has a lower precedence, and in front if the first one has and no other. If another
  -- one has, it is lost: the list stays as it is. The call succeeds in each case.
  pub effects_add_cases :
      (e : SideEffect) (l : List SideEffect)
      → find_effect e.effect_def l ≡ none
      → effects_add precedence l e ≡ (true, with_effect e l)
  unfolding effects_add find_effect find_position
  effects_add_cases e [] h = refl
  effects_add_cases e (a ∷ l) h = elim (Bool-cases (e.effect_def == a.effect_def)) [
    | inl same ↦ ground arith
    | inr other ↦
        rw (other, effects_add)
          (placed_cases a e l _ (any_lower e.effect_def l) _
            (find_position-Found e.effect_def 1 l (ground arith)))
  ]
