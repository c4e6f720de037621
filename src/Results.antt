-- ===== src/Results.antt =====
-- The list of actions that a script leads to (src/lib-sieve/sieve-result.c).
--
-- Definitions of actions and side effects are numbered, the pointers that only identify things
-- are numbers too. The doubly linked list of actions is the list of those that are reached from
-- its head.
pub mod Effects
pub mod Adding
pub mod Keeps
pub mod Loop
pub mod Valid
use pigeonhole.Prelude.{
  ℕ, zero, suc, ◌+◌, ◌-◌, Bool, true, false, not, ◌&&◌, ◌||◌, Option, none, some, List, [], ◌∷◌,
  ◌++◌, length, ltb, leb, ◌==◌, if◌then◌else◌,
}

-- struct sieve_side_effect
pub record SideEffect : Type 0 where
  pub effect_def : ℕ
  pub effect_context : ℕ

-- struct sieve_action; the definition is `none` where it is NULL.
pub record Action : Type 0 where
  pub action_def : Option ℕ
  pub name : ℕ
  pub location : ℕ
  pub exec_seq : ℕ
  pub context : Option ℕ
  pub mail : Option ℕ
  pub keep : Bool

-- struct sieve_result_action; the list of side effects is `none` where it is NULL.
pub record ResultAction : Type 0 where
  pub action : Action
  pub effects : Option (List SideEffect)

-- The results -1, 0 and 1.
pub data Code : Type 0 where
  failure success duplicate : Code

-- What the definitions of actions and side effects bring along. A merge gives the context to be
-- stored and whether its result is not 0, or fails.
pub record ActionEnv : Type 0 where
  pub precedence : ℕ → ℕ
  pub merge : ℕ → Option (Action → SideEffect → Option SideEffect → Option (ℕ × Bool))
  pub check_duplicate : ℕ → Option (Action → Action → Code)
  pub check_conflict : ℕ → Option (Action → Action → Code)

-- How a merge ends: with 1, with -1, or at a failed assertion.
pub data Merged : Type 0 where
  merge_done merge_failed asserted : Merged

abbrev pub effect_list : Option (List SideEffect) → List SideEffect
effect_list none = []
effect_list (some l) = l

unfoldable pub find_effect : ℕ → List SideEffect → Option SideEffect
find_effect d [] = none
find_effect d (e ∷ l) = let rest = find_effect d l in if e.effect_def == d then some e else rest

abbrev pub is_some {ℓ} : {A : Type ℓ} → Option A → Bool
is_some none = false
is_some (some a) = true

-- The place before which a side effect is inserted: the last one of a lower precedence. `none` is
-- the failed assertion, which is made if the definition is listed behind such a place.
pub data Position : Type 0 where
  listed : Position
  bad_position : Position
  at_end : Position
  before_index : ℕ → Position

abbrev pub later_position : Bool → ℕ → Position → Position
later_position true i listed = bad_position
later_position true i at_end = before_index i
later_position true i p = p
later_position false i p = p

unfoldable pub find_position : (ℕ → ℕ) → ℕ → ℕ → List SideEffect → Position
find_position precedence d i [] = at_end
find_position precedence d i (e ∷ l) =
    let rest = find_position precedence d (i + 1) l in
    if d == e.effect_def
    then listed
    else later_position (ltb (precedence e.effect_def) (precedence d)) i rest

-- sieve_side_effects_list_add: whether the assertions hold, and the list from its first effect on.
-- Only where the place is the first one anything comes to lead to the new effect.
unfoldable pub effects_add : (ℕ → ℕ) → List SideEffect → SideEffect → Bool × List SideEffect
unfolding find_position
effects_add precedence l e = elim (find_position precedence e.effect_def 0 l) [
  | listed ↦ (true, l)
  | bad_position ↦ (false, l)
  | at_end ↦ (true, l ++ (e ∷ []))
  | before_index i ↦ (true, if i == 0 then e ∷ l else l)
]

abbrev pub then_old : SideEffect → Bool × List SideEffect → Bool × List SideEffect
then_old e (done, l) = (done, e ∷ l)

module _ (env : ActionEnv) (action : Action) where
  open env use {precedence, merge}

  -- The first loop of sieve_result_side_effects_merge: existing side effects.
  unfoldable pub merge_old : List SideEffect → List SideEffect → Bool × List SideEffect
  unfolding find_effect
  merge_old added [] = (true, [])
  merge_old added (e ∷ old) =
      let rest = merge_old added old in
      elim (merge e.effect_def) [
        | none ↦ then_old e rest
        | some f ↦ elim (f action e (find_effect e.effect_def added)) [
          | none ↦ (false, e ∷ old)
          | some (context, adds) ↦ then_old (record e { effect_context = context }) rest
        ]
      ]

  abbrev pub then_new :
      SideEffect
      → Merged × Option (List SideEffect) × List SideEffect
      → Merged × Option (List SideEffect) × List SideEffect
  then_new e (m, old, added) = (m, old, e ∷ added)

  -- The second loop: new side effects.
  unfoldable pub merge_new :
      Option (List SideEffect)
      → List SideEffect
      → Merged × Option (List SideEffect) × List SideEffect
  unfolding find_effect effects_add
  merge_new old [] = (merge_done, old, [])
  merge_new old (e ∷ added) =
      let unchanged = then_new e (merge_new old added) in
      elim (merge e.effect_def) [
        | none ↦ unchanged
        | some f ↦
            if is_some (find_effect e.effect_def (effect_list old))
            then unchanged
            else elim (f action e (some e)) [
              | none ↦ (merge_failed, old, e ∷ added)
              | some (context, adds) ↦
                  let e' = record e { effect_context = context } in
                  let (fine, list) = effects_add precedence (effect_list old) e' in
                  let extended = then_new e' (merge_new (some list) added) in
                  if not adds
                  then unchanged
                  else if fine
                  then extended
                  else (asserted, some list, e' ∷ added)
            ]
      ]

  abbrev pub like {ℓ} : {A : Type ℓ} → Option A → List SideEffect → Option (List SideEffect)
  like none l = none
  like (some a) l = some l

  -- sieve_result_side_effects_merge: how it ends, the old action and the new side effects.
  unfoldable pub merge_effects :
      ResultAction → Option (List SideEffect) → Merged × ResultAction × Option (List SideEffect)
  unfolding merge_old merge_new
  merge_effects old added =
      let (fine, olds) = merge_old (effect_list added) (effect_list old.effects) in
      let (m, olds', added') = merge_new (like old.effects olds) (effect_list added) in
      if fine
      then (m, record old { effects = olds' }, like added added')
      else (merge_failed, record old { effects = like old.effects olds }, added)
