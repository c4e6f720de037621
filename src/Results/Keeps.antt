-- ===== src/Results/Keeps.antt =====
-- The loop over the existing actions (_sieve_result_add_action, src/lib-sieve/sieve-result.c) and
-- the keeps in the list.
use pigeonhole.Prelude.{
  ℕ, zero, suc, ◌+◌, ◌-◌, ◌≤◌, ◌<◌, ◌≡◌, ◌≢◌, refl, sym, ap, ◌∙◌, inl, inr, Bool, true, false, ◌&&◌,
  Option, none, some, List, [], ◌∷◌, ◌++◌, length, length-append, Option-cases, arith,
}
use pigeonhole.Results.{
  SideEffect, Action, ResultAction, Code, failure, success, duplicate, ActionEnv, Merged,
  merge_done, merge_failed, asserted, merge_effects,
}
use pigeonhole.Results.Adding.{
  Kept, detached, in_place, Walk, WalkEnd, returns, completes, merge_code, same_def, update_at,
  action_at, merge_into_kept, after_detach, replace_keep, merge_duplicate, duplicate_check,
}

abbrev pub keep_count : Bool → ℕ
keep_count true = 1
keep_count false = 0

-- How many actions are keeps.
abbrev pub keeps : List ResultAction → ℕ
keeps [] = 0
keeps (r ∷ l) = keep_count r.action.keep + keeps l

pub keeps-append : (l l' : List ResultAction) → keeps (l ++ l') ≡ keeps l + keeps l'
keeps-append [] l' = omega arith
keeps-append (r ∷ l) l' = omega (arith, keeps-append l l')

pub length-update_at :
    (i : ℕ) (f : ResultAction → ResultAction) (l : List ResultAction)
    → length (update_at i f l) ≡ length l
unfolding update_at
length-update_at i f [] = refl
length-update_at zero f (r ∷ l) = refl
length-update_at (suc i) f (r ∷ l) = omega (arith, length-update_at i f l)

keeps-update_at :
    (i : ℕ) (r r' : ResultAction) (l : List ResultAction)
    → action_at i l ≡ some r
    → r'.action.keep ≡ r.action.keep
    → keeps (update_at i (λ _. r') l) ≡ keeps l
unfolding update_at action_at
keeps-update_at i r r' [] e k = refl
keeps-update_at zero r r' (x ∷ l) e k =
    let same : x.action.keep ≡ r.action.keep = cc in
    ap (λ (b : Bool). keep_count b + keeps l) (k ∙ sym same)
keeps-update_at (suc i) r r' (x ∷ l) e k = omega (arith, keeps-update_at i r r' l e k)

-- Merging side effects leaves the action as it is.
pub merge_effects-action :
    (env : ActionEnv) (act : Action) (r : ResultAction) (added : Option (List SideEffect))
    → (merge_effects env act r added).1.action ≡ r.action
unfolding merge_effects
merge_effects-action env act r added = ground arith

-- A list after a return: it is as long as the count says, has one keep at most, and nothing has
-- been added.
abbrev pub ListGood : ℕ → List ResultAction → ℕ → Type 0
ListGood old l count = (count ≡ length l) × (keeps l ≤ 1) × (count ≤ old)

abbrev pub KeptGood : ℕ → Bool → Option Kept → List ResultAction → ℕ → Type 0
KeptGood old keep none l count = count ≤ old
KeptGood old keep (some (in_place i)) l count = (keep ≡ true) × (i < length l) × (count ≤ old)
KeptGood old keep (some (detached r)) l count = (keep ≡ true) × (count + 1 ≤ old)

abbrev pub WalkGood : ℕ → Bool → WalkEnd → Type 0
WalkGood old keep (returns code l count) = ListGood old l count × (code ≢ some success)
WalkGood old keep (completes w) =
    (w.count ≡ length w.passed)
    × (keeps w.passed ≤ 1)
    × (keep ≡ true → keeps w.passed ≡ 0)
    × KeptGood old keep w.kaction w.passed w.count

module _ (env : ActionEnv) (seq : ℕ) (act : Action) where
  -- The list after a merge into `kaction`, which stays where it is.
  pub merge_into_kept-keeps :
      (k : Kept) (l : List ResultAction) (added : Option (List SideEffect))
      → (keeps (merge_into_kept env seq act k l added).2 ≡ keeps l)
        × (length (merge_into_kept env seq act k l added).2 ≡ length l)
  unfolding merge_into_kept
  merge_into_kept-keeps (detached r) l added = (refl, refl)
  merge_into_kept-keeps (in_place i) l added = elim (Option-cases (action_at i l)) [
    | inl e ↦ rw (e, merge_into_kept) (refl, refl)
    | inr (r, e) ↦
        rw (e, merge_into_kept)
          (
            keeps-update_at i r (merge_effects env act r added).1 l e
                (ap (λ (a : Action). a.keep) (merge_effects-action env act r added)),
            length-update_at i _ l,
          )
  ]

  pub merge_into_kept-KeptGood :
      (old n : ℕ) (k : Kept) (l : List ResultAction) (added : Option (List SideEffect))
      → KeptGood old act.keep (some k) l n
      → KeptGood old act.keep
          (some (merge_into_kept env seq act k l added).1)
          (merge_into_kept env seq act k l added).2
          n
  unfolding merge_into_kept
  merge_into_kept-KeptGood old n (detached r) l added h = h
  merge_into_kept-KeptGood old n (in_place i) l added h = elim (Option-cases (action_at i l)) [
    | inl e ↦ rw (e, merge_into_kept, KeptGood) h
    | inr (r, e) ↦
        rw (e, merge_into_kept, KeptGood)
          (h.0, omega (arith, length-update_at i (λ _. (merge_effects env act r added).1) l), h.2)
  ]

  pub after_detach-WalkGood :
      (old : ℕ) (w : Walk) (m : Merged) (k : Kept) (l : List ResultAction)
      → w.count ≡ length l
      → w.count ≤ old
      → keeps l ≤ 1
      → (act.keep ≡ true → keeps l ≡ 0)
      → KeptGood old act.keep (some k) l w.count
      → WalkGood old act.keep (after_detach env seq act w (m, k, l))
  after_detach-WalkGood old w merge_done k l size le one no_keep good = (size, one, no_keep, good)
  after_detach-WalkGood old w merge_failed k l size le one no_keep good = ((size, one, le), λ e. cc)
  after_detach-WalkGood old w asserted k l size le one no_keep good = ((size, one, le), λ e. cc)

  abbrev pub InPlace : Option Kept → List ResultAction → Type 0
  InPlace none l = Unit {0}
  InPlace (some (in_place i)) l = (act.keep ≡ true) × (i < length l)
  InPlace (some (detached r)) l = ⊥

  abbrev pub is_duplicate_code : Code → Bool
  is_duplicate_code duplicate = true
  is_duplicate_code success = false
  is_duplicate_code failure = false

  abbrev pub check_says : Option (Action → Action → Code) → Action → Bool
  check_says none old = false
  check_says (some f) old = is_duplicate_code (f act old)

  -- The new action is a duplicate of this one.
  abbrev pub is_duplicate : ResultAction → Bool
  is_duplicate r =
      same_def act.action_def r.action.action_def
      && check_says (duplicate_check env seq act act.action_def) r.action

  abbrev pub duplicates : List ResultAction → ℕ
  duplicates [] = 0
  duplicates (r ∷ l) = keep_count (is_duplicate r) + duplicates l

  abbrev pub FewDuplicates : Option Kept → List ResultAction → Type 0
  FewDuplicates none rest = duplicates rest ≤ 1
  FewDuplicates (some k) rest = duplicates rest ≡ 0

  -- The state of the loop: `rest` is still to come.
  abbrev pub Walking : ℕ → Walk → List ResultAction → Type 0
  Walking old w rest =
      (w.count ≡ length w.passed + length rest)
      × (keeps w.passed + keeps rest ≤ 1)
      × (act.keep ≡ true → keeps w.passed ≡ 0)
      × (w.count ≤ old)
      × InPlace w.kaction w.passed
      × FewDuplicates w.kaction rest

  kept_or-KeptGood :
      (old n : ℕ) (k : Option Kept) (passed rest : List ResultAction) (r : ResultAction)
      → act.keep ≡ true
      → n + 1 ≤ old
      → InPlace k passed
      → KeptGood old act.keep
          (some (let k' : Kept = elim k [ none ↦ detached r | some k ↦ k ] in k'))
          (passed ++ rest)
          n
  kept_or-KeptGood old n none passed rest r kp le h = (kp, le)
  kept_or-KeptGood old n (some (in_place i)) passed rest r kp le h =
      (kp, omega (arith, length-append passed rest), omega arith)
  kept_or-KeptGood old n (some (detached x)) passed rest r kp le h = absurd h

  pub replace_keep-WalkGood :
      (old : ℕ) (w : Walk) (r : ResultAction) (rest : List ResultAction)
      → act.keep ≡ true
      → r.action.keep ≡ true
      → Walking old w (r ∷ rest)
      → WalkGood old act.keep (replace_keep env seq act w r rest)
  unfolding replace_keep
  replace_keep-WalkGood old w r rest kp rk (size, one, no_keep, le, kept, few) =
      let k : Kept = elim w.kaction [ none ↦ detached r | some k ↦ k ] in
      let l = w.passed ++ rest in
      let none_left : keeps l ≡ 0 =
        omega (arith, no_keep kp, keeps-append w.passed rest, ap keep_count rk) in
      let (same, long) = merge_into_kept-keeps k l w.added in
      after_detach-WalkGood old (record w { count = w.count - 1 }) _ _ _
        (omega (arith, long, length-append w.passed rest)) (omega arith)
        (omega (arith, same, none_left)) (λ e. omega (arith, same, none_left))
        (merge_into_kept-KeptGood old (w.count - 1) k l w.added
          (kept_or-KeptGood old (w.count - 1) w.kaction w.passed rest r kp (omega arith) kept))

  merge_code-ne : (m : Merged) → merge_code m ≢ some success
  merge_code-ne merge_done e = cc
  merge_code-ne merge_failed e = cc
  merge_code-ne asserted e = cc

  pub merge_duplicate-WalkGood :
      (old : ℕ) (w : Walk) (r : ResultAction) (rest : List ResultAction)
      → Walking old w (r ∷ rest)
      → WalkGood old act.keep (merge_duplicate env seq act w r rest)
  unfolding merge_duplicate
  merge_duplicate-WalkGood old w r rest (size, one, no_keep, le, kept, few) =
      let r' = (merge_effects env act r w.added).1 in
      let same = ap (λ (a : Action). keep_count a.keep) (merge_effects-action env act r w.added) in
      (
        (
          omega (arith, length-append w.passed (r' ∷ rest)),
          omega (arith, keeps-append w.passed (r' ∷ rest), same),
          le,
        ),
        merge_code-ne _,
      )
