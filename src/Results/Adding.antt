-- ===== src/Results/Adding.antt =====
-- Adding an action to the result (_sieve_result_add_action, src/lib-sieve/sieve-result.c).
use pigeonhole.Prelude.{
  ℕ, zero, suc, ◌+◌, ◌-◌, Bool, true, false, not, ◌&&◌, ◌||◌, Option, none, some, List, [], ◌∷◌,
  ◌++◌, length, ltb, leb, ◌==◌, if◌then◌else◌,
}
use pigeonhole.Results.{
  SideEffect, Action, ResultAction, Code, failure, success, duplicate, ActionEnv, Merged,
  merge_done, merge_failed, asserted, effect_list, find_effect, is_some, effects_add, merge_effects,
}

-- struct sieve_result: the sequence number of the execution, the count of actions, the actions and
-- the implicit side effects of an action's definition.
pub record Results : Type 0 where
  pub result_seq : ℕ
  pub action_count : ℕ
  pub actions : List ResultAction
  pub action_contexts : List (ℕ × List SideEffect)

-- `kaction`: an action taken off the list, or one in it.
pub data Kept : Type 0 where
  detached : ResultAction → Kept
  in_place : ℕ → Kept

-- The loop over the existing actions: those passed, and what it has found.
pub record Walk : Type 0 where
  pub passed : List ResultAction
  pub count : ℕ
  pub instances : ℕ
  pub kaction : Option Kept
  pub added : Option (List SideEffect)

-- How the loop ends: with a return, or behind the last action.
pub data WalkEnd : Type 0 where
  returns : Option Code → List ResultAction → ℕ → WalkEnd
  completes : Walk → WalkEnd

-- What a merge returns; `none` is a failed assertion.
abbrev pub merge_code : Merged → Option Code
merge_code merge_done = some duplicate
merge_code merge_failed = some failure
merge_code asserted = none

abbrev pub same_def : Option ℕ → Option ℕ → Bool
same_def (some d) (some d') = d == d'
same_def none d' = false
same_def (some d) none = false

unfoldable pub update_at : ℕ → (ResultAction → ResultAction) → List ResultAction → List ResultAction
update_at i f [] = []
update_at zero f (r ∷ l) = f r ∷ l
update_at (suc i) f (r ∷ l) = r ∷ update_at i f l

unfoldable pub action_at : ℕ → List ResultAction → Option ResultAction
action_at i [] = none
action_at zero (r ∷ l) = some r
action_at (suc i) (r ∷ l) = action_at i l

module _ (env : ActionEnv) (seq : ℕ) (act : Action) where
  open env use {precedence, check_duplicate, check_conflict}

  -- Merge side effects into `kaction`.
  unfoldable pub merge_into_kept :
      Kept → List ResultAction → Option (List SideEffect) → Merged × Kept × List ResultAction
  unfolding merge_effects action_at update_at
  merge_into_kept (detached r) l added =
      let (m, r', added') = merge_effects env act r added in (m, detached r', l)
  merge_into_kept (in_place i) l added = elim (action_at i l) [
    | none ↦ (merge_done, in_place i, l)
    | some r ↦
        let (m, r', added') = merge_effects env act r added in
        (m, in_place i, update_at i (λ r. r') l)
  ]

  -- The loop goes to the action behind one that has been taken off, which is none.
  abbrev pub after_detach : Walk → Merged × Kept × List ResultAction → WalkEnd
  after_detach w (merge_done, k, l) = completes (record w { passed = l; kaction = some k })
  after_detach w (merge_failed, k, l) = returns (some failure) l w.count
  after_detach w (asserted, k, l) = returns none l w.count

  -- A keep of an execution before: take it off the list.
  unfoldable pub replace_keep : Walk → ResultAction → List ResultAction → WalkEnd
  unfolding merge_into_kept
  replace_keep w r rest =
      let k : Kept = elim w.kaction [ none ↦ detached r | some k ↦ k ] in
      after_detach (record w { count = w.count - 1 }) (merge_into_kept k (w.passed ++ rest) w.added)

  -- The keep is the same as an action that is no keep: it takes this action over, or the action
  -- is taken off the list if there is a `kaction`.
  unfoldable pub keep_or_detach :
      Option Kept
      → Walk
      → ResultAction
      → List ResultAction
      → Option (List SideEffect)
      → Walk × Option WalkEnd
  unfolding merge_into_kept
  keep_or_detach none w r rest added = (
    record w {
      passed =
          w.passed
          ++ (record r { action = record r.action { context = none; location = act.location } }
              ∷ []);
      kaction = some (in_place (length w.passed));
      added = added;
    },
    none,
  )
  keep_or_detach (some k) w r rest added = (
    w,
    some (
        after_detach (record w { count = w.count - 1; added = added })
          (merge_into_kept k (w.passed ++ rest) r.effects)),
  )

  abbrev pub when_merged :
      Merged
      → Walk
      → ResultAction
      → List ResultAction
      → Walk × Option WalkEnd
      → Walk × Option WalkEnd
  when_merged merge_done w r rest onward = onward
  when_merged merge_failed w r rest onward =
      (w, some (returns (some failure) (w.passed ++ (r ∷ rest)) w.count))
  when_merged asserted w r rest onward = (w, some (returns none (w.passed ++ (r ∷ rest)) w.count))

  unfoldable pub take_over : Walk → ResultAction → List ResultAction → Walk × Option WalkEnd
  unfolding merge_effects keep_or_detach
  take_over w r rest =
      let (m, r', added') = merge_effects env act r w.added in
      when_merged m w r' rest (keep_or_detach w.kaction w r' rest added')

  -- The action is not added: its side effects are merged into one that is there.
  unfoldable pub merge_duplicate : Walk → ResultAction → List ResultAction → WalkEnd
  unfolding merge_effects
  merge_duplicate w r rest =
      let (m, r', added') = merge_effects env act r w.added in
      returns (merge_code m) (w.passed ++ (r' ∷ rest)) w.count

  -- The code of the first conflict, from the new action's side or from the other's.
  unfoldable pub find_conflict : Option ℕ → Action → Code
  find_conflict none old = success
  find_conflict (some d) old = elim old.action_def [
    | none ↦ success
    | some d' ↦
        let theirs : Code = elim (check_conflict d') [
          | none ↦ success
          | some f ↦ if old.exec_seq == seq then f old act else success
        ] in
        elim (check_conflict d) [
          | none ↦ theirs
          | some f ↦ elim (f act old) [
            | success ↦ theirs
            | failure ↦ failure
            | duplicate ↦ duplicate
          ]
        ]
  ]

  abbrev pub pass : Walk → ResultAction → Walk
  pass w r = record w { passed = w.passed ++ (r ∷ []) }

  abbrev pub duplicate_check : Option ℕ → Option (Action → Action → Code)
  duplicate_check none = none
  duplicate_check (some d) = check_duplicate d

  unfoldable pub check_actions : Walk → List ResultAction → WalkEnd
  unfolding replace_keep take_over merge_duplicate find_conflict
  check_actions w [] = completes w
  check_actions w (r ∷ rest) =
      let counted = record w { instances = w.instances + 1 } in
      if act.keep && r.action.keep
      then (if not (is_some r.action.action_def) || not (r.action.exec_seq == seq)
          then replace_keep w r rest
          else merge_duplicate w r rest)
      else elim (same_def act.action_def r.action.action_def) [
        | false ↦ elim (find_conflict act.action_def r.action) [
          | success ↦ check_actions (pass w r) rest
          | failure ↦ returns (some failure) (w.passed ++ (r ∷ rest)) w.count
          | duplicate ↦ returns (some duplicate) (w.passed ++ (r ∷ rest)) w.count
        ]
        | true ↦ elim (duplicate_check act.action_def) [
          | none ↦ check_actions (pass counted r) rest
          | some f ↦ elim (f act r.action) [
            | failure ↦ returns (some failure) (w.passed ++ (r ∷ rest)) w.count
            | success ↦ check_actions (pass counted r) rest
            | duplicate ↦
                if act.keep && not r.action.keep
                then (let (w', ends) = take_over counted r rest in
                    let onward = check_actions w' rest in elim ends [ none ↦ onward | some e ↦ e ])
                else merge_duplicate w r rest
          ]
        ]
      ]

  -- Implicit side effects that the list of the new action does not have. `raction->seffects` is
  -- that list if there was none before.
  unfoldable pub add_missing : List SideEffect → List SideEffect → Bool × List SideEffect
  unfolding find_effect effects_add
  add_missing [] l = (true, l)
  add_missing (e ∷ implicit) l =
      let (fine, l') = effects_add precedence l e in
      let skip = add_missing implicit l in
      let onward = add_missing implicit l' in
      if is_some (find_effect e.effect_def l) then skip else if fine then onward else (false, l')

abbrev pub lookup : ℕ → List (ℕ × List SideEffect) → Option (List SideEffect)
lookup d [] = none
lookup d ((d', l) ∷ m) = if d == d' then some l else lookup d m

abbrev pub lookup_option : Option ℕ → List (ℕ × List SideEffect) → Option (List SideEffect)
lookup_option none m = none
lookup_option (some d) m = lookup d m

-- The number of act_store.
abbrev pub act_store : ℕ
act_store = 0

module _ (env : ActionEnv) (max_actions : ℕ) where
  open env use {precedence}

  -- The new action is appended, with its implicit side effects.
  unfoldable pub append_action :
      Action → Bool → Option (List SideEffect) → ResultAction → Results → Option Code × Results
  unfolding add_missing
  append_action act created added r result =
      let key = if act.keep then some act_store else act.action_def in
      let implicit = lookup_option key result.action_contexts in
      let (fine, l) =
        add_missing env (result.result_seq) act (effect_list implicit) (effect_list added) in
      let effects =
        if is_some added
        then (if created then some l else r.effects)
        else if is_some implicit && not (length (effect_list implicit) == 0)
        then some l
        else r.effects in
      (
        if fine then some success else none,
        record result {
          actions = result.actions ++ (record r { effects = effects } ∷ []);
          action_count = result.action_count + 1;
        },
      )

  -- Behind the loop.
  unfoldable pub finish_add : Action → ℕ → Walk → Results → Option Code × Results
  unfolding append_action update_at
  finish_add act instance_limit w result =
      let result' = record result { actions = w.passed; action_count = w.count } in
      elim w.kaction [
        | some (in_place i) ↦ (
          some success,
          record result' { actions = update_at i (λ r. record r { action = act }) w.passed },
        )
        | some (detached r) ↦ append_action act false w.added (record r { action = act }) result'
        | none ↦
            if ltb 0 max_actions && leb max_actions w.count
            then (some failure, result')
            else if ltb 0 instance_limit && leb instance_limit w.instances
            then (some failure, result')
            else append_action act true w.added (record { action = act; effects = w.added }) result'
      ]

  -- _sieve_result_add_action: the code (`none` is a failed assertion) and the new result. The
  -- execution's number and the mail of a snapshot are in `act`.
  unfoldable pub add_action :
      Action → Option (List SideEffect) → ℕ → Results → Option Code × Results
  unfolding check_actions finish_add
  add_action act added instance_limit result =
      elim (check_actions env result.result_seq act
        (record {
          passed = [];
          count = result.action_count;
          instances = 0;
          kaction = none;
          added = added;
        })
        result.actions) [
          | returns code l count ↦ (code, record result { actions = l; action_count = count })
          | completes w ↦ finish_add act instance_limit w result
        ]
