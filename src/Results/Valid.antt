-- ===== src/Results/Valid.antt =====
-- The list of actions stays valid (_sieve_result_add_action, src/lib-sieve/sieve-result.c).
use pigeonhole.Prelude.{
  ℕ, zero, suc, ◌+◌, ◌≤◌, ◌<◌, ◌≡◌, refl, ap, inl, inr, Bool, true, false, ◌&&◌, Option, none, some,
  List, [], ◌∷◌, ◌++◌, length, ltb, leb, length-append, Bool-cases, arith,
}
use pigeonhole.Results.{SideEffect, Action, ResultAction, Code, success, failure, ActionEnv}
use pigeonhole.Results.Adding.{
  Results, Kept, detached, in_place, Walk, WalkEnd, returns, completes, update_at, check_actions,
  append_action, finish_add, add_action,
}
use pigeonhole.Results.Keeps.{
  keep_count, keeps, keeps-append, length-update_at, WalkGood, KeptGood, duplicates,
}
use pigeonhole.Results.Loop.{check_actions-WalkGood}

-- The count is that of the actions, one of them at most is a keep, and the limit holds if it is
-- not 0, which stands for none.
abbrev pub IsValid : ℕ → Results → Type 0
IsValid max result =
    (result.action_count ≡ length result.actions)
    × (keeps result.actions ≤ 1)
    × (0 < max → result.action_count ≤ max)

-- A keep that has been added is there.
abbrev pub KeepIsThere : Bool → Option Code × Results → Type 0
KeepIsThere keep r = keep ≡ true → r.0 ≡ some success → keeps r.1.actions ≡ 1

keeps-update_new :
    (i : ℕ) (f : ResultAction → ResultAction) (l : List ResultAction)
    → ((r : ResultAction) → (f r).action.keep ≡ true)
    → i < length l
    → keeps l ≡ 0
    → keeps (update_at i f l) ≡ 1
unfolding update_at
keeps-update_new i f [] k lt none_left = absurd (omega arith)
keeps-update_new zero f (r ∷ l) k lt none_left = omega (arith, ap keep_count (k r))
keeps-update_new (suc i) f (r ∷ l) k lt none_left =
    omega (arith, keeps-update_new i f l k (omega arith) (omega arith))

module _ (env : ActionEnv) (max : ℕ) where
  abbrev Good : Bool → Option Code × Results → Type 0
  Good keep r = IsValid max r.1 × KeepIsThere keep r

  appended-Good :
      (act : Action) (r : ResultAction) (result : Results) (code : Option Code)
      → r.action ≡ act
      → result.action_count ≡ length result.actions
      → keeps result.actions ≤ 1
      → (act.keep ≡ true → keeps result.actions ≡ 0)
      → (0 < max → result.action_count + 1 ≤ max)
      → Good act.keep (
        code,
        record result {
          actions = result.actions ++ (r ∷ []);
          action_count = result.action_count + 1;
        },
      )
  appended-Good act r result code same size one no_keep limit =
      let k = ap (λ (a : Action). keep_count a.keep) same in
      elim (Bool-cases act.keep) [
        | inl kp ↦
            let sum : keeps (result.actions ++ (r ∷ [])) ≡ 1 =
              omega (arith, keeps-append result.actions (r ∷ []), no_keep kp, ap keep_count kp) in
            (
              (omega (arith, length-append result.actions (r ∷ [])), omega (arith, sum), limit),
              λ kp' e. sum,
            )
        | inr kp ↦ (
          (
            omega (arith, length-append result.actions (r ∷ [])),
            omega (arith, keeps-append result.actions (r ∷ []), ap keep_count kp),
            limit,
          ),
          λ kp' e. cc,
        )
      ]

  append_action-Good :
      (act : Action) (created : Bool) (added : Option (List SideEffect)) (r : ResultAction)
      (result : Results)
      → r.action ≡ act
      → result.action_count ≡ length result.actions
      → keeps result.actions ≤ 1
      → (act.keep ≡ true → keeps result.actions ≡ 0)
      → (0 < max → result.action_count + 1 ≤ max)
      → Good act.keep (append_action env max act created added r result)
  unfolding append_action
  append_action-Good act created added r result same size one no_keep limit =
      appended-Good act _ result _ same size one no_keep limit

  refused-Good :
      (act : Action) (result : Results) → IsValid max result → Good act.keep (some failure, result)
  refused-Good act result v = (v, λ kp e. cc)

  finish_add-Good :
      (act : Action) (limit : ℕ) (w : Walk) (result : Results)
      → (0 < max → result.action_count ≤ max)
      → WalkGood result.action_count act.keep (completes w)
      → Good act.keep (finish_add env max act limit w result)
  unfolding finish_add
  finish_add-Good act limit w result few (size, one, no_keep, kept) = go w.kaction kept refl
    where
      go :
          (k : Option Kept)
          → KeptGood result.action_count act.keep k w.passed w.count
          → w.kaction ≡ k
          → Good act.keep (finish_add env max act limit w result)
      go (some (in_place i)) (kp, lt, le) e =
          let there : keeps (update_at i (λ r. record r { action = act }) w.passed) ≡ 1 =
            keeps-update_new i (λ r. record r { action = act }) w.passed (λ r. kp) lt
              (no_keep kp) in
          rw (e, Good)
            (
              (
                omega (arith, length-update_at i (λ r. record r { action = act }) w.passed),
                omega (arith, there),
                λ pos. omega (arith, few pos),
              ),
              λ kp' e'. there,
            )
      go (some (detached r)) (kp, le) e =
          rw (e, Good)
            (append_action-Good act false w.added (record r { action = act })
              (record result { actions = w.passed; action_count = w.count }) refl size one no_keep
              (λ pos. omega (arith, few pos)))
      go none le e =
          let result' = record result { actions = w.passed; action_count = w.count } in
          elim (Bool-cases (ltb 0 max && leb max w.count)) [
            | inl full ↦
                rw (e, Good)
                  (rw (full, Good)
                    (refused-Good act result' (size, one, λ pos. omega (arith, few pos))))
            | inr room ↦ elim (Bool-cases (ltb 0 limit && leb limit w.instances)) [
              | inl full ↦
                  rw (e, Good)
                    (rw (room, Good)
                      (rw (full, Good)
                        (refused-Good act result' (size, one, λ pos. omega (arith, few pos)))))
              | inr fine ↦
                  rw (e, Good)
                    (rw (room, Good)
                      (rw (fine, Good)
                        (append_action-Good act true w.added
                          (record { action = act; effects = w.added }) result' refl size one no_keep
                          (λ pos. ground arith))))
            ]
          ]

-- Whatever is added, as an action or as a keep, the count stays that of the actions, one of them
-- at most is a keep, and the number of actions stays within the limit, if there is one; a keep that
-- has been added is there, alone. The list has to hold no two actions that the new one is a
-- duplicate of.
pub add_action-IsValid :
    (env : ActionEnv) (max : ℕ) (act : Action) (added : Option (List SideEffect)) (limit : ℕ)
    (result : Results)
    → IsValid max result
    → duplicates env result.result_seq act result.actions ≤ 1
    → IsValid max (add_action env max act added limit result).1
      × KeepIsThere act.keep (add_action env max act added limit result)
unfolding add_action
add_action-IsValid env max act added limit result (size, one, few) dups =
    go (check_actions env result.result_seq act start result.actions) (
      check_actions-WalkGood env result.result_seq act result.action_count start result.actions
        (omega arith, omega arith, λ e. refl, omega arith, tt, dups))
  where
    start : Walk
    start = record {
      passed = [];
      count = result.action_count;
      instances = 0;
      kaction = none;
      added = added;
    }

    go :
        (e : WalkEnd)
        → WalkGood result.action_count act.keep e
        → Good env max act.keep (elim e [
          | returns code l count ↦ (code, record result { actions = l; action_count = count })
          | completes w ↦ finish_add env max act limit w result
        ])
    go (returns code l count) ((size', one', le), ne) =
        ((size', one', λ pos. omega (arith, few pos)), λ kp e. absurd (ne e))
    go (completes w) h = finish_add-Good env max act limit w result few h
