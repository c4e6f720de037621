-- ===== src/Tests/Results.antt =====
-- The list of actions at concrete results (src/lib-sieve/sieve-result.c).
use pigeonhole.Prelude.{
  ℕ, ◌≡◌, refl, Bool, true, false, Option, none, some, [], ◌∷◌, ◌==◌, if◌then◌else◌, arith,
}
use pigeonhole.Results.{
  SideEffect, ResultAction, Code, success, duplicate, ActionEnv, find_effect, effects_add,
}
use pigeonhole.Results.Adding.{Results, act_store, add_action}
use pigeonhole.Results.Effects.{effects_add_cases}
use pigeonhole.Results.Valid.{IsValid, KeepIsThere, add_action-IsValid}

-- The precedences of :flags, :create and :specialuse.
abbrev precedences : ℕ → ℕ
precedences d = if d == 1 then 100 else if d == 2 then 200 else 0

abbrev effect : ℕ → SideEffect
effect d = record { effect_def = d; effect_context = 0 }

effects_add_cases_example :
    effects_add precedences (effect 1 ∷ effect 0 ∷ []) (effect 2) ≡ (true, effect 1 ∷ effect 0 ∷ [])
unfolding find_effect
effects_add_cases_example = effects_add_cases precedences (effect 2) (effect 1 ∷ effect 0 ∷ []) refl

-- Two store actions are the same if they have the same context, as the same mailbox.
abbrev same_mailbox : Option ℕ → Option ℕ → Code
same_mailbox none none = duplicate
same_mailbox (some m) (some n) = if m == n then duplicate else success
same_mailbox _ _ = success

abbrev store_env : ActionEnv
store_env = record {
  precedence = precedences;
  merge = λ d. none;
  check_duplicate = λ d. some (λ a b. same_mailbox a.context b.context);
  check_conflict = λ d. none;
}

abbrev store : Option ℕ → Bool → ResultAction
store mailbox keep = record {
  action = record {
    action_def = some act_store;
    name = 0;
    location = 0;
    exec_seq = 1;
    context = mailbox;
    mail = none;
    keep = keep;
  };
  effects = none;
}

abbrev two_stores : Results
two_stores = record {
  result_seq = 1;
  action_count = 2;
  actions = store (some 7) false ∷ store none false ∷ [];
  action_contexts = [];
}

-- The keep takes over the second action, so that there are still two.
keep_run :
    add_action store_env 2 (store none true).action none 0 two_stores
    ≡ (some success, record two_stores { actions = store (some 7) false ∷ store none true ∷ [] })
unfolding add_action
keep_run = refl

add_action-IsValid_example :
    IsValid 2 (add_action store_env 2 (store none true).action none 0 two_stores).1
    × KeepIsThere true (add_action store_env 2 (store none true).action none 0 two_stores)
add_action-IsValid_example =
    add_action-IsValid store_env 2 (store none true).action none 0 two_stores (omega arith)
      (omega arith)
