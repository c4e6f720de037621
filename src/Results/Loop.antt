-- ===== src/Results/Loop.antt =====
-- What the loop over the existing actions does (_sieve_result_add_action,
-- src/lib-sieve/sieve-result.c): its list keeps its size but for a keep that is taken off.
use pigeonhole.Prelude.{
  ℕ, ◌+◌, ◌≡◌, ◌≢◌, refl, ap, ◌∙◌, ◌⊎◌, inl, inr, Bool, true, false, not, ◌&&◌, ◌||◌, Option, none,
  some, List, [], ◌∷◌, ◌++◌, ◌==◌, length-append, Bool-cases, Option-cases, arith,
}
use pigeonhole.Results.{
  SideEffect, Action, ResultAction, Code, failure, success, duplicate, ActionEnv, Merged,
  merge_done, merge_failed, asserted, is_some, merge_effects,
}
use pigeonhole.Results.Adding.{
  Kept, detached, in_place, Walk, WalkEnd, returns, completes, same_def, take_over, find_conflict,
  keep_or_detach, when_merged, duplicate_check, check_actions,
}
use pigeonhole.Results.Keeps.{
  keep_count, keeps-append, merge_effects-action, KeptGood, WalkGood, InPlace, is_duplicate,
  FewDuplicates, Walking, replace_keep-WalkGood, merge_duplicate-WalkGood,
}

Code-cases : (c : Code) → (c ≡ failure) ⊎ (c ≡ success) ⊎ (c ≡ duplicate)
Code-cases failure = inl refl
Code-cases success = inr (inl refl)
Code-cases duplicate = inr (inr refl)

and_true : (a b : Bool) → (a && b) ≡ true → (a ≡ true) × (b ≡ true)
and_true true b e = (refl, e)
and_true false b e = cc

and_false : (a b : Bool) → (a && b) ≡ false → a ≡ true → b ≡ false
and_false true b e h = e
and_false false b e h = cc

eq_false_of_not : (b : Bool) → not b ≡ true → b ≡ false
eq_false_of_not true e = cc
eq_false_of_not false e = refl

module _ (env : ActionEnv) (seq : ℕ) (act : Action) where
  returned-WalkGood :
      (old : ℕ) (w : Walk) (r : ResultAction) (rest : List ResultAction) (code : Option Code)
      → Walking env seq act old w (r ∷ rest)
      → code ≢ some success
      → WalkGood old act.keep (returns code (w.passed ++ (r ∷ rest)) w.count)
  returned-WalkGood old w r rest code (size, one, no_keep, le, kept, few) ne = (
    (
      omega (arith, length-append w.passed (r ∷ rest)),
      omega (arith, keeps-append w.passed (r ∷ rest)),
      le,
    ),
    ne,
  )

  InPlace-append :
      (k : Option Kept) (l l' : List ResultAction)
      → InPlace env seq act k l
      → InPlace env seq act k (l ++ l')
  InPlace-append none l l' h = tt
  InPlace-append (some (in_place i)) l l' h = (h.0, omega (arith, h.1, length-append l l'))
  InPlace-append (some (detached r)) l l' h = h

  FewDuplicates-tail :
      (k : Option Kept) (r : ResultAction) (rest : List ResultAction)
      → FewDuplicates env seq act k (r ∷ rest)
      → FewDuplicates env seq act k rest
  FewDuplicates-tail none r rest h = omega arith
  FewDuplicates-tail (some k) r rest h = omega arith

  FewDuplicates-same :
      (k : Option Kept) (r' r : ResultAction) (rest : List ResultAction)
      → r'.action ≡ r.action
      → FewDuplicates env seq act k (r ∷ rest)
      → FewDuplicates env seq act k (r' ∷ rest)
  FewDuplicates-same k r' r rest same h = go k h
    where
      counts : keep_count (is_duplicate env seq act r') ≡ keep_count (is_duplicate env seq act r)
      counts =
          ap (λ (a : Action). keep_count (is_duplicate env seq act (record r { action = a }))) same

      go :
          (k : Option Kept)
          → FewDuplicates env seq act k (r ∷ rest)
          → FewDuplicates env seq act k (r' ∷ rest)
      go none h = omega (arith, counts)
      go (some k) h = omega (arith, counts)

  passed-Walking :
      (old n : ℕ) (w : Walk) (r : ResultAction) (rest : List ResultAction)
      → (act.keep ≡ true → r.action.keep ≡ false)
      → Walking env seq act old w (r ∷ rest)
      → Walking env seq act old (record w { passed = w.passed ++ (r ∷ []); instances = n }) rest
  passed-Walking old n w r rest plain (size, one, no_keep, le, kept, few) = (
    omega (arith, length-append w.passed (r ∷ [])),
    omega (arith, keeps-append w.passed (r ∷ [])),
    λ e. omega (arith, keeps-append w.passed (r ∷ []), no_keep e, ap keep_count (plain e)),
    le,
    InPlace-append w.kaction w.passed (r ∷ []) kept,
    FewDuplicates-tail w.kaction r rest few,
  )

  abbrev TakeGood : ℕ → List ResultAction → Walk × Option WalkEnd → Type 0
  TakeGood old rest (w, none) = Walking env seq act old w rest
  TakeGood old rest (w, some e) = WalkGood old act.keep e

  keep_or_detach-TakeGood :
      (old : ℕ) (k : Option Kept) (w : Walk) (r : ResultAction) (rest : List ResultAction)
      (added : Option (List SideEffect))
      → w.kaction ≡ k
      → act.keep ≡ true
      → r.action.keep ≡ false
      → is_duplicate env seq act r ≡ true
      → Walking env seq act old w (r ∷ rest)
      → TakeGood old rest (keep_or_detach env seq act k w r rest added)
  unfolding keep_or_detach
  keep_or_detach-TakeGood old none w r rest added e kp rk dup (size, one, no_keep, le, kept, few) =
      let few' : FewDuplicates env seq act none (r ∷ rest) = rw e at few in
      (
        omega (arith, length-append w.passed (taken ∷ [])),
        omega (arith, keeps-append w.passed (taken ∷ [])),
        λ e'. omega (arith, keeps-append w.passed (taken ∷ []), no_keep e', ap keep_count rk),
        le,
        (kp, omega (arith, length-append w.passed (taken ∷ []))),
        omega (arith, few', ap keep_count dup),
      )
    where
      taken : ResultAction
      taken = record r { action = record r.action { context = none; location = act.location } }
  keep_or_detach-TakeGood old (some k) w r rest added e kp rk dup
        (size, one, no_keep, le, kept, few) =
      let few' : FewDuplicates env seq act (some k) (r ∷ rest) = rw e at few in
      absurd (omega (arith, few', ap keep_count dup))

  when_merged-TakeGood :
      (old : ℕ) (m : Merged) (w : Walk) (r r' : ResultAction) (rest : List ResultAction)
      (onward : Walk × Option WalkEnd)
      → r'.action ≡ r.action
      → Walking env seq act old w (r ∷ rest)
      → TakeGood old rest onward
      → TakeGood old rest (when_merged env seq act m w r' rest onward)
  when_merged-TakeGood old merge_done w r r' rest onward same h good = good
  when_merged-TakeGood old merge_failed w r r' rest onward same (size, one, no_keep, le, kept, few)
        good =
      let same' = ap (λ (a : Action). keep_count a.keep) same in
      (
        (
          omega (arith, length-append w.passed (r' ∷ rest)),
          omega (arith, keeps-append w.passed (r' ∷ rest), same'),
          le,
        ),
        λ e. cc,
      )
  when_merged-TakeGood old asserted w r r' rest onward same (size, one, no_keep, le, kept, few)
        good =
      let same' = ap (λ (a : Action). keep_count a.keep) same in
      (
        (
          omega (arith, length-append w.passed (r' ∷ rest)),
          omega (arith, keeps-append w.passed (r' ∷ rest), same'),
          le,
        ),
        λ e. cc,
      )

  take_over-TakeGood :
      (old : ℕ) (w : Walk) (r : ResultAction) (rest : List ResultAction)
      → act.keep ≡ true
      → r.action.keep ≡ false
      → is_duplicate env seq act r ≡ true
      → Walking env seq act old w (r ∷ rest)
      → TakeGood old rest (take_over env seq act w r rest)
  unfolding take_over
  take_over-TakeGood old w r rest kp rk dup h =
      let merged = merge_effects env act r w.added in
      let same = merge_effects-action env act r w.added in
      let same_keep = ap (λ (a : Action). a.keep) same in
      when_merged-TakeGood old merged.0 w r merged.1 rest _ same h (
        keep_or_detach-TakeGood old w.kaction w merged.1 rest merged.2 refl kp (same_keep ∙ rk)
          (ap (λ (a : Action). is_duplicate env seq act (record r { action = a })) same ∙ dup)
          (
            h.0,
            omega (arith, h.1, ap keep_count same_keep),
            h.2,
            h.3,
            h.4,
            FewDuplicates-same w.kaction merged.1 r rest same h.5,
          ))

  ends_or_goes_on :
      (old : ℕ) (rest : List ResultAction) (t : Walk × Option WalkEnd)
      → ((w : Walk)
          → Walking env seq act old w rest
          → WalkGood old act.keep (check_actions env seq act w rest))
      → TakeGood old rest t
      → WalkGood old act.keep (elim t.1 [ none ↦ check_actions env seq act t.0 rest | some e ↦ e ])
  ends_or_goes_on old rest (w, none) goes_on good = goes_on w good
  ends_or_goes_on old rest (w, some e) goes_on good = good

  completes-WalkGood :
      (old : ℕ) (w : Walk) → Walking env seq act old w [] → WalkGood old act.keep (completes w)
  completes-WalkGood old w (size, one, no_keep, le, kept, few) =
      (omega arith, omega arith, no_keep, go w.kaction kept)
    where
      go :
          (k : Option Kept)
          → InPlace env seq act k w.passed
          → KeptGood old act.keep k w.passed w.count
      go none h = le
      go (some (in_place i)) h = (h.0, h.1, le)
      go (some (detached r)) h = absurd h

  pub check_actions-WalkGood :
      (old : ℕ) (w : Walk) (rest : List ResultAction)
      → Walking env seq act old w rest
      → WalkGood old act.keep (check_actions env seq act w rest)
  unfolding check_actions
  check_actions-WalkGood old w [] h = completes-WalkGood old w h
  check_actions-WalkGood old w (r ∷ rest) h = elim (Bool-cases (act.keep && r.action.keep)) [
    | inl both ↦
        let (kp, rk) = and_true act.keep r.action.keep both in
        elim (Bool-cases (not (is_some r.action.action_def) || not (r.action.exec_seq == seq))) [
          | inl old_keep ↦
              rw (both, WalkGood)
                (rw (old_keep, WalkGood) (replace_keep-WalkGood env seq act old w r rest kp rk h))
          | inr new_keep ↦
              rw (both, WalkGood)
                (rw (new_keep, WalkGood) (merge_duplicate-WalkGood env seq act old w r rest h))
        ]
    | inr plain ↦
        let onward = λ (n : ℕ).
          check_actions-WalkGood old (record w { passed = w.passed ++ (r ∷ []); instances = n })
            rest (passed-Walking old n w r rest (and_false act.keep r.action.keep plain) h) in
        elim (Bool-cases (same_def act.action_def r.action.action_def)) [
          | inr other ↦ elim (Code-cases (find_conflict env seq act act.action_def r.action)) [
            | inl e ↦
                rw (plain, WalkGood)
                  (rw (other, WalkGood)
                    (rw (e, WalkGood) (returned-WalkGood old w r rest (some failure) h (λ e. cc))))
            | inr (inl e) ↦
                rw (plain, WalkGood) (rw (other, WalkGood) (rw (e, WalkGood) (onward w.instances)))
            | inr (inr e) ↦
                rw (plain, WalkGood)
                  (rw (other, WalkGood)
                    (rw (e, WalkGood)
                      (returned-WalkGood old w r rest (some duplicate) h (λ e. cc))))
          ]
          | inl same ↦ elim (Option-cases (duplicate_check env seq act act.action_def)) [
            | inl e ↦
                rw (plain, WalkGood)
                  (rw (same, WalkGood) (rw (e, WalkGood) (onward (w.instances + 1))))
            | inr (f, e) ↦ elim (Code-cases (f act r.action)) [
              | inl c ↦
                  rw (plain, WalkGood)
                    (rw (same, WalkGood)
                      (rw (e, WalkGood)
                        (rw (c, WalkGood)
                          (returned-WalkGood old w r rest (some failure) h (λ e. cc)))))
              | inr (inl c) ↦
                  rw (plain, WalkGood)
                    (rw (same, WalkGood)
                      (rw (e, WalkGood) (rw (c, WalkGood) (onward (w.instances + 1)))))
              | inr (inr c) ↦ elim (Bool-cases (act.keep && not r.action.keep)) [
                | inl taken ↦
                    let (kp, rk) = and_true act.keep (not r.action.keep) taken in
                    let says : is_duplicate env seq act r ≡ true = rw same (rw e (rw c refl)) in
                    rw (plain, WalkGood)
                      (rw (same, WalkGood)
                        (rw (e, WalkGood)
                          (rw (c, WalkGood)
                            (rw (taken, WalkGood)
                              (ends_or_goes_on old rest _ (λ w'. check_actions-WalkGood old w' rest)
                                (take_over-TakeGood old (record w { instances = w.instances + 1 }) r
                                  rest kp (eq_false_of_not r.action.keep rk) says h))))))
                | inr merged ↦
                    rw (plain, WalkGood)
                      (rw (same, WalkGood)
                        (rw (e, WalkGood)
                          (rw (c, WalkGood)
                            (rw (merged, WalkGood)
                              (merge_duplicate-WalkGood env seq act old w r rest h)))))
              ]
            ]
          ]
        ]
  ]
