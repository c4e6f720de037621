-- ===== src/Flags/Deleting.antt =====
-- Deleting a flag from a list of flags (src/lib-sieve/plugins/imap4flags/ext-imap4flags-common.c).
use pigeonhole.Prelude.{
  ℕ, zero, suc, ◌+◌, ◌≤◌, ◌<◌, ◌≡◌, refl, sym, ap, ◌∙◌, ◌⊎◌, inl, inr, true, false, Option, none,
  some, List, [], ◌∷◌, ◌++◌, length, append-nil, append_assoc, if◌then◌else◌, Bool-cases, All,
  arith,
}
use pigeonhole.StringLists.{c_string}
use pigeonhole.Flags.{
  FlagsIter, iter_init, flags_of, scan_flag, drop_last, delete_from, FlagChars, flag_delete,
}
use pigeonhole.Flags.Words.{
  words, Parted, IsNoSpace, ScanGood, scan_flag-ScanGood, split_space, split-plain, words_nil,
}
use pigeonhole.Flags.Places.{
  Opens, PassGood, words-append-Opens, words-append-Parted, scan_flag-PassGood, words-drop_last,
}

-- The iterator stands where no word is cut, and the words before it are `ws`.
abbrev pub StandsBehind : List (List ℕ) → FlagsIter → Type 0
StandsBehind ws iter =
    (Opens (iter.before ++ iter.flag) ⊎ Parted iter.rest) × (words (iter.before ++ iter.flag) ≡ ws)

words-flags_of :
    (ws : List (List ℕ)) (iter : FlagsIter)
    → StandsBehind ws iter
    → words (flags_of iter) ≡ ws ++ words iter.rest
words-flags_of ws iter (b, e) =
    words-append-Parted (iter.before ++ iter.flag) iter.rest b ∙ ap (λ t. t ++ words iter.rest) e

delete_from_lem :
    (ws : List (List ℕ)) (before rest : List ℕ)
    → words before ≡ ws
    → Opens before
    → Parted rest
    → StandsBehind ws (delete_from before rest)
      × (words (delete_from before rest).rest ≡ words rest)
      × (length (delete_from before rest).rest ≤ length rest)
unfolding delete_from
delete_from_lem ws before [] k o h = (
  (inr tt, ap words (append-nil (drop_last before)) ∙ words-drop_last before o ∙ k),
  refl,
  omega arith,
)
delete_from_lem ws before (c ∷ []) k o h = (
  (inr tt, ap words (append-nil (drop_last before)) ∙ words-drop_last before o ∙ k),
  sym (split_space c [] h),
  omega arith,
)
delete_from_lem ws before (c ∷ d ∷ rest) k o h = (
  (inl (rw (append-nil before) o), ap words (append-nil before) ∙ k),
  sym (split_space c (d ∷ rest) h),
  omega arith,
)

returned_lem :
    (ws : List (List ℕ)) (before f rest : List ℕ)
    → words before ≡ ws
    → Opens before
    → Parted rest
    → All IsNoSpace f
    → 0 < length f
    → StandsBehind (ws ++ (f ∷ [])) (record { before = before; flag = f; rest = rest })
returned_lem ws before f rest k o p n pos = (
  inr p,
  words-append-Opens before f o
      ∙ ap (λ t. words before ++ t) (split-plain [] f n pos)
      ∙ ap (λ t. t ++ (f ∷ [])) k,
)

module _ (C : FlagChars) where
  open C use {same_flag}

  -- The flags that strcasecmp does not find equal to a given one.
  abbrev pub without : List ℕ → List (List ℕ) → List (List ℕ)
  without flag [] = []
  without flag (w ∷ ws) =
      let rest = without flag ws in if same_flag (c_string w) flag then rest else w ∷ rest

  without-same :
      (ws : List (List ℕ)) (flag f : List ℕ) (rest all : List (List ℕ))
      → all ≡ f ∷ rest
      → same_flag (c_string f) flag ≡ true
      → ws ++ without flag rest ≡ ws ++ without flag all
  without-same ws flag f rest all s e = rw s (rw e refl)

  without-other :
      (ws : List (List ℕ)) (flag f : List ℕ) (rest all : List (List ℕ))
      → all ≡ f ∷ rest
      → same_flag (c_string f) flag ≡ false
      → (ws ++ (f ∷ [])) ++ without flag rest ≡ ws ++ without flag all
  without-other ws flag f rest all s e = rw s (rw e (append_assoc ws (f ∷ []) (without flag rest)))

  abbrev Deleted : ℕ → List (List ℕ) → FlagsIter → List ℕ → Type 0
  Deleted rounds ws iter flag =
      (l' : List ℕ) × (flag_delete C rounds iter flag ≡ some l')
      × (words l' ≡ ws ++ without flag (words iter.rest))

  flag_delete_lem :
      (rounds : ℕ) (ws : List (List ℕ)) (iter : FlagsIter) (flag : List ℕ)
      → length iter.rest < rounds
      → StandsBehind ws iter
      → Deleted rounds ws iter flag
  unfolding flag_delete
  flag_delete_lem zero ws iter flag h g = absurd (omega arith)
  flag_delete_lem (suc rounds) ws iter flag h g =
      let passed = iter.before ++ iter.flag in
      go (flag_delete_lem rounds) (scan_flag passed [] iter.rest) refl
        (scan_flag-ScanGood passed [] iter.rest tt)
        (scan_flag-PassGood passed [] iter.rest (at_place g.0))
    where
      at_place :
          Opens (iter.before ++ iter.flag) ⊎ Parted iter.rest
          → Opens (iter.before ++ iter.flag) ⊎ ((true ≡ true) × Parted iter.rest)
      at_place (inl o) = inl o
      at_place (inr p) = inr (refl, p)

      go :
          ((ws : List (List ℕ)) (iter' : FlagsIter) (flag : List ℕ)
            → length iter'.rest < rounds
            → StandsBehind ws iter'
            → Deleted rounds ws iter' flag)
          → (r : Option (List ℕ × List ℕ × List ℕ))
          → scan_flag (iter.before ++ iter.flag) [] iter.rest ≡ r
          → ScanGood (iter.before ++ iter.flag) [] iter.rest r
          → PassGood (iter.before ++ iter.flag) r
          → Deleted (suc rounds) ws iter flag
      go ih none e s t = (
        flags_of iter,
        rw (e, flag_delete) refl,
        words-flags_of ws iter g ∙ ap (λ v. ws ++ v) s ∙ ap (λ v. ws ++ without flag v) (sym s),
      )
      go ih (some (before, f, rest)) e (s, pos, few, p, n, k) (o, u) =
          let iter' : FlagsIter = record { before = before; flag = f; rest = rest } in
          elim (Bool-cases (same_flag (c_string f) flag)) [
            | inl eq ↦
                let (b, v, le) = delete_from_lem ws before rest (u ∙ g.1) o p in
                let (l', a, w) = ih ws (delete_from before rest) flag (omega arith) b in
                (
                  l',
                  rw (e, flag_delete) (rw eq a),
                  w ∙ ap (λ x. ws ++ without flag x) v ∙ without-same ws flag f (words rest) _ s eq,
                )
            | inr ne ↦
                let b = returned_lem ws before f rest (u ∙ g.1) o p n pos in
                let (l', a, w) = ih (ws ++ (f ∷ [])) iter' flag (omega arith) b in
                (l', rw (e, flag_delete) (rw ne a), w ∙ without-other ws flag f (words rest) _ s ne)
          ]

  -- One round of flags_list_remove_flags.
  pub delete_lem :
      (l flag : List ℕ)
      → (l' : List ℕ) × (flag_delete C (length l + 1) (iter_init l) flag ≡ some l')
        × (words l' ≡ without flag (words l))
  delete_lem l flag =
      flag_delete_lem (length l + 1) [] (iter_init l) flag (omega arith) (inl (inl refl), words_nil)
