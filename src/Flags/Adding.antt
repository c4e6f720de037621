-- ===== src/Flags/Adding.antt =====
-- Adding flags to a list of flags (src/lib-sieve/plugins/imap4flags/ext-imap4flags-common.c).
use pigeonhole.Prelude.{
  ℕ, zero, suc, ◌+◌, ◌<◌, ◌≡◌, refl, sym, ap, ◌∙◌, inl, inr, Bool, true, false, not, ◌&&◌, ◌||◌,
  Option, none, some, List, [], ◌∷◌, ◌++◌, length, take, if◌then◌else◌, Bool-cases, All, arith,
}
use pigeonhole.StringLists.{c_string}
use pigeonhole.Match.{is_empty}
use pigeonhole.Flags.{
  FlagsIter, iter_init, scan_flag, FlagChars, flag_is_valid, flag_exists, add_flag, add_flags,
  add_items,
}
use pigeonhole.Flags.Words.{
  words, all_words, IsNoSpace, ScanGood, scan_flag-ScanGood, split-append_space, split-plain,
  words_nil,
}

All-take : (n : ℕ) (l : List ℕ) → All IsNoSpace l → All IsNoSpace (take n l)
All-take zero l h = tt
All-take (suc n) [] h = tt
All-take (suc n) (x ∷ l) h = (h.0, All-take n l h.1)

module _ (C : FlagChars) where
  open C use {same_flag}

  -- Whether a flag is among others, as strcasecmp compares them.
  abbrev pub any_same : List ℕ → List (List ℕ) → Bool
  any_same flag [] = false
  any_same flag (w ∷ ws) = same_flag (c_string w) flag || any_same flag ws

  -- A flag is added if it is valid and not there.
  abbrev pub add_word : List (List ℕ) → List ℕ → List (List ℕ)
  add_word ws flag =
      if flag_is_valid C flag && not (any_same flag ws) then ws ++ (flag ∷ []) else ws

  abbrev pub add_words : List (List ℕ) → List (List ℕ) → List (List ℕ)
  add_words ws [] = ws
  add_words ws (f ∷ fs) = add_words (add_word ws (c_string f)) fs

  exists_step :
      (ws : List (List ℕ)) (f : List ℕ) (more : Option Bool) (flag : List ℕ) (all : List (List ℕ))
      → all ≡ f ∷ ws
      → more ≡ some (any_same flag ws)
      → (if same_flag (c_string f) flag then some true else more) ≡ some (any_same flag all)
  exists_step ws f more flag all s h =
      rw s (elim (Bool-cases (same_flag (c_string f) flag)) [ inl e ↦ rw e refl | inr e ↦ rw e h ])

  pub flag_exists_lem :
      (rounds : ℕ) (iter : FlagsIter) (flag : List ℕ)
      → length iter.rest < rounds
      → flag_exists C rounds iter flag ≡ some (any_same flag (words iter.rest))
  unfolding flag_exists
  flag_exists_lem zero iter flag h = absurd (omega arith)
  flag_exists_lem (suc rounds) iter flag h =
      go (flag_exists_lem rounds) (scan_flag (iter.before ++ iter.flag) [] iter.rest) refl
        (scan_flag-ScanGood (iter.before ++ iter.flag) [] iter.rest tt)
    where
      go :
          ((iter' : FlagsIter) (flag : List ℕ)
            → length iter'.rest < rounds
            → flag_exists C rounds iter' flag ≡ some (any_same flag (words iter'.rest)))
          → (r : Option (List ℕ × List ℕ × List ℕ))
          → scan_flag (iter.before ++ iter.flag) [] iter.rest ≡ r
          → ScanGood (iter.before ++ iter.flag) [] iter.rest r
          → flag_exists C (suc rounds) iter flag ≡ some (any_same flag (words iter.rest))
      go ih none e s = rw (e, flag_exists) (ap (λ ws. some (any_same flag ws)) (sym s))
      go ih (some (before, f, rest)) e (s, pos, few, p, n, k) =
          let iter' : FlagsIter = record { before = before; flag = f; rest = rest } in
          rw (e, flag_exists)
            (exists_step (words rest) f (flag_exists C rounds iter' flag) flag _ s
              (ih iter' flag (omega arith)))

  valid_pos : (flag : List ℕ) → flag_is_valid C flag ≡ true → 0 < length flag
  unfolding flag_is_valid
  valid_pos [] e = cc
  valid_pos (c ∷ flag) e = omega arith

  -- The list with one flag more, or the list itself.
  add_flag_lem :
      (l flag : List ℕ)
      → All IsNoSpace flag
      → (l' : List ℕ) × (add_flag C l flag ≡ some l') × (words l' ≡ add_word (words l) flag)
  unfolding add_flag
  add_flag_lem l flag plain =
      let exists = flag_exists_lem (length l + 1) (iter_init l) flag (omega arith) in
      elim (Bool-cases (flag_is_valid C flag)) [
        | inr e ↦ (l, rw e refl, rw e refl)
        | inl e ↦ elim (Bool-cases (any_same flag (words l))) [
          | inl there ↦ (l, rw e (rw exists (rw there refl)), rw e (rw there refl))
          | inr new ↦ (
            if is_empty l then flag else l ++ (b' ' ∷ flag),
            rw e (rw exists (rw new refl)),
            rw e (rw new (joined l (valid_pos flag e))),
          )
        ]
      ]
    where
      joined :
          (l : List ℕ)
          → 0 < length flag
          → words (if is_empty l then flag else l ++ (b' ' ∷ flag)) ≡ words l ++ (flag ∷ [])
      joined [] pos = split-plain [] flag plain pos ∙ ap (λ t. t ++ (flag ∷ [])) (sym words_nil)
      joined (c ∷ l) pos =
          split-append_space [] (c ∷ l) flag
          ∙ ap (λ t. words (c ∷ l) ++ t) (split-plain [] flag plain pos)

  pub add_flags_lem :
      (rounds : ℕ) (l : List ℕ) (iter : FlagsIter)
      → length iter.rest < rounds
      → (l' : List ℕ) × (add_flags C rounds l iter ≡ some l')
        × (words l' ≡ add_words (words l) (words iter.rest))
  unfolding add_flags
  add_flags_lem zero l iter h = absurd (omega arith)
  add_flags_lem (suc rounds) l iter h =
      go (add_flags_lem rounds) (scan_flag (iter.before ++ iter.flag) [] iter.rest) refl
        (scan_flag-ScanGood (iter.before ++ iter.flag) [] iter.rest tt)
    where
      go :
          ((l : List ℕ) (iter' : FlagsIter)
            → length iter'.rest < rounds
            → (l' : List ℕ) × (add_flags C rounds l iter' ≡ some l')
              × (words l' ≡ add_words (words l) (words iter'.rest)))
          → (r : Option (List ℕ × List ℕ × List ℕ))
          → scan_flag (iter.before ++ iter.flag) [] iter.rest ≡ r
          → ScanGood (iter.before ++ iter.flag) [] iter.rest r
          → (l' : List ℕ) × (add_flags C (suc rounds) l iter ≡ some l')
            × (words l' ≡ add_words (words l) (words iter.rest))
      go ih none e s = (l, rw (e, add_flags) refl, ap (λ ws. add_words (words l) ws) (sym s))
      go ih (some (before, f, rest)) e (s, pos, few, p, n, k) =
          let (l1, a, w) = add_flag_lem l (c_string f) (All-take _ f n) in
          let iter' : FlagsIter = record { before = before; flag = f; rest = rest } in
          let (l2, b, v) = ih l1 iter' (omega arith) in
          (
            l2,
            rw (e, add_flags) (rw (a, add_flags) b),
            v ∙ ap (λ ws. add_words ws (words rest)) w ∙ ap (λ ws. add_words (words l) ws) (sym s),
          )

  add_words-append :
      (ws fs gs : List (List ℕ)) → add_words ws (fs ++ gs) ≡ add_words (add_words ws fs) gs
  add_words-append ws [] gs = refl
  add_words-append ws (f ∷ fs) gs = add_words-append (add_word ws (c_string f)) fs gs

  -- Adding the flags of some items always ends. What is between the spaces afterwards is what was
  -- there, followed by each valid flag of the items that was not among those before it, whatever
  -- spaces there are; the result is that of the string list.
  pub add_items_lem :
      (l : List ℕ) (items : List (List ℕ)) (fails : Bool)
      → (l' : List ℕ) × (add_items C l items fails ≡ some (l', not fails))
        × (words l' ≡ add_words (words l) (all_words items))
  unfolding add_items
  add_items_lem l [] fails = (l, refl, refl)
  add_items_lem l (item ∷ items) fails =
      let (l1, a, w) = add_flags_lem (length item + 1) l (iter_init item) (omega arith) in
      let (l2, b, v) = add_items_lem l1 items fails in
      (
        l2,
        rw (a, add_items) b,
        v
            ∙ ap (λ ws. add_words ws (all_words items)) w
            ∙ sym (add_words-append (words l) (words item) (all_words items)),
      )
