-- ===== src/Flags/Removing.antt =====
-- Removing flags from a list of flags (src/lib-sieve/plugins/imap4flags/ext-imap4flags-common.c).
use pigeonhole.Prelude.{
  ℕ, zero, suc, ◌+◌, ◌<◌, ◌≡◌, refl, sym, ap, ◌∙◌, Bool, not, Option, none, some, List, [], ◌∷◌,
  ◌++◌, length, arith,
}
use pigeonhole.StringLists.{c_string}
use pigeonhole.Flags.{FlagsIter, iter_init, scan_flag, FlagChars, remove_flags, remove_items}
use pigeonhole.Flags.Words.{words, all_words, ScanGood, scan_flag-ScanGood}
use pigeonhole.Flags.Deleting.{without, delete_lem}

module _ (C : FlagChars) where
  abbrev pub without_all : List (List ℕ) → List (List ℕ) → List (List ℕ)
  without_all ws [] = ws
  without_all ws (f ∷ fs) = without_all (without C (c_string f) ws) fs

  abbrev Removed : ℕ → List ℕ → FlagsIter → Type 0
  Removed rounds l iter =
      (l' : List ℕ) × (remove_flags C rounds l iter ≡ some l')
      × (words l' ≡ without_all (words l) (words iter.rest))

  remove_flags_lem :
      (rounds : ℕ) (l : List ℕ) (iter : FlagsIter)
      → length iter.rest < rounds
      → Removed rounds l iter
  unfolding remove_flags
  remove_flags_lem zero l iter h = absurd (omega arith)
  remove_flags_lem (suc rounds) l iter h =
      go (remove_flags_lem rounds) (scan_flag (iter.before ++ iter.flag) [] iter.rest) refl
        (scan_flag-ScanGood (iter.before ++ iter.flag) [] iter.rest tt)
    where
      go :
          ((l : List ℕ) (iter' : FlagsIter) → length iter'.rest < rounds → Removed rounds l iter')
          → (r : Option (List ℕ × List ℕ × List ℕ))
          → scan_flag (iter.before ++ iter.flag) [] iter.rest ≡ r
          → ScanGood (iter.before ++ iter.flag) [] iter.rest r
          → Removed (suc rounds) l iter
      go ih none e s = (l, rw (e, remove_flags) refl, ap (λ ws. without_all (words l) ws) (sym s))
      go ih (some (before, f, rest)) e (s, pos, few, p, n, k) =
          let (l1, a, w) = delete_lem C l (c_string f) in
          let iter' : FlagsIter = record { before = before; flag = f; rest = rest } in
          let (l2, b, v) = ih l1 iter' (omega arith) in
          (
            l2,
            rw (e, remove_flags) (rw (a, remove_flags) b),
            v
                ∙ ap (λ ws. without_all ws (words rest)) w
                ∙ ap (λ ws. without_all (words l) ws) (sym s),
          )

  without_all-append :
      (ws fs gs : List (List ℕ)) → without_all ws (fs ++ gs) ≡ without_all (without_all ws fs) gs
  without_all-append ws [] gs = refl
  without_all-append ws (f ∷ fs) gs = without_all-append (without C (c_string f) ws) fs gs

  -- Removing the flags of some items always ends. What is between the spaces afterwards is what
  -- was there, in its order, without what strcasecmp finds equal to a flag of the items, whatever
  -- spaces there are; the result is that of the string list.
  pub remove_items_lem :
      (l : List ℕ) (items : List (List ℕ)) (fails : Bool)
      → (l' : List ℕ) × (remove_items C l items fails ≡ some (l', not fails))
        × (words l' ≡ without_all (words l) (all_words items))
  unfolding remove_items
  remove_items_lem l [] fails = (l, refl, refl)
  remove_items_lem l (item ∷ items) fails =
      let (l1, a, w) = remove_flags_lem (length item + 1) l (iter_init item) (omega arith) in
      let (l2, b, v) = remove_items_lem l1 items fails in
      (
        l2,
        rw (a, remove_items) b,
        v
            ∙ ap (λ ws. without_all ws (all_words items)) w
            ∙ sym (without_all-append (words l) (words item) (all_words items)),
      )
