-- ===== src/Flags/Items.antt =====
-- The list of the flags in the items of a string list (struct ext_imap4flags_stringlist in
-- src/lib-sieve/plugins/imap4flags/ext-imap4flags-common.c).
--
-- An iterator that finds no further flag stays where it is and not at the end of its string: it
-- finds none there either.
use pigeonhole.Prelude.{
  ℕ, ◌+◌, ◌≡◌, refl, sym, ap, ◌∙◌, Bool, true, false, Option, none, some, List, [], ◌∷◌, ◌++◌,
  length, if◌then◌else◌, arith,
}
use pigeonhole.StringLists.{Next, item, Source, source_reset, end_of}
use pigeonhole.Flags.{FlagsIter, iter_init, scan_flag, iter_get_flag, FlagChars, add_flags}
use pigeonhole.Flags.Words.{words, words_nil, ScanGood, scan_flag-ScanGood}
use pigeonhole.Flags.Adding.{add_words, add_flags_lem}

pub record FlagList : Type 0 where
  pub flags_list : Source
  pub flit : FlagsIter
  pub normalize : Bool

module _ (C : FlagChars) where
  -- The string that the next flags are taken from.
  abbrev pub flags_string : Bool → List ℕ → Option (List ℕ)
  flags_string normalize str =
      if normalize then add_flags C (length str + 1) [] (iter_init str) else some str

  unfoldable pub flags_from :
      Bool → Bool → List (List ℕ) → FlagsIter → Option (Next × (List (List ℕ) × FlagsIter))
  unfolding iter_get_flag
  flags_from normalize fails [] iter = elim (iter_get_flag iter) [
    | some iter' ↦ some (item iter'.flag, ([], iter'))
    | none ↦ some (end_of fails, ([], iter))
  ]
  flags_from normalize fails (str ∷ left) iter = elim (iter_get_flag iter) [
    | some iter' ↦ some (item iter'.flag, (str ∷ left, iter'))
    | none ↦ elim (flags_string normalize str) [
      | none ↦ none
      | some flags ↦ flags_from normalize fails left (iter_init flags)
    ]
  ]

  -- ext_imap4flags_stringlist_next_item and ext_imap4flags_stringlist_reset.
  unfoldable pub flag_list_next : FlagList → Option (Next × FlagList)
  unfolding flags_from
  flag_list_next l = elim (flags_from l.normalize l.flags_list.fails l.flags_list.left l.flit) [
    | none ↦ none
    | some (next, (left, iter)) ↦
        some (next, record l { flags_list = record l.flags_list { left = left }; flit = iter })
  ]

  abbrev pub flag_list_reset : FlagList → FlagList
  flag_list_reset l = record l { flags_list = source_reset l.flags_list; flit = iter_init [] }

  -- The flags of an item, and those that are still to come.
  abbrev pub item_words : Bool → List ℕ → List (List ℕ)
  item_words normalize str = if normalize then add_words C [] (words str) else words str

  abbrev pub words_left : Bool → List (List ℕ) → List (List ℕ)
  words_left normalize [] = []
  words_left normalize (str ∷ left) = item_words normalize str ++ words_left normalize left

  abbrev pub flags_left : FlagList → List (List ℕ)
  flags_left l = words l.flit.rest ++ words_left l.normalize l.flags_list.left

  flags_string_lem :
      (normalize : Bool) (str : List ℕ)
      → (l : List ℕ) × (flags_string normalize str ≡ some l) × (words l ≡ item_words normalize str)
  flags_string_lem true str =
      let (l, a, w) = add_flags_lem C (length str + 1) [] (iter_init str) (omega arith) in
      (l, a, w ∙ ap (λ ws. add_words C ws (words str)) words_nil)
  flags_string_lem false str = (str, refl, refl)

  -- What a call answers, of the flags that are to come.
  abbrev pub Answers : List (List ℕ) → Bool → Next → List (List ℕ) → Type 0
  Answers [] fails next after = (next ≡ end_of fails) × (after ≡ [])
  Answers (w ∷ ws) fails next after = (next ≡ item w) × (after ≡ ws)

  abbrev From : Bool → Bool → List (List ℕ) → FlagsIter → Type 0
  From normalize fails left iter =
      (next : Next) × (left' : List (List ℕ)) × (iter' : FlagsIter) × (flags_from normalize fails
          left iter
        ≡ some (next, (left', iter')))
      × Answers (words iter.rest ++ words_left normalize left) fails next
          (words iter'.rest ++ words_left normalize left')

  flags_from_lem :
      (normalize fails : Bool) (left : List (List ℕ)) (iter : FlagsIter)
      → From normalize fails left iter
  unfolding flags_from
  flags_from_lem normalize fails [] iter =
      go (scan_flag (iter.before ++ iter.flag) [] iter.rest) refl
        (scan_flag-ScanGood (iter.before ++ iter.flag) [] iter.rest tt)
    where
      go :
          (r : Option (List ℕ × List ℕ × List ℕ))
          → scan_flag (iter.before ++ iter.flag) [] iter.rest ≡ r
          → ScanGood (iter.before ++ iter.flag) [] iter.rest r
          → From normalize fails [] iter
      go none e s = (end_of fails, [], iter, rw (e, flags_from) refl, rw s (refl, refl))
      go (some (before, f, rest)) e (s, pos, few, p, n, k) =
          let iter' : FlagsIter = record { before = before; flag = f; rest = rest } in
          (item f, [], iter', rw (e, flags_from) refl, rw s (refl, refl))
  flags_from_lem normalize fails (str ∷ left) iter =
      go (flags_from_lem normalize fails left) (scan_flag (iter.before ++ iter.flag) [] iter.rest)
        refl (scan_flag-ScanGood (iter.before ++ iter.flag) [] iter.rest tt)
    where
      go :
          ((iter' : FlagsIter) → From normalize fails left iter')
          → (r : Option (List ℕ × List ℕ × List ℕ))
          → scan_flag (iter.before ++ iter.flag) [] iter.rest ≡ r
          → ScanGood (iter.before ++ iter.flag) [] iter.rest r
          → From normalize fails (str ∷ left) iter
      go ih none e s =
          let (flags, a, w) = flags_string_lem normalize str in
          let (next, left', iter', b, h) = ih (iter_init flags) in
          (next, left', iter', rw (e, flags_from) (rw (a, flags_from) b), rw s (rw (sym w) h))
      go ih (some (before, f, rest)) e (s, pos, few, p, n, k) =
          let iter' : FlagsIter = record { before = before; flag = f; rest = rest } in
          (item f, str ∷ left, iter', rw (e, flags_from) refl, rw s (refl, refl))

  -- A call always ends, and delivers the first of the flags that are to come, after which the
  -- others are; if there are none it answers as the string list does at its end. The flags that
  -- are to come are those of the current string, then those of each item that is left, which if
  -- the list is normalized has only its valid flags, none of them twice.
  pub flag_list_next_lem :
      (l : FlagList)
      → (next : Next) × (l' : FlagList) × (flag_list_next l ≡ some (next, l'))
        × Answers (flags_left l) l.flags_list.fails next (flags_left l')
  unfolding flag_list_next
  flag_list_next_lem l =
      let (next, left, iter, e, h) =
        flags_from_lem l.normalize l.flags_list.fails l.flags_list.left l.flit in
      (
        next,
        record l { flags_list = record l.flags_list { left = left }; flit = iter },
        rw (e, flag_list_next) refl,
        h,
      )
