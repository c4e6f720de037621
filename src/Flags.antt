-- ===== src/Flags.antt =====
-- Lists of flags in a string (src/lib-sieve/plugins/imap4flags/ext-imap4flags-common.c): flags with
-- spaces between them.
--
-- An iterator stands in its list: the bytes before `last`, those from there to `offset`, which are
-- the flag it has returned, and those from `offset` on.
pub mod Words
pub mod Places
pub mod Adding
pub mod Deleting
pub mod Removing
pub mod Items
use pigeonhole.Prelude.{
  ℕ, zero, suc, ◌+◌, Bool, true, false, not, ◌&&◌, ◌||◌, Option, none, some, List, [], ◌∷◌, ◌++◌,
  length, ◌==◌, if◌then◌else◌,
}
use pigeonhole.StringLists.{c_string}
use pigeonhole.Match.{is_empty}

pub record FlagsIter : Type 0 where
  pub before : List ℕ
  pub flag : List ℕ
  pub rest : List ℕ

abbrev pub iter_init : List ℕ → FlagsIter
iter_init flags_list = record { before = []; flag = []; rest = flags_list }

abbrev pub flags_of : FlagsIter → List ℕ
flags_of iter = iter.before ++ iter.flag ++ iter.rest

-- The scan for the next flag: the bytes passed, the flag and what follows it.
unfoldable pub scan_flag : List ℕ → List ℕ → List ℕ → Option (List ℕ × List ℕ × List ℕ)
scan_flag passed flag [] = if is_empty flag then none else some (passed, flag, [])
scan_flag passed flag (c ∷ rest) =
    let skip = scan_flag (passed ++ (c ∷ [])) [] rest in
    let more = scan_flag passed (flag ++ (c ∷ [])) rest in
    if c == b' ' then if is_empty flag then skip else some (passed, flag, c ∷ rest) else more

-- ext_imap4flags_iter_get_flag_str
unfoldable pub iter_get_flag : FlagsIter → Option FlagsIter
unfolding scan_flag
iter_get_flag iter = elim (scan_flag (iter.before ++ iter.flag) [] iter.rest) [
  | none ↦ none
  | some (passed, flag, rest) ↦ some (record { before = passed; flag = flag; rest = rest })
]

abbrev pub drop_last : List ℕ → List ℕ
drop_last [] = []
drop_last (x ∷ []) = []
drop_last (x ∷ y ∷ l) = x ∷ drop_last (y ∷ l)

-- ext_imap4flags_iter_delete_last, by what stands behind the flag: the byte there goes with it,
-- and if that is the last one of the list, so does the byte before it.
unfoldable pub delete_from : List ℕ → List ℕ → FlagsIter
delete_from before [] = record { before = drop_last before; flag = []; rest = [] }
delete_from before (c ∷ []) = record { before = drop_last before; flag = []; rest = [] }
delete_from before (c ∷ d ∷ rest) = record { before = before; flag = []; rest = d ∷ rest }

unfoldable pub iter_delete_last : FlagsIter → FlagsIter
unfolding delete_from
iter_delete_last iter = delete_from iter.before iter.rest

-- The character functions that are called: t_str_ucase, IS_ATOM_CHAR, and whether strcasecmp
-- returns 0.
pub record FlagChars : Type 0 where
  pub ucase : List ℕ → List ℕ
  pub is_atom_char : ℕ → Bool
  pub same_flag : List ℕ → List ℕ → Bool

abbrev pub str_equal : List ℕ → List ℕ → Bool
str_equal [] [] = true
str_equal [] (y ∷ b) = false
str_equal (x ∷ a) [] = false
str_equal (x ∷ a) (y ∷ b) = (x == y) && str_equal a b

abbrev pub all_of : (ℕ → Bool) → List ℕ → Bool
all_of p [] = true
all_of p (c ∷ l) = p c && all_of p l

-- \ANSWERED, \FLAGGED, \DELETED, \SEEN and \DRAFT.
abbrev pub is_system_flag : List ℕ → Bool
is_system_flag atom =
    str_equal atom (b'\\' ∷ b'A' ∷ b'N' ∷ b'S' ∷ b'W' ∷ b'E' ∷ b'R' ∷ b'E' ∷ b'D' ∷ [])
    || str_equal atom (b'\\' ∷ b'F' ∷ b'L' ∷ b'A' ∷ b'G' ∷ b'G' ∷ b'E' ∷ b'D' ∷ [])
    || str_equal atom (b'\\' ∷ b'D' ∷ b'E' ∷ b'L' ∷ b'E' ∷ b'T' ∷ b'E' ∷ b'D' ∷ [])
    || str_equal atom (b'\\' ∷ b'S' ∷ b'E' ∷ b'E' ∷ b'N' ∷ [])
    || str_equal atom (b'\\' ∷ b'D' ∷ b'R' ∷ b'A' ∷ b'F' ∷ b'T' ∷ [])

module _ (C : FlagChars) where
  open C use {ucase, is_atom_char, same_flag}

  -- sieve_ext_imap4flags_flag_is_valid, of a string without NUL.
  unfoldable pub flag_is_valid : List ℕ → Bool
  flag_is_valid [] = false
  flag_is_valid (c ∷ flag) =
      if c == b'\\' then is_system_flag (ucase (c ∷ flag)) else all_of is_atom_char (c ∷ flag)

  -- flags_list_flag_exists, with a bound on its rounds.
  unfoldable pub flag_exists : ℕ → FlagsIter → List ℕ → Option Bool
  unfolding iter_get_flag
  flag_exists zero iter flag = none
  flag_exists (suc rounds) iter flag = elim (iter_get_flag iter) [
    | none ↦ some false
    | some iter' ↦
        let onward = flag_exists rounds iter' flag in
        if same_flag (c_string iter'.flag) flag then some true else onward
  ]

  -- flags_list_flag_delete: the list that is left.
  unfoldable pub flag_delete : ℕ → FlagsIter → List ℕ → Option (List ℕ)
  unfolding iter_get_flag iter_delete_last
  flag_delete zero iter flag = none
  flag_delete (suc rounds) iter flag = elim (iter_get_flag iter) [
    | none ↦ some (flags_of iter)
    | some iter' ↦
        flag_delete rounds
          (if same_flag (c_string iter'.flag) flag then iter_delete_last iter' else iter') flag
  ]

  -- One flag for flags_list_add_flags.
  unfoldable pub add_flag : List ℕ → List ℕ → Option (List ℕ)
  unfolding flag_is_valid flag_exists
  add_flag flags_list flag =
      if flag_is_valid flag
      then (elim (flag_exists (length flags_list + 1) (iter_init flags_list) flag) [
        | none ↦ none
        | some true ↦ some flags_list
        | some false ↦ some (if is_empty flags_list then flag else flags_list ++ (b' ' ∷ flag))
      ])
      else some flags_list

  -- flags_list_add_flags and flags_list_remove_flags.
  unfoldable pub add_flags : ℕ → List ℕ → FlagsIter → Option (List ℕ)
  unfolding iter_get_flag add_flag
  add_flags zero flags_list iter = none
  add_flags (suc rounds) flags_list iter = elim (iter_get_flag iter) [
    | none ↦ some flags_list
    | some iter' ↦ elim (add_flag flags_list (c_string iter'.flag)) [
      | none ↦ none
      | some flags_list' ↦ add_flags rounds flags_list' iter'
    ]
  ]

  unfoldable pub remove_flags : ℕ → List ℕ → FlagsIter → Option (List ℕ)
  unfolding iter_get_flag flag_delete
  remove_flags zero flags_list iter = none
  remove_flags (suc rounds) flags_list iter = elim (iter_get_flag iter) [
    | none ↦ some flags_list
    | some iter' ↦
        elim (flag_delete (length flags_list + 1) (iter_init flags_list) (c_string iter'.flag)) [
          | none ↦ none
          | some flags_list' ↦ remove_flags rounds flags_list' iter'
        ]
  ]

  -- The commands' loops over a string list, of which the items are given and whether it fails
  -- behind the last one: the flags and whether the result is SIEVE_EXEC_OK.
  unfoldable pub add_items : List ℕ → List (List ℕ) → Bool → Option (List ℕ × Bool)
  unfolding add_flags
  add_items flags_list [] fails = some (flags_list, not fails)
  add_items flags_list (item ∷ items) fails =
      elim (add_flags (length item + 1) flags_list (iter_init item)) [
        | none ↦ none
        | some flags_list' ↦ add_items flags_list' items fails
      ]

  unfoldable pub set_items : List ℕ → List (List ℕ) → Bool → Option (List ℕ × Bool)
  unfolding add_items
  set_items flags_list items fails = add_items [] items fails

  unfoldable pub remove_items : List ℕ → List (List ℕ) → Bool → Option (List ℕ × Bool)
  unfolding remove_flags
  remove_items flags_list [] fails = some (flags_list, not fails)
  remove_items flags_list (item ∷ items) fails =
      elim (remove_flags (length item + 1) flags_list (iter_init item)) [
        | none ↦ none
        | some flags_list' ↦ remove_items flags_list' items fails
      ]
