-- ===== src/Tests/Flags.antt =====
-- Lists of flags at concrete strings (src/lib-sieve/plugins/imap4flags/ext-imap4flags-common.c).
use pigeonhole.Prelude.{
  ℕ, ◌≡◌, refl, true, false, ◌&&◌, not, some, List, [], ◌∷◌, ◌==◌, if◌then◌else◌,
}
use pigeonhole.Binary.{strlen}
use pigeonhole.Flags.{add_flags, FlagChars, str_equal, set_items, add_items, remove_items}
use pigeonhole.Flags.Words.{words, all_words}
use pigeonhole.Flags.Adding.{add_words, add_items_lem}
use pigeonhole.Flags.Removing.{without_all, remove_items_lem}
use pigeonhole.Flags.Items.{FlagList, flag_list_next, flags_left, Answers, flag_list_next_lem}
use pigeonhole.StringLists.{Next, item}

abbrev upper : ℕ → ℕ
upper c = if c == b'n' then b'N' else if c == b's' then b'S' else if c == b'e' then b'E' else c

abbrev upper_all : List ℕ → List ℕ
upper_all [] = []
upper_all (c ∷ l) = upper c ∷ upper_all l

abbrev chars : FlagChars
chars = record {
  ucase = upper_all;
  is_atom_char = λ c. not (c == b'\\') && not (c == b'(');
  same_flag = λ a b. str_equal (upper_all a) (upper_all b);
}

-- The spaces in the list and in the items do not matter, and `x(` is not a flag.
abbrev current : List ℕ
current = b' ' ∷ b'a' ∷ b' ' ∷ b' ' ∷ b'n' ∷ []

abbrev items : List (List ℕ)
items =
    (b'N' ∷ b' ' ∷ b'b' ∷ b' ' ∷ [])
    ∷ (b'x' ∷ b'(' ∷ [])
    ∷ (b' ' ∷ b'\\' ∷ b's' ∷ b'e' ∷ b'e' ∷ b'n' ∷ b' ' ∷ b'b' ∷ [])
    ∷ []

add_items_lem_example :
    (l' : List ℕ) × (add_items chars current items true ≡ some (l', false))
    × (words l' ≡ add_words chars (words current) (all_words items))
add_items_lem_example = add_items_lem chars current items true

remove_items_lem_example :
    (l' : List ℕ) × (remove_items chars current items false ≡ some (l', true))
    × (words l' ≡ without_all chars (words current) (all_words items))
remove_items_lem_example = remove_items_lem chars current items false

-- The second flag of an item has been delivered; one item is left, and then the list fails.
abbrev flag_list : FlagList
flag_list = record {
  flags_list = record { items = items; left = (b'b' ∷ b' ' ∷ b'b' ∷ []) ∷ []; fails = true };
  flit = record { before = b'a' ∷ b' ' ∷ []; flag = b'n' ∷ []; rest = b' ' ∷ [] };
  normalize = true;
}

flag_list_next_lem_example :
    (next : Next) × (l' : FlagList) × (flag_list_next chars flag_list ≡ some (next, l'))
    × Answers chars (flags_left chars flag_list) true next (flags_left chars l')
flag_list_next_lem_example = flag_list_next_lem chars flag_list

flag_list_next_run :
    flag_list_next chars flag_list
    ≡ some (
      item (b'b' ∷ []),
      record flag_list {
        flags_list = record { items = items; left = []; fails = true };
        flit = record { before = []; flag = b'b' ∷ []; rest = [] };
      },
    )
unfolding flag_list_next add_flags strlen
flag_list_next_run = refl

add_items_run :
    add_items chars current items false
    ≡ some (
      b' ' ∷ b'a' ∷ b' ' ∷ b' ' ∷ b'n' ∷ b' ' ∷ b'b' ∷ b' ' ∷ b'\\' ∷ b's' ∷ b'e' ∷ b'e' ∷ b'n'
          ∷ [],
      true,
    )
unfolding add_items strlen
add_items_run = refl

set_items_run :
    set_items chars current ((b'b' ∷ b' ' ∷ b'b' ∷ []) ∷ []) false ≡ some (b'b' ∷ [], true)
unfolding set_items strlen
set_items_run = refl

remove_items_run :
    remove_items chars current ((b'N' ∷ []) ∷ []) false ≡ some (b' ' ∷ b'a' ∷ b' ' ∷ [], true)
unfolding remove_items strlen
remove_items_run = refl
