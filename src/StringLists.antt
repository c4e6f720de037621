-- ===== src/StringLists.antt =====
-- Lists of strings that are delivered one by one (src/lib-sieve/sieve-stringlist.c): the default
-- operations, and the list that holds one item of another, as :index asks for.
--
-- A source holds the items that it delivers, those that it has still to deliver, and whether it
-- fails at its end instead of ending; it has no get_length and read_all of its own. Trace flags and
-- status codes are left out.
pub mod Index
use pigeonhole.Prelude.{
  ℕ, zero, suc, ◌+◌, ◌-◌, ◌≤◌, ◌<◌, ◌≡◌, Bool, true, false, not, ◌||◌, Option, none, some, List, [],
  ◌∷◌, ◌++◌, length, take, ltb, leb, ◌==◌, if◌then◌else◌,
}
use pigeonhole.Prelude.Int.{ℤ, pos, negsuc}
use pigeonhole.Binary.{strlen}

-- What a call of next_item returns: 1 with an item, 0, or -1.
pub data Next : Type 0 where
  item : List ℕ → Next
  list_end : Next
  list_error : Next

pub record Source : Type 0 where
  pub items : List (List ℕ)
  pub left : List (List ℕ)
  pub fails : Bool

abbrev pub source_reset : Source → Source
source_reset s = record s { left = s.items }

-- The items passed up to the end, with what the end is.
abbrev pub end_of : Bool → Next
end_of fails = if fails then list_error else list_end

abbrev pub next_of : List (List ℕ) → Bool → Next × List (List ℕ)
next_of [] fails = (end_of fails, [])
next_of (x ∷ left) fails = (item x, left)

abbrev pub source_next : Source → Next × Source
source_next s = let (next, left) = next_of s.left s.fails in (next, record s { left = left })

-- str_c: what of a string a C string holds.
abbrev pub c_string : List ℕ → List ℕ
c_string str = take (strlen str) str

-- The loops over a whole list.
unfoldable pub collect : List (List ℕ) → Bool → List (List ℕ) → Option (List (List ℕ))
collect [] fails items = if fails then none else some items
collect (x ∷ left) fails items = collect left fails (items ++ (c_string x ∷ []))

unfoldable pub count : List (List ℕ) → Bool → ℕ → Option ℕ
count [] fails n = if fails then none else some n
count (x ∷ left) fails n = count left fails (n + 1)

unfoldable pub read_all : Source → Option (List (List ℕ))
unfolding collect
read_all s = collect s.items s.fails []

-- The length, and the source as it is afterwards.
unfoldable pub get_length : Source → Option ℕ × Source
unfolding count
get_length s = (count s.items s.fails 0, source_reset s)

pub record IndexList : Type 0 where
  pub source : Source
  pub index : ℤ
  pub ended : Bool

-- The item `n` places further, `last` being the one passed before.
unfoldable pub advance : ℕ → List ℕ → Source → Next × Source
advance zero last s = (item last, s)
advance (suc n) last s =
    let (next, s') = source_next s in
    elim next [
      | item x ↦ advance n x s'
      | list_end ↦ (list_end, s')
      | list_error ↦ (list_error, s')
    ]

-- Only an item ends the list.
abbrev pub ends_at : Next → Bool
ends_at next = elim next [ item x ↦ true | _ ↦ false ]

abbrev pub advanced : IndexList → Next × Source → Next × IndexList
advanced l (next, s) = (next, record l { source = s; ended = ends_at next })

abbrev pub from_end : IndexList → ℕ → Option ℕ × Source → Next × IndexList
unfolding advance
from_end l n (none, s) = (list_error, record l { source = s })
from_end l n (some len, s) =
    if ltb len (suc n)
    then (list_end, record l { source = s; ended = true })
    else advanced l (advance (len + 1 - suc n) [] s)

-- `none` is a failed assertion.
abbrev pub next_at : IndexList → ℤ → Option (Next × IndexList)
unfolding advance from_end get_length
next_at l (negsuc n) = some (from_end l n (get_length l.source))
next_at l (pos zero) = none
next_at l (pos (suc n)) = some (advanced l (advance (suc n) [] l.source))

unfoldable pub index_next_item : IndexList → Option (Next × IndexList)
unfolding next_at
index_next_item l = if l.ended then some (list_end, l) else next_at l l.index

abbrev pub index_reset : IndexList → IndexList
index_reset l = record l { source = source_reset l.source; ended = false }

abbrev pub counts_one : ℤ → ℕ → ℕ
counts_one (negsuc n) len = if leb len (suc n) then 0 else 1
counts_one (pos n) len = if leb len n then 0 else 1

unfoldable pub index_get_length : IndexList → Option ℕ × IndexList
unfolding get_length
index_get_length l =
    let (len, s) = get_length l.source in
    (elim len [ none ↦ none | some n ↦ some (counts_one l.index n) ], record l { source = s })
