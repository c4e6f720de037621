-- ===== src/StringLists/Index.antt =====
-- Which item the indexed list delivers, and what it takes for its length.
use pigeonhole.Prelude.{
  ℕ, zero, suc, ◌+◌, ◌-◌, ◌≡◌, ◌∙◌, refl, sym, ap, ◌⊎◌, inl, inr, true, false, Option, none, some,
  List, [], ◌∷◌, ◌++◌, length, get_elem?, drop, ltb, if◌then◌else◌, append-nil, append_assoc, arith,
  Bool-cases,
}
use pigeonhole.Prelude.Int.{ℤ, pos, negsuc}
use pigeonhole.StringLists.{
  c_string, Next, item, list_end, Source, collect, count, read_all, get_length, IndexList, advance,
  advanced, from_end, next_at, ends_at, index_next_item, index_get_length,
}

count_lem : (left : List (List ℕ)) (n : ℕ) → count left false n ≡ some (n + length left)
unfolding count
count_lem [] n = ap some (omega arith)
count_lem (x ∷ left) n = count_lem left (n + 1) ∙ ap some (omega arith)

abbrev c_strings : List (List ℕ) → List (List ℕ)
c_strings [] = []
c_strings (x ∷ items) = c_string x ∷ c_strings items

collect_lem :
    (left items : List (List ℕ)) → collect left false items ≡ some (items ++ c_strings left)
unfolding collect
collect_lem [] items = rw append-nil refl
collect_lem (x ∷ left) items =
    collect_lem left (items ++ (c_string x ∷ []))
    ∙ ap some (append_assoc items (c_string x ∷ []) (c_strings left))

-- What stands at a place, or the end.
abbrev pub found : Option (List ℕ) → Next
found none = list_end
found (some x) = item x

-- A source that ends without failing.
abbrev source_of : List (List ℕ) → List (List ℕ) → Source
source_of items left = record { items = items; left = left; fails = false }

advance_lem :
    (n : ℕ) (last : List ℕ) (items left : List (List ℕ))
    → advance (suc n) last (source_of items left)
      ≡ (found (get_elem? left n), source_of items (drop (suc n) left))
unfolding advance
advance_lem n last items [] = refl
advance_lem zero last items (x ∷ left) = refl
advance_lem (suc n) last items (x ∷ left) = advance_lem n x items left

-- Reading all of a list that does not fail gives its items, each up to its first NUL, and its length
-- is their number; the list is then at its start.
read_all_lem :
    (items left : List (List ℕ))
    → (read_all (source_of items left) ≡ some (c_strings items))
      × (get_length (source_of items left) ≡ (some (length items), source_of items items))
unfolding read_all get_length
read_all_lem items left = (
  collect_lem items [],
  ap (λ n. (n, source_of items items)) (count_lem items 0 ∙ ap some (omega arith)),
)

abbrev pub indexed : List (List ℕ) → ℤ → IndexList
indexed items index = record { source = source_of items items; index = index; ended = false }

-- The next call delivers `o`, and behind an item the list ends.
abbrev pub Delivers : IndexList → Option (List ℕ) → Type 0
Delivers l o =
    (l' : IndexList) × (index_next_item l ≡ some (found o, l'))
    × ((o ≡ none) ⊎ (index_next_item l' ≡ some (list_end, l')))

-- The item at a place counted from 0 at the end.
abbrev pub from_back : List (List ℕ) → ℕ → Option (List ℕ)
from_back items n =
    if ltb (length items) (suc n) then none else get_elem? items (length items - suc n)

ended_after :
    (l : IndexList) (o : Option (List ℕ)) (s : Source)
    → (o ≡ none)
      ⊎ (index_next_item (record l { source = s; ended = ends_at (found o) })
          ≡ some (list_end, record l { source = s; ended = ends_at (found o) }))
unfolding index_next_item
ended_after l none s = inl refl
ended_after l (some x) s = inr refl

Delivers-forward :
    (items : List (List ℕ)) (n : ℕ) → Delivers (indexed items (pos (suc n))) (get_elem? items n)
unfolding index_next_item next_at
Delivers-forward items n =
    let l = indexed items (pos (suc n)) in
    (
      _,
      ap (λ r. some (advanced l r)) (advance_lem n [] items items),
      ended_after l (get_elem? items n) (source_of items (drop (suc n) items)),
    )

from_end-missing :
    (l : IndexList) (n len : ℕ) (s : Source)
    → ltb len (suc n) ≡ true
    → from_end l n (some len, s) ≡ (list_end, record l { source = s; ended = true })
unfolding from_end
from_end-missing l n len s e = rw e refl

from_end-found :
    (l : IndexList) (n : ℕ) (items : List (List ℕ))
    → ltb (length items) (suc n) ≡ false
    → from_end l n (some (length items), source_of items items)
      ≡ advanced l (
        found (get_elem? items (length items - suc n)),
        source_of items (drop (suc (length items - suc n)) items),
      )
unfolding from_end
from_end-found l n items e =
    let k = length items - suc n in
    let steps : length items + 1 - suc n ≡ suc k = ground (arith, e) in
    rw (e, steps, advance_lem k [] items items) refl

Delivers-same : (l : IndexList) (o o' : Option (List ℕ)) → o' ≡ o → Delivers l o → Delivers l o'
Delivers-same l o o' e d = rw e d

Delivers-backward :
    (items : List (List ℕ)) (n : ℕ) → Delivers (indexed items (negsuc n)) (from_back items n)
unfolding index_next_item next_at
Delivers-backward items n =
    let l = indexed items (negsuc n) in
    let k = length items - suc n in
    let size = ap (λ r. some (from_end l n r)) (read_all_lem items items).1 in
    elim (Bool-cases (ltb (length items) (suc n))) [
      | inl e ↦ Delivers-same l none (from_back items n) (rw e refl) (
        _,
        size ∙ ap some (from_end-missing l n (length items) (source_of items items) e),
        inl refl,
      )
      | inr e ↦ Delivers-same l (get_elem? items k) (from_back items n) (rw e refl) (
        _,
        size ∙ ap some (from_end-found l n items e),
        ended_after l (get_elem? items k) (source_of items (drop (suc k) items)),
      )
    ]

-- An indexed list at its start delivers the item at its index, counted from 1, or from -1 at the
-- end, and behind it ends; where there is no such item it ends at once. The source does not fail.
pub index_next_item_lem :
    (items : List (List ℕ)) (n : ℕ)
    → Delivers (indexed items (pos (suc n))) (get_elem? items n)
      × Delivers (indexed items (negsuc n)) (from_back items n)
index_next_item_lem items n = (Delivers-forward items n, Delivers-backward items n)

last_exists :
    (x : List ℕ) (items : List (List ℕ))
    → (y : List ℕ) × (get_elem? (x ∷ items) (length items) ≡ some y)
last_exists x [] = (x, refl)
last_exists x (y ∷ items) = last_exists y items

-- Of a list that is not empty, the index of the last item and the index from the end of the first
-- one deliver an item, but with these indexes the length is said to be 0.
pub index_get_length_last :
    (x : List ℕ) (items : List (List ℕ))
    → ((y : List ℕ) × Delivers (indexed (x ∷ items) (pos (suc (length items)))) (some y))
      × ((index_get_length (indexed (x ∷ items) (pos (suc (length items))))).0 ≡ some 0)
      × Delivers (indexed (x ∷ items) (negsuc (length items))) (some x)
      × ((index_get_length (indexed (x ∷ items) (negsuc (length items)))).0 ≡ some 0)
unfolding index_get_length
index_get_length_last x items =
    let (y, last) = last_exists x items in
    let all = x ∷ items in
    let l = indexed all (pos (suc (length items))) in
    let l' = indexed all (negsuc (length items)) in
    (
      (
        y,
        Delivers-same l (get_elem? all (length items)) (some y) (sym last)
            (Delivers-forward all (length items)),
      ),
      rw (count_lem items 1) (ground arith),
      Delivers-same l' (from_back all (length items)) (some x) (first_back x items)
          (Delivers-backward all (length items)),
      rw (count_lem items 1) (ground arith),
    )
  where
    first_back :
        (x : List ℕ) (items : List (List ℕ)) → some x ≡ from_back (x ∷ items) (length items)
    first_back x items =
        let z : suc (length items) - suc (length items) ≡ 0 = omega arith in
        let b : ltb (suc (length items)) (suc (length items)) ≡ false = ground arith in
        rw (b, z) refl
