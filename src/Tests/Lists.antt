-- ===== src/Tests/Lists.antt =====
-- Lists of strings at concrete items (src/lib-sieve/sieve-stringlist.c).
use pigeonhole.Prelude.{◌≡◌, ℕ, some, List, [], ◌∷◌, get_elem?}
use pigeonhole.Prelude.Int.{pos, negsuc}
use pigeonhole.StringLists.{index_get_length}
use pigeonhole.StringLists.Index.{
  indexed, Delivers, from_back, index_next_item_lem, index_get_length_last,
}

abbrev ab : List ℕ
ab = b'a' ∷ b'b' ∷ []

abbrev items : List (List ℕ)
items = ab ∷ ([] ∷ [])

index_next_item_example :
    Delivers (indexed items (pos 2)) (get_elem? items 1)
    × Delivers (indexed items (negsuc 1)) (from_back items 1)
index_next_item_example = index_next_item_lem items 1

index_get_length_example :
    ((y : List ℕ) × Delivers (indexed items (pos 2)) (some y))
    × ((index_get_length (indexed items (pos 2))).0 ≡ some 0)
    × Delivers (indexed items (negsuc 1)) (some ab)
    × ((index_get_length (indexed items (negsuc 1))).0 ≡ some 0)
index_get_length_example = index_get_length_last ab ([] ∷ [])
