-- ===== src/Match/Relational.antt =====
-- :value and :is against the order of the comparator, and the names of the relations.
use Prim.Native.Nat.{Ordering}
use pigeonhole.Prelude.{ℕ, ◌≡◌, refl, ◌↔◌, some, List, [], ◌∷◌, arith}
use pigeonhole.Comparator.{octet_compare}
use pigeonhole.Comparator.Octet.{octet_compare_order, flip}
use pigeonhole.Match.{
  matched, unmatched, RelMatch, rel_greater, rel_greater_equal, rel_less, rel_less_equal, rel_equal,
  rel_not_equal, rel_match_of, value_match_key, is_match_key,
}

abbrev opposite : RelMatch → RelMatch
opposite rel_greater = rel_less_equal
opposite rel_less_equal = rel_greater
opposite rel_greater_equal = rel_less
opposite rel_less = rel_greater_equal
opposite rel_equal = rel_not_equal
opposite rel_not_equal = rel_equal

abbrev mirrored : RelMatch → RelMatch
mirrored rel_greater = rel_less
mirrored rel_less = rel_greater
mirrored rel_greater_equal = rel_less_equal
mirrored rel_less_equal = rel_greater_equal
mirrored rel_equal = rel_equal
mirrored rel_not_equal = rel_not_equal

module _ (compare : List ℕ → List ℕ → Ordering) where
  -- A relation holds exactly where its opposite does not; with a comparator that turns round with
  -- its arguments, it holds exactly where its mirror image holds of the exchanged strings.
  value_match_key_laws :
      (rel : RelMatch) (val key : List ℕ)
      → compare key val ≡ flip (compare val key)
      → ((value_match_key compare rel val key ≡ matched)
          ↔ (value_match_key compare (opposite rel) val key ≡ unmatched))
        × (value_match_key compare rel val key ≡ value_match_key compare (mirrored rel) key val)
  unfolding value_match_key
  value_match_key_laws rel val key h = ground arith

-- The two letters of a relation.
abbrev rel_name : RelMatch → List ℕ
rel_name rel_greater = b'g' ∷ b't' ∷ []
rel_name rel_greater_equal = b'g' ∷ b'e' ∷ []
rel_name rel_less = b'l' ∷ b't' ∷ []
rel_name rel_less_equal = b'l' ∷ b'e' ∷ []
rel_name rel_equal = b'e' ∷ b'q' ∷ []
rel_name rel_not_equal = b'n' ∷ b'e' ∷ []

rel_match_of→ :
    (name : List ℕ) (rel : RelMatch) → rel_match_of name ≡ some rel → name ≡ rel_name rel
unfolding rel_match_of
rel_match_of→ [] rel e = cc
rel_match_of→ (a ∷ []) rel e = cc
rel_match_of→ (a ∷ b ∷ []) rel e = ground arith
rel_match_of→ (a ∷ b ∷ c ∷ rest) rel e = cc

rel_match_of← : (rel : RelMatch) → rel_match_of (rel_name rel) ≡ some rel
unfolding rel_match_of
rel_match_of← rel_greater = refl
rel_match_of← rel_greater_equal = refl
rel_match_of← rel_less = refl
rel_match_of← rel_less_equal = refl
rel_match_of← rel_equal = refl
rel_match_of← rel_not_equal = refl

-- A parameter is accepted as a relation exactly if it is that relation's name.
pub rel_match_of_iff :
    (name : List ℕ) (rel : RelMatch) → (rel_match_of name ≡ some rel) ↔ (name ≡ rel_name rel)
rel_match_of_iff name rel = (rel_match_of→ name rel, λ e. rw e (rel_match_of← rel))

-- With i;octet, :is holds exactly of equal strings, and :value "eq" agrees with it.
pub is_match_key_octet :
    (val key : List ℕ)
    → ((is_match_key (some octet_compare) val key ≡ matched) ↔ (val ≡ key))
      × (value_match_key octet_compare rel_equal val key
          ≡ is_match_key (some octet_compare) val key)
unfolding is_match_key value_match_key
is_match_key_octet [] [] = ground (arith, (octet_compare_order [] [] []).0)
is_match_key_octet [] (k ∷ key) = ground (arith, (octet_compare_order [] (k ∷ key) []).0)
is_match_key_octet (v ∷ val) key = ground (arith, (octet_compare_order (v ∷ val) key []).0)
