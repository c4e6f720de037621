-- ===== src/Comparator/CharMatch.antt =====
-- What the char_match functions promise to the match types, and that both comparators keep it.
use pigeonhole.Prelude.{
  ℕ, ◌≡◌, refl, ◌⊎◌, inl, inr, Bool, true, false, List, [], ◌∷◌, ◌++◌, ◌==◌, ==_iff, Bool-cases,
  arith,
}
use mathlib.Core.List.{map}
use pigeonhole.Ctype.{Ctype}
use pigeonhole.Comparator.{skip_same, reset_or_keep, octet_char_match, casemap_char_match}

-- `val` begins with a string that has the key's bytes up to `fold`, and goes on with `rest`.
abbrev pub PrefixOf : (ℕ → ℕ) → List ℕ → List ℕ → List ℕ → Type 0
PrefixOf fold key val rest =
    (front : List ℕ) × (val ≡ front ++ rest) × (map fold front ≡ map fold key)

-- A comparator that can match substrings. The search takes the key's bytes from the front of the
-- value, or it leaves both pointers where they are.
pub record CharMatch : Type 0 where
  pub char_match : List ℕ → List ℕ → Bool × List ℕ × List ℕ
  pub fold : ℕ → ℕ
  pub hit_or_miss :
      (val key : List ℕ)
      → ((rest : List ℕ) × (char_match val key ≡ (true, rest, [])) × PrefixOf fold key val rest)
        ⊎ ((char_match val key ≡ (false, val, key))
            × ((rest : List ℕ) → ¬ PrefixOf fold key val rest))

module _ (fold : ℕ → ℕ) where
  abbrev same : ℕ → ℕ → Bool
  same v k = fold v == fold k

  skip_hit :
      (val key rest : List ℕ) → skip_same same val key ≡ (rest, []) → PrefixOf fold key val rest
  unfolding skip_same
  skip_hit [] [] rest e = ([], ground arith, refl)
  skip_hit [] (k ∷ key) rest e = ground arith
  skip_hit (v ∷ val) [] rest e = ([], ground arith, refl)
  skip_hit (v ∷ val) (k ∷ key) rest e = elim (Bool-cases (same v k)) [
    | inl h ↦
        let (front, p, q) = skip_hit val key rest (ground arith) in
        (v ∷ front, ground arith, ground (arith, p, q))
    | inr h ↦ ground arith
  ]

  skip_nothing : (rest : List ℕ) → skip_same same rest [] ≡ (rest, [])
  unfolding skip_same
  skip_nothing [] = refl
  skip_nothing (x ∷ rest) = refl

  skip_front :
      (front key rest : List ℕ)
      → map fold front ≡ map fold key
      → skip_same same (front ++ rest) key ≡ (rest, [])
  unfolding skip_same
  skip_front [] [] rest q = skip_nothing rest
  skip_front [] (k ∷ key) rest q = cc
  skip_front (v ∷ front) [] rest q = cc
  skip_front (v ∷ front) (k ∷ key) rest q =
      let heads : fold v ≡ fold k = cc in
      let tails : map fold front ≡ map fold key = cc in
      rw ((==_iff (fold v) (fold k)).1 heads) (skip_front front key rest tails)

  reset_hit_or_miss :
      (val key val' key' : List ℕ)
      → skip_same same val key ≡ (val', key')
      → ((rest : List ℕ) × (reset_or_keep val key (val', key') ≡ (true, rest, []))
          × PrefixOf fold key val rest)
        ⊎ ((reset_or_keep val key (val', key') ≡ (false, val, key))
            × ((rest : List ℕ) → ¬ PrefixOf fold key val rest))
  reset_hit_or_miss val key val' [] e = inl (val', refl, skip_hit val key val' e)
  reset_hit_or_miss val key val' (k ∷ key') e = inr (
    refl,
    λ rest (front, p, q).
        let found : skip_same same val key ≡ (rest, []) = rw p (skip_front front key rest q) in
        ground arith,
  )

pub octet_hit_or_miss :
    (val key : List ℕ)
    → ((rest : List ℕ) × (octet_char_match val key ≡ (true, rest, []))
        × PrefixOf (λ c. c) key val rest)
      ⊎ ((octet_char_match val key ≡ (false, val, key))
          × ((rest : List ℕ) → ¬ PrefixOf (λ c. c) key val rest))
unfolding octet_char_match
octet_hit_or_miss val key = reset_hit_or_miss (λ c. c) val key _ _ refl

abbrev pub octet_matcher : CharMatch
octet_matcher = record {
  char_match = octet_char_match;
  fold = λ c. c;
  hit_or_miss = octet_hit_or_miss;
}

module _ (C : Ctype) where
  open C use {to_lower}

  pub casemap_hit_or_miss :
      (val key : List ℕ)
      → ((rest : List ℕ) × (casemap_char_match C val key ≡ (true, rest, []))
          × PrefixOf to_lower key val rest)
        ⊎ ((casemap_char_match C val key ≡ (false, val, key))
            × ((rest : List ℕ) → ¬ PrefixOf to_lower key val rest))
  unfolding casemap_char_match
  casemap_hit_or_miss val key = reset_hit_or_miss to_lower val key _ _ refl

  abbrev pub casemap_matcher : CharMatch
  casemap_matcher = record {
    char_match = casemap_char_match C;
    fold = to_lower;
    hit_or_miss = casemap_hit_or_miss;
  }
