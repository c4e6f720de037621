-- ===== src/Tests/Strings.antt =====
-- Comparators and match types at concrete strings (src/lib-sieve/cmp-*.c, mcht-*.c, sieve-match.c).
use Prim.Native.Nat.{Ordering}
use mathlib.Core.List.{map}
use pigeonhole.Prelude.{ℕ, ◌≡◌, refl, ◌⊎◌, false, some, List, [], ◌∷◌, arith}
use pigeonhole.Ctype.{ascii}
use pigeonhole.Comparator.{octet_compare, c_tolower, casemap_compare, numeric_compare}
use pigeonhole.Comparator.Octet.{lex, octet_compare-lex}
use pigeonhole.Comparator.CharMatch.{octet_matcher}
use pigeonhole.Comparator.Casemap.{casemap_compare-lex, casemap_compare_nul}
use pigeonhole.Comparator.Numeric.{number, compare_numbers, numeric_compare_lem}
use pigeonhole.Match.{
  MatchResult, matched, unmatched, is_match_key, contains_match_key, sieve_match,
}
use pigeonhole.Match.Contains.{Answers, contains_match_key-Answers}
use pigeonhole.Match.Keys.{Any, NeverFails, sieve_match-Decides}

abbrev bat : List ℕ
bat = b'b' ∷ b'a' ∷ b't' ∷ []

abbrev ba : List ℕ
ba = b'b' ∷ b'a' ∷ []

abbrev at : List ℕ
at = b'a' ∷ b't' ∷ []

octet_compare-lex_example : octet_compare bat ba ≡ lex bat ba
octet_compare-lex_example = octet_compare-lex bat ba

casemap_compare-lex_example :
    casemap_compare (b'B' ∷ []) ba ≡ lex (map c_tolower (b'B' ∷ [])) (map c_tolower ba)
casemap_compare-lex_example =
    casemap_compare-lex (b'B' ∷ []) ba ((omega arith), tt) ((omega arith), ((omega arith), tt))

casemap_compare_nul_example : casemap_compare (b'b' ∷ 0 ∷ 1 ∷ []) (b'b' ∷ 0 ∷ 2 ∷ []) ≡ Ordering.eq
casemap_compare_nul_example = casemap_compare_nul (b'b' ∷ []) (1 ∷ []) (2 ∷ []) refl

abbrev ten : List ℕ
ten = b'0' ∷ b'1' ∷ b'0' ∷ b'x' ∷ []

abbrev nine : List ℕ
nine = b'9' ∷ []

numeric_compare_example :
    numeric_compare ascii ten nine ≡ compare_numbers ascii (number ascii ten) (number ascii nine)
numeric_compare_example = numeric_compare_lem ascii ten nine

contains_example :
    Answers
      (λ left. false)
      (λ c. c)
      at
      bat
      (contains_match_key (some octet_matcher) (λ left. false) bat at)
contains_example = contains_match_key-Answers octet_matcher (λ left. false) bat at

is_octet : List ℕ → List ℕ → MatchResult
is_octet = is_match_key (some octet_compare)

is_octet-NeverFails : NeverFails is_octet
unfolding is_octet is_match_key
is_octet-NeverFails val key = ground arith

sieve_match_example :
    ((sieve_match is_octet
          (record { items = ba ∷ (at ∷ []); fails = false })
          (record { items = bat ∷ (at ∷ []); fails = false })
        ≡ matched)
      × Any (λ val. Any (λ key. is_octet val key ≡ matched) (bat ∷ (at ∷ []))) (ba ∷ (at ∷ [])))
    ⊎ ((sieve_match is_octet
            (record { items = ba ∷ (at ∷ []); fails = false })
            (record { items = bat ∷ (at ∷ []); fails = false })
          ≡ unmatched)
        × (¬ Any
            (λ val. Any (λ key. is_octet val key ≡ matched) (bat ∷ (at ∷ [])))
            (ba ∷ (at ∷ []))))
sieve_match_example =
    sieve_match-Decides is_octet is_octet-NeverFails (ba ∷ (at ∷ [])) (bat ∷ (at ∷ []))

abbrev gt_name : List ℕ
gt_name = b'g' ∷ b't' ∷ []
