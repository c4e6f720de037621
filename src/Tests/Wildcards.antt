-- ===== src/Tests/Wildcards.antt =====
-- The match type :matches at concrete strings (src/lib-sieve/mcht-matches.c).
use pigeonhole.Prelude.{ℕ, ◌≡◌, ◌≢◌, refl, false, true, none, some, List, [], ◌∷◌}
use pigeonhole.Comparator.{octet_char_match}
use pigeonhole.Comparator.CharMatch.{octet_matcher}
use pigeonhole.Match.{matched, unmatched}
use pigeonhole.Match.Wildcards.{matches_match_key}
use pigeonhole.Match.Wildcards.Glob.{tokens}
use pigeonhole.Match.Wildcards.Total.{matches_match_key-ne-none}
use pigeonhole.Match.Wildcards.Decides.{Answers, matches_match_key-Answers}

abbrev banana : List ℕ
banana = b'b' ∷ b'a' ∷ b'n' ∷ b'a' ∷ b'n' ∷ b'a' ∷ []

abbrev stars : List ℕ
stars = b'*' ∷ b'n' ∷ b'*' ∷ b'a' ∷ []

-- The first '*' takes as little as it can.
stars_run :
    matches_match_key (some octet_matcher) (λ n. false) true banana stars
    ≡ some (matched, some (banana ∷ (b'b' ∷ b'a' ∷ []) ∷ (b'a' ∷ b'n' ∷ []) ∷ []))
unfolding matches_match_key octet_char_match
stars_run = refl

-- "a?b*" and "aXc": nothing compares the 'b', and there is one match value too many.
question_run :
    matches_match_key
      (some octet_matcher)
      (λ n. false)
      true
      (b'a' ∷ b'X' ∷ b'c' ∷ [])
      (b'a' ∷ b'?' ∷ b'b' ∷ b'*' ∷ [])
    ≡ some (matched, some ((b'a' ∷ b'X' ∷ b'c' ∷ []) ∷ (b'X' ∷ []) ∷ [] ∷ (b'c' ∷ []) ∷ []))
unfolding matches_match_key octet_char_match
question_run = refl

-- "*?a?b" and "xaaYb": going back skips the byte for the first '?' once more.
backtrack_run :
    matches_match_key
      (some octet_matcher)
      (λ n. false)
      true
      (b'x' ∷ b'a' ∷ b'a' ∷ b'Y' ∷ b'b' ∷ [])
      (b'*' ∷ b'?' ∷ b'a' ∷ b'?' ∷ b'b' ∷ [])
    ≡ some (unmatched, none)
unfolding matches_match_key octet_char_match
backtrack_run = refl

matches_match_key-Answers_example :
    Answers
      (λ n. false)
      (λ c. c)
      stars
      banana
      (matches_match_key (some octet_matcher) (λ n. false) true banana stars)
unfolding tokens
matches_match_key-Answers_example =
    matches_match_key-Answers octet_matcher (λ n. false) true banana stars
      (tt, (tt, (tt, (tt, tt))))

-- A key that goes back over and over.
matches_match_key-ne-none_example :
    matches_match_key (some octet_matcher) (λ n. false) true banana (b'*' ∷ b'a' ∷ b'?' ∷ b'x' ∷ [])
    ≢ none
matches_match_key-ne-none_example =
    matches_match_key-ne-none (some octet_matcher) (λ n. false) true banana
      (b'*' ∷ b'a' ∷ b'?' ∷ b'x' ∷ [])
