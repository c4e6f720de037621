-- ===== src/Match/Contains.antt =====
-- :contains finds the key anywhere in the value, and nothing else.
use pigeonhole.Prelude.{
  ℕ, zero, suc, ◌+◌, ◌<◌, ◌≡◌, refl, ◌⊎◌, inl, inr, ap, Bool, true, false, Option, some, List, [],
  ◌∷◌, ◌++◌, length, leb, ◌&&◌, if◌then◌else◌, Bool-cases, arith,
}
use mathlib.Core.List.{map}
use pigeonhole.Comparator.CharMatch.{CharMatch, PrefixOf}
use pigeonhole.Match.{
  MatchResult, matched, unmatched, match_error, contains_loop, check_interval, contains_match_key,
}

-- Somewhere in `val` stands a string with the key's bytes up to `fold`.
abbrev pub InfixOf : (ℕ → ℕ) → List ℕ → List ℕ → Type 0
InfixOf fold key val =
    (before : List ℕ) × (from : List ℕ) × (rest : List ℕ) × (val ≡ before ++ from)
    × PrefixOf fold key from rest

-- The right answer, or -1 if the CPU limit has said that it is exceeded.
abbrev pub Answers : (ℕ → Bool) → (ℕ → ℕ) → List ℕ → List ℕ → Option MatchResult → Type 0
Answers exceeded fold key val r =
    ((r ≡ some matched) × InfixOf fold key val)
    ⊎ ((r ≡ some unmatched) × (¬ InfixOf fold key val))
    ⊎ ((r ≡ some match_error) × ((left : ℕ) × (exceeded left ≡ true)))

no-InfixOf_nil : (fold : ℕ → ℕ) (k : ℕ) (key : List ℕ) → ¬ InfixOf fold (k ∷ key) []
no-InfixOf_nil fold k key (before, from, rest, p, (front, q, r)) = go before from front p q r
  where
    go :
        (before from front : List ℕ)
        → [] ≡ before ++ from
        → from ≡ front ++ rest
        → map fold front ≡ map fold (k ∷ key)
        → ⊥
    go (x ∷ before) from front p q r = cc
    go [] from [] p q r = cc
    go [] from (y ∷ front) p q r = cc

infix_step :
    (fold : ℕ → ℕ) (v : ℕ) (val key : List ℕ)
    → ((rest : List ℕ) → ¬ PrefixOf fold key (v ∷ val) rest)
    → InfixOf fold key (v ∷ val)
    → InfixOf fold key val
infix_step fold v val key no_prefix ([], from, rest, p, q) = absurd (no_prefix rest (rw p q))
infix_step fold v val key no_prefix (x ∷ before, from, rest, p, q) = (before, from, rest, cc, q)

infix_weaken :
    (fold : ℕ → ℕ) (v : ℕ) (val key : List ℕ) → InfixOf fold key val → InfixOf fold key (v ∷ val)
infix_weaken fold v val key (before, from, rest, p, q) =
    (v ∷ before, from, rest, ap (λ l. v ∷ l) p, q)

module _ (M : CharMatch) (exceeded : ℕ → Bool) where
  open M use {char_match, fold, hit_or_miss}

  checked :
      (check : Bool) (left : ℕ) (key val : List ℕ) (r : Option MatchResult)
      → Answers exceeded fold key val r
      → Answers exceeded fold key val (if check && exceeded left then some match_error else r)
  checked false left key val r h = h
  checked true left key val r h = elim (Bool-cases (exceeded left)) [
    | inl e ↦ rw e (inr (inr (refl, (left, e))))
    | inr e ↦ rw e h
  ]

  key_used_up :
      (rounds : ℕ) (vp : List ℕ) (counter : ℕ)
      → 0 < rounds
      → contains_loop M exceeded rounds vp [] counter ≡ some matched
  unfolding contains_loop
  key_used_up zero vp counter h = absurd (omega arith)
  key_used_up (suc rounds) [] counter h = refl
  key_used_up (suc rounds) (v ∷ vp) counter h = refl

  later :
      (v k : ℕ) (vp kp : List ℕ) (r : Option MatchResult)
      → ((rest : List ℕ) → ¬ PrefixOf fold (k ∷ kp) (v ∷ vp) rest)
      → Answers exceeded fold (k ∷ kp) vp r
      → Answers exceeded fold (k ∷ kp) (v ∷ vp) r
  later v k vp kp r missing (inl (e, found)) = inl (e, infix_weaken fold v vp (k ∷ kp) found)
  later v k vp kp r missing (inr (inl (e, no_infix))) =
      inr (inl (e, λ found. no_infix (infix_step fold v vp (k ∷ kp) missing found)))
  later v k vp kp r missing (inr (inr stopped)) = inr (inr stopped)

  loop-Answers :
      (rounds : ℕ) (vp kp : List ℕ) (counter : ℕ)
      → length vp + 1 < rounds
      → Answers exceeded fold kp vp (contains_loop M exceeded rounds vp kp counter)
  unfolding contains_loop
  loop-Answers zero vp kp counter h = absurd (omega arith)
  loop-Answers (suc rounds) [] [] counter h = inl (refl, ([], [], [], refl, ([], refl, refl)))
  loop-Answers (suc rounds) [] (k ∷ kp) counter h = inr (inl (refl, no-InfixOf_nil fold k kp))
  loop-Answers (suc rounds) (v ∷ vp) [] counter h =
      inl (refl, ([], v ∷ vp, v ∷ vp, refl, ([], refl, refl)))
  loop-Answers (suc rounds) (v ∷ vp) (k ∷ kp) counter h = elim (hit_or_miss (v ∷ vp) (k ∷ kp)) [
    | inl (rest, e, found) ↦
        rw (e, contains_loop)
          (checked (leb check_interval (counter + 1)) (length rest) (k ∷ kp) (v ∷ vp) _
            (inl (key_used_up rounds rest _ (omega arith), ([], v ∷ vp, rest, refl, found))))
    | inr (e, missing) ↦
        rw (e, contains_loop)
          (checked (leb check_interval (counter + 1)) (length vp) (k ∷ kp) (v ∷ vp) _
            (later v k vp kp _ missing (loop-Answers rounds vp (k ∷ kp) _ (omega arith))))
  ]

  -- The search ends. It answers 1 exactly if the key occurs in the value, as the comparator
  -- compares bytes, and 0 exactly if it does not, unless the CPU limit was exceeded.
  pub contains_match_key-Answers :
      (val key : List ℕ)
      → Answers exceeded fold key val (contains_match_key (some M) exceeded val key)
  unfolding contains_match_key
  contains_match_key-Answers [] [] = inl (refl, ([], [], [], refl, ([], refl, refl)))
  contains_match_key-Answers [] (k ∷ key) = inr (inl (refl, no-InfixOf_nil fold k key))
  contains_match_key-Answers (v ∷ val) key =
      loop-Answers (suc (suc (suc (length val)))) (v ∷ val) key 0 (omega arith)
