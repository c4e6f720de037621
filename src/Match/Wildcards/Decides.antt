-- ===== src/Match/Wildcards/Decides.antt =====
-- The answers of :matches (mcht_matches_match_key, src/lib-sieve/mcht-matches.c) for keys without '?'.
use mathlib.Core.List.{map}
use mathlib.Core.Path.{subst}
use pigeonhole.Prelude.{
  ℕ, zero, suc, ◌+◌, ◌≤◌, ◌<◌, ◌≡◌, refl, sym, ap, ◌∙◌, ◌⊎◌, inl, inr, Bool, true, false, ◌||◌,
  Option, none, some, List, [], ◌∷◌, ◌++◌, length, drop, leb, if◌then◌else◌, Bool-cases, All,
  length-drop, arith,
}
use pigeonhole.Comparator.CharMatch.{CharMatch}
use pigeonhole.Match.{MatchResult, matched, unmatched, match_error, is_empty}
use pigeonhole.Match.Wildcards.{
  Wildcard, no_wildcard, star, question, is_question, is_none, MatchValues, tick, Section,
  scan_key_section, Scan, RoundEnd, again, leave, over_limit, ran_out, last_section, middle_section,
  match_round, end_match, matches_loop, initial_scan, matches_match_key,
}
use pigeonhole.Match.Wildcards.Glob.{
  lit, many, tokens, Fits, IsPlain, Scanned, tokens_star, tokens_nil, scan_key_section-Scanned,
  eat_stars→Fits, eat_stars→Fits_nil, Fits→eat_stars, many_nil,
}
use pigeonhole.Match.Wildcards.Search.{tick-exceeded}
use pigeonhole.Match.Wildcards.Heads.{
  goes_on, fresh, scanned_to, IsPlain-ne-question, begin_section-scan, EndGood, end_match-EndGood,
}
use pigeonhole.Match.Wildcards.Rounds.{Head, RoundGood}
use pigeonhole.Match.Wildcards.Sections.{
  nil_of_length, only_section, final_section, first_section, inner_section,
}

pub length-scan : (key : List ℕ) → length (scan_key_section key).1 ≤ length key
unfolding scan_key_section
length-scan [] = omega arith
length-scan (c ∷ []) = ground arith
length-scan (c ∷ d ∷ key) = ground (arith, length-scan key, length-scan (d ∷ key))

-- The right answer, or -1 if the CPU limit has said that it is exceeded.
abbrev pub Answers :
    (ℕ → Bool) → (ℕ → ℕ) → List ℕ → List ℕ → Option (MatchResult × MatchValues) → Type 0
Answers exceeded fold key val r =
    ((values : MatchValues) × (r ≡ some (matched, values)) × Fits fold (tokens key) val)
    ⊎ ((r ≡ some (unmatched, none)) × (¬ Fits fold (tokens key) val))
    ⊎ ((r ≡ some (match_error, none)) × ((k : ℕ) × (exceeded k ≡ true)))

module _ (M : CharMatch) (exceeded : ℕ → Bool) (val : List ℕ) (G : Type 0) where
  open M use {char_match, fold, hit_or_miss}

  -- The answer is right about `G`.
  abbrev LoopGood : Option (MatchResult × MatchValues) → Type 0
  LoopGood r =
      ((values : MatchValues) × (r ≡ some (matched, values)) × G)
      ⊎ ((r ≡ some (unmatched, none)) × (¬ G))
      ⊎ ((r ≡ some (match_error, none)) × ((k : ℕ) × (exceeded k ≡ true)))

  section-RoundGood :
      (vp : ℕ) (kp : List ℕ) (next : Wildcard) (t : Scan) (sc : Section)
      → vp < length val
      → Head M exceeded val G vp kp next
      → Scanned (tokens kp) sc
      → length sc.1 ≤ length kp
      → (is_question sc.2 ≡ false) × All IsPlain (tokens sc.1)
      → RoundGood M exceeded val G (length kp) (
          if is_none sc.2
          then leave (last_section M exceeded val (scanned_to vp kp next sc t))
          else middle_section M exceeded val (scanned_to vp kp next sc t))
  section-RoundGood vp kp next t (s, wp, question) lt head scan size q = cc
  section-RoundGood vp kp question t (s, wp, no_wildcard) lt head scan size q = absurd head.2
  section-RoundGood vp kp question t (s, wp, star) lt head scan size q = absurd head.2
  section-RoundGood vp kp no_wildcard t (s, wp, no_wildcard) lt head (e, nil) size q =
      let whole : tokens kp ≡ map lit s ++ [] = (rw nil at e) ∙ rw tokens_nil refl in
      only_section M exceeded val G vp kp s wp t lt (rw whole at head.3)
  section-RoundGood vp kp star t (s, wp, no_wildcard) lt head (e, nil) size q =
      let whole : tokens kp ≡ map lit s ++ [] = (rw nil at e) ∙ rw tokens_nil refl in
      final_section M exceeded val G vp kp s wp t lt (rw whole at head.3)
  section-RoundGood vp kp no_wildcard t (s, wp, star) lt head (e, (kp', stops)) size q =
      let front : tokens kp ≡ map lit s ++ (many ∷ tokens kp') =
        (rw stops at e) ∙ ap (λ l. map lit s ++ l) (tokens_star kp') in
      let plain : All IsPlain (many ∷ tokens kp') = rw (tokens_star kp') at (rw stops at q.1) in
      rw stops (
        first_section M exceeded val G vp kp s kp' t lt plain.1 (omega (arith, ap length stops))
          (rw front at head.3))
  section-RoundGood vp kp star t (s, wp, star) lt head (e, (kp', stops)) size q =
      let front : tokens kp ≡ map lit s ++ (many ∷ tokens kp') =
        (rw stops at e) ∙ ap (λ l. map lit s ++ l) (tokens_star kp') in
      let plain : All IsPlain (many ∷ tokens kp') = rw (tokens_star kp') at (rw stops at q.1) in
      rw stops (
        inner_section M exceeded val G vp kp s kp' t lt plain.1 (omega (arith, ap length stops))
          head.3 front)

  match_round-RoundGood :
      (vp : ℕ) (kp : List ℕ) (next : Wildcard) (t : Scan)
      → vp < length val
      → Head M exceeded val G vp kp next
      → RoundGood M exceeded val G (length kp) (match_round M exceeded val (fresh vp kp next t))
  unfolding match_round
  match_round-RoundGood vp kp next t lt head =
      let scan = scan_key_section-Scanned kp in
      let plain =
        IsPlain-ne-question (scan_key_section kp).0 (scan_key_section kp).1 (scan_key_section kp).2
          (rw scan.0 at head.1) scan.1 in
      elim (Bool-cases (tick exceeded t.clock).1) [
        | inl over ↦ rw (over, RoundGood) (tick-exceeded exceeded t.clock over)
        | inr fine ↦
            let t' = record t { clock = (tick exceeded t.clock).0 } in
            rw (fine, RoundGood)
              (subst
                (λ s. RoundGood M exceeded val G (length kp) (
                  if is_none s.next_wcard
                  then leave (last_section M exceeded val s)
                  else middle_section M exceeded val s))
                (sym (begin_section-scan vp kp next t' plain.0))
                (section-RoundGood vp kp next t' (scan_key_section kp) lt head scan (length-scan kp)
                  plain))
      ]

  -- At the end of the value or of the key the answer is right.
  Head-EndGood :
      (vp : ℕ) (kp : List ℕ) (next : Wildcard) (t : Scan)
      → (kp ≡ []) ⊎ (length val ≤ vp)
      → Head M exceeded val G vp kp next
      → EndGood M exceeded val G (fresh vp kp next t)
  Head-EndGood vp kp question t h head = absurd head.2
  Head-EndGood vp kp no_wildcard t h head =
      end_match-EndGood M exceeded val G (fresh vp kp no_wildcard t) refl
        (λ e. (
          λ eaten. head.3.1 (rw (nothing_left e) (eat_stars→Fits_nil fold kp eaten)),
          λ g. Fits→eat_stars fold kp (rw (nothing_left e) at (head.3.0 g)),
        ))
        (λ ne g. elim h [
          | inl nil ↦
              let whole : Fits fold (tokens []) (drop vp val) = rw nil at (head.3.0 g) in
              let none_left : drop vp val ≡ [] = rw tokens_nil at whole in
              ne (omega (arith, ap length none_left, length-drop vp val))
          | inr le ↦ ne (omega arith)
        ])
    where
      nothing_left : vp ≡ length val → drop vp val ≡ []
      nothing_left e = nil_of_length (drop vp val) (omega (arith, length-drop vp val))
  Head-EndGood vp kp star t h head =
      end_match-EndGood M exceeded val G (fresh vp kp star t) refl
        (λ e. (
          λ eaten. head.3.1 (eat_stars→Fits fold kp (drop vp val) eaten),
          λ g.
              Fits→eat_stars fold kp
                (many_nil fold (tokens kp) (rw (nothing_left e) at (head.3.0 g))),
        ))
        (λ ne g. elim h [ inl nil ↦ head.2 nil | inr le ↦ ne (omega arith) ])
    where
      nothing_left : vp ≡ length val → drop vp val ≡ []
      nothing_left e = nil_of_length (drop vp val) (omega (arith, length-drop vp val))

  ended-LoopGood :
      (s : Scan) → EndGood M exceeded val G s → LoopGood (some (end_match M exceeded val s))
  ended-LoopGood s (inl (values, e, g)) = inl (values, ap some e, g)
  ended-LoopGood s (inr (e, no_g)) = inr (inl (ap some e, no_g))

  -- The rounds that follow a round.
  abbrev next_rounds : ℕ → RoundEnd → Option (MatchResult × MatchValues)
  next_rounds rounds (again s) = matches_loop M exceeded val rounds s
  next_rounds rounds (leave s) = some (end_match M exceeded val s)
  next_rounds rounds over_limit = some (match_error, none)
  next_rounds rounds ran_out = none

  next_rounds-LoopGood :
      (rounds n : ℕ) (r : RoundEnd)
      → ((vp : ℕ) (kp : List ℕ) (next : Wildcard) (t : Scan)
          → length kp < rounds
          → Head M exceeded val G vp kp next
          → LoopGood (matches_loop M exceeded val rounds (fresh vp kp next t)))
      → n < suc rounds
      → RoundGood M exceeded val G n r
      → LoopGood (next_rounds rounds r)
  next_rounds-LoopGood rounds n (again s) loop lt (vp, kp, next, t, e, shorter, head) =
      rw (e, LoopGood) (loop vp kp next t (omega arith) head)
  next_rounds-LoopGood rounds n (leave s) loop lt good = ended-LoopGood s good
  next_rounds-LoopGood rounds n over_limit loop lt (k, e) = inr (inr (refl, (k, e)))
  next_rounds-LoopGood rounds n ran_out loop lt h = absurd h

  stops : (kp : List ℕ) (b : Bool) → is_empty kp || b ≡ true → (kp ≡ []) ⊎ (b ≡ true)
  stops [] b e = inl refl
  stops (x ∷ kp) b e = inr e

  matches_loop-LoopGood :
      (rounds vp : ℕ) (kp : List ℕ) (next : Wildcard) (t : Scan)
      → length kp < rounds
      → Head M exceeded val G vp kp next
      → LoopGood (matches_loop M exceeded val rounds (fresh vp kp next t))
  unfolding matches_loop
  matches_loop-LoopGood zero vp kp next t h head = absurd (omega arith)
  matches_loop-LoopGood (suc rounds) vp kp next t h head =
      elim (Bool-cases (is_empty kp || leb (length val) vp)) [
        | inl stop ↦
            rw (stop, LoopGood)
              (ended-LoopGood (fresh vp kp next t) (
                Head-EndGood vp kp next t
                  (elim (stops kp _ stop) [ inl nil ↦ inl nil | inr le ↦ inr (ground arith) ])
                  head))
        | inr more ↦
            let round =
              match_round-RoundGood vp kp next t
                (ground (arith, goes_on kp (leb (length val) vp) more)) head in
            rw (more, LoopGood)
              (next_rounds-LoopGood rounds (length kp) _ (matches_loop-LoopGood rounds) h round)
      ]

-- If the key has no '?' left unescaped, :matches ends, and answers 1 exactly if the value fits the
-- key, as the comparator compares bytes, and 0 exactly if it does not, unless the CPU limit was
-- exceeded.
pub matches_match_key-Answers :
    (M : CharMatch) (exceeded : ℕ → Bool) (enabled : Bool) (val key : List ℕ)
    → All IsPlain (tokens key)
    → Answers exceeded M.fold key val (matches_match_key (some M) exceeded enabled val key)
unfolding matches_match_key
matches_match_key-Answers M exceeded enabled val key plain =
    matches_loop-LoopGood M exceeded val (Fits M.fold (tokens key) val)
      (length key + length val + 1) 0 key no_wildcard (initial_scan enabled key) (omega arith)
      (omega arith, plain, tt, (λ h. h, λ h. h))
