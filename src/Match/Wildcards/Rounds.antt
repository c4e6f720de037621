-- ===== src/Match/Wildcards/Rounds.antt =====
-- One round of the loop of :matches (src/lib-sieve/mcht-matches.c), for keys without '?'.
use pigeonhole.Prelude.{
  ℕ, zero, suc, ◌+◌, ◌≤◌, ◌<◌, ◌≡◌, refl, sym, ◌↔◌, Bool, true, false, Option, some, List, [], ◌∷◌,
  length, drop, append-nil, All, arith,
}
use pigeonhole.Comparator.CharMatch.{CharMatch}
use pigeonhole.Match.Wildcards.{
  Wildcard, star, is_question, values_add_chars, Scan, Stored, RoundEnd, again, leave, over_limit,
  ran_out, eat_stars, scan_questions, end_round, settle, pass_wildcard, add_star_value,
}
use pigeonhole.Match.Wildcards.Glob.{many, tokens, Fits, IsPlain, tokens_nil}
use pigeonhole.Match.Wildcards.Heads.{fresh, pending, IsHead, EndGood, end_match-EndGood}

module _ (M : CharMatch) (exceeded : ℕ → Bool) (val : List ℕ) (G : Type 0) where
  open M use {char_match, fold, hit_or_miss}

  -- What holds at the head of the loop: what is left of the key decides about what is left of the
  -- value.
  abbrev pub Head : ℕ → List ℕ → Wildcard → Type 0
  Head vp kp next =
      (vp ≤ length val)
      × All IsPlain (tokens kp)
      × IsHead next kp
      × (G ↔ Fits fold (pending next (tokens kp)) (drop vp val))

  -- A round leads to a head with less of the key, or to the right answer.
  abbrev pub RoundGood : ℕ → RoundEnd → Type 0
  RoundGood n (again s) =
      (vp : ℕ) × (kp : List ℕ) × (next : Wildcard) × (t : Scan) × (s ≡ fresh vp kp next t)
      × (length kp < n)
      × Head vp kp next
  RoundGood n (leave s) = EndGood M exceeded val G s
  RoundGood n over_limit = (k : ℕ) × (exceeded k ≡ true)
  RoundGood n ran_out = ⊥

  pub finished-EndGood :
      (s : Scan)
      → is_question s.next_wcard ≡ false
      → s.kp ≡ []
      → s.vp ≡ length val
      → G
      → EndGood M exceeded val G s
  unfolding eat_stars
  finished-EndGood s q nil at_end g =
      end_match-EndGood M exceeded val G s q (λ e. (λ nil'. g, λ g'. rw nil refl))
        (λ ne. absurd (ne at_end))

  pub stuck-EndGood :
      (s : Scan)
      → is_question s.next_wcard ≡ false
      → s.vp < length val
      → ¬ G
      → EndGood M exceeded val G s
  stuck-EndGood s q lt no_g =
      end_match-EndGood M exceeded val G s q (λ e. absurd (omega arith)) (λ ne. no_g)

  -- The scan has stopped at a '*' behind a needle that has been matched up to `vp`.
  abbrev pub at_star : ℕ → List ℕ → Scan → Scan
  at_star vp kp t = record t { vp = vp; wp = b'*' ∷ kp; next_wcard = star; backtrack = false }

  scan_questions-star :
      (rounds : ℕ) (stored : Option Stored) (s : Scan)
      → 0 < rounds
      → is_question s.next_wcard ≡ false
      → scan_questions M exceeded val rounds stored s ≡ some s
  unfolding scan_questions
  scan_questions-star zero stored s h q = absurd (omega arith)
  scan_questions-star (suc rounds) stored s h q = rw q

  end_round-RoundGood :
      (n vp : ℕ) (kp : List ℕ) (t : Scan)
      → vp ≤ length val
      → All IsPlain (tokens kp)
      → length kp < n
      → G ↔ Fits fold (many ∷ tokens kp) (drop vp val)
      → RoundGood n (end_round M exceeded val (fresh vp kp star t))
  unfolding end_round
  end_round-RoundGood n vp [] t h plain lt same =
      finished-EndGood _ refl refl refl
        (same.1 (drop vp val, [], sym (append-nil _), rw tokens_nil refl))
  end_round-RoundGood n vp (c ∷ kp) t h plain lt same =
      (vp, c ∷ kp, star, t, refl, lt, (h, plain, (λ e. cc), same))

  pass_wildcard-settle :
      (vp : ℕ) (kp : List ℕ) (stored : Option Stored) (t : Scan)
      → pass_wildcard M exceeded val stored (at_star vp kp t)
        ≡ settle M exceeded val stored (fresh vp kp star t)
  unfolding pass_wildcard
  pass_wildcard-settle vp kp stored t = rw (
    scan_questions-star (length (b'*' ∷ kp) + 1) stored (fresh vp kp star t) (omega arith) refl,
    pass_wildcard,
  )

  pub pass_wildcard-RoundGood :
      (n vp : ℕ) (kp : List ℕ) (stored : Option Stored) (t : Scan)
      → vp ≤ length val
      → All IsPlain (tokens kp)
      → length kp < n
      → G ↔ Fits fold (many ∷ tokens kp) (drop vp val)
      → RoundGood n (pass_wildcard M exceeded val stored (at_star vp kp t))
  unfolding settle
  pass_wildcard-RoundGood n vp kp stored t h plain lt same =
      rw (pass_wildcard-settle vp kp stored t, RoundGood)
        (end_round-RoundGood n vp kp
          (record t {
            captures = record t.captures {
              values =
                  values_add_chars (add_star_value M exceeded val stored t.captures)
                    t.captures.mchars;
            };
          })
          h plain lt same)
