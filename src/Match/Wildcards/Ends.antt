-- ===== src/Match/Wildcards/Ends.antt =====
-- The loop over '?'s of :matches ends (src/lib-sieve/mcht-matches.c), and what is left behind it:
-- less of the key, or as much of it and less of the value.
use pigeonhole.Prelude.{
  ℕ, zero, suc, ◌+◌, ◌-◌, ◌≤◌, ◌<◌, ◌≡◌, refl, ap, ◌⊎◌, inl, inr, Bool, true, false, ◌&&◌, Option,
  none, some, List, length, drop, ltb, ◌==◌, if◌then◌else◌, Bool-cases, length-append, length-drop,
  arith,
}
use pigeonhole.Comparator.CharMatch.{CharMatch}
use pigeonhole.Match.{is_empty}
use pigeonhole.Match.Wildcards.{
  Wildcard, no_wildcard, star, question, is_star, is_question, is_none, scan_key_section, Scan,
  Stored, RoundEnd, again, leave, over_limit, ran_out, scan_questions, start_backtrack, end_round,
  settle, pass_wildcard, values_add_chars, add_star_value,
}
use pigeonhole.Match.Wildcards.Glob.{StopsAt, scan_key_section-Scanned}
use pigeonhole.Match.Wildcards.Decides.{length-scan}

module _ (M : CharMatch) (exceeded : ℕ → Bool) (val : List ℕ) where
  open M use {char_match, fold, hit_or_miss}

  length-char_match : (v key : List ℕ) → length (char_match v key).1 ≤ length v
  length-char_match v key = elim (hit_or_miss v key) [
    | inl (rest, e, (front, f, g)) ↦ rw e (omega (arith, ap length f, length-append front rest))
    | inr (e, miss) ↦ rw e (omega arith)
  ]

  -- What is left of the value begins where it was or further on.
  pub offset_bounds :
      (vp : ℕ) (key : List ℕ)
      → vp ≤ length val
      → (vp ≤ length val - length (char_match (drop vp val) key).1)
        × (length val - length (char_match (drop vp val) key).1 ≤ length val)
  offset_bounds vp key h =
      (omega (arith, length-char_match (drop vp val) key, length-drop vp val), omega arith)

  abbrev Backed : Option Stored → Scan → Type 0
  Backed none s = ⊥
  Backed (some p) s =
      (s.backtrack ≡ true)
      × (s.vp ≡ p.prv + 1)
      × (s.kp ≡ p.prk)
      × (s.wp ≡ p.prw)
      × (s.next_wcard ≡ question)
      × (p.prv + 1 < length val)

  abbrev Onward : ℕ → ℕ → Scan → Type 0
  Onward vp n s =
      (s.backtrack ≡ false)
      × (vp ≤ s.vp)
      × (s.vp ≤ length val)
      × (length s.kp ≤ n)
      × (length s.wp ≤ length s.kp)

  abbrev Progress : ℕ → ℕ → Option Stored → Option Scan → Type 0
  Progress vp n stored none = ⊥
  Progress vp n stored (some s) = Onward vp n s ⊎ Backed stored s

  start_backtrack-Progress :
      (vp n : ℕ) (stored : Option Stored) (s : Scan)
      → Onward vp n s
      → Progress vp n stored (some (start_backtrack M exceeded val stored s))
  unfolding start_backtrack
  start_backtrack-Progress vp n none s h = inl h
  start_backtrack-Progress vp n (some p) s h = elim (Bool-cases (ltb (p.prv + 1) (length val))) [
    | inl e ↦ rw (e, Progress) (inr (refl, refl, refl, refl, refl, ground arith))
    | inr e ↦ rw (e, Progress) (inl h)
  ]

  question_left :
      (wp : List ℕ) (next : Wildcard) → StopsAt next wp → is_question next ≡ true → 0 < length wp
  question_left wp no_wildcard h e = cc
  question_left wp star h e = cc
  question_left wp question (rest, h) e = omega (arith, ap length h)

  length-drop_one : (l : List ℕ) → length (drop 1 l) ≡ length l - 1
  length-drop_one l = length-drop 1 l

  scan_questions-Progress :
      (rounds vp n : ℕ) (stored : Option Stored) (s : Scan)
      → 0 < rounds
      → (is_question s.next_wcard ≡ true → length s.wp + 1 < rounds)
      → Onward vp n s
      → Progress vp n stored (scan_questions M exceeded val rounds stored s)
  unfolding scan_questions
  scan_questions-Progress zero vp n stored s pos enough h = absurd (omega arith)
  scan_questions-Progress (suc rounds) vp n stored s pos enough (b, ge, le, kn, wk) =
      elim (Bool-cases (is_question s.next_wcard)) [
        | inr e ↦ rw (e, Progress) (inl (b, ge, le, kn, wk))
        | inl e ↦ elim (Bool-cases (s.vp == length val)) [
          | inl at_end ↦
              rw (e, Progress)
                (rw (at_end, Progress) (start_backtrack-Progress vp n stored s (b, ge, le, kn, wk)))
          | inr more ↦
              let lt : s.vp + 1 ≤ length val = ground arith in
              let (subsection, wp, next) = scan_key_section s.wp in
              let shorter = length-scan s.wp in
              let bounds = offset_bounds (s.vp + 1) subsection lt in
              let stop = (scan_key_section-Scanned s.wp).1 in
              elim (Bool-cases
                (is_empty subsection && is_none next && ltb (s.vp + 1) (length val))) [
                  | inl too_much ↦
                      rw (e, Progress)
                        (rw (more, Progress)
                          (rw (too_much, Progress)
                            (start_backtrack-Progress vp n stored _
                              (b, omega arith, lt, kn, omega arith))))
                  | inr fits ↦ elim (Bool-cases (char_match (drop (s.vp + 1) val) subsection).0) [
                    | inl hit ↦
                        rw (e, Progress)
                          (rw (more, Progress)
                            (rw (fits, Progress)
                              (rw (hit, Progress)
                                (scan_questions-Progress rounds vp n stored _
                                  (omega (arith, enough e))
                                  (λ q. omega (
                                    arith,
                                    enough e,
                                    question_left wp next stop q,
                                    length-drop_one wp,
                                  ))
                                  (
                                    b,
                                    omega arith,
                                    bounds.1,
                                    omega (arith, length-drop_one wp),
                                    omega arith,
                                  )))))
                    | inr miss ↦
                        rw (e, Progress)
                          (rw (more, Progress)
                            (rw (fits, Progress)
                              (rw (miss, Progress)
                                (start_backtrack-Progress vp n stored _
                                  (b, omega arith, bounds.1, kn, omega arith)))))
                  ]
                ]
        ]
      ]

  abbrev pub measure : Scan → ℕ
  measure s = length s.kp + (length val - s.vp)

  -- The state at the head of the loop.
  abbrev pub Ready : Scan → Type 0
  Ready s =
      (s.vp ≤ length val)
      × (length s.wp ≤ length s.kp)
      × (s.backtrack ≡ true → (s.next_wcard ≡ question) × (0 < length s.wp))

  abbrev pub Smaller : ℕ → RoundEnd → Type 0
  Smaller n (again s) = Ready s × (measure s < n)
  Smaller n (leave s) = Unit {0}
  Smaller n over_limit = Unit {0}
  Smaller n ran_out = ⊥

  pub Smaller-if :
      (n : ℕ) (c : Bool) (x y : RoundEnd)
      → (c ≡ true → Smaller n x)
      → (c ≡ false → Smaller n y)
      → Smaller n (if c then x else y)
  Smaller-if n true x y h k = h refl
  Smaller-if n false x y h k = k refl

  end_round-Smaller :
      (n : ℕ) (s : Scan) → Ready s → measure s < n → Smaller n (end_round M exceeded val s)
  unfolding end_round
  end_round-Smaller n s h lt = elim (Bool-cases (is_empty s.kp && is_star s.next_wcard)) [
    | inl e ↦ rw (e, Smaller) tt
    | inr e ↦ rw (e, Smaller) (h, lt)
  ]

  settle-Smaller :
      (n v k : ℕ) (stored : Option Stored) (s : Scan)
      → Onward v k s
      → k + (length val - v) < n
      → Smaller n (settle M exceeded val stored s)
  unfolding settle
  settle-Smaller n v k stored s (b, ge, le, kn, wk) lt =
      Smaller-if n s.backtrack (end_round M exceeded val s) _ (λ t. cc)
        (λ t.
          Smaller-if n (is_question s.next_wcard) (leave s) _ (λ t. tt)
            (λ t.
              Smaller-if n (is_star s.next_wcard) (end_round M exceeded val counted) (leave counted)
                (λ t. end_round-Smaller n counted (le, wk, λ t. cc) (omega arith)) (λ t. tt)))
    where
      counted : Scan
      counted = record s {
        captures = record s.captures {
          values =
              values_add_chars (add_star_value M exceeded val stored s.captures) s.captures.mchars;
        };
      }

  settle-Smaller_back :
      (n : ℕ) (p : Stored) (s : Scan)
      → Backed (some p) s
      → 0 < length p.prw
      → length p.prw ≤ length p.prk
      → length p.prk + (length val - p.prv) ≤ n
      → Smaller n (settle M exceeded val (some p) s)
  unfolding settle
  settle-Smaller_back n p s (b, vp, kp, wp, next, lt) pos le few =
      Smaller-if n s.backtrack (end_round M exceeded val s) _
        (λ t.
          end_round-Smaller n s
            (
              omega arith,
              omega (arith, ap length kp, ap length wp),
              λ t. (next, omega (arith, ap length wp)),
            )
            (omega (arith, ap length kp)))
        (λ t. cc)

  pub pass_wildcard-Smaller :
      (n v : ℕ) (stored : Option Stored) (s : Scan)
      → s.backtrack ≡ false
      → v ≤ s.vp
      → s.vp ≤ length val
      → 0 < length s.wp
      → length s.wp + (length val - v) ≤ n
      → ((p : Stored)
          → stored ≡ some p
          → (p.prw ≡ s.wp)
            × (length p.prw ≤ length p.prk)
            × (length p.prk + (length val - p.prv) ≤ n))
      → Smaller n (pass_wildcard M exceeded val stored s)
  unfolding pass_wildcard
  pass_wildcard-Smaller n v stored s b ge le pos few back =
      go stored refl (scan_questions M exceeded val (length s.wp + 1) stored s') refl (
        scan_questions-Progress (length s.wp + 1) v (length s.wp - 1) stored s' (omega arith)
          (λ q. omega (arith, length-drop_one s.wp))
          (b, ge, le, omega (arith, length-drop_one s.wp), omega arith))
    where
      s' : Scan
      s' = record s { wp = drop 1 s.wp; kp = drop 1 s.wp }

      go :
          (stored' : Option Stored)
          → stored ≡ stored'
          → (o : Option Scan) → scan_questions M exceeded val (length s.wp + 1) stored s' ≡ o
          → Progress v (length s.wp - 1) stored' o
          → Smaller n (pass_wildcard M exceeded val stored s)
      go stored' e none f h = absurd h
      go stored' e (some t) f (inl h) =
          rw (f, pass_wildcard, Smaller)
            (settle-Smaller n v (length s.wp - 1) stored t h (omega arith))
      go none e (some t) f (inr h) = absurd h
      go (some p) e (some t) f (inr h) =
          let (w, short, few') = back p e in
          rw (f, pass_wildcard, Smaller)
            (rw e (settle-Smaller_back n p t h (omega (arith, ap length w)) short few'))
