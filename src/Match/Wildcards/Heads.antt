-- ===== src/Match/Wildcards/Heads.antt =====
-- The head and the end of the loop of :matches (src/lib-sieve/mcht-matches.c), for keys without '?'.
use mathlib.Core.List.{map}
use pigeonhole.Prelude.{
  ℕ, ◌+◌, ◌-◌, ◌≤◌, ◌≡◌, ◌≢◌, refl, sym, ap, ◌∙◌, ◌↔◌, ◌⊎◌, inl, inr, Bool, true, false, none, List,
  [], ◌∷◌, ◌++◌, length, drop, ◌==◌, ◌||◌, Bool-cases, ==_iff, All, length-append, length-drop,
  drop-drop, drop-append, arith,
}
use pigeonhole.Comparator.CharMatch.{CharMatch}
use pigeonhole.Match.{matched, unmatched, is_empty}
use pigeonhole.Match.Wildcards.{
  Wildcard, no_wildcard, star, question, is_question, MatchValues, values_set_first, Section,
  scan_key_section, Scan, begin_section, eat_stars, end_match,
}
use pigeonhole.Match.Wildcards.Glob.{
  Token, lit, any, many, tokens, IsPlain, StopsAt, tokens_question, next_section-scan,
}

-- The state at the head of the loop: a scan starts at `kp`, behind the wildcard `next`.
abbrev pub fresh : ℕ → List ℕ → Wildcard → Scan → Scan
fresh vp kp next t = record t { vp = vp; kp = kp; wp = kp; next_wcard = next; backtrack = false }

abbrev pub scanned_to : ℕ → List ℕ → Wildcard → Section → Scan → Scan
scanned_to vp kp wcard sc t = record t {
  vp = vp;
  kp = kp;
  wp = sc.1;
  section = sc.0;
  wcard = wcard;
  next_wcard = sc.2;
  key_offset = 0;
  backtrack = false;
  captures = record t.captures { mvalue = [] };
}

-- The wildcard already passed still takes part in the match.
abbrev pub pending : Wildcard → List Token → List Token
pending star p = many ∷ p
pending no_wildcard p = p
pending question p = p

abbrev pub IsHead : Wildcard → List ℕ → Type 0
IsHead no_wildcard kp = Unit {0}
IsHead star kp = kp ≢ []
IsHead question kp = ⊥

pub IsPlain-ne-question :
    (s : List ℕ) (wp : List ℕ) (next : Wildcard)
    → All IsPlain (map lit s ++ tokens wp)
    → StopsAt next wp
    → (is_question next ≡ false) × All IsPlain (tokens wp)
IsPlain-ne-question (c ∷ s) wp next h e = IsPlain-ne-question s wp next h.1 e
IsPlain-ne-question [] wp no_wildcard h e = (refl, h)
IsPlain-ne-question [] wp star h e = (refl, h)
IsPlain-ne-question [] wp question h (rest, e) = absurd (
    let h' : All IsPlain (tokens (b'?' ∷ rest)) = rw e at h in
    let h'' : All IsPlain (any ∷ tokens rest) = rw (tokens_question rest) at h' in h''.0)

pub begin_section-scan :
    (vp : ℕ) (kp : List ℕ) (next : Wildcard) (t : Scan)
    → is_question (scan_key_section kp).2 ≡ false
    → begin_section (fresh vp kp next t) ≡ scanned_to vp kp next (scan_key_section kp) t
unfolding begin_section
begin_section-scan vp kp next t h = rw (next_section-scan next kp 0 h)

-- A rest of the value behind `vp` is what the pointer to it points to.
pub drop-rest :
    (val before rest : List ℕ) (vp : ℕ)
    → vp ≤ length val
    → drop vp val ≡ before ++ rest
    → (drop (length val - length rest) val ≡ rest) × (vp + length before ≡ length val - length rest)
drop-rest val before rest vp h e =
    let sizes : vp + length before ≡ length val - length rest =
      omega (arith, ap length e, length-append before rest, length-drop vp val) in
    (
      ap (λ (n : ℕ). drop n val) (sym sizes)
          ∙ sym (drop-drop vp (length before) val)
          ∙ ap (λ l. drop (length before) l) e
          ∙ drop-append before rest,
      sizes,
    )

-- The loop goes on while there is some of the key and of the value.
pub goes_on : (kp : List ℕ) (b : Bool) → is_empty kp || b ≡ false → b ≡ false
goes_on [] b e = cc
goes_on (x ∷ kp) b e = e

is_empty→nil : (l : List ℕ) → is_empty l ≡ true → l ≡ []
is_empty→nil [] e = refl
is_empty→nil (x ∷ l) e = cc

module _ (M : CharMatch) (exceeded : ℕ → Bool) (val : List ℕ) (G : Type 0) where
  open M use {char_match, fold, hit_or_miss}

  -- Behind the loop the answer is right.
  abbrev pub EndGood : Scan → Type 0
  EndGood s =
      ((values : MatchValues) × (end_match M exceeded val s ≡ (matched, values)) × G)
      ⊎ ((end_match M exceeded val s ≡ (unmatched, none)) × (¬ G))

  pub end_match-EndGood :
      (s : Scan)
      → is_question s.next_wcard ≡ false
      → (s.vp ≡ length val → (eat_stars s.kp ≡ []) ↔ G)
      → (s.vp ≢ length val → ¬ G)
      → EndGood s
  unfolding end_match
  end_match-EndGood s q at_end before_end = elim (Bool-cases (s.vp == length val)) [
    | inl e ↦ elim (Bool-cases (is_empty (eat_stars s.kp))) [
      | inl nil ↦ inl (
        values_set_first s.captures.values val,
        rw e (rw nil (rw q refl)),
        (at_end ((==_iff _ _).0 e)).0 (is_empty→nil _ nil),
      )
      | inr more ↦
          inr (rw e (rw more refl), λ g. cc (ap is_empty ((at_end ((==_iff _ _).0 e)).1 g), more))
    ]
    | inr e ↦ inr (ground arith, before_end (λ e'. cc ((==_iff s.vp (length val)).1 e', e)))
  ]
