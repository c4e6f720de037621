-- ===== src/Match/Wildcards/Search.antt =====
-- The search of :matches for a section between two '*' takes the first place where it stands, and
-- nothing is lost by that.
use mathlib.Core.List.{map}
use pigeonhole.Prelude.{
  ℕ, zero, suc, ◌+◌, ◌≤◌, ◌<◌, ◌≡◌, refl, sym, ap, ◌∙◌, ◌↔◌, inl, inr, Bool, true, List, [], ◌∷◌,
  ◌++◌, length, leb, if◌then◌else◌, append_assoc, Bool-cases, length-append, arith,
}
use pigeonhole.Comparator.CharMatch.{CharMatch, PrefixOf}
use pigeonhole.Match.{check_interval}
use pigeonhole.Match.Wildcards.{
  Clock, tick, Find, found, missing, find_exceeded, find_ran_out, string_find,
}
use pigeonhole.Match.Wildcards.Glob.{
  Token, lit, many, Fits, Fits-lits, lits-Fits, many_step, many_take,
}

-- Two ways to cut one list: what is left behind the later cut is left behind the earlier one too.
pub later_cut :
    (a b c d : List ℕ) → a ++ b ≡ c ++ d → length c ≤ length a → (u : List ℕ) × (d ≡ u ++ b)
later_cut a b [] d e h = (a, sym e)
later_cut [] b (y ∷ c) d e h = absurd (omega arith)
later_cut (x ∷ a) b (y ∷ c) d e h = later_cut a b c d (cc) (omega arith)

pub length-PrefixOf :
    (fold : ℕ → ℕ) (front key : List ℕ) → map fold front ≡ map fold key → length front ≡ length key
length-PrefixOf fold [] [] e = refl
length-PrefixOf fold [] (k ∷ key) e = cc
length-PrefixOf fold (x ∷ front) [] e = cc
length-PrefixOf fold (x ∷ front) (k ∷ key) e =
    let tails : map fold front ≡ map fold key = cc in
    ap (λ (n : ℕ). suc n) (length-PrefixOf fold front key tails)

-- When the limit stops a search, it has said so.
pub tick-exceeded :
    (exceeded : ℕ → Bool) (k : Clock) → (tick exceeded k).1 ≡ true → (n : ℕ) × (exceeded n ≡ true)
unfolding tick
tick-exceeded exceeded k e = elim (Bool-cases (leb check_interval (k.counter + 1))) [
  | inl h ↦ (k.polls, (rw h at e))
  | inr h ↦ absurd (let e' = rw h at e in cc)
]

module _ (M : CharMatch) (exceeded : ℕ → Bool) where
  open M use {char_match, fold, hit_or_miss}

  -- What is left behind the section is as good as the whole value before it, up to the next '*'.
  abbrev pub FoundGood : List ℕ → List ℕ → Find → Type 0
  FoundGood vp s (found rest k) =
      ((before : List ℕ) × (vp ≡ before ++ rest))
      × ((p : List Token)
          → Fits fold (many ∷ map lit s ++ (many ∷ p)) vp ↔ Fits fold (many ∷ p) rest)
  FoundGood vp s (missing rest k) =
      (rest ≡ []) × ((p : List Token) → ¬ Fits fold (many ∷ map lit s ++ p) vp)
  FoundGood vp s find_exceeded = (n : ℕ) × (exceeded n ≡ true)
  FoundGood vp s find_ran_out = ⊥

  at_once :
      (vp s rest : List ℕ) (p : List Token)
      → PrefixOf fold s vp rest
      → Fits fold (many ∷ map lit s ++ (many ∷ p)) vp ↔ Fits fold (many ∷ p) rest
  at_once vp s rest p (front, e, f) = (forth, back)
    where
      back : Fits fold (many ∷ p) rest → Fits fold (many ∷ map lit s ++ (many ∷ p)) vp
      back h = ([], vp, refl, lits-Fits fold s (many ∷ p) vp rest (front, e, f) h)

      forth : Fits fold (many ∷ map lit s ++ (many ∷ p)) vp → Fits fold (many ∷ p) rest
      forth (w, vp', e', h) =
          let (rest', (front', g, k), h') = Fits-lits fold s (many ∷ p) vp' h in
          let same : (w ++ front') ++ rest' ≡ front ++ rest =
            append_assoc w front' rest' ∙ ap (λ l. w ++ l) (sym g) ∙ sym e' ∙ e in
          let (u, d) = later_cut (w ++ front') rest' front rest same (
            omega (
              arith,
              length-append w front',
              length-PrefixOf fold front s f,
              length-PrefixOf fold front' s k,
            )) in
          rw d (many_take fold p u rest' h')

  further :
      (v : ℕ) (vp s : List ℕ) (r : Find)
      → ((rest : List ℕ) → ¬ PrefixOf fold s (v ∷ vp) rest)
      → FoundGood vp s r
      → FoundGood (v ∷ vp) s r
  further v vp s (found rest k) miss ((before, e), same) = (
    (v ∷ before, ap (λ l. v ∷ l) e),
    λ p. (
      λ h. elim (many_step fold _ v vp h) [
        | inl now ↦
            let (rest', prefix, h') = Fits-lits fold s (many ∷ p) (v ∷ vp) now in
            absurd (miss rest' prefix)
        | inr later ↦ (same p).0 later
      ],
      λ h. many_take fold _ (v ∷ []) vp ((same p).1 h),
    ),
  )
  further v vp s (missing rest k) miss (e, none) = (
    e,
    λ p h. elim (many_step fold _ v vp h) [
      | inl now ↦ let (rest', prefix, h') = Fits-lits fold s p (v ∷ vp) now in miss rest' prefix
      | inr later ↦ none p later
    ],
  )
  further v vp s find_exceeded miss h = h
  further v vp s find_ran_out miss h = h

  checked :
      (vp s : List ℕ) (k : Clock) (r : Find)
      → FoundGood vp s r
      → FoundGood vp s (if (tick exceeded k).1 then find_exceeded else r)
  checked vp s k r h = elim (Bool-cases (tick exceeded k).1) [
    | inl over ↦ rw over (tick-exceeded exceeded k over)
    | inr fine ↦ rw fine h
  ]

  section_used_up :
      (rounds : ℕ) (vp : List ℕ) (k : Clock)
      → 0 < rounds
      → string_find M exceeded rounds vp [] k ≡ found vp k
  unfolding string_find
  section_used_up zero vp k h = absurd (omega arith)
  section_used_up (suc rounds) vp k h = refl

  no_place : (c : ℕ) (s : List ℕ) (p : List Token) → ¬ Fits fold (many ∷ lit c ∷ map lit s ++ p) []
  no_place c s p ([], rest, e, (x, rest', f, g, h)) = cc
  no_place c s p (y ∷ w, rest, e, h) = cc

  pub string_find-FoundGood :
      (rounds : ℕ) (vp s : List ℕ) (k : Clock)
      → length vp + 1 < rounds
      → FoundGood vp s (string_find M exceeded rounds vp s k)
  unfolding string_find
  string_find-FoundGood zero vp s k h = absurd (omega arith)
  string_find-FoundGood (suc rounds) vp [] k h =
      (([], refl), λ p. at_once vp [] vp p ([], refl, refl))
  string_find-FoundGood (suc rounds) [] (c ∷ s) k h = (refl, no_place c s)
  string_find-FoundGood (suc rounds) (v ∷ vp) (c ∷ s) k h = elim (hit_or_miss (v ∷ vp) (c ∷ s)) [
    | inl (rest, e, (front, f, g)) ↦
        rw (e, string_find)
          (checked (v ∷ vp) (c ∷ s) k _ (
            rw (section_used_up rounds rest (tick exceeded k).0 (omega arith))
              ((front, f), λ p. at_once (v ∷ vp) (c ∷ s) rest p (front, f, g))))
    | inr (e, miss) ↦
        rw (e, string_find)
          (checked (v ∷ vp) (c ∷ s) k _ (
            further v vp (c ∷ s) _ miss
              (string_find-FoundGood rounds vp (c ∷ s) (tick exceeded k).0 (omega arith))))
  ]
