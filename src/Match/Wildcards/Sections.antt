-- ===== src/Match/Wildcards/Sections.antt =====
-- The four ways to match a section of a key of :matches (src/lib-sieve/mcht-matches.c) without '?'.
use mathlib.Core.List.{map}
use pigeonhole.Prelude.{
  ℕ, ◌+◌, ◌-◌, ◌<◌, ◌≡◌, refl, sym, ap, ◌∙◌, ◌↔◌, inl, inr, Bool, true, false, none, List, [], ◌∷◌,
  ◌++◌, length, take, drop, leb, ltb, ◌==◌, Bool-cases, All, length-append, length-drop, drop-drop,
  drop-append, append-take-drop, arith,
}
use pigeonhole.Comparator.CharMatch.{CharMatch, PrefixOf}
use pigeonhole.Match.Wildcards.{
  no_wildcard, star, Scan, last_section, middle_section, Find, found, missing, find_exceeded,
  find_ran_out, string_find,
}
use pigeonhole.Match.Wildcards.Glob.{
  lit, many, tokens, Fits, IsPlain, Fits-lits, lits-Fits, eat_stars→Fits,
}
use pigeonhole.Match.Wildcards.Search.{length-PrefixOf, FoundGood, string_find-FoundGood}
use pigeonhole.Match.Wildcards.Heads.{scanned_to, drop-rest, EndGood, end_match-EndGood}
use pigeonhole.Match.Wildcards.Rounds.{
  RoundGood, finished-EndGood, stuck-EndGood, pass_wildcard-RoundGood,
}

length-prefix :
    (fold : ℕ → ℕ) (s val rest : List ℕ)
    → PrefixOf fold s val rest
    → length val ≡ length s + length rest
length-prefix fold s val rest (front, e, f) =
    omega (arith, ap length e, length-append front rest, length-PrefixOf fold front s f)

same_rest :
    (fold : ℕ → ℕ) (s val rest rest' : List ℕ)
    → PrefixOf fold s val rest
    → PrefixOf fold s val rest'
    → rest ≡ rest'
same_rest fold s val rest rest' (front, e, f) (front', e', f') =
    let sizes : length front ≡ length front' =
      length-PrefixOf fold front s f ∙ sym (length-PrefixOf fold front' s f') in
    sym (drop-append front rest)
    ∙ ap (λ (n : ℕ). drop n (front ++ rest)) sizes
    ∙ ap (λ l. drop (length front') l) (sym e ∙ e')
    ∙ drop-append front' rest'

pub nil_of_length : (l : List ℕ) → length l ≡ 0 → l ≡ []
nil_of_length [] e = refl
nil_of_length (x ∷ l) e = absurd (omega arith)

lits-PrefixOf :
    (fold : ℕ → ℕ) (s val : List ℕ) → Fits fold (map lit s ++ []) val → PrefixOf fold s val []
lits-PrefixOf fold s val h = let (rest, prefix, e) = Fits-lits fold s [] val h in rw e at prefix

module _ (M : CharMatch) (exceeded : ℕ → Bool) (val : List ℕ) (G : Type 0) where
  open M use {char_match, fold, hit_or_miss}

  -- The whole key is one section.
  pub only_section :
      (vp : ℕ) (kp s wp : List ℕ) (t : Scan)
      → vp < length val
      → G ↔ Fits fold (map lit s ++ []) (drop vp val)
      → EndGood M exceeded val G
          (last_section M exceeded val (scanned_to vp kp no_wildcard (s, wp, no_wildcard) t))
  unfolding last_section
  only_section vp kp s wp t lt same = elim (Bool-cases (length val - vp == length s)) [
    | inr ne ↦ rw ne (
        stuck-EndGood M exceeded val G _ refl lt (λ g.
          let whole = length-prefix fold s (drop vp val) [] (lits-PrefixOf fold s _ (same.0 g)) in
          ground (arith, length-drop vp val, whole)))
    | inl eq ↦ elim (hit_or_miss (drop vp val) s) [
      | inl (rest, e, prefix) ↦
          let nil : rest ≡ [] =
            nil_of_length rest (
              ground (arith, length-drop vp val, length-prefix fold s (drop vp val) rest prefix)) in
          let prefix' : PrefixOf fold s (drop vp val) [] = rw nil at prefix in
          rw eq (
            rw e (
              finished-EndGood M exceeded val G _ refl refl refl
                (same.1 (lits-Fits fold s [] (drop vp val) [] prefix' refl))))
      | inr (e, miss) ↦ rw eq (
          rw e (
            stuck-EndGood M exceeded val G _ refl (omega (arith, length-drop vp val))
              (λ g. miss [] (lits-PrefixOf fold s _ (same.0 g)))))
    ]
  ]

  -- The last section, behind a '*', stands at the end of the value.
  pub final_section :
      (vp : ℕ) (kp s wp : List ℕ) (t : Scan)
      → vp < length val
      → G ↔ Fits fold (many ∷ map lit s ++ []) (drop vp val)
      → EndGood M exceeded val G
          (last_section M exceeded val (scanned_to vp kp star (s, wp, no_wildcard) t))
  unfolding last_section
  final_section vp kp s wp t lt same = elim (Bool-cases (ltb (length val) (vp + length s + 0))) [
    | inl short ↦
        rw short (stuck-EndGood M exceeded val G _ refl lt (λ g. too_short (same.0 g) short))
    | inr fine ↦ elim (hit_or_miss (drop (length val - length s) val) s) [
      | inl (rest, e, prefix) ↦ rw fine (
          rw e
            (finished-EndGood M exceeded val G _ refl refl refl (same.1 (at_end rest prefix fine))))
      | inr (e, miss) ↦ rw fine (rw e (missed s fine miss (λ g. not_at_end (same.0 g) miss)))
    ]
  ]
    where
      too_short :
          Fits fold (many ∷ map lit s ++ []) (drop vp val)
          → ltb (length val) (vp + length s + 0) ≡ true
          → ⊥
      too_short (w, rest, e, h) short = ground (
        arith,
        length-drop vp val,
        ap length e,
        length-append w rest,
        length-prefix fold s rest [] (lits-PrefixOf fold s rest h),
      )

      at_end :
          (rest : List ℕ)
          → PrefixOf fold s (drop (length val - length s) val) rest
          → ltb (length val) (vp + length s + 0) ≡ false
          → Fits fold (many ∷ map lit s ++ []) (drop vp val)
      at_end rest prefix fine =
          let nil : rest ≡ [] = nil_of_length rest (
            ground (
              arith,
              length-drop (length val - length s) val,
              length-prefix fold s _ rest prefix,
            )) in
          let prefix' : PrefixOf fold s (drop (length val - length s) val) [] = rw nil at prefix in
          let split = append-take-drop (length val - length s - vp) (drop vp val) in
          let place : vp + (length val - length s - vp) ≡ length val - length s = ground arith in
          (
            take (length val - length s - vp) (drop vp val),
            drop (length val - length s) val,
            split
                ∙ ap (λ l. take (length val - length s - vp) (drop vp val) ++ l)
                    (drop-drop vp (length val - length s - vp) val
                      ∙ ap (λ (n : ℕ). drop n val) place),
            lits-Fits fold s [] _ [] prefix' refl,
          )

      not_at_end :
          Fits fold (many ∷ map lit s ++ []) (drop vp val)
          → ((rest : List ℕ) → ¬ PrefixOf fold s (drop (length val - length s) val) rest)
          → ⊥
      not_at_end (w, rest, e, h) miss =
          let prefix = lits-PrefixOf fold s rest h in
          let place = (drop-rest val w rest vp (omega arith) e).0 in
          let size : length rest ≡ length s = omega (arith, length-prefix fold s rest [] prefix) in
          let place' : drop (length val - length s) val ≡ rest =
            ap (λ (n : ℕ). drop (length val - n) val) (sym size) ∙ place in
          miss [] (rw (sym place') at prefix)

      missed :
          (s : List ℕ)
          → ltb (length val) (vp + length s + 0) ≡ false
          → ((rest : List ℕ) → ¬ PrefixOf fold s (drop (length val - length s) val) rest)
          → ¬ G
          → EndGood M exceeded val G (record (scanned_to vp kp star (s, wp, no_wildcard) t) {
            vp = length val - length (drop (length val - length s) val);
          })
      missed [] fine miss no_g = absurd (miss (drop (length val - 0) val) ([], refl, refl))
      missed (c ∷ s) fine miss no_g =
          stuck-EndGood M exceeded val G _ refl
            (ground (arith, length-drop (length val - length (c ∷ s)) val)) no_g

  -- The first section stands at the beginning of the value.
  pub first_section :
      (vp : ℕ) (kp s kp' : List ℕ) (t : Scan)
      → vp < length val
      → All IsPlain (tokens kp')
      → length kp' < length kp
      → G ↔ Fits fold (map lit s ++ (many ∷ tokens kp')) (drop vp val)
      → RoundGood M exceeded val G
          (length kp)
          (middle_section M exceeded val (scanned_to vp kp no_wildcard (s, b'*' ∷ kp', star) t))
  unfolding middle_section
  first_section vp kp s kp' t lt plain shorter same = elim (hit_or_miss (drop vp val) s) [
    | inl (rest, e, (front, f, g)) ↦
        let (place, sizes) = drop-rest val front rest vp (omega arith) f in
        rw (e, RoundGood)
          (pass_wildcard-RoundGood M exceeded val G (length kp) (length val - length rest) kp' none
            (record (scanned_to vp kp no_wildcard (s, b'*' ∷ kp', star) t) {
              captures = record t.captures { mvalue = []; mchars = [] };
            })
            (omega arith) plain shorter
            (rw place (
              (λ h.
                  let (rest', prefix, k) =
                    Fits-lits fold s (many ∷ tokens kp') (drop vp val) (same.0 h) in
                  rw (same_rest fold s (drop vp val) rest rest' (front, f, g) prefix) k),
              λ h. same.1 (lits-Fits fold s _ (drop vp val) rest (front, f, g) h),
            )))
    | inr (e, miss) ↦
        rw (e, RoundGood)
          (stuck-EndGood M exceeded val G _ refl (omega (arith, length-drop vp val)) (λ g.
            let (rest', prefix, k) =
              Fits-lits fold s (many ∷ tokens kp') (drop vp val) (same.0 g) in
            miss rest' prefix))
  ]

  -- A section between two '*' is searched.
  pub inner_section :
      (vp : ℕ) (kp s kp' : List ℕ) (t : Scan)
      → vp < length val
      → All IsPlain (tokens kp')
      → length kp' < length kp
      → G ↔ Fits fold (many ∷ tokens kp) (drop vp val)
      → tokens kp ≡ map lit s ++ (many ∷ tokens kp')
      → RoundGood M exceeded val G
          (length kp)
          (middle_section M exceeded val (scanned_to vp kp star (s, b'*' ∷ kp', star) t))
  unfolding middle_section
  inner_section vp kp s kp' t lt plain shorter same scanned =
      go (string_find M exceeded (length val + 2) (drop (vp + 0) val) s t.clock) refl (
        rw from (
          string_find-FoundGood M exceeded (length val + 2) (drop vp val) s t.clock
            (omega (arith, length-drop vp val))))
    where
      behind : leb (length val) (vp + 0) ≡ false
      behind = ground arith

      from : vp + 0 ≡ vp
      from = omega arith

      same' : G ↔ Fits fold (many ∷ map lit s ++ (many ∷ tokens kp')) (drop vp val)
      same' = rw scanned at same

      go :
          (r : Find)
          → string_find M exceeded (length val + 2) (drop (vp + 0) val) s t.clock ≡ r
          → FoundGood M exceeded (drop vp val) s r
          → RoundGood M exceeded val G
              (length kp)
              (middle_section M exceeded val (scanned_to vp kp star (s, b'*' ∷ kp', star) t))
      go (found rest k) e ((before, f), good) =
          let (place, sizes) = drop-rest val before rest vp (omega arith) f in
          rw (behind, RoundGood)
            (rw (e, RoundGood)
              (pass_wildcard-RoundGood M exceeded val G (length kp) (length val - length rest) kp' _
                (record (scanned_to vp kp star (s, b'*' ∷ kp', star) t) {
                  clock = k;
                  captures = record t.captures {
                    mvalue = take (length val - length rest - length s - 0 - vp) (drop vp val);
                    mchars =
                        take
                          (length val
                            - length rest
                            - length s
                            - (length val - length rest - length s - 0))
                          (drop (length val - length rest - length s - 0) val);
                  };
                })
                (omega arith) plain shorter
                (rw place (
                  λ g. (good (tokens kp')).0 (same'.0 g),
                  λ h. same'.1 ((good (tokens kp')).1 h),
                ))))
      go (missing rest k) e (nil, nowhere) =
          rw (behind, RoundGood)
            (rw (e, RoundGood)
              (end_match-EndGood M exceeded val G
                (record (scanned_to vp kp star (s, b'*' ∷ kp', star) t) {
                  vp = length val - length rest;
                  clock = k;
                  captures = record t.captures { mvalue = []; mchars = [] };
                })
                refl
                (λ at_end. (
                  λ eaten. same.1 (eat_stars→Fits fold kp (drop vp val) eaten),
                  λ g. absurd (nowhere (many ∷ tokens kp') (same'.0 g)),
                ))
                (λ ne g. nowhere (many ∷ tokens kp') (same'.0 g))))
      go find_exceeded e h = rw (behind, RoundGood) (rw (e, RoundGood) h)
      go find_ran_out e h = absurd h
