-- ===== src/Match/Wildcards/Glob.antt =====
-- What a key of :matches means: a list of tokens, and the values that fit it.
use mathlib.Core.List.{map}
use pigeonhole.Prelude.{
  ℕ, ◌≡◌, refl, sym, ap, ◌∙◌, ◌⊎◌, inl, inr, false, List, [], ◌∷◌, ◌++◌, append-nil, append_assoc,
  ◌==◌, not, ◌||◌, if◌then◌else◌, Bool-cases, ==_iff, arith,
}
use pigeonhole.Comparator.CharMatch.{PrefixOf}
use pigeonhole.Match.{is_empty}
use pigeonhole.Match.Wildcards.{
  Wildcard, no_wildcard, star, question, Section, prepend, scan_key_section, next_section,
  eat_stars, is_question, is_none, is_star,
}

-- A byte, '?' and '*'.
pub data Token : Type 0 where
  lit : ℕ → Token
  any : Token
  many : Token

-- A backslash takes the special meaning from the character behind it, and stands for itself at
-- the end.
unfoldable pub tokens : List ℕ → List Token
tokens [] = []
tokens (c ∷ []) = if c == b'*' then many ∷ [] else if c == b'?' then any ∷ [] else lit c ∷ []
tokens (c ∷ d ∷ key) =
    let escaped = lit d ∷ tokens key in
    let rest = tokens (d ∷ key) in
    if c == b'*'
    then many ∷ rest
    else if c == b'?'
    then any ∷ rest
    else if c == b'\\'
    then escaped
    else lit c ∷ rest

abbrev pub Fits : (ℕ → ℕ) → List Token → List ℕ → Type 0
Fits fold [] val = val ≡ []
Fits fold (lit c ∷ p) val =
    (x : ℕ) × (rest : List ℕ) × (val ≡ x ∷ rest) × (fold x ≡ fold c) × Fits fold p rest
Fits fold (any ∷ p) val = (x : ℕ) × (rest : List ℕ) × (val ≡ x ∷ rest) × Fits fold p rest
Fits fold (many ∷ p) val = (w : List ℕ) × (rest : List ℕ) × (val ≡ w ++ rest) × Fits fold p rest

abbrev pub IsPlain : Token → Type 0
IsPlain any = ⊥
IsPlain _ = Unit {0}

-- What stands where a scan has stopped.
abbrev pub StopsAt : Wildcard → List ℕ → Type 0
StopsAt no_wildcard wp = wp ≡ []
StopsAt star wp = (rest : List ℕ) × (wp ≡ b'*' ∷ rest)
StopsAt question wp = (rest : List ℕ) × (wp ≡ b'?' ∷ rest)

abbrev pub Scanned : List Token → Section → Type 0
Scanned ts (section, wp, next) = (ts ≡ map lit section ++ tokens wp) × StopsAt next wp

pub tokens_star : (rest : List ℕ) → tokens (b'*' ∷ rest) ≡ many ∷ tokens rest
unfolding tokens
tokens_star [] = refl
tokens_star (x ∷ rest) = refl

pub tokens_question : (rest : List ℕ) → tokens (b'?' ∷ rest) ≡ any ∷ tokens rest
unfolding tokens
tokens_question [] = refl
tokens_question (x ∷ rest) = refl

prepend-Scanned :
    (c : ℕ) (ts : List Token) (s : Section) → Scanned ts s → Scanned (lit c ∷ ts) (prepend c s)
prepend-Scanned c ts (section, wp, next) h = (ap (λ l. lit c ∷ l) h.0, h.1)

pub scan_key_section-Scanned : (key : List ℕ) → Scanned (tokens key) (scan_key_section key)
unfolding scan_key_section tokens
scan_key_section-Scanned [] = (refl, refl)
scan_key_section-Scanned (c ∷ []) = elim (Bool-cases (c == b'*')) [
  | inl s ↦ rw s (rw ((==_iff c _).0 s) (refl, ([], refl)))
  | inr s ↦ elim (Bool-cases (c == b'?')) [
    | inl q ↦ rw s (rw q (rw ((==_iff c _).0 q) (refl, ([], refl))))
    | inr q ↦ rw s (rw q (refl, refl))
  ]
]
scan_key_section-Scanned (c ∷ d ∷ key) = elim (Bool-cases (c == b'*')) [
  | inl s ↦ rw s (rw ((==_iff c _).0 s) (refl, (d ∷ key, refl)))
  | inr s ↦ elim (Bool-cases (c == b'?')) [
    | inl q ↦ rw s (rw q (rw ((==_iff c _).0 q) (refl, (d ∷ key, refl))))
    | inr q ↦ elim (Bool-cases (c == b'\\')) [
      | inl e ↦ rw s (rw q (rw e (prepend-Scanned d _ _ (scan_key_section-Scanned key))))
      | inr e ↦ rw s (rw q (rw e (prepend-Scanned c _ _ (scan_key_section-Scanned (d ∷ key)))))
    ]
  ]
]

abbrev NeedsByte : List Token → Type 0
NeedsByte [] = ⊥
NeedsByte (many ∷ p) = ⊥
NeedsByte (lit c ∷ p) = Unit {0}
NeedsByte (any ∷ p) = Unit {0}

NeedsByte-tokens : (c : ℕ) (key : List ℕ) → (c == b'*') ≡ false → NeedsByte (tokens (c ∷ key))
unfolding tokens
NeedsByte-tokens c [] s = elim (Bool-cases (c == b'?')) [
  | inl q ↦ rw s (rw q tt)
  | inr q ↦ rw s (rw q tt)
]
NeedsByte-tokens c (d ∷ key) s = elim (Bool-cases (c == b'?')) [
  | inl q ↦ rw s (rw q tt)
  | inr q ↦ elim (Bool-cases (c == b'\\')) [
    | inl e ↦ rw s (rw q (rw e tt))
    | inr e ↦ rw s (rw q (rw e tt))
  ]
]

NeedsByte-Fits : (fold : ℕ → ℕ) (p : List Token) → NeedsByte p → Fits fold p [] → ⊥
NeedsByte-Fits fold [] n h = n
NeedsByte-Fits fold (many ∷ p) n h = n
NeedsByte-Fits fold (lit c ∷ p) n (x, rest, e, f, h) = cc
NeedsByte-Fits fold (any ∷ p) n (x, rest, e, h) = cc

pub tokens_cons : (c : ℕ) (key : List ℕ) → tokens (c ∷ key) ≡ [] → ⊥
tokens_cons c key e = elim (Bool-cases (c == b'*')) [
  | inl s ↦ star_first (rw ((==_iff c _).0 s) at e)
  | inr s ↦ let n : NeedsByte [] = rw e at (NeedsByte-tokens c key s) in n
]
  where
    star_first : tokens (b'*' ∷ key) ≡ [] → ⊥
    star_first e = let e' = rw (tokens_star key) at e in cc

pub tokens_nil : tokens [] ≡ []
unfolding tokens
tokens_nil = refl

scan_nil : scan_key_section [] ≡ ([], [], no_wildcard)
unfolding scan_key_section
scan_nil = refl

-- Without '?' the search for a section is one scan.
pub next_section-scan :
    (wcard : Wildcard) (key : List ℕ) (offset : ℕ)
    → is_question (scan_key_section key).2 ≡ false
    → next_section wcard key offset ≡ (scan_key_section key, offset)
unfolding next_section
next_section-scan wcard [] offset h = ap (λ s. (s, offset)) (sym scan_nil)
next_section-scan wcard (c ∷ key) offset h =
    go (scan_key_section (c ∷ key)) h (scan_key_section-Scanned (c ∷ key)) _
  where
    go :
        (s : Section)
        → is_question s.2 ≡ false
        → Scanned (tokens (c ∷ key)) s
        → (more : Section × ℕ)
        → (if is_none wcard || not (is_empty s.0) || is_star s.2 then (s, offset) else more)
          ≡ (s, offset)
    go (section, wp, question) q h more = cc
    go (section, wp, star) q h more = ground arith
    go (x ∷ section, wp, no_wildcard) q h more = ground arith
    go ([], wp, no_wildcard) q (e, w) more = absurd (tokens_cons c key ((rw w at e) ∙ tokens_nil))

module _ (fold : ℕ → ℕ) where
  pub Fits-lits :
      (s : List ℕ) (p : List Token) (val : List ℕ)
      → Fits fold (map lit s ++ p) val
      → (rest : List ℕ) × PrefixOf fold s val rest × Fits fold p rest
  Fits-lits [] p val h = (val, ([], refl, refl), h)
  Fits-lits (c ∷ s) p val (x, rest, e, f, h) =
      let (rest', (front, g, k), l) = Fits-lits s p rest h in
      (rest', (x ∷ front, e ∙ ap (λ t. x ∷ t) g, cc), l)

  pub lits-Fits :
      (s : List ℕ) (p : List Token) (val rest : List ℕ)
      → PrefixOf fold s val rest
      → Fits fold p rest
      → Fits fold (map lit s ++ p) val
  lits-Fits [] p val rest ([], e, f) h = rw e h
  lits-Fits [] p val rest (x ∷ front, e, f) h = cc
  lits-Fits (c ∷ s) p val rest ([], e, f) h = cc
  lits-Fits (c ∷ s) p val rest (x ∷ front, e, f) h =
      (x, front ++ rest, e, cc, lits-Fits s p (front ++ rest) rest (front, refl, cc) h)

  -- '*' takes nothing or at least one byte.
  pub many_step :
      (p : List Token) (v : ℕ) (val : List ℕ)
      → Fits fold (many ∷ p) (v ∷ val)
      → Fits fold p (v ∷ val) ⊎ Fits fold (many ∷ p) val
  many_step p v val ([], rest, e, h) = inl (rw e h)
  many_step p v val (x ∷ w, rest, e, h) = inr (w, rest, cc, h)

  pub many_take :
      (p : List Token) (w val : List ℕ) → Fits fold (many ∷ p) val → Fits fold (many ∷ p) (w ++ val)
  many_take p w val (w', rest, e, h) = (w ++ w', rest, rw e (sym (append_assoc w w' rest)), h)

  -- Stars fit what is left, and nothing else fits where nothing is left.
  pub eat_stars→Fits_nil : (key : List ℕ) → eat_stars key ≡ [] → Fits fold (tokens key) []
  unfolding eat_stars
  eat_stars→Fits_nil [] e = rw tokens_nil refl
  eat_stars→Fits_nil (c ∷ key) e = elim (Bool-cases (c == b'*')) [
    | inl s ↦
        let e' : eat_stars key ≡ [] = ground arith in
        rw ((==_iff c _).0 s) (rw (tokens_star key) ([], [], refl, eat_stars→Fits_nil key e'))
    | inr s ↦ ground arith
  ]

  pub eat_stars→Fits : (key val : List ℕ) → eat_stars key ≡ [] → Fits fold (many ∷ tokens key) val
  eat_stars→Fits key val e = (val, [], sym (append-nil val), eat_stars→Fits_nil key e)

  pub many_nil : (p : List Token) → Fits fold (many ∷ p) [] → Fits fold p []
  many_nil p ([], rest, e, h) = rw e h
  many_nil p (x ∷ w, rest, e, h) = cc

  pub Fits→eat_stars : (key : List ℕ) → Fits fold (tokens key) [] → eat_stars key ≡ []
  unfolding eat_stars
  Fits→eat_stars [] h = refl
  Fits→eat_stars (c ∷ key) h = elim (Bool-cases (c == b'*')) [
    | inl s ↦ rw s (Fits→eat_stars key (stars (rw ((==_iff c _).0 s) at h)))
    | inr s ↦ absurd (NeedsByte-Fits fold _ (NeedsByte-tokens c key s) h)
  ]
    where
      stars : Fits fold (tokens (b'*' ∷ key)) [] → Fits fold (tokens key) []
      stars k = many_nil (tokens key) (rw (tokens_star key) at k)
