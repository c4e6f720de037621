-- ===== src/Flags/Places.antt =====
-- Where the flags of a list begin and end
-- (src/lib-sieve/plugins/imap4flags/ext-imap4flags-common.c).
use pigeonhole.Prelude.{
  ℕ, ◌≡◌, refl, sym, ap, ◌∙◌, ◌⊎◌, inl, inr, true, Option, none, some, List, [], ◌∷◌, ◌++◌,
  append-nil, append_assoc, ◌==◌, Bool-cases, ==_iff,
}
use pigeonhole.Match.{is_empty}
use pigeonhole.Flags.{scan_flag, drop_last}
use pigeonhole.Flags.Words.{words, Parted, split_space, split-append_space, words_nil}

-- A new word begins behind it: it is empty or ends with a space.
abbrev pub Opens : List ℕ → Type 0
Opens p = (p ≡ []) ⊎ ((q : List ℕ) × (p ≡ q ++ (b' ' ∷ [])))

words-space_last : (q : List ℕ) → words (q ++ (b' ' ∷ [])) ≡ words q
words-space_last q =
    split-append_space [] q [] ∙ ap (λ t. words q ++ t) words_nil ∙ append-nil (words q)

Opens-space : (p : List ℕ) (c : ℕ) → (c == b' ') ≡ true → Opens (p ++ (c ∷ []))
Opens-space p c s = inr (p, ap (λ d. p ++ (d ∷ [])) ((==_iff c b' ').0 s))

pub words-append-Opens : (p m : List ℕ) → Opens p → words (p ++ m) ≡ words p ++ words m
words-append-Opens p m (inl e) = rw e (ap (λ t. t ++ words m) (sym words_nil))
words-append-Opens p m (inr (q, e)) = rw e (
    ap (λ t. words t) (append_assoc q (b' ' ∷ []) m)
    ∙ split-append_space [] q m
    ∙ ap (λ t. t ++ words m) (sym (words-space_last q)))

-- A word ends at the place between the two.
pub words-append-Parted : (p m : List ℕ) → Opens p ⊎ Parted m → words (p ++ m) ≡ words p ++ words m
words-append-Parted p m (inl o) = words-append-Opens p m o
words-append-Parted p [] (inr h) =
    ap words (append-nil p) ∙ sym (append-nil (words p)) ∙ ap (λ t. words p ++ t) (sym words_nil)
words-append-Parted p (c ∷ m) (inr s) =
    ap (λ d. words (p ++ (d ∷ m))) ((==_iff c b' ').0 s)
    ∙ split-append_space [] p m
    ∙ ap (λ t. words p ++ t) (sym (split_space c m s))

-- What a scan passes over are spaces, up to the begin of a word.
abbrev pub PassGood : List ℕ → Option (List ℕ × List ℕ × List ℕ) → Type 0
PassGood passed none = Unit {0}
PassGood passed (some (before, flag, rest)) = Opens before × (words before ≡ words passed)

PassGood-map :
    (passed passed' : List ℕ) (r : Option (List ℕ × List ℕ × List ℕ))
    → words passed' ≡ words passed
    → PassGood passed' r
    → PassGood passed r
PassGood-map passed passed' none e h = tt
PassGood-map passed passed' (some (before, flag, rest)) e (o, k) = (o, k ∙ e)

pub scan_flag-PassGood :
    (passed w l : List ℕ)
    → Opens passed ⊎ ((is_empty w ≡ true) × Parted l)
    → PassGood passed (scan_flag passed w l)
unfolding scan_flag
scan_flag-PassGood passed w [] h = elim (Bool-cases (is_empty w)) [
  | inl e ↦ rw (e, PassGood) tt
  | inr e ↦ rw (e, PassGood) (elim h [ inl o ↦ (o, refl) | inr k ↦ cc ])
]
scan_flag-PassGood passed w (c ∷ l) h = elim (Bool-cases (c == b' ')) [
  | inl s ↦ elim (Bool-cases (is_empty w)) [
    | inl e ↦
        rw (s, PassGood)
          (rw (e, PassGood)
            (PassGood-map passed (passed ++ (c ∷ [])) _
              (ap (λ d. words (passed ++ (d ∷ []))) ((==_iff c b' ').0 s) ∙ words-space_last passed)
              (scan_flag-PassGood (passed ++ (c ∷ [])) [] l (inl (Opens-space passed c s)))))
    | inr e ↦ rw (s, PassGood) (rw (e, PassGood) (elim h [ inl o ↦ (o, refl) | inr k ↦ cc ]))
  ]
  | inr s ↦
      rw (s, PassGood)
        (elim h [ inl o ↦ scan_flag-PassGood passed (w ++ (c ∷ [])) l (inl o) | inr (k, m) ↦ cc ])
]

drop_last-append : (q : List ℕ) (c : ℕ) → drop_last (q ++ (c ∷ [])) ≡ q
drop_last-append [] c = refl
drop_last-append (x ∷ []) c = refl
drop_last-append (x ∷ y ∷ q) c = ap (λ t. x ∷ t) (drop_last-append (y ∷ q) c)

pub words-drop_last : (p : List ℕ) → Opens p → words (drop_last p) ≡ words p
words-drop_last p (inl e) = rw e refl
words-drop_last p (inr (q, e)) =
    rw e (ap words (drop_last-append q b' ') ∙ sym (words-space_last q))
