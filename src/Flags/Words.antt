-- ===== src/Flags/Words.antt =====
-- The flags of a list, and the iterator that goes through them
-- (src/lib-sieve/plugins/imap4flags/ext-imap4flags-common.c).
use pigeonhole.Prelude.{
  ℕ, ◌+◌, ◌≤◌, ◌<◌, ◌≡◌, refl, sym, ap, ◌∙◌, inl, inr, true, false, Option, none, some, List, [],
  ◌∷◌, ◌++◌, length, append-nil, append_assoc, length-append, ◌==◌, if◌then◌else◌, Bool-cases, All,
  arith,
}
use pigeonhole.Match.{is_empty}
use pigeonhole.Flags.{scan_flag}

-- What stands between the spaces, `w` being the part of it that has been read.
pub split : List ℕ → List ℕ → List (List ℕ)
split w [] = if is_empty w then [] else w ∷ []
split w (c ∷ l) =
    let next = split [] l in
    let more = split (w ++ (c ∷ [])) l in
    if c == b' ' then (if is_empty w then next else w ∷ next) else more

abbrev pub words : List ℕ → List (List ℕ)
words l = split [] l

-- The flags of all items of a string list.
abbrev pub all_words : List (List ℕ) → List (List ℕ)
all_words [] = []
all_words (item ∷ items) = words item ++ all_words items

abbrev pub IsNoSpace : ℕ → Type 0
IsNoSpace c = (c == b' ') ≡ false

-- Nothing follows, or a space.
abbrev pub Parted : List ℕ → Type 0
Parted [] = Unit {0}
Parted (c ∷ l) = (c == b' ') ≡ true

pub words_space : (l : List ℕ) → words (b' ' ∷ l) ≡ words l
unfolding split
words_space l = refl

-- A scan finds the first word, and stops behind it.
abbrev pub ScanGood : List ℕ → List ℕ → List ℕ → Option (List ℕ × List ℕ × List ℕ) → Type 0
ScanGood passed w l none = split w l ≡ []
ScanGood passed w l (some (before, flag, rest)) =
    (split w l ≡ flag ∷ words rest)
    × (0 < length flag)
    × (length rest + length flag ≤ length l + length w)
    × Parted rest
    × All IsNoSpace flag
    × (before ++ (flag ++ rest) ≡ passed ++ (w ++ l))

All-append_one :
    (w : List ℕ) (c : ℕ) → All IsNoSpace w → IsNoSpace c → All IsNoSpace (w ++ (c ∷ []))
All-append_one [] c h k = (k, tt)
All-append_one (x ∷ w) c h k = (h.0, All-append_one w c h.1 k)

word_read : (passed w rest : List ℕ) → is_empty w ≡ false → 0 < length w
word_read passed [] rest e = cc
word_read passed (x ∷ w) rest e = omega arith

nil_read : (w : List ℕ) → is_empty w ≡ true → w ≡ []
nil_read [] e = refl
nil_read (x ∷ w) e = cc

ScanGood-map :
    (passed w l passed' w' l' : List ℕ) (r : Option (List ℕ × List ℕ × List ℕ))
    → split w l ≡ split w' l'
    → length l' + length w' ≤ length l + length w
    → passed' ++ (w' ++ l') ≡ passed ++ (w ++ l)
    → ScanGood passed' w' l' r
    → ScanGood passed w l r
ScanGood-map passed w l passed' w' l' none same le e h = same ∙ h
ScanGood-map passed w l passed' w' l' (some (before, flag, rest)) same le e (s, pos, few, p, n, k) =
    (same ∙ s, pos, omega arith, p, n, k ∙ e)

pub split_space : (c : ℕ) (l : List ℕ) → (c == b' ') ≡ true → split [] (c ∷ l) ≡ split [] l
unfolding split
split_space c l s = rw s refl

split_word :
    (w : List ℕ) (c : ℕ) (l : List ℕ)
    → (c == b' ') ≡ true
    → is_empty w ≡ false
    → split w (c ∷ l) ≡ w ∷ split [] (c ∷ l)
unfolding split
split_word w c l s e = rw s (rw e refl)

split_more :
    (w : List ℕ) (c : ℕ) (l : List ℕ)
    → (c == b' ') ≡ false
    → split w (c ∷ l) ≡ split (w ++ (c ∷ [])) l
unfolding split
split_more w c l s = rw s refl

split_end : (w : List ℕ) → is_empty w ≡ true → split w [] ≡ []
unfolding split
split_end w e = rw e refl

split_last : (w : List ℕ) → is_empty w ≡ false → split w [] ≡ w ∷ words []
unfolding split
split_last w e = rw e refl

pub scan_flag-ScanGood :
    (passed w l : List ℕ) → All IsNoSpace w → ScanGood passed w l (scan_flag passed w l)
unfolding scan_flag
scan_flag-ScanGood passed w [] h = elim (Bool-cases (is_empty w)) [
  | inl e ↦ rw (e, ScanGood) (split_end w e)
  | inr e ↦ rw (e, ScanGood) (split_last w e, word_read passed w [] e, omega arith, tt, h, refl)
]
scan_flag-ScanGood passed w (c ∷ l) h = elim (Bool-cases (c == b' ')) [
  | inl s ↦ elim (Bool-cases (is_empty w)) [
    | inl e ↦
        let nil = nil_read w e in
        rw (s, ScanGood)
          (rw (e, ScanGood)
            (ScanGood-map passed w (c ∷ l) (passed ++ (c ∷ [])) [] l _
              (ap (λ v. split v (c ∷ l)) nil ∙ split_space c l s) (omega arith)
              (append_assoc passed (c ∷ []) l ∙ ap (λ v. passed ++ (v ++ (c ∷ l))) (sym nil))
              (scan_flag-ScanGood (passed ++ (c ∷ [])) [] l tt)))
    | inr e ↦
        rw (s, ScanGood)
          (rw (e, ScanGood)
            (split_word w c l s e, word_read passed w [] e, omega arith, s, h, refl))
  ]
  | inr s ↦
      rw (s, ScanGood)
        (ScanGood-map passed w (c ∷ l) passed (w ++ (c ∷ [])) l _ (split_more w c l s)
          (omega (arith, length-append w (c ∷ [])))
          (ap (λ v. passed ++ v) (append_assoc w (c ∷ []) l))
          (scan_flag-ScanGood passed (w ++ (c ∷ [])) l (All-append_one w c h s)))
]

-- A space parts the words before it from those behind it.
pub split-append_space : (w l m : List ℕ) → split w (l ++ (b' ' ∷ m)) ≡ split w l ++ words m
unfolding split
split-append_space [] [] m = refl
split-append_space (x ∷ w) [] m = refl
split-append_space [] (c ∷ l) m = elim (Bool-cases (c == b' ')) [
  | inl s ↦ rw s (split-append_space [] l m)
  | inr s ↦ rw s (split-append_space (c ∷ []) l m)
]
split-append_space (x ∷ w) (c ∷ l) m = elim (Bool-cases (c == b' ')) [
  | inl s ↦ rw s (ap (λ t. (x ∷ w) ∷ t) (split-append_space [] l m))
  | inr s ↦ rw s (split-append_space ((x ∷ w) ++ (c ∷ [])) l m)
]

pub split-plain : (w f : List ℕ) → All IsNoSpace f → 0 < length (w ++ f) → split w f ≡ (w ++ f) ∷ []
split-plain [] [] h pos = absurd (omega arith)
split-plain (x ∷ w) [] h pos =
    split_last (x ∷ w) refl
    ∙ ap (λ t. (x ∷ w) ∷ t) (split_end [] refl)
    ∙ ap (λ t. t ∷ []) (sym (append-nil (x ∷ w)))
split-plain w (c ∷ f) h pos =
    split_more w c f h.0
    ∙ split-plain (w ++ (c ∷ [])) f h.1
        (omega (arith, length-append w (c ∷ []), length-append (w ++ (c ∷ [])) f))
    ∙ ap (λ t. t ∷ []) (append_assoc w (c ∷ []) f)

pub words_nil : words [] ≡ []
words_nil = split_end [] refl
