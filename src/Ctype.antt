-- ===== src/Ctype.antt =====
-- The character functions of Dovecot's core library that the sources call. The library is not part
-- of the repository, so they are a parameter: the fields say what is documented of them, for one
-- byte, in the ASCII range alone.
use pigeonhole.Prelude.{
  ℕ, ◌+◌, ◌-◌, ◌*◌, ◌≤◌, ◌≡◌, refl, ◌↔◌, ◌⊎◌, Bool, true, false, ◌&&◌, ◌||◌, ◌^◌, ==_iff, length,
  All, Option, none, some, List, [], ◌∷◌, ltb, leb, ◌==◌, if◌then◌else◌, arith,
}
use mathlib.Core.List.{map}

abbrev pub IsDigit : ℕ → Type 0
IsDigit c = (48 ≤ c) × (c ≤ 57)

abbrev pub IsUpper : ℕ → Type 0
IsUpper c = (65 ≤ c) × (c ≤ 90)

abbrev pub IsLower : ℕ → Type 0
IsLower c = (97 ≤ c) × (c ≤ 122)

pub record Ctype : Type 0 where
  pub is_digit : ℕ → Bool
  pub is_alpha : ℕ → Bool
  pub to_lower : ℕ → ℕ
  pub is_digit_iff : (c : ℕ) → (is_digit c ≡ true) ↔ IsDigit c
  pub is_alpha_iff : (c : ℕ) → (is_alpha c ≡ true) ↔ (IsUpper c ⊎ IsLower c)
  pub to_lower_upper : (c : ℕ) → IsUpper c → to_lower c ≡ c + 32
  pub to_lower_other : (c : ℕ) → ¬ IsUpper c → to_lower c ≡ c

-- The number that a string of decimal digits stands for, read on from `acc`.
unfoldable pub decimal : ℕ → List ℕ → ℕ
decimal acc [] = acc
decimal acc (c ∷ s) = decimal (acc * 10 + (c - 48)) s

-- `begins_icase s t`: the NUL-terminated `s` begins with `t` in any case. `to_uintmax` is
-- str_to_uintmax on a 64-bit system, `none` standing for its error.
pub record StringLib (C : Ctype) : Type 0 where
  pub begins_icase : List ℕ → List ℕ → Bool
  pub to_uintmax : List ℕ → Option ℕ
  -- Whether a stream has its eof set where this is left to give: it may set it once it has read the
  -- last block, with data still to give.
  pub at_eof : List ℕ → Bool
  pub begins_icase_iff :
      (s t : List ℕ)
      → length s ≡ length t
      → (begins_icase s t ≡ true) ↔ (map C.to_lower s ≡ map C.to_lower t)
  pub to_uintmax_digits :
      (c : ℕ) (s : List ℕ)
      → All IsDigit (c ∷ s)
      → to_uintmax (c ∷ s)
        ≡ (if ltb (decimal 0 (c ∷ s)) (2 ^ 64) then some (decimal 0 (c ∷ s)) else none)

-- Functions that meet the descriptions.
abbrev ascii_digit : ℕ → Bool
ascii_digit c = leb 48 c && leb c 57

abbrev ascii_alpha : ℕ → Bool
ascii_alpha c = (leb 65 c && leb c 90) || (leb 97 c && leb c 122)

abbrev ascii_lower : ℕ → ℕ
ascii_lower c = if leb 65 c && leb c 90 then c + 32 else c

pub ascii_digit_iff : (c : ℕ) → (ascii_digit c ≡ true) ↔ IsDigit c
ascii_digit_iff c = ground arith

pub ascii_alpha_iff : (c : ℕ) → (ascii_alpha c ≡ true) ↔ (IsUpper c ⊎ IsLower c)
ascii_alpha_iff c = ground arith

pub ascii_lower_upper : (c : ℕ) → IsUpper c → ascii_lower c ≡ c + 32
ascii_lower_upper c h = ground arith

pub ascii_lower_other : (c : ℕ) → ¬ IsUpper c → ascii_lower c ≡ c
ascii_lower_other c h = ground arith

abbrev pub ascii : Ctype
ascii = record {
  is_digit = ascii_digit;
  is_alpha = ascii_alpha;
  to_lower = ascii_lower;
  is_digit_iff = ascii_digit_iff;
  is_alpha_iff = ascii_alpha_iff;
  to_lower_upper = ascii_lower_upper;
  to_lower_other = ascii_lower_other;
}

abbrev ascii_begins : List ℕ → List ℕ → Bool
ascii_begins s [] = true
ascii_begins [] (d ∷ t) = false
ascii_begins (c ∷ s) (d ∷ t) = (ascii_lower c == ascii_lower d) && ascii_begins s t

pub ascii_begins_iff :
    (s t : List ℕ)
    → length s ≡ length t
    → (ascii_begins s t ≡ true) ↔ (map ascii_lower s ≡ map ascii_lower t)
ascii_begins_iff [] [] h = (λ e. refl, λ e. refl)
ascii_begins_iff [] (d ∷ t) h = absurd (omega arith)
ascii_begins_iff (c ∷ s) [] h = absurd (omega arith)
ascii_begins_iff (c ∷ s) (d ∷ t) h =
    ground (arith, ascii_begins_iff s t (omega arith), ==_iff (ascii_lower c) (ascii_lower d))

abbrev ascii_uintmax : List ℕ → Option ℕ
ascii_uintmax s = if ltb (decimal 0 s) (2 ^ 64) then some (decimal 0 s) else none

pub ascii_uintmax_digits :
    (c : ℕ) (s : List ℕ)
    → All IsDigit (c ∷ s)
    → ascii_uintmax (c ∷ s)
      ≡ (if ltb (decimal 0 (c ∷ s)) (2 ^ 64) then some (decimal 0 (c ∷ s)) else none)
ascii_uintmax_digits c s h = refl

abbrev ascii_at_eof : List ℕ → Bool
ascii_at_eof [] = true
ascii_at_eof (c ∷ rest) = false

abbrev pub ascii_strings : StringLib ascii
ascii_strings = record {
  begins_icase = ascii_begins;
  to_uintmax = ascii_uintmax;
  at_eof = ascii_at_eof;
  begins_icase_iff = ascii_begins_iff;
  to_uintmax_digits = ascii_uintmax_digits;
}
