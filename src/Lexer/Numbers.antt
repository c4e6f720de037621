-- ===== src/Lexer/Numbers.antt =====
-- Numbers with a unit (src/lib-sieve/sieve-lexer.c, sieve_lexer_scan_number).
use pigeonhole.Prelude.{
  ℕ, ◌*◌, ◌^◌, ◌≤◌, ◌<◌, ◌≡◌, ◌⊎◌, ◌∙◌, ◌↔◌, ap, refl, true, false, none, some, List, [], ◌∷◌, ◌++◌,
  All, ltb, if◌then◌else◌, arith, append-nil, append_assoc, Bool-cases, inl, inr,
}
use pigeonhole.Ctype.{Ctype, StringLib, IsDigit, decimal}
use pigeonhole.Lexer.{stt_number, accept}
use pigeonhole.Lexer.Tokens.{scan_digits, scan_suffix, scan_number, suffixed}

-- A unit's letter, and by how many bits it shifts.
abbrev pub IsUnit : ℕ → ℕ → Type 0
IsUnit u bits =
    ((u ≡ b'k') ⊎ (u ≡ b'K')) × (bits ≡ 10)
    ⊎ ((u ≡ b'm') ⊎ (u ≡ b'M')) × (bits ≡ 20)
    ⊎ ((u ≡ b'g') ⊎ (u ≡ b'G')) × (bits ≡ 30)

scan_suffix_unit :
    (value u bits : ℕ) (rest : List ℕ)
    → IsUnit u bits
    → scan_suffix value (u ∷ rest)
      ≡ ((if ltb (value * 2 ^ bits) (2 ^ 64) then some (value * 2 ^ bits) else none), rest)
unfolding scan_suffix
scan_suffix_unit value u bits rest h = ground (arith, h)

module _ (C : Ctype) (L : StringLib C) where
  open C use {is_digit, is_digit_iff}
  open L use {to_uintmax, to_uintmax_digits}

  scan_digits-append :
      (s : List ℕ) (u : ℕ) (rest str : List ℕ)
      → All IsDigit s
      → is_digit u ≡ false
      → scan_digits C (s ++ (u ∷ rest)) str ≡ (str ++ s, u ∷ rest)
  unfolding scan_digits
  scan_digits-append [] u rest str h d = rw (d, append-nil) refl
  scan_digits-append (c ∷ s) u rest str (p, h) d = rw ((is_digit_iff c).1 p) (
      scan_digits-append s u rest (str ++ (c ∷ [])) h d
      ∙ ap (λ t. (t, u ∷ rest)) (append_assoc str (c ∷ []) s))

  unit_not_digit : (u bits : ℕ) → IsUnit u bits → is_digit u ≡ false
  unit_not_digit u bits k = ground (arith, k, is_digit_iff u)

  scan_number_fits :
      (c : ℕ) (s : List ℕ) (u bits : ℕ) (rest : List ℕ) (line int : ℕ)
      → All IsDigit (c ∷ s)
      → IsUnit u bits
      → decimal 0 (c ∷ s) * 2 ^ bits < 2 ^ 64
      → scan_number C L ((c ∷ s) ++ (u ∷ rest)) line int
        ≡ accept stt_number rest line (c ∷ s) (decimal 0 (c ∷ s) * 2 ^ bits)
  unfolding scan_number suffixed
  scan_number_fits c s u bits rest line int h k fits =
      let number = decimal 0 (c ∷ s) in
      let digits = scan_digits-append (c ∷ s) u rest [] h (unit_not_digit u bits k) in
      let small : ltb number (2 ^ 64) ≡ true = ground (arith, k, fits) in
      let all_small : ltb (number * 2 ^ bits) (2 ^ 64) ≡ true = ground (arith, k, fits) in
      rw (digits, to_uintmax_digits c s h, small, scan_suffix_unit number u bits rest k, all_small)
        refl

  scan_number_exceeds :
      (c : ℕ) (s : List ℕ) (u bits : ℕ) (rest : List ℕ) (line int : ℕ)
      → All IsDigit (c ∷ s)
      → IsUnit u bits
      → 2 ^ 64 ≤ decimal 0 (c ∷ s) * 2 ^ bits
      → (scan_number C L ((c ∷ s) ++ (u ∷ rest)) line int).success ≡ false
  unfolding scan_number suffixed
  scan_number_exceeds c s u bits rest line int h k large =
      let number = decimal 0 (c ∷ s) in
      let digits = scan_digits-append (c ∷ s) u rest [] h (unit_not_digit u bits k) in
      let exceeds : ltb (number * 2 ^ bits) (2 ^ 64) ≡ false = ground (arith, k, large) in
      elim (Bool-cases (ltb number (2 ^ 64))) [
        | inl e ↦
            rw (digits, to_uintmax_digits c s h, e, scan_suffix_unit number u bits rest k, exceeds)
              refl
        | inr e ↦ rw (digits, to_uintmax_digits c s h, e) refl
      ]

  -- A number followed by a unit is taken exactly when it fits 64 bits, and then the value is the
  -- number shifted by the unit and the scanner stands behind the unit.
  pub scan_number_unit :
      (c : ℕ) (s : List ℕ) (u bits : ℕ) (rest : List ℕ) (line int : ℕ)
      → All IsDigit (c ∷ s)
      → IsUnit u bits
      → ((scan_number C L ((c ∷ s) ++ (u ∷ rest)) line int).success ≡ true
          ↔ decimal 0 (c ∷ s) * 2 ^ bits < 2 ^ 64)
        × (decimal 0 (c ∷ s) * 2 ^ bits < 2 ^ 64
            → scan_number C L ((c ∷ s) ++ (u ∷ rest)) line int
              ≡ accept stt_number rest line (c ∷ s) (decimal 0 (c ∷ s) * 2 ^ bits))
  scan_number_unit c s u bits rest line int h k =
      let fits = scan_number_fits c s u bits rest line int h k in
      let exceeds = scan_number_exceeds c s u bits rest line int h k in
      (ground (arith, fits, exceeds), fits)
