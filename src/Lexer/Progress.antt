-- ===== src/Lexer/Progress.antt =====
-- Where a token ends (src/lib-sieve/sieve-lexer.c): every token passes some text, so that skipping
-- whitespace comes to an end.
use pigeonhole.Prelude.{
  ℕ, zero, suc, ◌≤◌, ◌<◌, ◌≡◌, ◌≢◌, Bool, true, false, ◌&&◌, Option, none, some, List, [], ◌∷◌,
  ◌++◌, length, arith, refl, Bool-cases, inl, inr, ◌⊎◌,
}
use pigeonhole.Ctype.{Ctype, StringLib}
use pigeonhole.Lexer.{Scanner, lf, next_line, max_identifier, append_to, at_start}
use pigeonhole.Lexer.Tokens.{
  scan_digits, scan_name, skip_blanks, skip_cr, scan_other, suffixed, end_number, end_identifier,
  scan_number, scan_tag, scan_first, scan_raw_token, cannot_start, skip_loop, skip_token,
  is_whitespace,
}
use pigeonhole.Lexer.Moves.{
  Moves, MovesTo, whole, behind, Suffix-trans, passed, further, stops, scan_hash_comment-Moves,
  scan_whitespace-Moves, scan_quoted-Moves, scan_text_line-Moves, skip_blanks-Moves, skip_cr-Moves,
  scan_slash-Moves, scan_suffix-Moves,
}

module _ (C : Ctype) (L : StringLib C) where
  open C use {is_digit, is_alpha, is_digit_iff, is_alpha_iff}
  open L use {begins_icase, to_uintmax, at_eof}

  scan_digits-Moves :
      (rest str : List ℕ) (line : ℕ) → Moves rest line (scan_digits C rest str).1 line
  unfolding scan_digits
  scan_digits-Moves [] str line = (omega arith, refl, whole _)
  scan_digits-Moves (c ∷ rest) str line = ground (
    arith,
    stops c rest,
    passed c (scan_digits-Moves rest (str ++ (c ∷ [])) line),
    is_digit_iff c,
  )

  scan_name-Moves : (rest str : List ℕ) (line : ℕ) → Moves rest line (scan_name C rest str).1 line
  unfolding scan_name
  scan_name-Moves [] str line = (omega arith, refl, whole _)
  scan_name-Moves (c ∷ rest) str line = ground (
    arith,
    stops c rest,
    passed c (scan_name-Moves rest (append_to max_identifier str (c ∷ [])) line),
    is_digit_iff c,
    is_alpha_iff c,
  )

  suffixed-Moves :
      (value : Option ℕ) (rest : List ℕ) (line : ℕ)
      → Moves rest line (suffixed C L value rest).1 line
  unfolding suffixed
  suffixed-Moves none rest line = (omega arith, refl, whole _)
  suffixed-Moves (some value) rest line = scan_suffix-Moves value rest line

  end_number-Moves :
      (before str : List ℕ) (line int : ℕ) (p : Option ℕ × List ℕ)
      → Moves before line p.1 line
      → MovesTo before line (end_number C L str line int p)
  end_number-Moves before str line int (none, rest) h = h
  end_number-Moves before str line int (some value, rest) h = h

  scan_number-Moves :
      (rest : List ℕ) (line int : ℕ) → MovesTo rest line (scan_number C L rest line int)
  unfolding scan_number
  scan_number-Moves rest line int =
      let value = to_uintmax (scan_digits C rest []).0 in
      let after = (scan_digits C rest []).1 in
      let digits = scan_digits-Moves rest [] line in
      end_number-Moves rest (scan_digits C rest []).0 line int (suffixed C L value after)
        (ground (arith, digits, further (suffixed-Moves value after line) digits.2))

  scan_tag-Moves : (rest : List ℕ) (line int : ℕ) → MovesTo rest line (scan_tag C L rest line int)
  unfolding scan_tag
  scan_tag-Moves [] line int = (omega arith, refl, whole _)
  scan_tag-Moves (c ∷ rest) line int =
      ground (arith, stops c rest, passed c (scan_name-Moves rest (c ∷ []) line), is_alpha_iff c)

  end_identifier-Moves :
      (before : List ℕ) (fails : Bool) (line int : ℕ) (p : List ℕ × List ℕ)
      → Moves before line p.1 line
      → MovesTo before line (end_identifier C L fails line int p)
  unfolding end_identifier
  end_identifier-Moves before fails line int (str, []) h = ground (arith, h)
  end_identifier-Moves before fails line int (str, c ∷ rest) h =
      let blanks = skip_blanks rest in
      ground (
        arith,
        h,
        skip_blanks-Moves rest line,
        skip_cr-Moves blanks line,
        further (scan_text_line-Moves at_eof fails (skip_cr blanks) line str int) (
            Suffix-trans (skip_cr-Moves blanks line).2 (
              Suffix-trans (skip_blanks-Moves rest line).2
                (Suffix-trans (behind c (whole rest)) h.2))),
      )

  scan_other-Moves :
      (fails : Bool) (c : ℕ) (rest : List ℕ) (line : ℕ) (str : List ℕ) (int : ℕ)
      → MovesTo (c ∷ rest) line (scan_other C L fails c rest line str int)
  unfolding scan_other
  scan_other-Moves fails c rest line str int =
      let name = scan_name C rest (c ∷ []) in
      let h = scan_name-Moves rest (c ∷ []) line in
      let identifier = λ (d : c ≢ lf).
        end_identifier-Moves (c ∷ rest) fails line int name (ground (arith, d, passed c h)) in
      ground (
        arith,
        stops c rest,
        scan_number-Moves (c ∷ rest) line int,
        passed c (scan_tag-Moves rest line int),
        identifier,
        is_alpha_iff c,
      )

  scan_first-Moves :
      (fails : Bool) (rest : List ℕ) (line : ℕ) (str : List ℕ) (int : ℕ)
      → MovesTo rest line (scan_first C L fails rest line str int)
  unfolding scan_first
  scan_first-Moves true [] line str int = (omega arith, refl, whole _)
  scan_first-Moves false [] line str int = (omega arith, refl, whole _)
  scan_first-Moves fails (c ∷ rest) line str int = ground (
    arith,
    stops c rest,
    passed c (scan_hash_comment-Moves fails rest line str int),
    passed c (scan_slash-Moves rest line str int),
    passed c (scan_whitespace-Moves rest (next_line c line) str int),
    passed c (scan_quoted-Moves at_start rest line [] int),
    scan_other-Moves fails c rest line str int,
  )

  scan_number-passes :
      (c : ℕ) (rest : List ℕ) (line int : ℕ)
      → is_digit c ≡ true
      → MovesTo rest line (scan_number C L (c ∷ rest) line int)
  unfolding scan_number scan_digits
  scan_number-passes c rest line int d =
      let p = scan_digits C rest (c ∷ []) in
      let digits = scan_digits-Moves rest (c ∷ []) line in
      rw d (
        end_number-Moves rest p.0 line int (suffixed C L (to_uintmax p.0) p.1)
          (ground (arith, digits, further (suffixed-Moves (to_uintmax p.0) p.1 line) digits.2)))

  scan_other-passes :
      (fails : Bool) (c : ℕ) (rest : List ℕ) (line : ℕ) (str : List ℕ) (int : ℕ)
      → length (scan_other C L fails c rest line str int).rest ≤ length rest
  unfolding scan_other
  scan_other-passes fails c rest line str int =
      let name = scan_name C rest (c ∷ []) in
      let identifier =
        end_identifier-Moves rest fails line int name (scan_name-Moves rest (c ∷ []) line) in
      ground (arith, scan_number-passes c rest line int, scan_tag-Moves rest line int, identifier)

  scan_first-passes :
      (fails : Bool) (c : ℕ) (rest : List ℕ) (line : ℕ) (str : List ℕ) (int : ℕ)
      → length (scan_first C L fails (c ∷ rest) line str int).rest ≤ length rest
  unfolding scan_first
  scan_first-passes fails c rest line str int = ground (
    arith,
    scan_hash_comment-Moves fails rest line str int,
    scan_slash-Moves rest line str int,
    scan_whitespace-Moves rest (next_line c line) str int,
    scan_quoted-Moves at_start rest line [] int,
    scan_other-passes fails c rest line str int,
  )

  scan_first-shrinks :
      (fails : Bool) (rest : List ℕ) (line : ℕ) (str : List ℕ) (int : ℕ)
      → 0 < length rest
      → length (scan_first C L fails rest line str int).rest < length rest
  scan_first-shrinks fails [] line str int h = absurd (omega arith)
  scan_first-shrinks fails (c ∷ rest) line str int h =
      ground (arith, scan_first-passes fails c rest line str int)

  cannot_start_lem : (s : Scanner) → cannot_start C L s ≡ true → length s.rest ≡ 0
  cannot_start_lem s h = ground arith

  -- Whatever the token, also an erroneous one: what is left is what was left without the text
  -- passed in front, and the line number goes up by the line feeds in that; where something is
  -- left, the scanner passes some of it. The line of the token is the one it starts in, except
  -- where the stream fails at its very first read.
  pub scan_raw_token_progress :
      (s : Scanner)
      → (((scan_raw_token C L s).1.token_line ≡ s.line) ⊎ (cannot_start C L s ≡ true))
        × Moves s.rest s.line (scan_raw_token C L s).1.rest (scan_raw_token C L s).1.line
        × (0 < length s.rest → length (scan_raw_token C L s).1.rest < length s.rest)
  unfolding scan_raw_token
  scan_raw_token_progress s =
      let first = scan_first-shrinks s.fails s.rest s.line s.str_value s.int_value in
      let moves = scan_first-Moves s.fails s.rest s.line s.str_value s.int_value in
      elim (Bool-cases (cannot_start C L s)) [
        | inl e ↦ rw e (
          inr refl,
          (omega arith, refl, whole s.rest),
          λ h. absurd (omega (arith, cannot_start_lem s e)),
        )
        | inr e ↦ rw e (inl refl, moves, first)
      ]

  scan_first-end :
      (fails : Bool) (rest : List ℕ) (line : ℕ) (str : List ℕ) (int : ℕ)
      → length rest ≡ 0
      → is_whitespace C L (scan_first C L fails rest line str int).type ≡ false
  unfolding scan_first
  scan_first-end true [] line str int h = refl
  scan_first-end false [] line str int h = refl
  scan_first-end fails (c ∷ rest) line str int h = absurd (omega arith)

  stops_at_end :
      (s : Scanner)
      → length s.rest ≡ 0
      → (scan_raw_token C L s).0 && is_whitespace C L (scan_raw_token C L s).1.token_type ≡ false
  unfolding scan_raw_token
  stops_at_end s h =
      let type = scan_first-end s.fails s.rest s.line s.str_value s.int_value h in
      elim (Bool-cases (cannot_start C L s)) [
        | inl e ↦ rw e refl
        | inr e ↦ rw e (ground (arith, type))
      ]

  abbrev Skipped : Scanner → Option Scanner → Type 0
  Skipped s result =
      (s' : Scanner) × (result ≡ some s')
      × Moves s.rest s.line s'.rest s'.line
      × (0 < length s.rest → length s'.rest < length s.rest)

  skip_loop_total :
      (fuel : ℕ) (s : Scanner) → length s.rest < fuel → Skipped s (skip_loop C L fuel s)
  unfolding skip_loop
  skip_loop_total zero s h = absurd (omega arith)
  skip_loop_total (suc fuel) s h =
      let raw = scan_raw_token C L s in
      let (_, moves, shrinks) = scan_raw_token_progress s in
      elim (Bool-cases (raw.0 && is_whitespace C L raw.1.token_type)) [
        | inl e ↦
            let (s', e', moves', _) =
              skip_loop_total fuel raw.1 (ground (arith, stops_at_end s, shrinks, h)) in
            (
              s',
              rw e e',
              ground (arith, moves, further moves' moves.2),
              ground (arith, moves', shrinks),
            )
        | inr e ↦ (raw.1, rw e refl, moves, shrinks)
      ]

  -- Skipping tokens that are whitespace always comes to an end: the loop needs one round more than
  -- there are characters left. What is left then is what was left without the text passed in front,
  -- the line number goes up by the line feeds in that, and where something is left some is passed.
  pub skip_token_total :
      (s : Scanner)
      → (s' : Scanner) × (skip_token C L s ≡ some s')
        × Moves s.rest s.line s'.rest s'.line
        × (0 < length s.rest → length s'.rest < length s.rest)
  unfolding skip_token
  skip_token_total s = skip_loop_total (suc (length s.rest)) s (omega arith)
