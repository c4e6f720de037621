-- ===== src/Lexer/Limits.antt =====
-- How long the strings and names of tokens get (src/lib-sieve/sieve-lexer.c).
use pigeonhole.Prelude.{
  ℕ, ◌+◌, ◌≤◌, ◌≡◌, Bool, true, false, Option, none, some, List, [], ◌∷◌, length, ◌==◌, arith,
  ==_iff, Bool-cases, inl, inr,
}
use pigeonhole.Ctype.{Ctype, StringLib}
use pigeonhole.Lexer.{
  TokenType, stt_identifier, stt_tag, stt_string, Scanner, Lexeme, lf, crlf, next_line, max_string,
  max_identifier, append_to, scan_hash_comment, scan_bracket_comment, scan_whitespace, QuoteMode,
  at_start, escaped, after_cr, scan_quoted, TextMode, line_start, after_dot, dot_cr, in_line,
  line_cr, scan_text,
}
use pigeonhole.Lexer.Tokens.{
  scan_digits, scan_name, text_after_comment, skip_blanks, skip_cr, scan_other, suffixed,
  end_number, end_identifier, scan_text_line, scan_slash, scan_number, scan_tag, scan_first,
  scan_raw_token, cannot_start,
}

-- Strings and names are not longer than SIEVE_MAX_STRING_LEN and SIEVE_MAX_IDENTIFIER_LEN.
abbrev pub IsLimited : TokenType → List ℕ → Type 0
IsLimited type str =
    (type ≡ stt_string → length str ≤ max_string)
    × (type ≡ stt_identifier → length str ≤ max_identifier)
    × (type ≡ stt_tag → length str ≤ max_identifier)

abbrev Limited : Lexeme → Type 0
Limited l = IsLimited l.type l.str

scan_hash_comment-Limited :
    (fails : Bool) (rest : List ℕ) (line : ℕ) (str : List ℕ) (int : ℕ)
    → Limited (scan_hash_comment fails rest line str int)
unfolding scan_hash_comment
scan_hash_comment-Limited true [] line str int = ground arith
scan_hash_comment-Limited false [] line str int = ground arith
scan_hash_comment-Limited fails (c ∷ rest) line str int =
    ground (arith, scan_hash_comment-Limited fails rest line str int, ==_iff c lf)

scan_bracket_comment-Limited :
    (star : Bool) (rest : List ℕ) (line : ℕ) (str : List ℕ) (int : ℕ)
    → Limited (scan_bracket_comment star rest line str int)
unfolding scan_bracket_comment
scan_bracket_comment-Limited star [] line str int = ground arith
scan_bracket_comment-Limited star (c ∷ rest) line str int = ground (
  arith,
  scan_bracket_comment-Limited (c == b'*') rest (next_line c line) str int,
  ==_iff c lf,
  ==_iff c b'/',
)

scan_whitespace-Limited :
    (rest : List ℕ) (line : ℕ) (str : List ℕ) (int : ℕ)
    → Limited (scan_whitespace rest line str int)
unfolding scan_whitespace
scan_whitespace-Limited [] line str int = ground arith
scan_whitespace-Limited (c ∷ rest) line str int =
    ground (arith, scan_whitespace-Limited rest (next_line c line) str int)

scan_quoted-Limited :
    (mode : QuoteMode) (rest : List ℕ) (line : ℕ) (str : List ℕ) (int : ℕ)
    → Limited (scan_quoted mode rest line str int)
unfolding scan_quoted
scan_quoted-Limited mode [] line str int = ground arith
scan_quoted-Limited at_start (c ∷ rest) line str int = ground (
  arith,
  scan_quoted-Limited at_start rest line (append_to max_string str (c ∷ [])) int,
  scan_quoted-Limited at_start rest (line + 1) (append_to max_string str crlf) int,
  scan_quoted-Limited after_cr rest line str int,
  scan_quoted-Limited escaped rest line str int,
)
scan_quoted-Limited escaped (c ∷ rest) line str int = ground (
  arith,
  scan_quoted-Limited at_start rest line (append_to max_string str (c ∷ [])) int,
  scan_quoted-Limited at_start rest (line + 1) (append_to max_string str crlf) int,
  scan_quoted-Limited after_cr rest line str int,
)
scan_quoted-Limited after_cr (c ∷ rest) line str int =
    ground (arith, scan_quoted-Limited at_start rest (line + 1) (append_to max_string str crlf) int)

scan_text-Limited :
    (mode : TextMode) (rest : List ℕ) (line : ℕ) (str : List ℕ) (int : ℕ)
    → Limited (scan_text mode rest line str int)
unfolding scan_text
scan_text-Limited mode [] line str int = ground arith
scan_text-Limited line_start (c ∷ rest) line str int = ground (
  arith,
  scan_text-Limited after_dot rest line str int,
  scan_text-Limited line_start rest (line + 1) (append_to max_string str crlf) int,
  scan_text-Limited line_cr rest line str int,
  scan_text-Limited in_line rest line (append_to max_string str (c ∷ [])) int,
)
scan_text-Limited after_dot (c ∷ rest) line str int =
    let str' = append_to max_string str (b'.' ∷ []) in
    ground (
      arith,
      scan_text-Limited dot_cr rest line str int,
      scan_text-Limited in_line rest line str' int,
      scan_text-Limited in_line rest line (append_to max_string str' (c ∷ [])) int,
    )
scan_text-Limited dot_cr (c ∷ rest) line str int = ground arith
scan_text-Limited in_line (c ∷ rest) line str int = ground (
  arith,
  scan_text-Limited line_start rest (line + 1) (append_to max_string str crlf) int,
  scan_text-Limited line_cr rest line str int,
  scan_text-Limited in_line rest line (append_to max_string str (c ∷ [])) int,
)
scan_text-Limited line_cr (c ∷ rest) line str int =
    ground (arith, scan_text-Limited line_start rest (line + 1) (append_to max_string str crlf) int)

text_after_comment-Limited :
    (at_eof : List ℕ → Bool) (rest : List ℕ) (line : ℕ) (l : Lexeme)
    → Limited l
    → Limited (text_after_comment at_eof l)
unfolding text_after_comment
text_after_comment-Limited at_eof rest line l h =
    ground (arith, scan_text-Limited line_start l.rest l.line [] l.int)

scan_text_line-Limited :
    (at_eof : List ℕ → Bool) (fails : Bool) (rest : List ℕ) (line : ℕ) (str : List ℕ) (int : ℕ)
    → Limited (scan_text_line at_eof fails rest line str int)
unfolding scan_text_line
scan_text_line-Limited at_eof fails [] line str int = ground arith
scan_text_line-Limited at_eof fails (c ∷ rest) line str int =
    let l = scan_hash_comment fails (c ∷ rest) line str int in
    let h = scan_hash_comment-Limited fails (c ∷ rest) line str int in
    ground (
      arith,
      text_after_comment-Limited at_eof (c ∷ rest) line l h,
      scan_text-Limited line_start rest (line + 1) [] int,
    )

scan_slash-Limited :
    (rest : List ℕ) (line : ℕ) (str : List ℕ) (int : ℕ) → Limited (scan_slash rest line str int)
unfolding scan_slash
scan_slash-Limited [] line str int = ground arith
scan_slash-Limited (c ∷ rest) line str int =
    ground (arith, scan_bracket_comment-Limited false rest line str int)

module _ (C : Ctype) (L : StringLib C) where
  open C use {is_digit, is_alpha}
  open L use {to_uintmax, at_eof}

  end_number-Limited :
      (str : List ℕ) (line int : ℕ) (p : Option ℕ × List ℕ)
      → Limited (end_number C L str line int p)
  end_number-Limited str line int (none, rest) = ground arith
  end_number-Limited str line int (some value, rest) = ground arith

  scan_number-Limited : (rest : List ℕ) (line int : ℕ) → Limited (scan_number C L rest line int)
  unfolding scan_number
  scan_number-Limited rest line int =
      let p = scan_digits C rest [] in
      end_number-Limited p.0 line int (suffixed C L (to_uintmax p.0) p.1)

  scan_tag-Limited : (rest : List ℕ) (line int : ℕ) → Limited (scan_tag C L rest line int)
  unfolding scan_tag
  scan_tag-Limited [] line int = ground arith
  scan_tag-Limited (c ∷ rest) line int = ground arith

  end_identifier-Limited :
      (fails : Bool) (line int : ℕ) (p : List ℕ × List ℕ)
      → Limited (end_identifier C L fails line int p)
  unfolding end_identifier
  end_identifier-Limited fails line int (str, []) = ground arith
  end_identifier-Limited fails line int (str, c ∷ rest) =
      ground (arith, scan_text_line-Limited at_eof fails (skip_cr (skip_blanks rest)) line str int)

  scan_other-Limited :
      (fails : Bool) (c : ℕ) (rest : List ℕ) (line : ℕ) (str : List ℕ) (int : ℕ)
      → Limited (scan_other C L fails c rest line str int)
  unfolding scan_other
  scan_other-Limited fails c rest line str int = ground (
    arith,
    scan_number-Limited (c ∷ rest) line int,
    scan_tag-Limited rest line int,
    end_identifier-Limited fails line int (scan_name C rest (c ∷ [])),
  )

  scan_first-Limited :
      (fails : Bool) (rest : List ℕ) (line : ℕ) (str : List ℕ) (int : ℕ)
      → Limited (scan_first C L fails rest line str int)
  unfolding scan_first
  scan_first-Limited true [] line str int = ground arith
  scan_first-Limited false [] line str int = ground arith
  scan_first-Limited fails (c ∷ rest) line str int = ground (
    arith,
    scan_hash_comment-Limited fails rest line str int,
    scan_slash-Limited rest line str int,
    scan_whitespace-Limited rest (next_line c line) str int,
    scan_quoted-Limited at_start rest line [] int,
    scan_other-Limited fails c rest line str int,
  )

  -- A token that is a string has at most SIEVE_MAX_STRING_LEN bytes, and an identifier or a tag at
  -- most SIEVE_MAX_IDENTIFIER_LEN.
  pub scan_raw_token-IsLimited :
      (s : Scanner)
      → IsLimited (scan_raw_token C L s).1.token_type (scan_raw_token C L s).1.str_value
  unfolding scan_raw_token
  scan_raw_token-IsLimited s =
      let first = scan_first-Limited s.fails s.rest s.line s.str_value s.int_value in
      elim (Bool-cases (cannot_start C L s)) [ inl e ↦ rw e (ground arith) | inr e ↦ rw e first ]
