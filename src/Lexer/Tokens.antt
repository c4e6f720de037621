-- ===== src/Lexer/Tokens.antt =====
-- Tokens (src/lib-sieve/sieve-lexer.c): numbers, identifiers, tags, multi-line strings, the switch
-- on the first character, and the loop that skips whitespace.
use pigeonhole.Prelude.{
  not, ℕ, zero, suc, ◌+◌, ◌*◌, ◌/◌, ◌^◌, Bool, true, false, ◌&&◌, ◌||◌, Option, none, some, List,
  [], ◌∷◌, ◌++◌, length, ltb, ◌==◌, if◌then◌else◌,
}
use pigeonhole.Ctype.{Ctype, StringLib}
use pigeonhole.Lexer.{
  TokenType, stt_none, stt_whitespace, stt_eof, stt_number, stt_identifier, stt_tag, stt_rbracket,
  stt_lbracket, stt_rcurly, stt_lcurly, stt_rsquare, stt_lsquare, stt_semicolon, stt_comma,
  stt_slash, stt_colon, stt_garbage, stt_error, Scanner, Lexeme, refuse, accept, lf, cr, quote_char,
  next_line, max_identifier, max_number, append_to, scan_hash_comment, scan_bracket_comment,
  is_space, scan_whitespace, at_start, scan_quoted, line_start, scan_text,
}

module _ (C : Ctype) where
  open C use {is_digit, is_alpha}

  is_name_char : ℕ → Bool
  is_name_char c = (is_alpha c || is_digit c) || c == b'_'

  -- The digits passed and what is left.
  unfoldable pub scan_digits : List ℕ → List ℕ → List ℕ × List ℕ
  scan_digits [] str = (str, [])
  scan_digits (c ∷ rest) str =
      let more = scan_digits rest (str ++ (c ∷ [])) in if is_digit c then more else (str, c ∷ rest)

  -- The rest of an identifier; one character more than allowed is kept, to show that it is too
  -- long.
  unfoldable pub scan_name : List ℕ → List ℕ → List ℕ × List ℕ
  unfolding is_name_char
  scan_name [] str = (str, [])
  scan_name (c ∷ rest) str =
      let more = scan_name rest (append_to max_identifier str (c ∷ [])) in
      if is_name_char c then more else (str, c ∷ rest)

-- A suffix shifts by `bits`, unless the result would not fit.
abbrev pub shifted : ℕ → ℕ → List ℕ → Option ℕ × List ℕ
shifted value bits rest =
    (if ltb (max_number / 2 ^ bits) value then none else some (value * 2 ^ bits), rest)

-- The value with its suffix, `none` on overflow, and what is left.
unfoldable pub scan_suffix : ℕ → List ℕ → Option ℕ × List ℕ
scan_suffix value [] = (some value, [])
scan_suffix value (c ∷ rest) =
    if c == b'k' || c == b'K'
    then shifted value 10 rest
    else if c == b'm' || c == b'M'
    then shifted value 20 rest
    else if c == b'g' || c == b'G'
    then shifted value 30 rest
    else (some value, c ∷ rest)

-- Behind `text:` and blanks: a CR may stand before what is looked at.
unfoldable pub skip_blanks : List ℕ → List ℕ
skip_blanks [] = []
skip_blanks (c ∷ rest) = if c == 32 || c == 9 then skip_blanks rest else c ∷ rest

unfoldable pub skip_cr : List ℕ → List ℕ
skip_cr [] = []
skip_cr (c ∷ rest) = if c == cr then rest else c ∷ rest

-- After a hash comment behind `text:` the stream must not have its eof set; where nothing is left
-- without that, the scan of the text refuses.
unfoldable pub text_after_comment : (List ℕ → Bool) → Lexeme → Lexeme
unfolding scan_text
text_after_comment at_eof l =
    if not l.success
    then l
    else if at_eof l.rest
    then refuse l.rest l.line l.str l.int
    else scan_text line_start l.rest l.line [] l.int

unfoldable pub scan_text_line : (List ℕ → Bool) → Bool → List ℕ → ℕ → List ℕ → ℕ → Lexeme
unfolding scan_text scan_hash_comment text_after_comment
scan_text_line at_eof fails [] line str int = refuse [] line str int
scan_text_line at_eof fails (c ∷ rest) line str int =
    if c == b'#'
    then text_after_comment at_eof (scan_hash_comment fails (c ∷ rest) line str int)
    else if c == lf
    then scan_text line_start rest (line + 1) [] int
    else refuse (c ∷ rest) line str int

abbrev pub end_name : TokenType → ℕ → ℕ → List ℕ → List ℕ → Lexeme
end_name type line int str rest =
    if ltb max_identifier (length str)
    then refuse rest line str int
    else accept type rest line str int

abbrev pub text_word : List ℕ
text_word = b't' ∷ b'e' ∷ b'x' ∷ b't' ∷ []

abbrev pub single_char : ℕ → Option TokenType
single_char c =
    if c == b']'
    then some stt_rsquare
    else if c == b'['
    then some stt_lsquare
    else if c == b'}'
    then some stt_rcurly
    else if c == b'{'
    then some stt_lcurly
    else if c == b')'
    then some stt_rbracket
    else if c == b'('
    then some stt_lbracket
    else if c == b';'
    then some stt_semicolon
    else if c == b','
    then some stt_comma
    else none

-- Behind a slash.
unfoldable pub scan_slash : List ℕ → ℕ → List ℕ → ℕ → Lexeme
unfolding scan_bracket_comment
scan_slash [] line str int = accept stt_slash [] line str int
scan_slash (c ∷ rest) line str int =
    if c == b'*'
    then scan_bracket_comment false rest line str int
    else accept stt_slash (c ∷ rest) line str int

module _ (C : Ctype) (L : StringLib C) where
  open C use {is_digit, is_alpha}
  open L use {begins_icase, to_uintmax, at_eof}

  unfoldable pub suffixed : Option ℕ → List ℕ → Option ℕ × List ℕ
  unfolding scan_suffix
  suffixed none rest = (none, rest)
  suffixed (some value) rest = scan_suffix value rest

  abbrev pub end_number : List ℕ → ℕ → ℕ → Option ℕ × List ℕ → Lexeme
  end_number str line int (none, rest) = refuse rest line str int
  end_number str line int (some value, rest) = accept stt_number rest line str value

  abbrev pub number_from : ℕ → ℕ → List ℕ × List ℕ → Lexeme
  number_from line int (str, rest) = end_number str line int (suffixed (to_uintmax str) rest)

  unfoldable pub scan_number : List ℕ → ℕ → ℕ → Lexeme
  unfolding scan_digits suffixed
  scan_number rest line int = number_from line int (scan_digits C rest [])

  -- An identifier may turn out to start a multi-line string.
  unfoldable pub end_identifier : Bool → ℕ → ℕ → List ℕ × List ℕ → Lexeme
  unfolding scan_text_line skip_blanks skip_cr
  end_identifier fails line int (str, []) = end_name stt_identifier line int str []
  end_identifier fails line int (str, c ∷ rest) =
      if c == b':' && (length str == 4 && begins_icase str text_word)
      then scan_text_line at_eof fails (skip_cr (skip_blanks rest)) line str int
      else end_name stt_identifier line int str (c ∷ rest)

  abbrev pub end_tag : ℕ → ℕ → List ℕ × List ℕ → Lexeme
  end_tag line int (str, rest) = end_name stt_tag line int str rest

  -- Behind a colon.
  unfoldable pub scan_tag : List ℕ → ℕ → ℕ → Lexeme
  unfolding scan_name
  scan_tag [] line int = accept stt_colon [] line [] int
  scan_tag (c ∷ rest) line int =
      if is_alpha c || c == b'_'
      then end_tag line int (scan_name C rest (c ∷ []))
      else accept stt_colon (c ∷ rest) line [] int

  unfoldable pub scan_other : Bool → ℕ → List ℕ → ℕ → List ℕ → ℕ → Lexeme
  unfolding scan_number scan_tag scan_name end_identifier
  scan_other fails c rest line str int =
      if is_digit c
      then scan_number (c ∷ rest) line int
      else if c == b':'
      then scan_tag rest line int
      else if is_alpha c || c == b'_'
      then end_identifier fails line int (scan_name C rest (c ∷ []))
      else record {
        success = false;
        type = stt_garbage;
        rest = rest;
        line = next_line c line;
        str = str;
        int = int;
      }

  abbrev pub single_or : Option TokenType → Lexeme → List ℕ → ℕ → List ℕ → ℕ → Lexeme
  single_or none other rest line str int = other
  single_or (some type) other rest line str int = accept type rest line str int

  -- The switch on the first character.
  unfoldable pub scan_first : Bool → List ℕ → ℕ → List ℕ → ℕ → Lexeme
  unfolding scan_hash_comment scan_slash scan_whitespace scan_quoted scan_other
  scan_first true [] line str int = refuse [] line str int
  scan_first false [] line str int = accept stt_eof [] line str int
  scan_first fails (c ∷ rest) line str int =
      if c == b'#'
      then scan_hash_comment fails rest line str int
      else if c == b'/'
      then scan_slash rest line str int
      else if is_space c
      then scan_whitespace rest (next_line c line) str int
      else if c == quote_char
      then scan_quoted at_start rest line [] int
      else single_or (single_char c) (scan_other fails c rest line str int) rest line str int

  abbrev pub with_lexeme : Scanner → Lexeme → Scanner
  with_lexeme s l = record {
    rest = l.rest;
    fails = s.fails;
    line = l.line;
    token_type = l.type;
    str_value = l.str;
    int_value = l.int;
    token_line = s.line;
  }

  -- A stream that fails at its first read is told from one that fails later: no line is noted.
  abbrev pub cannot_start : Scanner → Bool
  cannot_start s = elim s.token_type [ stt_none ↦ s.fails && length s.rest == 0 | _ ↦ false ]

  unfoldable pub scan_raw_token : Scanner → Bool × Scanner
  unfolding scan_first
  scan_raw_token s =
      let l = scan_first s.fails s.rest s.line s.str_value s.int_value in
      if cannot_start s
      then (false, record s { token_type = stt_error })
      else (l.success, with_lexeme s l)

  abbrev pub is_whitespace : TokenType → Bool
  is_whitespace type = elim type [ stt_whitespace ↦ true | _ ↦ false ]

  -- `none` is what the model answers out of fuel.
  unfoldable pub skip_loop : ℕ → Scanner → Option Scanner
  unfolding scan_raw_token
  skip_loop zero s = none
  skip_loop (suc fuel) s =
      let (success, s') = scan_raw_token s in
      let again = skip_loop fuel s' in
      if success && is_whitespace s'.token_type then again else some s'

  unfoldable pub skip_token : Scanner → Option Scanner
  unfolding skip_loop
  skip_token s = skip_loop (suc (length s.rest)) s
