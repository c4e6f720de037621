-- ===== src/Lexer.antt =====
-- The lexical scanner of Sieve scripts (src/lib-sieve/sieve-lexer.c).
--
-- The scanner's position is what the stream still has to give, its head being
-- sieve_lexer_curchar (-1 when nothing is left): sieve_lexer_shift drops the head and counts a
-- line at LF. How the stream cuts the script into buffers shows only in when it sets its eof, which
-- the scanner asks for once, through `at_eof`. The read at the first token consumes nothing. `fails` says that the stream ends in a read error and not in the end of
-- the file. Error texts and warnings are left out; what an error does to the token is not.
-- Loops that look at one character in several places of their body carry the place as a mode.
pub mod Tokens
pub mod Moves
pub mod Progress
pub mod Strings
pub mod Text
pub mod Limits
pub mod Numbers
use pigeonhole.Prelude.{
  ℕ, zero, suc, ◌+◌, ◌-◌, ◌*◌, ◌/◌, ◌^◌, ◌≤◌, ◌<◌, ◌≡◌, ◌↔◌, Bool, true, false, not, ◌&&◌, ◌||◌,
  Option, none, some, List, [], ◌∷◌, ◌++◌, length, All, ltb, leb, ◌==◌, if◌then◌else◌,
}

pub data TokenType : Type 0 where
  stt_none stt_whitespace stt_eof stt_number stt_identifier stt_tag stt_string : TokenType
  stt_rbracket stt_lbracket stt_rcurly stt_lcurly stt_rsquare stt_lsquare : TokenType
  stt_semicolon stt_comma stt_slash stt_colon stt_garbage stt_error : TokenType

-- `rest` and `line` are the position; the other fields are those of struct sieve_lexer.
pub record Scanner : Type 0 where
  pub rest : List ℕ
  pub fails : Bool
  pub line : ℕ
  pub token_type : TokenType
  pub str_value : List ℕ
  pub int_value : ℕ
  pub token_line : ℕ

-- What a scanning function returns, with the position it has come to and the token.
pub record Lexeme : Type 0 where
  pub success : Bool
  pub type : TokenType
  pub rest : List ℕ
  pub line : ℕ
  pub str : List ℕ
  pub int : ℕ

abbrev pub refuse : List ℕ → ℕ → List ℕ → ℕ → Lexeme
refuse rest line str int = record {
  success = false;
  type = stt_error;
  rest = rest;
  line = line;
  str = str;
  int = int;
}

abbrev pub accept : TokenType → List ℕ → ℕ → List ℕ → ℕ → Lexeme
accept type rest line str int = record {
  success = true;
  type = type;
  rest = rest;
  line = line;
  str = str;
  int = int;
}

abbrev pub lf : ℕ
lf = 10

abbrev pub cr : ℕ
cr = 13

abbrev pub backslash : ℕ
backslash = 92

abbrev pub quote_char : ℕ
quote_char = 34

abbrev pub next_line : ℕ → ℕ → ℕ
next_line c line = if c == lf then line + 1 else line

-- SIEVE_MAX_STRING_LEN, SIEVE_MAX_IDENTIFIER_LEN and SIEVE_MAX_NUMBER
abbrev pub max_string : ℕ
max_string = 2 ^ 20

abbrev pub max_identifier : ℕ
max_identifier = 32

abbrev pub max_number : ℕ
max_number = 2 ^ 64 - 1

-- Text is kept only while it is not yet too long.
abbrev pub append_to : ℕ → List ℕ → List ℕ → List ℕ
append_to limit str more = if leb (length str) limit then str ++ more else str

unfoldable pub scan_hash_comment : Bool → List ℕ → ℕ → List ℕ → ℕ → Lexeme
scan_hash_comment true [] line str int = refuse [] line str int
scan_hash_comment false [] line str int = accept stt_whitespace [] line str int
scan_hash_comment fails (c ∷ rest) line str int =
    let more = scan_hash_comment fails rest line str int in
    if c == lf
    then accept stt_whitespace rest (line + 1) str int
    else if c == 0
    then refuse (c ∷ rest) line str int
    else more

-- Behind the opening `/*`. `star` says that the last character was a star.
unfoldable pub scan_bracket_comment : Bool → List ℕ → ℕ → List ℕ → ℕ → Lexeme
scan_bracket_comment star [] line str int = refuse [] line str int
scan_bracket_comment star (c ∷ rest) line str int =
    let more = scan_bracket_comment (c == b'*') rest (next_line c line) str int in
    if star && c == b'/'
    then accept stt_whitespace rest line str int
    else if c == 0
    then refuse (c ∷ rest) line str int
    else more

abbrev pub is_space : ℕ → Bool
is_space c = c == 9 || (c == cr || (c == lf || c == 32))

unfoldable pub scan_whitespace : List ℕ → ℕ → List ℕ → ℕ → Lexeme
scan_whitespace [] line str int = accept stt_whitespace [] line str int
scan_whitespace (c ∷ rest) line str int =
    let more = scan_whitespace rest (next_line c line) str int in
    if is_space c then more else accept stt_whitespace (c ∷ rest) line str int

-- Where the loop over a quoted string looks at a character: at its test, behind a backslash, or
-- behind a CR.
pub data QuoteMode : Type 0 where
  at_start escaped after_cr : QuoteMode

abbrev pub crlf : List ℕ
crlf = cr ∷ lf ∷ []

abbrev pub end_string : List ℕ → ℕ → List ℕ → ℕ → Lexeme
end_string rest line str int =
    if ltb max_string (length str)
    then refuse rest line str int
    else accept stt_string rest line str int

-- Behind the opening quote.
unfoldable pub scan_quoted : QuoteMode → List ℕ → ℕ → List ℕ → ℕ → Lexeme
scan_quoted mode [] line str int = refuse [] line str int
scan_quoted at_start (c ∷ rest) line str int =
    let plain = scan_quoted at_start rest line (append_to max_string str (c ∷ [])) int in
    let end_line = scan_quoted at_start rest (line + 1) (append_to max_string str crlf) int in
    let seen_cr = scan_quoted after_cr rest line str int in
    let seen_backslash = scan_quoted escaped rest line str int in
    if c == quote_char
    then end_string rest line str int
    else if c == backslash
    then seen_backslash
    else if c == 0
    then refuse (c ∷ rest) line str int
    else if c == cr
    then seen_cr
    else if c == lf
    then end_line
    else plain
scan_quoted escaped (c ∷ rest) line str int =
    let plain = scan_quoted at_start rest line (append_to max_string str (c ∷ [])) int in
    let end_line = scan_quoted at_start rest (line + 1) (append_to max_string str crlf) int in
    let seen_cr = scan_quoted after_cr rest line str int in
    if c == 0
    then refuse (c ∷ rest) line str int
    else if c == cr
    then seen_cr
    else if c == lf
    then end_line
    else plain
scan_quoted after_cr (c ∷ rest) line str int =
    let end_line = scan_quoted at_start rest (line + 1) (append_to max_string str crlf) int in
    if c == lf then end_line else refuse (c ∷ rest) line str int

-- Where the loop over a multi-line string looks at a character.
pub data TextMode : Type 0 where
  line_start after_dot dot_cr in_line line_cr : TextMode

-- Behind the line of `text:`.
unfoldable pub scan_text : TextMode → List ℕ → ℕ → List ℕ → ℕ → Lexeme
scan_text mode [] line str int = refuse [] line str int
scan_text line_start (c ∷ rest) line str int =
    let seen_dot = scan_text after_dot rest line str int in
    let end_line = scan_text line_start rest (line + 1) (append_to max_string str crlf) int in
    let seen_cr = scan_text line_cr rest line str int in
    let plain = scan_text in_line rest line (append_to max_string str (c ∷ [])) int in
    if c == b'.'
    then seen_dot
    else if c == lf
    then end_line
    else if c == cr
    then seen_cr
    else if c == 0
    then refuse (c ∷ rest) line str int
    else plain
scan_text after_dot (c ∷ rest) line str int =
    let seen_cr = scan_text dot_cr rest line str int in
    let str' = append_to max_string str (b'.' ∷ []) in
    let stuffed = scan_text in_line rest line str' int in
    let plain = scan_text in_line rest line (append_to max_string str' (c ∷ [])) int in
    if c == cr
    then seen_cr
    else if c == lf
    then end_string rest (line + 1) str int
    else if c == b'.'
    then stuffed
    else if c == 0
    then refuse (c ∷ rest) line str' int
    else plain
scan_text dot_cr (c ∷ rest) line str int =
    if c == lf then end_string rest (line + 1) str int else refuse (c ∷ rest) line str int
scan_text in_line (c ∷ rest) line str int =
    let end_line = scan_text line_start rest (line + 1) (append_to max_string str crlf) int in
    let seen_cr = scan_text line_cr rest line str int in
    let plain = scan_text in_line rest line (append_to max_string str (c ∷ [])) int in
    if c == lf
    then end_line
    else if c == cr
    then seen_cr
    else if c == 0
    then refuse (c ∷ rest) line str int
    else plain
scan_text line_cr (c ∷ rest) line str int =
    let end_line = scan_text line_start rest (line + 1) (append_to max_string str crlf) int in
    if c == lf then end_line else refuse (c ∷ rest) line str int
