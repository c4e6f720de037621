-- ===== src/Tests/Tokens.antt =====
-- Tokens of concrete scripts (src/lib-sieve/sieve-lexer.c).
use pigeonhole.Prelude.{
  ℕ, ◌+◌, ◌*◌, ◌^◌, ◌<◌, ◌≡◌, ◌↔◌, ◌⊎◌, true, false, some, List, [], ◌∷◌, ◌++◌, length, arith,
}
use pigeonhole.Ctype.{ascii, ascii_strings, decimal}
use pigeonhole.Lexer.{
  stt_none, stt_number, stt_string, Scanner, accept, quote_char, at_start, scan_quoted, line_start,
  scan_text,
}
use pigeonhole.Lexer.Tokens.{scan_raw_token, cannot_start, skip_token, scan_number}
use pigeonhole.Lexer.Moves.{Moves}
use pigeonhole.Lexer.Progress.{scan_raw_token_progress, skip_token_total}
use pigeonhole.Lexer.Strings.{escape, scan_quoted-escape}
use pigeonhole.Lexer.Text.{write_text, text_of, scan_text-write_text}
use pigeonhole.Lexer.Limits.{IsLimited, scan_raw_token-IsLimited}
use pigeonhole.Lexer.Numbers.{scan_number_unit}

-- A line feed and `5K;`
abbrev script : List ℕ
script = 10 ∷ b'5' ∷ b'K' ∷ b';' ∷ []

abbrev at_begin : Scanner
at_begin = record {
  rest = script;
  fails = false;
  line = 1;
  token_type = stt_none;
  str_value = [];
  int_value = 0;
  token_line = 1;
}

scan_raw_token_example :
    (((scan_raw_token ascii ascii_strings at_begin).1.token_line ≡ 1)
      ⊎ (cannot_start ascii ascii_strings at_begin ≡ true))
    × Moves script 1
        (scan_raw_token ascii ascii_strings at_begin).1.rest
        (scan_raw_token ascii ascii_strings at_begin).1.line
    × (0 < 4 → length (scan_raw_token ascii ascii_strings at_begin).1.rest < 4)
scan_raw_token_example = scan_raw_token_progress ascii ascii_strings at_begin

skip_token_example :
    (s' : Scanner) × (skip_token ascii ascii_strings at_begin ≡ some s')
    × Moves script 1 s'.rest s'.line
    × (0 < 4 → length s'.rest < 4)
skip_token_example = skip_token_total ascii ascii_strings at_begin

-- A quote and an `a`.
scan_quoted_example :
    scan_quoted at_start (escape (quote_char ∷ b'a' ∷ []) ++ (quote_char ∷ [])) 1 [] 0
    ≡ accept stt_string [] 1 (quote_char ∷ b'a' ∷ []) 0
scan_quoted_example =
    scan_quoted-escape (quote_char ∷ b'a' ∷ []) [] 1 [] 0 (ground arith) (omega arith)

scan_number_example :
    ((scan_number ascii ascii_strings ((b'5' ∷ []) ++ (b'K' ∷ [])) 1 0).success ≡ true
      ↔ decimal 0 (b'5' ∷ []) * 2 ^ 10 < 2 ^ 64)
    × (decimal 0 (b'5' ∷ []) * 2 ^ 10 < 2 ^ 64
        → scan_number ascii ascii_strings ((b'5' ∷ []) ++ (b'K' ∷ [])) 1 0
          ≡ accept stt_number [] 1 (b'5' ∷ []) (decimal 0 (b'5' ∷ []) * 2 ^ 10))
scan_number_example =
    scan_number_unit ascii ascii_strings b'5' [] b'K' 10 [] 1 0 (ground arith) (ground arith)

-- The lines `.a` and the empty line.
abbrev two_lines : List (List ℕ)
two_lines = (b'.' ∷ b'a' ∷ []) ∷ ([] ∷ [])

scan_text_example :
    scan_text line_start (write_text two_lines (b';' ∷ [])) 2 [] 0
    ≡ accept stt_string (b';' ∷ []) (2 + 2 + 1) (text_of two_lines) 0
scan_text_example =
    scan_text-write_text two_lines (b';' ∷ []) 2 [] 0 (ground arith, (tt, tt)) (omega arith)

scan_raw_token-IsLimited_example :
    IsLimited
      (scan_raw_token ascii ascii_strings at_begin).1.token_type
      (scan_raw_token ascii ascii_strings at_begin).1.str_value
scan_raw_token-IsLimited_example = scan_raw_token-IsLimited ascii ascii_strings at_begin
