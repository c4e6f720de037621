-- ===== src/Lexer/Moves.antt =====
-- Where scanning text and strings stops (src/lib-sieve/sieve-lexer.c): the scanner only moves
-- forward, and its line number counts the line feeds passed.
use pigeonhole.Prelude.{
  ℕ, ◌+◌, ◌≤◌, ◌≡◌, Bool, true, false, List, [], ◌∷◌, length, ◌==◌, arith, refl, ==_iff,
}
use pigeonhole.Lexer.{
  Lexeme, lf, next_line, max_string, crlf, append_to, scan_hash_comment, scan_bracket_comment,
  scan_whitespace, QuoteMode, at_start, escaped, after_cr, scan_quoted, TextMode, line_start,
  after_dot, dot_cr, in_line, line_cr, scan_text,
}
use pigeonhole.Lexer.Tokens.{
  text_after_comment, scan_suffix, skip_blanks, skip_cr, scan_text_line, scan_slash,
}

abbrev pub line_feeds : List ℕ → ℕ
line_feeds [] = 0
line_feeds (c ∷ s) = next_line c (line_feeds s)

-- The second text is the first one with something in front of it.
pub data Suffix : List ℕ → List ℕ → Type 0 where
  whole : (l : List ℕ) → Suffix l l
  behind : (c : ℕ) {l m : List ℕ} → Suffix l m → Suffix l (c ∷ m)

-- From one position to another: what is left stands at the end of what was left, so text is passed
-- from the front and as it is, and the line feeds passed are counted.
abbrev pub Moves : List ℕ → ℕ → List ℕ → ℕ → Type 0
Moves rest line rest' line' =
    (length rest' ≤ length rest)
    × (line' + line_feeds rest' ≡ line + line_feeds rest)
    × Suffix rest' rest

pub Suffix-trans : {l m n : List ℕ} → Suffix l m → Suffix m n → Suffix l n
Suffix-trans h (whole _) = h
Suffix-trans h (behind c k) = behind c (Suffix-trans h k)

-- What is known of a position, for a text with one character more in front.
pub passed : (c : ℕ) {P Q : Type 0} {l m : List ℕ} → P × Q × Suffix l m → P × Q × Suffix l (c ∷ m)
passed c (p, q, h) = (p, q, behind c h)

pub further : {P Q : Type 0} {l m n : List ℕ} → P × Q × Suffix l m → Suffix m n → P × Q × Suffix l n
further (p, q, h) k = (p, q, Suffix-trans h k)

-- The scanner stops behind a character, or in front of it.
pub stops : (c : ℕ) (rest : List ℕ) → Suffix rest (c ∷ rest) × Suffix (c ∷ rest) (c ∷ rest)
stops c rest = (behind c (whole rest), whole (c ∷ rest))

abbrev pub MovesTo : List ℕ → ℕ → Lexeme → Type 0
MovesTo rest line l = Moves rest line l.rest l.line

pub scan_hash_comment-Moves :
    (fails : Bool) (rest : List ℕ) (line : ℕ) (str : List ℕ) (int : ℕ)
    → MovesTo rest line (scan_hash_comment fails rest line str int)
unfolding scan_hash_comment
scan_hash_comment-Moves true [] line str int = (omega arith, refl, whole [])
scan_hash_comment-Moves false [] line str int = (omega arith, refl, whole [])
scan_hash_comment-Moves fails (c ∷ rest) line str int =
    ground
      (arith, stops c rest, passed c (scan_hash_comment-Moves fails rest line str int), ==_iff c lf)

pub scan_bracket_comment-Moves :
    (star : Bool) (rest : List ℕ) (line : ℕ) (str : List ℕ) (int : ℕ)
    → MovesTo rest line (scan_bracket_comment star rest line str int)
unfolding scan_bracket_comment
scan_bracket_comment-Moves star [] line str int = (omega arith, refl, whole [])
scan_bracket_comment-Moves star (c ∷ rest) line str int = ground (
  arith,
  stops c rest,
  passed c (scan_bracket_comment-Moves (c == b'*') rest (next_line c line) str int),
  ==_iff c lf,
  ==_iff c b'/',
)

pub scan_whitespace-Moves :
    (rest : List ℕ) (line : ℕ) (str : List ℕ) (int : ℕ)
    → MovesTo rest line (scan_whitespace rest line str int)
unfolding scan_whitespace
scan_whitespace-Moves [] line str int = (omega arith, refl, whole [])
scan_whitespace-Moves (c ∷ rest) line str int =
    ground (arith, stops c rest, passed c (scan_whitespace-Moves rest (next_line c line) str int))

pub scan_quoted-Moves :
    (mode : QuoteMode) (rest : List ℕ) (line : ℕ) (str : List ℕ) (int : ℕ)
    → MovesTo rest line (scan_quoted mode rest line str int)
unfolding scan_quoted
scan_quoted-Moves mode [] line str int = (omega arith, refl, whole [])
scan_quoted-Moves at_start (c ∷ rest) line str int = ground (
  arith,
  stops c rest,
  passed c (scan_quoted-Moves at_start rest line (append_to max_string str (c ∷ [])) int),
  passed c (scan_quoted-Moves at_start rest (line + 1) (append_to max_string str crlf) int),
  passed c (scan_quoted-Moves after_cr rest line str int),
  passed c (scan_quoted-Moves escaped rest line str int),
)
scan_quoted-Moves escaped (c ∷ rest) line str int = ground (
  arith,
  stops c rest,
  passed c (scan_quoted-Moves at_start rest line (append_to max_string str (c ∷ [])) int),
  passed c (scan_quoted-Moves at_start rest (line + 1) (append_to max_string str crlf) int),
  passed c (scan_quoted-Moves after_cr rest line str int),
)
scan_quoted-Moves after_cr (c ∷ rest) line str int = ground (
  arith,
  stops c rest,
  passed c (scan_quoted-Moves at_start rest (line + 1) (append_to max_string str crlf) int),
)

pub scan_text-Moves :
    (mode : TextMode) (rest : List ℕ) (line : ℕ) (str : List ℕ) (int : ℕ)
    → MovesTo rest line (scan_text mode rest line str int)
unfolding scan_text
scan_text-Moves mode [] line str int = (omega arith, refl, whole [])
scan_text-Moves line_start (c ∷ rest) line str int = ground (
  arith,
  stops c rest,
  passed c (scan_text-Moves after_dot rest line str int),
  passed c (scan_text-Moves line_start rest (line + 1) (append_to max_string str crlf) int),
  passed c (scan_text-Moves line_cr rest line str int),
  passed c (scan_text-Moves in_line rest line (append_to max_string str (c ∷ [])) int),
)
scan_text-Moves after_dot (c ∷ rest) line str int =
    let str' = append_to max_string str (b'.' ∷ []) in
    ground (
      arith,
      stops c rest,
      passed c (scan_text-Moves dot_cr rest line str int),
      passed c (scan_text-Moves in_line rest line str' int),
      passed c (scan_text-Moves in_line rest line (append_to max_string str' (c ∷ [])) int),
    )
scan_text-Moves dot_cr (c ∷ rest) line str int = ground (arith, stops c rest)
scan_text-Moves in_line (c ∷ rest) line str int = ground (
  arith,
  stops c rest,
  passed c (scan_text-Moves line_start rest (line + 1) (append_to max_string str crlf) int),
  passed c (scan_text-Moves line_cr rest line str int),
  passed c (scan_text-Moves in_line rest line (append_to max_string str (c ∷ [])) int),
)
scan_text-Moves line_cr (c ∷ rest) line str int = ground (
  arith,
  stops c rest,
  passed c (scan_text-Moves line_start rest (line + 1) (append_to max_string str crlf) int),
)

pub text_after_comment-Moves :
    (at_eof : List ℕ → Bool) (rest : List ℕ) (line : ℕ) (l : Lexeme)
    → MovesTo rest line l
    → MovesTo rest line (text_after_comment at_eof l)
unfolding text_after_comment
text_after_comment-Moves at_eof rest line l h =
    ground (arith, further (scan_text-Moves line_start l.rest l.line [] l.int) h.2)

pub scan_text_line-Moves :
    (at_eof : List ℕ → Bool) (fails : Bool) (rest : List ℕ) (line : ℕ) (str : List ℕ) (int : ℕ)
    → MovesTo rest line (scan_text_line at_eof fails rest line str int)
unfolding scan_text_line
scan_text_line-Moves at_eof fails [] line str int = (omega arith, refl, whole [])
scan_text_line-Moves at_eof fails (c ∷ rest) line str int =
    let l = scan_hash_comment fails (c ∷ rest) line str int in
    let h = scan_hash_comment-Moves fails (c ∷ rest) line str int in
    ground (
      arith,
      stops c rest,
      text_after_comment-Moves at_eof (c ∷ rest) line l h,
      passed c (scan_text-Moves line_start rest (line + 1) [] int),
    )

pub skip_blanks-Moves : (rest : List ℕ) (line : ℕ) → Moves rest line (skip_blanks rest) line
unfolding skip_blanks
skip_blanks-Moves [] line = (omega arith, refl, whole [])
skip_blanks-Moves (c ∷ rest) line =
    ground (arith, stops c rest, passed c (skip_blanks-Moves rest line))

pub skip_cr-Moves : (rest : List ℕ) (line : ℕ) → Moves rest line (skip_cr rest) line
unfolding skip_cr
skip_cr-Moves [] line = (omega arith, refl, whole [])
skip_cr-Moves (c ∷ rest) line = ground (arith, stops c rest)

pub scan_slash-Moves :
    (rest : List ℕ) (line : ℕ) (str : List ℕ) (int : ℕ)
    → MovesTo rest line (scan_slash rest line str int)
unfolding scan_slash
scan_slash-Moves [] line str int = (omega arith, refl, whole [])
scan_slash-Moves (c ∷ rest) line str int =
    ground (arith, stops c rest, passed c (scan_bracket_comment-Moves false rest line str int))

pub scan_suffix-Moves :
    (value : ℕ) (rest : List ℕ) (line : ℕ) → Moves rest line (scan_suffix value rest).1 line
unfolding scan_suffix
scan_suffix-Moves value [] line = (omega arith, refl, whole [])
scan_suffix-Moves value (c ∷ rest) line = ground (arith, stops c rest)
