-- ===== src/Lexer/Text.antt =====
-- Multi-line strings (src/lib-sieve/sieve-lexer.c, sieve_lexer_scan_raw_token): what is written with
-- dot-stuffing is what the scanner reads, and the length of strings.
use pigeonhole.Prelude.{
  ℕ, ◌+◌, ◌≤◌, ◌≡◌, ◌≢◌, ◌∙◌, ap, List, [], ◌∷◌, ◌++◌, length, All, ◌==◌, if◌then◌else◌, arith,
  append-nil, append_assoc, length-append, Bool-cases, inl, inr,
}
use pigeonhole.Lexer.{stt_string, accept, lf, cr, crlf, max_string, line_start, in_line, scan_text}
use pigeonhole.Lexer.Strings.{IsPlain}

-- A line that starts with a dot gets another one in front.
pub stuff : List ℕ → List ℕ → List ℕ
stuff [] behind = cr ∷ lf ∷ behind
stuff (c ∷ l) behind =
    let line = (c ∷ l) ++ (cr ∷ lf ∷ behind) in if c == b'.' then b'.' ∷ line else line

-- The lines with their line ends, the closing dot, and what follows it.
pub write_text : List (List ℕ) → List ℕ → List ℕ
write_text [] behind = b'.' ∷ cr ∷ lf ∷ behind
write_text (l ∷ lines) behind = stuff l (write_text lines behind)

abbrev pub text_of : List (List ℕ) → List ℕ
text_of [] = []
text_of (l ∷ lines) = l ++ (cr ∷ lf ∷ text_of lines)

end_line :
    (behind : List ℕ) (line : ℕ) (str : List ℕ) (int : ℕ)
    → length str ≤ max_string
    → scan_text in_line (cr ∷ lf ∷ behind) line str int
      ≡ scan_text line_start behind (line + 1) (str ++ crlf) int
unfolding scan_text
end_line behind line str int n = ground (arith, n)

empty_line :
    (behind : List ℕ) (line : ℕ) (str : List ℕ) (int : ℕ)
    → length str ≤ max_string
    → scan_text line_start (cr ∷ lf ∷ behind) line str int
      ≡ scan_text line_start behind (line + 1) (str ++ crlf) int
unfolding scan_text
empty_line behind line str int n = ground (arith, n)

in_line_char :
    (c : ℕ) (behind : List ℕ) (line : ℕ) (str : List ℕ) (int : ℕ)
    → IsPlain c
    → length str ≤ max_string
    → scan_text in_line (c ∷ behind) line str int
      ≡ scan_text in_line behind line (str ++ (c ∷ [])) int
unfolding scan_text
in_line_char c behind line str int p n = ground (arith, p, n)

first_char :
    (c : ℕ) (behind : List ℕ) (line : ℕ) (str : List ℕ) (int : ℕ)
    → IsPlain c
    → c ≢ b'.'
    → length str ≤ max_string
    → scan_text line_start (c ∷ behind) line str int
      ≡ scan_text in_line behind line (str ++ (c ∷ [])) int
unfolding scan_text
first_char c behind line str int p d n = ground (arith, p, d, n)

first_dot :
    (behind : List ℕ) (line : ℕ) (str : List ℕ) (int : ℕ)
    → length str ≤ max_string
    → scan_text line_start (b'.' ∷ b'.' ∷ behind) line str int
      ≡ scan_text in_line behind line (str ++ (b'.' ∷ [])) int
unfolding scan_text
first_dot behind line str int n = ground (arith, n)

stuffed_char :
    (c : ℕ) (behind : List ℕ) (line : ℕ) (str : List ℕ) (int : ℕ)
    → c ≡ b'.'
    → length str ≤ max_string
    → scan_text line_start (b'.' ∷ c ∷ behind) line str int
      ≡ scan_text in_line behind line (str ++ (c ∷ [])) int
stuffed_char c behind line str int e n = rw e (first_dot behind line str int n)

-- What is left of a line goes to the end of the string, with the line's end.
rest_of_line :
    (l behind : List ℕ) (line : ℕ) (str : List ℕ) (int : ℕ)
    → All IsPlain l
    → length (str ++ l) ≤ max_string
    → scan_text in_line (l ++ (cr ∷ lf ∷ behind)) line str int
      ≡ scan_text line_start behind (line + 1) ((str ++ l) ++ crlf) int
rest_of_line [] behind line str int h n =
    rw append-nil (end_line behind line str int (ground (arith, n, length-append str [])))
rest_of_line (c ∷ l) behind line str int (p, h) n =
    let short : length str ≤ max_string = ground (arith, n, length-append str (c ∷ l)) in
    let assoc = append_assoc str (c ∷ []) l in
    in_line_char c (l ++ (cr ∷ lf ∷ behind)) line str int p short
    ∙ rest_of_line l behind line (str ++ (c ∷ [])) int h (rw assoc n)
    ∙ ap (λ t. scan_text line_start behind (line + 1) (t ++ crlf) int) assoc

whole_line :
    (l behind : List ℕ) (line : ℕ) (str : List ℕ) (int : ℕ)
    → All IsPlain l
    → length (str ++ l) ≤ max_string
    → scan_text line_start (stuff l behind) line str int
      ≡ scan_text line_start behind (line + 1) ((str ++ l) ++ crlf) int
unfolding stuff
whole_line [] behind line str int h n =
    rw append-nil (empty_line behind line str int (ground (arith, n, length-append str [])))
whole_line (c ∷ l) behind line str int (p, h) n =
    let short : length str ≤ max_string = ground (arith, n, length-append str (c ∷ l)) in
    let assoc = append_assoc str (c ∷ []) l in
    let more =
      rest_of_line l behind line (str ++ (c ∷ [])) int h (rw assoc n)
      ∙ ap (λ t. scan_text line_start behind (line + 1) (t ++ crlf) int) assoc in
    elim (Bool-cases (c == b'.')) [
      | inl e ↦
          rw e
            (stuffed_char c (l ++ (cr ∷ lf ∷ behind)) line str int (ground (arith, e)) short ∙ more)
      | inr e ↦
          rw e
            (first_char c (l ++ (cr ∷ lf ∷ behind)) line str int p (ground (arith, e)) short ∙ more)
    ]

text_end :
    (behind : List ℕ) (line : ℕ) (str : List ℕ) (int : ℕ)
    → length str ≤ max_string
    → scan_text line_start (b'.' ∷ cr ∷ lf ∷ behind) line str int
      ≡ accept stt_string behind (line + 1) str int
unfolding scan_text
text_end behind line str int n = ground (arith, n)

-- Reading lines that have been written with dot-stuffing, each ended by CRLF, up to the line of a
-- single dot gives them back with their line ends, behind what has been read before, counts all
-- lines, and ends behind the closing line. Lines may hold any characters but NUL, CR and LF, as long
-- as the text is not longer than SIEVE_MAX_STRING_LEN.
pub scan_text-write_text :
    (lines : List (List ℕ)) (behind : List ℕ) (line : ℕ) (str : List ℕ) (int : ℕ)
    → All (All IsPlain) lines
    → length (str ++ text_of lines) ≤ max_string
    → scan_text line_start (write_text lines behind) line str int
      ≡ accept stt_string behind (line + length lines + 1) (str ++ text_of lines) int
unfolding write_text
scan_text-write_text [] behind line str int h n =
    let short : length str ≤ max_string = ground (arith, n, length-append str []) in
    rw append-nil (
      text_end behind line str int short
      ∙ ap (λ k. accept stt_string behind k str int) (omega arith))
scan_text-write_text (l ∷ lines) behind line str int (p, h) n =
    let text = text_of lines in
    let assoc = append_assoc (str ++ l) crlf text ∙ append_assoc str l (crlf ++ text) in
    let short : length (str ++ l) ≤ max_string = ground (
      arith,
      n,
      length-append str (l ++ (crlf ++ text)),
      length-append l (crlf ++ text),
      length-append str l,
    ) in
    let more =
      scan_text-write_text lines behind (line + 1) ((str ++ l) ++ crlf) int h (rw assoc n) in
    whole_line l (write_text lines behind) line str int p short
    ∙ more
    ∙ ap (λ t. accept stt_string behind (line + 1 + length lines + 1) t int) assoc
    ∙ ap (λ k. accept stt_string behind k (str ++ text_of (l ∷ lines)) int) (omega arith)
