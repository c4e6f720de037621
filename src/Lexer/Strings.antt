-- ===== src/Lexer/Strings.antt =====
-- Quoted strings (src/lib-sieve/sieve-lexer.c, sieve_lexer_scan_raw_token): what is written as a
-- quoted string is what the scanner reads.
use pigeonhole.Prelude.{
  ℕ, ◌≤◌, ◌≡◌, ◌≢◌, ◌∙◌, ap, ◌||◌, List, [], ◌∷◌, ◌++◌, length, All, ◌==◌, if◌then◌else◌, arith,
  append-nil, append_assoc, length-append, Bool-cases, inl, inr,
}
use pigeonhole.Lexer.{
  stt_string, accept, lf, cr, backslash, quote_char, max_string, at_start, scan_quoted,
}

-- How a client writes a string: quotes and backslashes are escaped, no other character is.
pub escape : List ℕ → List ℕ
escape [] = []
escape (c ∷ s) =
    let more = escape s in
    if c == quote_char || c == backslash then backslash ∷ c ∷ more else c ∷ more

-- What needs no other treatment.
abbrev pub IsPlain : ℕ → Type 0
IsPlain c = (c ≢ 0) × (c ≢ lf) × (c ≢ cr)

scan_quoted-plain :
    (c : ℕ) (rest : List ℕ) (line : ℕ) (str : List ℕ) (int : ℕ)
    → IsPlain c
    → c ≢ quote_char
    → c ≢ backslash
    → length str ≤ max_string
    → scan_quoted at_start (c ∷ rest) line str int
      ≡ scan_quoted at_start rest line (str ++ (c ∷ [])) int
unfolding scan_quoted
scan_quoted-plain c rest line str int h q b n = ground (arith, h, q, b, n)

scan_quoted-escaped :
    (c : ℕ) (rest : List ℕ) (line : ℕ) (str : List ℕ) (int : ℕ)
    → IsPlain c
    → length str ≤ max_string
    → scan_quoted at_start (backslash ∷ c ∷ rest) line str int
      ≡ scan_quoted at_start rest line (str ++ (c ∷ [])) int
unfolding scan_quoted
scan_quoted-escaped c rest line str int h n = ground (arith, h, n)

-- Reading an escaped string up to its closing quote gives the string back, behind what has been read
-- before, and ends behind the quote on the same line; it may hold any characters but NUL, CR and LF,
-- as long as the text is not longer than SIEVE_MAX_STRING_LEN.
pub scan_quoted-escape :
    (s rest : List ℕ) (line : ℕ) (str : List ℕ) (int : ℕ)
    → All IsPlain s
    → length (str ++ s) ≤ max_string
    → scan_quoted at_start (escape s ++ (quote_char ∷ rest)) line str int
      ≡ accept stt_string rest line (str ++ s) int
unfolding scan_quoted escape
scan_quoted-escape [] rest line str int h n = ground (arith, length-append str [], append-nil str)
scan_quoted-escape (c ∷ s) rest line str int (p, h) n =
    let tail = escape s ++ (quote_char ∷ rest) in
    let short : length str ≤ max_string = ground (arith, n, length-append str (c ∷ s)) in
    let assoc = append_assoc str (c ∷ []) s in
    let more = scan_quoted-escape s rest line (str ++ (c ∷ [])) int h (rw assoc n) in
    let done = more ∙ ap (λ t. accept stt_string rest line t int) assoc in
    elim (Bool-cases (c == quote_char || c == backslash)) [
      | inl e ↦ rw e (scan_quoted-escaped c tail line str int p short ∙ done)
      | inr e ↦ rw e (
          scan_quoted-plain c tail line str int p (ground (arith, e)) (ground (arith, e)) short
          ∙ done)
    ]
