-- ===== src/Operands/Layout.antt =====
-- Strings as they are laid out in the byte code, and what reading them there gives
-- (src/lib-sieve/sieve-code.c).
use pigeonhole.Prelude.{
  ℕ, zero, suc, ◌+◌, ◌*◌, ◌%◌, ◌^◌, ◌≤◌, ◌<◌, ◌≡◌, ◌∙◌, sym, ap, refl, some, List, [], ◌∷◌, ◌++◌,
  append_assoc, append-nil, length, length-append, take, get_elem?, get_elem?-append, ◌==◌,
  if◌then◌else◌, arith,
}
use pigeonhole.Binary.{ok, read_unsigned, read_string, encode_integer}
use pigeonhole.Binary.Integer.{read_integer-encode}
use pigeonhole.Binary.Text.{read_string-layout}
use pigeonhole.Lexer.{max_string}
use pigeonhole.Operands.{
  Extension, Answer, got, or_corrupt, OperandDef, sieve_operands, operand_read, append_truncated,
  catenate, catenated_string_read, string_read, string_read_data, string_operand,
  catenated_string_operand,
}
use pigeonhole.Operands.Emit.{
  StringArg, literal, catenated, StringArgs, no_args, and_arg, arg_count,
}

abbrev pub concat : List (List ℕ) → List ℕ
concat [] = []
concat (s ∷ strs) = s ++ concat strs

-- What a catenated string is: its only part, or its parts one after the other up to the limit.
abbrev pub catenation : List (List ℕ) → List ℕ
catenation (s ∷ []) = s
catenation strs = take max_string (concat strs)

unfoldable mutual
  pub string_value : StringArg → List ℕ
  string_value (literal str) = str
  string_value (catenated args) = catenation (string_values args)

  pub string_values : StringArgs → List (List ℕ)
  string_values no_args = []
  string_values (and_arg arg args) = string_value arg ∷ string_values args

-- Sizes and counts fit an unsigned int.
unfoldable mutual
  pub Fits : StringArg → Type 0
  Fits (literal str) = length str < 2 ^ 32
  Fits (catenated args) = (arg_count args < 2 ^ 32) × FitAll args

  pub FitAll : StringArgs → Type 0
  FitAll no_args = Unit {0}
  FitAll (and_arg arg args) = Fits arg × FitAll args

-- The operands in a string, which are at least as many as those that nest.
unfoldable mutual
  pub levels : StringArg → ℕ
  levels (literal str) = 1
  levels (catenated args) = if arg_count args == 1 then levels_all args else suc (levels_all args)

  pub levels_all : StringArgs → ℕ
  levels_all no_args = 0
  levels_all (and_arg arg args) = levels arg + levels_all args

-- Bytes that are enough for what is emitted.
unfoldable mutual
  pub room : StringArg → ℕ
  room (literal str) = length str + 11
  room (catenated args) = rooms args + 10

  pub rooms : StringArgs → ℕ
  rooms no_args = 0
  rooms (and_arg arg args) = room arg + rooms args

pub count_le_rooms : (args : StringArgs) → 10 * arg_count args ≤ rooms args
unfolding room rooms
count_le_rooms no_args = omega arith
count_le_rooms (and_arg (literal str) args) = omega (arith, count_le_rooms args)
count_le_rooms (and_arg (catenated parts) args) = omega (arith, count_le_rooms args)

-- A core operand code that is read.
pub operand_read_at :
    (registered : List Extension) (code : List ℕ) (a c : ℕ) (operand : OperandDef)
    → c < 8
    → get_elem? sieve_operands c ≡ some operand
    → a < length code
    → get_elem? code a ≡ some c
    → operand_read registered code a ≡ ok (a + 1) operand
unfolding operand_read
operand_read_at registered code a c operand small found inside here =
    ground (arith, found, inside, here)

pub operand_read-core :
    (registered : List Extension) (front rest : List ℕ) (c : ℕ) (operand : OperandDef)
    → c < 8
    → get_elem? sieve_operands c ≡ some operand
    → operand_read registered (front ++ (c ∷ rest)) (length front) ≡ ok (length front + 1) operand
operand_read-core registered front rest c operand small found =
    operand_read_at registered (front ++ (c ∷ rest)) (length front) c operand small found
      (omega (arith, length-append front (c ∷ rest))) (get_elem?-append front c rest)

-- A number below 2^32 is the same unsigned int.
pub read_unsigned_at :
    (front encoded rest : List ℕ) (n : ℕ)
    → n < 2 ^ 32
    → encode_integer n ≡ some encoded
    → read_unsigned (front ++ (encoded ++ rest)) (length front)
      ≡ ok (length front + length encoded) n
read_unsigned_at front encoded rest n small e =
    let same : n % 2 ^ 32 ≡ n = omega arith in
    rw (read_integer-encode front encoded rest n e) (ap (ok (length front + length encoded)) same)

read_unsigned_behind :
    (front encoded rest : List ℕ) (c n : ℕ)
    → n < 2 ^ 32
    → encode_integer n ≡ some encoded
    → read_unsigned (front ++ (c ∷ (encoded ++ rest))) (length front + 1)
      ≡ ok (length front + 1 + length encoded) n
read_unsigned_behind front encoded rest c n small e =
    rw (append_assoc, length-append) at
      (read_unsigned_at (front ++ (c ∷ [])) encoded rest n small e)

catenated_step :
    (read : ℕ → Answer (List ℕ)) (code : List ℕ) (a a' n : ℕ)
    → read_unsigned code a ≡ ok a' n
    → catenated_string_read read code a ≡ catenate read n a' []
unfolding catenated_string_read
catenated_step read code a a' n e = rw (e, catenated_string_read) refl

catenate_step :
    (read : ℕ → Answer (List ℕ)) (n a a' : ℕ) (str v : List ℕ)
    → read a ≡ got a' v
    → catenate read (suc n) a str ≡ catenate read n a' (append_truncated str v)
unfolding catenate
catenate_step read n a a' str v e = rw (e, catenate) refl

take-take_append :
    (n : ℕ) (xs ys zs : List ℕ) → take n (take n (xs ++ ys) ++ zs) ≡ take n (xs ++ (ys ++ zs))
take-take_append zero xs ys zs = refl
take-take_append (suc n) [] [] zs = refl
take-take_append (suc n) [] (y ∷ ys) zs = ap (λ x. y ∷ x) (take-take_append n [] ys zs)
take-take_append (suc n) (x ∷ xs) ys zs = ap (λ t. x ∷ t) (take-take_append n xs ys zs)

module _ (registered : List Extension) (depth : ℕ) where
  -- `enc`, wherever it stands, is read as the string `v`.
  abbrev pub Reads : List ℕ → List ℕ → Type 0
  Reads enc v =
      (front rest : List ℕ)
      → string_read depth registered (front ++ (enc ++ rest)) (length front)
        ≡ got (length front + length enc) v

  -- `enc` is made of pieces that are read as the strings of the list.
  abbrev pub Laid : List ℕ → List (List ℕ) → Type 0
  Laid enc [] = enc ≡ []
  Laid enc (v ∷ vs) = (e1 : List ℕ) × (e2 : List ℕ) × (enc ≡ e1 ++ e2) × Reads e1 v × Laid e2 vs

  pub Laid-single : (enc v : List ℕ) → Laid enc (v ∷ []) → Reads enc v
  Laid-single enc v (e1, e2, split, reads, none_left) =
      let same : enc ≡ e1 = split ∙ ap (λ x. e1 ++ x) none_left ∙ append-nil e1 in rw same reads

  -- The code with its first piece moved to the front.
  pub moved :
      (front e1 e2 rest : List ℕ) → front ++ ((e1 ++ e2) ++ rest) ≡ (front ++ e1) ++ (e2 ++ rest)
  moved front e1 e2 rest =
      ap (λ x. front ++ x) (append_assoc e1 e2 rest) ∙ sym (append_assoc front e1 (e2 ++ rest))

  abbrev appended : List ℕ → List (List ℕ) → List ℕ
  appended str [] = str
  appended str (v ∷ vs) = appended (append_truncated str v) vs

  -- Appending piece by piece up to the limit.
  appended-concat :
      (str t : List ℕ) (vs : List (List ℕ))
      → appended (take max_string (str ++ t)) vs ≡ take max_string (str ++ (t ++ concat vs))
  appended-concat str t [] = ap (λ x. take max_string (str ++ x)) (sym (append-nil t))
  appended-concat str t (v ∷ vs) =
      ap (λ x. appended x vs) (take-take_append max_string str t v)
      ∙ appended-concat str (t ++ v) vs
      ∙ ap (λ x. take max_string (str ++ x)) (append_assoc t v (concat vs))

  pub catenate-Laid :
      (vs : List (List ℕ)) (front enc rest str : List ℕ)
      → Laid enc vs
      → catenate
          (string_read depth registered (front ++ (enc ++ rest)))
          (length vs)
          (length front)
          str
        ≡ got (length front + length enc) (appended str vs)
  unfolding catenate
  catenate-Laid [] front enc rest str none_left = rw none_left (ap (λ n. got n str) (omega arith))
  catenate-Laid (v ∷ vs) front enc rest str (e1, e2, split, reads, more) =
      let code = front ++ ((e1 ++ e2) ++ rest) in
      let here : string_read depth registered code (length front)
          ≡ got (length front + length e1) v =
        rw (append_assoc e1 e2 rest) (reads front (e2 ++ rest)) in
      let next = catenate-Laid vs (front ++ e1) e2 rest (append_truncated str v) more in
      let sum : length (front ++ e1) + length e2 ≡ length front + length (e1 ++ e2) =
        omega (arith, length-append front e1, length-append e1 e2) in
      rw split (
        catenate_step (string_read depth registered code) (length vs) (length front) _ str v here
        ∙ rw (moved front e1 e2 rest, ← length-append front e1)
            (next ∙ ap (λ n. got n (appended (append_truncated str v) vs)) sum))

module _ (registered : List Extension) where
  string_read_step :
      (depth : ℕ) (code : List ℕ) (a a' : ℕ) (operand : OperandDef)
      → operand_read registered code a ≡ ok a' operand
      → string_read (suc depth) registered code a
        ≡ string_read_data (string_read depth registered code) operand code a'
  unfolding string_read
  string_read_step depth code a a' operand e = rw (e, string_read) refl

  pub literal-Reads :
      (depth : ℕ) (encoded str : List ℕ)
      → 1 ≤ depth
      → length str < 2 ^ 32
      → encode_integer (length str) ≡ some encoded
      → Reads registered depth (2 ∷ (encoded ++ (str ++ (0 ∷ [])))) str
  unfolding string_read_data
  literal-Reads zero encoded str deep small e front rest = absurd (omega arith)
  literal-Reads (suc depth) encoded str deep small e front rest =
      let shape : (encoded ++ (str ++ (0 ∷ []))) ++ rest ≡ encoded ++ (str ++ (0 ∷ rest)) =
        append_assoc encoded (str ++ (0 ∷ [])) rest
        ∙ ap (λ x. encoded ++ x) (append_assoc str (0 ∷ []) rest) in
      let code = front ++ (2 ∷ (encoded ++ (str ++ (0 ∷ rest)))) in
      let there : read_string code (length front + 1)
          ≡ ok (length front + 1 + length encoded + length str + 1) str =
        rw (append_assoc, length-append) at
          (read_string-layout (front ++ (2 ∷ [])) encoded str rest small e) in
      let size : length front + 1 + length encoded + length str + 1
          ≡ length front + suc (length (encoded ++ (str ++ (0 ∷ [])))) =
        omega (arith, length-append encoded (str ++ (0 ∷ [])), length-append str (0 ∷ [])) in
      rw shape (
        string_read_step depth code (length front) (length front + 1) string_operand
          (operand_read-core registered front _ 2 string_operand (omega arith) refl)
        ∙ ap or_corrupt there
        ∙ ap (λ n. got n str) size)

  pub catenated-Reads :
      (depth : ℕ) (encoded enc : List ℕ) (vs : List (List ℕ))
      → length vs < 2 ^ 32
      → encode_integer (length vs) ≡ some encoded
      → Laid registered depth enc vs
      → Reads registered (suc depth) (7 ∷ (encoded ++ enc)) (take max_string (concat vs))
  unfolding string_read_data
  catenated-Reads depth encoded enc vs small e laid front rest =
      let code = front ++ (7 ∷ (encoded ++ (enc ++ rest))) in
      let here : (front ++ (7 ∷ encoded)) ++ (enc ++ rest) ≡ code =
        append_assoc front (7 ∷ encoded) (enc ++ rest) in
      let count = read_unsigned_behind front encoded (enc ++ rest) 7 (length vs) small e in
      let elements = catenate-Laid registered depth vs (front ++ (7 ∷ encoded)) enc rest [] laid in
      let from : length (front ++ (7 ∷ encoded)) ≡ length front + 1 + length encoded =
        omega (arith, length-append front (7 ∷ encoded)) in
      let size : length front + 1 + length encoded + length enc
          ≡ length front + suc (length (encoded ++ enc)) =
        omega (arith, length-append encoded enc) in
      rw (append_assoc encoded enc rest) (
        string_read_step depth code (length front) (length front + 1) catenated_string_operand
          (operand_read-core registered front _ 7 catenated_string_operand (omega arith) refl)
        ∙ catenated_step _ code (length front + 1) _ _ count
        ∙ (rw (here, from) at elements)
        ∙ ap (λ n. got n (appended registered depth [] vs)) size
        ∙ ap (got (length front + suc (length (encoded ++ enc))))
            (appended-concat registered depth [] [] vs))
