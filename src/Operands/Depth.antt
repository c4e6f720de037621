-- ===== src/Operands/Depth.antt =====
-- How deep the reading of strings nests (src/lib-sieve/sieve-code.c).
use pigeonhole.Prelude.{ℕ, zero, suc, ◌+◌, ◌≤◌, ◌<◌, ◌≡◌, none, some, List, [], length, arith}
use native.Mathlib.Decide.{dec_le}
use pigeonhole.Binary.{Read, ok, refused, fault, read_unsigned, read_string}
use pigeonhole.Operands.{
  Extension, Answer, got, stopped, overrun, too_deep, or_corrupt, then_answer, OperandDef,
  omitted_operand, number_operand, string_operand, stringlist_operand, comparator_operand,
  match_type_operand, address_part_operand, catenated_string_operand, extension_operand,
  number_class, string_class, stringlist_class, other_class, operand_read, catenate,
  catenated_string_read, string_read_data, string_read, append_truncated,
}
use pigeonhole.Operands.Forward.{
  Settles, ExtensionsSettle, Trusted, ReadsOnly, From, FromTrusted, operand_read-ReadsOnly,
  read_unsigned-ReadsOnly, read_string-ReadsOnly,
}

Settles-corrupt :
    {C : Type 0} (a : ℕ) (P : ℕ → C → Type 0) (r : Read C) (f : ℕ → C → Answer (List ℕ))
    → ReadsOnly P r
    → ((a' : ℕ) (x : C) → P a' x → Settles a (f a' x))
    → Settles a (then_answer (or_corrupt r) f)
Settles-corrupt a P (ok a' x) f h k = k a' x h
Settles-corrupt a P (refused a') f h k = tt
Settles-corrupt a P fault f h k = tt

Settles-lower : (a b : ℕ) (answer : Answer (List ℕ)) → a ≤ b → Settles b answer → Settles a answer
Settles-lower a b (got a' str) le h = omega arith
Settles-lower a b (stopped e) le h = tt
Settles-lower a b overrun le h = tt
Settles-lower a b too_deep le h = h

Settles-elim :
    (a : ℕ) (answer : Answer (List ℕ)) (f : ℕ → List ℕ → Answer (List ℕ))
    → Settles a answer
    → ((a' : ℕ) (element : List ℕ) → a ≤ a' → Settles a' (f a' element))
    → Settles a (elim answer [
      | got a' element ↦ f a' element
      | stopped e ↦ stopped e
      | overrun ↦ overrun
      | too_deep ↦ too_deep
    ])
Settles-elim a (got a' element) f h k = Settles-lower a a' (f a' element) h (k a' element h)
Settles-elim a (stopped e) f h k = tt
Settles-elim a overrun f h k = tt
Settles-elim a too_deep f h k = h

Settles-catenate :
    (read : ℕ → Answer (List ℕ)) (lo n a : ℕ) (str : List ℕ)
    → ((a' : ℕ) → lo ≤ a' → Settles a' (read a'))
    → lo ≤ a
    → Settles a (catenate read n a str)
unfolding catenate
Settles-catenate read lo zero a str h le = omega arith
Settles-catenate read lo (suc n) a str h le =
    Settles-elim a (read a) (λ a' element. catenate read n a' (append_truncated str element))
      (h a le)
      (λ a' element l. Settles-catenate read lo n a' (append_truncated str element) h (omega arith))

Settles-string : (code : List ℕ) (a : ℕ) → Settles a (or_corrupt (read_string code a))
Settles-string code a = go (read_string code a) (read_string-ReadsOnly code a)
  where
    go : (r : Read (List ℕ)) → ReadsOnly (From a) r → Settles a (or_corrupt r)
    go (ok a' str) h = h
    go (refused a') h = tt
    go fault h = tt

module _ (registered : List Extension) (trusted : ExtensionsSettle registered) where
  string_read-data :
      (depth : ℕ) (code : List ℕ) (a a' : ℕ) (operand : OperandDef)
      → Trusted operand
      → ((a'' : ℕ) → a' ≤ a'' → Settles a'' (string_read depth registered code a''))
      → Settles a' (string_read_data (string_read depth registered code) operand code a')
  unfolding string_read_data catenated_string_read
  string_read-data depth code a a' string_operand e h = Settles-string code a'
  string_read-data depth code a a' catenated_string_operand e h =
      Settles-corrupt a' (From a') (read_unsigned code a') _ (read_unsigned-ReadsOnly code a')
        (λ a'' n le.
          Settles-lower a' a'' _ le
            (Settles-catenate (string_read depth registered code) a' n a'' [] h le))
  string_read-data depth code a a' (extension_operand (string_class (some read))) e h = e code a'
  string_read-data depth code a a' (extension_operand (string_class none)) e h = tt
  string_read-data depth code a a' (extension_operand (number_class read)) e h = tt
  string_read-data depth code a a' (extension_operand (stringlist_class read)) e h = tt
  string_read-data depth code a a' (extension_operand other_class) e h = tt
  string_read-data depth code a a' omitted_operand e h = tt
  string_read-data depth code a a' number_operand e h = tt
  string_read-data depth code a a' stringlist_operand e h = tt
  string_read-data depth code a a' comparator_operand e h = tt
  string_read-data depth code a a' match_type_operand e h = tt
  string_read-data depth code a a' address_part_operand e h = tt

  -- Behind the end there is no operand.
  operand_read_end :
      (code : List ℕ) (a : ℕ) → length code ≤ a → operand_read registered code a ≡ refused a
  unfolding operand_read
  operand_read_end code a h = ground arith

  -- A string is read, from wherever it is asked for and whatever the block holds, without nesting
  -- deeper than the block has bytes from there on and one more: reading it ends, and never goes
  -- back. Strings of extensions are to be read that way.
  pub string_read-Settles :
      (depth : ℕ) (code : List ℕ) (a : ℕ)
      → 1 ≤ depth
      → length code < a + depth
      → Settles a (string_read depth registered code a)
  unfolding string_read
  string_read-Settles zero code a some_depth deep = absurd (omega arith)
  string_read-Settles (suc depth) code a some_depth deep = elim (dec_le (length code) a) [
    | yes h ↦ rw (operand_read_end code a h) tt
    | no h ↦
        Settles-corrupt a (FromTrusted (a + 1)) (operand_read registered code a) _
          (operand_read-ReadsOnly registered code a trusted)
          (λ a' operand at_operand. Settles-lower a a' _ (omega (arith, at_operand.0)) (
            string_read-data depth code a a' operand at_operand.1 (λ a'' l.
              string_read-Settles depth code a'' (omega arith) (omega (arith, at_operand.0)))))
  ]
