-- ===== src/Operands/Forward.antt =====
-- Where the readers of operands stop, whatever they read (src/lib-sieve/sieve-code.c,
-- src/lib-sieve/sieve-binary-code.c).
use pigeonhole.Prelude.{
  ℕ, zero, suc, ◌+◌, ◌-◌, ◌≤◌, ◌≡◌, refl, Option, none, some, List, [], ◌∷◌, length, take, drop,
  ◌==◌, Bool, true, false, get_elem?, ltb, leb, if◌then◌else◌, arith,
}
use pigeonhole.Binary.{
  Read, ok, refused, fault, then_read, bytes_left, read_integer, read_unsigned, read_string,
}
use pigeonhole.Binary.Reader.{read_integer_bounds}
use pigeonhole.Operands.{
  Extension, Answer, got, too_deep, OperandDef, extension_operand, string_class, object_at,
  read_extension, read_extension_object, extension_operands, operand_read, sieve_operands,
}

-- An answer that does not go back and is not too deep.
abbrev pub Settles : ℕ → Answer (List ℕ) → Type 0
Settles a (got a' str) = a ≤ a'
Settles a too_deep = 1 ≤ 0
Settles a _ = Unit {0}

-- Strings of an extension's operand settle.
abbrev pub Trusted : OperandDef → Type 0
Trusted (extension_operand (string_class (some read))) =
    (code : List ℕ) (a : ℕ) → Settles a (read code a)
Trusted _ = Unit {0}

abbrev AllTrusted : List OperandDef → Type 0
AllTrusted [] = Unit {0}
AllTrusted (operand ∷ operands) = Trusted operand × AllTrusted operands

abbrev TrustedOption : Option (List OperandDef) → Type 0
TrustedOption none = Unit {0}
TrustedOption (some operands) = AllTrusted operands

abbrev pub ExtensionsSettle : List Extension → Type 0
ExtensionsSettle [] = Unit {0}
ExtensionsSettle (ext ∷ registered) = TrustedOption ext.operands × ExtensionsSettle registered

-- Whatever is read satisfies `Q`, with the address behind it.
abbrev pub ReadsOnly : {A : Type 0} → (ℕ → A → Type 0) → Read A → Type 0
ReadsOnly Q (ok a x) = Q a x
ReadsOnly Q _ = Unit {0}

ReadsOnly-if :
    {A : Type 0} (Q : ℕ → A → Type 0) (c : Bool) (x y : Read A)
    → ReadsOnly Q x
    → ReadsOnly Q y
    → ReadsOnly Q (if c then x else y)
ReadsOnly-if Q true x y h k = h
ReadsOnly-if Q false x y h k = k

ReadsOnly-elim :
    {A : Type 0} {C : Type 0} (Q : ℕ → A → Type 0) (o : Option C) (x : Read A) (f : C → Read A)
    → ReadsOnly Q x
    → ((c : C) → ReadsOnly Q (f c))
    → ReadsOnly Q (elim o [ none ↦ x | some c ↦ f c ])
ReadsOnly-elim Q none x f h k = h
ReadsOnly-elim Q (some c) x f h k = k c

ReadsOnly-then :
    {A : Type 0} {C : Type 0} (Q : ℕ → A → Type 0) (P : ℕ → C → Type 0) (r : Read C)
    (f : ℕ → C → Read A)
    → ReadsOnly P r
    → ((a' : ℕ) (x : C) → P a' x → ReadsOnly Q (f a' x))
    → ReadsOnly Q (then_read r f)
ReadsOnly-then Q P (ok a' x) f h k = k a' x h
ReadsOnly-then Q P (refused a') f h k = tt
ReadsOnly-then Q P fault f h k = tt

-- An address that is not before `b`.
abbrev pub From : {A : Type 0} → ℕ → ℕ → A → Type 0
From b a x = b ≤ a

abbrev pub FromTrusted : ℕ → ℕ → OperandDef → Type 0
FromTrusted b a operand = (b ≤ a) × Trusted operand

object_at-ReadsOnly :
    (objects : List OperandDef) (a b c : ℕ)
    → AllTrusted objects
    → b ≤ a
    → ReadsOnly (FromTrusted b) (object_at objects a c)
object_at-ReadsOnly [] a b c h le = tt
object_at-ReadsOnly (x ∷ objects) a b zero h le = (le, h.0)
object_at-ReadsOnly (x ∷ objects) a b (suc c) h le = object_at-ReadsOnly objects a b c h.1 le

extension_object-ReadsOnly :
    (objects : List OperandDef) (code : List ℕ) (a b : ℕ)
    → AllTrusted objects
    → b ≤ a
    → ReadsOnly (FromTrusted b) (read_extension_object objects code a)
extension_object-ReadsOnly [] code a b h le = tt
extension_object-ReadsOnly (x ∷ []) code a b h le = (le, h.0)
extension_object-ReadsOnly (x ∷ y ∷ more) code a b h le =
    ReadsOnly-if (FromTrusted b) (bytes_left code a == 0) (refused a) _ tt (
      ReadsOnly-elim (FromTrusted b) (get_elem? code a) fault (object_at (x ∷ y ∷ more) (a + 1)) tt
        (λ c. object_at-ReadsOnly (x ∷ y ∷ more) (a + 1) b c h (omega arith)))

-- The extension of an operand is none or one that is registered.
abbrev FoundTrusted : ℕ → ℕ → (ℕ × Option Extension) → Type 0
FoundTrusted b a (c, none) = b ≤ a
FoundTrusted b a (c, some ext) = (b ≤ a) × TrustedOption ext.operands

lookup-ReadsOnly :
    (registered : List Extension) (i a c : ℕ)
    → ExtensionsSettle registered
    → ReadsOnly
        (FoundTrusted a)
        (elim (get_elem? registered i) [ none ↦ refused a | some ext ↦ ok a (c, some ext) ])
lookup-ReadsOnly [] i a c h = tt
lookup-ReadsOnly (ext ∷ registered) zero a c h = (omega arith, h.0)
lookup-ReadsOnly (ext ∷ registered) (suc i) a c h = lookup-ReadsOnly registered i a c h.1

read_extension-ReadsOnly :
    (registered : List Extension) (code : List ℕ) (a offset : ℕ)
    → ExtensionsSettle registered
    → ReadsOnly (FoundTrusted (a + 1)) (read_extension registered code a offset)
read_extension-ReadsOnly registered code a offset h =
    ReadsOnly-if (FoundTrusted (a + 1)) (bytes_left code a == 0) (refused a) _ tt (
      ReadsOnly-elim (FoundTrusted (a + 1)) (get_elem? code a) fault _ tt (λ c.
        ReadsOnly-if (FoundTrusted (a + 1)) (leb offset c) _ (ok (a + 1) (c, none))
          (lookup-ReadsOnly registered (c - offset) (a + 1) c h) (omega arith)))

operands-ReadsOnly :
    (code : List ℕ) (a b : ℕ) (found : ℕ × Option Extension)
    → FoundTrusted b a found
    → ReadsOnly (FromTrusted b) (elim found.1 [
      | none ↦ object_at sieve_operands a found.0
      | some ext ↦ extension_operands ext a code
    ])
operands-ReadsOnly code a b (c, none) h =
    object_at-ReadsOnly sieve_operands a b c (tt, (tt, (tt, (tt, (tt, (tt, (tt, (tt, tt)))))))) h
operands-ReadsOnly code a b (c, some ext) (le, h) = go ext.operands h
  where
    go :
        (o : Option (List OperandDef))
        → TrustedOption o
        → ReadsOnly
            (FromTrusted b)
            (elim o [ none ↦ refused a | some operands ↦ read_extension_object operands code a ])
    go none k = tt
    go (some operands) k = extension_object-ReadsOnly operands code a b k le

pub operand_read-ReadsOnly :
    (registered : List Extension) (code : List ℕ) (a : ℕ)
    → ExtensionsSettle registered
    → ReadsOnly (FromTrusted (a + 1)) (operand_read registered code a)
unfolding operand_read
operand_read-ReadsOnly registered code a h =
    ReadsOnly-then (FromTrusted (a + 1)) (FoundTrusted (a + 1))
      (read_extension registered code a (length sieve_operands)) _
      (read_extension-ReadsOnly registered code a (length sieve_operands) h)
      (λ a' found k. operands-ReadsOnly code a' (a + 1) found k)

read_integer-ReadsOnly : (code : List ℕ) (a : ℕ) → ReadsOnly (From a) (read_integer code a)
read_integer-ReadsOnly code a =
    go (read_integer code a) (λ a' n e. omega (arith, (read_integer_bounds code a a' n e).1))
  where
    go : (r : Read ℕ) → ((a' n : ℕ) → r ≡ ok a' n → a ≤ a') → ReadsOnly (From a) r
    go (ok a' n) h = h a' n refl
    go (refused a') h = tt
    go fault h = tt

pub read_unsigned-ReadsOnly : (code : List ℕ) (a : ℕ) → ReadsOnly (From a) (read_unsigned code a)
read_unsigned-ReadsOnly code a =
    ReadsOnly-then (From a) (From a) (read_integer code a) _ (read_integer-ReadsOnly code a)
      (λ a' n le. le)

pub read_string-ReadsOnly : (code : List ℕ) (a : ℕ) → ReadsOnly (From a) (read_string code a)
unfolding read_string
read_string-ReadsOnly code a =
    ReadsOnly-then (From a) (From a) (read_unsigned code a) _ (read_unsigned-ReadsOnly code a)
      (λ a' n le. ReadsOnly-if (From a) (ltb (bytes_left code a') n) (refused a') _ tt (
        ReadsOnly-elim (From a) (get_elem? code (a' + n)) fault _ tt (λ c.
          ReadsOnly-if (From a) (c == 0) (ok (a' + n + 1) (take n (drop a' code)))
            (refused (a' + n)) (omega arith) tt)))
