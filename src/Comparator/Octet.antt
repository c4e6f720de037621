-- ===== src/Comparator/Octet.antt =====
-- i;octet is the lexicographic order of the bytes, and its char_match finds prefixes.
use Prim.Native.Nat.{compare, Ordering}
use pigeonhole.Prelude.{ℕ, ◌<◌, ◌≡◌, refl, ◌↔◌, List, [], ◌∷◌, length, take, arith}
use pigeonhole.Comparator.{memcmp, octet_compare}

-- The reference: the first difference decides, and a proper prefix comes first.
unfoldable pub lex : List ℕ → List ℕ → Ordering
lex [] [] = Ordering.eq
lex [] (k ∷ key) = Ordering.lt
lex (v ∷ val) [] = Ordering.gt
lex (v ∷ val) (k ∷ key) = elim (compare v k) [
  | Ordering.eq ↦ lex val key
  | Ordering.lt ↦ Ordering.lt
  | Ordering.gt ↦ Ordering.gt
]

same_size : (a b : List ℕ) → length a ≡ length b → memcmp a b ≡ lex a b
unfolding memcmp lex
same_size [] [] h = refl
same_size [] (y ∷ b) h = absurd (omega arith)
same_size (x ∷ a) [] h = absurd (omega arith)
same_size (x ∷ a) (y ∷ b) h = ground (arith, same_size a b)

abbrev pub or_else : Ordering → Ordering → Ordering
or_else Ordering.eq o = o
or_else Ordering.lt o = Ordering.lt
or_else Ordering.gt o = Ordering.gt

longer :
    (a b : List ℕ)
    → length b < length a
    → or_else (memcmp (take (length b) a) b) Ordering.gt ≡ lex a b
unfolding memcmp lex
longer [] b h = absurd (omega arith)
longer (x ∷ a) [] h = refl
longer (x ∷ a) (y ∷ b) h = ground (arith, longer a b)

shorter :
    (a b : List ℕ)
    → length a < length b
    → or_else (memcmp a (take (length a) b)) Ordering.lt ≡ lex a b
unfolding memcmp lex
shorter a [] h = absurd (omega arith)
shorter [] (y ∷ b) h = refl
shorter (x ∷ a) (y ∷ b) h = ground (arith, shorter a b)

-- i;octet compares as the lexicographic order, whatever the sizes are.
pub octet_compare-lex : (a b : List ℕ) → octet_compare a b ≡ lex a b
unfolding octet_compare
octet_compare-lex a b = ground (arith, same_size a b, longer a b, shorter a b)

abbrev pub flip : Ordering → Ordering
flip Ordering.lt = Ordering.gt
flip Ordering.eq = Ordering.eq
flip Ordering.gt = Ordering.lt

lex-eq→ : (a b : List ℕ) → lex a b ≡ Ordering.eq → a ≡ b
unfolding lex
lex-eq→ [] [] e = refl
lex-eq→ [] (y ∷ b) e = cc
lex-eq→ (x ∷ a) [] e = cc
lex-eq→ (x ∷ a) (y ∷ b) e = ground (arith, lex-eq→ a b)

lex_self : (a : List ℕ) → lex a a ≡ Ordering.eq
unfolding lex
lex_self [] = refl
lex_self (x ∷ a) = ground (arith, lex_self a)

lex-flip : (a b : List ℕ) → lex b a ≡ flip (lex a b)
unfolding lex
lex-flip [] [] = refl
lex-flip [] (y ∷ b) = refl
lex-flip (x ∷ a) [] = refl
lex-flip (x ∷ a) (y ∷ b) = ground (arith, lex-flip a b)

lex_trans : (a b c : List ℕ) → lex a b ≡ Ordering.lt → lex b c ≡ Ordering.lt → lex a c ≡ Ordering.lt
unfolding lex
lex_trans [] [] c p q = cc
lex_trans [] (y ∷ b) [] p q = cc
lex_trans [] (y ∷ b) (z ∷ c) p q = refl
lex_trans (x ∷ a) [] c p q = cc
lex_trans (x ∷ a) (y ∷ b) [] p q = cc
lex_trans (x ∷ a) (y ∷ b) (z ∷ c) p q = ground (arith, lex_trans a b c)

-- The comparator is a total order: it answers "equal" on equal strings alone, it turns round with
-- its arguments, and "less" is transitive.
pub octet_compare_order :
    (a b c : List ℕ)
    → ((octet_compare a b ≡ Ordering.eq) ↔ (a ≡ b))
      × (octet_compare b a ≡ flip (octet_compare a b))
      × (octet_compare a b ≡ Ordering.lt
          → octet_compare b c ≡ Ordering.lt
          → octet_compare a c ≡ Ordering.lt)
octet_compare_order a b c =
    simp octet_compare-lex ((lex-eq→ a b, λ e. rw e (lex_self b)), lex-flip a b, lex_trans a b c)
