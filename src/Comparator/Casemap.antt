-- ===== src/Comparator/Casemap.antt =====
-- i;ascii-casemap is the lexicographic order of the folded bytes, up to a NUL.
use Prim.Native.Nat.{compare, Ordering}
use mathlib.Core.List.{map}
use pigeonhole.Prelude.{
  ℕ, zero, suc, ◌≡◌, ◌≢◌, refl, List, [], ◌∷◌, ◌++◌, length, length-append, All, ltb, if◌then◌else◌,
  arith,
}
use pigeonhole.Comparator.{c_tolower, strncasecmp, casemap_compare}
use pigeonhole.Comparator.Octet.{lex, or_else}

abbrev min_length : List ℕ → List ℕ → ℕ
min_length a b = if ltb (length a) (length b) then length a else length b

abbrev NoNul : List ℕ → Type 0
NoNul s = All (λ c. c ≢ 0) s

min_length_cons : (x y : ℕ) (a b : List ℕ) → min_length (x ∷ a) (y ∷ b) ≡ suc (min_length a b)
min_length_cons x y a b = ground arith

compare-suc : (m n : ℕ) → compare (suc m) (suc n) ≡ compare m n
compare-suc m n = ground arith

folded :
    (a b : List ℕ)
    → NoNul a
    → NoNul b
    → or_else (strncasecmp a b (min_length a b)) (compare (length a) (length b))
      ≡ lex (map c_tolower a) (map c_tolower b)
unfolding strncasecmp lex
folded [] [] ha hb = refl
folded [] (y ∷ b) ha hb = ground arith
folded (x ∷ a) [] ha hb = ground arith
folded (x ∷ a) (y ∷ b) (hx, ha) (hy, hb) =
    rw (min_length_cons x y a b, compare-suc) (ground (arith, folded a b ha hb))

-- Without NUL bytes the comparator is the lexicographic order of the strings in lower case.
pub casemap_compare-lex :
    (a b : List ℕ)
    → NoNul a
    → NoNul b
    → casemap_compare a b ≡ lex (map c_tolower a) (map c_tolower b)
unfolding casemap_compare
casemap_compare-lex a b ha hb = ground (arith, folded a b ha hb)

nul_ends :
    (front x y : List ℕ) (size : ℕ)
    → strncasecmp (front ++ (0 ∷ x)) (front ++ (0 ∷ y)) size ≡ Ordering.eq
unfolding strncasecmp
nul_ends front x y zero = refl
nul_ends [] x y (suc size) = refl
nul_ends (c ∷ front) x y (suc size) = ground (arith, nul_ends front x y size)

-- Strings of one size that agree up to a NUL are taken for equal, whatever stands behind it.
pub casemap_compare_nul :
    (front x y : List ℕ)
    → length x ≡ length y
    → casemap_compare (front ++ (0 ∷ x)) (front ++ (0 ∷ y)) ≡ Ordering.eq
unfolding casemap_compare
casemap_compare_nul front x y h = ground (
  arith,
  nul_ends front x y (length (front ++ (0 ∷ x))),
  nul_ends front x y (length (front ++ (0 ∷ y))),
  length-append front (0 ∷ x),
  length-append front (0 ∷ y),
)
