-- ===== src/Comparator.antt =====
-- The comparators i;octet, i;ascii-casemap and i;ascii-numeric (src/lib-sieve/cmp-i-octet.c,
-- cmp-i-ascii-casemap.c, sieve-comparators.c and
-- plugins/comparator-i-ascii-numeric/ext-cmp-i-ascii-numeric.c).
--
-- A pair of pointers into a string is the list of bytes between them. Of what `compare` returns
-- only the sign is ever asked for, and the C library fixes no more of memcmp's and strncasecmp's
-- result: it is an `Ordering`. Sizes are below 2^31, so the difference of two sizes as `int` has
-- their order.
pub mod Octet
pub mod CharMatch
pub mod Casemap
pub mod Digits
pub mod Numeric
use Prim.Native.Nat.{compare, Ordering}
use pigeonhole.Prelude.{
  ℕ, zero, suc, ◌+◌, ◌-◌, Bool, true, false, not, ◌&&◌, ◌||◌, List, [], ◌∷◌, length, take, ltb, leb,
  ◌==◌, if◌then◌else◌,
}
use pigeonhole.Ctype.{Ctype}

-- memcmp over the first bytes of two strings of one size: the first difference decides.
unfoldable pub memcmp : List ℕ → List ℕ → Ordering
memcmp [] key = Ordering.eq
memcmp (v ∷ val) [] = Ordering.eq
memcmp (v ∷ val) (k ∷ key) = elim (compare v k) [
  | Ordering.eq ↦ memcmp val key
  | Ordering.lt ↦ Ordering.lt
  | Ordering.gt ↦ Ordering.gt
]

unfoldable pub octet_compare : List ℕ → List ℕ → Ordering
unfolding memcmp
octet_compare val1 val2 =
    if length val1 == length val2
    then memcmp val1 val2
    else if ltb (length val2) (length val1)
    then elim (memcmp (take (length val2) val1) val2) [ Ordering.eq ↦ Ordering.gt | other ↦ other ]
    else elim (memcmp val1 (take (length val1) val2)) [ Ordering.eq ↦ Ordering.lt | other ↦ other ]

-- The common loop of the char_match functions: both pointers move on while the bytes are the same.
-- What is left of the value and of the key is returned.
unfoldable pub skip_same : (ℕ → ℕ → Bool) → List ℕ → List ℕ → List ℕ × List ℕ
skip_same same [] key = ([], key)
skip_same same (v ∷ val) [] = (v ∷ val, [])
skip_same same (v ∷ val) (k ∷ key) =
    let rest = skip_same same val key in if same v k then rest else (v ∷ val, k ∷ key)

-- If a part of the key is left, both pointers are reset.
abbrev pub reset_or_keep : List ℕ → List ℕ → List ℕ × List ℕ → Bool × List ℕ × List ℕ
reset_or_keep val key (val', []) = (true, val', [])
reset_or_keep val key (val', k ∷ key') = (false, val, key)

unfoldable pub octet_char_match : List ℕ → List ℕ → Bool × List ℕ × List ℕ
unfolding skip_same
octet_char_match val key = reset_or_keep val key (skip_same ◌==◌ val key)

unfoldable pub octet_skip : List ℕ → Bool × List ℕ
octet_skip [] = (false, [])
octet_skip (v ∷ val) = (true, val)

-- tolower of the C library in the "C" locale.
abbrev pub c_tolower : ℕ → ℕ
c_tolower c = if leb 65 c && leb c 90 then c + 32 else c

-- strncasecmp over at most `size` bytes: it ends at a difference or at a NUL in both strings. A
-- string has a NUL behind its last byte.
unfoldable pub strncasecmp : List ℕ → List ℕ → ℕ → Ordering
strncasecmp val1 val2 zero = Ordering.eq
strncasecmp [] [] (suc size) = Ordering.eq
strncasecmp [] (k ∷ val2) (suc size) = if k == 0 then Ordering.eq else Ordering.lt
strncasecmp (v ∷ val1) [] (suc size) = if v == 0 then Ordering.eq else Ordering.gt
strncasecmp (v ∷ val1) (k ∷ val2) (suc size) = elim (compare (c_tolower v) (c_tolower k)) [
  | Ordering.eq ↦ if v == 0 then Ordering.eq else strncasecmp val1 val2 size
  | Ordering.lt ↦ Ordering.lt
  | Ordering.gt ↦ Ordering.gt
]

unfoldable pub casemap_compare : List ℕ → List ℕ → Ordering
unfolding strncasecmp
casemap_compare val1 val2 =
    let size = if ltb (length val1) (length val2) then length val1 else length val2 in
    elim (strncasecmp val1 val2 size) [
      | Ordering.eq ↦ compare (length val1) (length val2)
      | other ↦ other
    ]

module _ (C : Ctype) where
  open C use {is_digit, to_lower}

  unfoldable pub casemap_char_match : List ℕ → List ℕ → Bool × List ℕ × List ℕ
  unfolding skip_same
  casemap_char_match val key =
      reset_or_keep val key (skip_same (λ v k. to_lower v == to_lower k) val key)

  -- `*vp`: behind the last byte stands a NUL.
  unfoldable pub at_digit : List ℕ → Bool
  at_digit [] = is_digit 0
  at_digit (v ∷ val) = is_digit v

  unfoldable pub skip_zeros : List ℕ → List ℕ
  skip_zeros [] = []
  skip_zeros (v ∷ val) = if v == 48 then skip_zeros val else v ∷ val

  -- The pointers move on together while both are at a digit; what is left of each.
  unfoldable pub skip_digits : List ℕ → List ℕ → List ℕ × List ℕ × ℕ
  skip_digits [] key = ([], key, 0)
  skip_digits (v ∷ val) [] = (v ∷ val, [], 0)
  skip_digits (v ∷ val) (k ∷ key) =
      let (val', key', digits) = skip_digits val key in
      if is_digit v && is_digit k then (val', key', suc digits) else (v ∷ val, k ∷ key, 0)

  -- The comparison of the digits passed, from the first on.
  unfoldable pub compare_digits : ℕ → List ℕ → List ℕ → Ordering
  compare_digits zero vp kp = Ordering.eq
  compare_digits (suc i) [] kp = Ordering.eq
  compare_digits (suc i) (v ∷ vp) [] = Ordering.eq
  compare_digits (suc i) (v ∷ vp) (k ∷ kp) = elim (compare v k) [
    | Ordering.eq ↦ compare_digits i vp kp
    | Ordering.lt ↦ Ordering.lt
    | Ordering.gt ↦ Ordering.gt
  ]

  -- `vp != vend && i_isdigit(*vp)`
  unfoldable pub more_digits : List ℕ → Bool
  more_digits [] = false
  more_digits (v ∷ val) = is_digit v

  unfoldable pub numeric_compare : List ℕ → List ℕ → Ordering
  unfolding at_digit skip_zeros skip_digits compare_digits more_digits
  numeric_compare val key =
      let vp = skip_zeros val in
      let kp = skip_zeros key in
      let (vp', kp', digits) = skip_digits vp kp in
      if not (at_digit val) && at_digit key
      then Ordering.gt
      else if at_digit val && not (at_digit key)
      then Ordering.lt
      else if not (more_digits vp')
      then if more_digits kp' then Ordering.lt else compare_digits digits vp kp
      else Ordering.gt
