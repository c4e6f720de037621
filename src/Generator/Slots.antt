-- ===== src/Generator/Slots.antt =====
-- Offsets that are still to be resolved, as places of four bytes in the code.
use pigeonhole.Prelude.{
  ℕ, zero, suc, ◌+◌, ◌≤◌, ◌<◌, ◌≡◌, refl, ◌⊎◌, inl, inr, List, [], ◌∷◌, ◌++◌, get_elem?, take,
  arith,
}

-- The places lie between `lo` and `hi`, in order, and none overlaps another.
abbrev pub Spans : ℕ → List ℕ → ℕ → Type 0
Spans lo [] hi = lo ≤ hi
Spans lo (a ∷ jumps) hi = (lo ≤ a) × Spans (a + 4) jumps hi

-- No place holds `i`.
abbrev pub Outside : List ℕ → ℕ → Type 0
Outside [] i = Unit {0}
Outside (a ∷ jumps) i = ((i < a) ⊎ (a + 4 ≤ i)) × Outside jumps i

pub Spans-le : (lo : ℕ) (jumps : List ℕ) (hi : ℕ) → Spans lo jumps hi → lo ≤ hi
Spans-le lo [] hi h = h
Spans-le lo (a ∷ jumps) hi h = omega (arith, Spans-le (a + 4) jumps hi h.1, h.0)

pub Spans-lower :
    (lo lo' : ℕ) (jumps : List ℕ) (hi : ℕ) → lo ≤ lo' → Spans lo' jumps hi → Spans lo jumps hi
Spans-lower lo lo' [] hi l h = omega (arith, h)
Spans-lower lo lo' (a ∷ jumps) hi l h = (omega (arith, h.0), h.1)

pub Spans-append :
    (lo : ℕ) (jumps : List ℕ) (mid : ℕ) (others : List ℕ) (hi : ℕ)
    → Spans lo jumps mid
    → Spans mid others hi
    → Spans lo (jumps ++ others) hi
Spans-append lo [] mid [] hi h k = omega arith
Spans-append lo [] mid (a ∷ others) hi h k = (omega (arith, k.0), k.1)
Spans-append lo (a ∷ jumps) mid others hi h k =
    (h.0, Spans-append (a + 4) jumps mid others hi h.1 k)

pub Outside-append :
    (jumps others : List ℕ) (i : ℕ)
    → Outside jumps i
    → Outside others i
    → Outside (jumps ++ others) i
Outside-append [] others i h k = k
Outside-append (a ∷ jumps) others i h k = (h.0, Outside-append jumps others i h.1 k)

pub Outside-below :
    (lo : ℕ) (jumps : List ℕ) (hi i : ℕ) → Spans lo jumps hi → i < lo → Outside jumps i
Outside-below lo [] hi i h l = tt
Outside-below lo (a ∷ jumps) hi i h l =
    (inl (omega (arith, h.0)), Outside-below (a + 4) jumps hi i h.1 (omega (arith, h.0)))

pub Outside-above :
    (lo : ℕ) (jumps : List ℕ) (hi i : ℕ) → Spans lo jumps hi → hi ≤ i → Outside jumps i
Outside-above lo [] hi i h l = tt
Outside-above lo (a ∷ jumps) hi i h l =
    (inr (omega (arith, Spans-le (a + 4) jumps hi h.1)), Outside-above (a + 4) jumps hi i h.1 l)

pub get_elem?-take : (n i : ℕ) (xs : List ℕ) → i < n → get_elem? (take n xs) i ≡ get_elem? xs i
get_elem?-take zero i xs h = elim h [ ]
get_elem?-take (suc n) i [] h = refl
get_elem?-take (suc n) zero (x ∷ xs) h = refl
get_elem?-take (suc n) (suc i) (x ∷ xs) h = get_elem?-take n i xs (omega arith)
