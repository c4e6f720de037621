-- ===== src/Comparator/Digits.antt =====
-- The value and the length of the decimal digits at the start of a string.
use Prim.Native.Nat.{compare, Ordering}
use native.Mathlib.Nat.{pow-succ', mul-le-mul_right}
use pigeonhole.Prelude.{
  ℕ, suc, ◌+◌, ◌-◌, ◌*◌, ◌^◌, ◌≤◌, ◌<◌, ◌≡◌, refl, ◌⊎◌, inl, inr, ◌∙◌, true, false, List, [], ◌∷◌,
  ◌==◌, if◌then◌else◌, Bool-cases, ==_iff, sym, arith,
}
use pigeonhole.Ctype.{Ctype}
use pigeonhole.Comparator.{skip_zeros, compare_digits}

pub order_cases : (c d : ℕ) → (c < d) ⊎ (c ≡ d) ⊎ (d < c)
order_cases c d = ground arith

module _ (C : Ctype) where
  open C use {is_digit, is_digit_iff}

  -- The value of the digits at the start, read on from `acc`, and how many there are.
  unfoldable pub digits_value : ℕ → List ℕ → ℕ
  digits_value acc [] = acc
  digits_value acc (c ∷ s) =
      let rest = digits_value (acc * 10 + (c - 48)) s in if is_digit c then rest else acc

  unfoldable pub digit_count : List ℕ → ℕ
  digit_count [] = 0
  digit_count (c ∷ s) = if is_digit c then suc (digit_count s) else 0

  pub value_digit :
      (a c : ℕ) (s : List ℕ)
      → is_digit c ≡ true
      → digits_value a (c ∷ s) ≡ digits_value (a * 10 + (c - 48)) s
  unfolding digits_value
  value_digit a c s h = rw h

  pub value_other : (a c : ℕ) (s : List ℕ) → is_digit c ≡ false → digits_value a (c ∷ s) ≡ a
  unfolding digits_value
  value_other a c s h = rw h

  pub count_digit :
      (c : ℕ) (s : List ℕ) → is_digit c ≡ true → digit_count (c ∷ s) ≡ suc (digit_count s)
  unfolding digit_count
  count_digit c s h = rw h

  pub count_other : (c : ℕ) (s : List ℕ) → is_digit c ≡ false → digit_count (c ∷ s) ≡ 0
  unfolding digit_count
  count_other c s h = rw h

  pub value_low : (a : ℕ) (s : List ℕ) → a * 10 ^ digit_count s ≤ digits_value a s
  value_low a [] = unfold digits_value digit_count in omega arith
  value_low a (c ∷ s) = elim (Bool-cases (is_digit c)) [
    | inl h ↦
        rw (value_digit a c s h, count_digit c s h, pow-succ')
          (omega (arith, value_low (a * 10 + (c - 48)) s))
    | inr h ↦ rw (value_other a c s h, count_other c s h) (omega arith)
  ]

  pub value_high : (a : ℕ) (s : List ℕ) → digits_value a s < (a + 1) * 10 ^ digit_count s
  value_high a [] = unfold digits_value digit_count in omega arith
  value_high a (c ∷ s) = elim (Bool-cases (is_digit c)) [
    | inl h ↦
        let (lo, hi) = (is_digit_iff c).0 h in
        let digit : (c - 48) * 10 ^ digit_count s ≤ 9 * 10 ^ digit_count s =
          mul-le-mul_right (10 ^ digit_count s) (omega arith) in
        rw (value_digit a c s h, count_digit c s h, pow-succ')
          (omega (arith, value_high (a * 10 + (c - 48)) s))
    | inr h ↦ rw (value_other a c s h, count_other c s h) (omega arith)
  ]

  -- Leading zeros do not count.
  pub value-skip_zeros : (s : List ℕ) → digits_value 0 (skip_zeros C s) ≡ digits_value 0 s
  unfolding skip_zeros
  value-skip_zeros [] = refl
  value-skip_zeros (c ∷ s) = elim (Bool-cases (c == 48)) [
    | inl h ↦
        let zero_char : c ≡ 48 = (==_iff c 48).0 h in
        let digit : is_digit c ≡ true = (is_digit_iff c).1 (omega arith) in
        let nothing : 0 * 10 + (c - 48) ≡ 0 = omega arith in
        rw h (value-skip_zeros s ∙ sym (value_digit 0 c s digit ∙ rw nothing))
    | inr h ↦ rw h refl
  ]

  smaller :
      (a c d : ℕ) (s t : List ℕ)
      → 48 ≤ c
      → c < d
      → digit_count s ≡ digit_count t
      → digits_value (a * 10 + (c - 48)) s < digits_value (a * 10 + (d - 48)) t
  smaller a c d s t h l e =
      let p : ℕ = 10 ^ digit_count s in
      let step : (a * 10 + (c - 48) + 1) * 10 ^ digit_count s
          ≤ (a * 10 + (d - 48)) * 10 ^ digit_count s =
        mul-le-mul_right (10 ^ digit_count s) (omega arith) in
      omega (
        arith,
        step,
        value_high (a * 10 + (c - 48)) s,
        rw (← e) at (value_low (a * 10 + (d - 48)) t),
      )

  no_digits : (a : ℕ) (s : List ℕ) → digit_count s ≡ 0 → digits_value a s ≡ a
  no_digits a [] h = unfold digits_value in refl
  no_digits a (c ∷ s) h = elim (Bool-cases (is_digit c)) [
    | inl d ↦ absurd (omega (arith, count_digit c s d))
    | inr d ↦ value_other a c s d
  ]

  step_lt :
      (i c d : ℕ) (s t : List ℕ) → c < d → compare_digits C (suc i) (c ∷ s) (d ∷ t) ≡ Ordering.lt
  unfolding compare_digits
  step_lt i c d s t h = ground arith

  step_gt :
      (i c d : ℕ) (s t : List ℕ) → d < c → compare_digits C (suc i) (c ∷ s) (d ∷ t) ≡ Ordering.gt
  unfolding compare_digits
  step_gt i c d s t h = ground arith

  step_eq :
      (i c d : ℕ) (s t : List ℕ)
      → c ≡ d
      → compare_digits C (suc i) (c ∷ s) (d ∷ t) ≡ compare_digits C i s t
  unfolding compare_digits
  step_eq i c d s t h = ground arith

  compare_zero : (s t : List ℕ) → compare_digits C 0 s t ≡ Ordering.eq
  unfolding compare_digits
  compare_zero s t = refl

  compare_none :
      (a : ℕ) (s t : List ℕ)
      → digit_count s ≡ 0
      → digit_count s ≡ digit_count t
      → compare_digits C (digit_count s) s t ≡ compare (digits_value a s) (digits_value a t)
  compare_none a s t z h =
      rw (z, compare_zero, no_digits a s z, no_digits a t (sym h ∙ z)) (ground arith)

  both_digits :
      (a c d : ℕ) (s t : List ℕ)
      → is_digit c ≡ true
      → is_digit d ≡ true
      → digit_count s ≡ digit_count t
      → ((b : ℕ)
          → compare_digits C (digit_count s) s t ≡ compare (digits_value b s) (digits_value b t))
      → compare_digits C (suc (digit_count s)) (c ∷ s) (d ∷ t)
        ≡ compare (digits_value (a * 10 + (c - 48)) s) (digits_value (a * 10 + (d - 48)) t)
  both_digits a c d s t hc hd h ih =
      let c_low : 48 ≤ c = ((is_digit_iff c).0 hc).0 in
      let d_low : 48 ≤ d = ((is_digit_iff d).0 hd).0 in
      elim (order_cases c d) [
        | inl l ↦
            rw (step_lt (digit_count s) c d s t l) (ground (arith, smaller a c d s t c_low l h))
        | inr (inl e) ↦ rw (step_eq (digit_count s) c d s t e, e) (ih (a * 10 + (d - 48)))
        | inr (inr l) ↦
            rw (step_gt (digit_count s) c d s t l)
              (ground (arith, smaller a d c t s d_low l (sym h)))
      ]

  -- With as many digits, the first difference decides.
  pub compare_same :
      (a : ℕ) (s t : List ℕ)
      → digit_count s ≡ digit_count t
      → compare_digits C (digit_count s) s t ≡ compare (digits_value a s) (digits_value a t)
  compare_same a [] t h = compare_none a [] t (unfold digit_count in refl) h
  compare_same a (c ∷ s) [] h = compare_none a (c ∷ s) [] (h ∙ unfold digit_count in refl) h
  compare_same a (c ∷ s) (d ∷ t) h = elim (Bool-cases (is_digit c)) [
    | inr hc ↦ compare_none a (c ∷ s) (d ∷ t) (count_other c s hc) h
    | inl hc ↦ elim (Bool-cases (is_digit d)) [
      | inr hd ↦ absurd (omega (arith, count_digit c s hc, count_other d t hd))
      | inl hd ↦
          rw (count_digit c s hc, value_digit a c s hc, value_digit a d t hd)
            (both_digits a c d s t hc hd (omega (arith, count_digit c s hc, count_digit d t hd))
              (λ b. compare_same b s t (omega (arith, count_digit c s hc, count_digit d t hd))))
    ]
  ]
