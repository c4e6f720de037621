-- ===== src/Comparator/Numeric.antt =====
-- i;ascii-numeric compares the numbers at the start of two strings.
use Prim.Native.Nat.{compare, Ordering}
use native.Mathlib.Nat.{pow-succ', mul-le-mul_right}
use pigeonhole.Prelude.{
  ℕ, zero, suc, ◌+◌, ◌-◌, ◌*◌, ◌^◌, ◌≤◌, ◌<◌, ◌≡◌, refl, inl, inr, false, not, Option, none, some,
  List, [], ◌∷◌, ◌==◌, if◌then◌else◌, Bool-cases, ltb, arith,
}
use pigeonhole.Ctype.{Ctype}
use pigeonhole.Comparator.{
  at_digit, skip_zeros, skip_digits, compare_digits, more_digits, numeric_compare,
}
use pigeonhole.Comparator.Digits.{
  order_cases, digits_value, digit_count, value_low, value_high, value-skip_zeros, count_other,
  count_digit, value_digit, value_other, compare_same,
}

module _ (C : Ctype) where
  open C use {is_digit, is_digit_iff}

  -- A string that does not start with a digit stands for infinity.
  unfoldable pub number : List ℕ → Option ℕ
  unfolding digits_value
  number [] = none
  number (c ∷ s) = if is_digit c then some (digits_value C 0 (c ∷ s)) else none

  unfoldable pub compare_numbers : Option ℕ → Option ℕ → Ordering
  compare_numbers none none = Ordering.eq
  compare_numbers none (some b) = Ordering.gt
  compare_numbers (some a) none = Ordering.lt
  compare_numbers (some a) (some b) = compare a b

  -- Where the common walk over the digits ends.
  skip_digits_lem :
      (s t : List ℕ)
      → (more_digits C (skip_digits C s t).0 ≡ ltb (digit_count C t) (digit_count C s))
        × (more_digits C (skip_digits C s t).1 ≡ ltb (digit_count C s) (digit_count C t))
        × (digit_count C s ≡ digit_count C t → (skip_digits C s t).2 ≡ digit_count C s)
  unfolding skip_digits more_digits digit_count
  skip_digits_lem [] [] = ground arith
  skip_digits_lem [] (d ∷ t) = ground arith
  skip_digits_lem (c ∷ s) [] = ground arith
  skip_digits_lem (c ∷ s) (d ∷ t) = ground (arith, skip_digits_lem s t)

  -- Without a zero in front, the value has the size that the number of digits tells.
  lead_low :
      (s : List ℕ)
      → 0 < digit_count C (skip_zeros C s)
      → 10 ^ digit_count C (skip_zeros C s) ≤ 10 * digits_value C 0 (skip_zeros C s)
  unfolding skip_zeros
  lead_low [] h = unfold digit_count digits_value in omega arith
  lead_low (c ∷ s) h = elim (Bool-cases (c == 48)) [
    | inl e ↦ rw e (lead_low s (rw e at h))
    | inr e ↦ rw e (lead_digit c s e (rw e at h))
  ]
    where
      lead_digit :
          (c : ℕ) (s : List ℕ)
          → (c == 48) ≡ false
          → 0 < digit_count C (c ∷ s)
          → 10 ^ digit_count C (c ∷ s) ≤ 10 * digits_value C 0 (c ∷ s)
      lead_digit c s e h = elim (Bool-cases (is_digit c)) [
        | inr d ↦ absurd (omega (arith, count_other C c s d))
        | inl d ↦
            let nonzero : 49 ≤ c = ground (arith, (is_digit_iff c).0 d) in
            let first : 1 * 10 ^ digit_count C s ≤ (0 * 10 + (c - 48)) * 10 ^ digit_count C s =
              mul-le-mul_right (10 ^ digit_count C s) (omega arith) in
            rw (value_digit C 0 c s d, count_digit C c s d, pow-succ')
              (omega (arith, first, value_low C (0 * 10 + (c - 48)) s))
      ]

  power_mono : (m n : ℕ) → m ≤ n → 10 ^ m ≤ 10 ^ n
  power_mono m zero h = let z : m ≡ 0 = omega arith in rw z (omega arith)
  power_mono m (suc n) h = elim (order_cases m (suc n)) [
    | inl l ↦ omega (arith, pow-succ' 10 n, power_mono m n (omega arith))
    | inr (inl e) ↦ rw e (omega arith)
    | inr (inr l) ↦ absurd (omega arith)
  ]

  fewer_digits :
      (s t : List ℕ)
      → digit_count C s < digit_count C (skip_zeros C t)
      → digits_value C 0 s < digits_value C 0 (skip_zeros C t)
  fewer_digits s t h = omega (
    arith,
    value_high C 0 s,
    lead_low t (omega arith),
    power_mono (suc (digit_count C s)) (digit_count C (skip_zeros C t)) h,
    pow-succ' 10 (digit_count C s),
  )

  -- The branches of the comparator after its test of the first bytes.
  abbrev digits_result : List ℕ → List ℕ → Ordering
  digits_result vp kp =
      if not (more_digits C (skip_digits C vp kp).0)
      then if more_digits C (skip_digits C vp kp).1
        then Ordering.lt
        else compare_digits C (skip_digits C vp kp).2 vp kp
      else Ordering.gt

  digits_result_lem :
      (val key : List ℕ)
      → digits_result (skip_zeros C val) (skip_zeros C key)
        ≡ compare (digits_value C 0 (skip_zeros C val)) (digits_value C 0 (skip_zeros C key))
  digits_result_lem val key =
      let vp : List ℕ = skip_zeros C val in
      let kp : List ℕ = skip_zeros C key in
      let (v_more, k_more, k_count) = skip_digits_lem vp kp in
      elim (order_cases (digit_count C vp) (digit_count C kp)) [
        | inl l ↦ ground (arith, v_more, k_more, fewer_digits vp key l)
        | inr (inl e) ↦ ground (arith, v_more, k_more, k_count e, compare_same C 0 vp kp e)
        | inr (inr l) ↦ ground (arith, v_more, k_more, fewer_digits kp val l)
      ]

  number_lem : (s : List ℕ) → number s ≡ (if at_digit C s then some (digits_value C 0 s) else none)
  unfolding number at_digit
  number_lem [] = ground (arith, is_digit_iff 0)
  number_lem (c ∷ s) = refl

  value_infinite : (s : List ℕ) → at_digit C s ≡ false → digits_value C 0 s ≡ 0
  unfolding at_digit
  value_infinite [] h = unfold digits_value in refl
  value_infinite (c ∷ s) h = value_other C 0 c s h

  -- The comparator compares the numbers at the start of the two strings; a string that does not
  -- start with a digit is greater than every number and equal to another such string.
  pub numeric_compare_lem :
      (val key : List ℕ) → numeric_compare C val key ≡ compare_numbers (number val) (number key)
  unfolding numeric_compare compare_numbers
  numeric_compare_lem val key = ground (
    arith,
    digits_result_lem val key,
    value-skip_zeros C val,
    value-skip_zeros C key,
    value_infinite val,
    value_infinite key,
    number_lem val,
    number_lem key,
  )
