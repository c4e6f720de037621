-- ===== src/Match/Keys.antt =====
-- The value and key loops: the first result that is not 0 decides.
use pigeonhole.Prelude.{ℕ, ◌≡◌, refl, ◌⊎◌, inl, inr, false, List, [], ◌∷◌, arith}
use pigeonhole.Match.{
  MatchResult, matched, unmatched, match_error, StringList, match_keys, match_value, match_values,
  update_status, sieve_match,
}

abbrev pub Any {ℓ} : {A : Type ℓ} → (A → Type 0) → List A → Type 0
Any P [] = ⊥
Any P (x ∷ xs) = P x ⊎ Any P xs

MatchResult-cases : (r : MatchResult) → (r ≡ matched) ⊎ (r ≡ unmatched) ⊎ (r ≡ match_error)
MatchResult-cases matched = inl refl
MatchResult-cases unmatched = inr (inl refl)
MatchResult-cases match_error = inr (inr refl)

-- `r` says whether `P` holds.
abbrev Decides : Type 0 → MatchResult → Type 0
Decides P r = ((r ≡ matched) × P) ⊎ ((r ≡ unmatched) × (¬ P))

either : {P Q : Type 0} → ¬ P → ¬ Q → ¬ (P ⊎ Q)
either np nq (inl p) = np p
either np nq (inr q) = nq q

orelse : {P Q : Type 0} {r : MatchResult} → ¬ P → Decides Q r → Decides (P ⊎ Q) r
orelse np (inl (e, q)) = inl (e, inr q)
orelse np (inr (e, nq)) = inr (e, either np nq)

-- A match function that never fails.
abbrev pub NeverFails : (List ℕ → List ℕ → MatchResult) → Type 0
NeverFails match_key = (val key : List ℕ) → ¬ (match_key val key ≡ match_error)

module _ (match_key : List ℕ → List ℕ → MatchResult) (total : NeverFails match_key) where
  abbrev Hits : List ℕ → List ℕ → Type 0
  Hits val key = match_key val key ≡ matched

  keys_hit :
      (val key : List ℕ) (keys : List (List ℕ))
      → Hits val key
      → match_keys (match_key val) (key ∷ keys) false ≡ matched
  unfolding match_keys
  keys_hit val key keys e = rw (e, match_keys)

  keys_next :
      (val key : List ℕ) (keys : List (List ℕ))
      → match_key val key ≡ unmatched
      → match_keys (match_key val) (key ∷ keys) false ≡ match_keys (match_key val) keys false
  unfolding match_keys
  keys_next val key keys e = rw (e, match_keys)

  keys_end : (val : List ℕ) → match_keys (match_key val) [] false ≡ unmatched
  unfolding match_keys
  keys_end val = refl

  keys-Decides :
      (val : List ℕ) (keys : List (List ℕ))
      → Decides (Any (Hits val) keys) (match_keys (match_key val) keys false)
  keys-Decides val [] = inr (keys_end val, λ h. h)
  keys-Decides val (key ∷ keys) = elim (MatchResult-cases (match_key val key)) [
    | inl e ↦ inl (keys_hit val key keys e, inl e)
    | inr (inl e) ↦ rw (keys_next val key keys e) (orelse (λ h. cc) (keys-Decides val keys))
    | inr (inr e) ↦ absurd (total val key e)
  ]

  abbrev all_of : List (List ℕ) → StringList
  all_of items = record { items = items; fails = false }

  value_result :
      (status r : MatchResult) (val : List ℕ) (keys : List (List ℕ))
      → match_keys (match_key val) keys false ≡ r
      → match_value match_key status val (all_of keys) ≡ (update_status status r, r)
  unfolding match_value
  value_result status r val keys e = rw e

  values_hit :
      (status : MatchResult) (val : List ℕ) (values keys : List (List ℕ))
      → match_keys (match_key val) keys false ≡ matched
      → (match_values match_key status (val ∷ values) false (all_of keys)).1 ≡ matched
  unfolding match_values
  values_hit status val values keys e = ground (arith, value_result status matched val keys e)

  values_next :
      (status : MatchResult) (val : List ℕ) (values keys : List (List ℕ))
      → match_keys (match_key val) keys false ≡ unmatched
      → match_values match_key status (val ∷ values) false (all_of keys)
        ≡ match_values match_key (update_status status unmatched) values false (all_of keys)
  unfolding match_values
  values_next status val values keys e = ground (arith, value_result status unmatched val keys e)

  values_end :
      (status : MatchResult) (keys : List (List ℕ))
      → (match_values match_key status [] false (all_of keys)).1 ≡ unmatched
  unfolding match_values
  values_end status keys = refl

  values-Decides :
      (status : MatchResult) (values keys : List (List ℕ))
      → Decides
          (Any (λ val. Any (Hits val) keys) values)
          (match_values match_key status values false (all_of keys)).1
  values-Decides status [] keys = inr (values_end status keys, λ h. h)
  values-Decides status (val ∷ values) keys = elim (keys-Decides val keys) [
    | inl (e, found) ↦ inl (values_hit status val values keys e, inl found)
    | inr (e, missing) ↦
        rw (values_next status val values keys e)
          (orelse missing (values-Decides (update_status status unmatched) values keys))
  ]

  -- With a match function and lists that do not fail, the test is true exactly if some value
  -- matches some key.
  pub sieve_match-Decides :
      (values keys : List (List ℕ))
      → ((sieve_match match_key
              (record { items = values; fails = false })
              (record { items = keys; fails = false })
            ≡ matched)
          × Any (λ val. Any (λ key. match_key val key ≡ matched) keys) values)
        ⊎ ((sieve_match match_key
                (record { items = values; fails = false })
                (record { items = keys; fails = false })
              ≡ unmatched)
            × (¬ Any (λ val. Any (λ key. match_key val key ≡ matched) keys) values))
  unfolding sieve_match
  sieve_match-Decides values keys = values-Decides unmatched values keys
