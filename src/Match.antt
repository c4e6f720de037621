-- ===== src/Match.antt =====
-- Match types and the loops that apply them (src/lib-sieve/mcht-is.c, mcht-contains.c,
-- sieve-match.c, and plugins/relational/mcht-value.c and ext-relational-common.c).
--
-- A match type or comparator whose function is NULL is `none`. Trace output is left out.
pub mod Contains
pub mod Keys
pub mod Relational
pub mod Wildcards
use Prim.Native.Nat.{Ordering}
use pigeonhole.Prelude.{
  ℕ, zero, suc, ◌+◌, ◌-◌, ◌≤◌, ◌<◌, ◌≡◌, Bool, true, false, not, ◌&&◌, ◌||◌, Option, none, some,
  List, [], ◌∷◌, length, drop, ltb, leb, ◌==◌, if◌then◌else◌,
}
use pigeonhole.Comparator.CharMatch.{CharMatch}

-- The results 1, 0 and -1.
pub data MatchResult : Type 0 where
  matched unmatched match_error : MatchResult

abbrev pub from_bool : Bool → MatchResult
from_bool true = matched
from_bool false = unmatched

abbrev pub is_equal : Ordering → Bool
is_equal Ordering.eq = true
is_equal Ordering.lt = false
is_equal Ordering.gt = false

abbrev pub is_empty : List ℕ → Bool
is_empty [] = true
is_empty (x ∷ xs) = false

unfoldable pub is_match_key : Option (List ℕ → List ℕ → Ordering) → List ℕ → List ℕ → MatchResult
is_match_key compare [] key = from_bool (is_empty key)
is_match_key none (v ∷ val) key = unmatched
is_match_key (some compare) (v ∷ val) key = from_bool (is_equal (compare (v ∷ val) key))

-- SIEVE_CONTAINS_CPU_CHECK_INTERVAL
abbrev pub check_interval : ℕ
check_interval = 4096

-- The search loop, with a bound on its rounds (`none` when they ran out). `exceeded` is the answer
-- of the CPU limit when so many bytes of the value are left.
unfoldable pub contains_loop : CharMatch → (ℕ → Bool) → ℕ → List ℕ → List ℕ → ℕ → Option MatchResult
contains_loop M exceeded zero vp kp counter = none
contains_loop M exceeded (suc rounds) [] kp counter = some (from_bool (is_empty kp))
contains_loop M exceeded (suc rounds) (v ∷ vp) [] counter = some matched
contains_loop M exceeded (suc rounds) (v ∷ vp) (k ∷ kp) counter =
    let (hit, vp', kp') = M.char_match (v ∷ vp) (k ∷ kp) in
    let vp'' = if hit then vp' else drop 1 vp' in
    let check = leb check_interval (counter + 1) in
    let rest = contains_loop M exceeded rounds vp'' kp' (if check then 0 else counter + 1) in
    if check && exceeded (length vp'') then some match_error else rest

unfoldable pub contains_match_key :
    Option CharMatch → (ℕ → Bool) → List ℕ → List ℕ → Option MatchResult
unfolding contains_loop
contains_match_key cmp exceeded [] key = some (from_bool (is_empty key))
contains_match_key none exceeded (v ∷ val) key = some unmatched
contains_match_key (some M) exceeded (v ∷ val) key =
    contains_loop M exceeded (suc (suc (suc (length val)))) (v ∷ val) key 0

-- The parameter of :value and :count.
pub data RelMatch : Type 0 where
  rel_greater rel_greater_equal rel_less rel_less_equal rel_equal rel_not_equal : RelMatch

-- The two letters, as in mcht_relational_validate; `none` is REL_MATCH_INVALID.
unfoldable pub rel_match_of : List ℕ → Option RelMatch
rel_match_of [] = none
rel_match_of (a ∷ []) = none
rel_match_of (a ∷ b ∷ []) =
    if a == b'g'
    then if b == b't' then some rel_greater else if b == b'e' then some rel_greater_equal else none
    else if a == b'l'
    then if b == b't' then some rel_less else if b == b'e' then some rel_less_equal else none
    else if a == b'e'
    then if b == b'q' then some rel_equal else none
    else if a == b'n'
    then if b == b'e' then some rel_not_equal else none
    else none
rel_match_of (a ∷ b ∷ c ∷ rest) = none

-- The switch on the relation, by the sign of the comparison.
abbrev pub rel_holds : RelMatch → Ordering → Bool
rel_holds rel_greater Ordering.gt = true
rel_holds rel_greater_equal Ordering.gt = true
rel_holds rel_greater_equal Ordering.eq = true
rel_holds rel_less Ordering.lt = true
rel_holds rel_less_equal Ordering.lt = true
rel_holds rel_less_equal Ordering.eq = true
rel_holds rel_equal Ordering.eq = true
rel_holds rel_not_equal Ordering.lt = true
rel_holds rel_not_equal Ordering.gt = true
rel_holds _ _ = false

unfoldable pub value_match_key :
    (List ℕ → List ℕ → Ordering) → RelMatch → List ℕ → List ℕ → MatchResult
value_match_key compare rel val key = from_bool (rel_holds rel (compare val key))

-- A string list that is read from its start: the items, and whether reading on behind the last one
-- fails (-1) or ends (0).
pub record StringList : Type 0 where
  pub items : List (List ℕ)
  pub fails : Bool

abbrev pub end_result : Bool → MatchResult
end_result true = match_error
end_result false = unmatched

-- The default key loop of sieve_match_value.
unfoldable pub match_keys : (List ℕ → MatchResult) → List (List ℕ) → Bool → MatchResult
match_keys match_key [] fails = end_result fails
match_keys match_key (key ∷ keys) fails = elim (match_key key) [
  | unmatched ↦ match_keys match_key keys fails
  | matched ↦ matched
  | match_error ↦ match_error
]

-- `mctx->match_status` after a result.
unfoldable pub update_status : MatchResult → MatchResult → MatchResult
update_status match_error match = match_error
update_status status match_error = match_error
update_status matched match = matched
update_status unmatched match = match

-- sieve_match_value: the new match status and the result.
unfoldable pub match_value :
    (List ℕ → List ℕ → MatchResult) → MatchResult → List ℕ → StringList → MatchResult × MatchResult
unfolding match_keys update_status
match_value match_key status value key_list =
    let match = match_keys (match_key value) key_list.items key_list.fails in
    (update_status status match, match)

unfoldable pub match_values :
    (List ℕ → List ℕ → MatchResult)
    → MatchResult
    → List (List ℕ)
    → Bool
    → StringList
    → MatchResult × MatchResult
unfolding match_value
match_values match_key status [] fails key_list = (status, end_result fails)
match_values match_key status (value ∷ values) fails key_list =
    let (status', match) = match_value match_key status value key_list in
    elim match [
      | unmatched ↦ match_values match_key status' values fails key_list
      | matched ↦ (status', matched)
      | match_error ↦ (status', match_error)
    ]

-- sieve_match, for a match type with a `match_key` function: the result of the value loop.
unfoldable pub sieve_match : (List ℕ → List ℕ → MatchResult) → StringList → StringList → MatchResult
unfolding match_values
sieve_match match_key value_list key_list =
    (match_values match_key unmatched value_list.items value_list.fails key_list).1
