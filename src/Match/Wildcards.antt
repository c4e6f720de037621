-- ===== src/Match/Wildcards.antt =====
-- The match type :matches (src/lib-sieve/mcht-matches.c) and the match values that it collects
-- (src/lib-sieve/sieve-match-types.c).
--
-- A pointer into the value is its offset, a pointer into the key is the list of bytes behind it.
-- The strings mvalue and mchars exist only where match values are requested; otherwise nothing
-- reads them.
pub mod Glob
pub mod Search
pub mod Heads
pub mod Rounds
pub mod Sections
pub mod Decides
pub mod Ends
pub mod Total
use pigeonhole.Prelude.{
  ℕ, zero, suc, ◌+◌, ◌-◌, Bool, true, false, not, ◌&&◌, ◌||◌, Option, none, some, List, [], ◌∷◌,
  ◌++◌, length, take, drop, ltb, leb, ◌==◌, if◌then◌else◌,
}
use pigeonhole.Comparator.CharMatch.{CharMatch}
use pigeonhole.Match.{MatchResult, matched, unmatched, match_error, check_interval, is_empty}

-- '\0', '*' and '?'.
pub data Wildcard : Type 0 where
  no_wildcard star question : Wildcard

abbrev pub is_star : Wildcard → Bool
is_star star = true
is_star no_wildcard = false
is_star question = false

abbrev pub is_question : Wildcard → Bool
is_question question = true
is_question no_wildcard = false
is_question star = false

abbrev pub is_none : Wildcard → Bool
is_none no_wildcard = true
is_none star = false
is_none question = false

-- SIEVE_MAX_MATCH_VALUES
abbrev pub max_match_values : ℕ
max_match_values = 32

-- The match values; `none` where they are not requested.
abbrev pub MatchValues : Type 0
MatchValues = Option (List (List ℕ))

abbrev pub values_start : Bool → MatchValues
values_start true = some []
values_start false = none

unfoldable pub values_add : MatchValues → List ℕ → MatchValues
values_add none value = none
values_add (some values) value =
    if leb max_match_values (length values) then some values else some (values ++ (value ∷ []))

unfoldable pub values_add_chars : MatchValues → List ℕ → MatchValues
unfolding values_add
values_add_chars values [] = values
values_add_chars values (c ∷ chars) = values_add_chars (values_add values (c ∷ [])) chars

-- sieve_match_values_set at the index 0.
unfoldable pub values_set_first : MatchValues → List ℕ → MatchValues
values_set_first none value = none
values_set_first (some []) value = some []
values_set_first (some (v ∷ values)) value = some (value ∷ values)

-- The counter of rounds, and how often the CPU limit has been asked for.
pub record Clock : Type 0 where
  pub counter : ℕ
  pub polls : ℕ

-- One round more: the limit is asked for every SIEVE_MATCHES_CPU_CHECK_INTERVAL rounds.
unfoldable pub tick : (ℕ → Bool) → Clock → Clock × Bool
tick exceeded k =
    if leb check_interval (k.counter + 1)
    then (record { counter = 0; polls = k.polls + 1 }, exceeded k.polls)
    else (record { counter = k.counter + 1; polls = k.polls }, false)

-- The results 1, 0 and -1, with what is left of the value.
pub data Find : Type 0 where
  found : List ℕ → Clock → Find
  missing : List ℕ → Clock → Find
  find_exceeded : Find
  find_ran_out : Find

unfoldable pub string_find : CharMatch → (ℕ → Bool) → ℕ → List ℕ → List ℕ → Clock → Find
unfolding tick
string_find M exceeded zero vp kp k = find_ran_out
string_find M exceeded (suc rounds) vp [] k = found vp k
string_find M exceeded (suc rounds) [] (n ∷ kp) k = missing [] k
string_find M exceeded (suc rounds) (v ∷ vp) (n ∷ kp) k =
    let (hit, vp', kp') = M.char_match (v ∷ vp) (n ∷ kp) in
    let (k', over) = tick exceeded k in
    let rest = string_find M exceeded rounds (if hit then vp' else drop 1 vp') kp' k' in
    if over then find_exceeded else rest

-- The bytes up to the next wildcard with escapes resolved, the key from there on, the wildcard.
abbrev pub Section : Type 0
Section = List ℕ × List ℕ × Wildcard

abbrev pub prepend : ℕ → Section → Section
prepend c (section, wp, next) = (c ∷ section, wp, next)

unfoldable pub scan_key_section : List ℕ → Section
scan_key_section [] = ([], [], no_wildcard)
scan_key_section (c ∷ []) =
    if c == b'*'
    then ([], c ∷ [], star)
    else if c == b'?'
    then ([], c ∷ [], question)
    else (c ∷ [], [], no_wildcard)
scan_key_section (c ∷ d ∷ wp) =
    let escaped = prepend d (scan_key_section wp) in
    let plain = prepend c (scan_key_section (d ∷ wp)) in
    if c == b'*'
    then ([], c ∷ d ∷ wp, star)
    else if c == b'?'
    then ([], c ∷ d ∷ wp, question)
    else if c == b'\\'
    then escaped
    else plain

-- The search for a section, behind a wildcard for one that is not empty: '?'s before it are
-- counted. An empty section means that the scan has not moved, so that `wp++` leads to `wp`.
unfoldable pub next_section : Wildcard → List ℕ → ℕ → Section × ℕ
unfolding scan_key_section
next_section wcard [] offset = (([], [], no_wildcard), offset)
next_section wcard (c ∷ wp) offset =
    let (section, wp', next) = scan_key_section (c ∷ wp) in
    let more = next_section wcard wp (offset + 1) in
    if is_none wcard || not (is_empty section) || is_star next
    then ((section, wp', next), offset)
    else more

pub record Captures : Type 0 where
  pub values : MatchValues
  pub mvalue : List ℕ
  pub mchars : List ℕ

pub record Scan : Type 0 where
  pub vp : ℕ
  pub kp : List ℕ
  pub wp : List ℕ
  pub section : List ℕ
  pub wcard : Wildcard
  pub next_wcard : Wildcard
  pub key_offset : ℕ
  pub backtrack : Bool
  pub clock : Clock
  pub captures : Captures

-- prv, prk and prw.
pub record Stored : Type 0 where
  pub prv : ℕ
  pub prk : List ℕ
  pub prw : List ℕ

-- How a round of the loop ends: with another round, behind the loop, or with -1.
pub data RoundEnd : Type 0 where
  again : Scan → RoundEnd
  leave : Scan → RoundEnd
  over_limit : RoundEnd
  ran_out : RoundEnd

-- The first part of a round: find the needle, unless a failed match is taken up again.
unfoldable pub begin_section : Scan → Scan
unfolding next_section
begin_section s =
    let ((section, wp, next), offset) = next_section s.next_wcard s.wp 0 in
    if s.backtrack then record s { backtrack = false } else record s {
      wcard = s.next_wcard;
      next_wcard = next;
      wp = wp;
      section = section;
      key_offset = offset;
      captures = record s.captures { mvalue = [] };
    }

unfoldable pub eat_stars : List ℕ → List ℕ
eat_stars [] = []
eat_stars (c ∷ kp) = let rest = eat_stars kp in if c == b'*' then rest else c ∷ kp

module _ (M : CharMatch) (exceeded : ℕ → Bool) (val : List ℕ) where
  open M use {char_match}

  -- The bytes between two pointers, and the pointer to what is left.
  abbrev pub slice : ℕ → ℕ → List ℕ
  slice from upto = take (upto - from) (drop from val)

  abbrev pub offset_of : List ℕ → ℕ
  offset_of rest = length val - length rest

  abbrev pub finish : Scan → Scan
  finish s = record s { kp = []; vp = length val }

  -- No more wildcards: the needle is the value, or its end.
  unfoldable pub last_section : Scan → Scan
  unfolding values_add values_add_chars
  last_section s = elim s.wcard [
    | no_wildcard ↦
        let (hit, rest, needle) = char_match (drop s.vp val) s.section in
        if not (length val - s.vp == length s.section)
        then s
        else if hit
        then finish s
        else record s { vp = offset_of rest }
    | _ ↦
        let qend = length val - length s.section in
        let qp = qend - s.key_offset in
        let (hit, rest, needle) = char_match (drop qend val) s.section in
        let mvalue = s.captures.mvalue ++ slice s.vp qp in
        if ltb (length val) (s.vp + length s.section + s.key_offset)
        then s
        else if hit
        then finish (record s {
          captures = record s.captures {
            mvalue = mvalue;
            values = values_add_chars (values_add s.captures.values mvalue) (slice qp qend);
          };
        })
        else record s { vp = offset_of rest }
  ]

  -- A match at a fixed position has failed: go back to the last '*', if there is one.
  unfoldable pub start_backtrack : Option Stored → Scan → Scan
  start_backtrack none s = s
  start_backtrack (some p) s =
      if ltb (p.prv + 1) (length val)
      then record s {
        vp = p.prv + 1;
        kp = p.prk;
        wp = p.prw;
        captures = record s.captures { mvalue = s.captures.mvalue ++ slice p.prv (p.prv + 1) };
        wcard = star;
        next_wcard = question;
        backtrack = true;
      }
      else s

  -- The loop over successive '?'s, with a bound on its rounds.
  unfoldable pub scan_questions : ℕ → Option Stored → Scan → Option Scan
  unfolding scan_key_section start_backtrack
  scan_questions zero stored s = none
  scan_questions (suc rounds) stored s =
      let (subsection, wp, next) = scan_key_section s.wp in
      let (hit, rest, needle) = char_match (drop (s.vp + 1) val) subsection in
      let s' = record s {
        vp = s.vp + 1;
        wp = wp;
        next_wcard = next;
        captures = record s.captures { mchars = s.captures.mchars ++ slice s.vp (s.vp + 1) };
      } in
      let onward =
        scan_questions rounds stored
          (record s' { vp = offset_of rest; wp = drop 1 wp; kp = drop 1 wp }) in
      if not (is_question s.next_wcard)
      then some s
      else if s.vp == length val
      then some (start_backtrack stored s)
      else if is_empty subsection && is_none next && ltb (s.vp + 1) (length val)
      then some (start_backtrack stored s')
      else if hit
      then onward
      else some (start_backtrack stored (record s' { vp = offset_of rest }))

  -- Whether the key ends in a wildcard '*'.
  unfoldable pub end_round : Scan → RoundEnd
  unfolding values_add
  end_round s =
      if is_empty s.kp && is_star s.next_wcard
      then leave (
          finish (record s {
            captures = record s.captures {
              mvalue = slice s.vp (length val);
              values = values_add s.captures.values (slice s.vp (length val));
            };
          }))
      else again s

  abbrev pub add_star_value : Option Stored → Captures → MatchValues
  add_star_value none c = c.values
  add_star_value (some p) c = values_add c.values c.mvalue

  -- Behind the loop over '?'s.
  unfoldable pub settle : Option Stored → Scan → RoundEnd
  unfolding end_round values_add values_add_chars
  settle stored s =
      let s' = record s {
        captures = record s.captures {
          values = values_add_chars (add_star_value stored s.captures) s.captures.mchars;
        };
      } in
      if s.backtrack
      then end_round s
      else if is_question s.next_wcard
      then leave s
      else if is_star s.next_wcard
      then end_round s'
      else leave s'

  -- Behind the match of the needle: update the pointers, and go on with the next wildcard.
  unfoldable pub pass_wildcard : Option Stored → Scan → RoundEnd
  unfolding scan_questions settle
  pass_wildcard stored s =
      elim (scan_questions (length s.wp + 1) stored
        (record s { wp = drop 1 s.wp; kp = drop 1 s.wp })) [
          | none ↦ ran_out
          | some s' ↦ settle stored s'
        ]

  -- Another wildcard follows: match the needle before it.
  unfoldable pub middle_section : Scan → RoundEnd
  unfolding string_find pass_wildcard
  middle_section s = elim s.wcard [
    | no_wildcard ↦
        let (hit, rest, needle) = char_match (drop s.vp val) s.section in
        let s' = record s { vp = offset_of rest; captures = record s.captures { mchars = [] } } in
        if hit then pass_wildcard none s' else leave s'
    | _ ↦
        let vp = s.vp + s.key_offset in
        if leb (length val) vp
        then leave (record s { vp = vp; captures = record s.captures { mchars = [] } })
        else elim (string_find M exceeded (length val + 2) (drop vp val) s.section s.clock) [
          | found rest k ↦
              let prv = offset_of rest - length s.section in
              let qp = prv - s.key_offset in
              pass_wildcard (some (record { prv = prv; prk = s.kp; prw = s.wp })) (record s {
                vp = offset_of rest;
                clock = k;
                captures = record s.captures {
                  mvalue = s.captures.mvalue ++ slice s.vp qp;
                  mchars = slice qp prv;
                };
              })
          | missing rest k ↦ leave (record s {
            vp = offset_of rest;
            clock = k;
            captures = record s.captures { mchars = [] };
          })
          | find_exceeded ↦ over_limit
          | find_ran_out ↦ ran_out
        ]
  ]

  unfoldable pub match_round : Scan → RoundEnd
  unfolding tick begin_section last_section middle_section
  match_round s =
      let (k, over) = tick exceeded s.clock in
      let s' = begin_section (record s { clock = k }) in
      if over
      then over_limit
      else if is_none s'.next_wcard
      then leave (last_section s')
      else middle_section s'

  -- Behind the loop: the match is successful if both the value and the key are exhausted.
  unfoldable pub end_match : Scan → MatchResult × MatchValues
  unfolding eat_stars values_set_first
  end_match s =
      let kp = if s.vp == length val then eat_stars s.kp else s.kp in
      if is_empty kp && s.vp == length val && not (is_question s.next_wcard)
      then (matched, values_set_first s.captures.values val)
      else (unmatched, none)

  -- The loop, with a bound on its rounds (`none` when they ran out).
  unfoldable pub matches_loop : ℕ → Scan → Option (MatchResult × MatchValues)
  unfolding match_round end_match
  matches_loop zero s = none
  matches_loop (suc rounds) s =
      if is_empty s.kp || leb (length val) s.vp then some (end_match s) else elim (match_round s) [
        | again s' ↦ matches_loop rounds s'
        | leave s' ↦ some (end_match s')
        | over_limit ↦ some (match_error, none)
        | ran_out ↦ none
      ]

abbrev pub initial_scan : Bool → List ℕ → Scan
initial_scan enabled key = record {
  vp = 0;
  kp = key;
  wp = key;
  section = [];
  wcard = no_wildcard;
  next_wcard = no_wildcard;
  key_offset = 0;
  backtrack = false;
  clock = record { counter = 0; polls = 0 };
  captures = record { values = values_add (values_start enabled) []; mvalue = []; mchars = [] };
}

-- The result, with the match values that are committed, if any are.
unfoldable pub matches_match_key :
    Option CharMatch → (ℕ → Bool) → Bool → List ℕ → List ℕ → Option (MatchResult × MatchValues)
unfolding matches_loop values_add
matches_match_key none exceeded enabled val key = some (unmatched, none)
matches_match_key (some M) exceeded enabled val key =
    matches_loop M exceeded val (length key + length val + 1) (initial_scan enabled key)
