-- ===== src/Match/Wildcards/Total.antt =====
-- The loop of :matches ends for every key (src/lib-sieve/mcht-matches.c): with every round less of
-- the key is left, or as much of it and less of the value.
use pigeonhole.Prelude.{
  ℕ, zero, suc, ◌+◌, ◌-◌, ◌≤◌, ◌<◌, ◌≡◌, ◌≢◌, refl, sym, ap, inl, inr, Bool, true, false, ◌||◌,
  Option, none, some, List, [], ◌∷◌, ◌++◌, length, drop, leb, if◌then◌else◌, Bool-cases,
  length-append, length-drop, arith,
}
use pigeonhole.Comparator.CharMatch.{CharMatch}
use pigeonhole.Match.{match_error, is_empty}
use pigeonhole.Match.Wildcards.{
  Wildcard, no_wildcard, star, question, is_none, Clock, tick, Section, scan_key_section,
  next_section, Scan, Stored, RoundEnd, again, leave, over_limit, ran_out, begin_section, slice,
  middle_section, end_match, match_round, matches_loop, initial_scan, matches_match_key, Find,
  found, missing, find_exceeded, find_ran_out, string_find,
}
use pigeonhole.Match.Wildcards.Glob.{StopsAt, scan_key_section-Scanned}
use pigeonhole.Match.Wildcards.Search.{length-PrefixOf, FoundGood, string_find-FoundGood}
use pigeonhole.Match.Wildcards.Decides.{length-scan}
use pigeonhole.Match.Wildcards.Heads.{goes_on}
use pigeonhole.Match.Wildcards.Ends.{
  measure, Ready, Smaller, Smaller-if, pass_wildcard-Smaller, offset_bounds,
}

star_left : (wp : List ℕ) (next : Wildcard) → StopsAt next wp → is_none next ≡ false → 0 < length wp
star_left wp no_wildcard h e = cc
star_left wp star (rest, h) e = omega (arith, ap length h)
star_left wp question (rest, h) e = omega (arith, ap length h)

abbrev Short : ℕ → Section → Type 0
Short n (s, wp, next) = (length wp ≤ n) × (is_none next ≡ false → 0 < length wp)

Short-if :
    (n : ℕ) (c : Bool) (x y : Section × ℕ)
    → Short n x.0
    → Short n y.0
    → Short n (if c then x else y).0
Short-if n true x y h k = h
Short-if n false x y h k = k

next_section-Short :
    (wcard : Wildcard) (wp : List ℕ) (offset : ℕ)
    → Short (length wp) (next_section wcard wp offset).0
unfolding next_section
next_section-Short wcard [] offset = (omega arith, λ e. cc)
next_section-Short wcard (c ∷ wp) offset =
    let scan = scan_key_section (c ∷ wp) in
    let more = next_section-Short wcard wp (offset + 1) in
    Short-if (length (c ∷ wp)) _ (scan, offset) (next_section wcard wp (offset + 1))
      (length-scan (c ∷ wp), star_left scan.1 scan.2 (scan_key_section-Scanned (c ∷ wp)).1)
      (omega arith, more.1)

module _ (M : CharMatch) (exceeded : ℕ → Bool) (val : List ℕ) where
  open M use {char_match, fold, hit_or_miss}

  -- The needle that has been found stands before what is left of the value.
  abbrev Room : ℕ → ℕ → Find → Type 0
  Room v s (found rest k) = length rest + s ≤ v
  Room v s _ = Unit {0}

  Room-weaken : (v v' s : ℕ) (r : Find) → v ≤ v' → Room v s r → Room v' s r
  Room-weaken v v' s (found rest k) le h = omega arith
  Room-weaken v v' s (missing rest k) le h = tt
  Room-weaken v v' s find_exceeded le h = tt
  Room-weaken v v' s find_ran_out le h = tt

  Room-if : (v s : ℕ) (c : Bool) (r : Find) → Room v s r → Room v s (if c then find_exceeded else r)
  Room-if v s true r h = tt
  Room-if v s false r h = h

  string_find-Room :
      (rounds : ℕ) (vp s : List ℕ) (k : Clock)
      → Room (length vp) (length s) (string_find M exceeded rounds vp s k)
  unfolding string_find
  string_find-Room zero vp s k = tt
  string_find-Room (suc rounds) vp [] k = omega arith
  string_find-Room (suc rounds) [] (c ∷ s) k = tt
  string_find-Room (suc rounds) (v ∷ vp) (c ∷ s) k = elim (hit_or_miss (v ∷ vp) (c ∷ s)) [
    | inl (rest, e, (front, f, g)) ↦
        rw (e, Room)
          (Room-if _ _ (tick exceeded k).1 _ (
            used_up rounds rest front (tick exceeded k).0 (
              omega (
                arith,
                ap length f,
                length-append front rest,
                length-PrefixOf fold front (c ∷ s) g,
              ))))
    | inr (e, miss) ↦
        rw (e, Room)
          (Room-if _ _ (tick exceeded k).1 _ (
            Room-weaken (length vp) (length (v ∷ vp)) (length (c ∷ s)) _ (omega arith)
              (string_find-Room rounds vp (c ∷ s) (tick exceeded k).0)))
  ]
    where
      used_up :
          (rounds : ℕ) (rest front : List ℕ) (k : Clock)
          → length rest + length (c ∷ s) ≤ length (v ∷ vp)
          → Room (length (v ∷ vp)) (length (c ∷ s)) (string_find M exceeded rounds rest [] k)
      used_up zero rest front k h = tt
      used_up (suc rounds) rest front k h = h

  wcard-Smaller :
      (n : ℕ) (w : Wildcard) (x y : RoundEnd)
      → Smaller M exceeded val n x
      → Smaller M exceeded val n y
      → Smaller M exceeded val n (elim w [ no_wildcard ↦ x | _ ↦ y ])
  wcard-Smaller n no_wildcard x y h k = h
  wcard-Smaller n star x y h k = k
  wcard-Smaller n question x y h k = k

  find-Smaller :
      (n : ℕ) (r : Find) (a b : List ℕ → Clock → RoundEnd)
      → ((rest : List ℕ) (k : Clock) → r ≡ found rest k → Smaller M exceeded val n (a rest k))
      → ((rest : List ℕ) (k : Clock) → Smaller M exceeded val n (b rest k))
      → r ≢ find_ran_out
      → Smaller M exceeded val n (elim r [
        | found rest k ↦ a rest k
        | missing rest k ↦ b rest k
        | find_exceeded ↦ over_limit
        | find_ran_out ↦ ran_out
      ])
  find-Smaller n (found rest k) a b h g ne = h rest k refl
  find-Smaller n (missing rest k) a b h g ne = g rest k
  find-Smaller n find_exceeded a b h g ne = tt
  find-Smaller n find_ran_out a b h g ne = absurd (ne refl)

  find_ends : (vp s : List ℕ) (r : Find) → FoundGood M exceeded vp s r → r ≢ find_ran_out
  find_ends vp s (found rest k) h e = cc
  find_ends vp s (missing rest k) h e = cc
  find_ends vp s find_exceeded h e = cc
  find_ends vp s find_ran_out h e = h

  -- The state with a section found.
  abbrev found_scan : Scan → List ℕ → Clock → Scan
  found_scan s rest k =
      let prv = length val - length rest - length s.section in
      record s {
        vp = length val - length rest;
        clock = k;
        captures = record s.captures {
          mvalue = s.captures.mvalue ++ slice M exceeded val s.vp (prv - s.key_offset);
          mchars = slice M exceeded val (prv - s.key_offset) prv;
        };
      }

  middle_section-Smaller :
      (n : ℕ) (s : Scan)
      → s.backtrack ≡ false
      → s.vp < length val
      → 0 < length s.wp
      → length s.wp ≤ length s.kp
      → measure M exceeded val s ≤ n
      → Smaller M exceeded val n (middle_section M exceeded val s)
  unfolding middle_section
  middle_section-Smaller n s b lt pos short few =
      wcard-Smaller n s.wcard _ _
        (let bounds = offset_bounds M exceeded val s.vp s.section (omega arith) in
          Smaller-if M exceeded val n (char_match (drop s.vp val) s.section).0 _ _
            (λ hit.
              pass_wildcard-Smaller M exceeded val n s.vp none
                (record s {
                  vp = length val - length (char_match (drop s.vp val) s.section).1;
                  captures = record s.captures { mchars = [] };
                })
                b bounds.0 bounds.1 pos (omega arith) (λ p e. cc))
            (λ miss. tt))
        (Smaller-if M exceeded val n (leb (length val) (s.vp + s.key_offset)) _ _ (λ over. tt)
          (λ inside.
            find-Smaller n _ _ _
              (λ rest k e.
                let room : length rest + length s.section
                    ≤ length (drop (s.vp + s.key_offset) val) =
                  rw e at (
                    string_find-Room (length val + 2) (drop (s.vp + s.key_offset) val) s.section
                      s.clock) in
                let from : s.vp + length rest + length s.section ≤ length val =
                  ground (arith, length-drop (s.vp + s.key_offset) val) in
                pass_wildcard-Smaller M exceeded val n s.vp _ (found_scan s rest k) b (omega arith)
                  (omega arith) pos (omega arith)
                  (λ p e'.
                    let same : record {
                      prv = length val - length rest - length s.section;
                      prk = s.kp;
                      prw = s.wp;
                    }
                        ≡ p =
                      cc in
                    (
                      sym (ap (λ (q : Stored). q.prw) same),
                      omega (
                        arith,
                        ap (λ (q : Stored). length q.prw) same,
                        ap (λ (q : Stored). length q.prk) same,
                      ),
                      omega (
                        arith,
                        ap (λ (q : Stored). q.prv) same,
                        ap (λ (q : Stored). length q.prk) same,
                      ),
                    )))
              (λ rest k. tt)
              (find_ends (drop (s.vp + s.key_offset) val) s.section _ (
                string_find-FoundGood M exceeded (length val + 2) _ s.section s.clock
                  (omega (arith, length-drop (s.vp + s.key_offset) val))))))

  -- What the first part of a round leaves.
  abbrev Begun : Scan → Scan → Type 0
  Begun s t =
      (t.backtrack ≡ false)
      × (t.vp ≡ s.vp)
      × (t.kp ≡ s.kp)
      × (length t.wp ≤ length s.kp)
      × (is_none t.next_wcard ≡ false → 0 < length t.wp)

  Begun-if :
      (s : Scan) (c : Bool) (x y : Scan)
      → (c ≡ true → Begun s x)
      → (c ≡ false → Begun s y)
      → Begun s (if c then x else y)
  Begun-if s true x y h k = h refl
  Begun-if s false x y h k = k refl

  begin_section-Begun : (s : Scan) → Ready M exceeded val s → Begun s (begin_section s)
  unfolding begin_section
  begin_section-Begun s (le, short, back) =
      let next = next_section-Short s.next_wcard s.wp 0 in
      Begun-if s s.backtrack _ _ (λ t. (refl, refl, refl, short, λ e. (back t).1))
        (λ t. (t, refl, refl, omega (arith, next.0), next.1))

  match_round-Smaller :
      (s : Scan)
      → Ready M exceeded val s
      → s.vp < length val
      → Smaller M exceeded val (measure M exceeded val s) (match_round M exceeded val s)
  unfolding match_round
  match_round-Smaller s ready lt =
      let s' = record s { clock = (tick exceeded s.clock).0 } in
      let (b, vp, kp, short, pos) = begin_section-Begun s' ready in
      Smaller-if M exceeded val (measure M exceeded val s) (tick exceeded s.clock).1 _ _
        (λ over. tt)
        (λ fine.
          Smaller-if M exceeded val (measure M exceeded val s)
            (is_none (begin_section s').next_wcard) (leave _)
            (middle_section M exceeded val (begin_section s')) (λ last. tt)
            (λ more.
              middle_section-Smaller (measure M exceeded val s) (begin_section s') b (omega arith)
                (pos more) (omega (arith, ap length kp)) (omega (arith, ap length kp))))

  round_end :
      (rounds n : ℕ) (e : RoundEnd)
      → ((s : Scan)
          → measure M exceeded val s < rounds
          → Ready M exceeded val s
          → matches_loop M exceeded val rounds s ≢ none)
      → n < suc rounds
      → Smaller M exceeded val n e
      → (elim e [
        | again s' ↦ matches_loop M exceeded val rounds s'
        | leave s' ↦ some (end_match M exceeded val s')
        | over_limit ↦ some (match_error, none)
        | ran_out ↦ none
      ])
        ≢ none
  round_end rounds n (again s) loop lt (ready, smaller) = loop s (omega arith) ready
  round_end rounds n (leave s) loop lt h = λ e. cc
  round_end rounds n over_limit loop lt h = λ e. cc
  round_end rounds n ran_out loop lt h = absurd h

  matches_loop-ne-none :
      (rounds : ℕ) (s : Scan)
      → measure M exceeded val s < rounds
      → Ready M exceeded val s
      → matches_loop M exceeded val rounds s ≢ none
  unfolding matches_loop
  matches_loop-ne-none zero s lt ready = absurd (omega arith)
  matches_loop-ne-none (suc rounds) s lt ready =
      elim (Bool-cases (is_empty s.kp || leb (length val) s.vp)) [
        | inl stop ↦ rw stop (λ e. cc)
        | inr more ↦ rw more (
            round_end rounds (measure M exceeded val s) _ (matches_loop-ne-none rounds) lt (
              match_round-Smaller s ready
                (ground (arith, goes_on s.kp (leb (length val) s.vp) more))))
      ]

-- :matches always ends: whatever the key and the value, backtracking included, the rounds that its
-- loops are given here are enough, and there is a result.
pub matches_match_key-ne-none :
    (cmp : Option CharMatch) (exceeded : ℕ → Bool) (enabled : Bool) (val key : List ℕ)
    → matches_match_key cmp exceeded enabled val key ≢ none
unfolding matches_match_key
matches_match_key-ne-none none exceeded enabled val key = λ e. cc
matches_match_key-ne-none (some M) exceeded enabled val key =
    matches_loop-ne-none M exceeded val (length key + length val + 1) (initial_scan enabled key)
      (omega arith) (omega arith, omega arith, λ e. cc)
