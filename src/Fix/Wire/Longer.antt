-- ===== src/Fix/Wire/Longer.antt =====
-- What extract of exchangesim/fix/message.py answers for a buffer, with more bytes behind it.
use exchange_sim.Prelude.{
  ℕ, ◌+◌, ◌≤◌, ◌<◌, ◌≡◌, refl, sym, List, [], ◌∷◌, ◌++◌, Bool, true, false, ◌||◌, Option, none,
  some, ltb, length, length-append, arith, Option-cases, Bool-cases, inl, inr, ◌^◌,
}
use exchange_sim.Prelude.Int.{ℤ, pos, pos_part, lt_test}
use exchange_sim.Bytes.{
  drop, slice, starts_with, find, find_from, parse_int, take_longer, drop_longer, slice_longer,
  length-drop,
}
use exchange_sim.Bytes.Search.{find_longer, find-le, starts_with-find}
use exchange_sim.Fix.Message.{
  soh, equals, Parsed, parsed, incomplete, malformed, no_begin_string, no_body_length,
}
use exchange_sim.Fix.Wire.{
  extract, extract_from, extract_body, after_start, after_length_start, after_length_end,
  after_body_length,
}

-- An answer that more bytes cannot change.
abbrev settled : Parsed (List ℕ × List ℕ) → Bool
settled (parsed x) = true
settled incomplete = false
settled (malformed no_begin_string) = false
settled (malformed no_body_length) = false
settled (malformed _) = true

-- The same answer with more bytes after it.
abbrev pub followed_by : List ℕ → Parsed (List ℕ × List ℕ) → Parsed (List ℕ × List ℕ)
followed_by ys (parsed (raw, rest)) = parsed (raw, rest ++ ys)
followed_by ys incomplete = incomplete
followed_by ys (malformed e) = malformed e

extract_body_longer :
    (xs ys : List ℕ) (n : ℕ)
    → settled (extract_body xs n) ≡ true
    → extract_body (xs ++ ys) n ≡ followed_by ys (extract_body xs n)
unfolding extract_body
extract_body_longer xs ys n h = elim (Bool-cases (ltb (length xs) (n + 7))) [
  | inl short ↦ absurd (ground (arith, short, h))
  | inr fits ↦ rw (slice_longer n (n + 3) xs ys (omega arith) (ground (arith, fits))) (
      rw (take_longer (n + 7) xs ys (ground (arith, fits))) (
        rw (drop_longer (n + 7) xs ys (ground (arith, fits)))
          (ground (arith, fits, length-append xs ys))))
]

after_body_length_longer :
    (xs ys : List ℕ) (n : ℕ) (l : Option ℤ)
    → settled (after_body_length xs n l) ≡ true
    → after_body_length (xs ++ ys) n l ≡ followed_by ys (after_body_length xs n l)
unfolding after_body_length
after_body_length_longer xs ys n none h = refl
after_body_length_longer xs ys n (some l) h =
    elim (Bool-cases (lt_test l (pos 0) || lt_test (pos (2 ^ 24)) l)) [
      | inl wrong ↦ rw wrong refl
      | inr right ↦ rw right (extract_body_longer xs ys (n + pos_part l) (simp right at h))
    ]

find_from_longer :
    (p xs ys : List ℕ) (start i : ℕ)
    → start ≤ length xs
    → find_from p start xs ≡ some i
    → find_from p start (xs ++ ys) ≡ some i
unfolding find_from
find_from_longer p xs ys start i l h = elim (Option-cases (find p (drop start xs))) [
  | inl e ↦ absurd (ground (arith, e, h))
  | inr (j, e) ↦
      rw (drop_longer start xs ys l)
        (rw (find_longer p (drop start xs) ys j e) (ground (arith, e, h)))
]

find_from-le :
    (c start i : ℕ) (xs : List ℕ)
    → start ≤ length xs
    → find_from (c ∷ []) start xs ≡ some i
    → (start ≤ i) × (i < length xs)
unfolding find_from
find_from-le c start i xs l h = elim (Option-cases (find (c ∷ []) (drop start xs))) [
  | inl e ↦ absurd (ground (arith, e, h))
  | inr (j, e) ↦ ground (arith, length-drop start xs, find-le (c ∷ []) (drop start xs) j e, e, h)
]

after_length_end_longer :
    (xs ys : List ℕ) (start : ℕ) (stop : Option ℕ)
    → start ≤ length xs
    → find_from (soh ∷ []) start xs ≡ stop
    → settled (after_length_end xs start stop) ≡ true
    → after_length_end (xs ++ ys) start (find_from (soh ∷ []) start (xs ++ ys))
      ≡ followed_by ys (after_length_end xs start stop)
unfolding after_length_end
after_length_end_longer xs ys start none l e h = absurd (ground (arith, h))
after_length_end_longer xs ys start (some stop) l e h =
    let (k, m) = find_from-le soh start stop xs l e in
    rw (find_from_longer (soh ∷ []) xs ys start stop l e) (
      rw (slice_longer start stop xs ys k (omega (arith, m)))
        (after_body_length_longer xs ys (stop + 1) (parse_int (slice start stop xs)) h))

after_length_start_longer :
    (xs ys : List ℕ) (start : Option ℕ)
    → find (soh ∷ 57 ∷ equals ∷ []) xs ≡ start
    → settled (after_length_start xs start) ≡ true
    → extract_from (xs ++ ys) ≡ followed_by ys (after_length_start xs start)
unfolding after_length_start extract_from
after_length_start_longer xs ys none e h = absurd (ground (arith, h))
after_length_start_longer xs ys (some start) e h =
    let l = find-le (soh ∷ 57 ∷ equals ∷ []) xs start e in
    rw (find_longer (soh ∷ 57 ∷ equals ∷ []) xs ys start e) (
      after_length_end_longer xs ys (start + 3) (find_from (soh ∷ []) (start + 3) xs)
        (omega (arith, l)) refl h)

extract_from_longer :
    (xs ys : List ℕ)
    → settled (extract_from xs) ≡ true
    → extract_from (xs ++ ys) ≡ followed_by ys (extract_from xs)
extract_from_longer xs ys h =
    unfold extract_from in after_length_start_longer xs ys (find (soh ∷ 57 ∷ equals ∷ []) xs) refl h

after_start_longer :
    (xs ys : List ℕ) (start : Option ℕ)
    → find (56 ∷ equals ∷ []) xs ≡ start
    → settled (after_start xs start) ≡ true
    → after_start (xs ++ ys) (find (56 ∷ equals ∷ []) (xs ++ ys))
      ≡ followed_by ys (after_start xs start)
unfolding after_start
after_start_longer xs ys none e h = absurd (ground (arith, h))
after_start_longer xs ys (some start) e h =
    let l = find-le (56 ∷ equals ∷ []) xs start e in
    rw (find_longer (56 ∷ equals ∷ []) xs ys start e)
      (rw (drop_longer start xs ys (omega (arith, l))) (extract_from_longer (drop start xs) ys h))

-- The search for the beginning and the test for it agree.
pub extract-after_start : (xs : List ℕ) → extract xs ≡ after_start xs (find (56 ∷ equals ∷ []) xs)
unfolding extract
extract-after_start xs = elim (Bool-cases (starts_with (56 ∷ equals ∷ []) xs)) [
  | inl starts ↦
      rw starts (rw (starts_with-find (56 ∷ equals ∷ []) xs starts) (unfold after_start in refl))
  | inr other ↦ rw other refl
]

-- What is settled for a buffer is settled for a longer one.
pub extract_longer :
    (xs ys : List ℕ)
    → settled (extract xs) ≡ true
    → extract (xs ++ ys) ≡ followed_by ys (extract xs)
extract_longer xs ys h = rw (extract-after_start (xs ++ ys)) (
    rw (extract-after_start xs) (
      after_start_longer xs ys (find (56 ∷ equals ∷ []) xs) refl
        (rw (sym (extract-after_start xs)) h)))
