-- ===== src/Fix/Wire/Encoded.antt =====
-- An encoded message of exchangesim/fix/message.py is taken off a stream whole.
use mathlib.Core.List.{append_assoc}
use exchange_sim.Prelude.{
  ℕ, ◌+◌, ◌%◌, ◌^◌, ◌≤◌, ◌≡◌, refl, ap, ◌∙◌, List, [], ◌∷◌, ◌++◌, true, false, ◌||◌, length,
  length-append, elem, arith,
}
use exchange_sim.Prelude.Int.{pos, lt_test}
use exchange_sim.Ids.{decimal, padded}
use exchange_sim.Bytes.{slice, same, find, find_from, total, starts_with, is_digit}
use exchange_sim.Bytes.Search.{take_at, drop_at, slice_at, find_from_at, find_first}
use exchange_sim.Bytes.Numbers.{
  parse_int-decimal, decimal-AllDigits, AllDigits-free, length-padded-byte,
}
use exchange_sim.Fix.Message.{
  Message, soh, equals, parsed, encode, head_text, fields_text, sort_fields,
}
use exchange_sim.Fix.Wire.{
  extract, extract_from, extract_body, after_length_start, after_length_end, after_body_length,
}

-- A message up to its body's length, up to its body, with its body, and whole.

unfoldable to_length : List ℕ → List ℕ
to_length begin_string = (56 ∷ equals ∷ begin_string) ++ soh ∷ 57 ∷ equals ∷ []

unfoldable to_body : List ℕ → List ℕ → List ℕ
to_body begin_string body = to_length begin_string ++ decimal (length body) ++ soh ∷ []

unfoldable whole : List ℕ → List ℕ → List ℕ → List ℕ
whole begin_string body sum =
    to_body begin_string body ++ body ++ (49 ∷ 48 ∷ equals ∷ []) ++ sum ++ soh ∷ []

-- The lengths of the parts, and of the parts in front of one.
length-to_body :
    (b body : List ℕ)
    → length (to_body b body) ≡ length (to_length b) + (length (decimal (length body)) + 1)
unfolding to_body
length-to_body b body = omega (
  arith,
  length-append (to_length b ++ decimal (length body)) (soh ∷ []),
  length-append (to_length b) (decimal (length body)),
)

length-to_length : (b : List ℕ) → length (to_length b) ≡ length b + 5
unfolding to_length
length-to_length b = omega (arith, length-append b (soh ∷ 57 ∷ equals ∷ []))

length-whole :
    (b body sum : List ℕ)
    → length (whole b body sum) ≡ length (to_body b body) + length body + (length sum + 4)
unfolding whole
length-whole b body sum =
    let front = to_body b body ++ body in
    let marked = front ++ 49 ∷ 48 ∷ equals ∷ [] in
    omega (
      arith,
      length-append (to_body b body) body,
      length-append front (49 ∷ 48 ∷ equals ∷ []),
      length-append marked sum,
      length-append (marked ++ sum) (soh ∷ []),
    )

-- The same bytes, grouped around the CheckSum, and around the end of the body's length.

at_sum :
    (b body sum rest : List ℕ)
    → whole b body sum ++ rest
      ≡ to_body b body ++ body ++ (49 ∷ 48 ∷ equals ∷ []) ++ (sum ++ soh ∷ rest)
unfolding whole
at_sum b body sum rest = simp append_assoc refl

at_length :
    (b body sum rest : List ℕ)
    → whole b body sum ++ rest
      ≡ to_length b
        ++ decimal (length body)
        ++ soh ∷ (body ++ (49 ∷ 48 ∷ equals ∷ []) ++ (sum ++ soh ∷ rest))
unfolding whole to_body
at_length b body sum rest = simp append_assoc refl

at_begin :
    (b body sum rest : List ℕ)
    → whole b body sum ++ rest
      ≡ (56 ∷ equals ∷ b)
        ++ (soh ∷ 57 ∷ equals ∷ [])
        ++ (decimal (length body) ++ soh ∷ (body ++ (49 ∷ 48 ∷ equals ∷ []) ++ (sum ++ soh ∷ rest)))
unfolding to_length
at_begin b body sum rest = at_length b body sum rest ∙ simp append_assoc refl

extract_body-whole :
    (b body sum rest : List ℕ) (n : ℕ)
    → n ≡ length (to_body b body) + length body
    → length sum ≡ 3
    → extract_body (whole b body sum ++ rest) n ≡ parsed (whole b body sum, rest)
unfolding extract_body same
extract_body-whole b body sum rest n e l =
    let long = length-whole b body sum in
    let mark =
      ap (slice n (n + 3)) (at_sum b body sum rest)
      ∙ slice_at n (n + 3) (to_body b body ++ body) (49 ∷ 48 ∷ equals ∷ []) (sum ++ soh ∷ rest)
          (omega (arith, e, length-append (to_body b body) body)) (omega arith) in
    let n7 : n + 7 ≡ length (whole b body sum) = omega (arith, e, l, long) in
    rw mark (
      rw (take_at (n + 7) (whole b body sum) rest n7) (
        rw (drop_at (n + 7) (whole b body sum) rest n7)
          (ground (arith, length-append (whole b body sum) rest, long, e, l))))

in_range :
    (n : ℕ) → n ≤ 2 ^ 24 → (lt_test (pos n) (pos 0) || lt_test (pos (2 ^ 24)) (pos n)) ≡ false
in_range n l = ground (arith, l)

after_length_end-whole :
    (b body sum rest : List ℕ)
    → length body ≤ 2 ^ 24
    → length sum ≡ 3
    → after_length_end
        (whole b body sum ++ rest)
        (length (to_length b))
        (find_from (soh ∷ []) (length (to_length b)) (whole b body sum ++ rest))
      ≡ parsed (whole b body sum, rest)
unfolding after_length_end after_body_length is_digit
after_length_end-whole b body sum rest small l =
    let start = length (to_length b) in
    let digits = decimal (length body) in
    let more = body ++ (49 ∷ 48 ∷ equals ∷ []) ++ (sum ++ soh ∷ rest) in
    let free = AllDigits-free soh digits refl (decimal-AllDigits (length body)) in
    let stop =
      ap (find_from (soh ∷ []) start) (at_length b body sum rest)
      ∙ find_from_at soh start (to_length b) digits more refl free in
    let part =
      ap (slice start (start + length digits)) (at_length b body sum rest)
      ∙ slice_at start (start + length digits) (to_length b) digits (soh ∷ more) refl refl in
    rw stop (
      rw part (
        rw (parse_int-decimal (length body)) (
          rw (in_range (length body) small)
            (extract_body-whole b body sum rest _ (omega (arith, length-to_body b body)) l))))

extract-whole :
    (b body sum rest : List ℕ)
    → elem soh b ≡ false
    → length body ≤ 2 ^ 24
    → length sum ≡ 3
    → extract_from (whole b body sum ++ rest) ≡ parsed (whole b body sum, rest)
unfolding extract_from after_length_start
extract-whole b body sum rest free small l =
    let digits = decimal (length body) in
    let more = digits ++ soh ∷ (body ++ (49 ∷ 48 ∷ equals ∷ []) ++ (sum ++ soh ∷ rest)) in
    let found =
      ap (find (soh ∷ 57 ∷ equals ∷ [])) (at_begin b body sum rest)
      ∙ find_first soh (57 ∷ equals ∷ []) (56 ∷ equals ∷ b) more (unfold elem in free) in
    let start : length (56 ∷ equals ∷ b) + 3 ≡ length (to_length b) =
      omega (arith, length-to_length b) in
    rw found (
      ap
        (λ n.
          after_length_end (whole b body sum ++ rest) n
            (find_from (soh ∷ []) n (whole b body sum ++ rest)))
        start
      ∙ after_length_end-whole b body sum rest small l)

starts_with-whole :
    (b body sum rest : List ℕ) → starts_with (56 ∷ equals ∷ []) (whole b body sum ++ rest) ≡ true
unfolding starts_with whole to_body to_length
starts_with-whole b body sum rest = refl

abbrev checksum_of : Message → List ℕ → List ℕ
checksum_of m begin_string = padded 3 (total (head_text m begin_string) % 256)

encode-whole :
    (m : Message) (b : List ℕ)
    → encode m b ≡ whole b (fields_text (sort_fields m)) (checksum_of m b)
unfolding encode head_text whole to_body to_length
encode-whole m b = simp append_assoc refl

-- An encoded message is taken off the front of a stream whole, and what comes behind it is left, for
-- a begin string without the delimiter and a body of at most 2 ^ 24 bytes.
pub extract-encode :
    (m : Message) (begin_string rest : List ℕ)
    → elem soh begin_string ≡ false
    → length (fields_text (sort_fields m)) ≤ 2 ^ 24
    → extract (encode m begin_string ++ rest) ≡ parsed (encode m begin_string, rest)
unfolding extract
extract-encode m b rest free small =
    let body = fields_text (sort_fields m) in
    let sum = checksum_of m b in
    rw (encode-whole m b) (
      rw (starts_with-whole b body sum rest) (
        extract-whole b body sum rest free small
          (length-padded-byte (total (head_text m b) % 256) (omega arith))))
