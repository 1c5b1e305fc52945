-- ===== src/Fix/Wire.antt =====
-- exchangesim/fix/message.py: taking messages off the front of a stream of bytes, and decoding them.
pub mod Longer
pub mod Chunks
pub mod Encoded
pub mod Fields
pub mod Checksum
pub mod RoundTrip
use exchange_sim.Prelude.{
  ℕ, zero, suc, ◌+◌, ◌%◌, ◌^◌, List, [], ◌∷◌, ◌++◌, Bool, true, false, ◌||◌, not, Option, none,
  some, ◌==◌, ltb, if◌then◌else◌, length, is_empty as is_empty_list,
}
use exchange_sim.Prelude.Int.{ℤ, pos, pos_part, lt_test, le_test, eq_test}
use exchange_sim.Bytes.{
  take, drop, slice, same, starts_with, find, find_from, rfind, split, total, parse_int, ends_with,
}
use exchange_sim.Fix.Message.{
  Field, Message, soh, equals, has, MalformedMessage, Parsed, parsed, incomplete, malformed,
  no_begin_string, no_body_length, body_length_not_integer, body_length_out_of_range,
  check_sum_misplaced, no_final_delimiter, no_check_sum, check_sum_not_numeric, check_sum_mismatch,
  field_without_equals, tag_not_numeric, tag_not_positive, begin_string_not_first, no_msg_type,
}

infixl 20 ◌>>=◌
abbrev pub ◌>>=◌ {ℓ κ} : {A : Type ℓ} {B : Type κ} → Parsed A → (A → Parsed B) → Parsed B
parsed x >>= k = k x
incomplete >>= k = incomplete
malformed e >>= k = malformed e

-- `extract`, step by step: each takes what the step before it found.

-- The message ends seven bytes after the offset of its CheckSum.
unfoldable pub extract_body : List ℕ → ℕ → Parsed (List ℕ × List ℕ)
extract_body buffer checksum_start =
    let message_end = checksum_start + 7 in
    if ltb (length buffer) message_end
    then incomplete
    else if not (same (slice checksum_start (checksum_start + 3) buffer) (49 ∷ 48 ∷ equals ∷ []))
    then malformed check_sum_misplaced
    else parsed (take message_end buffer, drop message_end buffer)

unfoldable pub after_body_length : List ℕ → ℕ → Option ℤ → Parsed (List ℕ × List ℕ)
after_body_length buffer body_start none = malformed body_length_not_integer
after_body_length buffer body_start (some body_length) =
    if lt_test body_length (pos 0) || lt_test (pos (2 ^ 24)) body_length
    then malformed body_length_out_of_range
    else extract_body buffer (body_start + pos_part body_length)

unfoldable pub after_length_end : List ℕ → ℕ → Option ℕ → Parsed (List ℕ × List ℕ)
after_length_end buffer value_start none = incomplete
after_length_end buffer value_start (some length_end) =
    after_body_length buffer (length_end + 1) (parse_int (slice value_start length_end buffer))

unfoldable pub after_length_start : List ℕ → Option ℕ → Parsed (List ℕ × List ℕ)
after_length_start buffer none =
    if ltb 64 (length buffer) then malformed no_body_length else incomplete
after_length_start buffer (some length_start) =
    after_length_end buffer (length_start + 3) (find_from (soh ∷ []) (length_start + 3) buffer)

unfoldable pub extract_from : List ℕ → Parsed (List ℕ × List ℕ)
extract_from buffer = after_length_start buffer (find (soh ∷ 57 ∷ equals ∷ []) buffer)

-- Anything before "8=" is skipped.
unfoldable pub after_start : List ℕ → Option ℕ → Parsed (List ℕ × List ℕ)
after_start buffer none = if ltb 64 (length buffer) then malformed no_begin_string else incomplete
after_start buffer (some start) = extract_from (drop start buffer)

unfoldable pub extract : List ℕ → Parsed (List ℕ × List ℕ)
extract buffer =
    if starts_with (56 ∷ equals ∷ []) buffer
    then extract_from buffer
    else after_start buffer (find (56 ∷ equals ∷ []) buffer)

-- Decoding.

unfoldable pub check_checksum : ℕ → Option ℤ → Parsed (Unit {0})
check_checksum expected none = malformed check_sum_not_numeric
check_checksum expected (some received) =
    if eq_test received (pos expected) then parsed tt else malformed check_sum_mismatch

unfoldable pub validated_checksum : Bool → List ℕ → ℕ → Parsed (Unit {0})
validated_checksum false raw checksum_start = parsed tt
validated_checksum true raw checksum_start =
    check_checksum (total (take (checksum_start + 1) raw) % 256)
      (parse_int (slice (checksum_start + 4) (checksum_start + 7) raw))

unfoldable pub with_tag : Option ℤ → List ℕ → Parsed Field
with_tag none value = malformed tag_not_numeric
with_tag (some tag) value =
    if le_test tag (pos 0) then malformed tag_not_positive else parsed (pos_part tag, value)

unfoldable pub decode_separated : List ℕ → Option ℕ → Parsed Field
decode_separated chunk none = malformed field_without_equals
decode_separated chunk (some zero) = malformed field_without_equals
decode_separated chunk (some (suc n)) =
    with_tag (parse_int (take (suc n) chunk)) (drop (suc n + 1) chunk)

unfoldable pub decode_field : List ℕ → Parsed Field
decode_field chunk = decode_separated chunk (find (equals ∷ []) chunk)

unfoldable pub decode_fields : List (List ℕ) → Parsed Message
decode_fields [] = parsed []
decode_fields (chunk ∷ chunks) =
    let rest = decode_fields chunks in
    if is_empty_list chunk
    then rest
    else decode_field chunk >>= λ field. rest >>= λ fields. parsed (field ∷ fields)

unfoldable pub starts_message : Message → Bool
starts_message [] = false
starts_message ((tag, value) ∷ fields) = tag == 8

unfoldable pub checked_fields : Message → Parsed Message
checked_fields fields =
    if not (starts_message fields)
    then malformed begin_string_not_first
    else if not (has 35 fields)
    then malformed no_msg_type
    else parsed fields

unfoldable pub decode_from : Bool → List ℕ → Option ℕ → Parsed Message
decode_from validate_checksum raw none = malformed no_check_sum
decode_from validate_checksum raw (some checksum_start) =
    validated_checksum validate_checksum raw checksum_start >>= λ _.
    decode_fields (split soh raw) >>= λ fields. checked_fields fields

unfoldable pub decode : Bool → List ℕ → Parsed Message
decode validate_checksum raw =
    if not (ends_with soh raw)
    then malformed no_final_delimiter
    else decode_from validate_checksum raw (rfind (soh ∷ 49 ∷ 48 ∷ equals ∷ []) raw)

-- The framer: bytes that are not yet a message.

-- What `feed` answers: the messages, or the exception, with the buffer that is kept.
pub record Fed : Type 0 where
  pub messages : Parsed (List (List ℕ))
  pub buffer : List ℕ

unfoldable pub with_message : List ℕ → Fed → Fed
with_message raw fed = record fed { messages = fed.messages >>= λ raws. parsed (raw ∷ raws) }

-- What the loop does with an extraction: it goes on with the rest, stops, or raises.
unfoldable pub after_extract : List ℕ → (List ℕ → Fed) → Parsed (List ℕ × List ℕ) → Fed
after_extract buffer go_on (parsed (raw, rest)) = with_message raw (go_on rest)
after_extract buffer go_on incomplete = record { messages = parsed []; buffer = buffer }
after_extract buffer go_on (malformed e) = record { messages = malformed e; buffer = buffer }

-- `while self._buffer`, on fuel for its bytes.
unfoldable pub drain : ℕ → List ℕ → Fed
drain zero buffer = record { messages = parsed []; buffer = buffer }
drain (suc fuel) [] = record { messages = parsed []; buffer = [] }
drain (suc fuel) (c ∷ buffer) =
    after_extract (c ∷ buffer) (λ rest. drain fuel rest) (extract (c ∷ buffer))

-- `Framer.feed(chunk)` of a framer that keeps the buffer.
unfoldable pub feed : List ℕ → List ℕ → Fed
feed buffer chunk = drain (length (buffer ++ chunk)) (buffer ++ chunk)
