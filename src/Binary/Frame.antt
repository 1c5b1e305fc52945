-- ===== src/Binary/Frame.antt =====
-- exchangesim/binary/message.py: the frame of a binary message, its header and its checksum.
pub mod Fields
pub mod RoundTrip
use exchange_sim.Prelude.{
  ℕ, ◌+◌, ◌-◌, ◌^◌, List, [], ◌∷◌, ◌++◌, Bool, true, false, ◌||◌, not, Option, none, some, ◌==◌,
  ltb, leb, if◌then◌else◌, length,
}
use exchange_sim.Bytes.{take, drop, slice}
use exchange_sim.Fix.Message.{
  Parsed, parsed, incomplete, malformed, wrong_start, length_too_short, frame_too_short,
  length_differs, check_sum_mismatch,
}
use exchange_sim.Binary.{le_bytes, le_value, pack_fixed, terminated, crc32c}

pub record Header : Type 0 where
  pub kind : ℕ
  pub seq_num : ℕ
  pub poss_dup : Bool
  pub poss_resend : Bool
  pub comp_id : List ℕ

abbrev pub body_offset : ℕ
body_offset = 54

-- The shortest message: header, presence map and checksum.
abbrev pub min_message_bytes : ℕ
min_message_bytes = 58

unfoldable pub starts_frame : List ℕ → Bool
starts_frame [] = false
starts_frame (b ∷ bs) = b == 2

unfoldable pub extract_sized : List ℕ → ℕ → Parsed (List ℕ × List ℕ)
extract_sized buffer size =
    if ltb size min_message_bytes
    then malformed length_too_short
    else if ltb (length buffer) size
    then incomplete
    else parsed (take size buffer, drop size buffer)

unfoldable pub extract_frame : List ℕ → Parsed (List ℕ × List ℕ)
extract_frame [] = incomplete
extract_frame (b ∷ bs) =
    if not (b == 2)
    then malformed wrong_start
    else if ltb (length (b ∷ bs)) 3
    then incomplete
    else extract_sized (b ∷ bs) (le_value (slice 1 3 (b ∷ bs)))

unfoldable pub truth : ℕ → Bool
truth n = if n == 0 then false else true

unfoldable pub flag : Bool → ℕ
flag true = 1
flag false = 0

unfoldable pub has_checksum : List ℕ → Bool
has_checksum raw = le_value (drop (length raw - 4) raw) == crc32c (take (length raw - 4) raw)

unfoldable pub unpack_header : Bool → List ℕ → Parsed Header
unpack_header validate_checksum raw =
    if ltb (length raw) min_message_bytes
    then malformed frame_too_short
    else if not (starts_frame raw)
    then malformed wrong_start
    else if not (le_value (slice 1 3 raw) == length raw)
    then malformed length_differs
    else if (if validate_checksum then not (has_checksum raw) else false)
    then malformed check_sum_mismatch
    else parsed (record {
      kind = le_value (slice 3 4 raw);
      seq_num = le_value (slice 4 8 raw);
      poss_dup = truth (le_value (slice 8 9 raw));
      poss_resend = truth (le_value (slice 9 10 raw));
      comp_id = terminated (slice 10 22 raw);
    })

-- What the checksum covers.
unfoldable pub frame_of : Header → List ℕ → List ℕ → List ℕ
frame_of header presence body =
    (2 ∷ le_bytes 2 (body_offset + length body + 4))
    ++ le_bytes 1 header.kind
    ++ le_bytes 4 header.seq_num
    ++ (flag header.poss_dup ∷ flag header.poss_resend ∷ [])
    ++ pack_fixed 12 header.comp_id
    ++ presence
    ++ body

-- `frame + struct.pack("<I", ...)`, which raises for a number that does not fit.
unfoldable pub with_checksum : List ℕ → ℕ → Option (List ℕ)
with_checksum frame crc = if ltb (2 ^ 32 - 1) crc then none else some (frame ++ le_bytes 4 crc)

-- None where it raises: the message is too long, or a number of the header does not fit its field.
unfoldable pub pack_frame : Header → List ℕ → List ℕ → Option (List ℕ)
pack_frame header presence body =
    let frame = frame_of header presence body in
    if ltb (2 ^ 16 - 1) (body_offset + length body + 4)
      || ltb 255 header.kind
      || ltb (2 ^ 32 - 1) header.seq_num
    then none
    else with_checksum frame (crc32c frame)

-- The presence map and the body.
unfoldable pub body_of : List ℕ → List ℕ
body_of raw = slice 22 (length raw - 4) raw
