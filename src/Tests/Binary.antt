-- ===== src/Tests/Binary.antt =====
-- The theorems about the binary protocol at concrete inputs, and runs of it.
use exchange_sim.Prelude.{ℕ, ◌≡◌, refl, List, [], ◌∷◌, ◌++◌, true, false, some, elem, arith}
use exchange_sim.Prelude.Int.{negsuc}
use exchange_sim.Bytes.{codes}
use exchange_sim.Fix.Message.{parsed}
use exchange_sim.Binary.{
  le_bytes, le_value, nuls, pack_fixed, crc_shift, crc_entry, crc_over, crc32c, pack_decimal,
  pack_word, signed_word, decimal, pack_number, unpack_number,
}
use exchange_sim.Binary.RoundTrip.{unpack_number-pack_number}
use exchange_sim.Binary.Frame.{
  Header, pack_frame, with_checksum, frame_of, flag, extract_frame, unpack_header, body_of,
}
use exchange_sim.Binary.Frame.RoundTrip.{pack_frame-unpack_header}
use exchange_sim.Binary.Frame.Fields.{Fits}

unfoldable packing : Unit {0}
unfolding le_bytes le_value nuls pack_fixed crc_shift crc_entry crc_over crc32c pack_decimal
    pack_word signed_word pack_number pack_frame with_checksum frame_of flag elem
packing = tt

-- The check value of CRC-32C.
crc32c_run : crc32c (codes "123456789") ≡ 0xe306_9283
unfolding packing
crc32c_run = refl

abbrev minus_two : List ℕ
minus_two = 254 ∷ 255 ∷ 255 ∷ 255 ∷ 255 ∷ 255 ∷ 255 ∷ 255 ∷ []

minus_two-pack_number : pack_number decimal (negsuc 1) ≡ some minus_two
unfolding packing
minus_two-pack_number = refl

unpack_number-pack_number_example :
    unpack_number decimal ((7 ∷ 8 ∷ []) ++ minus_two ++ 9 ∷ []) 2 ≡ parsed (negsuc 1, 10)
unpack_number-pack_number_example =
    unpack_number-pack_number decimal (negsuc 1) (7 ∷ 8 ∷ []) minus_two (9 ∷ [])
      minus_two-pack_number

abbrev header : Header
header = record {
  kind = 11;
  seq_num = 300;
  poss_dup = true;
  poss_resend = false;
  comp_id = codes "CLIENT";
}

abbrev presence : List ℕ
presence =
    128 ∷ 0 ∷ 0 ∷ 0 ∷ 0 ∷ 0 ∷ 0 ∷ 0 ∷ 0 ∷ 0 ∷ 0 ∷ 0 ∷ 0 ∷ 0 ∷ 0 ∷ 0 ∷ 0 ∷ 0 ∷ 0 ∷ 0 ∷ 0 ∷ 0 ∷ 0 ∷ 0
    ∷ 0 ∷ 0 ∷ 0 ∷ 0 ∷ 0 ∷ 0 ∷ 0 ∷ 0 ∷ []

abbrev packed : List ℕ
packed =
    frame_of header presence (codes "AB")
    ++ le_bytes 4 (crc32c (frame_of header presence (codes "AB")))

header-Fits : Fits header presence (codes "AB")
unfolding packing
header-Fits = record { comp_id_short = omega arith; comp_id_text = refl; presence_whole = refl }

header-pack_frame : pack_frame header presence (codes "AB") ≡ some packed
unfolding packing
header-pack_frame = refl

pack_frame-unpack_header_example :
    (extract_frame (packed ++ 2 ∷ []) ≡ parsed (packed, 2 ∷ []))
    × (unpack_header true packed ≡ parsed header)
    × (body_of packed ≡ presence ++ codes "AB")
pack_frame-unpack_header_example =
    pack_frame-unpack_header header presence (codes "AB") packed (2 ∷ []) header-Fits
      header-pack_frame
