-- ===== src/Binary.antt =====
-- exchangesim/binary/types.py: the data types of the binary protocol, little-endian.
pub mod Frame
pub mod RoundTrip
use Prim.Native.Nat.{bit_xor}
use exchange_sim.Prelude.{
  ℕ, zero, suc, ◌+◌, ◌-◌, ◌*◌, ◌/◌, ◌%◌, ◌^◌, List, [], ◌∷◌, ◌++◌, Bool, ◌||◌, Option, none, some,
  ◌==◌, ltb, if◌then◌else◌, length,
}
use exchange_sim.Prelude.Int.{ℤ, pos, negsuc, pos_part, lt_test, sub_ℕ}
use exchange_sim.Bytes.{take, drop, slice, find}
use exchange_sim.Fix.Message.{Parsed, parsed, malformed, ends_mid_field}

-- So many bytes of a number, the lowest first, and the number that bytes stand for.

unfoldable pub le_bytes : ℕ → ℕ → List ℕ
le_bytes zero n = []
le_bytes (suc width) n = n % 256 ∷ le_bytes width (n / 256)

unfoldable pub le_value : List ℕ → ℕ
le_value [] = 0
le_value (b ∷ bs) = b + 256 * le_value bs

-- What is read if so many bytes are there, with the offset behind it.
unfoldable pub needed : {A : Type 0} → List ℕ → ℕ → ℕ → A → Parsed (A × ℕ)
needed raw offset count x =
    if ltb (length raw) (offset + count)
    then malformed ends_mid_field
    else parsed (x, offset + count)

-- `Unsigned(width)`: none where it raises.
unfoldable pub pack_unsigned : ℕ → ℤ → Option (List ℕ)
pack_unsigned width value =
    if lt_test value (pos 0) || lt_test (pos (256 ^ width - 1)) value
    then none
    else some (le_bytes width (pos_part value))

unfoldable pub unpack_unsigned : ℕ → List ℕ → ℕ → Parsed (ℤ × ℕ)
unpack_unsigned width raw offset =
    needed raw offset width (pos (le_value (slice offset (offset + width) raw)))

-- `Decimal`: a signed number of eight bytes in two's complement.
unfoldable pub signed_word : ℤ → Option ℕ
signed_word (pos n) = if ltb n (2 ^ 63) then some n else none
signed_word (negsuc n) = if ltb n (2 ^ 63) then some (2 ^ 64 - suc n) else none

unfoldable pub pack_word : Option ℕ → Option (List ℕ)
pack_word none = none
pack_word (some n) = some (le_bytes 8 n)

unfoldable pub pack_decimal : ℤ → Option (List ℕ)
pack_decimal value = pack_word (signed_word value)

unfoldable pub signed_value : ℕ → ℤ
signed_value n = if ltb n (2 ^ 63) then pos n else sub_ℕ n (2 ^ 64)

unfoldable pub unpack_decimal : List ℕ → ℕ → Parsed (ℤ × ℕ)
unpack_decimal raw offset =
    needed raw offset 8 (signed_value (le_value (slice offset (offset + 8) raw)))

-- The types of numbers.
pub data WireType : Type 0 where
  unsigned : ℕ → WireType
  decimal : WireType

unfoldable pub pack_number : WireType → ℤ → Option (List ℕ)
pack_number (unsigned width) value = pack_unsigned width value
pack_number decimal value = pack_decimal value

unfoldable pub unpack_number : WireType → List ℕ → ℕ → Parsed (ℤ × ℕ)
unpack_number (unsigned width) raw offset = unpack_unsigned width raw offset
unpack_number decimal raw offset = unpack_decimal raw offset

-- `AlphaFixed(width)`: cut off before the terminator, and padded with zeros.

unfoldable pub nuls : ℕ → List ℕ
nuls zero = []
nuls (suc n) = 0 ∷ nuls n

unfoldable pub pack_fixed : ℕ → List ℕ → List ℕ
pack_fixed width value = let text = take (width - 1) value in text ++ nuls (width - length text)

-- The text before the terminator, all of it where there is none.
unfoldable pub until_nul : Option ℕ → List ℕ → List ℕ
until_nul none chunk = chunk
until_nul (some end) chunk = take end chunk

unfoldable pub terminated : List ℕ → List ℕ
terminated chunk = until_nul (find (0 ∷ []) chunk) chunk

unfoldable pub unpack_fixed : ℕ → List ℕ → ℕ → Parsed (List ℕ × ℕ)
unpack_fixed width raw offset =
    needed raw offset width (terminated (slice offset (offset + width) raw))

-- CRC-32C, by its table of 256 entries.

unfoldable pub crc_shift : ℕ → ℕ → ℕ
crc_shift zero value = value
crc_shift (suc n) value =
    crc_shift n (bit_xor (value / 2) (if value % 2 == 1 then 0x82f6_3b78 else 0))

unfoldable pub crc_entry : ℕ → ℕ
crc_entry index = crc_shift 8 index

unfoldable pub crc_over : ℕ → List ℕ → ℕ
crc_over crc [] = crc
crc_over crc (byte ∷ bytes) =
    crc_over (bit_xor (crc_entry (bit_xor crc byte % 256)) (crc / 256)) bytes

unfoldable pub crc32c : List ℕ → ℕ
crc32c text = bit_xor (crc_over 0xffff_ffff text) 0xffff_ffff
