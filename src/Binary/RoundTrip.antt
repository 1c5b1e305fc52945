-- ===== src/Binary/RoundTrip.antt =====
-- The values of exchangesim/binary/types.py read back as they were packed.
use native.Mathlib.Nat.{pow-suc}
use exchange_sim.Prelude.{
  ℕ, zero, suc, ◌+◌, ◌-◌, ◌/◌, ◌^◌, ◌<◌, ◌≡◌, refl, sym, ap, ◌∙◌, List, ◌++◌, false, ◌||◌, Option,
  none, some, length, length-append, Bool-cases, inl, inr, arith,
}
use exchange_sim.Prelude.Int.{ℤ, pos, negsuc, pos_part, lt_test}
use exchange_sim.Bytes.{slice}
use exchange_sim.Bytes.Search.{slice_at}
use exchange_sim.Fix.Message.{parsed}
use exchange_sim.Binary.{
  le_bytes, le_value, needed, pack_unsigned, unpack_unsigned, signed_word, pack_word, pack_decimal,
  signed_value, unpack_decimal, WireType, unsigned, decimal, pack_number, unpack_number,
}

length-le_bytes : (width n : ℕ) → length (le_bytes width n) ≡ width
unfolding le_bytes
length-le_bytes zero n = refl
length-le_bytes (suc width) n = omega (arith, length-le_bytes width (n / 256))

le_value-le_bytes : (width n : ℕ) → n < 256 ^ width → le_value (le_bytes width n) ≡ n
unfolding le_value le_bytes
le_value-le_bytes zero n l = ground (arith, l)
le_value-le_bytes (suc width) n l =
    let less : n / 256 < 256 ^ width = omega (arith, l, pow-suc 256 width) in
    omega (arith, le_value-le_bytes width (n / 256) less)

-- Bytes that stand somewhere in a message.
needed-bytes :
    {A : Type 0} (front bytes rest : List ℕ) (x : A)
    → needed (front ++ bytes ++ rest) (length front) (length bytes) x
      ≡ parsed (x, length front + length bytes)
unfolding needed
needed-bytes front bytes rest x =
    ground (arith, length-append (front ++ bytes) rest, length-append front bytes)

pow-positive : (width : ℕ) → 0 < 256 ^ width
pow-positive zero = omega arith
pow-positive (suc width) = omega (arith, pow-suc 256 width, pow-positive width)

within :
    (limit : ℕ) (value : ℤ)
    → 0 < limit
    → lt_test (pos (limit - 1)) value ≡ false
    → pos_part value < limit
within limit value p h = ground (arith, p, h)

unsigned_bounds :
    (width : ℕ) (value : ℤ) (bytes : List ℕ)
    → pack_unsigned width value ≡ some bytes
    → (value ≡ pos (pos_part value))
      × (pos_part value < 256 ^ width)
      × (bytes ≡ le_bytes width (pos_part value))
unfolding pack_unsigned
unsigned_bounds width value bytes e =
    elim (Bool-cases (lt_test value (pos 0) || lt_test (pos (256 ^ width - 1)) value)) [
      | inl over ↦ absurd (ground (arith, over, e))
      | inr fits ↦ (
        ground (arith, fits),
        within (256 ^ width) value (pow-positive width) (ground (arith, fits)),
        ground (arith, fits, e),
      )
    ]

signed_word-signed_value :
    (value : ℤ) (n : ℕ) → signed_word value ≡ some n → (n < 256 ^ 8) × (signed_value n ≡ value)
unfolding signed_word signed_value
signed_word-signed_value (pos k) n e = ground (arith, e)
signed_word-signed_value (negsuc k) n e = ground (arith, e)

pack_word-some :
    (word : Option ℕ) (bytes : List ℕ)
    → pack_word word ≡ some bytes
    → (n : ℕ) × (word ≡ some n) × (bytes ≡ le_bytes 8 n)
unfolding pack_word
pack_word-some none bytes e = absurd (ground (arith, e))
pack_word-some (some n) bytes e = (n, refl, ground (arith, e))

-- So many bytes of a number, read back where they stand.
read_back :
    {A : Type 0} (f : ℕ → A) (width n : ℕ) (front rest : List ℕ)
    → n < 256 ^ width
    → needed (front ++ le_bytes width n ++ rest) (length front) width (
        f (
          le_value
            (slice (length front) (length front + width) (front ++ le_bytes width n ++ rest))))
      ≡ parsed (f n, length front + width)
read_back f width n front rest l =
    let bytes = le_bytes width n in
    let size = length-le_bytes width n in
    let part : slice (length front) (length front + width) (front ++ bytes ++ rest) ≡ bytes =
      slice_at (length front) (length front + width) front bytes rest refl (omega (arith, size)) in
    ap (λ t. needed (front ++ bytes ++ rest) (length front) width (f (le_value t))) part
    ∙ ap (λ k. needed (front ++ bytes ++ rest) (length front) width (f k))
        (le_value-le_bytes width n l)
    ∙ ap (λ w. needed (front ++ bytes ++ rest) (length front) w (f n)) (sym size)
    ∙ needed-bytes front bytes rest (f n)
    ∙ ap (λ w. parsed (f n, length front + w)) size

-- A value that a type of numbers packs reads back as itself wherever its bytes stand, with the offset
-- behind them.
pub unpack_number-pack_number :
    (type : WireType) (value : ℤ) (front bytes rest : List ℕ)
    → pack_number type value ≡ some bytes
    → unpack_number type (front ++ bytes ++ rest) (length front)
      ≡ parsed (value, length front + length bytes)
unfolding pack_number unpack_number unpack_unsigned pack_decimal unpack_decimal
unpack_number-pack_number (unsigned width) value front bytes rest e =
    let (is_pos, small, same) = unsigned_bounds width value bytes e in
    ap (λ b. unpack_unsigned width (front ++ b ++ rest) (length front)) same
    ∙ read_back pos width (pos_part value) front rest small
    ∙ ap (λ v. parsed (v, length front + width)) (sym is_pos)
    ∙ ap (λ w. parsed (value, length front + w))
        (sym (ap length same ∙ length-le_bytes width (pos_part value)))
unpack_number-pack_number decimal value front bytes rest e =
    let (n, is_word, same) = pack_word-some (signed_word value) bytes e in
    let (small, back) = signed_word-signed_value value n is_word in
    ap (λ b. unpack_decimal (front ++ b ++ rest) (length front)) same
    ∙ read_back signed_value 8 n front rest small
    ∙ ap (λ v. parsed (v, length front + 8)) back
    ∙ ap (λ w. parsed (value, length front + w)) (sym (ap length same ∙ length-le_bytes 8 n))
