-- ===== src/Fix/Wire/Checksum.antt =====
-- The checksum of a text of fields in exchangesim/fix/message.py passes its check.
use mathlib.Core.List.{append_assoc, append-nil}
use exchange_sim.Prelude.{
  ℕ, ◌+◌, ◌%◌, ◌≡◌, refl, ap, sym, ◌∙◌, subst, List, [], ◌∷◌, ◌++◌, true, none, some, length,
  length-append, arith,
}
use exchange_sim.Prelude.Int.{pos}
use exchange_sim.Ids.{decimal, padded, digits_onto}
use exchange_sim.Bytes.{take, slice, rfind, split, total, ends_with, is_digit, starts_with}
use exchange_sim.Bytes.Search.{take_at, slice_at, rfind_later}
use exchange_sim.Bytes.Numbers.{parse_int-padded, padded-AllDigits, AllDigits, length-padded-byte}
use exchange_sim.Fix.Message.{
  Field, Message, soh, equals, parsed, encode, head_text, field_text, fields_text, sort_fields,
}
use exchange_sim.Fix.Wire.{
  decode, decode_from, decode_fields, validated_checksum, check_checksum, checked_fields,
}
use exchange_sim.Fix.Wire.Fields.{IsClean, decode_fields-text}

-- All the fields of an encoded message.
unfoldable pub transmitted : Message → List ℕ → Message
transmitted m begin_string =
    (8, begin_string) ∷ (9, decimal (length (fields_text (sort_fields m)))) ∷ sort_fields m

unfoldable pub checksum : Message → List ℕ → List ℕ
checksum m begin_string = padded 3 (total (fields_text (transmitted m begin_string)) % 256)

head_text-transmitted : (m : Message) (b : List ℕ) → head_text m b ≡ fields_text (transmitted m b)
unfolding head_text transmitted fields_text field_text decimal digits_onto
head_text-transmitted m b = simp append_assoc refl

fields_text-append : (m n : Message) → fields_text (m ++ n) ≡ fields_text m ++ fields_text n
unfolding fields_text
fields_text-append [] n = refl
fields_text-append (field ∷ m) n =
    rw (fields_text-append m n)
      (sym (append_assoc (field_text field) (fields_text m) (fields_text n)))

pub encode-last :
    (m : Message) (b : List ℕ)
    → encode m b ≡ fields_text (transmitted m b) ++ fields_text ((10, checksum m b) ∷ [])
unfolding encode checksum
encode-last m b =
    rw (head_text-transmitted m b)
      (unfold fields_text field_text decimal digits_onto in (simp append_assoc refl))

pub encode-transmitted :
    (m : Message) (b : List ℕ)
    → encode m b ≡ fields_text (transmitted m b ++ (10, checksum m b) ∷ [])
encode-transmitted m b =
    let last = fields_text-append (transmitted m b) ((10, checksum m b) ∷ []) in
    encode-last m b ∙ sym last

-- The text of fields ends with the delimiter.
pub fields_text-last :
    (field : Field) (m : Message) → (front : List ℕ) × (fields_text (field ∷ m) ≡ front ++ soh ∷ [])
unfolding fields_text field_text
fields_text-last (tag, value) [] = (decimal tag ++ equals ∷ value, simp append_assoc refl)
fields_text-last (tag, value) (next ∷ m) =
    let (front, e) = fields_text-last next m in
    (
      field_text (tag, value) ++ front,
      rw e (sym (append_assoc (field_text (tag, value)) front (soh ∷ []))),
    )

ends_with-append : (c : ℕ) (xs : List ℕ) → ends_with c (xs ++ c ∷ []) ≡ true
unfolding ends_with
ends_with-append c [] = ground arith
ends_with-append c (x ∷ []) = ground arith
ends_with-append c (x ∷ y ∷ xs) = ends_with-append c (y ∷ xs)

-- Digits do not begin a checksum field.
rfind-digits : (p cs : List ℕ) → AllDigits cs → rfind (soh ∷ 49 ∷ p) (cs ++ soh ∷ []) ≡ none
unfolding rfind starts_with AllDigits is_digit
rfind-digits p [] all = refl
rfind-digits p (c ∷ cs) (here, all) = rw (rfind-digits p cs all) (ground (arith, here))

abbrev pub checksum_mark : List ℕ
checksum_mark = soh ∷ 49 ∷ 48 ∷ equals ∷ []

rfind-checksum :
    (sum : List ℕ) → AllDigits sum → rfind checksum_mark (checksum_mark ++ sum ++ soh ∷ []) ≡ some 0
unfolding rfind starts_with
rfind-checksum sum all = rw (rfind-digits (48 ∷ equals ∷ []) sum all) refl

check_checksum-same : (n : ℕ) → check_checksum n (some (pos n)) ≡ parsed tt
unfolding check_checksum
check_checksum-same n = ground arith

at_checksum :
    (front sum : List ℕ)
    → front ++ (checksum_mark ++ sum ++ soh ∷ []) ≡ front ++ checksum_mark ++ sum ++ soh ∷ []
at_checksum front sum = simp append_assoc refl

-- The bytes up to a checksum, its mark and itself.
validated_checksum-text :
    (front : List ℕ) (n : ℕ)
    → n ≡ total (front ++ soh ∷ []) % 256
    → validated_checksum true (front ++ (checksum_mark ++ padded 3 n ++ soh ∷ [])) (length front)
      ≡ parsed tt
unfolding validated_checksum
validated_checksum-text front n e =
    let sum = padded 3 n in
    let start = length front in
    let three = length-padded-byte n (omega (arith, e)) in
    let tail = 49 ∷ 48 ∷ equals ∷ sum ++ soh ∷ [] in
    let covered =
      ap (take (start + 1)) (sym (append_assoc front (soh ∷ []) tail))
      ∙ take_at (start + 1) (front ++ soh ∷ []) tail
          (omega (arith, length-append front (soh ∷ []))) in
    let received =
      ap (slice (start + 4) (start + 7)) (at_checksum front sum)
      ∙ slice_at (start + 4) (start + 7) (front ++ checksum_mark) sum (soh ∷ [])
          (omega (arith, length-append front checksum_mark)) (omega (arith, three)) in
    rw covered (rw received (rw (parse_int-padded 3 n) (rw e (check_checksum-same _))))

decoded :
    (raw : List ℕ) (fields : Message)
    → raw ≡ fields_text fields
    → IsClean fields
    → decode_fields (split soh raw) ≡ parsed fields
decoded raw fields f c =
    ap (λ r. decode_fields (split soh r)) (f ∙ sym (append-nil (fields_text fields)))
    ∙ decode_fields-text fields [] c
    ∙ (unfold split decode_fields in ap parsed (append-nil fields))

-- The checks of `decode` pass on a text of fields that ends with its checksum.
pub decode-text :
    (raw front sum : List ℕ) (fields : Message)
    → raw ≡ front ++ (checksum_mark ++ sum ++ soh ∷ [])
    → sum ≡ padded 3 (total (front ++ soh ∷ []) % 256)
    → raw ≡ fields_text fields
    → IsClean fields
    → decode true raw ≡ checked_fields fields
unfolding decode decode_from
decode-text raw front sum fields e s f c =
    let digits = subst AllDigits (sym s) (padded-AllDigits 3 (total (front ++ soh ∷ []) % 256)) in
    let last =
      ap (ends_with soh) (e ∙ at_checksum front sum)
      ∙ ends_with-append soh (front ++ checksum_mark ++ sum) in
    let mark =
      ap (rfind checksum_mark) e
      ∙ rfind_later checksum_mark front (checksum_mark ++ sum ++ soh ∷ []) 0
          (rfind-checksum sum digits) in
    let zero : length front + 0 ≡ length front = omega arith in
    let valid =
      ap (λ n. validated_checksum true raw n) zero
      ∙ ap (λ r. validated_checksum true r (length front))
          (e ∙ ap (λ t. front ++ (checksum_mark ++ t ++ soh ∷ [])) s)
      ∙ validated_checksum-text front (total (front ++ soh ∷ []) % 256) refl in
    rw last (rw mark (rw valid (rw (decoded raw fields f c) refl)))
