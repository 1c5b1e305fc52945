-- ===== src/Fix/Wire/Fields.antt =====
-- Decoding the text of fields that exchangesim/fix/message.py encodes.
use mathlib.Core.List.{append_assoc}
use exchange_sim.Prelude.{
  ℕ, zero, suc, ◌+◌, ◌<◌, ◌≡◌, ◌≢◌, refl, ap, sym, ◌∙◌, List, [], ◌∷◌, ◌++◌, false, some, ltb,
  length, is_empty as is_empty_list, length-append, elem, elem-append, arith, Option-cases, inl,
  inr, if_cases,
}
use exchange_sim.Prelude.Int.{pos}
use exchange_sim.Ids.{decimal}
use exchange_sim.Bytes.{drop, find, split, parse_int, is_digit}
use exchange_sim.Bytes.Search.{take_at, drop_at, find_first, split_first}
use exchange_sim.Bytes.Numbers.{
  parse_int-decimal, decimal-AllDigits, AllDigits-free, decimal-ne-nil,
}
use exchange_sim.Fix.Message.{
  Field, Message, soh, equals, Parsed, parsed, incomplete, malformed, field_text, fields_text,
  sort_fields, sort_by_rank, insert_by_rank, header_fields, body_fields, header_rank, is_structural,
  rank_or_zero,
}
use exchange_sim.Fix.Wire.{decode_fields, decode_field, decode_separated, with_tag, ◌>>=◌}

-- Tags are positive, and no value holds the delimiter.
unfoldable pub IsClean : Message → Type 0
IsClean [] = Unit {0}
IsClean ((tag, value) ∷ fields) = (0 < tag) × (elem soh value ≡ false) × IsClean fields

pub IsClean-append : (xs ys : Message) → IsClean xs → IsClean ys → IsClean (xs ++ ys)
unfolding IsClean
IsClean-append [] ys c d = d
IsClean-append ((tag, value) ∷ xs) ys (p, f, c) d = (p, f, IsClean-append xs ys c d)

insert_by_rank-IsClean :
    (tag : ℕ) (value : List ℕ) (m : Message)
    → 0 < tag
    → elem soh value ≡ false
    → IsClean m
    → IsClean (insert_by_rank (tag, value) m)
unfolding IsClean insert_by_rank
insert_by_rank-IsClean tag value [] p f c = (p, f, tt)
insert_by_rank-IsClean tag value ((t, v) ∷ m) p f (q, g, c) =
    if_cases IsClean (ltb (rank_or_zero (header_rank t)) (rank_or_zero (header_rank tag))) _ _
      (λ _. (q, g, insert_by_rank-IsClean tag value m p f c)) (λ _. (p, f, (q, g, c)))

sort_by_rank-IsClean : (m : Message) → IsClean m → IsClean (sort_by_rank m)
unfolding IsClean sort_by_rank
sort_by_rank-IsClean [] c = tt
sort_by_rank-IsClean ((tag, value) ∷ m) (p, f, c) =
    insert_by_rank-IsClean tag value (sort_by_rank m) p f (sort_by_rank-IsClean m c)

header_fields-IsClean : (m : Message) → IsClean m → IsClean (header_fields m)
unfolding IsClean header_fields
header_fields-IsClean [] c = tt
header_fields-IsClean ((tag, value) ∷ m) (p, f, c) =
    let later = header_fields-IsClean m c in
    if_cases IsClean (is_structural tag) _ _ (λ _. later)
      (λ _. elim (Option-cases (header_rank tag)) [
        | inl e ↦ rw e later
        | inr (rank, e) ↦ rw e (p, f, later)
      ])

body_fields-IsClean : (m : Message) → IsClean m → IsClean (body_fields m)
unfolding IsClean body_fields
body_fields-IsClean [] c = tt
body_fields-IsClean ((tag, value) ∷ m) (p, f, c) =
    let later = body_fields-IsClean m c in
    if_cases IsClean (is_structural tag) _ _ (λ _. later)
      (λ _. elim (Option-cases (header_rank tag)) [
        | inl e ↦ rw e (p, f, later)
        | inr (rank, e) ↦ rw e later
      ])

pub sort_fields-IsClean : (m : Message) → IsClean m → IsClean (sort_fields m)
unfolding sort_fields
sort_fields-IsClean m c =
    IsClean-append (sort_by_rank (header_fields m)) (body_fields m)
      (sort_by_rank-IsClean (header_fields m) (header_fields-IsClean m c)) (body_fields-IsClean m c)

-- One field, without its delimiter.

decode_separated-text :
    (digits value : List ℕ) (n : ℕ)
    → n ≡ length digits
    → digits ≢ []
    → decode_separated (digits ++ equals ∷ value) (some n) ≡ with_tag (parse_int digits) value
unfolding decode_separated
decode_separated-text [] value n e l = absurd (l refl)
decode_separated-text (c ∷ cs) value zero e l = absurd (omega (arith, e))
decode_separated-text (c ∷ cs) value (suc n) e l =
    let digits = c ∷ cs in
    let behind =
      ap (drop (suc n + 1)) (sym (append_assoc digits (equals ∷ []) value))
      ∙ drop_at (suc n + 1) (digits ++ equals ∷ []) value
          (omega (arith, e, length-append digits (equals ∷ []))) in
    rw (take_at (suc n) digits (equals ∷ value) e) (rw behind refl)

with_tag-pos :
    (tag : ℕ) (value : List ℕ) → 0 < tag → with_tag (some (pos tag)) value ≡ parsed (tag, value)
unfolding with_tag
with_tag-pos tag value p = ground (arith, p)

decode_field-text :
    (tag : ℕ) (value : List ℕ)
    → 0 < tag
    → decode_field (decimal tag ++ equals ∷ value) ≡ parsed (tag, value)
unfolding decode_field
decode_field-text tag value p =
    let digits = decimal tag in
    let free = AllDigits-free equals digits (unfold is_digit in refl) (decimal-AllDigits tag) in
    let found =
      ap (find (equals ∷ [])) (sym (append_assoc digits (equals ∷ []) value))
      ∙ find_first equals [] digits value free in
    rw found (
      decode_separated-text digits value (length digits) refl (decimal-ne-nil tag)
      ∙ ap (λ t. with_tag t value) (parse_int-decimal tag)
      ∙ with_tag-pos tag value p)

is_empty-append : (x : ℕ) (xs ys : List ℕ) → is_empty_list (xs ++ x ∷ ys) ≡ false
is_empty-append x [] ys = refl
is_empty-append x (y ∷ xs) ys = refl

bind_assoc :
    (field : Field) (m : Message) (rest : Parsed Message)
    → ((rest >>= λ later. parsed (m ++ later)) >>= λ later. parsed (field ∷ later))
      ≡ (rest >>= λ later. parsed (field ∷ m ++ later))
bind_assoc field m (parsed later) = refl
bind_assoc field m incomplete = refl
bind_assoc field m (malformed e) = refl

bind-nil : (rest : Parsed Message) → (rest >>= λ later. parsed ([] ++ later)) ≡ rest
bind-nil (parsed later) = refl
bind-nil incomplete = refl
bind-nil (malformed e) = refl

field_text-free :
    (tag : ℕ) (value : List ℕ)
    → elem soh value ≡ false
    → elem soh (decimal tag ++ equals ∷ value) ≡ false
field_text-free tag value f =
    elem-append soh (decimal tag) (equals ∷ value)
    ∙ (let digits =
          AllDigits-free soh (decimal tag) (unfold is_digit in refl) (decimal-AllDigits tag) in
        rw digits (unfold elem in f))

-- The fields of a text that begins with encoded fields.
pub decode_fields-text :
    (m : Message) (rest : List ℕ)
    → IsClean m
    → decode_fields (split soh (fields_text m ++ rest))
      ≡ (decode_fields (split soh rest) >>= λ later. parsed (m ++ later))
unfolding IsClean fields_text decode_fields field_text
decode_fields-text [] rest c = sym (bind-nil (decode_fields (split soh rest)))
decode_fields-text ((tag, value) ∷ m) rest (p, f, c) =
    let chunk = decimal tag ++ equals ∷ value in
    let grouped : field_text (tag, value) ++ fields_text m ++ rest
        ≡ chunk ++ soh ∷ (fields_text m ++ rest) =
      simp append_assoc refl in
    let pieces =
      ap (split soh) grouped
      ∙ split_first soh chunk (fields_text m ++ rest) (field_text-free tag value f) in
    rw pieces (
      rw (is_empty-append equals (decimal tag) value) (
        rw (decode_field-text tag value p) (
          rw (decode_fields-text m rest c)
            (bind_assoc (tag, value) m (decode_fields (split soh rest))))))
