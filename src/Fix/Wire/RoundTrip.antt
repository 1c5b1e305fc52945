-- ===== src/Fix/Wire/RoundTrip.antt =====
-- Decoding what exchangesim/fix/message.py encodes.
use mathlib.Core.List.{append_assoc}
use exchange_sim.Prelude.{
  ℕ, ◌%◌, ◌≡◌, refl, ap, ◌∙◌, List, [], ◌∷◌, ◌++◌, true, false, ◌||◌, some, ltb, ◌==◌, length, elem,
  arith, Bool-cases, Option-cases, inl, inr, if_cases,
}
use exchange_sim.Ids.{decimal, padded, digits_onto}
use exchange_sim.Bytes.{total, is_digit}
use exchange_sim.Bytes.Numbers.{decimal-AllDigits, padded-AllDigits, AllDigits-free}
use exchange_sim.Fix.Message.{
  Message, soh, parsed, encode, field_text, fields_text, sort_fields, sort_by_rank, insert_by_rank,
  header_fields, body_fields, header_rank, is_structural, has, rank_or_zero, rank_in, header_order,
}
use exchange_sim.Fix.Wire.{decode, checked_fields, starts_message}
use exchange_sim.Fix.Wire.Fields.{IsClean, IsClean-append, sort_fields-IsClean}
use exchange_sim.Fix.Wire.Checksum.{
  checksum, checksum_mark, decode-text, encode-last, encode-transmitted, fields_text-last,
  transmitted,
}

has-insert_by_rank :
    (key tag : ℕ) (value : List ℕ) (m : Message)
    → has key (insert_by_rank (tag, value) m) ≡ (tag == key || has key m)
unfolding has insert_by_rank
has-insert_by_rank key tag value [] = ground arith
has-insert_by_rank key tag value ((t, v) ∷ m) =
    if_cases (λ r. has key r ≡ (tag == key || has key ((t, v) ∷ m)))
      (ltb (rank_or_zero (header_rank t)) (rank_or_zero (header_rank tag))) _ _
      (λ _. ground (arith, has-insert_by_rank key tag value m)) (λ _. ground arith)

has-sort_by_rank : (key : ℕ) (m : Message) → has key (sort_by_rank m) ≡ has key m
unfolding sort_by_rank has
has-sort_by_rank key [] = refl
has-sort_by_rank key ((tag, value) ∷ m) =
    ground (arith, has-insert_by_rank key tag value (sort_by_rank m), has-sort_by_rank key m)

has-header_fields : (m : Message) → has 35 m ≡ true → has 35 (header_fields m) ≡ true
unfolding header_fields has
has-header_fields [] h = h
has-header_fields ((tag, value) ∷ m) h = elim (Bool-cases (tag == 35)) [
  | inl same ↦
      let is_header : (is_structural tag ≡ false) × (header_rank tag ≡ some 0) = (
        unfold is_structural in ground (arith, same),
        unfold header_rank header_order rank_in in ground (arith, same),
      ) in
      rw is_header.0 (rw is_header.1 (rw same refl))
  | inr other ↦
      let later = has-header_fields m (ground (arith, h, other)) in
      if_cases (λ r. has 35 r ≡ true) (is_structural tag) _ _ (λ _. later)
        (λ _. elim (Option-cases (header_rank tag)) [
          | inl e ↦ rw e later
          | inr (rank, e) ↦ rw e (rw other later)
        ])
]

has-append : (key : ℕ) (m n : Message) → has key m ≡ true → has key (m ++ n) ≡ true
unfolding has
has-append key [] n h = absurd (ground (arith, h))
has-append key ((tag, value) ∷ m) n h = ground (arith, has-append key m n, h)

has-sort_fields : (m : Message) → has 35 m ≡ true → has 35 (sort_fields m) ≡ true
unfolding sort_fields
has-sort_fields m h =
    has-append 35 (sort_by_rank (header_fields m)) (body_fields m)
      (has-sort_by_rank 35 (header_fields m) ∙ has-header_fields m h)

checked_fields-transmitted :
    (m last : Message) (b : List ℕ)
    → has 35 m ≡ true
    → checked_fields (transmitted m b ++ last) ≡ parsed (transmitted m b ++ last)
unfolding checked_fields starts_message transmitted has
checked_fields-transmitted m last b h =
    rw (has-append 35 (sort_fields m) last (has-sort_fields m h)) refl

transmitted-last :
    (m : Message) (b : List ℕ)
    → (front : List ℕ) × (fields_text (transmitted m b) ≡ front ++ soh ∷ [])
unfolding transmitted
transmitted-last m b =
    fields_text-last (8, b) ((9, decimal (length (fields_text (sort_fields m)))) ∷ sort_fields m)

transmitted-IsClean :
    (m : Message) (b : List ℕ)
    → IsClean m
    → elem soh b ≡ false
    → IsClean (transmitted m b ++ (10, checksum m b) ∷ [])
unfolding IsClean transmitted checksum
transmitted-IsClean m b c f =
    let digits =
      AllDigits-free soh (decimal (length (fields_text (sort_fields m)))) (unfold is_digit in refl)
        (decimal-AllDigits _) in
    let n = total (fields_text (transmitted m b)) % 256 in
    let sum = AllDigits-free soh (padded 3 n) (unfold is_digit in refl) (padded-AllDigits 3 n) in
    (
      omega arith,
      f,
      (
        omega arith,
        digits,
        IsClean-append (sort_fields m) _ (sort_fields-IsClean m c)
            (unfold IsClean in (omega arith, sum, tt)),
      ),
    )

-- What is encoded decodes, with the checksum validated, to the begin string, the length of the body,
-- the fields of the message in the order of transmission, and the checksum: for a message that has a
-- MsgType, positive tags and no delimiter in its values or in the begin string.
pub decode-encode :
    (m : Message) (begin_string : List ℕ)
    → has 35 m ≡ true
    → IsClean m
    → elem soh begin_string ≡ false
    → decode true (encode m begin_string)
      ≡ parsed (transmitted m begin_string ++ (10, checksum m begin_string) ∷ [])
decode-encode m b h c f =
    let (front, e) = transmitted-last m b in
    let sum = checksum m b in
    let last : Message = (10, sum) ∷ [] in
    let grouped : front ++ soh ∷ [] ++ fields_text last
        ≡ front ++ (checksum_mark ++ sum ++ soh ∷ []) =
      unfold fields_text field_text decimal digits_onto in (simp append_assoc refl) in
    let marked = encode-last m b ∙ ap (λ t. t ++ fields_text last) e ∙ grouped in
    let same : sum ≡ padded 3 (total (front ++ soh ∷ []) % 256) =
      unfold checksum in ap (λ t. padded 3 (total t % 256)) e in
    decode-text (encode m b) front sum (transmitted m b ++ last) marked same
      (encode-transmitted m b) (transmitted-IsClean m b c f)
    ∙ checked_fields-transmitted m last b h
