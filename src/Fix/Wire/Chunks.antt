-- ===== src/Fix/Wire/Chunks.antt =====
-- How the bytes of a stream are cut into chunks does not matter to the framer of
-- exchangesim/fix/message.py.
use exchange_sim.Prelude.{
  ℕ, zero, suc, ◌+◌, ◌≤◌, ◌<◌, ◌≡◌, refl, ap, sym, ◌∙◌, List, [], ◌∷◌, ◌++◌, Option, none, some,
  length, arith,
}
use exchange_sim.Prelude.Int.{ℤ, pos_part}
use exchange_sim.Bytes.{drop, slice, same, find, find_from, parse_int, length-drop}
use exchange_sim.Fix.Message.{soh, equals, Parsed, parsed, incomplete, malformed}
use exchange_sim.Fix.Wire.{
  extract, extract_from, extract_body, after_start, after_length_start, after_length_end,
  after_body_length, drain, after_extract, feed, Fed, with_message, ◌>>=◌,
}
use mathlib.Core.List.{append_assoc}
use exchange_sim.Fix.Wire.Longer.{extract-after_start, extract_longer, followed_by}

extract_body-rest :
    (xs raw rest : List ℕ) (n : ℕ)
    → extract_body xs n ≡ parsed (raw, rest)
    → length rest < length xs
unfolding extract_body
extract_body-rest xs raw rest n h = ground (arith, h, length-drop (n + 7) xs)

after_body_length-rest :
    (xs raw rest : List ℕ) (n : ℕ) (l : Option ℤ)
    → after_body_length xs n l ≡ parsed (raw, rest)
    → length rest < length xs
unfolding after_body_length
after_body_length-rest xs raw rest n none h = absurd (ground (arith, h))
after_body_length-rest xs raw rest n (some l) h =
    ground (arith, h, extract_body-rest xs raw rest (n + pos_part l))

after_length_end-rest :
    (xs raw rest : List ℕ) (start : ℕ) (stop : Option ℕ)
    → after_length_end xs start stop ≡ parsed (raw, rest)
    → length rest < length xs
unfolding after_length_end
after_length_end-rest xs raw rest start none h = absurd (ground (arith, h))
after_length_end-rest xs raw rest start (some stop) h =
    after_body_length-rest xs raw rest (stop + 1) (parse_int (slice start stop xs)) h

after_length_start-rest :
    (xs raw rest : List ℕ) (start : Option ℕ)
    → after_length_start xs start ≡ parsed (raw, rest)
    → length rest < length xs
unfolding after_length_start
after_length_start-rest xs raw rest none h = absurd (ground (arith, h))
after_length_start-rest xs raw rest (some start) h =
    after_length_end-rest xs raw rest (start + 3) (find_from (soh ∷ []) (start + 3) xs) h

extract_from-rest :
    (xs raw rest : List ℕ) → extract_from xs ≡ parsed (raw, rest) → length rest < length xs
unfolding extract_from
extract_from-rest xs raw rest h =
    after_length_start-rest xs raw rest (find (soh ∷ 57 ∷ equals ∷ []) xs) h

after_start-rest :
    (xs raw rest : List ℕ) (start : Option ℕ)
    → after_start xs start ≡ parsed (raw, rest)
    → length rest < length xs
unfolding after_start
after_start-rest xs raw rest none h = absurd (ground (arith, h))
after_start-rest xs raw rest (some start) h =
    omega (arith, length-drop start xs, extract_from-rest (drop start xs) raw rest h)

-- A message takes bytes off the stream.
extract-rest : (xs raw rest : List ℕ) → extract xs ≡ parsed (raw, rest) → length rest < length xs
extract-rest xs raw rest h =
    after_start-rest xs raw rest (find (56 ∷ equals ∷ []) xs) (sym (extract-after_start xs) ∙ h)

after_extract-same :
    (xs : List ℕ) (f g : List ℕ → Fed) (e : Parsed (List ℕ × List ℕ))
    → ((raw rest : List ℕ) → e ≡ parsed (raw, rest) → f rest ≡ g rest)
    → after_extract xs f e ≡ after_extract xs g e
unfolding after_extract
after_extract-same xs f g (parsed (raw, rest)) h = ap (with_message raw) (h raw rest refl)
after_extract-same xs f g incomplete h = refl
after_extract-same xs f g (malformed e) h = refl

-- Fuel for the bytes of the buffer is enough.
drain-enough : (m n : ℕ) (xs : List ℕ) → length xs ≤ m → length xs ≤ n → drain m xs ≡ drain n xs
unfolding drain
drain-enough zero zero xs k l = refl
drain-enough zero (suc n) [] k l = refl
drain-enough zero (suc n) (x ∷ xs) k l = absurd (omega (arith, k))
drain-enough (suc m) zero [] k l = refl
drain-enough (suc m) zero (x ∷ xs) k l = absurd (omega (arith, l))
drain-enough (suc m) (suc n) [] k l = refl
drain-enough (suc m) (suc n) (x ∷ xs) k l =
    after_extract-same (x ∷ xs) (λ rest. drain m rest) (λ rest. drain n rest) (extract (x ∷ xs))
      (λ raw rest e.
        let less = extract-rest (x ∷ xs) raw rest e in
        drain-enough m n rest (omega (arith, less, k)) (omega (arith, less, l)))

-- Everything that a buffer holds.
unfoldable pub drained : List ℕ → Fed
drained xs = drain (length xs) xs

pub drained-cons :
    (x : ℕ) (xs : List ℕ) → drained (x ∷ xs) ≡ after_extract (x ∷ xs) drained (extract (x ∷ xs))
unfolding drained drain
drained-cons x xs =
    after_extract-same (x ∷ xs) (λ rest. drain (length xs) rest) drained (extract (x ∷ xs))
      (λ raw rest e.
        drain-enough (length xs) (length rest) rest
          (omega (arith, extract-rest (x ∷ xs) raw rest e)) (omega arith))

-- The messages of a feed after others.
unfoldable pub with_messages : List (List ℕ) → Fed → Fed
with_messages raws fed = record fed { messages = fed.messages >>= λ later. parsed (raws ++ later) }

bind-nil : (m : Parsed (List (List ℕ))) → (m >>= λ later. parsed ([] ++ later)) ≡ m
bind-nil (parsed raws) = refl
bind-nil incomplete = refl
bind-nil (malformed e) = refl

with_messages-nil : (fed : Fed) → with_messages [] fed ≡ fed
unfolding with_messages
with_messages-nil fed = ap (λ m. record fed { messages = m }) (bind-nil fed.messages)

abbrev no_messages : Parsed (List (List ℕ))
no_messages = parsed []

with_messages-none :
    (raws : List (List ℕ)) (fed : Fed) → no_messages ≡ parsed raws → fed ≡ with_messages raws fed
with_messages-none raws fed h =
    sym (with_messages-nil fed) ∙ ap (λ r. with_messages r fed) {x = []} (ground (arith, h))

bind-cons :
    (raw : List ℕ) (raws : List (List ℕ)) (m : Parsed (List (List ℕ)))
    → ((m >>= λ later. parsed (raws ++ later)) >>= λ later. parsed (raw ∷ later))
      ≡ (m >>= λ later. parsed (raw ∷ raws ++ later))
bind-cons raw raws (parsed more) = refl
bind-cons raw raws incomplete = refl
bind-cons raw raws (malformed e) = refl

with_messages-cons :
    (raw : List ℕ) (raws : List (List ℕ)) (fed : Fed)
    → with_message raw (with_messages raws fed) ≡ with_messages (raw ∷ raws) fed
unfolding with_messages with_message
with_messages-cons raw raws fed =
    ap (λ m. record fed { messages = m }) (bind-cons raw raws fed.messages)

-- The messages that a feed gives with one more in front.
bind-parsed :
    (raw : List ℕ) (raws : List (List ℕ)) (m : Parsed (List (List ℕ)))
    → (m >>= λ later. parsed (raw ∷ later)) ≡ parsed raws
    → (later : List (List ℕ)) × (m ≡ parsed later) × (raws ≡ raw ∷ later)
bind-parsed raw raws (parsed more) h = (more, refl, ground (arith, h))
bind-parsed raw raws incomplete h = absurd (ground (arith, h))
bind-parsed raw raws (malformed e) h = absurd (ground (arith, h))

with_message-parsed :
    (raw : List ℕ) (raws : List (List ℕ)) (fed : Fed)
    → (with_message raw fed).messages ≡ parsed raws
    → (later : List (List ℕ)) × (fed.messages ≡ parsed later) × (raws ≡ raw ∷ later)
unfolding with_message
with_message-parsed raw raws fed h = bind-parsed raw raws fed.messages h

-- What the loop does with an extraction, with more bytes behind.
after_extract-append :
    (xs ys : List ℕ) (raws : List (List ℕ)) (e : Parsed (List ℕ × List ℕ))
    → extract xs ≡ e
    → drained (xs ++ ys) ≡ after_extract (xs ++ ys) drained (extract (xs ++ ys))
    → (after_extract xs drained e).messages ≡ parsed raws
    → ((raw rest : List ℕ) (later : List (List ℕ))
        → e ≡ parsed (raw, rest)
        → (drained rest).messages ≡ parsed later
        → drained (rest ++ ys) ≡ with_messages later (drained ((drained rest).buffer ++ ys)))
    → drained (xs ++ ys) ≡ with_messages raws (drained ((after_extract xs drained e).buffer ++ ys))
unfolding after_extract with_message
after_extract-append xs ys raws (parsed (raw, rest)) e step h later =
    let (more, m, same) = with_message-parsed raw raws (drained rest) h in
    let longer = extract_longer xs ys (rw e refl) ∙ ap (followed_by ys) e in
    step
    ∙ ap (after_extract (xs ++ ys) drained) longer
    ∙ ap (with_message raw) (later raw rest more refl m)
    ∙ with_messages-cons raw more (drained ((drained rest).buffer ++ ys))
    ∙ ap (λ r. with_messages r (drained ((drained rest).buffer ++ ys))) (sym same)
after_extract-append xs ys raws incomplete e step h later =
    with_messages-none raws (drained (xs ++ ys)) h
after_extract-append xs ys raws (malformed x) e step h later = absurd (ground (arith, h))

drained-nil : (drained []).messages ≡ no_messages
unfolding drained drain
drained-nil = refl

drained-buffer-nil : (drained []).buffer ≡ []
unfolding drained drain
drained-buffer-nil = refl

drained-append :
    (n : ℕ) (xs ys : List ℕ) (raws : List (List ℕ))
    → length xs ≤ n
    → (drained xs).messages ≡ parsed raws
    → drained (xs ++ ys) ≡ with_messages raws (drained ((drained xs).buffer ++ ys))
drained-append n [] ys raws l h =
    with_messages-none raws (drained ys) (sym (drained-nil) ∙ h)
    ∙ ap (λ b. with_messages raws (drained (b ++ ys))) (sym drained-buffer-nil)
drained-append zero (x ∷ xs) ys raws l h = absurd (omega (arith, l))
drained-append (suc n) (x ∷ xs) ys raws l h = rw (drained-cons x xs) (
    after_extract-append (x ∷ xs) ys raws (extract (x ∷ xs)) refl (drained-cons x (xs ++ ys))
      (rw (sym (drained-cons x xs)) h)
      (λ raw rest later e m.
        let less = extract-rest (x ∷ xs) raw rest e in
        drained-append n rest ys later (omega (arith, less, l)) m))

-- Where a first chunk is fed without an exception, feeding a second one after it gives the messages
-- that are still to come, or the exception, and the buffer exactly as feeding both at once, which
-- answers the messages of the first chunk before them.
pub feed-append :
    (buffer first second : List ℕ) (raws : List (List ℕ))
    → (feed buffer first).messages ≡ parsed raws
    → feed buffer (first ++ second) ≡ with_messages raws (feed (feed buffer first).buffer second)
unfolding feed drained
feed-append buffer first second raws h =
    ap drained (sym (append_assoc buffer first second))
    ∙ drained-append (length (buffer ++ first)) (buffer ++ first) second raws (omega arith) h
