-- ===== src/Fix/FileStore/Reindex.antt =====
-- Indexing the log of exchangesim/fix/store.py finds again what was appended to it.
use mathlib.Core.List.{append_assoc, append-nil}
use exchange_sim.Prelude.{
  ℕ, zero, suc, ◌+◌, ◌<◌, ◌≡◌, ◌≢◌, refl, sym, ap, ◌∙◌, List, [], ◌∷◌, ◌++◌, true, false, some,
  if_cases, length, length-append, is_empty, elem, elem-append, arith,
}
use exchange_sim.Prelude.Int.{pos, lt_test}
use exchange_sim.Ids.{decimal}
use exchange_sim.Bytes.{drop, take-length, drop-length, is_space, is_digit}
use exchange_sim.Bytes.Search.{drop_at}
use exchange_sim.Bytes.Numbers.{
  AllDigits, AllDigits-free, decimal-AllDigits, decimal-ne-nil, parse_int-decimal,
}
use exchange_sim.Fix.FileStore.{
  Offsets, put_offset, read_line, read, add_to_word, begins_word, words, both_numbers, two_numbers,
  index_record, index_from, index_log, record_header,
}

-- A line ends with its first line feed.
read_line_to :
    (line rest : List ℕ) → elem 10 line ≡ false → read_line (line ++ 10 ∷ rest) ≡ line ++ 10 ∷ []
unfolding read_line elem
read_line_to [] rest f = refl
read_line_to (c ∷ line) rest f = ground (arith, f, read_line_to line rest)

words_to :
    (word rest : List ℕ) (c : ℕ)
    → AllDigits word
    → word ≢ []
    → is_space c ≡ true
    → words (word ++ c ∷ rest) ≡ word ∷ words rest
unfolding words AllDigits add_to_word begins_word is_digit is_space
words_to [] rest c all n s = absurd (n refl)
words_to (d ∷ []) rest c (here, all) n s = rw s (ground (arith, here, s))
words_to (d ∷ e ∷ word) rest c (here, (next, all)) n s =
    rw (words_to (e ∷ word) rest c (next, all) (λ h. absurd (ground (arith, h))) s)
      (ground (arith, here, next))

-- The header of a record, read back.
header_free : (seq : ℕ) (raw : List ℕ) → elem 10 (decimal seq ++ 32 ∷ decimal (length raw)) ≡ false
unfolding elem is_digit
header_free seq raw =
    elem-append 10 (decimal seq) (32 ∷ decimal (length raw))
    ∙ (rw (AllDigits-free 10 (decimal seq) refl (decimal-AllDigits seq))
        (rw (AllDigits-free 10 (decimal (length raw)) refl (decimal-AllDigits (length raw))) refl))

header-line :
    (seq : ℕ) (raw rest : List ℕ)
    → read_line (record_header seq raw ++ rest) ≡ record_header seq raw
unfolding record_header
header-line seq raw rest =
    let line = decimal seq ++ 32 ∷ decimal (length raw) in
    ap read_line (append_assoc line (10 ∷ []) rest)
    ∙ (read_line_to line rest (header_free seq raw) ∙ refl)

header-numbers :
    (seq : ℕ) (raw : List ℕ)
    → two_numbers (words (record_header seq raw)) ≡ some (pos seq, pos (length raw))
unfolding record_header two_numbers both_numbers words
header-numbers seq raw =
    let first = decimal seq in
    let second = decimal (length raw) in
    let grouped : words (first ++ 32 ∷ second ++ 10 ∷ []) ≡ first ∷ second ∷ [] =
      ap words (append_assoc first (32 ∷ second) (10 ∷ []))
      ∙ words_to first (second ++ 10 ∷ []) 32 (decimal-AllDigits seq) (decimal-ne-nil seq)
          (unfold is_space in refl)
      ∙ ap (λ w. first ∷ w)
          (words_to second [] 10 (decimal-AllDigits (length raw)) (decimal-ne-nil (length raw))
            (unfold is_space in refl)) in
    rw grouped (rw (parse_int-decimal seq) (rw (parse_int-decimal (length raw)) refl))

is_empty-append : (x : ℕ) (xs ys : List ℕ) → is_empty (xs ++ x ∷ ys) ≡ false
is_empty-append x [] ys = refl
is_empty-append x (y ∷ xs) ys = refl

header-is_empty : (seq : ℕ) (raw : List ℕ) → is_empty (record_header seq raw) ≡ false
unfolding record_header
header-is_empty seq raw = is_empty-append 10 (decimal seq ++ 32 ∷ decimal (length raw)) []

-- What one `store_outbound` appends.
unfoldable pub record_text : ℕ → List ℕ → List ℕ
record_text seq raw = record_header seq raw ++ (raw ++ 10 ∷ [])

-- A log, and the offsets of its records from an offset on.
unfoldable pub log_of : List (ℕ × List ℕ) → List ℕ
log_of [] = []
log_of ((seq, raw) ∷ records) = record_text seq raw ++ log_of records

unfoldable pub offsets_of : List (ℕ × List ℕ) → ℕ → Offsets → Offsets
offsets_of [] offset seen = seen
offsets_of ((seq, raw) ∷ records) offset seen =
    offsets_of records (offset + length (record_text seq raw))
      (put_offset (pos seq) (offset + length (record_header seq raw)) (pos (length raw)) seen)

index_record-text :
    (seq offset : ℕ) (raw rest : List ℕ) (seen : Offsets) (go_on : ℕ → List ℕ → Offsets → Offsets)
    → index_record (some (pos seq, pos (length raw))) offset (raw ++ (10 ∷ rest)) go_on seen
      ≡ go_on (offset + length raw + 1) rest (put_offset (pos seq) offset (pos (length raw)) seen)
unfolding index_record read
index_record-text seq offset raw rest seen go_on =
    let whole = take-length raw (10 ∷ rest) in
    let behind =
      ap (drop (length raw + 1)) (sym (append_assoc raw (10 ∷ []) rest))
      ∙ drop_at (length raw + 1) (raw ++ 10 ∷ []) rest
          (omega (arith, length-append raw (10 ∷ []))) in
    rw whole (
      rw behind (
        if_cases
          (λ r.
            r
            ≡ go_on (offset + length raw + 1) rest
                (put_offset (pos seq) offset (pos (length raw)) seen))
          (lt_test (pos (length raw)) (pos (length raw))) _ _ (λ h. absurd (ground (arith, h)))
          (λ _. refl)))

index_from-text :
    (fuel offset seq : ℕ) (raw rest : List ℕ) (seen : Offsets)
    → index_from (suc fuel) offset (record_text seq raw ++ rest) seen
      ≡ index_from fuel
          (offset + length (record_text seq raw))
          rest
          (put_offset (pos seq) (offset + length (record_header seq raw)) (pos (length raw)) seen)
unfolding index_from record_text
index_from-text fuel offset seq raw rest seen =
    let header = record_header seq raw in
    let body = raw ++ 10 ∷ [] in
    let grouped : header ++ body ++ rest ≡ header ++ (raw ++ (10 ∷ rest)) =
      simp append_assoc refl in
    let at = offset + length header in
    let line = ap read_line grouped ∙ header-line seq raw (raw ++ (10 ∷ rest)) in
    let behind = ap (drop (length header)) grouped ∙ drop-length header (raw ++ (10 ∷ rest)) in
    let size : at + length raw + 1 ≡ offset + length (header ++ body) =
      omega (arith, length-append header body, length-append raw (10 ∷ [])) in
    rw line (
      rw (header-is_empty seq raw) (
        rw (header-numbers seq raw) (
          rw behind (
            index_record-text seq at raw rest seen (λ o t found. index_from fuel o t found)
            ∙ ap (λ n. index_from fuel n rest (put_offset (pos seq) at (pos (length raw)) seen))
                size))))

length-record_text : (seq : ℕ) (raw : List ℕ) → 0 < length (record_text seq raw)
unfolding record_text
length-record_text seq raw =
    omega
      (arith, length-append (record_header seq raw) (raw ++ 10 ∷ []), length-append raw (10 ∷ []))

index_from-log :
    (records : List (ℕ × List ℕ)) (fuel offset : ℕ) (seen : Offsets)
    → length (log_of records) < fuel
    → index_from fuel offset (log_of records) seen ≡ offsets_of records offset seen
unfolding log_of offsets_of
index_from-log records zero offset seen l = absurd (omega (arith, l))
index_from-log [] (suc fuel) offset seen l = unfold index_from read_line in refl
index_from-log ((seq, raw) ∷ records) (suc fuel) offset seen l =
    index_from-text fuel offset seq raw (log_of records) seen
    ∙ index_from-log records fuel _ _ (
        omega (
          arith,
          l,
          length-append (record_text seq raw) (log_of records),
          length-record_text seq raw,
        ))

-- The index of a log of records holds each record where it stands, and fuel for the bytes is enough.
pub index_log-log :
    (records : List (ℕ × List ℕ)) → index_log (some (log_of records)) ≡ offsets_of records 0 []
unfolding index_log
index_log-log records = index_from-log records (suc (length (log_of records))) 0 [] (omega arith)

pub log_of-snoc :
    (records : List (ℕ × List ℕ)) (seq : ℕ) (raw : List ℕ)
    → log_of (records ++ (seq, raw) ∷ []) ≡ log_of records ++ record_text seq raw
unfolding log_of
log_of-snoc [] seq raw = append-nil (record_text seq raw)
log_of-snoc ((n, r) ∷ records) seq raw =
    ap (λ t. record_text n r ++ t) (log_of-snoc records seq raw)
    ∙ sym (append_assoc (record_text n r) (log_of records) (record_text seq raw))

pub offsets_of-snoc :
    (records : List (ℕ × List ℕ)) (seq : ℕ) (raw : List ℕ) (offset : ℕ) (seen : Offsets)
    → offsets_of (records ++ (seq, raw) ∷ []) offset seen
      ≡ put_offset
          (pos seq)
          (offset + length (log_of records) + length (record_header seq raw))
          (pos (length raw))
          (offsets_of records offset seen)
unfolding offsets_of log_of
offsets_of-snoc [] seq raw offset seen =
    ap (λ n. put_offset (pos seq) n (pos (length raw)) seen) (omega arith)
offsets_of-snoc ((n, r) ∷ records) seq raw offset seen =
    offsets_of-snoc records seq raw _ _
    ∙ ap
        (λ k.
          put_offset (pos seq) (k + length (record_header seq raw)) (pos (length raw))
            (offsets_of ((n, r) ∷ records) offset seen))
        (omega (arith, length-append (record_text n r) (log_of records)))
