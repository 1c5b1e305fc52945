-- ===== src/Binary/Frame/RoundTrip.antt =====
-- A frame of exchangesim/binary/message.py is taken off a stream and read back.
use mathlib.Core.List.{append_assoc}
use exchange_sim.Prelude.{
  ℕ, ◌+◌, ◌-◌, ◌^◌, ◌≤◌, ◌<◌, ◌≡◌, refl, sym, ap, ◌∙◌, List, ◌++◌, true, false, ◌||◌, some, ◌==◌,
  ltb, length, length-append, Bool-cases, inl, inr, arith,
}
use exchange_sim.Bytes.{slice}
use exchange_sim.Bytes.Search.{take_at, drop_at, slice_at}
use exchange_sim.Fix.Message.{parsed}
use exchange_sim.Binary.{le_bytes, le_value, pack_fixed, terminated, crc32c}
use exchange_sim.Binary.Frame.{
  Header, body_offset, min_message_bytes, starts_frame, extract_sized, extract_frame, truth,
  has_checksum, unpack_header, frame_of, with_checksum, pack_frame, body_of,
}
use exchange_sim.Binary.Frame.Fields.{
  Fits, extract_frame-numbers, frame_of-numbers, header-numbers, le_value-word, length-frame_of,
  length-le_bytes, length-pack_fixed, numbers, numbers-size, terminated-pack_fixed,
}

-- What a frame that was packed is made of.
record Packed (h : Header) (presence body raw : List ℕ) : Type 0 where
  short : body_offset + length body + 4 < 2 ^ 16
  kind : h.kind < 256
  seq : h.seq_num < 2 ^ 32
  crc : crc32c (frame_of h presence body) < 2 ^ 32
  bytes : raw ≡ frame_of h presence body ++ le_bytes 4 (crc32c (frame_of h presence body))

with_checksum-some :
    (frame raw : List ℕ) (crc : ℕ)
    → with_checksum frame crc ≡ some raw
    → (crc < 2 ^ 32) × (raw ≡ frame ++ le_bytes 4 crc)
unfolding with_checksum
with_checksum-some frame raw crc e = elim (Bool-cases (ltb (2 ^ 32 - 1) crc)) [
  | inl over ↦ absurd (ground (arith, over, e))
  | inr fits ↦ (ground (arith, fits), ground (arith, fits, e))
]

pack_frame-Packed :
    (h : Header) (presence body raw : List ℕ)
    → pack_frame h presence body ≡ some raw
    → Packed h presence body raw
unfolding pack_frame
pack_frame-Packed h presence body raw e =
    elim (Bool-cases (
      ltb (2 ^ 16 - 1) (body_offset + length body + 4)
      || ltb 255 h.kind
      || ltb (2 ^ 32 - 1) h.seq_num)) [
        | inl over ↦ absurd (ground (arith, over, e))
        | inr fits ↦
            let (c, bytes) =
              with_checksum-some (frame_of h presence body) raw (crc32c (frame_of h presence body))
                (simp fits at e) in
            record {
              short = ground (arith, fits);
              kind = ground (arith, fits);
              seq = ground (arith, fits);
              crc = c;
              bytes = bytes;
            }
      ]

extract_sized-whole :
    (raw rest : List ℕ) (size : ℕ)
    → size ≡ length raw
    → min_message_bytes ≤ size
    → extract_sized (raw ++ rest) size ≡ parsed (raw, rest)
unfolding extract_sized
extract_sized-whole raw rest size e l =
    rw (take_at size raw rest e)
      (rw (drop_at size raw rest e) (ground (arith, e, l, length-append raw rest)))

-- The checksum of a frame with its checksum behind it.
has_checksum-frame :
    (frame : List ℕ)
    → crc32c frame < 2 ^ 32
    → has_checksum (frame ++ le_bytes 4 (crc32c frame)) ≡ true
unfolding has_checksum
has_checksum-frame frame l =
    let crc = crc32c frame in
    let size : length (frame ++ le_bytes 4 crc) - 4 ≡ length frame =
      omega (arith, length-append frame (le_bytes 4 crc), length-le_bytes 4 crc) in
    rw (drop_at _ frame (le_bytes 4 crc) size)
      (rw (take_at _ frame (le_bytes 4 crc) size) (rw (le_value-word crc l) (ground arith)))

-- The parts of a packed message.
record Parts (h : Header) (presence body raw : List ℕ) : Type 0 where
  size : length raw ≡ body_offset + length body + 4
  more : List ℕ
  front : raw ≡ numbers h (body_offset + length body + 4) ++ more
  comp_id : slice 10 22 raw ≡ pack_fixed 12 h.comp_id
  content : body_of raw ≡ presence ++ body
  summed : has_checksum raw ≡ true

body_of-inner :
    (raw front inner check : List ℕ)
    → raw ≡ front ++ inner ++ check
    → length front ≡ 22
    → length check ≡ 4
    → body_of raw ≡ inner
unfolding body_of
body_of-inner raw front inner check e l k =
    ap (λ t. slice 22 (length t - 4) t) e
    ∙ slice_at 22 _ front inner check (sym l)
        (omega (arith, length-append (front ++ inner) check, length-append front inner, l, k))

Packed-Parts :
    (h : Header) (presence body raw : List ℕ)
    → Fits h presence body
    → Packed h presence body raw
    → Parts h presence body raw
Packed-Parts h presence body raw f p =
    let frame = frame_of h presence body in
    let check = le_bytes 4 (crc32c frame) in
    let id = pack_fixed 12 h.comp_id in
    let first = numbers h (body_offset + length body + 4) in
    let ten : length first ≡ 10 = unfold numbers in refl in
    let size : length raw ≡ body_offset + length body + 4 =
      ap length p.bytes
      ∙ omega (
        arith,
        length-append frame check,
        length-le_bytes 4 (crc32c frame),
        length-frame_of h presence body f,
      ) in
    let whole : raw ≡ first ++ (id ++ (presence ++ body)) ++ check =
      p.bytes ∙ ap (λ t. t ++ check) (frame_of-numbers h presence body) in
    let grouped : raw ≡ first ++ id ++ (presence ++ body ++ check) =
      whole ∙ simp append_assoc refl in
    let inner : raw ≡ (first ++ id) ++ (presence ++ body) ++ check =
      whole ∙ simp append_assoc refl in
    record {
      size = size;
      more = (id ++ (presence ++ body)) ++ check;
      front = whole ∙ append_assoc first (id ++ (presence ++ body)) check;
      comp_id =
          ap (slice 10 22) grouped
          ∙ slice_at 10 22 first id (presence ++ body ++ check) (sym ten)
              (omega (arith, length-pack_fixed 12 h.comp_id f.comp_id_short));
      content =
          body_of-inner raw (first ++ id) (presence ++ body) check inner
            (omega
              (arith, ten, length-append first id, length-pack_fixed 12 h.comp_id f.comp_id_short))
            (length-le_bytes 4 (crc32c frame));
      summed = ap has_checksum p.bytes ∙ has_checksum-frame frame p.crc;
    }

same-size : {a b c : ℕ} → a ≡ c → b ≡ c → (a == b) ≡ true
same-size e f = ground (arith, e, f)

unpack_header-Parts :
    (h : Header) (presence body raw : List ℕ)
    → Fits h presence body
    → Packed h presence body raw
    → Parts h presence body raw
    → unpack_header true raw ≡ parsed h
unfolding unpack_header
unpack_header-Parts h presence body raw f p q =
    let size = body_offset + length body + 4 in
    let (kind, seq, dup, again) = header-numbers h size q.more p.kind p.seq in
    let long : ltb (length raw) min_message_bytes ≡ false = ground (arith, q.size) in
    let starts : starts_frame raw ≡ true =
      ap starts_frame q.front ∙ (unfold starts_frame numbers in refl) in
    let same : (le_value (slice 1 3 raw) == length raw) ≡ true =
      ap (λ t. le_value (slice 1 3 t) == length raw) q.front
      ∙ same-size (numbers-size h size q.more p.short) q.size in
    let e1 : le_value (slice 3 4 raw) ≡ h.kind = ap (λ t. le_value (slice 3 4 t)) q.front ∙ kind in
    let e2 : le_value (slice 4 8 raw) ≡ h.seq_num =
      ap (λ t. le_value (slice 4 8 t)) q.front ∙ seq in
    let e3 : truth (le_value (slice 8 9 raw)) ≡ h.poss_dup =
      ap (λ t. truth (le_value (slice 8 9 t))) q.front ∙ dup in
    let e4 : truth (le_value (slice 9 10 raw)) ≡ h.poss_resend =
      ap (λ t. truth (le_value (slice 9 10 t))) q.front ∙ again in
    let e5 : terminated (slice 10 22 raw) ≡ h.comp_id =
      ap terminated q.comp_id ∙ terminated-pack_fixed 12 h.comp_id f.comp_id_short f.comp_id_text in
    rw long (
      rw starts (
        rw same (
          rw q.summed (λ i. parsed (record {
            kind = e1 i;
            seq_num = e2 i;
            poss_dup = e3 i;
            poss_resend = e4 i;
            comp_id = e5 i;
          })))))

-- A message that is packed is taken off the front of a stream whole, with what comes behind it left,
-- its header reads back with the checksum validated, and so do its presence map and its body: for a
-- CompID of at most eleven characters without a terminator and a presence map of 32 bytes.
pub pack_frame-unpack_header :
    (h : Header) (presence body raw rest : List ℕ)
    → Fits h presence body
    → pack_frame h presence body ≡ some raw
    → (extract_frame (raw ++ rest) ≡ parsed (raw, rest))
      × (unpack_header true raw ≡ parsed h)
      × (body_of raw ≡ presence ++ body)
pack_frame-unpack_header h presence body raw rest f e =
    let p = pack_frame-Packed h presence body raw e in
    let q = Packed-Parts h presence body raw f p in
    let size = body_offset + length body + 4 in
    let taken : extract_frame (raw ++ rest) ≡ extract_sized (raw ++ rest) size =
      ap (λ t. extract_frame (t ++ rest)) q.front
      ∙ ap extract_frame (append_assoc (numbers h size) q.more rest)
      ∙ extract_frame-numbers h size (q.more ++ rest) p.short
      ∙ ap (λ t. extract_sized t size) (sym (append_assoc (numbers h size) q.more rest))
      ∙ ap (λ t. extract_sized (t ++ rest) size) (sym q.front) in
    (
      taken ∙ extract_sized-whole raw rest size (sym q.size) (omega arith),
      unpack_header-Parts h presence body raw f p q,
      q.content,
    )
