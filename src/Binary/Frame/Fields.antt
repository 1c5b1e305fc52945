-- ===== src/Binary/Frame/Fields.antt =====
-- The fields of a frame of exchangesim/binary/message.py, read back one by one.
use mathlib.Core.List.{append_assoc}
use exchange_sim.Prelude.{
  ℕ, zero, suc, ◌+◌, ◌-◌, ◌/◌, ◌%◌, ◌^◌, ◌≤◌, ◌<◌, ◌≡◌, refl, sym, ap, ◌∙◌, List, [], ◌∷◌, ◌++◌,
  Bool, true, false, length, length-append, elem, arith,
}
use exchange_sim.Bytes.{take, slice, find, take-length}
use exchange_sim.Bytes.Search.{find_first}
use exchange_sim.Binary.{le_bytes, le_value, pack_fixed, nuls, terminated, until_nul}
use exchange_sim.Binary.Frame.{
  Header, body_offset, extract_sized, extract_frame, truth, flag, frame_of,
}

le_value-byte : (n : ℕ) → n < 256 → le_value (le_bytes 1 n) ≡ n
unfolding le_value le_bytes
le_value-byte n l = omega (arith, l)

le_value-short : (n : ℕ) → n < 2 ^ 16 → le_value (le_bytes 2 n) ≡ n
unfolding le_value le_bytes
le_value-short n l = omega (arith, l)

pub le_value-word : (n : ℕ) → n < 2 ^ 32 → le_value (le_bytes 4 n) ≡ n
unfolding le_value le_bytes
le_value-word n l = omega (arith, l)

length-nuls : (n : ℕ) → length (nuls n) ≡ n
unfolding nuls
length-nuls zero = refl
length-nuls (suc n) = omega (arith, length-nuls n)

take_all : (n : ℕ) (xs : List ℕ) → length xs ≤ n → take n xs ≡ xs
take_all zero [] l = refl
take_all zero (x ∷ xs) l = absurd (omega (arith, l))
take_all (suc n) [] l = refl
take_all (suc n) (x ∷ xs) l = rw (take_all n xs (omega (arith, l))) refl

nul_found :
    (text : List ℕ) (k : ℕ)
    → elem 0 text ≡ false
    → until_nul (find (0 ∷ []) (text ++ nuls (suc k))) (text ++ nuls (suc k)) ≡ text
unfolding nuls until_nul
nul_found text k f =
    let found =
      ap (find (0 ∷ [])) (sym (append_assoc text (0 ∷ []) (nuls k)))
      ∙ find_first 0 [] text (nuls k) f in
    rw found (take-length text (0 ∷ nuls k))

-- A text that leaves room for its terminator.
pub terminated-pack_fixed :
    (width : ℕ) (text : List ℕ)
    → length text < width
    → elem 0 text ≡ false
    → terminated (pack_fixed width text) ≡ text
unfolding terminated pack_fixed until_nul
terminated-pack_fixed width text l f =
    rw (take_all (width - 1) text (omega (arith, l)))
      (padded-text (width - length text) (omega (arith, l)))
  where
    padded-text :
        (k : ℕ) → 0 < k → until_nul (find (0 ∷ []) (text ++ nuls k)) (text ++ nuls k) ≡ text
    padded-text zero p = absurd (omega (arith, p))
    padded-text (suc k) p = nul_found text k f

pub length-pack_fixed :
    (width : ℕ) (text : List ℕ) → length text < width → length (pack_fixed width text) ≡ width
unfolding pack_fixed
length-pack_fixed width text l = rw (take_all (width - 1) text (omega (arith, l))) (
    omega (
      arith,
      length-append text (nuls (width - length text)),
      length-nuls (width - length text),
      l,
    ))

pub length-le_bytes : (width n : ℕ) → length (le_bytes width n) ≡ width
unfolding le_bytes
length-le_bytes zero n = refl
length-le_bytes (suc width) n = omega (arith, length-le_bytes width (n / 256))

-- What the frame is made of behind its first ten bytes.
abbrev after_numbers : Header → List ℕ → List ℕ → List ℕ
after_numbers h presence body = pack_fixed 12 h.comp_id ++ presence ++ body

-- A header whose fields fit, with a whole presence map.
pub record Fits (h : Header) (presence body : List ℕ) : Type 0 where
  pub comp_id_short : length h.comp_id < 12
  pub comp_id_text : elem 0 h.comp_id ≡ false
  pub presence_whole : length presence ≡ 32

-- The numbers in front, byte by byte.
unfoldable pub numbers : Header → ℕ → List ℕ
numbers h size =
    2
    ∷ size % 256
    ∷ size / 256 % 256
    ∷ h.kind % 256
    ∷ h.seq_num % 256
    ∷ h.seq_num / 256 % 256
    ∷ h.seq_num / 256 / 256 % 256
    ∷ h.seq_num / 256 / 256 / 256 % 256
    ∷ flag h.poss_dup
    ∷ flag h.poss_resend
    ∷ []

pub frame_of-numbers :
    (h : Header) (presence body : List ℕ)
    → frame_of h presence body
      ≡ numbers h (body_offset + length body + 4) ++ (pack_fixed 12 h.comp_id ++ (presence ++ body))
unfolding frame_of numbers le_bytes
frame_of-numbers h presence body = simp append_assoc refl

pub length-frame_of :
    (h : Header) (presence body : List ℕ)
    → Fits h presence body
    → length (frame_of h presence body) ≡ body_offset + length body
length-frame_of h presence body f =
    ap length (frame_of-numbers h presence body)
    ∙ (unfold numbers in
        omega (
          arith,
          length-append (pack_fixed 12 h.comp_id) (presence ++ body),
          length-append presence body,
          length-pack_fixed 12 h.comp_id f.comp_id_short,
          f.presence_whole,
        ))

truth-flag : (b : Bool) → truth (le_value (flag b ∷ [])) ≡ b
unfolding truth flag le_value
truth-flag true = refl
truth-flag false = refl

-- The length field of the numbers in front, and what is behind it.
pub numbers-size :
    (h : Header) (size : ℕ) (more : List ℕ)
    → size < 2 ^ 16
    → le_value (slice 1 3 (numbers h size ++ more)) ≡ size
unfolding numbers slice le_value
numbers-size h size more l = omega (arith, l)

extract_frame-start :
    (h : Header) (size : ℕ) (more : List ℕ)
    → extract_frame (numbers h size ++ more)
      ≡ extract_sized (numbers h size ++ more) (le_value (slice 1 3 (numbers h size ++ more)))
unfolding numbers extract_frame
extract_frame-start h size more = ground arith

pub extract_frame-numbers :
    (h : Header) (size : ℕ) (more : List ℕ)
    → size < 2 ^ 16
    → extract_frame (numbers h size ++ more) ≡ extract_sized (numbers h size ++ more) size
extract_frame-numbers h size more l =
    extract_frame-start h size more
    ∙ ap (extract_sized (numbers h size ++ more)) (numbers-size h size more l)

-- What the numbers of a header read back as.
pub header-numbers :
    (h : Header) (size : ℕ) (more : List ℕ)
    → h.kind < 256
    → h.seq_num < 2 ^ 32
    → (le_value (slice 3 4 (numbers h size ++ more)) ≡ h.kind)
      × (le_value (slice 4 8 (numbers h size ++ more)) ≡ h.seq_num)
      × (truth (le_value (slice 8 9 (numbers h size ++ more))) ≡ h.poss_dup)
      × (truth (le_value (slice 9 10 (numbers h size ++ more))) ≡ h.poss_resend)
unfolding numbers slice
header-numbers h size more k l = (
  (unfold le_value in omega (arith, k)),
  (unfold le_value in omega (arith, l)),
  truth-flag h.poss_dup,
  truth-flag h.poss_resend,
)
