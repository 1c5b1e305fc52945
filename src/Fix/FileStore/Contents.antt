-- ===== src/Fix/FileStore/Contents.antt =====
-- What the offsets of exchangesim/fix/store.py lead to, against the messages of the store in memory.
use exchange_sim.Prelude.{
  ℕ, zero, suc, ◌+◌, ◌≤◌, ◌≡◌, refl, ap, ◌∙◌, List, [], ◌∷◌, ◌++◌, ◌&&◌, Bool-cases, ◌==◌, ltb,
  length, length-append, inl, inr, arith,
}
use exchange_sim.Prelude.Int.{ℤ, pos, negsuc, lt_test, le_test, eq_test}
use exchange_sim.Bytes.{take, drop, take_longer, drop_longer, length-drop}
use exchange_sim.Fix.Store.{MemoryStore, Messages, put_message, between, last_seq, new_store}
use exchange_sim.Fix.Store
use exchange_sim.Fix.FileStore.{
  Offsets, put_offset, read, read_all, offsets_between, last_offset, upper_end,
}

-- Each offset leads to the message of its number.
unfoldable pub Matches : List ℕ → Offsets → Messages → Type 0
Matches text [] [] = Unit {0}
Matches text [] (m ∷ ms) = ⊥
Matches text ((k, o, l) ∷ os) [] = ⊥
Matches text ((negsuc k, o, l) ∷ os) ((n, raw) ∷ ms) = ⊥
Matches text ((pos k, o, l) ∷ os) ((n, raw) ∷ ms) =
    (k ≡ n)
    × (l ≡ pos (length raw))
    × (o + length raw ≤ length text)
    × (take (length raw) (drop o text) ≡ raw)
    × Matches text os ms

pub Matches-longer :
    (text more : List ℕ) (os : Offsets) (ms : Messages)
    → Matches text os ms
    → Matches (text ++ more) os ms
unfolding Matches
Matches-longer text more [] [] h = tt
Matches-longer text more [] (m ∷ ms) h = absurd h
Matches-longer text more ((k, o, l) ∷ os) [] h = absurd h
Matches-longer text more ((negsuc k, o, l) ∷ os) ((n, raw) ∷ ms) h = absurd h
Matches-longer text more ((pos k, o, l) ∷ os) ((n, raw) ∷ ms) (e, f, g, r, h) = (
  e,
  f,
  omega (arith, g, length-append text more),
  rw (drop_longer o text more (omega (arith, g)))
      (rw (take_longer (length raw) (drop o text) more (omega (arith, g, length-drop o text))) r),
  Matches-longer text more os ms h,
)

-- A message is where it was put.
pub record IsAt (text raw : List ℕ) (offset : ℕ) : Type 0 where
  pub fits : offset + length raw ≤ length text
  pub reads : take (length raw) (drop offset text) ≡ raw

eq_pos : (n k m : ℕ) → k ≡ m → eq_test (pos n) (pos k) ≡ (n == m)
eq_pos n k m e = ground (arith, e)

lt_pos : (n k m : ℕ) → k ≡ m → lt_test (pos n) (pos k) ≡ ltb n m
lt_pos n k m e = ground (arith, e)

pub Matches-put :
    (text raw : List ℕ) (n o : ℕ) (os : Offsets) (ms : Messages)
    → IsAt text raw o
    → Matches text os ms
    → Matches text (put_offset (pos n) o (pos (length raw)) os) (put_message n raw ms)
unfolding Matches put_message put_offset
Matches-put text raw n o [] [] a h = (refl, refl, a.fits, a.reads, tt)
Matches-put text raw n o [] (m ∷ ms) a h = absurd h
Matches-put text raw n o ((k, p, l) ∷ os) [] a h = absurd h
Matches-put text raw n o ((negsuc k, p, l) ∷ os) ((m, r) ∷ ms) a h = absurd h
Matches-put text raw n o ((pos k, p, l) ∷ os) ((m, r) ∷ ms) a (e, f, g, q, h) =
    let equal = eq_pos n k m e in
    let less = lt_pos n k m e in
    elim (Bool-cases (n == m)) [
      | inl same ↦ rw (equal ∙ same) (rw same (refl, refl, a.fits, a.reads, h))
      | inr other ↦ rw (equal ∙ other) (
          rw other (elim (Bool-cases (ltb n m)) [
            | inl before ↦
                rw (less ∙ before) (rw before (refl, refl, a.fits, a.reads, (e, f, g, q, h)))
            | inr after ↦
                rw (less ∙ after) (rw after (e, f, g, q, Matches-put text raw n o os ms a h))
          ]))
    ]

-- The messages of the store in memory, under integers.
unfoldable pub keyed : Messages → List (ℤ × List ℕ)
keyed [] = []
keyed ((n, raw) ∷ ms) = (pos n, raw) ∷ keyed ms

Matches-between :
    (text : List ℕ) (begin upper : ℤ) (os : Offsets) (ms : Messages)
    → Matches text os ms
    → read_all text (offsets_between begin upper os) ≡ keyed (between begin upper ms)
unfolding Matches offsets_between between read_all keyed
Matches-between text begin upper [] [] h = refl
Matches-between text begin upper [] (m ∷ ms) h = absurd h
Matches-between text begin upper ((k, o, l) ∷ os) [] h = absurd h
Matches-between text begin upper ((negsuc k, o, l) ∷ os) ((n, raw) ∷ ms) h = absurd h
Matches-between text begin upper ((pos k, o, l) ∷ os) ((n, raw) ∷ ms) (e, f, g, q, h) =
    let later = Matches-between text begin upper os ms h in
    let content : read l (drop o text) ≡ raw =
      ap (λ x. read x (drop o text)) f ∙ (unfold read in q) in
    let same : (le_test begin (pos k) && le_test (pos k) upper)
        ≡ (le_test begin (pos n) && le_test (pos n) upper) =
      ap (λ i. le_test begin (pos i) && le_test (pos i) upper) e in
    elim (Bool-cases (le_test begin (pos n) && le_test (pos n) upper)) [
      | inl within ↦ rw (same ∙ within) (rw within (rw later (rw content (rw e refl))))
      | inr outside ↦ rw (same ∙ outside) (rw outside later)
    ]

no_messages : (text : List ℕ) (p : ℤ × ℕ × ℤ) (os : Offsets) → Matches text (p ∷ os) [] → ⊥
unfolding Matches
no_messages text (k, o, l) os h = h

Matches-last :
    (text : List ℕ) (end : ℤ) (os : Offsets) (ms : Messages)
    → Matches text os ms
    → last_offset end os ≡ last_seq end ms
unfolding Matches last_offset last_seq
Matches-last text end [] [] h = refl
Matches-last text end [] (m ∷ ms) h = absurd h
Matches-last text end ((k, o, l) ∷ os) [] h = absurd h
Matches-last text end ((negsuc k, o, l) ∷ os) ((n, raw) ∷ ms) h = absurd h
Matches-last text end ((pos k, o, l) ∷ []) ((n, raw) ∷ []) (e, f, g, q, h) = ap pos e
Matches-last text end ((pos k, o, l) ∷ []) ((n, raw) ∷ m ∷ ms) (e, f, g, q, h) = absurd h
Matches-last text end ((pos k, o, l) ∷ p ∷ os) ((n, raw) ∷ []) (e, f, g, q, h) =
    absurd (no_messages text p os h)
Matches-last text end ((pos k, o, l) ∷ p ∷ os) ((n, raw) ∷ m ∷ ms) (e, f, g, q, h) =
    Matches-last text end (p ∷ os) (m ∷ ms) h

pub Matches-upper :
    (text : List ℕ) (begin end : ℤ) (os : Offsets) (s : MemoryStore)
    → Matches text os s.messages
    → read_all text (offsets_between begin (upper_end end os) os)
      ≡ keyed (Store.get_outbound begin end s)
unfolding upper_end Store.get_outbound
Matches-upper text begin (pos zero) os s h =
    rw (Matches-last text (pos 0) os s.messages h)
      (Matches-between text begin (last_seq (pos 0) s.messages) os s.messages h)
Matches-upper text begin (pos (suc n)) os s h =
    Matches-between text begin (pos (suc n)) os s.messages h
Matches-upper text begin (negsuc n) os s h = Matches-between text begin (negsuc n) os s.messages h
