-- ===== src/Ids/Distinct.antt =====
-- Identifiers of one generator (exchangesim/core/ids.py) never repeat.
use mathlib.Core.List.{append_cancel_left}
use exchange_sim.Prelude.{
  ℕ, zero, suc, ◌+◌, ◌-◌, ◌*◌, ◌/◌, ◌%◌, ◌≤◌, ◌<◌, ◌≡◌, ◌≢◌, refl, sym, ap, ◌∙◌, List, [], ◌∷◌,
  ◌++◌, arith, ltb, length, Bool-cases, inl, inr, false, subst,
}
use exchange_sim.Orders.{Result, ok, raised, ◌>>=◌}
use exchange_sim.Ids.{IdGenerator, digits_onto, decimal, zeros, padded, next}

-- The number that a text of digits stands for, after a number that stands before it.
value_of : ℕ → List ℕ → ℕ
value_of acc [] = acc
value_of acc (c ∷ cs) = value_of (acc * 10 + (c - 48)) cs

value-digits_onto :
    (fuel n : ℕ) (acc : List ℕ) → n < fuel → value_of 0 (digits_onto fuel n acc) ≡ value_of n acc
unfolding digits_onto value_of
value-digits_onto zero n acc h = absurd (omega arith)
value-digits_onto (suc fuel) n acc h = elim (Bool-cases (ltb n 10)) [
  | inl small ↦ rw small (ap (λ x. value_of x acc) (omega arith))
  | inr large ↦ rw large (
      value-digits_onto fuel (n / 10) ((n % 10 + 48) ∷ acc) (ground arith)
      ∙ ap (λ x. value_of x acc) (omega arith))
]

value-zeros : (n : ℕ) (text : List ℕ) → value_of 0 (zeros n ++ text) ≡ value_of 0 text
unfolding zeros value_of
value-zeros zero text = refl
value-zeros (suc n) text = value-zeros n text

value-padded : (width n : ℕ) → value_of 0 (padded width n) ≡ n
unfolding padded decimal
value-padded width n =
    value-zeros _ (digits_onto (suc n) n [])
    ∙ (value-digits_onto (suc n) n [] (omega arith) ∙ (unfold value_of in refl))

unfoldable pub identifier : IdGenerator → ℕ → List ℕ
identifier g n = g.prefix ++ g.date ++ padded g.width n

identifier_inj : (g : IdGenerator) (m n : ℕ) → identifier g m ≡ identifier g n → m ≡ n
unfolding identifier
identifier_inj g m n e =
    let same = append_cancel_left (g.prefix ++ g.date) (padded g.width m) (padded g.width n) e in
    sym (value-padded g.width m) ∙ (ap (value_of 0) same ∙ value-padded g.width n)

-- Several identifiers drawn one after the other.
unfoldable pub draws : ℕ → IdGenerator → Result (List (List ℕ))
draws zero g = ok []
draws (suc n) g = next g >>= λ (t, g'). draws n g' >>= λ ts. ok (t ∷ ts)

unfoldable pub Differs : List ℕ → List (List ℕ) → Type 0
Differs t [] = Unit {0}
Differs t (u ∷ us) = (t ≢ u) × Differs t us

unfoldable pub NoRepeats : List (List ℕ) → Type 0
NoRepeats [] = Unit {0}
NoRepeats (t ∷ ts) = Differs t ts × NoRepeats ts

unfoldable pub AllFit : ℕ → List (List ℕ) → Type 0
AllFit k [] = Unit {0}
AllFit k (t ∷ ts) = (length t ≤ k) × AllFit k ts

-- Every text is the identifier of a number from `from` on.
From : IdGenerator → ℕ → List (List ℕ) → Type 0
From g from [] = Unit {0}
From g from (t ∷ ts) = ((n : ℕ) × (from ≤ n) × (t ≡ identifier g n)) × From g from ts

Differs-From :
    (g : IdGenerator) (n m : ℕ) (ts : List (List ℕ))
    → n < m
    → From g m ts
    → Differs (identifier g n) ts
unfolding Differs From
Differs-From g n m [] l all = tt
Differs-From g n m (t ∷ ts) l ((k, le, e), all) = (
  λ same. absurd (omega (arith, identifier_inj g n k (same ∙ e), l, le)),
  Differs-From g n m ts l all,
)

From-suc : (g : IdGenerator) (m : ℕ) (ts : List (List ℕ)) → From g (suc m) ts → From g m ts
unfolding From
From-suc g m [] all = tt
From-suc g m (t ∷ ts) ((k, le, e), all) = ((k, omega (arith, le), e), From-suc g m ts all)

From-counter :
    (g : IdGenerator) (k m : ℕ) (ts : List (List ℕ))
    → From (record g { counter = k }) m ts
    → From g m ts
unfolding From identifier
From-counter g k m [] all = tt
From-counter g k m (t ∷ ts) (here, all) = (here, From-counter g k m ts all)

record Drawn (g : IdGenerator) (ts : List (List ℕ)) : Type 0 where
  all : From g g.counter ts
  distinct : NoRepeats ts
  fit : AllFit g.max_length ts

-- What drawing once more adds to what was drawn after it.
Drawn-cons :
    (g : IdGenerator) (ts : List (List ℕ))
    → ltb g.max_length (length (identifier g g.counter)) ≡ false
    → Drawn (record g { counter = suc g.counter }) ts
    → Drawn g (identifier g g.counter ∷ ts)
unfolding NoRepeats AllFit
Drawn-cons g ts h d =
    let later = From-counter g (suc g.counter) (suc g.counter) ts d.all in
    record {
      all = unfold From in ((g.counter, omega arith, refl), From-suc g g.counter ts later);
      distinct = (Differs-From g g.counter (suc g.counter) ts (omega arith) later, d.distinct);
      fit = (ground (arith, h), d.fit);
    }

-- What was drawn after the first identifier.
draws-cons :
    (n : ℕ) (g : IdGenerator) (t : List ℕ) (ts : List (List ℕ))
    → (draws n g >>= λ us. ok (t ∷ us)) ≡ ok ts
    → (us : List (List ℕ)) × (draws n g ≡ ok us) × (ts ≡ t ∷ us)
draws-cons n g t ts h = from_result (draws n g) refl h
  where
    from_result :
        (m : Result (List (List ℕ)))
        → draws n g ≡ m
        → (m >>= λ us. ok (t ∷ us)) ≡ ok ts
        → (us : List (List ℕ)) × (draws n g ≡ ok us) × (ts ≡ t ∷ us)
    from_result (ok us) e h = (us, e, ground (arith, h))
    from_result (raised x) e h = absurd (cc)

draws-Drawn : (n : ℕ) (g : IdGenerator) (ts : List (List ℕ)) → draws n g ≡ ok ts → Drawn g ts
unfolding draws next identifier From NoRepeats AllFit
draws-Drawn zero g ts h =
    subst (Drawn g) {x = []} (ground (arith, h)) (record { all = tt; distinct = tt; fit = tt })
draws-Drawn (suc n) g ts h =
    elim (Bool-cases (ltb g.max_length (length (identifier g g.counter)))) [
      | inl long ↦ absurd (ground (arith, long, h))
      | inr fits ↦
          let g' = record g { counter = suc g.counter } in
          let (us, rest, e) = draws-cons n g' (identifier g g.counter) ts (simp fits at h) in
          subst (Drawn g) (sym e) (Drawn-cons g us fits (draws-Drawn n g' us rest))
    ]

-- Identifiers that a generator draws one after the other are all different, and none is longer than
-- its maximum.
pub draws_lem :
    (n : ℕ) (g : IdGenerator) (ts : List (List ℕ))
    → draws n g ≡ ok ts
    → NoRepeats ts × AllFit g.max_length ts
draws_lem n g ts h = let d = draws-Drawn n g ts h in (d.distinct, d.fit)
