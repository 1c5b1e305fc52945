-- ===== src/Instrument/Bands.antt =====
-- The price bands of exchangesim/core/instrument.py.
use exchange_sim.Prelude.{
  ◌≡◌, true, false, refl, sym, ap, subst, ◌⊎◌, inl, inr, [], ◌∷◌, arith, if_cases, Bool-cases, IsIn,
}
use exchange_sim.Prelude.Int.{ℤ, pos, ◌≤ℤ◌, ◌<ℤ◌, ◌+ℤ◌, ◌-ℤ◌, le_test, eq_of_eq_test, max_int}
use exchange_sim.Orders.{ok}
use exchange_sim.Instrument.{
  Rows, insert_row, sort_rows, row_after, row_for, BandTable, starts_at_zero, band_table, band_for,
  limits_for,
}

row-cases : (q r : ℤ × ℤ) (rows : Rows ℤ) → IsIn q (r ∷ rows) → (q ≡ r) ⊎ IsIn q rows
unfolding IsIn
row-cases q r rows h = h

-- The row of the greatest lower bound that the price reaches.
pub record IsReached (price : ℤ) (rows : Rows ℤ) (r : ℤ × ℤ) : Type 0 where
  pub row : IsIn r rows
  pub reached : r.0 ≤ℤ price
  pub greatest : (q : ℤ × ℤ) → IsIn q rows → q.0 ≤ℤ price → q.0 ≤ℤ r.0

unfoldable IsSorted : Rows ℤ → Type 0
IsSorted [] = Unit {0}
IsSorted (r ∷ rows) = ((q : ℤ × ℤ) → IsIn q rows → r.0 ≤ℤ q.0) × IsSorted rows

row-insert_row : (r q : ℤ × ℤ) (rows : Rows ℤ) → IsIn q (insert_row r rows) → (q ≡ r) ⊎ IsIn q rows
unfolding insert_row IsIn
row-insert_row r q [] h = h
row-insert_row r q (s ∷ rows) h =
    if_cases (λ l. IsIn q l → (q ≡ r) ⊎ IsIn q (s ∷ rows)) (le_test r.0 s.0) (r ∷ s ∷ rows)
      (s ∷ insert_row r rows) (λ _ here. here)
      (λ _ later. elim later [
        | inl first ↦ inr (inl first)
        | inr deep ↦ elim (row-insert_row r q rows deep) [
          | inl new ↦ inl new
          | inr old ↦ inr (inr old)
        ]
      ])
      h

insert_row-row : (r q : ℤ × ℤ) (rows : Rows ℤ) → (q ≡ r) ⊎ IsIn q rows → IsIn q (insert_row r rows)
unfolding insert_row IsIn
insert_row-row r q [] h = h
insert_row-row r q (s ∷ rows) h =
    if_cases (IsIn q) (le_test r.0 s.0) (r ∷ s ∷ rows) (s ∷ insert_row r rows) (λ _. h)
      (λ _. elim h [
        | inl new ↦ inr (insert_row-row r q rows (inl new))
        | inr here ↦ elim here [
          | inl first ↦ inl first
          | inr deep ↦ inr (insert_row-row r q rows (inr deep))
        ]
      ])

above_both :
    (r s : ℤ × ℤ) (rows : Rows ℤ)
    → le_test r.0 s.0 ≡ true
    → ((q : ℤ × ℤ) → IsIn q rows → s.0 ≤ℤ q.0)
    → (q : ℤ × ℤ) → IsIn q (s ∷ rows)
    → r.0 ≤ℤ q.0
unfolding IsIn
above_both r s rows le above q (inl e) = ground (arith, le, ap (λ x. x.0) e)
above_both r s rows le above q (inr h) = ground (arith, le, above q h)

insert_row-IsSorted : (r : ℤ × ℤ) (rows : Rows ℤ) → IsSorted rows → IsSorted (insert_row r rows)
unfolding insert_row IsSorted
insert_row-IsSorted r [] s = ((λ q h. absurd (unfold IsIn in h)), tt)
insert_row-IsSorted r (s ∷ rows) (above, sorted) =
    if_cases IsSorted (le_test r.0 s.0) (r ∷ s ∷ rows) (s ∷ insert_row r rows)
      (λ le. (above_both r s rows le above, (above, sorted)))
      (λ gt. (
        (λ q h. elim (row-insert_row r q rows h) [
          | inl new ↦ ground (arith, gt, ap (λ x. x.0) new)
          | inr old ↦ above q old
        ]),
        insert_row-IsSorted r rows sorted,
      ))

sort_rows-IsSorted : (rows : Rows ℤ) → IsSorted (sort_rows rows)
unfolding sort_rows IsSorted
sort_rows-IsSorted [] = tt
sort_rows-IsSorted (r ∷ rows) = insert_row-IsSorted r (sort_rows rows) (sort_rows-IsSorted rows)

row-sort_rows : (q : ℤ × ℤ) (rows : Rows ℤ) → IsIn q (sort_rows rows) → IsIn q rows
unfolding sort_rows IsIn
row-sort_rows q [] h = h
row-sort_rows q (r ∷ rows) h = elim (row-insert_row r q (sort_rows rows) h) [
  | inl new ↦ inl new
  | inr old ↦ inr (row-sort_rows q rows old)
]

sort_rows-row : (q : ℤ × ℤ) (rows : Rows ℤ) → IsIn q rows → IsIn q (sort_rows rows)
unfolding sort_rows IsIn
sort_rows-row q [] h = h
sort_rows-row q (r ∷ rows) (inl new) = insert_row-row r q (sort_rows rows) (inl new)
sort_rows-row q (r ∷ rows) (inr old) =
    insert_row-row r q (sort_rows rows) (inr (sort_rows-row q rows old))

IsReached-last :
    (price : ℤ) (r : ℤ × ℤ) (rows : Rows ℤ)
    → ((q : ℤ × ℤ) → IsIn q rows → price <ℤ q.0)
    → r.0 ≤ℤ price
    → IsReached price (r ∷ rows) r
IsReached-last price r rows above le = record {
  row = unfold IsIn in (inl refl);
  reached = le;
  greatest = greatest_of price r rows above;
}
  where
    greatest_of :
        (price : ℤ) (r : ℤ × ℤ) (rows : Rows ℤ)
        → ((q : ℤ × ℤ) → IsIn q rows → price <ℤ q.0)
        → (q : ℤ × ℤ) → IsIn q (r ∷ rows)
        → q.0 ≤ℤ price
        → q.0 ≤ℤ r.0
    greatest_of price r rows above q h le = elim (row-cases q r rows h) [
      | inl e ↦ ground (arith, ap (λ x. x.0) e)
      | inr deep ↦ absurd (omega (arith, above q deep, le))
    ]

IsReached-later :
    (price : ℤ) (r q b : ℤ × ℤ) (rows : Rows ℤ)
    → r.0 ≤ℤ q.0
    → q.0 ≤ℤ price
    → IsReached price (q ∷ rows) b
    → IsReached price (r ∷ q ∷ rows) b
IsReached-later price r q b rows le le' h = record {
  row = unfold IsIn in (inr h.row);
  reached = h.reached;
  greatest = λ c row reach. elim (row-cases c r (q ∷ rows) row) [
    | inl e ↦ ground (arith, ap (λ x. x.0) e, h.greatest q (unfold IsIn in (inl refl)) le', le)
    | inr deep ↦ h.greatest c deep reach
  ];
}

beyond :
    (price : ℤ) (q : ℤ × ℤ) (rows : Rows ℤ)
    → le_test q.0 price ≡ false
    → ((s : ℤ × ℤ) → IsIn s rows → q.0 ≤ℤ s.0)
    → (s : ℤ × ℤ) → IsIn s (q ∷ rows)
    → price <ℤ s.0
unfolding IsIn
beyond price q rows gt above s (inl e) = ground (arith, gt, ap (λ x. x.0) e)
beyond price q rows gt above s (inr h) = ground (arith, gt, above s h)

row_after-IsReached :
    (price : ℤ) (r : ℤ × ℤ) (rows : Rows ℤ)
    → IsSorted (r ∷ rows)
    → r.0 ≤ℤ price
    → (b : ℤ) × IsReached price (r ∷ rows) (b, row_after price r.1 rows)
unfolding row_after IsSorted
row_after-IsReached price r [] s h =
    (r.0, IsReached-last price r [] (λ q row. absurd (unfold IsIn in row)) h)
row_after-IsReached price r (q ∷ rows) (above, sorted) h =
    if_cases (λ x. (b : ℤ) × IsReached price (r ∷ q ∷ rows) (b, x)) (le_test q.0 price)
      (row_after price q.1 rows) r.1
      (λ le.
        let (b, found) = row_after-IsReached price q rows sorted (ground (arith, le)) in
        (
          b,
          IsReached-later price r q (b, row_after price q.1 rows) rows
              (above q (unfold IsIn in (inl refl))) (ground (arith, le)) found,
        ))
      (λ gt. (r.0, IsReached-last price r (q ∷ rows) (beyond price q rows gt sorted.0) h))

-- The row found in a table whose first bound is 0, for a price that is not below 0.
row_for-IsReached :
    (rows : Rows ℤ) (base : ℤ)
    → IsSorted rows
    → starts_at_zero rows ≡ true
    → pos 0 ≤ℤ base
    → (b : ℤ) × IsReached base rows (b, band_for (record { rows = rows }) base)
unfolding band_for row_for
row_for-IsReached [] base s starts le = absurd (cc)
row_for-IsReached (r ∷ rows) base s starts le =
    row_after-IsReached base r rows s
      (subst (λ b. b ≤ℤ base) (sym (eq_of_eq_test r.0 (pos 0) starts)) le)

-- A table that is accepted takes its rows in any order. For a base price that is not negative, the band is that of the
-- row with the greatest lower bound that the price reaches, and the limits lie the band below and
-- above the price, the lower one at least at one unit.
pub limits_for_lem :
    (rows : Rows ℤ) (t : BandTable) (base : ℤ)
    → band_table rows ≡ ok t
    → pos 0 ≤ℤ base
    → (b band : ℤ) × IsReached base rows (b, band)
      × (limits_for t base ≡ (max_int (pos 1) (base -ℤ band), base +ℤ band))
unfolding band_table limits_for
limits_for_lem rows t base h le = elim (Bool-cases (starts_at_zero (sort_rows rows))) [
  | inr other ↦ absurd (ground (arith, other))
  | inl starts ↦
      let (b, found) =
        row_for-IsReached (sort_rows rows) base (sort_rows-IsSorted rows) starts le in
      (
        b,
        band_for (record { rows = sort_rows rows }) base,
        record {
          row = row-sort_rows _ rows found.row;
          reached = found.reached;
          greatest = λ q row reach. found.greatest q (sort_rows-row q rows row) reach;
        },
        ap (λ x. (max_int (pos 1) (base -ℤ band_for x base), base +ℤ band_for x base))
            (ground arith),
      )
]
