-- ===== src/Bytes/Numbers.antt =====
-- The decimal text of a number reads back as the number.
use exchange_sim.Prelude.{
  ℕ, zero, suc, ◌+◌, ◌-◌, ◌*◌, ◌/◌, ◌%◌, ◌≤◌, ◌<◌, ◌≡◌, ◌≢◌, refl, ap, ◌∙◌, List, [], ◌∷◌, ◌++◌,
  Bool, true, false, some, ltb, length, elem, arith, Bool-cases, inl, inr,
}
use exchange_sim.Prelude.Int.{pos}
use exchange_sim.Bytes.{digits_from, is_digit, is_space, parse_int}
use exchange_sim.Ids.{digits_onto, decimal, zeros, padded}

digits_from_digit :
    (after : Bool) (n d : ℕ) (cs : List ℕ)
    → d < 10
    → digits_from after n ((d + 48) ∷ cs) ≡ digits_from true (n * 10 + d) cs
unfolding digits_from is_digit
digits_from_digit after n d cs l = ground (arith, l)

digits_from-digits_onto :
    (fuel n : ℕ) (after : Bool) (acc : List ℕ)
    → n < fuel
    → digits_from after 0 (digits_onto fuel n acc) ≡ digits_from true n acc
unfolding digits_onto
digits_from-digits_onto zero n after acc h = absurd (omega arith)
digits_from-digits_onto (suc fuel) n after acc h = elim (Bool-cases (ltb n 10)) [
  | inl small ↦ rw small (
      digits_from_digit after 0 n acc (ground (arith, small))
      ∙ ap (λ x. digits_from true x acc) (omega arith))
  | inr large ↦ rw large (
      digits_from-digits_onto fuel (n / 10) after ((n % 10 + 48) ∷ acc) (ground arith)
      ∙ digits_from_digit true (n / 10) (n % 10) acc (omega arith)
      ∙ ap (λ x. digits_from true x acc) (omega arith))
]

unfoldable pub AllDigits : List ℕ → Type 0
AllDigits [] = Unit {0}
AllDigits (c ∷ cs) = (is_digit c ≡ true) × AllDigits cs

digits_onto-AllDigits :
    (fuel n : ℕ) (acc : List ℕ) → AllDigits acc → AllDigits (digits_onto fuel n acc)
unfolding digits_onto AllDigits is_digit
digits_onto-AllDigits zero n acc all = all
digits_onto-AllDigits (suc fuel) n acc all = elim (Bool-cases (ltb n 10)) [
  | inl small ↦ rw small (ground (arith, small), all)
  | inr large ↦
      rw large (digits_onto-AllDigits fuel (n / 10) ((n % 10 + 48) ∷ acc) (ground arith, all))
]

parse_int_digits :
    (cs : List ℕ) (n : ℕ)
    → AllDigits cs
    → digits_from false 0 cs ≡ some n
    → parse_int cs ≡ some (pos n)
unfolding AllDigits parse_int is_digit is_space
parse_int_digits [] n all h = absurd (unfold digits_from in cc)
parse_int_digits (c ∷ cs) n all h = ground (arith, all, h)

zeros-AllDigits : (n : ℕ) (text : List ℕ) → AllDigits text → AllDigits (zeros n ++ text)
unfolding zeros AllDigits is_digit
zeros-AllDigits zero text all = all
zeros-AllDigits (suc n) text all = (refl, zeros-AllDigits n text all)

pub decimal-AllDigits : (n : ℕ) → AllDigits (decimal n)
unfolding decimal
decimal-AllDigits n = digits_onto-AllDigits (suc n) n [] (unfold AllDigits in tt)

pub padded-AllDigits : (width n : ℕ) → AllDigits (padded width n)
unfolding padded
padded-AllDigits width n =
    zeros-AllDigits (width - length (decimal n)) (decimal n) (decimal-AllDigits n)

digits_from-decimal : (after : Bool) (n : ℕ) → digits_from after 0 (decimal n) ≡ some n
unfolding decimal
digits_from-decimal after n =
    digits_from-digits_onto (suc n) n after [] (omega arith) ∙ (unfold digits_from in refl)

digits_from-zeros : (k n : ℕ) (after : Bool) → digits_from after 0 (zeros k ++ decimal n) ≡ some n
unfolding zeros
digits_from-zeros zero n after = digits_from-decimal after n
digits_from-zeros (suc k) n after =
    digits_from_digit after 0 0 (zeros k ++ decimal n) (omega arith) ∙ digits_from-zeros k n true

pub parse_int-decimal : (n : ℕ) → parse_int (decimal n) ≡ some (pos n)
parse_int-decimal n =
    parse_int_digits (decimal n) n (decimal-AllDigits n) (digits_from-decimal false n)

pub parse_int-padded : (width n : ℕ) → parse_int (padded width n) ≡ some (pos n)
parse_int-padded width n =
    parse_int_digits (padded width n) n (padded-AllDigits width n)
      (unfold padded in digits_from-zeros (width - length (decimal n)) n false)

-- Digits are neither the end of a field nor the sign between its tag and its value.
pub AllDigits-free : (c : ℕ) (cs : List ℕ) → is_digit c ≡ false → AllDigits cs → elem c cs ≡ false
unfolding AllDigits elem is_digit
AllDigits-free c [] n all = refl
AllDigits-free c (d ∷ cs) n (here, all) = ground (arith, n, here, AllDigits-free c cs n all)

length-zeros : (n : ℕ) (text : List ℕ) → length (zeros n ++ text) ≡ n + length text
unfolding zeros
length-zeros zero text = omega arith
length-zeros (suc n) text = omega (arith, length-zeros n text)

length-digits_onto-1 :
    (fuel n : ℕ) (acc : List ℕ) → n < 10 → length (digits_onto fuel n acc) ≤ 1 + length acc
unfolding digits_onto
length-digits_onto-1 zero n acc l = omega arith
length-digits_onto-1 (suc fuel) n acc l = ground (arith, l)

length-digits_onto-2 :
    (fuel n : ℕ) (acc : List ℕ) → n < 100 → length (digits_onto fuel n acc) ≤ 2 + length acc
unfolding digits_onto
length-digits_onto-2 zero n acc l = omega arith
length-digits_onto-2 (suc fuel) n acc l =
    ground (arith, l, length-digits_onto-1 fuel (n / 10) ((n % 10 + 48) ∷ acc) (omega (arith, l)))

length-digits_onto-3 :
    (fuel n : ℕ) (acc : List ℕ) → n < 1000 → length (digits_onto fuel n acc) ≤ 3 + length acc
unfolding digits_onto
length-digits_onto-3 zero n acc l = omega arith
length-digits_onto-3 (suc fuel) n acc l =
    ground (arith, l, length-digits_onto-2 fuel (n / 10) ((n % 10 + 48) ∷ acc) (omega (arith, l)))

length-decimal-byte : (n : ℕ) → n < 256 → length (decimal n) ≤ 3
unfolding decimal
length-decimal-byte n l = omega (arith, length-digits_onto-3 (suc n) n [] (omega (arith, l)))

pub length-padded-byte : (n : ℕ) → n < 256 → length (padded 3 n) ≡ 3
unfolding padded
length-padded-byte n l =
    omega (arith, length-zeros (3 - length (decimal n)) (decimal n), length-decimal-byte n l)

digits_onto-ne-nil : (fuel n : ℕ) (d : ℕ) (acc : List ℕ) → digits_onto fuel n (d ∷ acc) ≢ []
unfolding digits_onto
digits_onto-ne-nil zero n d acc h = cc
digits_onto-ne-nil (suc fuel) n d acc h =
    ground (arith, h, digits_onto-ne-nil fuel (n / 10) (n % 10 + 48) (d ∷ acc))

pub decimal-ne-nil : (n : ℕ) → decimal n ≢ []
unfolding decimal digits_onto
decimal-ne-nil n h = ground (arith, h, digits_onto-ne-nil n (n / 10) (n % 10 + 48) [])
