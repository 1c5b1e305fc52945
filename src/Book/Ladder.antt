-- ===== src/Book/Ladder.antt =====
-- The sorted price list of a `BookSide` (exchangesim/core/book.py), which `bisect` maintains.
use exchange_sim.Prelude.{
  ◌≡◌, refl, Bool, true, false, ◌||◌, Option, none, some, List, [], ◌∷◌, arith, if◌then◌else◌,
}
use exchange_sim.Prelude.Int.{ℤ, ◌<ℤ◌, ◌≤ℤ◌, lt_test, le_test, eq_test}

-- `bisect.insort`: behind every price that is not greater.
unfoldable pub insort : ℤ → List ℤ → List ℤ
insort p [] = p ∷ []
insort p (x ∷ xs) = if le_test x p then x ∷ insort p xs else p ∷ x ∷ xs

-- `bisect_left`, then a `pop` if the price stands there.
unfoldable pub remove_price : ℤ → List ℤ → List ℤ
remove_price p [] = []
remove_price p (x ∷ xs) =
    if lt_test x p then x ∷ remove_price p xs else if eq_test x p then xs else x ∷ xs

unfoldable pub mem_price : ℤ → List ℤ → Bool
mem_price p [] = false
mem_price p (x ∷ xs) = eq_test x p || mem_price p xs

abbrev pub first : List ℤ → Option ℤ
first [] = none
first (x ∷ xs) = some x

abbrev pub last : List ℤ → Option ℤ
last [] = none
last (x ∷ []) = some x
last (x ∷ y ∷ xs) = last (y ∷ xs)

abbrev pub Chain : ℤ → List ℤ → Type 0
Chain a [] = Unit {0}
Chain a (x ∷ xs) = (a <ℤ x) × Chain x xs

abbrev pub IsSorted : List ℤ → Type 0
IsSorted [] = Unit {0}
IsSorted (x ∷ xs) = Chain x xs

Chain-insort :
    (a p : ℤ) (xs : List ℤ) → a <ℤ p → mem_price p xs ≡ false → Chain a xs → Chain a (insort p xs)
unfolding insort mem_price
Chain-insort a p [] h m c = ground arith
Chain-insort a p (x ∷ xs) h m c = ground (arith, Chain-insort x p xs)

pub insort-IsSorted :
    (p : ℤ) (xs : List ℤ) → mem_price p xs ≡ false → IsSorted xs → IsSorted (insort p xs)
unfolding insort mem_price
insort-IsSorted p [] m c = tt
insort-IsSorted p (x ∷ xs) m c = ground (arith, Chain-insort x p xs)

pub mem_price-insort :
    (q p : ℤ) (xs : List ℤ) → mem_price q (insort p xs) ≡ (eq_test p q || mem_price q xs)
unfolding insort mem_price
mem_price-insort q p [] = refl
mem_price-insort q p (x ∷ xs) = ground (arith, mem_price-insort q p xs)

Chain-weaken : (a b : ℤ) (xs : List ℤ) → a <ℤ b → Chain b xs → Chain a xs
Chain-weaken a b [] h c = tt
Chain-weaken a b (x ∷ xs) h c = (omega arith, c.1)

Chain-remove_price : (a p : ℤ) (xs : List ℤ) → Chain a xs → Chain a (remove_price p xs)
unfolding remove_price
Chain-remove_price a p [] c = tt
Chain-remove_price a p (x ∷ xs) c = ground (arith, Chain-remove_price x p xs, Chain-weaken a x xs)

pub remove_price-IsSorted : (p : ℤ) (xs : List ℤ) → IsSorted xs → IsSorted (remove_price p xs)
unfolding remove_price
remove_price-IsSorted p [] c = tt
remove_price-IsSorted p (x ∷ []) c = ground arith
remove_price-IsSorted p (x ∷ y ∷ xs) c = ground (arith, Chain-remove_price x p (y ∷ xs))

-- Below the least price there is none.
mem_price_below : (a q : ℤ) (xs : List ℤ) → Chain a xs → q ≤ℤ a → mem_price q xs ≡ false
unfolding mem_price
mem_price_below a q [] c h = refl
mem_price_below a q (x ∷ xs) c h = ground (arith, mem_price_below x q xs)

mem_price-remove-Chain :
    (a q p : ℤ) (xs : List ℤ)
    → Chain a xs
    → mem_price q (remove_price p xs) ≡ (if eq_test p q then false else mem_price q xs)
unfolding remove_price mem_price
mem_price-remove-Chain a q p [] c = ground arith
mem_price-remove-Chain a q p (x ∷ xs) c =
    ground (arith, mem_price-remove-Chain x q p xs, mem_price_below x q xs)

pub mem_price-remove_price :
    (q p : ℤ) (xs : List ℤ)
    → IsSorted xs
    → mem_price q (remove_price p xs) ≡ (if eq_test p q then false else mem_price q xs)
unfolding remove_price mem_price
mem_price-remove_price q p [] c = ground arith
mem_price-remove_price q p (x ∷ xs) c =
    ground (arith, mem_price-remove-Chain x q p xs, mem_price_below x q xs)

pub first_least :
    (q m : ℤ) (xs : List ℤ) → IsSorted xs → mem_price q xs ≡ true → first xs ≡ some m → m ≤ℤ q
unfolding mem_price
first_least q m [] c h e = absurd (cc)
first_least q m (x ∷ xs) c h e = ground (arith, mem_price_below x q xs)

last_above : (a m : ℤ) (xs : List ℤ) → Chain a xs → last xs ≡ some m → a <ℤ m
last_above a m [] c e = absurd (cc)
last_above a m (x ∷ []) c e = ground arith
last_above a m (x ∷ y ∷ xs) c e = ground (arith, last_above x m (y ∷ xs) c.1 e)

pub last_greatest :
    (q m : ℤ) (xs : List ℤ) → IsSorted xs → mem_price q xs ≡ true → last xs ≡ some m → q ≤ℤ m
unfolding mem_price
last_greatest q m [] c h e = absurd (cc)
last_greatest q m (x ∷ []) c h e = ground arith
last_greatest q m (x ∷ y ∷ xs) c h e =
    ground (arith, last_greatest q m (y ∷ xs), last_above x m (y ∷ xs) c e)

pub first_mem : (m : ℤ) (xs : List ℤ) → first xs ≡ some m → mem_price m xs ≡ true
unfolding mem_price
first_mem m [] e = absurd (cc)
first_mem m (x ∷ xs) e = ground arith

pub last_mem : (m : ℤ) (xs : List ℤ) → last xs ≡ some m → mem_price m xs ≡ true
unfolding mem_price
last_mem m [] e = absurd (cc)
last_mem m (x ∷ []) e = ground arith
last_mem m (x ∷ y ∷ xs) e = ground (arith, last_mem m (y ∷ xs) e)
