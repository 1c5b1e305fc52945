-- ===== src/Prelude/Lists.antt =====
-- Lists over the native numbers: length, and lists of keys as an `OrderedDict` keeps them.
use Prim.Native.Nat.{ℕ, suc, ◌+◌, ◌≤◌, ◌<◌}
use mathlib.Core.Path.{◌≡◌, refl}
use mathlib.Core.Logic.{◌≢◌, ◌⊎◌}
use mathlib.Core.Bool.{Bool, true, false, ◌||◌}
use mathlib.Core.List.{List, [], ◌∷◌, ◌++◌}
use mathlib.Core.Option.{Option, none, some}
use native.Mathlib.Omega.{arith}
use package.exchange_sim.Prelude.Tests.{◌==◌, if◌then◌else◌}

module _ {ℓ} {A : Type ℓ} where
  abbrev pub length : List A → ℕ
  length [] = 0
  length (x ∷ xs) = suc (length xs)

  pub length-append : (xs ys : List A) → length (xs ++ ys) ≡ length xs + length ys
  length-append [] ys = omega arith
  length-append (x ∷ xs) ys = omega (arith, length-append xs ys)

  abbrev pub is_empty : List A → Bool
  is_empty [] = true
  is_empty (x ∷ xs) = false

unfoldable pub elem : ℕ → List ℕ → Bool
elem k [] = false
elem k (x ∷ xs) = x == k || elem k xs

-- `pop(key)`: the keys of a dict are distinct, so that every occurrence is the one occurrence.
unfoldable pub erase : ℕ → List ℕ → List ℕ
erase k [] = []
erase k (x ∷ xs) = let rest = erase k xs in if x == k then rest else x ∷ rest

-- `d[key] = value` on an `OrderedDict`: a key that is there keeps its place.
unfoldable pub append_key : ℕ → List ℕ → List ℕ
unfolding elem
append_key k xs = if elem k xs then xs else xs ++ k ∷ []

pub elem-append : (j : ℕ) (xs ys : List ℕ) → elem j (xs ++ ys) ≡ (elem j xs || elem j ys)
unfolding elem
elem-append j [] ys = refl
elem-append j (x ∷ xs) ys = ground (arith, elem-append j xs ys)

pub elem-append_key : (j k : ℕ) (xs : List ℕ) → elem j (append_key k xs) ≡ (k == j || elem j xs)
unfolding append_key elem
elem-append_key j k xs = ground (arith, elem-append j xs (k ∷ []))

pub elem-erase :
    (j k : ℕ) (xs : List ℕ) → elem j (erase k xs) ≡ (if k == j then false else elem j xs)
unfolding elem erase
elem-erase j k [] = ground arith
elem-erase j k (x ∷ xs) = ground (arith, elem-erase j k xs)

pub length-erase-le : (k : ℕ) (xs : List ℕ) → length (erase k xs) ≤ length xs
unfolding erase
length-erase-le k [] = omega arith
length-erase-le k (x ∷ xs) = ground (arith, length-erase-le k xs)

pub length-erase : (k : ℕ) (xs : List ℕ) → elem k xs ≡ true → length (erase k xs) < length xs
unfolding elem erase
length-erase k [] h = absurd (cc)
length-erase k (x ∷ xs) h = ground (arith, length-erase k xs, length-erase-le k xs)

pub append_key-ne-nil : (k : ℕ) (xs : List ℕ) → append_key k xs ≢ []
unfolding append_key elem
append_key-ne-nil k [] h = cc
append_key-ne-nil k (x ∷ xs) h = ground arith

abbrev pub last_key : List ℕ → Option ℕ
last_key [] = none
last_key (x ∷ []) = some x
last_key (x ∷ y ∷ xs) = last_key (y ∷ xs)

last_key-append : (k : ℕ) (xs : List ℕ) → last_key (xs ++ k ∷ []) ≡ some k
last_key-append k [] = refl
last_key-append k (x ∷ []) = refl
last_key-append k (x ∷ y ∷ xs) = last_key-append k (y ∷ xs)

-- A new key goes last.
pub last_key-append_key :
    (k : ℕ) (xs : List ℕ) → elem k xs ≡ false → last_key (append_key k xs) ≡ some k
unfolding append_key
last_key-append_key k xs n = rw n (last_key-append k xs)

unfoldable pub IsIn : {A : Type 0} → A → List A → Type 0
IsIn x [] = ⊥
IsIn x (y ∷ ys) = (x ≡ y) ⊎ IsIn x ys

pub elem_head : (a : ℕ) (ids : List ℕ) → elem a (a ∷ ids) ≡ true
unfolding elem
elem_head a ids = ground arith

pub elem_later : (b a : ℕ) (ids : List ℕ) → elem b ids ≡ true → elem b (a ∷ ids) ≡ true
unfolding elem
elem_later b a ids m = ground (arith, m)
