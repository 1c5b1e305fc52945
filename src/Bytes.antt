-- ===== src/Bytes.antt =====
-- Bytes and latin-1 texts: the operations of Python's `bytes`, `str` and `int` that the encodings
-- use. A byte, or a character of a text, is its code.
pub mod Search
pub mod Numbers
use Prim.Native.Char.{code}
use Prim.Native.String.{String}
use exchange_sim.Prelude.{
  ℕ, zero, suc, ◌+◌, ◌*◌, ◌-◌, ◌≤◌, ◌≡◌, refl, List, [], ◌∷◌, ◌++◌, Bool, true, false, ◌&&◌, ◌||◌,
  Option, none, some, ◌==◌, leb, if◌then◌else◌, length, arith,
}
use exchange_sim.Prelude.Int.{ℤ, pos, negsuc, sub_ℕ}
use mathlib.Core.Option

-- The characters of a text.
abbrev pub codes : String → List ℕ
codes String.[] = []
codes (String.◌∷◌ c s) = code c ∷ codes s

module _ {ℓ} {A : Type ℓ} where
  -- `xs[:n]`
  abbrev pub take : ℕ → List A → List A
  take zero xs = []
  take (suc n) [] = []
  take (suc n) (x ∷ xs) = x ∷ take n xs

  -- `xs[n:]`
  abbrev pub drop : ℕ → List A → List A
  drop zero xs = xs
  drop (suc n) [] = []
  drop (suc n) (x ∷ xs) = drop n xs

  pub take-length : (xs ys : List A) → take (length xs) (xs ++ ys) ≡ xs
  take-length [] ys = refl
  take-length (x ∷ xs) ys = rw (take-length xs ys) refl

  pub drop-length : (xs ys : List A) → drop (length xs) (xs ++ ys) ≡ ys
  drop-length [] ys = refl
  drop-length (x ∷ xs) ys = drop-length xs ys

-- `text.startswith(prefix)`
unfoldable pub starts_with : List ℕ → List ℕ → Bool
starts_with [] text = true
starts_with (p ∷ ps) [] = false
starts_with (p ∷ ps) (c ∷ cs) = p == c && starts_with ps cs

-- `text.find(pattern)`: the offset of the first occurrence.
unfoldable pub find : List ℕ → List ℕ → Option ℕ
find pattern [] = if starts_with pattern [] then some 0 else none
find pattern (c ∷ cs) =
    let later = find pattern cs in
    if starts_with pattern (c ∷ cs) then some 0 else Option.map suc later

-- `text.rfind(pattern)`: the offset of the last occurrence.
unfoldable pub rfind : List ℕ → List ℕ → Option ℕ
rfind pattern [] = if starts_with pattern [] then some 0 else none
rfind pattern (c ∷ cs) = elim (rfind pattern cs) [
  | some i ↦ some (suc i)
  | none ↦ if starts_with pattern (c ∷ cs) then some 0 else none
]

-- What a character before a split text does to its pieces.
unfoldable pub split_after : ℕ → ℕ → List (List ℕ) → List (List ℕ)
split_after separator c [] = (c ∷ []) ∷ []
split_after separator c (piece ∷ pieces) =
    if c == separator then [] ∷ piece ∷ pieces else (c ∷ piece) ∷ pieces

-- `text.split(separator)` by one character.
unfoldable pub split : ℕ → List ℕ → List (List ℕ)
split separator [] = [] ∷ []
split separator (c ∷ cs) = split_after separator c (split separator cs)

-- `sum(text)`
unfoldable pub total : List ℕ → ℕ
total [] = 0
total (c ∷ cs) = c + total cs

unfoldable pub is_digit : ℕ → Bool
is_digit c = leb 48 c && leb c 57

-- The characters that `int` skips on either side of a number.
unfoldable pub is_space : ℕ → Bool
is_space c = leb 9 c && leb c 13 || c == 32

unfoldable pub all_space : List ℕ → Bool
all_space [] = true
all_space (c ∷ cs) = is_space c && all_space cs

-- The digits of a number, single underscores between them, after a number that was read; the flag
-- says that a digit came last.
unfoldable pub digits_from : Bool → ℕ → List ℕ → Option ℕ
digits_from after_digit n [] = if after_digit then some n else none
digits_from after_digit n (c ∷ cs) =
    let more = digits_from true (n * 10 + (c - 48)) cs in
    let grouped = digits_from false n cs in
    if is_digit c
    then more
    else if c == 95
    then if after_digit then grouped else none
    else if after_digit && all_space (c ∷ cs)
    then some n
    else none

-- `-n`
unfoldable pub negated : ℕ → ℤ
negated n = sub_ℕ 0 n

-- `int(text)`, none where it raises `ValueError`.
unfoldable pub parse_int : List ℕ → Option ℤ
parse_int [] = none
parse_int (c ∷ cs) =
    let skipped = parse_int cs in
    if is_space c
    then skipped
    else if c == 43
    then Option.map pos (digits_from false 0 cs)
    else if c == 45
    then Option.map negated (digits_from false 0 cs)
    else Option.map pos (digits_from false 0 (c ∷ cs))

unfoldable pub same : List ℕ → List ℕ → Bool
same [] [] = true
same [] (d ∷ ds) = false
same (c ∷ cs) [] = false
same (c ∷ cs) (d ∷ ds) = c == d && same cs ds

unfoldable pub ends_with : ℕ → List ℕ → Bool
ends_with separator [] = false
ends_with separator (c ∷ []) = c == separator
ends_with separator (c ∷ d ∷ cs) = ends_with separator (d ∷ cs)

-- `text[start:stop]`
unfoldable pub slice : ℕ → ℕ → List ℕ → List ℕ
slice start stop text = take (stop - start) (drop start text)

-- `text.find(pattern, start)`
unfoldable pub find_from : List ℕ → ℕ → List ℕ → Option ℕ
find_from pattern start text = Option.map (λ i. start + i) (find pattern (drop start text))

module _ {ℓ} {A : Type ℓ} where
  pub take_longer : (n : ℕ) (xs ys : List A) → n ≤ length xs → take n (xs ++ ys) ≡ take n xs
  take_longer zero xs ys l = refl
  take_longer (suc n) [] ys l = absurd (omega (arith, l))
  take_longer (suc n) (x ∷ xs) ys l = rw (take_longer n xs ys (omega (arith, l))) refl

  pub drop_longer : (n : ℕ) (xs ys : List A) → n ≤ length xs → drop n (xs ++ ys) ≡ drop n xs ++ ys
  drop_longer zero xs ys l = refl
  drop_longer (suc n) [] ys l = absurd (omega (arith, l))
  drop_longer (suc n) (x ∷ xs) ys l = drop_longer n xs ys (omega (arith, l))

  pub length-drop : (n : ℕ) (xs : List A) → length (drop n xs) ≡ length xs - n
  length-drop zero xs = omega arith
  length-drop (suc n) [] = omega arith
  length-drop (suc n) (x ∷ xs) = omega (arith, length-drop n xs)

pub slice_longer :
    (m n : ℕ) (xs ys : List ℕ) → m ≤ n → n ≤ length xs → slice m n (xs ++ ys) ≡ slice m n xs
unfolding slice
slice_longer m n xs ys k l =
    rw (drop_longer m xs ys (omega (arith, k, l)))
      (take_longer (n - m) (drop m xs) ys (omega (arith, length-drop m xs, k, l)))
