-- ===== src/Prelude/Int.antt =====
-- Signed integers: prices, which a spread combination quotes on either side of zero, and sums of
-- price times quantity. Tests and orders go through the two parts of an integer.
use Prim.Native.Nat.{ℕ, suc, ◌+◌, ◌-◌, ◌*◌, ◌/◌, ◌%◌, ◌≤◌, ◌<◌}
use mathlib.Core.Path.{◌≡◌}
use mathlib.Core.Bool.{Bool, true}
use native.Mathlib.Omega.{arith}
use native.Mathlib.Nat.{div-add-mod', mod-lt}
use package.exchange_sim.Prelude.Tests.{ltb, leb, ◌==◌, if◌then◌else◌}

-- `negsuc n` is -(n + 1).
pub data ℤ : Type 0 where
  pos : ℕ → ℤ
  negsuc : ℕ → ℤ

abbrev pub pos_part : ℤ → ℕ
pos_part (pos n) = n
pos_part (negsuc n) = 0

abbrev pub neg_part : ℤ → ℕ
neg_part (pos n) = 0
neg_part (negsuc n) = suc n

abbrev pub sub_ℕ : ℕ → ℕ → ℤ
sub_ℕ a b = if leb b a then pos (a - b) else negsuc (b - a - 1)

infixl 65 ◌+ℤ◌ ◌-ℤ◌
infixl 70 ◌*ℤ◌
infix 50 ◌≤ℤ◌ ◌<ℤ◌
unfoldable pub ◌+ℤ◌ : ℤ → ℤ → ℤ
a +ℤ b = sub_ℕ (pos_part a + pos_part b) (neg_part a + neg_part b)

unfoldable pub ◌-ℤ◌ : ℤ → ℤ → ℤ
a -ℤ b = sub_ℕ (pos_part a + neg_part b) (neg_part a + pos_part b)

-- An integer times a quantity.
unfoldable pub ◌*ℤ◌ : ℤ → ℕ → ℤ
a *ℤ n = sub_ℕ (pos_part a * n) (neg_part a * n)

abbrev pub ◌≤ℤ◌ : ℤ → ℤ → Type 0
a ≤ℤ b = pos_part a + neg_part b ≤ pos_part b + neg_part a

abbrev pub ◌<ℤ◌ : ℤ → ℤ → Type 0
a <ℤ b = pos_part a + neg_part b < pos_part b + neg_part a

-- The tests of two integers.
abbrev pub lt_test : ℤ → ℤ → Bool
lt_test a b = ltb (pos_part a + neg_part b) (pos_part b + neg_part a)

abbrev pub le_test : ℤ → ℤ → Bool
le_test a b = leb (pos_part a + neg_part b) (pos_part b + neg_part a)

abbrev pub eq_test : ℤ → ℤ → Bool
eq_test a b = pos_part a + neg_part b == pos_part b + neg_part a

pub eq_of_parts : (a b : ℤ) → pos_part a + neg_part b ≡ pos_part b + neg_part a → a ≡ b
eq_of_parts a b h = ground arith

pub eq_of_eq_test : (a b : ℤ) → eq_test a b ≡ true → a ≡ b
eq_of_eq_test a b h = ground arith

pub eq_test_refl : (a : ℤ) → eq_test a a ≡ true
eq_test_refl a = ground arith

pub eq_test_sym : (a b : ℤ) → eq_test a b ≡ eq_test b a
eq_test_sym a b = ground arith

pub +ℤ_parts :
    (a b : ℤ)
    → pos_part (a +ℤ b) + neg_part a + neg_part b ≡ neg_part (a +ℤ b) + pos_part a + pos_part b
unfolding ◌+ℤ◌
+ℤ_parts a b = ground arith

pub -ℤ_parts :
    (a b : ℤ)
    → pos_part (a -ℤ b) + neg_part a + pos_part b ≡ neg_part (a -ℤ b) + pos_part a + neg_part b
unfolding ◌-ℤ◌
-ℤ_parts a b = ground arith

pub ruleset int_laws = (arith, +ℤ_parts, -ℤ_parts, eq_of_parts)

-- Python's `//` by a positive number, which rounds down.
unfoldable pub floor_div : ℤ → ℕ → ℤ
floor_div (pos n) k = pos (n / k)
floor_div (negsuc n) k = negsuc (n / k)

-- Python's `% k == 0`.
abbrev pub is_multiple : ℤ → ℕ → Bool
is_multiple a k = (pos_part a + neg_part a) % k == 0

abbrev pub max_int : ℤ → ℤ → ℤ
max_int a b = if lt_test a b then b else a

pub *ℤ_parts :
    (a : ℤ) (n : ℕ) → pos_part (a *ℤ n) + neg_part a * n ≡ neg_part (a *ℤ n) + pos_part a * n
unfolding ◌*ℤ◌
*ℤ_parts a n = ground arith

-- The quotient is the largest integer whose product with the divisor does not pass the dividend.
pub floor_div_bounds :
    (a : ℤ) (k : ℕ) → 0 < k → (floor_div a k *ℤ k ≤ℤ a) × (a <ℤ floor_div a k *ℤ k +ℤ pos k)
unfolding floor_div
floor_div_bounds (pos n) k h =
    let parts = *ℤ_parts (pos (n / k)) k in
    let sum = +ℤ_parts (pos (n / k) *ℤ k) (pos k) in
    (
      omega (arith, parts, div-add-mod' n k),
      omega (arith, parts, sum, div-add-mod' n k, mod-lt n h),
    )
floor_div_bounds (negsuc n) k h =
    let parts = *ℤ_parts (negsuc (n / k)) k in
    let sum = +ℤ_parts (negsuc (n / k) *ℤ k) (pos k) in
    (
      omega (arith, parts, div-add-mod' n k, mod-lt n h),
      omega (arith, parts, sum, div-add-mod' n k),
    )
