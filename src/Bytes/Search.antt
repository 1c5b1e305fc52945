-- ===== src/Bytes/Search.antt =====
-- Where `find`, `rfind` and `split` find what they look for.
use exchange_sim.Prelude.{
  ℕ, ◌+◌, ◌-◌, ◌≤◌, ◌≡◌, ◌≢◌, refl, sym, ◌∙◌, List, [], ◌∷◌, ◌++◌, true, false, some, length, elem,
  arith, Option-cases, inl, inr,
}
use exchange_sim.Bytes.{
  take, drop, take-length, drop-length, slice, find_from, starts_with, find, rfind, split,
  split_after, total,
}
use mathlib.Core.List.{append_assoc}

pub starts_with-append : (p ys : List ℕ) → starts_with p (p ++ ys) ≡ true
unfolding starts_with
starts_with-append [] ys = refl
starts_with-append (c ∷ p) ys = ground (arith, starts_with-append p ys)

-- A text that is as long as the pattern settles the test.
starts_with_settled :
    (p xs ys : List ℕ) → length p ≤ length xs → starts_with p (xs ++ ys) ≡ starts_with p xs
unfolding starts_with
starts_with_settled [] xs ys l = refl
starts_with_settled (c ∷ p) [] ys l = absurd (omega (arith, l))
starts_with_settled (c ∷ p) (x ∷ xs) ys l = rw (starts_with_settled p xs ys (omega (arith, l))) refl

starts_with-le : (p xs : List ℕ) → starts_with p xs ≡ true → length p ≤ length xs
unfolding starts_with
starts_with-le [] xs h = omega arith
starts_with-le (c ∷ p) [] h = absurd (cc)
starts_with-le (c ∷ p) (x ∷ xs) h = ground (arith, starts_with-le p xs, h)

pub starts_with_longer :
    (p xs ys : List ℕ) → starts_with p xs ≡ true → starts_with p (xs ++ ys) ≡ true
starts_with_longer p xs ys h = starts_with_settled p xs ys (starts_with-le p xs h) ∙ h

pub find-le : (p xs : List ℕ) (i : ℕ) → find p xs ≡ some i → length p + i ≤ length xs
unfolding find
find-le p [] i h = ground (arith, starts_with-le p [], h)
find-le p (x ∷ xs) i h = elim (Option-cases (find p xs)) [
  | inl e ↦ ground (arith, starts_with-le p (x ∷ xs), h, e)
  | inr (j, e) ↦ ground (arith, find-le p xs j e, starts_with-le p (x ∷ xs), h, e)
]

-- An occurrence that was found is found in a longer text too.
pub find_longer : (p xs ys : List ℕ) (i : ℕ) → find p xs ≡ some i → find p (xs ++ ys) ≡ some i
unfolding find
find_longer [] [] [] i h = h
find_longer [] [] (y ∷ ys) i h = unfold starts_with in h
find_longer (c ∷ p) [] ys i h = absurd (unfold starts_with in cc)
find_longer p (x ∷ xs) ys i h =
    let settled = starts_with_settled p (x ∷ xs) ys in
    elim (Option-cases (find p xs)) [
      | inl e ↦ ground (arith, settled, starts_with-le p (x ∷ xs), h, e)
      | inr (j, e) ↦ ground (arith, settled, find-le p xs j e, find_longer p xs ys j e, h, e)
    ]

-- The first occurrence of a pattern whose first character does not occur before.
pub find_first :
    (c : ℕ) (p pre ys : List ℕ)
    → elem c pre ≡ false
    → find (c ∷ p) (pre ++ (c ∷ p) ++ ys) ≡ some (length pre)
unfolding find starts_with elem
find_first c p [] ys h = ground (arith, starts_with-append p ys)
find_first c p (x ∷ pre) ys h = ground (arith, find_first c p pre ys, h)

pub rfind_later :
    (p pre xs : List ℕ) (i : ℕ) → rfind p xs ≡ some i → rfind p (pre ++ xs) ≡ some (length pre + i)
unfolding rfind
rfind_later p [] xs i h = ground (arith, h)
rfind_later p (x ∷ pre) xs i h = rw (rfind_later p pre xs i h) (ground arith)

split_after-separator :
    (c : ℕ) (pieces : List (List ℕ)) → pieces ≢ [] → split_after c c pieces ≡ [] ∷ pieces
unfolding split_after
split_after-separator c [] n = absurd (n refl)
split_after-separator c (piece ∷ pieces) n = ground arith

split_after-ne-nil : (c d : ℕ) (pieces : List (List ℕ)) → split_after c d pieces ≢ []
unfolding split_after
split_after-ne-nil c d [] h = cc
split_after-ne-nil c d (piece ∷ pieces) h = ground (arith, h)

split-ne-nil : (c : ℕ) (xs : List ℕ) → split c xs ≢ []
unfolding split
split-ne-nil c [] h = cc
split-ne-nil c (x ∷ xs) h = split_after-ne-nil c x (split c xs) h

-- The first piece of a text that has the separator.
pub split_first :
    (c : ℕ) (pre ys : List ℕ) → elem c pre ≡ false → split c (pre ++ c ∷ ys) ≡ pre ∷ split c ys
unfolding split split_after elem
split_first c [] ys h = split_after-separator c (split c ys) (split-ne-nil c ys)
split_first c (x ∷ pre) ys h = rw (split_first c pre ys (ground (arith, h))) (ground (arith, h))

pub total-append : (xs ys : List ℕ) → total (xs ++ ys) ≡ total xs + total ys
unfolding total
total-append [] ys = omega arith
total-append (x ∷ xs) ys = omega (arith, total-append xs ys)

pub starts_with-find : (p xs : List ℕ) → starts_with p xs ≡ true → find p xs ≡ some 0
unfolding find
starts_with-find p [] h = ground (arith, h)
starts_with-find p (x ∷ xs) h = ground (arith, h)

-- Parts of a text that is given as a prefix, a part and the rest.

pub take_at : (n : ℕ) (pre ys : List ℕ) → n ≡ length pre → take n (pre ++ ys) ≡ pre
take_at n pre ys e = rw e (take-length pre ys)

pub drop_at : (n : ℕ) (pre ys : List ℕ) → n ≡ length pre → drop n (pre ++ ys) ≡ ys
drop_at n pre ys e = rw e (drop-length pre ys)

pub slice_at :
    (m n : ℕ) (pre part ys : List ℕ)
    → m ≡ length pre
    → n ≡ m + length part
    → slice m n (pre ++ part ++ ys) ≡ part
unfolding slice
slice_at m n pre part ys e f =
    rw (append_assoc pre part ys)
      (rw (drop_at m pre (part ++ ys) e) (take_at (n - m) part ys (omega (arith, f))))

pub find_from_at :
    (c start : ℕ) (pre part ys : List ℕ)
    → start ≡ length pre
    → elem c part ≡ false
    → find_from (c ∷ []) start (pre ++ part ++ c ∷ ys) ≡ some (start + length part)
unfolding find_from
find_from_at c start pre part ys e f = rw (append_assoc pre part (c ∷ ys)) (
    rw (drop_at start pre (part ++ c ∷ ys) e)
      (rw (sym (append_assoc part (c ∷ []) ys)) (rw (find_first c [] part ys f) refl)))
