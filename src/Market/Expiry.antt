-- ===== src/Market/Expiry.antt =====
-- Mass cancels on one book (`cancel_all` of exchangesim/core/market.py).
use exchange_sim.Prelude.{elem_head, elem_later}
use exchange_sim.Prelude.{
  ℕ, ◌≡◌, refl, ap, subst, ◌∙◌, inl, inr, Bool, true, false, Option, List, [], ◌∷◌, arith, ◌==◌,
  ==_iff, Bool-cases, elem, if_cases,
}
use exchange_sim.Enums.{CancelReason}
use exchange_sim.Orders.{Order, Heap, write}
use exchange_sim.Orders
use exchange_sim.Book.{OrderBook, book_orders}
use exchange_sim.Book.Store.{
  IsValidBook, IsAbsent, write_absent-IsValidBook, remove_order-IsValidBook, remove_order-IsAbsent,
  remove_order_keeps_IsAbsent,
}
use exchange_sim.Matching.{MatchingEngine, Desk, cancel_in, take_off}
use exchange_sim.Matching
use exchange_sim.Market.{Books, cancel_each}

-- A choice that a cancel does not change, such as that of a session or of a symbol.
abbrev pub IsStable : (Order → Bool) → Type 0
IsStable chosen = (o : Order) (now : Option ℕ) → chosen (Orders.cancel o now) ≡ chosen o

-- What a mass cancel of the orders `ids` leaves.
pub record Expires (chosen : Order → Bool) (ids : List ℕ) (d d' : Desk) : Type 0 where
  pub book : IsValidBook d'.heap d'.book
  pub gone : (a : ℕ) → elem a ids ≡ true → chosen (d.heap a) ≡ true → IsAbsent a d'.book
  pub kept : (a : ℕ) → chosen (d.heap a) ≡ false → d'.heap a ≡ d.heap a
  pub still_absent : (a : ℕ) → IsAbsent a d.book → IsAbsent a d'.book
  pub choice : (a : ℕ) → chosen (d'.heap a) ≡ chosen (d.heap a)
  pub elsewhere :
      (c : OrderBook)
      → IsValidBook d.heap c
      → ((a : ℕ) → elem a ids ≡ true → IsAbsent a c)
      → IsValidBook d'.heap c

Expires-nil : (chosen : Order → Bool) (d : Desk) → IsValidBook d.heap d.book → Expires chosen [] d d
unfolding elem
Expires-nil chosen d v = record {
  book = v;
  gone = λ a m c. absurd (cc);
  kept = λ a c. refl;
  still_absent = λ a h. h;
  choice = λ a. refl;
  elsewhere = λ c h apart. h;
}

elem_rest :
    (b a : ℕ) (ids : List ℕ) → (a == b) ≡ false → elem b (a ∷ ids) ≡ true → elem b ids ≡ true
unfolding elem
elem_rest b a ids n m = ground (arith, n, m)

module _ (e : MatchingEngine) (chosen : Order → Bool) (stable : IsStable chosen)
    (reason : CancelReason) where
  abbrev cancelled_desk : ℕ → Desk → Desk
  cancelled_desk a d = cancel_in e a (take_off a d)

  same_choice : (a b : ℕ) (d : Desk) → chosen ((cancelled_desk a d).heap b) ≡ chosen (d.heap b)
  same_choice a b d =
      if_cases (λ o. chosen o ≡ chosen (d.heap b)) (a == b) (Orders.cancel (d.heap a) e.now)
        (d.heap b) (λ h. stable (d.heap a) e.now ∙ ap (λ x. chosen (d.heap x)) ((==_iff a b).0 h))
        (λ h. refl)

  other_cell :
      (a b : ℕ) (d : Desk)
      → chosen (d.heap a) ≡ true
      → chosen (d.heap b) ≡ false
      → (cancelled_desk a d).heap b ≡ d.heap b
  other_cell a b d x y =
      if_cases (λ o. o ≡ d.heap b) (a == b) (Orders.cancel (d.heap a) e.now) (d.heap b)
        (λ h. absurd (cc (x, y, (==_iff a b).0 h))) (λ h. refl)

  cancelled_valid :
      (a : ℕ) (d : Desk)
      → IsValidBook d.heap d.book
      → IsValidBook (cancelled_desk a d).heap (cancelled_desk a d).book
  cancelled_valid a d v =
      write_absent-IsValidBook (remove_order-IsValidBook d.heap a d.book v) a
        (Orders.cancel (d.heap a) e.now) (remove_order-IsAbsent d.heap a d.book v)

  Expires-cancelled :
      (a : ℕ) (ids : List ℕ) (d d' : Desk)
      → IsValidBook d.heap d.book
      → chosen (d.heap a) ≡ true
      → Expires chosen ids (cancelled_desk a d) d'
      → Expires chosen (a ∷ ids) d d'
  Expires-cancelled a ids d d' v hit x = record {
    book = x.book;
    gone = λ b m c. elim (Bool-cases (a == b)) [
      | inl h ↦
          subst (λ y. IsAbsent y d'.book) ((==_iff a b).0 h)
            (x.still_absent a (remove_order-IsAbsent d.heap a d.book v))
      | inr h ↦ x.gone b (elem_rest b a ids h m) (same_choice a b d ∙ c)
    ];
    kept = λ b c. x.kept b (same_choice a b d ∙ c) ∙ other_cell a b d hit c;
    still_absent = λ b h. x.still_absent b (remove_order_keeps_IsAbsent d.heap b a d.book h);
    choice = λ b. x.choice b ∙ same_choice a b d;
    elsewhere = λ c h apart.
        x.elsewhere c
          (write_absent-IsValidBook h a (Orders.cancel (d.heap a) e.now)
            (apart a (elem_head a ids)))
          (λ b m. apart b (elem_later b a ids m));
  }

  Expires-passed :
      (a : ℕ) (ids : List ℕ) (d d' : Desk)
      → chosen (d.heap a) ≡ false
      → Expires chosen ids d d'
      → Expires chosen (a ∷ ids) d d'
  Expires-passed a ids d d' miss x = record {
    book = x.book;
    gone = λ b m c. elim (Bool-cases (a == b)) [
      | inl h ↦ absurd (cc (miss, c, (==_iff a b).0 h))
      | inr h ↦ x.gone b (elem_rest b a ids h m) c
    ];
    kept = x.kept;
    still_absent = x.still_absent;
    choice = x.choice;
    elsewhere = λ c h apart. x.elsewhere c h (λ b m. apart b (elem_later b a ids m));
  }

  -- Cancelling the chosen orders among some leaves a valid book without any of them, and every order
  -- that was not chosen as it was.
  pub cancel_each-Expires :
      (ids : List ℕ) (d : Desk)
      → IsValidBook d.heap d.book
      → Expires chosen ids d (cancel_each e chosen reason ids d).0
  unfolding cancel_each Matching.cancel
  cancel_each-Expires [] d v = Expires-nil chosen d v
  cancel_each-Expires (a ∷ ids) d v = elim (Bool-cases (chosen (d.heap a))) [
    | inl hit ↦ rw hit (
        Expires-cancelled a ids d _ v hit
          (cancel_each-Expires ids (cancelled_desk a d) (cancelled_valid a d v)))
    | inr miss ↦ rw miss (Expires-passed a ids d _ miss (cancel_each-Expires ids d v))
  ]

-- The order stands in none of the books.
unfoldable pub AbsentFrom : ℕ → Books → Type 0
AbsentFrom a [] = Unit {0}
AbsentFrom a ((s, b) ∷ books) = IsAbsent a b × AbsentFrom a books

-- Every book is valid, and no order stands in two.
unfoldable pub AreValid : Heap → Books → Type 0
AreValid h [] = Unit {0}
AreValid h ((s, b) ∷ books) =
    IsValidBook h b
    × ((a : ℕ) → elem a (book_orders b) ≡ true → AbsentFrom a books)
    × AreValid h books

-- Book by book, every chosen order that stood there is gone, and the book is valid.
unfoldable pub Expired : (Order → Bool) → Heap → Books → Books → Type 0
Expired chosen h [] later = Unit {0}
Expired chosen h (x ∷ books) [] = ⊥
Expired chosen h ((s, b) ∷ books) ((s', b') ∷ later) =
    ((a : ℕ) → elem a (book_orders b) ≡ true → chosen (h a) ≡ true → IsAbsent a b')
    × Expired chosen h books later

-- What cancelling over all books leaves.
pub record ExpiresAll (chosen : Order → Bool) (h : Heap) (books : Books) (out : Books × Heap × ℕ)
    : Type 0 where
  pub expired : Expired chosen h books out.0
  pub kept : (a : ℕ) → chosen (h a) ≡ false → out.1 a ≡ h a
