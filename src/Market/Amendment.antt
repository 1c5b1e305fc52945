-- ===== src/Market/Amendment.antt =====
-- `Market.amend` (exchangesim/core/market.py): what re-matching an amended order does to its place.
use exchange_sim.Prelude.{
  String, [], ◌∷◌, eq_iff, ℕ, zero, suc, ◌⊎◌, inl, inr, ◌<◌, ◌≡◌, refl, true, Option, some, arith,
  ltb, last_key, if_cases,
}
use exchange_sim.Prelude.Int.{ℤ}
use exchange_sim.Orders.{leaves_qty, buys, Returns, Returns-then}
use exchange_sim.Book.{side_of, OrderBook}
use exchange_sim.Book.Queue.{queue}
use exchange_sim.Book.Store.{IsValidBook, remove_order-IsAbsent, remove_order-IsValidBook}
use exchange_sim.Trading.{allows_matching}
use exchange_sim.Matching.{MatchingEngine, Desk, take_off}
use exchange_sim.Matching
use exchange_sim.Matching.Desks.{IsGood}
use exchange_sim.Matching.Submit.{submit-Entered}
use exchange_sim.Matching.Entered.{Entered}
use exchange_sim.Matching.Amend.{amend}
use exchange_sim.Matching.Amend.Valid.{amend-IsValidBook}
use exchange_sim.Market.{
  Floor, Books, desk_of, put_desk, book_for, get_book, put_book, amend_order, rematch,
}

-- The order stands last among the orders of its side and price.
pub record IsLast (a : ℕ) (d : Desk) : Type 0 where
  pub at_price :
      (p : ℤ)
      → (d.heap a).price ≡ some p
      → last_key (queue p (side_of d.book (buys (d.heap a)))) ≡ some a

rematch-IsLast :
    (e : MatchingEngine) (a : ℕ) (d : Desk)
    → IsValidBook d.heap d.book
    → 0 < leaves_qty (d.heap a)
    → Returns
        (λ out.
          IsValidBook out.0.heap out.0.book × (0 < leaves_qty (out.0.heap a) → IsLast a out.0))
        (rematch a true e d)
unfolding rematch
rematch-IsLast e a d v live =
    if_cases
      (Returns (λ out.
        IsValidBook out.0.heap out.0.book × (0 < leaves_qty (out.0.heap a) → IsLast a out.0)))
      (ltb 0 (leaves_qty (d.heap a))) _ _
      (λ _.
        Returns-then (Entered a true (take_off a d)) _ (Matching.submit e a true (take_off a d)) _
          (submit-Entered e a true (take_off a d) off live)
          λ out w. (w.book, λ open_qty. record { at_price = λ p priced. w.last p open_qty priced }))
      (λ shut. absurd (ground arith))
  where
    off : IsGood a (take_off a d)
    off = record {
      book = remove_order-IsValidBook d.heap a d.book v;
      absent = remove_order-IsAbsent d.heap a d.book v;
    }

get_book-put_book :
    (s : String) (b : OrderBook) (books : Books) → get_book s (put_book s b books) ≡ some b
unfolding get_book put_book
get_book-put_book s b [] = ground (arith, eq_iff s s)
get_book-put_book s b ((t, c) ∷ books) =
    ground (arith, eq_iff t s, eq_iff s s, get_book-put_book s b books)

book_for-put_desk :
    (s : String) (d : Desk) (f : Floor) → book_for (put_desk s d f).market s ≡ d.book
unfolding book_for
book_for-put_desk s d f = ground (arith, get_book-put_book s d.book f.market.books)

desk_of-put_desk : (s : String) (d : Desk) (f : Floor) → desk_of (put_desk s d f) s ≡ d
desk_of-put_desk s d f =
    λ i. record { heap = d.heap; book = book_for-put_desk s d f i; trade_ids = d.trade_ids }

-- The desk of the order's instrument after an amendment, before the order is matched anew.
abbrev pub amended_desk : ℕ → Option ℕ → Option ℤ → Floor → Desk
amended_desk a q p f = (amend f.market.matching a q p (desk_of f (f.heap a).symbol)).1

closed_or : (n : ℕ) (X : Type 0) → (0 < n → X) → (n ≡ 0) ⊎ X
closed_or zero X f = inl refl
closed_or (suc n) X f = inr (f (omega arith))

-- While orders match, an amendment of an order that stays open always returns with the book valid,
-- and the order is then closed or stands last among the orders of its side and price. This holds
-- for every amendment, also for one that only lowers the quantity and is reported to have kept its
-- time priority.
pub amend_order-IsLast :
    (a : ℕ) (q : Option ℕ) (p : Option ℤ) (f : Floor)
    → let symbol = (f.heap a).symbol in
      IsValidBook f.heap (book_for f.market symbol)
      → allows_matching f.market.state symbol ≡ true
      → 0 < leaves_qty ((amended_desk a q p f).heap a)
      → Returns
          (λ out.
            IsValidBook out.1.heap (book_for out.1.market symbol)
            × ((leaves_qty (out.1.heap a) ≡ 0) ⊎ IsLast a (desk_of out.1 symbol)))
          (amend_order a q p f)
unfolding amend_order
amend_order-IsLast a q p f v on live = rw on (
    Returns-then _ _ (rematch a true f.market.matching d) _
      (rematch-IsLast f.market.matching a d
        (amend-IsValidBook f.market.matching a q p (desk_of f symbol) v) live)
      λ out w. (
        rw (book_for-put_desk symbol out.0 f) w.0,
        closed_or (leaves_qty (out.0.heap a)) (IsLast a (desk_of (put_desk symbol out.0 f) symbol))
            (λ open_qty. rw (desk_of-put_desk symbol out.0 f) (w.1 open_qty)),
      ))
  where
    symbol : String
    symbol = (f.heap a).symbol

    d : Desk
    d = amended_desk a q p f
