-- ===== src/Matching/Amend/Valid.antt =====
-- An amendment (exchangesim/core/matching.py, `amend`) keeps the book valid.
use exchange_sim.Prelude.{
  ℕ, ◌<◌, ◌≡◌, refl, Bool, true, not, ◌&&◌, ◌||◌, Option, some, List, [], ◌∷◌, ◌++◌, arith, ltb,
  ltb→lt, leb, elem, if_cases,
}
use exchange_sim.Prelude.Int.{ℤ, eq_of_eq_test}
use exchange_sim.Enums.{is_live_status}
use exchange_sim.Orders.{Heap, leaves_qty, buys}
use exchange_sim.Book.{BookSide, orders, all_levels, side_of}
use exchange_sim.Book.Levels.{LevelMap, Distinct, get_level}
use exchange_sim.Book.Invariant.{IsValidSide, add-IsValidSide, remove-IsValidSide}
use exchange_sim.Book.Store.{
  IsValidBook, set_side-IsValidBook, add_order-IsValidBook, remove_order-IsValidBook,
  remove_order-IsAbsent, write_absent-IsValidBook,
}
use exchange_sim.Matching.{MatchingEngine, Desk}
use exchange_sim.Matching.Amend.{
  same_price, priced_at, insert_by_sequence, sort_onto, remove_each, add_each,
  reinsert_keeping_priority, amend, replace_in_book,
}

-- Each order of a list may stand on the side.
abbrev AllFit : Heap → Bool → List ℕ → Type 0
AllFit h buying [] = Unit {0}
AllFit h buying (a ∷ ids) = (buys (h a) ≡ buying) × (0 < leaves_qty (h a)) × AllFit h buying ids

remove_each-IsValidSide :
    (h : Heap) (buying : Bool) (ids : List ℕ) (s : BookSide)
    → IsValidSide h buying s
    → IsValidSide h buying (remove_each h ids s)
unfolding remove_each
remove_each-IsValidSide h buying [] s v = v
remove_each-IsValidSide h buying (a ∷ ids) s v =
    remove_each-IsValidSide h buying ids _ (remove-IsValidSide s v a (h a).price)

add_each-IsValidSide :
    (h : Heap) (buying : Bool) (ids : List ℕ) (s : BookSide)
    → AllFit h buying ids
    → IsValidSide h buying s
    → IsValidSide h buying (add_each h ids s)
unfolding add_each
add_each-IsValidSide h buying [] s f v = v
add_each-IsValidSide h buying (a ∷ ids) s f v =
    add_each-IsValidSide h buying ids _ f.2 (
      add-IsValidSide s v a (h a).price (record { at_price = refl; on_side = f.0; open_qty = f.1 }))

AllFit-insert :
    (h : Heap) (buying : Bool) (a : ℕ) (ids : List ℕ)
    → buys (h a) ≡ buying
    → 0 < leaves_qty (h a)
    → AllFit h buying ids
    → AllFit h buying (insert_by_sequence h a ids)
unfolding insert_by_sequence
AllFit-insert h buying a [] e l f = (e, l, tt)
AllFit-insert h buying a (b ∷ ids) e l f =
    if_cases (AllFit h buying) (leb (h b).sequence (h a).sequence) _ _
      (λ _. (f.0, f.1, AllFit-insert h buying a ids e l f.2)) (λ _. (e, l, f))

AllFit-sort :
    (h : Heap) (buying : Bool) (sorted ids : List ℕ)
    → AllFit h buying sorted
    → AllFit h buying ids
    → AllFit h buying (sort_onto h sorted ids)
unfolding sort_onto
AllFit-sort h buying sorted [] f g = f
AllFit-sort h buying sorted (a ∷ ids) f g =
    AllFit-sort h buying (insert_by_sequence h a sorted) ids
      (AllFit-insert h buying a sorted g.0 g.1 f) g.2

AllFit-priced_at :
    (h : Heap) (buying : Bool) (p : Option ℤ) (ids : List ℕ)
    → AllFit h buying ids
    → AllFit h buying (priced_at h p ids)
unfolding priced_at
AllFit-priced_at h buying p [] f = tt
AllFit-priced_at h buying p (a ∷ ids) f =
    if_cases (AllFit h buying) (same_price (h a).price p) _ _
      (λ _. (f.0, f.1, AllFit-priced_at h buying p ids f.2))
      (λ _. AllFit-priced_at h buying p ids f.2)

AllFit-append :
    (h : Heap) (buying : Bool) (xs ys : List ℕ)
    → AllFit h buying xs
    → AllFit h buying ys
    → AllFit h buying (xs ++ ys)
AllFit-append h buying [] ys f g = g
AllFit-append h buying (a ∷ xs) ys f g = (f.0, f.1, AllFit-append h buying xs ys f.2 g)

AllFit-of_members :
    (h : Heap) (buying : Bool) (ids : List ℕ)
    → ((a : ℕ) → elem a ids ≡ true → (buys (h a) ≡ buying) × (0 < leaves_qty (h a)))
    → AllFit h buying ids
unfolding elem
AllFit-of_members h buying [] k = tt
AllFit-of_members h buying (a ∷ ids) k =
    let here = k a (ground arith) in
    (here.0, here.1, AllFit-of_members h buying ids (λ b m. k b (ground (arith, m))))

AllFit-of_levels :
    (h : Heap) (buying : Bool) (ls : LevelMap)
    → Distinct ls
    → ((p : ℤ) (ids : List ℕ) (a : ℕ)
        → get_level p ls ≡ some ids
        → elem a ids ≡ true
        → (buys (h a) ≡ buying) × (0 < leaves_qty (h a)))
    → AllFit h buying (all_levels ls)
unfolding all_levels get_level
AllFit-of_levels h buying [] d k = tt
AllFit-of_levels h buying ((q, old) ∷ ls) d k =
    AllFit-append h buying old (all_levels ls)
      (AllFit-of_members h buying old (λ a m. k q old a (ground arith) m))
      (AllFit-of_levels h buying ls d.1
        λ p ids a e m. k p ids a (ground (arith, d.0, eq_of_eq_test q p)) m)

AllFit-orders :
    {h : Heap} {buying : Bool} (s : BookSide) → IsValidSide h buying s → AllFit h buying (orders s)
unfolding orders
AllFit-orders {h} {buying} s v =
    AllFit-append h buying s.at_market (all_levels s.levels)
      (AllFit-of_members h buying s.at_market
        (λ a m. let r = v.waiting a m in (r.on_side, r.open_qty)))
      (AllFit-of_levels h buying s.levels v.ladder.distinct
        (λ p ids a e m. let r = v.resting p a (ground (arith, e)) in (r.on_side, r.open_qty)))

reinsert-IsValidBook :
    (a : ℕ) (d : Desk)
    → IsValidBook d.heap d.book
    → 0 < leaves_qty (d.heap a)
    → let d' = reinsert_keeping_priority a d in IsValidBook d'.heap d'.book
unfolding reinsert_keeping_priority
reinsert-IsValidBook a d v live =
    let buying = buys (d.heap a) in
    let side = side_of d.book buying in
    let same = priced_at d.heap (d.heap a).price (orders side) in
    let fit =
      AllFit-priced_at d.heap buying (d.heap a).price (orders side)
        (AllFit-orders side (v.sides buying)) in
    set_side-IsValidBook d.book buying _ v (
      add_each-IsValidSide d.heap buying _ _
        (AllFit-sort d.heap buying (sort_onto d.heap [] same) (a ∷ [])
          (AllFit-sort d.heap buying [] same tt fit) (refl, live, tt))
        (remove_each-IsValidSide d.heap buying same side (v.sides buying)))

replace-IsValidBook :
    (a : ℕ) (was loses : Bool) (d : Desk)
    → IsValidBook d.heap d.book
    → let d' = replace_in_book a was loses d in IsValidBook d'.heap d'.book
unfolding replace_in_book
replace-IsValidBook a was loses d v =
    if_cases (λ (x : Desk). IsValidBook x.heap x.book) (ltb 0 (leaves_qty (d.heap a))) _ _
      (λ live.
        let open_qty = ltb→lt 0 _ live in
        if_cases (λ (x : Desk). IsValidBook x.heap x.book) (was && not loses) _ _
          (λ _. reinsert-IsValidBook a d v open_qty)
          λ _.
            if_cases (λ (x : Desk). IsValidBook x.heap x.book)
              (was || is_live_status (d.heap a).status) _ _
              (λ _. add_order-IsValidBook d.heap a d.book v open_qty) (λ _. v))
      (λ _. v)

-- Whatever is amended, the book stays valid.
pub amend-IsValidBook :
    (e : MatchingEngine) (a : ℕ) (q : Option ℕ) (p : Option ℤ) (d : Desk)
    → IsValidBook d.heap d.book
    → let d' = (amend e a q p d).1 in IsValidBook d'.heap d'.book
unfolding amend
amend-IsValidBook e a q p d v = replace-IsValidBook a _ _ _ (
    write_absent-IsValidBook (remove_order-IsValidBook d.heap a d.book v) a _
      (remove_order-IsAbsent d.heap a d.book v))
