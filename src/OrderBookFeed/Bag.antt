-- ===== src/OrderBookFeed/Bag.antt =====
-- A side of libs/market-data/OrderBookFeed.h with its order forgotten: how often each order stands on
-- it. As long as a side is not cut, the calls act on this view alone, whatever `std::sort` does with
-- equal prices.
pub mod Calls
use mathlib.Core.Quot
use mathlib.Core.Quot.{Quot, Quot-set}
use scrimmage.Prelude.{
  ℕ, zero, suc, ◌+◌, ◌≤◌, ◌≡◌, ◌≢◌, refl, sym, ap, ◌∙◌, inl, inr, Bool, true, false, not, ◌&&◌,
  List, [], ◌∷◌, ◌++◌, length-append, arith, ltb, ◌==◌, if◌then◌else◌, length, length-take, take,
  Bool-cases,
}
use scrimmage.OrderBookFeed.{
  Order, count, Market, Book, Feed, init, place, without, upsert_side, side_of, set_side, notify,
  upsert, remove,
}
use scrimmage.OrderBookFeed.Counts.{IsUnique, one_if, length-without}
use scrimmage.OrderBookFeed.Depth.{
  Command, upsert_call, remove_call, serve, IsFeed, upsert-IsFeed, remove-IsFeed, serve-IsFeed,
  count-upsert_side,
}

abbrev pub same_side : Bool → Bool → Bool
same_side true b = b
same_side false b = not b

module _ (market : Market) where
  -- The same orders, each as often.
  abbrev pub SameOrders : Book market → Book market → Type 0
  SameOrders xs ys = (test : Order (market.Price) → Bool) → count test xs ≡ count test ys

  abbrev pub Bag : Type 0
  Bag = Quot SameOrders

  abbrev pub bag_of : Book market → Bag
  bag_of = Quot.mk

  count-without_and :
      (id : ℕ) (book : Book market) (test : Order (market.Price) → Bool)
      → count test (without market id book) ≡ count (λ o. test o && not (o.id == id)) book
  unfolding without
  count-without_and id [] test = refl
  count-without_and id (x ∷ xs) test = ground (arith, count-without_and id xs test)

  without_same :
      (id : ℕ) (xs ys : Book market)
      → SameOrders xs ys
      → SameOrders (without market id xs) (without market id ys)
  without_same id xs ys same test =
      count-without_and id xs test
      ∙ same (λ o. test o && not (o.id == id))
      ∙ sym (count-without_and id ys test)

  -- The orders with another number.
  pub erase : ℕ → Bag → Bag
  erase id =
      Quot.lift Quot-set (λ xs. bag_of (without market id xs))
        λ xs ys same. Quot.sound (without_same id xs ys same)

  -- The new order in place of the one with its number.
  pub put : Order (market.Price) → Bag → Bag
  put o =
      Quot.lift Quot-set (λ xs. bag_of (o ∷ without market o.id xs))
        λ xs ys same. Quot.sound λ test. ground (arith, without_same o.id xs ys same test)

  -- The calls for one side.
  abbrev pub put_all : Bool → List (Command market) → Bag → Bag
  put_all side [] x = x
  put_all side (upsert_call b o ∷ calls) x =
      put_all side calls (if same_side side b then put o x else x)
  put_all side (remove_call b id ∷ calls) x =
      put_all side calls (if same_side side b then erase id x else x)

  without_comm :
      (id other : ℕ) (xs : Book market)
      → without market id (without market other xs) ≡ without market other (without market id xs)
  unfolding without
  without_comm id other [] = refl
  without_comm id other (x ∷ xs) = ground (arith, without_comm id other xs)

  -- Two orders with different numbers may come in either order.
  pub put_comm :
      (a b : Order (market.Price)) → a.id ≢ b.id → (x : Bag) → put a (put b x) ≡ put b (put a x)
  unfolding put without
  put_comm a b apart =
      Quot.ind (λ x. Quot-set _ _)
        λ xs. Quot.sound λ test. ground (arith, apart, without_comm a.id b.id xs)

  length-place :
      (o : Order (market.Price)) (book : Book market)
      → length (place market o book) ≤ suc (length book)
  unfolding place
  length-place o [] = omega arith
  length-place o (x ∷ xs) = ground (arith, length-place o xs)

  pub length-upsert_side :
      (max_levels : ℕ) (side : Bool) (o : Order (market.Price)) (book : Book market)
      → length (upsert_side market max_levels side o book) ≤ suc (length book)
  unfolding upsert_side
  length-upsert_side max_levels side o book =
      let sorted = market.sort side (place market o book) in
      ground (
        arith,
        length-place o book,
        market.sort_length side (place market o book),
        length-take max_levels sorted,
      )

  pub bag-upsert_side :
      (max_levels : ℕ) (side : Bool) (o : Order (market.Price)) (book : Book market)
      → IsUnique market book
      → suc (length book) ≤ max_levels
      → bag_of (upsert_side market max_levels side o book) ≡ put o (bag_of book)
  unfolding put
  bag-upsert_side max_levels side o book once room = Quot.sound λ test. ground (
    arith,
    count-upsert_side market max_levels side o book test once
        (omega (arith, length-place o book, room)),
  )
