-- ===== src/OrderBookFeed/Tests.antt =====
-- Runs of a feed, and the theorems at concrete orders.
mod Locked
use scrimmage.Prelude.{◌+◌, ◌≡◌, refl, true, [], ◌∷◌, arith, ◌==◌}
use scrimmage.OrderBookFeed.{count, Feed, init, place, without, upsert_side, notify, upsert}
use scrimmage.OrderBookFeed.Sample.{market, order, insert, insertion_sort}
use scrimmage.OrderBookFeed.Counts.{IsUnique, one_if}
use scrimmage.OrderBookFeed.Bag.{bag_of}
use scrimmage.OrderBookFeed.Bag.Calls.{serve_swap}
use scrimmage.OrderBookFeed.Depth.{
  IsFeed, upsert_call, remove_call, serve, serve-IsFeed, count-upsert_side,
}

serve_run :
    (serve market
      (upsert_call true (order 1 100 5)
        ∷ upsert_call true (order 2 101 5)
        ∷ upsert_call true (order 3 99 5)
        ∷ upsert_call true (order 1 102 7)
        ∷ [])
      (init market 2)).bids
    ≡ order 1 102 7 ∷ order 2 101 5 ∷ []
unfolding init upsert upsert_side place notify insert insertion_sort
serve_run = refl

serve-IsFeed_example : IsFeed market (
    serve market
      (upsert_call true (order 1 100 5)
        ∷ upsert_call true (order 2 101 5)
        ∷ remove_call true 1
        ∷ [])
      (init market 2))
serve-IsFeed_example =
    serve-IsFeed market
      (upsert_call true (order 1 100 5)
        ∷ upsert_call true (order 2 101 5)
        ∷ remove_call true 1
        ∷ [])
      2

one_each : IsUnique market (order 1 100 5 ∷ order 2 99 5 ∷ [])
one_each id = ground arith

count-upsert_side_run :
    count
      (λ o. o.quantity == 5)
      (upsert_side market 4 true (order 2 101 7) (order 1 100 5 ∷ order 2 99 5 ∷ []))
    ≡ count (λ o. o.quantity == 5) (without market 2 (order 1 100 5 ∷ order 2 99 5 ∷ []))
      + one_if market (7 == 5)
unfolding place
count-upsert_side_run =
    count-upsert_side market 4 true (order 2 101 7) (order 1 100 5 ∷ order 2 99 5 ∷ [])
      (λ o. o.quantity == 5) one_each (omega arith)

abbrev two_bids : Feed market
two_bids = record {
  max_levels = 4;
  bids = order 2 101 5 ∷ order 1 100 5 ∷ [];
  asks = [];
  has_callback = true;
  updates = 2;
}

-- Two bids of one price and of different numbers, in either order.
serve_swap_example :
    bag_of market
      (serve market
        (upsert_call true (order 1 100 5)
          ∷ upsert_call true (order 2 100 7)
          ∷ remove_call true 1
          ∷ [])
        (init market 4)).bids
    ≡ bag_of market
        (serve market
          (upsert_call true (order 2 100 7)
            ∷ upsert_call true (order 1 100 5)
            ∷ remove_call true 1
            ∷ [])
          (init market 4)).bids
serve_swap_example =
    serve_swap market true [] (remove_call true 1 ∷ []) true true (order 1 100 5) (order 2 100 7) 4
      (omega arith) (omega arith)
