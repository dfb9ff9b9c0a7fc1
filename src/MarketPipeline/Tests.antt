-- ===== src/MarketPipeline/Tests.antt =====
-- A run of the market data pipeline, and the theorem on concrete messages.
use scrimmage.Prelude.{
  ℕ, zero, suc, ◌≡◌, refl, sym, ap, Bool, true, false, Option, none, some, List, [], ◌∷◌, ◌++◌,
}
use scrimmage.OrderBookFeed.{Order, init, upsert, upsert_side, place, notify}
use scrimmage.OrderBookFeed.Sample.{market, order, insert, insertion_sort}
use scrimmage.MarketPipeline.{
  Stores, Message, MarketPipeline, call, set_order_callback, process_order,
}
use scrimmage.MarketPipeline.Feeds.{process_all, Feeds}

-- A pool of so many calls, which gives the same order each time, and an index that lists what was put
-- into it.
abbrev Reused : Type 0
Reused = ℕ × Order ℕ

reuse : (id price quantity : ℕ) → Reused → Option ℕ × Reused
reuse id price quantity (zero, o) = (none, (0, o))
reuse id price quantity (suc left, o) = (some 0, (left, order id price quantity))

reuse-allocated :
    (id price quantity : ℕ) (pool pool' : Reused) (o : ℕ)
    → reuse id price quantity pool ≡ (some o, pool')
    → pool'.1 ≡ order id price quantity
unfolding reuse
reuse-allocated id price quantity (zero, kept) pool' o e = cc
reuse-allocated id price quantity (suc left, kept) pool' o e = ap (λ r. r.1.1) (sym e)

abbrev stores : Stores market
stores = record {
  Pool = Reused;
  Pointer = ℕ;
  allocate = reuse;
  order_at = λ o pool. pool.1;
  pool_index = λ o pool. 0;
  Index = List (ℕ × ℕ);
  insert = λ id pool_index index. (id, pool_index) ∷ index;
  allocated = reuse-allocated;
}

abbrev message : ℕ → ℕ → Bool → Message ℕ
message id price side = record { order_id = id; price = price; quantity = 7; side = side }

abbrev messages : List (Message ℕ)
messages = message 1 100 true ∷ message 2 101 true ∷ message 3 102 false ∷ []

-- The subscriber keeps the numbers of the orders.
abbrev pipeline : ℕ → MarketPipeline market stores (List ℕ)
pipeline free =
    set_order_callback market stores (λ o ids. ids ++ o.id ∷ [])
      (record { pool = (free, order 0 0 0); index = []; feed = init market 5; callback = none })

abbrev bids_of : Option (MarketPipeline market stores (List ℕ) × List ℕ) → List (Order ℕ) × List ℕ
bids_of none = ([], [])
bids_of (some (p, ids)) = (p.feed.bids, ids)

abbrev fed : List (Order ℕ) × List ℕ
fed = (order 2 101 7 ∷ order 1 100 7 ∷ [], 1 ∷ 2 ∷ 3 ∷ [])

process_all_run : bids_of (process_all market stores messages (pipeline 4) []) ≡ fed
unfolding process_all process_order call set_order_callback reuse init upsert upsert_side place
    notify insert insertion_sort
process_all_run = refl

process_all_null : process_all market stores messages (pipeline 2) [] ≡ none
unfolding process_all process_order set_order_callback reuse
process_all_null = refl
