-- ===== src/MarketPipeline.antt =====
-- libs/market-data/MarketDataPipeline.h: an order message goes through the pool and the index into
-- the feed, and to the subscriber. `OrderPool` and `OrderIndex`, which are not in the repository, are
-- a parameter; a callback changes a state of the program's own, `S`.
pub mod Feeds
mod Tests
use scrimmage.Prelude.{ℕ, ◌≡◌, Bool, Option, none, some}
use scrimmage.OrderBookFeed.{Order, Market, Feed, upsert}

-- `OrderPool`, with the memory of its orders: `allocate` returns a pointer, `none` for a null pointer,
-- to an order that is new or used before, and leaves the arguments in it; `order_at` and `pool_index`
-- read what a pointer refers to at that time. And `OrderIndex::insert`.
pub record Stores (market : Market) : Type 1 where
  pub Pool : Type 0
  pub Pointer : Type 0
  pub allocate : (order_id : ℕ) → market.Price → (quantity : ℕ) → Pool → Option Pointer × Pool
  pub order_at : Pointer → Pool → Order (market.Price)
  pub pool_index : Pointer → Pool → ℕ
  pub Index : Type 0
  pub insert : (order_id pool_index : ℕ) → Index → Index
  pub allocated :
      (order_id : ℕ) (price : market.Price) (quantity : ℕ) (pool pool' : Pool) (o : Pointer)
      → allocate order_id price quantity pool ≡ (some o, pool')
      → order_at o pool' ≡ record { id = order_id; price = price; quantity = quantity }

-- The arguments of `processOrder`.
pub record Message (P : Type 0) : Type 0 where
  pub order_id : ℕ
  pub price : P
  pub quantity : ℕ
  pub side : Bool

-- The members and what they refer to.
pub record MarketPipeline (market : Market) (stores : Stores market) (S : Type 0) : Type 0 where
  pub pool : stores.Pool
  pub index : stores.Index
  pub feed : Feed market
  pub callback : Option (Order (market.Price) → S → S)

module _ (market : Market) (stores : Stores market) {S : Type 0} where
  -- `if (_callback) _callback(*o);`
  unfoldable pub call : Option (Order (market.Price) → S → S) → Order (market.Price) → S → S
  call callback o s = elim callback [ none ↦ s | some cb ↦ cb o s ]

  unfoldable pub set_order_callback :
      (Order (market.Price) → S → S)
      → MarketPipeline market stores S
      → MarketPipeline market stores S
  set_order_callback cb p = record p { callback = some cb }

  -- `processOrder`; `none` where it uses a null pointer.
  unfoldable pub process_order :
      Message (market.Price)
      → MarketPipeline market stores S
      → S
      → Option (MarketPipeline market stores S × S)
  unfolding call
  process_order msg p s =
      let run = stores.allocate msg.order_id msg.price msg.quantity p.pool in
      elim run.0 [
        | none ↦ none
        | some o ↦ some (
          record p {
            pool = run.1;
            index = stores.insert msg.order_id (stores.pool_index o run.1) p.index;
            feed = upsert market msg.side (stores.order_at o run.1) p.feed;
          },
          call p.callback (stores.order_at o run.1) s,
        )
      ]
