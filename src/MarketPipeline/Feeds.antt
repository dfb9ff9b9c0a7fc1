-- ===== src/MarketPipeline/Feeds.antt =====
-- Messages one by one through the pool, against what they are for the feed and the subscriber.
use scrimmage.Prelude.{◌≡◌, Bool, true, false, Option, none, some, List, [], ◌∷◌}
use scrimmage.OrderBookFeed.{Order, Market, Feed}
use scrimmage.OrderBookFeed.Depth.{Command, upsert_call}
use scrimmage.MarketPipeline.{Stores, Message, MarketPipeline, call, process_order}

module _ (market : Market) (stores : Stores market) where
  -- The order of a message.
  abbrev pub order_of : Message (market.Price) → Order (market.Price)
  order_of msg = record { id = msg.order_id; price = msg.price; quantity = msg.quantity }

  -- The pool gives an order for each message.
  unfoldable pub has_room : List (Message (market.Price)) → stores.Pool → Bool
  has_room [] pool = true
  has_room (msg ∷ msgs) pool =
      let run = stores.allocate msg.order_id msg.price msg.quantity pool in
      let rest = has_room msgs run.1 in elim run.0 [ none ↦ false | some o ↦ rest ]

  -- The calls of the feed that the messages are.
  abbrev pub upserts : List (Message (market.Price)) → List (Command market)
  upserts [] = []
  upserts (msg ∷ msgs) = upsert_call msg.side (order_of msg) ∷ upserts msgs

  module _ {S : Type 0} where
    abbrev pub hear : Option (Order (market.Price) → S → S) → List (Message (market.Price)) → S → S
    hear callback [] s = s
    hear callback (msg ∷ msgs) s = hear callback msgs (call market stores callback (order_of msg) s)

    -- `processOrder` on each message, up to the use of a null pointer.
    unfoldable pub process_all :
        List (Message (market.Price))
        → MarketPipeline market stores S
        → S
        → Option (MarketPipeline market stores S × S)
    unfolding process_order
    process_all [] p s = some (p, s)
    process_all (msg ∷ msgs) p s = elim (process_order market stores msg p s) [
      | none ↦ none
      | some (q, t) ↦ process_all msgs q t
    ]

    -- The feed `f`, and what the subscriber made of the messages, `t`.
    abbrev pub Feeds :
        (room : Bool) → Feed market → S → Option (MarketPipeline market stores S × S) → Type 0
    Feeds false f t run = run ≡ none
    Feeds true f t run = (q : MarketPipeline market stores S) × (run ≡ some (q, t)) × (q.feed ≡ f)
