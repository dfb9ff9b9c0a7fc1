-- ===== src/OrderBook/Emptied.antt =====
-- Books behind `reset` and `setTickSize`.
use scrimmage.Prelude.{ℕ, ◌≡◌, refl, List, [], ◌∷◌, map}
use scrimmage.PriceLevels.{Level, Levels, empty_level, active_count, has_orders, set_tick_size}
use scrimmage.Orders.Slots.{find, free_slot}
use scrimmage.OrderBook.{
  OrderPool, OrderBook, construct, new_levels, reset, set_tick, order_count, bid_level_count,
  ask_level_count,
}

emptied : (levels : List Level) → active_count (map (λ lvl. empty_level) levels) ≡ 0
unfolding active_count
emptied [] = refl
emptied (lvl ∷ levels) = emptied levels

module _ (pools : OrderPool) where
  -- The calls that a program can make of a book.
  pub data Command : Type 0 where
    reset_call : Command
    tick_call : ℕ → Command

  abbrev pub serve : List Command → OrderBook pools → OrderBook pools
  serve [] b = b
  serve (reset_call ∷ calls) b = serve calls (reset pools b)
  serve (tick_call tick_size ∷ calls) b = serve calls (set_tick pools tick_size b)

  -- The book and both its sides have one tick size.
  abbrev pub IsTicked : OrderBook pools → Type 0
  IsTicked b = (b.bids.tick_size ≡ b.tick_size) × (b.asks.tick_size ≡ b.tick_size)

  serve-IsTicked :
      (calls : List Command) (b : OrderBook pools) → IsTicked b → IsTicked (serve calls b)
  unfolding reset set_tick scrimmage.PriceLevels.reset set_tick_size
  serve-IsTicked [] b h = h
  serve-IsTicked (reset_call ∷ calls) b h = serve-IsTicked calls (reset pools b) h
  serve-IsTicked (tick_call tick_size ∷ calls) b h =
      serve-IsTicked calls (set_tick pools tick_size b) (refl, refl)

  -- Behind any calls of `reset` and `setTickSize` on a new book, and one more `reset`: neither side
  -- has a level with orders, the map has no number, the pool has been reset, and the sides still have
  -- the tick size of the book.
  pub reset-IsEmpty :
      (max_levels map_size : ℕ) (new_pool : pools.Store) (calls : List Command) (order_id : ℕ)
      → let before = serve calls (construct pools max_levels new_pool) in
        let b = reset pools before in
        ((bid_level_count pools b ≡ 0) × (ask_level_count pools b ≡ 0))
        × ((find map_size order_id b.map ≡ free_slot)
            × ((order_count pools b ≡ pools.active_count (pools.reset before.pool)) × IsTicked b))
  unfolding reset bid_level_count ask_level_count order_count construct new_levels find
      scrimmage.PriceLevels.reset
  reset-IsEmpty max_levels map_size new_pool calls order_id =
      let before = serve calls (construct pools max_levels new_pool) in
      let ticked = serve-IsTicked calls (construct pools max_levels new_pool) (refl, refl) in
      ((emptied before.bids.levels, emptied before.asks.levels), (refl, (refl, ticked)))
