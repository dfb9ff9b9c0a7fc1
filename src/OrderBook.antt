-- ===== src/OrderBook.antt =====
-- libs/match/OrderBook.h: a pool of orders, the map from their numbers, and the levels of both sides.
-- Its `OrderPool` is not in the repository and is a parameter; addOrder, cancelOrder, modifyOrder and
-- the matching are declared only.
pub mod Emptied
mod Tests
use scrimmage.Prelude.{ℕ, Bool, true, false, List, replicate}
use scrimmage.PriceLevels.{Levels, empty_level, nil, set_tick_size, active_count}
use scrimmage.PriceLevels
use scrimmage.Orders.Slots.{OrderMap}
use scrimmage.Orders.Slots

-- `OrderPool::reset` and `activeCount`.
pub record OrderPool : Type 1 where
  pub Store : Type 0
  pub reset : Store → Store
  pub active_count : Store → ℕ

pub record OrderBook (pools : OrderPool) : Type 0 where
  pub pool : pools.Store
  pub map : OrderMap
  pub bids : Levels
  pub asks : Levels
  pub tick_size : ℕ
  pub ref_price_set : Bool

-- The levels of a new book.
unfoldable pub new_levels : (max_levels : ℕ) → Levels
new_levels max_levels = record {
  levels = replicate max_levels empty_level;
  best_level = nil;
  tick_size = 1;
  ref_price = 0;
}

module _ (pools : OrderPool) where
  unfoldable pub construct : (max_levels : ℕ) → pools.Store → OrderBook pools
  unfolding new_levels
  construct max_levels new_pool = record {
    pool = new_pool;
    map = Slots.reset;
    bids = new_levels max_levels;
    asks = new_levels max_levels;
    tick_size = 1;
    ref_price_set = false;
  }

  unfoldable pub reset : OrderBook pools → OrderBook pools
  reset b = record b {
    pool = pools.reset b.pool;
    map = Slots.reset;
    bids = PriceLevels.reset b.bids;
    asks = PriceLevels.reset b.asks;
    ref_price_set = false;
  }

  -- `setTickSize` of the book.
  unfoldable pub set_tick : ℕ → OrderBook pools → OrderBook pools
  set_tick tick_size b = record b {
    bids = set_tick_size tick_size b.bids;
    asks = set_tick_size tick_size b.asks;
    tick_size = tick_size;
  }

  unfoldable pub order_count : OrderBook pools → ℕ
  order_count b = pools.active_count b.pool

  unfoldable pub bid_level_count : OrderBook pools → ℕ
  bid_level_count b = active_count b.bids.levels

  unfoldable pub ask_level_count : OrderBook pools → ℕ
  ask_level_count b = active_count b.asks.levels
