-- ===== src/OrderBookFeed.antt =====
-- libs/market-data/OrderBookFeed.h: the orders of one product, best price first on each side. The
-- calls are taken one at a time, as the mutex makes them. `std::sort` and the prices (`double`) are
-- a parameter.
pub mod Counts
pub mod Depth
pub mod Sample
pub mod Bag
pub mod Locked
mod Tests
use scrimmage.Prelude.{
  ℕ, zero, suc, ◌+◌, ◌≡◌, Bool, true, false, not, List, [], ◌∷◌, ◌++◌, ltb, ◌==◌, if◌then◌else◌,
  length, take, Every,
}

pub record Order (P : Type 0) : Type 0 where
  pub id : ℕ
  pub price : P
  pub quantity : ℕ

module _ {P : Type 0} where
  abbrev pub count : (Order P → Bool) → List (Order P) → ℕ
  count test [] = 0
  count test (o ∷ os) = if test o then suc (count test os) else count test os

  -- The comparison that is given to `std::sort`.
  abbrev pub before : (above : P → P → Bool) → (side : Bool) → Order P → Order P → Bool
  before above side a b = if side then above (a.price) (b.price) else above (b.price) (a.price)

  -- No order stands behind one that it should stand before.
  abbrev pub IsSorted : (above : P → P → Bool) → (side : Bool) → List (Order P) → Type 0
  IsSorted above side [] = Unit
  IsSorted above side (o ∷ os) =
      Every (λ later. before above side later o ≡ false) os × IsSorted above side os

-- The prices and `std::sort` with a comparison of prices: it permutes, so that as many orders pass
-- any test as did before, and its result is sorted.
pub record Market : Type 1 where
  pub Price : Type 0
  pub above : Price → Price → Bool
  pub sort : Bool → List (Order Price) → List (Order Price)
  pub sort_count :
      (side : Bool) (test : Order Price → Bool) (os : List (Order Price))
      → count test (sort side os) ≡ count test os
  pub sort_length : (side : Bool) (os : List (Order Price)) → length (sort side os) ≡ length os
  pub sort_sorted : (side : Bool) (os : List (Order Price)) → IsSorted above side (sort side os)

module _ (market : Market) where
  abbrev pub Book : Type 0
  Book = List (Order (market.Price))

  -- The members; `updates` counts the calls of `_callback`, if there is one.
  pub record Feed : Type 0 where
    pub max_levels : ℕ
    pub bids : Book
    pub asks : Book
    pub has_callback : Bool
    pub updates : ℕ

  unfoldable pub init : (max_levels : ℕ) → Feed
  init max_levels = record {
    max_levels = max_levels;
    bids = [];
    asks = [];
    has_callback = false;
    updates = 0;
  }

  -- Overwrites the first order with the number of `o`, or appends `o`.
  unfoldable pub place : Order (market.Price) → Book → Book
  place o [] = o ∷ []
  place o (x ∷ xs) = let rest = place o xs in if x.id == o.id then o ∷ xs else x ∷ rest

  -- The orders with another number.
  unfoldable pub without : ℕ → Book → Book
  without id [] = []
  without id (x ∷ xs) = let rest = without id xs in if x.id == id then rest else x ∷ rest

  -- What `upsert` makes of its side of the book.
  unfoldable pub upsert_side : (max_levels : ℕ) → Bool → Order (market.Price) → Book → Book
  unfolding place
  upsert_side max_levels side o book =
      let sorted = market.sort side (place o book) in
      if ltb max_levels (length sorted) then take max_levels sorted else sorted

  abbrev pub side_of : Bool → Feed → Book
  side_of side f = if side then f.bids else f.asks

  abbrev pub set_side : Bool → Book → Feed → Feed
  set_side side book f = if side then record f { bids = book } else record f { asks = book }

  -- `if (_callback) _callback();` The calls are counted; a callback that uses the feed is in Locked.
  unfoldable pub notify : Feed → Feed
  notify f = if f.has_callback then record f { updates = suc (f.updates) } else f

  unfoldable pub upsert : Bool → Order (market.Price) → Feed → Feed
  unfolding upsert_side notify
  upsert side o f = notify (set_side side (upsert_side (f.max_levels) side o (side_of side f)) f)

  unfoldable pub remove : Bool → ℕ → Feed → Feed
  unfolding without notify
  remove side id f = notify (set_side side (without id (side_of side f)) f)

  unfoldable pub set_update_callback : Feed → Feed
  set_update_callback f = record f { has_callback = true }

  unfoldable pub snapshot : Feed → Book × Book
  snapshot f = (f.bids, f.asks)
