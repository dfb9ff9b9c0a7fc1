-- ===== src/Injector.antt =====
-- libs/market-data/SyntheticDataInjector.h: the thread that feeds synthetic levels into an
-- OrderBookFeed. The random numbers and the arithmetic of the prices (`double`) are a parameter.
pub mod Exact
pub mod Rounds
pub mod Life
mod Tests
use scrimmage.Prelude.{ℕ, zero, suc, ◌+◌, ◌*◌, ◌≡◌, ◌≤◌, Bool, true, false, add_word}
use scrimmage.OrderBookFeed.{Order, Market, Feed, upsert}

-- `qtyDist(rng)`, `priceShift(rng)` added to the mid price, and the price `i` hundredths below and
-- above a price.
pub record Quotes (market : Market) : Type 1 where
  pub World : Type 0
  pub quantity : World → ℕ × World
  pub shift : market.Price → World → market.Price × World
  pub below : market.Price → ℕ → market.Price
  pub higher : market.Price → ℕ → market.Price

module _ (market : Market) (quotes : Quotes market) where
  -- The loop over the bids, with `n` rounds to go, and the one over the asks.
  unfoldable pub inject_bids :
      (n i : ℕ) (mid : market.Price) → quotes.World → Feed market → quotes.World × Feed market
  inject_bids zero i mid w f = (w, f)
  inject_bids (suc n) i mid w f =
      let (quantity, drawn) = quotes.quantity w in
      inject_bids n (suc i) mid drawn (
        upsert market true
          (record { id = add_word 64 i 1; price = quotes.below mid i; quantity = quantity }) f)

  unfoldable pub inject_asks :
      (n i : ℕ) (mid : market.Price) → quotes.World → Feed market → quotes.World × Feed market
  inject_asks zero i mid w f = (w, f)
  inject_asks (suc n) i mid w f =
      let (quantity, drawn) = quotes.quantity w in
      inject_asks n (suc i) mid drawn (
        upsert market false
          (record { id = add_word 64 i 1000; price = quotes.higher mid i; quantity = quantity }) f)

  -- `injectLoop` where `_running` is read as true `rounds` times.
  unfoldable pub inject_loop :
      (rounds levels : ℕ) (mid : market.Price) → quotes.World → Feed market → Feed market
  unfolding inject_bids inject_asks
  inject_loop zero levels mid w f = f
  inject_loop (suc rounds) levels mid w f =
      let (after_bids, bids_in) = inject_bids levels 0 mid w f in
      let (after_asks, asks_in) = inject_asks levels 0 mid after_bids bids_in in
      let (moved, shifted) = quotes.shift mid after_asks in
      inject_loop rounds levels moved shifted asks_in
