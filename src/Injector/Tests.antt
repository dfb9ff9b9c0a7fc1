-- ===== src/Injector/Tests.antt =====
-- A run of the injector, and the theorem on concrete prices.
use scrimmage.Prelude.{ℕ, suc, ◌+◌, ◌-◌, ◌%◌, ◌≡◌, refl, List, [], ◌∷◌, true, arith}
use scrimmage.OrderBookFeed.{init, upsert, upsert_side, place, notify}
use scrimmage.OrderBookFeed.Sample.{market, order, insert, insertion_sort}
use scrimmage.Injector.{Quotes, inject_bids, inject_asks, inject_loop}
use scrimmage.Injector.Life.{Call, start_call, stop_call, construct, live, Ends, live-Ends}

-- Prices in hundredths; the random numbers count up.
abbrev quotes : Quotes market
quotes = record {
  World = ℕ;
  quantity = λ w. (w % 100 + 1, suc w);
  shift = λ mid w. (mid + 1, suc w);
  below = λ mid i. mid - i;
  higher = λ mid i. mid + i;
}

-- The second round moves both sides up by a hundredth.
inject_run :
    (inject_loop market quotes 2 2 10000 0 (init market 5)).bids
    ≡ order 1 10001 6 ∷ order 2 10000 7 ∷ []
unfolding inject_loop inject_bids inject_asks init upsert upsert_side place notify insert
    insertion_sort
inject_run = refl

-- Two sessions, of two rounds and of one.
abbrev calls : List (Call market quotes)
calls = start_call 2 2 0 ∷ stop_call ∷ stop_call ∷ start_call 3 1 50 ∷ []

live-Ends_example :
    Ends market quotes 5 10000 3 true
      (live market quotes 10000 calls (construct market quotes (init market 5)))
live-Ends_example = live-Ends market quotes 5 10000 calls (omega arith) (omega arith)
