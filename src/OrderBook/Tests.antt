-- ===== src/OrderBook/Tests.antt =====
-- Runs of a book.
use scrimmage.Prelude.{ℕ, ◌≡◌, refl, List, [], ◌∷◌}
use scrimmage.PriceLevels.{level_to_price, set_tick_size}
use scrimmage.Orders.Slots.{find, free_slot}
use scrimmage.OrderBook.{
  OrderPool, construct, new_levels, reset, set_tick, order_count, bid_level_count, ask_level_count,
}
use scrimmage.OrderBook.Emptied.{Command, reset_call, tick_call, serve, IsTicked, reset-IsEmpty}

-- A pool that only counts its orders.
abbrev counter : OrderPool
counter = record { Store = ℕ; reset = λ s. 0; active_count = λ s. s }

abbrev calls : List (Command counter)
calls = tick_call 5 ∷ reset_call ∷ tick_call 25 ∷ []

tick_run : level_to_price 4 (serve counter calls (construct counter 8 3)).asks ≡ 100
unfolding construct new_levels reset set_tick set_tick_size level_to_price
    scrimmage.PriceLevels.reset
tick_run = refl

reset_run :
    let b = reset counter (serve counter calls (construct counter 8 3)) in
    ((bid_level_count counter b ≡ 0) × (ask_level_count counter b ≡ 0))
    × ((find 16 77 b.map ≡ free_slot) × ((order_count counter b ≡ 0) × IsTicked counter b))
reset_run = reset-IsEmpty counter 8 16 3 calls 77
