-- ===== src/PriceLevels/Tests.antt =====
-- Runs of the levels, and the theorems on concrete entries.
use scrimmage.Prelude.{
  ◌+◌, List, none, ℕ, ◌≡◌, refl, some, [], ◌∷◌, arith, update, update_self, update_ne,
}
use scrimmage.PriceLevels.{
  Entry, EntryPool, Level, Levels, price_to_level, level_to_price, nil, empty_level, append_to, cut,
  unlink_loop, unlink_from,
}
use scrimmage.PriceLevels.Fifo.{IsLevel, append_to-IsLevel}
use scrimmage.PriceLevels.Prices.{price_to_level-level_to_price}
use scrimmage.PriceLevels.Unlink.{Leaves, unlink_from-Leaves}
use scrimmage.PriceLevels.Whole.{Command, append_call, unlink_call, reduce_call}

-- Entries in an array.
abbrev array : EntryPool
array = record {
  Store = ℕ → Entry;
  entry = λ s i. s i;
  put = λ i e s. update s i e;
  entry-put_self = λ i e s. update_self s i e;
  entry-put_ne = λ i j e s. update_ne s i j e;
}

abbrev entries : ℕ → Entry
entries i = record { level_index = 0; next_index = nil; quantity = 10 + i }

abbrev one_order : Level × (ℕ → Entry)
one_order = append_to array 2 4 empty_level entries

abbrev two_orders : Level × (ℕ → Entry)
two_orders = append_to array 2 7 one_order.0 one_order.1

-- The first of two orders is unlinked.
unlink_run :
    (elim (unlink_from array 3 4 two_orders.0 two_orders.1) [ none ↦ empty_level | some r ↦ r.1.0 ])
    ≡ record { head = 7; tail = 7; total_qty = 17 }
unfolding append_to cut unlink_loop unlink_from
unlink_run = refl

append_to-IsLevel_run : IsLevel array two_orders.1 two_orders.0 (4 ∷ 7 ∷ [])
unfolding append_to
append_to-IsLevel_run =
    append_to-IsLevel array 2 7 one_order.1 one_order.0 (4 ∷ [])
      ((refl, tt), ((refl, (omega arith, refl)), (refl, refl))) refl (omega arith)

unlink_from-Leaves_run :
    Leaves array 4 two_orders.1 (7 ∷ []) (unlink_from array 3 4 two_orders.0 two_orders.1)
unfolding append_to
unlink_from-Leaves_run =
    unlink_from-Leaves array 4 two_orders.1 3 two_orders.0 [] (7 ∷ [])
      ((refl, (refl, tt)), ((refl, (omega arith, (refl, (omega arith, refl)))), (refl, refl)))
      (omega arith) (omega arith)

-- The reference price is 50 below 2 ^ 32, so that the price of level 5 wraps.
abbrev ticks : Levels
ticks = record { levels = []; best_level = nil; tick_size = 25; ref_price = 4294967246 }

price_run : level_to_price 5 ticks ≡ 75
unfolding level_to_price
price_run = refl

price_to_level-level_to_price_example : price_to_level 16 (level_to_price 5 ticks) ticks ≡ 5
price_to_level-level_to_price_example =
    price_to_level-level_to_price 4 5 ticks (omega arith) (omega arith) (omega arith) (omega arith)
      (omega arith)

-- Three entries on two levels; one is reduced, and the two of level 0 are unlinked.
abbrev calls : List Command
calls =
    append_call 0 4
    ∷ append_call 0 7
    ∷ append_call 2 5
    ∷ reduce_call 7 3
    ∷ unlink_call 4
    ∷ unlink_call 7
    ∷ []

abbrev four_levels : Levels
four_levels = record {
  levels = empty_level ∷ empty_level ∷ empty_level ∷ empty_level ∷ [];
  best_level = nil;
  tick_size = 1;
  ref_price = 0;
}

-- All entries have a quantity of 10.
abbrev entries_of : ℕ → Entry
entries_of i = record { level_index = 0; next_index = nil; quantity = 10 }
