-- ===== src/Orders/Tests.antt =====
-- Runs of the orders' containers, and the theorems on concrete orders.
use scrimmage.Prelude.{ℕ, ◌≡◌, ◌≢◌, true, none, ◌^◌, List, [], ◌∷◌, arith, replicate}
use scrimmage.Orders.Slots.{reset, slot, insert, find, insert-find}
use scrimmage.Orders.Slots.Table.{
  Command, insert_call, erase_call, find_call, serve, answers, serve-answers,
}
use scrimmage.Orders.Pool.{init, free, allocate_many, free_loses}

abbrev blank : List ℕ
blank = replicate 16 204

insert-find_run :
    ((insert 8192 70000 3 66 reset).0 ≡ true)
    × ((find 8192 70000 (insert 8192 70000 3 66 reset).1 ≡ record { pool_index = 3; side = 66 })
        × (slot 8192 70000 ≢ slot 8192 1
            → find 8192 1 (insert 8192 70000 3 66 reset).1 ≡ find 8192 1 reset))
unfolding slot find
insert-find_run = insert-find 8192 70000 1 3 66 reset (omega arith)

free_loses_example :
    (allocate_many 2 (free blank 2 (allocate_many 3 (init blank 3)).1)).0 ≡ 2 ∷ 0 ∷ []
free_loses_example =
    free_loses blank 2 (allocate_many 3 (init blank 3)).1 (λ e. absurd (omega (arith, e)))

-- 1 and 9 share a slot of eight.
abbrev shared_slot : List Command
shared_slot =
    insert_call 1 4 66
    ∷ insert_call 9 5 66
    ∷ find_call 1
    ∷ erase_call 9
    ∷ find_call 1
    ∷ insert_call 9 6 83
    ∷ find_call 9
    ∷ []

serve-answers_example : (serve (2 ^ 3) shared_slot reset).0 ≡ answers 3 shared_slot (λ i. none)
serve-answers_example =
    serve-answers 3 shared_slot (omega arith)
      (omega arith, (omega arith, (tt, (tt, (tt, (omega arith, (tt, tt)))))))
