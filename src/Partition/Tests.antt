-- ===== src/Partition/Tests.antt =====
-- Runs of a partition, and the theorems on concrete orders.
use scrimmage.Prelude.{ℕ, suc, ◌≡◌, refl, true, Option, none, some, List, [], ◌∷◌, map, arith}
use scrimmage.Prelude.Int.{ℤ, pos}
use scrimmage.RingBuffer.{try_push, try_pop, increment, publish}
use scrimmage.RingBuffer.Refine.{contents}
use scrimmage.Orders.{Order}
use scrimmage.Partition.{
  Outside, ExecutionReport, Partition, construct, full_fill, submit_order, process_orders,
}
use scrimmage.Partition.Service.{desk, Processed, process_orders_refines}
use scrimmage.Partition.Fills.{submit_call, process_call, serve, Served, serve-Served, reported}

-- A clock that ticks, and a connection that takes eight bytes at once and then fails.
abbrev calm : Outside
calm = record {
  World = ℕ;
  Real = ℤ;
  real = λ price. price;
  clock = λ w. (w, suc w);
  send_answers = λ w. (pos 8 ∷ [], w);
}

abbrev order : ℕ → Order
order id = record {
  symbol = 65 ∷ 0 ∷ [];
  order_id = id;
  price = pos 100;
  quantity = 7;
  is_buy = true;
}

abbrev blank : ExecutionReport ℤ
blank = full_fill calm (order 0) 0

abbrev range : List ℕ → List ℕ → Partition calm
range symbol_start symbol_end = construct calm symbol_start symbol_end (λ i. order 0) (λ i. blank) 5

-- A ring of three slots: two orders wait, the third is refused; of three reports one is refused.
abbrev two_then_one : Option (List Order × Partition calm)
two_then_one =
    serve calm 3 80
      (submit_call (order 1)
        ∷ submit_call (order 2)
        ∷ submit_call (order 3)
        ∷ process_call
        ∷ submit_call (order 4)
        ∷ process_call
        ∷ [])
      [] (range (65 ∷ []) (69 ∷ []))

report_run :
    (elim two_then_one [
      | none ↦ []
      | some (taken, p) ↦ map (λ r. r.order_id) (reported calm 3 80 p.outputs)
    ])
    ≡ 1 ∷ 2 ∷ 4 ∷ []
unfolding serve construct submit_order process_orders try_pop try_push increment publish
report_run = refl

serve-Served_example : Served calm 3 80 two_then_one
serve-Served_example =
    serve-Served calm 3 80
      (submit_call (order 1)
        ∷ submit_call (order 2)
        ∷ submit_call (order 3)
        ∷ process_call
        ∷ submit_call (order 4)
        ∷ process_call
        ∷ [])
      (65 ∷ []) (69 ∷ []) (λ i. order 0) (λ i. blank) 5 (omega arith) (omega arith)

-- One order waits.
abbrev waiting_one : Partition calm
waiting_one = (submit_order calm 3 80 (order 1) (range (65 ∷ []) (69 ∷ []))).1

process_orders_refines_example :
    Processed calm 3 80
      (contents 3 waiting_one.orders)
      (desk calm 3 80 waiting_one)
      (process_orders calm 3 80 3 waiting_one)
unfolding construct submit_order try_push publish increment
process_orders_refines_example =
    process_orders_refines calm 3 80 waiting_one
      (record {
        not_zero = omega arith;
        addressable = omega arith;
        head_in = omega arith;
        tail_in = omega arith;
      })
      (record {
        not_zero = omega arith;
        addressable = omega arith;
        head_in = omega arith;
        tail_in = omega arith;
      })
