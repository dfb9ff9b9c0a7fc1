-- ===== src/RingConsumer/Tests.antt =====
-- Runs of a consumer, and the theorems on concrete rings and calls.
use scrimmage.Prelude.{
  ℕ, ◌+◌, ◌≤◌, ◌<◌, ◌≡◌, ◌⊎◌, refl, true, false, some, none, List, [], ◌∷◌, arith, replicate, Every,
  ◌∈◌,
}
use scrimmage.Prelude.Int.{pos, eq_ℤ}
use scrimmage.RingBuffer.{Ring, IsValid, init, try_push, try_pop, publish, increment}
use scrimmage.RingBuffer.Refine.{contents}
use scrimmage.RingBuffer.Window.{window}
use scrimmage.RingConsumer.Bootstrap.{
  Host, aborted, worked, no_affinity, warmup_stack, warm_loop, apply_affinity, bootstrap,
  warmup_stack_lem, bootstrap-Outcome,
}
use scrimmage.RingConsumer.{Thread, Machine, consume_loop, pop_overlapping}
use scrimmage.RingConsumer.Loop.{
  Delivered, consume_loop-Delivered, consume_loop_drains, pop_overlapping_repeats,
}
use scrimmage.RingConsumer.Handles.{start_call, stop_call, run, new_machine, run-threads}

abbrev ring : Ring ℕ
ring = init (λ i. 0)

-- Two items wait in a ring of four slots.
abbrev two_items : Ring ℕ
two_items = record (init (λ i. 5 + i)) { head = 2 }

two_items-IsValid : IsValid 4 two_items
unfolding init
two_items-IsValid = record {
  not_zero = omega arith;
  addressable = omega arith;
  head_in = omega arith;
  tail_in = omega arith;
}

consume_run : (consume_loop 4 ((1 ∷ 2 ∷ []) ∷ [] ∷ (3 ∷ []) ∷ []) ring).0 ≡ 1 ∷ 2 ∷ 3 ∷ []
unfolding consume_loop init try_push try_pop publish increment
consume_run = refl

consume_loop-Delivered_example :
    Delivered 4 (contents 4 two_items) (consume_loop 4 ((1 ∷ 2 ∷ []) ∷ [] ∷ []) two_items)
consume_loop-Delivered_example =
    consume_loop-Delivered 4 ((1 ∷ 2 ∷ []) ∷ [] ∷ []) two_items two_items-IsValid

consume_loop_drains_example :
    let run = consume_loop 4 (replicate 3 []) two_items in
    (run.0 ≡ contents 4 two_items) × (contents 4 run.2 ≡ [])
unfolding contents window init
consume_loop_drains_example = consume_loop_drains 4 3 two_items two_items-IsValid (omega arith)

pop_overlapping_repeats_run :
    let run = pop_overlapping 4 two_items in
    (run.0 ≡ 5 ∷ 5 ∷ []) × (contents 4 two_items ≡ 5 ∷ contents 4 run.1)
unfolding init
pop_overlapping_repeats_run =
    pop_overlapping_repeats 4 two_items two_items-IsValid (λ e. absurd (omega (arith, e)))

threads_run : (run (start_call ∷ stop_call ∷ start_call ∷ []) none new_machine).threads ≡ []
threads_run = run-threads (start_call ∷ stop_call ∷ start_call ∷ [])

abbrev one_thread : Machine
one_thread = record { threads = record { number = 3; stop_flag = false } ∷ []; next_number = 7 }

-- A system that refuses to pin anything, and a worker that counts its runs.
abbrev host : Host
host = record { World = ℕ; set_affinity = λ cpu w. (pos 22, w + 100); work = λ stopped w. w + 1 }

abbrev thread : Thread
thread = record { number = 0; stop_flag = false }

-- Without assertions a refusal is not noticed: the worker runs unpinned.
unpinned_run : bootstrap host false (pos 3) (λ i. 0) thread 5 ≡ some (worked 106)
unfolding bootstrap apply_affinity warmup_stack warm_loop
unpinned_run = refl

warmup_stack_lem_example :
    (places : List ℕ) × (warm : ℕ → ℕ) × (warmup_stack (λ i. 7) ≡ some (places, warm))
    × Every (λ p. p < 65536) places
    × ((a : ℕ) → a < 65536 → (p : ℕ) × (p ∈ places) × (p ≤ a) × (a < p + 64))
warmup_stack_lem_example = warmup_stack_lem (λ i. 7)

bootstrap-Outcome_run :
    let run = bootstrap host true (pos 3) (λ i. 7) thread 5 in
    ((eq_ℤ (pos 3) no_affinity ≡ true) × (run ≡ some (worked 6)))
    ⊎ (((eq_ℤ (pos 22) (pos 0) ≡ true) × (run ≡ some (worked 106)))
        ⊎ (((eq_ℤ (pos 22) (pos 0) ≡ false) × (true ≡ false) × (run ≡ some (worked 106)))
            ⊎ ((eq_ℤ (pos 22) (pos 0) ≡ false) × (true ≡ true) × (run ≡ some (aborted 105)))))
bootstrap-Outcome_run = bootstrap-Outcome host true (pos 3) (λ i. 7) thread 5
