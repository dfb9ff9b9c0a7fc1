-- ===== src/RingBuffer/Tests.antt =====
-- Runs of SpScRingBuffer.h on small rings.
use scrimmage.Prelude.{
  ℕ, zero, suc, ◌≡◌, ◌≢◌, ◌<◌, refl, true, false, none, some, List, [], ◌∷◌, ◌++◌, arith, length,
  replicate, Every, ◌==◌, if◌then◌else◌,
}
use scrimmage.RingBuffer.{
  Ring, IsValid, Round, init, increment, publish, try_push, try_pop, push, push_loop,
  update_high_water_mark, raise_mark,
}
use scrimmage.RingBuffer.Queue
use scrimmage.RingBuffer.Queue.{Queue, Call, pushes, pops}
use scrimmage.RingBuffer.Window.{window}
use scrimmage.RingBuffer.Refine.{contents, view, replies, replies_refine}
use scrimmage.RingBuffer.Mark.{after, high_water_mark-peak}
use scrimmage.RingBuffer.Push.{IsFull, IsLate, Ended, push-Ended, push_gives_up, push_finds_room}
use scrimmage.RingBuffer.Threads.{
  writing, reading, System, start, admit, write, release_head, raise, find_item, Reach, here, next,
}
use scrimmage.RingBuffer.Threads.Safety.{in_order, no_race}

abbrev storage : ℕ → ℕ
storage i = 0

-- A ring of three slots, two items in it, the second round the end.
abbrev wrapped : Ring ℕ
wrapped = record {
  buffer = λ i. if i == 2 then 7 else 8;
  head = 1;
  tail = 2;
  dropped = 0;
  high_water_mark = 2;
}

wrapped-IsValid : IsValid 3 wrapped
wrapped-IsValid = omega arith

contents-wrapped : contents 3 wrapped ≡ 7 ∷ 8 ∷ []
unfolding contents window increment
contents-wrapped = refl

abbrev script : List (Call ℕ)
script = pushes 1 ∷ pops ∷ pushes 2 ∷ pops ∷ pops ∷ pops ∷ []

replies-wrapped :
    replies 3 wrapped script
    ≡ (false, none)
      ∷ (true, some 7)
      ∷ (true, none)
      ∷ (true, some 8)
      ∷ (true, some 2)
      ∷ (false, none)
      ∷ []
unfolding replies try_push try_pop publish increment
replies-wrapped = refl

replies_refine_example : replies 3 wrapped script ≡ Queue.replies 2 (view 3 wrapped) script
replies_refine_example = replies_refine script wrapped wrapped-IsValid

high_water_mark-peak_example :
    (after 3 wrapped script).high_water_mark ≡ Queue.peak 2 (view 3 wrapped) 2 script
high_water_mark-peak_example =
    high_water_mark-peak script wrapped wrapped-IsValid (rw contents-wrapped (omega arith))

-- A round that sees the tail at `t`, `ns` nanoseconds after the start.
abbrev at_time : ℕ → ℕ → Round
at_time t ns = record {
  weather = record { seen_tail = t; later_tail = t; spurious = 0 };
  elapsed = ns;
}

push_room :
    push 3 wrapped 5 1 (at_time 2 10 ∷ at_time 0 20 ∷ [])
    ≡ some (true, publish 3 (at_time 0 20).weather wrapped 5)
unfolding push push_loop increment
push_room = refl

push-Ended_run :
    Ended 3 1 wrapped 5
      (at_time 2 10 ∷ at_time 0 20 ∷ [])
      true
      (publish 3 (at_time 0 20).weather wrapped 5)
push-Ended_run = push-Ended 3 1 wrapped 5 (at_time 2 10 ∷ at_time 0 20 ∷ []) push_room

push_finds_room_run :
    push 3 wrapped 5 1 (at_time 2 10 ∷ at_time 0 20 ∷ [])
    ≡ some (true, publish 3 (at_time 0 20).weather wrapped 5)
unfolding increment
push_finds_room_run =
    push_finds_room 3 1 wrapped 5 (at_time 2 10 ∷ []) (at_time 0 20) [] ((refl, omega arith), tt)
      (omega arith)

Every-replicate {κ} :
    (P : Round → Type κ) (n : ℕ) (round : Round) → P round → Every P (replicate n round)
Every-replicate P zero round h = tt
Every-replicate P (suc n) round h = (h, Every-replicate P n round h)

push_gives_up_example :
    push 3 wrapped 5 1 (at_time 2 10 ∷ replicate 1000 (at_time 2 1000000)) ≡ some (false, wrapped)
unfolding increment
push_gives_up_example =
    push_gives_up 3 1 wrapped 5 (at_time 2 10 ∷ []) (replicate 1000 (at_time 2 1000000)) (refl, tt)
      (Every-replicate (IsFull 3 1 wrapped 5) 1000 (at_time 2 1000000) refl)
      (Every-replicate (IsLate 3 1 wrapped 5) 1000 (at_time 2 1000000) (omega arith)) (omega arith)

-- One item pushed and the next one admitted, while the consumer has found the first.
abbrev busy : System ℕ
busy = record {
  ring = record {
    buffer = λ i. if 0 == i then 4 else storage i;
    head = 1;
    tail = 0;
    dropped = 0;
    high_water_mark = 1;
  };
  producer = writing 5 1 2;
  consumer = reading 0;
  pushed = 4 ∷ [];
  popped = [];
}

busy_reached : Reach 3 (start storage) busy
unfolding start init increment update_high_water_mark raise_mark
busy_reached =
    next
      (next
        (next
          (next (next (next here (admit _ 4 refl (omega arith))) (write _ 4 0 1 refl))
            (release_head _ 4 1 refl))
          (raise _ 1 0 refl))
        (find_item _ refl (omega arith)))
      (admit _ 5 refl (omega arith))

in_order_example : (4 ∷ [] ≡ [] ++ contents 3 busy.ring) × (length (contents 3 busy.ring) < 3)
in_order_example = in_order (omega arith) (omega arith) storage busy_reached

no_race_example : (◌≢◌ {A = ℕ} 1 0) × (1 < 3) × (0 < 3)
no_race_example = no_race (omega arith) (omega arith) storage busy_reached 5 1 2 0 refl refl
