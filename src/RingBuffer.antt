-- ===== src/RingBuffer.antt =====
-- libs/common/SpScRingBuffer/SpScRingBuffer.h: the ring between one producer and one consumer.
-- Each call is the code that one thread runs. What it loads from the other thread's index is an
-- argument, so that the same functions serve a single thread and an interleaving of two.
pub mod Queue
pub mod Window
pub mod Refine
pub mod Cases
pub mod Mark
pub mod Push
pub mod Threads
mod Tests
use scrimmage.Prelude.{
  ℕ, zero, suc, ◌*◌, ◌%◌, ◌^◌, ◌≤◌, ◌<◌, Bool, true, false, ◌&&◌, not, Option, none, some, List, [],
  ◌∷◌, ltb, leb, ◌==◌, if◌then◌else◌, add_word, sub_word, update,
}

-- The members of `SpScRingBuffer<T, Capacity>`; `Capacity` is an argument of the operations.
pub record Ring {ℓ} (T : Type ℓ) : Type ℓ where
  pub buffer : ℕ → T
  pub head : ℕ
  pub tail : ℕ
  pub dropped : ℕ
  pub high_water_mark : ℕ

-- The constructor; the array keeps what its storage holds.
unfoldable pub init {ℓ} : {T : Type ℓ} → (ℕ → T) → Ring T
init storage = record { buffer = storage; head = 0; tail = 0; dropped = 0; high_water_mark = 0 }

unfoldable pub increment : ℕ → ℕ → ℕ
increment capacity current_index =
    let next = add_word 64 current_index 1 in if next == capacity then 0 else next

-- What a push meets outside its own thread: the tail as the two loads see it, and how often the
-- weak compare-exchange fails without cause.
pub record Weather : Type 0 where
  pub seen_tail : ℕ
  pub later_tail : ℕ
  pub spurious : ℕ

-- `while (used > currentHigh && !compare_exchange_weak(currentHigh, used))`: a failure loads the
-- mark again, which only this thread writes.
unfoldable pub raise_mark : ℕ → ℕ → ℕ → ℕ
raise_mark zero used mark = if ltb mark used then used else mark
raise_mark (suc spurious) used mark =
    let again = raise_mark spurious used mark in if ltb mark used then again else mark

-- `updateHighWaterMark`, as a function of the old mark.
unfoldable pub update_high_water_mark : ℕ → Weather → ℕ → ℕ → ℕ
update_high_water_mark capacity w current_head mark =
    raise_mark w.spurious (sub_word 64 (add_word 64 current_head capacity) w.later_tail % capacity)
      mark

module _ {ℓ} {T : Type ℓ} (capacity : ℕ) where
  -- The write, the release of the new head, and the mark.
  unfoldable pub publish : Weather → Ring T → T → Ring T
  publish w r item =
      let next_head = increment capacity r.head in
      record r {
        buffer = update r.buffer r.head item;
        head = next_head;
        high_water_mark = update_high_water_mark capacity w next_head r.high_water_mark;
      }

  unfoldable pub try_push_seeing : Weather → Ring T → T → Bool × Ring T
  try_push_seeing w r item =
      if increment capacity r.head == w.seen_tail
      then (false, record r { dropped = add_word 64 r.dropped 1 })
      else (true, publish w r item)

  -- `tryPush` when nothing runs beside it.
  unfoldable pub try_push : Ring T → T → Bool × Ring T
  unfolding try_push_seeing
  try_push r item =
      try_push_seeing (record { seen_tail = r.tail; later_tail = r.tail; spurious = 0 }) r item

  -- `tryPop` with the head that its load sees; the option is what goes through `item`.
  unfoldable pub try_pop_seeing : ℕ → Ring T → Bool × Option T × Ring T
  try_pop_seeing seen_head r =
      if r.tail == seen_head
      then (false, none, r)
      else (true, some (r.buffer r.tail), record r { tail = increment capacity r.tail })

  unfoldable pub try_pop : Ring T → Bool × Option T × Ring T
  unfolding try_pop_seeing
  try_pop r = try_pop_seeing r.head r

-- One round of the spin in `push`: what it loads, and the time since the start in nanoseconds.
pub record Round : Type 0 where
  pub weather : Weather
  pub open weather use *
  pub elapsed : ℕ

abbrev pub timeout_duration : ℕ → ℕ
timeout_duration timeout_ms = timeout_ms * 1000000

module _ {ℓ} {T : Type ℓ} (capacity : ℕ) where
  -- The loop of `push` over the rounds that the other thread and the clock grant; `none` means that
  -- it still spins when they end. `spinCount++` wraps.
  unfoldable pub push_loop : ℕ → Ring T → T → ℕ → List Round → Option (Bool × Ring T)
  push_loop timeout_ms r item spin_count [] = none
  push_loop timeout_ms r item spin_count (round ∷ rounds) =
      let again = push_loop timeout_ms r item (add_word 64 spin_count 1) rounds in
      if not (increment capacity r.head == round.seen_tail)
      then some (true, publish capacity round.weather r item)
      else if spin_count % 1000 == 0 && leb (timeout_duration timeout_ms) round.elapsed
      then some (false, r)
      else again

  unfoldable pub push : Ring T → T → ℕ → List Round → Option (Bool × Ring T)
  unfolding push_loop
  push r item timeout_ms rounds = push_loop timeout_ms r item 0 rounds

  unfoldable pub push_with_timeout : Ring T → T → ℕ → List Round → Option (Bool × Ring T)
  unfolding push
  push_with_timeout r item timeout_ms rounds = push r item timeout_ms rounds

  -- `increment` has a capacity of its own; this is the array's bound for both indices.
  pub record IsValid (r : Ring T) : Type 0 where
    pub not_zero : 0 < capacity
    pub addressable : capacity ≤ 2 ^ 63
    pub head_in : r.head < capacity
    pub tail_in : r.tail < capacity
