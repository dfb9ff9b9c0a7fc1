-- ===== src/RingConsumer.antt =====
-- libs/common/SpScRingBuffer/SpScRingBufferConsumer.h and libs/concurrency/PinnedThread.h: a thread
-- that pops the ring and hands each message to a callback. Pinning, the pause instruction and
-- `AdaptiveSpinner`, which is not in the repository, only spend time.
pub mod Loop
pub mod Handles
pub mod Bootstrap
mod Tests
use scrimmage.Prelude.{
  ℕ, suc, Bool, true, false, Option, none, some, List, [], ◌∷◌, ◌++◌, map, ◌==◌, if◌then◌else◌, not,
}
use scrimmage.RingBuffer.{Ring, increment, try_push, try_pop}

-- `StopToken::stopRequested` reads the flag that `requestStop` sets. A thread, by its number, with
-- the flag of its `PinnedThread`.
pub record Thread : Type 0 where
  pub number : ℕ
  pub stop_flag : Bool

-- The threads that run, and the number of the next.
pub record Machine : Type 0 where
  pub threads : List Thread
  pub next_number : ℕ

-- The constructor of `PinnedThread`: the thread that it starts runs.
unfoldable pub construct_thread : Machine → ℕ × Machine
construct_thread m = (
  m.next_number,
  record {
    threads = m.threads ++ (record { number = m.next_number; stop_flag = false } ∷ []);
    next_number = suc m.next_number;
  },
)

abbrev raise_flag : ℕ → Thread → Thread
raise_flag number t = if t.number == number then record t { stop_flag = true } else t

unfoldable pub request_stop : ℕ → Machine → Machine
request_stop number m = record m { threads = map (raise_flag number) m.threads }

abbrev pub without : ℕ → List Thread → List Thread
without number [] = []
without number (t ∷ ts) =
    let rest = without number ts in if t.number == number then rest else t ∷ rest

-- The destructor of `PinnedThread` raises the flag and joins: its thread has ended.
unfoldable pub destroy_thread : ℕ → Machine → Machine
unfolding request_stop
destroy_thread number m =
    let raised = request_stop number m in record raised { threads = without number raised.threads }

-- `_pinnedThread` of a consumer.
abbrev pub Handle : Type 0
Handle = Option ℕ

-- `start` makes the new thread and then, by the assignment, destroys the old one: the states of the
-- machine behind each of the two.
unfoldable pub start : Handle → Machine → Machine × Handle × Machine
unfolding construct_thread destroy_thread
start handle m =
    let (number, started) = construct_thread m in
    (started, some number, elim handle [ none ↦ started | some old ↦ destroy_thread old started ])

-- `stop` does not wait for the thread.
unfoldable pub stop : Handle → Machine → Machine
unfolding request_stop
stop handle m = elim handle [ none ↦ m | some number ↦ request_stop number m ]

-- The destructor of the consumer destroys its thread, if there is one.
unfoldable pub destroy : Handle → Machine → Machine
unfolding destroy_thread
destroy handle m = elim handle [ none ↦ m | some number ↦ destroy_thread number m ]

module _ {ℓ} {T : Type ℓ} (capacity : ℕ) where
  -- The producer's calls of `tryPush`: the items that were taken, and the ring.
  unfoldable pub push_all : List T → Ring T → List T × Ring T
  push_all [] r = ([], r)
  push_all (x ∷ xs) r =
      let (done, s) = try_push capacity r x in
      let (taken, t) = push_all xs s in (if done then x ∷ taken else taken, t)

  -- `consumeLoop`: in each round the flag is read as false, and one `tryPop` follows; `arrivals` are
  -- the items that the producer pushes before it. The messages handed to the callback, the items
  -- that the producer's pushes added, and the ring when the flag is read as true.
  unfoldable pub consume_loop : (arrivals : List (List T)) → Ring T → List T × List T × Ring T
  unfolding push_all
  consume_loop [] r = ([], [], r)
  consume_loop (xs ∷ arrivals) r =
      let (taken, s) = push_all xs r in
      let (got, item, t) = try_pop capacity s in
      let (messages, later, u) = consume_loop arrivals t in
      (elim item [ none ↦ messages | some message ↦ message ∷ messages ], taken ++ later, u)

  -- `tryPop` up to the read of the slot, and its store of the new tail.
  unfoldable pub pop_begin : Ring T → Option (T × ℕ)
  pop_begin r = if r.tail == r.head then none else some (r.buffer r.tail, r.tail)

  unfoldable pub pop_end : ℕ → Ring T → Ring T
  pop_end current_tail r = record r { tail = increment capacity current_tail }

  -- Two consumers on one ring: the second reads its slot before the first has stored its tail. The
  -- messages that they hand out.
  unfoldable pub pop_overlapping : Ring T → List T × Ring T
  unfolding pop_begin pop_end
  pop_overlapping r = elim (pop_begin r) [
    | none ↦ ([], r)
    | some (x, first_tail) ↦ elim (pop_begin r) [
      | none ↦ (x ∷ [], pop_end first_tail r)
      | some (y, second_tail) ↦ (x ∷ y ∷ [], pop_end second_tail (pop_end first_tail r))
    ]
  ]
