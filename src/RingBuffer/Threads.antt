-- ===== src/RingBuffer/Threads.antt =====
-- SpScRingBuffer.h between its two threads: `tryPush` and `tryPop` cut at each access to memory that
-- the other thread sees, and interleaved in any order.
pub mod Inv
pub mod Safety
use scrimmage.Prelude.{ℕ, ◌≡◌, ◌≢◌, List, [], ◌∷◌, ◌++◌, add_word, update}
use scrimmage.RingBuffer.{Ring, init, increment, update_high_water_mark}

-- Where the producer stands in `tryPush`, with its locals `currentHead` and `nextHead`.
pub data Producer {ℓ} (T : Type ℓ) : Type ℓ where
  idle : Producer T
  writing : (item : T) (current_head next_head : ℕ) → Producer T
  releasing : (item : T) (next_head : ℕ) → Producer T
  marking : (next_head : ℕ) → Producer T

-- Where the consumer stands in `tryPop`, with its local `currentTail`.
pub data Consumer {ℓ} (T : Type ℓ) : Type ℓ where
  waiting : Consumer T
  reading : (current_tail : ℕ) → Consumer T
  leaving : (item : T) (current_tail : ℕ) → Consumer T

-- The shared ring, the two threads, and what has gone in and come out so far.
pub record System {ℓ} (T : Type ℓ) : Type ℓ where
  pub ring : Ring T
  pub producer : Producer T
  pub consumer : Consumer T
  pub pushed : List T
  pub popped : List T

unfoldable pub start {ℓ} : {T : Type ℓ} → (ℕ → T) → System T
start storage = record {
  ring = init storage;
  producer = idle;
  consumer = waiting;
  pushed = [];
  popped = [];
}

pub data Step {ℓ} {T : Type ℓ} (capacity : ℕ) : System T → System T → Type ℓ where
  -- `tryPush` loads the tail and finds the ring full.
  refuse :
      (s : System T)
      → s.producer ≡ idle
      → increment capacity s.ring.head ≡ s.ring.tail
      → Step capacity s
          (record s { ring = record s.ring { dropped = add_word 64 s.ring.dropped 1 } })
  -- It loads the tail and finds room.
  admit :
      (s : System T) (item : T)
      → s.producer ≡ idle
      → increment capacity s.ring.head ≢ s.ring.tail
      → Step capacity s
          (record s { producer = writing item s.ring.head (increment capacity s.ring.head) })
  write :
      (s : System T) (item : T) (current_head next_head : ℕ)
      → s.producer ≡ writing item current_head next_head
      → Step capacity s (record s {
        ring = record s.ring { buffer = update s.ring.buffer current_head item };
        producer = releasing item next_head;
      })
  release_head :
      (s : System T) (item : T) (next_head : ℕ)
      → s.producer ≡ releasing item next_head
      → Step capacity s (record s {
        ring = record s.ring { head = next_head };
        producer = marking next_head;
        pushed = s.pushed ++ item ∷ [];
      })
  -- The mark is raised by the tail as it is now.
  raise :
      (s : System T) (next_head spurious : ℕ)
      → s.producer ≡ marking next_head
      → Step capacity s (record s {
        ring = record s.ring {
          high_water_mark =
              update_high_water_mark capacity
                (record { seen_tail = s.ring.tail; later_tail = s.ring.tail; spurious = spurious })
                next_head
                s.ring.high_water_mark;
        };
        producer = idle;
      })
  -- `tryPop` loads the head and finds the ring empty: nothing changes.
  find_empty : (s : System T) → s.consumer ≡ waiting → s.ring.tail ≡ s.ring.head → Step capacity s s
  find_item :
      (s : System T)
      → s.consumer ≡ waiting
      → s.ring.tail ≢ s.ring.head
      → Step capacity s (record s { consumer = reading s.ring.tail })
  read :
      (s : System T) (current_tail : ℕ)
      → s.consumer ≡ reading current_tail
      → Step capacity s (record s { consumer = leaving (s.ring.buffer current_tail) current_tail })
  release_tail :
      (s : System T) (item : T) (current_tail : ℕ)
      → s.consumer ≡ leaving item current_tail
      → Step capacity s (record s {
        ring = record s.ring { tail = increment capacity current_tail };
        consumer = waiting;
        popped = s.popped ++ item ∷ [];
      })

pub data Reach {ℓ} {T : Type ℓ} (capacity : ℕ) (s : System T) : System T → Type ℓ where
  here : Reach capacity s s
  next : {t u : System T} → Reach capacity s t → Step capacity t u → Reach capacity s u
