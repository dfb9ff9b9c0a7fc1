-- ===== src/RingBuffer/Threads/Inv.antt =====
-- The invariant of the two threads over SpScRingBuffer.h, and that each step keeps it.
use scrimmage.Prelude.{
  ℕ, ◌≡◌, ◌≢◌, ◌<◌, ◌≤◌, ◌^◌, refl, sym, ap, ap₂, ◌∙◌, [], ◌∷◌, ◌++◌, append_assoc, add_word,
  update, update_ne, update_self,
}
use mathlib.Core.Path.{subst}
use scrimmage.RingBuffer.{Ring, IsValid, init, increment, update_high_water_mark}
use scrimmage.RingBuffer.Window.{increment-lt, increment-injective, window}
use scrimmage.RingBuffer.Refine.{contents, contents-update, contents_snoc, contents_pop, IsValid-at}
use scrimmage.RingBuffer.Threads.{
  Producer, idle, writing, releasing, marking, Consumer, waiting, reading, leaving, System, start,
  Step, refuse, admit, write, release_head, raise, find_empty, find_item, read, release_tail, Reach,
  here, next,
}

module _ {ℓ} {T : Type ℓ} (capacity : ℕ) where
  -- What the producer knows between its accesses: its locals are still good, and the slot at the head
  -- is still outside the contents.
  abbrev pub ProducerIsReady : Ring T → Producer T → Type ℓ
  ProducerIsReady r idle = Unit
  ProducerIsReady r (writing item current_head next_head) =
      (current_head ≡ r.head)
      × (next_head ≡ increment capacity r.head)
      × (next_head ≢ r.tail)
      × Unit {ℓ}
  ProducerIsReady r (releasing item next_head) =
      (next_head ≡ increment capacity r.head) × (next_head ≢ r.tail) × (r.buffer r.head ≡ item)
  ProducerIsReady r (marking next_head) = Unit

  abbrev pub ConsumerIsReady : Ring T → Consumer T → Type ℓ
  ConsumerIsReady r waiting = Unit
  ConsumerIsReady r (reading current_tail) = (current_tail ≡ r.tail) × (r.tail ≢ r.head) × Unit {ℓ}
  ConsumerIsReady r (leaving item current_tail) =
      (current_tail ≡ r.tail) × (r.tail ≢ r.head) × (r.buffer r.tail ≡ item)

  pub record Inv (s : System T) : Type ℓ where
    pub valid : IsValid capacity s.ring
    pub history : s.pushed ≡ s.popped ++ contents capacity s.ring
    pub producer_ready : ProducerIsReady s.ring s.producer
    pub consumer_ready : ConsumerIsReady s.ring s.consumer

  -- The consumer may move the tail, but not past the slot that the producer is at.
  producer_stays :
      (p : Producer T) (r r' : Ring T)
      → r'.head ≡ r.head
      → r'.buffer r'.head ≡ r.buffer r.head
      → (increment capacity r.head ≢ r.tail → increment capacity r.head ≢ r'.tail)
      → ProducerIsReady r p
      → ProducerIsReady r' p
  producer_stays idle r r' same slot apart ready = tt
  producer_stays (writing item h n) r r' same slot apart (at_head, step, ne, _) = (
    at_head ∙ sym same,
    step ∙ ap (increment capacity) (sym same),
    (λ e. apart (λ k. ne (step ∙ k)) (sym step ∙ e)),
    tt,
  )
  producer_stays (releasing item n) r r' same slot apart (step, ne, holds) = (
    step ∙ ap (increment capacity) (sym same),
    (λ e. apart (λ k. ne (step ∙ k)) (sym step ∙ e)),
    slot ∙ holds,
  )
  producer_stays (marking n) r r' same slot apart ready = tt

  -- The producer may move the head and write, but not at the slot that the consumer is at.
  consumer_stays :
      (c : Consumer T) (r r' : Ring T)
      → r'.tail ≡ r.tail
      → (r.tail ≢ r.head → r'.buffer r'.tail ≡ r.buffer r.tail)
      → (r.tail ≢ r.head → r'.tail ≢ r'.head)
      → ConsumerIsReady r c
      → ConsumerIsReady r' c
  consumer_stays waiting r r' same slot apart ready = tt
  consumer_stays (reading t) r r' same slot apart (at_tail, ne, _) =
      (at_tail ∙ sym same, apart ne, tt)
  consumer_stays (leaving item t) r r' same slot apart (at_tail, ne, holds) =
      (at_tail ∙ sym same, apart ne, slot ne ∙ holds)

module _ {ℓ} {T : Type ℓ} {capacity : ℕ} where
  pub start-Inv :
      (storage : ℕ → T) → 0 < capacity → capacity ≤ 2 ^ 63 → Inv capacity (start storage)
  unfolding start init contents window
  start-Inv storage positive small = record {
    valid = record {
      not_zero = positive;
      addressable = small;
      head_in = positive;
      tail_in = positive;
    };
    history = refl;
    producer_ready = tt;
    consumer_ready = tt;
  }

  write-Inv :
      (s : System T) (item : T) (h n : ℕ)
      → Inv capacity s
      → ProducerIsReady capacity s.ring (writing item h n)
      → Inv capacity (record s {
        ring = record s.ring { buffer = update s.ring.buffer h item };
        producer = releasing item n;
      })
  write-Inv s item h n inv (at_head, step, ne, _) =
      let ring' : Ring T = record s.ring { buffer = update s.ring.buffer s.ring.head item } in
      rw at_head (record {
        valid = IsValid-at _ inv.valid inv.valid.head_in inv.valid.tail_in;
        history =
            inv.history ∙ ap (λ xs. s.popped ++ xs) (sym (contents-update s.ring item inv.valid));
        producer_ready = (step, ne, update_self s.ring.buffer s.ring.head item);
        consumer_ready =
            consumer_stays capacity s.consumer s.ring ring' refl
              (λ other. update_ne s.ring.buffer s.ring.head s.ring.tail item (λ k. other (sym k)))
              (λ other. other) inv.consumer_ready;
      })

  release_head-Inv :
      (s : System T) (item : T) (n : ℕ)
      → Inv capacity s
      → ProducerIsReady capacity s.ring (releasing item n)
      → Inv capacity (record s {
        ring = record s.ring { head = n };
        producer = marking n;
        pushed = s.pushed ++ item ∷ [];
      })
  release_head-Inv s item n inv (step, ne, holds) =
      let ring' : Ring T = record s.ring { head = increment capacity s.ring.head } in
      rw step (record {
        valid =
            IsValid-at _ inv.valid
              (increment-lt inv.valid.addressable s.ring.head inv.valid.head_in) inv.valid.tail_in;
        history =
            ap₂ (λ xs x. xs ++ x ∷ []) inv.history (sym holds)
            ∙ append_assoc s.popped (contents capacity s.ring) (s.ring.buffer s.ring.head ∷ [])
            ∙ ap (λ xs. s.popped ++ xs) (sym (contents_snoc s.ring inv.valid (λ k. ne (step ∙ k))));
        producer_ready = tt;
        consumer_ready =
            consumer_stays capacity s.consumer s.ring ring' refl (λ other. refl)
              (λ other k. ne (step ∙ sym k)) inv.consumer_ready;
      })

  release_tail-Inv :
      (s : System T) (item : T) (t : ℕ)
      → Inv capacity s
      → ConsumerIsReady capacity s.ring (leaving item t)
      → Inv capacity (record s {
        ring = record s.ring { tail = increment capacity t };
        consumer = waiting;
        popped = s.popped ++ item ∷ [];
      })
  release_tail-Inv s item t inv (at_tail, ne, holds) =
      let ring' : Ring T = record s.ring { tail = increment capacity s.ring.tail } in
      rw at_tail (record {
        valid =
            IsValid-at _ inv.valid inv.valid.head_in
              (increment-lt inv.valid.addressable s.ring.tail inv.valid.tail_in);
        history =
            inv.history
            ∙ ap (λ xs. s.popped ++ xs) (contents_pop s.ring inv.valid ne)
            ∙ ap (λ x. s.popped ++ x ∷ contents capacity ring') holds
            ∙ sym (append_assoc s.popped (item ∷ []) (contents capacity ring'));
        producer_ready =
            producer_stays capacity s.producer s.ring ring' refl refl
              (λ _ k. ne (
                sym (
                  increment-injective inv.valid.addressable s.ring.head s.ring.tail
                    inv.valid.head_in inv.valid.tail_in k)))
              inv.producer_ready;
        consumer_ready = tt;
      })

  -- Every step of either thread keeps the invariant.
  pub Step-Inv : {s u : System T} → Step capacity s u → Inv capacity s → Inv capacity u
  unfolding contents
  Step-Inv (refuse s e full) inv =
      let ring' : Ring T = record s.ring { dropped = add_word 64 s.ring.dropped 1 } in
      record {
        valid = IsValid-at _ inv.valid inv.valid.head_in inv.valid.tail_in;
        history = inv.history;
        producer_ready =
            producer_stays capacity s.producer s.ring ring' refl refl (λ ne. ne) inv.producer_ready;
        consumer_ready =
            consumer_stays capacity s.consumer s.ring ring' refl (λ _. refl) (λ ne. ne)
              inv.consumer_ready;
      }
  Step-Inv (admit s item e room) inv = record {
    valid = inv.valid;
    history = inv.history;
    producer_ready = (refl, refl, room, tt);
    consumer_ready = inv.consumer_ready;
  }
  Step-Inv (write s item h n e) inv =
      write-Inv s item h n inv (subst (ProducerIsReady capacity s.ring) e inv.producer_ready)
  Step-Inv (release_head s item n e) inv =
      release_head-Inv s item n inv (subst (ProducerIsReady capacity s.ring) e inv.producer_ready)
  Step-Inv (raise s n spurious e) inv =
      let ring' : Ring T = record s.ring {
        high_water_mark =
            update_high_water_mark capacity
              (record { seen_tail = s.ring.tail; later_tail = s.ring.tail; spurious = spurious }) n
              s.ring.high_water_mark;
      } in
      record {
        valid = IsValid-at _ inv.valid inv.valid.head_in inv.valid.tail_in;
        history = inv.history;
        producer_ready = tt;
        consumer_ready =
            consumer_stays capacity s.consumer s.ring ring' refl (λ _. refl) (λ ne. ne)
              inv.consumer_ready;
      }
  Step-Inv (find_empty s e none) inv = inv
  Step-Inv (find_item s e ne) inv = record {
    valid = inv.valid;
    history = inv.history;
    producer_ready = inv.producer_ready;
    consumer_ready = (refl, ne, tt);
  }
  Step-Inv (read s t e) inv =
      let (at_tail, ne, _) = subst (ConsumerIsReady capacity s.ring) e inv.consumer_ready in
      record {
        valid = inv.valid;
        history = inv.history;
        producer_ready = inv.producer_ready;
        consumer_ready = (at_tail, ne, ap s.ring.buffer (sym at_tail));
      }
  Step-Inv (release_tail s item t e) inv =
      release_tail-Inv s item t inv (subst (ConsumerIsReady capacity s.ring) e inv.consumer_ready)

  pub Reach-Inv : {s u : System T} → Reach capacity s u → Inv capacity s → Inv capacity u
  Reach-Inv here inv = inv
  Reach-Inv (next r st) inv = Step-Inv st (Reach-Inv r inv)
