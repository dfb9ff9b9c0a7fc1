-- ===== src/RingBuffer/Threads/Safety.antt =====
-- What the two threads of SpScRingBuffer.h can rely on, from the invariant.
use scrimmage.Prelude.{ℕ, ◌≡◌, ◌≢◌, ◌<◌, ◌≤◌, ◌^◌, sym, ◌∙◌, ◌++◌, length}
use mathlib.Core.Path.{subst}
use scrimmage.RingBuffer.Window.{span-lt}
use scrimmage.RingBuffer.Refine.{contents, length-contents}
use scrimmage.RingBuffer.Threads.{writing, reading, System, start, Reach}
use scrimmage.RingBuffer.Threads.Inv.{ProducerIsReady, ConsumerIsReady, Inv, start-Inv, Reach-Inv}

module _ {ℓ} {T : Type ℓ} {capacity : ℕ} (positive : 0 < capacity) (small : capacity ≤ 2 ^ 63)
    (storage : ℕ → T) {s : System T} (reached : Reach capacity (start storage) s) where
  now : Inv capacity s
  now = Reach-Inv reached (start-Inv storage positive small)

  -- In every interleaving, what the consumer has taken out is what the producer has put in, in the
  -- same order, less the items still in the ring, of which there are fewer than `capacity`.
  pub in_order :
      (s.pushed ≡ s.popped ++ contents capacity s.ring)
      × (length (contents capacity s.ring) < capacity)
  in_order = (
    now.history,
    subst (λ n. n < capacity) (sym (length-contents s.ring now.valid))
        (span-lt now.valid.addressable s.ring.head s.ring.tail now.valid.head_in now.valid.tail_in),
  )

  -- While the producer is about to write a slot and the consumer about to read one, the two slots
  -- differ, and both lie inside the array.
  pub no_race :
      (item : T) (current_head next_head current_tail : ℕ)
      → s.producer ≡ writing item current_head next_head
      → s.consumer ≡ reading current_tail
      → (current_head ≢ current_tail) × (current_head < capacity) × (current_tail < capacity)
  no_race item h n t at_write at_read =
      let (at_head, _, _, _) =
        subst (ProducerIsReady capacity s.ring) at_write now.producer_ready in
      let (at_tail, ne, _) = subst (ConsumerIsReady capacity s.ring) at_read now.consumer_ready in
      (
        (λ e. ne (sym at_tail ∙ sym e ∙ at_head)),
        subst (λ k. k < capacity) (sym at_head) now.valid.head_in,
        subst (λ k. k < capacity) (sym at_tail) now.valid.tail_in,
      )
