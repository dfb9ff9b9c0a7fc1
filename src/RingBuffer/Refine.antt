-- ===== src/RingBuffer/Refine.antt =====
-- A valid ring behaves as a queue that holds at most `capacity - 1` items.
use scrimmage.Prelude.{
  ℕ, suc, ◌-◌, ◌<◌, ◌≡◌, refl, ◌≢◌, inl, inr, ap₂, ◌∙◌, true, false, none, List, [], ◌∷◌, ◌++◌,
  arith, ◌==◌, update, update_self, length, Bool-cases,
}
use scrimmage.RingBuffer.{Ring, IsValid, Weather, increment, publish, try_push, try_pop}
use scrimmage.RingBuffer.Queue
use scrimmage.RingBuffer.Queue.{Queue, Call, pushes, pops, Reply}
use scrimmage.RingBuffer.Window.{
  window, span, increment-lt, place-span, span-lt, span_push, span_full, span_pop, length-window,
  window-update, window_snoc,
}

module _ {ℓ} {T : Type ℓ} (capacity : ℕ) where
  -- The items that the ring holds, oldest first.
  unfoldable pub contents : Ring T → List T
  contents r = window r.buffer capacity r.tail (span capacity r.head r.tail)

  unfoldable pub view : Ring T → Queue T
  view r = record { items = contents r; refused = r.dropped }

  -- The calls of one thread, in order, with what each returns.
  unfoldable pub replies : Ring T → List (Call T) → List (Reply T)
  replies r [] = []
  replies r (pushes x ∷ calls) =
      let (done, r') = try_push capacity r x in (done, none) ∷ replies r' calls
  replies r (pops ∷ calls) =
      let (done, out, r') = try_pop capacity r in (done, out) ∷ replies r' calls

  dropped-publish :
      (w : Weather) (r : Ring T) (item : T) → (publish capacity w r item).dropped ≡ r.dropped
  unfolding publish
  dropped-publish w r item = refl

module _ {ℓ} {T : Type ℓ} {capacity : ℕ} where
  -- Validity is about the indices alone.
  pub IsValid-at :
      {r : Ring T} (s : Ring T)
      → IsValid capacity r
      → s.head < capacity
      → s.tail < capacity
      → IsValid capacity s
  IsValid-at s v hh ht = record {
    not_zero = v.not_zero;
    addressable = v.addressable;
    head_in = hh;
    tail_in = ht;
  }

  pub publish-IsValid :
      (w : Weather) (r : Ring T) (item : T)
      → IsValid capacity r
      → IsValid capacity (publish capacity w r item)
  unfolding publish
  publish-IsValid w r item v =
      IsValid-at _ v (increment-lt v.addressable r.head v.head_in) v.tail_in

  -- A write at the head leaves the contents alone.
  pub contents-update :
      (r : Ring T) (item : T)
      → IsValid capacity r
      → contents capacity (record r { buffer = update r.buffer r.head item }) ≡ contents capacity r
  unfolding contents
  contents-update r item v =
      window-update v.addressable r.buffer item (span capacity r.head r.tail) r.tail r.head
        v.tail_in (span-lt v.addressable r.head r.tail v.head_in v.tail_in)
        (place-span v.addressable r.head r.tail v.head_in v.tail_in)

  -- The new head takes in the item that lies at the old one.
  pub contents_snoc :
      (r : Ring T)
      → IsValid capacity r
      → increment capacity r.head ≢ r.tail
      → contents capacity (record r { head = increment capacity r.head })
        ≡ contents capacity r ++ r.buffer r.head ∷ []
  unfolding contents
  contents_snoc r v ne = rw (span_push v.addressable r.head r.tail v.head_in v.tail_in ne) (
      window_snoc v.addressable r.buffer (span capacity r.head r.tail) r.tail r.head v.tail_in
        (span-lt v.addressable r.head r.tail v.head_in v.tail_in)
        (place-span v.addressable r.head r.tail v.head_in v.tail_in))

  pub contents-publish :
      (w : Weather) (r : Ring T) (item : T)
      → IsValid capacity r
      → increment capacity r.head ≢ r.tail
      → contents capacity (publish capacity w r item) ≡ contents capacity r ++ item ∷ []
  unfolding publish contents
  contents-publish w r item v ne =
      let written : Ring T = record r { buffer = update r.buffer r.head item } in
      contents_snoc written (IsValid-at written v v.head_in v.tail_in) ne
      ∙ ap₂ (λ xs x. xs ++ x ∷ []) (contents-update r item v) (update_self r.buffer r.head item)

  pub length-contents :
      (r : Ring T) → IsValid capacity r → length (contents capacity r) ≡ span capacity r.head r.tail
  unfolding contents
  length-contents r v = length-window v.addressable r.buffer r.tail (span capacity r.head r.tail)

  -- The first item is the one at the tail.
  pub contents_pop :
      (r : Ring T)
      → IsValid capacity r
      → r.tail ≢ r.head
      → contents capacity r
        ≡ r.buffer r.tail ∷ contents capacity (record r { tail = increment capacity r.tail })
  unfolding contents window
  contents_pop r v ne = rw (span_pop v.addressable r.head r.tail v.head_in v.tail_in ne)

  pub contents_empty :
      (r : Ring T) → IsValid capacity r → r.tail ≡ r.head → contents capacity r ≡ []
  unfolding contents window
  contents_empty r v e =
      let none_left : span capacity r.head r.tail ≡ 0 = ground arith in rw none_left

  room_left :
      (r : Ring T)
      → IsValid capacity r
      → increment capacity r.head ≢ r.tail
      → suc (span capacity r.head r.tail) < capacity
  room_left r v ne = omega (
    arith,
    span_push v.addressable r.head r.tail v.head_in v.tail_in ne,
    span-lt v.addressable (increment capacity r.head) r.tail
        (increment-lt v.addressable r.head v.head_in) v.tail_in,
  )

  -- `tryPush` answers as the queue does and leaves the ring holding the queue's items, and it keeps
  -- the ring valid.
  pub try_push_refines :
      (r : Ring T) (item : T)
      → IsValid capacity r
      → let (done, r') = try_push capacity r item in
        ((done, view capacity r') ≡ Queue.enqueue (capacity - 1) (view capacity r) item)
        × IsValid capacity r'
  unfolding try_push view Queue.enqueue contents
  try_push_refines r item v = elim (Bool-cases (increment capacity r.head == r.tail)) [
    | inl full ↦
        let refused : (length (contents capacity r) == capacity - 1) ≡ true =
          ground (
            arith,
            length-contents r v,
            span_full v.addressable r.head r.tail v.head_in v.tail_in,
          ) in
        (rw (full, refused), rw full (IsValid-at _ v v.head_in v.tail_in))
    | inr room ↦
        let accepted : (length (contents capacity r) == capacity - 1) ≡ false =
          ground (arith, length-contents r v, room_left r v) in
        (
          rw (
            room,
            accepted,
            contents-publish _ r item v (ground arith),
            dropped-publish capacity _ r item,
          ),
          rw room (publish-IsValid _ r item v),
        )
  ]

  pub try_pop_refines :
      (r : Ring T)
      → IsValid capacity r
      → let (done, out, r') = try_pop capacity r in
        ((done, out, view capacity r') ≡ Queue.dequeue (view capacity r)) × IsValid capacity r'
  unfolding try_pop view Queue.dequeue
  try_pop_refines r v = elim (Bool-cases (r.tail == r.head)) [
    | inl empty ↦ (rw (empty, contents_empty r v (ground arith)), rw empty v)
    | inr some_left ↦ (
      rw (some_left, contents_pop r v (ground arith)),
      rw some_left (IsValid-at _ v v.head_in (increment-lt v.addressable r.tail v.tail_in)),
    )
  ]

  -- No sequence of calls tells a valid ring from the queue of its contents.
  pub replies_refine :
      (calls : List (Call T)) (r : Ring T)
      → IsValid capacity r
      → replies capacity r calls ≡ Queue.replies (capacity - 1) (view capacity r) calls
  unfolding replies Queue.replies
  replies_refine [] r v = refl
  replies_refine (pushes x ∷ calls) r v =
      let step = try_push_refines r x v in
      rw (replies_refine calls (try_push capacity r x).1 step.1, ← step.0)
  replies_refine (pops ∷ calls) r v =
      let step = try_pop_refines r v in
      rw (replies_refine calls (try_pop capacity r).2 step.1, ← step.0)
