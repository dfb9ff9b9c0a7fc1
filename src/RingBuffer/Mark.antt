-- ===== src/RingBuffer/Mark.antt =====
-- `updateHighWaterMark`: the mark is the greatest number of items that the ring has held.
use scrimmage.Prelude.{
  ℕ, zero, suc, ◌≤◌, ◌≡◌, refl, inl, inr, List, [], ◌∷◌, arith, ◌==◌, length, Bool-cases, max, ap,
  ◌-◌,
}
use scrimmage.RingBuffer.{
  Ring, IsValid, Weather, raise_mark, update_high_water_mark, increment, publish, try_push, try_pop,
}
use scrimmage.RingBuffer.Queue
use scrimmage.RingBuffer.Queue.{Queue, Call, pushes, pops}
use scrimmage.RingBuffer.Window.{span, used-eq-span, increment-lt}
use scrimmage.RingBuffer.Refine.{
  contents, contents_pop, view, length-contents, publish-IsValid, try_push_refines, try_pop_refines,
}

-- However often the weak exchange fails without cause, the mark becomes the greater of the two.
pub raise_mark-eq-max : (spurious used mark : ℕ) → raise_mark spurious used mark ≡ max mark used
unfolding raise_mark
raise_mark-eq-max zero used mark = ground arith
raise_mark-eq-max (suc spurious) used mark = ground (arith, raise_mark-eq-max spurious used mark)

module _ {ℓ} {T : Type ℓ} (capacity : ℕ) where
  unfoldable pub step : Ring T → Call T → Ring T
  step r (pushes x) = (try_push capacity r x).1
  step r pops = (try_pop capacity r).2

  unfoldable pub after : Ring T → List (Call T) → Ring T
  after r [] = r
  after r (call ∷ calls) = after (step r call) calls

module _ {ℓ} {T : Type ℓ} {capacity : ℕ} where
  mark_span :
      (w : Weather) (r : Ring T) (item : T)
      → IsValid capacity r
      → w.later_tail ≡ r.tail
      → (publish capacity w r item).high_water_mark
        ≡ max r.high_water_mark
            (span capacity (publish capacity w r item).head (publish capacity w r item).tail)
  unfolding publish update_high_water_mark
  mark_span w r item v e = rw (
    e,
    used-eq-span v.addressable (increment capacity r.head) r.tail
        (increment-lt v.addressable r.head v.head_in) v.tail_in,
    raise_mark-eq-max,
  )

  -- A push whose second load of the tail agrees with the first raises the mark to the new length.
  pub mark-publish :
      (w : Weather) (r : Ring T) (item : T)
      → IsValid capacity r
      → w.later_tail ≡ r.tail
      → (publish capacity w r item).high_water_mark
        ≡ max r.high_water_mark (length (contents capacity (publish capacity w r item)))
  mark-publish w r item v e =
      rw (length-contents _ (publish-IsValid w r item v)) (mark_span w r item v e)

  step_refines :
      (r : Ring T) (call : Call T)
      → IsValid capacity r
      → (view capacity (step capacity r call) ≡ Queue.step (capacity - 1) (view capacity r) call)
        × IsValid capacity (step capacity r call)
  unfolding step Queue.step
  step_refines r (pushes x) v = let both = try_push_refines r x v in (ap (λ t. t.1) both.0, both.1)
  step_refines r pops v = let both = try_pop_refines r v in (ap (λ t. t.2) both.0, both.1)

  mark-step :
      (r : Ring T) (call : Call T)
      → IsValid capacity r
      → length (contents capacity r) ≤ r.high_water_mark
      → (step capacity r call).high_water_mark
        ≡ max r.high_water_mark (length (contents capacity (step capacity r call)))
  unfolding step try_push try_pop contents
  mark-step r (pushes x) v h = elim (Bool-cases (increment capacity r.head == r.tail)) [
    | inl full ↦ rw (full, step) (omega arith)
    | inr room ↦ rw (room, step) (mark-publish _ r x v refl)
  ]
  mark-step r pops v h = elim (Bool-cases (r.tail == r.head)) [
    | inl empty ↦ rw (empty, step) (omega arith)
    | inr some_left ↦
        rw (some_left, step) (omega (arith, ap length (contents_pop r v (ground arith))))
  ]

  -- On a valid ring whose mark is not below the number of its items: after any calls, one behind the
  -- other, the mark is the greatest length that the queue of the ring has had, or what it was before
  -- if that is more.
  pub high_water_mark-peak :
      (calls : List (Call T)) (r : Ring T)
      → IsValid capacity r
      → length (contents capacity r) ≤ r.high_water_mark
      → (after capacity r calls).high_water_mark
        ≡ Queue.peak (capacity - 1) (view capacity r) r.high_water_mark calls
  unfolding after Queue.peak view
  high_water_mark-peak [] r v h = refl
  high_water_mark-peak (call ∷ calls) r v h =
      let both = step_refines r call v in
      rw (← both.0, ← mark-step r call v h)
        (high_water_mark-peak calls (step capacity r call) both.1
          (omega (arith, mark-step r call v h)))
