-- ===== src/RingConsumer/Loop.antt =====
-- What the callback of SpScRingBufferConsumer.h gets, and what a second consumer does to that.
use scrimmage.Prelude.{
  ℕ, zero, suc, ◌≤◌, ◌≡◌, ◌≢◌, refl, sym, ap, ◌∙◌, inl, inr, Bool, true, false, none, some, List,
  [], ◌∷◌, ◌++◌, append-nil, append_assoc, arith, length, replicate, if◌then◌else◌, ◌==◌, subst,
}
use scrimmage.RingBuffer.{Ring, IsValid, increment, try_push, try_pop}
use scrimmage.RingBuffer.Refine.{contents, contents_pop, try_push_refines}
use scrimmage.RingBuffer.Cases.{pop_cases, contents-try_push}
use scrimmage.RingConsumer.{push_all, consume_loop, pop_begin, pop_end, pop_overlapping}

module _ {ℓ} {T : Type ℓ} (capacity : ℕ) where
  push_all-contents :
      (xs : List T) (r : Ring T)
      → IsValid capacity r
      → let run = push_all capacity xs r in
        (contents capacity run.1 ≡ contents capacity r ++ run.0) × IsValid capacity run.1
  unfolding push_all
  push_all-contents [] r v = (sym (append-nil _), v)
  push_all-contents (x ∷ xs) r v =
      let s = (try_push capacity r x).1 in
      let (ih, valid) = push_all-contents xs s (try_push_refines r x v).1 in
      (
        ih
            ∙ after (try_push capacity r x).0 (contents-try_push capacity r x v)
                (push_all capacity xs s).0,
        valid,
      )
    where
      after :
          (done : Bool)
          → contents capacity (try_push capacity r x).1
            ≡ (if done then contents capacity r ++ x ∷ [] else contents capacity r)
          → (taken : List T)
          → contents capacity (try_push capacity r x).1 ++ taken
            ≡ contents capacity r ++ (if done then x ∷ taken else taken)
      after true e taken =
          ap (λ xs. xs ++ taken) e ∙ append_assoc (contents capacity r) (x ∷ []) taken
      after false e taken = ap (λ xs. xs ++ taken) e

  round_nothing :
      (xs : List T) (arrivals : List (List T)) (r : Ring T)
      → let s = (push_all capacity xs r).1 in
        try_pop capacity s ≡ (false, none, s)
        → let later = consume_loop capacity arrivals s in
          consume_loop capacity (xs ∷ arrivals) r
          ≡ (later.0, (push_all capacity xs r).0 ++ later.1, later.2)
  unfolding consume_loop
  round_nothing xs arrivals r popped = rw (consume_loop, popped, popped) refl

  round_message :
      (xs : List T) (arrivals : List (List T)) (r : Ring T) (x : T) (t : Ring T)
      → try_pop capacity (push_all capacity xs r).1 ≡ (true, some x, t)
      → let later = consume_loop capacity arrivals t in
        consume_loop capacity (xs ∷ arrivals) r
        ≡ (x ∷ later.0, (push_all capacity xs r).0 ++ later.1, later.2)
  unfolding consume_loop
  round_message xs arrivals r x t popped = rw (consume_loop, popped, popped) refl

  abbrev pub Delivered : List T → List T × List T × Ring T → Type ℓ
  Delivered before run =
      (before ++ run.1 ≡ run.0 ++ contents capacity run.2) × IsValid capacity run.2

  -- On a valid ring, however the producer's pushes fall between the rounds of `consumeLoop`, the
  -- callback gets the items that were in the ring and then those whose pushes were taken, in order;
  -- what it has not got when the flag is read as true is still in the ring.
  pub consume_loop-Delivered :
      (arrivals : List (List T)) (r : Ring T)
      → IsValid capacity r
      → Delivered (contents capacity r) (consume_loop capacity arrivals r)
  unfolding consume_loop
  consume_loop-Delivered [] r v = (append-nil _, v)
  consume_loop-Delivered (xs ∷ arrivals) r v =
      let (pushed, valid) = push_all-contents xs r v in
      let (taken, s) = push_all capacity xs r in
      elim (pop_cases capacity s valid) [
        | inl (empty, popped) ↦
            let later = consume_loop capacity arrivals s in
            let ih = consume_loop-Delivered arrivals s valid in
            subst (Delivered (contents capacity r)) (sym (round_nothing xs arrivals r popped)) (
              sym (append_assoc (contents capacity r) taken later.1)
                  ∙ ap (λ l. l ++ later.1) (sym pushed)
                  ∙ ih.0,
              ih.1,
            )
        | inr (x, rest, t, first, popped, left, valid') ↦
            let later = consume_loop capacity arrivals t in
            let ih = consume_loop-Delivered arrivals t valid' in
            subst (Delivered (contents capacity r)) (sym (round_message xs arrivals r x t popped)) (
              sym (append_assoc (contents capacity r) taken later.1)
                  ∙ ap (λ l. l ++ later.1) (sym pushed ∙ first ∙ ap (◌∷◌ x) (sym left))
                  ∙ ap (◌∷◌ x) ih.0,
              ih.1,
            )
      ]

  -- Once the producer of a valid ring pushes no more, as many rounds as there are items in the ring
  -- are enough: the callback gets them all, in order, and the ring is empty.
  pub consume_loop_drains :
      (rounds : ℕ) (r : Ring T)
      → IsValid capacity r
      → length (contents capacity r) ≤ rounds
      → let run = consume_loop capacity (replicate rounds []) r in
        (run.0 ≡ contents capacity r) × (contents capacity run.2 ≡ [])
  unfolding consume_loop push_all
  consume_loop_drains zero r v enough = elim (pop_cases capacity r v) [
    | inl (empty, popped) ↦ (sym empty, empty)
    | inr (x, rest, t, first, popped, left, valid) ↦ absurd (omega (arith, ap length first))
  ]
  consume_loop_drains (suc rounds) r v enough = elim (pop_cases capacity r v) [
    | inl (empty, popped) ↦
        let fewer : length (contents capacity r) ≤ rounds = omega (arith, ap length empty) in
        let ih = consume_loop_drains rounds r v fewer in
        rw (round_nothing [] (replicate rounds []) r popped) ih
    | inr (x, rest, t, first, popped, left, valid) ↦
        let fewer : length (contents capacity t) ≤ rounds =
          omega (arith, ap length first, ap length left) in
        let ih = consume_loop_drains rounds t valid fewer in
        rw (round_message [] (replicate rounds []) r x t popped)
          (ap (◌∷◌ x) (ih.0 ∙ left) ∙ sym first, ih.1)
  ]

  -- `tryPop` is its two parts with nothing between them.
  try_pop_parts :
      (r : Ring T)
      → try_pop capacity r ≡ (elim (pop_begin capacity r) [
        | none ↦ (false, none, r)
        | some (x, current_tail) ↦ (true, some x, pop_end capacity current_tail r)
      ])
  unfolding try_pop pop_begin pop_end
  try_pop_parts r = ground arith

  -- Two consumers of one valid ring that is not empty, whose pops overlap, both hand out the oldest
  -- item, and the ring drops it once: the callback gets it twice.
  pub pop_overlapping_repeats :
      (r : Ring T)
      → IsValid capacity r
      → r.tail ≢ r.head
      → let run = pop_overlapping capacity r in
        (run.0 ≡ r.buffer r.tail ∷ r.buffer r.tail ∷ [])
        × (contents capacity r ≡ r.buffer r.tail ∷ contents capacity run.1)
  unfolding pop_overlapping
  pop_overlapping_repeats r v left =
      let holds : (r.tail == r.head) ≡ false = ground arith in
      let both : pop_overlapping capacity r ≡ (
        r.buffer r.tail ∷ r.buffer r.tail ∷ [],
        record r { tail = increment capacity r.tail },
      ) =
        rw (pop_overlapping, holds, holds) refl in
      (
        ap (λ t. t.0) both,
        contents_pop r v left ∙ ap (λ t. r.buffer r.tail ∷ contents capacity t.1) (sym both),
      )
