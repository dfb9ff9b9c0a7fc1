-- ===== src/Partition/Fills.antt =====
-- The ring of reports, which nothing empties, over any calls of `submitOrder` and `processOrders`.
use scrimmage.Prelude.{
  ℕ, zero, suc, ◌-◌, ◌%◌, ◌^◌, ◌≤◌, ◌<◌, ◌≡◌, refl, sym, ap, subst, ◌∙◌, inl, inr, Bool, true,
  false, Option, none, some, List, [], ◌∷◌, ◌++◌, map, map-append, append-nil, append_assoc, arith,
  ◌==◌, length, length-append, length-take, take, Bool-cases, if◌then◌else◌,
}
use scrimmage.RingBuffer.{IsValid, init, try_push}
use scrimmage.RingBuffer.Queue
use scrimmage.RingBuffer.Queue.{Queue}
use scrimmage.RingBuffer.Refine.{contents, contents_empty, view, try_push_refines}
use scrimmage.RingBuffer.Cases.{contents-try_push}
use scrimmage.Orders.{Order}
use scrimmage.Partition.{
  Outside, ExecutionReport, Output, to_client, to_group, Partition, construct, submit_order,
  process_orders,
}
use scrimmage.Partition.Service.{
  in_full, Desk, desk, answer, answer_all, Processed, process_orders_refines,
}

take_nil {ℓ} : {A : Type ℓ} (n : ℕ) → take {A = A} n [] ≡ []
take_nil zero = refl
take_nil (suc n) = refl

take_snoc {ℓ} :
    {A : Type ℓ} (n : ℕ) (xs : List A) (x : A)
    → take n (xs ++ x ∷ []) ≡ (if length (take n xs) == n then take n xs else take n xs ++ x ∷ [])
take_snoc zero xs x = refl
take_snoc {A} (suc n) [] x =
    let unequal : (0 == suc n) ≡ false = ground arith in rw (take_nil n, unequal) refl
take_snoc (suc n) (y ∷ xs) x = ground (arith, take_snoc n xs x)

module _ (outside : Outside) (capacity report_size : ℕ) where
  open outside use {World, Real}

  -- The reports that have been sent, oldest first.
  abbrev pub reported : List (Output Real) → List (ExecutionReport Real)
  reported [] = []
  reported (to_client r calls ∷ outputs) = reported outputs
  reported (to_group r ∷ outputs) = r ∷ reported outputs

  reported-append : (xs ys : List (Output Real)) → reported (xs ++ ys) ≡ reported xs ++ reported ys
  reported-append [] ys = refl
  reported-append (to_client r calls ∷ xs) ys = reported-append xs ys
  reported-append (to_group r ∷ xs) ys = ap (◌∷◌ r) (reported-append xs ys)

  abbrev report_ids : List (Output Real) → List ℕ
  report_ids outputs = map (λ r. r.order_id) (reported outputs)

  -- The ring of reports holds the first `capacity - 1` that were sent, and has refused the others.
  abbrev IsKept : Desk outside capacity report_size → Type 0
  IsKept d =
      (d.fills.items ≡ take (capacity - 1) (reported d.outputs))
      × (d.fills.refused ≡ (length (reported d.outputs) - (capacity - 1)) % 2 ^ 64)

  module _ (o : Order) (d : Desk outside capacity report_size) where
    abbrev next : Desk outside capacity report_size
    next = answer outside capacity report_size o d

    abbrev report : ExecutionReport Real
    report = in_full outside o (outside.clock d.world).0

    reported-answer : reported next.outputs ≡ reported d.outputs ++ report ∷ []
    unfolding answer
    reported-answer = reported-append d.outputs _

    answer-IsKept : IsKept d → IsKept next
    unfolding answer Queue.enqueue
    answer-IsKept (kept, refused) =
        let limit = capacity - 1 in
        let sent = reported d.outputs in
        let longer = length-append sent (report ∷ []) in
        let cut = length-take limit sent in
        let items = take_snoc limit sent report in
        elim (Bool-cases (length d.fills.items == limit)) [
          | inl full ↦
              let full' : (length (take limit sent) == limit) ≡ true = rw kept at full in
              let enough : limit ≤ length sent = ground arith in
              (
                rw (full, reported-answer, items, full') kept,
                rw (full, reported-answer) (omega (arith, longer, refused)),
              )
          | inr room ↦
              let room' : (length (take limit sent) == limit) ≡ false = rw kept at room in
              let short : length sent < limit = ground arith in
              (
                rw (room, reported-answer, items, room') (ap (λ xs. xs ++ report ∷ []) kept),
                rw (room, reported-answer) (omega (arith, longer, refused)),
              )
        ]

  answer_all-IsKept :
      (os : List Order) (d : Desk outside capacity report_size)
      → IsKept d
      → IsKept (answer_all outside capacity report_size os d)
  unfolding answer_all
  answer_all-IsKept [] d h = h
  answer_all-IsKept (o ∷ os) d h = answer_all-IsKept os (next o d) (answer-IsKept o d h)

  abbrev ids : List Order → List ℕ
  ids os = map (λ o. o.order_id) os

  ids-answer_all :
      (os : List Order) (d : Desk outside capacity report_size)
      → report_ids (answer_all outside capacity report_size os d).outputs
        ≡ report_ids d.outputs ++ ids os
  unfolding answer_all
  ids-answer_all [] d = sym (append-nil _)
  ids-answer_all (o ∷ os) d =
      ids-answer_all os (next o d)
      ∙ ap (λ xs. map (λ r. r.order_id) xs ++ ids os) (reported-answer o d)
      ∙ ap (λ xs. xs ++ ids os) (map-append _ (reported d.outputs) (report o d ∷ []))
      ∙ append_assoc (report_ids d.outputs) (o.order_id ∷ []) (ids os)

  -- What a user of the partition calls. A round of `processOrders` has `capacity` rounds of fuel.
  pub data Command : Type 0 where
    submit_call : Order → Command
    process_call : Command

  -- The calls, with the orders that `submitOrder` has taken so far.
  unfoldable pub serve :
      List Command → List Order → Partition outside → Option (List Order × Partition outside)
  serve [] taken p = some (taken, p)
  serve (submit_call o ∷ calls) taken p =
      let (done, q) = submit_order outside capacity report_size o p in
      serve calls (if done then taken ++ o ∷ [] else taken) q
  serve (process_call ∷ calls) taken p =
      elim (process_orders outside capacity report_size capacity p) [
        | none ↦ none
        | some q ↦ serve calls taken q
      ]

  -- Each order that was taken has been reported or waits, in order; the ring of reports holds the
  -- first `capacity - 1` reports that were sent, and has counted the others as refused.
  pub record IsServed (taken : List Order) (p : Partition outside) : Type 0 where
    pub orders_valid : IsValid capacity p.orders
    pub fills_valid : IsValid capacity p.fills
    pub kept : contents capacity p.fills ≡ take (capacity - 1) (reported p.outputs)
    pub refused : p.fills.dropped ≡ (length (reported p.outputs) - (capacity - 1)) % 2 ^ 64
    pub accounted : report_ids p.outputs ++ ids (contents capacity p.orders) ≡ ids taken

  submit-IsServed :
      (o : Order) (taken : List Order) (p : Partition outside)
      → IsServed taken p
      → let run = submit_order outside capacity report_size o p in
        IsServed (if run.0 then taken ++ o ∷ [] else taken) run.1
  unfolding submit_order
  submit-IsServed o taken p h = record {
    orders_valid = (try_push_refines p.orders o h.orders_valid).1;
    fills_valid = h.fills_valid;
    kept = h.kept;
    refused = h.refused;
    accounted =
        accounted_by (try_push capacity p.orders o).0
          (contents-try_push capacity p.orders o h.orders_valid);
  }
    where
      accounted_by :
          (done : Bool) {now : List Order}
          → now
            ≡ (if done then contents capacity p.orders ++ o ∷ [] else contents capacity p.orders)
          → report_ids p.outputs ++ ids now ≡ ids (if done then taken ++ o ∷ [] else taken)
      accounted_by true e =
          ap (λ os. report_ids p.outputs ++ ids os) e
          ∙ ap (λ xs. report_ids p.outputs ++ xs)
              (map-append _ (contents capacity p.orders) (o ∷ []))
          ∙ sym (
              append_assoc (report_ids p.outputs) (ids (contents capacity p.orders))
                (o.order_id ∷ []))
          ∙ ap (λ xs. xs ++ o.order_id ∷ []) h.accounted
          ∙ sym (map-append _ taken (o ∷ []))
      accounted_by false e = ap (λ os. report_ids p.outputs ++ ids os) e ∙ h.accounted

  abbrev pub Served : Option (List Order × Partition outside) → Type 0
  Served none = ⊥
  Served (some (taken, p)) = IsServed taken p

  -- `processOrders` on a partition that has served.
  process-IsServed :
      (taken : List Order) (p : Partition outside) (q : Partition outside)
      → IsServed taken p
      → Processed outside capacity report_size
          (contents capacity p.orders)
          (desk outside capacity report_size p)
          (some q)
      → IsServed taken q
  unfolding desk view
  process-IsServed taken p q h (same, empty, orders_valid, fills_valid) =
      let os = contents capacity p.orders in
      let before = desk outside capacity report_size p in
      let after = subst IsKept (sym same) (answer_all-IsKept os before (h.kept, h.refused)) in
      let outputs = ap (λ d. report_ids d.outputs) same ∙ ids-answer_all os before in
      record {
        orders_valid = orders_valid;
        fills_valid = fills_valid;
        kept = after.0;
        refused = after.1;
        accounted = rw (empty, append-nil) (outputs ∙ h.accounted);
      }

  serve_from :
      (calls : List Command) (taken : List Order) (p : Partition outside)
      → IsServed taken p
      → Served (serve calls taken p)
  unfolding serve
  serve_from [] taken p h = h
  serve_from (submit_call o ∷ calls) taken p h = serve_from calls _ _ (submit-IsServed o taken p h)
  serve_from (process_call ∷ calls) taken p h =
      let done =
        process_orders_refines outside capacity report_size p h.orders_valid h.fills_valid in
      elim (process_orders outside capacity report_size capacity p)
          as (λ r.
            Processed outside capacity report_size (contents capacity p.orders)
              (desk outside capacity report_size p) r
            → Served (elim r [ none ↦ none | some q ↦ serve calls taken q ])) [
              | none ↦ λ never. absurd never
              | some q ↦ λ run. serve_from calls taken q (process-IsServed taken p q h run)
            ]
        done

  -- Over any calls of `submitOrder` and `processOrders` on a new partition, of a capacity from 1 to
  -- 2 ^ 63, each call ends, and then:
  -- each order that `submitOrder` has taken has been reported or waits, once and in order; the ring
  -- of reports holds the first `capacity - 1` reports that were sent and has refused all later ones.
  pub serve-Served :
      (calls : List Command) (symbol_start symbol_end : List ℕ) (orders : ℕ → Order)
      (fills : ℕ → ExecutionReport Real) (world : World)
      → 0 < capacity
      → capacity ≤ 2 ^ 63
      → Served (serve calls [] (construct outside symbol_start symbol_end orders fills world))
  unfolding construct
  serve-Served calls symbol_start symbol_end orders fills world positive small =
      serve_from calls [] _ (record {
        orders_valid = new_ring orders;
        fills_valid = new_ring fills;
        kept = contents_empty (init fills) (new_ring fills) refl ∙ sym (take_nil (capacity - 1));
        refused = omega arith;
        accounted = ap ids (contents_empty (init orders) (new_ring orders) refl);
      })
    where
      new_ring : {T : Type 0} (storage : ℕ → T) → IsValid capacity (init storage)
      new_ring storage = record {
        not_zero = positive;
        addressable = small;
        head_in = positive;
        tail_in = positive;
      }
