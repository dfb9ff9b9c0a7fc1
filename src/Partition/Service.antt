-- ===== src/Partition/Service.antt =====
-- What a partition does with the orders in its ring: a queue of orders, each answered by one report.
use scrimmage.Prelude.{
  ℕ, zero, suc, ◌-◌, ◌<◌, ◌≡◌, refl, sym, ap, subst, ◌∙◌, inl, inr, true, false, Option, none, some,
  List, [], ◌∷◌, ◌++◌, arith, length,
}
use scrimmage.RingBuffer.{Ring, IsValid, try_pop}
use scrimmage.RingBuffer.Queue
use scrimmage.RingBuffer.Queue.{Queue}
use scrimmage.RingBuffer.Window.{span-lt}
use scrimmage.RingBuffer.Refine.{contents, length-contents, view, try_push_refines}
use scrimmage.RingBuffer.Cases.{pop_cases}
use scrimmage.Orders.{Order, c_string}
use scrimmage.Sockets.Send.{send_all}
use scrimmage.Partition.{
  Outside, ExecutionReport, Output, to_client, to_group, Partition, full_fill, match_order,
  process_orders,
}

-- The report of an order that is filled in full.
abbrev pub in_full :
    (outside : Outside) → Order → (timestamp_ns : ℕ) → ExecutionReport (outside.Real)
in_full outside o timestamp_ns = record {
  order_id = o.order_id;
  symbol = c_string o.symbol;
  price = outside.real o.price;
  filled_quantity = o.quantity;
  remaining_quantity = 0;
  is_buy = o.is_buy;
  timestamp_ns = timestamp_ns;
}

module _ (outside : Outside) (capacity report_size : ℕ) where
  open outside use {World, Real, clock, send_answers}

  -- The partition as its users see it: the reports are a queue of `capacity - 1` at most.
  pub record Desk : Type 0 where
    pub fills : Queue (ExecutionReport Real)
    pub world : World
    pub outputs : List (Output Real)

  unfoldable pub desk : Partition outside → Desk
  desk p = record { fills = view capacity p.fills; world = p.world; outputs = p.outputs }

  -- One order: a report of it as filled in full, with the time of the clock, kept if there is room,
  -- then sent on the connection and to the group.
  unfoldable pub answer : Order → Desk → Desk
  answer o d =
      let (timestamp_ns, timed) = clock d.world in
      let (answers, sent) = send_answers timed in
      let report = in_full outside o timestamp_ns in
      record {
        fills = (Queue.enqueue (capacity - 1) d.fills report).1;
        world = sent;
        outputs =
            d.outputs ++ (to_client report (send_all answers report_size).1 ∷ to_group report ∷ []);
      }

  unfoldable pub answer_all : List Order → Desk → Desk
  answer_all [] d = d
  answer_all (o ∷ os) d = answer_all os (answer o d)

  pub match_order_refines :
      (o : Order) (p : Partition outside)
      → IsValid capacity p.fills
      → let q = match_order outside capacity report_size o p in
        (desk q ≡ answer o (desk p)) × IsValid capacity q.fills × (q.orders ≡ p.orders)
  unfolding match_order desk answer full_fill
  match_order_refines o p v =
      let (timestamp_ns, timed) = clock p.world in
      let step = try_push_refines p.fills (in_full outside o timestamp_ns) v in
      (
        ap
            (λ x. record {
              fills = x.1;
              world = (send_answers timed).1;
              outputs =
                  p.outputs
                  ++ (to_client (in_full outside o timestamp_ns)
                        (send_all (send_answers timed).0 report_size).1
                      ∷ to_group (in_full outside o timestamp_ns)
                      ∷ []);
            })
            step.0,
        step.1,
        refl,
      )

  -- `processOrders` ended with `q`: the orders are answered as `answer` says, in order, and none is
  -- left; both rings are valid.
  abbrev pub Processed : List Order → Desk → Option (Partition outside) → Type 0
  Processed os d none = ⊥
  Processed os d (some q) =
      (desk q ≡ answer_all os d)
      × (contents capacity q.orders ≡ [])
      × IsValid capacity q.orders
      × IsValid capacity q.fills

  process_nothing :
      (fuel : ℕ) (p : Partition outside)
      → try_pop capacity p.orders ≡ (false, none, p.orders)
      → process_orders outside capacity report_size (suc fuel) p ≡ some p
  unfolding process_orders
  process_nothing fuel p popped = rw (process_orders, popped) refl

  process_next :
      (fuel : ℕ) (p : Partition outside) (o : Order) (s : Ring Order)
      → try_pop capacity p.orders ≡ (true, some o, s)
      → process_orders outside capacity report_size (suc fuel) p
        ≡ process_orders outside capacity report_size fuel
            (match_order outside capacity report_size o (record p { orders = s }))
  unfolding process_orders
  process_next fuel p o s popped = rw (process_orders, popped, popped) refl

  process_from :
      (fuel : ℕ) (os : List Order) (p : Partition outside)
      → contents capacity p.orders ≡ os
      → IsValid capacity p.orders
      → IsValid capacity p.fills
      → length os < fuel
      → Processed os (desk p) (process_orders outside capacity report_size fuel p)
  unfolding answer_all desk
  process_from zero os p e v w enough = absurd (omega arith)
  process_from (suc fuel) os p e v w enough = elim (pop_cases capacity p.orders v) [
    | inl (empty, popped) ↦
        subst (λ l. Processed l (desk p) (process_orders outside capacity report_size (suc fuel) p))
          (sym empty ∙ e)
          (subst (Processed [] (desk p)) (sym (process_nothing fuel p popped)) (refl, empty, v, w))
    | inr (o, rest, s, first, popped, left, valid) ↦
        let taken : Partition outside = record p { orders = s } in
        let step = match_order_refines o taken w in
        let q = match_order outside capacity report_size o taken in
        let fewer : length rest < fuel = omega (arith, ap length (sym first ∙ e)) in
        let ih =
          process_from fuel rest q (ap (contents capacity) step.2 ∙ left)
            (subst (IsValid capacity) (sym step.2) valid) step.1 fewer in
        subst (λ l. Processed l (desk p) (process_orders outside capacity report_size (suc fuel) p))
          (sym first ∙ e)
          (subst (Processed (o ∷ rest) (desk p)) (sym (process_next fuel p o s popped)) (
            subst (λ d. Processed rest d (process_orders outside capacity report_size fuel q))
              step.0 ih))
  ]

  -- With both rings valid `processOrders` ends within `capacity` rounds. It answers each order that waits in the ring, in
  -- order: a report with the whole quantity filled and the time of the clock goes to the ring of
  -- reports if that has room, to the client and to the group. No order is left waiting.
  pub process_orders_refines :
      (p : Partition outside)
      → IsValid capacity p.orders
      → IsValid capacity p.fills
      → Processed
          (contents capacity p.orders)
          (desk p)
          (process_orders outside capacity report_size capacity p)
  process_orders_refines p v w = process_from capacity (contents capacity p.orders) p refl v w (
      omega (
        arith,
        length-contents p.orders v,
        span-lt v.addressable p.orders.head p.orders.tail v.head_in v.tail_in,
      ))
