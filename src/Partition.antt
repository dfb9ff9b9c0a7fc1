-- ===== src/Partition.antt =====
-- libs/match/MatchingEnginePartition.h and ExecutionReport.h: a partition takes orders through one
-- ring, reports each as filled at once, keeps the reports in another ring and sends them out. The
-- clock, what `send` answers on the connection, and the `double` prices are a parameter; the rings
-- and `sendAll` are those of RingBuffer and Sockets.
pub mod Service
pub mod Fills
pub mod Ranges
mod Tests
use scrimmage.Prelude.{
  ℕ, zero, suc, Bool, true, false, ◌&&◌, ◌||◌, not, Option, none, some, List, [], ◌∷◌, ◌++◌, ltb,
  ◌==◌, if◌then◌else◌,
}
use scrimmage.Prelude.Int.{ℤ}
use scrimmage.RingBuffer.{Ring, init, try_push, try_pop}
use scrimmage.Orders.{Order, c_string}
use scrimmage.Sockets.Send.{Sent, send_all}

-- What runs beside the partition: the clock, and the answers that `send` gives while one report is
-- sent. `real` is the conversion of `int64_t` to `double`.
pub record Outside : Type 1 where
  pub World : Type 0
  pub Real : Type 0
  pub real : ℤ → Real
  pub clock : World → ℕ × World
  pub send_answers : World → List ℤ × World

pub record ExecutionReport (R : Type 0) : Type 0 where
  pub order_id : ℕ
  pub symbol : List ℕ
  pub price : R
  pub filled_quantity : ℕ
  pub remaining_quantity : ℕ
  pub is_buy : Bool
  pub timestamp_ns : ℕ

-- What leaves the partition: `_tcpClient.sendAll`, with the calls of `send` that it makes, and
-- `_udpSender.send`.
pub data Output (R : Type 0) : Type 0 where
  to_client : ExecutionReport R → List Sent → Output R
  to_group : ExecutionReport R → Output R

-- `a < b` of `std::string`, which compares characters as unsigned bytes.
unfoldable pub less : List ℕ → List ℕ → Bool
less a [] = false
less [] (d ∷ b) = true
less (c ∷ a) (d ∷ b) = ltb c d || (c == d && less a b)

module _ (outside : Outside) where
  open outside use {World, Real, real, clock, send_answers}

  pub record Partition : Type 0 where
    pub symbol_start : List ℕ
    pub symbol_end : List ℕ
    pub orders : Ring Order
    pub fills : Ring (ExecutionReport Real)
    pub world : World
    pub outputs : List (Output Real)

  -- The constructor, on rings whose arrays hold what they hold.
  unfoldable pub construct :
      (symbol_start symbol_end : List ℕ)
      → (ℕ → Order)
      → (ℕ → ExecutionReport Real)
      → World
      → Partition
  unfolding init
  construct symbol_start symbol_end orders fills world = record {
    symbol_start = symbol_start;
    symbol_end = symbol_end;
    orders = init orders;
    fills = init fills;
    world = world;
    outputs = [];
  }

  -- The report that `matchOrder` fills in.
  unfoldable pub full_fill : Order → (timestamp_ns : ℕ) → ExecutionReport Real
  full_fill o timestamp_ns = record {
    order_id = o.order_id;
    symbol = c_string o.symbol;
    price = real o.price;
    filled_quantity = o.quantity;
    remaining_quantity = 0;
    is_buy = o.is_buy;
    timestamp_ns = timestamp_ns;
  }

  -- `Capacity`, and `sizeof(ExecutionReport)`.
  module _ (capacity report_size : ℕ) where
    unfoldable pub submit_order : Order → Partition → Bool × Partition
    submit_order o p =
        let (done, orders) = try_push capacity p.orders o in (done, record p { orders = orders })

    unfoldable pub match_order : Order → Partition → Partition
    unfolding full_fill
    match_order o p =
        let (timestamp_ns, timed) = clock p.world in
        let report = full_fill o timestamp_ns in
        let (kept, fills) = try_push capacity p.fills report in
        let (answers, sent) = send_answers timed in
        let (done, calls) = send_all answers report_size in
        record p {
          fills = fills;
          world = sent;
          outputs = p.outputs ++ (to_client report calls ∷ to_group report ∷ []);
        }

    -- The loop on fuel; `none` if it runs out.
    unfoldable pub process_orders : ℕ → Partition → Option Partition
    unfolding match_order
    process_orders zero p = none
    process_orders (suc fuel) p =
        let (got, item, orders) = try_pop capacity p.orders in
        elim item [
          | none ↦ some p
          | some incoming ↦
              process_orders fuel (match_order incoming (record p { orders = orders }))
        ]

  -- `symbol >= _symbolStart && symbol <= _symbolEnd`
  unfoldable pub owns_symbol : List ℕ → Partition → Bool
  unfolding less
  owns_symbol symbol p = not (less symbol p.symbol_start) && not (less p.symbol_end symbol)
