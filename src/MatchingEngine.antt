-- ===== src/MatchingEngine.antt =====
-- libs/match/MatchingEngine.h: orders in one of 1024 books, matched as they are submitted.
-- Orders live in a store that pointers index, since a book and the pool share them. The callbacks'
-- calls are collected in order. `OrderPool` is not in the repository: it is a parameter.
pub mod Sweep
pub mod Fair
pub mod Loop
pub mod Settle
pub mod Sound
pub mod Submit
pub mod Matches
pub mod Runs
mod Tests
use Prim.Native.Nat.{bit_xor}
use scrimmage.Prelude.{
  ℕ, zero, suc, ◌+◌, ◌-◌, ◌*◌, ◌%◌, ◌^◌, ◌≡◌, Bool, true, false, not, ◌&&◌, ◌||◌, Option, none,
  some, List, [], ◌∷◌, ◌++◌, ltb, leb, ◌==◌, if◌then◌else◌, sub_word, update, min, get_elem?,
  length,
}
use scrimmage.Prelude.Int.{ℤ, leb_ℤ}

pub record Order : Type 0 where
  pub order_id : ℕ
  pub price : ℤ
  pub quantity : ℕ
  pub is_buy : Bool
  pub symbol : List ℕ

-- A call of `_executionReportCb` or of `_matchReportCb`, with the orders as they are then.
pub data Report : Type 0 where
  executed : Order → ℕ → Report
  matched : Order → Order → ℕ → Report

-- `OrderPool<Order>`: `acquire` returns null when no order is left. What the engine relies on is that
-- an order is not handed out again before it is released.
pub record OrderPool : Type 1 where
  pub Pool : Type 0
  pub acquire : Pool → Option (ℕ × Pool)
  pub release : ℕ → Pool → Pool
  pub in_use : Pool → ℕ → Bool
  pub acquire_fresh : (p q : Pool) (o : ℕ) → acquire p ≡ some (o, q) → in_use p o ≡ false
  pub acquire_marks :
      (p q : Pool) (o : ℕ)
      → acquire p ≡ some (o, q)
      → (a : ℕ) → in_use q a ≡ ((a == o) || in_use p a)
  pub release_marks : (p : Pool) (o a : ℕ) → in_use (release o p) a ≡ (not (a == o) && in_use p a)

-- `static_cast<size_t>` of a signed `char`.
unfoldable pub sign_extend : ℕ → ℕ
sign_extend c = if ltb c 128 then c else 2 ^ 64 - 256 + c

-- The loop of `hashSymbol`, with `left` of the 16 characters to go. It also looks at the character
-- behind the last before it stops, which changes nothing.
unfoldable pub hash_loop : (left hash : ℕ) → List ℕ → ℕ
unfolding sign_extend
hash_loop zero hash symbol = hash
hash_loop (suc left) hash [] = hash
hash_loop (suc left) hash (c ∷ symbol) =
    let rest = hash_loop left (bit_xor hash (sign_extend c) * 1099511628211 % 2 ^ 64) symbol in
    if c == 0 then hash else rest

unfoldable pub hash_symbol : List ℕ → ℕ
unfolding hash_loop
hash_symbol symbol = hash_loop 16 14695981039346656037 symbol % 1024

unfoldable pub crosses : Order → Order → Bool
crosses incoming resting =
    (incoming.is_buy && leb_ℤ resting.price incoming.price)
    || (not incoming.is_buy && leb_ℤ incoming.price resting.price)

-- `o->quantity -= fill`
unfoldable pub take_from : (ℕ → Order) → ℕ → ℕ → (ℕ → Order)
take_from orders o fill =
    update orders o (record (orders o) { quantity = sub_word 64 (orders o).quantity fill })

-- `v.erase(v.begin() + i)`
unfoldable pub erase_at : ℕ → List ℕ → List ℕ
erase_at i [] = []
erase_at zero (x ∷ xs) = xs
erase_at (suc i) (x ∷ xs) = x ∷ erase_at i xs

-- The private `OrderBookEntry`.
pub record Book : Type 0 where
  pub buy_orders : List ℕ
  pub sell_orders : List ℕ

module _ (pools : OrderPool) where
  open pools use {Pool, acquire, release}

  pub record Engine : Type 0 where
    pub books : ℕ → Book
    pub orders : ℕ → Order
    pub pool : Pool
    pub reports : List Report

  -- What the loop of `matchOrder` works on.
  pub record Matching : Type 0 where
    pub opposite : List ℕ
    pub orders : ℕ → Order
    pub pool : Pool
    pub reports : List Report

  -- One fill: both quantities, then the three callbacks.
  unfoldable pub fill : ℕ → ℕ → Matching → Matching
  fill incoming resting m =
      let fill_qty = min (m.orders incoming).quantity (m.orders resting).quantity in
      let orders' = take_from (take_from m.orders incoming fill_qty) resting fill_qty in
      record m {
        orders = orders';
        reports =
            m.reports
            ++ executed (orders' incoming) fill_qty
              ∷ executed (orders' resting) fill_qty
              ∷ matched (orders' incoming) (orders' resting) fill_qty
              ∷ [];
      }

  -- A resting order that is used up leaves its book and goes back to the pool.
  unfoldable pub retire : ℕ → ℕ → Matching → Matching
  retire i resting m =
      if (m.orders resting).quantity == 0
      then record m { opposite = erase_at i m.opposite; pool = release resting m.pool }
      else m

  unfoldable pub next_index : ℕ → ℕ → Matching → ℕ
  next_index i resting m = if (m.orders resting).quantity == 0 then i else i + 1

  -- The loop from index `i`, on fuel; true if it returns from `matchOrder`, having released the
  -- incoming order.
  unfoldable pub match_loop : ℕ → ℕ → ℕ → Matching → Option (Bool × Matching)
  match_loop zero incoming i m = none
  match_loop (suc fuel) incoming i m = elim (get_elem? m.opposite i) [
    | none ↦ some (false, m)
    | some resting ↦
        let filled = fill incoming resting m in
        let retired = retire i resting filled in
        let rest = match_loop fuel incoming (next_index i resting filled) retired in
        if crosses (m.orders incoming) (m.orders resting)
        then (if (retired.orders incoming).quantity == 0
            then some (true, record retired { pool = release incoming retired.pool })
            else rest)
        else some (false, m)
  ]

  unfoldable pub opposite_side : Bool → Book → List ℕ
  opposite_side is_buy book = if is_buy then book.sell_orders else book.buy_orders

  unfoldable pub set_opposite : Bool → List ℕ → Book → Book
  set_opposite is_buy os book =
      if is_buy then record book { sell_orders = os } else record book { buy_orders = os }

  -- `sameSide.push_back(incoming)`
  unfoldable pub push_back : Bool → ℕ → Book → Book
  push_back is_buy o book =
      if is_buy
      then record book { buy_orders = book.buy_orders ++ o ∷ [] }
      else record book { sell_orders = book.sell_orders ++ o ∷ [] }

  -- What follows the loop.
  unfoldable pub rest_order : ℕ → Bool → Bool → (ℕ → Order) → Book → Book
  rest_order incoming is_buy returned orders book =
      if not returned && ltb 0 (orders incoming).quantity
      then push_back is_buy incoming book
      else book

  -- `matchOrder` on the book at index `k`; `none` would mean that the loop ran out of fuel.
  unfoldable pub match_order : ℕ → ℕ → Engine → Option Engine
  match_order k incoming e =
      let book = e.books k in
      let is_buy = (e.orders incoming).is_buy in
      let opposite = opposite_side is_buy book in
      let start : Matching = record {
        opposite = opposite;
        orders = e.orders;
        pool = e.pool;
        reports = e.reports;
      } in
      elim (match_loop (length opposite + 1) incoming 0 start) [
        | none ↦ none
        | some (returned, m) ↦ some (record {
          books =
              update e.books k (
                rest_order incoming is_buy returned m.orders (set_opposite is_buy m.opposite book));
          orders = m.orders;
          pool = m.pool;
          reports = m.reports;
        })
      ]

  -- `submitOrder`
  unfoldable pub submit_order : Order → Engine → Option Engine
  submit_order order e = elim (acquire e.pool) [
    | none ↦ some e
    | some (new_order, pool') ↦
        match_order (hash_symbol order.symbol) new_order
          (record e { orders = update e.orders new_order order; pool = pool' })
  ]
