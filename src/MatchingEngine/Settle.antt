-- ===== src/MatchingEngine/Settle.antt =====
-- One call of `matchOrder` in libs/match/MatchingEngine.h on a whole engine: which lists, orders and
-- pool entries it leaves.
use scrimmage.Prelude.{
  ℕ, ◌+◌, ◌≡◌, ◌≢◌, refl, sym, ap, ap₂, ◌∙◌, Bool, true, false, not, ◌&&◌, some, List, [], ◌∷◌,
  ◌++◌, arith, ltb, ◌==◌, if◌then◌else◌, map, length, take, drop, Every, has, ◌∉◌, AreDistinct,
  update, update_self, update_ne,
}
use scrimmage.MatchingEngine.{
  Order, OrderPool, Book, Engine, Matching, opposite_side, set_opposite, push_back, rest_order,
  match_loop, match_order,
}
use scrimmage.MatchingEngine.Sweep.{Swept, sweep}
use scrimmage.MatchingEngine.Loop.{IsBounded, reports_of, Does}
use scrimmage.MatchingEngine.Loop.Ends.{match_loop-Does}

-- The list of one side of a book: true for the orders to buy.
abbrev pub side : Bool → Book → List ℕ
side b book = if b then book.buy_orders else book.sell_orders

module _ (pools : OrderPool) where
  settled_opposite :
      (o : ℕ) (b returned : Bool) (orders : ℕ → Order) (os : List ℕ) (book : Book)
      → side (not b) (rest_order pools o b returned orders (set_opposite pools b os book)) ≡ os
  unfolding rest_order set_opposite push_back
  settled_opposite o true returned orders os book = ground arith
  settled_opposite o false returned orders os book = ground arith

  settled_same :
      (o : ℕ) (b returned : Bool) (orders : ℕ → Order) (os : List ℕ) (book : Book)
      → side b (rest_order pools o b returned orders (set_opposite pools b os book))
        ≡ (if not returned && ltb 0 (orders o).quantity then side b book ++ o ∷ [] else side b book)
  unfolding rest_order set_opposite push_back
  settled_same o true returned orders os book = ground arith
  settled_same o false returned orders os book = ground arith

  opposite_side_lem : (b : Bool) (book : Book) → opposite_side pools b book ≡ side (not b) book
  unfolding opposite_side
  opposite_side_lem true book = refl
  opposite_side_lem false book = refl

  -- What a call for the order `o` on book `k` leaves behind, in terms of the sweep `s`.
  pub record Settles (k o : ℕ) (e e' : Engine pools) (s : Swept) : Type 0 where
    pub opposite_lem :
        side (not (e.orders o).is_buy) (e'.books k)
        ≡ drop s.gone (side (not (e.orders o).is_buy) (e.books k))
    pub same_lem : side (e.orders o).is_buy (e'.books k) ≡ (
        if not s.used_up && ltb 0 s.left.quantity
        then side (e.orders o).is_buy (e.books k) ++ o ∷ []
        else side (e.orders o).is_buy (e.books k))
    pub books_lem : (j : ℕ) → k ≢ j → e'.books j ≡ e.books j
    pub left_eq : e'.orders o ≡ s.left
    pub side_eq : map e'.orders (drop s.gone (side (not (e.orders o).is_buy) (e.books k))) ≡ s.side
    pub others_eq :
        (p : ℕ) → p ∉ side (not (e.orders o).is_buy) (e.books k) → o ≢ p → e'.orders p ≡ e.orders p
    pub reports_eq : e'.reports ≡ e.reports ++ reports_of s.fills
    pub in_use_eq :
        (p : ℕ)
        → pools.in_use e'.pool p ≡ (
            (pools.in_use e.pool p
              && not (has p (take s.gone (side (not (e.orders o).is_buy) (e.books k)))))
            && not (s.used_up && p == o))

  abbrev pub swept : ℕ → ℕ → Engine pools → Swept
  swept k o e = sweep (e.orders o) (map e.orders (side (not (e.orders o).is_buy) (e.books k)))

  module _ (k o : ℕ) (e : Engine pools) (returned : Bool) (m : Matching pools) where
    abbrev bought : Bool
    bought = (e.orders o).is_buy

    abbrev facing : List ℕ
    facing = side (not bought) (e.books k)

    abbrev book' : Book
    book' =
        rest_order pools o bought returned m.orders
          (set_opposite pools bought m.opposite (e.books k))

    abbrev result : Engine pools
    result = record {
      books = update e.books k book';
      orders = m.orders;
      pool = m.pool;
      reports = m.reports;
    }

    abbrev begin : Matching pools
    begin = record { opposite = facing; orders = e.orders; pool = e.pool; reports = e.reports }

    match_order_runs :
        match_loop pools (length facing + 1) o 0 begin ≡ some (returned, m)
        → match_order pools k o e ≡ some result
    unfolding match_order
    match_order_runs runs = rw (opposite_side_lem, match_order) (rw (runs, match_order))

    Does→Settles : (s : Swept) → Does pools o begin facing s returned m → Settles k o e result s
    Does→Settles s does = record {
      opposite_lem =
          ap (side (not bought)) (update_self e.books k book')
          ∙ settled_opposite o bought returned m.orders m.opposite (e.books k)
          ∙ does.opposite_lem;
      same_lem =
          ap (side bought) (update_self e.books k book')
          ∙ settled_same o bought returned m.orders m.opposite (e.books k)
          ∙ ap₂
              (λ (u : Bool) (left : Order).
                if not u && ltb 0 left.quantity
                then side bought (e.books k) ++ o ∷ []
                else side bought (e.books k))
              does.returned_lem does.left_lem;
      books_lem = λ j ne. update_ne e.books k j book' ne;
      left_eq = does.left_lem;
      side_eq = ap (map m.orders) (sym does.opposite_lem) ∙ does.side_lem;
      others_eq = does.others_lem;
      reports_eq = does.reports_lem;
      in_use_eq = does.in_use_lem;
    }

  -- `matchOrder` ends, and leaves what the sweep of the opposite side says.
  pub match_order-Settles :
      (k o : ℕ) (e : Engine pools)
      → AreDistinct (side (not (e.orders o).is_buy) (e.books k))
      → o ∉ side (not (e.orders o).is_buy) (e.books k)
      → IsBounded (e.orders o)
      → Every (λ p. IsBounded (e.orders p)) (side (not (e.orders o).is_buy) (e.books k))
      → (e' : Engine pools) × (match_order pools k o e ≡ some e') × Settles k o e e' (swept k o e)
  match_order-Settles k o e distinct out bound bounds =
      let os = side (not (e.orders o).is_buy) (e.books k) in
      let (returned, m, runs, does) =
        match_loop-Does pools o (length os + 1) os e.orders e.pool e.reports (omega arith) distinct
          out bound bounds in
      (
        result k o e returned m,
        match_order_runs k o e returned m runs,
        Does→Settles k o e returned m (swept k o e) does,
      )
