-- ===== src/OrderBookFeed/Depth.antt =====
-- What the operations of `OrderBookFeed` keep, and what a side holds behind them.
use scrimmage.Prelude.{
  ℕ, ◌+◌, ◌≤◌, ◌≡◌, ◌≢◌, subst, ◌∙◌, inl, inr, Bool, true, false, List, [], ◌∷◌, arith, ltb, ◌==◌,
  length, length-take, Bool-cases,
}
use scrimmage.OrderBookFeed.{
  Order, count, IsSorted, Market, Book, Feed, init, place, without, upsert_side, side_of, notify,
  upsert, remove,
}
use scrimmage.OrderBookFeed.Counts.{
  with_id, IsUnique, one_if, count-place, count-take, count-without, count-without_self,
  count-without_other, length-without, IsSorted-take, IsSorted-without,
}

module _ (market : Market) where
  -- A side of a feed.
  abbrev pub IsSide : (max_levels : ℕ) → Bool → Book market → Type 0
  IsSide max_levels side book =
      IsSorted market.above side book × (IsUnique market book × (length book ≤ max_levels))

  abbrev pub IsFeed : Feed market → Type 0
  IsFeed f = IsSide (f.max_levels) true (f.bids) × IsSide (f.max_levels) false (f.asks)

  upsert_side-count_le :
      (max_levels : ℕ) (side : Bool) (o : Order (market.Price)) (book : Book market)
      (test : Order (market.Price) → Bool)
      → IsUnique market book
      → count test (upsert_side market max_levels side o book)
        ≤ count test (without market (o.id) book) + one_if market (test o)
  unfolding upsert_side
  upsert_side-count_le max_levels side o book test once =
      let sorted = market.sort side (place market o book) in
      let sort_count = market.sort_count side test (place market o book) in
      let placed = count-place market o book test (once (o.id)) in
      elim (Bool-cases (ltb max_levels (length sorted))) [
        | inl long ↦
            rw long (omega (arith, sort_count, placed, count-take market max_levels sorted test))
        | inr fits ↦ rw fits (omega (arith, sort_count, placed))
      ]

  upsert_side-IsSorted :
      (max_levels : ℕ) (side : Bool) (o : Order (market.Price)) (book : Book market)
      → IsSorted market.above side (upsert_side market max_levels side o book)
  unfolding upsert_side
  upsert_side-IsSorted max_levels side o book =
      let sorted = market.sort side (place market o book) in
      let by_law = market.sort_sorted side (place market o book) in
      elim (Bool-cases (ltb max_levels (length sorted))) [
        | inl long ↦ rw long (IsSorted-take market market.above side max_levels sorted by_law)
        | inr fits ↦ rw fits by_law
      ]

  upsert_side-length :
      (max_levels : ℕ) (side : Bool) (o : Order (market.Price)) (book : Book market)
      → length (upsert_side market max_levels side o book) ≤ max_levels
  unfolding upsert_side
  upsert_side-length max_levels side o book =
      let sorted = market.sort side (place market o book) in
      elim (Bool-cases (ltb max_levels (length sorted))) [
        | inl long ↦ rw long (omega (arith, length-take max_levels sorted))
        | inr fits ↦ rw fits (ground arith)
      ]

  upsert_side-IsUnique :
      (max_levels : ℕ) (side : Bool) (o : Order (market.Price)) (book : Book market)
      → IsUnique market book
      → IsUnique market (upsert_side market max_levels side o book)
  upsert_side-IsUnique max_levels side o book h id =
      let bound = upsert_side-count_le max_levels side o book (with_id market id) h in
      elim (Bool-cases (o.id == id)) [
        | inl same ↦
            let e : o.id ≡ id = ground arith in
            let gone =
              subst (λ i. count (with_id market i) (without market (o.id) book) ≡ 0) e
                (count-without_self market (o.id) book) in
            ground (arith, bound, gone)
        | inr other ↦
            ground (arith, bound, count-without market (o.id) book (with_id market id), h id)
      ]

  upsert_side-IsSide :
      (max_levels : ℕ) (side : Bool) (o : Order (market.Price)) (book : Book market)
      → IsSide max_levels side book
      → IsSide max_levels side (upsert_side market max_levels side o book)
  upsert_side-IsSide max_levels side o book h = (
    upsert_side-IsSorted max_levels side o book,
    (upsert_side-IsUnique max_levels side o book h.1.0, upsert_side-length max_levels side o book),
  )

  remove-IsSide :
      (max_levels id : ℕ) (side : Bool) (book : Book market)
      → IsSide max_levels side book
      → IsSide max_levels side (without market id book)
  remove-IsSide max_levels id side book h = (
    IsSorted-without market market.above side id book h.0,
    (
      λ i. omega (arith, count-without market id book (with_id market i), h.1.0 i),
      omega (arith, length-without market id book, h.1.1),
    ),
  )

  notify-IsFeed : (f : Feed market) → IsFeed f → IsFeed (notify market f)
  unfolding notify
  notify-IsFeed f h = elim (Bool-cases (f.has_callback)) [
    | inl called ↦ rw called h
    | inr silent ↦ rw silent h
  ]

  pub upsert-IsFeed :
      (side : Bool) (o : Order (market.Price)) (f : Feed market)
      → IsFeed f
      → IsFeed (upsert market side o f)
  unfolding upsert
  upsert-IsFeed true o f h =
      notify-IsFeed (record f { bids = upsert_side market (f.max_levels) true o (f.bids) })
        (upsert_side-IsSide (f.max_levels) true o (f.bids) h.0, h.1)
  upsert-IsFeed false o f h =
      notify-IsFeed (record f { asks = upsert_side market (f.max_levels) false o (f.asks) })
        (h.0, upsert_side-IsSide (f.max_levels) false o (f.asks) h.1)

  pub remove-IsFeed :
      (side : Bool) (id : ℕ) (f : Feed market) → IsFeed f → IsFeed (remove market side id f)
  unfolding remove
  remove-IsFeed true id f h =
      notify-IsFeed (record f { bids = without market id (f.bids) })
        (remove-IsSide (f.max_levels) id true (f.bids) h.0, h.1)
  remove-IsFeed false id f h =
      notify-IsFeed (record f { asks = without market id (f.asks) })
        (h.0, remove-IsSide (f.max_levels) id false (f.asks) h.1)

  -- The calls that change a feed.
  pub data Command : Type 0 where
    upsert_call : Bool → Order (market.Price) → Command
    remove_call : Bool → ℕ → Command

  abbrev pub serve : List Command → Feed market → Feed market
  serve [] f = f
  serve (upsert_call side o ∷ calls) f = serve calls (upsert market side o f)
  serve (remove_call side id ∷ calls) f = serve calls (remove market side id f)

  serve_from : (calls : List Command) (f : Feed market) → IsFeed f → IsFeed (serve calls f)
  serve_from [] f h = h
  serve_from (upsert_call side o ∷ calls) f h =
      serve_from calls (upsert market side o f) (upsert-IsFeed side o f h)
  serve_from (remove_call side id ∷ calls) f h =
      serve_from calls (remove market side id f) (remove-IsFeed side id f h)

  -- Behind any calls of `upsert` and `remove` on a new feed, on each side no order stands behind one
  -- that it should stand before, no number stands twice, and there are at most `max_levels` orders.
  pub serve-IsFeed :
      (calls : List Command) (max_levels : ℕ) → IsFeed (serve calls (init market max_levels))
  unfolding init
  serve-IsFeed calls max_levels =
      let none_twice : IsUnique market [] = λ id. omega arith in
      let short : 0 ≤ max_levels = omega arith in
      serve_from calls (init market max_levels)
        ((tt, (none_twice, short)), (tt, (none_twice, short)))

  -- While the new order does not make its side longer than `max_levels`: behind `upsert` a side holds
  -- the orders with other numbers that it held, and the new order once, and nothing else; that is, as
  -- many of them pass any test.
  pub count-upsert_side :
      (max_levels : ℕ) (side : Bool) (o : Order (market.Price)) (book : Book market)
      (test : Order (market.Price) → Bool)
      → IsUnique market book
      → length (place market o book) ≤ max_levels
      → count test (upsert_side market max_levels side o book)
        ≡ count test (without market (o.id) book) + one_if market (test o)
  unfolding upsert_side
  count-upsert_side max_levels side o book test once room =
      let sorted = market.sort side (place market o book) in
      let fits : ltb max_levels (length sorted) ≡ false =
        ground (arith, market.sort_length side (place market o book)) in
      rw fits (
        market.sort_count side test (place market o book)
        ∙ count-place market o book test (once (o.id)))

  -- Behind `remove` no order of the side has the number, and as many as before have any other.
  pub count-remove :
      (side : Bool) (id other : ℕ) (f : Feed market)
      → (count (with_id market id) (side_of market side (remove market side id f)) ≡ 0)
        × (id ≢ other
            → count (with_id market other) (side_of market side (remove market side id f))
              ≡ count (with_id market other) (side_of market side f))
  unfolding remove notify
  count-remove true id other f = elim (Bool-cases (f.has_callback)) [
    | inl called ↦
        rw called
          (count-without_self market id (f.bids), count-without_other market id other (f.bids))
    | inr silent ↦
        rw silent
          (count-without_self market id (f.bids), count-without_other market id other (f.bids))
  ]
  count-remove false id other f = elim (Bool-cases (f.has_callback)) [
    | inl called ↦
        rw called
          (count-without_self market id (f.asks), count-without_other market id other (f.asks))
    | inr silent ↦
        rw silent
          (count-without_self market id (f.asks), count-without_other market id other (f.asks))
  ]
