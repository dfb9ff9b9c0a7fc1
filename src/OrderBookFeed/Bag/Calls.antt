-- ===== src/OrderBookFeed/Bag/Calls.antt =====
-- Calls of libs/market-data/OrderBookFeed.h on the sides with their order forgotten.
use scrimmage.Prelude.{
  ℕ, suc, ◌+◌, ◌≤◌, ◌≡◌, ◌≢◌, refl, sym, ap, ◌∙◌, inl, inr, Bool, true, false, List, [], ◌∷◌, ◌++◌,
  arith, if◌then◌else◌, length, length-append, Bool-cases,
}
use scrimmage.OrderBookFeed.{
  Order, Market, Book, Feed, init, without, upsert_side, side_of, notify, upsert, remove,
}
use scrimmage.OrderBookFeed.Counts.{IsUnique, length-without}
use scrimmage.OrderBookFeed.Depth.{
  Command, upsert_call, remove_call, serve, IsFeed, upsert-IsFeed, remove-IsFeed, serve-IsFeed,
}
use scrimmage.OrderBookFeed.Bag.{
  same_side, Bag, bag_of, erase, put, put_all, put_comm, length-upsert_side, bag-upsert_side,
}

module _ (market : Market) where
  notify_keeps :
      (f : Feed market)
      → ((notify market f).bids ≡ f.bids)
        × ((notify market f).asks ≡ f.asks)
        × ((notify market f).max_levels ≡ f.max_levels)
  unfolding notify
  notify_keeps f = elim (Bool-cases f.has_callback) [
    | inl called ↦ rw called (refl, refl, refl)
    | inr silent ↦ rw silent (refl, refl, refl)
  ]

  -- A side behind a call.
  abbrev changed : Bool → Command market → Feed market → Book market
  changed side (upsert_call b o) f =
      if same_side side b
      then upsert_side market f.max_levels side o (side_of market side f)
      else side_of market side f
  changed side (remove_call b id) f =
      if same_side side b then without market id (side_of market side f) else side_of market side f

  abbrev perform : Command market → Feed market → Feed market
  perform (upsert_call b o) f = upsert market b o f
  perform (remove_call b id) f = remove market b id f

  perform-changed :
      (side : Bool) (c : Command market) (f : Feed market)
      → (side_of market side (perform c f) ≡ changed side c f)
        × ((perform c f).max_levels ≡ f.max_levels)
  unfolding upsert remove
  perform-changed true (upsert_call true o) f =
      let kept = notify_keeps (record f { bids = upsert_side market f.max_levels true o f.bids }) in
      (kept.0, kept.2)
  perform-changed true (upsert_call false o) f =
      let kept =
        notify_keeps (record f { asks = upsert_side market f.max_levels false o f.asks }) in
      (kept.0, kept.2)
  perform-changed false (upsert_call true o) f =
      let kept = notify_keeps (record f { bids = upsert_side market f.max_levels true o f.bids }) in
      (kept.1, kept.2)
  perform-changed false (upsert_call false o) f =
      let kept =
        notify_keeps (record f { asks = upsert_side market f.max_levels false o f.asks }) in
      (kept.1, kept.2)
  perform-changed true (remove_call true id) f =
      let kept = notify_keeps (record f { bids = without market id f.bids }) in (kept.0, kept.2)
  perform-changed true (remove_call false id) f =
      let kept = notify_keeps (record f { asks = without market id f.asks }) in (kept.0, kept.2)
  perform-changed false (remove_call true id) f =
      let kept = notify_keeps (record f { bids = without market id f.bids }) in (kept.1, kept.2)
  perform-changed false (remove_call false id) f =
      let kept = notify_keeps (record f { asks = without market id f.asks }) in (kept.1, kept.2)

  -- One call on the view of a side.
  abbrev put_one : Bool → Command market → Bag market → Bag market
  put_one side (upsert_call b o) x = if same_side side b then put market o x else x
  put_one side (remove_call b id) x = if same_side side b then erase market id x else x

  bag-changed :
      (side : Bool) (c : Command market) (f : Feed market)
      → IsUnique market (side_of market side f)
      → suc (length (side_of market side f)) ≤ f.max_levels
      → (bag_of market (changed side c f) ≡ put_one side c (bag_of market (side_of market side f)))
        × (length (changed side c f) ≤ suc (length (side_of market side f)))
  unfolding erase
  bag-changed side (upsert_call b o) f once room = elim (Bool-cases (same_side side b)) [
    | inl own ↦ rw own (
      bag-upsert_side market f.max_levels side o (side_of market side f) once room,
      length-upsert_side market f.max_levels side o (side_of market side f),
    )
    | inr other ↦ rw other (refl, omega arith)
  ]
  bag-changed side (remove_call b id) f once room = elim (Bool-cases (same_side side b)) [
    | inl own ↦ rw own (refl, omega (arith, length-without market id (side_of market side f)))
    | inr other ↦ rw other (refl, omega arith)
  ]

  side_once :
      (side : Bool) (f : Feed market) → IsFeed market f → IsUnique market (side_of market side f)
  side_once true f h = h.0.1.0
  side_once false f h = h.1.1.0

  init_depth : (max_levels : ℕ) → (init market max_levels).max_levels ≡ max_levels
  unfolding init
  init_depth max_levels = refl

  module _ (side : Bool) where
    bag-perform :
        (c : Command market) (calls : List (Command market)) (f : Feed market)
        → IsFeed market f
        → length (side_of market side f) + suc (length calls) ≤ f.max_levels
        → (bag_of market (side_of market side (perform c f))
            ≡ put_one side c (bag_of market (side_of market side f)))
          × (length (side_of market side (perform c f)) + length calls ≤ (perform c f).max_levels)
    bag-perform c calls f h room =
        let (at, same) = perform-changed side c f in
        let (view, long) = bag-changed side c f (side_once side f h) (omega (arith, room)) in
        (ap (bag_of market) at ∙ view, rw (at, same) (omega (arith, room, long)))

    serve_from :
        (calls : List (Command market)) (f : Feed market)
        → IsFeed market f
        → length (side_of market side f) + length calls ≤ f.max_levels
        → bag_of market (side_of market side (serve market calls f))
          ≡ put_all market side calls (bag_of market (side_of market side f))
    serve_from [] f h room = refl
    serve_from (upsert_call b o ∷ calls) f h room =
        let (view, left) = bag-perform (upsert_call b o) calls f h room in
        serve_from calls (upsert market b o f) (upsert-IsFeed market b o f h) left
        ∙ ap (put_all market side calls) view
    serve_from (remove_call b id ∷ calls) f h room =
        let (view, left) = bag-perform (remove_call b id) calls f h room in
        serve_from calls (remove market b id f) (remove-IsFeed market b id f h) left
        ∙ ap (put_all market side calls) view

    new_side : (max_levels : ℕ) → side_of market side (init market max_levels) ≡ []
    unfolding init
    new_side max_levels = elim (Bool-cases side) [ inl bid ↦ rw bid refl | inr ask ↦ rw ask refl ]

    -- No more calls than the depth of a new feed: behind them a side, its order forgotten, is what
    -- putting and erasing by number make of nothing.
    pub serve_bag :
        (calls : List (Command market)) (max_levels : ℕ)
        → length calls ≤ max_levels
        → bag_of market (side_of market side (serve market calls (init market max_levels)))
          ≡ put_all market side calls (bag_of market [])
    serve_bag calls max_levels room =
        serve_from calls (init market max_levels) (serve-IsFeed market [] max_levels)
          (rw (new_side max_levels) (omega (arith, room, init_depth max_levels)))
        ∙ ap (λ book. put_all market side calls (bag_of market book)) (new_side max_levels)

    put_all-append :
        (calls later : List (Command market)) (x : Bag market)
        → put_all market side (calls ++ later) x
          ≡ put_all market side later (put_all market side calls x)
    put_all-append [] later x = refl
    put_all-append (upsert_call b o ∷ calls) later x = put_all-append calls later _
    put_all-append (remove_call b id ∷ calls) later x = put_all-append calls later _

    put_all-swap :
        (b c : Bool) (o p : Order (market.Price)) (later : List (Command market)) (x : Bag market)
        → o.id ≢ p.id
        → put_all market side (upsert_call b o ∷ upsert_call c p ∷ later) x
          ≡ put_all market side (upsert_call c p ∷ upsert_call b o ∷ later) x
    put_all-swap b c o p later x apart = elim (Bool-cases (same_side side b)) [
      | inr other ↦ rw other refl
      | inl own ↦ elim (Bool-cases (same_side side c)) [
        | inr other ↦ rw (own, other) refl
        | inl also ↦
            rw (own, also) (ap (put_all market side later) (sym (put_comm market o p apart x)))
      ]
    ]

    -- No more calls than the depth of a new feed: two calls of `upsert` in a row with different
    -- numbers may come in either order, on any sides; behind all the calls both sides hold the same
    -- orders.
    pub serve_swap :
        (calls later : List (Command market)) (b c : Bool) (o p : Order (market.Price))
        (max_levels : ℕ)
        → o.id ≢ p.id
        → length calls + length later + 2 ≤ max_levels
        → bag_of market (
            side_of market side (
              serve market
                (calls ++ upsert_call b o ∷ upsert_call c p ∷ later)
                (init market max_levels)))
          ≡ bag_of market (
              side_of market side (
                serve market
                  (calls ++ upsert_call c p ∷ upsert_call b o ∷ later)
                  (init market max_levels)))
    serve_swap calls later b c o p max_levels apart room =
        serve_bag (calls ++ upsert_call b o ∷ upsert_call c p ∷ later) max_levels
          (omega (arith, room, length-append calls (upsert_call b o ∷ upsert_call c p ∷ later)))
        ∙ put_all-append calls (upsert_call b o ∷ upsert_call c p ∷ later) (bag_of market [])
        ∙ put_all-swap b c o p later (put_all market side calls (bag_of market [])) apart
        ∙ sym (put_all-append calls (upsert_call c p ∷ upsert_call b o ∷ later) (bag_of market []))
        ∙ sym (
            serve_bag (calls ++ upsert_call c p ∷ upsert_call b o ∷ later) max_levels (
              omega (arith, room, length-append calls (upsert_call c p ∷ upsert_call b o ∷ later))))
