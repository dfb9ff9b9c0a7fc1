-- ===== src/Injector/Rounds.antt =====
-- The feed behind the rounds of the injector.
use scrimmage.Prelude.{
  ℕ, zero, suc, ◌+◌, ◌≡◌, ◌≤◌, ◌<◌, ◌^◌, refl, inl, inr, true, false, arith, max, subst, Bool-cases,
  add_word,
}
use scrimmage.OrderBookFeed.{Order, Market, Feed, init, upsert, upsert_side, notify}
use scrimmage.OrderBookFeed.Depth.{IsFeed, upsert-IsFeed}
use scrimmage.Injector.{Quotes, inject_bids, inject_asks, inject_loop}
use scrimmage.Injector.Exact.{IsExact, upsert_side-IsExact}

module _ (market : Market) where
  -- A feed of depth `depth` with the bids 1, ..., `b` and the asks 1000, ..., 999 + `a`.
  abbrev pub IsFilled : (depth b a : ℕ) → Feed market → Type 0
  IsFilled depth b a f =
      (f.max_levels ≡ depth) × (IsExact market 1 b f.bids) × (IsExact market 1000 a f.asks)

  notify-IsFilled :
      (depth b a : ℕ) (f : Feed market)
      → IsFilled depth b a f
      → IsFilled depth b a (notify market f)
  unfolding notify
  notify-IsFilled depth b a f h = elim (Bool-cases (f.has_callback)) [
    | inl called ↦ rw called h
    | inr silent ↦ rw silent h
  ]

  bid-IsFilled :
      (depth b a i : ℕ) (o : Order (market.Price)) (f : Feed market)
      → IsFilled depth b a f
      → o.id ≡ add_word 64 i 1
      → depth < 2 ^ 63
      → i < depth
      → i ≤ b
      → b ≤ depth
      → IsFilled depth (max b (suc i)) a (upsert market true o f)
  unfolding upsert
  bid-IsFilled depth b a i o f h name word room inside long =
      notify-IsFilled depth (max b (suc i)) a
        (record f { bids = upsert_side market f.max_levels true o f.bids })
        (
          h.0,
          upsert_side-IsExact market f.max_levels 1 b i true o f.bids h.1 (omega arith) inside
              (omega (arith, h.0, room)) (omega (arith, h.0, long)),
          h.2,
        )

  ask-IsFilled :
      (depth b a i : ℕ) (o : Order (market.Price)) (f : Feed market)
      → IsFilled depth b a f
      → o.id ≡ add_word 64 i 1000
      → depth < 2 ^ 63
      → i < depth
      → i ≤ a
      → a ≤ depth
      → IsFilled depth b (max a (suc i)) (upsert market false o f)
  unfolding upsert
  ask-IsFilled depth b a i o f h name word room inside long =
      notify-IsFilled depth b (max a (suc i))
        (record f { asks = upsert_side market f.max_levels false o f.asks })
        (
          h.0,
          h.1,
          upsert_side-IsExact market f.max_levels 1000 a i false o f.asks h.2 (omega arith) inside
              (omega (arith, h.0, room)) (omega (arith, h.0, long)),
        )

  module _ (quotes : Quotes market) (depth : ℕ) where
    inject_bids-IsFilled :
        (n i b a : ℕ) (mid : market.Price) (w : quotes.World) (f : Feed market)
        → IsFilled depth b a f
        → depth < 2 ^ 63
        → i + n ≤ depth
        → i ≤ b
        → b ≤ depth
        → IsFilled depth (max b (i + n)) a (inject_bids market quotes n i mid w f).1
    unfolding inject_bids
    inject_bids-IsFilled zero i b a mid w f h word room inside long =
        subst (λ k. IsFilled depth k a f) (omega arith) h
    inject_bids-IsFilled (suc n) i b a mid w f h word room inside long =
        let draw = quotes.quantity w in
        let o : Order (market.Price) = record {
          id = add_word 64 i 1;
          price = quotes.below mid i;
          quantity = draw.0;
        } in
        let next = bid-IsFilled depth b a i o f h refl word (omega arith) inside long in
        let ih =
          inject_bids-IsFilled n (suc i) (max b (suc i)) a mid draw.1 (upsert market true o f) next
            word (omega arith) (omega arith) (omega arith) in
        subst
          (λ k.
            IsFilled depth k a
              (inject_bids market quotes n (suc i) mid draw.1 (upsert market true o f)).1)
          (omega arith) ih

    inject_asks-IsFilled :
        (n i b a : ℕ) (mid : market.Price) (w : quotes.World) (f : Feed market)
        → IsFilled depth b a f
        → depth < 2 ^ 63
        → i + n ≤ depth
        → i ≤ a
        → a ≤ depth
        → IsFilled depth b (max a (i + n)) (inject_asks market quotes n i mid w f).1
    unfolding inject_asks
    inject_asks-IsFilled zero i b a mid w f h word room inside long =
        subst (λ k. IsFilled depth b k f) (omega arith) h
    inject_asks-IsFilled (suc n) i b a mid w f h word room inside long =
        let draw = quotes.quantity w in
        let o : Order (market.Price) = record {
          id = add_word 64 i 1000;
          price = quotes.higher mid i;
          quantity = draw.0;
        } in
        let next = ask-IsFilled depth b a i o f h refl word (omega arith) inside long in
        let ih =
          inject_asks-IsFilled n (suc i) b (max a (suc i)) mid draw.1 (upsert market false o f) next
            word (omega arith) (omega arith) (omega arith) in
        subst
          (λ k.
            IsFilled depth b k
              (inject_asks market quotes n (suc i) mid draw.1 (upsert market false o f)).1)
          (omega arith) ih

    -- A round goes on from whatever a side holds already.
    round-IsFilled :
        (levels k : ℕ) (mid : market.Price) (w : quotes.World) (f : Feed market)
        → IsFilled depth k k f
        → depth < 2 ^ 63
        → levels ≤ depth
        → k ≤ depth
        → let bids = inject_bids market quotes levels 0 mid w f in
          IsFilled depth
            (max k levels)
            (max k levels)
            (inject_asks market quotes levels 0 mid bids.0 bids.1).1
    round-IsFilled levels k mid w f h word room few =
        let bids = inject_bids market quotes levels 0 mid w f in
        let bids_in =
          inject_bids-IsFilled levels 0 k k mid w f h word (omega arith) (omega arith)
            (omega arith) in
        let asks_in =
          inject_asks-IsFilled levels 0 (max k (0 + levels)) k mid bids.0 bids.1 bids_in word
            (omega arith) (omega arith) (omega arith) in
        subst (λ x. IsFilled depth x x (inject_asks market quotes levels 0 mid bids.0 bids.1).1)
          (omega arith) asks_in

    pub loop-IsFilled :
        (rounds levels k : ℕ) (mid : market.Price) (w : quotes.World) (f : Feed market)
        → IsFilled depth k k f
        → depth < 2 ^ 63
        → levels ≤ depth
        → k ≤ depth
        → IsFilled depth
            (max k levels)
            (max k levels)
            (inject_loop market quotes (suc rounds) levels mid w f)
    unfolding inject_loop
    loop-IsFilled zero levels k mid w f h word room few =
        round-IsFilled levels k mid w f h word room few
    loop-IsFilled (suc rounds) levels k mid w f h word room few =
        let bids = inject_bids market quotes levels 0 mid w f in
        let asks = inject_asks market quotes levels 0 mid bids.0 bids.1 in
        let shifted = quotes.shift mid asks.0 in
        let rest =
          loop-IsFilled rounds levels (max k levels) shifted.0 shifted.1 asks.1
            (round-IsFilled levels k mid w f h word room few) word room (omega arith) in
        subst
          (λ x.
            IsFilled depth x x
              (inject_loop market quotes (suc rounds) levels shifted.0 shifted.1 asks.1))
          (omega arith) rest

    inject_bids-IsFeed :
        (n i : ℕ) (mid : market.Price) (w : quotes.World) (f : Feed market)
        → IsFeed market f
        → IsFeed market (inject_bids market quotes n i mid w f).1
    unfolding inject_bids
    inject_bids-IsFeed zero i mid w f h = h
    inject_bids-IsFeed (suc n) i mid w f h =
        let draw = quotes.quantity w in
        let o : Order (market.Price) = record {
          id = add_word 64 i 1;
          price = quotes.below mid i;
          quantity = draw.0;
        } in
        inject_bids-IsFeed n (suc i) mid draw.1 (upsert market true o f)
          (upsert-IsFeed market true o f h)

    inject_asks-IsFeed :
        (n i : ℕ) (mid : market.Price) (w : quotes.World) (f : Feed market)
        → IsFeed market f
        → IsFeed market (inject_asks market quotes n i mid w f).1
    unfolding inject_asks
    inject_asks-IsFeed zero i mid w f h = h
    inject_asks-IsFeed (suc n) i mid w f h =
        let draw = quotes.quantity w in
        let o : Order (market.Price) = record {
          id = add_word 64 i 1000;
          price = quotes.higher mid i;
          quantity = draw.0;
        } in
        inject_asks-IsFeed n (suc i) mid draw.1 (upsert market false o f)
          (upsert-IsFeed market false o f h)

    pub loop-IsFeed :
        (rounds levels : ℕ) (mid : market.Price) (w : quotes.World) (f : Feed market)
        → IsFeed market f
        → IsFeed market (inject_loop market quotes rounds levels mid w f)
    unfolding inject_loop
    loop-IsFeed zero levels mid w f h = h
    loop-IsFeed (suc rounds) levels mid w f h =
        let bids = inject_bids market quotes levels 0 mid w f in
        let asks = inject_asks market quotes levels 0 mid bids.0 bids.1 in
        let shifted = quotes.shift mid asks.0 in
        loop-IsFeed rounds levels shifted.0 shifted.1 asks.1
          (inject_asks-IsFeed levels 0 mid bids.0 bids.1 (inject_bids-IsFeed levels 0 mid w f h))

  -- A new feed has no level.
  pub init-IsFilled : (depth : ℕ) → IsFilled depth 0 0 (init market depth)
  unfolding init
  init-IsFilled depth = (refl, ((λ id. ground arith), refl), ((λ id. ground arith), refl))
