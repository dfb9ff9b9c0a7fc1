-- ===== src/Injector/Life.antt =====
-- An injector of libs/market-data/SyntheticDataInjector.h from its constructor to its destructor: the
-- calls of `start` and `stop`, each `start` with the loop of its thread. The loop is taken to run
-- before the next call; nothing else uses the feed.
use scrimmage.Prelude.{
  ℕ, zero, suc, ◌≡◌, ◌≤◌, ◌<◌, ◌^◌, refl, Bool, true, false, Option, none, some, List, [], ◌∷◌,
  arith, max, Every,
}
use scrimmage.Lifecycle
use scrimmage.Lifecycle.{Worker, idle, assign_thread}
use scrimmage.OrderBookFeed.{Market, Feed, init}
use scrimmage.OrderBookFeed.Depth.{IsFeed, serve-IsFeed}
use scrimmage.Injector.{Quotes, inject_loop}
use scrimmage.Injector.Rounds.{IsFilled, loop-IsFilled, loop-IsFeed, init-IsFilled}

module _ (market : Market) (quotes : Quotes market) where
  -- A call: `start` for so many levels, with what `std::random_device` seeds its generator to and
  -- how often its loop reads `_running` as true, or `stop`.
  pub data Call : Type 0 where
    start_call : (levels rounds : ℕ) → quotes.World → Call
    stop_call : Call

  -- The members; `book` is the feed that `_book` refers to.
  pub record Injector : Type 0 where
    pub worker : Worker
    pub book : Feed market

  -- The constructor.
  unfoldable pub construct : Feed market → Injector
  construct f = record { worker = idle; book = f }

  -- `start` and the loop of its thread; `mid` is the mid price of 100.0, `none` is `std::terminate`.
  unfoldable pub start :
      (mid : market.Price) (levels rounds : ℕ) → quotes.World → Injector → Option Injector
  start mid levels rounds seed i = elim (Lifecycle.start i.worker) [
    | none ↦ none
    | some worker ↦
        some (record {
          worker = worker;
          book = inject_loop market quotes rounds levels mid seed i.book;
        })
  ]

  unfoldable pub stop : Injector → Injector
  stop i = record i { worker = Lifecycle.stop i.worker }

  -- The calls of a program, and the destructor, which stops.
  unfoldable pub live : (mid : market.Price) → List Call → Injector → Option Injector
  live mid [] i = some (stop i)
  live mid (start_call levels rounds seed ∷ calls) i = elim (start mid levels rounds seed i) [
    | none ↦ none
    | some j ↦ live mid calls j
  ]
  live mid (stop_call ∷ calls) i = live mid calls (stop i)

  -- `stop` stands between any two calls of `start`; `on` says that one is before.
  abbrev pub alternates : (on : Bool) → List Call → Bool
  alternates on [] = true
  alternates true (start_call levels rounds seed ∷ calls) = false
  alternates false (start_call levels rounds seed ∷ calls) = alternates true calls
  alternates on (stop_call ∷ calls) = alternates false calls

  -- The most levels of a `start` whose loop has a round, or `k`.
  abbrev pub deepest : ℕ → List Call → ℕ
  deepest k [] = k
  deepest k (start_call levels zero seed ∷ calls) = deepest k calls
  deepest k (start_call levels (suc rounds) seed ∷ calls) = deepest (max k levels) calls
  deepest k (stop_call ∷ calls) = deepest k calls

  abbrev pub FitsDepth : ℕ → Call → Type 0
  FitsDepth depth (start_call levels rounds seed) = levels ≤ depth
  FitsDepth depth stop_call = Unit

  module _ (depth : ℕ) (mid : market.Price) where
    abbrev state : Bool → Feed market → Injector
    state on f = record { worker = record { running = on; joinable = on }; book = f }

    -- What becomes of a program that survives or not, with `k` levels at last.
    abbrev pub Ends : (k : ℕ) → (survives : Bool) → Option Injector → Type 0
    Ends k survives none = survives ≡ false
    Ends k survives (some i) =
        (survives ≡ true)
        × (i.worker ≡ idle)
        × IsFilled market depth k k i.book
        × IsFeed market i.book

    live_from :
        (calls : List Call) (on : Bool) (k : ℕ) (f : Feed market)
        → depth < 2 ^ 63
        → Every (FitsDepth depth) calls
        → IsFilled market depth k k f
        → IsFeed market f
        → k ≤ depth
        → Ends (deepest k calls) (alternates on calls) (live mid calls (state on f))
    unfolding live start stop Lifecycle.start assign_thread Lifecycle.stop inject_loop
    live_from [] true k f word fits h feed small = (refl, refl, h, feed)
    live_from [] false k f word fits h feed small = (refl, refl, h, feed)
    live_from (stop_call ∷ calls) true k f word fits h feed small =
        live_from calls false k f word fits.1 h feed small
    live_from (stop_call ∷ calls) false k f word fits h feed small =
        live_from calls false k f word fits.1 h feed small
    live_from (start_call levels rounds seed ∷ calls) true k f word fits h feed small = refl
    live_from (start_call levels zero seed ∷ calls) false k f word fits h feed small =
        live_from calls true k f word fits.1 h feed small
    live_from (start_call levels (suc rounds) seed ∷ calls) false k f word fits h feed small =
        live_from calls true (max k levels)
          (inject_loop market quotes (suc rounds) levels mid seed f) word fits.1
          (loop-IsFilled market quotes depth rounds levels k mid seed f h word fits.0 small)
          (loop-IsFeed market quotes depth (suc rounds) levels mid seed f feed)
          (omega (arith, small, fits.0))

    -- Whatever calls of `start` and `stop` a program makes on an injector for a new feed, with no more
    -- levels than the depth of the feed, which is below 2 ^ 63, and whatever the random numbers and
    -- the prices: the program survives just if `stop` stands between any two calls of `start`, and
    -- then behind the destructor no thread is left, and the bids are the numbers 1, ..., k and the
    -- asks 1000, ..., 999 + k, each once and no other, best price first, where k is the most levels
    -- of a call of `start` whose loop had a round.
    pub live-Ends :
        (calls : List Call)
        → depth < 2 ^ 63
        → Every (FitsDepth depth) calls
        → Ends
            (deepest 0 calls)
            (alternates false calls)
            (live mid calls (construct (init market depth)))
    unfolding construct
    live-Ends calls word fits =
        live_from calls false 0 (init market depth) word fits (init-IsFilled market depth)
          (serve-IsFeed market [] depth) (omega arith)
