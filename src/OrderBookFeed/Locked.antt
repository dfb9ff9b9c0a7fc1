-- ===== src/OrderBookFeed/Locked.antt =====
-- libs/market-data/OrderBookFeed.h under several threads: each call of `upsert`, `remove` and
-- `snapshot` is cut into what it does between taking `_mutex` and giving it back, and the threads take
-- their steps in any order. A mutex that the thread itself holds is waited for like any other.
pub mod Linear
pub mod Nested
use scrimmage.Prelude.{
  ℕ, ◌≡◌, Bool, true, false, Option, none, some, List, [], ◌∷◌, ◌++◌, ltb, if◌then◌else◌, length,
  take, ◌&&◌, update,
}
use scrimmage.OrderBookFeed.{
  Order, Market, Book, Feed, place, without, side_of, set_side, notify, snapshot,
}
use scrimmage.OrderBookFeed.Depth.{Command, upsert_call, remove_call}

module _ (market : Market) where
  -- Where a thread is: outside, or inside a call and holding the mutex, or in the callback and waiting
  -- for it.
  pub data Stage : Type 0 where
    outside : Stage
    upserting : Bool → Order (market.Price) → Stage
    sorting : Bool → Stage
    cutting : Bool → Stage
    removing : Bool → ℕ → Stage
    notifying : Stage
    leaving : Stage
    looking : Stage
    waiting : Stage

  -- The feed, the thread that holds the mutex, the threads, the calls in the order in which they took
  -- the mutex, and what the calls of `snapshot` have returned.
  pub record Shared : Type 0 where
    pub feed : Feed market
    pub owner : Option ℕ
    pub stage : ℕ → Stage
    pub calls : List (Command market)
    pub seen : List (Book market × Book market)

  -- Where a call begins that has taken the mutex.
  unfoldable pub entry : Command market → Stage
  entry (upsert_call side o) = upserting side o
  entry (remove_call side id) = removing side id

  -- What a stage does to the feed.
  unfoldable pub change : Stage → Feed market → Feed market
  change (upserting side o) f = set_side market side (place market o (side_of market side f)) f
  change (sorting side) f = set_side market side (market.sort side (side_of market side f)) f
  change (cutting side) f =
      let book = side_of market side f in
      set_side market side (if ltb f.max_levels (length book) then take f.max_levels book else book)
        f
  change (removing side id) f = set_side market side (without market id (side_of market side f)) f
  change notifying f = notify market f
  change outside f = f
  change leaving f = f
  change looking f = f
  change waiting f = f

  -- Where the thread goes on; `nested` says that the callback calls `snapshot`.
  unfoldable pub next : (nested : Bool) → Stage → Stage
  next nested (upserting side o) = sorting side
  next nested (sorting side) = cutting side
  next nested (cutting side) = notifying
  next nested (removing side id) = notifying
  next nested notifying = if nested then waiting else leaving
  next nested looking = leaving
  next nested leaving = outside
  next nested outside = outside
  next nested waiting = waiting

  -- The thread is inside a call and need not wait.
  abbrev pub is_acting : Stage → Bool
  is_acting (upserting side o) = true
  is_acting (sorting side) = true
  is_acting (cutting side) = true
  is_acting (removing side id) = true
  is_acting notifying = true
  is_acting leaving = true
  is_acting looking = true
  is_acting outside = false
  is_acting waiting = false

  abbrev pub is_leaving : Stage → Bool
  is_leaving leaving = true
  is_leaving _ = false

  abbrev pub is_looking : Stage → Bool
  is_looking looking = true
  is_looking _ = false

  -- The thread `t` goes on inside its call; leaving gives the mutex back.
  unfoldable pub act : (nested : Bool) → ℕ → Shared → Shared
  act nested t s =
      let here = s.stage t in
      record s {
        feed = change here s.feed;
        owner = if is_leaving here then none else s.owner;
        stage = update s.stage t (next (nested && s.feed.has_callback) here);
        seen = if is_looking here then s.seen ++ snapshot market s.feed ∷ [] else s.seen;
      }

  -- The thread `t` takes the mutex, at the start of a call.
  unfoldable pub enter : ℕ → Command market → Shared → Shared
  enter t c s = record s {
    owner = some t;
    stage = update s.stage t (entry c);
    calls = s.calls ++ c ∷ [];
  }

  -- The thread `t` takes the mutex to copy the book, be it from outside or from its callback.
  unfoldable pub look : ℕ → Shared → Shared
  look t s = record s { owner = some t; stage = update s.stage t looking }

  module _ (nested : Bool) where
    pub data Step (s : Shared) : Shared → Type 0 where
      enters :
          (t : ℕ) (c : Command market) → s.owner ≡ none → s.stage t ≡ outside → Step s (enter t c s)
      looks : (t : ℕ) → s.owner ≡ none → s.stage t ≡ outside → Step s (look t s)
      acts : (t : ℕ) → is_acting (s.stage t) ≡ true → Step s (act nested t s)
      wakes : (t : ℕ) → s.owner ≡ none → s.stage t ≡ waiting → Step s (look t s)

    pub data Steps : Shared → Shared → Type 0 where
      here : (s : Shared) → Steps s s
      further : {s u v : Shared} → Steps s u → Step u v → Steps s v

  -- A feed that no thread uses yet.
  unfoldable pub unused : Feed market → Shared
  unused f = record { feed = f; owner = none; stage = λ t. outside; calls = []; seen = [] }
