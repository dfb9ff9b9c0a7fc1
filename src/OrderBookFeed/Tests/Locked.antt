-- ===== src/OrderBookFeed/Tests/Locked.antt =====
-- Two threads on a feed of libs/market-data/OrderBookFeed.h, and a callback that calls it.
use scrimmage.Prelude.{◌≡◌, refl, true, false, none, [], ◌∷◌, Every}
use scrimmage.OrderBookFeed.{Feed, init, set_update_callback, place, notify, snapshot}
use scrimmage.OrderBookFeed.Sample.{market, order, insert, insertion_sort}
use scrimmage.OrderBookFeed.Depth.{upsert_call, serve}
use scrimmage.OrderBookFeed.Locked.{
  Shared, waiting, entry, change, next, act, enter, look, Step, enters, looks, acts, Steps, here,
  further, unused,
}
use scrimmage.OrderBookFeed.Locked.Linear.{IsSeen, threads_refine}
use scrimmage.OrderBookFeed.Locked.Nested.{nested_deadlock}

abbrev feed : Feed market
feed = init market 2

-- Thread 0 upserts a bid, then thread 1 takes a copy.
abbrev entered : Shared market
entered = enter market 0 (upsert_call true (order 1 100 5)) (unused market feed)

abbrev act0 : Shared market → Shared market
act0 s = act market false 0 s

abbrev left : Shared market
left = act0 (act0 (act0 (act0 (act0 entered))))

abbrev copied : Shared market
copied = act market false 1 (act market false 1 (look market 1 left))

took : Steps market false (unused market feed) copied
unfolding unused enter entry act next change look
took =
    further
      (further
        (further
          (further
            (further
              (further
                (further
                  (further
                    (further (here (unused market feed))
                      (enters 0 (upsert_call true (order 1 100 5)) refl refl))
                    (acts 0 refl))
                  (acts 0 refl))
                (acts 0 refl))
              (acts 0 refl))
            (acts 0 refl))
          (looks 1 refl refl))
        (acts 1 refl))
      (acts 1 refl)

free_again : copied.owner ≡ none
unfolding unused enter entry act next change look
free_again = refl

copy_run : copied.seen ≡ (order 1 100 5 ∷ [], []) ∷ []
unfolding unused enter entry act next change look init place notify insert insertion_sort snapshot
copy_run = refl

threads_refine_example :
    (copied.feed ≡ serve market copied.calls feed)
    × Every (IsSeen market feed copied.calls) copied.seen
threads_refine_example = threads_refine market feed false copied took free_again

-- A feed with a callback.
abbrev watched : Feed market
watched = set_update_callback market feed

abbrev act1 : Shared market → Shared market
act1 s = act market true 0 s

abbrev asleep : Shared market
asleep =
    act1 (
      act1
        (act1 (act1 (enter market 0 (upsert_call true (order 1 100 5)) (unused market watched)))))

fell_asleep : Steps market true (unused market watched) asleep
unfolding unused enter entry act next change notify init set_update_callback
fell_asleep =
    further
      (further
        (further
          (further
            (further (here (unused market watched))
              (enters 0 (upsert_call true (order 1 100 5)) refl refl))
            (acts 0 refl))
          (acts 0 refl))
        (acts 0 refl))
      (acts 0 refl)

waits : asleep.stage 0 ≡ waiting
unfolding unused enter entry act next change notify init set_update_callback
waits = refl

nested_deadlock_example : ¬ Step market true asleep (look market 1 asleep)
nested_deadlock_example =
    nested_deadlock market watched asleep (look market 1 asleep) 0 fell_asleep waits
