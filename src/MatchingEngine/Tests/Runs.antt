-- ===== src/MatchingEngine/Tests/Runs.antt =====
-- Runs of libs/match/MatchingEngine.h from its constructor, with symbols that share a book.
use scrimmage.Prelude.{ℕ, ◌+◌, ◌≡◌, ◌≢◌, refl, Bool, true, false, some, List, [], ◌∷◌, arith}
use scrimmage.MatchingEngine.{
  Order, Engine, executed, matched, hash_symbol, crosses, submit_order, match_order, match_loop,
  opposite_side, set_opposite, rest_order, push_back, fill, retire, next_index, take_from, erase_at,
}
use scrimmage.MatchingEngine.Sweep.{fill_of}
use scrimmage.MatchingEngine.Fair.{total}
use scrimmage.MatchingEngine.Sound.{IsSound}
use scrimmage.MatchingEngine.Submit.{NoLeak}
use scrimmage.MatchingEngine.Runs.{
  trade_all, construct, submit_all, accepted, seen, submit_all_refines, construct-IsSound,
  run-NoLeak,
}
use scrimmage.MatchingEngine.Runs.Volume.{volume, submitted_to, run-IsConserved}
use scrimmage.MatchingEngine.Runs.Collide.{collision_trades}
use scrimmage.MatchingEngine.Tests.{three, order, offer, bid, blank}

abbrev unused : ℕ → Bool
unused o = false

abbrev store : ℕ → Order
store o = blank

abbrev fresh : Engine three
fresh = construct three unused store

-- An offer for 5, a bid for 8 at a higher price, and three more: the pool has room for three.
abbrev orders : List Order
orders = offer ∷ bid ∷ order 3 9 2 true ∷ order 4 12 1 false ∷ order 5 8 1 true ∷ []

submit_all_refines_example :
    (e : Engine three) × (submit_all three orders fresh ≡ some e)
    × IsSound three e
    × (seen three e ≡ trade_all (accepted three orders fresh) (seen three fresh))
submit_all_refines_example =
    submit_all_refines three orders fresh (construct-IsSound three unused store) (omega arith)

run-IsConserved_example :
    (e : Engine three) × (submit_all three orders fresh ≡ some e)
    × ((k : ℕ) (b : Bool)
        → total ((seen three e).resting k b) + volume k e.reports
          ≡ submitted_to k b (accepted three orders fresh))
run-IsConserved_example = run-IsConserved three unused store orders (omega arith)

run-NoLeak_example : (e : Engine three) × (submit_all three orders fresh ≡ some e) × NoLeak three e
run-NoLeak_example = run-NoLeak three unused store orders (λ p. refl) (omega arith) (omega arith)

-- "RQ", whose hash is that of "A".
abbrev other_bid : Order
other_bid = record bid { symbol = 82 ∷ 81 ∷ 0 ∷ [] }

both_accepted : accepted three (offer ∷ other_bid ∷ []) fresh ≡ offer ∷ other_bid ∷ []
unfolding accepted construct submit_order match_order match_loop opposite_side set_opposite
    rest_order push_back fill retire next_index crosses take_from erase_at hash_symbol
both_accepted = refl

collision_trades_example :
    let f = fill_of other_bid offer in
    (e : Engine three) × (submit_all three (offer ∷ other_bid ∷ []) fresh ≡ some e)
    × (e.reports
        ≡ executed f.incoming f.quantity
          ∷ executed f.resting f.quantity
          ∷ matched f.incoming f.resting f.quantity
          ∷ [])
    × (f.resting.symbol ≢ f.incoming.symbol)
unfolding hash_symbol crosses
collision_trades_example =
    collision_trades three unused store offer other_bid (omega arith) (omega arith) refl refl
      (omega arith) refl (λ same. cc) refl both_accepted
