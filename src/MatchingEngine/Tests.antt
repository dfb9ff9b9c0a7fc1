-- ===== src/MatchingEngine/Tests.antt =====
-- Runs of libs/match/MatchingEngine.h over a pool of three orders.
mod Runs
use mathlib.Core.Path.{subst}
use mathlib.Core.Option
use mathlib.Core.Option.{some-injective}
use scrimmage.Prelude.{
  ℕ, ◌≡◌, ◌≢◌, refl, sym, ◌∙◌, Bool, true, false, not, ◌&&◌, ◌||◌, Option, none, some, [], ◌∷◌,
  ◌++◌, arith, ltb, ◌==◌, if◌then◌else◌, update, map, Every, ◌∈◌, ◌∉◌, AreDistinct, some-pair, ap,
}
use scrimmage.Prelude.Int.{pos}
use scrimmage.MatchingEngine.{
  Order, OrderPool, Engine, crosses, take_from, erase_at, fill, retire, next_index, match_loop,
  opposite_side, set_opposite, push_back, rest_order, match_order, submit_order, hash_symbol,
}
use scrimmage.MatchingEngine.Fair.{IsFair, resting_on, submit-IsFair, price_priority_fails}
use scrimmage.MatchingEngine.Sweep.{Swept, sweep}
use scrimmage.MatchingEngine.Loop.{reports_of}
use scrimmage.MatchingEngine.Settle.{side}
use scrimmage.MatchingEngine.Sound.{IsSound}
use scrimmage.MatchingEngine.Submit.{NoLeak, submit-IsSound, submit-NoLeak}
use scrimmage.MatchingEngine.Matches.{submit_matches, empty_order_leaks}

-- A pool that marks which of its three orders are in use.
abbrev first_free : Bool → Bool → Bool → Option ℕ
first_free false b c = some 0
first_free true false c = some 1
first_free true true false = some 2
first_free true true true = none

first_free_lem :
    (a b c : Bool) (p : ℕ → Bool) {o : ℕ}
    → p 0 ≡ a
    → p 1 ≡ b
    → p 2 ≡ c
    → first_free a b c ≡ some o
    → p o ≡ false
first_free_lem false b c p e0 e1 e2 e = rw (← some-injective _ _ e) e0
first_free_lem true false c p e0 e1 e2 e = rw (← some-injective _ _ e) e1
first_free_lem true true false p e0 e1 e2 e = rw (← some-injective _ _ e) e2
first_free_lem true true true p e0 e1 e2 e = cc

abbrev acquire_three : (ℕ → Bool) → Option (ℕ × (ℕ → Bool))
acquire_three p = Option.map (λ o. (o, update p o true)) (first_free (p 0) (p 1) (p 2))

acquired_lem :
    (free : Option ℕ) (p q : ℕ → Bool) (o : ℕ)
    → ◌≡◌ {A = Option (ℕ × (ℕ → Bool))} (Option.map (λ k. (k, update p k true)) free) (some (o, q))
    → (free ≡ some o) × (q ≡ update p o true)
acquired_lem none p q o e = absurd (cc)
acquired_lem (some k) p q o e =
    let both = some-pair e in
    (ap some (sym both.0), both.1 ∙ ap (λ j. update p j true) (sym both.0))

acquire_three_fresh : (p q : ℕ → Bool) (o : ℕ) → acquire_three p ≡ some (o, q) → p o ≡ false
acquire_three_fresh p q o e =
    first_free_lem (p 0) (p 1) (p 2) p refl refl refl
      (acquired_lem (first_free (p 0) (p 1) (p 2)) p q o e).0

acquire_three_marks :
    (p q : ℕ → Bool) (o : ℕ) → acquire_three p ≡ some (o, q) → (a : ℕ) → q a ≡ ((a == o) || p a)
acquire_three_marks p q o e a =
    ap (λ (f : ℕ → Bool). f a) (acquired_lem (first_free (p 0) (p 1) (p 2)) p q o e).1
    ∙ ground arith

release_three_marks : (p : ℕ → Bool) (o a : ℕ) → update p o false a ≡ (not (a == o) && p a)
release_three_marks p o a = ground arith

abbrev three : OrderPool
three = record {
  Pool = ℕ → Bool;
  acquire = acquire_three;
  release = λ o p. update p o false;
  in_use = λ p. p;
  acquire_fresh = acquire_three_fresh;
  acquire_marks = acquire_three_marks;
  release_marks = release_three_marks;
}

-- "A", at a price
abbrev order : ℕ → ℕ → ℕ → Bool → Order
order id price quantity is_buy = record {
  order_id = id;
  price = pos price;
  quantity = quantity;
  is_buy = is_buy;
  symbol = 65 ∷ 0 ∷ [];
}

abbrev blank : Order
blank = order 0 0 0 false

abbrev empty_engine : Engine three
empty_engine = record {
  books = λ k. record { buy_orders = []; sell_orders = [] };
  orders = λ o. blank;
  pool = λ o. false;
  reports = [];
}

nobody : (b : Bool) (k p : ℕ) → ¬ (p ∈ side b (empty_engine.books k))
nobody true k p here = cc
nobody false k p here = cc

distinct_nobody : (b : Bool) → AreDistinct (if b then [] else [])
distinct_nobody true = tt
distinct_nobody false = tt

empty-IsSound : IsSound three empty_engine
empty-IsSound = record {
  distinct = λ k b. distinct_nobody b;
  belongs = λ k b p here. absurd (nobody b k p here);
  positive = λ k b p here. absurd (nobody b k p here);
  held = λ k b p here. absurd (nobody b k p here);
}

-- One order to sell 5 at 10.
abbrev offer : Order
offer = order 1 10 5 false

-- The engine with the offer alone in it, at the hash of its symbol.
abbrev one_offer : Engine three
one_offer = record {
  books =
      update (λ k. record { buy_orders = []; sell_orders = [] }) (hash_symbol offer.symbol)
        (record { buy_orders = []; sell_orders = 0 ∷ [] });
  orders = update (λ o. blank) 0 offer;
  pool = update (λ o. false) 0 true;
  reports = [];
}

offer_submitted : submit_order three offer empty_engine ≡ some one_offer
unfolding submit_order match_order match_loop opposite_side set_opposite rest_order push_back
offer_submitted = refl

one_offer-IsSound : IsSound three one_offer
one_offer-IsSound =
    let (e, ran, sound) = submit-IsSound three empty_engine offer empty-IsSound (omega arith) in
    subst (IsSound three) (some-injective _ _ (sym ran ∙ offer_submitted)) sound

one_offer-NoLeak : NoLeak three one_offer
one_offer-NoLeak =
    submit-NoLeak three empty_engine one_offer offer empty-IsSound (omega arith) (omega arith)
      (λ p used. cc) offer_submitted

-- A bid for 8 takes the offer and rests with 3.
abbrev bid : Order
bid = order 2 11 8 true

-- A bid for nothing, too low to meet the offer.
abbrev empty_bid : Order
empty_bid = order 3 9 0 true

after_bid : Engine three
unfolding submit_order match_order match_loop opposite_side set_opposite rest_order push_back fill
    retire next_index crosses take_from erase_at
after_bid = elim (submit_order three bid one_offer) [ none ↦ one_offer | some e ↦ e ]

submit-IsSound_run :
    (e : Engine three) × (submit_order three bid one_offer ≡ some e) × IsSound three e
submit-IsSound_run = submit-IsSound three one_offer bid one_offer-IsSound (omega arith)

bid_ran : submit_order three bid one_offer ≡ some after_bid
unfolding after_bid hash_symbol
bid_ran = refl

fills_of_bid : (sweep bid (offer ∷ [])).left.quantity ≡ 3
unfolding sweep crosses
fills_of_bid = refl

submit-NoLeak_run : NoLeak three after_bid
submit-NoLeak_run =
    submit-NoLeak three one_offer after_bid bid one_offer-IsSound (omega arith) (omega arith)
      one_offer-NoLeak bid_ran

submit_matches_run :
    let met = sweep bid (offer ∷ []) in
    let k = hash_symbol bid.symbol in
    (map after_bid.orders (side false (after_bid.books k)) ≡ met.side)
    × (map after_bid.orders (side true (after_bid.books k))
        ≡ (if not met.used_up && ltb 0 met.left.quantity then met.left ∷ [] else []))
    × ((j : ℕ) (b : Bool)
        → k ≢ j
        → map after_bid.orders (side b (after_bid.books j))
          ≡ map one_offer.orders (side b (one_offer.books j)))
    × (after_bid.reports ≡ reports_of met.fills)
unfolding hash_symbol sweep
submit_matches_run =
    submit_matches three one_offer after_bid bid 1 (update one_offer.pool 1 true) one_offer-IsSound
      (omega arith) refl bid_ran

after_empty : Engine three
unfolding submit_order match_order match_loop opposite_side set_opposite rest_order push_back
    crosses
after_empty = elim (submit_order three empty_bid one_offer) [ none ↦ one_offer | some e ↦ e ]

empty_ran : submit_order three empty_bid one_offer ≡ some after_empty
unfolding after_empty hash_symbol
empty_ran = refl

empty_order_leaks_example :
    (after_empty.pool 1 ≡ true) × ((j : ℕ) (b : Bool) → 1 ∉ side b (after_empty.books j))
unfolding hash_symbol sweep crosses
empty_order_leaks_example =
    empty_order_leaks three one_offer after_empty empty_bid 1 (update one_offer.pool 1 true)
      one_offer-IsSound (omega arith) refl empty_ran refl refl

submit-IsFair_example :
    let k = hash_symbol bid.symbol in
    (e' : Engine three) × (s : Swept) × (submit_order three bid one_offer ≡ some e')
    × IsFair bid (resting_on three false k one_offer) s
    × (resting_on three false k e' ≡ s.side)
    × (resting_on three true k e'
        ≡ resting_on three true k one_offer ++ (if ltb 0 s.left.quantity then s.left ∷ [] else []))
    × (e'.reports ≡ one_offer.reports ++ reports_of s.fills)
submit-IsFair_example =
    submit-IsFair three one_offer bid 1 (update one_offer.pool 1 true) one_offer-IsSound
      (omega arith) (omega arith) refl

-- A dear offer rests in front of a cheap one.
abbrev dear : Order
dear = order 4 12 1 false

dear_offer : Engine three
unfolding submit_order match_order match_loop opposite_side set_opposite rest_order push_back
    crosses hash_symbol
dear_offer = elim (submit_order three dear empty_engine) [ none ↦ empty_engine | some e ↦ e ]

dear_submitted : submit_order three dear empty_engine ≡ some dear_offer
unfolding dear_offer
dear_submitted = refl

dear_offer-IsSound : IsSound three dear_offer
dear_offer-IsSound =
    let (e, ran, sound) = submit-IsSound three empty_engine dear empty-IsSound (omega arith) in
    subst (IsSound three) (some-injective _ _ (sym ran ∙ dear_submitted)) sound

two_offers : Engine three
unfolding dear_offer
two_offers = elim (submit_order three offer dear_offer) [ none ↦ dear_offer | some e ↦ e ]

two_submitted : submit_order three offer dear_offer ≡ some two_offers
unfolding two_offers
two_submitted = refl

two_offers-IsSound : IsSound three two_offers
two_offers-IsSound =
    let (e, ran, sound) = submit-IsSound three dear_offer offer dear_offer-IsSound (omega arith) in
    subst (IsSound three) (some-injective _ _ (sym ran ∙ two_submitted)) sound

-- The bid at 11 would take the offer at 10, but stops at the dearer one in front of it.
price_priority_fails_example :
    (e' : Engine three) × (submit_order three bid two_offers ≡ some e')
    × (e'.reports ≡ two_offers.reports)
    × (resting_on three false (hash_symbol bid.symbol) e' ≡ dear ∷ offer ∷ [])
unfolding two_offers crosses
price_priority_fails_example =
    price_priority_fails three two_offers bid dear offer [] [] 2 (update two_offers.pool 2 true)
      two_offers-IsSound (omega arith) refl refl refl refl
