-- ===== src/MatchingEngine/Runs.antt =====
-- Whole runs of libs/match/MatchingEngine.h: the constructor, and one `submitOrder` after another,
-- against an exchange that keeps the orders themselves and has no pool and no pointers.
pub mod Volume
pub mod Collide
use scrimmage.Prelude.{
  ℕ, ◌≡◌, ◌≢◌, ◌⊎◌, refl, sym, ap, ap₂, ◌∙◌, inl, inr, Bool, true, false, not, ◌&&◌, Option, none,
  some, List, [], ◌∷◌, ◌++◌, arith, ltb, ◌==◌, if◌then◌else◌, map, Bool-cases, Option-cases, Every,
  has, AreDistinct,
}
use native.Mathlib.Decide.{ℕ_discrete}
use scrimmage.MatchingEngine.{Order, Report, OrderPool, Engine, hash_symbol, submit_order}
use scrimmage.MatchingEngine.Sweep.{Swept, IsPositive, sweep}
use scrimmage.MatchingEngine.Loop.{IsBounded, reports_of}
use scrimmage.MatchingEngine.Settle.{side}
use scrimmage.MatchingEngine.Sound.{IsSound}
use scrimmage.MatchingEngine.Submit.{NoLeak, submit_full, submit-IsSound, submit-NoLeak}
use scrimmage.MatchingEngine.Matches.{submit_matches}

-- The orders that rest on each side of each book, in time order, and what was reported.
pub record Exchange : Type 0 where
  pub resting : ℕ → Bool → List Order
  pub reports : List Report

abbrev pub agree : Bool → Bool → Bool
agree true b = b
agree false b = not b

pub agree_self : (b : Bool) → agree b b ≡ true
agree_self true = refl
agree_self false = refl

pub agree-not : (b : Bool) → agree (not b) b ≡ false
agree-not true = refl
agree-not false = refl

pub agree-cases : (b c : Bool) → (b ≡ c) ⊎ (b ≡ not c)
agree-cases true true = inl refl
agree-cases true false = inr refl
agree-cases false true = inr refl
agree-cases false false = inl refl

-- What is left of an order that goes to rest.
abbrev pub remainder : Swept → List Order
remainder s = if not s.used_up && ltb 0 s.left.quantity then s.left ∷ [] else []

-- An order sweeps the other side of its book, and what is left of it goes behind its own side.
unfoldable pub trade : Order → Exchange → Exchange
trade order x =
    let k = hash_symbol order.symbol in
    let s = sweep order (x.resting k (not order.is_buy)) in
    record {
      resting = λ j b.
          if k == j
          then (if agree b order.is_buy then x.resting j b ++ remainder s else s.side)
          else x.resting j b;
      reports = x.reports ++ reports_of s.fills;
    }

abbrev pub trade_all : List Order → Exchange → Exchange
trade_all [] x = x
trade_all (order ∷ orders) x = trade_all orders (trade order x)

module _ (pools : OrderPool) where
  open pools use {Pool, acquire, in_use}

  -- The constructor: `pool` is what `OrderPool(maxOrders)` is, and `orders` whatever its memory holds.
  unfoldable pub construct : Pool → (ℕ → Order) → Engine pools
  construct pool orders = record {
    books = λ k. record { buy_orders = []; sell_orders = [] };
    orders = orders;
    pool = pool;
    reports = [];
  }

  -- `submitOrder` for each order; `none` would mean that a call did not return.
  unfoldable pub submit_all : List Order → Engine pools → Option (Engine pools)
  submit_all [] e = some e
  submit_all (order ∷ orders) e = elim (submit_order pools order e) [
    | none ↦ none
    | some e' ↦ submit_all orders e'
  ]

  -- The orders of a run that the pool has room for when they are submitted.
  unfoldable pub accepted : List Order → Engine pools → List Order
  accepted [] e = []
  accepted (order ∷ orders) e =
      let rest : List Order = elim (submit_order pools order e) [
        | none ↦ []
        | some e' ↦ accepted orders e'
      ] in
      elim (acquire e.pool) [ none ↦ rest | some _ ↦ order ∷ rest ]

  -- What a user sees of the engine.
  abbrev pub seen : Engine pools → Exchange
  seen e = record { resting = λ j b. map e.orders (side b (e.books j)); reports = e.reports }

  module _ (e e' : Engine pools) (order : Order) (o : ℕ) (pool' : Pool) (sound : IsSound pools e)
      (bounded : IsBounded order) (acquired : acquire e.pool ≡ some (o, pool'))
      (ran : submit_order pools order e ≡ some e') where
    seen_at :
        (j : ℕ) (b : Bool)
        → map e'.orders (side b (e'.books j)) ≡ (trade order (seen e)).resting j b
    unfolding trade
    seen_at j b =
        let matches = submit_matches pools e e' order o pool' sound bounded acquired ran in
        elim (ℕ_discrete (hash_symbol order.symbol) j) [
          | no ne ↦ matches.2 j b ne ∙ ground (arith, ne)
          | yes same ↦ rw (← same) (elim (agree-cases b order.is_buy) [
            | inl own ↦ rw own (matches.1 ∙ rw (agree_self order.is_buy) (ground arith))
            | inr other ↦ rw other (matches.0 ∙ rw (agree-not order.is_buy) (ground arith))
          ])
        ]

    seen_trades : seen e' ≡ trade order (seen e)
    unfolding trade
    seen_trades =
        let matches = submit_matches pools e e' order o pool' sound bounded acquired ran in
        λ i. record { resting = λ j b. seen_at j b i; reports = matches.3 i }

  -- From a sound engine every call of a run ends, the engine stays sound, and what can be seen of it
  -- is what the exchange makes of the orders that the pool had room for.
  pub submit_all_refines :
      (orders : List Order) (e : Engine pools)
      → IsSound pools e
      → Every IsBounded orders
      → (e' : Engine pools) × (submit_all orders e ≡ some e')
        × IsSound pools e'
        × (seen e' ≡ trade_all (accepted orders e) (seen e))
  unfolding submit_all accepted
  submit_all_refines [] e sound bounded = (e, refl, sound, refl)
  submit_all_refines (order ∷ orders) e sound bounded = elim (Option-cases (acquire e.pool)) [
    | inl full ↦
        let stays = submit_full pools e order full in
        let (e', rest, sound', same) = submit_all_refines orders e sound bounded.1 in
        (e', rw (submit_all, stays) rest, sound', rw (accepted, full, stays) same)
    | inr ((o, pool'), acquired) ↦
        let (e1, ran, sound1) = submit-IsSound pools e order sound bounded.0 in
        let (e', rest, sound', same) = submit_all_refines orders e1 sound1 bounded.1 in
        let traded = seen_trades e e1 order o pool' sound bounded.0 acquired ran in
        (
          e',
          rw (submit_all, ran) rest,
          sound',
          rw (accepted, acquired, ran) (same ∙ ap (trade_all (accepted orders e1)) traded),
        )
  ]

  -- A new engine is sound.
  pub construct-IsSound : (pool : Pool) (orders : ℕ → Order) → IsSound pools (construct pool orders)
  unfolding construct
  construct-IsSound pool orders = record {
    distinct = λ k b. distinct_nobody b;
    belongs = λ k b p here. absurd (nobody b p here);
    positive = λ k b p here. absurd (nobody b p here);
    held = λ k b p here. absurd (nobody b p here);
  }
    where
      distinct_nobody : (b : Bool) → AreDistinct (if b then [] else [])
      distinct_nobody true = tt
      distinct_nobody false = tt

      nobody : (b : Bool) (p : ℕ) → ¬ (has p (if b then [] else []) ≡ true)
      nobody true p here = cc
      nobody false p here = cc

  keeps :
      (orders : List Order) (e : Engine pools)
      → IsSound pools e
      → Every IsBounded orders
      → Every IsPositive orders
      → NoLeak pools e
      → (e' : Engine pools) × (submit_all orders e ≡ some e') × NoLeak pools e'
  unfolding submit_all
  keeps [] e sound bounded full none_lost = (e, refl, none_lost)
  keeps (order ∷ orders) e sound bounded full none_lost =
      let (e1, ran, sound1) = submit-IsSound pools e order sound bounded.0 in
      let kept = submit-NoLeak pools e e1 order sound bounded.0 full.0 none_lost ran in
      let (e', rest, kept') = keeps orders e1 sound1 bounded.1 full.1 kept in
      (e', rw (submit_all, ran) rest, kept')

  -- From a new engine whose pool has nothing in use yet, every run of orders that are not empty loses
  -- none of the pool's orders: what is in use rests in the book of its symbol, on its side.
  pub run-NoLeak :
      (pool : Pool) (store : ℕ → Order) (orders : List Order)
      → ((p : ℕ) → in_use pool p ≡ false)
      → Every IsBounded orders
      → Every IsPositive orders
      → (e : Engine pools) × (submit_all orders (construct pool store) ≡ some e) × NoLeak pools e
  unfolding construct
  run-NoLeak pool store orders unused bounded full =
      keeps orders (construct pool store) (construct-IsSound pool store) bounded full
        (λ p used. cc (used, unused p))
