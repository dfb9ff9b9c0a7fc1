-- ===== src/MatchingEngine/Runs/Volume.antt =====
-- Quantities over whole runs of libs/match/MatchingEngine.h: what was submitted, what rests and what
-- the match reports say was traded.
use scrimmage.Prelude.{
  ℕ, ◌+◌, ◌≡◌, ap, ◌∙◌, inl, inr, Bool, true, false, not, ◌&&◌, some, List, [], ◌∷◌, ◌++◌, arith,
  ◌==◌, if◌then◌else◌, Every, map,
}
use native.Mathlib.Decide.{ℕ_discrete}
use scrimmage.MatchingEngine.{Order, Report, executed, matched, OrderPool, Engine, hash_symbol}
use scrimmage.MatchingEngine.Sweep.{sweep, stopped, fill_of, used_up_lem}
use scrimmage.MatchingEngine.Fair.{filled, total, sweep_conserves}
use scrimmage.MatchingEngine.Loop.{IsBounded, reports_of}
use scrimmage.MatchingEngine.Runs.{
  Exchange, agree, remainder, trade, trade_all, agree_self, agree-not, agree-cases, construct,
  submit_all, accepted, seen, submit_all_refines, construct-IsSound,
}

-- The quantity that the match reports of book `k` add up to.
abbrev pub volume : ℕ → List Report → ℕ
volume k [] = 0
volume k (executed o n ∷ rs) = volume k rs
volume k (matched incoming resting n ∷ rs) =
    (if hash_symbol incoming.symbol == k then n else 0) + volume k rs

-- The quantity that the orders on side `b` of book `k` add up to.
abbrev pub submitted_to : ℕ → Bool → List Order → ℕ
submitted_to k b [] = 0
submitted_to k b (o ∷ os) =
    (if (hash_symbol o.symbol == k) && agree b o.is_buy then o.quantity else 0)
    + submitted_to k b os

volume-append : (k : ℕ) (xs ys : List Report) → volume k (xs ++ ys) ≡ volume k xs + volume k ys
volume-append k [] ys = omega arith
volume-append k (executed o n ∷ xs) ys = volume-append k xs ys
volume-append k (matched i r n ∷ xs) ys = omega (arith, volume-append k xs ys)

total-append : (xs ys : List Order) → total (xs ++ ys) ≡ total xs + total ys
total-append [] ys = omega arith
total-append (o ∷ xs) ys = omega (arith, total-append xs ys)

-- The fills of an order are reported in the book of its symbol.
volume-sweep :
    (k : ℕ) (incoming : Order) (os : List Order)
    → volume k (reports_of (sweep incoming os).fills)
      ≡ (if hash_symbol incoming.symbol == k then filled (sweep incoming os).fills else 0)
unfolding sweep stopped
volume-sweep k incoming [] = ground arith
volume-sweep k incoming (resting ∷ os) =
    ground (arith, volume-sweep k (fill_of incoming resting).incoming os)

total-remainder :
    (incoming : Order) (os : List Order)
    → total (remainder (sweep incoming os)) ≡ (sweep incoming os).left.quantity
total-remainder incoming os = ground (arith, used_up_lem incoming os)

-- Side `b` of book `k` and the reports of its fills, after one order.
trade_conserves :
    (k : ℕ) (b : Bool) (order : Order) (x : Exchange)
    → let y = trade order x in
      total (y.resting k b) + volume k y.reports
      ≡ total (x.resting k b)
        + volume k x.reports
        + (if (hash_symbol order.symbol == k) && agree b order.is_buy then order.quantity else 0)
unfolding trade
trade_conserves k b order x =
    let h = hash_symbol order.symbol in
    let os = x.resting h (not order.is_buy) in
    let s = sweep order os in
    let log = volume-append k x.reports (reports_of s.fills) in
    let filled_lem = volume-sweep k order os in
    elim (ℕ_discrete h k) [
      | no ne ↦ ground (arith, ne, log, filled_lem)
      | yes same ↦ elim (agree-cases b order.is_buy) [
        | inl own ↦
            let added = total-append (x.resting k order.is_buy) (remainder s) in
            let left = total-remainder order os in
            let kept = (sweep_conserves order os).0 in
            rw (own, agree_self order.is_buy)
              (ground (arith, same, log, filled_lem, added, left, kept))
        | inr other ↦
            let kept = (sweep_conserves order os).1 in
            rw (other, agree-not order.is_buy) (ground (arith, same, log, filled_lem, kept))
      ]
    ]

trade_all_conserves :
    (k : ℕ) (b : Bool) (orders : List Order) (x : Exchange)
    → let y = trade_all orders x in
      total (y.resting k b) + volume k y.reports
      ≡ total (x.resting k b) + volume k x.reports + submitted_to k b orders
trade_all_conserves k b [] x = omega arith
trade_all_conserves k b (order ∷ orders) x =
    omega (arith, trade_all_conserves k b orders (trade order x), trade_conserves k b order x)

module _ (pools : OrderPool) where
  open pools use {Pool}

  -- From a new engine, whatever orders are submitted, every call ends, and on each side of each book
  -- the quantity that rests and the quantity that the match reports say was traded add up to what the
  -- orders for that side asked for, those aside that met an exhausted pool.
  pub run-IsConserved :
      (pool : Pool) (store : ℕ → Order) (orders : List Order)
      → Every IsBounded orders
      → (e : Engine pools) × (submit_all pools orders (construct pools pool store) ≡ some e)
        × ((k : ℕ) (b : Bool)
            → total ((seen pools e).resting k b) + volume k e.reports
              ≡ submitted_to k b (accepted pools orders (construct pools pool store)))
  unfolding construct
  run-IsConserved pool store orders bounded =
      let new = construct pools pool store in
      let (e, ran, sound, same) =
        submit_all_refines pools orders new (construct-IsSound pools pool store) bounded in
      (
        e,
        ran,
        λ k b.
            ap (λ (x : Exchange). total (x.resting k b) + volume k x.reports) same
            ∙ trade_all_conserves k b (accepted pools orders new) (seen pools new)
            ∙ elim b
                as (λ b.
                  total (map store (if b then [] else []))
                    + 0
                    + submitted_to k b (accepted pools orders new)
                  ≡ submitted_to k b (accepted pools orders new)) [
                    | true ↦ omega arith
                    | false ↦ omega arith
                  ],
      )
