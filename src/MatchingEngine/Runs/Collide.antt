-- ===== src/MatchingEngine/Runs/Collide.antt =====
-- Two symbols with one hash in libs/match/MatchingEngine.h: they share a book, and `matchOrder` never
-- looks at a symbol.
use scrimmage.Prelude.{
  ℕ, ◌<◌, ◌≡◌, ◌≢◌, refl, ap, ◌∙◌, inl, inr, true, false, not, some, [], ◌∷◌, ◌++◌, arith, ◌==◌,
  Bool-cases, append-nil,
}
use scrimmage.MatchingEngine.{Order, OrderPool, Engine, executed, matched, hash_symbol, crosses}
use scrimmage.MatchingEngine.Sweep.{sweep, stopped, fill_of}
use scrimmage.MatchingEngine.Loop.{IsBounded, reports_of}
use scrimmage.MatchingEngine.Runs.{
  Exchange, agree_self, trade, trade_all, construct, submit_all, accepted, seen, submit_all_refines,
  construct-IsSound,
}

-- An order on an empty book rests there.
rests_alone :
    (o : Order) (x : Exchange)
    → 0 < o.quantity
    → x.resting (hash_symbol o.symbol) o.is_buy ≡ []
    → x.resting (hash_symbol o.symbol) (not o.is_buy) ≡ []
    → ((trade o x).resting (hash_symbol o.symbol) o.is_buy ≡ o ∷ [])
      × ((trade o x).reports ≡ x.reports)
unfolding trade sweep
rests_alone o x full own other =
    (rw (other, agree_self o.is_buy) (ground (arith, own)), rw other (append-nil x.reports))

once : (o r : Order) → crosses o r ≡ true → (sweep o (r ∷ [])).fills ≡ fill_of o r ∷ []
unfolding sweep stopped
once o r cross = elim (Bool-cases ((fill_of o r).incoming.quantity == 0)) [
  | inl done ↦ rw (cross, done) refl
  | inr next ↦ rw (cross, next) refl
]

-- An order that crosses the one order it faces trades with it, whatever the two symbols.
one_fill :
    (o r : Order) (x : Exchange)
    → x.resting (hash_symbol o.symbol) (not o.is_buy) ≡ r ∷ []
    → crosses o r ≡ true
    → (trade o x).reports ≡ x.reports ++ reports_of (fill_of o r ∷ [])
unfolding trade
one_fill o r x facing cross = rw facing (ap (λ fs. x.reports ++ reports_of fs) (once o r cross))

module _ (pools : OrderPool) where
  open pools use {Pool}

  -- On a new engine with room for both, an order to buy that crosses an order to sell another symbol
  -- is matched with it, if the two symbols have one hash.
  pub collision_trades :
      (pool : Pool) (store : ℕ → Order) (sell buy : Order)
      → IsBounded sell
      → IsBounded buy
      → sell.is_buy ≡ false
      → buy.is_buy ≡ true
      → 0 < sell.quantity
      → hash_symbol sell.symbol ≡ hash_symbol buy.symbol
      → sell.symbol ≢ buy.symbol
      → crosses buy sell ≡ true
      → accepted pools (sell ∷ buy ∷ []) (construct pools pool store) ≡ sell ∷ buy ∷ []
      → let f = fill_of buy sell in
        (e : Engine pools) × (submit_all pools (sell ∷ buy ∷ []) (construct pools pool store)
          ≡ some e)
        × (e.reports
            ≡ executed f.incoming f.quantity
              ∷ executed f.resting f.quantity
              ∷ matched f.incoming f.resting f.quantity
              ∷ [])
        × (f.resting.symbol ≢ f.incoming.symbol)
  unfolding construct
  collision_trades pool store sell buy bounded bounded' sells buys full same differ cross room =
      let new = construct pools pool store in
      let (e, ran, sound, view) =
        submit_all_refines pools (sell ∷ buy ∷ []) new (construct-IsSound pools pool store)
          (bounded, (bounded', tt)) in
      let first = rests_alone sell (seen pools new) full (rw sells refl) (rw sells refl) in
      let facing : (trade sell (seen pools new)).resting (hash_symbol buy.symbol) (not buy.is_buy)
          ≡ sell ∷ [] =
        rw (buys, ← same, ← sells) first.0 in
      (
        e,
        ran,
        ap (λ (x : Exchange). x.reports) (view ∙ ap (λ os. trade_all os (seen pools new)) room)
            ∙ one_fill buy sell (trade sell (seen pools new)) facing cross
            ∙ ap (λ rs. rs ++ reports_of (fill_of buy sell ∷ [])) first.1,
        differ,
      )
