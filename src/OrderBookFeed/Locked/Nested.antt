-- ===== src/OrderBookFeed/Locked/Nested.antt =====
-- A callback of libs/market-data/OrderBookFeed.h that calls the feed: it runs under the mutex.
use scrimmage.Prelude.{ℕ, ◌≡◌, ◌≢◌, sym, ap, ◌∙◌, true, some}
use mathlib.Core.Option.{some-injective}
use scrimmage.OrderBookFeed.{Market, Feed}
use scrimmage.OrderBookFeed.Locked.{
  Shared, outside, waiting, Step, enters, looks, acts, wakes, Steps, unused,
}
use scrimmage.OrderBookFeed.Locked.Linear.{IsLinear, holder, reached-IsLinear}

module _ (market : Market) (f0 : Feed market) where
  waiting_holds :
      (s : Shared market) (t : ℕ) → IsLinear market f0 s → s.stage t ≡ waiting → s.owner ≡ some t
  waiting_holds s t h waits = holder market f0 s t h (λ e. cc (sym waits ∙ e))

  stuck :
      {s u : Shared market} (t : ℕ)
      → s.owner ≡ some t
      → ((v : ℕ) → s.stage v ≢ outside → s.stage v ≡ waiting)
      → ¬ Step market true s u
  stuck t owned only (enters v c free out) = cc (sym free ∙ owned)
  stuck t owned only (looks v free out) = cc (sym free ∙ owned)
  stuck t owned only (wakes v free sleeps) = cc (sym free ∙ owned)
  stuck t owned only (acts v acting) =
      let at = only v (λ e. cc (rw e at acting)) in cc (rw at at acting)

  -- A callback that calls `snapshot` waits for the mutex that its own thread holds, and from then on
  -- no thread takes a step.
  pub nested_deadlock :
      (s u : Shared market) (t : ℕ)
      → Steps market true (unused market f0) s
      → s.stage t ≡ waiting
      → ¬ Step market true s u
  nested_deadlock s u t steps waits =
      let h = reached-IsLinear market f0 true s steps in
      let owned = waiting_holds s t h waits in
      stuck t owned λ v inside.
        ap s.stage (some-injective _ _ (sym (holder market f0 s v h inside) ∙ owned)) ∙ waits
