-- ===== src/MatchingEngine/Submit.antt =====
-- `submitOrder` of libs/match/MatchingEngine.h on a sound engine.
use mathlib.Core.Path.{subst}
use scrimmage.Prelude.{
  ℕ, ◌<◌, ◌≡◌, sym, ap, ◌∙◌, inl, inr, Bool, true, not, none, some, arith, Bool-cases, Option-cases,
  has, ◌∈◌, ◌∉◌, update, update_self, update_ne, ne_of_mem, Every-of_all,
}
use mathlib.Core.Option.{some-injective}
use scrimmage.MatchingEngine.{Order, OrderPool, Engine, hash_symbol, submit_order}
use scrimmage.MatchingEngine.Loop.{IsBounded}
use scrimmage.MatchingEngine.Settle.{side, Settles, swept, match_order-Settles}
use scrimmage.MatchingEngine.Sound.{IsSound, IsReady, settled-IsSound}
use scrimmage.MatchingEngine.Sound.Leaks.{settled-NoLeak}

module _ (pools : OrderPool) where
  open pools use {Pool, acquire, in_use, acquire_fresh, acquire_marks}

  -- Every order in use lies in the book of its symbol, on its side: none is lost to the pool.
  abbrev pub NoLeak : Engine pools → Type 0
  NoLeak e =
      (p : ℕ)
      → in_use e.pool p ≡ true
      → p ∈ side (e.orders p).is_buy (e.books (hash_symbol (e.orders p).symbol))

  -- The engine that `matchOrder` is called on.
  abbrev pub entered : Engine pools → Order → ℕ → Pool → Engine pools
  entered e order o pool' = record e { orders = update e.orders o order; pool = pool' }

  module _ (e : Engine pools) (order : Order) (o : ℕ) (pool' : Pool) (sound : IsSound pools e)
      (bounded : IsBounded order) (acquired : acquire e.pool ≡ some (o, pool')) where
    out_of_books : (j : ℕ) (b : Bool) → o ∉ side b (e.books j)
    out_of_books j b = elim (Bool-cases (has o (side b (e.books j)))) [
      | inr out ↦ out
      | inl here ↦ cc (sound.held j b o here, acquire_fresh e.pool pool' o acquired)
    ]

    pub same_order :
        (j : ℕ) (b : Bool) (p : ℕ) → p ∈ side b (e.books j) → update e.orders o order p ≡ e.orders p
    same_order j b p here =
        update_ne e.orders o p order (ne_of_mem (side b (e.books j)) (out_of_books j b) here)

    pub entered-IsReady : IsReady pools (hash_symbol order.symbol) o (entered e order o pool')
    entered-IsReady = record {
      sound = record {
        distinct = sound.distinct;
        belongs = λ j b p here. rw (same_order j b p here) (sound.belongs j b p here);
        positive = λ j b p here. rw (same_order j b p here) (sound.positive j b p here);
        held = λ j b p here.
            acquire_marks e.pool pool' o acquired p ∙ ground (arith, sound.held j b p here);
      };
      outside = out_of_books;
      own_symbol = ap (λ (x : Order). hash_symbol x.symbol) (update_self e.orders o order);
      own_bound = subst IsBounded (sym (update_self e.orders o order)) bounded;
      own_use = acquire_marks e.pool pool' o acquired o ∙ ground arith;
    }

    -- `submitOrder` with an order from the pool: `matchOrder` ends and settles the engine.
    pub submitted :
        (e' : Engine pools) × (submit_order pools order e ≡ some e')
        × Settles pools
            (hash_symbol order.symbol)
            o
            (entered e order o pool')
            e'
            (swept pools (hash_symbol order.symbol) o (entered e order o pool'))
    unfolding submit_order
    submitted =
        let ready = entered-IsReady in
        let k = hash_symbol order.symbol in
        let e1 = entered e order o pool' in
        let facing = side (not (e1.orders o).is_buy) (e.books k) in
        let (e', runs, settles) =
          match_order-Settles pools k o e1 (sound.distinct k (not (e1.orders o).is_buy))
            (out_of_books k (not (e1.orders o).is_buy)) ready.own_bound
            (Every-of_all (λ p. IsBounded (e1.orders p)) facing
              (λ p here. (ready.sound.belongs k (not (e1.orders o).is_buy) p here).bounded)) in
        (e', rw (acquired, submit_order) runs, settles)

  pub submit_full :
      (e : Engine pools) (order : Order)
      → acquire e.pool ≡ none
      → submit_order pools order e ≡ some e
  unfolding submit_order
  submit_full e order full = rw (full, submit_order)

  -- Submitting to a sound engine ends, with or without a free order in the pool, and leaves a sound
  -- engine.
  pub submit-IsSound :
      (e : Engine pools) (order : Order)
      → IsSound pools e
      → IsBounded order
      → (e' : Engine pools) × (submit_order pools order e ≡ some e') × IsSound pools e'
  submit-IsSound e order sound bounded = elim (Option-cases (acquire e.pool)) [
    | inl full ↦ (e, submit_full e order full, sound)
    | inr ((o, pool'), acquired) ↦
        let (e', runs, settles) = submitted e order o pool' sound bounded acquired in
        (
          e',
          runs,
          settled-IsSound pools _ o _ e' (entered-IsReady e order o pool' sound bounded acquired)
              settles,
        )
  ]

  -- If no order was lost to the pool, none is after the submission of an order that is not empty.
  pub submit-NoLeak :
      (e e' : Engine pools) (order : Order)
      → IsSound pools e
      → IsBounded order
      → 0 < order.quantity
      → NoLeak e
      → submit_order pools order e ≡ some e'
      → NoLeak e'
  submit-NoLeak e e' order sound bounded full none_lost ran = elim (Option-cases (acquire e.pool)) [
    | inl empty ↦
        let same = some-injective _ _ (sym (submit_full e order empty) ∙ ran) in
        subst NoLeak same none_lost
    | inr ((o, pool'), acquired) ↦
        let (e2, runs, settles) = submitted e order o pool' sound bounded acquired in
        let same = some-injective _ _ (sym runs ∙ ran) in
        subst NoLeak same (
          settled-NoLeak pools _ o (entered e order o pool') e2
            (entered-IsReady e order o pool' sound bounded acquired) settles
            (subst (λ (x : Order). 0 < x.quantity) (sym (update_self e.orders o order)) full)
            (λ p used ne.
              rw (update_ne e.orders o p order ne)
                (none_lost p (ground (arith, acquire_marks e.pool pool' o acquired p)))))
  ]
