-- ===== src/MatchingEngine/Fair.antt =====
-- What is fair about `submitOrder` of libs/match/MatchingEngine.h: quantities, limits and time order.
use scrimmage.Prelude.{
  ℕ, ◌+◌, ◌≤◌, Bool, not, ◌&&◌, ◌||◌, some, ◌++◌, ltb, if◌then◌else◌, ap, ◌∙◌, append-nil, ◌∈◌, ◌<◌,
  ◌≡◌, ◌⊎◌, refl, inl, inr, true, false, List, [], ◌∷◌, arith, ◌==◌, map, length, take, drop,
  Bool-cases, Every,
}
use scrimmage.Prelude.Int.{ℤ, ◌≤ℤ◌, leb_ℤ}
use scrimmage.MatchingEngine.{Order, OrderPool, Engine, hash_symbol, submit_order, crosses}
use scrimmage.MatchingEngine.Loop.{IsBounded, reports_of}
use scrimmage.MatchingEngine.Settle.{side}
use scrimmage.MatchingEngine.Sound.{IsSound}
use scrimmage.MatchingEngine.Submit.{submit-IsSound}
use scrimmage.MatchingEngine.Matches.{submit_matches}
use scrimmage.MatchingEngine.Sweep.{
  Fill, Swept, fill_of, sweep, stopped, IsPositive, blocked, used_up_lem,
}

-- A price that an order to buy, or to sell, with this limit accepts.
abbrev pub Accepts : (is_buy : Bool) → (limit price : ℤ) → Type 0
Accepts true limit price = price ≤ℤ limit
Accepts false limit price = limit ≤ℤ price

abbrev pub Takes : Order → Order → Type 0
Takes incoming resting = Accepts incoming.is_buy incoming.price resting.price

accepted_lem :
    (b : Bool) (limit price : ℤ)
    → ((b && leb_ℤ price limit) || (not b && leb_ℤ limit price)) ≡ true
    → Accepts b limit price
accepted_lem true limit price h = ground arith
accepted_lem false limit price h = ground arith

refused_lem :
    (b : Bool) (limit price : ℤ)
    → ((b && leb_ℤ price limit) || (not b && leb_ℤ limit price)) ≡ false
    → ¬ Accepts b limit price
refused_lem true limit price h accepts = ground arith
refused_lem false limit price h accepts = ground arith

crosses-Takes :
    (incoming resting : Order) → crosses incoming resting ≡ true → Takes incoming resting
unfolding crosses
crosses-Takes incoming resting h = accepted_lem incoming.is_buy incoming.price resting.price h

apart-Takes :
    (incoming resting : Order) → crosses incoming resting ≡ false → ¬ Takes incoming resting
unfolding crosses
apart-Takes incoming resting h = refused_lem incoming.is_buy incoming.price resting.price h

abbrev pub filled : List Fill → ℕ
filled [] = 0
filled (f ∷ fs) = f.quantity + filled fs

abbrev pub total : List Order → ℕ
total [] = 0
total (o ∷ os) = o.quantity + total os

-- Nothing is lost: what the incoming order loses is filled, and so is what the opposite side loses.
pub sweep_conserves :
    (incoming : Order) (os : List Order)
    → let s = sweep incoming os in
      (s.left.quantity + filled s.fills ≡ incoming.quantity)
      × (total s.side + filled s.fills ≡ total os)
unfolding sweep stopped crosses
sweep_conserves incoming [] = omega arith
sweep_conserves incoming (resting ∷ os) =
    ground (arith, sweep_conserves (fill_of incoming resting).incoming os)

-- The sweep stops only because the incoming order is used up, the side is empty, or the first order
-- left on it does not cross.
sweep_ends :
    (incoming : Order) (os : List Order)
    → let s = sweep incoming os in
      (s.left.quantity ≡ 0)
      ⊎ ((s.side ≡ [])
          ⊎ ((o : Order) × (rest : List Order) × (s.side ≡ o ∷ rest) × (¬ Takes s.left o)))
unfolding sweep stopped
sweep_ends incoming [] = inr (inl refl)
sweep_ends incoming (resting ∷ os) = elim (Bool-cases (crosses incoming resting)) [
  | inl cross ↦ elim (Bool-cases ((fill_of incoming resting).incoming.quantity == 0)) [
    | inl done ↦ rw (cross, done) (inl (ground arith))
    | inr next ↦ rw (cross, next) (sweep_ends (fill_of incoming resting).incoming os)
  ]
  | inr apart ↦ rw apart (inr (inr (resting, os, refl, apart-Takes incoming resting apart)))
]

-- The fills are with the orders at the front, in their order, each at most once, and the side keeps
-- the others in their order; only the last one filled may stay.
sweep_in_order :
    (incoming : Order) (os : List Order)
    → let s = sweep incoming os in
      (map (λ f. f.resting.order_id) s.fills
        ≡ take (length s.fills) (map (λ (o : Order). o.order_id) os))
      × (map (λ (o : Order). o.order_id) s.side ≡ drop s.gone (map (λ (o : Order). o.order_id) os))
      × (s.gone ≤ length s.fills)
      × (length s.fills ≤ s.gone + 1)
unfolding sweep stopped
sweep_in_order incoming [] = (refl, refl, omega arith, omega arith)
sweep_in_order incoming (resting ∷ os) =
    ground (arith, sweep_in_order (fill_of incoming resting).incoming os)

-- Every fill respects the limit of the incoming order and moves something, if no order involved is
-- empty.
sweep_fills :
    (incoming : Order) (os : List Order)
    → IsPositive incoming
    → Every IsPositive os
    → Every (λ f. Takes f.incoming f.resting × (0 < f.quantity)) (sweep incoming os).fills
unfolding sweep stopped
sweep_fills incoming [] h hs = tt
sweep_fills incoming (resting ∷ os) h hs = elim (Bool-cases (crosses incoming resting)) [
  | inr apart ↦ rw apart tt
  | inl cross ↦
      let takes = crosses-Takes incoming resting cross in
      elim (Bool-cases ((fill_of incoming resting).incoming.quantity == 0)) [
        | inl done ↦ rw (cross, done) ((takes, ground (arith, h, hs.0)), tt)
        | inr next ↦
            rw (cross, next)
              (
                (takes, ground (arith, h, hs.0)),
                sweep_fills (fill_of incoming resting).incoming os (ground arith) hs.1,
              )
      ]
]

-- What a sweep of the side `os` by the order `incoming` makes.
pub record IsFair (incoming : Order) (os : List Order) (s : Swept) : Type 0 where
  -- Nothing is lost: what the incoming order and the side lose is what is filled.
  pub conserved : s.left.quantity + filled s.fills ≡ incoming.quantity
  pub side_conserved : total s.side + filled s.fills ≡ total os
  -- Every fill respects the limit of the incoming order and moves something.
  pub within_limit : Every (λ f. Takes f.incoming f.resting × (0 < f.quantity)) s.fills
  -- The fills are with the orders at the front in their order, each once; the others stay in order.
  pub fill_order :
      map (λ f. f.resting.order_id) s.fills
      ≡ take (length s.fills) (map (λ (o : Order). o.order_id) os)
  pub side_order :
      map (λ (o : Order). o.order_id) s.side ≡ drop s.gone (map (λ (o : Order). o.order_id) os)
  pub few_gone : s.gone ≤ length s.fills
  pub one_stays : length s.fills ≤ s.gone + 1
  -- It goes on until the order is used up, the side is empty, or its front does not cross.
  pub ended :
      (s.left.quantity ≡ 0)
      ⊎ ((s.side ≡ [])
          ⊎ ((o : Order) × (rest : List Order) × (s.side ≡ o ∷ rest) × (¬ Takes s.left o)))

sweep-IsFair :
    (incoming : Order) (os : List Order)
    → IsPositive incoming
    → Every IsPositive os
    → IsFair incoming os (sweep incoming os)
sweep-IsFair incoming os h hs =
    let conserves = sweep_conserves incoming os in
    let ordered = sweep_in_order incoming os in
    record {
      conserved = conserves.0;
      side_conserved = conserves.1;
      within_limit = sweep_fills incoming os h hs;
      fill_order = ordered.0;
      side_order = ordered.1;
      few_gone = ordered.2;
      one_stays = ordered.3;
      ended = sweep_ends incoming os;
    }

none_empty :
    (orders : ℕ → Order) (ps : List ℕ)
    → ((p : ℕ) → p ∈ ps → 0 < (orders p).quantity)
    → Every IsPositive (map orders ps)
none_empty orders [] h = tt
none_empty orders (p ∷ ps) h =
    (h p (ground arith), none_empty orders ps (λ q here. h q (ground (arith, here))))

module _ (pools : OrderPool) where
  open pools use {Pool, acquire}

  -- The orders that rest on one side of one book, in their order.
  abbrev pub resting_on : Bool → ℕ → Engine pools → List Order
  resting_on b k e = map e.orders (side b (e.books k))

  resting-IsPositive :
      (e : Engine pools) (b : Bool) (k : ℕ) → IsSound pools e → Every IsPositive (resting_on b k e)
  resting-IsPositive e b k sound = none_empty e.orders (side b (e.books k)) (sound.positive k b)

  -- On a sound engine that has room for it, `submitOrder` of an order that is not empty, with a quantity
  -- below 2 ^ 64, ends, and what it did was fair: there are fills such that the incoming order and the
  -- side that it faces lose just what is filled; each fill is within the limit of the order and moves
  -- something; the fills are with the orders at the front of that side in time order, while the others
  -- stay in theirs; it ended only for an order used up, an empty side, or a front order beyond the
  -- limit; what is left of the order rests behind its own side; and each fill was reported.
  pub submit-IsFair :
      (e : Engine pools) (order : Order) (o : ℕ) (pool' : Pool)
      → IsSound pools e
      → IsBounded order
      → IsPositive order
      → acquire e.pool ≡ some (o, pool')
      → let k = hash_symbol order.symbol in
        let other = not order.is_buy in
        (e' : Engine pools) × (s : Swept) × (submit_order pools order e ≡ some e')
        × IsFair order (resting_on other k e) s
        × (resting_on other k e' ≡ s.side)
        × (resting_on order.is_buy k e'
            ≡ resting_on order.is_buy k e ++ (if ltb 0 s.left.quantity then s.left ∷ [] else []))
        × (e'.reports ≡ e.reports ++ reports_of s.fills)
  submit-IsFair e order o pool' sound bounded full acquired =
      let k = hash_symbol order.symbol in
      let facing = resting_on (not order.is_buy) k e in
      let s = sweep order facing in
      let (e', ran, sound') = submit-IsSound pools e order sound bounded in
      let matches = submit_matches pools e e' order o pool' sound bounded acquired ran in
      let rests : (if not s.used_up && ltb 0 s.left.quantity then s.left ∷ [] else [])
          ≡ (if ltb 0 s.left.quantity then s.left ∷ [] else []) =
        elim (Bool-cases s.used_up) [
          | inl used ↦ rw (used, used_up_lem order facing used) refl
          | inr unused ↦ rw unused refl
        ] in
      (
        e',
        s,
        ran,
        sweep-IsFair order facing full (resting-IsPositive e (not order.is_buy) k sound),
        matches.0,
        matches.1 ∙ ap (λ xs. resting_on order.is_buy k e ++ xs) rests,
        matches.3,
      )

  -- On a sound engine that has room for it, with a quantity below 2 ^ 64: where the front order of the side that it faces does not
  -- cross, `submitOrder` ends without a report and leaves that side as it was, though an order behind
  -- the front crosses: the side is not kept by price.
  pub price_priority_fails :
      (e : Engine pools) (order front better : Order) (before after : List Order) (o : ℕ)
      (pool' : Pool)
      → IsSound pools e
      → IsBounded order
      → acquire e.pool ≡ some (o, pool')
      → resting_on (not order.is_buy) (hash_symbol order.symbol) e
        ≡ front ∷ before ++ better ∷ after
      → crosses order front ≡ false
      → crosses order better ≡ true
      → (e' : Engine pools) × (submit_order pools order e ≡ some e')
        × (e'.reports ≡ e.reports)
        × (resting_on (not order.is_buy) (hash_symbol order.symbol) e'
            ≡ front ∷ before ++ better ∷ after)
  price_priority_fails e order front better before after o pool' sound bounded acquired rests apart
        cross =
      let (e', ran, sound') = submit-IsSound pools e order sound bounded in
      let matches = submit_matches pools e e' order o pool' sound bounded acquired ran in
      let untouched =
        ap (sweep order) rests ∙ blocked order front (before ++ better ∷ after) apart in
      (
        e',
        ran,
        matches.3
            ∙ ap (λ (s : Swept). e.reports ++ reports_of s.fills) untouched
            ∙ append-nil e.reports,
        matches.0 ∙ ap (λ (s : Swept). s.side) untouched,
      )
