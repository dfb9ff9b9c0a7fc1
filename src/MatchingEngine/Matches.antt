-- ===== src/MatchingEngine/Matches.antt =====
-- What `submitOrder` of libs/match/MatchingEngine.h makes of the books and reports.
use mathlib.Core.Path.{subst}
use scrimmage.Prelude.{
  ℕ, ◌≡◌, ◌≢◌, ◌⊎◌, refl, sym, ap, ap₂, ◌∙◌, inl, inr, Bool, true, not, ◌&&◌, some, [], ◌∷◌, ◌++◌,
  arith, ltb, if◌then◌else◌, map, Bool-cases, ◌∉◌, update, update_self, ne_of_mem, map_same,
  append-nil, map-append,
}
use mathlib.Core.Option.{some-injective}
use scrimmage.MatchingEngine.{Order, OrderPool, Engine, hash_symbol, submit_order}
use scrimmage.MatchingEngine.Sweep.{Swept, sweep, no_fills}
use scrimmage.MatchingEngine.Loop.{IsBounded, reports_of}
use scrimmage.MatchingEngine.Settle.{side, Settles, swept}
use scrimmage.MatchingEngine.Sound
use scrimmage.MatchingEngine.Sound.{BelongsTo, IsSound, IsReady, settled-IsSound}
use scrimmage.MatchingEngine.Sound.Leaks.{settled-NoLeak}
use scrimmage.MatchingEngine.Sound.Leaks
use scrimmage.MatchingEngine.Submit.{entered, entered-IsReady, same_order, submitted}

module _ (pools : OrderPool) where
  open pools use {Pool, acquire, in_use, acquire_fresh, acquire_marks}

  module _ (e e' : Engine pools) (order : Order) (o : ℕ) (pool' : Pool) (sound : IsSound pools e)
      (bounded : IsBounded order) (acquired : acquire e.pool ≡ some (o, pool'))
      (ran : submit_order pools order e ≡ some e') where
    abbrev k : ℕ
    k = hash_symbol order.symbol

    -- The sweep of the orders that the new order meets.
    abbrev pub met : Swept
    met = sweep order (map e.orders (side (not order.is_buy) (e.books k)))

    e1 : Engine pools
    e1 = entered pools e order o pool'

    ready : IsReady pools k o (entered pools e order o pool')
    ready = entered-IsReady pools e order o pool' sound bounded acquired

    is_order : update e.orders o order o ≡ order
    is_order = update_self e.orders o order

    met_lem : swept pools k o (entered pools e order o pool') ≡ met
    met_lem =
        ap
          (λ (x : Order). sweep x (map (update e.orders o order) (side (not x.is_buy) (e.books k))))
          is_order
        ∙ ap (sweep order) (
            map_same (update e.orders o order) e.orders (side (not order.is_buy) (e.books k))
              (λ p here.
                same_order pools e order o pool' sound bounded acquired k (not order.is_buy) p
                  here))

    settled :
        Settles pools k o
          (entered pools e order o pool')
          e'
          (swept pools k o (entered pools e order o pool'))
    settled =
        let (e2, runs, settles) = submitted pools e order o pool' sound bounded acquired in
        subst
          (λ x.
            Settles pools k o (entered pools e order o pool') x
              (swept pools k o (entered pools e order o pool')))
          (some-injective _ _ (sym runs ∙ ran)) settles

    own_side : (update e.orders o order o).is_buy ≡ order.is_buy
    own_side = ap (λ (x : Order). x.is_buy) is_order

    facing_or_not :
        {j : ℕ} {b : Bool}
        → (k ≢ j) ⊎ (b ≡ order.is_buy)
        → (k ≢ j) ⊎ (b ≡ (update e.orders o order o).is_buy)
    facing_or_not (inl ne) = inl ne
    facing_or_not (inr own) = inr (own ∙ sym own_side)

    abbrev rests : Swept → Bool
    rests s = not s.used_up && ltb 0 s.left.quantity

    own_list : side order.is_buy (e'.books k) ≡ (
        if rests met
        then side order.is_buy (e.books k) ++ o ∷ []
        else side order.is_buy (e.books k))
    own_list =
        subst
          (λ c.
            side c (e'.books k)
            ≡ (if rests met then side c (e.books k) ++ o ∷ [] else side c (e.books k)))
          own_side
          (settled.same_lem
            ∙ ap
                (λ (s : Swept).
                  if rests s
                  then side (update e.orders o order o).is_buy (e.books k) ++ o ∷ []
                  else side (update e.orders o order o).is_buy (e.books k))
                met_lem)

    -- The orders of a list that the new order does not face are as before.
    same_list :
        (j : ℕ) (b : Bool)
        → (k ≢ j) ⊎ (b ≡ order.is_buy)
        → map e'.orders (side b (e.books j)) ≡ map e.orders (side b (e.books j))
    same_list j b apart = map_same e'.orders e.orders (side b (e.books j)) λ p here.
        settled.others_eq p
          (Sound.not-facing pools k o (entered pools e order o pool') e' ready settled j b p
            (facing_or_not apart) here)
          (ne_of_mem (side b (e.books j)) (ready.outside j b) here)
        ∙ same_order pools e order o pool' sound bounded acquired j b p here

    -- The new order sweeps the other side of its symbol's book, and what is left of it goes behind the
    -- orders on its own side; the other books stay as they are, and each fill is reported three times.
    pub submit_matches :
        (map e'.orders (side (not order.is_buy) (e'.books k)) ≡ met.side)
        × (map e'.orders (side order.is_buy (e'.books k))
            ≡ map e.orders (side order.is_buy (e.books k))
              ++ (if not met.used_up && ltb 0 met.left.quantity then met.left ∷ [] else []))
        × ((j : ℕ) (b : Bool)
            → k ≢ j
            → map e'.orders (side b (e'.books j)) ≡ map e.orders (side b (e.books j)))
        × (e'.reports ≡ e.reports ++ reports_of met.fills)
    submit_matches = (
      subst (λ c. map e'.orders (side (not c) (e'.books k)) ≡ met.side) own_side
          (ap (map e'.orders) settled.opposite_lem
            ∙ settled.side_eq
            ∙ ap (λ (s : Swept). s.side) met_lem),
      ap (map e'.orders) own_list ∙ elim (Bool-cases (rests met)) [
        | inl push ↦
            rw (push, map-append)
              (ap₂ (λ xs x. xs ++ x ∷ []) (same_list k order.is_buy (inr refl))
                (settled.left_eq ∙ ap (λ (s : Swept). s.left) met_lem))
        | inr keep ↦ rw keep (same_list k order.is_buy (inr refl) ∙ sym (append-nil _))
      ],
      λ j b ne. rw (settled.books_lem j ne) (same_list j b (inl ne)),
      settled.reports_eq ∙ ap (λ (s : Swept). e.reports ++ reports_of s.fills) met_lem,
    )

    -- An empty order that fills nothing is kept out of every book and yet stays in use behind its call
    -- of `submitOrder`.
    pub empty_order_leaks :
        order.quantity ≡ 0
        → met.fills ≡ []
        → (in_use e'.pool o ≡ true) × ((j : ℕ) (b : Bool) → o ∉ side b (e'.books j))
    empty_order_leaks empty nothing =
        let same =
          met_lem ∙ no_fills order (map e.orders (side (not order.is_buy) (e.books k))) nothing in
        let unused = ap (λ (s : Swept). s.used_up) same in
        let gone = ap (λ (s : Swept). s.gone) same in
        let left = ap (λ (s : Swept). s.left.quantity) same in
        (
          settled.in_use_eq o ∙ rw (unused, gone) (ground (arith, ready.own_use)),
          Leaks.out_of_lists pools k o (entered pools e order o pool') e' ready settled
              (rw (unused, left, empty)),
        )
