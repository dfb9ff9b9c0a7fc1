-- ===== src/MatchingEngine/Sound.antt =====
-- The invariant of the engine in libs/match/MatchingEngine.h: each order lies once, in the book of its
-- symbol and on its own side, is not empty, and belongs to the pool's orders in use.
pub mod Leaks
use mathlib.Core.Path.{subst}
use scrimmage.Prelude.{
  ℕ, ◌<◌, ◌≡◌, ◌≢◌, ◌⊎◌, refl, sym, ap, ◌∙◌, inl, inr, Bool, true, false, not, ◌&&◌, ◌||◌, List, [],
  ◌∷◌, ◌++◌, arith, ltb, ◌==◌, if◌then◌else◌, map, take, drop, Bool-cases, Bool-same, Every, has,
  ◌∈◌, ◌∉◌, AreDistinct, ne_of_mem, has-append, has-take-drop, AreDistinct-snoc, AreDistinct-drop,
  take_of_drop, mem-Every, Every-map, Every-of_all,
}
use native.Mathlib.Decide.{ℕ_discrete}
use scrimmage.MatchingEngine.{Order, OrderPool, Engine, hash_symbol}
use scrimmage.MatchingEngine.Sweep.{
  Swept, IsPositive, reduced, left_lem, left-IsPositive, side-IsPositive, side-Every,
}
use scrimmage.MatchingEngine.Loop.{IsBounded}
use scrimmage.MatchingEngine.Settle.{side, Settles, swept}

-- The order belongs on side `b` of book `k`.
pub record BelongsTo (k : ℕ) (b : Bool) (o : Order) : Type 0 where
  pub is_buy_lem : o.is_buy ≡ b
  pub symbol_lem : hash_symbol o.symbol ≡ k
  pub bounded : IsBounded o

reduced-BelongsTo :
    (k : ℕ) (b : Bool) (o : Order) (n : ℕ) → BelongsTo k b o → BelongsTo k b (reduced o n)
reduced-BelongsTo k b o n h = record {
  is_buy_lem = h.is_buy_lem;
  symbol_lem = h.symbol_lem;
  bounded = omega arith;
}

not_self : (b : Bool) → b ≢ not b
not_self true e = cc
not_self false e = cc

module _ (pools : OrderPool) where
  open pools use {in_use}

  pub record IsSound (e : Engine pools) : Type 0 where
    pub distinct : (k : ℕ) (b : Bool) → AreDistinct (side b (e.books k))
    pub belongs : (k : ℕ) (b : Bool) (p : ℕ) → p ∈ side b (e.books k) → BelongsTo k b (e.orders p)
    pub positive : (k : ℕ) (b : Bool) (p : ℕ) → p ∈ side b (e.books k) → 0 < (e.orders p).quantity
    pub held : (k : ℕ) (b : Bool) (p : ℕ) → p ∈ side b (e.books k) → in_use e.pool p ≡ true

  -- What `submitOrder` has set up when it calls `matchOrder`: the engine around a new order `o`.
  pub record IsReady (k o : ℕ) (e : Engine pools) : Type 0 where
    pub sound : IsSound e
    pub outside : (j : ℕ) (b : Bool) → o ∉ side b (e.books j)
    pub own_symbol : hash_symbol (e.orders o).symbol ≡ k
    pub own_bound : IsBounded (e.orders o)
    pub own_use : in_use e.pool o ≡ true

  module _ (k o : ℕ) (e e' : Engine pools) (ready : IsReady k o e)
      (settles : Settles pools k o e e' (swept pools k o e)) where
    abbrev pub mine : Bool
    mine = (e.orders o).is_buy

    abbrev pub s : Swept
    s = swept pools k o e

    abbrev pub facing : List ℕ
    facing = side (not mine) (e.books k)

    abbrev pub pushes : Bool
    pushes = not s.used_up && ltb 0 s.left.quantity

    pub pushing :
        pushes ≡ true
        → (if pushes then side mine (e.books k) ++ o ∷ [] else side mine (e.books k))
          ≡ side mine (e.books k) ++ o ∷ []
    pushing p = rw p

    keeping :
        pushes ≡ false
        → (if pushes then side mine (e.books k) ++ o ∷ [] else side mine (e.books k))
          ≡ side mine (e.books k)
    keeping p = rw p

    -- A list of the engine is the opposite side, the order's own side, or untouched.
    pub lists :
        (j : ℕ) (b : Bool)
        → ((k ≡ j) × (b ≡ not mine) × (side b (e'.books j) ≡ drop s.gone facing))
          ⊎ (((k ≡ j)
                × (b ≡ mine)
                × (pushes ≡ true)
                × (side b (e'.books j) ≡ side b (e.books j) ++ o ∷ []))
              ⊎ ((((k ≢ j) ⊎ (b ≡ mine)) × (side b (e'.books j) ≡ side b (e.books j)))))
    lists j b = elim (ℕ_discrete k j) [
      | no ne ↦ inr (inr (inl ne, ap (side b) (settles.books_lem j ne)))
      | yes same ↦ rw (← same) (elim (Bool-same b mine) [
        | inr other ↦ inl (refl, other, rw other settles.opposite_lem)
        | inl own ↦ elim (Bool-cases pushes) [
          | inl push ↦ inr (
              inl (
                refl,
                own,
                push,
                ap (λ c. side c (e'.books k)) own
                    ∙ settles.same_lem
                    ∙ pushing push
                    ∙ ap (λ c. side c (e.books k) ++ o ∷ []) (sym own),
              ))
          | inr keep ↦ inr (
              inr (
                inr own,
                ap (λ c. side c (e'.books k)) own
                    ∙ settles.same_lem
                    ∙ keeping keep
                    ∙ ap (λ c. side c (e.books k)) (sym own),
              ))
        ]
      ])
    ]

    -- Where a member of a list afterwards comes from.
    pub data Origin (j : ℕ) (b : Bool) (p : ℕ) : Type 0 where
      faced : k ≡ j → b ≡ not mine → p ∈ drop s.gone facing → Origin j b p
      added : k ≡ j → b ≡ mine → pushes ≡ true → p ≡ o → Origin j b p
      kept : p ∈ side b (e.books j) → p ∉ facing → Origin j b p

    pub not-facing :
        (j : ℕ) (b : Bool) (p : ℕ) → (k ≢ j) ⊎ (b ≡ mine) → p ∈ side b (e.books j) → p ∉ facing
    not-facing j b p apart here = elim (Bool-cases (has p facing)) [
      | inr out ↦ out
      | inl both ↦
          let there = ready.sound.belongs k (not mine) p both in
          let home = ready.sound.belongs j b p here in
          absurd (elim apart [
            | inl ne ↦ ne (sym there.symbol_lem ∙ home.symbol_lem)
            | inr own ↦ not_self mine (sym own ∙ sym home.is_buy_lem ∙ there.is_buy_lem)
          ])
    ]

    pub origin : (j : ℕ) (b : Bool) (p : ℕ) → p ∈ side b (e'.books j) → Origin j b p
    origin j b p here = elim (lists j b) [
      | inl (same, other, eq) ↦ faced same other (subst (λ xs. p ∈ xs) eq here)
      | inr (inl (same, own, push, eq)) ↦
          let here' : (has p (side b (e.books j)) || has p (o ∷ [])) ≡ true =
            sym (has-append p (side b (e.books j)) (o ∷ [])) ∙ subst (λ xs. p ∈ xs) eq here in
          elim (Bool-cases (has p (side b (e.books j)))) [
            | inl old ↦ kept old (not-facing j b p (inr own) old)
            | inr new ↦ added same own push (ground arith)
          ]
      | inr (inr (apart, eq)) ↦
          let old = subst (λ xs. p ∈ xs) eq here in kept old (not-facing j b p apart old)
    ]

    ne_of_listed : (j : ℕ) (b : Bool) (p : ℕ) → p ∈ side b (e.books j) → o ≢ p
    ne_of_listed j b p here = ne_of_mem (side b (e.books j)) (ready.outside j b) here

    pub in_facing : (p : ℕ) → p ∈ drop s.gone facing → p ∈ facing
    in_facing p here = ground (arith, has-take-drop p s.gone facing)

    not-taken : (p : ℕ) → p ∉ facing → p ∉ take s.gone facing
    not-taken p out = ground (arith, has-take-drop p s.gone facing)

    -- What holds of every order that was on the opposite side and is not spoilt by a fill.
    faced-Every :
        (P : Order → Type 0)
        → (Every P (map e.orders facing) → Every P s.side)
        → ((p : ℕ) → p ∈ facing → P (e.orders p))
        → (p : ℕ) → p ∈ drop s.gone facing
        → P (e'.orders p)
    faced-Every P sweeps before p here =
        mem-Every (λ q. P (e'.orders q)) p (drop s.gone facing)
          ((Every-map P e'.orders (drop s.gone facing)).0 (
            subst (Every P) (sym settles.side_eq) (
              sweeps (
                (Every-map P e.orders facing).1
                  (Every-of_all (λ q. P (e.orders q)) facing before)))))
          here

    pub belongs' : (j : ℕ) (b : Bool) (p : ℕ) → Origin j b p → BelongsTo j b (e'.orders p)
    belongs' j b p (faced same other here) =
        rw (← same, other)
          (faced-Every (BelongsTo k (not mine))
            (side-Every _ (reduced-BelongsTo k (not mine)) (e.orders o) (map e.orders facing))
            (ready.sound.belongs k (not mine)) p here)
    belongs' j b p (added same own push eq) =
        let left_eq = left_lem (e.orders o) (map e.orders facing) in
        rw (← same, own, eq, settles.left_eq, left_eq.0)
          (record {
            is_buy_lem = refl;
            symbol_lem = ready.own_symbol;
            bounded = omega (arith, left_eq.1, ready.own_bound);
          })
    belongs' j b p (kept here out) =
        rw (settles.others_eq p out (ne_of_listed j b p here)) (ready.sound.belongs j b p here)

    positive' : (j : ℕ) (b : Bool) (p : ℕ) → Origin j b p → 0 < (e'.orders p).quantity
    positive' j b p (faced same other here) =
        faced-Every IsPositive (side-IsPositive (e.orders o) (map e.orders facing))
          (ready.sound.positive k (not mine)) p here
    positive' j b p (added same own push eq) = rw (eq, settles.left_eq) (ground arith)
    positive' j b p (kept here out) =
        rw (settles.others_eq p out (ne_of_listed j b p here)) (ready.sound.positive j b p here)

    held' : (j : ℕ) (b : Bool) (p : ℕ) → Origin j b p → in_use e'.pool p ≡ true
    held' j b p (faced same other here) =
        let listed = in_facing p here in
        settles.in_use_eq p
        ∙ ground (
          arith,
          ready.sound.held k (not mine) p listed,
          take_of_drop p s.gone facing (ready.sound.distinct k (not mine)) here,
          ne_of_listed k (not mine) p listed,
        )
    held' j b p (added same own push eq) = rw eq (
        settles.in_use_eq o
        ∙ ground (arith, ready.own_use, not-taken o (ready.outside k (not mine))))
    held' j b p (kept here out) =
        settles.in_use_eq p
        ∙ ground (arith, ready.sound.held j b p here, not-taken p out, ne_of_listed j b p here)

    distinct' : (j : ℕ) (b : Bool) → AreDistinct (side b (e'.books j))
    distinct' j b = elim (lists j b) [
      | inl (same, other, eq) ↦
          rw eq (AreDistinct-drop s.gone facing (ready.sound.distinct k (not mine)))
      | inr (inl (same, own, push, eq)) ↦
          rw eq
            (AreDistinct-snoc (side b (e.books j)) o (ready.sound.distinct j b) (ready.outside j b))
      | inr (inr (apart, eq)) ↦ rw eq (ready.sound.distinct j b)
    ]

    pub settled-IsSound : IsSound e'
    settled-IsSound = record {
      distinct = distinct';
      belongs = λ j b p here. belongs' j b p (origin j b p here);
      positive = λ j b p here. positive' j b p (origin j b p here);
      held = λ j b p here. held' j b p (origin j b p here);
    }
