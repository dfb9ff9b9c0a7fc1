-- ===== src/MatchingEngine/Sound/Leaks.antt =====
-- Which orders of the pool lie in no book behind `submitOrder` of libs/match/MatchingEngine.h.
use mathlib.Core.Path.{subst}
use scrimmage.Prelude.{
  ℕ, ◌<◌, ◌≡◌, ◌≢◌, refl, sym, ◌∙◌, inl, inr, Bool, true, false, not, ◌&&◌, List, arith, ltb, ◌==◌,
  map, take, drop, Bool-cases, has, ◌∈◌, ◌∉◌, has-append, has-take-drop,
}
use native.Mathlib.Decide.{ℕ_discrete}
use scrimmage.MatchingEngine.{OrderPool, Engine, hash_symbol}
use scrimmage.MatchingEngine.Sweep.{Swept, left-IsPositive}
use scrimmage.MatchingEngine.Settle.{side, Settles, swept}
use scrimmage.MatchingEngine.Sound.{
  BelongsTo, IsReady, pushing, lists, belongs', in_facing, origin, faced, added, kept,
}

module _ (pools : OrderPool) where
  open pools use {in_use}

  module _ (k o : ℕ) (e e' : Engine pools) (ready : IsReady pools k o e)
      (settles : Settles pools k o e e' (swept pools k o e)) where
    abbrev mine : Bool
    mine = (e.orders o).is_buy

    abbrev s : Swept
    s = swept pools k o e

    abbrev facing : List ℕ
    facing = side (not mine) (e.books k)

    abbrev pushes : Bool
    pushes = not s.used_up && ltb 0 s.left.quantity

    at_home :
        (j : ℕ) (b : Bool) (p : ℕ)
        → BelongsTo j b (e'.orders p)
        → p ∈ side b (e'.books j)
        → p ∈ side (e'.orders p).is_buy (e'.books (hash_symbol (e'.orders p).symbol))
    at_home j b p h here = rw (h.is_buy_lem, h.symbol_lem) here

    -- An untouched order stays listed.
    stays :
        (j : ℕ) (b : Bool) (p : ℕ) → p ∉ facing → p ∈ side b (e.books j) → p ∈ side b (e'.books j)
    stays j b p out here = elim (lists pools k o e e' ready settles j b) [
      | inl (same, other, eq) ↦ let there : p ∈ facing = rw (same, ← other) here in cc
      | inr (inl (same, own, push, eq)) ↦ rw (eq, has-append) (ground arith)
      | inr (inr (apart, eq)) ↦ rw eq here
    ]

    still_used :
        (p : ℕ)
        → in_use e'.pool p ≡ true
        → ((in_use e.pool p && not (has p (take s.gone facing))) && not (s.used_up && p == o))
          ≡ true
    still_used p used = sym (settles.in_use_eq p) ∙ used

    own_listed :
        0 < (e.orders o).quantity
        → s.used_up ≡ false
        → (pushes ≡ true) × (o ∈ side mine (e'.books k))
    own_listed full unused =
        let left = left-IsPositive (e.orders o) (map e.orders facing) full unused in
        let push : pushes ≡ true = ground arith in
        (
          push,
          rw (settles.same_lem ∙ pushing pools k o e e' ready settles push, has-append)
              (ground arith),
        )

    -- No order in use is out of every book, if none was but the new one and that is not empty.
    pub settled-NoLeak :
        0 < (e.orders o).quantity
        → ((p : ℕ)
            → in_use e.pool p ≡ true
            → o ≢ p
            → p ∈ side (e.orders p).is_buy (e.books (hash_symbol (e.orders p).symbol)))
        → (p : ℕ) → in_use e'.pool p ≡ true
        → p ∈ side (e'.orders p).is_buy (e'.books (hash_symbol (e'.orders p).symbol))
    settled-NoLeak full listed p used = elim (ℕ_discrete o p) [
      | yes same ↦
          let (push, here) = own_listed full (ground (arith, still_used p used)) in
          subst (λ q. q ∈ side (e'.orders q).is_buy (e'.books (hash_symbol (e'.orders q).symbol)))
            same
            (at_home k mine o
              (belongs' pools k o e e' ready settles k mine o (added refl refl push refl)) here)
      | no ne ↦ elim (Bool-cases (has p facing)) [
        | inl faces ↦
            let here : p ∈ drop s.gone facing =
              ground (arith, still_used p used, has-take-drop p s.gone facing) in
            at_home k (not mine) p
              (belongs' pools k o e e' ready settles k (not mine) p (faced refl refl here))
              (rw settles.opposite_lem here)
        | inr out ↦
            let here = listed p (ground (arith, still_used p used)) ne in
            let there = stays (hash_symbol (e.orders p).symbol) (e.orders p).is_buy p out here in
            rw (settles.others_eq p out ne) there
      ]
    ]

    -- An order that is not pushed is in no list.
    pub out_of_lists : pushes ≡ false → (j : ℕ) (b : Bool) → o ∉ side b (e'.books j)
    out_of_lists stop j b = elim (Bool-cases (has o (side b (e'.books j)))) [
      | inr out ↦ out
      | inl here ↦ elim (origin pools k o e e' ready settles j b o here) [
        | faced _ _ old ↦
            let face = in_facing pools k o e e' ready settles o old in
            cc (ready.outside k (not mine), face)
        | added _ _ push _ ↦ cc (push, stop)
        | kept old _ ↦ cc (ready.outside j b, old)
      ]
    ]
