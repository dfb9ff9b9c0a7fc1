-- ===== src/MatchingEngine/Loop.antt =====
-- The loop of `matchOrder` in libs/match/MatchingEngine.h, on pointers: the store behind a fill, and
-- what it is that the loop does the sweep of the orders.
pub mod Round
pub mod Ends
use scrimmage.Prelude.{
  ℕ, zero, suc, ◌^◌, ◌≤◌, ◌<◌, ◌≡◌, ◌≢◌, refl, sym, ap, ap₂, ◌∙◌, inl, inr, Bool, true, false, not,
  ◌&&◌, some, List, [], ◌∷◌, ◌++◌, arith, ◌==◌, if◌then◌else◌, min, map, length, take, drop,
  Bool-cases, Every, has, ne_of_mem, ◌∉◌, AreDistinct, map_same, Every-of_mem, append_assoc,
  append-nil,
}
use mathlib.Core.Path.{subst}
use scrimmage.MatchingEngine.{
  Order, Report, executed, matched, OrderPool, crosses, take_from, erase_at, Matching, fill, retire,
  next_index, match_loop,
}
use scrimmage.MatchingEngine.Sweep.{
  Fill, Swept, reduced, fill_of, more, stopped, unmatched, sweep, blocked, sweep-stopped,
  sweep-more,
}

-- The callbacks of one fill, and of a list of fills.
abbrev pub reports_of : List Fill → List Report
reports_of [] = []
reports_of (f ∷ fs) =
    executed f.incoming f.quantity
    ∷ executed f.resting f.quantity
    ∷ matched f.incoming f.resting f.quantity
    ∷ reports_of fs

-- The quantity fits `uint64_t`.
abbrev pub IsBounded : Order → Type 0
IsBounded o = o.quantity < 2 ^ 64

-- The store after a fill of `n`.
abbrev pub both : (ℕ → Order) → ℕ → ℕ → ℕ → (ℕ → Order)
both orders incoming resting n = take_from (take_from orders incoming n) resting n

module _ (orders : ℕ → Order) (incoming resting n : ℕ) (apart : incoming ≢ resting) where
  abbrev pub after_fill : ℕ → Order
  after_fill = both orders incoming resting n

  pub both_incoming :
      IsBounded (orders incoming)
      → n ≤ (orders incoming).quantity
      → after_fill incoming ≡ reduced (orders incoming) n
  unfolding take_from
  both_incoming h le = ground arith

  pub both_resting :
      IsBounded (orders resting)
      → n ≤ (orders resting).quantity
      → after_fill resting ≡ reduced (orders resting) n
  unfolding take_from
  both_resting h le = ground arith

  pub both_other : (p : ℕ) → incoming ≢ p → resting ≢ p → after_fill p ≡ orders p
  unfolding take_from
  both_other p ne ne' = ground arith

module _ (pools : OrderPool) (incoming : ℕ) where
  open pools use {Pool, release, in_use, release_marks}

  -- The loop's result `(returned, m')` from the state `m` with `os` on the opposite side, when the
  -- sweep of the orders is `s`.
  pub record Does (m : Matching pools) (os : List ℕ) (s : Swept) (returned : Bool)
      (m' : Matching pools) : Type 0 where
    pub returned_lem : returned ≡ s.used_up
    pub opposite_lem : m'.opposite ≡ drop s.gone os
    pub left_lem : m'.orders incoming ≡ s.left
    pub side_lem : map m'.orders m'.opposite ≡ s.side
    pub reports_lem : m'.reports ≡ m.reports ++ reports_of s.fills
    pub others_lem : (p : ℕ) → p ∉ os → incoming ≢ p → m'.orders p ≡ m.orders p
    pub in_use_lem :
        (p : ℕ)
        → in_use m'.pool p
          ≡ ((in_use m.pool p && not (has p (take s.gone os))) && not (s.used_up && p == incoming))

  abbrev pub state : List ℕ → (ℕ → Order) → Pool → List Report → Matching pools
  state os orders pool reports = record {
    opposite = os;
    orders = orders;
    pool = pool;
    reports = reports;
  }
