-- ===== src/MatchingEngine/Loop/Ends.antt =====
-- The loop of `matchOrder` ends and does the sweep of the orders.
use scrimmage.Prelude.{
  ℕ, zero, suc, ◌<◌, ◌≡◌, ◌≢◌, refl, sym, ap, ap₂, ◌∙◌, inl, inr, Bool, true, false, some, List, [],
  ◌∷◌, arith, ◌==◌, map, length, Bool-cases, Every, ne_of_mem, ◌∉◌, AreDistinct, Every-of_mem,
  append-nil,
}
use mathlib.Core.Path.{subst}
use scrimmage.MatchingEngine.{Order, Report, OrderPool, crosses, Matching, match_loop}
use scrimmage.MatchingEngine.Sweep.{fill_of, sweep, blocked, sweep-stopped, sweep-more}
use scrimmage.MatchingEngine.Loop.{IsBounded, both_other, Does, state}
use scrimmage.MatchingEngine.Loop.Round.{
  after, told, loop_apart, loop_more, loop_done, in_eq, rest_eq, same_side, Does-apart, Does-more,
  Does-done,
}

module _ (pools : OrderPool) (incoming : ℕ) where
  open pools use {Pool, release, in_use, release_marks}

  -- With more fuel than there are orders the loop ends, and has done the sweep.
  pub match_loop-Does :
      (fuel : ℕ) (os : List ℕ) (orders : ℕ → Order) (pool : Pool) (reports : List Report)
      → length os < fuel
      → AreDistinct os
      → incoming ∉ os
      → IsBounded (orders incoming)
      → Every (λ p. IsBounded (orders p)) os
      → (returned : Bool) × (m' : Matching pools) × (match_loop pools fuel incoming 0
            (state pools incoming os orders pool reports)
          ≡ some (returned, m'))
        × Does pools incoming
            (state pools incoming os orders pool reports)
            os
            (sweep (orders incoming) (map orders os))
            returned
            m'
  unfolding match_loop sweep
  match_loop-Does zero os orders pool reports enough distinct out bound bounds =
      absurd (omega arith)
  match_loop-Does (suc fuel) [] orders pool reports enough distinct out bound bounds = (
    false,
    state pools incoming [] orders pool reports,
    refl,
    record {
      returned_lem = refl;
      opposite_lem = refl;
      left_lem = refl;
      side_lem = refl;
      reports_lem = sym (append-nil reports);
      others_lem = λ p no ne. refl;
      in_use_lem = λ p. ground arith;
    },
  )
  match_loop-Does (suc fuel) (r ∷ os) orders pool reports enough distinct out bound bounds =
      let apart : incoming ≢ r = ground arith in
      let m = state pools incoming (r ∷ os) orders pool reports in
      let g = fill_of (orders incoming) (orders r) in
      let now = in_eq pools incoming fuel r os orders pool reports apart bound bounds.0 in
      let same =
        same_side pools incoming fuel r os orders pool reports apart bound bounds.0 distinct.0
          (ground arith) in
      elim (Bool-cases (crosses (orders incoming) (orders r))) [
        | inr no_cross ↦ (
          false,
          m,
          loop_apart pools incoming fuel r os orders pool reports no_cross,
          rw (blocked (orders incoming) (orders r) (map orders os) no_cross)
              (Does-apart pools incoming fuel r os orders pool reports apart bound bounds.0),
        )
        | inl cross ↦ elim (Bool-cases (g.incoming.quantity == 0)) [
          | inl done ↦ (
            true,
            _,
            loop_done pools incoming fuel r os orders pool reports cross
                (ap (λ (o : Order). o.quantity == 0) now ∙ done),
            rw (sweep-stopped (orders incoming) (orders r) (map orders os) cross done) (
                Does-done pools incoming fuel r os orders pool reports apart bound bounds.0
                  distinct.0 (ground arith)),
          )
          | inr some_left ↦
              let store = after pools incoming fuel r os orders pool reports in
              let spent : (g.resting.quantity == 0) ≡ true = ground arith in
              let (returned, m', runs, does) =
                match_loop-Does fuel os store (release r pool)
                  (told pools incoming fuel r os orders pool reports) (omega arith) distinct.1
                  (ground arith) (subst IsBounded (sym now) (omega arith))
                  (Every-of_mem (λ p. IsBounded (orders p)) (λ p. IsBounded (store p)) os
                    (λ p here h.
                      subst IsBounded
                        (sym (
                          both_other orders incoming r g.quantity apart p
                            (ne_of_mem os (ground arith) here) (ne_of_mem os distinct.0 here)))
                        h)
                    bounds.1) in
              (
                returned,
                m',
                loop_more pools incoming fuel r os orders pool reports cross
                      (ap (λ (o : Order). o.quantity == 0) now ∙ some_left)
                      (ap (λ (o : Order). o.quantity == 0)
                          (rest_eq pools incoming fuel r os orders pool reports apart bound
                            bounds.0)
                        ∙ spent)
                    ∙ runs,
                rw (sweep-more (orders incoming) (orders r) (map orders os) cross some_left) (
                    Does-more pools incoming fuel r os orders pool reports apart bound bounds.0
                      (sweep g.incoming (map orders os))
                      (subst
                        (λ s.
                          Does pools incoming
                            (state pools incoming os store (release r pool)
                              (told pools incoming fuel r os orders pool reports))
                            os s returned m')
                        (ap₂ sweep now same) does)),
              )
        ]
      ]
