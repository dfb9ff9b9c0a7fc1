-- ===== src/MatchingEngine/Loop/Round.antt =====
-- One round of the loop of `matchOrder`, and what it adds to what the later rounds do.
use scrimmage.Prelude.{
  ℕ, suc, ◌≡◌, ◌≢◌, refl, sym, ap, ap₂, ◌∙◌, inl, inr, Bool, true, false, some, List, [], ◌∷◌, ◌++◌,
  arith, ◌==◌, if◌then◌else◌, min, map, Bool-cases, ne_of_mem, ◌∉◌, map_same, append_assoc,
  append-nil,
}
use scrimmage.MatchingEngine.{
  Order, Report, executed, matched, OrderPool, crosses, erase_at, Matching, fill, retire,
  next_index, match_loop,
}
use scrimmage.MatchingEngine.Sweep.{Fill, Swept, fill_of, more, stopped, unmatched}
use scrimmage.MatchingEngine.Loop.{
  reports_of, IsBounded, both, both_incoming, both_resting, both_other, Does, state,
}

module _ (pools : OrderPool) (incoming : ℕ) where
  open pools use {Pool, release, in_use, release_marks}

  module _ (fuel : ℕ) (resting : ℕ) (os : List ℕ) (orders : ℕ → Order) (pool : Pool)
      (reports : List Report) where
    abbrev pub qty : ℕ
    qty = min (orders incoming).quantity (orders resting).quantity

    abbrev pub after : ℕ → Order
    after = both orders incoming resting qty

    abbrev pub told : List Report
    told =
        reports
        ++ executed (after incoming) qty
          ∷ executed (after resting) qty
          ∷ matched (after incoming) (after resting) qty
          ∷ []

    pub loop_apart :
        crosses (orders incoming) (orders resting) ≡ false
        → match_loop pools
            (suc fuel)
            incoming
            0
            (state pools incoming (resting ∷ os) orders pool reports)
          ≡ some (false, state pools incoming (resting ∷ os) orders pool reports)
    unfolding match_loop
    loop_apart apart = rw apart

    pub loop_more :
        crosses (orders incoming) (orders resting) ≡ true
        → ((after incoming).quantity == 0) ≡ false
        → ((after resting).quantity == 0) ≡ true
        → match_loop pools
            (suc fuel)
            incoming
            0
            (state pools incoming (resting ∷ os) orders pool reports)
          ≡ match_loop pools fuel incoming 0
              (state pools incoming os after (release resting pool) told)
    unfolding match_loop fill retire next_index erase_at
    loop_more cross some_left spent = rw (cross, spent, some_left)

    pub loop_done :
        crosses (orders incoming) (orders resting) ≡ true
        → ((after incoming).quantity == 0) ≡ true
        → match_loop pools
            (suc fuel)
            incoming
            0
            (state pools incoming (resting ∷ os) orders pool reports)
          ≡ some (
            true,
            (if (after resting).quantity == 0
                then state pools incoming os after (release incoming (release resting pool)) told
                else state pools incoming (resting ∷ os) after (release incoming pool) told),
          )
    unfolding match_loop fill retire next_index erase_at
    loop_done cross done = elim (Bool-cases ((after resting).quantity == 0)) [
      | inl spent ↦ rw (cross, spent, done)
      | inr left ↦ rw (cross, left, done)
    ]

    module _ (apart : incoming ≢ resting) (bound : IsBounded (orders incoming))
        (bound' : IsBounded (orders resting)) where
      abbrev f : Fill
      f = fill_of (orders incoming) (orders resting)

      pub in_eq : after incoming ≡ f.incoming
      in_eq = both_incoming orders incoming resting qty apart bound (omega arith)

      pub rest_eq : after resting ≡ f.resting
      rest_eq = both_resting orders incoming resting qty apart bound' (omega arith)

      told_eq : told ≡ reports ++ reports_of (f ∷ [])
      told_eq =
          ap₂ (λ (a b : Order). reports ++ executed a qty ∷ executed b qty ∷ matched a b qty ∷ [])
            in_eq rest_eq

      pub same_side : resting ∉ os → incoming ∉ os → map after os ≡ map orders os
      same_side out out' = map_same after orders os (λ p here.
          both_other orders incoming resting qty apart p (ne_of_mem os out' here)
            (ne_of_mem os out here))

      pub Does-apart :
          Does pools incoming
            (state pools incoming (resting ∷ os) orders pool reports)
            (resting ∷ os)
            (unmatched (orders incoming) (map orders (resting ∷ os)))
            false
            (state pools incoming (resting ∷ os) orders pool reports)
      Does-apart = record {
        returned_lem = refl;
        opposite_lem = refl;
        left_lem = refl;
        side_lem = refl;
        reports_lem = sym (append-nil reports);
        others_lem = λ p out ne. refl;
        in_use_lem = λ p. ground arith;
      }

      pub Does-more :
          {returned : Bool} {m' : Matching pools} (s : Swept)
          → Does pools incoming
              (state pools incoming os after (release resting pool) told)
              os
              s
              returned
              m'
          → Does pools incoming
              (state pools incoming (resting ∷ os) orders pool reports)
              (resting ∷ os)
              (more f s)
              returned
              m'
      Does-more s d = record {
        returned_lem = d.returned_lem;
        opposite_lem = d.opposite_lem;
        left_lem = d.left_lem;
        side_lem = d.side_lem;
        reports_lem =
            d.reports_lem
            ∙ ap (λ rs. rs ++ reports_of s.fills) told_eq
            ∙ append_assoc reports (reports_of (f ∷ [])) (reports_of s.fills);
        others_lem = λ p out ne.
            d.others_lem p (ground arith) ne
            ∙ both_other orders incoming resting qty apart p ne (ground arith);
        in_use_lem = λ p. d.in_use_lem p ∙ rw release_marks (ground arith);
      }

      pub Does-done :
          resting ∉ os
          → incoming ∉ os
          → Does pools incoming
              (state pools incoming (resting ∷ os) orders pool reports)
              (resting ∷ os)
              (stopped f (map orders os))
              true
              (if (after resting).quantity == 0
                then state pools incoming os after (release incoming (release resting pool)) told
                else state pools incoming (resting ∷ os) after (release incoming pool) told)
      unfolding stopped
      Does-done out out' = elim (Bool-cases (f.resting.quantity == 0)) [
        | inl spent ↦
            let spent' : ((after resting).quantity == 0) ≡ true =
              ap (λ (o : Order). o.quantity == 0) rest_eq ∙ spent in
            rw (spent, spent')
              (record {
                returned_lem = refl;
                opposite_lem = refl;
                left_lem = in_eq;
                side_lem = same_side out out';
                reports_lem = told_eq;
                others_lem =
                    λ p no ne. both_other orders incoming resting qty apart p ne (ground arith);
                in_use_lem = λ p. rw (release_marks, release_marks) (ground arith);
              })
        | inr left ↦
            let left' : ((after resting).quantity == 0) ≡ false =
              ap (λ (o : Order). o.quantity == 0) rest_eq ∙ left in
            rw (left, left')
              (record {
                returned_lem = refl;
                opposite_lem = refl;
                left_lem = in_eq;
                side_lem = ap₂ ◌∷◌ rest_eq (same_side out out');
                reports_lem = told_eq;
                others_lem =
                    λ p no ne. both_other orders incoming resting qty apart p ne (ground arith);
                in_use_lem = λ p. rw release_marks (ground arith);
              })
      ]
