-- ===== src/PriceLevels/Whole/Runs.antt =====
-- Calls of libs/match/PriceLevels.h, one after the other, against queues.
use scrimmage.Prelude.{ℕ, Bool, false, Option, none, some, List, [], ◌∷◌}
use scrimmage.PriceLevels.{EntryPool, Levels, append_to_level, unlink_from_level, reduce_quantity}
use scrimmage.PriceLevels.Whole.{
  Side, Command, append_call, unlink_call, reduce_call, act, answer, IsAllowed,
}

-- The queues behind the calls, and what they answer.
abbrev pub act_all : List Command → Side → Side
act_all [] a = a
act_all (c ∷ calls) a = act_all calls (act c a)

abbrev pub answers : List Command → Side → List Bool
answers [] a = []
answers (c ∷ calls) a = answer c a ∷ answers calls (act c a)

-- Each call is allowed when it comes.
abbrev pub AreAllowed : (fuel n : ℕ) → List Command → Side → Type 0
AreAllowed fuel n [] a = Unit
AreAllowed fuel n (c ∷ calls) a = IsAllowed fuel n c a × AreAllowed fuel n calls (act c a)

module _ (pool : EntryPool) where
  -- One call and its answer; `none` would mean that the loop ran out of fuel.
  unfoldable pub perform : ℕ → Command → Levels → pool.Store → Option (Bool × (Levels × pool.Store))
  perform fuel (append_call k p) l s = some (false, append_to_level pool k p l s)
  perform fuel (unlink_call p) l s = unlink_from_level pool fuel p l s
  perform fuel (reduce_call p n) l s = some (false, reduce_quantity pool p n l s)

  unfoldable pub serve :
      ℕ → List Command → Levels → pool.Store → Option (List Bool × (Levels × pool.Store))
  serve fuel [] l s = some ([], (l, s))
  serve fuel (c ∷ calls) l s = elim (perform fuel c l s) [
    | none ↦ none
    | some (b, (m, t)) ↦ elim (serve fuel calls m t) [
      | none ↦ none
      | some (bs, end) ↦ some (b ∷ bs, end)
    ]
  ]

  -- The queues of levels that hold nothing.
  abbrev pub no_queues : pool.Store → Side
  no_queues s = record {
    queue = λ i. [];
    home = λ p. (pool.entry s p).level_index;
    amount = λ p. (pool.entry s p).quantity;
  }
