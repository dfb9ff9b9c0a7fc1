-- ===== src/RingBuffer/Queue.antt =====
-- What the ring of libs/common/SpScRingBuffer promises its user: a queue of at most `limit` items
-- that counts the pushes it refuses.
use scrimmage.Prelude.{
  ℕ, max, Bool, true, false, Option, none, some, List, [], ◌∷◌, ◌++◌, ◌==◌, if◌then◌else◌, length,
  add_word,
}

pub record Queue {ℓ} (T : Type ℓ) : Type ℓ where
  pub items : List T
  pub refused : ℕ

-- What a user can ask, and what comes back: the Boolean and the item.
pub data Call {ℓ} (T : Type ℓ) : Type ℓ where
  pushes : T → Call T
  pops : Call T

abbrev pub Reply {ℓ} : Type ℓ → Type ℓ
Reply T = Bool × Option T

module _ {ℓ} {T : Type ℓ} where
  unfoldable pub enqueue : ℕ → Queue T → T → Bool × Queue T
  enqueue limit q x =
      if length q.items == limit
      then (false, record q { refused = add_word 64 q.refused 1 })
      else (true, record q { items = q.items ++ x ∷ [] })

  unfoldable pub dequeue : Queue T → Bool × Option T × Queue T
  dequeue q = elim q.items [
    | [] ↦ (false, none, q)
    | x ∷ rest ↦ (true, some x, record q { items = rest })
  ]

  unfoldable pub replies : ℕ → Queue T → List (Call T) → List (Reply T)
  unfolding enqueue dequeue
  replies limit q [] = []
  replies limit q (pushes x ∷ calls) =
      let (done, q') = enqueue limit q x in (done, none) ∷ replies limit q' calls
  replies limit q (pops ∷ calls) =
      let (done, out, q') = dequeue q in (done, out) ∷ replies limit q' calls

  -- The queue after a sequence of calls, and the greatest length that it has had on the way.
  unfoldable pub step : ℕ → Queue T → Call T → Queue T
  unfolding enqueue dequeue
  step limit q (pushes x) = (enqueue limit q x).1
  step limit q pops = (dequeue q).2

  unfoldable pub peak : ℕ → Queue T → ℕ → List (Call T) → ℕ
  peak limit q greatest [] = greatest
  peak limit q greatest (call ∷ calls) =
      peak limit (step limit q call) (max greatest (length (step limit q call).items)) calls
