-- ===== src/PriceLevels/Whole.antt =====
-- All levels of libs/match/PriceLevels.h together, as queues of entries.
pub mod Shrink
pub mod Runs
use scrimmage.Prelude.{
  ℕ, zero, suc, ◌+◌, ◌-◌, ◌%◌, ◌^◌, ◌≤◌, ◌<◌, ◌≡◌, ◌≢◌, refl, sym, ap, ap₂, subst, ◌∙◌, inl, inr,
  Bool, true, false, Option, none, some, List, [], ◌∷◌, ◌++◌, arith, ◌==◌, ◌||◌, if◌then◌else◌, ◌∈◌,
  ◌∉◌, AreDistinct, ne_of_mem, Bool-cases, length, length-append, length-set, has, has-append, set,
  get_or, update, update_self, update_ne, sub_word,
}
use native.Mathlib.Decide.{ℕ_discrete}
use scrimmage.PriceLevels.{
  Entry, EntryPool, Level, Levels, nil, empty_level, append_to, cut, unlink_from, append_to_level,
  unlink_from_level, reduce_quantity,
}
use scrimmage.PriceLevels.Chain.{last_of, last_of-mem, Chain-same}
use scrimmage.PriceLevels.Fifo.{next_of, sum_of, IsLevel, append_to-IsLevel}
use scrimmage.PriceLevels.Unlink.{
  distinct_around, found, unlink_loop_lem, cut-IsLevel, head_lem, is_nil,
}
use scrimmage.PriceLevels.Frames.{
  get_or-set_self, get_or-set_ne, put-field, IsLevel-same, append_to-others, append_to-field,
  cut-others, cut-field,
}

-- What a side holds: the entries of each level in their order, and the level and the quantity of each
-- entry.
pub record Side : Type 0 where
  pub queue : ℕ → List ℕ
  pub home : ℕ → ℕ
  pub amount : ℕ → ℕ

abbrev pub drop_entry : ℕ → List ℕ → List ℕ
drop_entry p [] = []
drop_entry p (x ∷ xs) = if x == p then xs else x ∷ drop_entry p xs

-- The calls.
pub data Command : Type 0 where
  append_call : (lvl_idx pool_idx : ℕ) → Command
  unlink_call : (pool_idx : ℕ) → Command
  reduce_call : (pool_idx qty : ℕ) → Command

-- What a call makes of the queues.
abbrev pub act : Command → Side → Side
act (append_call k p) a = record a {
  queue = update a.queue k (a.queue k ++ p ∷ []);
  home = update a.home p k;
}
act (unlink_call p) a = record a {
  queue = update a.queue (a.home p) (drop_entry p (a.queue (a.home p)));
}
act (reduce_call p n) a = record a { amount = update a.amount p (a.amount p - n) }

-- What a call answers: `unlinkFromLevel` whether its level is empty now.
abbrev pub answer : Command → Side → Bool
answer (append_call k p) a = false
answer (unlink_call p) a = is_nil (drop_entry p (a.queue (a.home p)))
answer (reduce_call p n) a = false

-- The call is one for `n` levels: an entry is appended that is in no queue, one is unlinked or reduced
-- that is, and no more is taken from it than it has.
abbrev pub IsAllowed : (fuel n : ℕ) → Command → Side → Type 0
IsAllowed fuel n (append_call k p) a = (k < n) × (p < nil) × ((i : ℕ) → p ∉ a.queue i)
IsAllowed fuel n (unlink_call p) a =
    (a.home p < n) × (p ∈ a.queue (a.home p)) × (length (a.queue (a.home p)) ≤ fuel)
IsAllowed fuel n (reduce_call p q) a = (a.home p < n) × (p ∈ a.queue (a.home p)) × (q ≤ a.amount p)

-- A list is cut at the first place of a member.
pub split_at :
    (p : ℕ) (l : List ℕ)
    → p ∈ l
    → (xs : List ℕ) × (ys : List ℕ) × (l ≡ xs ++ p ∷ ys) × (drop_entry p l ≡ xs ++ ys)
split_at p [] h = cc
split_at p (x ∷ l) h = elim (Bool-cases (x == p)) [
  | inl same ↦ let e : x ≡ p = ground arith in ([], l, ap (λ y. y ∷ l) e, rw same refl)
  | inr other ↦
      let (xs, ys, eq, dropped) = split_at p l (ground arith) in
      (x ∷ xs, ys, ap (◌∷◌ x) eq, rw other (ap (◌∷◌ x) dropped))
]

pub drop-mem : (p x : ℕ) (xs : List ℕ) → x ∈ drop_entry p xs → x ∈ xs
drop-mem p x [] m = m
drop-mem p x (y ∷ ys) m = ground (arith, m, drop-mem p x ys)

pub mid-mem : (p : ℕ) (xs ys : List ℕ) → p ∈ (xs ++ p ∷ ys)
mid-mem p xs ys = ground (arith, has-append p xs (p ∷ ys))

pub front-mem : (x : ℕ) (xs ys : List ℕ) → x ∈ xs → x ∈ (xs ++ ys)
front-mem x xs ys m = ground (arith, m, has-append x xs ys)

module _ (pool : EntryPool) where
  -- The levels hold the queues, and each entry its level and quantity.
  pub record IsBook (a : Side) (ls : List Level) (s : pool.Store) : Type 0 where
    pub level : (i : ℕ) → i < length ls → IsLevel pool s (get_or ls i empty_level) (a.queue i)
    pub at_home : (i p : ℕ) → p ∈ a.queue i → a.home p ≡ i
    pub homes : (p : ℕ) → (pool.entry s p).level_index ≡ a.home p
    pub amounts : (p : ℕ) → (pool.entry s p).quantity ≡ a.amount p
    pub words : (p : ℕ) → a.amount p < 2 ^ 32

  -- One level changes and the entries of the others are as before.
  pub level_set :
      (k : ℕ) (zs : List ℕ) (lvl : Level) (a : Side) (ls : List Level) (s t : pool.Store)
      → IsBook a ls s
      → k < length ls
      → IsLevel pool t lvl zs
      → ((i x : ℕ) → k ≢ i → x ∈ a.queue i → pool.entry t x ≡ pool.entry s x)
      → (i : ℕ) → i < length (set ls k lvl)
      → IsLevel pool t (get_or (set ls k lvl) i empty_level) (update a.queue k zs i)
  level_set k zs lvl a ls s t h small new others i inside = elim (ℕ_discrete k i) [
    | yes same ↦
        rw (← same, update_self a.queue k zs, get_or-set_self ls k lvl empty_level small) new
    | no ne ↦
        rw (update_ne a.queue k i zs ne, get_or-set_ne ls k i lvl empty_level ne)
          (IsLevel-same pool s t (get_or ls i empty_level) (a.queue i) (λ x m. others i x ne m)
            (h.level i (omega (arith, inside, length-set ls k lvl))))
  ]

  pub last_in : (xs : List ℕ) → last_of nil xs ≢ nil → last_of nil xs ∈ xs
  last_in [] full = absurd (full refl)
  last_in (x ∷ xs) full = last_of-mem x xs

  -- Entries of different levels are different.
  pub differ :
      (a : Side) (ls : List Level) (s : pool.Store) (k i x y : ℕ)
      → IsBook a ls s
      → k ≢ i
      → y ∈ a.queue k
      → x ∈ a.queue i
      → y ≢ x
  differ a ls s k i x y h ne there here e =
      ne (sym (h.at_home k y there) ∙ ap a.home e ∙ h.at_home i x here)

  pub append-IsBook :
      (k p : ℕ) (a : Side) (l : Levels) (s : pool.Store)
      → IsBook a l.levels s
      → k < length l.levels
      → p < nil
      → ((i : ℕ) → p ∉ a.queue i)
      → let run = append_to_level pool k p l s in
        IsBook (act (append_call k p) a) run.0.levels run.1
  unfolding append_to_level
  append-IsBook k p a l s h small index out =
      let lvl = get_or l.levels k empty_level in
      let t = (append_to pool k p lvl s).1 in
      let held = h.level k small in
      let home' = append_to-field pool k p lvl s (λ e. e.level_index) k (λ e n. refl) refl in
      let amount' =
        append_to-field pool k p lvl s (λ e. e.quantity) (a.amount p) (λ e n. refl) (h.amounts p) in
      record {
        level =
            level_set k (a.queue k ++ p ∷ []) (append_to pool k p lvl s).0 a l.levels s t h small
              (append_to-IsLevel pool k p s lvl (a.queue k) held (out k) index)
              (λ i x ne m.
                append_to-others pool k p lvl s x (ne_of_mem (a.queue i) (out i) m) λ full e.
                  let tail = held.1.1.0 in
                  differ a l.levels s k i x (last_of nil (a.queue k)) h ne
                    (last_in (a.queue k) (λ none_left. full (tail ∙ none_left))) m (sym tail ∙ e));
        at_home = λ i x m. elim (ℕ_discrete k i) [
          | yes same ↦
              let listed = rw (← same, update_self a.queue k (a.queue k ++ p ∷ [])) at m in
              elim (Bool-cases (p == x)) [
                | inl new ↦ rw new same
                | inr old ↦ rw old (
                    h.at_home k x (ground (arith, old, listed, has-append x (a.queue k) (p ∷ [])))
                    ∙ same)
              ]
          | no ne ↦
              let listed = rw (update_ne a.queue k i (a.queue k ++ p ∷ []) ne) at m in
              update_ne a.home p x k (ne_of_mem (a.queue i) (out i) listed) ∙ h.at_home i x listed
        ];
        homes = λ x.
            home' x
            ∙ elim (Bool-cases (p == x)) [ inl new ↦ rw new refl | inr old ↦ rw old (h.homes x) ];
        amounts = λ x. amount' x ∙ elim (Bool-cases (p == x)) [
          | inl new ↦ let e : p ≡ x = ground arith in rw new (ap a.amount e)
          | inr old ↦ rw old (h.amounts x)
        ];
        words = h.words;
      }
