-- ===== src/PriceLevels/Whole/Shrink.antt =====
-- Unlinking and reducing an entry of libs/match/PriceLevels.h among all levels.
use scrimmage.Prelude.{
  ℕ, ◌+◌, ◌-◌, ◌≤◌, ◌<◌, ◌≡◌, ◌≢◌, refl, sym, ap, subst, ◌∙◌, inl, inr, Bool, some, List, [], ◌∷◌,
  ◌++◌, arith, ◌==◌, if◌then◌else◌, ◌∈◌, AreDistinct, Bool-cases, length, length-append, length-set,
  has, set, get_or, update, update_self, update_ne, sub_word,
}
use native.Mathlib.Decide.{ℕ_discrete}
use scrimmage.PriceLevels.{
  Entry, EntryPool, Level, Levels, nil, empty_level, cut, unlink_from, unlink_from_level,
  reduce_quantity,
}
use scrimmage.PriceLevels.Chain.{last_of, Chain-same}
use scrimmage.PriceLevels.Fifo.{next_of, sum_of, IsLevel}
use scrimmage.PriceLevels.Unlink.{
  distinct_around, found, unlink_loop_lem, cut-IsLevel, head_lem, is_nil,
}
use scrimmage.PriceLevels.Frames.{
  get_or-set_self, get_or-set_ne, put-field, put-field_kept, IsLevel-same, cut-others, cut-field,
}
use scrimmage.PriceLevels.Whole.{
  Side, drop_entry, unlink_call, reduce_call, act, IsBook, level_set, last_in, differ, drop-mem,
  mid-mem, front-mem, split_at,
}

module _ (pool : EntryPool) where
  unlink_from-found :
      (fuel p : ℕ) (lvl : Level) (s : pool.Store) (xs ys : List ℕ)
      → IsLevel pool s lvl (xs ++ p ∷ ys)
      → length xs < fuel
      → unlink_from pool fuel p lvl s ≡ found pool p (last_of nil xs) lvl s
  unfolding unlink_from
  unlink_from-found fuel p lvl s xs ys h enough =
      unlink_loop_lem pool p fuel nil lvl.head lvl s xs ys h.1.0 (distinct_around xs ys p h.0).0
        enough

  -- The state behind the cut of an entry.
  cut-IsBook :
      (p : ℕ) (xs ys : List ℕ) (a : Side) (l : Levels) (s : pool.Store)
      → IsBook pool a l.levels s
      → a.home p < length l.levels
      → a.queue (a.home p) ≡ xs ++ p ∷ ys
      → drop_entry p (a.queue (a.home p)) ≡ xs ++ ys
      → let done = cut pool (last_of nil xs) p (get_or l.levels (a.home p) empty_level) s in
        IsBook pool (act (unlink_call p) a) (set l.levels (a.home p) done.0) done.1
  cut-IsBook p xs ys a l s h small eq dropped =
      let k = a.home p in
      let lvl = get_or l.levels k empty_level in
      let held = subst (IsLevel pool s lvl) eq (h.level k small) in
      let done = cut pool (last_of nil xs) p lvl s in
      let gone : (x : ℕ) → x ∈ drop_entry p (a.queue k) → x ∈ a.queue k =
        λ x m. drop-mem p x (a.queue k) m in
      let own : p ∈ a.queue k = rw eq (mid-mem p xs ys) in
      let kept = cut-IsLevel pool p s lvl xs ys held (rw (h.amounts p) (h.words p)) in
      record {
        level =
            level_set pool k (drop_entry p (a.queue k)) done.0 a l.levels s done.1 h small
              (subst (IsLevel pool done.1 done.0) (sym dropped) kept)
              (λ i x ne m.
                cut-others pool (last_of nil xs) p lvl s x
                  (differ pool a l.levels s k i x p h ne own m)
                  (λ full e.
                    differ pool a l.levels s k i x (last_of nil xs) h ne
                      (rw eq (front-mem (last_of nil xs) xs (p ∷ ys) (last_in pool xs full))) m e));
        at_home = λ i x m. elim (ℕ_discrete k i) [
          | yes same ↦
              let listed = rw (← same, update_self a.queue k (drop_entry p (a.queue k))) at m in
              h.at_home k x (gone x listed) ∙ same
          | no ne ↦ h.at_home i x (rw (update_ne a.queue k i (drop_entry p (a.queue k)) ne) at m)
        ];
        homes = λ x.
            cut-field pool (last_of nil xs) p lvl s (λ e. e.level_index) (λ e n. refl) x
            ∙ h.homes x;
        amounts = λ x.
            cut-field pool (last_of nil xs) p lvl s (λ e. e.quantity) (λ e n. refl) x ∙ h.amounts x;
        words = h.words;
      }

  unlink_level_lem :
      (fuel p j : ℕ) (l : Levels) (s t : pool.Store) (b : Bool) (lvl : Level)
      → (pool.entry s p).level_index ≡ j
      → unlink_from pool fuel p (get_or l.levels j empty_level) s ≡ some (b, (lvl, t))
      → unlink_from_level pool fuel p l s ≡ some (b, (record l { levels = set l.levels j lvl }, t))
  unfolding unlink_from_level
  unlink_level_lem fuel p j l s t b lvl at =
      subst
        (λ i.
          unlink_from pool fuel p (get_or l.levels i empty_level) s ≡ some (b, (lvl, t))
          → unlink_from_level pool fuel p l s
            ≡ some (b, (record l { levels = set l.levels i lvl }, t)))
        at (λ ran. rw (unlink_from_level, ran) refl)

  -- `unlinkFromLevel` of a listed entry, with as many rounds as its level has entries: it ends, the
  -- entry has left its level, and the answer is whether the level is empty.
  pub unlink-IsBook :
      (fuel p : ℕ) (a : Side) (l : Levels) (s : pool.Store)
      → IsBook pool a l.levels s
      → a.home p < length l.levels
      → p ∈ a.queue (a.home p)
      → length (a.queue (a.home p)) ≤ fuel
      → (l' : Levels) × (t : pool.Store) × (unlink_from_level pool fuel p l s
          ≡ some (is_nil (drop_entry p (a.queue (a.home p))), (l', t)))
        × (length l'.levels ≡ length l.levels)
        × IsBook pool (act (unlink_call p) a) l'.levels t
  unfolding unlink_from_level
  unlink-IsBook fuel p a l s h small own enough =
      let k = a.home p in
      let lvl = get_or l.levels k empty_level in
      let (xs, ys, eq, dropped) = split_at p (a.queue k) own in
      let held = subst (IsLevel pool s lvl) eq (h.level k small) in
      let done = cut pool (last_of nil xs) p lvl s in
      let short : length xs < fuel =
        omega (arith, enough, ap length eq, length-append xs (p ∷ ys)) in
      let walked = unlink_from-found fuel p lvl s xs ys held short in
      let kept = cut-IsLevel pool p s lvl xs ys held (rw (h.amounts p) (h.words p)) in
      let empty =
        head_lem pool p s (next_of pool done.1) done.0.head (xs ++ ys) kept.1.0
        ∙ ap is_nil (sym dropped) in
      (
        record l { levels = set l.levels k done.0 },
        done.1,
        unlink_level_lem fuel p k l s done.1 (is_nil (drop_entry p (a.queue k))) done.0 (h.homes p)
            (walked ∙ ap (λ b. some (b, done)) empty),
        length-set l.levels k done.0,
        cut-IsBook p xs ys a l s h small eq dropped,
      )

  -- The quantities of a level in which one entry is reduced.
  sum_reduced :
      (p n : ℕ) (s t : pool.Store) (xs : List ℕ)
      → ((x : ℕ) → p ≢ x → (pool.entry t x).quantity ≡ (pool.entry s x).quantity)
      → (pool.entry t p).quantity + n ≡ (pool.entry s p).quantity
      → AreDistinct xs
      → sum_of pool t xs + (if has p xs then n else 0) ≡ sum_of pool s xs
  sum_reduced p n s t [] others here d = omega arith
  sum_reduced p n s t (x ∷ xs) others here d =
      let ih = sum_reduced p n s t xs others here d.1 in
      elim (ℕ_discrete p x) [
        | yes same ↦ rw (← same) (ground (arith, ih, here, rw (← same) at d.0))
        | no ne ↦ ground (arith, ih, others x ne, ne)
      ]

  module _ (p n : ℕ) (a : Side) (l : Levels) (s : pool.Store) (h : IsBook pool a l.levels s)
      (small : a.home p < length l.levels) (own : p ∈ a.queue (a.home p))
      (fits : n ≤ a.amount p) where
    abbrev less : Entry
    less = record (pool.entry s p) { quantity = sub_word 32 (pool.entry s p).quantity n }

    abbrev after : pool.Store
    after = pool.put p less s

    abbrev its_level : Level
    its_level = get_or l.levels (a.home p) empty_level

    abbrev level_less : Level
    level_less = record its_level { total_qty = sub_word 32 its_level.total_qty n }

    less_lem : less.quantity ≡ a.amount p - n
    less_lem = omega (arith, h.amounts p, h.words p, fits)

    amount_lem : (x : ℕ) → (pool.entry after x).quantity ≡ update a.amount p (a.amount p - n) x
    amount_lem x = put-field pool (λ e. e.quantity) p x less s ∙ elim (Bool-cases (p == x)) [
      | inl same ↦ rw same less_lem
      | inr other ↦ rw other (h.amounts x)
    ]

    level_less-IsLevel : IsLevel pool after level_less (a.queue (a.home p))
    level_less-IsLevel =
        let held = h.level (a.home p) small in
        let here : (pool.entry after p).quantity + n ≡ (pool.entry s p).quantity =
          omega
            (arith, amount_lem p ∙ update_self a.amount p (a.amount p - n), h.amounts p, fits) in
        let sum =
          sum_reduced p n s after (a.queue (a.home p))
            (λ x ne. ap (λ e. e.quantity) (pool.entry-put_ne p x less s ne)) here held.0 in
        (
          held.0,
          (
            Chain-same (next_of pool s) (next_of pool after) its_level.head nil (a.queue (a.home p))
                (λ x m. sym (put-field_kept pool (λ e. e.next_index) p x less s refl)) held.1.0,
            (held.1.1.0, omega (arith, rw own at sum, held.1.1.1, h.words p, fits)),
          ),
        )

    -- `reduceQuantity` of a listed entry by no more than it has.
    pub reduce-IsBook :
        let run = reduce_quantity pool p n l s in
        (length run.0.levels ≡ length l.levels)
        × IsBook pool (act (reduce_call p n) a) run.0.levels run.1
    unfolding reduce_quantity
    reduce-IsBook =
        subst
          (λ j.
            let left = set l.levels j (record (get_or l.levels j empty_level) {
              total_qty = sub_word 32 (get_or l.levels j empty_level).total_qty n;
            }) in
            (length left ≡ length l.levels) × IsBook pool (act (reduce_call p n) a) left after)
          (sym (h.homes p))
          (
            length-set l.levels (a.home p) level_less,
            record {
              level = λ i inside. elim (ℕ_discrete (a.home p) i) [
                | yes same ↦
                    rw (← same, get_or-set_self l.levels (a.home p) level_less empty_level small)
                      level_less-IsLevel
                | no ne ↦ rw (get_or-set_ne l.levels (a.home p) i level_less empty_level ne) (
                    IsLevel-same pool s after (get_or l.levels i empty_level) (a.queue i)
                      (λ x m.
                        pool.entry-put_ne p x less s
                          (differ pool a l.levels s (a.home p) i x p h ne own m))
                      (h.level i
                        (omega (arith, inside, length-set l.levels (a.home p) level_less))))
              ];
              at_home = h.at_home;
              homes = λ x. put-field_kept pool (λ e. e.level_index) p x less s refl ∙ h.homes x;
              amounts = amount_lem;
              words = λ x. ground (arith, h.words x, h.words p);
            },
          )
