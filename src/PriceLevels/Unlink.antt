-- ===== src/PriceLevels/Unlink.antt =====
-- `unlinkFromLevel` of libs/match/PriceLevels.h: the walk to the entry, and what it leaves.
use scrimmage.Prelude.{
  ℕ, zero, suc, ◌%◌, ◌^◌, ◌<◌, ◌≡◌, ◌≢◌, refl, sym, ap, subst, ◌∙◌, inl, inr, Bool, true, false,
  Option, none, some, List, [], ◌∷◌, ◌++◌, arith, ◌==◌, if◌then◌else◌, sub_word, ◌∈◌, ◌∉◌,
  AreDistinct, ne_of_mem, Bool-cases, length, has-append,
}
use scrimmage.PriceLevels.{EntryPool, Level, nil, cut, unlink_loop, unlink_from}
use scrimmage.PriceLevels.Chain.{
  Chain, last_of, last_of-mem, Chain-same, Chain-relink, Chain-append, Chain-split,
}
use scrimmage.PriceLevels.Fifo.{
  next_of, sum_of, IsLevel, put-quantity, sum_same, sum-append, last_of-lt,
}

abbrev pub is_nil : List ℕ → Bool
is_nil [] = true
is_nil (x ∷ xs) = false

-- A list with no repetition, cut at one of its members.
pub distinct_around :
    (xs ys : List ℕ) (p : ℕ)
    → AreDistinct (xs ++ (p ∷ ys))
    → (p ∉ xs) × ((p ∉ ys) × AreDistinct (xs ++ ys))
distinct_around [] ys p d = (refl, (d.0, d.1))
distinct_around (x ∷ xs) ys p d =
    let rest = distinct_around xs ys p d.1 in
    let split = has-append x xs (p ∷ ys) in
    let split' = has-append x xs ys in
    (ground (arith, rest.0, d.0, split), (rest.1.0, (ground (arith, d.0, split, split'), rest.1.1)))

last_of-append : (d p : ℕ) (xs ys : List ℕ) → last_of d (xs ++ (p ∷ ys)) ≡ last_of p ys
last_of-append d p [] ys = refl
last_of-append d p (x ∷ xs) ys = last_of-append x p xs ys

module _ (pool : EntryPool) (p : ℕ) where
  -- What the loop ends with where the entry behind `prev` is the one that is looked for.
  abbrev pub found : ℕ → Level → pool.Store → Option (Bool × (Level × pool.Store))
  found prev lvl s = let done = cut pool prev p lvl s in some ((done.0).head == nil, done)

  pub unlink_loop_lem :
      (fuel prev i : ℕ) (lvl : Level) (s : pool.Store) (xs ys : List ℕ)
      → Chain (next_of pool s) i (xs ++ (p ∷ ys)) nil
      → p ∉ xs
      → length xs < fuel
      → unlink_loop pool fuel p prev i lvl s ≡ found (last_of prev xs) lvl s
  unfolding unlink_loop
  unlink_loop_lem zero prev i lvl s xs ys h out enough = absurd (omega arith)
  unlink_loop_lem (suc fuel) prev i lvl s [] ys h out enough =
      let inside : (p == nil) ≡ false = let small = h.1.0 in ground arith in
      let same : (p == p) ≡ true = ground arith in
      subst (λ n. unlink_loop pool (suc fuel) p prev n lvl s ≡ found prev lvl s) (sym h.0)
        (rw (inside, same) refl)
  unlink_loop_lem (suc fuel) prev i lvl s (x ∷ xs) ys h out enough =
      let inside : (x == nil) ≡ false = let small = h.1.0 in ground arith in
      let other : (x == p) ≡ false = ground arith in
      let ih =
        unlink_loop_lem fuel x (next_of pool s x) lvl s xs ys h.1.1 (ground arith) (omega arith) in
      subst (λ n. unlink_loop pool (suc fuel) p prev n lvl s ≡ found (last_of x xs) lvl s) (sym h.0)
        (rw (inside, other) ih)

distinct_front : (xs ys : List ℕ) → AreDistinct (xs ++ ys) → AreDistinct xs
distinct_front [] ys d = tt
distinct_front (x ∷ xs) ys d = (ground (arith, d.0, has-append x xs ys), distinct_front xs ys d.1)

distinct_apart : (a : ℕ) (xs ys : List ℕ) → AreDistinct (xs ++ ys) → a ∈ xs → a ∉ ys
distinct_apart a [] ys d m = cc
distinct_apart a (x ∷ xs) ys d m = elim (Bool-cases (a == x)) [
  | inl same ↦
      let e : x ≡ a = ground arith in
      subst (λ n. n ∉ ys) e (ground (arith, d.0, has-append x xs ys))
  | inr other ↦ distinct_apart a xs ys d.1 (ground arith)
]

last_of-join : (d : ℕ) (xs ys : List ℕ) → last_of d (xs ++ ys) ≡ last_of (last_of d xs) ys
last_of-join d [] ys = refl
last_of-join d (x ∷ xs) ys = last_of-join x xs ys

tail_lem :
    (t d p : ℕ) (ys : List ℕ) → t ≡ last_of p ys → p ∉ ys → (if t == p then d else t) ≡ last_of d ys
tail_lem t d p [] e out = ground arith
tail_lem t d p (y ∷ ys) e out =
    let apart : p ≢ last_of y ys = ne_of_mem (y ∷ ys) out (last_of-mem y ys) in
    ground (arith, apart)

module _ (pool : EntryPool) (p : ℕ) (s : pool.Store) where
  -- The link of `p` cleared.
  abbrev cleared : pool.Store → pool.Store
  cleared t = pool.put p (record (pool.entry t p) { next_index = nil }) t

  cleared-Chain :
      (t : pool.Store) (i e : ℕ) (xs : List ℕ)
      → p ∉ xs
      → Chain (next_of pool t) i xs e
      → Chain (next_of pool (cleared t)) i xs e
  cleared-Chain t i e xs out h =
      Chain-same (next_of pool t) (next_of pool (cleared t)) i e xs
        (λ j m. sym (
          ap (λ y. y.next_index)
            (pool.entry-put_ne p j (record (pool.entry t p) { next_index = nil }) t
              (ne_of_mem xs out m))))
        h

  -- The entry `b` linked to the one behind `p`.
  abbrev bridged : ℕ → pool.Store
  bridged b = pool.put b (record (pool.entry s b) { next_index = next_of pool s p }) s

  bridged-quantity : (b j : ℕ) → (pool.entry (bridged b) j).quantity ≡ (pool.entry s j).quantity
  bridged-quantity b j =
      put-quantity pool b j (record (pool.entry s b) { next_index = next_of pool s p }) s refl

  cleared-quantity :
      (t : pool.Store) (j : ℕ) → (pool.entry (cleared t) j).quantity ≡ (pool.entry t j).quantity
  cleared-quantity t j = put-quantity pool p j (record (pool.entry t p) { next_index = nil }) t refl

  total_lem :
      (t : pool.Store) (xs ys : List ℕ) (total : ℕ)
      → ((j : ℕ) → (pool.entry t j).quantity ≡ (pool.entry s j).quantity)
      → (pool.entry s p).quantity < 2 ^ 32
      → total ≡ sum_of pool s (xs ++ (p ∷ ys)) % 2 ^ 32
      → sub_word 32 total (pool.entry t p).quantity ≡ sum_of pool (cleared t) (xs ++ ys) % 2 ^ 32
  total_lem t xs ys total same small h =
      let left = sum_same pool s (cleared t) (xs ++ ys) (λ j. cleared-quantity t j ∙ same j) in
      let before = sum-append pool s xs (p ∷ ys) in
      let behind = sum-append pool s xs ys in
      let here = same p in omega (arith, left, before, behind, here, h, small)

  bridged-Chain :
      (i x : ℕ) (xs ys : List ℕ)
      → AreDistinct ((x ∷ xs) ++ ys)
      → Chain (next_of pool s) i (x ∷ xs) p
      → Chain (next_of pool s) (next_of pool s p) ys nil
      → Chain (next_of pool (bridged (last_of x xs))) i ((x ∷ xs) ++ ys) nil
  bridged-Chain i x xs ys d front back =
      let b = last_of x xs in
      let written = record (pool.entry s b) { next_index = next_of pool s p } in
      let out : b ∉ ys = distinct_apart b (x ∷ xs) ys d (last_of-mem x xs) in
      let front' =
        Chain-relink (next_of pool s) (next_of pool (bridged b)) i p (next_of pool s p) x xs
          (distinct_front (x ∷ xs) ys d)
          (λ j ne.
            sym (ap (λ y. y.next_index) (pool.entry-put_ne b j written s (λ eq. ne (sym eq)))))
          (ap (λ y. y.next_index) (pool.entry-put_self b written s)) front in
      let back' =
        Chain-same (next_of pool s) (next_of pool (bridged b)) (next_of pool s p) nil ys
          (λ j m.
            sym (ap (λ y. y.next_index) (pool.entry-put_ne b j written s (ne_of_mem ys out m))))
          back in
      Chain-append (next_of pool (bridged b)) i (next_of pool s p) nil (x ∷ xs) ys front' back'

  -- What `cut` makes of a level, from the store in which the link around `p` is made.
  abbrev shrunk : Level → (head prev : ℕ) → pool.Store → Level × pool.Store
  shrunk lvl head prev t = (
    record {
      head = head;
      tail = if lvl.tail == p then prev else lvl.tail;
      total_qty = sub_word 32 lvl.total_qty (pool.entry t p).quantity;
    },
    cleared t,
  )

  cut-first : (lvl : Level) → cut pool nil p lvl s ≡ shrunk lvl (next_of pool s p) nil s
  unfolding cut
  cut-first lvl = refl

  cut-later :
      (lvl : Level) (prev : ℕ)
      → prev < nil
      → cut pool prev p lvl s ≡ shrunk lvl lvl.head prev (bridged prev)
  unfolding cut
  cut-later lvl prev small = let inside : (prev == nil) ≡ false = ground arith in rw inside refl

  pub cut-IsLevel :
      (lvl : Level) (xs ys : List ℕ)
      → IsLevel pool s lvl (xs ++ (p ∷ ys))
      → (pool.entry s p).quantity < 2 ^ 32
      → let done = cut pool (last_of nil xs) p lvl s in IsLevel pool done.1 done.0 (xs ++ ys)
  cut-IsLevel lvl [] ys h small =
      let around = distinct_around [] ys p h.0 in
      subst (λ r. IsLevel pool r.1 r.0 ys) (sym (cut-first lvl))
        (
          around.1.1,
          (
            cleared-Chain s (next_of pool s p) nil ys around.1.0 h.1.0.1.1,
            (
              tail_lem lvl.tail nil p ys h.1.1.0 around.1.0,
              total_lem s [] ys lvl.total_qty (λ j. refl) small h.1.1.1,
            ),
          ),
        )
  cut-IsLevel lvl (x ∷ xs) ys h small =
      let around = distinct_around (x ∷ xs) ys p h.0 in
      let b = last_of x xs in
      let parts = Chain-split (next_of pool s) lvl.head nil p (x ∷ xs) ys h.1.0 in
      let inside = last_of-lt pool (next_of pool s) lvl.head p x xs parts.0 in
      let out : p ∉ ((x ∷ xs) ++ ys) =
        ground (arith, has-append p (x ∷ xs) ys, around.0, around.1.0) in
      let tail = h.1.1.0 ∙ last_of-append nil p (x ∷ xs) ys in
      subst (λ r. IsLevel pool r.1 r.0 ((x ∷ xs) ++ ys)) (sym (cut-later lvl b inside))
        (
          around.1.1,
          (
            cleared-Chain (bridged b) lvl.head nil ((x ∷ xs) ++ ys) out
                (bridged-Chain lvl.head x xs ys around.1.1 parts.0 parts.1.1),
            (
              tail_lem lvl.tail b p ys tail around.1.0 ∙ sym (last_of-join nil (x ∷ xs) ys),
              total_lem (bridged b) (x ∷ xs) ys lvl.total_qty (bridged-quantity b) small h.1.1.1,
            ),
          ),
        )

  pub head_lem : (f : ℕ → ℕ) (i : ℕ) (xs : List ℕ) → Chain f i xs nil → (i == nil) ≡ is_nil xs
  head_lem f i [] h = ground (arith, h)
  head_lem f i (x ∷ xs) h = ground (arith, h.0, h.1.0)

  -- The answer of `unlinkFromLevel` that leaves the entries `xs`.
  abbrev pub Leaves : List ℕ → Option (Bool × (Level × pool.Store)) → Type 0
  Leaves xs none = ⊥
  Leaves xs (some (empty, (lvl, t))) = (empty ≡ is_nil xs) × IsLevel pool t lvl xs

  -- `unlinkFromLevel` of an entry of the level, with more rounds than entries stand in front of it,
  -- ends; it leaves the level with its other entries in their order, their tail and their total, and
  -- answers whether none is left.
  pub unlink_from-Leaves :
      (fuel : ℕ) (lvl : Level) (xs ys : List ℕ)
      → IsLevel pool s lvl (xs ++ (p ∷ ys))
      → (pool.entry s p).quantity < 2 ^ 32
      → length xs < fuel
      → Leaves (xs ++ ys) (unlink_from pool fuel p lvl s)
  unfolding unlink_from
  unlink_from-Leaves fuel lvl xs ys h small enough =
      let around = distinct_around xs ys p h.0 in
      let walked = unlink_loop_lem pool p fuel nil lvl.head lvl s xs ys h.1.0 around.0 enough in
      let done = cut pool (last_of nil xs) p lvl s in
      let left = cut-IsLevel lvl xs ys h small in
      subst (Leaves (xs ++ ys)) (sym walked)
        (head_lem (next_of pool done.1) done.0.head (xs ++ ys) left.1.0, left)
