-- ===== src/Orders/Pool.antt =====
-- libs/match/OrderPool.h, `OrderBookPool`: entries, the free ones chained through `nextFreeIndex`.
use scrimmage.Prelude.{
  ℕ, zero, suc, ◌+◌, ◌-◌, ◌^◌, ◌≤◌, ◌<◌, ◌≡◌, ◌≢◌, refl, sym, ap, ◌∙◌, true, false, List, [], ◌∷◌,
  arith, ◌==◌, if◌then◌else◌, update,
}
use scrimmage.Orders.{Entry, empty_order, reset}

pub record Pool : Type 0 where
  pub entries : ℕ → Entry
  pub free_index : ℕ

-- `NO_FREE_INDEX`.
abbrev pub no_free : ℕ
no_free = 2 ^ 64 - 1

-- The constructor; `junk` is what the memory of a symbol holds.
unfoldable pub init : (junk : List ℕ) → (max_orders : ℕ) → Pool
init junk max_orders = record {
  entries = λ i. record {
    order = empty_order junk;
    next_free = if i == (max_orders - 1) then no_free else i + 1;
  };
  free_index = 0;
}

unfoldable pub allocate : Pool → ℕ × Pool
allocate p =
    if p.free_index == no_free
    then (no_free, p)
    else (p.free_index, record p { free_index = (p.entries p.free_index).next_free })

unfoldable pub free : (junk : List ℕ) → ℕ → Pool → Pool
free junk idx p =
    let linked = record p {
      entries = update p.entries idx (record (p.entries idx) { next_free = p.free_index });
    } in
    let taken = record linked { free_index = idx } in
    record taken { entries = update taken.entries idx (reset junk (taken.entries idx)) }

-- The results of `n` calls of `allocate`, and the pool behind them.
unfoldable pub allocate_many : ℕ → Pool → List ℕ × Pool
allocate_many zero p = ([], p)
allocate_many (suc n) p =
    let (idx, q) = allocate p in let (later, r) = allocate_many n q in (idx ∷ later, r)

-- The numbers `i, ..., i + n - 1`.
abbrev pub range : ℕ → ℕ → List ℕ
range i zero = []
range i (suc n) = i ∷ range (i + 1) n

module _ (junk : List ℕ) (max_orders : ℕ) where
  -- The pool of which the first `i` entries are handed out.
  abbrev from : ℕ → Pool
  from i = record (init junk max_orders) { free_index = if i == max_orders then no_free else i }

  allocate-from :
      (i : ℕ) → i < max_orders → max_orders < no_free → allocate (from i) ≡ (i, from (i + 1))
  unfolding allocate init
  allocate-from i small word =
      let inside : (i == max_orders) ≡ false = ground arith in
      let index : (i == no_free) ≡ false = ground arith in
      let last : (i == (max_orders - 1)) ≡ (i + 1 == max_orders) = ground arith in
      rw (inside, index, last) refl

  allocate_many-from :
      (n i : ℕ)
      → i + n ≤ max_orders
      → max_orders < no_free
      → allocate_many n (from i) ≡ (range i n, from (i + n))
  unfolding allocate_many
  allocate_many-from zero i fits word = let e : i + 0 ≡ i = omega arith in rw e refl
  allocate_many-from (suc n) i fits word =
      let e : i + 1 + n ≡ i + suc n = omega arith in
      rw (allocate-from i (omega arith) word, allocate_many-from n (i + 1) (omega arith) word, e)
        refl

  first_of-init : 0 < max_orders → from 0 ≡ init junk max_orders
  unfolding init
  first_of-init some_orders =
      let nonzero : (0 == max_orders) ≡ false = ground arith in
      let start : (if 0 == max_orders then no_free else 0) ≡ 0 = rw nonzero refl in
      ap (λ n. record (init junk max_orders) { free_index = n }) start

  allocate-used_up : allocate (from max_orders) ≡ (no_free, from max_orders)
  unfolding allocate
  allocate-used_up = let same : (max_orders == max_orders) ≡ true = ground arith in rw same refl

  -- A new pool hands out each of its entries once, in order, and then `NO_FREE_INDEX`.
  pub allocate_many-init :
      0 < max_orders
      → max_orders < no_free
      → let run = allocate_many max_orders (init junk max_orders) in
        (run.0 ≡ range 0 max_orders) × (allocate run.1 ≡ (no_free, run.1))
  allocate_many-init some_orders word =
      let e : 0 + max_orders ≡ max_orders = omega arith in
      let all =
        ap (allocate_many max_orders) (sym (first_of-init some_orders))
        ∙ allocate_many-from max_orders 0 (omega arith) word in
      rw (all, e) (refl, allocate-used_up)

-- `free` resets the entry behind linking it, so the link is lost: of the next two calls of `allocate`
-- the first hands out the freed entry and the second entry 0, whatever the pool had free, even where
-- entry 0 is in use or nothing else is free.
pub free_loses :
    (junk : List ℕ) (idx : ℕ) (p : Pool)
    → idx ≢ no_free
    → (allocate_many 2 (free junk idx p)).0 ≡ idx ∷ 0 ∷ []
unfolding allocate_many allocate free reset
free_loses junk idx p some_index =
    let index : (idx == no_free) ≡ false = ground arith in
    let self : (idx == idx) ≡ true = ground arith in rw (index, self) refl
