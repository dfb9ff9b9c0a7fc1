-- ===== src/PriceLevels.antt =====
-- libs/match/PriceLevels.h: the price levels of one side, each a chain of entries of the pool. The
-- pool that it uses (`OrderPool`, whose `operator[]` gives an entry) is not in the repository: it is a
-- parameter, a store of entries under indices.
pub mod Chain
pub mod Fifo
pub mod Unlink
pub mod Prices
pub mod Frames
pub mod Whole
mod Tests
use Prim.Native.Nat.{bit_and}
use scrimmage.Prelude.{
  ℕ, zero, suc, ◌+◌, ◌-◌, ◌*◌, ◌/◌, ◌%◌, ◌^◌, ◌<◌, ◌≡◌, ◌≢◌, map, Bool, true, false, not, Option,
  none, some, List, [], ◌∷◌, ◌==◌, if◌then◌else◌, add_word, sub_word, get_or, set, replicate,
}

-- The fields of an entry that the levels use.
pub record Entry : Type 0 where
  pub level_index : ℕ
  pub next_index : ℕ
  pub quantity : ℕ

-- `pool[i]`, read and written; a write is seen at its index only.
pub record EntryPool : Type 1 where
  pub Store : Type 0
  pub entry : Store → ℕ → Entry
  pub put : ℕ → Entry → Store → Store
  pub entry-put_self : (i : ℕ) (e : Entry) (s : Store) → entry (put i e s) i ≡ e
  pub entry-put_ne : (i j : ℕ) (e : Entry) (s : Store) → i ≢ j → entry (put i e s) j ≡ entry s j

pub record Level : Type 0 where
  pub head : ℕ
  pub tail : ℕ
  pub total_qty : ℕ

-- 0xFFFF, which stands for no entry and for no level.
abbrev pub nil : ℕ
nil = 65535

abbrev pub empty_level : Level
empty_level = record { head = nil; tail = nil; total_qty = 0 }

pub record Levels : Type 0 where
  pub levels : List Level
  pub best_level : ℕ
  pub tick_size : ℕ
  pub ref_price : ℕ

unfoldable pub reset : Levels → Levels
reset l = record l { best_level = nil; ref_price = 0; levels = map (λ lvl. empty_level) (l.levels) }

-- `setBestLevel`, `setReferencePrice` and `setTickSize`.
unfoldable pub set_best_level : ℕ → Levels → Levels
set_best_level lvl l = record l { best_level = lvl }

unfoldable pub set_reference_price : ℕ → Levels → Levels
set_reference_price price l = record l { ref_price = price }

unfoldable pub set_tick_size : ℕ → Levels → Levels
set_tick_size tick_size l = record l { tick_size = tick_size }

-- `priceToLevel` with `MaxLevels`, for a tick size that is not 0.
unfoldable pub price_to_level : (max_levels price : ℕ) → Levels → ℕ
price_to_level max_levels price l =
    bit_and (sub_word 32 price l.ref_price / l.tick_size % 2 ^ 16) ((max_levels - 1) % 2 ^ 16)

unfoldable pub level_to_price : ℕ → Levels → ℕ
level_to_price lvl l = add_word 32 l.ref_price (lvl * l.tick_size % 2 ^ 32)

-- `hasOrders` and `activeLevelCount`.
unfoldable pub active_count : List Level → ℕ
active_count [] = 0
active_count (lvl ∷ rest) =
    let later = active_count rest in if lvl.head == nil then later else suc later

unfoldable pub has_orders : List Level → Bool
has_orders [] = false
has_orders (lvl ∷ rest) = let later = has_orders rest in if lvl.head == nil then later else true

module _ (pool : EntryPool) where
  -- `appendToLevel` on its level `lvl`, number `lvl_idx`.
  unfoldable pub append_to : (lvl_idx pool_idx : ℕ) → Level → pool.Store → Level × pool.Store
  append_to lvl_idx pool_idx lvl s =
      let placed =
        pool.put pool_idx
          (record (pool.entry s pool_idx) { level_index = lvl_idx; next_index = nil }) s in
      let linked =
        pool.put (lvl.tail) (record (pool.entry placed (lvl.tail)) { next_index = pool_idx })
          placed in
      let t = if lvl.tail == nil then placed else linked in
      let total = add_word 32 (lvl.total_qty) (pool.entry t pool_idx).quantity in
      (
        record {
          head = if lvl.tail == nil then pool_idx else lvl.head;
          tail = pool_idx;
          total_qty = total;
        },
        t,
      )

  -- The body of the loop of `unlinkFromLevel` where it finds the entry, `prev` behind it.
  unfoldable pub cut : (prev idx : ℕ) → Level → pool.Store → Level × pool.Store
  cut prev idx lvl s =
      let next = (pool.entry s idx).next_index in
      let bridged = pool.put prev (record (pool.entry s prev) { next_index = next }) s in
      let t = if prev == nil then s else bridged in
      let lvl' : Level = record {
        head = if prev == nil then next else lvl.head;
        tail = if lvl.tail == idx then prev else lvl.tail;
        total_qty = sub_word 32 (lvl.total_qty) (pool.entry t idx).quantity;
      } in
      (lvl', pool.put idx (record (pool.entry t idx) { next_index = nil }) t)

  -- The loop: `none` if the fuel runs out.
  unfoldable pub unlink_loop :
      ℕ → (pool_idx prev idx : ℕ) → Level → pool.Store → Option (Bool × (Level × pool.Store))
  unfolding cut
  unlink_loop zero pool_idx prev idx lvl s = none
  unlink_loop (suc fuel) pool_idx prev idx lvl s =
      let later = unlink_loop fuel pool_idx idx (pool.entry s idx).next_index lvl s in
      let done = cut prev idx lvl s in
      if idx == nil
      then some (false, (lvl, s))
      else if idx == pool_idx
      then some ((done.0).head == nil, done)
      else later

  unfoldable pub unlink_from :
      ℕ → (pool_idx : ℕ) → Level → pool.Store → Option (Bool × (Level × pool.Store))
  unfolding unlink_loop
  unlink_from fuel pool_idx lvl s = unlink_loop fuel pool_idx nil (lvl.head) lvl s

  -- `appendToLevel`, `unlinkFromLevel` and `reduceQuantity` on the array of levels.
  unfoldable pub append_to_level :
      (lvl_idx pool_idx : ℕ) → Levels → pool.Store → Levels × pool.Store
  unfolding append_to
  append_to_level lvl_idx pool_idx l s =
      let run = append_to lvl_idx pool_idx (get_or (l.levels) lvl_idx empty_level) s in
      (record l { levels = set (l.levels) lvl_idx run.0 }, run.1)

  unfoldable pub unlink_from_level :
      ℕ → (pool_idx : ℕ) → Levels → pool.Store → Option (Bool × (Levels × pool.Store))
  unfolding unlink_from
  unlink_from_level fuel pool_idx l s =
      let lvl_idx = (pool.entry s pool_idx).level_index in
      elim (unlink_from fuel pool_idx (get_or (l.levels) lvl_idx empty_level) s) [
        | none ↦ none
        | some (empty, (lvl, t)) ↦
            some (empty, (record l { levels = set (l.levels) lvl_idx lvl }, t))
      ]

  unfoldable pub reduce_quantity : (pool_idx qty : ℕ) → Levels → pool.Store → Levels × pool.Store
  reduce_quantity pool_idx qty l s =
      let e = pool.entry s pool_idx in
      let lvl = get_or (l.levels) (e.level_index) empty_level in
      let left = record lvl { total_qty = sub_word 32 (lvl.total_qty) qty } in
      (
        record l { levels = set (l.levels) (e.level_index) left },
        pool.put pool_idx (record e { quantity = sub_word 32 (e.quantity) qty }) s,
      )
