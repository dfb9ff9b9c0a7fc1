-- ===== src/Orders/Slots.antt =====
-- libs/match/OrderMap.h: from an order's number to the index of its entry in the pool.
pub mod Table
use Prim.Native.Nat.{bit_and}
use scrimmage.Prelude.{
  ℕ, ◌-◌, ◌%◌, ◌^◌, ◌≤◌, ◌<◌, ◌≡◌, ◌≢◌, refl, inl, inr, Bool, true, false, not, arith, ◌==◌,
  if◌then◌else◌, Bool-cases, update, update_self, update_ne,
}

pub record MapValue : Type 0 where
  pub pool_index : ℕ
  pub side : ℕ

-- `NONE`, and an entry of the map that is free.
abbrev pub no_index : ℕ
no_index = 65535

abbrev pub free_slot : MapValue
free_slot = record { pool_index = no_index; side = 0 }

-- The array `_map`.
abbrev pub OrderMap : Type 0
OrderMap = ℕ → MapValue

-- `reset`, and the constructor.
abbrev pub reset : OrderMap
reset i = free_slot

module _ (map_size : ℕ) where
  -- `orderId & MASK`.
  unfoldable pub slot : ℕ → ℕ
  slot order_id = bit_and order_id (map_size - 1)

  unfoldable pub insert : (order_id pool_index side : ℕ) → OrderMap → Bool × OrderMap
  unfolding slot
  insert order_id pool_index side m =
      let idx = slot order_id % 2 ^ 16 in
      if not ((m idx).pool_index == no_index)
      then (false, m)
      else (true, update m idx (record { pool_index = pool_index; side = side }))

  unfoldable pub erase : (order_id : ℕ) → OrderMap → OrderMap
  unfolding slot
  erase order_id m = update m (slot order_id % 2 ^ 16) free_slot

  unfoldable pub find : (order_id : ℕ) → OrderMap → MapValue
  unfolding slot
  find order_id m = m (slot order_id)

  -- Of an order whose slot is below 65536: where the slot is free, `insert` succeeds, `find` gives
  -- what was inserted, and for a number in another slot what it gave before; where the slot is
  -- taken, `insert` fails and changes nothing.
  pub insert-find :
      (order_id other pool_index side : ℕ) (m : OrderMap)
      → slot order_id < 65536
      → let run = insert order_id pool_index side m in
        if (find order_id m).pool_index == no_index
        then (run.0 ≡ true)
          × ((find order_id run.1 ≡ record { pool_index = pool_index; side = side })
              × (slot order_id ≢ slot other → find other run.1 ≡ find other m))
        else (run ≡ (false, m))
  unfolding insert find
  insert-find order_id other pool_index side m small =
      let idx : slot order_id % 2 ^ 16 ≡ slot order_id = omega arith in
      elim (Bool-cases ((m (slot order_id)).pool_index == no_index)) [
        | inl free ↦
            rw (idx, free)
              (
                refl,
                (
                  update_self m (slot order_id) (record { pool_index = pool_index; side = side }),
                  update_ne m (slot order_id) (slot other)
                      (record { pool_index = pool_index; side = side }),
                ),
              )
        | inr taken ↦ rw (idx, taken) refl
      ]

  -- `erase` does not look at which order a slot holds: with the number of any order of the same slot
  -- it erases the order that was inserted, and the slot can be taken again.
  pub erase_shared :
      (order_id other pool_index side : ℕ) (m : OrderMap)
      → slot order_id < 65536
      → slot other ≡ slot order_id
      → find order_id (erase other (insert order_id pool_index side m).1) ≡ free_slot
  unfolding find erase
  erase_shared order_id other pool_index side m small same =
      let idx : slot order_id % 2 ^ 16 ≡ slot order_id = omega arith in
      rw (same, idx) (update_self (insert order_id pool_index side m).1 (slot order_id) free_slot)

  -- In a map of more than 65536 entries `insert` cuts the slot to 16 bits and `find` does not: of an
  -- order whose slot is 65536 or above `find` gives after `insert` what it gave before.
  pub insert_lost :
      (order_id pool_index side : ℕ) (m : OrderMap)
      → 65536 ≤ slot order_id
      → find order_id (insert order_id pool_index side m).1 ≡ find order_id m
  unfolding find insert
  insert_lost order_id pool_index side m large =
      let idx = slot order_id % 2 ^ 16 in
      let apart : idx ≢ slot order_id = omega arith in
      elim (Bool-cases (not ((m idx).pool_index == no_index))) [
        | inl taken ↦ rw taken refl
        | inr free ↦ rw free (
            update_ne m idx (slot order_id) (record { pool_index = pool_index; side = side }) apart)
      ]
