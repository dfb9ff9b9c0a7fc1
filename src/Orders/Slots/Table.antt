-- ===== src/Orders/Slots/Table.antt =====
-- libs/match/OrderMap.h with a size of 2 ^ k, against a table that holds at most one order for each
-- remainder modulo 2 ^ k.
use native.Mathlib.Nat.{mod-lt, mod-eq_of_lt}
use scrimmage.Prelude.{
  ℕ, ◌%◌, ◌^◌, ◌≤◌, ◌≡◌, ◌≢◌, refl, sym, ap, ap₂, ◌∙◌, inl, inr, Bool, true, false, Option, none,
  some, List, [], ◌∷◌, arith, ◌==◌, if◌then◌else◌, Bool-cases, update, Every,
}
use scrimmage.Prelude.Masks.{some_power, bit_and-mask}
use scrimmage.Orders.Slots.{
  MapValue, no_index, free_slot, OrderMap, reset, slot, insert, erase, find,
}

pub data Command : Type 0 where
  insert_call : (order_id pool_index side : ℕ) → Command
  erase_call : (order_id : ℕ) → Command
  find_call : (order_id : ℕ) → Command

pub data Reply : Type 0 where
  inserted : Bool → Reply
  erased : Reply
  found : Option MapValue → Reply

-- What `find` answers, read: an entry with the index `NONE` is none.
abbrev pub read_value : MapValue → Option MapValue
read_value v = if v.pool_index == no_index then none else some v

module _ (map_size : ℕ) where
  unfoldable pub serve : List Command → OrderMap → List Reply × OrderMap
  serve [] m = ([], m)
  serve (insert_call id idx side ∷ calls) m =
      let (done, n) = insert map_size id idx side m in
      let (replies, end) = serve calls n in (inserted done ∷ replies, end)
  serve (erase_call id ∷ calls) m =
      let (replies, end) = serve calls (erase map_size id m) in (erased ∷ replies, end)
  serve (find_call id ∷ calls) m =
      let (replies, end) = serve calls m in (found (read_value (find map_size id m)) ∷ replies, end)

-- The table, by remainders.
abbrev pub Table : Type 0
Table = ℕ → Option MapValue

abbrev pub value : (pool_index side : ℕ) → MapValue
value idx side = record { pool_index = idx; side = side }

abbrev is_none : Option MapValue → Bool
is_none none = true
is_none (some v) = false

-- The table's answers: an insertion succeeds where nothing stands for the remainder.
abbrev pub answers : (k : ℕ) → List Command → Table → List Reply
answers k [] t = []
answers k (insert_call id idx side ∷ calls) t =
    if is_none (t (id % 2 ^ k))
    then inserted true ∷ answers k calls (update t (id % 2 ^ k) (some (value idx side)))
    else inserted false ∷ answers k calls t
answers k (erase_call id ∷ calls) t = erased ∷ answers k calls (update t (id % 2 ^ k) none)
answers k (find_call id ∷ calls) t = found (t (id % 2 ^ k)) ∷ answers k calls t

abbrev pub HasIndex : Command → Type 0
HasIndex (insert_call id idx side) = idx ≢ no_index
HasIndex (erase_call id) = Unit
HasIndex (find_call id) = Unit

module _ (k : ℕ) (few : 2 ^ k ≤ 65536) where
  slot_lem : (id : ℕ) → slot (2 ^ k) id ≡ id % 2 ^ k
  unfolding slot
  slot_lem id = bit_and-mask id k

  cut_lem : (id : ℕ) → slot (2 ^ k) id % 2 ^ 16 ≡ id % 2 ^ k
  cut_lem id =
      ap (λ n. n % 2 ^ 16) (slot_lem id)
      ∙ mod-eq_of_lt (omega (arith, few, mod-lt id (some_power k)))

  -- The map reads as the table.
  abbrev Shows : OrderMap → Table → Type 0
  Shows m t = (i : ℕ) → read_value (m i) ≡ t i

  update-Shows :
      (m : OrderMap) (t : Table) (i : ℕ) (v : MapValue) (o : Option MapValue)
      → read_value v ≡ o
      → Shows m t
      → Shows (update m i v) (update t i o)
  update-Shows m t i v o e h j = elim (Bool-cases (i == j)) [
    | inl same ↦ rw same e
    | inr other ↦ rw other (h j)
  ]

  read_value-value :
      (idx side : ℕ) → idx ≢ no_index → read_value (value idx side) ≡ some (value idx side)
  read_value-value idx side some_index =
      let taken : (idx == no_index) ≡ false = ground arith in rw taken refl

  serve_from :
      (calls : List Command) (m : OrderMap) (t : Table)
      → Every HasIndex calls
      → Shows m t
      → (serve (2 ^ k) calls m).0 ≡ answers k calls t
  unfolding serve insert erase find
  serve_from [] m t some_index h = refl
  serve_from (insert_call id idx side ∷ calls) m t some_index h =
      let r = id % 2 ^ k in
      elim (Bool-cases ((m r).pool_index == no_index)) [
        | inl free ↦
            let absent : t r ≡ none = sym (h r) ∙ rw free refl in
            rw (cut_lem id, free, absent)
              (ap (◌∷◌ (inserted true)) (
                serve_from calls (update m r (value idx side)) (update t r (some (value idx side)))
                  some_index.1
                  (update-Shows m t r (value idx side) (some (value idx side))
                    (read_value-value idx side some_index.0) h)))
        | inr taken ↦
            let present : t r ≡ some (m r) = sym (h r) ∙ rw taken refl in
            rw (cut_lem id, taken, present)
              (ap (◌∷◌ (inserted false)) (serve_from calls m t some_index.1 h))
      ]
  serve_from (erase_call id ∷ calls) m t some_index h = rw (cut_lem id) (
      ap (◌∷◌ erased) (
        serve_from calls (update m (id % 2 ^ k) free_slot) (update t (id % 2 ^ k) none) some_index.1
          (update-Shows m t (id % 2 ^ k) free_slot none refl h)))
  serve_from (find_call id ∷ calls) m t some_index h =
      ap₂ (λ r rs. found r ∷ rs) (ap (λ i. read_value (m i)) (slot_lem id) ∙ h (id % 2 ^ k))
        (serve_from calls m t some_index.1 h)

-- For a map of a power of two of entries, at most 65536, and insertions of indices other than `NONE`:
-- any sequence of insertions, erasures and searches from a reset map answers as a table with room for
-- one order for each remainder of the order's number: an insertion succeeds where the table has
-- nothing for the remainder, an erasure empties it, and a search gives what stands for it.
pub serve-answers :
    (k : ℕ) (calls : List Command)
    → 2 ^ k ≤ 65536
    → Every HasIndex calls
    → (serve (2 ^ k) calls reset).0 ≡ answers k calls (λ i. none)
serve-answers k calls few some_index =
    serve_from k few calls reset (λ i. none) some_index (λ i. refl)
