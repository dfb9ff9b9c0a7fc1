-- ===== src/Orders.antt =====
-- libs/match/Order.h, OrderBookEntry.h, OrderPool.h, OrderMap.h and Constants.h: the orders of a
-- book, the pool of entries that holds them and the map from an order's number to its entry.
pub mod Slots
pub mod Pool
mod Tests
use scrimmage.Prelude.{
  ℕ, zero, suc, ◌+◌, ◌-◌, ◌≤◌, ◌<◌, ◌≡◌, refl, sym, ap, ◌∙◌, inl, inr, Bool, true, false, List, [],
  ◌∷◌, ◌++◌, arith, ltb, ◌==◌, if◌then◌else◌, length, take, drop, length-append, length-take,
  length-drop, Bool-cases, Every, take-append_le, take_all,
}
use scrimmage.Prelude.Int.{ℤ, pos, negsuc}

pub record Order : Type 0 where
  pub symbol : List ℕ
  pub order_id : ℕ
  pub price : ℤ
  pub quantity : ℕ
  pub is_buy : Bool

-- `Order::Order`, in memory whose 16 characters are `symbol`.
unfoldable pub empty_order : List ℕ → Order
empty_order symbol = record {
  symbol = 0 ∷ drop 1 symbol;
  order_id = 0;
  price = negsuc 0;
  quantity = 0;
  is_buy = true;
}

-- `Order::isEmpty`.
unfoldable pub is_empty : Order → Bool
is_empty o = o.order_id == 0

-- `Order::setSymbol`.
unfoldable pub set_symbol : List ℕ → Order → Order
set_symbol s o =
    let copy_len = if ltb (length s) 15 then length s else 15 in
    record o { symbol = take copy_len s ++ (0 ∷ drop (suc copy_len) o.symbol) }

-- `OrderBookEntry`.
pub record Entry : Type 0 where
  pub order : Order
  pub next_free : ℕ

-- Its constructor, as `Order()` above, and `isEmpty`.
unfoldable pub empty_entry : List ℕ → Entry
unfolding empty_order
empty_entry symbol = record { order = empty_order symbol; next_free = 0 }

unfoldable pub entry_is_empty : Entry → Bool
unfolding is_empty
entry_is_empty e = is_empty e.order

-- `OrderBookEntry::reset`: `Order()` is made in memory whose characters are `junk`, but for the
-- terminator, and copied.
unfoldable pub reset : (junk : List ℕ) → Entry → Entry
unfolding empty_order
reset junk e = record { order = empty_order junk; next_free = 0 }

-- What a reader of a C string takes: the characters in front of the first 0.
abbrev pub c_string : List ℕ → List ℕ
c_string [] = []
c_string (c ∷ cs) = if c == 0 then [] else c ∷ c_string cs

c_string-append :
    (s rest : List ℕ) → Every (λ c. (c == 0) ≡ false) s → c_string (s ++ (0 ∷ rest)) ≡ s
c_string-append [] rest h = refl
c_string-append (c ∷ s) rest h = rw h.0 (ap (◌∷◌ c) (c_string-append s rest h.1))

Every-take :
    (n : ℕ) (s : List ℕ)
    → Every (λ c. (c == 0) ≡ false) s
    → Every (λ c. (c == 0) ≡ false) (take n s)
Every-take zero s h = tt
Every-take (suc n) [] h = tt
Every-take (suc n) (c ∷ s) h = (h.0, Every-take n s h.1)

take_more : (n : ℕ) (s : List ℕ) → length s ≤ n → take n s ≡ s
take_more zero [] h = refl
take_more zero (c ∷ s) h = absurd (omega arith)
take_more (suc n) [] h = refl
take_more (suc n) (c ∷ s) h = ap (◌∷◌ c) (take_more n s (omega arith))

-- `setSymbol` of a text with no 0 in it, in the 16 characters of an order: they stay 16, and read
-- back as the first 15 characters of the text.
pub set_symbol-c_string :
    (s : List ℕ) (o : Order)
    → length o.symbol ≡ 16
    → Every (λ c. (c == 0) ≡ false) s
    → (length (set_symbol s o).symbol ≡ 16) × (c_string (set_symbol s o).symbol ≡ take 15 s)
unfolding set_symbol
set_symbol-c_string s o size text = elim (Bool-cases (ltb (length s) 15)) [
  | inl short ↦
      let below : length s < 15 = ground arith in
      let whole = take_more 15 s (ground arith) in
      rw (short, take_all s, whole)
        (
          omega (
            arith,
            length-append s (0 ∷ drop (suc (length s)) o.symbol),
            length-drop (suc (length s)) o.symbol,
            below,
          ),
          c_string-append s (drop (suc (length s)) o.symbol) text,
        )
  | inr long ↦
      let above : 15 ≤ length s = ground arith in
      rw long (
        omega (
          arith,
          length-append (take 15 s) (0 ∷ drop 16 o.symbol),
          length-drop 16 o.symbol,
          length-take 15 s,
          above,
        ),
        c_string-append (take 15 s) (drop 16 o.symbol) (Every-take 15 s text),
      )
]
