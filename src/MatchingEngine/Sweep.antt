-- ===== src/MatchingEngine/Sweep.antt =====
-- What `matchOrder` of libs/match/MatchingEngine.h does to the orders themselves: the incoming order
-- sweeps the orders that rest on the opposite side, from the front.
use scrimmage.Prelude.{
  ℕ, suc, ◌-◌, ◌≤◌, ◌<◌, ◌≡◌, refl, inl, inr, Bool, true, false, List, [], ◌∷◌, arith, ◌==◌,
  if◌then◌else◌, min, Bool-cases, Every,
}
use scrimmage.MatchingEngine.{Order, crosses}

-- A fill, with both orders as they are after it.
pub record Fill : Type 0 where
  pub incoming : Order
  pub resting : Order
  pub quantity : ℕ

-- What is left: the incoming order, the opposite side, the fills in order, how many resting orders
-- are used up, and whether the sweep stopped because the incoming order is.
pub record Swept : Type 0 where
  pub left : Order
  pub side : List Order
  pub fills : List Fill
  pub gone : ℕ
  pub used_up : Bool

abbrev pub reduced : Order → ℕ → Order
reduced o n = record o { quantity = o.quantity - n }

abbrev pub fill_of : Order → Order → Fill
fill_of incoming resting =
    let n = min incoming.quantity resting.quantity in
    record { incoming = reduced incoming n; resting = reduced resting n; quantity = n }

abbrev pub more : Fill → Swept → Swept
more f s = record s { fills = f ∷ s.fills; gone = suc s.gone }

unfoldable pub stopped : Fill → List Order → Swept
stopped f os =
    let spent = f.resting.quantity == 0 in
    record {
      left = f.incoming;
      side = if spent then os else f.resting ∷ os;
      fills = f ∷ [];
      gone = if spent then 1 else 0;
      used_up = true;
    }

abbrev pub unmatched : Order → List Order → Swept
unmatched incoming os = record { left = incoming; side = os; fills = []; gone = 0; used_up = false }

unfoldable pub sweep : Order → List Order → Swept
sweep incoming [] = unmatched incoming []
sweep incoming (resting ∷ os) =
    let f = fill_of incoming resting in
    let rest = sweep f.incoming os in
    if crosses incoming resting
    then (if f.incoming.quantity == 0 then stopped f os else more f rest)
    else unmatched incoming (resting ∷ os)

-- The three ways a sweep goes on from its first order.
pub blocked :
    (incoming front : Order) (os : List Order)
    → crosses incoming front ≡ false
    → sweep incoming (front ∷ os) ≡ unmatched incoming (front ∷ os)
unfolding sweep
blocked incoming front os apart = rw apart

module _ (incoming front : Order) (os : List Order) (cross : crosses incoming front ≡ true) where
  pub sweep-stopped :
      ((fill_of incoming front).incoming.quantity == 0) ≡ true
      → sweep incoming (front ∷ os) ≡ stopped (fill_of incoming front) os
  unfolding sweep
  sweep-stopped done = rw (cross, done)

  pub sweep-more :
      ((fill_of incoming front).incoming.quantity == 0) ≡ false
      → sweep incoming (front ∷ os)
        ≡ more (fill_of incoming front) (sweep (fill_of incoming front).incoming os)
  unfolding sweep
  sweep-more some_left = rw (cross, some_left)

abbrev pub IsPositive : Order → Type 0
IsPositive o = 0 < o.quantity

-- What stays on the side is never empty.
pub side-IsPositive :
    (incoming : Order) (os : List Order)
    → Every IsPositive os
    → Every IsPositive (sweep incoming os).side
unfolding sweep stopped
side-IsPositive incoming [] hs = tt
side-IsPositive incoming (resting ∷ os) hs =
    ground (arith, side-IsPositive (fill_of incoming resting).incoming os)

-- Of the incoming order only the quantity changes, and it never grows.
pub left_lem :
    (incoming : Order) (os : List Order)
    → let left = (sweep incoming os).left in
      (left ≡ record incoming { quantity = left.quantity }) × (left.quantity ≤ incoming.quantity)
unfolding sweep stopped
left_lem incoming [] = (refl, omega arith)
left_lem incoming (resting ∷ os) = ground (arith, left_lem (fill_of incoming resting).incoming os)

-- A sweep that ends by `used_up` has left nothing of the incoming order.
pub used_up_lem :
    (incoming : Order) (os : List Order)
    → (sweep incoming os).used_up ≡ true
    → (sweep incoming os).left.quantity ≡ 0
unfolding sweep stopped
used_up_lem incoming [] e = cc
used_up_lem incoming (resting ∷ os) e =
    ground (arith, used_up_lem (fill_of incoming resting).incoming os)

-- A property that a smaller quantity does not spoil holds of the side as before.
pub side-Every {ℓ} :
    (P : Order → Type ℓ) (keeps : (o : Order) (n : ℕ) → P o → P (reduced o n)) (incoming : Order)
    (os : List Order)
    → Every P os
    → Every P (sweep incoming os).side
unfolding sweep stopped
side-Every P keeps incoming [] h = h
side-Every P keeps incoming (resting ∷ os) h = elim (Bool-cases (crosses incoming resting)) [
  | inr apart ↦ rw apart h
  | inl cross ↦ elim (Bool-cases ((fill_of incoming resting).incoming.quantity == 0)) [
    | inr next ↦ rw (cross, next) (side-Every P keeps (fill_of incoming resting).incoming os h.1)
    | inl done ↦ elim (Bool-cases ((fill_of incoming resting).resting.quantity == 0)) [
      | inl spent ↦ rw (cross, done, spent) h.1
      | inr left ↦ rw (cross, done, left) (keeps resting _ h.0, h.1)
    ]
  ]
]

-- An order that was not empty and is not used up is not empty.
pub left-IsPositive :
    (incoming : Order) (os : List Order)
    → IsPositive incoming
    → (sweep incoming os).used_up ≡ false
    → IsPositive (sweep incoming os).left
unfolding sweep stopped
left-IsPositive incoming [] h e = h
left-IsPositive incoming (resting ∷ os) h e =
    ground (arith, left-IsPositive (fill_of incoming resting).incoming os)

-- A sweep with no fill changes nothing.
pub no_fills :
    (incoming : Order) (os : List Order)
    → (sweep incoming os).fills ≡ []
    → sweep incoming os ≡ unmatched incoming os
unfolding sweep stopped
no_fills incoming [] e = refl
no_fills incoming (resting ∷ os) e = ground arith
