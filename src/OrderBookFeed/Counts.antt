-- ===== src/OrderBookFeed/Counts.antt =====
-- What overwriting, removing and cutting do to the orders of a side, as counts.
use scrimmage.Prelude.{
  ℕ, zero, suc, ◌+◌, ◌≤◌, ◌≡◌, ◌≢◌, refl, ap, inl, inr, Bool, false, [], ◌∷◌, arith, ◌==◌,
  if◌then◌else◌, length, take, Every, Bool-cases,
}
use scrimmage.OrderBookFeed.{Order, count, before, IsSorted, Market, Book, place, without}

module _ (market : Market) where
  abbrev pub with_id : ℕ → Order (market.Price) → Bool
  with_id id o = o.id == id

  -- No number stands twice.
  abbrev pub IsUnique : Book market → Type 0
  IsUnique book = (id : ℕ) → count (with_id id) book ≤ 1

  abbrev pub one_if : Bool → ℕ
  one_if b = if b then 1 else 0

  without_absent :
      (id : ℕ) (book : Book market) → count (with_id id) book ≡ 0 → without market id book ≡ book
  unfolding without
  without_absent id [] h = refl
  without_absent id (x ∷ xs) h = elim (Bool-cases (x.id == id)) [
    | inl same ↦ absurd (ground arith)
    | inr other ↦ rw other (ap (◌∷◌ x) (without_absent id xs (ground arith)))
  ]

  -- One order stands under the new order's number, and it is the new order; the others stay.
  pub count-place :
      (o : Order (market.Price)) (book : Book market) (test : Order (market.Price) → Bool)
      → count (with_id (o.id)) book ≤ 1
      → count test (place market o book) ≡ count test (without market (o.id) book) + one_if (test o)
  unfolding place without
  count-place o [] test h = elim (Bool-cases (test o)) [
    | inl passes ↦ rw passes refl
    | inr fails ↦ rw fails refl
  ]
  count-place o (x ∷ xs) test h = elim (Bool-cases (x.id == o.id)) [
    | inl same ↦
        let rest = without_absent (o.id) xs (ground arith) in rw (same, rest) (ground arith)
    | inr other ↦ let ih = count-place o xs test (ground arith) in rw other (ground arith)
  ]

  pub count-take :
      (n : ℕ) (book : Book market) (test : Order (market.Price) → Bool)
      → count test (take n book) ≤ count test book
  count-take zero book test = omega arith
  count-take (suc n) [] test = omega arith
  count-take (suc n) (x ∷ xs) test = ground (arith, count-take n xs test)

  pub count-without :
      (id : ℕ) (book : Book market) (test : Order (market.Price) → Bool)
      → count test (without market id book) ≤ count test book
  unfolding without
  count-without id [] test = omega arith
  count-without id (x ∷ xs) test = ground (arith, count-without id xs test)

  pub count-without_self :
      (id : ℕ) (book : Book market) → count (with_id id) (without market id book) ≡ 0
  unfolding without
  count-without_self id [] = refl
  count-without_self id (x ∷ xs) = ground (arith, count-without_self id xs)

  pub count-without_other :
      (id other : ℕ) (book : Book market)
      → id ≢ other
      → count (with_id other) (without market id book) ≡ count (with_id other) book
  unfolding without
  count-without_other id other [] apart = refl
  count-without_other id other (x ∷ xs) apart =
      ground (arith, count-without_other id other xs apart)

  pub length-without : (id : ℕ) (book : Book market) → length (without market id book) ≤ length book
  unfolding without
  length-without id [] = omega arith
  length-without id (x ∷ xs) = ground (arith, length-without id xs)

  module _ (above : market.Price → market.Price → Bool) (side : Bool) where
    Every-take :
        (n : ℕ) (o : Order (market.Price)) (book : Book market)
        → Every (λ later. before above side later o ≡ false) book
        → Every (λ later. before above side later o ≡ false) (take n book)
    Every-take zero o book h = tt
    Every-take (suc n) o [] h = tt
    Every-take (suc n) o (x ∷ xs) h = (h.0, Every-take n o xs h.1)

    pub IsSorted-take :
        (n : ℕ) (book : Book market) → IsSorted above side book → IsSorted above side (take n book)
    IsSorted-take zero book h = tt
    IsSorted-take (suc n) [] h = tt
    IsSorted-take (suc n) (x ∷ xs) h = (Every-take n x xs h.0, IsSorted-take n xs h.1)

    Every-without :
        (id : ℕ) (o : Order (market.Price)) (book : Book market)
        → Every (λ later. before above side later o ≡ false) book
        → Every (λ later. before above side later o ≡ false) (without market id book)
    unfolding without
    Every-without id o [] h = tt
    Every-without id o (x ∷ xs) h = elim (Bool-cases (x.id == id)) [
      | inl same ↦ rw same (Every-without id o xs h.1)
      | inr other ↦ rw other (h.0, Every-without id o xs h.1)
    ]

    pub IsSorted-without :
        (id : ℕ) (book : Book market)
        → IsSorted above side book
        → IsSorted above side (without market id book)
    unfolding without
    IsSorted-without id [] h = tt
    IsSorted-without id (x ∷ xs) h = elim (Bool-cases (x.id == id)) [
      | inl same ↦ rw same (IsSorted-without id xs h.1)
      | inr other ↦ rw other (Every-without id x xs h.0, IsSorted-without id xs h.1)
    ]
