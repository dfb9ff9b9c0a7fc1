-- ===== src/Injector/Exact.antt =====
-- Sides of a feed that hold each number of a range once and no other.
use scrimmage.Prelude.{
  ℕ, suc, ◌+◌, ◌≡◌, ◌≤◌, ◌<◌, refl, ◌∙◌, inl, inr, Bool, false, [], ◌∷◌, arith, ◌==◌, ltb, leb,
  ◌&&◌, if◌then◌else◌, length, Bool-cases, subst, max,
}
use scrimmage.OrderBookFeed.{Order, count, Market, Book, place, without, upsert_side}
use scrimmage.OrderBookFeed.Counts.{
  with_id, one_if, count-without_self, count-without_other, IsUnique,
}
use scrimmage.OrderBookFeed.Depth.{count-upsert_side}

-- 1 for the `m` numbers from `lo` on.
abbrev pub within : (lo m id : ℕ) → ℕ
within lo m id = if leb lo id && ltb id (lo + m) then 1 else 0

module _ (market : Market) where
  abbrev pub IsExact : (lo m : ℕ) → Book market → Type 0
  IsExact lo m book =
      ((id : ℕ) → count (with_id market id) book ≡ within lo m id) × (length book ≡ m)

  length-place :
      (o : Order (market.Price)) (book : Book market)
      → length (place market o book)
        ≡ length book + (if count (with_id market o.id) book == 0 then 1 else 0)
  unfolding place
  length-place o [] = refl
  length-place o (x ∷ xs) = elim (Bool-cases (x.id == o.id)) [
    | inl same ↦ rw same (ground arith)
    | inr other ↦ rw other (ground (arith, length-place o xs))
  ]

  -- How long a side is behind placing the number behind the range, or one of the range.
  placed_length :
      (lo m i : ℕ) (o : Order (market.Price)) (book : Book market)
      → IsExact lo m book
      → o.id ≡ lo + i
      → i ≤ m
      → length (place market o book) ≡ max m (suc i)
  placed_length lo m i o book h name inside =
      ground (arith, length-place o book, h.0 o.id, h.1, name, inside)

  IsExact-IsUnique : (lo m : ℕ) (book : Book market) → IsExact lo m book → IsUnique market book
  IsExact-IsUnique lo m book h id = ground (arith, h.0 id)

  within-grow :
      (lo m i id : ℕ)
      → i ≤ m
      → (lo + i == id) ≡ false
      → within lo m id ≡ within lo (max m (suc i)) id
  within-grow lo m i id inside other = ground (arith, inside, other)

  placed_count :
      (lo m i id : ℕ) (o : Order (market.Price)) (book : Book market)
      → IsExact lo m book
      → o.id ≡ lo + i
      → i ≤ m
      → count (with_id market id) (without market o.id book) + one_if market (o.id == id)
        ≡ within lo (max m (suc i)) id
  placed_count lo m i id o book h name inside = elim (Bool-cases (o.id == id)) [
    | inl same ↦
        let gone : count (with_id market id) (without market o.id book) ≡ 0 =
          subst (λ x. count (with_id market x) (without market o.id book) ≡ 0) (ground arith)
            (count-without_self market o.id book) in
        ground (arith, gone, same, name, inside)
    | inr other ↦
        let stays = count-without_other market o.id id book (ground arith) in
        let moved = within-grow lo m i id inside (ground (arith, name, other)) in
        rw (other) (omega (arith, stays, h.0 id, moved))
  ]

  length-upsert_side :
      (max_levels : ℕ) (side : Bool) (o : Order (market.Price)) (book : Book market)
      → length (place market o book) ≤ max_levels
      → length (upsert_side market max_levels side o book) ≡ length (place market o book)
  unfolding upsert_side
  length-upsert_side max_levels side o book fits =
      let sorted = market.sort side (place market o book) in
      let kept : ltb max_levels (length sorted) ≡ false =
        ground (arith, market.sort_length side (place market o book)) in
      rw kept (market.sort_length side (place market o book))

  -- Placing the number behind the range, or one of the range.
  pub upsert_side-IsExact :
      (max_levels lo m i : ℕ) (side : Bool) (o : Order (market.Price)) (book : Book market)
      → IsExact lo m book
      → o.id ≡ lo + i
      → i ≤ m
      → i < max_levels
      → m ≤ max_levels
      → IsExact lo (max m (suc i)) (upsert_side market max_levels side o book)
  upsert_side-IsExact max_levels lo m i side o book h name inside room long =
      let size = placed_length lo m i o book h name inside in
      let fits : length (place market o book) ≤ max_levels = omega (arith, size, room, long) in
      (
        λ id.
            count-upsert_side market max_levels side o book (with_id market id)
              (IsExact-IsUnique lo m book h) fits
            ∙ placed_count lo m i id o book h name inside,
        length-upsert_side max_levels side o book fits ∙ size,
      )
