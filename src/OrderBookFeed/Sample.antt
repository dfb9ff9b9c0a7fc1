-- ===== src/OrderBookFeed/Sample.antt =====
-- A market whose prices are numbers and whose sort, by insertion, keeps the laws of `Market`.
use scrimmage.Prelude.{
  ℕ, suc, ◌≡◌, refl, inl, inr, Bool, true, false, List, [], ◌∷◌, arith, ltb, if◌then◌else◌, length,
  Every, Bool-cases,
}
use scrimmage.OrderBookFeed.{Order, count, before, IsSorted, Market}

abbrev greater : ℕ → ℕ → Bool
greater a b = ltb b a

unfoldable pub insert : Bool → Order ℕ → List (Order ℕ) → List (Order ℕ)
insert side o [] = o ∷ []
insert side o (x ∷ xs) =
    let rest = insert side o xs in if before greater side x o then x ∷ rest else o ∷ x ∷ xs

unfoldable pub insertion_sort : Bool → List (Order ℕ) → List (Order ℕ)
insertion_sort side [] = []
insertion_sort side (o ∷ os) = insert side o (insertion_sort side os)

insert-count :
    (side : Bool) (test : Order ℕ → Bool) (o : Order ℕ) (os : List (Order ℕ))
    → count test (insert side o os) ≡ count test (o ∷ os)
unfolding insert
insert-count side test o [] = refl
insert-count side test o (x ∷ xs) = elim (Bool-cases (before greater side x o)) [
  | inl first ↦ rw first (ground (arith, insert-count side test o xs))
  | inr later ↦ rw later refl
]

pub sort-count :
    (side : Bool) (test : Order ℕ → Bool) (os : List (Order ℕ))
    → count test (insertion_sort side os) ≡ count test os
unfolding insertion_sort
sort-count side test [] = refl
sort-count side test (o ∷ os) =
    ground (arith, insert-count side test o (insertion_sort side os), sort-count side test os)

insert-length :
    (side : Bool) (o : Order ℕ) (os : List (Order ℕ)) → length (insert side o os) ≡ suc (length os)
unfolding insert
insert-length side o [] = refl
insert-length side o (x ∷ xs) = ground (arith, insert-length side o xs)

pub sort-length : (side : Bool) (os : List (Order ℕ)) → length (insertion_sort side os) ≡ length os
unfolding insertion_sort
sort-length side [] = refl
sort-length side (o ∷ os) =
    ground (arith, insert-length side o (insertion_sort side os), sort-length side os)

abbrev IsBehind : Bool → Order ℕ → Order ℕ → Type 0
IsBehind side o later = before greater side later o ≡ false

IsBehind-trans :
    (side : Bool) (a b c : Order ℕ) → IsBehind side a b → IsBehind side b c → IsBehind side a c
IsBehind-trans true a b c h h' = ground arith
IsBehind-trans false a b c h h' = ground arith

IsBehind-flip : (side : Bool) (a b : Order ℕ) → before greater side a b ≡ true → IsBehind side a b
IsBehind-flip true a b h = ground arith
IsBehind-flip false a b h = ground arith

Every-IsBehind :
    (side : Bool) (a b : Order ℕ) (os : List (Order ℕ))
    → IsBehind side a b
    → Every (IsBehind side b) os
    → Every (IsBehind side a) os
Every-IsBehind side a b [] h hs = tt
Every-IsBehind side a b (x ∷ xs) h hs =
    (IsBehind-trans side a b x h hs.0, Every-IsBehind side a b xs h hs.1)

insert-Every :
    (side : Bool) (a o : Order ℕ) (os : List (Order ℕ))
    → IsBehind side a o
    → Every (IsBehind side a) os
    → Every (IsBehind side a) (insert side o os)
unfolding insert
insert-Every side a o [] h hs = (h, tt)
insert-Every side a o (x ∷ xs) h hs = elim (Bool-cases (before greater side x o)) [
  | inl first ↦ rw first (hs.0, insert-Every side a o xs h hs.1)
  | inr later ↦ rw later (h, hs)
]

insert-IsSorted :
    (side : Bool) (o : Order ℕ) (os : List (Order ℕ))
    → IsSorted greater side os
    → IsSorted greater side (insert side o os)
unfolding insert
insert-IsSorted side o [] h = (tt, tt)
insert-IsSorted side o (x ∷ xs) h = elim (Bool-cases (before greater side x o)) [
  | inl first ↦
      rw first
        (insert-Every side x o xs (IsBehind-flip side x o first) h.0, insert-IsSorted side o xs h.1)
  | inr later ↦ rw later ((later, Every-IsBehind side o x xs later h.0), h)
]

pub sort-IsSorted :
    (side : Bool) (os : List (Order ℕ)) → IsSorted greater side (insertion_sort side os)
unfolding insertion_sort
sort-IsSorted side [] = tt
sort-IsSorted side (o ∷ os) =
    insert-IsSorted side o (insertion_sort side os) (sort-IsSorted side os)

abbrev pub market : Market
market = record {
  Price = ℕ;
  above = greater;
  sort = insertion_sort;
  sort_count = sort-count;
  sort_length = sort-length;
  sort_sorted = sort-IsSorted;
}

abbrev pub order : ℕ → ℕ → ℕ → Order ℕ
order id price quantity = record { id = id; price = price; quantity = quantity }
