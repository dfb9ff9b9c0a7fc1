-- ===== src/PriceLevels/Fifo.antt =====
-- A level of libs/match/PriceLevels.h as a queue of entries.
use scrimmage.Prelude.{
  ℕ, ◌+◌, ◌%◌, ◌^◌, ◌<◌, ◌≡◌, ◌≢◌, refl, sym, ap, ap₂, subst, ◌∙◌, inl, inr, true, false, List, [],
  ◌∷◌, ◌++◌, arith, ◌==◌, add_word, ◌∉◌, AreDistinct, AreDistinct-snoc, ne_of_mem, Bool-cases,
}
use scrimmage.PriceLevels.{Entry, EntryPool, Level, nil, append_to}
use scrimmage.PriceLevels.Chain.{
  Chain, last_of, last_of-mem, Chain-same, Chain-relink, Chain-append,
}

module _ (pool : EntryPool) where
  abbrev pub next_of : pool.Store → ℕ → ℕ
  next_of s i = (pool.entry s i).next_index

  abbrev pub sum_of : pool.Store → List ℕ → ℕ
  sum_of s [] = 0
  sum_of s (x ∷ xs) = (pool.entry s x).quantity + sum_of s xs

  -- The level `lvl` holds the entries `xs`, the first at its head.
  abbrev pub IsLevel : pool.Store → Level → List ℕ → Type 0
  IsLevel s lvl xs =
      AreDistinct xs
      × (Chain (next_of s) lvl.head xs nil
          × ((lvl.tail ≡ last_of nil xs) × (lvl.total_qty ≡ sum_of s xs % 2 ^ 32)))

  pub put-quantity :
      (i j : ℕ) (e : Entry) (s : pool.Store)
      → e.quantity ≡ (pool.entry s i).quantity
      → (pool.entry (pool.put i e s) j).quantity ≡ (pool.entry s j).quantity
  put-quantity i j e s same = elim (Bool-cases (i == j)) [
    | inl eq ↦
        let here : i ≡ j = ground arith in
        subst (λ n. (pool.entry (pool.put i e s) n).quantity ≡ (pool.entry s n).quantity) here
          (ap (λ x. x.quantity) (pool.entry-put_self i e s) ∙ same)
    | inr ne ↦ ap (λ x. x.quantity) (pool.entry-put_ne i j e s (λ h. absurd (ground arith)))
  ]

  pub sum_same :
      (s t : pool.Store) (xs : List ℕ)
      → ((j : ℕ) → (pool.entry t j).quantity ≡ (pool.entry s j).quantity)
      → sum_of t xs ≡ sum_of s xs
  sum_same s t [] same = refl
  sum_same s t (x ∷ xs) same = ap₂ ◌+◌ (same x) (sum_same s t xs same)

  pub sum-append :
      (s : pool.Store) (xs ys : List ℕ) → sum_of s (xs ++ ys) ≡ sum_of s xs + sum_of s ys
  sum-append s [] ys = omega arith
  sum-append s (x ∷ xs) ys = omega (arith, sum-append s xs ys)

  last_of-snoc : (d p : ℕ) (xs : List ℕ) → last_of d (xs ++ (p ∷ [])) ≡ p
  last_of-snoc d p [] = refl
  last_of-snoc d p (x ∷ xs) = last_of-snoc x p xs

  pub last_of-lt : (f : ℕ → ℕ) (i e x : ℕ) (xs : List ℕ) → Chain f i (x ∷ xs) e → last_of x xs < nil
  last_of-lt f i e x [] h = h.1.0
  last_of-lt f i e x (y ∷ ys) h = last_of-lt f (f x) e y ys h.1.1

  module _ (k p : ℕ) (s : pool.Store) where
    abbrev placed : pool.Store
    placed = pool.put p (record (pool.entry s p) { level_index = k; next_index = nil }) s

    abbrev linked : ℕ → pool.Store
    linked t = pool.put t (record (pool.entry placed t) { next_index = p }) placed

    placed-quantity : (j : ℕ) → (pool.entry placed j).quantity ≡ (pool.entry s j).quantity
    placed-quantity j =
        put-quantity p j (record (pool.entry s p) { level_index = k; next_index = nil }) s refl

    linked-quantity : (t j : ℕ) → (pool.entry (linked t) j).quantity ≡ (pool.entry s j).quantity
    linked-quantity t j =
        put-quantity t j (record (pool.entry placed t) { next_index = p }) placed refl
        ∙ placed-quantity j

    placed-Chain :
        (i e : ℕ) (xs : List ℕ) → p ∉ xs → Chain (next_of s) i xs e → Chain (next_of placed) i xs e
    placed-Chain i e xs out h =
        Chain-same (next_of s) (next_of placed) i e xs
          (λ j m. sym (
            ap (λ x. x.next_index)
              (pool.entry-put_ne p j (record (pool.entry s p) { level_index = k; next_index = nil })
                s (ne_of_mem xs out m))))
          h

    linked-Chain :
        (i e x : ℕ) (xs : List ℕ)
        → AreDistinct (x ∷ xs)
        → p ∉ (x ∷ xs)
        → p < nil
        → Chain (next_of s) i (x ∷ xs) e
        → Chain (next_of (linked (last_of x xs))) i ((x ∷ xs) ++ (p ∷ [])) nil
    linked-Chain i e x xs d out small h =
        let t = last_of x xs in
        let written = record (pool.entry placed t) { next_index = p } in
        let apart : p ≢ t = ne_of_mem (x ∷ xs) out (last_of-mem x xs) in
        let front =
          Chain-relink (next_of placed) (next_of (linked t)) i e p x xs d
            (λ j ne.
              sym
                (ap (λ y. y.next_index) (pool.entry-put_ne t j written placed (λ eq. ne (sym eq)))))
            (ap (λ y. y.next_index) (pool.entry-put_self t written placed))
            (placed-Chain i e (x ∷ xs) out h) in
        let ended : next_of (linked t) p ≡ nil =
          ap (λ y. y.next_index) (pool.entry-put_ne t p written placed (λ eq. apart (sym eq)))
          ∙ ap (λ y. y.next_index)
              (pool.entry-put_self p (record (pool.entry s p) { level_index = k; next_index = nil })
                s) in
        Chain-append (next_of (linked t)) i p nil (x ∷ xs) (p ∷ []) front (refl, (small, ended))

    total_lem :
        (t : pool.Store) (xs : List ℕ) (total : ℕ)
        → ((j : ℕ) → (pool.entry t j).quantity ≡ (pool.entry s j).quantity)
        → total ≡ sum_of s xs % 2 ^ 32
        → add_word 32 total (pool.entry t p).quantity ≡ sum_of t (xs ++ (p ∷ [])) % 2 ^ 32
    total_lem t xs total same h = omega (arith, h, sum-append t xs (p ∷ []), sum_same s t xs same)

    append_to-empty :
        (lvl : Level)
        → lvl.tail ≡ nil
        → append_to pool k p lvl s ≡ (
          record {
            head = p;
            tail = p;
            total_qty = add_word 32 lvl.total_qty (pool.entry placed p).quantity;
          },
          placed,
        )
    unfolding append_to
    append_to-empty lvl h = let empty : (lvl.tail == nil) ≡ true = ground arith in rw empty refl

    -- What `appendToLevel` makes of a level with the tail `t`.
    abbrev grown : Level → ℕ → Level × pool.Store
    grown lvl t = (
      record {
        head = lvl.head;
        tail = p;
        total_qty = add_word 32 lvl.total_qty (pool.entry (linked t) p).quantity;
      },
      linked t,
    )

    append_to-full : (lvl : Level) → lvl.tail < nil → append_to pool k p lvl s ≡ grown lvl lvl.tail
    unfolding append_to
    append_to-full lvl small = let full : (lvl.tail == nil) ≡ false = ground arith in rw full refl

    -- `appendToLevel` of an entry that is not in the level: behind it the level holds the entries that
    -- it held, in their order, and the new one last; its tail is the new one, and its total is the sum
    -- of their quantities modulo 2 ^ 32.
    pub append_to-IsLevel :
        (lvl : Level) (xs : List ℕ)
        → IsLevel s lvl xs
        → p ∉ xs
        → p < nil
        → let run = append_to pool k p lvl s in IsLevel run.1 run.0 (xs ++ (p ∷ []))
    append_to-IsLevel lvl [] h out small =
        let ended : next_of placed p ≡ nil =
          ap (λ y. y.next_index)
            (pool.entry-put_self p (record (pool.entry s p) { level_index = k; next_index = nil })
              s) in
        subst (λ r. IsLevel r.1 r.0 (p ∷ [])) (sym (append_to-empty lvl h.1.1.0))
          (
            (refl, tt),
            (
              (refl, (small, ended)),
              (refl, total_lem placed [] lvl.total_qty placed-quantity h.1.1.1),
            ),
          )
    append_to-IsLevel lvl (x ∷ xs) h out small =
        let inside = last_of-lt (next_of s) lvl.head nil x xs h.1.0 in
        let tail = h.1.1.0 in
        let below : lvl.tail < nil = omega (arith, inside, tail) in
        subst (λ r. IsLevel r.1 r.0 ((x ∷ xs) ++ (p ∷ [])))
          (ap (grown lvl) (sym tail) ∙ sym (append_to-full lvl below))
          (
            AreDistinct-snoc (x ∷ xs) p h.0 out,
            (
              linked-Chain lvl.head nil x xs h.0 out small h.1.0,
              (
                sym (last_of-snoc nil p (x ∷ xs)),
                total_lem (linked (last_of x xs)) (x ∷ xs) lvl.total_qty
                    (linked-quantity (last_of x xs)) h.1.1.1,
              ),
            ),
          )
