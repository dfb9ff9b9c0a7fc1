-- ===== src/PriceLevels/Frames.antt =====
-- What the operations of libs/match/PriceLevels.h leave alone: the entries of other levels, and the
-- fields of an entry that they do not write.
use scrimmage.Prelude.{
  ℕ, zero, suc, ◌+◌, ◌%◌, ◌^◌, ◌<◌, ◌≡◌, ◌≢◌, refl, sym, ap, ap₂, subst, ◌∙◌, inl, inr, List, [],
  ◌∷◌, arith, ◌==◌, ◌∈◌, Bool-cases, length, set, get_or, update,
}
use scrimmage.PriceLevels.{Entry, EntryPool, Level, nil, append_to, cut}
use scrimmage.PriceLevels.Chain.{Chain-same}
use scrimmage.PriceLevels.Fifo.{next_of, sum_of, IsLevel}

pub get_or-set_self {ℓ} :
    {A : Type ℓ} (xs : List A) (i : ℕ) (v d : A) → i < length xs → get_or (set xs i v) i d ≡ v
get_or-set_self [] i v d h = absurd (omega arith)
get_or-set_self (x ∷ xs) zero v d h = refl
get_or-set_self (x ∷ xs) (suc i) v d h = get_or-set_self xs i v d (omega arith)

pub get_or-set_ne {ℓ} :
    {A : Type ℓ} (xs : List A) (i j : ℕ) (v d : A) → i ≢ j → get_or (set xs i v) j d ≡ get_or xs j d
get_or-set_ne [] i j v d ne = refl
get_or-set_ne (x ∷ xs) zero zero v d ne = absurd (ne refl)
get_or-set_ne (x ∷ xs) zero (suc j) v d ne = refl
get_or-set_ne (x ∷ xs) (suc i) zero v d ne = refl
get_or-set_ne (x ∷ xs) (suc i) (suc j) v d ne = get_or-set_ne xs i j v d (λ e. ne (ap suc e))

module _ (pool : EntryPool) where
  -- A field that a write changes to `v` at its index reads so there and as before elsewhere.
  pub put-field :
      (field : Entry → ℕ) (i j : ℕ) (e : Entry) (s : pool.Store)
      → field (pool.entry (pool.put i e s) j) ≡ update (λ x. field (pool.entry s x)) i (field e) j
  put-field field i j e s = elim (Bool-cases (i == j)) [
    | inl eq ↦
        let here : i ≡ j = ground arith in
        rw eq (
          subst (λ n. field (pool.entry (pool.put i e s) n) ≡ field e) here
            (ap field (pool.entry-put_self i e s)))
    | inr ne ↦ rw ne (ap field (pool.entry-put_ne i j e s (λ h. absurd (ground arith))))
  ]

  -- A write that leaves the field of its entry as it is leaves it everywhere.
  pub put-field_kept :
      (field : Entry → ℕ) (i j : ℕ) (e : Entry) (s : pool.Store)
      → field e ≡ field (pool.entry s i)
      → field (pool.entry (pool.put i e s) j) ≡ field (pool.entry s j)
  put-field_kept field i j e s same = put-field field i j e s ∙ elim (Bool-cases (i == j)) [
    | inl eq ↦
        let here : i ≡ j = ground arith in rw eq (same ∙ ap (λ n. field (pool.entry s n)) here)
    | inr ne ↦ rw ne refl
  ]

  sum_on :
      (s t : pool.Store) (xs : List ℕ)
      → ((x : ℕ) → x ∈ xs → pool.entry t x ≡ pool.entry s x)
      → sum_of pool t xs ≡ sum_of pool s xs
  sum_on s t [] same = refl
  sum_on s t (x ∷ xs) same =
      ap₂ ◌+◌ (ap (λ e. e.quantity) (same x (ground arith)))
        (sum_on s t xs (λ y m. same y (ground arith)))

  -- A level whose entries are as before.
  pub IsLevel-same :
      (s t : pool.Store) (lvl : Level) (xs : List ℕ)
      → ((x : ℕ) → x ∈ xs → pool.entry t x ≡ pool.entry s x)
      → IsLevel pool s lvl xs
      → IsLevel pool t lvl xs
  IsLevel-same s t lvl xs same h = (
    h.0,
    (
      Chain-same (next_of pool s) (next_of pool t) lvl.head nil xs
          (λ x m. sym (ap (λ e. e.next_index) (same x m))) h.1.0,
      (h.1.1.0, h.1.1.1 ∙ ap (λ n. n % 2 ^ 32) (sym (sum_on s t xs same))),
    ),
  )

  module _ (k p : ℕ) (lvl : Level) (s : pool.Store) where
    -- `appendToLevel` writes the new entry and the one that was last.
    pub append_to-others :
        (x : ℕ)
        → p ≢ x
        → (lvl.tail ≢ nil → lvl.tail ≢ x)
        → pool.entry (append_to pool k p lvl s).1 x ≡ pool.entry s x
    unfolding append_to
    append_to-others x ne apart = elim (Bool-cases (lvl.tail == nil)) [
      | inl empty ↦ rw empty (pool.entry-put_ne p x _ s ne)
      | inr full ↦ rw full (
          pool.entry-put_ne lvl.tail x _ _ (apart (λ e. absurd (ground arith)))
          ∙ pool.entry-put_ne p x _ s ne)
    ]

    -- It leaves all quantities, and the level of every entry but the new one.
    pub append_to-field :
        (field : Entry → ℕ) (v : ℕ)
        → ((e : Entry) (n : ℕ) → field (record e { next_index = n }) ≡ field e)
        → field (record (pool.entry s p) { level_index = k; next_index = nil }) ≡ v
        → (x : ℕ)
        → field (pool.entry (append_to pool k p lvl s).1 x)
          ≡ update (λ y. field (pool.entry s y)) p v x
    unfolding append_to
    append_to-field field v blind new x =
        let placed = pool.put p (record (pool.entry s p) { level_index = k; next_index = nil }) s in
        let first : field (pool.entry placed x) ≡ update (λ y. field (pool.entry s y)) p v x =
          put-field field p x _ s ∙ ap (λ n. update (λ y. field (pool.entry s y)) p n x) new in
        elim (Bool-cases (lvl.tail == nil)) [
          | inl empty ↦ rw empty first
          | inr full ↦ rw full (put-field_kept field lvl.tail x _ placed (blind _ p) ∙ first)
        ]

  module _ (prev p : ℕ) (lvl : Level) (s : pool.Store) where
    -- `unlinkFromLevel` writes the entry and the one in front of it.
    pub cut-others :
        (x : ℕ)
        → p ≢ x
        → (prev ≢ nil → prev ≢ x)
        → pool.entry (cut pool prev p lvl s).1 x ≡ pool.entry s x
    unfolding cut
    cut-others x ne apart = elim (Bool-cases (prev == nil)) [
      | inl first ↦ rw first (pool.entry-put_ne p x _ _ ne)
      | inr later ↦ rw later (
          pool.entry-put_ne p x _ _ ne
          ∙ pool.entry-put_ne prev x _ s (apart (λ e. absurd (ground arith))))
    ]

    pub cut-field :
        (field : Entry → ℕ)
        → ((e : Entry) (n : ℕ) → field (record e { next_index = n }) ≡ field e)
        → (x : ℕ) → field (pool.entry (cut pool prev p lvl s).1 x) ≡ field (pool.entry s x)
    unfolding cut
    cut-field field blind x = elim (Bool-cases (prev == nil)) [
      | inl first ↦ rw first (put-field_kept field p x _ s (blind _ nil))
      | inr later ↦
          rw later (
            put-field_kept field p x _ _ (blind _ nil)
            ∙ put-field_kept field prev x _ s (blind _ _))
    ]
