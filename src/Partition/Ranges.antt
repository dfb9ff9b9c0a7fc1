-- ===== src/Partition/Ranges.antt =====
-- Which partition owns a symbol.
use scrimmage.Prelude.{ℕ, ◌<◌, ◌≡◌, refl, inl, inr, true, false, List, [], ◌∷◌, arith, Bool-cases}
use scrimmage.Partition.{Outside, Partition, less, owns_symbol}

-- A text is not less than one that is not greater.
less_of_not : (a b c : List ℕ) → less a b ≡ true → less c b ≡ false → less a c ≡ true
unfolding less
less_of_not a [] c h k = cc
less_of_not [] (y ∷ b) [] h k = cc
less_of_not [] (y ∷ b) (z ∷ c) h k = refl
less_of_not (x ∷ a) (y ∷ b) [] h k = cc
less_of_not (x ∷ a) (y ∷ b) (z ∷ c) h k = ground (arith, less_of_not a b c)

module _ (outside : Outside) where
  -- Two partitions own no symbol in common if the range of one ends before that of the other starts.
  pub owns_apart :
      (p q : Partition outside) (symbol : List ℕ)
      → less p.symbol_end q.symbol_start ≡ true
      → owns_symbol outside symbol p ≡ true
      → owns_symbol outside symbol q ≡ false
  unfolding owns_symbol
  owns_apart p q symbol apart here = elim (Bool-cases (less symbol q.symbol_start)) [
    | inl before ↦ rw before refl
    | inr behind ↦
        let past = less_of_not p.symbol_end q.symbol_start symbol apart behind in
        ground (arith, past)
  ]

  -- A symbol that goes on behind the end of a range is not in it, and not in a range that starts at a
  -- greater letter: between the ranges "A" to "E" and "F" to "J" no partition owns "EX".
  pub owns_gap :
      (p q : Partition outside) (last first next : ℕ) (rest : List ℕ)
      → p.symbol_end ≡ last ∷ []
      → q.symbol_start ≡ first ∷ []
      → last < first
      → (owns_symbol outside (last ∷ next ∷ rest) p ≡ false)
        × (owns_symbol outside (last ∷ next ∷ rest) q ≡ false)
  unfolding owns_symbol less
  owns_gap p q last first next rest e f h = ground (arith, e, f)
