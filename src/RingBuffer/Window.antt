-- ===== src/RingBuffer/Window.antt =====
-- The items that lie between the two indices of the ring, oldest first.
use scrimmage.Prelude.{
  ℕ, zero, suc, ◌+◌, ◌-◌, ◌%◌, ◌^◌, ◌≤◌, ◌<◌, ◌≡◌, refl, ◌≢◌, ap, ap₂, ◌∙◌, List, [], ◌∷◌, ◌++◌,
  arith, leb, ltb, if◌then◌else◌, update, update_ne, length, sub_word, add_word,
}
use native.Mathlib.Nat.{mod-eq_of_lt, mod-eq-sub-mod}
use native.Mathlib.Decide.{dec_le}
use scrimmage.RingBuffer.{increment}

-- `n` items from index `i` on, going round at `capacity`.
module _ {ℓ} {T : Type ℓ} where
  unfoldable pub window : (ℕ → T) → ℕ → ℕ → ℕ → List T
  window f capacity i zero = []
  window f capacity i (suc n) = f i ∷ window f capacity (increment capacity i) n

-- The index `n` places behind `i`.
abbrev pub place : ℕ → ℕ → ℕ → ℕ
place capacity i n = if ltb (i + n) capacity then i + n else i + n - capacity

-- How many places lie from `tail` up to `head`.
abbrev pub span : ℕ → ℕ → ℕ → ℕ
span capacity head tail = if leb tail head then head - tail else head + capacity - tail

module _ {capacity : ℕ} (small : capacity ≤ 2 ^ 63) where
  pub increment-lt : (i : ℕ) → i < capacity → increment capacity i < capacity
  unfolding increment
  increment-lt i h = ground arith

  place-increment :
      (i n : ℕ)
      → i < capacity
      → suc n < capacity
      → place capacity (increment capacity i) n ≡ place capacity i (suc n)
  unfolding increment
  place-increment i n hi hn = ground arith

  pub place-span :
      (head tail : ℕ)
      → head < capacity
      → tail < capacity
      → place capacity tail (span capacity head tail) ≡ head
  place-span head tail hh ht = ground arith

  pub span-lt :
      (head tail : ℕ) → head < capacity → tail < capacity → span capacity head tail < capacity
  span-lt head tail hh ht = ground arith

  pub span_push :
      (head tail : ℕ)
      → head < capacity
      → tail < capacity
      → increment capacity head ≢ tail
      → span capacity (increment capacity head) tail ≡ suc (span capacity head tail)
  unfolding increment
  span_push head tail hh ht ne = ground arith

  pub span_full :
      (head tail : ℕ)
      → head < capacity
      → tail < capacity
      → increment capacity head ≡ tail
      → span capacity head tail ≡ capacity - 1
  unfolding increment
  span_full head tail hh ht e = ground arith

  pub span_pop :
      (head tail : ℕ)
      → head < capacity
      → tail < capacity
      → tail ≢ head
      → span capacity head tail ≡ suc (span capacity head (increment capacity tail))
  unfolding increment
  span_pop head tail hh ht ne = ground arith

  pub increment-injective :
      (i j : ℕ) → i < capacity → j < capacity → increment capacity i ≡ increment capacity j → i ≡ j
  unfolding increment
  increment-injective i j hi hj e = ground arith

  -- The code's way to compute it.
  pub used-eq-span :
      (head tail : ℕ)
      → head < capacity
      → tail < capacity
      → sub_word 64 (add_word 64 head capacity) tail % capacity ≡ span capacity head tail
  used-eq-span head tail hh ht =
      let plain : sub_word 64 (add_word 64 head capacity) tail ≡ head + capacity - tail =
        omega arith in
      rw plain (elim (dec_le tail head) [
        | yes p ↦ ground (
          arith,
          mod-eq-sub-mod {n = head + capacity - tail} {m = capacity} (omega arith),
          mod-eq_of_lt {n = head + capacity - tail - capacity} {m = capacity} (omega arith),
        )
        | no p ↦
            ground (arith, mod-eq_of_lt {n = head + capacity - tail} {m = capacity} (omega arith))
      ])

module _ {ℓ} {T : Type ℓ} {capacity : ℕ} (small : capacity ≤ 2 ^ 63) where
  pub length-window : (f : ℕ → T) (i n : ℕ) → length (window f capacity i n) ≡ n
  unfolding window
  length-window f i zero = refl
  length-window f i (suc n) = omega (arith, length-window f (increment capacity i) n)

  -- Writing just behind a window leaves it alone.
  pub window-update :
      (f : ℕ → T) (x : T) (n i j : ℕ)
      → i < capacity
      → n < capacity
      → place capacity i n ≡ j
      → window (update f j x) capacity i n ≡ window f capacity i n
  unfolding window
  window-update f x zero i j hi hn e = refl
  window-update f x (suc n) i j hi hn e = ap₂ ◌∷◌ (update_ne f j i x (ground arith)) (
      window-update f x n (increment capacity i) j (increment-lt small i hi) (omega arith)
        (place-increment small i n hi hn ∙ e))

  -- The item just behind a window extends it.
  pub window_snoc :
      (f : ℕ → T) (n i j : ℕ)
      → i < capacity
      → n < capacity
      → place capacity i n ≡ j
      → window f capacity i (suc n) ≡ window f capacity i n ++ f j ∷ []
  unfolding window
  window_snoc f zero i j hi hn e = let same : i ≡ j = ground arith in ap (λ k. f k ∷ []) same
  window_snoc f (suc n) i j hi hn e = ap (◌∷◌ (f i)) (
      window_snoc f n (increment capacity i) j (increment-lt small i hi) (omega arith)
        (place-increment small i n hi hn ∙ e))
