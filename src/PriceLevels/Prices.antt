-- ===== src/PriceLevels/Prices.antt =====
-- libs/match/PriceLevels.h: `priceToLevel` and `levelToPrice`, with a number of levels that is a power
-- of two, so that the mask keeps the numbers of the levels.
use Prim.Native.Nat.{bit_and}
use native.Mathlib.Nat.{mul-div_cancel, mod-eq_of_lt}
use scrimmage.Prelude.{
  ℕ, ◌-◌, ◌*◌, ◌/◌, ◌%◌, ◌^◌, ◌≤◌, ◌<◌, ◌≡◌, ap, ap₂, ◌∙◌, arith, add_word, sub_word,
}
use scrimmage.Prelude.Masks.{some_power, bit_and-mask}
use scrimmage.PriceLevels.{Levels, price_to_level, level_to_price}

-- The distance from the reference price comes back, also where the sum wraps.
distance_lem :
    (ref d : ℕ) → ref < 2 ^ 32 → d < 2 ^ 32 → sub_word 32 (add_word 32 ref (d % 2 ^ 32)) ref ≡ d
distance_lem ref d ref_fits fits = omega arith

-- With 2 ^ k levels, 65536 at most, and a tick size that is not 0: the price of a level, as far as
-- its distance from the reference price fits 32 bits, is on that level; also where the price wraps.
pub price_to_level-level_to_price :
    (k lvl : ℕ) (l : Levels)
    → 2 ^ k ≤ 65536
    → lvl < 2 ^ k
    → 0 < l.tick_size
    → lvl * l.tick_size < 2 ^ 32
    → l.ref_price < 2 ^ 32
    → price_to_level (2 ^ k) (level_to_price lvl l) l ≡ lvl
unfolding price_to_level level_to_price
price_to_level-level_to_price k lvl l few inside ticks fits ref_fits =
    let distance = distance_lem l.ref_price (lvl * l.tick_size) ref_fits fits in
    let quotient : sub_word 32 (level_to_price lvl l) l.ref_price / l.tick_size % 2 ^ 16 ≡ lvl =
      ap (λ d. d / l.tick_size % 2 ^ 16) distance
      ∙ ap (λ q. q % 2 ^ 16) (mul-div_cancel lvl ticks)
      ∙ mod-eq_of_lt (omega (arith, inside, few)) in
    let mask : (2 ^ k - 1) % 2 ^ 16 ≡ 2 ^ k - 1 = mod-eq_of_lt (omega (arith, few, some_power k)) in
    ap₂ bit_and quotient mask ∙ bit_and-mask lvl k ∙ mod-eq_of_lt inside
