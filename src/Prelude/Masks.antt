-- ===== src/Prelude/Masks.antt =====
-- Masks of ones: the low bits of a number.
use Prim.Native.Nat.{
  ℕ, zero, suc, ◌+◌, ◌-◌, ◌*◌, ◌/◌, ◌%◌, ◌^◌, ◌≤◌, ◌<◌, min, bit_and, bit_and-bitwise, digits,
}
use mathlib.Core.Path.{◌≡◌, refl, sym, ap, ap₂, ◌∙◌}
use native.Mathlib.Nat.{
  pow-suc, mod-eq_of_lt, mod-lt, mod-one, zero-mod, mod-add-div, add-mul-mod_self_left, mul_assoc,
}
use native.Mathlib.Omega.{arith}

pub some_power : (k : ℕ) → 0 < 2 ^ k
some_power zero = omega arith
some_power (suc k) = omega (arith, some_power k, pow-suc 2 k)

-- The low bits of twice a number and one bit more.
low_bits : (q r m : ℕ) → 0 < m → r ≤ 1 → q % m * 2 + r ≡ (q * 2 + r) % (2 * m)
low_bits q r m some bit =
    let whole = mod-add-div q m in
    let twice = mul_assoc 2 m (q / m) in
    let below : q % m * 2 + r < 2 * m = omega (arith, mod-lt q some, bit) in
    let split : q % m * 2 + r + 2 * m * (q / m) ≡ q * 2 + r = omega (arith, whole, twice) in
    sym (mod-eq_of_lt below)
    ∙ sym (add-mul-mod_self_left (q % m * 2 + r) (2 * m) (q / m))
    ∙ ap (λ n. n % (2 * m)) split

digits-none : (n a : ℕ) → digits (λ b. zero) min n a 0 ≡ 0
digits-none zero a = refl
digits-none (suc n) zero = refl
digits-none (suc n) (suc a) = omega (arith, digits-none n (suc a / 2))

digits-mask : (n a k : ℕ) → a ≤ n → digits (λ b. zero) min n a (2 ^ k - 1) ≡ a % 2 ^ k
digits-mask zero zero k small = sym (zero-mod (2 ^ k))
digits-mask zero (suc a) k small = absurd (omega (arith, small))
digits-mask (suc n) zero k small = sym (zero-mod (2 ^ k))
digits-mask (suc n) (suc a) zero small = digits-none (suc n) (suc a) ∙ sym (mod-one (suc a))
digits-mask (suc n) (suc a) (suc k) small =
    let twice = pow-suc 2 k in
    let some = some_power k in
    let half : (2 ^ suc k - 1) / 2 ≡ 2 ^ k - 1 = omega (arith, twice, some) in
    let odd : (2 ^ suc k - 1) % 2 ≡ 1 = omega (arith, twice, some) in
    let rest : digits (λ b. zero) min n (suc a / 2) (2 ^ k - 1) ≡ suc a / 2 % 2 ^ k =
      digits-mask n (suc a / 2) k (omega (arith, small)) in
    let bit : min (suc a % 2) 1 ≡ suc a % 2 = omega arith in
    let halves : suc a / 2 * 2 + suc a % 2 ≡ suc a = omega arith in
    let power : 2 * 2 ^ k ≡ 2 ^ suc k = omega (arith, twice) in
    ap₂ (λ b c. digits (λ x. zero) min n (suc a / 2) b * 2 + min (suc a % 2) c) half odd
    ∙ ap₂ (λ q r. q * 2 + r) rest bit
    ∙ low_bits (suc a / 2) (suc a % 2) (2 ^ k) some (omega arith)
    ∙ ap₂ (λ x m. x % m) halves power

-- A mask of `k` ones keeps the low `k` bits.
pub bit_and-mask : (a k : ℕ) → bit_and a (2 ^ k - 1) ≡ a % 2 ^ k
bit_and-mask a k = bit_and-bitwise a (2 ^ k - 1) ∙ digits-mask a a k (omega arith)
