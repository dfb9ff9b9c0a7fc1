-- ===== src/Prelude/Words.antt =====
-- `size_t` and `uint64_t` arithmetic, and arrays as maps from an index.
use Prim.Native.Nat.{ℕ, ◌+◌, ◌-◌, ◌%◌, ◌^◌}
use mathlib.Core.Path.{◌≡◌}
use mathlib.Core.Logic.{◌≢◌}
use native.Mathlib.Omega.{arith}
use scrimmage.Prelude.Tests.{◌==◌, if◌then◌else◌}

-- Unsigned addition, subtraction and multiplication of `w` bits.
abbrev pub add_word : ℕ → ℕ → ℕ → ℕ
add_word w a b = (a + b) % 2 ^ w

abbrev pub sub_word : ℕ → ℕ → ℕ → ℕ
sub_word w a b = (a + 2 ^ w - b) % 2 ^ w

module _ {ℓ} {A : Type ℓ} where
  -- The array `f` after `f[i] = v`.
  abbrev pub update : (ℕ → A) → ℕ → A → ℕ → A
  update f i v j = if i == j then v else f j

  pub update_self : (f : ℕ → A) (i : ℕ) (v : A) → update f i v i ≡ v
  update_self f i v = ground arith

  pub update_ne : (f : ℕ → A) (i j : ℕ) (v : A) → i ≢ j → update f i v j ≡ f j
  update_ne f i j v h = ground arith
