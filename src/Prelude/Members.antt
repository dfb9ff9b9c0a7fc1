-- ===== src/Prelude/Members.antt =====
-- Membership and distinctness of numbers in a list, as Boolean tests that the tactics split on.
use Prim.Native.Nat.{ℕ, zero, suc}
use mathlib.Core.Path.{◌≡◌, refl, ap₂, subst}
use mathlib.Core.Logic.{◌≢◌, ◌↔◌, inl, inr}
use mathlib.Core.Bool.{Bool, true, false, ◌||◌}
use mathlib.Core.List.{List, [], ◌∷◌, ◌++◌, map}
use native.Mathlib.Omega.{arith}
use scrimmage.Prelude.Tests.{◌==◌, Bool-cases}
use scrimmage.Prelude.Lists.{take, drop}

abbrev pub has : ℕ → List ℕ → Bool
has a [] = false
has a (x ∷ xs) = (a == x) || has a xs

infix 40 ◌∈◌ ◌∉◌
abbrev pub ◌∈◌ : ℕ → List ℕ → Type 0
a ∈ xs = has a xs ≡ true

abbrev pub ◌∉◌ : ℕ → List ℕ → Type 0
a ∉ xs = has a xs ≡ false

-- No number stands twice.
abbrev pub AreDistinct : List ℕ → Type 0
AreDistinct [] = Unit
AreDistinct (x ∷ xs) = (x ∉ xs) × AreDistinct xs

pub has-append : (a : ℕ) (xs ys : List ℕ) → has a (xs ++ ys) ≡ (has a xs || has a ys)
has-append a [] ys = refl
has-append a (x ∷ xs) ys = ground (arith, has-append a xs ys)

pub AreDistinct-snoc : (xs : List ℕ) (a : ℕ) → AreDistinct xs → a ∉ xs → AreDistinct (xs ++ a ∷ [])
AreDistinct-snoc [] a d out = (refl, tt)
AreDistinct-snoc (x ∷ xs) a d out =
    (ground (arith, has-append x xs (a ∷ [])), AreDistinct-snoc xs a d.1 (ground arith))

-- A predicate on every member of a list.
abbrev pub Every {ℓ κ} : {A : Type ℓ} → (A → Type κ) → List A → Type κ
Every P [] = Unit
Every P (x ∷ xs) = P x × Every P xs

pub map_same {ℓ} :
    {A : Type ℓ} (f g : ℕ → A) (xs : List ℕ) → ((p : ℕ) → p ∈ xs → f p ≡ g p) → map f xs ≡ map g xs
map_same f g [] same = refl
map_same f g (x ∷ xs) same =
    ap₂ ◌∷◌ (same x (ground arith)) (map_same f g xs (λ p m. same p (ground arith)))

pub Every_at {ℓ κ} :
    {A : Type ℓ} (P : A → Type κ) (xs : List A) (y : A) (ys : List A) → Every P (xs ++ y ∷ ys) → P y
Every_at P [] y ys h = h.0
Every_at P (x ∷ xs) y ys h = Every_at P xs y ys h.1

pub ne_of_mem : {a p : ℕ} (xs : List ℕ) → a ∉ xs → p ∈ xs → a ≢ p
ne_of_mem xs out here e = cc

pub Every-of_mem {ℓ κ} :
    (P : ℕ → Type ℓ) (Q : ℕ → Type κ) (xs : List ℕ)
    → ((p : ℕ) → p ∈ xs → P p → Q p)
    → Every P xs
    → Every Q xs
Every-of_mem P Q [] step h = tt
Every-of_mem P Q (x ∷ xs) step h =
    (step x (ground arith) h.0, Every-of_mem P Q xs (λ p m. step p (ground arith)) h.1)

pub has-take-drop : (p n : ℕ) (xs : List ℕ) → has p xs ≡ (has p (take n xs) || has p (drop n xs))
has-take-drop p zero xs = refl
has-take-drop p (suc n) [] = refl
has-take-drop p (suc n) (x ∷ xs) = ground (arith, has-take-drop p n xs)

pub AreDistinct-drop : (n : ℕ) (xs : List ℕ) → AreDistinct xs → AreDistinct (drop n xs)
AreDistinct-drop zero xs d = d
AreDistinct-drop (suc n) [] d = d
AreDistinct-drop (suc n) (x ∷ xs) d = AreDistinct-drop n xs d.1

-- In a list with no repetition a number is on one side of a cut only.
pub take_of_drop : (p n : ℕ) (xs : List ℕ) → AreDistinct xs → p ∈ drop n xs → p ∉ take n xs
take_of_drop p zero xs d here = refl
take_of_drop p (suc n) [] d here = refl
take_of_drop p (suc n) (x ∷ xs) d here =
    ground (arith, take_of_drop p n xs d.1 here, has-take-drop p n xs)

pub mem-Every {ℓ} : (P : ℕ → Type ℓ) (p : ℕ) (xs : List ℕ) → Every P xs → p ∈ xs → P p
mem-Every P p [] h here = cc
mem-Every P p (x ∷ xs) h here = elim (Bool-cases (p == x)) [
  | inl same ↦ let e : x ≡ p = ground arith in subst P e h.0
  | inr other ↦ mem-Every P p xs h.1 (ground arith)
]

pub Every-map {ℓ κ} :
    {A : Type ℓ} (P : A → Type κ) (f : ℕ → A) (xs : List ℕ)
    → Every P (map f xs) ↔ Every (λ p. P (f p)) xs
Every-map P f [] = (λ h. h, λ h. h)
Every-map P f (x ∷ xs) = let ih = Every-map P f xs in (λ h. (h.0, ih.0 h.1), λ h. (h.0, ih.1 h.1))

pub Every-of_all {ℓ} : (P : ℕ → Type ℓ) (xs : List ℕ) → ((p : ℕ) → p ∈ xs → P p) → Every P xs
Every-of_all P [] h = tt
Every-of_all P (x ∷ xs) h = (h x (ground arith), Every-of_all P xs (λ p m. h p (ground arith)))
