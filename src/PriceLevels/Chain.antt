-- ===== src/PriceLevels/Chain.antt =====
-- Chains of entries: `next` is the link of each, and a chain ends where it reaches `nil`.
use scrimmage.Prelude.{ℕ, ◌<◌, ◌≡◌, ◌≢◌, List, [], ◌∷◌, ◌++◌, arith, ◌∈◌, AreDistinct, ne_of_mem}
use scrimmage.PriceLevels.{nil}

-- From `i` the links lead through `xs` to `e`.
abbrev pub Chain : (next : ℕ → ℕ) → ℕ → List ℕ → ℕ → Type 0
Chain next i [] e = i ≡ e
Chain next i (x ∷ xs) e = (i ≡ x) × ((x < nil) × Chain next (next x) xs e)

-- The last of `x ∷ xs`.
abbrev pub last_of : ℕ → List ℕ → ℕ
last_of x [] = x
last_of x (y ∷ ys) = last_of y ys

pub Chain-same :
    (f g : ℕ → ℕ) (i e : ℕ) (xs : List ℕ)
    → ((p : ℕ) → p ∈ xs → f p ≡ g p)
    → Chain f i xs e
    → Chain g i xs e
Chain-same f g i e [] same h = h
Chain-same f g i e (x ∷ xs) same h =
    let there = Chain-same f g (f x) e xs (λ p m. same p (ground arith)) h.1.1 in
    (h.0, (h.1.0, (rw (same x (ground arith)) at there)))

pub last_of-mem : (x : ℕ) (xs : List ℕ) → last_of x xs ∈ (x ∷ xs)
last_of-mem x [] = ground arith
last_of-mem x (y ∷ ys) = ground (arith, last_of-mem y ys)

-- The last entry is linked to `q`.
pub Chain-relink :
    (f g : ℕ → ℕ) (i e q x : ℕ) (xs : List ℕ)
    → AreDistinct (x ∷ xs)
    → ((p : ℕ) → p ≢ last_of x xs → f p ≡ g p)
    → g (last_of x xs) ≡ q
    → Chain f i (x ∷ xs) e
    → Chain g i (x ∷ xs) q
Chain-relink f g i e q x [] d same to h = (h.0, (h.1.0, to))
Chain-relink f g i e q x (y ∷ ys) d same to h =
    let there = Chain-relink f g (f x) e q y ys d.1 same to h.1.1 in
    let apart : x ≢ last_of y ys = ne_of_mem (y ∷ ys) d.0 (last_of-mem y ys) in
    (h.0, (h.1.0, (rw (same x apart) at there)))

pub Chain-append :
    (f : ℕ → ℕ) (i m e : ℕ) (xs ys : List ℕ)
    → Chain f i xs m
    → Chain f m ys e
    → Chain f i (xs ++ ys) e
Chain-append f i m e [] ys h h' = rw h h'
Chain-append f i m e (x ∷ xs) ys h h' = (h.0, (h.1.0, Chain-append f (f x) m e xs ys h.1.1 h'))

-- A chain through `p`, cut there.
pub Chain-split :
    (f : ℕ → ℕ) (i e p : ℕ) (xs ys : List ℕ)
    → Chain f i (xs ++ (p ∷ ys)) e
    → Chain f i xs p × ((p < nil) × Chain f (f p) ys e)
Chain-split f i e p [] ys h = (h.0, h.1)
Chain-split f i e p (x ∷ xs) ys h =
    let rest = Chain-split f (f x) e p xs ys h.1.1 in ((h.0, (h.1.0, rest.0)), rest.1)
