-- ===== src/Sockets/Counts.antt =====
-- Sockets that are open, counted: the order in which they were opened is forgotten.
use scrimmage.Prelude.{
  ℕ, suc, ◌+◌, ◌≡◌, ap, inl, inr, true, List, [], ◌∷◌, ◌++◌, arith, if◌then◌else◌, Bool-cases,
}
use scrimmage.Prelude.Int.{ℤ, pos, negsuc, eq_ℤ, eq_ℤ_self}
use scrimmage.Sockets.{remove}

-- How often a socket is in a list.
abbrev pub count_fd : ℤ → List ℤ → ℕ
count_fd fd [] = 0
count_fd fd (x ∷ xs) = if eq_ℤ fd x then suc (count_fd fd xs) else count_fd fd xs

pub count_fd-append :
    (fd : ℤ) (xs ys : List ℤ) → count_fd fd (xs ++ ys) ≡ count_fd fd xs + count_fd fd ys
count_fd-append fd [] ys = omega arith
count_fd-append fd (x ∷ xs) ys = ground (arith, count_fd-append fd xs ys)

eq_ℤ_sound : (a b : ℤ) → eq_ℤ a b ≡ true → a ≡ b
eq_ℤ_sound (pos a) (pos b) e = ap pos (ground arith)
eq_ℤ_sound (negsuc a) (negsuc b) e = ap negsuc (ground arith)
eq_ℤ_sound (pos a) (negsuc b) e = absurd (ground (arith, e))
eq_ℤ_sound (negsuc a) (pos b) e = absurd (ground (arith, e))

-- Removing a socket that is in the list takes it out once.
pub count_fd-remove :
    (fd x : ℤ) (xs : List ℤ) (n : ℕ)
    → count_fd x xs ≡ suc n
    → count_fd fd (remove x xs) + count_fd fd (x ∷ []) ≡ count_fd fd xs
count_fd-remove fd x [] n e = absurd (omega arith)
count_fd-remove fd x (y ∷ ys) n e = elim (Bool-cases (eq_ℤ x y)) [
  | inl same ↦ rw (same, eq_ℤ_sound x y same) (ground arith)
  | inr other ↦ let ih = count_fd-remove fd x ys n (rw other at e) in rw other (ground (arith, ih))
]

-- Removing the socket behind some others.
pub count_fd-remove_mid :
    (x fd : ℤ) (xs ys : List ℤ)
    → count_fd x (remove fd (xs ++ fd ∷ ys)) ≡ count_fd x xs + count_fd x ys
count_fd-remove_mid x fd xs ys =
    let here : count_fd fd (xs ++ fd ∷ ys) ≡ suc (count_fd fd xs + count_fd fd ys) =
      ground (arith, count_fd-append fd xs (fd ∷ ys), eq_ℤ_self fd) in
    ground (
      arith,
      count_fd-remove x fd (xs ++ fd ∷ ys) (count_fd fd xs + count_fd fd ys) here,
      count_fd-append x xs (fd ∷ ys),
    )
