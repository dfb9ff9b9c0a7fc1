-- ===== src/RingBuffer/Cases.antt =====
-- What one pop and one push of SpScRingBuffer.h do to the contents of a valid ring.
use scrimmage.Prelude.{
  ℕ, ◌-◌, ◌≡◌, refl, ap, ◌⊎◌, inl, inr, true, false, none, some, List, [], ◌∷◌, ◌++◌, arith, ◌==◌,
  length, Bool-cases, if◌then◌else◌,
}
use scrimmage.RingBuffer.{Ring, IsValid, increment, try_push, try_pop}
use scrimmage.RingBuffer.Queue
use scrimmage.RingBuffer.Window.{increment-lt}
use scrimmage.RingBuffer.Refine.{
  contents, view, IsValid-at, contents_pop, contents_empty, try_push_refines,
}

-- A pop on a valid ring, by whether it holds something.
abbrev pub PopCase {ℓ} : {T : Type ℓ} → ℕ → Ring T → Type ℓ
PopCase {T} capacity r =
    ((contents capacity r ≡ []) × (try_pop capacity r ≡ (false, none, r)))
    ⊎ ((x : T) × (rest : List T) × (s : Ring T) × (contents capacity r ≡ x ∷ rest)
        × (try_pop capacity r ≡ (true, some x, s))
        × (contents capacity s ≡ rest)
        × IsValid capacity s)

pub pop_cases {ℓ} :
    {T : Type ℓ} (capacity : ℕ) (r : Ring T) → IsValid capacity r → PopCase capacity r
unfolding try_pop
pop_cases capacity r v = elim (Bool-cases (r.tail == r.head)) [
  | inl empty ↦ inl (contents_empty r v (ground arith), rw empty)
  | inr left ↦
      let s = record r { tail = increment capacity r.tail } in
      inr (
        r.buffer r.tail,
        contents capacity s,
        s,
        contents_pop r v (ground arith),
        rw left,
        refl,
        IsValid-at _ v v.head_in (increment-lt v.addressable r.tail v.tail_in),
      )
]

-- A push that is taken adds the item, and one that is refused changes nothing.
pub contents-try_push {ℓ} :
    {T : Type ℓ} (capacity : ℕ) (r : Ring T) (x : T)
    → IsValid capacity r
    → let run = try_push capacity r x in
      contents capacity run.1
      ≡ (if run.0 then contents capacity r ++ x ∷ [] else contents capacity r)
unfolding view Queue.enqueue
contents-try_push capacity r x v =
    let step = (try_push_refines r x v).0 in
    elim (Bool-cases (length (contents capacity r) == capacity - 1)) [
      | inl full ↦ let both = rw full at step in rw (ap (λ t. t.0) both) (ap (λ t. t.1.items) both)
      | inr room ↦ let both = rw room at step in rw (ap (λ t. t.0) both) (ap (λ t. t.1.items) both)
    ]
