-- ===== src/Framing/Frames.antt =====
-- The frames in some bytes, as a function of the bytes alone.
use scrimmage.Prelude.{
  ℕ, zero, suc, ◌+◌, ◌*◌, ◌≤◌, ◌<◌, ◌≡◌, refl, sym, subst, ◌∙◌, inl, inr, Option, none, some, List,
  [], ◌∷◌, ◌++◌, arith, ltb, length, take, drop, length-append, Option-cases, some-pair, Every,
  Bool-cases,
}
use scrimmage.Framing.Frame.{first_frame, first_frame-append, first_frame-length}

-- The frames at the front of some bytes, and the bytes behind them.
unfoldable pub frames : ℕ → List ℕ → List (List ℕ) × List ℕ
frames zero bytes = ([], bytes)
frames (suc n) bytes = elim (first_frame bytes) [
  | none ↦ ([], bytes)
  | some (frame, rest) ↦ let later = frames n rest in (frame ∷ later.0, later.1)
]

pub frames-none : (n : ℕ) (bytes : List ℕ) → first_frame bytes ≡ none → frames n bytes ≡ ([], bytes)
unfolding frames
frames-none zero bytes e = refl
frames-none (suc n) bytes e = rw (frames, e) refl

pub frames-some :
    (n : ℕ) (bytes frame rest : List ℕ)
    → first_frame bytes ≡ some (frame, rest)
    → frames (suc n) bytes ≡ (frame ∷ (frames n rest).0, (frames n rest).1)
unfolding frames
frames-some n bytes frame rest e = rw (frames, e) refl

-- As many rounds as there are bytes are enough.
pub frames_enough :
    (n m : ℕ) (bytes : List ℕ)
    → length bytes ≤ n
    → length bytes ≤ m
    → frames n bytes ≡ frames m bytes
frames_enough zero zero bytes fits fits' = refl
frames_enough zero (suc m) bytes fits fits' = elim (Option-cases (first_frame bytes)) [
  | inl e ↦ frames-none zero bytes e ∙ sym (frames-none (suc m) bytes e)
  | inr ((frame, rest), e) ↦ absurd (omega (arith, first_frame-length bytes frame rest e))
]
frames_enough (suc n) zero bytes fits fits' = elim (Option-cases (first_frame bytes)) [
  | inl e ↦ frames-none (suc n) bytes e ∙ sym (frames-none zero bytes e)
  | inr ((frame, rest), e) ↦ absurd (omega (arith, first_frame-length bytes frame rest e))
]
frames_enough (suc n) (suc m) bytes fits fits' = elim (Option-cases (first_frame bytes)) [
  | inl e ↦ frames-none (suc n) bytes e ∙ sym (frames-none (suc m) bytes e)
  | inr ((frame, rest), e) ↦
      let size = first_frame-length bytes frame rest e in
      let ih = frames_enough n m rest (omega (arith, size)) (omega (arith, size)) in
      rw (frames-some n bytes frame rest e, frames-some m bytes frame rest e, ih)
]

-- The frames of some bytes stay the frames when more bytes follow.
pub frames-append :
    (n m k : ℕ) (bytes later : List ℕ)
    → length bytes ≤ n
    → length (bytes ++ later) ≤ m
    → length (bytes ++ later) ≤ k
    → let front = frames n bytes in
      let back = frames k (front.1 ++ later) in
      frames m (bytes ++ later) ≡ (front.0 ++ back.0, back.1)
frames-append zero m k bytes later fits fits' fits'' = elim (Option-cases (first_frame bytes)) [
  | inl e ↦ rw (frames-none zero bytes e) (frames_enough m k (bytes ++ later) fits' fits'')
  | inr ((frame, rest), e) ↦ absurd (omega (arith, first_frame-length bytes frame rest e))
]
frames-append (suc n) m k bytes later fits fits' fits'' = elim (Option-cases (first_frame bytes)) [
  | inl e ↦ rw (frames-none (suc n) bytes e) (frames_enough m k (bytes ++ later) fits' fits'')
  | inr ((frame, rest), e) ↦
      let size = first_frame-length bytes frame rest e in
      let joined = length-append bytes later in
      let joined' = length-append rest later in
      let ih =
        frames-append n m k rest later (omega (arith, size))
          (omega (arith, size, joined, joined', fits'))
          (omega (arith, size, joined, joined', fits'')) in
      rw (
        frames_enough m (suc m) (bytes ++ later) fits' (omega (arith, fits')),
        frames-some m (bytes ++ later) frame (rest ++ later)
            (first_frame-append bytes later frame rest e),
        frames-some n bytes frame rest e,
        ih,
      )
]

pub frames-rest :
    (n : ℕ) (bytes : List ℕ) → length bytes ≤ n → first_frame (frames n bytes).1 ≡ none
frames-rest zero bytes fits = elim (Option-cases (first_frame bytes)) [
  | inl e ↦ rw (frames-none zero bytes e) e
  | inr ((frame, rest), e) ↦ absurd (omega (arith, first_frame-length bytes frame rest e))
]
frames-rest (suc n) bytes fits = elim (Option-cases (first_frame bytes)) [
  | inl e ↦ rw (frames-none (suc n) bytes e) e
  | inr ((frame, rest), e) ↦
      rw (frames-some n bytes frame rest e)
        (frames-rest n rest (omega (arith, first_frame-length bytes frame rest e)))
]

abbrev pub IsByte : ℕ → Type 0
IsByte b = b < 256

Every-drop : (n : ℕ) (xs : List ℕ) → Every IsByte xs → Every IsByte (drop n xs)
Every-drop zero xs h = h
Every-drop (suc n) [] h = h
Every-drop (suc n) (x ∷ xs) h = Every-drop n xs h.1

pub Every-append : (xs ys : List ℕ) → Every IsByte xs → Every IsByte ys → Every IsByte (xs ++ ys)
Every-append [] ys h h' = h'
Every-append (x ∷ xs) ys h h' = (h.0, Every-append xs ys h.1 h')

first_frame-bytes :
    (bytes frame rest : List ℕ)
    → first_frame bytes ≡ some (frame, rest)
    → Every IsByte bytes
    → Every IsByte rest
unfolding first_frame
first_frame-bytes [] frame rest e h = cc
first_frame-bytes (lo ∷ []) frame rest e h = cc
first_frame-bytes (lo ∷ hi ∷ bytes) frame rest e h =
    let n = lo + 256 * hi in
    elim (Bool-cases (ltb (length bytes) n)) [
      | inl short ↦ ground arith
      | inr enough ↦
          let parts : ◌≡◌ {A = Option (List ℕ × List ℕ)} (some (take n bytes, drop n bytes))
              (some (frame, rest)) =
            rw enough at e in
          subst (Every IsByte) (sym (some-pair parts).1) (Every-drop n bytes h.1.1)
    ]

pub frames-bytes : (n : ℕ) (bytes : List ℕ) → Every IsByte bytes → Every IsByte (frames n bytes).1
unfolding frames
frames-bytes zero bytes h = h
frames-bytes (suc n) bytes h = elim (Option-cases (first_frame bytes)) [
  | inl e ↦ rw (frames-none (suc n) bytes e) h
  | inr ((frame, rest), e) ↦
      rw (frames-some n bytes frame rest e)
        (frames-bytes n rest (first_frame-bytes bytes frame rest e h))
]

-- Bytes that hold no whole frame are at most 65536.
pub short_rest :
    (bytes : List ℕ) → first_frame bytes ≡ none → Every IsByte bytes → length bytes ≤ 65536
unfolding first_frame
short_rest [] e h = omega arith
short_rest (lo ∷ []) e h = omega arith
short_rest (lo ∷ hi ∷ bytes) e h = let small = h.0 in let small' = h.1.0 in ground arith
