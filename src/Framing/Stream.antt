-- ===== src/Framing/Stream.antt =====
-- A byte stream through the framer: whatever pieces it comes in, the frames are the same.
use scrimmage.Prelude.{
  ℕ, zero, suc, ◌+◌, ◌%◌, ◌^◌, ◌≤◌, ◌<◌, ◌≡◌, refl, sym, ◌∙◌, inl, inr, false, Option, none, some,
  List, [], ◌∷◌, ◌++◌, arith, ltb, length, take, drop, add_word, length-append, append_assoc,
  append-nil, take_all, drop_all, Option-cases, Every,
}
use scrimmage.Framing.{encode, Framer, init, push, next_frame}
use scrimmage.Framing.Frame.{first_frame, next_frame_lem, first_frame-length, first_frame-encode}
use scrimmage.Framing.Frames.{
  frames, frames-none, frames-some, frames_enough, frames-append, frames-rest, IsByte, Every-append,
  frames-bytes, short_rest,
}

-- The calls of `nextFrame` until one returns false.
unfoldable pub drain : ℕ → Framer → List (List ℕ) × Framer
drain zero f = ([], f)
drain (suc n) f =
    let (result, g) = next_frame f in
    elim result [
      | none ↦ ([], g)
      | some frame ↦ let later = drain n g in (frame ∷ later.0, later.1)
    ]

drain_lem :
    (n : ℕ) (f : Framer)
    → drain n f ≡ ((frames n f.buffer).0, record f { buffer = (frames n f.buffer).1 })
unfolding drain frames
drain_lem zero f = refl
drain_lem (suc n) f = elim (Option-cases (first_frame f.buffer)) [
  | inl e ↦
      rw (drain, next_frame_lem f, e, next_frame_lem f, e, frames-none (suc n) f.buffer e) refl
  | inr ((frame, rest), e) ↦
      rw
        (
          drain,
          next_frame_lem f,
          e,
          next_frame_lem f,
          e,
          drain_lem n (record f { buffer = rest }),
          frames-some n f.buffer frame rest e,
        )
        refl
]

-- A receiver: pushes each piece that arrives and takes the frames that are complete.
unfoldable pub receive : List (List ℕ) → Framer → Option (List (List ℕ) × Framer)
receive [] f = some ([], f)
receive (c ∷ cs) f = elim (push c f) [
  | none ↦ none
  | some g ↦
      let front = drain (length g.buffer) g in
      elim (receive cs front.1) [ none ↦ none | some (later, h) ↦ some (front.0 ++ later, h) ]
]

-- The bytes of all pieces, and what the sender writes for some messages.
abbrev pub joined : List (List ℕ) → List ℕ
joined [] = []
joined (c ∷ cs) = c ++ joined cs

abbrev pub stream : List (List ℕ) → List ℕ
stream [] = []
stream (p ∷ ps) = encode p [] ++ stream ps

first_of_stream :
    (p : List ℕ) (later : List ℕ)
    → length p < 65536
    → first_frame (encode p [] ++ later) ≡ some (p, later)
first_of_stream p later small =
    let whole : length p % 2 ^ 16 ≡ length p = omega (arith, small) in
    let first = first_frame-encode p later in rw (whole, take_all p, drop_all p) at first

frames-stream :
    (ps : List (List ℕ)) (n : ℕ)
    → Every (λ p. length p < 65536) ps
    → length (stream ps) ≤ n
    → frames n (stream ps) ≡ (ps, [])
unfolding first_frame
frames-stream [] n small fits = frames-none n [] refl
frames-stream (p ∷ ps) zero small fits =
    let first = first_of_stream p (stream ps) small.0 in
    absurd (omega (arith, first_frame-length (stream (p ∷ ps)) p (stream ps) first))
frames-stream (p ∷ ps) (suc n) small fits =
    let first = first_of_stream p (stream ps) small.0 in
    let size = first_frame-length (stream (p ∷ ps)) p (stream ps) first in
    frames-some n (stream (p ∷ ps)) p (stream ps) first
    ∙ (let ih = frames-stream ps n small.1 (omega (arith, size)) in rw ih refl)

frames-length : (n : ℕ) (bytes : List ℕ) → length (frames n bytes).1 ≤ length bytes
unfolding frames
frames-length zero bytes = omega arith
frames-length (suc n) bytes = elim (Option-cases (first_frame bytes)) [
  | inl e ↦ rw (frames-none (suc n) bytes e) (omega arith)
  | inr ((frame, rest), e) ↦
      rw (frames-some n bytes frame rest e)
        (omega (arith, frames-length n rest, first_frame-length bytes frame rest e))
]

push_room :
    (c b : List ℕ) (max_size : ℕ)
    → length b + length c ≤ max_size
    → max_size < 2 ^ 64
    → push c (record { buffer = b; max_frame_size = max_size })
      ≡ some (record { buffer = b ++ c; max_frame_size = max_size })
unfolding push
push_room c b max_size fits word =
    let room : ltb max_size (add_word 64 (length b) (length c)) ≡ false = ground arith in
    rw room refl

receive_lem :
    (cs : List (List ℕ)) (b : List ℕ) (max_size : ℕ)
    → first_frame b ≡ none
    → Every IsByte b
    → Every (Every IsByte) cs
    → Every (λ c. length c + 65536 ≤ max_size) cs
    → max_size < 2 ^ 64
    → let all = b ++ joined cs in
      let d = frames (length all) all in
      receive cs (record { buffer = b; max_frame_size = max_size })
      ≡ some (d.0, record { buffer = d.1; max_frame_size = max_size })
unfolding receive
receive_lem [] b max_size e bb bs fits word = rw (append-nil b, frames-none (length b) b e) refl
receive_lem (c ∷ cs) b max_size e bb bs fits word =
    let whole = b ++ c in
    let rest = frames (length whole) whole in
    let full : ◌≤◌ (length whole) (length whole) = omega arith in
    let short = short_rest b e bb in
    let pushed = push_room c b max_size (omega (arith, short, fits.0)) word in
    let ih =
      receive_lem cs rest.1 max_size (frames-rest (length whole) whole full)
        (frames-bytes (length whole) whole (Every-append b c bb bs.0)) bs.1 fits.1 word in
    let all = whole ++ joined cs in
    let less = frames-length (length whole) whole in
    let fuel =
      frames_enough (length (rest.1 ++ joined cs)) (length all) (rest.1 ++ joined cs) (omega arith)
        (omega (arith, less, length-append rest.1 (joined cs), length-append whole (joined cs))) in
    let split =
      frames-append (length whole) (length all) (length all) whole (joined cs) full (omega arith)
        (omega arith) in
    let drained = drain_lem (length whole) (record { buffer = whole; max_frame_size = max_size }) in
    rw (receive, pushed, drained, ih, drained, sym (append_assoc b c (joined cs)), split, fuel) refl

module _ (messages chunks : List (List ℕ)) (max_size : ℕ) where
  -- Messages below 65536 bytes, encoded one behind the other and received in any pieces that each
  -- leave room for the largest unfinished frame, come out of the framer as they were, in order, and
  -- the framer is empty behind them. No push overflows, and as many rounds of `nextFrame` as there
  -- are bytes are enough.
  pub receive-stream :
      joined chunks ≡ stream messages
      → Every (λ p. length p < 65536) messages
      → Every (Every IsByte) chunks
      → Every (λ c. length c + 65536 ≤ max_size) chunks
      → max_size < 2 ^ 64
      → receive chunks (init max_size) ≡ some (messages, init max_size)
  unfolding first_frame init
  receive-stream same small bytes fits word =
      rw
        (
          receive_lem chunks [] max_size refl tt bytes fits word,
          same,
          frames-stream messages (length (stream messages)) small (omega arith),
        )
        refl

-- `nextFrame` on what `encode` wrote delivers the payload up to its length modulo 65536: a payload of
-- 65536 bytes or more is cut, and its other bytes stay in the buffer as if they were the next frame.
pub next_frame-encode :
    (payload later : List ℕ) (max_size : ℕ)
    → let n = length payload % 2 ^ 16 in
      next_frame (record { buffer = encode payload [] ++ later; max_frame_size = max_size }) ≡ (
        some (take n payload),
        record { buffer = drop n payload ++ later; max_frame_size = max_size },
      )
next_frame-encode payload later max_size =
    rw
      (
        next_frame_lem (record { buffer = encode payload [] ++ later; max_frame_size = max_size }),
        first_frame-encode payload later,
      )
      refl
