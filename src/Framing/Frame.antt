-- ===== src/Framing/Frame.antt =====
-- `TcpFramer::nextFrame` on the buffer's bytes.
use scrimmage.Prelude.{
  ℕ, suc, ◌+◌, ◌*◌, ◌/◌, ◌%◌, ◌^◌, ◌≤◌, ◌≡◌, refl, inl, inr, true, false, Option, none, some, List,
  [], ◌∷◌, ◌++◌, arith, ltb, if◌then◌else◌, length, take, drop, length-append, length-take,
  length-drop, take-append_le, drop-append_le, Bool-cases, some-pair,
}
use scrimmage.Framing.{encode, Framer, frame_length, next_frame}
use scrimmage.Framing.Encode.{encode_lem}

-- The first frame of some bytes, and the bytes behind it.
unfoldable pub first_frame : List ℕ → Option (List ℕ × List ℕ)
first_frame [] = none
first_frame (lo ∷ []) = none
first_frame (lo ∷ hi ∷ rest) =
    let n = lo + 256 * hi in if ltb (length rest) n then none else some (take n rest, drop n rest)

-- `nextFrame` takes the first frame off the buffer, and changes nothing if it is not complete.
pub next_frame_lem :
    (f : Framer)
    → next_frame f ≡ (elim (first_frame f.buffer) [
      | none ↦ (none, f)
      | some (frame, rest) ↦ (some frame, record f { buffer = rest })
    ])
unfolding next_frame frame_length first_frame
next_frame_lem f = go f.buffer f.max_frame_size
  where
    go :
        (bytes : List ℕ) (n : ℕ)
        → next_frame (record { buffer = bytes; max_frame_size = n }) ≡ (elim (first_frame bytes) [
          | none ↦ (none, record { buffer = bytes; max_frame_size = n })
          | some (frame, rest) ↦ (some frame, record { buffer = rest; max_frame_size = n })
        ])
    go [] n = refl
    go (lo ∷ []) n = refl
    go (lo ∷ hi ∷ rest) n =
        let two : 2 + (lo + 256 * hi) ≡ suc (suc (lo + 256 * hi)) = omega arith in
        rw two (elim (Bool-cases (ltb (length rest) (lo + 256 * hi))) [
          | inl short ↦
              let short' : ltb (suc (suc (length rest))) (suc (suc (lo + 256 * hi))) ≡ true =
                ground arith in
              rw (short, short')
          | inr full ↦
              let full' : ltb (suc (suc (length rest))) (suc (suc (lo + 256 * hi))) ≡ false =
                ground arith in
              rw (full, full')
        ])

-- Bytes that come later do not change a frame that is complete.
pub first_frame-append :
    (bytes later frame rest : List ℕ)
    → first_frame bytes ≡ some (frame, rest)
    → first_frame (bytes ++ later) ≡ some (frame, rest ++ later)
unfolding first_frame
first_frame-append [] later frame rest e = cc
first_frame-append (lo ∷ []) later frame rest e = cc
first_frame-append (lo ∷ hi ∷ bytes) later frame rest e =
    let n = lo + 256 * hi in
    elim (Bool-cases (ltb (length bytes) n)) [
      | inl short ↦ ground arith
      | inr enough ↦
          let parts : ◌≡◌ {A = Option (List ℕ × List ℕ)} (some (take n bytes, drop n bytes))
              (some (frame, rest)) =
            rw enough at e in
          let both = some-pair parts in
          let fits : n ≤ length bytes = ground arith in
          let enough' : ltb (length (bytes ++ later)) n ≡ false =
            ground (arith, length-append bytes later) in
          rw (
            enough',
            take-append_le n bytes later fits,
            drop-append_le n bytes later fits,
            both.0,
            both.1,
          )
    ]

pub first_frame-length :
    (bytes frame rest : List ℕ)
    → first_frame bytes ≡ some (frame, rest)
    → length bytes ≡ 2 + length frame + length rest
unfolding first_frame
first_frame-length [] frame rest e = cc
first_frame-length (lo ∷ []) frame rest e = cc
first_frame-length (lo ∷ hi ∷ bytes) frame rest e =
    ground (arith, length-take {0} (lo + 256 * hi) bytes, length-drop {0} (lo + 256 * hi) bytes)

-- What `encode` wrote is cut at its length modulo 65536: the frame that comes out, and what is left
-- in front of the next one.
pub first_frame-encode :
    (payload later : List ℕ)
    → let n = length payload % 2 ^ 16 in
      first_frame (encode payload [] ++ later) ≡ some (take n payload, drop n payload ++ later)
unfolding first_frame
first_frame-encode payload later =
    let n = length payload % 2 ^ 16 in
    let fits : n ≤ length payload = omega arith in
    let value : n % 256 + 256 * (n / 256) ≡ n = omega arith in
    let enough : ltb (length (payload ++ later)) n ≡ false =
      ground (arith, length-append payload later) in
    rw (
      encode_lem,
      value,
      enough,
      take-append_le n payload later fits,
      drop-append_le n payload later fits,
    )
