-- ===== src/Framing.antt =====
-- libs/networking/tcp/TcpEncoder.h and TcpFramer.h: messages behind a two-byte length, and back.
-- A byte is a number below 256. `memcpy` of the length is little-endian, as on the x86-64 and ARM64
-- machines that the program is built for.
pub mod Encode
pub mod Frame
pub mod Frames
pub mod Stream
mod Tests
use scrimmage.Prelude.{
  ℕ, zero, suc, ◌+◌, ◌-◌, ◌*◌, ◌/◌, ◌%◌, ◌^◌, Bool, true, false, Option, none, some, List, [], ◌∷◌,
  ◌++◌, ltb, if◌then◌else◌, length, take, drop, replicate, add_word,
}

-- `out.resize(n)`, which only grows here.
unfoldable pub grow : ℕ → List ℕ → List ℕ
grow n out = out ++ replicate (n - length out) 0

-- `memcpy(dst + i, src, ...)`; what would lie behind the end is lost.
unfoldable pub copy_at : ℕ → List ℕ → List ℕ → List ℕ
copy_at zero [] dst = dst
copy_at zero (x ∷ src) [] = []
copy_at zero (x ∷ src) (y ∷ dst) = x ∷ copy_at zero src dst
copy_at (suc i) src [] = []
copy_at (suc i) src (y ∷ dst) = y ∷ copy_at i src dst

-- The bytes of a `uint16_t`.
abbrev pub bytes_16 : ℕ → List ℕ
bytes_16 n = n % 256 ∷ n / 256 ∷ []

-- `encode`: appends a frame to `out`.
unfoldable pub encode : List ℕ → List ℕ → List ℕ
encode payload out =
    let frame_len = length payload % 2 ^ 16 in
    let grown = grow (length out + 2 + length payload) out in
    let headed = copy_at (length grown - (2 + length payload)) (bytes_16 frame_len) grown in
    copy_at (length headed - length payload) payload headed

pub record Framer : Type 0 where
  pub buffer : List ℕ
  pub max_frame_size : ℕ

unfoldable pub init : ℕ → Framer
init max_frame_size = record { buffer = []; max_frame_size = max_frame_size }

-- `push`; `none` is `std::overflow_error`, thrown before anything changes.
unfoldable pub push : List ℕ → Framer → Option Framer
push bytes f =
    if ltb f.max_frame_size (add_word 64 (length f.buffer) (length bytes))
    then none
    else some (record f { buffer = f.buffer ++ bytes })

-- The length that the first two bytes of the buffer hold.
unfoldable pub frame_length : List ℕ → Option ℕ
frame_length [] = none
frame_length (lo ∷ []) = none
frame_length (lo ∷ hi ∷ rest) = some (lo + 256 * hi)

-- `nextFrame`: the frame is there if it returns true.
unfoldable pub next_frame : Framer → Option (List ℕ) × Framer
next_frame f = elim (frame_length f.buffer) [
  | none ↦ (none, f)
  | some n ↦
      if ltb (length f.buffer) (2 + n)
      then (none, f)
      else (some (take n (drop 2 f.buffer)), record f { buffer = drop (2 + n) f.buffer })
]
