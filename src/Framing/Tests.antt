-- ===== src/Framing/Tests.antt =====
-- Runs of the framing, and the theorems on concrete bytes.
use scrimmage.Prelude.{ℕ, ◌≡◌, refl, some, List, [], ◌∷◌, ◌++◌, arith}
use scrimmage.Framing.{grow, copy_at, encode, init, push, frame_length, next_frame}
use scrimmage.Framing.Stream.{drain, receive, receive-stream, next_frame-encode}

abbrev two_messages : List (List ℕ)
two_messages = (7 ∷ 8 ∷ 9 ∷ []) ∷ (5 ∷ []) ∷ []

-- The eight bytes of the two frames, cut inside both headers.
abbrev pieces : List (List ℕ)
pieces = (3 ∷ []) ∷ (0 ∷ 7 ∷ 8 ∷ 9 ∷ 1 ∷ []) ∷ (0 ∷ 5 ∷ []) ∷ []

encode_run : encode (7 ∷ 8 ∷ []) (1 ∷ []) ≡ 1 ∷ 2 ∷ 0 ∷ 7 ∷ 8 ∷ []
unfolding encode grow copy_at
encode_run = refl

receive_run : receive pieces (init 70000) ≡ some (two_messages, init 70000)
unfolding receive init push drain next_frame frame_length
receive_run = refl

receive-stream_example : receive pieces (init 70000) ≡ some (two_messages, init 70000)
unfolding encode grow copy_at
receive-stream_example =
    receive-stream two_messages pieces 70000 refl (omega arith, (omega arith, tt))
      (
        (omega arith, tt),
        (
          (omega arith, (omega arith, (omega arith, (omega arith, (omega arith, tt))))),
          ((omega arith, (omega arith, tt)), tt),
        ),
      )
      (omega arith, (omega arith, (omega arith, tt))) (omega arith)

next_frame-encode_example :
    next_frame (record { buffer = encode (7 ∷ 8 ∷ []) [] ++ (1 ∷ []); max_frame_size = 100 })
    ≡ (some (7 ∷ 8 ∷ []), record { buffer = 1 ∷ []; max_frame_size = 100 })
next_frame-encode_example = next_frame-encode (7 ∷ 8 ∷ []) (1 ∷ []) 100
