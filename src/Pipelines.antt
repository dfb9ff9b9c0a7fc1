-- ===== src/Pipelines.antt =====
-- libs/networking/pipeline: DecoderPipeline.h, EncoderPipeline.h, and the read loops of TcpPipeline.h
-- and UdpPipeline.h. A callback changes a state of the program's own, `S`. What `recv` answers and
-- leaves in the buffer is a list, which ends where `_running` is read as false.
pub mod Reads
pub mod Stream
pub mod Life
mod Tests
use scrimmage.Prelude.{
  ℕ, Bool, true, false, ◌||◌, Option, none, some, List, [], ◌∷◌, take, if◌then◌else◌,
}
use scrimmage.Prelude.Int.{ℤ, pos, is_negative, eq_ℤ, pos_part}

-- `_callback`, which is empty in a new object.
pub record Pipeline (S : Type 0) : Type 0 where
  pub callback : Option (List ℕ → S → S)

-- One call of `recv`: its result and the buffer behind it.
pub record Read : Type 0 where
  pub count : ℤ
  pub buffer : List ℕ

-- `n <= 0`
abbrev pub failed : Read → Bool
failed r = is_negative r.count || eq_ℤ r.count (pos 0)

module _ {S : Type 0} where
  -- `DecoderPipeline::subscribe`.
  unfoldable pub set_callback : (List ℕ → S → S) → Pipeline S → Pipeline S
  set_callback cb p = record p { callback = some cb }

  -- `DecoderPipeline::decode`, on the first `len` bytes.
  unfoldable pub forward : (bytes : List ℕ) (len : ℕ) → Pipeline S → S → S
  forward bytes len p s = elim p.callback [ none ↦ s | some cb ↦ cb (take len bytes) s ]

  unfoldable pub set_send_callback : (List ℕ → S → S) → Pipeline S → Pipeline S
  set_send_callback cb p = record p { callback = some cb }

  -- `EncoderPipeline::encode`, on the first `len` bytes.
  unfoldable pub encode : (bytes : List ℕ) (len : ℕ) → Pipeline S → S → S
  encode bytes len p s = elim p.callback [ none ↦ s | some cb ↦ cb (take len bytes) s ]

  -- `TcpPipeline::send`.
  unfoldable pub tcp_send : (bytes : List ℕ) (len : ℕ) → Pipeline S → S → S
  unfolding encode
  tcp_send bytes len encoder s = encode bytes len encoder s

  -- `UdpPipeline::send`.
  unfoldable pub udp_send : (bytes : List ℕ) (len : ℕ) → Pipeline S → S → S
  unfolding encode
  udp_send bytes len encoder s = encode bytes len encoder s

  -- `TcpPipeline::readLoop` leaves at an error or a disconnect.
  unfoldable pub tcp_read_loop : List Read → Pipeline S → S → S
  tcp_read_loop [] decoder s = s
  tcp_read_loop (r ∷ reads) decoder s =
      let later = tcp_read_loop reads decoder (forward r.buffer (pos_part r.count) decoder s) in
      if failed r then s else later

  -- `UdpPipeline::readLoop` goes on behind an error.
  unfoldable pub udp_read_loop : List Read → Pipeline S → S → S
  udp_read_loop [] decoder s = s
  udp_read_loop (r ∷ reads) decoder s =
      udp_read_loop reads decoder
        (if failed r then s else forward r.buffer (pos_part r.count) decoder s)
