-- ===== src/Connections/Receive.antt =====
-- What a thread of the manager receives.
use scrimmage.Prelude.{
  ◌+◌, ◌≡◌, refl, inl, inr, true, some, List, [], ◌∷◌, arith, length, Bool-cases,
}
use scrimmage.Prelude.Int.{pos_part}
use scrimmage.Pipelines.{Read, failed, forward, udp_read_loop}
use scrimmage.Pipelines.Reads.{successes}
use scrimmage.Connections.{Connection, is_connected, receive_loop}

module _ {S : Type 0} where
  -- For a client that has a socket, the thread does with what `recv` answers what
  -- `UdpPipeline::readLoop` does, and sleeps once for each answer that is an error or a disconnect: it
  -- takes neither for the end, and does not connect again, until `_running` is false.
  pub receive_loop-udp :
      (reads : List Read) (c : Connection S) (s : S)
      → is_connected c.client ≡ true
      → ((receive_loop reads c s).0 ≡ udp_read_loop reads (record { callback = some c.callback }) s)
        × ((receive_loop reads c s).1 + length (successes reads) ≡ length reads)
  unfolding receive_loop udp_read_loop forward
  receive_loop-udp [] c s on = (refl, refl)
  receive_loop-udp (r ∷ reads) c s on = elim (Bool-cases (failed r)) [
    | inl bad ↦ let ih = receive_loop-udp reads c s on in rw (on, bad) (ih.0, omega (arith, ih.1))
    | inr good ↦
        let ih =
          receive_loop-udp reads c
            (forward r.buffer (pos_part r.count) (record { callback = some c.callback }) s) on in
        rw (on, good) (ih.0, omega (arith, ih.1))
  ]
