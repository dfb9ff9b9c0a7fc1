-- ===== src/Sockets/Opened.antt =====
-- What the constructors of TcpClient and of the three UDP classes make has an open socket.
use scrimmage.Prelude.{ℕ, ◌%◌, ◌^◌, ◌≡◌, inl, inr, Bool, false, not, ◌||◌, List, Bool-cases}
use scrimmage.Prelude.Int.{pos, is_negative, eq_ℤ}
use scrimmage.Sockets.{
  Os, State, open_socket, stream, datagram, parse_address, connect, set_option, bind, multicast_ttl,
  multicast_loop, reuse_addr, reuse_port, receive_buffer, add_membership, Made, thrown, made,
}
use scrimmage.Sockets.Client.{TcpClient, construct}
use scrimmage.Sockets.Udp.{UdpSocket, construct_socket, construct_sender, construct_receiver}

-- A made object has a socket.
abbrev pub IsConnected : Made TcpClient → Type 0
IsConnected (thrown error) = Unit
IsConnected (made c) = is_negative c.socket ≡ false

abbrev pub IsOpen : Made UdpSocket → Type 0
IsOpen (thrown error) = Unit
IsOpen (made c) = is_negative c.socket ≡ false

module _ (os : Os) where
  -- A constructor of a client that does not throw has opened a socket.
  pub construct-IsConnected :
      (host : List ℕ) (port : ℕ) (nd : Bool) (sent received : ℕ) (s : State (os.World))
      → IsConnected (construct os host port nd sent received s).0
  unfolding construct
  construct-IsConnected host port nd sent received s =
      let first = os.answer s.world (open_socket stream) in
      let second = os.answer first.1 (parse_address host) in
      let third = os.answer second.1 (connect first.0 host port) in
      elim (Bool-cases (is_negative first.0)) [
        | inl none_open ↦ rw (none_open) tt
        | inr ok ↦ elim (Bool-cases (not (eq_ℤ second.0 (pos 1)))) [
          | inl invalid ↦ rw (ok, invalid) tt
          | inr valid ↦ elim (Bool-cases (is_negative third.0)) [
            | inl alone ↦ rw (ok, valid, alone) tt
            | inr joined ↦ rw (ok, valid, joined) ok
          ]
        ]
      ]

  pub construct_socket-IsOpen :
      (address : List ℕ) (port : ℕ) (s : State (os.World))
      → IsOpen (construct_socket os address port s).0
  unfolding construct_socket
  construct_socket-IsOpen address port s =
      let first = os.answer s.world (open_socket datagram) in
      let second = os.answer first.1 (parse_address address) in
      elim (Bool-cases (is_negative first.0)) [
        | inl none_open ↦ rw (none_open) tt
        | inr ok ↦ elim (Bool-cases (is_negative second.0 || eq_ℤ second.0 (pos 0))) [
          | inl invalid ↦ rw (ok, invalid) tt
          | inr valid ↦ rw (ok, valid) ok
        ]
      ]

  pub construct_sender-IsOpen :
      (address : List ℕ) (port ttl : ℕ) (s : State (os.World))
      → IsOpen (construct_sender os address port ttl s).0
  unfolding construct_sender
  construct_sender-IsOpen address port ttl s =
      let first = os.answer s.world (open_socket datagram) in
      let second = os.answer first.1 (set_option first.0 multicast_ttl ttl) in
      let third = os.answer second.1 (set_option first.0 multicast_loop 1) in
      let fourth = os.answer third.1 (parse_address address) in
      elim (Bool-cases (is_negative first.0)) [
        | inl none_open ↦ rw (none_open) tt
        | inr ok ↦ elim (Bool-cases (is_negative second.0)) [
          | inl bad ↦ rw (ok, bad) tt
          | inr good ↦ elim (Bool-cases (is_negative third.0)) [
            | inl bad' ↦ rw (ok, good, bad') tt
            | inr good' ↦ elim (Bool-cases (is_negative fourth.0 || eq_ℤ fourth.0 (pos 0))) [
              | inl invalid ↦ rw (ok, good, good', invalid) tt
              | inr valid ↦ rw (ok, good, good', valid) ok
            ]
          ]
        ]
      ]

  pub construct_receiver-IsOpen :
      (address : List ℕ) (port recv_size : ℕ) (s : State (os.World))
      → IsOpen (construct_receiver os address port recv_size s).0
  unfolding construct_receiver
  construct_receiver-IsOpen address port recv_size s =
      let first = os.answer s.world (open_socket datagram) in
      let second = os.answer first.1 (set_option first.0 reuse_addr 1) in
      let third = os.answer second.1 (set_option first.0 reuse_port 1) in
      let fourth = os.answer third.1 (set_option first.0 receive_buffer (recv_size % 2 ^ 32)) in
      let fifth = os.answer fourth.1 (bind first.0 port) in
      let sixth = os.answer fifth.1 (parse_address address) in
      let seventh = os.answer sixth.1 (set_option first.0 add_membership 0) in
      elim (Bool-cases (is_negative first.0)) [
        | inl none_open ↦ rw (none_open) tt
        | inr ok ↦ elim (Bool-cases (is_negative second.0)) [
          | inl bad ↦ rw (ok, bad) tt
          | inr good ↦ elim (Bool-cases (is_negative fifth.0)) [
            | inl bad' ↦ rw (ok, good, bad') tt
            | inr good' ↦ elim (Bool-cases (not (eq_ℤ sixth.0 (pos 1)))) [
              | inl invalid ↦ rw (ok, good, good', invalid) tt
              | inr valid ↦ elim (Bool-cases (is_negative seventh.0)) [
                | inl alone ↦ rw (ok, good, good', valid, alone) tt
                | inr joined ↦ rw (ok, good, good', valid, joined) ok
              ]
            ]
          ]
        ]
      ]
