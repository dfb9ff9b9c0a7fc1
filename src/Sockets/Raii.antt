-- ===== src/Sockets/Raii.antt =====
-- What becomes of a socket that a constructor opens.
use scrimmage.Prelude.{
  ℕ, ◌%◌, ◌^◌, ◌≡◌, refl, inl, inr, Bool, true, false, not, ◌||◌, List, ◌∷◌, Bool-cases,
}
use scrimmage.Prelude.Int.{ℤ, pos, is_negative, eq_ℤ}
use scrimmage.Sockets.{
  SocketOption, Os, State, held, open_socket, stream, datagram, set_option, bind, multicast_ttl,
  multicast_loop, reuse_addr, reuse_port, receive_buffer, add_membership, parse_address, connect,
  remove_self, no_socket, invalid_address, not_connected, option_refused, not_bound, Made, thrown,
  made,
}
use scrimmage.Sockets.Client.{TcpClient, set_option_if, construct, close_socket}
use scrimmage.Sockets.Udp.{UdpSocket, construct_socket, construct_sender, construct_receiver}

module _ (os : Os) where
  set_option_if-held :
      (b : Bool) (fd : ℤ) (option : SocketOption) (value : ℕ) (s : State (os.World))
      → held (set_option_if os b fd option value s).log ≡ held s.log
  unfolding set_option_if
  set_option_if-held true fd option value s = refl
  set_option_if-held false fd option value s = refl

  -- The sockets that are open behind a constructor that keeps its own or closes it.
  abbrev pub kept : Made TcpClient → List ℤ → List ℤ
  kept (thrown error) fds = fds
  kept (made c) fds = c.socket ∷ fds

  -- Whatever the operating system answers, behind the constructor of `TcpClient` the sockets open
  -- are those open before and, if it made a client, the client's: a constructor that throws has
  -- closed what it opened.
  pub construct-kept :
      (host : List ℕ) (port : ℕ) (no_delay : Bool) (send_size recv_size : ℕ) (s : State (os.World))
      → let run = construct os host port no_delay send_size recv_size s in
        held run.1.log ≡ kept run.0 (held s.log)
  unfolding construct close_socket
  construct-kept host port no_delay send_size recv_size s =
      let first = os.answer s.world (open_socket stream) in
      let second = os.answer first.1 (parse_address host) in
      let third = os.answer second.1 (connect first.0 host port) in
      elim (Bool-cases (is_negative first.0)) [
        | inl none_open ↦ rw (none_open, none_open) refl
        | inr ok ↦ elim (Bool-cases (not (eq_ℤ second.0 (pos 1)))) [
          | inl invalid ↦ rw (ok, invalid, ok) (remove_self first.0 (held s.log))
          | inr valid ↦ elim (Bool-cases (is_negative third.0)) [
            | inl alone ↦ rw (ok, valid, alone, ok) (remove_self first.0 (held s.log))
            | inr joined ↦
                rw
                  (
                    ok, valid, joined, set_option_if-held, set_option_if-held, set_option_if-held,
                    ok,
                  )
                  refl
          ]
        ]
      ]

  -- The sockets that are open behind a constructor that opens `fd` and closes nothing.
  abbrev pub left_open : Made UdpSocket → ℤ → List ℤ → List ℤ
  left_open (thrown no_socket) fd fds = fds
  left_open (thrown invalid_address) fd fds = fd ∷ fds
  left_open (thrown not_connected) fd fds = fd ∷ fds
  left_open (thrown option_refused) fd fds = fd ∷ fds
  left_open (thrown not_bound) fd fds = fd ∷ fds
  left_open (made c) fd fds = c.socket ∷ fds

  -- The constructor of `UdpSocket` leaves open the socket of the object that it makes; but if it
  -- throws for an invalid address, the socket that it opened stays open too, and no object owns it.
  construct_socket-left :
      (address : List ℕ) (port : ℕ) (s : State (os.World))
      → let run = construct_socket os address port s in
        held run.1.log ≡ left_open run.0 (os.answer s.world (open_socket datagram)).0 (held s.log)
  unfolding construct_socket
  construct_socket-left address port s =
      let first = os.answer s.world (open_socket datagram) in
      let second = os.answer first.1 (parse_address address) in
      elim (Bool-cases (is_negative first.0)) [
        | inl none_open ↦ rw (none_open, none_open) refl
        | inr ok ↦ elim (Bool-cases (is_negative second.0 || eq_ℤ second.0 (pos 0))) [
          | inl invalid ↦ rw (ok, invalid, ok) refl
          | inr valid ↦ rw (ok, valid, ok) refl
        ]
      ]

  -- The constructor of `UdpMulticastSender` leaves open the socket of the object that it makes; but
  -- if it throws behind the call of `socket`, that socket stays open too, and no object owns it.
  construct_sender-left :
      (address : List ℕ) (port ttl : ℕ) (s : State (os.World))
      → let run = construct_sender os address port ttl s in
        held run.1.log ≡ left_open run.0 (os.answer s.world (open_socket datagram)).0 (held s.log)
  unfolding construct_sender
  construct_sender-left address port ttl s =
      let first = os.answer s.world (open_socket datagram) in
      let second = os.answer first.1 (set_option first.0 multicast_ttl ttl) in
      let third = os.answer second.1 (set_option first.0 multicast_loop 1) in
      let fourth = os.answer third.1 (parse_address address) in
      elim (Bool-cases (is_negative first.0)) [
        | inl none_open ↦ rw (none_open, none_open) refl
        | inr ok ↦ elim (Bool-cases (is_negative second.0)) [
          | inl bad ↦ rw (ok, bad, ok) refl
          | inr good ↦ elim (Bool-cases (is_negative third.0)) [
            | inl bad' ↦ rw (ok, good, bad', ok) refl
            | inr good' ↦ elim (Bool-cases (is_negative fourth.0 || eq_ℤ fourth.0 (pos 0))) [
              | inl invalid ↦ rw (ok, good, good', invalid, ok) refl
              | inr valid ↦ rw (ok, good, good', valid, ok) refl
            ]
          ]
        ]
      ]

  -- The constructor of `UdpMulticastReceiver` leaves open the socket of the object that it makes; but
  -- if it throws behind the call of `socket`, that socket stays open too, and no object owns it.
  construct_receiver-left :
      (address : List ℕ) (port recv_size : ℕ) (s : State (os.World))
      → let run = construct_receiver os address port recv_size s in
        held run.1.log ≡ left_open run.0 (os.answer s.world (open_socket datagram)).0 (held s.log)
  unfolding construct_receiver
  construct_receiver-left address port recv_size s =
      let first = os.answer s.world (open_socket datagram) in
      let second = os.answer first.1 (set_option first.0 reuse_addr 1) in
      let third = os.answer second.1 (set_option first.0 reuse_port 1) in
      let fourth = os.answer third.1 (set_option first.0 receive_buffer (recv_size % 2 ^ 32)) in
      let fifth = os.answer fourth.1 (bind first.0 port) in
      let sixth = os.answer fifth.1 (parse_address address) in
      let seventh = os.answer sixth.1 (set_option first.0 add_membership 0) in
      elim (Bool-cases (is_negative first.0)) [
        | inl none_open ↦ rw (none_open, none_open) refl
        | inr ok ↦ elim (Bool-cases (is_negative second.0)) [
          | inl bad ↦ rw (ok, bad, ok) refl
          | inr good ↦ elim (Bool-cases (is_negative fifth.0)) [
            | inl bad' ↦ rw (ok, good, bad', ok) refl
            | inr good' ↦ elim (Bool-cases (not (eq_ℤ sixth.0 (pos 1)))) [
              | inl invalid ↦ rw (ok, good, good', invalid, ok) refl
              | inr valid ↦ elim (Bool-cases (is_negative seventh.0)) [
                | inl alone ↦ rw (ok, good, good', valid, alone, ok) refl
                | inr joined ↦ rw (ok, good, good', valid, joined, ok) refl
              ]
            ]
          ]
        ]
      ]

  -- Each of the three UDP constructors leaves open the socket of the object that it makes; but one
  -- that throws behind its call of `socket` leaves that socket open too, and no object owns it.
  pub udp_construct-left :
      (address : List ℕ) (port ttl recv_size : ℕ) (s : State (os.World))
      → let fd = (os.answer s.world (open_socket datagram)).0 in
        let plain = construct_socket os address port s in
        let sender = construct_sender os address port ttl s in
        let receiver = construct_receiver os address port recv_size s in
        (held plain.1.log ≡ left_open plain.0 fd (held s.log))
        × (held sender.1.log ≡ left_open sender.0 fd (held s.log))
        × (held receiver.1.log ≡ left_open receiver.0 fd (held s.log))
  udp_construct-left address port ttl recv_size s = (
    construct_socket-left address port s,
    construct_sender-left address port ttl s,
    construct_receiver-left address port recv_size s,
  )
