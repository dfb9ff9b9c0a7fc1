-- ===== src/Sockets/Lifetimes.antt =====
-- libs/networking/tcp/TcpClient.h and libs/networking/udp: an object from its constructor over its
-- `send` and `recv` to its destructor.
use scrimmage.Prelude.{ℕ, ◌≡◌, refl, Bool, List, [], ◌∷◌, map}
use scrimmage.Prelude.Int.{ℤ}
use scrimmage.Sockets.{
  Os, State, perform, held, remove_self, send_bytes, recv_bytes, send_to, recv_from, open_socket,
  datagram, Made, thrown, made, no_socket, invalid_address, not_connected, option_refused,
  not_bound,
}
use scrimmage.Sockets.Client.{TcpClient, construct, close_socket, destroy}
use scrimmage.Sockets.Udp.{UdpSocket, construct_socket, construct_sender, construct_receiver}
use scrimmage.Sockets.Udp
use scrimmage.Sockets.Opened.{
  IsConnected, IsOpen, construct-IsConnected, construct_socket-IsOpen, construct_sender-IsOpen,
  construct_receiver-IsOpen,
}
use scrimmage.Sockets.Raii.{kept, construct-kept, left_open, udp_construct-left}

-- A call of a method, with its length.
pub data Use : Type 0 where
  send_use recv_use : ℕ → Use

module _ (os : Os) where
  -- `TcpClient::send` and `TcpClient::recv`.
  unfoldable pub client_send : (len : ℕ) → TcpClient → State (os.World) → ℤ × State (os.World)
  client_send len c s = perform os (send_bytes c.socket len) s

  unfoldable pub client_recv : (len : ℕ) → TcpClient → State (os.World) → ℤ × State (os.World)
  client_recv len c s = perform os (recv_bytes c.socket len) s

  -- `send` of `UdpSocket` and `UdpMulticastSender`, and `UdpSocket::recv`.
  unfoldable pub udp_send : (len : ℕ) → UdpSocket → State (os.World) → ℤ × State (os.World)
  udp_send len c s = perform os (send_to c.socket len) s

  unfoldable pub udp_recv : (len : ℕ) → UdpSocket → State (os.World) → ℤ × State (os.World)
  udp_recv len c s = perform os (recv_from c.socket len) s

  -- `UdpMulticastReceiver::recv`.
  unfoldable pub group_recv : (len : ℕ) → UdpSocket → State (os.World) → ℤ × State (os.World)
  group_recv len c s = perform os (recv_bytes c.socket len) s

  abbrev pub client_calls : List Use → TcpClient → State (os.World) → State (os.World)
  client_calls [] c s = s
  client_calls (send_use len ∷ us) c s = client_calls us c (client_send len c s).1
  client_calls (recv_use len ∷ us) c s = client_calls us c (client_recv len c s).1

  abbrev pub udp_calls : List Use → UdpSocket → State (os.World) → State (os.World)
  udp_calls [] c s = s
  udp_calls (send_use len ∷ us) c s = udp_calls us c (udp_send len c s).1
  udp_calls (recv_use len ∷ us) c s = udp_calls us c (udp_recv len c s).1

  abbrev pub group_recvs : List ℕ → UdpSocket → State (os.World) → State (os.World)
  group_recvs [] c s = s
  group_recvs (len ∷ lens) c s = group_recvs lens c (group_recv len c s).1

  -- What a constructor has made is used and destroyed.
  abbrev pub client_life : List Use → Made TcpClient → State (os.World) → State (os.World)
  client_life uses (thrown error) s = s
  client_life uses (made c) s = destroy os c (client_calls uses c s)

  abbrev pub udp_life :
      (UdpSocket → State (os.World) → State (os.World))
      → Made UdpSocket
      → State (os.World)
      → State (os.World)
  udp_life act (thrown error) s = s
  udp_life act (made c) s = Udp.destroy os c (act c s)

  client_calls-held :
      (uses : List Use) (c : TcpClient) (s : State (os.World))
      → held (client_calls uses c s).log ≡ held s.log
  unfolding client_send client_recv
  client_calls-held [] c s = refl
  client_calls-held (send_use len ∷ us) c s = client_calls-held us c (client_send len c s).1
  client_calls-held (recv_use len ∷ us) c s = client_calls-held us c (client_recv len c s).1

  udp_calls-held :
      (uses : List Use) (c : UdpSocket) (s : State (os.World))
      → held (udp_calls uses c s).log ≡ held s.log
  unfolding udp_send udp_recv
  udp_calls-held [] c s = refl
  udp_calls-held (send_use len ∷ us) c s = udp_calls-held us c (udp_send len c s).1
  udp_calls-held (recv_use len ∷ us) c s = udp_calls-held us c (udp_recv len c s).1

  group_recvs-held :
      (lens : List ℕ) (c : UdpSocket) (s : State (os.World))
      → held (group_recvs lens c s).log ≡ held s.log
  unfolding group_recv
  group_recvs-held [] c s = refl
  group_recvs-held (len ∷ lens) c s = group_recvs-held lens c (group_recv len c s).1

  -- The sockets open behind the life of an object: a constructor that throws behind its call of
  -- `socket` leaves `fd` open.
  abbrev pub leaked : Made UdpSocket → ℤ → List ℤ → List ℤ
  leaked (made c) fd fds = fds
  leaked (thrown no_socket) fd fds = fds
  leaked (thrown invalid_address) fd fds = fd ∷ fds
  leaked (thrown not_connected) fd fds = fd ∷ fds
  leaked (thrown option_refused) fd fds = fd ∷ fds
  leaked (thrown not_bound) fd fds = fd ∷ fds

  udp_life-held :
      (act : UdpSocket → State (os.World) → State (os.World)) (r : Made UdpSocket) (fd : ℤ)
      (fds : List ℤ) (s : State (os.World))
      → ((c : UdpSocket) (t : State (os.World)) → held (act c t).log ≡ held t.log)
      → IsOpen r
      → held s.log ≡ left_open os r fd fds
      → held (udp_life act r s).log ≡ leaked r fd fds
  unfolding Udp.destroy
  udp_life-held act (made c) fd fds s quiet is_open h =
      rw (is_open, quiet c s, h) (remove_self c.socket fds)
  udp_life-held act (thrown no_socket) fd fds s quiet is_open h = h
  udp_life-held act (thrown invalid_address) fd fds s quiet is_open h = h
  udp_life-held act (thrown not_connected) fd fds s quiet is_open h = h
  udp_life-held act (thrown option_refused) fd fds s quiet is_open h = h
  udp_life-held act (thrown not_bound) fd fds s quiet is_open h = h

  client_life-held :
      (uses : List Use) (r : Made TcpClient) (fds : List ℤ) (s : State (os.World))
      → IsConnected r
      → held s.log ≡ kept os r fds
      → held (client_life uses r s).log ≡ fds
  unfolding destroy close_socket
  client_life-held uses (thrown error) fds s is_open h = h
  client_life-held uses (made c) fds s is_open h =
      rw (is_open, client_calls-held uses c s, h) (remove_self c.socket fds)

  module _ (address : List ℕ) (port ttl recv_size : ℕ) (no_delay : Bool)
      (send_buffer recv_buffer : ℕ) (uses : List Use) (lens : List ℕ) (s : State (os.World)) where
    -- An object is constructed, its `send` and `recv` are called as often as one likes, and it is
    -- destroyed. For a TcpClient with any options the sockets that are open are those that
    -- were before, whether or not its constructor throws. So it is for the three UDP classes where
    -- the constructor does not throw; where it throws behind its call of `socket`, that socket stays
    -- open and no object owns it.
    pub lifetime-left :
        let client = construct os address port no_delay send_buffer recv_buffer s in
        let plain = construct_socket os address port s in
        let sender = construct_sender os address port ttl s in
        let receiver = construct_receiver os address port recv_size s in
        let fd = (os.answer s.world (open_socket datagram)).0 in
        (held (client_life uses client.0 client.1).log ≡ held s.log)
        × (held (udp_life (udp_calls uses) plain.0 plain.1).log ≡ leaked plain.0 fd (held s.log))
        × (held (udp_life (udp_calls (map send_use lens)) sender.0 sender.1).log
            ≡ leaked sender.0 fd (held s.log))
        × (held (udp_life (group_recvs lens) receiver.0 receiver.1).log
            ≡ leaked receiver.0 fd (held s.log))
    lifetime-left =
        let client = construct os address port no_delay send_buffer recv_buffer s in
        let plain = construct_socket os address port s in
        let sender = construct_sender os address port ttl s in
        let receiver = construct_receiver os address port recv_size s in
        let fd = (os.answer s.world (open_socket datagram)).0 in
        let left = udp_construct-left os address port ttl recv_size s in
        (
          client_life-held uses client.0 (held s.log) client.1
              (construct-IsConnected os address port no_delay send_buffer recv_buffer s)
              (construct-kept os address port no_delay send_buffer recv_buffer s),
          udp_life-held (udp_calls uses) plain.0 fd (held s.log) plain.1 (udp_calls-held uses)
              (construct_socket-IsOpen os address port s) left.0,
          udp_life-held (udp_calls (map send_use lens)) sender.0 fd (held s.log) sender.1
              (udp_calls-held (map send_use lens)) (construct_sender-IsOpen os address port ttl s)
              left.1,
          udp_life-held (group_recvs lens) receiver.0 fd (held s.log) receiver.1
              (group_recvs-held lens) (construct_receiver-IsOpen os address port recv_size s)
              left.2,
        )
