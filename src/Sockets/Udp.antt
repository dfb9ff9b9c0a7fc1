-- ===== src/Sockets/Udp.antt =====
-- libs/networking/udp: UdpSocket.h, UdpMulticastSender.h and UdpMulticastReceiver.h, each with its
-- constructor; the three destructors are the same.
use scrimmage.Prelude.{ℕ, ◌%◌, ◌^◌, not, ◌||◌, List, if◌then◌else◌}
use scrimmage.Prelude.Int.{ℤ, pos, is_negative, eq_ℤ}
use scrimmage.Sockets.{
  multicast_ttl, multicast_loop, reuse_addr, reuse_port, receive_buffer, add_membership, datagram,
  open_socket, parse_address, set_option, bind, close, Os, State, perform, no_socket,
  invalid_address, option_refused, not_bound, Made, thrown, made,
}

-- The members of the three classes but for the parsed address.
pub record UdpSocket : Type 0 where
  pub socket : ℤ
  pub address : List ℕ
  pub port : ℕ

module _ (os : Os) where
  -- `UdpSocket::UdpSocket`.
  unfoldable pub construct_socket :
      (address : List ℕ) (port : ℕ) → State (os.World) → Made UdpSocket × State (os.World)
  construct_socket address port s =
      let (fd, opened) = perform os (open_socket datagram) s in
      let (parsed, looked) = perform os (parse_address address) opened in
      if is_negative fd
      then (thrown no_socket, opened)
      else if is_negative parsed || eq_ℤ parsed (pos 0)
      then (thrown invalid_address, looked)
      else (made (record { socket = fd; address = address; port = port }), looked)

  -- `UdpMulticastSender::UdpMulticastSender`.
  unfoldable pub construct_sender :
      (address : List ℕ) (port ttl : ℕ) → State (os.World) → Made UdpSocket × State (os.World)
  construct_sender address port ttl s =
      let (fd, opened) = perform os (open_socket datagram) s in
      let (lived, limited) = perform os (set_option fd multicast_ttl ttl) opened in
      let (looped, back) = perform os (set_option fd multicast_loop 1) limited in
      let (parsed, looked) = perform os (parse_address address) back in
      if is_negative fd
      then (thrown no_socket, opened)
      else if is_negative lived
      then (thrown option_refused, limited)
      else if is_negative looped
      then (thrown option_refused, back)
      else if is_negative parsed || eq_ℤ parsed (pos 0)
      then (thrown invalid_address, looked)
      else (made (record { socket = fd; address = address; port = port }), looked)

  -- `UdpMulticastReceiver::UdpMulticastReceiver`, where the system has `SO_REUSEPORT`.
  unfoldable pub construct_receiver :
      (address : List ℕ) (port recv_size : ℕ) → State (os.World) → Made UdpSocket × State (os.World)
  construct_receiver address port recv_size s =
      let (fd, opened) = perform os (open_socket datagram) s in
      let (reused, shared) = perform os (set_option fd reuse_addr 1) opened in
      let (ported, shared_port) = perform os (set_option fd reuse_port 1) shared in
      let (buffered, sized) =
        perform os (set_option fd receive_buffer (recv_size % 2 ^ 32)) shared_port in
      let (taken, placed) = perform os (bind fd port) sized in
      let (parsed, looked) = perform os (parse_address address) placed in
      let (joined, ready) = perform os (set_option fd add_membership 0) looked in
      if is_negative fd
      then (thrown no_socket, opened)
      else if is_negative reused
      then (thrown option_refused, shared)
      else if is_negative taken
      then (thrown not_bound, placed)
      else if not (eq_ℤ parsed (pos 1))
      then (thrown invalid_address, looked)
      else if is_negative joined
      then (thrown option_refused, ready)
      else (made (record { socket = fd; address = address; port = port }), ready)

  -- The destructors.
  unfoldable pub destroy : UdpSocket → State (os.World) → State (os.World)
  destroy c s =
      let (result, closed) = perform os (close (c.socket)) s in
      if is_negative (c.socket) then s else closed
