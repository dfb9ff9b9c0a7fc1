-- ===== src/Sockets/Client.antt =====
-- libs/networking/tcp/TcpClient.h: the constructor and the destructor.
use scrimmage.Prelude.{ℕ, ◌%◌, ◌^◌, Bool, true, false, not, List, ltb, if◌then◌else◌}
use scrimmage.Prelude.Int.{ℤ, pos, is_negative, eq_ℤ}
use scrimmage.Sockets.{
  SocketOption, no_delay, send_buffer, receive_buffer, stream, open_socket, parse_address,
  set_option, connect, close, Os, State, perform, no_socket, invalid_address, not_connected, Made,
  thrown, made,
}

pub record TcpClient : Type 0 where
  pub socket : ℤ
  pub host : List ℕ
  pub port : ℕ

module _ (os : Os) where
  -- `if (condition) ::setsockopt(...)`, the answer of which is not looked at.
  unfoldable pub set_option_if : Bool → ℤ → SocketOption → ℕ → State (os.World) → State (os.World)
  set_option_if true fd option value s =
      let (result, t) = perform os (set_option fd option value) s in t
  set_option_if false fd option value s = s

  unfoldable pub close_socket : ℤ → State (os.World) → State (os.World)
  close_socket fd s = let (result, t) = perform os (close fd) s in t

  -- The constructor; `int` is 32 bits, and a buffer size is kept as its bits.
  unfoldable pub construct :
      (host : List ℕ) (port : ℕ) (enable_no_delay : Bool) (send_size recv_size : ℕ)
      → State (os.World)
      → Made TcpClient × State (os.World)
  unfolding set_option_if close_socket
  construct host port enable_no_delay send_size recv_size s =
      let (fd, opened) = perform os (open_socket stream) s in
      let (parsed, looked) = perform os (parse_address host) opened in
      let (joined, tried) = perform os (connect fd host port) looked in
      let delayed = set_option_if enable_no_delay fd no_delay 1 tried in
      let sized = set_option_if (ltb 0 send_size) fd send_buffer (send_size % 2 ^ 32) delayed in
      let ready = set_option_if (ltb 0 recv_size) fd receive_buffer (recv_size % 2 ^ 32) sized in
      if is_negative fd
      then (thrown no_socket, opened)
      else if not (eq_ℤ parsed (pos 1))
      then (thrown invalid_address, close_socket fd looked)
      else if is_negative joined
      then (thrown not_connected, close_socket fd tried)
      else (made (record { socket = fd; host = host; port = port }), ready)

  unfoldable pub destroy : TcpClient → State (os.World) → State (os.World)
  unfolding close_socket
  destroy c s = if is_negative (c.socket) then s else close_socket (c.socket) s
