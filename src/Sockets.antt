-- ===== src/Sockets.antt =====
-- libs/networking/tcp/TcpClient.h, TcpServer.h and libs/networking/udp: the sockets that the classes
-- hold. The operating system is a parameter: it answers each call as it likes, and the calls are kept
-- in a log, the last one first.
pub mod Client
pub mod Udp
pub mod Server
pub mod Counts
pub mod Session
pub mod Threads
pub mod Raii
pub mod Opened
pub mod Lifetimes
pub mod Send
mod Tests
use scrimmage.Prelude.{ℕ, ◌≡◌, refl, Bool, List, [], ◌∷◌, if◌then◌else◌}
use scrimmage.Prelude.Int.{ℤ, is_negative, eq_ℤ, eq_ℤ_self}

-- The options of `setsockopt` that the program sets.
pub data SocketOption : Type 0 where
  no_delay send_buffer receive_buffer reuse_addr reuse_port multicast_ttl multicast_loop
        add_membership :
      SocketOption

pub data SocketKind : Type 0 where
  stream datagram : SocketKind

-- A call of the operating system: the socket, then the arguments.
pub data Call : Type 0 where
  open_socket : SocketKind → Call
  parse_address : List ℕ → Call
  set_option : ℤ → SocketOption → ℕ → Call
  connect : ℤ → List ℕ → ℕ → Call
  bind : ℤ → ℕ → Call
  listen : ℤ → ℕ → Call
  accept : ℤ → Call
  read : ℤ → ℕ → Call
  send_bytes : ℤ → ℕ → Call
  recv_bytes : ℤ → ℕ → Call
  send_to : ℤ → ℕ → Call
  recv_from : ℤ → ℕ → Call
  close : ℤ → Call

-- The operating system.
pub record Os : Type 1 where
  pub World : Type 0
  pub answer : World → Call → ℤ × World

pub record State (W : Type 0) : Type 0 where
  pub world : W
  pub log : List (Call × ℤ)

abbrev pub perform : (os : Os) → Call → State (os.World) → ℤ × State (os.World)
perform os c s =
    let (result, w) = os.answer s.world c in
    (result, record { world = w; log = (c, result) ∷ s.log })

abbrev pub remove : ℤ → List ℤ → List ℤ
remove fd [] = []
remove fd (x ∷ xs) = if eq_ℤ fd x then xs else x ∷ remove fd xs

-- The sockets that a log has opened and not closed, the last one first.
abbrev pub held : List (Call × ℤ) → List ℤ
held [] = []
held ((open_socket kind, fd) ∷ log) = if is_negative fd then held log else fd ∷ held log
held ((accept server, fd) ∷ log) = if is_negative fd then held log else fd ∷ held log
held ((close fd, result) ∷ log) = remove fd (held log)
held ((parse_address host, result) ∷ log) = held log
held ((set_option fd option value, result) ∷ log) = held log
held ((connect fd host port, result) ∷ log) = held log
held ((bind fd port, result) ∷ log) = held log
held ((listen fd backlog, result) ∷ log) = held log
held ((read fd len, result) ∷ log) = held log
held ((send_bytes fd len, result) ∷ log) = held log
held ((recv_bytes fd len, result) ∷ log) = held log
held ((send_to fd len, result) ∷ log) = held log
held ((recv_from fd len, result) ∷ log) = held log

pub remove_self : (fd : ℤ) (fds : List ℤ) → remove fd (fd ∷ fds) ≡ fds
remove_self fd fds = rw (eq_ℤ_self fd) refl

-- What a constructor does: an error says which check failed.
pub data Error : Type 0 where
  no_socket invalid_address not_connected option_refused not_bound : Error

pub data Made (A : Type 0) : Type 0 where
  thrown : Error → Made A
  made : A → Made A
