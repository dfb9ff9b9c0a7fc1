-- ===== src/Connections.antt =====
-- libs/networking/tcp/TcpConnectionManager.h: several clients, each with a thread that receives for
-- it. A thread has a reference to its client's element of the vector, which is an array in the
-- memory and a place in it. How far a full vector grows is a parameter; the operating system's calls
-- are those of libs/networking/tcp/TcpClient.h.
pub mod Owned
pub mod References
pub mod Receive
mod Tests
use scrimmage.Prelude.{
  ℕ, zero, suc, ◌+◌, ◌≡◌, Bool, true, false, not, Option, none, some, List, [], ◌∷◌, ◌++◌, map,
  ◌==◌, if◌then◌else◌, length, take,
}
use scrimmage.Prelude.Int.{ℤ, is_negative, pos_part}
use scrimmage.Sockets.{Os, State, Error, Made, thrown, made}
use scrimmage.Sockets.Client.{TcpClient, construct, destroy}
use scrimmage.Pipelines.{Read, failed}

-- An element of `_clients`; a callback changes a state of the program's own, `S`.
pub record Connection (S : Type 0) : Type 0 where
  pub client : TcpClient
  pub callback : List ℕ → S → S

-- A thread, by what it refers to.
pub record Worker : Type 0 where
  pub array : ℕ
  pub place : ℕ

-- The members; `array` and `capacity` are those of the vector `_clients`.
pub record Manager (S : Type 0) : Type 0 where
  pub clients : List (Connection S)
  pub array : ℕ
  pub capacity : ℕ
  pub threads : List Worker
  pub running : Bool

-- `TcpClient::isConnected`
unfoldable pub is_connected : TcpClient → Bool
is_connected c = not (is_negative c.socket)

-- The threads for `n` clients from place `i` on.
unfoldable pub workers : (array i n : ℕ) → List Worker
workers array i zero = []
workers array i (suc n) = (record { array = array; place = i }) ∷ workers array (suc i) n

module _ {S : Type 0} where
  -- A new manager.
  unfoldable pub init : Manager S
  init = record { clients = []; array = 0; capacity = 0; threads = []; running = false }

  -- `emplace_back`: a full vector moves to a new array.
  unfoldable pub emplace_back : (grow : ℕ → ℕ) → Connection S → Manager S → Manager S
  emplace_back grow c m =
      let full = length m.clients == m.capacity in
      record m {
        clients = m.clients ++ c ∷ [];
        array = if full then suc m.array else m.array;
        capacity = if full then grow m.capacity else m.capacity;
      }

  -- What `addConnection` makes of the client: the error, if its constructor throws one.
  unfoldable pub keep_client :
      (grow : ℕ → ℕ) (callback : List ℕ → S → S)
      → Made TcpClient
      → Manager S
      → Option Error × Manager S
  unfolding emplace_back
  keep_client grow callback (thrown error) m = (some error, m)
  keep_client grow callback (made client) m =
      (none, emplace_back grow (record { client = client; callback = callback }) m)

  unfoldable pub add_connection :
      (os : Os) (grow : ℕ → ℕ) (host : List ℕ) (port : ℕ) (callback : List ℕ → S → S)
      → Manager S
      → State (os.World)
      → Option Error × Manager S × State (os.World)
  unfolding keep_client
  add_connection os grow host port callback m s =
      let run = construct os host port true 0 0 s in
      let added = keep_client grow callback run.0 m in (added.0, added.1, run.1)

  unfoldable pub start_all : Manager S → Manager S
  unfolding workers
  start_all m = record m {
    running = true;
    threads = m.threads ++ workers m.array 0 (length m.clients);
  }

  -- `stopAll` joins the threads; the model takes it that their loops end.
  unfoldable pub stop_all : Manager S → Manager S
  stop_all m = record m { running = false; threads = [] }

  -- The clients of a vector are destroyed, the first one first.
  unfoldable pub destroy_clients :
      (os : Os) → List (Connection S) → State (os.World) → State (os.World)
  destroy_clients os [] s = s
  destroy_clients os (c ∷ cs) s = destroy_clients os cs (destroy os c.client s)

  -- The destructor stops, then destroys `_clients`.
  unfoldable pub destroy_manager : (os : Os) → Manager S → State (os.World) → State (os.World)
  unfolding stop_all destroy_clients
  destroy_manager os m s = let stopped = stop_all m in destroy_clients os stopped.clients s

  -- The loop of a thread: `reads` are what `recv` answers while `_running` is read as true. The
  -- state of the program behind it, and how often the thread slept.
  unfoldable pub receive_loop : List Read → Connection S → S → S × ℕ
  unfolding is_connected
  receive_loop [] c s = (s, 0)
  receive_loop (r ∷ reads) c s =
      let heard = receive_loop reads c (c.callback (take (pos_part r.count) r.buffer) s) in
      let slept = receive_loop reads c s in
      if is_connected c.client then (if failed r then (slept.0, suc slept.1) else heard) else (s, 0)
