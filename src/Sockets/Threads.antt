-- ===== src/Sockets/Threads.antt =====
-- libs/networking/tcp/TcpServer.h: the accept thread, the clients' threads and the thread that calls
-- `stop`, one step of one of them at a time, in any order. A step reads `_running` or makes one call
-- of the operating system. `accept` and `read` wait: a thread in one of them takes its step where the
-- call returns, and for as long as the network is silent it takes none.
pub mod Held
pub mod Ends
use scrimmage.Prelude.{
  ℕ, suc, ◌%◌, ◌^◌, Option, none, some, ◌≡◌, ◌≢◌, Bool, true, false, ◌||◌, List, [], ◌∷◌, ◌++◌,
  if◌then◌else◌, take,
}
use scrimmage.Prelude.Int.{ℤ, pos, pos_part, is_negative, eq_ℤ}
use scrimmage.Sockets.{
  Os, State, Call, accept, read, close, perform, open_socket, stream, set_option, reuse_addr, bind,
  listen,
}

-- Where the accept thread is: in front of a read of `_running`, in `accept`, in the last `close`, or
-- at its end.
pub data Listener : Type 0 where
  checking accepting leaving ended : Listener

-- Where a client's thread is: in front of a read of `_running`, in `read`, or in `close`.
pub data Stage : Type 0 where
  looking reading closing : Stage

pub record Client : Type 0 where
  pub fd : ℤ
  pub stage : Stage

module _ (os : Os) where
  -- `clients` are the threads that have not ended, the last one made last.
  pub record Threads : Type 0 where
    pub running : Bool
    pub server : ℤ
    pub listener : Listener
    pub clients : List Client
    pub messages : List (List ℕ)
    pub state : State (os.World)

  -- `listenLoop` in front of its loop: the server's socket, if it can listen on one.
  unfoldable pub setup : (port backlog : ℕ) → State (os.World) → Option ℤ × State (os.World)
  setup port backlog s =
      let (fd, opened) = perform os (open_socket stream) s in
      let (reused, shared) = perform os (set_option fd reuse_addr 1) opened in
      let (taken, placed) = perform os (bind fd port) shared in
      let (heard, heeded) = perform os (listen fd (backlog % 2 ^ 32)) placed in
      let (refused, unplaced) = perform os (close fd) placed in
      let (unheard, unheeded) = perform os (close fd) heeded in
      if is_negative fd
      then (none, opened)
      else if is_negative taken
      then (none, unplaced)
      else if is_negative heard
      then (none, unheeded)
      else (some fd, heeded)

  -- The accept thread goes on from where it is.
  unfoldable pub listen_at : Listener → Threads → Threads
  listen_at checking t = record t { listener = if t.running then accepting else leaving }
  listen_at accepting t =
      let (fd, s) = perform os (accept t.server) t.state in
      record t {
        listener = checking;
        clients =
            if is_negative fd
            then t.clients
            else t.clients ++ record { fd = fd; stage = looking } ∷ [];
        state = s;
      }
  listen_at leaving t =
      let (result, s) = perform os (close t.server) t.state in
      record t { listener = ended; state = s }
  listen_at ended t = t

  -- A step of the accept thread.
  unfoldable pub listen_step : Threads → Threads
  listen_step t = listen_at t.listener t

  -- The thread of a client goes on from where it is; the client stands between `front` and `back`.
  unfoldable pub client_at :
      (buffer : os.World → List ℕ)
      → Stage
      → (fd : ℤ) → (front back : List Client) → Threads
      → Threads
  client_at buffer looking fd front back t =
      let next = if t.running then reading else closing in
      record t { clients = front ++ record { fd = fd; stage = next } ∷ back }
  client_at buffer reading fd front back t =
      let (n, s) = perform os (read fd 1024) t.state in
      let message = take (pos_part n) (buffer s.world) in
      if is_negative n || eq_ℤ n (pos 0)
      then record t { clients = front ++ record { fd = fd; stage = closing } ∷ back; state = s }
      else record t {
        clients = front ++ record { fd = fd; stage = looking } ∷ back;
        messages = t.messages ++ message ∷ [];
        state = s;
      }
  client_at buffer closing fd front back t =
      let (result, s) = perform os (close fd) t.state in
      record t { clients = front ++ back; state = s }

  -- A step of the thread of the client `c`.
  unfoldable pub client_step :
      (buffer : os.World → List ℕ) → List Client → Client → List Client → Threads → Threads
  client_step buffer front c back t = client_at buffer c.stage c.fd front back t

  -- The store of `stop`.
  unfoldable pub stop_step : Threads → Threads
  stop_step t = record t { running = false }

  -- `returns` says whether a call comes back, as things are. The accept thread need not wait.
  abbrev pub listener_moves : (returns : Call → State (os.World) → Bool) → Listener → Threads → Bool
  listener_moves returns checking t = true
  listener_moves returns accepting t = returns (accept t.server) t.state
  listener_moves returns leaving t = true
  listener_moves returns ended t = false

  -- The thread of a client need not wait.
  abbrev pub client_moves :
      (returns : Call → State (os.World) → Bool) → Stage → (fd : ℤ) → Threads → Bool
  client_moves returns looking fd t = true
  client_moves returns reading fd t = returns (read fd 1024) t.state
  client_moves returns closing fd t = true

  -- What the network does changes the world of the operating system.
  unfoldable pub network_step : os.World → Threads → Threads
  network_step w t = record t { state = record t.state { world = w } }

  module _ (buffer : os.World → List ℕ) (returns : Call → State (os.World) → Bool) where
    -- One step of the accept thread or of a client's thread, which has not ended and need not wait.
    pub data Step (t : Threads) : Threads → Type 0 where
      listens : listener_moves returns t.listener t ≡ true → Step t (listen_step t)
      serves :
          (front : List Client) (c : Client) (back : List Client)
          → t.clients ≡ front ++ c ∷ back
          → client_moves returns c.stage c.fd t ≡ true
          → Step t (client_step buffer front c back t)

    -- So many steps of these threads; the network does what it likes between them.
    pub data Works : ℕ → Threads → Threads → Type 0 where
      idle : (t : Threads) → Works 0 t t
      works : {n : ℕ} {t u v : Threads} → Works n t u → Step u v → Works (suc n) t v
      arrives :
          {n : ℕ} {t u : Threads} → Works n t u → (w : os.World) → Works n t (network_step w u)

    -- Steps of these threads, of the network, and of the thread that calls `stop`.
    pub data Steps : Threads → Threads → Type 0 where
      here : (t : Threads) → Steps t t
      further : {t u v : Threads} → Steps t u → Step u v → Steps t v
      stopped : {t u : Threads} → Steps t u → Steps t (stop_step u)
      happens : {t u : Threads} → Steps t u → (w : os.World) → Steps t (network_step w u)

  -- Behind `listen`, with no client yet.
  unfoldable pub ready : ℤ → State (os.World) → Threads
  ready server s = record {
    running = true;
    server = server;
    listener = checking;
    clients = [];
    messages = [];
    state = s;
  }
