-- ===== src/Connections/Tests.antt =====
-- Runs of a manager, and the theorems on a concrete operating system.
use scrimmage.Prelude.{ℕ, suc, ◌+◌, ◌*◌, ◌≡◌, refl, List, [], ◌∷◌, ◌++◌, if◌then◌else◌, ◌==◌}
use scrimmage.Prelude.Int.{ℤ, pos, negsuc}
use scrimmage.Sockets.{
  Os, State, Call, held, open_socket, parse_address, set_option, connect, bind, listen, accept,
  read, send_bytes, recv_bytes, send_to, recv_from, close,
}
use scrimmage.Sockets.Client.{construct, set_option_if, close_socket}
use scrimmage.Connections.References.{serving, start_all-serving}
use scrimmage.Connections.{
  Connection, init, emplace_back, keep_client, add_connection, start_all, stop_all, workers,
  destroy_manager, is_connected, receive_loop,
}
use scrimmage.Sockets.Counts.{count_fd}
use scrimmage.Connections.Owned.{Command, add_call, start_call, sockets, serve, serve-closes}
use scrimmage.Connections.Receive.{receive_loop-udp}
use scrimmage.Pipelines.{Read, forward, udp_read_loop}

-- It numbers the sockets from 3 on and refuses connections to port 9.
abbrev answers : ℕ → Call → ℤ × ℕ
answers w (open_socket kind) = (pos w, suc w)
answers w (parse_address host) = (pos 1, w)
answers w (set_option fd option value) = (pos 0, w)
answers w (connect fd host port) = (if port == 9 then negsuc 0 else pos 0, w)
answers w (bind fd port) = (pos 0, w)
answers w (listen fd backlog) = (pos 0, w)
answers w (accept fd) = (pos w, suc w)
answers w (read fd len) = (pos 2, w)
answers w (send_bytes fd len) = (pos 2, w)
answers w (recv_bytes fd len) = (pos 2, w)
answers w (send_to fd len) = (pos 2, w)
answers w (recv_from fd len) = (pos 2, w)
answers w (close fd) = (pos 0, w)

abbrev numbering : Os
numbering = record { World = ℕ; answer = answers }

abbrev fresh : State ℕ
fresh = record { world = 3; log = [] }

abbrev gather : List ℕ → List ℕ → List ℕ
gather bytes kept = kept ++ bytes

abbrev doubled : ℕ → ℕ
doubled n = suc (2 * n)

-- Two connections, one that is refused between them, and a start.
abbrev calls : List (Command (List ℕ))
calls =
    add_call (49 ∷ []) 7 gather
    ∷ add_call (49 ∷ []) 9 gather
    ∷ start_call
    ∷ add_call (49 ∷ []) 8 gather
    ∷ []

abbrev connection : Connection (List ℕ)
connection = record {
  client = record { socket = pos 3; host = 49 ∷ []; port = 7 };
  callback = gather;
}

sockets_run : sockets (serve numbering doubled calls init fresh).0.clients ≡ pos 3 ∷ pos 5 ∷ []
unfolding construct set_option_if close_socket add_connection keep_client emplace_back init
    start_all
sockets_run = refl

serve-closes_example :
    let run = serve numbering doubled calls init fresh in
    (count_fd (pos 5) (held run.1.log) ≡ count_fd (pos 5) (sockets run.0.clients))
    × (count_fd (pos 5) (held (destroy_manager numbering run.0 run.1).log) ≡ 0)
unfolding construct set_option_if close_socket add_connection keep_client emplace_back init
    start_all
serve-closes_example = let h = serve-closes numbering doubled calls fresh (pos 5) in h

start_all-serving_example :
    let m = (serve numbering doubled calls init fresh).0 in
    let added = emplace_back doubled connection m in
    (serving (start_all m).array 0 (start_all m).threads ≡ 1)
    × (serving added.array 0 added.threads ≡ 0)
unfolding construct set_option_if close_socket add_connection keep_client emplace_back init
    start_all workers stop_all
start_all-serving_example = start_all-serving numbering doubled calls fresh connection 0

abbrev reads : List Read
reads =
    (record { count = pos 2; buffer = 7 ∷ 8 ∷ 9 ∷ [] })
    ∷ (record { count = pos 0; buffer = [] })
    ∷ (record { count = pos 1; buffer = 5 ∷ 8 ∷ 9 ∷ [] })
    ∷ []

receive_loop-udp_run :
    ((receive_loop reads connection []).0 ≡ 7 ∷ 8 ∷ 5 ∷ [])
    × ((receive_loop reads connection []).1 + 2 ≡ 3)
unfolding is_connected udp_read_loop forward
receive_loop-udp_run = receive_loop-udp reads connection [] refl
