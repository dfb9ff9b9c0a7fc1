-- ===== src/Sockets/Tests.antt =====
-- Runs of the socket classes, and the theorems at concrete answers.
mod Threads
use scrimmage.Prelude.{true, ℕ, suc, ◌≡◌, refl, some, [], ◌∷◌, map, arith, if◌then◌else◌, get_elem?}
use scrimmage.Prelude.Int.{ℤ, pos, eq_ℤ}
use scrimmage.Sockets.{
  Call, open_socket, parse_address, set_option, connect, bind, listen, accept, read, send_bytes,
  recv_bytes, send_to, recv_from, close, Os, State, held,
}
use scrimmage.Sockets.Udp.{construct_socket, construct_sender, construct_receiver}
use scrimmage.Sockets.Server.{listen_loop, accept_loop, client_loop}
use scrimmage.Sockets.Counts.{count_fd}
use scrimmage.Sockets.Client.{construct}
use scrimmage.Sockets.Udp
use scrimmage.Sockets.Lifetimes.{
  send_use, client_life, udp_life, udp_calls, group_recv, group_recvs, lifetime-left,
}
use scrimmage.Sockets.Session.{construct_server, join_clients, session, session-count}
use scrimmage.Sockets.Send.{send_all, send_all_overruns}

-- An operating system that counts its sockets up and reads the address as `parsed`.
abbrev answer_of : ℤ → ℕ → Call → ℤ × ℕ
answer_of parsed n (open_socket kind) = (pos n, suc n)
answer_of parsed n (parse_address host) = (parsed, n)
answer_of parsed n (set_option fd option value) = (pos 0, n)
answer_of parsed n (connect fd host port) = (pos 0, n)
answer_of parsed n (bind fd port) = (pos 0, n)
answer_of parsed n (listen fd backlog) = (pos 0, n)
answer_of parsed n (accept fd) = (pos n, suc n)
answer_of parsed n (read fd len) = (pos 2, n)
answer_of parsed n (send_bytes fd len) = (pos 2, n)
answer_of parsed n (recv_bytes fd len) = (pos 2, n)
answer_of parsed n (send_to fd len) = (pos 2, n)
answer_of parsed n (recv_from fd len) = (pos 2, n)
answer_of parsed n (close fd) = (pos 0, n)

abbrev system : ℤ → Os
system parsed = record { World = ℕ; answer = answer_of parsed }

abbrev fresh : State ℕ
fresh = record { world = 3; log = [] }

-- Two clients, one that is read from once and one not.
abbrev rounds_of : ℤ → ℕ
rounds_of fd = if eq_ℤ fd (pos 4) then 1 else 0

session_run :
    (session (system (pos 1)) (λ w. 7 ∷ 8 ∷ 9 ∷ []) 2 rounds_of (construct_server 80 5) fresh).0
    ≡ [] ∷ ((7 ∷ 8 ∷ []) ∷ []) ∷ []
unfolding session construct_server listen_loop accept_loop join_clients client_loop
session_run = refl

session-count_run :
    count_fd (pos 4) (
      held
        (session
          (system (pos 1))
          (λ w. 7 ∷ 8 ∷ 9 ∷ [])
          2
          rounds_of
          (construct_server 80 5)
          fresh).1.log)
    ≡ 0
session-count_run =
    session-count (system (pos 1)) (λ w. 7 ∷ 8 ∷ 9 ∷ []) 2 rounds_of (construct_server 80 5) fresh
      (pos 4)

send_all_overruns_example :
    get_elem? (send_all (pos 4 ∷ []) 4).1 1 ≡ some (record { offset = 4; count = 3 })
send_all_overruns_example = send_all_overruns 4 [] (omega arith)

-- The address is good: nothing is left open.
life_run :
    held
      (udp_life
        (system (pos 1))
        (group_recvs (system (pos 1)) (10 ∷ 20 ∷ []))
        (construct_receiver (system (pos 1)) (49 ∷ []) 80 4096 fresh).0
        (construct_receiver (system (pos 1)) (49 ∷ []) 80 4096 fresh).1).log
    ≡ []
unfolding construct_receiver group_recv Udp.destroy
life_run = refl

-- The address is bad: each of the three leaves socket 3 open.
lifetime-left_example :
    let os = system (pos 0) in
    let client = construct os (49 ∷ []) 80 true 4096 8192 fresh in
    let plain = construct_socket os (49 ∷ []) 80 fresh in
    let sender = construct_sender os (49 ∷ []) 80 1 fresh in
    let receiver = construct_receiver os (49 ∷ []) 80 4096 fresh in
    (held (client_life os (send_use 4 ∷ []) client.0 client.1).log ≡ [])
    × (held (udp_life os (udp_calls os (send_use 4 ∷ [])) plain.0 plain.1).log ≡ pos 3 ∷ [])
    × (held (udp_life os (udp_calls os (map send_use (8 ∷ []))) sender.0 sender.1).log ≡ pos 3 ∷ [])
    × (held (udp_life os (group_recvs os (8 ∷ [])) receiver.0 receiver.1).log ≡ pos 3 ∷ [])
unfolding construct_socket construct_sender construct_receiver
lifetime-left_example =
    lifetime-left (system (pos 0)) (49 ∷ []) 80 1 4096 true 4096 8192 (send_use 4 ∷ []) (8 ∷ [])
      fresh
