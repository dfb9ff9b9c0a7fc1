-- ===== src/Sockets/Session.antt =====
-- libs/networking/tcp/TcpServer.h: a server from `start` to the end of `stop`. The threads are taken
-- one after the other: the accept thread, then each client's; `stop` waits for all of them.
use scrimmage.Prelude.{ℕ, suc, ◌+◌, ◌%◌, ◌^◌, ◌≡◌, refl, inl, inr, List, [], ◌∷◌, arith, Bool-cases}
use scrimmage.Prelude.Int.{ℤ, is_negative, eq_ℤ_self}
use scrimmage.Sockets.{
  Os, State, perform, held, stream, open_socket, reuse_addr, set_option, bind, listen,
}
use scrimmage.Sockets.Counts.{count_fd, count_fd-remove, count_fd-remove_mid}
use scrimmage.Sockets.Server.{
  listen_loop, accept_loop, client_loop, accept_loop-held, client_loop-held,
}

-- The members but the callback and the threads.
pub record TcpServer : Type 0 where
  pub port : ℕ
  pub backlog : ℕ

unfoldable pub construct_server : (port backlog : ℕ) → TcpServer
construct_server port backlog = record { port = port; backlog = backlog }

module _ (os : Os) (buffer : os.World → List ℕ) where
  -- The threads of the clients, each with the rounds in which it reads `_running` as true: the
  -- messages that the callback gets from each.
  unfoldable pub join_clients :
      (rounds : ℤ → ℕ) → List ℤ → State (os.World) → List (List (List ℕ)) × State (os.World)
  join_clients rounds [] s = ([], s)
  join_clients rounds (fd ∷ fds) s =
      let (messages, t) = client_loop os buffer (rounds fd) fd s in
      let (others, u) = join_clients rounds fds t in (messages ∷ others, u)

  -- `start`, the loops, and `stop` up to its last `join`.
  unfoldable pub session :
      (accepts : ℕ) (rounds : ℤ → ℕ)
      → TcpServer
      → State (os.World)
      → List (List (List ℕ)) × State (os.World)
  unfolding join_clients
  session accepts rounds server s =
      let (clients, t) = listen_loop os accepts server.port server.backlog s in
      join_clients rounds clients t

  listen_loop-count :
      (accepts port backlog : ℕ) (s : State (os.World)) (x : ℤ)
      → let run = listen_loop os accepts port backlog s in
        count_fd x (held run.1.log) ≡ count_fd x run.0 + count_fd x (held s.log)
  unfolding listen_loop
  listen_loop-count accepts port backlog s x =
      let (fd, opened) = perform os (open_socket stream) s in
      let (reused, shared) = perform os (set_option fd reuse_addr 1) opened in
      let (taken, placed) = perform os (bind fd port) shared in
      let (heard, ready) = perform os (listen fd (backlog % 2 ^ 32)) placed in
      elim (Bool-cases (is_negative fd)) [
        | inl none_open ↦ rw (none_open, none_open) (omega arith)
        | inr ok ↦ elim (Bool-cases (is_negative taken)) [
          | inl bad ↦ rw (ok, bad, ok) (count_fd-remove_mid x fd [] (held s.log))
          | inr good ↦ elim (Bool-cases (is_negative heard)) [
            | inl bad' ↦ rw (ok, good, bad', ok) (count_fd-remove_mid x fd [] (held s.log))
            | inr good' ↦
                let accepted =
                  accept_loop-held os accepts fd [] (fd ∷ held s.log) ready (rw ok refl) in
                rw (ok, good, good', accepted)
                  (count_fd-remove_mid x fd (accept_loop os accepts fd [] ready).0 (held s.log))
          ]
        ]
      ]

  join_clients-count :
      (rounds : ℤ → ℕ) (fds : List ℤ) (s : State (os.World)) (base : ℤ → ℕ)
      → ((x : ℤ) → count_fd x (held s.log) ≡ count_fd x fds + base x)
      → (x : ℤ) → count_fd x (held (join_clients rounds fds s).1.log) ≡ base x
  unfolding join_clients
  join_clients-count rounds [] s base h x = omega (arith, h x)
  join_clients-count rounds (fd ∷ fds) s base h x =
      let here : count_fd fd (held s.log) ≡ suc (count_fd fd fds + base fd) =
        ground (arith, h fd, eq_ℤ_self fd) in
      join_clients-count rounds fds (client_loop os buffer (rounds fd) fd s).1 base
        (λ y.
          rw (client_loop-held os buffer (rounds fd) fd s) (
            ground
              (arith, h y, count_fd-remove y fd (held s.log) (count_fd fd fds + base fd) here)))
        x

  -- Whatever the operating system answers, when `stop` has joined the threads of a server every
  -- socket is open just as often as before `start`: the server's and all its clients' are closed.
  pub session-count :
      (accepts : ℕ) (rounds : ℤ → ℕ) (server : TcpServer) (s : State (os.World)) (x : ℤ)
      → count_fd x (held (session accepts rounds server s).1.log) ≡ count_fd x (held s.log)
  unfolding session
  session-count accepts rounds server s x =
      let run = listen_loop os accepts server.port server.backlog s in
      join_clients-count rounds run.0 run.1 (λ y. count_fd y (held s.log))
        (λ y. listen_loop-count accepts server.port server.backlog s y) x
