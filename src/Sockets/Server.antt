-- ===== src/Sockets/Server.antt =====
-- libs/networking/tcp/TcpServer.h: the loops of its threads. A loop is given the number of times that
-- it reads `_running` as true, which another thread sets.
use scrimmage.Prelude.{
  ℕ, zero, suc, ◌%◌, ◌^◌, ◌≡◌, refl, ap, inl, inr, false, ◌||◌, List, [], ◌∷◌, ◌++◌, if◌then◌else◌,
  Bool-cases, take, Every,
}
use scrimmage.Prelude.Int.{ℤ, pos, pos_part, is_negative, eq_ℤ}
use scrimmage.Sockets.{
  reuse_addr, stream, open_socket, set_option, bind, listen, accept, read, close, Os, State,
  perform, held, remove, remove_self,
}

module _ (os : Os) where
  -- The loop of `listenLoop`: `clients` are the sockets that threads were made for, the last first.
  unfoldable pub accept_loop :
      ℕ → (server : ℤ) → (clients : List ℤ) → State (os.World) → List ℤ × State (os.World)
  accept_loop zero server clients s = (clients, s)
  accept_loop (suc rounds) server clients s =
      let (fd, t) = perform os (accept server) s in
      accept_loop rounds server (if is_negative fd then clients else fd ∷ clients) t

  -- `listenLoop`: the server's socket, which is negative if there is none, and those of the clients.
  unfoldable pub listen_loop :
      (rounds port backlog : ℕ) → State (os.World) → List ℤ × State (os.World)
  unfolding accept_loop
  listen_loop rounds port backlog s =
      let (fd, opened) = perform os (open_socket stream) s in
      let (reused, shared) = perform os (set_option fd reuse_addr 1) opened in
      let (taken, placed) = perform os (bind fd port) shared in
      let (heard, ready) = perform os (listen fd (backlog % 2 ^ 32)) placed in
      let (clients, served) = accept_loop rounds fd [] ready in
      let (refused, unplaced) = perform os (close fd) placed in
      let (unheard, unready) = perform os (close fd) ready in
      let (ended, done) = perform os (close fd) served in
      if is_negative fd
      then ([], opened)
      else if is_negative taken
      then ([], unplaced)
      else if is_negative heard
      then ([], unready)
      else (clients, done)

  -- `clientLoop`: the messages that the callback gets; `buffer` is what the last `read` left in it.
  unfoldable pub client_loop :
      (buffer : os.World → List ℕ)
      → (rounds : ℕ) → ℤ
      → State (os.World)
      → List (List ℕ) × State (os.World)
  client_loop buffer zero fd s = let (result, t) = perform os (close fd) s in ([], t)
  client_loop buffer (suc rounds) fd s =
      let (n, t) = perform os (read fd 1024) s in
      let (result, closed) = perform os (close fd) t in
      let (messages, u) = client_loop buffer rounds fd t in
      if is_negative n || eq_ℤ n (pos 0)
      then ([], closed)
      else (take (pos_part n) (buffer t.world) ∷ messages, u)

  pub accept_loop-held :
      (rounds : ℕ) (server : ℤ) (clients fds : List ℤ) (s : State (os.World))
      → held s.log ≡ clients ++ fds
      → let run = accept_loop rounds server clients s in held run.1.log ≡ run.0 ++ fds
  unfolding accept_loop
  accept_loop-held zero server clients fds s h = h
  accept_loop-held (suc rounds) server clients fds s h =
      let (fd, t) = perform os (accept server) s in
      accept_loop-held rounds server (if is_negative fd then clients else fd ∷ clients) fds t
        (elim (Bool-cases (is_negative fd)) [ inl neg ↦ rw neg h | inr ok ↦ rw ok (ap (◌∷◌ fd) h) ])

  remove_behind :
      (fd : ℤ) (xs ys : List ℤ)
      → Every (λ x. eq_ℤ fd x ≡ false) xs
      → remove fd (xs ++ (fd ∷ ys)) ≡ xs ++ ys
  remove_behind fd [] ys h = remove_self fd ys
  remove_behind fd (x ∷ xs) ys h = rw h.0 (ap (◌∷◌ x) (remove_behind fd xs ys h.1))

  -- Whatever the operating system answers, as long as it gives no client the number of the server's
  -- open socket: behind `listenLoop` the sockets open are those open before and those of the clients
  -- that threads were made for. The server's own is closed on every path.
  pub listen_loop-held :
      (rounds port backlog : ℕ) (s : State (os.World))
      → let run = listen_loop rounds port backlog s in
        Every (λ c. eq_ℤ (os.answer s.world (open_socket stream)).0 c ≡ false) run.0
        → held run.1.log ≡ run.0 ++ held s.log
  unfolding listen_loop
  listen_loop-held rounds port backlog s =
      let first = os.answer s.world (open_socket stream) in
      let (fd, opened) = perform os (open_socket stream) s in
      let (reused, shared) = perform os (set_option fd reuse_addr 1) opened in
      let (taken, placed) = perform os (bind fd port) shared in
      let (heard, ready) = perform os (listen fd (backlog % 2 ^ 32)) placed in
      elim (Bool-cases (is_negative fd)) [
        | inl none_open ↦ rw (none_open, none_open) (λ h. refl)
        | inr ok ↦ elim (Bool-cases (is_negative taken)) [
          | inl bad ↦ rw (ok, bad, ok) (λ h. remove_self fd (held s.log))
          | inr good ↦ elim (Bool-cases (is_negative heard)) [
            | inl bad' ↦ rw (ok, good, bad', ok) (λ h. remove_self fd (held s.log))
            | inr good' ↦
                let accepted = accept_loop-held rounds fd [] (fd ∷ held s.log) ready (rw ok refl) in
                rw (ok, good, good', accepted)
                  (remove_behind fd (accept_loop rounds fd [] ready).0 (held s.log))
          ]
        ]
      ]

  -- Whatever the operating system answers, `clientLoop` closes its client's socket, and no other.
  pub client_loop-held :
      (buffer : os.World → List ℕ) (rounds : ℕ) (fd : ℤ) (s : State (os.World))
      → held (client_loop buffer rounds fd s).1.log ≡ remove fd (held s.log)
  unfolding client_loop
  client_loop-held buffer zero fd s = refl
  client_loop-held buffer (suc rounds) fd s =
      let (n, t) = perform os (read fd 1024) s in
      elim (Bool-cases (is_negative n || eq_ℤ n (pos 0))) [
        | inl ended ↦ rw ended refl
        | inr more ↦ rw more (client_loop-held buffer rounds fd t)
      ]
