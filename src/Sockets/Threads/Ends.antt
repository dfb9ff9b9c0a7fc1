-- ===== src/Sockets/Threads/Ends.antt =====
-- `stop` of libs/networking/tcp/TcpServer.h: once `_running` is false the threads end.
use scrimmage.Prelude.{
  ℕ, ◌%◌, ◌^◌, none, some, ◌+◌, ◌≤◌, ◌<◌, ◌≡◌, ◌≢◌, ◌⊎◌, refl, ap, ◌∙◌, inl, inr, Bool, false, ◌||◌,
  List, [], ◌∷◌, ◌++◌, arith, Bool-cases,
}
use scrimmage.Prelude.Int.{ℤ, pos, is_negative, eq_ℤ}
use scrimmage.Sockets.{
  Os, State, Call, accept, read, perform, held, open_socket, stream, set_option, reuse_addr, bind,
  listen,
}
use scrimmage.Sockets.Counts.{count_fd, count_fd-append, count_fd-remove_mid}
use scrimmage.Sockets.Threads.{
  Listener, checking, accepting, leaving, ended, Stage, looking, reading, closing, Client, Threads,
  listen_at, listen_step, client_at, client_step, Step, listens, serves, Works, idle, works, Steps,
  setup, ready, arrives, network_step,
}
use scrimmage.Sockets.Threads.Held.{Works-IsHeld, threads-IsHeld}

-- The steps that a thread still takes when `_running` is false, at most; an `accept` that returns may
-- bring one more client.
abbrev pub listener_left : Listener → ℕ
listener_left checking = 2
listener_left accepting = 5
listener_left leaving = 1
listener_left ended = 0

abbrev pub stage_left : Stage → ℕ
stage_left looking = 2
stage_left reading = 3
stage_left closing = 1

abbrev pub clients_left : List Client → ℕ
clients_left [] = 0
clients_left (c ∷ cs) = stage_left c.stage + clients_left cs

clients_left-append :
    (cs ds : List Client) → clients_left (cs ++ ds) ≡ clients_left cs + clients_left ds
clients_left-append [] ds = omega arith
clients_left-append (c ∷ cs) ds = omega (arith, clients_left-append cs ds)

module _ (os : Os) (buffer : os.World → List ℕ) (returns : Call → State (os.World) → Bool) where
  abbrev pub steps_left : Threads os → ℕ
  steps_left t = listener_left t.listener + clients_left t.clients

  -- A step with `_running` false leaves it false and brings the end nearer.
  abbrev Nears : Threads os → Threads os → Type 0
  Nears t u = (u.running ≡ false) × (steps_left u < steps_left t)

  listen_at-Nears :
      (l : Listener) (t : Threads os)
      → t.running ≡ false
      → t.listener ≡ l
      → l ≢ ended
      → Nears t (listen_at os l t)
  unfolding listen_at
  listen_at-Nears checking t off at going = rw (off, at) (refl, omega arith)
  listen_at-Nears accepting t off at going =
      let (fd, s) = perform os (accept t.server) t.state in
      rw at (
        off,
        ground (arith, clients_left-append t.clients (record { fd = fd; stage = looking } ∷ [])),
      )
  listen_at-Nears leaving t off at going = rw at (off, omega arith)
  listen_at-Nears ended t off at going = absurd (going refl)

  client_at-Nears :
      (stage : Stage) (t : Threads os) (front : List Client) (fd : ℤ) (back : List Client)
      → t.running ≡ false
      → clients_left t.clients ≡ clients_left front + (stage_left stage + clients_left back)
      → Nears t (client_at os buffer stage fd front back t)
  unfolding client_at
  client_at-Nears looking t front fd back off eq = rw off (
    refl,
    omega (arith, eq, clients_left-append front (record { fd = fd; stage = closing } ∷ back)),
  )
  client_at-Nears reading t front fd back off eq =
      let (n, s) = perform os (read fd 1024) t.state in
      let moved =
        λ (stage : Stage). clients_left-append front (record { fd = fd; stage = stage } ∷ back) in
      elim (Bool-cases (is_negative n || eq_ℤ n (pos 0))) [
        | inl over ↦ rw over (off, omega (arith, eq, moved closing))
        | inr more ↦ rw more (off, omega (arith, eq, moved looking))
      ]
  client_at-Nears closing t front fd back off eq =
      (off, omega (arith, eq, clients_left-append front back))

  Step-Nears : {t u : Threads os} → Step os buffer returns t u → t.running ≡ false → Nears t u
  unfolding listen_step client_step
  Step-Nears {t = t} (listens moves) off =
      listen_at-Nears t.listener t off refl (λ over. cc (rw over at moves))
  Step-Nears {t = t} (serves front c back eq moves) off =
      client_at-Nears c.stage t front c.fd back off
        (ap clients_left eq ∙ clients_left-append front (c ∷ back))

  works_near :
      {n : ℕ} {t u : Threads os}
      → Works os buffer returns n t u
      → t.running ≡ false
      → (u.running ≡ false) × (steps_left u + n ≤ steps_left t)
  unfolding network_step
  works_near (idle t) off = (off, omega arith)
  works_near (arrives steps w) off = works_near steps off
  works_near (works steps step) off =
      let before = works_near steps off in
      let last = Step-Nears step before.0 in (last.0, omega (arith, before.1, last.1))

  -- A thread is in a call of `accept` or `read` that does not return as things are.
  abbrev pub Waits : Threads os → Type 0
  Waits u =
      ((u.listener ≡ accepting) × (returns (accept u.server) u.state ≡ false))
      ⊎ ((front : List Client) × (c : Client) × (back : List Client) × (u.clients
            ≡ front ++ c ∷ back)
          × (c.stage ≡ reading)
          × (returns (read c.fd 1024) u.state ≡ false))

  abbrev GoesOn : Threads os → Type 0
  GoesOn u =
      ((v : Threads os) × Step os buffer returns u v)
      ⊎ (Waits u ⊎ ((u.listener ≡ ended) × (u.clients ≡ [])))

  client-GoesOn :
      (u : Threads os) (stage : Stage) (c : Client) (cs : List Client)
      → c.stage ≡ stage
      → u.clients ≡ c ∷ cs
      → GoesOn u
  client-GoesOn u looking c cs at eq =
      inl (client_step os buffer [] c cs u, serves [] c cs eq (rw at refl))
  client-GoesOn u reading c cs at eq = elim (Bool-cases (returns (read c.fd 1024) u.state)) [
    | inl back ↦ inl (client_step os buffer [] c cs u, serves [] c cs eq (rw at back))
    | inr silent ↦ inr (inl (inr ([], c, cs, eq, at, silent)))
  ]
  client-GoesOn u closing c cs at eq =
      inl (client_step os buffer [] c cs u, serves [] c cs eq (rw at refl))

  goes_on :
      (u : Threads os) (l : Listener) (cs : List Client)
      → u.listener ≡ l
      → u.clients ≡ cs
      → GoesOn u
  goes_on u ended [] at none_left = inr (inr (at, none_left))
  goes_on u ended (c ∷ cs) at some_left = client-GoesOn u c.stage c cs refl some_left
  goes_on u checking cs at clients = inl (listen_step os u, listens (rw at refl))
  goes_on u accepting cs at clients = elim (Bool-cases (returns (accept u.server) u.state)) [
    | inl back ↦ inl (listen_step os u, listens (rw at back))
    | inr silent ↦ inr (inl (inl (at, silent)))
  ]
  goes_on u leaving cs at clients = inl (listen_step os u, listens (rw at refl))

  -- Before the loop: the server's socket is open on top of the others, or none of its own is.
  setup-count :
      (port backlog : ℕ) (s : State (os.World)) (x : ℤ)
      → let run = setup os port backlog s in
        count_fd x (held run.1.log)
        ≡ (elim run.0 [ none ↦ 0 | some fd ↦ count_fd x (fd ∷ []) ]) + count_fd x (held s.log)
  unfolding setup
  setup-count port backlog s x =
      let (fd, opened) = perform os (open_socket stream) s in
      let (reused, shared) = perform os (set_option fd reuse_addr 1) opened in
      let (taken, placed) = perform os (bind fd port) shared in
      let (heard, heeded) = perform os (listen fd (backlog % 2 ^ 32)) placed in
      elim (Bool-cases (is_negative fd)) [
        | inl none_open ↦ rw (none_open, none_open) (omega arith)
        | inr ok ↦
            let gone = count_fd-remove_mid x fd [] (held s.log) in
            elim (Bool-cases (is_negative taken)) [
              | inl bad ↦ rw (ok, bad, ok) (omega (arith, gone))
              | inr good ↦ elim (Bool-cases (is_negative heard)) [
                | inl bad' ↦ rw (ok, good, bad', ok) (omega (arith, gone))
                | inr good' ↦ rw (ok, good, good', ok) (count_fd-append x (fd ∷ []) (held s.log))
              ]
            ]
      ]

  -- Whatever the operating system answers and in whatever order the threads of a server take their
  -- steps: if no socket can be set up to listen on, each socket is open as often as before `start`.
  pub setup_fails :
      (port backlog : ℕ) (s s' : State (os.World)) (x : ℤ)
      → setup os port backlog s ≡ (none, s')
      → count_fd x (held s'.log) ≡ count_fd x (held s.log)
  setup_fails port backlog s s' x fails = omega (arith, rw fails at (setup-count port backlog s x))

  -- Whatever the operating system answers, whenever the network lets `accept` and `read` return, and
  -- in whatever order the threads take their steps: once a server that listens has been told to stop,
  -- its threads take no more steps than `steps_left` says. Behind any of them there is a step to take,
  -- or a thread waits in an `accept` or a `read` that does not return, or all threads have ended and
  -- each socket is open as often as before `start`.
  pub stop_joins :
      (port backlog : ℕ) (s s' : State (os.World)) (server : ℤ) (n : ℕ) (t u : Threads os)
      → setup os port backlog s ≡ (some server, s')
      → Steps os buffer returns (ready os server s') t
      → t.running ≡ false
      → Works os buffer returns n t u
      → (n ≤ steps_left t)
        × (((v : Threads os) × Step os buffer returns u v)
            ⊎ (Waits u
                ⊎ ((u.listener ≡ ended)
                    × (u.clients ≡ [])
                    × ((x : ℤ) → count_fd x (held u.state.log) ≡ count_fd x (held s.log)))))
  stop_joins port backlog s s' server n t u listens_on ran off steps =
      let base = λ (x : ℤ). count_fd x (held s.log) in
      let owns =
        threads-IsHeld os buffer returns base server s'
          (λ x. rw listens_on at (setup-count port backlog s x)) t ran in
      (
        omega (arith, (works_near steps off).1),
        elim (goes_on u u.listener u.clients refl refl) [
          | inl next ↦ inl next
          | inr (inl waits) ↦ inr (inl waits)
          | inr (inr (over, none_left)) ↦ inr (
              inr (
                over,
                none_left,
                λ x.
                    omega
                      (arith, rw (over, none_left) at (Works-IsHeld os buffer base steps owns x)),
              ))
        ],
      )
