-- ===== src/Sockets/Threads/Held.antt =====
-- The sockets of libs/networking/tcp/TcpServer.h while its threads run.
use scrimmage.Prelude.{
  ℕ, suc, ◌+◌, ◌≡◌, refl, ap, ◌∙◌, inl, inr, Bool, ◌||◌, List, [], ◌∷◌, ◌++◌, arith, if◌then◌else◌,
  Bool-cases,
}
use scrimmage.Prelude.Int.{ℤ, pos, is_negative, eq_ℤ, eq_ℤ_self}
use scrimmage.Sockets.{Os, State, Call, accept, read, perform, held, remove}
use scrimmage.Sockets.Counts.{count_fd, count_fd-remove}
use scrimmage.Sockets.Threads.{
  Listener, checking, accepting, leaving, ended, Stage, looking, reading, closing, Client, Threads,
  listen_at, listen_step, client_at, client_step, stop_step, Step, listens, serves, Works, idle,
  works, Steps, here, further, stopped, ready, arrives, happens, network_step,
}

-- How often the clients' threads own a socket.
abbrev pub owned : ℤ → List Client → ℕ
owned x [] = 0
owned x (c ∷ cs) = count_fd x (c.fd ∷ []) + owned x cs

-- How often the accept thread does.
abbrev pub listening : ℤ → Listener → ℤ → ℕ
listening x checking server = count_fd x (server ∷ [])
listening x accepting server = count_fd x (server ∷ [])
listening x leaving server = count_fd x (server ∷ [])
listening x ended server = 0

owned-append : (x : ℤ) (cs ds : List Client) → owned x (cs ++ ds) ≡ owned x cs + owned x ds
owned-append x [] ds = omega arith
owned-append x (c ∷ cs) ds = omega (arith, owned-append x cs ds)

module _ (os : Os) (buffer : os.World → List ℕ) (base : ℤ → ℕ) where
  -- The open sockets are those open before, the server's and those of the clients' threads.
  abbrev pub IsHeld : Threads os → Type 0
  IsHeld t =
      (x : ℤ)
      → count_fd x (held t.state.log)
        ≡ listening x t.listener t.server + (owned x t.clients + base x)

  -- A close of a socket that is open once more than `rest` says.
  closed :
      (fd x : ℤ) (log : List (Call × ℤ)) (rest : ℤ → ℕ)
      → ((y : ℤ) → count_fd y (held log) ≡ count_fd y (fd ∷ []) + rest y)
      → count_fd x (remove fd (held log)) ≡ rest x
  closed fd x log rest h =
      let own : count_fd fd (held log) ≡ suc (rest fd) = ground (arith, h fd, eq_ℤ_self fd) in
      omega (arith, count_fd-remove x fd (held log) (rest fd) own, h x)

  listen_at-IsHeld :
      (l : Listener) (t : Threads os) → t.listener ≡ l → IsHeld t → IsHeld (listen_at os l t)
  unfolding listen_at
  listen_at-IsHeld checking t at h x = ground (arith, rw at at (h x))
  listen_at-IsHeld accepting t at h x =
      let (fd, s) = perform os (accept t.server) t.state in
      ground
        (arith, rw at at (h x), owned-append x t.clients (record { fd = fd; stage = looking } ∷ []))
  listen_at-IsHeld leaving t at h x =
      closed t.server x t.state.log (λ y. owned y t.clients + base y) (λ y. rw at at (h y))
      ∙ omega arith
  listen_at-IsHeld ended t at h x = h x

  client_at-IsHeld :
      (stage : Stage) (t : Threads os) (front : List Client) (fd : ℤ) (back : List Client)
      → ((x : ℤ) → owned x t.clients ≡ owned x front + (count_fd x (fd ∷ []) + owned x back))
      → IsHeld t
      → IsHeld (client_at os buffer stage fd front back t)
  unfolding client_at
  client_at-IsHeld looking t front fd back eq h x =
      let c : Client = record { fd = fd; stage = if t.running then reading else closing } in
      omega (arith, h x, eq x, owned-append x front (c ∷ back))
  client_at-IsHeld reading t front fd back eq h x =
      let (n, s) = perform os (read fd 1024) t.state in
      let moved =
        λ (stage : Stage). owned-append x front (record { fd = fd; stage = stage } ∷ back) in
      elim (Bool-cases (is_negative n || eq_ℤ n (pos 0))) [
        | inl over ↦ rw over (omega (arith, h x, eq x, moved closing))
        | inr more ↦ rw more (omega (arith, h x, eq x, moved looking))
      ]
  client_at-IsHeld closing t front fd back eq h x =
      closed fd x t.state.log
        (λ y. listening y t.listener t.server + (owned y (front ++ back) + base y))
        λ y. omega (arith, h y, eq y, owned-append y front back)

  Step-IsHeld :
      {returns : Call → State (os.World) → Bool} {t u : Threads os}
      → Step os buffer returns t u
      → IsHeld t
      → IsHeld u
  unfolding listen_step client_step
  Step-IsHeld {t = t} (listens going) h = listen_at-IsHeld t.listener t refl h
  Step-IsHeld {t = t} (serves front c back eq moves) h =
      client_at-IsHeld c.stage t front c.fd back
        (λ x. ap (owned x) eq ∙ owned-append x front (c ∷ back)) h

  pub Works-IsHeld :
      {returns : Call → State (os.World) → Bool} {n : ℕ} {t u : Threads os}
      → Works os buffer returns n t u
      → IsHeld t
      → IsHeld u
  unfolding network_step
  Works-IsHeld (idle t) h = h
  Works-IsHeld (arrives steps w) h = Works-IsHeld steps h
  Works-IsHeld (works steps step) h = Step-IsHeld step (Works-IsHeld steps h)

  Steps-IsHeld :
      {returns : Call → State (os.World) → Bool} {t u : Threads os}
      → Steps os buffer returns t u
      → IsHeld t
      → IsHeld u
  unfolding stop_step network_step
  Steps-IsHeld (here t) h = h
  Steps-IsHeld (further steps step) h = Step-IsHeld step (Steps-IsHeld steps h)
  Steps-IsHeld (stopped steps) h = Steps-IsHeld steps h
  Steps-IsHeld (happens steps w) h = Steps-IsHeld steps h

-- Whatever the operating system answers, whenever the network lets a call return, and in whatever
-- order the threads of a server take their steps, `stop` among them: from the start of the accept loop, with the server's socket open on top of
-- others, each socket is always open as often as those others, the accept thread before its last
-- `close` and the clients' threads that have not ended account for.
pub threads-IsHeld :
    (os : Os) (buffer : os.World → List ℕ) (returns : Call → State (os.World) → Bool) (base : ℤ → ℕ)
    (server : ℤ) (s : State (os.World))
    → ((x : ℤ) → count_fd x (held s.log) ≡ count_fd x (server ∷ []) + base x)
    → (t : Threads os) → Steps os buffer returns (ready os server s) t
    → IsHeld os buffer base t
unfolding ready
threads-IsHeld os buffer returns base server s opened t steps =
    Steps-IsHeld os buffer base steps (λ x. omega (arith, opened x))
