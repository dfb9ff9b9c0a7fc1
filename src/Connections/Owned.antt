-- ===== src/Connections/Owned.antt =====
-- The sockets that a manager of connections owns.
use scrimmage.Prelude.{ℕ, suc, ◌+◌, ◌≡◌, refl, ap, true, false, List, [], ◌∷◌, ◌++◌, arith, Every}
use scrimmage.Prelude.Int.{ℤ, is_negative, eq_ℤ_self}
use scrimmage.Sockets.{Os, State, held, remove, Made, thrown, made}
use scrimmage.Sockets.Client.{TcpClient, construct, destroy, close_socket}
use scrimmage.Sockets.Counts.{count_fd, count_fd-append, count_fd-remove}
use scrimmage.Sockets.Opened.{IsConnected, construct-IsConnected}
use scrimmage.Sockets.Raii.{kept, construct-kept}
use scrimmage.Connections.{
  Connection, Manager, init, emplace_back, keep_client, add_connection, start_all, stop_all,
  destroy_clients, destroy_manager,
}

module _ (os : Os) where
  destroy-held :
      (c : TcpClient) (s : State (os.World))
      → is_negative c.socket ≡ false
      → held (destroy os c s).log ≡ remove c.socket (held s.log)
  unfolding destroy close_socket
  destroy-held c s h = rw h refl

-- The calls of a program that goes on where `addConnection` throws.
pub data Command (S : Type 0) : Type 0 where
  add_call : (host : List ℕ) (port : ℕ) → (List ℕ → S → S) → Command S
  start_call stop_call : Command S

module _ {S : Type 0} where
  abbrev pub sockets : List (Connection S) → List ℤ
  sockets [] = []
  sockets (c ∷ cs) = c.client.socket ∷ sockets cs

  sockets-append : (cs ds : List (Connection S)) → sockets (cs ++ ds) ≡ sockets cs ++ sockets ds
  sockets-append [] ds = refl
  sockets-append (c ∷ cs) ds = ap (◌∷◌ c.client.socket) (sockets-append cs ds)

  Every-append_one :
      (cs : List (Connection S)) (d : Connection S)
      → Every (λ c. is_negative c.client.socket ≡ false) cs
      → is_negative d.client.socket ≡ false
      → Every (λ c. is_negative c.client.socket ≡ false) (cs ++ d ∷ [])
  Every-append_one [] d h e = (e, tt)
  Every-append_one (c ∷ cs) d h e = (h.0, Every-append_one cs d h.1 e)

  -- The sockets that are open are those that were, `base` of each, and the manager's.
  abbrev Owns : (os : Os) → (base : ℤ → ℕ) → List (Connection S) → State (os.World) → Type 0
  Owns os base clients s =
      ((fd : ℤ) → count_fd fd (held s.log) ≡ base fd + count_fd fd (sockets clients))
      × Every (λ c. is_negative c.client.socket ≡ false) clients

module _ (os : Os) {S : Type 0} (grow : ℕ → ℕ) where
  abbrev pub serve : List (Command S) → Manager S → State (os.World) → Manager S × State (os.World)
  serve [] m s = (m, s)
  serve (add_call host port callback ∷ calls) m s =
      let run = add_connection os grow host port callback m s in serve calls run.1 run.2
  serve (start_call ∷ calls) m s = serve calls (start_all m) s
  serve (stop_call ∷ calls) m s = serve calls (stop_all m) s

  destroy-Owns :
      (base : ℤ → ℕ) (c : Connection S) (cs : List (Connection S)) (s : State (os.World))
      → Owns os base (c ∷ cs) s
      → Owns os base cs (destroy os c.client s)
  destroy-Owns base c cs s h =
      let fd = c.client.socket in
      let own : count_fd fd (held s.log) ≡ suc (base fd + count_fd fd (sockets cs)) =
        ground (arith, h.0 fd, eq_ℤ_self fd) in
      (
        λ x. rw (destroy-held os c.client s h.1.0) (
            ground (
              arith,
              h.0 x,
              count_fd-remove x fd (held s.log) (base fd + count_fd fd (sockets cs)) own,
            )),
        h.1.1,
      )

  destroy_clients-Owns :
      (base : ℤ → ℕ) (clients : List (Connection S)) (s : State (os.World))
      → Owns os base clients s
      → (fd : ℤ) → count_fd fd (held (destroy_clients os clients s).log) ≡ base fd
  unfolding destroy_clients
  destroy_clients-Owns base [] s h fd = omega (arith, h.0 fd)
  destroy_clients-Owns base (c ∷ cs) s h fd =
      destroy_clients-Owns base cs (destroy os c.client s) (destroy-Owns base c cs s h) fd

  keep_client-Owns :
      (base : ℤ → ℕ) (callback : List ℕ → S → S) (r : Made TcpClient) (m : Manager S)
      (s t : State (os.World))
      → held t.log ≡ kept os r (held s.log)
      → IsConnected r
      → Owns os base m.clients s
      → Owns os base (keep_client grow callback r m).1.clients t
  unfolding keep_client emplace_back
  keep_client-Owns base callback (thrown error) m s t same is_open h = (λ fd. rw same (h.0 fd), h.1)
  keep_client-Owns base callback (made c) m s t same is_open h = (
    λ fd.
        rw (same, sockets-append m.clients)
          (ground (arith, h.0 fd, count_fd-append fd (sockets m.clients) (c.socket ∷ []))),
    Every-append_one m.clients (record { client = c; callback = callback }) h.1 is_open,
  )

  serve-Owns :
      (base : ℤ → ℕ) (calls : List (Command S)) (m : Manager S) (s : State (os.World))
      → Owns os base m.clients s
      → let run = serve calls m s in Owns os base run.0.clients run.1
  unfolding add_connection start_all stop_all
  serve-Owns base [] m s h = h
  serve-Owns base (add_call host port callback ∷ calls) m s h =
      let run = construct os host port true 0 0 s in
      serve-Owns base calls (keep_client grow callback run.0 m).1 run.1 (
        keep_client-Owns base callback run.0 m s run.1 (construct-kept os host port true 0 0 s)
          (construct-IsConnected os host port true 0 0 s) h)
  serve-Owns base (start_call ∷ calls) m s h = serve-Owns base calls (start_all m) s h
  serve-Owns base (stop_call ∷ calls) m s h = serve-Owns base calls (stop_all m) s h

  -- A program that makes a manager, calls `addConnection`, `startAll` and `stopAll` as it likes,
  -- going on where `addConnection` throws, and destroys the manager: whatever the operating system
  -- answers, the sockets that are open are, while the manager lives, those open before and those of
  -- its clients, and behind its destructor just those open before, each as often.
  pub serve-closes :
      (calls : List (Command S)) (s : State (os.World)) (fd : ℤ)
      → let run = serve calls init s in
        (count_fd fd (held run.1.log)
          ≡ count_fd fd (held s.log) + count_fd fd (sockets run.0.clients))
        × (count_fd fd (held (destroy_manager os run.0 run.1).log) ≡ count_fd fd (held s.log))
  unfolding init destroy_manager stop_all
  serve-closes calls s fd =
      let base : ℤ → ℕ = λ x. count_fd x (held s.log) in
      let owned = serve-Owns base calls init s ((λ x. omega arith), tt) in
      (
        owned.0 fd,
        destroy_clients-Owns base (serve calls init s).0.clients (serve calls init s).1 owned fd,
      )
