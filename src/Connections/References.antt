-- ===== src/Connections/References.antt =====
-- What the threads of a manager refer to, once `startAll` has made them.
use scrimmage.Prelude.{
  ℕ, zero, suc, ◌+◌, ◌≤◌, ◌≡◌, refl, inl, inr, true, List, [], ◌∷◌, ◌++◌, arith, ◌==◌, ltb, leb,
  ◌&&◌, if◌then◌else◌, length, Bool-cases, Every,
}
use scrimmage.Sockets.{Os, State, Made, thrown, made}
use scrimmage.Sockets.Client.{TcpClient, construct}
use scrimmage.Connections.Owned.{Command, add_call, start_call, stop_call, serve}
use scrimmage.Connections.{
  Connection, Manager, Worker, workers, init, emplace_back, keep_client, add_connection, start_all,
  stop_all,
}

-- How many threads serve the client at place `i` of the array.
abbrev pub serving : (array i : ℕ) → List Worker → ℕ
serving array i [] = 0
serving array i (w ∷ ws) =
    if w.array == array && w.place == i then suc (serving array i ws) else serving array i ws

serving-append :
    (array i : ℕ) (vs ws : List Worker)
    → serving array i (vs ++ ws) ≡ serving array i vs + serving array i ws
serving-append array i [] ws = omega arith
serving-append array i (v ∷ vs) ws = ground (arith, serving-append array i vs ws)

abbrev between : (i lo n : ℕ) → ℕ
between i lo n = if leb lo i && ltb i (lo + n) then 1 else 0

serving-workers : (array i lo n : ℕ) → serving array i (workers array lo n) ≡ between i lo n
unfolding workers
serving-workers array i lo zero = ground arith
serving-workers array i lo (suc n) = ground (arith, serving-workers array i (suc lo) n)

-- No thread refers to an array that the vector has not had yet.
abbrev pub IsPast : ℕ → List Worker → Type 0
IsPast array ws = Every (λ w. w.array ≤ array) ws

IsPast-suc : (array : ℕ) (ws : List Worker) → IsPast array ws → IsPast (suc array) ws
IsPast-suc array [] h = tt
IsPast-suc array (w ∷ ws) h = (omega (arith, h.0), IsPast-suc array ws h.1)

IsPast-append :
    (array : ℕ) (vs ws : List Worker) → IsPast array vs → IsPast array ws → IsPast array (vs ++ ws)
IsPast-append array [] ws h g = g
IsPast-append array (v ∷ vs) ws h g = (h.0, IsPast-append array vs ws h.1 g)

workers-IsPast : (array lo n : ℕ) → IsPast array (workers array lo n)
unfolding workers
workers-IsPast array lo zero = tt
workers-IsPast array lo (suc n) = (omega arith, workers-IsPast array (suc lo) n)

serving-past : (array i : ℕ) (ws : List Worker) → IsPast array ws → serving (suc array) i ws ≡ 0
serving-past array i [] h = refl
serving-past array i (w ∷ ws) h = ground (arith, h.0, serving-past array i ws h.1)

module _ (os : Os) {S : Type 0} (grow : ℕ → ℕ) where
  keep_client-IsPast :
      (callback : List ℕ → S → S) (r : Made TcpClient) (m : Manager S)
      → IsPast m.array m.threads
      → let next = (keep_client grow callback r m).1 in IsPast next.array next.threads
  unfolding keep_client emplace_back
  keep_client-IsPast callback (thrown error) m h = h
  keep_client-IsPast callback (made c) m h = elim (Bool-cases (length m.clients == m.capacity)) [
    | inl full ↦ rw full (IsPast-suc m.array m.threads h)
    | inr room ↦ rw room h
  ]

  serve-IsPast :
      (calls : List (Command S)) (m : Manager S) (s : State (os.World))
      → IsPast m.array m.threads
      → let after = (serve os grow calls m s).0 in IsPast after.array after.threads
  unfolding add_connection start_all stop_all
  serve-IsPast [] m s h = h
  serve-IsPast (add_call host port callback ∷ calls) m s h =
      let run = construct os host port true 0 0 s in
      serve-IsPast calls (keep_client grow callback run.0 m).1 run.1
        (keep_client-IsPast callback run.0 m h)
  serve-IsPast (start_call ∷ calls) m s h = serve-IsPast calls (start_all m) s (
      IsPast-append m.array m.threads (workers m.array 0 (length m.clients)) h
        (workers-IsPast m.array 0 (length m.clients)))
  serve-IsPast (stop_call ∷ calls) m s h = serve-IsPast calls (stop_all m) s tt

  module _ (calls : List (Command S)) (s : State (os.World)) (c : Connection S) (i : ℕ) where
    -- Whatever a program has called, `startAll` gives each client of the vector one more thread, also
    -- where it has one; and when the next client is added to a full vector, no thread refers to an
    -- element of the vector any more, while room in the vector keeps each thread's.
    pub start_all-serving :
        let m = (serve os grow calls init s).0 in
        let added = emplace_back grow c m in
        (serving (start_all m).array i (start_all m).threads
          ≡ serving m.array i m.threads + (if ltb i (length m.clients) then 1 else 0))
        × (serving added.array i added.threads
            ≡ (if length m.clients == m.capacity then 0 else serving m.array i m.threads))
    unfolding start_all emplace_back init
    start_all-serving =
        let m = (serve os grow calls init s).0 in
        let past : IsPast m.array m.threads = serve-IsPast calls init s tt in
        (
          ground (
            arith,
            serving-append m.array i m.threads (workers m.array 0 (length m.clients)),
            serving-workers m.array i 0 (length m.clients),
          ),
          elim (Bool-cases (length m.clients == m.capacity)) [
            | inl full ↦ rw full (serving-past m.array i m.threads past)
            | inr room ↦ rw room refl
          ],
        )
