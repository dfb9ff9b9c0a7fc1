-- ===== src/Sockets/Tests/Threads.antt =====
-- A server of libs/networking/tcp/TcpServer.h with one client, told to stop while it reads.
use scrimmage.Prelude.{ℕ, ◌+◌, ◌≤◌, ◌≡◌, ◌⊎◌, refl, Bool, true, false, List, [], ◌∷◌, arith, some}
use scrimmage.Prelude.Int.{ℤ, pos}
use scrimmage.Sockets.{State, Call, held}
use scrimmage.Sockets.Counts.{count_fd}
use scrimmage.Sockets.Threads.{
  ended, looking, reading, closing, Client, Threads, setup, listen_at, listen_step, client_at,
  client_step, stop_step, ready, Step, listens, serves, Works, idle, works, Steps, here, further,
  stopped,
}
use scrimmage.Sockets.Threads.Held.{IsHeld, threads-IsHeld}
use scrimmage.Sockets.Threads.Ends.{steps_left, Waits, stop_joins}
use scrimmage.Sockets.Tests.{system, fresh}

abbrev typed : ℕ → List ℕ
typed w = 7 ∷ 8 ∷ 9 ∷ []

-- A network where every call returns.
abbrev answers_soon : Call → State ℕ → Bool
answers_soon c s = true

abbrev Threads' : Type 0
Threads' = Threads (system (pos 1))

bound : State ℕ
unfolding setup
bound = (setup (system (pos 1)) 80 5 fresh).1

bound_lem : setup (system (pos 1)) 80 5 fresh ≡ (some (pos 3), bound)
unfolding bound
bound_lem = refl

-- The states of a run: the accept thread looks, accepts and looks again; the client's thread looks;
-- then `stop`.
abbrev s0 : Threads'
s0 = ready (system (pos 1)) (pos 3) bound

abbrev s1 : Threads'
s1 = listen_step (system (pos 1)) s0

abbrev s2 : Threads'
s2 = listen_step (system (pos 1)) s1

abbrev client : Client
client = record { fd = pos 4; stage = looking }

abbrev s3 : Threads'
s3 = client_step (system (pos 1)) typed [] client [] s2

abbrev s4 : Threads'
s4 = stop_step (system (pos 1)) s3

begun : Steps (system (pos 1)) typed answers_soon s0 s4
unfolding ready listen_step listen_at bound
begun = stopped (
    further (further (further (here s0) (listens refl)) (listens refl))
      (serves [] client [] refl refl))

opened : (x : ℤ) → count_fd x (held bound.log) ≡ count_fd x (pos 3 ∷ []) + 0
unfolding bound
opened x = omega arith

threads-IsHeld_example : IsHeld (system (pos 1)) typed (λ x. 0) s4
threads-IsHeld_example =
    threads-IsHeld (system (pos 1)) typed answers_soon (λ x. 0) (pos 3) bound opened s4 begun

-- The client's read returns.
abbrev reader : Client
reader = record { fd = pos 4; stage = reading }

abbrev s5 : Threads'
s5 = client_step (system (pos 1)) typed [] reader [] s4

goes : Works (system (pos 1)) typed answers_soon 1 s4 s5
unfolding ready listen_step listen_at client_step client_at stop_step
goes = works (idle s4) (serves [] reader [] refl refl)

read_run : s5.messages ≡ (7 ∷ 8 ∷ []) ∷ []
unfolding ready listen_step listen_at client_step client_at stop_step bound
read_run = refl

off : s4.running ≡ false
unfolding stop_step
off = refl

stop_joins_example :
    (1 ≤ steps_left (system (pos 1)) typed answers_soon s4)
    × (((v : Threads') × Step (system (pos 1)) typed answers_soon s5 v)
        ⊎ (Waits (system (pos 1)) typed answers_soon s5
            ⊎ ((s5.listener ≡ ended)
                × (s5.clients ≡ [])
                × ((x : ℤ) → count_fd x (held s5.state.log) ≡ 0))))
stop_joins_example =
    stop_joins (system (pos 1)) typed answers_soon 80 5 fresh bound (pos 3) 1 s4 s5 bound_lem begun
      off goes

-- Told to stop in `accept`, with a network that is silent: the client's thread closes and ends.
abbrev never : Call → State ℕ → Bool
never c s = false

abbrev s6 : Threads'
s6 = stop_step (system (pos 1)) (listen_step (system (pos 1)) s2)

abbrev leaver : Client
leaver = record { fd = pos 4; stage = closing }

abbrev s7 : Threads'
s7 = client_step (system (pos 1)) typed [] client [] s6

abbrev s8 : Threads'
s8 = client_step (system (pos 1)) typed [] leaver [] s7
