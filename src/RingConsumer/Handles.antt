-- ===== src/RingConsumer/Handles.antt =====
-- The threads of SpScRingBufferConsumer.h: `start`, `stop` and the destructor.
use scrimmage.Prelude.{
  ℕ, ◌<◌, ◌≡◌, ◌≢◌, refl, ap, Bool, true, false, not, none, some, List, [], ◌∷◌, ◌++◌, arith, ◌==◌,
  ◌||◌, ◌&&◌,
}
use scrimmage.RingConsumer.{
  Thread, Machine, construct_thread, request_stop, destroy_thread, Handle, start, stop, destroy,
}

-- The thread runs, and its flag is not raised.
abbrev pub consumes : ℕ → List Thread → Bool
consumes number [] = false
consumes number (t ∷ ts) = (t.number == number && not t.stop_flag) || consumes number ts

-- The machine runs the thread of the handle and no other.
abbrev pub IsOwned : Handle → Machine → Type 0
IsOwned none m = m.threads ≡ []
IsOwned (some number) m =
    (number < m.next_number)
    × ((flag : Bool) × (m.threads ≡ record { number = number; stop_flag = flag } ∷ []))

pub data Command : Type 0 where
  start_call stop_call : Command

-- A program that calls `start` and `stop`, and then the destructor.
unfoldable pub run : List Command → Handle → Machine → Machine
run [] handle m = destroy handle m
run (start_call ∷ calls) handle m =
    let (between, handle', m') = start handle m in run calls handle' m'
run (stop_call ∷ calls) handle m = run calls handle (stop handle m)

start-IsOwned :
    (handle : Handle) (m : Machine)
    → IsOwned handle m
    → let next = start handle m in IsOwned next.1 next.2
unfolding start construct_thread destroy_thread request_stop
start-IsOwned none m h = (
  omega arith,
  (false, ap (λ ts. ts ++ (record { number = m.next_number; stop_flag = false } ∷ [])) h),
)
start-IsOwned (some old) m (small, (flag, h)) =
    let same : (old == old) ≡ true = ground arith in
    let other : (m.next_number == old) ≡ false = ground arith in
    (omega arith, (false, rw (h, same, other) (rw (same, other) refl)))

stop-IsOwned : (handle : Handle) (m : Machine) → IsOwned handle m → IsOwned handle (stop handle m)
unfolding stop request_stop
stop-IsOwned none m h = h
stop-IsOwned (some number) m (small, (flag, h)) =
    let same : (number == number) ≡ true = ground arith in (small, (true, rw (h, same) refl))

destroy-IsOwned :
    (handle : Handle) (m : Machine) → IsOwned handle m → (destroy handle m).threads ≡ []
unfolding destroy destroy_thread request_stop
destroy-IsOwned none m h = h
destroy-IsOwned (some number) m (small, (flag, h)) =
    let same : (number == number) ≡ true = ground arith in rw (h, same) (rw same refl)

run_from :
    (calls : List Command) (handle : Handle) (m : Machine)
    → IsOwned handle m
    → (run calls handle m).threads ≡ []
unfolding run
run_from [] handle m h = destroy-IsOwned handle m h
run_from (start_call ∷ calls) handle m h = run_from calls _ _ (start-IsOwned handle m h)
run_from (stop_call ∷ calls) handle m h = run_from calls handle _ (stop-IsOwned handle m h)

-- A machine with no thread.
abbrev pub new_machine : Machine
new_machine = record { threads = []; next_number = 0 }

-- Whatever calls of `start` and `stop` a program makes, behind the consumer's destructor none of the
-- threads that it started runs.
pub run-threads : (calls : List Command) → (run calls none new_machine).threads ≡ []
run-threads calls = run_from calls none new_machine refl

-- A second `start` with no `stop` before it makes its thread while the first still runs: for a time
-- both consume the ring, which is made for one.
pub start-consumes :
    (number : ℕ) (m : Machine)
    → number < m.next_number
    → m.threads ≡ record { number = number; stop_flag = false } ∷ []
    → let between = (start (some number) m).0 in
      (consumes number between.threads ≡ true)
      × (consumes m.next_number between.threads ≡ true)
      × (number ≢ m.next_number)
unfolding start construct_thread
start-consumes number m small h =
    let same : (number == number) ≡ true = ground arith in
    let self : (m.next_number == m.next_number) ≡ true = ground arith in
    (rw (h, same) refl, rw (h, self) (ground arith), λ e. absurd (omega (arith, e)))
