-- ===== src/Lifecycle.antt =====
-- Starting and stopping a thread: libs/networking/tcp/TcpServer.h, tcp/TcpHeartbeat.h,
-- pipeline/TcpPipeline.h, pipeline/UdpPipeline.h and libs/market-data/SyntheticDataInjector.h.
-- `std::thread` is a handle: to assign to one that is joinable ends the program (`std::terminate`),
-- and `join` leaves it not joinable. The model takes it that the joined loop ends.
pub mod Heartbeat
pub mod Beats
mod Tests
use scrimmage.Prelude.{
  ℕ, ◌≡◌, refl, inl, inr, Bool, true, false, Option, none, some, List, [], ◌∷◌, map, if◌then◌else◌,
}

-- `_running`, and whether the thread can be joined.
pub record Worker : Type 0 where
  pub running : Bool
  pub joinable : Bool

-- `_thread = std::thread(...)`; `none` is `std::terminate`.
unfoldable pub assign_thread : Worker → Option Worker
assign_thread w = if w.joinable then none else some (record w { joinable = true })

-- `start` of `TcpPipeline`, `UdpPipeline`, `SyntheticDataInjector`, and of `TcpServer` (whose thread
-- is `_acceptThread`).
unfoldable pub start : Worker → Option Worker
unfolding assign_thread
start w = assign_thread (record w { running = true })

-- `start` of `TcpHeartbeat`, which looks at the flag.
unfoldable pub start_once : Worker → Option Worker
unfolding assign_thread
start_once w = if w.running then some w else assign_thread (record w { running = true })

-- `stop` of the five classes, for this thread.
unfoldable pub stop : Worker → Worker
stop w =
    let halted = record w { running = false } in
    if w.joinable then record halted { joinable = false } else halted

-- An object as it is made.
abbrev pub idle : Worker
idle = record { running = false; joinable = false }

pub data Command : Type 0 where
  start_call stop_call : Command

-- A program that calls `start` and `stop`, and then the destructor, which stops.
unfoldable pub run : (Worker → Option Worker) → List Command → Worker → Option Worker
unfolding stop
run begin [] w = some (stop w)
run begin (start_call ∷ calls) w = elim (begin w) [ none ↦ none | some v ↦ run begin calls v ]
run begin (stop_call ∷ calls) w = run begin calls (stop w)

-- No two calls of `start` without one of `stop` between them; `on` says that one is before.
abbrev pub alternates : (on : Bool) → List Command → Bool
alternates on [] = true
alternates true (start_call ∷ calls) = false
alternates false (start_call ∷ calls) = alternates true calls
alternates on (stop_call ∷ calls) = alternates false calls

abbrev pub survives : Option Worker → Bool
survives none = false
survives (some w) = true

-- The workers that the calls lead to.
abbrev worker : Bool → Worker
worker on = record { running = on; joinable = on }

runs_from :
    (calls : List Command) (on : Bool)
    → survives (run start calls (worker on)) ≡ alternates on calls
unfolding run start assign_thread stop
runs_from [] false = refl
runs_from [] true = refl
runs_from (start_call ∷ calls) false = runs_from calls true
runs_from (start_call ∷ calls) true = refl
runs_from (stop_call ∷ calls) false = runs_from calls false
runs_from (stop_call ∷ calls) true = runs_from calls false

-- A server, a pipeline or an injector survives just the calls in which `stop` stands between any two
-- calls of `start`: a second `start` ends the program.
pub run-start : (calls : List Command) → survives (run start calls idle) ≡ alternates false calls
run-start calls = runs_from calls false

beats_from : (calls : List Command) (on : Bool) → run start_once calls (worker on) ≡ some idle
unfolding run start_once assign_thread stop
beats_from [] false = refl
beats_from [] true = refl
beats_from (start_call ∷ calls) false = beats_from calls true
beats_from (start_call ∷ calls) true = beats_from calls true
beats_from (stop_call ∷ calls) false = beats_from calls false
beats_from (stop_call ∷ calls) true = beats_from calls false

-- A heartbeat survives every sequence of calls of `start` and `stop`, and its destructor leaves no
-- thread and the flag false.
pub run-start_once : (calls : List Command) → run start_once calls idle ≡ some idle
run-start_once calls = beats_from calls false
