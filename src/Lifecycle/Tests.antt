-- ===== src/Lifecycle/Tests.antt =====
-- Runs of the workers, and the theorems on concrete calls.
use scrimmage.Prelude.{
  ℕ, ◌+◌, ◌≡◌, refl, Bool, true, false, ◌≤◌, ◌<◌, Option, none, some, List, [], ◌∷◌, arith,
}
use scrimmage.Lifecycle.{start, run, idle, start_call, stop_call, survives, run-start}
use scrimmage.Lifecycle.Heartbeat.{plan_wait}
use scrimmage.Lifecycle.Beats.{Timer, spin, wait, beat_once, beat_loop, read_times}

start_twice_test :
    survives (run start (start_call ∷ stop_call ∷ start_call ∷ start_call ∷ []) idle) ≡ false
start_twice_test = run-start (start_call ∷ stop_call ∷ start_call ∷ start_call ∷ [])

plan_run : plan_wait 200000 1000 3000 151000 ≡ some (record { sleep = 148000; target = 201000 })
unfolding plan_wait
plan_run = refl

-- Every second reading of this clock moves it, by 100 nanoseconds; the heartbeat takes 1000, and a
-- sleep 70 more than asked. The world is the time and whether the next reading moves it.
abbrev turn : ℕ × Bool → ℕ × Bool
turn (t, true) = (t + 100, false)
turn (t, false) = (t, true)

turn_later : (w : ℕ × Bool) → w.0 ≤ (turn w).0
turn_later (t, true) = omega arith
turn_later (t, false) = omega arith

turn_moves : (w : ℕ × Bool) → w.0 < (read_times turn 2 w).0
turn_moves (t, true) = omega arith
turn_moves (t, false) = omega arith

abbrev timer : Timer
timer = record {
  World = ℕ × Bool;
  time = λ w. w.0;
  read = turn;
  beat = λ w. (w.0 + 1000, w.1);
  sleep_for = λ n w. (w.0 + n + 70, w.1);
  stall = 2;
  read_later = turn_later;
  read_moves = turn_moves;
  beat_later = λ w. omega arith;
  slept = λ n w. omega arith;
}

abbrev starts_of : Option (List ℕ × (ℕ × Bool)) → List ℕ
starts_of none = []
starts_of (some (starts, w)) = starts

-- Three beats that shall be 2000 nanoseconds apart.
beat_run : starts_of (beat_loop timer 40 3 2000 (0, true)) ≡ 0 ∷ 2000 ∷ 4000 ∷ []
unfolding beat_loop beat_once wait spin
beat_run = refl
