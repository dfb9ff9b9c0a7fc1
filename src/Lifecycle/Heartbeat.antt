-- ===== src/Lifecycle/Heartbeat.antt =====
-- libs/networking/tcp/TcpHeartbeat.h: one round of the loop in the thread, in nanoseconds.
use scrimmage.Prelude.{
  ℕ, ◌+◌, ◌-◌, ◌≤◌, inl, inr, Option, none, some, arith, ltb, if◌then◌else◌, Bool-cases,
}

-- What a round waits for: a sleep, and the time up to which it spins.
pub record Wait : Type 0 where
  pub sleep : ℕ
  pub target : ℕ

-- The wait of a round that starts at `loop_start` and whose heartbeat ends at `loop_end`; the clock
-- reads `woken` behind the sleep, if there is one. `none` is no wait.
unfoldable pub plan_wait : (interval loop_start loop_end woken : ℕ) → Option Wait
plan_wait interval loop_start loop_end woken =
    let elapsed = loop_end - loop_start in
    let remaining = interval - elapsed in
    if ltb elapsed interval
    then if ltb remaining 50000
      then some (record { sleep = 0; target = loop_end + remaining })
      else some (record { sleep = remaining - 50000; target = woken + 50000 })
    else none

-- The round does not end before `interval` is over, and ends within 50 microseconds of the sleep.
abbrev pub OnTime : (interval loop_start loop_end woken : ℕ) → Option Wait → Type 0
OnTime interval loop_start loop_end woken none = loop_start + interval ≤ loop_end
OnTime interval loop_start loop_end woken (some w) =
    (loop_start + interval ≤ w.target) × (w.target ≤ woken + 50000)

-- With a clock that does not go back and a sleep that is not shorter than asked: a round ends no
-- earlier than `interval` behind its start, and spins for at most 50 microseconds behind the sleep. A
-- heartbeat that takes the whole interval is followed by no wait.
pub plan_wait-OnTime :
    (interval loop_start loop_end woken : ℕ)
    → loop_start ≤ loop_end
    → loop_end + (interval - (loop_end - loop_start) - 50000) ≤ woken
    → OnTime interval loop_start loop_end woken (plan_wait interval loop_start loop_end woken)
unfolding plan_wait
plan_wait-OnTime interval loop_start loop_end woken order slept =
    elim (Bool-cases (ltb (loop_end - loop_start) interval)) [
      | inr late ↦ rw late (ground arith)
      | inl early ↦ elim (Bool-cases (ltb (interval - (loop_end - loop_start)) 50000)) [
        | inl soon ↦ rw (early, soon) (ground arith, ground arith)
        | inr far ↦ rw (early, far) (ground arith, ground arith)
      ]
    ]
