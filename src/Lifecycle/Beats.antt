-- ===== src/Lifecycle/Beats.antt =====
-- libs/networking/tcp/TcpHeartbeat.h: the loop of the thread on a clock, round after round.
use scrimmage.Prelude.{
  ℕ, zero, suc, ◌+◌, ◌-◌, ◌≤◌, ◌<◌, ◌≡◌, Option, none, some, List, [], ◌∷◌, ltb, if◌then◌else◌,
  length,
}

-- So many readings of the clock in a row.
abbrev pub read_times : {World : Type 0} → (World → World) → ℕ → World → World
read_times read zero w = w
read_times read (suc n) w = read_times read n (read w)

-- `steady_clock`, the heartbeat and `sleep_for`: what they make of the time, which is what the clock
-- shows when it is read. The clock never decreases, and it may stand still from one reading to the
-- next, but time passes: it has moved on behind `stall` readings in a row. A sleep is not shorter
-- than asked.
pub record Timer : Type 1 where
  pub World : Type 0
  pub time : World → ℕ
  pub read : World → World
  pub beat : World → World
  pub sleep_for : ℕ → World → World
  pub stall : ℕ
  pub read_later : (w : World) → time w ≤ time (read w)
  pub read_moves : (w : World) → time w < time (read_times read stall w)
  pub beat_later : (w : World) → time w ≤ time (beat w)
  pub slept : (n : ℕ) (w : World) → time w + n ≤ time (sleep_for n w)

module _ (timer : Timer) where
  open timer use {
    World, time, read, beat, sleep_for, stall, read_later, read_moves, beat_later, slept,
  }

  -- `while (now() < target) cpuPause()`, on fuel.
  unfoldable pub spin : ℕ → (target : ℕ) → World → Option World
  spin zero target w = none
  spin (suc fuel) target w =
      let later = spin fuel target (read w) in if ltb (time w) target then later else some (read w)

  -- What a round does behind the heartbeat, with the time that is left of the interval.
  unfoldable pub wait : ℕ → (loop_end remaining : ℕ) → World → Option World
  unfolding spin
  wait fuel loop_end remaining w =
      let woken = sleep_for (remaining - 50000) w in
      if ltb remaining 50000
      then spin fuel (loop_end + remaining) w
      else spin fuel (time woken + 50000) (read woken)

  -- A round of the loop.
  unfoldable pub beat_once : ℕ → (interval : ℕ) → World → Option World
  unfolding wait
  beat_once fuel interval w =
      let beaten = beat (read w) in
      let elapsed = time beaten - time w in
      if ltb elapsed interval
      then wait fuel (time beaten) (interval - elapsed) (read beaten)
      else some (read beaten)

  -- The loop where `_running` is read as true `rounds` times: when the rounds have started.
  unfoldable pub beat_loop : ℕ → (rounds interval : ℕ) → World → Option (List ℕ × World)
  unfolding beat_once
  beat_loop fuel zero interval w = some ([], w)
  beat_loop fuel (suc rounds) interval w = elim (beat_once fuel interval w) [
    | none ↦ none
    | some v ↦ elim (beat_loop fuel rounds interval v) [
      | none ↦ none
      | some (starts, u) ↦ some (time w ∷ starts, u)
    ]
  ]

  -- It has ended, no earlier than `bound`.
  abbrev IsPast : (bound : ℕ) → Option World → Type 0
  IsPast bound none = ⊥
  IsPast bound (some v) = bound ≤ time v

  -- The rounds start no earlier than `bound`, and each `interval` behind the one before or later.
  abbrev pub IsSpaced : (interval bound : ℕ) → List ℕ → Type 0
  IsSpaced interval bound [] = Unit
  IsSpaced interval bound (t ∷ ts) = (bound ≤ t) × IsSpaced interval (t + interval) ts

  abbrev pub Beaten : (rounds interval bound : ℕ) → Option (List ℕ × World) → Type 0
  Beaten rounds interval bound none = ⊥
  Beaten rounds interval bound (some (starts, w)) =
      (length starts ≡ rounds) × IsSpaced interval bound starts
