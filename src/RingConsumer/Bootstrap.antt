-- ===== src/RingConsumer/Bootstrap.antt =====
-- libs/concurrency/PinnedThread.h, what a thread does before and while it works: the pinning, the
-- warm-up of its stack, and the worker with its stop token. The calls of the operating system are a
-- parameter.
use scrimmage.Prelude.{
  ℕ, zero, suc, ◌+◌, ◌-◌, ◌*◌, ◌^◌, ◌≤◌, ◌<◌, ◌≡◌, ◌⊎◌, refl, inl, inr, Bool, true, false, not,
  ◌&&◌, Option, none, some, List, [], ◌∷◌, arith, ltb, if◌then◌else◌, Bool-cases, update, Every,
  ◌∈◌,
}
use scrimmage.Prelude.Int.{ℤ, pos, negsuc, eq_ℤ}
use scrimmage.RingConsumer.{Thread}

-- The threads of the system: what `pthread_setaffinity_np` answers for a set with one processor, and
-- what the worker does when its stop token reads a flag.
pub record Host : Type 1 where
  pub World : Type 0
  pub set_affinity : ℕ → World → ℤ × World
  pub work : Bool → World → World

-- What becomes of a new thread: the program ends by a failed `assert`, or the worker has run.
pub data Outcome (W : Type 0) : Type 0 where
  aborted : W → Outcome W
  worked : W → Outcome W

-- `NO_AFFINITY`
abbrev pub no_affinity : ℤ
no_affinity = negsuc 0

-- `static_cast<unsigned>` of an `int`.
unfoldable pub unsigned_of : ℤ → ℕ
unsigned_of (pos n) = n
unsigned_of (negsuc n) = 2 ^ 32 - suc n

-- The loop of `warmupStack`, on fuel: the places written, in order, and the buffer.
unfoldable pub warm_loop : ℕ → (i : ℕ) → (ℕ → ℕ) → Option (List ℕ × (ℕ → ℕ))
warm_loop zero i buffer = none
warm_loop (suc fuel) i buffer =
    let rest = warm_loop fuel (i + 64) (update buffer i 0) in
    if ltb i (64 * 1024)
    then (elim rest [ none ↦ none | some (places, warm) ↦ some (i ∷ places, warm) ])
    else some ([], buffer)

unfoldable pub warmup_stack : (ℕ → ℕ) → Option (List ℕ × (ℕ → ℕ))
warmup_stack buffer = warm_loop 1025 0 buffer

-- `StopToken::stopRequested`
unfoldable pub stop_requested : Thread → Bool
stop_requested t = t.stop_flag

module _ (host : Host) where
  open host use {World, set_affinity, work}

  -- `applyThreadAffinity` on Linux, in a build with assertions or without.
  unfoldable pub apply_affinity : (asserts : Bool) → (cpu : ℤ) → World → Outcome World
  apply_affinity asserts cpu w =
      let (code, pinned) = set_affinity (unsigned_of cpu) w in
      if eq_ℤ cpu no_affinity
      then worked w
      else if asserts && not (eq_ℤ code (pos 0))
      then aborted pinned
      else worked pinned

  -- `operator()`: the pinning, the warm-up, the worker; `stack` is what the buffer holds before.
  unfoldable pub bootstrap :
      (asserts : Bool) → (cpu : ℤ) → (stack : ℕ → ℕ) → Thread → World → Option (Outcome World)
  bootstrap asserts cpu stack t w = elim (apply_affinity asserts cpu w) [
    | aborted v ↦ some (aborted v)
    | worked v ↦ elim (warmup_stack stack) [
      | none ↦ none
      | some (places, warm) ↦ some (worked (work (stop_requested t) v))
    ]
  ]

-- What the loop leaves from place `i`, a multiple of 64, on.
record IsWarm (i : ℕ) (buffer : ℕ → ℕ) (places : List ℕ) (warm : ℕ → ℕ) : Type 0 where
  pub inside : Every (λ p. p < 64 * 1024) places
  pub near : (a : ℕ) → i ≤ a → a < 64 * 1024 → (p : ℕ) × (p ∈ places) × (p ≤ a) × (a < p + 64)

warm_loop-IsWarm :
    (n i : ℕ) (buffer : ℕ → ℕ)
    → i + 64 * n ≡ 64 * 1024
    → (places : List ℕ) × (warm : ℕ → ℕ) × (warm_loop (suc n) i buffer ≡ some (places, warm))
      × IsWarm i buffer places warm
unfolding warm_loop
warm_loop-IsWarm zero i buffer e =
    let over : ltb i (64 * 1024) ≡ false = ground arith in
    (
      [],
      buffer,
      rw over refl,
      record { inside = tt; near = λ a low high. absurd (omega (arith, e, low, high)) },
    )
warm_loop-IsWarm (suc n) i buffer e =
    let below : i < 64 * 1024 = omega arith in
    let going : ltb i (64 * 1024) ≡ true = ground arith in
    let (places, warm, ran, rest) = warm_loop-IsWarm n (i + 64) (update buffer i 0) (omega arith) in
    (
      i ∷ places,
      warm,
      rw (going, ran) refl,
      record {
        inside = (below, rest.inside);
        near = λ a low high. elim (Bool-cases (ltb a (i + 64))) [
          | inl here ↦ (i, ground arith, low, ground arith)
          | inr behind ↦
              let (p, listed, under, close) = rest.near a (ground arith) high in
              (p, ground (arith, listed), under, close)
        ];
      },
    )

-- The warm-up of a stack ends within its 1025 rounds, writes inside its buffer of 65536 characters
-- only, and writes within the 64 characters up to each place of it.
pub warmup_stack_lem :
    (buffer : ℕ → ℕ)
    → (places : List ℕ) × (warm : ℕ → ℕ) × (warmup_stack buffer ≡ some (places, warm))
      × Every (λ p. p < 65536) places
      × ((a : ℕ) → a < 65536 → (p : ℕ) × (p ∈ places) × (p ≤ a) × (a < p + 64))
unfolding warmup_stack
warmup_stack_lem buffer =
    let (places, warm, ran, rest) = warm_loop-IsWarm 1024 0 buffer refl in
    (places, warm, ran, rest.inside, λ a high. rest.near a (omega arith) high)

module _ (host : Host) where
  open host use {World, set_affinity, work}

  module _ (asserts : Bool) (cpu : ℤ) (stack : ℕ → ℕ) (t : Thread) (w : World) where
    goes_on :
        (v : World)
        → apply_affinity host asserts cpu w ≡ worked v
        → bootstrap host asserts cpu stack t w ≡ some (worked (work t.stop_flag v))
    unfolding bootstrap stop_requested
    goes_on v applied =
        let (places, warm, ran, inside, near) = warmup_stack_lem stack in
        rw (bootstrap, applied) (rw (bootstrap, ran) refl)

    gives_up :
        (v : World)
        → apply_affinity host asserts cpu w ≡ aborted v
        → bootstrap host asserts cpu stack t w ≡ some (aborted v)
    unfolding bootstrap
    gives_up v applied = rw (bootstrap, applied) refl

  -- A new thread, on each path: its worker runs behind the warm-up, with a token that reads the flag,
  -- if no processor was asked for (then the system is not called), if the system pinned it, or if
  -- there are no assertions (then also unpinned); and only a refusal with assertions ends the program.
  pub bootstrap-Outcome :
      (asserts : Bool) (cpu : ℤ) (stack : ℕ → ℕ) (t : Thread) (w : World)
      → let (code, pinned) = set_affinity (unsigned_of cpu) w in
        let run = bootstrap host asserts cpu stack t w in
        ((eq_ℤ cpu no_affinity ≡ true) × (run ≡ some (worked (work t.stop_flag w))))
        ⊎ (((eq_ℤ code (pos 0) ≡ true) × (run ≡ some (worked (work t.stop_flag pinned))))
            ⊎ (((eq_ℤ code (pos 0) ≡ false)
                  × (asserts ≡ false)
                  × (run ≡ some (worked (work t.stop_flag pinned))))
                ⊎ ((eq_ℤ code (pos 0) ≡ false) × (asserts ≡ true) × (run ≡ some (aborted pinned)))))
  unfolding apply_affinity
  bootstrap-Outcome asserts cpu stack t w =
      let (code, pinned) = set_affinity (unsigned_of cpu) w in
      let runs = goes_on asserts cpu stack t w in
      elim (Bool-cases (eq_ℤ cpu no_affinity)) [
        | inl free ↦ inl (free, runs w (rw (apply_affinity, free) refl))
        | inr asked ↦ inr (elim (Bool-cases (eq_ℤ code (pos 0))) [
          | inl done ↦ inl (done, runs pinned (rw (apply_affinity, asked, done) (ground arith)))
          | inr refused ↦ inr (elim (Bool-cases asserts) [
            | inl on ↦ inr (
              refused,
              on,
              gives_up asserts cpu stack t w pinned (rw (apply_affinity, asked, on, refused) refl),
            )
            | inr off ↦ inl (refused, off, runs pinned (rw (apply_affinity, asked, off) refl))
          ])
        ])
      ]
