-- ===== src/RingBuffer/Push.antt =====
-- `push`: the spin that waits for room until a deadline.
use scrimmage.Prelude.{
  ℕ, suc, ◌-◌, ◌%◌, ◌≤◌, ◌<◌, ◌≡◌, ◌⊎◌, ◌^◌, refl, inl, inr, sym, ◌∙◌, Bool, true, false, ◌&&◌,
  some, List, [], ◌∷◌, ◌++◌, arith, leb, ◌==◌, add_word, length, get_elem?, Bool-cases, some-pair,
  Every,
}
use native.Mathlib.Decide.{dec_lt}
use scrimmage.RingBuffer.{Ring, Round, timeout_duration, increment, publish, push_loop, push}

module _ {ℓ} {T : Type ℓ} (capacity timeout_ms : ℕ) (r : Ring T) (item : T) where
  -- The round sees a full ring, or one past the deadline.
  abbrev pub IsFull : Round → Type 0
  IsFull round = increment capacity r.head ≡ round.seen_tail

  abbrev pub IsLate : Round → Type 0
  IsLate round = timeout_duration timeout_ms ≤ round.elapsed

  -- How a call ends: an item published in a round with room, or an unchanged ring and a late round.
  abbrev pub Ended : List Round → Bool → Ring T → Type ℓ
  Ended rounds done s =
      (i : ℕ) × (round : Round) × (get_elem? rounds i ≡ some round)
      × (((done ≡ true) × ¬ IsFull round × (s ≡ publish capacity round.weather r item))
          ⊎ ((done ≡ false) × IsFull round × IsLate round × (s ≡ r)))

  loop_room :
      (round : Round) (rounds : List Round) (spin_count : ℕ)
      → ¬ IsFull round
      → push_loop capacity timeout_ms r item spin_count (round ∷ rounds)
        ≡ some (true, publish capacity round.weather r item)
  unfolding push_loop
  loop_room round rounds spin_count room =
      let no_match : (increment capacity r.head == round.seen_tail) ≡ false = ground arith in
      rw no_match

  loop_late :
      (round : Round) (rounds : List Round) (spin_count : ℕ)
      → IsFull round
      → spin_count % 1000 ≡ 0
      → IsLate round
      → push_loop capacity timeout_ms r item spin_count (round ∷ rounds) ≡ some (false, r)
  unfolding push_loop
  loop_late round rounds spin_count full turn late =
      let matched : (increment capacity r.head == round.seen_tail) ≡ true = ground arith in
      let passed : leb (timeout_duration timeout_ms) round.elapsed ≡ true = ground arith in
      rw (matched, turn, passed)

  loop_again :
      (round : Round) (rounds : List Round) (spin_count : ℕ)
      → IsFull round
      → (spin_count % 1000 == 0 && leb (timeout_duration timeout_ms) round.elapsed) ≡ false
      → push_loop capacity timeout_ms r item spin_count (round ∷ rounds)
        ≡ push_loop capacity timeout_ms r item (add_word 64 spin_count 1) rounds
  unfolding push_loop
  loop_again round rounds spin_count full early =
      let matched : (increment capacity r.head == round.seen_tail) ≡ true = ground arith in
      rw (matched, early)

  push_loop-Ended :
      (rounds : List Round) (spin_count : ℕ) {done : Bool} {s : Ring T}
      → push_loop capacity timeout_ms r item spin_count rounds ≡ some (done, s)
      → Ended rounds done s
  unfolding push_loop
  push_loop-Ended [] spin_count e = cc
  push_loop-Ended (round ∷ rounds) spin_count {done} {s} e =
      elim (Bool-cases (increment capacity r.head == round.seen_tail)) [
        | inl full ↦
            elim (Bool-cases
              (spin_count % 1000 == 0 && leb (timeout_duration timeout_ms) round.elapsed)) [
                | inl late ↦
                    let is_full : IsFull round = ground arith in
                    let turn : spin_count % 1000 ≡ 0 = ground arith in
                    let is_late : IsLate round = ground arith in
                    let ends =
                      some-pair
                        (sym (loop_late round rounds spin_count is_full turn is_late) ∙ e) in
                    (0, round, refl, inr (ends.0, is_full, is_late, ends.1))
                | inr early ↦
                    let is_full : IsFull round = ground arith in
                    let (i, at, found, how) =
                      push_loop-Ended rounds (add_word 64 spin_count 1)
                        (sym (loop_again round rounds spin_count is_full early) ∙ e) in
                    (suc i, at, found, how)
              ]
        | inr room ↦
            let is_free : ¬ IsFull round = ground arith in
            let ends = some-pair (sym (loop_room round rounds spin_count is_free) ∙ e) in
            (0, round, refl, inl (ends.0, is_free, ends.1))
      ]

  -- `push` returns true only by publishing the item in a round that saw room, and false only in a
  -- round that saw a full ring after the deadline, with the ring as it was: a push that times out is
  -- not counted among the dropped.
  pub push-Ended :
      (rounds : List Round) {done : Bool} {s : Ring T}
      → push capacity r item timeout_ms rounds ≡ some (done, s)
      → Ended rounds done s
  unfolding push
  push-Ended rounds e = push_loop-Ended rounds 0 e

  -- In a full round the call ends unsuccessful if it does so from the next round on.
  loop_full :
      (round : Round) (rounds : List Round) (spin_count : ℕ)
      → IsFull round
      → push_loop capacity timeout_ms r item (add_word 64 spin_count 1) rounds ≡ some (false, r)
      → push_loop capacity timeout_ms r item spin_count (round ∷ rounds) ≡ some (false, r)
  loop_full round rounds spin_count full next =
      elim (Bool-cases
        (spin_count % 1000 == 0 && leb (timeout_duration timeout_ms) round.elapsed)) [
          | inl late ↦ loop_late round rounds spin_count full (ground arith) (ground arith)
          | inr early ↦ loop_again round rounds spin_count full early ∙ next
        ]

  -- The clock is read once in a thousand rounds, also where the count wraps.
  loop_times_out :
      (rounds : List Round) (spin_count : ℕ)
      → spin_count < 2 ^ 64
      → Every IsFull rounds
      → Every IsLate rounds
      → (1000 - spin_count % 1000) % 1000 < length rounds
      → push_loop capacity timeout_ms r item spin_count rounds ≡ some (false, r)
  loop_times_out [] spin_count small full late enough = absurd (omega arith)
  loop_times_out (round ∷ rounds) spin_count small full late enough =
      elim (dec_lt 0 (spin_count % 1000)) [
        | yes wait ↦ loop_full round rounds spin_count full.0 (
            loop_times_out rounds (add_word 64 spin_count 1) (omega arith) full.1 late.1
              (omega arith))
        | no turn ↦ loop_late round rounds spin_count full.0 (omega arith) late.0
      ]

  loop_waits :
      (before late : List Round) (spin_count : ℕ)
      → spin_count < 2 ^ 64
      → Every IsFull before
      → Every IsFull late
      → Every IsLate late
      → 1000 ≤ length late
      → push_loop capacity timeout_ms r item spin_count (before ++ late) ≡ some (false, r)
  loop_waits [] late spin_count small full full' is_late enough =
      loop_times_out late spin_count small full' is_late (omega arith)
  loop_waits (round ∷ before) late spin_count small full full' is_late enough =
      loop_full round (before ++ late) spin_count full.0 (
        loop_waits before late (add_word 64 spin_count 1) (omega arith) full.1 full' is_late enough)

  -- Against a ring that stays full, `push` does end: a thousand rounds behind the deadline are
  -- enough, whatever went before, and the ring is unchanged.
  pub push_gives_up :
      (before late : List Round)
      → Every IsFull before
      → Every IsFull late
      → Every IsLate late
      → 1000 ≤ length late
      → push capacity r item timeout_ms (before ++ late) ≡ some (false, r)
  unfolding push
  push_gives_up before late full full' is_late enough =
      loop_waits before late 0 (omega arith) full full' is_late enough

  -- A round that was full before the deadline.
  abbrev pub IsWaiting : Round → Type 0
  IsWaiting round = IsFull round × (round.elapsed < timeout_duration timeout_ms)

  loop_finds_room :
      (before : List Round) (round : Round) (rounds : List Round) (spin_count : ℕ)
      → Every IsWaiting before
      → ¬ IsFull round
      → push_loop capacity timeout_ms r item spin_count (before ++ round ∷ rounds)
        ≡ some (true, publish capacity round.weather r item)
  loop_finds_room [] round rounds spin_count waiting room = loop_room round rounds spin_count room
  loop_finds_room (b ∷ before) round rounds spin_count waiting room =
      loop_again b (before ++ round ∷ rounds) spin_count waiting.0.0 (ground arith)
      ∙ loop_finds_room before round rounds (add_word 64 spin_count 1) waiting.1 room

  -- If room appears before the deadline passes, `push` publishes the item in the first round that
  -- sees it.
  pub push_finds_room :
      (before : List Round) (round : Round) (rounds : List Round)
      → Every IsWaiting before
      → ¬ IsFull round
      → push capacity r item timeout_ms (before ++ round ∷ rounds)
        ≡ some (true, publish capacity round.weather r item)
  unfolding push
  push_finds_room before round rounds waiting room =
      loop_finds_room before round rounds 0 waiting room
