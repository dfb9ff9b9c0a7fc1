-- ===== src/Pipelines/Tests.antt =====
-- Runs of the pipelines, and the theorems on concrete reads.
use scrimmage.Prelude.{true, ◌≡◌, refl, some, List, [], ◌∷◌, ◌++◌, arith, map}
use scrimmage.Prelude.Int.{pos, negsuc}
use scrimmage.Framing.{init, grow, copy_at, encode}
use scrimmage.Pipelines.{Read, tcp_read_loop}
use scrimmage.Pipelines.Life.{
  tcp, Call, start_call, stop_call, send_call, construct, live, receiver, sender, outcome, live_lem,
}
use scrimmage.Pipelines.Stream.{subscribed, arrival, read_loop-stream}

-- Two messages, an error between them, and bytes behind the last in the buffer.
abbrev some_reads : List Read
some_reads =
    (record { count = pos 2; buffer = 7 ∷ 8 ∷ 9 ∷ [] })
    ∷ (record { count = negsuc 0; buffer = 7 ∷ 8 ∷ 9 ∷ [] })
    ∷ (record { count = pos 1; buffer = 5 ∷ 8 ∷ 9 ∷ [] })
    ∷ []

-- Two sessions with a disconnect or an error in them, and a message sent between.
abbrev calls : List Call
calls =
    start_call some_reads
    ∷ send_call (1 ∷ 2 ∷ 3 ∷ []) 2
    ∷ stop_call
    ∷ start_call (record { count = pos 1; buffer = 6 ∷ [] } ∷ [])
    ∷ []

live_lem_example :
    live tcp calls (construct tcp receiver sender) (record { received = []; sent = [] })
    ≡ outcome tcp true ((7 ∷ 8 ∷ []) ∷ (6 ∷ []) ∷ []) ((1 ∷ 2 ∷ []) ∷ [])
live_lem_example = live_lem tcp calls

-- Two messages of three bytes and of one, in reads that cut their headers.
read_loop-stream_example :
    tcp_read_loop
      (map (arrival (9 ∷ 9 ∷ [])) ((3 ∷ []) ∷ (0 ∷ 7 ∷ 8 ∷ 9 ∷ 1 ∷ []) ∷ (0 ∷ 5 ∷ []) ∷ [])
        ++ (record { count = pos 0; buffer = [] }) ∷ some_reads)
      subscribed
      (some ([], init 70000))
    ≡ some ((7 ∷ 8 ∷ 9 ∷ []) ∷ (5 ∷ []) ∷ [], init 70000)
unfolding encode grow copy_at
read_loop-stream_example =
    read_loop-stream ((7 ∷ 8 ∷ 9 ∷ []) ∷ (5 ∷ []) ∷ [])
      ((3 ∷ []) ∷ (0 ∷ 7 ∷ 8 ∷ 9 ∷ 1 ∷ []) ∷ (0 ∷ 5 ∷ []) ∷ []) (9 ∷ 9 ∷ []) 70000
      (record { count = pos 0; buffer = [] }) some_reads refl refl (omega arith, (omega arith, tt))
      (
        (omega arith, tt),
        (
          (omega arith, (omega arith, (omega arith, (omega arith, (omega arith, tt))))),
          ((omega arith, (omega arith, tt)), tt),
        ),
      )
      ((omega arith, omega arith), ((omega arith, omega arith), ((omega arith, omega arith), tt)))
      (omega arith) (omega arith)
