-- ===== src/Pipelines/Life.antt =====
-- A pipeline of libs/networking/pipeline/TcpPipeline.h or UdpPipeline.h from its constructor to its
-- destructor: the calls of `start`, `stop` and `send`, each `start` with the read loop of its thread.
-- The loop is taken to run before the next call.
use scrimmage.Prelude.{
  ℕ, ◌≡◌, refl, sym, ap, ap₂, ◌∙◌, inl, inr, Bool, true, false, Option, none, some, List, [], ◌∷◌,
  ◌++◌, take, map, append_assoc, append-nil, if◌then◌else◌, Bool-cases,
}
use scrimmage.Lifecycle
use scrimmage.Lifecycle.{Worker, idle, assign_thread}
use scrimmage.Pipelines.{
  Pipeline, Read, failed, forward, encode, set_callback, set_send_callback, tcp_read_loop, tcp_send,
  udp_read_loop, udp_send,
}
use scrimmage.Pipelines.Reads.{until_failure, successes, bytes_of}

-- Which of the two classes a pipeline is of.
pub data Protocol : Type 0 where
  tcp udp : Protocol

-- A call: `start`, with what `recv` answers to its thread, `stop`, or `send` of `len` bytes.
pub data Call : Type 0 where
  start_call : List Read → Call
  stop_call : Call
  send_call : (bytes : List ℕ) (len : ℕ) → Call

-- The members that matter: the thread with its flag, and what `_decoder` and `_encoder` refer to.
pub record Line (S : Type 0) : Type 0 where
  pub worker : Worker
  pub decoder : Pipeline S
  pub encoder : Pipeline S

module _ {S : Type 0} (protocol : Protocol) where
  -- The constructor.
  unfoldable pub construct : (decoder encoder : Pipeline S) → Line S
  construct decoder encoder = record { worker = idle; decoder = decoder; encoder = encoder }

  -- `readLoop`
  unfoldable pub read_loop : List Read → Pipeline S → S → S
  read_loop reads decoder s = elim protocol [
    | tcp ↦ tcp_read_loop reads decoder s
    | udp ↦ udp_read_loop reads decoder s
  ]

  unfoldable pub send : (bytes : List ℕ) (len : ℕ) → Line S → S → S
  send bytes len p s = elim protocol [
    | tcp ↦ tcp_send bytes len p.encoder s
    | udp ↦ udp_send bytes len p.encoder s
  ]

  -- `start` and the loop of its thread; `none` is `std::terminate`.
  unfoldable pub start : List Read → Line S → S → Option (Line S × S)
  start reads p s = elim (Lifecycle.start p.worker) [
    | none ↦ none
    | some worker ↦ some (record p { worker = worker }, read_loop reads p.decoder s)
  ]

  unfoldable pub stop : Line S → Line S
  stop p = record p { worker = Lifecycle.stop p.worker }

  -- The calls of a program, and the destructor, which stops.
  unfoldable pub live : List Call → Line S → S → Option (Line S × S)
  live [] p s = some (stop p, s)
  live (start_call reads ∷ calls) p s = elim (start reads p s) [
    | none ↦ none
    | some (q, t) ↦ live calls q t
  ]
  live (stop_call ∷ calls) p s = live calls (stop p) s
  live (send_call bytes len ∷ calls) p s = live calls p (send bytes len p s)

-- What the subscriber has got and what was handed to the socket.
pub record Traffic : Type 0 where
  pub received : List (List ℕ)
  pub sent : List (List ℕ)

-- The decoder and the encoder, with callbacks that keep their messages.
abbrev pub receiver : Pipeline Traffic
receiver =
    set_callback (λ m t. record t { received = t.received ++ m ∷ [] }) (record { callback = none })

abbrev pub sender : Pipeline Traffic
sender =
    set_send_callback (λ m t. record t { sent = t.sent ++ m ∷ [] }) (record { callback = none })

-- The reads of a session whose bytes are handed over.
abbrev pub handed : Protocol → List Read → List Read
handed tcp reads = until_failure reads
handed udp reads = successes reads

-- `stop` stands between any two calls of `start`; `on` says that one is before.
abbrev pub alternates : (on : Bool) → List Call → Bool
alternates on [] = true
alternates true (start_call reads ∷ calls) = false
alternates false (start_call reads ∷ calls) = alternates true calls
alternates on (stop_call ∷ calls) = alternates false calls
alternates on (send_call bytes len ∷ calls) = alternates on calls

abbrev pub arrivals : Protocol → List Call → List (List ℕ)
arrivals protocol [] = []
arrivals protocol (start_call reads ∷ calls) =
    map bytes_of (handed protocol reads) ++ arrivals protocol calls
arrivals protocol (stop_call ∷ calls) = arrivals protocol calls
arrivals protocol (send_call bytes len ∷ calls) = arrivals protocol calls

abbrev pub departures : List Call → List (List ℕ)
departures [] = []
departures (start_call reads ∷ calls) = departures calls
departures (stop_call ∷ calls) = departures calls
departures (send_call bytes len ∷ calls) = take len bytes ∷ departures calls

read_loop-receiver :
    (protocol : Protocol) (reads : List Read) (t : Traffic)
    → read_loop protocol reads receiver t
      ≡ record t { received = t.received ++ map bytes_of (handed protocol reads) }
unfolding read_loop tcp_read_loop udp_read_loop forward set_callback
read_loop-receiver tcp [] t = ap (λ r. record t { received = r }) (sym (append-nil t.received))
read_loop-receiver udp [] t = ap (λ r. record t { received = r }) (sym (append-nil t.received))
read_loop-receiver tcp (r ∷ reads) t = elim (Bool-cases (failed r)) [
  | inl bad ↦ rw bad (ap (λ r. record t { received = r }) (sym (append-nil t.received)))
  | inr good ↦ rw good (
      read_loop-receiver tcp reads (record t { received = t.received ++ bytes_of r ∷ [] })
      ∙ ap (λ r. record t { received = r })
          (append_assoc t.received (bytes_of r ∷ []) (map bytes_of (until_failure reads))))
]
read_loop-receiver udp (r ∷ reads) t = elim (Bool-cases (failed r)) [
  | inl bad ↦ rw bad (read_loop-receiver udp reads t)
  | inr good ↦ rw good (
      read_loop-receiver udp reads (record t { received = t.received ++ bytes_of r ∷ [] })
      ∙ ap (λ r. record t { received = r })
          (append_assoc t.received (bytes_of r ∷ []) (map bytes_of (successes reads))))
]

abbrev line : Bool → Line Traffic
line on = record {
  worker = record { running = on; joinable = on };
  decoder = receiver;
  encoder = sender;
}

send-sender :
    (protocol : Protocol) (bytes : List ℕ) (len : ℕ) (on : Bool) (t : Traffic)
    → send protocol bytes len (line on) t ≡ record t { sent = t.sent ++ take len bytes ∷ [] }
unfolding send tcp_send udp_send encode set_send_callback
send-sender tcp bytes len on t = refl
send-sender udp bytes len on t = refl

-- What becomes of a program that survives or not, with all that was received and sent.
abbrev pub outcome :
    Protocol → (survives : Bool) → (received sent : List (List ℕ)) → Option (Line Traffic × Traffic)
outcome protocol survives received sent =
    if survives
    then some (construct protocol receiver sender, record { received = received; sent = sent })
    else none

live_from :
    (protocol : Protocol) (calls : List Call) (on : Bool) (t : Traffic)
    → live protocol calls (line on) t
      ≡ outcome protocol
          (alternates on calls)
          (t.received ++ arrivals protocol calls)
          (t.sent ++ departures calls)
unfolding live start stop construct Lifecycle.start assign_thread Lifecycle.stop
live_from protocol [] true t =
    ap₂ (outcome protocol true) (sym (append-nil t.received)) (sym (append-nil t.sent))
live_from protocol [] false t =
    ap₂ (outcome protocol true) (sym (append-nil t.received)) (sym (append-nil t.sent))
live_from protocol (stop_call ∷ calls) true t = live_from protocol calls false t
live_from protocol (stop_call ∷ calls) false t = live_from protocol calls false t
live_from protocol (start_call reads ∷ calls) true t = refl
live_from protocol (start_call reads ∷ calls) false t =
    let got = map bytes_of (handed protocol reads) in
    rw (read_loop-receiver protocol reads t) (
      live_from protocol calls true (record t { received = t.received ++ got })
      ∙ ap (λ r. outcome protocol (alternates true calls) r (t.sent ++ departures calls))
          (append_assoc t.received got (arrivals protocol calls)))
live_from protocol (send_call bytes len ∷ calls) on t = rw (send-sender protocol bytes len on t) (
    live_from protocol calls on (record t { sent = t.sent ++ take len bytes ∷ [] })
    ∙ ap (outcome protocol (alternates on calls) (t.received ++ arrivals protocol calls))
        (append_assoc t.sent (take len bytes ∷ []) (departures calls)))

-- Whatever calls of `start`, `stop` and `send` a program makes on a new pipeline of either class: it
-- survives just if `stop` stands between any two calls of `start`, even where the first thread has
-- ended at a disconnect; then behind the destructor no thread is left, the subscriber has got the
-- bytes of each session in order, of the reads in front of the first that fails over TCP and of those
-- that do not fail over UDP, and all that was sent was handed to the socket in order.
pub live_lem :
    (protocol : Protocol) (calls : List Call)
    → live protocol calls (construct protocol receiver sender) (record { received = []; sent = [] })
      ≡ outcome protocol (alternates false calls) (arrivals protocol calls) (departures calls)
unfolding construct
live_lem protocol calls = live_from protocol calls false (record { received = []; sent = [] })
