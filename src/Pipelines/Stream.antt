-- ===== src/Pipelines/Stream.antt =====
-- Encoded messages on a connection, through `TcpPipeline::readLoop` into a framer.
use scrimmage.Prelude.{
  ℕ, ◌+◌, ◌≤◌, ◌<◌, ◌^◌, ◌≡◌, refl, sym, ap, ◌∙◌, inl, inr, true, false, Option, none, some, List,
  [], ◌∷◌, ◌++◌, arith, take, length, map, append_assoc, append-nil, ap₂, Every, take-append_le,
  take_all, Option-cases, some-pair, ◌==◌,
}
use scrimmage.Prelude.Int.{pos}
use scrimmage.Framing.{Framer, init, push}
use scrimmage.Framing.Stream.{drain, receive, receive-stream, joined, stream}
use scrimmage.Framing.Frames.{IsByte}
use scrimmage.Pipelines.{Pipeline, Read, failed, forward, tcp_read_loop}

-- The messages so far and the framer, unless a push has overflowed.
abbrev pub Inbox : Type 0
Inbox = Option (List (List ℕ) × Framer)

-- A subscriber that pushes what it gets and takes the frames that are complete.
unfoldable pub take_in : List ℕ → Inbox → Inbox
take_in bytes inbox = elim inbox [
  | none ↦ none
  | some (messages, f) ↦ elim (push bytes f) [
    | none ↦ none
    | some g ↦ let front = drain (length g.buffer) g in some (messages ++ front.0, front.1)
  ]
]

abbrev pub subscribed : Pipeline Inbox
subscribed = record { callback = some take_in }

-- A read that fills the front of the buffer with `c`, which held `junk`.
abbrev pub arrival : (junk : List ℕ) → List ℕ → Read
arrival junk c = record { count = pos (length c); buffer = c ++ junk }

abbrev pub FitsBuffer : List ℕ → Type 0
FitsBuffer c = (0 < length c) × (length c ≤ 4096)

taken_in :
    (c : List ℕ) (messages : List (List ℕ)) (f g : Framer)
    → push c f ≡ some g
    → take_in c (some (messages, f))
      ≡ some (messages ++ (drain (length g.buffer) g).0, (drain (length g.buffer) g).1)
unfolding take_in
taken_in c messages f g e = rw (take_in, e) refl

received_rest :
    (c : List ℕ) (cs : List (List ℕ)) (f : Framer) (later : List (List ℕ)) (h : Framer)
    → receive (c ∷ cs) f ≡ some (later, h)
    → (g : Framer) × (rest : List (List ℕ)) × (push c f ≡ some g)
      × (receive cs (drain (length g.buffer) g).1 ≡ some (rest, h))
      × (later ≡ (drain (length g.buffer) g).0 ++ rest)
unfolding receive
received_rest c cs f later h e = elim (Option-cases (push c f)) [
  | inl over ↦ absurd (ground (arith, over, e))
  | inr (g, pushed) ↦
      let e' = rw (receive, pushed) at e in
      elim (Option-cases (receive cs (drain (length g.buffer) g).1)) [
        | inl over ↦ absurd (ground (arith, over, e'))
        | inr ((rest, h'), received) ↦
            let both = some-pair (rw (received) at e') in
            (g, rest, pushed, received ∙ ap (λ x. some (rest, x)) (sym both.1), both.0)
      ]
]

read_one :
    (junk c : List ℕ) (reads : List Read) (inbox : Inbox)
    → FitsBuffer c
    → tcp_read_loop (arrival junk c ∷ reads) subscribed inbox
      ≡ tcp_read_loop reads subscribed (take_in c inbox)
unfolding tcp_read_loop forward
read_one junk c reads inbox (some_bytes, fits) =
    let good : (length c == 0) ≡ false = ground arith in
    let whole : take (length c) (c ++ junk) ≡ c =
      take-append_le (length c) c junk (omega arith) ∙ take_all c in
    rw (good, whole) refl

read_loop-receive :
    (junk : List ℕ) (chunks : List (List ℕ)) (end : List Read) (messages later : List (List ℕ))
    (f h : Framer)
    → Every FitsBuffer chunks
    → receive chunks f ≡ some (later, h)
    → tcp_read_loop (map (arrival junk) chunks ++ end) subscribed (some (messages, f))
      ≡ tcp_read_loop end subscribed (some (messages ++ later, h))
unfolding receive
read_loop-receive junk [] end messages later f h fit e =
    let both = some-pair e in
    let whole : messages ≡ messages ++ later =
      sym (append-nil messages) ∙ ap (λ l. messages ++ l) (sym both.0) in
    ap₂ (λ ms g. tcp_read_loop end subscribed (some (ms, g))) whole (sym both.1)
read_loop-receive junk (c ∷ cs) end messages later f h fit e =
    let (g, rest, pushed, received, whole) = received_rest c cs f later h e in
    let front = drain (length g.buffer) g in
    let ih = read_loop-receive junk cs end (messages ++ front.0) rest front.1 h fit.1 received in
    read_one junk c (map (arrival junk) cs ++ end) (some (messages, f)) fit.0
    ∙ ap (tcp_read_loop (map (arrival junk) cs ++ end) subscribed) (taken_in c messages f g pushed)
    ∙ ih
    ∙ ap (λ ms. tcp_read_loop end subscribed (some (ms, h)))
        (append_assoc messages front.0 rest ∙ ap (λ l. messages ++ l) (sym whole))

module _ (messages chunks : List (List ℕ)) (junk : List ℕ) (max_size : ℕ) where
  -- Messages below 65536 bytes, encoded one behind the other, sent over a connection that cuts them
  -- into reads of 1 to 4096 bytes and then closes: a subscriber of `TcpPipeline` that feeds a framer
  -- of 69632 bytes or more, and less than 2 ^ 64, has just these messages, in order, when the read
  -- loop leaves, whatever would come behind the disconnect.
  pub read_loop-stream :
      (closed : Read) (behind : List Read)
      → failed closed ≡ true
      → joined chunks ≡ stream messages
      → Every (λ p. length p < 65536) messages
      → Every (Every IsByte) chunks
      → Every FitsBuffer chunks
      → 69632 ≤ max_size
      → max_size < 2 ^ 64
      → tcp_read_loop
          (map (arrival junk) chunks ++ closed ∷ behind)
          subscribed
          (some ([], init max_size))
        ≡ some (messages, init max_size)
  unfolding tcp_read_loop
  read_loop-stream closed behind ends same small bytes fit room word =
      read_loop-receive junk chunks (closed ∷ behind) [] messages (init max_size) (init max_size)
        fit
        (receive-stream messages chunks max_size same small bytes (Every-weaken chunks fit) word)
      ∙ rw ends refl
    where
      Every-weaken :
          (cs : List (List ℕ)) → Every FitsBuffer cs → Every (λ c. length c + 65536 ≤ max_size) cs
      Every-weaken [] h = tt
      Every-weaken (c ∷ cs) h = (omega (arith, h.0.1, room), Every-weaken cs h.1)
