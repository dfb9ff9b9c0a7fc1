-- ===== src/Sockets/Send.antt =====
-- libs/networking/tcp/TcpClient.h, `sendAll`: what is handed to `send`, against what a caller asks for.
use scrimmage.Prelude.{
  ℕ, zero, suc, ◌+◌, ◌-◌, ◌≤◌, ◌<◌, ◌≡◌, refl, ap, ap₂, Bool, true, false, Option, some, List, [],
  ◌∷◌, arith, Every, length, replicate, get_elem?,
}
use scrimmage.Prelude.Int.{ℤ, pos, negsuc}

-- A call `send(_socket, ptr, remaining, 0)`: where `ptr` is behind `data`, and `remaining`.
pub record Sent : Type 0 where
  pub offset : ℕ
  pub count : ℕ

-- The loop of `sendAll`; `answers` are those of `send`, and a missing one is an error. The result,
-- and the calls.
unfoldable pub send_loop : List ℤ → (offset remaining : ℕ) → Bool × List Sent
send_loop answers offset zero = (true, [])
send_loop [] offset (suc left) = (false, record { offset = offset; count = suc left } ∷ [])
send_loop (negsuc n ∷ answers) offset (suc left) =
    (false, record { offset = offset; count = suc left } ∷ [])
send_loop (pos zero ∷ answers) offset (suc left) =
    (false, record { offset = offset; count = suc left } ∷ [])
send_loop (pos (suc n) ∷ answers) offset (suc left) =
    let (result, calls) = send_loop answers (offset + suc n) left in
    (result, record { offset = offset; count = suc left } ∷ calls)

unfoldable pub send_all : List ℤ → (len : ℕ) → Bool × List Sent
unfolding send_loop
send_all answers len = send_loop answers 0 len

abbrev pub ones : ℕ → List ℤ
ones n = replicate n (pos 1)

abbrev pub InBuffer : ℕ → Sent → Type 0
InBuffer len c = c.offset + c.count ≤ len

send_loop-ones :
    (n offset : ℕ)
    → let run = send_loop (ones n) offset n in
      (run.0 ≡ true) × ((length run.1 ≡ n) × Every (InBuffer (offset + n)) run.1)
unfolding send_loop
send_loop-ones zero offset = (refl, (refl, tt))
send_loop-ones (suc n) offset =
    let ih = send_loop-ones n (offset + 1) in
    let same : offset + 1 + n ≡ offset + suc n = omega arith in
    (ih.0, (ap suc ih.1.0, (omega arith, (rw same at ih).1.1)))

-- If `send` takes one byte at a time, `sendAll` succeeds after as many calls as there are bytes, each
-- of them within the data.
pub send_all-ones :
    (len : ℕ)
    → let run = send_all (ones len) len in
      (run.0 ≡ true) × ((length run.1 ≡ len) × Every (InBuffer len) run.1)
unfolding send_all
send_all-ones len = let same : 0 + len ≡ len = omega arith in rw same at (send_loop-ones len 0)

same_call :
    {i j m n : ℕ}
    → i ≡ j
    → m ≡ n
    → ◌≡◌ {A = Option Sent}
        (some (record { offset = i; count = m }))
        (some (record { offset = j; count = n }))
same_call e f = ap₂ (λ i m. some (record { offset = i; count = m })) e f

-- If `send` takes all `len` bytes of its first call, more than one, `sendAll` goes on: its next call
-- starts behind the data and asks for `len - 1` bytes there, whatever that call answers.
pub send_all_overruns :
    (len : ℕ) (answers : List ℤ)
    → 1 < len
    → get_elem? (send_all (pos len ∷ answers) len).1 1
      ≡ some (record { offset = len; count = len - 1 })
unfolding send_all send_loop
send_all_overruns zero answers h = absurd (omega arith)
send_all_overruns (suc zero) answers h = absurd (omega arith)
send_all_overruns (suc (suc n)) [] h = same_call (omega arith) (omega arith)
send_all_overruns (suc (suc n)) (negsuc m ∷ answers) h = same_call (omega arith) (omega arith)
send_all_overruns (suc (suc n)) (pos zero ∷ answers) h = same_call (omega arith) (omega arith)
send_all_overruns (suc (suc n)) (pos (suc m) ∷ answers) h = same_call (omega arith) (omega arith)
