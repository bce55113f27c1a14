-- ===== src/Client.antt =====
-- client_context.rs: the buffered connection. The socket itself (mio's `TcpStream`) is a list of the
-- answers that its system calls give, in order; a list that has run out stands for a socket that
-- is not ready (`WouldBlock`). `arrived []` is the end of the stream, which `read` reports as 0 bytes.
pub mod Signals
pub mod Flush
use ws_platform.Common.{
  ℕ, ◌+◌, Text, codes, Option, none, some, Bool, true, false, List, [], ◌∷◌, ◌++◌, length, take,
  drop, ltb, ◌==◌, if◌then◌else◌, min,
}
use ws_platform.Error.{Result, ok, err, Code, done, again, declined, CoreError, throw}
use ws_platform.Buffer.{Buffer, empty}
use ws_platform.Buffer

-- `std::io::ErrorKind`, as far as the code tells the kinds apart; `other` carries the message.
pub data ErrorKind : Type 0 where
  interrupted timed_out would_block : ErrorKind
  other : Text → ErrorKind

-- What one `read` of the socket does: bytes that have arrived, or an error.
pub data Incoming : Type 0 where
  arrived : Text → Incoming
  failed : ErrorKind → Incoming

-- What one `write` does: it takes that many bytes at most, or fails.
pub data Outgoing : Type 0 where
  accepts : ℕ → Outgoing
  failed : ErrorKind → Outgoing

pub record Client : Type 0 where
  pub buf : Buffer
  pub incoming : List Incoming
  pub outgoing : List Outgoing
  pub sent : Text

-- What a read that takes `n` bytes at most leaves in the socket.
abbrev pub leftover : ℕ → Text → List Incoming → List Incoming
leftover n t script = if ltb n (length t) then arrived (drop n t) ∷ script else script

-- `Buffer::read`: the result is the pair (end of file, size).
unfoldable pub read_buffer :
    Incoming → List Incoming → Buffer → Buffer × List Incoming × Result ErrorKind (Bool × ℕ)
read_buffer (failed k) script b = (Buffer.grow b, script, err k)
read_buffer (arrived t) script b =
    let g = Buffer.grow b in
    let n = length g.bytes in
    let received = take n t in
    (Buffer.filled received g, leftover n t script, ok (length received == 0, length received))

-- The result of one round of `read`: go round again, or return.
abbrev pub read_result : Result ErrorKind (Bool × ℕ) → Option (Result CoreError Code)
read_result (ok (true, sz)) = some (ok declined)
read_result (ok (false, sz)) = some (ok done)
read_result (err interrupted) = none
read_result (err timed_out) = some (throw (codes "Timeout while waiting for data from client"))
read_result (err would_block) = some (ok again)
read_result (err (other e)) = some (throw (codes "Failed to receive data from client: " ++ e))

-- The loop of `read`.
unfoldable pub read_loop : Buffer → List Incoming → Buffer × List Incoming × Result CoreError Code
read_loop b [] = (Buffer.grow b, [], ok again)
read_loop b (answer ∷ script) =
    let (b', script', res) = read_buffer answer script b in
    let next = read_loop b' script in
    elim (read_result res) [ some r ↦ (b', script', r) | none ↦ next ]

unfoldable pub read : Client → Client × Result CoreError Code
unfolding read_loop read_buffer
read c =
    let (b, script, r) = read_loop (Buffer.reset c.buf) c.incoming in
    (record c { buf = b; incoming = script }, r)

abbrev pub reset : Client → Client
reset c = record c { buf = Buffer.reset c.buf }

-- `write` appends to the buffer; `flush` sends it.
unfoldable pub write : Text → Client → Client
write s c = record c { buf = Buffer.extend s c.buf }

-- `Buffer::write`: the result is the pair (all is sent, size); no result is a panic. The last part is
-- what the system call took.
unfoldable pub write_buffer :
    Outgoing → Buffer → Option (Buffer × Result ErrorKind (Bool × ℕ) × Text)
write_buffer answer b = elim (Buffer.unsent b) [
  | none ↦ none
  | some bs ↦ elim answer [
    | accepts n ↦
        let (b', all) = Buffer.wrote (min n (length bs)) b in
        some (b', ok (all, min n (length bs)), take n bs)
    | failed k ↦ some (b, err k, [])
  ]
]

-- The result of one round of `flush`: go round again, or return.
abbrev pub flush_result : Result ErrorKind (Bool × ℕ) → Option (Result CoreError (Code × ℕ))
flush_result (ok (true, sz)) = some (ok (done, sz))
flush_result (ok (false, sz)) = some (ok (again, sz))
flush_result (err interrupted) = none
flush_result (err timed_out) = some (throw (codes "Timeout while sending data to client"))
flush_result (err would_block) = some (ok (again, 0))
flush_result (err (other e)) = some (throw (codes "Failed to send data to client: " ++ e))

-- What a round of `flush` leaves, when it does not end with a panic.
abbrev pub sent_on : Client → List Outgoing → Buffer → Text → Client
sent_on c script b bs = record c { buf = b; outgoing = script; sent = c.sent ++ bs }

-- The loop of `flush`. Each round but the last took nothing: the size is that of the last.
unfoldable pub flush_loop : List Outgoing → Client → Client × Option (Result CoreError (Code × ℕ))
unfolding write_buffer
flush_loop [] c =
    if ltb c.buf.wpos c.buf.end
    then elim (write_buffer (failed would_block) c.buf) [
      | none ↦ (c, none)
      | some (b, res, bs) ↦ (sent_on c [] b bs, flush_result res)
    ]
    else (c, some (ok (done, 0)))
flush_loop (answer ∷ script) c =
    if ltb c.buf.wpos c.buf.end
    then elim (write_buffer answer c.buf) [
      | none ↦ (c, none)
      | some (b, res, bs) ↦
          let c' = sent_on c script b bs in
          let next = flush_loop script c' in
          elim (flush_result res) [ some r ↦ (c', some r) | none ↦ next ]
    ]
    else (c, some (ok (done, 0)))

unfoldable pub flush : Client → Client × Option (Result CoreError (Code × ℕ))
unfolding flush_loop
flush c = flush_loop c.outgoing c
