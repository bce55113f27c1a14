-- ===== src/TcpSocket.antt =====
-- tcp_socket.rs: a stream with an expiry, of which there are owning and weak copies. The stream itself
-- (mio's `TcpStream`) is its descriptor, with what `take_error` would report; a moment is a number.
use ws_platform.Common.{
  ℕ, ◌+◌, ◌≤◌, Text, codes, Option, none, some, Bool, true, false, not, List, [], ◌∷◌, ◌++◌, ◌≡◌,
  refl, leb, arith, ◌↔◌,
}
use ws_platform.Error.{Result, ok, err, CoreError, throw, ◌>>=◌}

pub record Stream : Type 0 where
  pub fd : ℕ
  pub failing : Bool

pub record TcpSocket : Type 0 where
  pub stream : Option Stream
  pub owned : Bool
  pub local_addr : Text
  pub remote_addr : Text
  pub exp : Option ℕ

-- `SystemTime::now() + timeout`.
abbrev pub deadline : ℕ → Option ℕ → Option ℕ
deadline now none = none
deadline now (some timeout) = some (now + timeout)

-- `TcpSocket::from`, given what the stream says of its two addresses.
unfoldable pub of_stream :
    Stream → Result CoreError Text → Result CoreError Text → Result CoreError TcpSocket
of_stream stream local_addr remote_addr = do
  here ← local_addr
  there ← remote_addr
  ok (record {
    stream = some stream;
    owned = true;
    local_addr = here;
    remote_addr = there;
    exp = none;
  })

abbrev pub dial_failed : Result Text Stream → Result CoreError Stream
dial_failed (ok stream) = ok stream
dial_failed (err e) = throw (codes "Failed to proxy connect: " ++ e)

-- `TcpSocket::connect`, given what `TcpStream::connect` gave.
unfoldable pub connect :
    ℕ
    → Option ℕ
    → Result Text Stream
    → (Stream → Result CoreError Text)
    → (Stream → Result CoreError Text)
    → Result CoreError TcpSocket
connect now timeout dialled local_addr remote_addr = do
  stream ← dial_failed dialled
  here ← local_addr stream
  there ← remote_addr stream
  ok (record {
    stream = some stream;
    owned = true;
    local_addr = here;
    remote_addr = there;
    exp = deadline now timeout;
  })

-- A second socket over the same descriptor; without a stream the call is a panic.
unfoldable pub weak : TcpSocket → Option TcpSocket
weak s = elim s.stream [ none ↦ none | some stream ↦ some (record s { owned = false }) ]

abbrev pub is_weak : TcpSocket → Bool
is_weak s = not s.owned

-- The socket that is taken, and what stays.
unfoldable pub take : TcpSocket → TcpSocket × TcpSocket
take s = (s, record s { stream = none; owned = false })

-- The descriptors that are closed when a socket goes.
abbrev pub closes : Bool → Option Stream → List ℕ
closes true (some stream) = stream.fd ∷ []
closes true none = []
closes false stream = []

unfoldable pub drop : TcpSocket → List ℕ
drop s = closes s.owned s.stream

-- `close`, with the descriptors that it closes: a weak socket is closed too.
unfoldable pub close : TcpSocket → TcpSocket × List ℕ
close s = (record s { stream = none }, closes true s.stream)

abbrev pub works : Option Stream → Bool
works none = false
works (some stream) = not stream.failing

unfoldable pub valid : TcpSocket → Bool
valid s = works s.stream

abbrev pub is_over : ℕ → Option ℕ → Bool
is_over now none = false
is_over now (some exp) = leb exp now

unfoldable pub timedout : ℕ → TcpSocket → Bool
timedout now s = is_over now s.exp

unfoldable pub set_timeout : ℕ → Option ℕ → TcpSocket → TcpSocket × Option ℕ
set_timeout now timeout s = (record s { exp = deadline now timeout }, deadline now timeout)

abbrev pub expire : Option ℕ → TcpSocket → TcpSocket
expire exp s = record s { exp = exp }

-- Copies and moves keep the number of owners: what a socket closes when it goes is closed once by the
-- two halves of `take`, and never by a weak copy.
pub take-drop :
    (s : TcpSocket)
    → (drop (take s).0 ++ drop (take s).1 ≡ drop s)
      × ((w : TcpSocket) → weak s ≡ some w → drop w ≡ [])
unfolding take drop weak
take-drop s = ground arith

-- A timeout that is set now is over from its length on, and no timeout is never over.
pub set_timeout-timedout :
    (now later n : ℕ) (s : TcpSocket)
    → ((timedout later (set_timeout now (some n) s).0 ≡ true) ↔ (now + n ≤ later))
      × (timedout later (set_timeout now none s).0 ≡ false)
unfolding timedout set_timeout
set_timeout-timedout now later n s = (ground arith, refl)
