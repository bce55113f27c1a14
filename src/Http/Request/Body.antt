-- ===== src/Http/Request/Body.antt =====
-- http/internal/request.rs: `read_body`, and `parse` as a whole.
use ws_platform.Common.{
  ℕ, zero, suc, Text, codes, Option, none, some, false, [], ◌∷◌, ◌++◌, length, ltb, ◌==◌,
  if◌then◌else◌, Eq,
}
use ws_platform.Error.{Result, ok, err, Code, done, again, declined, CoreError, http_fatal}
use ws_platform.Buffer.{Buffer}
use ws_platform.Buffer
use ws_platform.KeyVal.{Key}
use ws_platform.Client.{Client, read, write, flush}
use ws_platform.Http.Scan.{enough}
use ws_platform.Http.Request.{
  HttpRequest, Decoder, past, enter, Parsed, and_then, st_body, st_parsed,
}
use ws_platform.Http.Request.Line.{parse_request_line}
use ws_platform.Http.Request.Headers.{parse_headers}

-- The body has all its bytes.
abbrev pub body_done : HttpRequest → Client → Parsed
body_done r c = (enter st_parsed r, c, some (ok done))

-- The arms of `match client.read()`, with a body of which `body` is read; `round` is the next round.
unfoldable pub more_body :
    (HttpRequest → Client → Parsed) → HttpRequest → Text → Client × Result CoreError Code → Parsed
unfolding Buffer.tail
more_body round r body (c, ok done) = elim (Buffer.tail c.buf) [
  | none ↦ (r, c, none)
  | some (bs, b) ↦ round (record r { body = some (body ++ bs) }) (record c { buf = b })
]
more_body round r body (c, ok again) = (r, c, some (ok again))
more_body round r body (c, ok declined) =
    (r, c, some (http_fatal (codes "Client has closed connection on read body")))
more_body round r body (c, err e) = (r, c, some (http_fatal e.text))

-- The loop; no result is a panic, or that the fuel ran out.
unfoldable pub body_loop : ℕ → ℕ → HttpRequest → Client → Parsed
unfolding more_body read Buffer.tail
body_loop len zero r c = (r, c, none)
body_loop len (suc fuel) r c =
    let round = body_loop len fuel in
    elim r.body [
      | none ↦ elim (Buffer.tail c.buf) [
        | none ↦ (r, c, none)
        | some (bs, b) ↦ round (record r { body = some bs }) (record c { buf = b })
      ]
      | some body ↦ if length body == len then body_done r c else more_body round r body (read c)
    ]

-- Fuel that suffices: a round for each signal that the socket has still to give, one for the bytes in
-- the buffer, and one to see that the body is complete.
unfoldable pub read_body : HttpRequest → Client → Parsed
unfolding body_loop
read_body r c = if past st_body r then (r, c, some (ok done)) else elim r.content_length [
  | none ↦ body_done (enter st_body r) c
  | some len ↦
      if ltb 0 len
      then body_loop len (suc (enough c)) (enter st_body r) c
      else body_done (enter st_body r) c
]

abbrev pub continue_reply : Text
continue_reply =
    codes "HTTP/1.1 100 Continue"
    ++ 13 ∷ 10 ∷ []
    ++ codes "content-length: 0"
    ++ 13 ∷ 10 ∷ 13 ∷ 10 ∷ []

abbrev pub after_continue : HttpRequest → Client × Option (Result CoreError (Code × ℕ)) → Parsed
after_continue r (c, some (ok sent)) =
    (record r { context = record r.context { expect_100_continue = false } }, c, some (ok again))
after_continue r (c, some (err e)) = (r, c, some (http_fatal e.text))
after_continue r (c, none) = (r, c, none)

module _ (decoder : Decoder) ⦃e : Eq Key⦄ where
  unfoldable pub parse : HttpRequest → Client → Parsed
  unfolding parse_request_line parse_headers read_body write flush
  parse r c = and_then (parse_request_line decoder r c) λ r c. and_then (parse_headers r c) λ r c.
      if r.context.expect_100_continue
      then after_continue r (flush (write continue_reply c))
      else read_body r c
