-- ===== src/Http/Proxy/Body.antt =====
-- http/plugins/proxy.rs: the body of the response of an upstream, by its length, in chunks, or up to the end
-- of the stream; and the parser as a whole.

use ws_platform.Common.{
  ℕ, zero, suc, ◌+◌, ◌-◌, ◌*◌, ◌^◌, ◌%◌, Text, codes, Option, none, some, Bool, false, ◌&&◌, [],
  ◌∷◌, ◌++◌, length, take, ltb, leb, ◌==◌, if◌then◌else◌, Eq, get_or,
}
use ws_platform.Error.{
  Result, ok, err, Code, done, again, declined, CoreError, throw, http_throw, http_fatal,
}
use ws_platform.Buffer.{Buffer}
use ws_platform.Buffer
use ws_platform.KeyVal.{Key}
use ws_platform.Client.{Client, read}
use ws_platform.Http.Types.{HttpStatus, http10, http11, status_code}
use ws_platform.Http.Scan.{Verdict, more, returns, scan, enough}
use ws_platform.Http.Request.Line.{push, read_more}
use ws_platform.Http.Response.{HttpResponse, set_status, set_content_length, append_body, chunked}
use ws_platform.Http.Proxy.{
  Proxied, past, enter, Parsed, and_then, st_body, st_parsed, parse_protocol, parse_status,
}
use ws_platform.Http.Proxy.Headers.{parse_headers}

-- `usize::from_str_radix` with the radix 16.
abbrev pub hex_value : ℕ → Option ℕ
hex_value c =
    if leb b'0' c && leb c b'9'
    then some (c - b'0')
    else if leb b'a' c && leb c b'f'
    then some (10 + (c - b'a'))
    else if leb b'A' c && leb c b'F'
    then some (10 + (c - b'A'))
    else none

abbrev pub hex_digits : ℕ → Text → Result CoreError ℕ
hex_digits n [] = ok n
hex_digits n (c ∷ s) =
    let n' = n * 16 + get_or (hex_value c) 0 in
    let rest = hex_digits n' s in
    elim (hex_value c) [
      | none ↦ throw (codes "invalid digit found in string")
      | some d ↦
          if ltb n' (2 ^ 64) then rest else throw (codes "number too large to fit in target type")
    ]

unfoldable pub parse_hex : Text → Result CoreError ℕ
parse_hex [] = throw (codes "cannot parse integer from empty string")
parse_hex (c ∷ []) = hex_digits 0 (c ∷ [])
parse_hex (c ∷ d ∷ s) = if c == b'+' then hex_digits 0 (d ∷ s) else hex_digits 0 (c ∷ d ∷ s)

abbrev pub closed_body : Text
closed_body = codes "Client has closed connection on read body"

abbrev pub set_chunk : Text → Option ℕ → Proxied → Proxied
set_chunk text size p = record p { context = record p.context { chunk = (text, size) } }

-- The line of a chunk is complete.
abbrev pub take_size : Result CoreError ℕ → Proxied → Verdict Proxied
take_size (err e) p = returns p (http_throw (codes "Failed to parse chunk size: " ++ e.text))
take_size (ok zero) p = returns (set_chunk [] none p) (ok done)
take_size (ok (suc n)) p = returns (set_chunk [] (some (suc n)) p) (ok done)

unfoldable pub step_size : Proxied → ℕ → Verdict Proxied
unfolding parse_hex
step_size p c =
    if c == 0x0D
    then more p
    else if c == 0x0A
    then take_size (parse_hex p.context.chunk.0) p
    else more (set_chunk (push c p.context.chunk.0) p.context.chunk.1 p)

abbrev pub size_line : Option ℕ → Proxied → Client → Parsed
size_line (some size) p c = (p, c, some (ok done))
size_line none p c = scan step_size (read_more closed_body) (enough c) p c

unfoldable pub read_chunk_size : Proxied → Client → Parsed
unfolding step_size scan
read_chunk_size p c = size_line p.context.chunk.1 p c

-- The bytes of a chunk, and its line end.
unfoldable pub step_chunk : ℕ → Proxied → ℕ → Verdict Proxied
step_chunk size p c =
    let p' = set_chunk (push c p.context.chunk.0) p.context.chunk.1 p in
    if ((2 + size) % 2 ^ 64) == length p'.context.chunk.0 then returns p' (ok done) else more p'

-- `if let Some(chunk_size) = self.chunk.1 { … }`.
abbrev pub bytes_of_size : Option ℕ → Proxied → Client → Parsed
bytes_of_size none p c = (p, c, some (ok done))
bytes_of_size (some size) p c = scan (step_chunk size) (read_more closed_body) (enough c) p c

abbrev pub chunk_bytes : Proxied → Client → Parsed
chunk_bytes p = bytes_of_size p.context.chunk.1 p

unfoldable pub read_chunk : Proxied → Client → Parsed
unfolding read_chunk_size step_chunk scan
read_chunk p c = and_then (read_chunk_size p c) chunk_bytes

abbrev pub on_response : (HttpResponse → HttpResponse) → Proxied → Proxied
on_response f p = record p { response = f p.response }

abbrev pub body_len : HttpResponse → ℕ
body_len r = elim r.body [ some body ↦ length body | none ↦ 0 ]

abbrev pub body_done : Proxied → Client → Parsed
body_done p c = (enter st_parsed p, c, some (ok done))

-- A chunk that is read is appended; no result is a panic of the slice.
unfoldable pub append_chunk : ℕ → Proxied → Option Proxied
unfolding append_body
append_chunk size p =
    let text = p.context.chunk.0 in
    if leb size (length text)
    then some (set_chunk [] none (on_response (append_body (take size text)) p))
    else none

abbrev pub last_chunk : Proxied → Proxied
last_chunk p = on_response (λ r. set_content_length (body_len r) r) p

-- A round of the loop over the chunks, with the next one.
abbrev pub after_chunk : (Proxied → Client → Parsed) → Proxied → Client → Parsed
after_chunk next p c = elim p.context.chunk.1 [
  | none ↦ body_done (last_chunk p) c
  | some size ↦ elim (append_chunk size p) [ none ↦ (p, c, none) | some p' ↦ next p' c ]
]

unfoldable pub chunk_loop : ℕ → Proxied → Client → Parsed
unfolding read_chunk append_chunk
chunk_loop zero p c = (p, c, none)
chunk_loop (suc fuel) p c = and_then (read_chunk p c) (after_chunk (chunk_loop fuel))

-- `content_length - resp.body_len()`, which wraps.
abbrev pub bytes_left : ℕ → ℕ → ℕ
bytes_left len size = if ltb len size then len + 2 ^ 64 - size else len - size

-- Where the difference has wrapped, the position up to which the buffer is taken may wrap to one before
-- the first: the slice panics.
abbrev pub slice_panics : ℕ → ℕ → ℕ → Bool
slice_panics len size rpos =
    if ltb len size then leb (2 ^ 64) (rpos + bytes_left len size) else false

abbrev pub append_bytes : Proxied → Client → Option (Text × Buffer) → Option (Proxied × Client)
append_bytes p c none = none
append_bytes p c (some (bs, b)) = some (on_response (append_body bs) p, record c { buf = b })

-- `resp.append_body(self.client.buf.chunk(content_length - resp.body_len()))`, and `tail`.
unfoldable pub take_chunk : ℕ → Proxied → Client → Option (Proxied × Client)
unfolding append_body Buffer.chunk
take_chunk len p c =
    if slice_panics len (body_len p.response) c.buf.rpos
    then none
    else append_bytes p c (Buffer.chunk (bytes_left len (body_len p.response)) c.buf)

unfoldable pub take_tail : Proxied → Client → Option (Proxied × Client)
unfolding append_body Buffer.tail
take_tail p c = elim (Buffer.tail c.buf) [
  | none ↦ none
  | some (bs, b) ↦ some (on_response (append_body bs) p, record c { buf = b })
]

abbrev pub go_on :
    (Proxied → Client → Parsed) → Proxied → Client → Option (Proxied × Client) → Parsed
go_on next p c none = (p, c, none)
go_on next p c (some (p', c')) = next p' c'

-- The arms of `match self.client.read()`, with a length.
abbrev pub after_read :
    (Proxied → Client → Parsed) → ℕ → Proxied → Client × Result CoreError Code → Parsed
after_read next len p (c, ok done) = go_on next p c (take_chunk len p c)
after_read next len p (c, ok again) = (p, c, some (ok again))
after_read next len p (c, ok declined) = (p, c, some (http_fatal closed_body))
after_read next len p (c, err e) = (p, c, some (http_fatal e.text))

unfoldable pub length_loop : ℕ → ℕ → Proxied → Client → Parsed
unfolding take_chunk read
length_loop len zero p c = (p, c, none)
length_loop len (suc fuel) p c =
    let next = length_loop len fuel in
    if ltb (body_len p.response) len then after_read next len p (read c) else body_done p c

-- Up to the close of the stream.
abbrev pub after_tail :
    (Proxied → Client → Parsed) → Proxied → Client × Result CoreError Code → Parsed
after_tail next p (c, ok done) = go_on next p c (take_tail p c)
after_tail next p (c, ok again) = (p, c, some (ok again))
after_tail next p (c, ok declined) = body_done p c
after_tail next p (c, err e) = (p, c, some (http_fatal e.text))

unfoldable pub tail_loop : ℕ → Proxied → Client → Parsed
unfolding take_tail read
tail_loop zero p c = (p, c, none)
tail_loop (suc fuel) p c = after_tail (tail_loop fuel) p (read c)

abbrev pub bad_gateway : HttpResponse → HttpResponse
bad_gateway r = set_content_length 0 (set_status HttpStatus.bad_gateway r)

abbrev pub without_length : Proxied → Client → Parsed
without_length p c =
    if chunked p.response
    then chunk_loop (suc (suc (length c.buf.bytes) + enough c)) p c
    else elim p.response.protocol [
      | http10 ↦ go_on (tail_loop (enough c)) p c (take_tail p c)
      | http11 ↦
          if status_code p.response.status == 304
          then body_done p c
          else body_done (on_response bad_gateway p) c
    ]

-- Fuel that suffices: every chunk takes a byte of the buffer or a signal of the socket, every read a signal.
unfoldable pub read_body : Proxied → Client → Parsed
unfolding length_loop tail_loop take_tail take_chunk chunk_loop
read_body p c =
    let p' = enter st_body p in
    if past st_body p then (p, c, some (ok done)) else elim p.response.content_length [
      | some len ↦ go_on (length_loop len (enough c)) p' c (take_chunk len p' c)
      | none ↦ without_length p' c
    ]

module _ (is_utf8 : Text → Bool) ⦃e : Eq Key⦄ where
  unfoldable pub parse_response : Proxied → Client → Parsed
  unfolding parse_protocol parse_status parse_headers read_body
  parse_response p c =
      and_then (parse_protocol p c)
        λ p c. and_then (parse_status is_utf8 p c) λ p c. and_then (parse_headers p c) read_body
