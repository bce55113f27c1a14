-- ===== src/Http/Proxy.antt =====
-- http/plugins/proxy.rs: the response of an upstream, up to its status line. The connection of the context is
-- kept beside it, and its timer is left out.
pub mod Headers
pub mod Body
pub mod Follows
pub mod Send
pub mod Route
pub mod Retry
pub mod Twice
pub mod Chunks
pub mod ChunkedBody
pub mod LengthBody
pub mod Faults
use ws_platform.Common.{
  ℕ, zero, suc, ◌+◌, ◌-◌, ◌*◌, ◌^◌, Text, codes, Option, none, some, Bool, true, false, ◌&&◌, List,
  [], ◌∷◌, ◌++◌, length, ltb, leb, ◌==◌, not, if◌then◌else◌, text_eq,
}
use ws_platform.Error.{Result, ok, err, Code, done, again, declined, HttpResult, http_throw}
use ws_platform.Client.{Client}
use ws_platform.ConnectionPool.{Peer}
use ws_platform.ConnectionPool
use ws_platform.Http.Types.{HttpStatus, status_of, status_code}
use ws_platform.Http.Scan.{Verdict, more, returns, scan, enough}
use ws_platform.Http.Request.Line.{push, read_more}
use ws_platform.Http.Response.{HttpResponse, set_status}

pub data HttpProxyState : Type 0 where
  st_connecting st_connected st_request_prepared st_request_sent st_protocol : HttpProxyState
  st_protocol_end st_status st_status_end st_headers st_headers_end st_body : HttpProxyState
  st_parsed : HttpProxyState

-- The derived order is that of the declaration.
abbrev pub rank : HttpProxyState → ℕ
rank st_connecting = 0
rank st_connected = 1
rank st_request_prepared = 2
rank st_request_sent = 3
rank st_protocol = 4
rank st_protocol_end = 5
rank st_status = 6
rank st_status_end = 7
rank st_headers = 8
rank st_headers_end = 9
rank st_body = 10
rank st_parsed = 11

pub record HttpProxyContext : Type 0 where
  pub peer : Peer
  pub state : HttpProxyState
  pub status : Text
  pub protocol : Text
  pub key : Option Text
  pub val : Option Text
  pub chunk : Text × Option ℕ

-- `HttpProxyContext::new`.
abbrev pub new : Peer → HttpProxyContext
new peer = record {
  peer = peer;
  state = st_connecting;
  status = [];
  protocol = [];
  key = some [];
  val = none;
  chunk = ([], none);
}

-- What the parsers change: the context, and the response that they fill.
pub record Proxied : Type 0 where
  pub context : HttpProxyContext
  pub response : HttpResponse

abbrev pub past : HttpProxyState → Proxied → Bool
past state p = ltb (rank state) (rank p.context.state)

abbrev pub enter : HttpProxyState → Proxied → Proxied
enter state p = record p { context = record p.context { state = state } }

abbrev pub release : Proxied → Proxied
release p = record p { context = record p.context { peer = ConnectionPool.release p.context.peer } }

-- What a parser leaves, and its result; no result is a panic.
abbrev pub Parsed : Type 0
Parsed = Proxied × Client × Option HttpResult

-- `match first? { OK => next, code => Ok(code) }`.
abbrev pub and_then : Parsed → (Proxied → Client → Parsed) → Parsed
and_then (p, c, some (ok done)) next = next p c
and_then (p, c, some (ok again)) next = (p, c, some (ok again))
and_then (p, c, some (ok declined)) next = (p, c, some (ok declined))
and_then (p, c, some (err e)) next = (p, c, some (err e))
and_then (p, c, none) next = (p, c, none)

abbrev pub closed_status : Text
closed_status = codes "Upstream has closed connection on read status line"

unfoldable pub step_protocol : Proxied → ℕ → Verdict Proxied
step_protocol p c =
    let over = enter st_protocol_end p in
    if c == b' '
    then (if text_eq p.context.protocol (codes "HTTP/1.0")
        then returns (release over) (ok done)
        else if text_eq p.context.protocol (codes "HTTP/1.1")
        then returns over (ok done)
        else returns over (http_throw (codes "Unsupported protocol version")))
    else more (record p { context = record p.context { protocol = push c p.context.protocol } })

unfoldable pub parse_protocol : Proxied → Client → Parsed
unfolding step_protocol scan
parse_protocol p c =
    if past st_protocol p
    then (p, c, some (ok done))
    else scan step_protocol (read_more closed_status) (enough c) (enter st_protocol p) c

-- `str::parse::<i64>` after the sign, for a magnitude below `limit`.
abbrev pub magnitude : ℕ → ℕ → Text → Option ℕ
magnitude limit n [] = some n
magnitude limit n (c ∷ s) =
    let n' = n * 10 + (c - b'0') in
    let rest = magnitude limit n' s in
    if leb b'0' c && leb c b'9' && ltb n' limit then rest else none

abbrev pub is_undefined : HttpStatus → Bool
is_undefined status = status_code status == 0

-- `HttpStatus::from` at a code below 0.
abbrev pub negative : Option ℕ → Option HttpStatus
negative none = none
negative (some zero) = some (status_of 0)
negative (some (suc n)) = some HttpStatus.bad_request

abbrev pub positive : Option ℕ → Option HttpStatus
positive none = none
positive (some n) = some (status_of n)

-- `parse::<i64>` and then `HttpStatus::from`.
unfoldable pub parse_code : Text → Option HttpStatus
unfolding status_of
parse_code [] = none
parse_code (c ∷ []) = positive (magnitude (2 ^ 63) 0 (c ∷ []))
parse_code (c ∷ d ∷ s) =
    if c == b'-'
    then negative (magnitude (2 ^ 63 + 1) 0 (d ∷ s))
    else if c == b'+'
    then positive (magnitude (2 ^ 63) 0 (d ∷ s))
    else positive (magnitude (2 ^ 63) 0 (c ∷ d ∷ s))

-- The status is complete. `is_utf8` stands for the test of `std::str::from_utf8`.
abbrev pub take_status : (Text → Bool) → Proxied → Verdict Proxied
take_status is_utf8 p =
    if not (is_utf8 p.context.status)
    then returns p (http_throw (codes "Failed to decode status line"))
    else elim (parse_code p.context.status) [
      | none ↦ returns p (http_throw (codes "Failed to parse status"))
      | some status ↦ more (record p { response = set_status status p.response })
    ]

unfoldable pub step_status : (Text → Bool) → Proxied → ℕ → Verdict Proxied
unfolding parse_code
step_status is_utf8 p c =
    if c == b' ' && is_undefined p.response.status
    then take_status is_utf8 p
    else if c == 0x0D
    then more p
    else if c == 0x0A
    then returns (enter st_status_end p) (ok done)
    else more (record p { context = record p.context { status = push c p.context.status } })

unfoldable pub parse_status : (Text → Bool) → Proxied → Client → Parsed
unfolding step_status scan
parse_status is_utf8 p c =
    if past st_status p
    then (p, c, some (ok done))
    else scan (step_status is_utf8) (read_more closed_status) (enough c) (enter st_status p) c
