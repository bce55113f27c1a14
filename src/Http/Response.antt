-- ===== src/Http/Response.antt =====
-- http/internal/response.rs and the methods of http/mod.rs that change a response. The warnings that a
-- setter logs when the headers are sent are left out, and the file that a response may send. The
-- filters are arguments.
pub mod Framing
pub mod Send
pub mod Wire
use ws_platform.Common.{
  ℕ, zero, suc, ◌+◌, ◌-◌, ◌/◌, ◌%◌, Text, codes, Option, none, some, Bool, true, false, List, [],
  ◌∷◌, ◌++◌, length, ltb, leb, ◌==◌, if◌then◌else◌, Eq, is_some, to_ascii_lowercase, text_eq,
  get_or,
}
use mathlib.Core.Option
use ws_platform.Error.{Result, ok, err, Code, done, HttpResult, http_throw}
use ws_platform.KeyVal
use ws_platform.KeyVal.{Key, KeyVal}
use ws_platform.Client.{Client, write}
use ws_platform.Client
use ws_platform.Http.Types.{HttpProtocol, http10, http11, HttpStatus, protocol_name, status_text}
use ws_platform.Http.Encoding.{is_chunked, set_chunked, clear_chunked}
use ws_platform.Http.Encoding
use ws_platform.Http.Request.{HttpRequest, is_mailformed}
use ws_platform.Http.Request.Headers.{parse_usize}

pub record HttpResponse : Type 0 where
  pub protocol : HttpProtocol
  pub status : HttpStatus
  pub headers : KeyVal Text
  pub content_length : Option ℕ
  pub body : Option Text
  pub transfer_encoding : ℕ
  pub closed : Bool
  pub headers_sent : Bool
  pub body_sent : Bool

-- The response of http/mod.rs: a request, the inner response and, from the request, the connection.
pub record Exchange : Type 0 where
  pub request : HttpRequest
  pub inner : HttpResponse
  pub client : Client

abbrev pub new : HttpRequest → HttpResponse
new r = record {
  protocol = r.protocol;
  status = HttpStatus.ok;
  headers = [];
  content_length = none;
  body = none;
  transfer_encoding = 0;
  closed = is_mailformed r;
  headers_sent = false;
  body_sent = false;
}

abbrev pub with_status : HttpRequest → HttpStatus → HttpResponse
with_status r status = record (new r) { status = status }

-- A setter that does nothing once the headers are sent.
abbrev pub unless_sent : (HttpResponse → HttpResponse) → HttpResponse → HttpResponse
unless_sent f r = if r.headers_sent then r else f r

unfoldable pub reset : Exchange → Exchange
reset x = if x.inner.headers_sent then x else record x {
  inner = record x.inner {
    status = HttpStatus.ok;
    transfer_encoding = 0;
    content_length = none;
    body = none;
    headers = [];
    closed = false;
  };
  client = Client.reset x.client;
}

abbrev pub set_status : HttpStatus → HttpResponse → HttpResponse
set_status status = unless_sent λ r. record r { status = status }

abbrev pub send_not_modified : HttpResponse → HttpResponse
send_not_modified =
    unless_sent
      λ r. record (set_status HttpStatus.not_modified r) { content_length = none; body = none }

abbrev pub send_no_content : HttpResponse → HttpResponse
send_no_content =
    unless_sent λ r. record (set_status HttpStatus.no_content r) { content_length = some 0 }

abbrev pub set_content_length : ℕ → HttpResponse → HttpResponse
set_content_length n =
    unless_sent λ r. record r {
      content_length = some n;
      transfer_encoding = clear_chunked r.transfer_encoding;
    }

-- `set_chunked`.
abbrev pub make_chunked : HttpResponse → HttpResponse
make_chunked r = record r {
  transfer_encoding = set_chunked r.transfer_encoding;
  content_length = none;
}

abbrev pub chunked : HttpResponse → Bool
chunked r = is_chunked r.transfer_encoding

abbrev pub set_body : Text → HttpResponse → HttpResponse
set_body body r = record (set_content_length (length body) r) { body = some body }

-- The content length that `append_body` sets for a body of this length.
abbrev pub covering : ℕ → Option ℕ → ℕ
covering len none = len
covering len (some n) = if leb len n then n else len

unfoldable pub append_body : Text → HttpResponse → HttpResponse
append_body chunk r =
    let body = get_or r.body [] ++ chunk in
    let r' = record r { body = some body } in
    if chunked r then r' else set_content_length (covering (length body) r.content_length) r'

-- `{}` and `{:x}` of a number: each round gives a digit, and there are at most as many digits as the
-- number counts, and one.
abbrev pub digit : ℕ → ℕ
digit d = if ltb d 10 then b'0' + d else b'a' + (d - 10)

unfoldable pub format_digits : ℕ → ℕ → ℕ → Text → Text
format_digits base zero n acc = acc
format_digits base (suc rounds) n acc =
    let rest = format_digits base rounds (n / base) (digit (n % base) ∷ acc) in
    if ltb n base then digit n ∷ acc else rest

abbrev pub decimal : ℕ → Text
decimal n = format_digits 10 (suc n) n []

abbrev pub hexadecimal : ℕ → Text
hexadecimal n = format_digits 16 (suc n) n []

abbrev pub crlf : Text
crlf = 13 ∷ 10 ∷ []

module _ ⦃e : Eq Key⦄ where
  abbrev pub replace_header : Text → Option Text → HttpResponse → HttpResponse
  replace_header name value =
      unless_sent λ r. record r { headers = KeyVal.replace name value r.headers }

  abbrev pub set_header : Text → Text → HttpResponse → HttpResponse
  set_header name value r = record r { headers = KeyVal.set name value r.headers }

  abbrev pub add_header : Text → Text → HttpResponse → HttpResponse
  add_header name value = unless_sent λ r. record r { headers = KeyVal.add name value r.headers }

  abbrev pub remove_header : Text → HttpResponse → HttpResponse
  remove_header name r = record r { headers = KeyVal.remove_name name r.headers }

  abbrev pub set_content_type : Text → HttpResponse → HttpResponse
  set_content_type = set_header (codes "Content-Type")

  abbrev pub header_exact : Text → HttpResponse → Option Text
  header_exact name r = KeyVal.exact name r.headers

  -- The start of `flush_headers`: who keeps the connection open.
  abbrev pub wants_close : HttpRequest → Bool
  wants_close request = elim (KeyVal.exact (codes "connection") request.headers) [
    | none ↦ false
    | some connection ↦ text_eq (to_ascii_lowercase connection) (codes "close")
  ]

  abbrev pub closing : Bool → HttpResponse → HttpResponse
  closing true r = record (set_header (codes "Connection") (codes "close") r) { closed = true }
  closing false r = set_header (codes "Connection") (codes "keep-alive") r

  unfoldable pub set_connection : HttpRequest → HttpResponse → HttpResponse
  set_connection request r = elim r.protocol [
    | http10 ↦ closing true r
    | http11 ↦ closing (wants_close request) r
  ]

  -- The end of the round 0 of `flush_headers`.
  unfoldable pub adopt_length : HttpResponse → HttpResponse
  adopt_length r = elim (header_exact (codes "Content-Length") r) [
    | some t ↦ elim (parse_usize t) [ some n ↦ record r { content_length = some n } | none ↦ r ]
    | none ↦
        if is_chunked (Encoding.new (header_exact (codes "Transfer-Encoding") r))
        then record r { content_length = none }
        else r
  ]

  -- The start of the round 1: how the body is delimited.
  abbrev pub without_body : HttpResponse → HttpResponse
  without_body r = record (remove_header (codes "Content-Length") r) {
    transfer_encoding = clear_chunked r.transfer_encoding;
    content_length = none;
    body = none;
  }

  abbrev pub by_length : HttpRequest → HttpResponse → HttpResponse
  by_length request r = elim r.content_length [
    | some n ↦
        set_header (codes "Content-Length") (decimal n)
          (record r { transfer_encoding = clear_chunked r.transfer_encoding })
    | none ↦ remove_header (codes "Content-Length") (elim request.protocol [
      | http11 ↦ record r { transfer_encoding = set_chunked r.transfer_encoding }
      | http10 ↦ record r { transfer_encoding = clear_chunked r.transfer_encoding }
    ])
  ]

  abbrev pub bodiless : HttpStatus → Bool
  bodiless HttpStatus.not_modified = true
  bodiless HttpStatus.no_content = true
  bodiless _ = false

  abbrev pub read_encoding : HttpResponse → HttpResponse
  read_encoding r = record r {
    transfer_encoding = Encoding.new (header_exact (codes "Transfer-Encoding") r);
  }

  unfoldable pub frame : HttpRequest → HttpResponse → HttpResponse
  frame request r =
      let r' = read_encoding r in
      let framed = if bodiless r.status then without_body r' else by_length request r' in
      replace_header (codes "Transfer-Encoding") (Encoding.format framed.transfer_encoding) framed
