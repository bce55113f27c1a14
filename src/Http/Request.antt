-- ===== src/Http/Request.antt =====
-- http/internal/request.rs: the request and how far it is parsed. Left out are the connection, which
-- the parsers take beside it, the times, the variables and the filters, which no parser touches. The
-- crate `percent_encoding` and `String::from_utf8_lossy` are the argument `Decoder`.
pub mod Line
pub mod Headers
pub mod Body
pub mod Laws
pub mod Complete
pub mod Faults
use ws_platform.Common.{ℕ, Text, codes, Option, none, some, Bool, true, false, List, [], ◌∷◌, ltb}
use ws_platform.Error.{Result, ok, err, Code, done, again, declined, HttpResult, HttpError}
use ws_platform.KeyVal.{KeyVal}
use ws_platform.Client.{Client}
use ws_platform.Http.Types.{HttpMethod, HttpProtocol, http10}

pub data HttpParseState : Type 0 where
  st_unparsed st_method st_method_end st_uri st_uri_end st_query st_query_end : HttpParseState
  st_protocol st_protocol_end st_headers st_headers_end st_body st_parsed : HttpParseState

-- The derived order is that of the declaration.
abbrev pub rank : HttpParseState → ℕ
rank st_unparsed = 0
rank st_method = 1
rank st_method_end = 2
rank st_uri = 3
rank st_uri_end = 4
rank st_query = 5
rank st_query_end = 6
rank st_protocol = 7
rank st_protocol_end = 8
rank st_headers = 9
rank st_headers_end = 10
rank st_body = 11
rank st_parsed = 12

pub record HttpRequestParseContext : Type 0 where
  pub state : HttpParseState
  pub method : Text
  pub uri : Text
  pub query_string : Text
  pub protocol : Text
  pub key : Option Text
  pub val : Option Text
  pub expect_100_continue : Bool

pub record HttpRequest : Type 0 where
  pub context : HttpRequestParseContext
  pub content_length : Option ℕ
  pub method : HttpMethod
  pub protocol : HttpProtocol
  pub host : Text
  pub request_uri : Text
  pub uri : Text
  pub query_string : Text
  pub args : KeyVal Text
  pub headers : KeyVal Text
  pub body : Option Text

-- `HttpRequest::new`, for the text of the address of the server.
abbrev pub new : Text → HttpRequest
new host = record {
  context = record {
    state = st_unparsed;
    method = [];
    uri = [];
    query_string = [];
    protocol = [];
    key = some [];
    val = none;
    expect_100_continue = false;
  };
  content_length = none;
  method = HttpMethod.unsupported;
  protocol = http10;
  host = host;
  request_uri = [];
  uri = [];
  query_string = [];
  args = [];
  headers = [];
  body = none;
}

pub record Decoder : Type 0 where
  pub url_decode : Text → Text
  pub from_utf8_lossy : Text → Text

-- The test that each parser begins with: the request is past this state.
abbrev pub past : HttpParseState → HttpRequest → Bool
past state r = ltb (rank state) (rank r.context.state)

abbrev pub enter : HttpParseState → HttpRequest → HttpRequest
enter state r = record r { context = record r.context { state = state } }

abbrev pub is_mailformed : HttpRequest → Bool
is_mailformed r = ltb (rank r.context.state) (rank st_parsed)

-- What a parser leaves, and its result; no result is a panic.
abbrev pub Parsed : Type 0
Parsed = HttpRequest × Client × Option HttpResult

-- `match first { Ok(OK) => next, code => code }`, which passes errors on.
abbrev pub and_then : Parsed → (HttpRequest → Client → Parsed) → Parsed
and_then (r, c, some (ok done)) next = next r c
and_then (r, c, some (ok again)) next = (r, c, some (ok again))
and_then (r, c, some (ok declined)) next = (r, c, some (ok declined))
and_then (r, c, some (err e)) next = (r, c, some (err e))
and_then (r, c, none) next = (r, c, none)
