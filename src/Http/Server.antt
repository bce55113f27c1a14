-- ===== src/Http/Server.antt =====
-- http/server.rs, and `parse` of http/mod.rs, which hides errors that are not fatal: such a request goes on to the
-- server as one that is malformed, and is answered with 400.
pub mod Sound
pub mod Answers
use ws_platform.Common.{
  ℕ, Text, codes, Option, none, some, Bool, true, false, not, List, if◌then◌else◌, Eq,
}
use ws_platform.Error.{Result, ok, err, Code, done, CoreResult, HttpResult, throw}
use ws_platform.KeyVal.{Key}
use ws_platform.Client.{Client}
use ws_platform.Core.{Options}
use ws_platform.Core.Server.{Server}
use ws_platform.Core.Server
use ws_platform.Http.Types.{HttpStatus}
use ws_platform.Http.Request.{HttpRequest, Decoder, Parsed, is_mailformed}
use ws_platform.Http.Request.Body.{parse}
use ws_platform.Http.Response.{Exchange, new}
use ws_platform.Http.Response.Send.{send}

-- `Request::parse`, after the parser; no result is a panic.
abbrev pub core_result : Option HttpResult → Option CoreResult
core_result none = none
core_result (some (ok code)) = some (ok code)
core_result (some (err e)) = if e.fatal then some (throw e.text) else some (ok done)

-- A `ContentHandler`, for a request and its connection.
abbrev pub Handler : Type 0
Handler = HttpRequest → Client → Exchange

module _ ⦃e : Eq Key⦄ where
  unfoldable pub parse_request :
      Decoder → HttpRequest → Client → HttpRequest × Client × Option CoreResult
  unfolding parse
  parse_request decoder r c = let (r', c', res) = parse decoder r c in (r', c', core_result res)

  abbrev pub respond : HttpStatus → Text → Handler
  respond status text r c =
      send (λ x. x) (λ x. x) status (codes "text/plain") (some text)
        (record { request = r; inner = new r; client = c })

  unfoldable pub bad_request : Handler
  unfolding send
  bad_request = respond HttpStatus.bad_request (codes "Bad request")

  -- The handler that `new` and `add_server_handler` make of a handler.
  unfoldable pub checked : Handler → Handler
  unfolding bad_request
  checked handler r c = if not (is_mailformed r) then handler r c else bad_request r c

  -- The options of a listener are arguments one by one.
  abbrev pub options : Option ℕ → Option ℕ → Option ℕ → ℕ → Options
  options request response keepalive requests = record {
    request_timeout = request;
    response_timeout = response;
    keepalive_timeout = keepalive;
    keepalive_requests = requests;
  }

  unfoldable pub add_listener : Text → Options → Server Handler → Server Handler × CoreResult
  unfolding Server.add_listener
  add_listener addr opts s = Server.add_listener addr (some opts) s

  unfoldable pub add_server_handler :
      Text → Handler → Options → Server Handler → Server Handler × CoreResult
  unfolding Server.add_server_handler checked
  add_server_handler addr handler opts s =
      Server.add_server_handler addr (checked handler) (some opts) s
