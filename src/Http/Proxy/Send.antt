-- ===== src/Http/Proxy/Send.antt =====
-- http/plugins/proxy.rs: the request that an upstream gets, and `proxy`, one step of an exchange with it.
-- `url_encode` is that of the crate urlencoding.
use ws_platform.Common.{
  ℕ, Text, codes, Option, none, some, Bool, ◌&&◌, List, [], ◌∷◌, ◌++◌, ltb, leb, ◌==◌, map,
  if◌then◌else◌, Eq, get_or, join,
}
use ws_platform.Error.{
  Result, ok, err, Code, done, again, declined, CoreError, CoreResult, Flush, finished_with,
  read_more, write_more, refused, throw,
}
use ws_platform.KeyVal.{Key, KeyVal, remove_name}
use ws_platform.Client.{Client, write, flush, reset}
use ws_platform.TcpSocket.{timedout}
use ws_platform.ConnectionPool.{Peer, take, weak}
use ws_platform.Http.Types.{HttpStatus, method_name}
use ws_platform.Http.Request.{HttpRequest}
use ws_platform.Http.Response.{Exchange, crlf}
use ws_platform.Http.Response.Send.{headers_text}
use ws_platform.Http.Response.Send
use ws_platform.Http.Proxy.{
  HttpProxyContext, Parsed, rank, st_connecting, st_connected, st_request_prepared, st_request_sent,
  st_parsed,
}
use ws_platform.Http.Proxy.Body.{parse_response}

-- `format_args` of http/internal/request.rs.
abbrev pub arg_texts : (Text → Text) → KeyVal Text → List Text
arg_texts url_encode [] = []
arg_texts url_encode ((k, vs) ∷ args) =
    map (λ v. k.name ++ codes "=" ++ url_encode v) vs ++ arg_texts url_encode args

abbrev pub format_args : (Text → Text) → HttpRequest → Text
format_args url_encode r = join (codes "&") (arg_texts url_encode r.args)

abbrev pub query_text : (Text → Text) → HttpRequest → Text
query_text url_encode r = elim r.args [ [] ↦ [] | _ ∷ _ ↦ codes "?" ++ format_args url_encode r ]

-- A step of an exchange: what changes is the context, its connection and the request.
abbrev pub Sent : Type 0
Sent = HttpProxyContext × HttpRequest × Client

module _ (url_encode : Text → Text) ⦃e : Eq Key⦄ where
  -- What is written for a request whose header `connection` is removed.
  abbrev pub wire : HttpRequest → Text
  wire r =
      method_name r.method
      ++ codes " "
      ++ r.uri
      ++ query_text url_encode r
      ++ codes " HTTP/1.1"
      ++ crlf
      ++ headers_text r.headers
      ++ crlf
      ++ get_or r.body []

  abbrev pub without_connection : HttpRequest → HttpRequest
  without_connection r = record r { headers = remove_name (codes "connection") r.headers }

  -- Every call to `write` appends: the text is written at once. The result of the method is always `OK`.
  unfoldable pub prepare_request : HttpProxyContext → HttpRequest → Client → Sent
  unfolding write remove_name
  prepare_request ctx r c =
      if ltb (rank st_request_prepared) (rank ctx.state)
      then (ctx, r, c)
      else let r' = without_connection r in
        (record ctx { state = st_request_prepared }, r', write (wire r') c)

  abbrev pub after_flush :
      HttpProxyContext
      → HttpRequest
      → Client × Option (Result CoreError (Code × ℕ))
      → Sent × Option CoreResult
  after_flush ctx r (c, some (ok (done, n))) =
      ((record ctx { state = st_request_sent }, r, reset c), some (ok done))
  after_flush ctx r (c, some (ok (again, n))) = ((ctx, r, c), some (ok again))
  after_flush ctx r (c, some (ok (declined, n))) = ((ctx, r, c), none)
  after_flush ctx r (c, some (err e)) = ((ctx, r, c), some (throw e.text))
  after_flush ctx r (c, none) = ((ctx, r, c), none)

  abbrev pub send_prepared : Sent → Sent × Option CoreResult
  send_prepared (ctx, r, c) =
      if ltb (rank ctx.state) (rank st_request_sent)
      then after_flush ctx r (flush c)
      else ((ctx, r, c), some (ok done))

  -- No result is a panic.
  unfoldable pub send_request : HttpProxyContext → HttpRequest → Client → Sent × Option CoreResult
  unfolding prepare_request flush
  send_request ctx r c = send_prepared (prepare_request ctx r c)

  -- The step returns the result of the flush handler; no result is a panic.
  abbrev pub Step : Type 0
  Step = HttpProxyContext × Client × Exchange × Option (Result CoreError (Flush Peer))

  abbrev pub with_weak : (Peer → Flush Peer) → HttpProxyContext → Client → Exchange → Step
  with_weak f ctx c x = (ctx, c, x, elim (weak ctx.peer) [ none ↦ none | some p ↦ some (ok (f p)) ])

  -- `resp.send(status, "text/plain", Some(text))`: no filter runs.
  abbrev pub send_text : HttpStatus → Text → Exchange → Exchange
  send_text status text = Send.send (λ x. x) (λ x. x) status (codes "text/plain") (some text)

  abbrev pub after_parse : Exchange → Parsed → Step
  after_parse x (p, c, some (ok done)) =
      let (peer, left) = take p.context.peer in
      (
        record p.context { peer = left },
        c,
        record x { inner = p.response },
        some (ok (finished_with peer)),
      )
  after_parse x (p, c, some (ok again)) =
      with_weak read_more p.context c (record x { inner = p.response })
  after_parse x (p, c, some (ok declined)) = (p.context, c, record x { inner = p.response }, none)
  after_parse x (p, c, some (err e)) =
      (p.context, c, record x { inner = p.response }, some (throw e.text))
  after_parse x (p, c, none) = (p.context, c, record x { inner = p.response }, none)

  module _ (is_utf8 : Text → Bool) where
    abbrev pub after_send : Exchange → Sent × Option CoreResult → Step
    after_send x ((ctx, r, c), some (ok done)) =
        after_parse (record x { request = r })
          (parse_response is_utf8 (record { context = ctx; response = x.inner }) c)
    after_send x ((ctx, r, c), some (ok again)) =
        with_weak write_more ctx c (record x { request = r })
    after_send x ((ctx, r, c), some (ok declined)) = (ctx, c, record x { request = r }, none)
    after_send x ((ctx, r, c), some (err e)) = (ctx, c, record x { request = r }, some (err e))
    after_send x ((ctx, r, c), none) = (ctx, c, record x { request = r }, none)

    unfoldable pub proxy : ℕ → HttpProxyContext → Client → Exchange → Step
    unfolding weak timedout take Send.send send_request parse_response
    proxy now ctx c x =
        if timedout now ctx.peer.stream && leb (rank ctx.state) (rank st_parsed)
        then (
          ctx,
          c,
          send_text HttpStatus.gateway_timeout (codes "Gateway timeout") x,
          some (ok refused),
        )
        else if rank ctx.state == rank st_connecting
        then with_weak write_more (record ctx { state = st_connected }) c x
        else after_send x (send_request ctx x.request c)
