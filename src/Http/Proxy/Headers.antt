-- ===== src/Http/Proxy/Headers.antt =====
-- http/plugins/proxy.rs: the header lines of the response of an upstream. The locals `last` and `last_crlf`
-- start afresh at each call.
use ws_platform.Common.{
  ℕ, Text, codes, Option, none, some, Bool, true, false, ◌&&◌, [], ◌==◌, not, if◌then◌else◌, Eq,
  text_eq, trim, to_ascii_lowercase,
}
use ws_platform.Error.{ok, done, HttpResult, http_throw}
use ws_platform.KeyVal.{Key, add}
use ws_platform.Client.{Client}
use ws_platform.Http.Scan.{Verdict, more, returns, scan, enough}
use ws_platform.Http.Request.Line.{push, read_more}
use ws_platform.Http.Request.Headers.{parse_usize}
use ws_platform.Http.Response.{HttpResponse, set_content_length, make_chunked}
use ws_platform.Http.Proxy.{
  HttpProxyContext, Proxied, past, enter, release, Parsed, st_headers, st_headers_end,
}

pub record HeaderState : Type 0 where
  pub proxied : Proxied
  pub last : ℕ
  pub last_crlf : Bool

abbrev pub invalid_header : HeaderState → Verdict HeaderState
invalid_header s = returns s (http_throw (codes "Invalid header line"))

abbrev pub on_response : (HttpResponse → HttpResponse) → Proxied → Proxied
on_response f p = record p { response = f p.response }

module _ ⦃e : Eq Key⦄ where
  -- The `match` on the name of the header; no result is its error.
  unfoldable pub known_header : Text → Text → Proxied → Option Proxied
  unfolding add
  known_header name value p =
      let lower = to_ascii_lowercase name in
      if text_eq lower (codes "content-length")
      then elim (parse_usize value) [
        | some len ↦ some (on_response (set_content_length len) p)
        | none ↦ none
      ]
      else if text_eq lower (codes "connection")
      then some (if text_eq (to_ascii_lowercase value) (codes "close") then release p else p)
      else if text_eq lower (codes "server")
      then some p
      else if text_eq lower (codes "transfer-encoding")
          && text_eq (to_ascii_lowercase value) (codes "chunked")
      then some (on_response make_chunked p)
      else some (on_response (λ r. record r { headers = add name value r.headers }) p)

  -- The end of a header line, with the key and the value that it has.
  unfoldable pub end_header : Text → Text → HeaderState → Verdict HeaderState
  unfolding known_header trim
  end_header k v s = elim (known_header (trim k) (trim v) s.proxied) [
    | none ↦ invalid_header s
    | some p ↦ more (record s {
      proxied = record p { context = record p.context { key = some []; val = none } };
      last = 0x0D;
    })
  ]

  abbrev pub colon : HttpProxyContext → HttpProxyContext
  colon p = elim p.val [
    | some v ↦ record p { val = some (push b':' v) }
    | none ↦ record p { val = some [] }
  ]

  abbrev pub text : ℕ → HttpProxyContext → HttpProxyContext
  text c p = elim p.val [
    | some v ↦ record p { val = some (push c v) }
    | none ↦ elim p.key [ some k ↦ record p { key = some (push c k) } | none ↦ p ]
  ]

  abbrev pub on_context : (HttpProxyContext → HttpProxyContext) → HeaderState → HeaderState
  on_context f s = record s { proxied = record s.proxied { context = f s.proxied.context } }

  unfoldable pub step_headers : HeaderState → ℕ → Verdict HeaderState
  unfolding end_header
  step_headers s c =
      if c == 0x0A
      then (if not (s.last == 0x0D)
          then invalid_header s
          else if s.last_crlf
          then returns (record s { proxied = enter st_headers_end s.proxied }) (ok done)
          else more (record s { last = 0x0A }))
      else if c == 0x0D
      then (if s.last == 0x0A
          then more (record s { last = 0x0D; last_crlf = true })
          else elim s.proxied.context.key [
            | none ↦ invalid_header s
            | some k ↦ elim s.proxied.context.val [
              | none ↦ invalid_header s
              | some v ↦ end_header k v s
            ]
          ])
      else if c == b':'
      then more (on_context colon s)
      else more (record (on_context (text c) s) { last = c })

  abbrev pub start_headers : Proxied → HeaderState
  start_headers p = record { proxied = enter st_headers p; last = 0; last_crlf = false }

  abbrev pub headers_done : HeaderState × Client × Option HttpResult → Parsed
  headers_done (s, c, res) = (s.proxied, c, res)

  unfoldable pub parse_headers : Proxied → Client → Parsed
  unfolding step_headers scan
  parse_headers p c =
      if past st_headers p
      then (p, c, some (ok done))
      else headers_done (
          scan step_headers (read_more (codes "Client has closed connection on read headers"))
            (enough c) (start_headers p) c)
