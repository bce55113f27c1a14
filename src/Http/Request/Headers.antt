-- ===== src/Http/Request/Headers.antt =====
-- http/internal/request.rs: the parser of the header lines. The locals `last` and `last_crlf` start
-- afresh at each call.
use ws_platform.Common.{
  ℕ, ◌+◌, ◌-◌, ◌*◌, ◌^◌, Text, codes, Option, none, some, Bool, true, false, ◌&&◌, [], ◌∷◌, ltb,
  leb, ◌==◌, not, if◌then◌else◌, Eq, text_eq, trim, to_ascii_lowercase,
}
use ws_platform.Error.{ok, done, HttpResult, http_throw}
use ws_platform.KeyVal.{Key, add}
use ws_platform.Client.{Client}
use ws_platform.Http.Scan.{Verdict, more, returns, scan, enough}
use ws_platform.Http.Request.{
  HttpRequest, HttpRequestParseContext, past, enter, Parsed, st_headers, st_headers_end,
}
use ws_platform.Http.Request.Line.{push, read_more}

-- `str::parse::<usize>` on 64 bits, after the sign.
abbrev pub parse_digits : ℕ → Text → Option ℕ
parse_digits n [] = some n
parse_digits n (c ∷ s) =
    let n' = n * 10 + (c - b'0') in
    let rest = parse_digits n' s in
    if leb b'0' c && leb c b'9' && ltb n' (2 ^ 64) then rest else none

abbrev pub parse_usize : Text → Option ℕ
parse_usize [] = none
parse_usize (c ∷ []) = parse_digits 0 (c ∷ [])
parse_usize (c ∷ d ∷ s) = if c == b'+' then parse_digits 0 (d ∷ s) else parse_digits 0 (c ∷ d ∷ s)

pub record HeaderState : Type 0 where
  pub request : HttpRequest
  pub last : ℕ
  pub last_crlf : Bool

abbrev pub invalid_header : HttpRequest → HeaderState → Verdict HeaderState
invalid_header r s = returns (record s { request = r }) (http_throw (codes "Invalid header line"))

-- The `match` on the name of the header; no result is its error.
unfoldable pub known_header : Text → Text → HttpRequest → Option HttpRequest
known_header name value r =
    let lower = to_ascii_lowercase name in
    if text_eq lower (codes "content-length")
    then elim (parse_usize value) [
      | some len ↦ some (record r { content_length = some len })
      | none ↦ none
    ]
    else if text_eq lower (codes "expect")
        && text_eq (to_ascii_lowercase value) (codes "100-continue")
    then some (record r { context = record r.context { expect_100_continue = true } })
    else if text_eq lower (codes "host")
    then some (record r { host = value })
    else some r

-- The arms of `b':'` and of any other byte, on the key and the value.
abbrev pub colon : HttpRequestParseContext → HttpRequestParseContext
colon p = elim p.val [
  | some v ↦ record p { val = some (push b':' v) }
  | none ↦ record p { val = some [] }
]

abbrev pub text : ℕ → HttpRequestParseContext → HttpRequestParseContext
text c p = elim p.val [
  | some v ↦ record p { val = some (push c v) }
  | none ↦ elim p.key [ some k ↦ record p { key = some (push c k) } | none ↦ p ]
]

module _ ⦃e : Eq Key⦄ where
  -- The end of a header line, with the key and the value that it has.
  unfoldable pub end_header : Text → Text → HeaderState → Verdict HeaderState
  unfolding known_header trim add
  end_header k v s =
      let name = trim k in
      let value = trim v in
      elim (known_header name value s.request) [
        | none ↦ invalid_header s.request s
        | some r ↦ more (record s {
          request = record r {
            headers = add name value r.headers;
            context = record r.context { key = some []; val = none };
          };
          last = 0x0D;
        })
      ]

  unfoldable pub step_headers : HeaderState → ℕ → Verdict HeaderState
  unfolding end_header
  step_headers s c =
      if c == 0x0A
      then (if not (s.last == 0x0D)
          then invalid_header s.request s
          else if s.last_crlf
          then returns (record s { request = enter st_headers_end s.request }) (ok done)
          else more (record s { last = 0x0A }))
      else if c == 0x0D
      then (if s.last == 0x0A
          then more (record s { last = 0x0D; last_crlf = true })
          else elim s.request.context.key [
            | none ↦ invalid_header s.request s
            | some k ↦ elim s.request.context.val [
              | none ↦ invalid_header s.request s
              | some v ↦ end_header k v s
            ]
          ])
      else if c == b':'
      then more (record s { request = record s.request { context = colon s.request.context } })
      else more
          (record s { request = record s.request { context = text c s.request.context }; last = c })

  abbrev pub start_headers : HttpRequest → HeaderState
  start_headers r = record { request = enter st_headers r; last = 0; last_crlf = false }

  abbrev pub headers_done : HeaderState × Client × Option HttpResult → Parsed
  headers_done (s, c, res) = (s.request, c, res)

  unfoldable pub parse_headers : HttpRequest → Client → Parsed
  unfolding step_headers scan
  parse_headers r c =
      if past st_headers r
      then (r, c, some (ok done))
      else headers_done (
          scan step_headers (read_more (codes "Client has closed connection on read headers"))
            (enough c) (start_headers r) c)
