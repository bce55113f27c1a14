-- ===== src/Http/Request/Line.antt =====
-- http/internal/request.rs: the parsers of the request line, one byte at a time.
use ws_platform.Common.{
  ℕ, zero, Text, codes, Option, none, some, [], ◌∷◌, ◌++◌, lookup, text_key, ◌==◌, if◌then◌else◌,
  Eq,
}
use ws_platform.Error.{
  Result, ok, err, Code, done, declined, CoreError, HttpResult, http_throw, http_fatal,
}
use ws_platform.KeyVal.{Key, add}
use ws_platform.Client.{Client}
use ws_platform.Http.Types.{method_table, protocol_table}
use ws_platform.Http.Scan.{Verdict, more, returns, scan, enough}
use ws_platform.Http.Request.{
  HttpRequest, HttpParseState, HttpRequestParseContext, Decoder, past, enter, Parsed, and_then,
  st_method, st_method_end, st_uri, st_uri_end, st_query, st_query_end, st_protocol,
  st_protocol_end,
}

-- The macro `read_more!`, for a read that brought no bytes.
abbrev pub read_more : Text → Option ℕ → Result CoreError Code → HttpResult
read_more text len (ok declined) = http_fatal text
read_more text len (ok code) = ok code
read_more text len (err e) = http_fatal e.text

abbrev pub closed_line : Text
closed_line = codes "Client has closed connection on read request line"

-- The arms of `match client.read()` of `parse_method`, with the length of the buffer after the read. The
-- panic of `len`, a missing length, is not told from the error here.
abbrev pub read_method : Option ℕ → Result CoreError Code → HttpResult
read_method (some zero) (ok declined) = ok declined
read_method len (ok declined) = http_fatal (codes "Client closed connection on read request line")
read_method len (ok code) = ok code
read_method len (err e) = http_fatal e.text

abbrev pub push : ℕ → Text → Text
push c s = s ++ c ∷ []

unfoldable pub step_method : HttpRequest → ℕ → Verdict HttpRequest
unfolding lookup
step_method r c =
    if c == b' '
    then elim (lookup r.context.method method_table) [
      | some m ↦ returns (record (enter st_method_end r) { method = m }) (ok done)
      | none ↦ returns (enter st_method_end r) (http_fatal (codes "Unsupported method"))
    ]
    else more (record r { context = record r.context { method = push c r.context.method } })

unfoldable pub parse_method : HttpRequest → Client → Parsed
unfolding step_method scan
parse_method r c =
    if past st_method r
    then (r, c, some (ok done))
    else scan step_method read_method (enough c) (enter st_method r) c

unfoldable pub step_protocol : HttpRequest → ℕ → Verdict HttpRequest
unfolding lookup
step_protocol r c =
    if c == 0x0D
    then more r
    else if c == 0x0A
    then elim (lookup r.context.protocol protocol_table) [
      | some p ↦ returns (record (enter st_protocol_end r) { protocol = p }) (ok done)
      | none ↦ returns (enter st_protocol_end r) (http_throw (codes "Unsupported protocol version"))
    ]
    else more (record r { context = record r.context { protocol = push c r.context.protocol } })

unfoldable pub parse_protocol : HttpRequest → Client → Parsed
unfolding step_protocol scan
parse_protocol r c =
    if past st_protocol r
    then (r, c, some (ok done))
    else scan step_protocol (read_more closed_line) (enough c) (enter st_protocol r) c

module _ (decoder : Decoder) where
  unfoldable pub step_uri : HttpRequest → ℕ → Verdict HttpRequest
  step_uri r c =
      let uri = decoder.from_utf8_lossy r.context.uri in
      if c == b'?'
      then returns (record (enter st_uri_end r) { uri = uri }) (ok done)
      else if c == b' '
      then returns (record (enter st_query_end r) { uri = uri; request_uri = uri }) (ok done)
      else more (record r { context = record r.context { uri = push c r.context.uri } })

  unfoldable pub parse_uri : HttpRequest → Client → Parsed
  unfolding step_uri scan
  parse_uri r c =
      if past st_uri r
      then (r, c, some (ok done))
      else scan step_uri (read_more closed_line) (enough c) (enter st_uri r) c

  module _ ⦃e : Eq Key⦄ where
    -- `self.args.entry(key).or_default().push_back(value)`, both decoded.
    unfoldable pub add_arg : Text → Text → HttpRequest → HttpRequest
    unfolding add
    add_arg k v r = record r { args = add (decoder.url_decode k) (decoder.url_decode v) r.args }

    -- The next argument is collected.
    abbrev pub next_arg : HttpParseState → HttpRequest → HttpRequest
    next_arg state r = record r {
      context = record r.context { state = state; key = some []; val = none };
    }

    abbrev pub invalid_query : HttpRequest → Verdict HttpRequest
    invalid_query r = returns r (http_throw (codes "Invalid query string"))

    -- The arm of `b' '`.
    unfoldable pub end_query : HttpRequest → Verdict HttpRequest
    unfolding add_arg
    end_query r = elim r.context.key [
      | none ↦ invalid_query r
      | some k ↦ elim r.context.val [
        | some v ↦
            let query = decoder.from_utf8_lossy r.context.query_string in
            returns
              (record (next_arg st_query_end (add_arg k v r)) {
                query_string = query;
                request_uri = r.uri ++ codes "?" ++ query;
              })
              (ok done)
        | none ↦ returns (record (next_arg st_query_end r) { request_uri = r.uri }) (ok done)
      ]
    ]

    -- The arm of `b'&'`.
    unfoldable pub end_arg : HttpRequest → Verdict HttpRequest
    unfolding add_arg
    end_arg r = elim r.context.key [
      | none ↦ invalid_query r
      | some k ↦ elim r.context.val [
        | some v ↦ more (next_arg r.context.state (add_arg k v r))
        | none ↦ invalid_query r
      ]
    ]

    -- The last arm, less the byte that it adds to the query string.
    abbrev pub collect : ℕ → HttpRequestParseContext → HttpRequestParseContext
    collect c p = elim p.val [
      | some v ↦ record p { val = some (push c v) }
      | none ↦ elim p.key [ some k ↦ record p { key = some (push c k) } | none ↦ p ]
    ]

    unfoldable pub step_args : HttpRequest → ℕ → Verdict HttpRequest
    unfolding end_query end_arg
    step_args r c =
        if c == b'='
        then more (record r { args = []; context = record r.context { val = some [] } })
        else if c == b' '
        then end_query r
        else if c == b'&'
        then end_arg r
        else more (record r {
          context = record (collect c r.context) { query_string = push c r.context.query_string };
        })

    unfoldable pub parse_args : HttpRequest → Client → Parsed
    unfolding step_args scan
    parse_args r c =
        if past st_query r
        then (r, c, some (ok done))
        else scan step_args (read_more closed_line) (enough c) (enter st_query r) c

    unfoldable pub parse_request_line : HttpRequest → Client → Parsed
    unfolding parse_method parse_uri parse_args parse_protocol
    parse_request_line r c =
        and_then (parse_method r c)
          λ r c. and_then (parse_uri r c) λ r c. and_then (parse_args r c) λ r c. parse_protocol r c
