-- ===== src/Http/Response/Send.antt =====
-- http/internal/response.rs: how the headers and the body are written to the connection.
use ws_platform.Common.{
  Text, codes, Option, none, some, true, List, [], ◌∷◌, ◌++◌, length, if◌then◌else◌, Eq, get_or,
}
use mathlib.Core.Option
use ws_platform.Error.{ok, done, HttpResult, http_throw}
use ws_platform.KeyVal.{Key, KeyVal}
use ws_platform.Client.{Client, write}
use ws_platform.Http.Types.{HttpStatus, protocol_name, status_text}
use ws_platform.Http.Encoding.{is_chunked}
use ws_platform.Http.Response.{
  HttpResponse, Exchange, set_status, send_no_content, set_content_length, format_digits,
  hexadecimal, crlf, set_header, set_content_type, set_connection, adopt_length, frame,
}

abbrev pub write_some : Option Text → Client → Client
write_some none c = c
write_some (some body) c = write body c

module _ ⦃e : Eq Key⦄ where
  -- The header lines, in the order of the table.
  abbrev pub header_lines : Key → List Text → Text
  header_lines k [] = []
  header_lines k (v ∷ ll) = k.name ++ codes ": " ++ v ++ crlf ++ header_lines k ll

  abbrev pub headers_text : KeyVal Text → Text
  headers_text [] = []
  headers_text ((k, ll) ∷ headers) = header_lines k ll ++ headers_text headers

  abbrev pub status_line : HttpResponse → Text
  status_line r =
      codes "HTTP/" ++ protocol_name r.protocol ++ codes " " ++ status_text r.status ++ crlf

  -- The end of `flush_headers`.
  unfoldable pub write_headers : Exchange → Exchange
  unfolding write
  write_headers x = record x {
    client =
        write crlf (write (headers_text x.inner.headers) (write (status_line x.inner) x.client));
    inner = record x.inner { headers_sent = true };
  }

  abbrev pub on_inner : (HttpResponse → HttpResponse) → Exchange → Exchange
  on_inner f x = record x { inner = f x.inner }

  -- The argument is what the header filters do to the response, in the round 0 and in the round 1.
  unfoldable pub flush_headers : (Exchange → Exchange) → (Exchange → Exchange) → Exchange → Exchange
  unfolding set_connection adopt_length frame write_headers
  flush_headers filters0 filters1 x =
      if x.inner.headers_sent
      then x
      else let started =
          on_inner
            (λ r.
              set_connection x.request (set_header (codes "Server") (codes "WS-Platform/0.0.1") r))
            x in
        let adopted = on_inner adopt_length (filters0 started) in
        write_headers (filters1 (on_inner (frame adopted.request) adopted))

  -- The part of `send_body_chunk` that follows the headers, with what the body filters do to the data.
  unfoldable pub put_chunk :
      (Option Text → Option Text) → Option Text → Exchange → Exchange × HttpResult
  unfolding write format_digits
  put_chunk body_filters text x =
      let is_chunk = is_chunked x.inner.transfer_encoding in
      let size = get_or (Option.map length text) 0 in
      let c = if is_chunk then write (hexadecimal size ++ crlf) x.client else x.client in
      let c' = write_some (body_filters text) c in
      (record x { client = if is_chunk then write crlf c' else c' }, ok done)

  unfoldable pub send_body_chunk :
      (Exchange → Exchange)
      → (Exchange → Exchange)
      → (Option Text → Option Text)
      → Option Text
      → Exchange
      → Exchange × HttpResult
  unfolding flush_headers put_chunk
  send_body_chunk filters0 filters1 body_filters text x =
      if x.inner.body_sent
      then (x, http_throw (codes "send_body_chunk: Body already sent"))
      else put_chunk body_filters text (flush_headers filters0 filters1 x)

  -- `flush_body`; a failure of `send_body_chunk` would be a panic, but the body is not sent here.
  unfoldable pub flush_body :
      (Exchange → Exchange)
      → (Exchange → Exchange)
      → (Option Text → Option Text)
      → Exchange
      → Exchange
  unfolding send_body_chunk flush_headers
  flush_body filters0 filters1 body_filters x = if x.inner.body_sent then x else elim x.inner.body [
    | some body ↦
        let taken = on_inner (λ r. set_content_length (length body) (record r { body = none })) x in
        let (sent, res) = send_body_chunk filters0 filters1 body_filters (some body) taken in
        on_inner (λ r. record r { body_sent = true; body = some body }) sent
    | none ↦ flush_headers filters0 filters1 (on_inner (λ r. record r { body = none }) x)
  ]

  -- `send`.
  unfoldable pub send :
      (Exchange → Exchange)
      → (Exchange → Exchange)
      → HttpStatus
      → Text
      → Option Text
      → Exchange
      → Exchange
  unfolding flush_headers
  send filters0 filters1 status content_type text x =
      let x' = on_inner (set_status status) x in
      elim text [
        | some t ↦
            on_inner
              (λ r. record (set_content_length (length t) (set_content_type content_type r)) {
                body = some t;
              })
              x'
        | none ↦ elim status [
          | HttpStatus.no_content ↦ on_inner send_no_content x'
          | _ ↦ flush_headers filters0 filters1 x'
        ]
      ]
