-- ===== src/Tests/Proxies.antt =====
-- http/plugins/proxy.rs at concrete inputs.
use ws_platform.Common.{
  ◌≢◌, ℕ, ◌≡◌, refl, Text, codes, Option, none, some, true, false, [], ◌∷◌, ◌++◌, arith, ◌⊎◌, inl,
  inr, ◌+◌,
}
use ws_platform.Error.{ok, throw, CoreResult}
use ws_platform.Client.{Client, arrived, accepts, write, flush}
use ws_platform.Client.Signals.{bytes_of, ahead}
use ws_platform.Http.Types.{HttpStatus, http11}
use ws_platform.Http.Request.{HttpRequest}
use ws_platform.Http.Request
use ws_platform.Http.Response.{with_status, Exchange, make_chunked}
use ws_platform.ConnectionPool.{Peer}
use ws_platform.Http.Proxy
use ws_platform.Http.Scan
use ws_platform.Buffer
use ws_platform.Buffer.Laws
use ws_platform.Http.Proxy.{
  Proxied, HttpProxyContext, st_headers_end, st_connected, st_request_prepared,
}
use ws_platform.Http.Proxy.Body.{read_body, parse_hex}
use ws_platform.Http.Proxy.Send.{Sent, send_request, wire}
use ws_platform.Http.Proxy.Follows.{Follows, parse_head, head_signals, parse_head-Follows}
use ws_platform.Http.Proxy.Route.{Dial, Dialled, ProxyContext, connect_of, flush_handler, Stored}
use ws_platform.Http.Proxy.Retry.{
  address, upstream, Tries, connect_of-Tries, connect_of-unreachable, Ended, flush_handler-Ended,
}
use ws_platform.Http.Proxy.Twice.{send_request-twice}
use ws_platform.Http.Proxy.Faults.{read_body-huge}
use ws_platform.Http.Proxy.LengthBody.{LengthRead, read_body-LengthRead}
use ws_platform.Http.Proxy.Chunks.{IsChunk, IsLine}
use ws_platform.Http.Proxy.ChunkedBody.{WholeBody, read_body-WholeBody}
use ws_platform.Tests.Shared.{ascii_key, connection, empty-IsValid, holding, holding-IsValid}

abbrev request : HttpRequest
request = record (Request.new (codes "h")) { protocol = http11; uri = codes "/x" }

abbrev server : Peer
server = record {
  upstream = none;
  pool = none;
  active = none;
  keepalive = none;
  token = 1;
  userdata = false;
  requests = 0;
  stream = record {
    stream = some (record { fd = 6; failing = false });
    owned = true;
    local_addr = codes "127.0.0.1:5";
    remote_addr = codes "127.0.0.1:80";
    exp = none;
  };
}

-- A response of which the headers are read, in chunks: `2\r\nab\r\nA\r\n…`.
abbrev chunked_response : Proxied
chunked_response = record {
  context = record (Proxy.new server) { state = st_headers_end };
  response = record (make_chunked (with_status request HttpStatus.ok)) { transfer_encoding = 1 };
}

abbrev crlf : Text
crlf = 13 ∷ 10 ∷ []

abbrev two_reads : Client
two_reads = holding (codes "2" ++ crlf ++ codes "a") (
    connection
      (arrived (
          codes "b"
          ++ crlf
          ++ codes "3"
          ++ crlf
          ++ codes "cde"
          ++ crlf
          ++ codes "0"
          ++ crlf
          ++ crlf)
        ∷ [])
      [])

chunk_run : (read_body chunked_response two_reads).0.response.body ≡ some (codes "abcde")
unfolding read_body Scan.drain Buffer.at_end Buffer.getc Buffer.grow Buffer.reset Buffer.filled
chunk_run = refl

two_reads-IsValid : Laws.IsValid two_reads.buf
two_reads-IsValid = holding-IsValid (codes "2" ++ crlf ++ codes "a") (connection [] [])

size_line : (c : ℕ) → c ≡ b'0' ⊎ c ≡ b'2' ⊎ c ≡ b'3' → IsLine (c ∷ [])
size_line c h = (((λ e. omega (arith, h, e)), (λ e. omega (arith, h, e))), tt)

size_two-IsChunk : IsChunk (codes "2", codes "ab")
unfolding parse_hex
size_two-IsChunk = record {
  line = size_line b'2' (inr (inl refl));
  size = refl;
  full = omega arith;
  small = omega arith;
}

size_three-IsChunk : IsChunk (codes "3", codes "cde")
unfolding parse_hex
size_three-IsChunk = record {
  line = size_line b'3' (inr (inr refl));
  size = refl;
  full = omega arith;
  small = omega arith;
}

read_body-WholeBody_example :
    WholeBody (codes "abcde") (bytes_of crlf) (read_body chunked_response two_reads)
unfolding parse_hex
read_body-WholeBody_example =
    read_body-WholeBody ((codes "2", codes "ab") ∷ (codes "3", codes "cde") ∷ []) (codes "0")
      (bytes_of crlf) chunked_response two_reads (size_two-IsChunk, (size_three-IsChunk, tt))
      (size_line b'0' (inl refl)) refl two_reads-IsValid refl refl refl refl refl refl

abbrev head_reads : Client
head_reads =
    connection
      (arrived (codes "HTTP/1.1 20")
        ∷ arrived (codes "0 OK" ++ crlf ++ codes "a: b" ++ crlf ++ crlf)
        ∷ [])
      []

abbrev fresh : Proxied
fresh = record { context = Proxy.new server; response = with_status request HttpStatus.undefined }

parse_head-Follows_example :
    Follows
      (parse_head (λ t. true) ⦃e = ascii_key⦄ fresh head_reads)
      (head_signals (λ t. true) ⦃e = ascii_key⦄ fresh (ahead head_reads))
parse_head-Follows_example =
    parse_head-Follows (λ t. true) ⦃e = ascii_key⦄ fresh head_reads empty-IsValid

-- Upstreams that count the attempts: no address is reached, and every name is.
abbrev counting : Dial ℕ Text
counting = record {
  fixed = λ addr w. (w + 1, throw (codes "refused"));
  named = λ name r w. (w + 1, ok (server, connection [] []));
}

abbrev backed : ProxyContext Text
backed = record {
  primary = record { pass = some (codes "127.0.0.1:80"); upstream = none };
  backup = record { pass = none; upstream = some (codes "pool") };
}

connect_of-Tries_example :
    Tries counting (address (codes "127.0.0.1:80")) (upstream (codes "pool")) backed
connect_of-Tries_example =
    connect_of-Tries counting backed (address (codes "127.0.0.1:80")) (upstream (codes "pool")) refl
      refl

abbrev alone : ProxyContext Text
alone = record backed { backup = record { pass = none; upstream = none } }

connect_of-unreachable_example :
    (f : HttpRequest → ℕ → ℕ × Option Dialled) × (connect_of counting alone ≡ ok f)
    × (f request 0 ≡ (1, none))
connect_of-unreachable_example =
    connect_of-unreachable counting alone (codes "127.0.0.1:80") request 0 1
      (record { text = codes "refused" }) refl refl refl refl refl

abbrev exchange : Exchange
exchange = record {
  request = request;
  inner = with_status request HttpStatus.undefined;
  client = connection [] [];
}

-- A server that closes the connection before its status.
abbrev closing : Stored
closing = some (
  record (Proxy.new server) { state = st_connected },
  connection (arrived [] ∷ []) (accepts 1000 ∷ []),
)

abbrev reach : HttpRequest → ℕ → ℕ × Option Dialled
reach r w = (w + 1, some (ok (server, connection [] [])))

flush_handler-Ended_example :
    Ended
      (λ t. t)
      ⦃e = ascii_key⦄
      (λ t. true)
      0
      reach
      (flush_handler (λ t. t) ⦃e = ascii_key⦄ (λ t. true) 0 reach 2 closing exchange 0).3
flush_handler-Ended_example =
    flush_handler-Ended (λ t. t) ⦃e = ascii_key⦄ (λ t. true) 0 reach 0 closing exchange 0

-- A socket that takes five bytes, and then everything.
abbrev slow : Client
slow = connection [] (accepts 5 ∷ [])

abbrev unprepared : HttpProxyContext
unprepared = record (Proxy.new server) { state = st_connected }

abbrev first_call : Sent × Option CoreResult
first_call = send_request (λ t. t) ⦃e = ascii_key⦄ unprepared request slow

abbrev second_call : Sent × Option CoreResult
second_call =
    let (ctx, r, c) = first_call.0 in
    send_request (λ t. t) ⦃e = ascii_key⦄ ctx r (record c { outgoing = accepts 1000 ∷ [] })

send_request-twice_example :
    second_call.0.2.sent
    ≡ wire (λ t. t) ⦃e = ascii_key⦄ request ++ wire (λ t. t) ⦃e = ascii_key⦄ request
unfolding send_request flush write Buffer.extend Buffer.unsent Buffer.wrote
    ws_platform.KeyVal.remove_name ws_platform.Client.Flush.pending
send_request-twice_example =
    send_request-twice (λ t. t) ⦃e = ascii_key⦄ unprepared first_call.0.0 second_call.0.0 request
      first_call.0.1 second_call.0.1 slow first_call.0.2 second_call.0.2 (accepts 1000 ∷ [])
      (record { writable = record { written = omega arith; stored = omega arith }; full = refl })
      (omega arith) refl refl

abbrev huge_chunk : Client
huge_chunk = holding (codes "ffffffffffffffff" ++ crlf ++ codes "x") (connection [] [])

huge_chunk-IsValid : Laws.IsValid huge_chunk.buf
huge_chunk-IsValid =
    holding-IsValid (codes "ffffffffffffffff" ++ crlf ++ codes "x") (connection [] [])

f_line : (c : ℕ) → c ≡ b'f' → (c ≢ 13) × (c ≢ 10)
f_line c h = ((λ e. omega (arith, h, e)), (λ e. omega (arith, h, e)))

read_body-huge_example : (read_body chunked_response huge_chunk).2 ≡ none
unfolding parse_hex
read_body-huge_example =
    let f = f_line b'f' refl in
    read_body-huge (codes "ffffffffffffffff") b'x' [] chunked_response huge_chunk
      (f, (f, (f, (f, (f, (f, (f, (f, (f, (f, (f, (f, (f, (f, (f, (f, tt)))))))))))))))) refl
      huge_chunk-IsValid refl refl refl refl refl

abbrev measured_response : Proxied
measured_response = record chunked_response {
  response = record (with_status request HttpStatus.ok) { content_length = some 4 };
}

abbrev four_bytes : Client
four_bytes = holding (codes "ab") (connection (arrived (codes "cdef") ∷ []) [])

four_bytes-IsValid : Laws.IsValid four_bytes.buf
four_bytes-IsValid = holding-IsValid (codes "ab") (connection [] [])

measured_run : (read_body measured_response four_bytes).0.response.body ≡ some (codes "abcd")
unfolding read_body Buffer.grow Buffer.reset Buffer.filled Buffer.chunk
measured_run = refl

read_body-LengthRead_example :
    LengthRead 4 [] (ahead four_bytes) (read_body measured_response four_bytes)
read_body-LengthRead_example =
    read_body-LengthRead 4 measured_response four_bytes four_bytes-IsValid refl refl (omega arith)
