-- ===== src/Tests/Requests.antt =====
-- The parsers of a request, and the connection below them, on given sockets.
use ws_platform.Common.{
  Text, codes, none, some, ◌≡◌, ◌≢◌, refl, [], ◌∷◌, ◌++◌, take, drop, arith, replicate, text_key,
}
use ws_platform.Error.{ok, done}
use ws_platform.Buffer
use ws_platform.Buffer.{Buffer}
use ws_platform.Buffer.Laws.{IsValid}
use ws_platform.Client.{Client, Incoming, arrived, accepts, interrupted, read, flush}
use ws_platform.Client.Signals.{signals, ahead, Delivers, read-Delivers}
use ws_platform.Client.Flush.{Flushed, flush-Flushed}
use ws_platform.Http.Request.{HttpRequest, new, enter, st_query_end}
use ws_platform.Http.Request.Line.{parse_request_line}
use ws_platform.Http.Request.Body.{read_body, parse}
use ws_platform.Http.Request.Laws.{Follows, line_signals, parse_request_line-Follows}
use ws_platform.Http.Request.Complete.{BodyRead, sofar, read_body-BodyRead, parse-returns}
use ws_platform.Http.Request.Faults.{read_body-overlong}
use ws_platform.Tests.Shared.{
  ascii_key, plain, connection, empty-IsValid, holding, holding-IsValid, holding-IsWritable,
}

abbrev crlf : Text
crlf = 13 ∷ 10 ∷ []

abbrev fresh : HttpRequest
fresh = new (codes "10.0.0.1:80")

abbrev line : Text
line = codes "GET /p HTTP/1.1" ++ crlf

-- The same bytes in one read and in two.
abbrev whole : Client
whole = connection (arrived line ∷ []) []

abbrev halves : Client
halves =
    connection (arrived (take 6 line) ∷ Incoming.failed interrupted ∷ arrived (drop 6 line) ∷ []) []

parse-returns_example : (parse plain fresh halves).2 ≢ none
parse-returns_example = parse-returns plain fresh halves empty-IsValid

parse_request_line-Follows_example :
    Follows (parse_request_line plain fresh halves) (line_signals plain fresh (ahead halves))
parse_request_line-Follows_example = parse_request_line-Follows plain fresh halves empty-IsValid

-- A request whose request line is parsed.
abbrev at_headers : HttpRequest
at_headers = enter st_query_end fresh

abbrev header_lines : Text
header_lines = codes "Content-Length: 3" ++ crlf ++ crlf

abbrev headers_whole : Client
headers_whole = connection (arrived header_lines ∷ []) []

abbrev headers_halves : Client
headers_halves = connection (arrived (take 4 header_lines) ∷ arrived (drop 4 header_lines) ∷ []) []

-- A request whose headers announce three bytes.
abbrev at_body : HttpRequest
at_body = record at_headers { content_length = some 3 }

abbrev body_client : Client
body_client = holding (codes "a") (connection (arrived (codes "bc") ∷ []) [])

read_body-BodyRead_example :
    BodyRead 3
      (sofar at_body body_client)
      (signals body_client.incoming)
      (read_body at_body body_client)
read_body-BodyRead_example =
    read_body-BodyRead 3 at_body body_client
      (holding-IsValid (codes "a") (connection (arrived (codes "bc") ∷ []) [])) refl refl
      (omega arith)

-- The body is complete after the second read.
body_run : (read_body at_body body_client).0.body ≡ some (codes "abc")
unfolding read_body Buffer.tail read Buffer.reset Buffer.grow Buffer.filled
body_run = refl

abbrev long_client : Client
long_client = holding (codes "abcG") (connection [] [])

read_body-overlong_example : (read_body at_body long_client).2 ≢ some (ok done)
read_body-overlong_example =
    read_body-overlong 3 at_body long_client (holding-IsValid (codes "abcG") (connection [] []))
      refl refl (omega arith) (omega arith)

abbrev query_client : Client
query_client = connection (arrived (codes "a=1&b=2 ") ∷ []) []

abbrev replies : Client
replies = connection [] (accepts 2 ∷ accepts 9 ∷ [])

abbrev sender : Client
sender = holding (codes "reply") replies

flush-Flushed_example : Flushed sender (flush sender)
flush-Flushed_example = flush-Flushed sender (holding-IsWritable (codes "reply") replies)

-- A buffer with a byte received and room behind it.
abbrev roomy : Client
roomy = record (connection [] []) {
  buf = record { bytes = codes "G" ++ replicate 7 0; rpos = 0; wpos = 0; end = 1 };
}

read-Delivers_example :
    IsValid (read halves).0.buf
    × Delivers
        (signals halves.incoming)
        (read halves).0.buf
        (read halves).0.incoming
        (read halves).1
read-Delivers_example = read-Delivers halves
