-- ===== src/Tests/Responses.antt =====
-- Responses with and without a content length.
use ws_platform.Common.{none, [], true, codes, some, ◌≡◌, refl}
use ws_platform.Http.Types.{http11, HttpStatus}
use ws_platform.Http.Request.{HttpRequest}
use ws_platform.Http.Request
use ws_platform.Http.Response
use ws_platform.Http.Response.{HttpResponse, with_status, append_body, frame}
use ws_platform.Http.Response.{Exchange}
use ws_platform.Http.Response.Send.{send_body_chunk}
use ws_platform.Http.Response.Wire.{IsSending, ChunkAdded, send_body_chunk-ChunkAdded}
use ws_platform.Http.Response.Framing.{Framed, frame-Framed}
use ws_platform.Tests.Shared.{ascii_key, connection, holding, holding-IsWritable}

abbrev request : HttpRequest
request = record (Request.new (codes "h")) { protocol = http11 }

abbrev response : HttpResponse
response = record (with_status request HttpStatus.ok) {
  content_length = some 12;
  body = some (codes "ab");
}

frame-Framed_example : Framed ⦃e = ascii_key⦄ http11 (frame ⦃e = ascii_key⦄ request response)
frame-Framed_example = frame-Framed ⦃e = ascii_key⦄ request response refl

hexadecimal_run : Response.hexadecimal 26 ≡ codes "1a"
unfolding Response.format_digits
hexadecimal_run = refl

-- A response in chunks, whose headers wait in the buffer.
abbrev streaming : Exchange
streaming = record {
  request = request;
  inner = record response { transfer_encoding = 1; content_length = none; headers_sent = true };
  client = holding (codes "head") (connection [] []);
}

streaming-IsSending : IsSending streaming.client
streaming-IsSending = record {
  writable = holding-IsWritable (codes "head") (connection [] []);
  full = refl;
}

send_body_chunk-ChunkAdded_example :
    ChunkAdded
      (codes "data")
      streaming
      (send_body_chunk ⦃e = ascii_key⦄ (λ x. x) (λ x. x) (λ t. t) (some (codes "data")) streaming)
send_body_chunk-ChunkAdded_example =
    send_body_chunk-ChunkAdded ⦃e = ascii_key⦄ (λ x. x) (λ x. x) (codes "data") streaming
      streaming-IsSending refl refl refl
