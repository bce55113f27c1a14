-- ===== src/Tests/Servers.antt =====
-- http/server.rs at concrete inputs.
use ws_platform.Common.{◌≡◌, refl, codes, some, Text, [], ◌∷◌, ◌++◌}
use ws_platform.Error.{ok, done}
use ws_platform.Client.{Client, arrived}
use ws_platform.Http.Types.{HttpStatus}
use ws_platform.Http.Request.{HttpRequest}
use ws_platform.Http.Request
use ws_platform.Http.Request.Body.{parse}
use ws_platform.Http.Response.{with_status}
use ws_platform.Http.Server.{Handler, parse_request, checked}
use ws_platform.Http.Server.Answers.{Answered, parse-Answered}
use ws_platform.Tests.Shared.{ascii_key, connection, empty-IsValid, plain}

abbrev request : HttpRequest
request = Request.new (codes "h")

abbrev crlf : Text
crlf = 13 ∷ 10 ∷ []

-- A header line without a colon.
abbrev malformed : Client
malformed = connection (arrived (codes "GET /x HTTP/1.1" ++ crlf ++ codes "a" ++ crlf) ∷ []) []

abbrev no_content : Handler
no_content r c = record { request = r; inner = with_status r HttpStatus.no_content; client = c }

parse-Answered_example :
    Answered ⦃e = ascii_key⦄ no_content (parse plain ⦃e = ascii_key⦄ request malformed)
parse-Answered_example =
    parse-Answered plain ⦃e = ascii_key⦄ no_content request malformed refl empty-IsValid

malformed_run :
    let (r, c, res) = parse_request ⦃e = ascii_key⦄ plain request malformed in
    (res ≡ some (ok done))
    × ((checked ⦃e = ascii_key⦄ no_content r c).inner.status ≡ HttpStatus.bad_request)
unfolding parse_request checked ws_platform.Http.Scan.drain ws_platform.Buffer.grow
    ws_platform.Buffer.reset ws_platform.Buffer.filled ws_platform.Buffer.at_end
    ws_platform.Buffer.getc
malformed_run = (refl, refl)
