-- ===== src/Http/Types.antt =====
-- http/mod.rs (the enumerations), http/internal/request.rs and http/internal/response.rs (their text
-- forms). Texts are ASCII.
pub mod Laws
use ws_platform.Common.{
  ℕ, Text, codes, Option, none, some, List, [], ◌∷◌, ◌++◌, lookup, text_key, get_or, ◌==◌,
  if◌then◌else◌,
}

pub data HttpMethod : Type 0 where
  unsupported get head post put delete options mkcol copy move propfind proppatch lock : HttpMethod
  unlock patch trace : HttpMethod

-- The texts that name a method, with the methods.
abbrev pub method_table : List (Text × HttpMethod)
method_table =
    (codes "GET", HttpMethod.get)
    ∷ (codes "HEAD", HttpMethod.head)
    ∷ (codes "POST", HttpMethod.post)
    ∷ (codes "PUT", HttpMethod.put)
    ∷ (codes "DELETE", HttpMethod.delete)
    ∷ (codes "OPTIONS", HttpMethod.options)
    ∷ (codes "MKCOL", HttpMethod.mkcol)
    ∷ (codes "COPY", HttpMethod.copy)
    ∷ (codes "MOVE", HttpMethod.move)
    ∷ (codes "PROPFIND", HttpMethod.propfind)
    ∷ (codes "PROPPATCH", HttpMethod.proppatch)
    ∷ (codes "LOCK", HttpMethod.lock)
    ∷ (codes "UNLOCK", HttpMethod.unlock)
    ∷ (codes "PATCH", HttpMethod.patch)
    ∷ (codes "TRACE", HttpMethod.trace)
    ∷ []

-- `impl From<String> for HttpMethod`.
unfoldable pub method_of : Text → HttpMethod
unfolding lookup
method_of s = get_or (lookup s method_table) HttpMethod.unsupported

-- `impl Display for HttpMethod`.
abbrev pub method_name : HttpMethod → Text
method_name HttpMethod.unsupported = codes "UNSUPPORTED"
method_name HttpMethod.get = codes "GET"
method_name HttpMethod.head = codes "HEAD"
method_name HttpMethod.post = codes "POST"
method_name HttpMethod.put = codes "PUT"
method_name HttpMethod.delete = codes "DELETE"
method_name HttpMethod.options = codes "OPTIONS"
method_name HttpMethod.mkcol = codes "MKCOL"
method_name HttpMethod.copy = codes "COPY"
method_name HttpMethod.move = codes "MOVE"
method_name HttpMethod.propfind = codes "PROPFIND"
method_name HttpMethod.proppatch = codes "PROPPATCH"
method_name HttpMethod.lock = codes "LOCK"
method_name HttpMethod.unlock = codes "UNLOCK"
method_name HttpMethod.patch = codes "PATCH"
method_name HttpMethod.trace = codes "TRACE"

pub data HttpProtocol : Type 0 where
  http10 http11 : HttpProtocol

-- `impl Display for HttpProtocol`.
abbrev pub protocol_name : HttpProtocol → Text
protocol_name http10 = codes "1.0"
protocol_name http11 = codes "1.1"

-- The versions that a request may name.
abbrev pub protocol_table : List (Text × HttpProtocol)
protocol_table = (codes "HTTP/1.0", http10) ∷ (codes "HTTP/1.1", http11) ∷ []

pub data HttpStatus : Type 0 where
  undefined continue switching_protocols ok created accepted no_content partial_content : HttpStatus
  special_response moved_permanently moved_temporarily see_other not_modified : HttpStatus
  temporary_redirect permanent_redirect bad_request unauthorized payment_required : HttpStatus
  forbidden not_found not_allowed not_acceptable request_timeout conflict gone : HttpStatus
  upgrade_required too_many_requests close illegal internal_server_error : HttpStatus
  method_not_implemented bad_gateway service_unavailable gateway_timeout : HttpStatus
  version_not_supported insufficient_storage : HttpStatus

-- The discriminants of the enumeration.
abbrev pub status_code : HttpStatus → ℕ
status_code HttpStatus.undefined = 0
status_code HttpStatus.continue = 100
status_code HttpStatus.switching_protocols = 101
status_code HttpStatus.ok = 200
status_code HttpStatus.created = 201
status_code HttpStatus.accepted = 202
status_code HttpStatus.no_content = 204
status_code HttpStatus.partial_content = 206
status_code HttpStatus.special_response = 300
status_code HttpStatus.moved_permanently = 301
status_code HttpStatus.moved_temporarily = 302
status_code HttpStatus.see_other = 303
status_code HttpStatus.not_modified = 304
status_code HttpStatus.temporary_redirect = 307
status_code HttpStatus.permanent_redirect = 308
status_code HttpStatus.bad_request = 400
status_code HttpStatus.unauthorized = 401
status_code HttpStatus.payment_required = 402
status_code HttpStatus.forbidden = 403
status_code HttpStatus.not_found = 404
status_code HttpStatus.not_allowed = 405
status_code HttpStatus.not_acceptable = 406
status_code HttpStatus.request_timeout = 408
status_code HttpStatus.conflict = 409
status_code HttpStatus.gone = 410
status_code HttpStatus.upgrade_required = 426
status_code HttpStatus.too_many_requests = 429
status_code HttpStatus.close = 444
status_code HttpStatus.illegal = 451
status_code HttpStatus.internal_server_error = 500
status_code HttpStatus.method_not_implemented = 501
status_code HttpStatus.bad_gateway = 502
status_code HttpStatus.service_unavailable = 503
status_code HttpStatus.gateway_timeout = 504
status_code HttpStatus.version_not_supported = 505
status_code HttpStatus.insufficient_storage = 507

-- The codes that `From<i64>` lists.
abbrev pub status_table : List (ℕ × HttpStatus)
status_table =
    (100, HttpStatus.continue)
    ∷ (101, HttpStatus.switching_protocols)
    ∷ (200, HttpStatus.ok)
    ∷ (201, HttpStatus.created)
    ∷ (202, HttpStatus.accepted)
    ∷ (204, HttpStatus.no_content)
    ∷ (206, HttpStatus.partial_content)
    ∷ (300, HttpStatus.special_response)
    ∷ (301, HttpStatus.moved_permanently)
    ∷ (302, HttpStatus.moved_temporarily)
    ∷ (303, HttpStatus.see_other)
    ∷ (304, HttpStatus.not_modified)
    ∷ (307, HttpStatus.temporary_redirect)
    ∷ (308, HttpStatus.permanent_redirect)
    ∷ (400, HttpStatus.bad_request)
    ∷ (401, HttpStatus.unauthorized)
    ∷ (402, HttpStatus.payment_required)
    ∷ (403, HttpStatus.forbidden)
    ∷ (404, HttpStatus.not_found)
    ∷ (405, HttpStatus.not_allowed)
    ∷ (406, HttpStatus.not_acceptable)
    ∷ (408, HttpStatus.request_timeout)
    ∷ (409, HttpStatus.conflict)
    ∷ (410, HttpStatus.gone)
    ∷ (426, HttpStatus.upgrade_required)
    ∷ (429, HttpStatus.too_many_requests)
    ∷ (444, HttpStatus.close)
    ∷ (451, HttpStatus.illegal)
    ∷ (500, HttpStatus.internal_server_error)
    ∷ (501, HttpStatus.method_not_implemented)
    ∷ (502, HttpStatus.bad_gateway)
    ∷ (503, HttpStatus.service_unavailable)
    ∷ (504, HttpStatus.gateway_timeout)
    ∷ (505, HttpStatus.version_not_supported)
    ∷ (507, HttpStatus.insufficient_storage)
    ∷ []

abbrev pub find_status : List (ℕ × HttpStatus) → ℕ → HttpStatus
find_status [] code = HttpStatus.bad_request
find_status ((c, s) ∷ rest) code = if code == c then s else find_status rest code

-- `impl From<i64> for HttpStatus`, at a code that is not negative.
unfoldable pub status_of : ℕ → HttpStatus
status_of code = find_status status_table code

-- `impl Display for HttpStatus`.
abbrev pub status_text : HttpStatus → Text
status_text HttpStatus.undefined = codes "0 UNDEFINED"
status_text HttpStatus.continue = codes "100 CONTINUE"
status_text HttpStatus.switching_protocols = codes "101 SWITCHING PROTOCOLS"
status_text HttpStatus.ok = codes "200 OK"
status_text HttpStatus.created = codes "201 CREATED"
status_text HttpStatus.accepted = codes "202 ACCEPTED"
status_text HttpStatus.no_content = codes "204 NO CONTENT"
status_text HttpStatus.partial_content = codes "206 PARTIAL CONTENT"
status_text HttpStatus.special_response = codes "300 SPECIAL RESPONSE"
status_text HttpStatus.moved_permanently = codes "301 MOVED PERMANENTLY"
status_text HttpStatus.moved_temporarily = codes "302 MOVED TEMPORARILY"
status_text HttpStatus.see_other = codes "303 SEE OTHER"
status_text HttpStatus.not_modified = codes "304 NOT MODIFIED"
status_text HttpStatus.temporary_redirect = codes "307 TEMPORARY REDIRECT"
status_text HttpStatus.permanent_redirect = codes "308 PERMANENT REDIRECT"
status_text HttpStatus.bad_request = codes "400 BAD REQUEST"
status_text HttpStatus.unauthorized = codes "401 UNAUTHORIZED"
status_text HttpStatus.payment_required = codes "402 PAYMENT REQUIRED"
status_text HttpStatus.forbidden = codes "403 FORBIDDEN"
status_text HttpStatus.not_found = codes "404 NOT FOUND"
status_text HttpStatus.not_allowed = codes "405 NOT ALLOWED"
status_text HttpStatus.not_acceptable = codes "406 NOT ACCEPTABLE"
status_text HttpStatus.request_timeout = codes "408 REQUEST TIMEOUT"
status_text HttpStatus.conflict = codes "409 CONFLICT"
status_text HttpStatus.gone = codes "410 GONE"
status_text HttpStatus.upgrade_required = codes "426 UPGRADE REQUIRED"
status_text HttpStatus.too_many_requests = codes "429 TOO MANY REQUESTS"
status_text HttpStatus.close = codes "444 CLOSE"
status_text HttpStatus.illegal = codes "451 ILLEGAL"
status_text HttpStatus.internal_server_error = codes "500 INTERNAL SERVER ERROR"
status_text HttpStatus.method_not_implemented = codes "501 METHOD NOT IMPLEMENTED"
status_text HttpStatus.bad_gateway = codes "502 BAD GATEWAY"
status_text HttpStatus.service_unavailable = codes "503 SERVICE UNAVAILABLE"
status_text HttpStatus.gateway_timeout = codes "504 GATEWAY TIMEOUT"
status_text HttpStatus.version_not_supported = codes "505 VERSION NOT SUPPORTED"
status_text HttpStatus.insufficient_storage = codes "507 INSUFFICIENT STORAGE"
