-- ===== src/Http/Proxy/ChunkedBody.antt =====
-- http/plugins/proxy.rs: `read_body` on a response that is sent in chunks.
use ws_platform.Common.{
  ℕ, zero, suc, ◌+◌, ◌-◌, ◌<◌, ◌≤◌, Text, none, some, true, false, ◌≡◌, refl, List, [], ◌∷◌, ◌++◌,
  length, arith, All, ap, sym, ◌∙◌, subst, append_assoc, length-append, take-append_self, leb,
  get_or, append-nil, inl, inr, Option-cases, length-map, length-take, length-drop, drop,
}
use ws_platform.Error.{ok, err, done, again, declined}
use ws_platform.Buffer.Laws.{IsValid, unread}
use ws_platform.Client.{Client}
use ws_platform.Client.Signals.{Signal, byte, bytes_of, ahead, signals}
use ws_platform.Http.Scan.{enough}
use ws_platform.Http.Response.{HttpResponse, append_body, chunked}
use ws_platform.Http.Proxy.{Proxied, Parsed, and_then, enter, st_parsed, st_body, past}
use ws_platform.Http.Proxy.Body.{
  parse_hex, set_chunk, read_chunk, after_chunk, append_chunk, last_chunk, chunk_loop, on_response,
  body_len, read_body,
}
use ws_platform.Http.Proxy.Follows.{Follows, chunk_signals, read_chunk-Follows}
use ws_platform.Http.Proxy.Chunks.{
  Chunk, IsLine, IsChunk, encoded, appended, crlf, chunk_signals-chunk, chunk_signals-last,
}

pub and_then-done :
    (r : Parsed) (p : Proxied) (ss : List Signal) (next : Proxied → Client → Parsed)
    → Follows r (p, ss, ok done)
    → and_then r next ≡ next p r.1
and_then-done (q, c, some (ok done)) p ss next (e, f, g, v) = ap (λ x. next x c) e
and_then-done (q, c, some (ok again)) p ss next (e, f, g, v) = cc
and_then-done (q, c, some (ok declined)) p ss next (e, f, g, v) = cc
and_then-done (q, c, some (err x)) p ss next (e, f, g, v) = cc
and_then-done (q, c, none) p ss next (e, f, g, v) = cc

-- A parser that ends well with this response, and leaves these signals.
abbrev pub Ends : Proxied → List Signal → Parsed → Type 0
Ends q ss (p, c, res) = (p ≡ q) × (res ≡ some (ok done)) × (ahead c ≡ ss) × IsValid c.buf

append_chunk-chunk :
    (d : Text) (p : Proxied)
    → append_chunk (length d) (set_chunk (d ++ crlf) (some (length d)) p)
      ≡ some (set_chunk [] none (on_response (append_body d) p))
unfolding append_chunk
append_chunk-chunk d p =
    let fits : leb (length d) (length (d ++ crlf)) ≡ true = ground (arith, length-append d crlf) in
    rw (fits, take-append_self d crlf, append_chunk) refl

after_chunk-chunk :
    (d : Text) (p : Proxied) (next : Proxied → Client → Parsed) (c : Client)
    → after_chunk next (set_chunk (d ++ crlf) (some (length d)) p) c
      ≡ next (set_chunk [] none (on_response (append_body d) p)) c
after_chunk-chunk d p next c = rw (append_chunk-chunk d p, after_chunk) refl

chunk_loop-Ends :
    (cs : List Chunk) (z : Text) (ss : List Signal) (fuel : ℕ) (p : Proxied) (c : Client)
    → length cs < fuel
    → All IsChunk cs
    → IsLine z
    → parse_hex z ≡ ok 0
    → IsValid c.buf
    → ahead c ≡ encoded cs z ss
    → Ends
        (enter st_parsed (last_chunk (appended cs (set_chunk [] none p))))
        ss
        (chunk_loop fuel (set_chunk [] none p) c)
unfolding chunk_loop
chunk_loop-Ends cs z ss zero p c less all l e v a = absurd (omega arith)
chunk_loop-Ends [] z ss (suc fuel) p c less all l e v a =
    let q = set_chunk [] none p in
    let got =
      subst (Follows (read_chunk q c))
        (ap (λ t. chunk_signals q t) a ∙ chunk_signals-last z p ss l e)
        (read_chunk-Follows q c v) in
    subst (Ends (enter st_parsed (last_chunk q)) ss)
      (sym (and_then-done (read_chunk q c) q ss (after_chunk (chunk_loop fuel)) got))
      (refl, refl, got.2, got.3)
chunk_loop-Ends ((h, d) ∷ cs) z ss (suc fuel) p c less (x, all) l e v a =
    let q = set_chunk [] none p in
    let full = set_chunk (d ++ crlf) (some (length d)) p in
    let rest = encoded cs z ss in
    let got =
      subst (Follows (read_chunk q c))
        (ap (λ t. chunk_signals q t) a ∙ chunk_signals-chunk h d p rest x)
        (read_chunk-Follows q c v) in
    subst (Ends (enter st_parsed (last_chunk (appended ((h, d) ∷ cs) q))) ss)
      (sym (
        and_then-done (read_chunk q c) full rest (after_chunk (chunk_loop fuel)) got
        ∙ after_chunk-chunk d p (chunk_loop fuel) (read_chunk q c).1))
      (chunk_loop-Ends cs z ss fuel (on_response (append_body d) p) (read_chunk q c).1
        (omega (arith, less)) all l e got.3 got.2)

-- The data of the chunks.
abbrev pub data_of : List Chunk → Text
data_of [] = []
data_of ((h, d) ∷ cs) = d ++ data_of cs

abbrev pub body_of : Proxied → Text
body_of p = get_or p.response.body []

appended-body :
    (cs : List Chunk) (p : Proxied)
    → chunked p.response ≡ true
    → p.response.headers_sent ≡ false
    → (body_of (appended cs p) ≡ body_of p ++ data_of cs)
      × ((appended cs p).response.headers_sent ≡ false)
unfolding append_body
appended-body [] p h s = (sym (append-nil (body_of p)), s)
appended-body ((h, d) ∷ cs) p k s =
    let q = set_chunk [] none (on_response (append_body d) p) in
    let simple : append_body d p.response ≡ record p.response { body = some (body_of p ++ d) } =
      rw (k, append_body) refl in
    let (b, t) = appended-body cs q (rw simple k) (rw simple s) in
    (b ∙ rw simple (append_assoc (body_of p) d (data_of cs)), t)

length-encoded :
    (cs : List Chunk) (z : Text) (ss : List Signal) → length cs ≤ length (encoded cs z ss)
length-encoded [] z ss = omega arith
length-encoded ((h, d) ∷ cs) z ss = omega (
  arith,
  length-encoded cs z ss,
  length-append (bytes_of h) (byte 13 ∷ byte 10 ∷ (bytes_of (d ++ crlf) ++ encoded cs z ss)),
  length-append (bytes_of (d ++ crlf)) (encoded cs z ss),
)

pub length-ahead :
    (c : Client) → length (ahead c) ≤ length c.buf.bytes + length (signals c.incoming)
length-ahead c = omega (
  arith,
  length-append (bytes_of (unread c.buf)) (signals c.incoming),
  length-map (unread c.buf) byte,
  length-take (c.buf.end - c.buf.rpos) (drop c.buf.rpos c.buf.bytes),
  length-drop c.buf.rpos c.buf.bytes,
)

-- How a parser ends that has read this body, and leaves these signals.
abbrev pub WholeBody : Text → List Signal → Parsed → Type 0
WholeBody body ss (p, c, res) =
    (res ≡ some (ok done))
    × (p.context.state ≡ st_parsed)
    × (body_of p ≡ body)
    × (p.response.content_length ≡ some (length body))
    × (ahead c ≡ ss)
    × IsValid c.buf

pub body_len-body : (r : HttpResponse) → body_len r ≡ length (get_or r.body [])
body_len-body r = elim (Option-cases r.body) [ inl e ↦ rw e refl | inr (t, e) ↦ rw e refl ]

last_chunk-length :
    (p : Proxied)
    → p.response.headers_sent ≡ false
    → (body_of (last_chunk p) ≡ body_of p)
      × ((last_chunk p).response.content_length ≡ some (length (body_of p)))
last_chunk-length p s = rw s (refl, ap some (body_len-body p.response))

Ends-WholeBody :
    (q : Proxied) (body : Text) (ss : List Signal) (out : Parsed)
    → q.response.headers_sent ≡ false
    → body_of q ≡ body
    → Ends (enter st_parsed (last_chunk q)) ss out
    → WholeBody body ss out
Ends-WholeBody q body ss (p, c, res) s b (e, r, a, v) =
    let (same, len) = last_chunk-length q s in
    (
      r,
      ap (λ p. p.context.state) e,
      ap body_of e ∙ same ∙ b,
      ap (λ p. p.response.content_length) e ∙ len ∙ ap (λ t. some (length t)) b,
      a,
      v,
    )

-- A response that is sent in chunks, each a size in hexadecimal and that many bytes, up to one of size
-- 0, on a connection whose buffer is in order, however its bytes are cut into reads: where no chunk is
-- begun and the headers are not sent, `read_body` returns `OK` with the data of the chunks, in order, after
-- the body so far, and with its length as the content length. It leaves what follows the line of the last
-- chunk, an empty line included.
pub read_body-WholeBody :
    (cs : List Chunk) (z : Text) (ss : List Signal) (p : Proxied) (c : Client)
    → All IsChunk cs
    → IsLine z
    → parse_hex z ≡ ok 0
    → IsValid c.buf
    → ahead c ≡ encoded cs z ss
    → past st_body p ≡ false
    → p.response.content_length ≡ none
    → chunked p.response ≡ true
    → p.response.headers_sent ≡ false
    → p.context.chunk ≡ ([], none)
    → WholeBody (get_or p.response.body [] ++ data_of cs) ss (read_body p c)
unfolding read_body
read_body-WholeBody cs z ss p c all l e v a early len k s begun =
    let p' = enter st_body p in
    let q = set_chunk [] none p' in
    let same : q ≡ p' = ap (λ k. set_chunk k.0 k.1 p') (sym begun) in
    let fuel = suc (suc (length c.buf.bytes) + enough c) in
    let (body, unsent) = appended-body cs q k s in
    let ends =
      chunk_loop-Ends cs z ss fuel p' c
        (omega (arith, length-encoded cs z ss, length-ahead c, ap length a)) all l e v a in
    rw (early, len, k, read_body)
      (Ends-WholeBody (appended cs q) (body_of p ++ data_of cs) ss (chunk_loop fuel p' c) unsent
        body
        (subst (λ x. Ends (enter st_parsed (last_chunk (appended cs q))) ss (chunk_loop fuel x c))
          same ends))
