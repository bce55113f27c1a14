-- ===== src/Http/Proxy/Follows.antt =====
-- http/plugins/proxy.rs: the parsers of the response of an upstream as functions of what arrives, whatever
-- the chunks.
use ws_platform.Common.{
  ℕ, zero, suc, Text, codes, Option, none, some, Bool, true, false, ◌≡◌, ◌≢◌, refl, List, arith, Eq,
  if◌then◌else◌, Bool-cases, inl, inr, ap, sym,
}
use ws_platform.Error.{Result, ok, err, Code, done, again, declined, CoreError, HttpResult}
use ws_platform.Buffer.Laws.{IsValid}
use ws_platform.KeyVal.{Key}
use ws_platform.Client.{Client}
use ws_platform.Client.Signals.{Signal, ahead}
use ws_platform.Http.Scan.{Verdict, panics, scan, run, enough, scan-run}
use ws_platform.Http.Request.Line.{read_more}
use ws_platform.Http.Proxy.{
  Proxied, past, enter, Parsed, and_then, st_protocol, st_status, st_headers, step_protocol,
  parse_protocol, step_status, parse_status, closed_status,
}
use ws_platform.Http.Proxy.Headers.{
  HeaderState, step_headers, end_header, start_headers, headers_done, parse_headers,
}
use ws_platform.Http.Proxy.Body.{
  step_size, step_chunk, read_chunk_size, read_chunk, size_line, bytes_of_size, closed_body,
  take_size, parse_hex,
}

-- No parser indexes out of range at any byte.
step_protocol-total : (p : Proxied) (c : ℕ) → step_protocol p c ≢ panics
unfolding step_protocol
step_protocol-total p c = ground arith

step_status-total : (is_utf8 : Text → Bool) (p : Proxied) (c : ℕ) → step_status is_utf8 p c ≢ panics
unfolding step_status
step_status-total is_utf8 p c = ground arith

step_headers-total : ⦃e : Eq Key⦄ (s : HeaderState) (c : ℕ) → step_headers s c ≢ panics
unfolding step_headers end_header
step_headers-total s c = ground arith

take_size-total : (r : Result CoreError ℕ) (p : Proxied) → take_size r p ≢ panics
take_size-total (err e) p = λ q. cc
take_size-total (ok zero) p = λ q. cc
take_size-total (ok (suc n)) p = λ q. cc

step_size-total : (p : Proxied) (c : ℕ) → step_size p c ≢ panics
unfolding step_size
step_size-total p c = ground (arith, take_size-total (parse_hex p.context.chunk.0) p)

step_chunk-total : (size : ℕ) (p : Proxied) (c : ℕ) → step_chunk size p c ≢ panics
unfolding step_chunk
step_chunk-total size p c = ground arith

-- What a parser does, on the signals that are ahead.
abbrev pub OnSignals : Type 0
OnSignals = Proxied × List Signal × HttpResult

abbrev pub then_signals : OnSignals → (Proxied → List Signal → OnSignals) → OnSignals
then_signals (p, ss, ok done) next = next p ss
then_signals (p, ss, ok again) next = (p, ss, ok again)
then_signals (p, ss, ok declined) next = (p, ss, ok declined)
then_signals (p, ss, err e) next = (p, ss, err e)

abbrev pub Follows : Parsed → OnSignals → Type 0
Follows (p, c, res) (q, ss, out) = (p ≡ q) × (res ≡ some out) × (ahead c ≡ ss) × IsValid c.buf

-- A parser that is entered unless the response is past it.
phase-Follows :
    (step : Proxied → ℕ → Verdict Proxied) (closed : Option ℕ → Result CoreError Code → HttpResult)
    (total : (p : Proxied) (c : ℕ) → step p c ≢ panics) (over : Bool) (p p' : Proxied) (c : Client)
    → IsValid c.buf
    → Follows
        (if over then (p, c, some (ok done)) else scan step closed (enough c) p' c)
        (if over then (p, ahead c, ok done) else run step closed p' (ahead c))
phase-Follows step closed total true p p' c v = (refl, refl, refl, v)
phase-Follows step closed total false p p' c v =
    scan-run step total closed (enough c) p' c v (omega arith)

pub and_then-Follows :
    (p : Parsed) (q : OnSignals) (next : Proxied → Client → Parsed)
    (next' : Proxied → List Signal → OnSignals)
    → Follows p q
    → ((p : Proxied) (c : Client) → IsValid c.buf → Follows (next p c) (next' p (ahead c)))
    → Follows (and_then p next) (then_signals q next')
and_then-Follows (p, c, some (ok done)) (s, ss, out) next next' (e, f, g, v) h =
    let out_done : ok done ≡ out = ground arith in rw (sym out_done, sym e, sym g) (h p c v)
and_then-Follows (p, c, some (ok again)) (s, ss, out) next next' (e, f, g, v) h =
    let same : ok again ≡ out = ground arith in rw (sym same) (e, refl, g, v)
and_then-Follows (p, c, some (ok declined)) (s, ss, out) next next' (e, f, g, v) h =
    let same : ok declined ≡ out = ground arith in rw (sym same) (e, refl, g, v)
and_then-Follows (p, c, some (err x)) (s, ss, out) next next' (e, f, g, v) h =
    let same : err x ≡ out = ground arith in rw (sym same) (e, refl, g, v)
and_then-Follows (p, c, none) (s, ss, out) next next' (e, f, g, v) h = cc

-- The size of a chunk, and its bytes.
abbrev pub line_signals : Option ℕ → Proxied → List Signal → OnSignals
line_signals (some size) p ss = (p, ss, ok done)
line_signals none p ss = run step_size (read_more closed_body) p ss

abbrev pub bytes_signals : Option ℕ → Proxied → List Signal → OnSignals
bytes_signals none p ss = (p, ss, ok done)
bytes_signals (some size) p ss = run (step_chunk size) (read_more closed_body) p ss

size_line-Follows :
    (size : Option ℕ) (p : Proxied) (c : Client)
    → IsValid c.buf
    → Follows (size_line size p c) (line_signals size p (ahead c))
size_line-Follows none p c v =
    scan-run step_size step_size-total (read_more closed_body) (enough c) p c v (omega arith)
size_line-Follows (some size) p c v = (refl, refl, refl, v)

bytes-Follows :
    (size : Option ℕ) (p : Proxied) (c : Client)
    → IsValid c.buf
    → Follows (bytes_of_size size p c) (bytes_signals size p (ahead c))
bytes-Follows none p c v = (refl, refl, refl, v)
bytes-Follows (some size) p c v =
    scan-run (step_chunk size) (step_chunk-total size) (read_more closed_body) (enough c) p c v
      (omega arith)

unfoldable pub chunk_signals : Proxied → List Signal → OnSignals
chunk_signals p ss =
    then_signals (line_signals p.context.chunk.1 p ss) λ p. bytes_signals p.context.chunk.1 p

pub read_chunk-Follows :
    (p : Proxied) (c : Client)
    → IsValid c.buf
    → Follows (read_chunk p c) (chunk_signals p (ahead c))
unfolding read_chunk read_chunk_size chunk_signals
read_chunk-Follows p c v =
    and_then-Follows _ _ _ _ (size_line-Follows p.context.chunk.1 p c v)
      λ p c v. bytes-Follows p.context.chunk.1 p c v

module _ (is_utf8 : Text → Bool) ⦃e : Eq Key⦄ where
  unfoldable pub protocol_signals : Proxied → List Signal → OnSignals
  protocol_signals p ss =
      if past st_protocol p
      then (p, ss, ok done)
      else run step_protocol (read_more closed_status) (enter st_protocol p) ss

  unfoldable pub status_signals : Proxied → List Signal → OnSignals
  status_signals p ss =
      if past st_status p
      then (p, ss, ok done)
      else run (step_status is_utf8) (read_more closed_status) (enter st_status p) ss

  abbrev pub headers_seen : HeaderState × List Signal × HttpResult → OnSignals
  headers_seen (s, ss, out) = (s.proxied, ss, out)

  abbrev pub closed_headers : Text
  closed_headers = codes "Client has closed connection on read headers"

  unfoldable pub headers_signals : Proxied → List Signal → OnSignals
  headers_signals p ss =
      if past st_headers p
      then (p, ss, ok done)
      else headers_seen (run step_headers (read_more closed_headers) (start_headers p) ss)

  headers-Follows :
      (p : HeaderState × Client × Option HttpResult) (q : HeaderState × List Signal × HttpResult)
      → (p.0 ≡ q.0) × (p.2 ≡ some q.2) × (ahead p.1 ≡ q.1) × IsValid p.1.buf
      → Follows (headers_done p) (headers_seen q)
  headers-Follows p q (s, res, rest, v) = (ap HeaderState.proxied s, res, rest, v)

  parse_headers-Follows :
      (p : Proxied) (c : Client)
      → IsValid c.buf
      → Follows (parse_headers p c) (headers_signals p (ahead c))
  unfolding parse_headers headers_signals
  parse_headers-Follows p c v = elim (Bool-cases (past st_headers p)) [
    | inl over ↦ rw (over, parse_headers, headers_signals) (refl, refl, refl, v)
    | inr early ↦
        rw (early, parse_headers, headers_signals)
          (headers-Follows
            (scan step_headers (read_more closed_headers) (enough c) (start_headers p) c)
            (run step_headers (read_more closed_headers) (start_headers p) (ahead c))
            (scan-run step_headers step_headers-total (read_more closed_headers) (enough c)
              (start_headers p) c v (omega arith)))
  ]

  -- The head of a response, as `parse_response` reads it before the body.
  abbrev pub parse_head : Proxied → Client → Parsed
  parse_head p c =
      and_then (parse_protocol p c)
        λ p c. and_then (parse_status is_utf8 p c) λ p c. parse_headers p c

  unfoldable pub head_signals : Proxied → List Signal → OnSignals
  head_signals p ss =
      then_signals (protocol_signals p ss)
        λ p ss. then_signals (status_signals p ss) λ p ss. headers_signals p ss

  -- On a connection whose buffer is in order, the parser of the head of a response returns what the parser
  -- over the signals of the socket returns, however these are cut into reads; it leaves the same context
  -- and response and the same signals to come, and keeps the buffer in order.
  pub parse_head-Follows :
      (p : Proxied) (c : Client)
      → IsValid c.buf
      → Follows (parse_head p c) (head_signals p (ahead c))
  unfolding head_signals protocol_signals status_signals parse_protocol parse_status
  parse_head-Follows p c v =
      and_then-Follows _ _ _ _
        (phase-Follows step_protocol (read_more closed_status) step_protocol-total
          (past st_protocol p) p (enter st_protocol p) c v)
        λ p c v.
          and_then-Follows _ _ _ _
            (phase-Follows (step_status is_utf8) (read_more closed_status)
              (step_status-total is_utf8) (past st_status p) p (enter st_status p) c v)
            λ p c v. parse_headers-Follows p c v
