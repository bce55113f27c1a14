-- ===== src/Http/Request/Laws.antt =====
-- http/internal/request.rs: the parsers as functions of what arrives, whatever the chunks.
use ws_platform.Common.{
  ℕ, codes, Option, none, some, Bool, true, false, ◌≡◌, ◌≢◌, refl, List, arith, Eq, if◌then◌else◌,
  ◌==◌, Bool-cases, inl, inr, ap, sym, ◌∙◌, Option-cases, lookup, text_key,
}
use ws_platform.Error.{Result, ok, err, Code, done, again, declined, CoreError, HttpResult}
use ws_platform.Buffer.Laws.{IsValid}
use ws_platform.KeyVal.{Key}
use ws_platform.Client.{Client}
use ws_platform.Client.Signals.{Signal, ahead}
use ws_platform.Http.Types.{method_table}
use ws_platform.Http.Scan.{Verdict, panics, scan, run, enough, scan-run}
use ws_platform.Http.Request.{
  HttpRequest, Decoder, past, enter, Parsed, and_then, st_method, st_uri, st_query, st_protocol,
  st_headers,
}
use ws_platform.Http.Request.Line.{
  read_more, read_method, closed_line, step_method, parse_method, step_protocol, parse_protocol,
  step_uri, parse_uri, step_args, parse_args, end_query, end_arg, parse_request_line,
}
use ws_platform.Http.Request.Headers.{
  HeaderState, step_headers, end_header, start_headers, headers_done, parse_headers,
}

-- No parser indexes out of range at any byte.
step_method-total : (r : HttpRequest) (c : ℕ) → step_method r c ≢ panics
unfolding step_method
step_method-total r c = elim (Bool-cases (c == b' ')) [
  | inr other ↦ rw (other, step_method) (λ q. cc)
  | inl space ↦ elim (Option-cases (lookup r.context.method method_table)) [
    | inl e ↦ rw (space, e, step_method) (λ q. cc)
    | inr (m, e) ↦ rw (space, e, step_method) (λ q. cc)
  ]
]

step_protocol-total : (r : HttpRequest) (c : ℕ) → step_protocol r c ≢ panics
unfolding step_protocol
step_protocol-total r c = ground arith

step_uri-total : (decoder : Decoder) (r : HttpRequest) (c : ℕ) → step_uri decoder r c ≢ panics
unfolding step_uri
step_uri-total decoder r c = ground arith

step_args-total :
    (decoder : Decoder) ⦃e : Eq Key⦄ (r : HttpRequest) (c : ℕ) → step_args decoder r c ≢ panics
unfolding step_args end_query end_arg
step_args-total decoder r c = ground arith

step_headers-total : ⦃e : Eq Key⦄ (s : HeaderState) (c : ℕ) → step_headers s c ≢ panics
unfolding step_headers end_header
step_headers-total s c = ground arith

-- What a parser does, on the signals that are ahead.
abbrev pub OnSignals : Type 0
OnSignals = HttpRequest × List Signal × HttpResult

abbrev pub then_signals : OnSignals → (HttpRequest → List Signal → OnSignals) → OnSignals
then_signals (r, ss, ok done) next = next r ss
then_signals (r, ss, ok again) next = (r, ss, ok again)
then_signals (r, ss, ok declined) next = (r, ss, ok declined)
then_signals (r, ss, err e) next = (r, ss, err e)

abbrev pub Follows : Parsed → OnSignals → Type 0
Follows (r, c, res) (s, ss, out) = (r ≡ s) × (res ≡ some out) × (ahead c ≡ ss) × IsValid c.buf

-- A parser that is entered unless the request is past it.
phase-Follows :
    (step : HttpRequest → ℕ → Verdict HttpRequest)
    (closed : Option ℕ → Result CoreError Code → HttpResult)
    (total : (r : HttpRequest) (c : ℕ) → step r c ≢ panics) (over : Bool) (r r' : HttpRequest)
    (c : Client)
    → IsValid c.buf
    → Follows
        (if over then (r, c, some (ok done)) else scan step closed (enough c) r' c)
        (if over then (r, ahead c, ok done) else run step closed r' (ahead c))
phase-Follows step closed total true r r' c v = (refl, refl, refl, v)
phase-Follows step closed total false r r' c v =
    scan-run step total closed (enough c) r' c v (omega arith)

unfoldable pub method_signals : HttpRequest → List Signal → OnSignals
method_signals r ss =
    if past st_method r
    then (r, ss, ok done)
    else run step_method read_method (enter st_method r) ss

unfoldable pub protocol_signals : HttpRequest → List Signal → OnSignals
protocol_signals r ss =
    if past st_protocol r
    then (r, ss, ok done)
    else run step_protocol (read_more closed_line) (enter st_protocol r) ss

parse_method-Follows :
    (r : HttpRequest) (c : Client)
    → IsValid c.buf
    → Follows (parse_method r c) (method_signals r (ahead c))
unfolding parse_method method_signals
parse_method-Follows r c v =
    phase-Follows step_method read_method step_method-total (past st_method r) r (enter st_method r)
      c v

parse_protocol-Follows :
    (r : HttpRequest) (c : Client)
    → IsValid c.buf
    → Follows (parse_protocol r c) (protocol_signals r (ahead c))
unfolding parse_protocol protocol_signals
parse_protocol-Follows r c v =
    phase-Follows step_protocol (read_more closed_line) step_protocol-total (past st_protocol r) r
      (enter st_protocol r) c v

and_then-Follows :
    (p : Parsed) (q : OnSignals) (next : HttpRequest → Client → Parsed)
    (next' : HttpRequest → List Signal → OnSignals)
    → Follows p q
    → ((r : HttpRequest) (c : Client) → IsValid c.buf → Follows (next r c) (next' r (ahead c)))
    → Follows (and_then p next) (then_signals q next')
and_then-Follows (r, c, some (ok done)) (s, ss, out) next next' (e, f, g, v) h =
    let out_done : ok done ≡ out = ground arith in rw (sym out_done, sym e, sym g) (h r c v)
and_then-Follows (r, c, some (ok again)) (s, ss, out) next next' (e, f, g, v) h =
    let same : ok again ≡ out = ground arith in rw (sym same) (e, refl, g, v)
and_then-Follows (r, c, some (ok declined)) (s, ss, out) next next' (e, f, g, v) h =
    let same : ok declined ≡ out = ground arith in rw (sym same) (e, refl, g, v)
and_then-Follows (r, c, some (err x)) (s, ss, out) next next' (e, f, g, v) h =
    let same : err x ≡ out = ground arith in rw (sym same) (e, refl, g, v)
and_then-Follows (r, c, none) (s, ss, out) next next' (e, f, g, v) h = cc

module _ (decoder : Decoder) where
  unfoldable pub uri_signals : HttpRequest → List Signal → OnSignals
  uri_signals r ss =
      if past st_uri r
      then (r, ss, ok done)
      else run (step_uri decoder) (read_more closed_line) (enter st_uri r) ss

  parse_uri-Follows :
      (r : HttpRequest) (c : Client)
      → IsValid c.buf
      → Follows (parse_uri decoder r c) (uri_signals r (ahead c))
  unfolding parse_uri uri_signals
  parse_uri-Follows r c v =
      phase-Follows (step_uri decoder) (read_more closed_line) (step_uri-total decoder)
        (past st_uri r) r (enter st_uri r) c v

  module _ ⦃e : Eq Key⦄ where
    unfoldable pub args_signals : HttpRequest → List Signal → OnSignals
    args_signals r ss =
        if past st_query r
        then (r, ss, ok done)
        else run (step_args decoder) (read_more closed_line) (enter st_query r) ss

    pub parse_args-Follows :
        (r : HttpRequest) (c : Client)
        → IsValid c.buf
        → Follows (parse_args decoder r c) (args_signals r (ahead c))
    unfolding parse_args args_signals
    parse_args-Follows r c v =
        phase-Follows (step_args decoder) (read_more closed_line) (step_args-total decoder)
          (past st_query r) r (enter st_query r) c v

    unfoldable pub line_signals : HttpRequest → List Signal → OnSignals
    line_signals r ss = then_signals (method_signals r ss) λ r ss.
        then_signals (uri_signals r ss)
          λ r ss. then_signals (args_signals r ss) λ r ss. protocol_signals r ss

    -- On a connection whose buffer is in order, the parser of the request line returns what the parser
    -- over the signals of the socket returns, leaves the same request and the same signals to come, and
    -- keeps the buffer in order.
    pub parse_request_line-Follows :
        (r : HttpRequest) (c : Client)
        → IsValid c.buf
        → Follows (parse_request_line decoder r c) (line_signals r (ahead c))
    unfolding parse_request_line line_signals
    parse_request_line-Follows r c v =
        and_then-Follows _ _ _ _ (parse_method-Follows r c v) λ r c v.
          and_then-Follows _ _ _ _ (parse_uri-Follows r c v) λ r c v.
            and_then-Follows _ _ _ _ (parse_args-Follows r c v)
              λ r c v. parse_protocol-Follows r c v

module _ ⦃e : Eq Key⦄ where
  abbrev pub headers_seen : HeaderState × List Signal × HttpResult → OnSignals
  headers_seen (s, ss, out) = (s.request, ss, out)

  unfoldable pub headers_signals : HttpRequest → List Signal → OnSignals
  headers_signals r ss =
      if past st_headers r
      then (r, ss, ok done)
      else headers_seen (
          run step_headers (read_more (codes "Client has closed connection on read headers"))
            (start_headers r) ss)

  headers-Follows :
      (p : HeaderState × Client × Option HttpResult) (q : HeaderState × List Signal × HttpResult)
      → (p.0 ≡ q.0) × (p.2 ≡ some q.2) × (ahead p.1 ≡ q.1) × IsValid p.1.buf
      → Follows (headers_done p) (headers_seen q)
  headers-Follows p q (s, res, rest, v) = (ap HeaderState.request s, res, rest, v)

  -- On a connection whose buffer is in order, the parser of the headers returns what the parser over the
  -- signals of the socket returns, leaves the same request and the same signals to come, and keeps the
  -- buffer in order.
  pub parse_headers-Follows :
      (r : HttpRequest) (c : Client)
      → IsValid c.buf
      → Follows (parse_headers r c) (headers_signals r (ahead c))
  unfolding parse_headers headers_signals
  parse_headers-Follows r c v = elim (Bool-cases (past st_headers r)) [
    | inl over ↦ rw over (refl, refl, refl, v)
    | inr left ↦
        let closed = read_more (codes "Client has closed connection on read headers") in
        rw left (
          headers-Follows (scan step_headers closed (enough c) (start_headers r) c)
            (run step_headers closed (start_headers r) (ahead c))
            (scan-run step_headers step_headers-total closed (enough c) (start_headers r) c v
              (omega arith)))
  ]

-- Two connections with the same signals ahead.
abbrev pub SameParse : Parsed → Parsed → Type 0
SameParse (r, c, res) (s, d, out) = (r ≡ s) × (res ≡ out) × (res ≢ none) × (ahead c ≡ ahead d)

Follows-SameParse : (p q : Parsed) (o : OnSignals) → Follows p o → Follows q o → SameParse p q
Follows-SameParse (r, c, res) (s, d, out) (t, ss, o) (e, f, g, v) (e', f', g', v') =
    (e ∙ sym e', f ∙ sym f', (λ h. cc), g ∙ sym g')

module _ (decoder : Decoder) ⦃e : Eq Key⦄ where
  -- For two connections with the same signals ahead, whose buffers are in order, the request line, its
  -- result and what is left to read are the same, however the bytes are cut into reads; the parser
  -- returns.
  pub parse_request_line-chunks :
      (r : HttpRequest) (c d : Client)
      → IsValid c.buf
      → IsValid d.buf
      → ahead c ≡ ahead d
      → SameParse (parse_request_line decoder r c) (parse_request_line decoder r d)
  parse_request_line-chunks r c d v w same =
      Follows-SameParse (parse_request_line decoder r c) (parse_request_line decoder r d)
        (line_signals decoder r (ahead c)) (parse_request_line-Follows decoder r c v)
        (rw same (parse_request_line-Follows decoder r d w))

module _ ⦃e : Eq Key⦄ where
  -- For two connections with the same signals ahead, whose buffers are in order, the headers, their
  -- result and what is left to read are the same, however the bytes are cut into reads; the parser
  -- returns.
  pub parse_headers-chunks :
      (r : HttpRequest) (c d : Client)
      → IsValid c.buf
      → IsValid d.buf
      → ahead c ≡ ahead d
      → SameParse (parse_headers r c) (parse_headers r d)
  parse_headers-chunks r c d v w same =
      Follows-SameParse (parse_headers r c) (parse_headers r d) (headers_signals r (ahead c))
        (parse_headers-Follows r c v) (rw same (parse_headers-Follows r d w))
