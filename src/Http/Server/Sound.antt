-- ===== src/Http/Server/Sound.antt =====
-- http/internal/request.rs: a request that is complete is told from one whose parser failed.
use ws_platform.Common.{
  ℕ, codes, Option, some, Bool, true, false, ◌≡◌, refl, List, [], ◌∷◌, arith, Eq, if◌then◌else◌,
  ◌==◌, Bool-cases, Option-cases, inl, inr, sym, lookup, text_key, subst,
}
use ws_platform.Error.{Result, ok, err, Code, done, again, declined, CoreError, HttpResult}
use ws_platform.KeyVal.{Key}
use ws_platform.Client.Signals.{Signal, byte, stop}
use ws_platform.Http.Types.{method_table}
use ws_platform.Http.Scan.{Verdict, more, returns, panics, run}
use ws_platform.Http.Request.{
  HttpRequest, Decoder, past, enter, is_mailformed, st_method, st_uri, st_query, st_protocol,
  st_headers,
}
use ws_platform.Http.Request.Line.{
  read_more, read_method, closed_line, step_method, step_protocol, step_uri, step_args, end_query,
  end_arg,
}
use ws_platform.Http.Request.Headers.{
  HeaderState, step_headers, end_header, known_header, start_headers,
}
use ws_platform.Http.Request.Laws.{
  OnSignals, then_signals, method_signals, protocol_signals, uri_signals, args_signals,
  line_signals, headers_signals,
}

abbrev pub Keeps : {S : Type 0} → (S → Type 0) → Verdict S → Type 0
Keeps P (more s) = P s
Keeps P (returns s r) = P s
Keeps P panics = Unit

module _ {S : Type 0} (step : S → ℕ → Verdict S)
    (closed : Option ℕ → Result CoreError Code → HttpResult) (P : S → Type 0) where
  unfoldable after : List Signal → S → Verdict S → S × List Signal × HttpResult
  after ss s (more s') = run step closed s' ss
  after ss s (returns s' r) = (s', ss, r)
  after ss s panics = (s, ss, closed (some 0) (ok again))

  run-byte :
      (s : S) (c : ℕ) (ss : List Signal) → run step closed s (byte c ∷ ss) ≡ after ss s (step s c)
  unfolding run after
  run-byte s c ss = refl

  after-Keeps :
      (ss : List Signal) (s : S) (v : Verdict S)
      → P s
      → Keeps P v
      → ((t : S) → P t → P (run step closed t ss).0)
      → P (after ss s v).0
  unfolding after
  after-Keeps ss s (more t) p k ih = ih t k
  after-Keeps ss s (returns t r) p k ih = k
  after-Keeps ss s panics p k ih = p

  pub run-Keeps :
      ((s : S) (c : ℕ) → P s → Keeps P (step s c))
      → (s : S) (ss : List Signal) → P s
      → P (run step closed s ss).0
  unfolding run
  run-Keeps h s [] p = p
  run-Keeps h s (stop r ∷ ss) p = p
  run-Keeps h s (byte c ∷ ss) p =
      subst (λ o. P o.0) (sym (run-byte s c ss))
        (after-Keeps ss s (step s c) p (h s c p) λ t q. run-Keeps h t ss q)

-- The request is not complete.
abbrev pub IsOpen : HttpRequest → Type 0
IsOpen r = is_mailformed r ≡ true

method-Keeps : (r : HttpRequest) (c : ℕ) → IsOpen r → Keeps IsOpen (step_method r c)
unfolding step_method
method-Keeps r c p = elim (Bool-cases (c == b' ')) [
  | inr other ↦ rw (other, step_method) p
  | inl space ↦ elim (Option-cases (lookup r.context.method method_table)) [
    | inl e ↦ rw (space, e, step_method) refl
    | inr (m, e) ↦ rw (space, e, step_method) refl
  ]
]

protocol-Keeps : (r : HttpRequest) (c : ℕ) → IsOpen r → Keeps IsOpen (step_protocol r c)
unfolding step_protocol
protocol-Keeps r c p = ground arith

uri-Keeps :
    (decoder : Decoder) (r : HttpRequest) (c : ℕ) → IsOpen r → Keeps IsOpen (step_uri decoder r c)
unfolding step_uri
uri-Keeps decoder r c p = ground arith

args-Keeps :
    (decoder : Decoder) ⦃e : Eq Key⦄ (r : HttpRequest) (c : ℕ)
    → IsOpen r
    → Keeps IsOpen (step_args decoder r c)
unfolding step_args end_query end_arg
args-Keeps decoder r c p = ground arith

headers-Keeps :
    ⦃e : Eq Key⦄ (s : HeaderState) (c : ℕ)
    → IsOpen s.request
    → Keeps (λ s. IsOpen s.request) (step_headers s c)
unfolding step_headers end_header known_header
headers-Keeps s c p = ground arith

phase-Open :
    (step : HttpRequest → ℕ → Verdict HttpRequest)
    (closed : Option ℕ → Result CoreError Code → HttpResult)
    (h : (r : HttpRequest) (c : ℕ) → IsOpen r → Keeps IsOpen (step r c)) (over : Bool)
    (r r' : HttpRequest) (ss : List Signal)
    → IsOpen r
    → IsOpen r'
    → IsOpen (if over then (r, ss, ok done) else run step closed r' ss).0
phase-Open step closed h true r r' ss p q = p
phase-Open step closed h false r r' ss p q = run-Keeps step closed IsOpen h r' ss q

then_signals-Open :
    (o : OnSignals) (next : HttpRequest → List Signal → OnSignals)
    → IsOpen o.0
    → ((r : HttpRequest) (ss : List Signal) → IsOpen r → IsOpen (next r ss).0)
    → IsOpen (then_signals o next).0
then_signals-Open (r, ss, ok done) next p h = h r ss p
then_signals-Open (r, ss, ok again) next p h = p
then_signals-Open (r, ss, ok declined) next p h = p
then_signals-Open (r, ss, err e) next p h = p

pub line_signals-Open :
    (decoder : Decoder) ⦃e : Eq Key⦄ (r : HttpRequest) (ss : List Signal)
    → IsOpen r
    → IsOpen (line_signals decoder r ss).0
unfolding line_signals method_signals uri_signals args_signals protocol_signals
line_signals-Open decoder r ss p =
    then_signals-Open (method_signals r ss) _
      (phase-Open step_method read_method method-Keeps (past st_method r) r (enter st_method r) ss p
        refl)
      λ r ss p.
        then_signals-Open (uri_signals decoder r ss) _
          (phase-Open (step_uri decoder) (read_more closed_line) (uri-Keeps decoder) (past st_uri r)
            r (enter st_uri r) ss p refl)
          λ r ss p.
            then_signals-Open (args_signals decoder r ss) _
              (phase-Open (step_args decoder) (read_more closed_line) (args-Keeps decoder)
                (past st_query r) r (enter st_query r) ss p refl)
              λ r ss p.
                phase-Open step_protocol (read_more closed_line) protocol-Keeps (past st_protocol r)
                  r (enter st_protocol r) ss p refl

pub headers_signals-Open :
    ⦃e : Eq Key⦄ (r : HttpRequest) (ss : List Signal) → IsOpen r → IsOpen (headers_signals r ss).0
unfolding headers_signals
headers_signals-Open r ss p = elim (Bool-cases (past st_headers r)) [
  | inl over ↦ rw (over, headers_signals) p
  | inr early ↦
      rw (early, headers_signals)
        (run-Keeps step_headers (read_more (codes "Client has closed connection on read headers"))
          (λ s. IsOpen s.request) headers-Keeps (start_headers r) ss refl)
]
