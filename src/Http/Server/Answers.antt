-- ===== src/Http/Server/Answers.antt =====
-- http/server.rs: which requests reach the handler of a server.
use ws_platform.Common.{
  ℕ, zero, suc, Text, Option, none, some, Bool, true, false, ◌≡◌, ◌≢◌, refl, arith, Eq,
  if◌then◌else◌, ◌==◌, Bool-cases, Option-cases, inl, inr, ap, ◌∙◌, ltb, length,
}
use ws_platform.Error.{Result, ok, err, Code, done, again, declined, CoreError, CoreResult}
use ws_platform.Buffer.{Buffer}
use ws_platform.Buffer
use ws_platform.Buffer.Laws.{IsValid}
use ws_platform.KeyVal.{Key}
use ws_platform.Client.{Client, read, write, flush}
use ws_platform.Client.Signals.{ahead}
use ws_platform.Http.Request.{
  HttpRequest, Decoder, past, enter, Parsed, and_then, st_body, is_mailformed,
}
use ws_platform.Http.Request.Line.{parse_request_line}
use ws_platform.Http.Request.Headers.{parse_headers}
use ws_platform.Http.Request.Body.{
  more_body, body_loop, read_body, after_continue, continue_reply, parse,
}
use ws_platform.Http.Request.Laws.{
  OnSignals, Follows, parse_request_line-Follows, parse_headers-Follows, line_signals,
  headers_signals,
}
use ws_platform.Http.Scan.{enough}
use ws_platform.Http.Server.{Handler, core_result, checked, bad_request}
use ws_platform.Http.Server.Sound.{IsOpen, line_signals-Open, headers_signals-Open}

-- A parser that returned `OK` has completed the request, and one that failed with an error that is not
-- fatal has not.
abbrev pub Sound : Parsed → Type 0
Sound (r, c, some (ok done)) = is_mailformed r ≡ false
Sound (r, c, some (ok again)) = Unit
Sound (r, c, some (ok declined)) = Unit
Sound (r, c, some (err e)) = e.fatal ≡ false → IsOpen r
Sound (r, c, none) = Unit

fatal-Sound : (r : HttpRequest) → true ≡ false → IsOpen r
fatal-Sound r h = absurd (cc)

more_body-Sound :
    (round : HttpRequest → Client → Parsed) (r : HttpRequest) (body : Text)
    (out : Client × Result CoreError Code)
    → ((r : HttpRequest) (c : Client) → Sound (round r c))
    → Sound (more_body round r body out)
unfolding more_body
more_body-Sound round r body (c, ok done) h = elim (Option-cases (Buffer.tail c.buf)) [
  | inl e ↦ rw (e, more_body) tt
  | inr (x, e) ↦ rw (e, more_body) (h _ _)
]
more_body-Sound round r body (c, ok again) h = tt
more_body-Sound round r body (c, ok declined) h = fatal-Sound r
more_body-Sound round r body (c, err e) h = fatal-Sound r

body_loop-Sound : (len fuel : ℕ) (r : HttpRequest) (c : Client) → Sound (body_loop len fuel r c)
unfolding body_loop
body_loop-Sound len zero r c = tt
body_loop-Sound len (suc fuel) r c = elim (Option-cases r.body) [
  | inl e ↦ elim (Option-cases (Buffer.tail c.buf)) [
    | inl x ↦ rw (e, x, body_loop) tt
    | inr (y, x) ↦ rw (e, x, body_loop) (body_loop-Sound len fuel _ _)
  ]
  | inr (body, e) ↦ elim (Bool-cases (length body == len)) [
    | inl full ↦ rw (e, full, body_loop) refl
    | inr short ↦
        rw (e, short, body_loop)
          (more_body-Sound (body_loop len fuel) r body (read c) λ r c. body_loop-Sound len fuel r c)
  ]
]

read_body-Sound : (r : HttpRequest) (c : Client) → Sound (read_body r c)
unfolding read_body
read_body-Sound r c = elim (Bool-cases (past st_body r)) [
  | inl over ↦ rw (over, read_body) (ground (arith, over))
  | inr early ↦ elim (Option-cases r.content_length) [
    | inl e ↦ rw (early, e, read_body) refl
    | inr (len, e) ↦ elim (Bool-cases (ltb 0 len)) [
      | inl bytes ↦
          rw (early, e, bytes, read_body) (body_loop-Sound len (suc (enough c)) (enter st_body r) c)
      | inr no_bytes ↦ rw (early, e, no_bytes, read_body) refl
    ]
  ]
]

after_continue-Sound :
    (r : HttpRequest) (out : Client × Option (Result CoreError (Code × ℕ)))
    → Sound (after_continue r out)
after_continue-Sound r (c, some (ok sent)) = tt
after_continue-Sound r (c, some (err e)) = fatal-Sound r
after_continue-Sound r (c, none) = tt

and_then-Sound :
    (p : Parsed) (o : OnSignals) (next : HttpRequest → Client → Parsed)
    → Follows p o
    → IsOpen o.0
    → ((r : HttpRequest) (c : Client) → IsOpen r → IsValid c.buf → Sound (next r c))
    → Sound (and_then p next)
and_then-Sound (r, c, some (ok done)) o next (e, f, g, v) k h = h r c (ap is_mailformed e ∙ k) v
and_then-Sound (r, c, some (ok again)) o next (e, f, g, v) k h = tt
and_then-Sound (r, c, some (ok declined)) o next (e, f, g, v) k h = tt
and_then-Sound (r, c, some (err x)) o next (e, f, g, v) k h = λ q. ap is_mailformed e ∙ k
and_then-Sound (r, c, none) o next (e, f, g, v) k h = tt

either-Sound : (b : Bool) (p q : Parsed) → Sound p → Sound q → Sound (if b then p else q)
either-Sound true p q h k = h
either-Sound false p q h k = k

-- After an error: a fatal one does not give the request to the workers, another answers it with 400.
abbrev pub Failed :
    Bool → ⦃e : Eq Key⦄ → Handler → HttpRequest → Client → Option CoreResult → Type 0
Failed true h r c res = res ≢ some (ok done)
Failed false h r c res = (res ≡ some (ok done)) × (checked h r c ≡ bad_request r c)

-- How a request is answered whose parser ended like this, by a server with this handler: the handler
-- answers it if it is complete, and 400 if its parser failed with an error that is not fatal. Another
-- result does not give it to the workers.
abbrev pub Answered : ⦃e : Eq Key⦄ → Handler → Parsed → Type 0
Answered h (r, c, some (ok done)) = checked h r c ≡ h r c
Answered h (r, c, some (ok again)) = core_result (some (ok again)) ≢ some (ok done)
Answered h (r, c, some (ok declined)) = core_result (some (ok declined)) ≢ some (ok done)
Answered h (r, c, some (err e)) = Failed e.fatal h r c (core_result (some (err e)))
Answered h (r, c, none) = core_result none ≢ some (ok done)

Sound-Answered : ⦃e : Eq Key⦄ (h : Handler) (p : Parsed) → Sound p → Answered h p
unfolding checked
Sound-Answered h (r, c, some (ok done)) s = rw (s, checked) refl
Sound-Answered h (r, c, some (ok again)) s = λ q. cc
Sound-Answered h (r, c, some (ok declined)) s = λ q. cc
Sound-Answered h (r, c, some (err x)) s = elim (Bool-cases x.fatal) [
  | inl fatal ↦ rw fatal (λ q. cc)
  | inr mild ↦ rw (mild, s mild, checked) (refl, refl)
]
Sound-Answered h (r, c, none) s = λ q. cc

module _ (decoder : Decoder) ⦃e : Eq Key⦄ where
  parse-Sound :
      (r : HttpRequest) (c : Client) → IsOpen r → IsValid c.buf → Sound (parse decoder r c)
  unfolding parse write
  parse-Sound r c k v =
      and_then-Sound (parse_request_line decoder r c) (line_signals decoder r (ahead c)) _
        (parse_request_line-Follows decoder r c v) (line_signals-Open decoder r (ahead c) k)
        λ r c k v.
          and_then-Sound (parse_headers r c) (headers_signals r (ahead c)) _
            (parse_headers-Follows r c v) (headers_signals-Open r (ahead c) k)
            λ r c k v.
              either-Sound r.context.expect_100_continue
                (after_continue r (flush (write continue_reply c))) (read_body r c)
                (after_continue-Sound r (flush (write continue_reply c))) (read_body-Sound r c)

  -- A request that is not complete, on a connection whose buffer is in order, is parsed and, if it goes to
  -- the workers, answered by a server: the handler of the server gets it exactly where the parser has
  -- completed it, and where the parser failed with an error that is not fatal the answer is 400. After a
  -- fatal error it is not answered.
  pub parse-Answered :
      (h : Handler) (r : HttpRequest) (c : Client)
      → IsOpen r
      → IsValid c.buf
      → Answered h (parse decoder r c)
  parse-Answered h r c k v = Sound-Answered h (parse decoder r c) (parse-Sound r c k v)
