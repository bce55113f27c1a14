-- ===== src/Http/Request/Complete.antt =====
-- http/internal/request.rs: what `read_body` and `parse` promise.
use ws_platform.Common.{
  ℕ, zero, suc, ◌<◌, Text, Option, none, some, Bool, true, false, ◌≡◌, ◌≢◌, refl, List, ◌++◌, ltb,
  arith, length, Eq, if◌then◌else◌, Bool-cases, inl, inr, ap, sym, ◌∙◌, length-append, Option-cases,
  subst, ◌==◌, append_assoc, map-append, ==_iff, length-map, lt→ltb,
}
use ws_platform.Error.{Result, ok, err, Code, done, again, declined, CoreError}
use ws_platform.Buffer.{Buffer}
use ws_platform.Buffer
use ws_platform.Buffer.Laws
use ws_platform.Buffer.Laws.{IsValid, unread}
use ws_platform.KeyVal.{Key}
use ws_platform.Client.{Client, read, write, flush}
use ws_platform.Client.Signals.{Signal, byte, bytes_of, signals, ahead, Delivers, read-Delivers}
use ws_platform.Http.Scan.{enough, length_pos}
use ws_platform.Http.Request.{
  HttpRequest, Decoder, past, enter, Parsed, and_then, st_body, is_mailformed,
}
use ws_platform.Client.Flush.{IsWritable, Flushed, flush-Flushed}
use ws_platform.Http.Request.Laws.{
  OnSignals, Follows, parse_request_line-Follows, parse_headers-Follows, line_signals,
  headers_signals,
}
use ws_platform.Http.Request.Line.{parse_request_line}
use ws_platform.Http.Request.Headers.{parse_headers}
use ws_platform.Http.Request.Body.{
  more_body, body_loop, read_body, after_continue, continue_reply, parse,
}

-- How the reading of a body of `len` bytes ends that has `sofar` of them, with the signals `ss` to come.
abbrev pub BodyRead : ℕ → Text → List Signal → Parsed → Type 0
BodyRead len sofar ss (r, c, none) = ⊥
BodyRead len sofar ss (r, c, some (ok done)) =
    IsValid c.buf
    × ((body : Text) × (r.body ≡ some body)
        × (length body ≡ len)
        × (is_mailformed r ≡ false)
        × (bytes_of body ++ signals c.incoming ≡ bytes_of sofar ++ ss))
BodyRead len sofar ss (r, c, some (ok again)) = IsValid c.buf
BodyRead len sofar ss (r, c, some (ok declined)) = IsValid c.buf
BodyRead len sofar ss (r, c, some (err e)) = IsValid c.buf

BodyRead-same :
    (len : ℕ) (sofar sofar' : Text) (ss ss' : List Signal) (p : Parsed)
    → bytes_of sofar ++ ss ≡ bytes_of sofar' ++ ss'
    → BodyRead len sofar ss p
    → BodyRead len sofar' ss' p
BodyRead-same len sofar sofar' ss ss' (r, c, none) same h = h
BodyRead-same len sofar sofar' ss ss' (r, c, some (ok done)) same (v, (body, e, l, m, f)) =
    (v, (body, e, l, m, f ∙ same))
BodyRead-same len sofar sofar' ss ss' (r, c, some (ok again)) same v = v
BodyRead-same len sofar sofar' ss ss' (r, c, some (ok declined)) same v = v
BodyRead-same len sofar sofar' ss ss' (r, c, some (err e)) same v = v

-- One more read, before the loop goes round.
more_body-BodyRead :
    (len : ℕ) (round : HttpRequest → Client → Parsed) (r : HttpRequest) (body : Text)
    (ss : List Signal) (c : Client) (res : Result CoreError Code)
    → IsValid c.buf
    → Delivers ss c.buf c.incoming res
    → ((b : Buffer)
        → IsValid b
        → length (signals c.incoming) < length ss
        → BodyRead len
            (body ++ unread c.buf)
            (signals c.incoming)
            (round (record r { body = some (body ++ unread c.buf) }) (record c { buf = b })))
    → BodyRead len body ss (more_body round r body (c, res))
unfolding more_body
more_body-BodyRead len round r body ss c (ok done) v (inl (e, u, split)) h =
    let (b, got, none_left, w) = Laws.tail-unread c.buf v in
    let shorter : length (signals c.incoming) < length ss = rw split (
      omega (
        arith,
        length-append (bytes_of (unread c.buf)) (signals c.incoming),
        length-map (unread c.buf) byte,
        length_pos (unread c.buf) u,
      )) in
    let joined : bytes_of (body ++ unread c.buf) ++ signals c.incoming ≡ bytes_of body ++ ss =
      rw
        (
          split,
          map-append byte body (unread c.buf),
          append_assoc (bytes_of body) (bytes_of (unread c.buf)) (signals c.incoming),
        )
        refl in
    let sofar = body ++ unread c.buf in
    let next = round (record r { body = some sofar }) (record c { buf = b }) in
    rw (got, more_body)
      (BodyRead-same len sofar body (signals c.incoming) ss next joined (h b w shorter))
more_body-BodyRead len round r body ss c (ok done) v (inr (inl (e, u, split))) h = absurd (e refl)
more_body-BodyRead len round r body ss c (ok done) v (inr (inr (e, u, n, k))) h = cc
more_body-BodyRead len round r body ss c (ok again) v d h = v
more_body-BodyRead len round r body ss c (ok declined) v d h = v
more_body-BodyRead len round r body ss c (err e) v d h = v

body_loop-BodyRead :
    (len fuel : ℕ) (r : HttpRequest) (c : Client) (body : Text)
    → IsValid c.buf
    → r.body ≡ some body
    → length (signals c.incoming) < fuel
    → BodyRead len body (signals c.incoming) (body_loop len fuel r c)
unfolding body_loop
body_loop-BodyRead len zero r c body v e h = absurd (omega arith)
body_loop-BodyRead len (suc fuel) r c body v e h = elim (Bool-cases (length body == len)) [
  | inl full ↦ rw (e, full, body_loop) (v, (body, e, (==_iff _ _).0 full, refl, refl))
  | inr short ↦
      let (w, gives) = read-Delivers c in
      rw (e, short, body_loop)
        (more_body-BodyRead len (body_loop len fuel) r body (signals c.incoming) (read c).0
          (read c).1 w gives λ b w' less. body_loop-BodyRead len fuel _ _ _ w' refl (omega arith))
]

-- The part of the body that is there: what was read before, or at first what the buffer holds.
abbrev pub sofar : HttpRequest → Client → Text
sofar r c = elim r.body [ none ↦ unread c.buf | some body ↦ body ]

sofar-BodyRead :
    (len fuel : ℕ) (r : HttpRequest) (c : Client)
    → IsValid c.buf
    → length (signals c.incoming) < fuel
    → BodyRead len (sofar r c) (signals c.incoming) (body_loop len (suc fuel) r c)
unfolding body_loop
sofar-BodyRead len fuel r c v h = elim (Option-cases r.body) [
  | inl e ↦
      let (b, got, u, w) = Laws.tail-unread c.buf v in
      let r' = record r { body = some (unread c.buf) } in
      rw (e, got, body_loop)
        (body_loop-BodyRead len fuel r' (record c { buf = b }) (unread c.buf) w refl h)
  | inr (body, e) ↦
      let there : sofar r c ≡ body = ap (λ b. elim b [ none ↦ unread c.buf | some t ↦ t ]) e in
      subst (λ t. BodyRead len t (signals c.incoming) (body_loop len (suc fuel) r c)) (sym there)
        (body_loop-BodyRead len (suc fuel) r c body v e (omega arith))
]

-- For a request that is not past its body and has a positive content length, on a connection whose
-- buffer is in order, `read_body` returns, keeps the buffer in order, and returns `OK` only with a
-- body of exactly that length, which is the part that was there followed by the bytes that came
-- next; the request is then complete.
pub read_body-BodyRead :
    (len : ℕ) (r : HttpRequest) (c : Client)
    → IsValid c.buf
    → past st_body r ≡ false
    → r.content_length ≡ some len
    → 0 < len
    → BodyRead len (sofar r c) (signals c.incoming) (read_body r c)
unfolding read_body
read_body-BodyRead len r c v early e h =
    let positive : ltb 0 len ≡ true = lt→ltb 0 len h in
    rw (early, e, positive, read_body)
      (sofar-BodyRead len (enough c) (enter st_body r) c v (omega arith))

-- A parser that returns, and leaves the positions of the buffer in order.
abbrev pub Returns : Parsed → Type 0
Returns (r, c, res) = (res ≢ none) × IsValid c.buf

BodyRead-Returns :
    (len : ℕ) (part : Text) (ss : List Signal) (p : Parsed) → BodyRead len part ss p → Returns p
BodyRead-Returns len part ss (r, c, none) h = absurd h
BodyRead-Returns len part ss (r, c, some (ok done)) (v, h) = ((λ e. cc), v)
BodyRead-Returns len part ss (r, c, some (ok again)) v = ((λ e. cc), v)
BodyRead-Returns len part ss (r, c, some (ok declined)) v = ((λ e. cc), v)
BodyRead-Returns len part ss (r, c, some (err x)) v = ((λ e. cc), v)

read_body-Returns : (r : HttpRequest) (c : Client) → IsValid c.buf → Returns (read_body r c)
unfolding read_body
read_body-Returns r c v = elim (Bool-cases (past st_body r)) [
  | inl over ↦ rw (over, read_body) ((λ e. cc), v)
  | inr early ↦ elim (Option-cases r.content_length) [
    | inl e ↦ rw (early, e, read_body) ((λ q. cc), v)
    | inr (len, e) ↦ elim (Bool-cases (ltb 0 len)) [
      | inl some_bytes ↦
          rw (early, e, some_bytes, read_body)
            (BodyRead-Returns len (sofar (enter st_body r) c) (signals c.incoming)
              (body_loop len (suc (enough c)) (enter st_body r) c)
              (sofar-BodyRead len (enough c) (enter st_body r) c v (omega arith)))
      | inr no_bytes ↦ rw (early, e, no_bytes, read_body) ((λ q. cc), v)
    ]
  ]
]

Follows-Returns : (p : Parsed) (o : OnSignals) → Follows p o → Returns p
Follows-Returns (r, c, res) (s, ss, out) (e, f, g, v) = ((λ q. cc), v)

and_then-some :
    (p : Parsed) (next : HttpRequest → Client → Parsed)
    → Returns p
    → ((r : HttpRequest) (c : Client) → IsValid c.buf → (next r c).2 ≢ none)
    → (and_then p next).2 ≢ none
and_then-some (r, c, some (ok done)) next (n, v) h = h r c v
and_then-some (r, c, some (ok again)) next (n, v) h = n
and_then-some (r, c, some (ok declined)) next (n, v) h = n
and_then-some (r, c, some (err e)) next (n, v) h = n
and_then-some (r, c, none) next (n, v) h = n

extend-IsWritable : (s : Text) (b : Buffer) → IsValid b → IsWritable (Buffer.extend s b)
unfolding Buffer.extend
extend-IsWritable s b v = record {
  written = omega (arith, v.sent);
  stored = omega (arith, v.held, length-append b.bytes s);
}

either-some : (b : Bool) (p q : Parsed) → p.2 ≢ none → q.2 ≢ none → (if b then p else q).2 ≢ none
either-some true p q h k = h
either-some false p q h k = k

after_continue-some :
    (r : HttpRequest) (c : Client) (out : Client × Option (Result CoreError (Code × ℕ)))
    → Flushed c out
    → (after_continue r out).2 ≢ none
after_continue-some r c (c', some (ok sent)) h = λ e. cc
after_continue-some r c (c', some (err x)) h = λ e. cc
after_continue-some r c (c', none) h = absurd h

module _ (decoder : Decoder) ⦃e : Eq Key⦄ where
  -- From any request, on any connection whose buffer is in order, `parse` returns: it never panics and it
  -- does not loop for ever.
  pub parse-returns : (r : HttpRequest) (c : Client) → IsValid c.buf → (parse decoder r c).2 ≢ none
  unfolding parse write
  parse-returns r c v =
      and_then-some (parse_request_line decoder r c) _
        (Follows-Returns (parse_request_line decoder r c) (line_signals decoder r (ahead c))
          (parse_request_line-Follows decoder r c v))
        λ r c v.
          and_then-some (parse_headers r c) _
            (Follows-Returns (parse_headers r c) (headers_signals r (ahead c))
              (parse_headers-Follows r c v))
            λ r c v.
              let w = extend-IsWritable continue_reply c.buf v in
              either-some r.context.expect_100_continue
                (after_continue r (flush (write continue_reply c))) (read_body r c)
                (after_continue-some r (write continue_reply c) (flush (write continue_reply c))
                  (flush-Flushed (write continue_reply c) w))
                ((read_body-Returns r c v).0)
