-- ===== src/Http/Request/Faults.antt =====
-- http/internal/request.rs: behaviour of the parsers that their callers must know.
use ws_platform.Common.{
  ℕ, zero, suc, ◌≤◌, ◌<◌, Text, codes, Option, none, some, true, false, ◌≡◌, ◌≢◌, refl, List, [],
  ◌∷◌, ◌++◌, ltb, arith, length, Eq, Bool-cases, inl, inr, ◌⊎◌, ap, ◌∙◌, length-append,
  Option-cases, subst, ◌==◌, insert,
}
use ws_platform.Error.{
  Result, ok, err, Code, done, again, declined, CoreError, HttpResult, http_throw,
}
use ws_platform.Buffer.{Buffer}
use ws_platform.Buffer
use ws_platform.Buffer.Laws
use ws_platform.Buffer.Laws.{IsValid, unread}
use ws_platform.KeyVal.{Key, add}
use ws_platform.Client.{Client, read}
use ws_platform.Client.Signals.{Signal, byte, stop, ahead}
use ws_platform.Http.Scan.{Verdict, more, returns, panics, run, enough}
use ws_platform.Http.Request.{
  HttpRequest, HttpRequestParseContext, Decoder, past, enter, Parsed, st_query, st_headers, st_body,
}
use ws_platform.Http.Request.Line.{
  read_more, closed_line, step_args, end_query, end_arg, add_arg, collect, parse_args,
}
use ws_platform.Http.Request.Headers.{step_headers, parse_headers}
use ws_platform.Http.Request.Body.{more_body, body_loop, read_body}
use ws_platform.Http.Request.Complete.{sofar}
use ws_platform.Http.Request.Laws.{
  parse_headers-Follows, headers_signals, parse_args-Follows, args_signals,
}

module _ ⦃e : Eq Key⦄ where
  -- A call of the parser that is not past the headers fails if the next byte is a line feed: so a header
  -- line that a read without data cuts between its carriage return and its line feed is refused. The
  -- buffer is in order.
  pub parse_headers-cut :
      (r : HttpRequest) (c : Client) (ss : List Signal)
      → IsValid c.buf
      → past st_headers r ≡ false
      → ahead c ≡ byte 0x0A ∷ ss
      → (parse_headers r c).2 ≡ some (http_throw (codes "Invalid header line"))
  unfolding headers_signals run step_headers
  parse_headers-cut r c ss v early e =
      let (same, res, rest, w) = parse_headers-Follows r c v in
      res ∙ rw (early, e, headers_signals) refl

-- A body that has grown past the content length is never complete.
more_body-overlong :
    (len : ℕ) (round : HttpRequest → Client → Parsed) (r : HttpRequest) (body : Text)
    (out : Client × Result CoreError Code)
    → ((bs : Text) (c : Client)
        → (round (record r { body = some (body ++ bs) }) c).2 ≢ some (ok done))
    → (more_body round r body out).2 ≢ some (ok done)
unfolding more_body
more_body-overlong len round r body (c, ok done) h = elim (Option-cases (Buffer.tail c.buf)) [
  | inl e ↦ rw (e, more_body) (λ q. cc)
  | inr ((bs, b), e) ↦ rw (e, more_body) (h bs (record c { buf = b }))
]
more_body-overlong len round r body (c, ok again) h = λ q. cc
more_body-overlong len round r body (c, ok declined) h = λ q. cc
more_body-overlong len round r body (c, err e) h = λ q. cc

body_loop-overlong :
    (len fuel : ℕ) (r : HttpRequest) (c : Client) (body : Text)
    → r.body ≡ some body
    → len < length body
    → (body_loop len fuel r c).2 ≢ some (ok done)
unfolding body_loop
body_loop-overlong len zero r c body e h = λ q. cc
body_loop-overlong len (suc fuel) r c body e h =
    let longer : (length body == len) ≡ false = ground arith in
    rw (e, longer, body_loop)
      (more_body-overlong len (body_loop len fuel) r body (read c) λ bs d.
        body_loop-overlong len fuel _ d (body ++ bs) refl (omega (arith, length-append body bs)))

first_body-overlong :
    (len fuel : ℕ) (r : HttpRequest) (c : Client)
    → IsValid c.buf
    → len < length (sofar r c)
    → (body_loop len (suc fuel) r c).2 ≢ some (ok done)
unfolding body_loop
first_body-overlong len fuel r c v long = elim (Option-cases r.body) [
  | inl e ↦
      let (b, got, u, w) = Laws.tail-unread c.buf v in
      let there = ap (λ o. elim o [ none ↦ unread c.buf | some t ↦ t ]) e in
      rw (e, got, body_loop)
        (body_loop-overlong len fuel _ (record c { buf = b }) (unread c.buf) refl
          (subst (λ t. len < length t) there long))
  | inr (body, e) ↦
      let there = ap (λ o. elim o [ none ↦ unread c.buf | some t ↦ t ]) e in
      body_loop-overlong len (suc fuel) r c body e (subst (λ t. len < length t) there long)
]

-- A request that is not past its body and has a positive content length, with more bytes there than
-- that length, is never complete, whatever arrives later: `read_body` does not return `OK`. The
-- buffer is in order.
pub read_body-overlong :
    (len : ℕ) (r : HttpRequest) (c : Client)
    → IsValid c.buf
    → past st_body r ≡ false
    → r.content_length ≡ some len
    → 0 < len
    → len < length (sofar r c)
    → (read_body r c).2 ≢ some (ok done)
unfolding read_body
read_body-overlong len r c v early e h long =
    let positive : ltb 0 len ≡ true = ground arith in
    rw (early, e, positive, read_body)
      (first_body-overlong len (enough c) (enter st_body r) c v long)

module _ (decoder : Decoder) ⦃e : Eq Key⦄ where
  -- Between two bytes of the query: while a value is read there are no arguments.
  abbrev OneAtMost : HttpRequest → Type 0
  OneAtMost r = (length r.args ≤ 1) × (r.context.val ≢ none → r.args ≡ [])

  abbrev After : Verdict HttpRequest → Type 0
  After (more r) = OneAtMost r
  After (returns r res) = length r.args ≤ 1
  After panics = Unit

  length-add_arg :
      (k v : Text) (r : HttpRequest) → r.args ≡ [] → length (add_arg decoder k v r).args ≡ 1
  unfolding add_arg add insert
  length-add_arg k v r h = rw h refl

  end_query-After : (r : HttpRequest) → OneAtMost r → After (end_query decoder r)
  unfolding end_query
  end_query-After r (n, h) = elim (Option-cases r.context.key) [
    | inl no_key ↦ rw (no_key, end_query) n
    | inr (k, has_key) ↦ elim (Option-cases r.context.val) [
      | inl no_val ↦ rw (has_key, no_val, end_query) n
      | inr (v, has_val) ↦
          let none_yet : r.args ≡ [] = h (λ q. cc) in
          rw (has_key, has_val, end_query) (omega (arith, length-add_arg k v r none_yet))
    ]
  ]

  end_arg-After : (r : HttpRequest) → OneAtMost r → After (end_arg decoder r)
  unfolding end_arg
  end_arg-After r (n, h) = elim (Option-cases r.context.key) [
    | inl no_key ↦ rw (no_key, end_arg) n
    | inr (k, has_key) ↦ elim (Option-cases r.context.val) [
      | inl no_val ↦ rw (has_key, no_val, end_arg) n
      | inr (v, has_val) ↦
          let none_yet : r.args ≡ [] = h (λ q. cc) in
          rw (has_key, has_val, end_arg)
            (omega (arith, length-add_arg k v r none_yet), λ q. absurd (q refl))
    ]
  ]

  collect-val :
      (c : ℕ) (p : HttpRequestParseContext) → p.val ≡ none → (collect decoder c p).val ≡ none
  collect-val c p h = elim (Option-cases p.key) [
    | inl k ↦ ground (arith, h, k)
    | inr (t, k) ↦ ground (arith, h, k)
  ]

  step_args-After : (r : HttpRequest) (c : ℕ) → OneAtMost r → After (step_args decoder r c)
  unfolding step_args
  step_args-After r c (n, h) = elim (Bool-cases (c == b'=')) [
    | inl equals ↦ rw (equals, step_args) (omega arith, λ q. refl)
    | inr not_equals ↦ elim (Bool-cases (c == b' ')) [
      | inl space ↦ rw (not_equals, space, step_args) (end_query-After r (n, h))
      | inr not_space ↦ elim (Bool-cases (c == b'&')) [
        | inl ampersand ↦ rw (not_equals, not_space, ampersand, step_args) (end_arg-After r (n, h))
        | inr plain ↦
            rw (not_equals, not_space, plain, step_args)
              (n, λ q. h (λ none_yet. q (collect-val c r.context none_yet)))
      ]
    ]
  ]

  Verdict-cases :
      (v : Verdict HttpRequest)
      → ((s : HttpRequest) × (v ≡ more s))
        ⊎ ((s : HttpRequest) × (res : HttpResult) × (v ≡ returns s res))
        ⊎ (v ≡ panics)
  Verdict-cases (more s) = inl (s, refl)
  Verdict-cases (returns s res) = inr (inl (s, res, refl))
  Verdict-cases panics = inr (inr refl)

  run-After :
      (closed : Option ℕ → Result CoreError Code → HttpResult) (r : HttpRequest) (ss : List Signal)
      → OneAtMost r
      → length (run (step_args decoder) closed r ss).0.args ≤ 1
  unfolding run
  run-After closed r [] (n, h) = n
  run-After closed r (stop res ∷ ss) (n, h) = n
  run-After closed r (byte c ∷ ss) o =
      let after = step_args-After r c o in
      elim (Verdict-cases (step_args decoder r c)) [
        | inl (s, e) ↦ rw (e, run) (run-After closed s ss (subst After e after))
        | inr (inl (s, res, e)) ↦ rw (e, run) (subst After e after)
        | inr (inr e) ↦ rw (e, run) (o.0)
      ]

  -- From a request that is not past its query and has no arguments, the parser of the query leaves one
  -- argument name at most, whatever the query is: each `=` drops those before it. The buffer is in
  -- order.
  pub parse_args-one :
      (r : HttpRequest) (c : Client)
      → IsValid c.buf
      → past st_query r ≡ false
      → r.args ≡ []
      → length (parse_args decoder r c).0.args ≤ 1
  unfolding args_signals
  parse_args-one r c v early empty =
      let (same, rest, g, w) = parse_args-Follows decoder r c v in
      let kept : length (args_signals decoder r (ahead c)).0.args ≤ 1 =
        rw (early, args_signals)
          (run-After (read_more closed_line) (enter st_query r) (ahead c)
            (rw empty (omega arith), λ q. empty)) in
      rw same kept
