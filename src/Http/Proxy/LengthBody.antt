-- ===== src/Http/Proxy/LengthBody.antt =====
-- http/plugins/proxy.rs: `read_body` on a response that has a content length.
use ws_platform.Common.{
  ℕ, zero, suc, ◌-◌, ◌<◌, ◌≤◌, Text, none, some, false, if◌then◌else◌, ◌≡◌, refl, List, [], ◌∷◌,
  ◌++◌, length, take, drop, arith, ap, sym, ◌∙◌, subst, append_assoc, length-append, length-map,
  length-take, length-drop, take-append-drop, map-append, get_or, Bool-cases, inl, inr, ltb, ltb→lt,
}
use ws_platform.Error.{Result, ok, err, Code, done, again, declined, CoreError}
use ws_platform.Buffer
use ws_platform.Buffer.Laws
use ws_platform.Buffer.Laws.{IsValid, unread}
use ws_platform.Client.{Client, read}
use ws_platform.Client.Signals.{Signal, byte, bytes_of, ahead, signals, Delivers, read-Delivers}
use ws_platform.Http.Scan.{enough, length_pos}
use ws_platform.Http.Response.{HttpResponse, append_body, chunked}
use ws_platform.Http.Proxy.{Proxied, Parsed, enter, st_body, st_parsed, past}
use ws_platform.Http.Proxy.Body.{
  take_chunk, bytes_left, slice_panics, append_bytes, length_loop, after_read, read_body,
  on_response, body_len, go_on,
}
use ws_platform.Http.Proxy.ChunkedBody.{body_of, body_len-body}

nil_of : (t : Text) → length t ≡ 0 → t ≡ []
nil_of [] h = refl
nil_of (c ∷ t) h = absurd (omega (arith, h))

append_body-body :
    (t : Text) (r : HttpResponse) → get_or (append_body t r).body [] ≡ get_or r.body [] ++ t
unfolding append_body
append_body-body t r = elim (Bool-cases (chunked r)) [
  | inl k ↦ rw (k, append_body) refl
  | inr k ↦ elim (Bool-cases r.headers_sent) [
    | inl s ↦ rw (k, s, append_body) refl
    | inr s ↦ rw (k, s, append_body) refl
  ]
]

-- A step that moves bytes from the signals to the body, up to a length; where the body is not full, nothing
-- is left in the buffer.
pub record Takes (len : ℕ) (p p' : Proxied) (c c' : Client) : Type 0 where
  pub valid : IsValid c'.buf
  pub fits : length (body_of p') ≤ len
  pub moved : bytes_of (body_of p') ++ ahead c' ≡ bytes_of (body_of p) ++ ahead c
  pub drained : length (body_of p') < len → unread c'.buf ≡ []
  pub script : c'.incoming ≡ c.incoming

take_chunk-Takes :
    (len : ℕ) (p : Proxied) (c : Client)
    → IsValid c.buf
    → length (body_of p) ≤ len
    → (p' : Proxied) × (c' : Client) × (take_chunk len p c ≡ some (p', c')) × Takes len p p' c c'
unfolding take_chunk
take_chunk-Takes len p c v h =
    let n = len - body_len p.response in
    let t = take n (unread c.buf) in
    let rest = drop n (unread c.buf) in
    let (b, got, left, w) = Laws.chunk-unread n c.buf v in
    let size = body_len-body p.response in
    let room : ltb len (body_len p.response) ≡ false = ground (arith, size, h) in
    let same : bytes_left len (body_len p.response) ≡ n = rw room refl in
    let fine : slice_panics len (body_len p.response) c.buf.rpos ≡ false = rw room refl in
    let found : Buffer.chunk (bytes_left len (body_len p.response)) c.buf ≡ some (t, b) =
      ap (λ k. Buffer.chunk k c.buf) same ∙ got in
    let p' = on_response (append_body t) p in
    let c' : Client = record c { buf = b } in
    let body : body_of p' ≡ body_of p ++ t = append_body-body t p.response in
    let sizes = length-append (body_of p) t in
    let taken = length-take n (unread c.buf) in
    (
      p',
      c',
      ap
            (λ f.
              if f
              then none
              else append_bytes p c (Buffer.chunk (bytes_left len (body_len p.response)) c.buf))
            fine
          ∙ ap (append_bytes p c) found,
      record {
        valid = w;
        fits = rw body (ground (arith, sizes, taken, size, h));
        moved =
            rw
              (
                body,
                left,
                map-append byte (body_of p) t,
                append_assoc (bytes_of (body_of p)) (bytes_of t)
                    (bytes_of rest ++ signals c.incoming),
              )
              (ap (λ s. bytes_of (body_of p) ++ s)
                (sym (append_assoc (bytes_of t) (bytes_of rest) (signals c.incoming))
                  ∙ ap (λ s. s ++ signals c.incoming)
                      (sym (map-append byte t rest)
                        ∙ ap bytes_of (take-append-drop n (unread c.buf)))));
        drained = λ less.
            left
            ∙ nil_of rest (
                ground
                  (arith, length-drop n (unread c.buf), sizes, taken, size, ap length body, less));
        script = refl;
      },
    )

-- How the reading of a body of `len` bytes ends that has `sofar` of them, with the signals `ss` to come.
abbrev pub LengthRead : ℕ → Text → List Signal → Parsed → Type 0
LengthRead len sofar ss (p, c, none) = ⊥
LengthRead len sofar ss (p, c, some (ok done)) =
    IsValid c.buf
    × (p.context.state ≡ st_parsed)
    × (length (body_of p) ≡ len)
    × (bytes_of (body_of p) ++ ahead c ≡ bytes_of sofar ++ ss)
LengthRead len sofar ss (p, c, some (ok again)) = IsValid c.buf
LengthRead len sofar ss (p, c, some (ok declined)) = IsValid c.buf
LengthRead len sofar ss (p, c, some (err e)) = IsValid c.buf

LengthRead-same :
    (len : ℕ) (sofar sofar' : Text) (ss ss' : List Signal) (p : Parsed)
    → bytes_of sofar ++ ss ≡ bytes_of sofar' ++ ss'
    → LengthRead len sofar ss p
    → LengthRead len sofar' ss' p
LengthRead-same len sofar sofar' ss ss' (p, c, none) same h = h
LengthRead-same len sofar sofar' ss ss' (p, c, some (ok done)) same (v, s, l, f) =
    (v, s, l, f ∙ same)
LengthRead-same len sofar sofar' ss ss' (p, c, some (ok again)) same v = v
LengthRead-same len sofar sofar' ss ss' (p, c, some (ok declined)) same v = v
LengthRead-same len sofar sofar' ss ss' (p, c, some (err e)) same v = v

go_on-Reads :
    (len : ℕ) (p : Proxied) (c : Client) (next : Proxied → Client → Parsed)
    → IsValid c.buf
    → length (body_of p) ≤ len
    → ((p' : Proxied) (c' : Client)
        → Takes len p p' c c'
        → LengthRead len (body_of p') (ahead c') (next p' c'))
    → LengthRead len (body_of p) (ahead c) (go_on next p c (take_chunk len p c))
go_on-Reads len p c next v h ih =
    let (p', c', e, takes) = take_chunk-Takes len p c v h in
    rw e (
      LengthRead-same len (body_of p') (body_of p) (ahead c') (ahead c) (next p' c') takes.moved
        (ih p' c' takes))

after_read-Reads :
    (len : ℕ) (next : Proxied → Client → Parsed) (p : Proxied) (ss : List Signal) (c : Client)
    (r : Result CoreError Code)
    → IsValid c.buf
    → Delivers ss c.buf c.incoming r
    → length (body_of p) ≤ len
    → ((p' : Proxied) (c' : Client)
        → Takes len p p' c c'
        → length (signals c'.incoming) < length ss
        → LengthRead len (body_of p') (ahead c') (next p' c'))
    → LengthRead len (body_of p) ss (after_read next len p (c, r))
after_read-Reads len next p ss c (ok done) v (inl (e, u, split)) h ih =
    let positive : 0 < length (unread c.buf) = length_pos (unread c.buf) u in
    let fewer : length (signals c.incoming) < length ss = rw split (
      omega (
        arith,
        length-append (bytes_of (unread c.buf)) (signals c.incoming),
        length-map (unread c.buf) byte,
        positive,
      )) in
    subst (λ s. LengthRead len (body_of p) s (go_on next p c (take_chunk len p c))) (sym split)
      (go_on-Reads len p c next v h λ p' c' takes. ih p' c' takes (rw takes.script fewer))
after_read-Reads len next p ss c (ok done) v (inr (inl (e, u, split))) h ih = absurd (e refl)
after_read-Reads len next p ss c (ok done) v (inr (inr (e, u, n, k))) h ih = cc
after_read-Reads len next p ss c (ok again) v d h ih = v
after_read-Reads len next p ss c (ok declined) v d h ih = v
after_read-Reads len next p ss c (err e) v d h ih = v

length_loop-Reads :
    (len fuel : ℕ) (p : Proxied) (c : Client)
    → IsValid c.buf
    → length (body_of p) ≤ len
    → (length (body_of p) < len → unread c.buf ≡ [])
    → length (signals c.incoming) < fuel
    → LengthRead len (body_of p) (ahead c) (length_loop len fuel p c)
unfolding length_loop
length_loop-Reads len zero p c v h empty less = absurd (omega arith)
length_loop-Reads len (suc fuel) p c v h empty less =
    elim (Bool-cases (ltb (body_len p.response) len)) [
      | inr full ↦
          rw (full, length_loop) (v, refl, ground (arith, full, body_len-body p.response, h), refl)
      | inl short ↦
          let below : length (body_of p) < len =
            omega (arith, ltb→lt (body_len p.response) len short, body_len-body p.response) in
          let (w, gives) = read-Delivers c in
          let none_left : ahead c ≡ signals c.incoming =
            ap (λ t. bytes_of t ++ signals c.incoming) (empty below) in
          rw (short, length_loop)
            (subst
              (λ s. LengthRead len (body_of p) s (after_read (length_loop len fuel) len p (read c)))
              (sym none_left)
              (after_read-Reads len (length_loop len fuel) p (signals c.incoming) (read c).0
                (read c).1 w gives h
                λ p' c' takes fewer.
                  length_loop-Reads len fuel p' c' takes.valid takes.fits takes.drained
                    (omega (arith, fewer))))
    ]

-- For a response that has a content length and is not past its body, with no more of the body than that, on a
-- connection whose buffer is in order, `read_body` returns without a panic, keeps the buffer in order,
-- and returns `OK` only with a body of exactly that length, which is the part that was there followed by
-- the bytes that came next; what follows is still to come.
pub read_body-LengthRead :
    (len : ℕ) (p : Proxied) (c : Client)
    → IsValid c.buf
    → past st_body p ≡ false
    → p.response.content_length ≡ some len
    → length (body_of p) ≤ len
    → LengthRead len (body_of p) (ahead c) (read_body p c)
unfolding read_body
read_body-LengthRead len p c v early e h =
    rw (early, e, read_body)
      (go_on-Reads len (enter st_body p) c (length_loop len (enough c)) v h λ p' c' takes.
        length_loop-Reads len (enough c) p' c' takes.valid takes.fits takes.drained
          (rw takes.script (omega arith)))
