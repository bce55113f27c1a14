-- ===== src/Http/Proxy/Twice.antt =====
-- http/plugins/proxy.rs: what an upstream gets of a request that its socket does not take whole.
use ws_platform.Common.{
  ℕ, Text, codes, Option, none, some, Bool, false, ltb, ◌≡◌, ◌<◌, refl, subst, sym, ap, ◌∙◌, arith,
  Eq, List, [], ◌∷◌, ◌++◌, length, append_assoc, append-nil, remove, Bool-cases, Option-cases, inl,
  inr,
}
use ws_platform.Error.{Result, ok, err, Code, done, again, declined, CoreError}
use ws_platform.Buffer.{Buffer}
use ws_platform.Buffer
use ws_platform.KeyVal.{Key, key, remove_name}
use ws_platform.Client.{
  Client, Outgoing, ErrorKind, write, flush, flush_loop, write_buffer, sent_on, flush_result,
}
use ws_platform.Client.Flush.{pending, Flushed, flush-Flushed}
use ws_platform.Http.Request.{HttpRequest}
use ws_platform.Http.Response.Wire.{IsSending, write-IsSending, sending-pending}
use ws_platform.Http.Proxy.{HttpProxyContext, rank, st_request_prepared}
use ws_platform.Http.Proxy.Send.{
  send_request, prepare_request, after_flush, wire, without_connection,
}

-- What a flush leaves alone.
abbrev Keeps : Buffer → Buffer → Type 0
Keeps b b' = (b'.end ≡ b.end) × (b'.bytes ≡ b.bytes)

write_buffer-Keeps :
    (answer : Outgoing) (b : Buffer) (out : Buffer × Result ErrorKind (Bool × ℕ) × Text)
    → write_buffer answer b ≡ some out
    → Keeps b out.0
unfolding write_buffer Buffer.wrote
write_buffer-Keeps answer b out e = ground arith

abbrev Leaves : Client → Client × Option (Result CoreError (Code × ℕ)) → Type 0
Leaves c out = Keeps c.buf out.0.buf

Keeps-trans : (a b c : Buffer) → Keeps a b → Keeps b c → Keeps a c
Keeps-trans a b c (x, y) (z, w) = (z ∙ x, w ∙ y)

flush_loop-Leaves : (script : List Outgoing) (c : Client) → Leaves c (flush_loop script c)
unfolding flush_loop
flush_loop-Leaves [] c = elim (Bool-cases (ltb c.buf.wpos c.buf.end)) [
  | inr over ↦ rw (over, flush_loop) (refl, refl)
  | inl left ↦ elim (Option-cases (write_buffer (Outgoing.failed ErrorKind.would_block) c.buf)) [
    | inl bad ↦ rw (left, bad, flush_loop) (refl, refl)
    | inr ((b, res, bs), e) ↦
        rw (left, e, flush_loop)
          (write_buffer-Keeps (Outgoing.failed ErrorKind.would_block) c.buf (b, res, bs) e)
  ]
]
flush_loop-Leaves (answer ∷ script) c = elim (Bool-cases (ltb c.buf.wpos c.buf.end)) [
  | inr over ↦ rw (over, flush_loop) (refl, refl)
  | inl left ↦ elim (Option-cases (write_buffer answer c.buf)) [
    | inl bad ↦ rw (left, bad, flush_loop) (refl, refl)
    | inr ((b, res, bs), e) ↦
        let k = write_buffer-Keeps answer c.buf (b, res, bs) e in
        elim (Option-cases (flush_result res)) [
          | inr (r, q) ↦ rw (left, e, q, flush_loop) k
          | inl q ↦
              rw (left, e, q, flush_loop)
                (Keeps-trans c.buf b (flush_loop script (sent_on c script b bs)).0.buf k
                  (flush_loop-Leaves script (sent_on c script b bs)))
        ]
  ]
]

-- A text that is written and flushed, on a connection that only writes.
flush-sent :
    (t : Text) (c d : Client) (r : Result CoreError (Code × ℕ))
    → IsSending c
    → flush (write t c) ≡ (d, some r)
    → (d.sent ++ pending d.buf ≡ c.sent ++ pending c.buf ++ t)
      × IsSending d
      × ((n : ℕ) → r ≡ ok (done, n) → pending d.buf ≡ [])
unfolding flush write
flush-sent t c d r h e =
    let s = write-IsSending t c h in
    let (kept, w, over) = subst (Flushed (write t c)) e (flush-Flushed (write t c) s.writable) in
    let k = subst (Leaves (write t c)) e (flush_loop-Leaves c.outgoing (write t c)) in
    (
      kept
          ∙ ap (λ x. c.sent ++ x) (sending-pending t c h)
          ∙ sym (append_assoc c.sent (pending c.buf) t),
      record { writable = w; full = k.0 ∙ s.full ∙ ap (λ bs. length bs) (sym k.1) },
      over,
    )

module _ {K V : Type 0} ⦃e : Eq K⦄ where
  -- A key that was removed is gone.
  remove_twice : (k : K) (m : List (K × V)) → remove k (remove k m) ≡ remove k m
  unfolding remove
  remove_twice k [] = refl
  remove_twice k ((j, v) ∷ m) = elim (Bool-cases (e.same j k)) [
    | inl same ↦ rw (same, remove) (remove_twice k m)
    | inr other ↦ rw (other, remove, other, remove) (ap (◌∷◌ (j, v)) (remove_twice k m))
  ]

module _ (url_encode : Text → Text) ⦃e : Eq Key⦄ where
  without_twice :
      (r : HttpRequest)
      → without_connection url_encode (without_connection url_encode r)
        ≡ without_connection url_encode r
  unfolding remove_name
  without_twice r =
      ap (λ hs. record r { headers = hs }) (remove_twice (key (codes "connection")) r.headers)

  -- A call that ended with AGAIN, and one that ended with OK, by what the flush did.
  after_flush-again :
      (ctx ctx1 : HttpProxyContext) (r r1 : HttpRequest) (c1 : Client)
      (out : Client × Option (Result CoreError (Code × ℕ)))
      → after_flush url_encode ctx r out ≡ ((ctx1, r1, c1), some (ok again))
      → (n : ℕ) × (out ≡ (c1, some (ok (again, n)))) × (ctx1 ≡ ctx) × (r1 ≡ r)
  after_flush-again ctx ctx1 r r1 c1 (c, some (ok (done, n))) h = absurd (cc)
  after_flush-again ctx ctx1 r r1 c1 (c, some (ok (again, n))) h = (n, cc, cc, cc)
  after_flush-again ctx ctx1 r r1 c1 (c, some (ok (declined, n))) h = absurd (cc)
  after_flush-again ctx ctx1 r r1 c1 (c, some (err x)) h = absurd (cc)
  after_flush-again ctx ctx1 r r1 c1 (c, none) h = absurd (cc)

  after_flush-done :
      (ctx ctx1 : HttpProxyContext) (r r1 : HttpRequest) (c1 : Client)
      (out : Client × Option (Result CoreError (Code × ℕ)))
      → after_flush url_encode ctx r out ≡ ((ctx1, r1, c1), some (ok done))
      → (d : Client) × (n : ℕ) × (out ≡ (d, some (ok (done, n)))) × (c1.sent ≡ d.sent)
  after_flush-done ctx ctx1 r r1 c1 (c, some (ok (done, n))) h =
      (c, n, refl, ap (λ o. o.0.2.sent) (sym h))
  after_flush-done ctx ctx1 r r1 c1 (c, some (ok (again, n))) h = absurd (cc)
  after_flush-done ctx ctx1 r r1 c1 (c, some (ok (declined, n))) h = absurd (cc)
  after_flush-done ctx ctx1 r r1 c1 (c, some (err x)) h = absurd (cc)
  after_flush-done ctx ctx1 r r1 c1 (c, none) h = absurd (cc)

  prepares :
      (ctx : HttpProxyContext) (r : HttpRequest) (c : Client)
      → ltb (rank st_request_prepared) (rank ctx.state) ≡ false
      → send_request url_encode ctx r c
        ≡ after_flush url_encode
            (record ctx { state = st_request_prepared })
            (without_connection url_encode r)
            (flush (write (wire url_encode (without_connection url_encode r)) c))
  unfolding send_request prepare_request
  prepares ctx r c early = rw (early, send_request, prepare_request) refl

  -- A call that prepares the request and ends with AGAIN.
  send_request-again :
      (ctx ctx1 : HttpProxyContext) (r r1 : HttpRequest) (c c1 : Client)
      → IsSending c
      → ltb (rank st_request_prepared) (rank ctx.state) ≡ false
      → send_request url_encode ctx r c ≡ ((ctx1, r1, c1), some (ok again))
      → (c1.sent ++ pending c1.buf ≡ c.sent ++ pending c.buf ++ wire url_encode r1)
        × IsSending c1
        × (ctx1 ≡ record ctx { state = st_request_prepared })
        × (r1 ≡ without_connection url_encode r)
  send_request-again ctx ctx1 r r1 c c1 h early over =
      let q = without_connection url_encode r in
      let (n, e, same_ctx, same_r) =
        after_flush-again (record ctx { state = st_request_prepared }) ctx1 q r1 c1
          (flush (write (wire url_encode q) c)) (sym (prepares ctx r c early) ∙ over) in
      let (all, s, more) = flush-sent (wire url_encode q) c c1 (ok (again, n)) h e in
      (
        all ∙ ap (λ x. c.sent ++ pending c.buf ++ wire url_encode x) (sym same_r),
        s,
        same_ctx,
        same_r,
      )

  -- A call that prepares the request and ends with OK.
  send_request-done :
      (ctx ctx2 : HttpProxyContext) (r r2 : HttpRequest) (c c2 : Client)
      → IsSending c
      → ltb (rank st_request_prepared) (rank ctx.state) ≡ false
      → send_request url_encode ctx r c ≡ ((ctx2, r2, c2), some (ok done))
      → c2.sent ≡ c.sent ++ pending c.buf ++ wire url_encode (without_connection url_encode r)
  send_request-done ctx ctx2 r r2 c c2 h early over =
      let q = without_connection url_encode r in
      let (d, n, e, same) =
        after_flush-done (record ctx { state = st_request_prepared }) ctx2 q r2 c2
          (flush (write (wire url_encode q) c)) (sym (prepares ctx r c early) ∙ over) in
      let (all, s, over) = flush-sent (wire url_encode q) c d (ok (done, n)) h e in
      same ∙ sym (append-nil d.sent) ∙ ap (λ x. d.sent ++ x) (sym (over n refl)) ∙ all

  -- A request that the socket does not take whole is sent twice: where `send_request` ends with AGAIN and
  -- its next call, with whatever the socket does then, with OK, all that is sent after what was pending
  -- is the whole request and the whole request again. The connection only writes, and the request was
  -- not prepared before.
  pub send_request-twice :
      (ctx ctx1 ctx2 : HttpProxyContext) (r r1 r2 : HttpRequest) (c c1 c2 : Client)
      (later : List Outgoing)
      → IsSending c
      → rank ctx.state < rank st_request_prepared
      → send_request url_encode ctx r c ≡ ((ctx1, r1, c1), some (ok again))
      → send_request url_encode ctx1 r1 (record c1 { outgoing = later })
        ≡ ((ctx2, r2, c2), some (ok done))
      → c2.sent ≡ c.sent ++ pending c.buf ++ wire url_encode r1 ++ wire url_encode r1
  send_request-twice ctx ctx1 ctx2 r r1 r2 c c1 c2 later h early first second =
      let open_still : ltb (rank st_request_prepared) (rank ctx.state) ≡ false =
        ground (arith, early) in
      let (left, s1, same_ctx, same_r) = send_request-again ctx ctx1 r r1 c c1 h open_still first in
      let still : ltb (rank st_request_prepared) (rank ctx1.state) ≡ false =
        ap (λ x. ltb (rank st_request_prepared) (rank x.state)) same_ctx in
      let same : without_connection url_encode r1 ≡ r1 =
        ap (without_connection url_encode) same_r ∙ without_twice r ∙ sym same_r in
      send_request-done ctx1 ctx2 r1 r2 (record c1 { outgoing = later }) c2
        (record { writable = s1.writable; full = s1.full }) still second
      ∙ ap (λ x. c1.sent ++ pending c1.buf ++ wire url_encode x) same
      ∙ ap (λ x. x ++ wire url_encode r1) left
