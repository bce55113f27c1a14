-- ===== src/Core/Clients/Timeouts.antt =====
-- core/io.rs: every part of the loop keeps up the timeouts of connections.
use ws_platform.Common.{
  ℕ, zero, suc, ◌+◌, Option, none, some, Bool, List, ◌==◌, Bool-cases, Option-cases, inl, inr,
  lookup, ◌≡◌, refl,
}
use ws_platform.Error.{Result, ok, err, CoreError, CoreResult, done, again, declined}
use ws_platform.Core.Clients.{
  Connection, Flush, finished, unfinished, refused, finished_with, read_more, write_more,
  read_write_more, Item, idle, request, response, Protocol, Deadlines, Loop, connection,
  set_timeout, put, take_out, token_key, track, untrack, ready, accept,
}
use ws_platform.Core.{Options}
use ws_platform.Core.Clients.Events.{
  after_parse, on_request, keep_alive, wait_for, after_flush, on_response, on_item, handle_io,
}
use ws_platform.Core.Clients.Expiry.{
  Kept-put, IsTracked, IsSorted, Kept, deadline, Tracked-track, insert-Tracked, remove-Tracked,
  insert_key-IsSorted, remove_key-IsSorted,
}

track-IsSorted :
    (token : ℕ) (exp : Option ℕ) (ks : Deadlines) → IsSorted ks → IsSorted (track token exp ks)
track-IsSorted token none ks s = s
track-IsSorted token (some e) ks s = insert_key-IsSorted (e, token) ks s

untrack-IsSorted :
    (token : ℕ) (exp : Option ℕ) (ks : Deadlines) → IsSorted ks → IsSorted (untrack token exp ks)
untrack-IsSorted token none ks s = s
untrack-IsSorted token (some e) ks s = remove_key-IsSorted (e, token) ks s

accepted-Kept :
    (Q P : Type 0) (token now : ℕ) (timeout : Option ℕ) (c : Connection) (ks : Deadlines)
    → c.requests ≡ 0
    → Kept ks token (deadline {Q = Q} {P = P} (idle (set_timeout now timeout c)))
accepted-Kept Q P token now none c ks h = rw h tt
accepted-Kept Q P token now (some n) c ks h = rw h tt

module _ {Q P : Type 0} where
  put-IsTracked :
      (token : ℕ) (item : Item Q P) (l : Loop Q P) → IsTracked l → IsTracked (put token item l)
  unfolding put
  put-IsTracked token item l v = record {
    tracked =
        insert-Tracked token item (track token (connection item).exp l.keepalive) l.clients
          (Kept-put token item l.keepalive)
          (Tracked-track token (connection item).exp l.keepalive l.clients v.tracked);
    sorted = track-IsSorted token (connection item).exp l.keepalive v.sorted;
  }

  take_out-IsTracked :
      (token : ℕ) (item : Item Q P) (l : Loop Q P) → IsTracked l → IsTracked (take_out token item l)
  unfolding take_out
  take_out-IsTracked token item l v = record {
    tracked = remove-Tracked token (connection item).exp l.keepalive l.clients v.tracked;
    sorted = untrack-IsSorted token (connection item).exp l.keepalive v.sorted;
  }

  pub same-IsTracked :
      (token : ℕ) (posted : List (Connection × Q)) (l : Loop Q P)
      → IsTracked l
      → IsTracked (record l { unique_token = token; posted = posted })
  same-IsTracked token posted l v = record { tracked = v.tracked; sorted = v.sorted }

  -- A response that a worker has made is tracked.
  pub ready-IsTracked :
      (registers : ℕ → Bool) (c : Connection) (p : P) (l : Loop Q P)
      → IsTracked l
      → IsTracked (ready registers c p l)
  unfolding ready
  ready-IsTracked registers c p l v = elim (Bool-cases (registers c.fd)) [
    | inl y ↦
        rw (y, ready)
          (put-IsTracked l.unique_token
            (response (set_timeout l.now c.opts.response_timeout c) p none)
            (record l { unique_token = l.unique_token + 1 })
            (same-IsTracked (l.unique_token + 1) l.posted l v))
    | inr n ↦ rw (n, ready) (same-IsTracked (l.unique_token + 1) l.posted l v)
  ]

  -- A new client is not tracked before it sends something, and the others stay tracked.
  pub accept-IsTracked :
      (server_token : ℕ) (opts : Options) (fd : ℕ) (l : Loop Q P)
      → IsTracked l
      → IsTracked (accept server_token opts fd l)
  unfolding accept
  accept-IsTracked server_token opts fd l v =
      let fresh : Connection = record { fd = fd; exp = none; opts = opts; requests = 0 } in
      let c = set_timeout l.now opts.request_timeout fresh in
      record {
        tracked =
            insert-Tracked l.unique_token (idle c) (track server_token c.exp l.keepalive) l.clients
              (accepted-Kept Q P l.unique_token l.now opts.request_timeout fresh
                (track server_token c.exp l.keepalive) refl)
              (Tracked-track server_token c.exp l.keepalive l.clients v.tracked);
        sorted = track-IsSorted server_token c.exp l.keepalive v.sorted;
      }

  module _ (protocol : Protocol Q P) where
    after_parse-IsTracked :
        (token : ℕ) (c : Connection) (out : Q × CoreResult) (l : Loop Q P)
        → IsTracked l
        → IsTracked (after_parse protocol token c out l)
    after_parse-IsTracked token c (q, ok done) l v = same-IsTracked l.unique_token _ l v
    after_parse-IsTracked token c (q, ok again) l v = put-IsTracked token (request c q) l v
    after_parse-IsTracked token c (q, ok declined) l v = v
    after_parse-IsTracked token c (q, err e) l v = v

    -- Nothing of what is left, or what is left is tracked.
    abbrev pub Stays : Option (Loop Q P) → Type 0
    Stays none = Unit
    Stays (some l) = IsTracked l

    keep_alive-IsTracked :
        (token : ℕ) (c : Connection) (l : Loop Q P)
        → IsTracked l
        → IsTracked (keep_alive protocol token c l)
    keep_alive-IsTracked token c l v =
        elim (Bool-cases (c.requests + 1 == c.opts.keepalive_requests)) [
          | inl last ↦ rw last v
          | inr more ↦ rw more (put-IsTracked token _ l v)
        ]

    wait_for-IsTracked :
        (registers : ℕ → Bool) (fd token : ℕ) (c : Connection) (p : P) (peer : Option ℕ)
        (l : Loop Q P)
        → IsTracked l
        → IsTracked (wait_for protocol registers fd token c p peer l)
    wait_for-IsTracked registers fd token c p peer l v = elim (Bool-cases (registers fd)) [
      | inl y ↦ rw y (put-IsTracked token (response c p peer) l v)
      | inr n ↦ rw n v
    ]

    after_flush-Stays :
        (registers : ℕ → Bool) (token : ℕ) (c : Connection) (next : P → Option (Loop Q P))
        (out : P × Result CoreError (Flush ℕ)) (l : Loop Q P)
        → ((p : P) → Stays (next p))
        → IsTracked l
        → Stays (after_flush protocol registers token c next out l)
    after_flush-Stays registers token c next (p, ok finished) l h v =
        elim (Bool-cases (registers c.fd)) [
          | inl y ↦ rw y (keep_alive-IsTracked token c l v)
          | inr n ↦ rw n v
        ]
    after_flush-Stays registers token c next (p, ok (finished_with fd)) l h v = h p
    after_flush-Stays registers token c next (p, ok (read_more fd)) l h v =
        wait_for-IsTracked registers fd token c p (some fd) l v
    after_flush-Stays registers token c next (p, ok (write_more fd)) l h v =
        wait_for-IsTracked registers fd token c p (some fd) l v
    after_flush-Stays registers token c next (p, ok (read_write_more fd)) l h v =
        wait_for-IsTracked registers fd token c p (some fd) l v
    after_flush-Stays registers token c next (p, ok unfinished) l h v =
        wait_for-IsTracked registers c.fd token c p none l v
    after_flush-Stays registers token c next (p, ok refused) l h v = v
    after_flush-Stays registers token c next (p, err e) l h v = v

    on_response-Stays :
        (registers : ℕ → Bool) (fuel token : ℕ) (c : Connection) (p : P) (l : Loop Q P)
        → IsTracked l
        → Stays (on_response protocol registers fuel token c p l)
    unfolding on_response
    on_response-Stays registers zero token c p l v = tt
    on_response-Stays registers (suc fuel) token c p l v =
        after_flush-Stays registers token c (λ p'. on_response protocol registers fuel token c p' l)
          (protocol.flush p) l (λ p'. on_response-Stays registers fuel token c p' l v) v

    on_item-Stays :
        (registers : ℕ → Bool) (fuel token : ℕ) (item : Item Q P) (l : Loop Q P)
        → IsTracked l
        → Stays (on_item protocol registers fuel token item l)
    unfolding on_request
    on_item-Stays registers fuel token (idle c) l v =
        let c' = set_timeout l.now c.opts.request_timeout c in
        let fresh = request c' (protocol.new c') in
        after_parse-IsTracked token c' (protocol.parse (protocol.new c'))
          (take_out token fresh (put token fresh l))
          (take_out-IsTracked token fresh (put token fresh l) (put-IsTracked token fresh l v))
    on_item-Stays registers fuel token (request c q) l v =
        after_parse-IsTracked token c (protocol.parse q) l v
    on_item-Stays registers fuel token (response c p peer) l v =
        on_response-Stays registers fuel token c p l v

    -- Whatever an event makes of a connection, its timeout is kept up: every connection that has an expiry
    -- has its key, and the keys are in order.
    pub handle_io-Stays :
        (registers : ℕ → Bool) (fuel token : ℕ) (l : Loop Q P)
        → IsTracked l
        → Stays (handle_io protocol registers fuel token l)
    unfolding handle_io
    handle_io-Stays registers fuel token l v = elim (Option-cases (lookup token l.clients)) [
      | inl e ↦ rw (e, handle_io) v
      | inr (item, e) ↦
          rw (e, handle_io)
            (on_item-Stays registers fuel token item (take_out token item l)
              (take_out-IsTracked token item l v))
    ]
