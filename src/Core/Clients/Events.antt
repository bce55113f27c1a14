-- ===== src/Core/Clients/Events.antt =====
-- core/io.rs: `handle_io`, what the loop does with a connection that is ready.
use ws_platform.Common.{
  ℕ, zero, suc, ◌+◌, Option, none, some, Bool, [], ◌∷◌, ◌++◌, ◌==◌, if◌then◌else◌, lookup,
}
use ws_platform.Error.{Result, ok, err, CoreError, CoreResult, done, again, declined}
use ws_platform.Core.Clients.{
  Connection, Flush, finished, unfinished, refused, finished_with, read_more, write_more,
  read_write_more, Item, idle, request, response, Protocol, Loop, set_timeout, put, take_out,
  token_key,
}

module _ {Q P : Type 0} (protocol : Protocol Q P) where
  -- After `parse`. The connection of a request that is complete goes with it.
  abbrev pub after_parse : ℕ → Connection → Q × CoreResult → Loop Q P → Loop Q P
  after_parse token c (q, ok done) l = record l { posted = l.posted ++ (c, q) ∷ [] }
  after_parse token c (q, ok again) l = put token (request c q) l
  after_parse token c (q, ok declined) l = l
  after_parse token c (q, err e) l = l

  unfoldable pub on_request : ℕ → Connection → Q → Loop Q P → Loop Q P
  unfolding put
  on_request token c q l = after_parse token c (protocol.parse q) l

  -- After a flush that is complete: the connection is idle, unless it has served its last request.
  abbrev pub keep_alive : ℕ → Connection → Loop Q P → Loop Q P
  keep_alive token c l =
      let c' = record c { requests = c.requests + 1 } in
      if c.requests + 1 == c.opts.keepalive_requests
      then l
      else put token (idle (set_timeout l.now c.opts.keepalive_timeout c')) l

  abbrev pub wait_for : (ℕ → Bool) → ℕ → ℕ → Connection → P → Option ℕ → Loop Q P → Loop Q P
  wait_for registers fd token c p peer l =
      if registers fd then put token (response c p peer) l else l

  -- The arms of `match resp.flush()`, where `next` is another round; no result is too little fuel.
  abbrev pub after_flush :
      (ℕ → Bool)
      → ℕ
      → Connection
      → (P → Option (Loop Q P))
      → P × Result CoreError (Flush ℕ)
      → Loop Q P
      → Option (Loop Q P)
  after_flush registers token c next (p, ok finished) l =
      some (if registers c.fd then keep_alive token c l else l)
  after_flush registers token c next (p, ok (finished_with fd)) l = next p
  after_flush registers token c next (p, ok (read_more fd)) l =
      some (wait_for registers fd token c p (some fd) l)
  after_flush registers token c next (p, ok (write_more fd)) l =
      some (wait_for registers fd token c p (some fd) l)
  after_flush registers token c next (p, ok (read_write_more fd)) l =
      some (wait_for registers fd token c p (some fd) l)
  after_flush registers token c next (p, ok unfinished) l =
      some (wait_for registers c.fd token c p none l)
  after_flush registers token c next (p, ok refused) l = some l
  after_flush registers token c next (p, err e) l = some l

  unfoldable pub on_response : (ℕ → Bool) → ℕ → ℕ → Connection → P → Loop Q P → Option (Loop Q P)
  unfolding put
  on_response registers zero token c p l = none
  on_response registers (suc fuel) token c p l =
      after_flush registers token c (λ p'. on_response registers fuel token c p' l)
        (protocol.flush p) l

  -- `handle_io`: an idle connection is put back as one with a request, which the next round takes.
  abbrev pub on_item : (ℕ → Bool) → ℕ → ℕ → Item Q P → Loop Q P → Option (Loop Q P)
  on_item registers fuel token (idle c) l =
      let c' = set_timeout l.now c.opts.request_timeout c in
      let fresh = request c' (protocol.new c') in
      some (on_request token c' (protocol.new c') (take_out token fresh (put token fresh l)))
  on_item registers fuel token (request c q) l = some (on_request token c q l)
  on_item registers fuel token (response c p peer) l = on_response registers fuel token c p l

  unfoldable pub handle_io : (ℕ → Bool) → ℕ → ℕ → Loop Q P → Option (Loop Q P)
  unfolding lookup take_out on_request on_response
  handle_io registers fuel token l = elim (lookup token l.clients) [
    | none ↦ some l
    | some item ↦ on_item registers fuel token item (take_out token item l)
  ]
