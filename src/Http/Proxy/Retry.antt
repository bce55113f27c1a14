-- ===== src/Http/Proxy/Retry.antt =====
-- http/plugins/proxy.rs: the order in which the servers of a route are tried, and the end of the flush handler.
use ws_platform.Common.{
  ℕ, suc, Text, Option, none, some, Bool, false, ltb, ◌≡◌, refl, subst, sym, arith, Eq, Bool-cases,
  Option-cases, inl, inr,
}
use ws_platform.Error.{
  ok, err, CoreError, finished_with, read_more, write_more, read_write_more, refused, finished,
  unfinished,
}
use ws_platform.KeyVal.{Key}
use ws_platform.Client.{Client}
use ws_platform.ConnectionPool.{Peer, weak}
use ws_platform.TcpSocket.{timedout}
use ws_platform.Http.Request.{HttpRequest}
use ws_platform.Http.Response.{Exchange}
use ws_platform.Http.Proxy.{new, rank, st_protocol_end}
use ws_platform.Http.Proxy.Send.{Step, proxy}
use ws_platform.Http.Proxy.Route.{
  ProxyContext, Dial, Dialled, connect, connect_of, get, Outcome, panicked, running, returned,
  Stored, Handled, after_step, after_connect, flush_handler, or_backup, dial_either,
}

-- What a route may name: the upstream of a pass has precedence over its address.
pub data Target (U : Type 0) : Type 0 where
  address : Text → Target U
  upstream : U → Target U

abbrev pub target_of : {U : Type 0} → Option U → Option Text → Option (Target U)
target_of (some name) pass = some (upstream name)
target_of none (some addr) = some (address addr)
target_of none none = none

-- The targets are tried in order, up to the first that is reached.
abbrev pub or_else : {W : Type 0} → (W → W × Dialled) → W × Dialled → W × Dialled
or_else next (w, ok peer) = (w, ok peer)
or_else next (w, err e) = next w

dialled-both :
    {W : Type 0} (gives_up : Bool) (next : W → W × Option Dialled) (next' : W → W × Dialled)
    (out : W × Dialled)
    → gives_up ≡ false
    → ((w : W) → next w ≡ ((next' w).0, some (next' w).1))
    → or_backup gives_up next (out.0, some out.1)
      ≡ ((or_else next' out).0, some (or_else next' out).1)
dialled-both gives_up next next' (w, ok peer) e h = refl
dialled-both gives_up next next' (w, err x) e h = rw e (h w)

abbrev route : {U : Type 0} → Option Text → Option Text → Option U → Option U → ProxyContext U
route pass bpass name bname = record {
  primary = record { pass = pass; upstream = name };
  backup = record { pass = bpass; upstream = bname };
}

module _ {W U : Type 0} (dial : Dial W U) where
  abbrev pub dial_target : HttpRequest → Target U → W → W × Dialled
  dial_target r (address addr) w = dial.fixed addr w
  dial_target r (upstream name) w = dial.named name r w

  abbrev pub both : HttpRequest → Target U → Target U → W → W × Option Dialled
  both r t b w = let (w', res) = or_else (dial_target r b) (dial_target r t w) in (w', some res)

  -- A handler that tries these targets.
  abbrev pub Tries : Target U → Target U → ProxyContext U → Type 0
  Tries t b p =
      (f : HttpRequest → W → W × Option Dialled) × (connect_of dial p ≡ ok f)
      × ((r : HttpRequest) (w : W) → f r w ≡ both r t b w)

  retarget :
      (t t' b b' : Target U) (p : ProxyContext U) → t ≡ t' → b ≡ b' → Tries t b p → Tries t' b' p
  retarget t t' b b' p e h x = subst (λ s. Tries s b' p) e (subst (λ s. Tries t s p) h x)

  connect_of-cases :
      (pass bpass : Option Text) (name bname : Option U) (t b : Target U)
      → target_of name pass ≡ some t
      → target_of bname bpass ≡ some b
      → Tries t b (route pass bpass name bname)
  unfolding connect_of connect get
  connect_of-cases none bpass none bname t b e h = cc
  connect_of-cases pass none name none t b e h = cc
  connect_of-cases pass none (some n) (some m) t b e h =
      let same : upstream n ≡ t = ground arith in
      let same' : upstream m ≡ b = ground arith in
      retarget _ _ _ _ (route pass none (some n) (some m)) same same' (
        _,
        refl,
        λ r w. dialled-both false _ (λ w. dial.named m r w) (dial.named n r w) refl λ w. refl,
      )
  connect_of-cases pass (some a) (some n) (some m) t b e h =
      let same : upstream n ≡ t = ground arith in
      let same' : upstream m ≡ b = ground arith in
      retarget _ _ _ _ (route pass (some a) (some n) (some m)) same same' (
        _,
        refl,
        λ r w. dialled-both false _ (λ w. dial.named m r w) (dial.named n r w) refl λ w. refl,
      )
  connect_of-cases pass (some a) (some n) none t b e h =
      let same : upstream n ≡ t = ground arith in
      let same' : address a ≡ b = ground arith in
      retarget _ _ _ _ (route pass (some a) (some n) none) same same' (
        _,
        refl,
        λ r w. dialled-both false _ (λ w. dial.fixed a w) (dial.named n r w) refl λ w. refl,
      )
  connect_of-cases (some a) bpass none (some m) t b e h =
      let same : address a ≡ t = ground arith in
      let same' : upstream m ≡ b = ground arith in
      retarget _ _ _ _ (route (some a) bpass none (some m)) same same' (
        _,
        refl,
        λ r w. dialled-both false _ (λ w. dial.named m r w) (dial.fixed a w) refl λ w. refl,
      )
  connect_of-cases (some a) (some c) none none t b e h =
      let same : address a ≡ t = ground arith in
      let same' : address c ≡ b = ground arith in
      retarget _ _ _ _ (route (some a) (some c) none none) same same'
        (_, refl, λ r w. dialled-both false _ (λ w. dial.fixed c w) (dial.fixed a w) refl λ w. refl)

  -- Where the primary of a route and its backup name a target each, be it an address or an upstream, the
  -- handler tries the primary and then, if it is not reached, the backup, and returns what the last one
  -- gave: it does not panic.
  pub connect_of-Tries :
      (p : ProxyContext U) (t b : Target U)
      → target_of p.primary.upstream p.primary.pass ≡ some t
      → target_of p.backup.upstream p.backup.pass ≡ some b
      → Tries t b p
  connect_of-Tries p t b e h =
      connect_of-cases p.primary.pass p.backup.pass p.primary.upstream p.backup.upstream t b e h

  -- A route with a fixed address and no backup: where the address is not reached, the handler panics.
  pub connect_of-unreachable :
      (p : ProxyContext U) (addr : Text) (r : HttpRequest) (w w' : W) (e : CoreError)
      → p.primary.upstream ≡ none
      → p.primary.pass ≡ some addr
      → p.backup.upstream ≡ none
      → p.backup.pass ≡ none
      → dial.fixed addr w ≡ (w', err e)
      → (f : HttpRequest → W → W × Option Dialled) × (connect_of dial p ≡ ok f)
        × (f r w ≡ (w', none))
  unfolding connect_of connect get
  connect_of-unreachable p addr r w w' e name pass bname bpass fails = (
    connect dial p (some addr) none,
    rw (name, pass, bname, bpass, connect_of, get) refl,
    subst
        (λ out.
          or_backup false (λ w. dial_either dial none p.backup.upstream r w) (out.0, some out.1)
          ≡ (w', none))
        (sym fails) (rw bname refl),
  )

module _ {W : Type 0} (url_encode : Text → Text) ⦃e : Eq Key⦄ (is_utf8 : Text → Bool) (now : ℕ)
    (connect : HttpRequest → W → W × Option Dialled) where
  abbrev Handles : ℕ → Stored → Exchange → W → Handled url_encode is_utf8 now connect
  Handles = flush_handler url_encode is_utf8 now connect

  abbrev pub Ended : Outcome → Type 0
  Ended running = ⊥
  Ended panicked = Unit
  Ended (returned r) = Unit

  fresh-Ended :
      (fuel : ℕ) (peer : Peer) (c : Client) (x : Exchange) (w : W)
      → Ended
          (after_step url_encode is_utf8 now connect
            (Handles fuel none)
            w
            (proxy url_encode is_utf8 now (new peer) c x)).3
  unfolding proxy
  fresh-Ended fuel peer c x w = elim (Bool-cases (timedout now peer.stream)) [
    | inl late ↦ rw (late, proxy) tt
    | inr early ↦ elim (Option-cases (weak peer)) [
      | inl broken ↦ rw (early, broken, proxy) tt
      | inr (copy, good) ↦ rw (early, good, proxy) tt
    ]
  ]

  connected-Ended :
      (fuel : ℕ) (x : Exchange) (out : W × Option Dialled)
      → Ended
          (after_connect url_encode is_utf8 now connect
            (λ ctx c x w.
              after_step url_encode is_utf8 now connect
                (Handles fuel none)
                w
                (proxy url_encode is_utf8 now ctx c x))
            x
            out).3
  connected-Ended fuel x (w, none) = tt
  connected-Ended fuel x (w, some (ok (peer, c))) = fresh-Ended fuel peer c x w
  connected-Ended fuel x (w, some (err e)) = tt

  step-Ended :
      (fuel : ℕ) (w : W) (out : Step url_encode)
      → Ended (after_step url_encode is_utf8 now connect (Handles (suc fuel) none) w out).3
  unfolding flush_handler
  step-Ended fuel w (ctx, c, x, none) = tt
  step-Ended fuel w (ctx, c, x, some (ok (read_more peer))) = tt
  step-Ended fuel w (ctx, c, x, some (ok (write_more peer))) = tt
  step-Ended fuel w (ctx, c, x, some (ok (read_write_more peer))) = tt
  step-Ended fuel w (ctx, c, x, some (ok (finished_with peer))) = tt
  step-Ended fuel w (ctx, c, x, some (ok finished)) = tt
  step-Ended fuel w (ctx, c, x, some (ok unfinished)) = tt
  step-Ended fuel w (ctx, c, x, some (ok refused)) = tt
  step-Ended fuel w (ctx, c, x, some (err e)) =
      elim (Bool-cases (ltb (rank ctx.state) (rank st_protocol_end))) [
        | inl early ↦ rw early (connected-Ended fuel x (connect x.request w))
        | inr late ↦ rw late tt
      ]

  -- The flush handler ends after two rounds at most, whatever is stored and however the servers behave: a
  -- server that fails before its status is replaced once, since a new connection is first waited for.
  pub flush_handler-Ended :
      (fuel : ℕ) (stored : Stored) (x : Exchange) (w : W)
      → Ended (flush_handler url_encode is_utf8 now connect (suc (suc fuel)) stored x w).3
  unfolding flush_handler
  flush_handler-Ended fuel none x w = connected-Ended (suc fuel) x (connect x.request w)
  flush_handler-Ended fuel (some (ctx, c)) x w =
      step-Ended fuel w (proxy url_encode is_utf8 now ctx c x)
