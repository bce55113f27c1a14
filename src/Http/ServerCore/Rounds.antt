-- ===== src/Http/ServerCore/Rounds.antt =====
-- http/http_server_core.rs: when the loop that serves a request ends, and who answers then.
use ws_platform.Common.{ℕ, suc, ◌≡◌, ◌⊎◌, refl, Option, none, some, List, text_eq_refl, inl, inr}
use ws_platform.Error.{Code, done, again, declined}
use ws_platform.KeyVal.{Key}
use ws_platform.Common.{Eq}
use ws_platform.Router.Regex.{Engine}
use ws_platform.Http.ServerCore.{Session, Phase, RouteContext, ServerContext, Routers}
use ws_platform.Http.ServerCore.Find.{uri}
use ws_platform.Http.ServerCore.Phases.{
  Answer, unauthorized, Round, continue, answers, phase_handler, server_rewrite, route_rewrite,
  route_access, after_rewrite, after_access, round_route, round_none, none_rewrite, none_access,
  round_picked,
}
use ws_platform.Http.ServerCore.Serve.{picked, serve_loop}

-- A list of handlers that refuses every request, and does not send it elsewhere.
abbrev pub Refuses : {H R : Type 0} → List (Phase H R) → Type 0
Refuses {H = H} {R = R} hs =
    (r : Session H R) → ((phase_handler hs r).1 ≡ again) × (uri (phase_handler hs r).0 ≡ uri r)

module _ {H K R : Type 0} where
  -- A round that does not let a request pass.
  abbrev pub Stops : Round H K R → Type 0
  Stops (continue r) = Unit
  Stops (answers a r) = a ≡ unauthorized

  after_access-Stops :
      (server s : ServerContext H K R) (handler : Option K) (route : RouteContext H K R)
      (r : Session H R) (out : Session H R × Code)
      → out.1 ≡ again
      → uri out.0 ≡ uri r
      → Stops (after_access server (some s) handler route (uri r) (route_access route out))
  after_access-Stops server s handler route r (r', again) e same =
      rw (same, text_eq_refl (uri r)) refl
  after_access-Stops server s handler route r (r', done) e same = absurd (cc)
  after_access-Stops server s handler route r (r', declined) e same = absurd (cc)

  after_rewrite-Stops :
      (server s : ServerContext H K R) (handler : Option K) (route : RouteContext H K R) (rc : Code)
      (out : Session H R × Code)
      → Refuses s.access
      → Stops (after_rewrite server (some s) handler route rc out)
  after_rewrite-Stops server s handler route rc (r, again) h = tt
  after_rewrite-Stops server s handler route rc (r, done) h =
      after_access-Stops server s handler route r (phase_handler s.access r) (h r).0 (h r).1
  after_rewrite-Stops server s handler route rc (r, declined) h =
      after_access-Stops server s handler route r (phase_handler s.access r) (h r).0 (h r).1

  none_access-Stops :
      (server s : ServerContext H K R) (handler : Option K) (out : Session H R × Code)
      → out.1 ≡ again
      → Stops (none_access server s handler out)
  none_access-Stops server s handler (r, again) e = refl
  none_access-Stops server s handler (r, done) e = absurd (cc)
  none_access-Stops server s handler (r, declined) e = absurd (cc)

  none_rewrite-Stops :
      (server s : ServerContext H K R) (handler : Option K) (out : Session H R × Code)
      → Refuses s.access
      → Stops (none_rewrite server s handler out)
  none_rewrite-Stops server s handler (r, again) h = tt
  none_rewrite-Stops server s handler (r, done) h =
      none_access-Stops server s handler (phase_handler s.access r) (h r).0
  none_rewrite-Stops server s handler (r, declined) h =
      none_access-Stops server s handler (phase_handler s.access r) (h r).0

  pub round-Stops :
      (server s : ServerContext H K R) (handler : Option K)
      (p : Session H R × Option (RouteContext H K R))
      → Refuses s.access
      → Stops (round_picked server (some s) handler p)
  unfolding round_route round_none
  round-Stops server s handler (r, none) h =
      none_rewrite-Stops server s handler (server_rewrite (some s) r) h
  round-Stops server s handler (r, some route) h =
      after_rewrite-Stops server s handler route (server_rewrite (some s) r).1
        (route_rewrite route (server_rewrite (some s) r)) h

  pub Round-cases :
      (x : Round H K R)
      → ((r : Session H R) × (x ≡ continue r))
        ⊎ ((a : Answer K) × (r : Session H R) × (x ≡ answers a r))
  Round-cases (continue r) = inl (r, refl)
  Round-cases (answers a r) = inr (a, r, refl)

  -- The rewrites of the server send every request round again.
  abbrev pub Rewrites : ServerContext H K R → Type 0
  Rewrites s = (r : Session H R) → (server_rewrite (some s) r).1 ≡ again

  route-continue :
      (server s : ServerContext H K R) (handler : Option K) (route : RouteContext H K R)
      (out : Session H R × Code)
      → out.1 ≡ again
      → after_rewrite server (some s) handler route out.1 (route_rewrite route out) ≡ continue out.0
  route-continue server s handler route (r, again) e = refl
  route-continue server s handler route (r, done) e = absurd (cc)
  route-continue server s handler route (r, declined) e = absurd (cc)

  none-continue :
      (server s : ServerContext H K R) (handler : Option K) (out : Session H R × Code)
      → out.1 ≡ again
      → none_rewrite server s handler out ≡ continue out.0
  none-continue server s handler (r, again) e = refl
  none-continue server s handler (r, done) e = absurd (cc)
  none-continue server s handler (r, declined) e = absurd (cc)

  pub round-continue :
      (server s : ServerContext H K R) (handler : Option K)
      (p : Session H R × Option (RouteContext H K R))
      → Rewrites s
      → round_picked server (some s) handler p ≡ continue (server_rewrite (some s) p.0).0
  unfolding round_route round_none
  round-continue server s handler (r, none) h =
      none-continue server s handler (server_rewrite (some s) r) (h r)
  round-continue server s handler (r, some route) h =
      route-continue server s handler route (server_rewrite (some s) r) (h r)

module _ (engine : Engine) ⦃e : Eq Key⦄ {H K R : Type 0} where
  open engine use {Re}

  pub loop-continue :
      (server : ServerContext H K R) (s : Option (ServerContext H K R))
      (rs : Option (Routers Re H K R)) (handler : Option K) (fuel : ℕ) (r r' : Session H R)
      (p : Session H R × Option (RouteContext H K R))
      → picked engine rs r ≡ some p
      → round_picked server s handler p ≡ continue r'
      → serve_loop engine server s rs handler (suc fuel) r
        ≡ serve_loop engine server s rs handler fuel r'
  unfolding serve_loop
  loop-continue server s rs handler fuel r r' p found more = rw (found, more, serve_loop) refl

  pub loop-answers :
      (server : ServerContext H K R) (s : Option (ServerContext H K R))
      (rs : Option (Routers Re H K R)) (handler : Option K) (fuel : ℕ) (r r' : Session H R)
      (a : Answer K) (p : Session H R × Option (RouteContext H K R))
      → picked engine rs r ≡ some p
      → round_picked server s handler p ≡ answers a r'
      → serve_loop engine server s rs handler (suc fuel) r ≡ some (a, r')
  unfolding serve_loop
  loop-answers server s rs handler fuel r r' a p found over = rw (found, over, serve_loop) refl

  pub loop-panics :
      (server : ServerContext H K R) (s : Option (ServerContext H K R))
      (rs : Option (Routers Re H K R)) (handler : Option K) (fuel : ℕ) (r : Session H R)
      → picked engine rs r ≡ none
      → serve_loop engine server s rs handler (suc fuel) r ≡ none
  unfolding serve_loop
  loop-panics server s rs handler fuel r lost = rw (lost, serve_loop) refl
