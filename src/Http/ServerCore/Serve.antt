-- ===== src/Http/ServerCore/Serve.antt =====
-- http/http_server_core.rs: the loop that serves a request, up to the choice of who answers it. A rewrite
-- begins it again, without a bound: it runs on fuel here.
use ws_platform.Common.{ℕ, zero, suc, Text, codes, Option, none, some, List, Eq, lookup, or_else}
use ws_platform.KeyVal.{Key}
use ws_platform.Router.Regex.{Engine}
use ws_platform.Http.ServerCore.{Session, ServerContext, Routers, SiteKey, site_key}
use ws_platform.Http.ServerCore.Find.{Picked, find_route}
use ws_platform.Http.ServerCore.Tables.{HttpServerCore}
use ws_platform.Http.ServerCore.Phases.{
  Answer, continue, answers, round_route, round_none, round_picked,
}

-- The tables are looked up by the host of the request, and then under `*`.
abbrev pub at_host {ℓ} : {V : Type ℓ} → Text → Text → List (SiteKey × V) → Option V
at_host addr host table = or_else (lookup (addr, host) table) (lookup (addr, codes "*") table)

module _ (engine : Engine) ⦃e : Eq Key⦄ {H K R : Type 0} where
  open engine use {Re}

  -- The route of a round; a site without routes has none.
  abbrev pub picked : Option (Routers Re H K R) → Session H R → Picked H K R
  picked none r = some (r, none)
  picked (some rs) r = find_route engine rs r

  -- The loop of the handler; no result is a panic, or too little fuel.
  unfoldable pub serve_loop :
      ServerContext H K R
      → Option (ServerContext H K R)
      → Option (Routers Re H K R)
      → Option K
      → ℕ
      → Session H R
      → Option (Answer K × Session H R)
  unfolding find_route round_route round_none
  serve_loop server s rs handler zero r = none
  serve_loop server s rs handler (suc fuel) r =
      let next = serve_loop server s rs handler fuel in
      elim (picked rs r) [
        | none ↦ none
        | some p ↦ elim (round_picked server s handler p) [
          | continue r' ↦ next r'
          | answers a r' ↦ some (a, r')
        ]
      ]

  -- The handler that `add_server` makes.
  unfoldable pub serve :
      HttpServerCore Re H K R
      → Text
      → ServerContext H K R
      → Option K
      → ℕ
      → Session H R
      → Option (Answer K × Session H R)
  unfolding serve_loop lookup
  serve core addr server handler fuel r =
      serve_loop server (at_host addr r.request.host core.phase_handlers)
        (at_host addr r.request.host core.routes) handler fuel r
