-- ===== src/Http/ServerCore/Find.antt =====
-- http/http_server_core.rs: the choice of a route for a request, among the three routers.
use ws_platform.Common.{Text, Option, none, some, true, false, Eq, or_else, if◌then◌else◌}
use ws_platform.KeyVal.{Key, KeyVal}
use ws_platform.Variable.{Variable}
use ws_platform.Router.Trie.{Found, found, missing, panics}
use ws_platform.Router.Trie
use ws_platform.Router.Named
use ws_platform.Router.Regex.{Engine}
use ws_platform.Router.Regex
use ws_platform.Http.Types.{method_name}
use ws_platform.Http.ServerCore.{Session, RouteContext, Routers, site_key}
use ws_platform.Http.ServerCore.Tables.{is_named}

abbrev pub uri : {H R : Type 0} → Session H R → Text
uri r = r.request.uri

abbrev pub with_vars : {H R : Type 0} → KeyVal (Variable R) → Session H R → Session H R
with_vars vars r = record r { vars = vars }

-- The route that is found, on the request with its variables; no result is a panic of the trie.
abbrev pub Picked : Type 0 → Type 0 → Type 0 → Type 0
Picked H K R = Option (Session H R × Option (RouteContext H K R))

module _ (engine : Engine) ⦃e : Eq Key⦄ {H K R : Type 0} where
  open engine use {Re}

  abbrev pub pick_regex :
      Session H R
      → Option (RouteContext H K R) × KeyVal (Variable R)
      → Option (RouteContext H K R)
      → Picked H K R
  pick_regex r (route, vars) other = some (with_vars vars r, or_else route other)

  -- The regular expressions, where `other` is the route of a prefix, if there is one.
  abbrev pub by_regex : Routers Re H K R → Option (RouteContext H K R) → Session H R → Picked H K R
  by_regex rs other r =
      pick_regex r (Regex.get engine (method_name r.request.method) (uri r) r.vars rs.regex) other

  abbrev pub by_path : Routers Re H K R → Session H R → Found (RouteContext H K R) R → Picked H K R
  by_path rs r missing = by_regex rs none r
  by_path rs r panics = none
  by_path rs r (found route true vars) = some (with_vars vars r, some route)
  by_path rs r (found route false vars) = by_regex rs (some route) (with_vars vars r)

  unfoldable pub find_route : Routers Re H K R → Session H R → Picked H K R
  unfolding Trie.get Regex.get Named.get
  find_route rs r =
      if is_named (uri r)
      then some (r, Named.get (method_name r.request.method) (uri r) rs.named)
      else by_path rs r (Trie.get (method_name r.request.method) (uri r) r.vars rs.trie)
