-- ===== src/Http/ServerCore/Routing.antt =====
-- http/http_server_core.rs: a route that is added is the one that a request finds.
use ws_platform.Common.{Text, Option, none, some, true, false, ◌≡◌, refl, ap, ◌∙◌, All, Eq}
use ws_platform.KeyVal.{Key}
use ws_platform.Router.Regex.{Engine}
use ws_platform.Router.Trie.{path_words, Found, found}
use ws_platform.Router.Trie
use ws_platform.Router.Trie.Table.{slot}
use ws_platform.Router.Trie.Invariant.{IsLiteral}
use ws_platform.Router.Trie.Upsert.{get-upsert}
use ws_platform.Http.Types.{HttpMethod, method_name}
use ws_platform.Http.ServerCore.{Session, RouteContext, Routers, copy, default_route, get_method}
use ws_platform.Http.ServerCore.Tables.{add_to, is_regex, is_named}
use ws_platform.Http.ServerCore.Find.{uri, find_route}

module _ (engine : Engine) ⦃e : Eq Key⦄ {H K R : Type 0} where
  open engine use {Re}

  find_by_path :
      (rs : Routers Re H K R) (r : Session H R) (route : RouteContext H K R)
      → is_named (uri r) ≡ false
      → Trie.get (method_name r.request.method) (uri r) r.vars rs.trie ≡ found route true r.vars
      → find_route engine rs r ≡ some (r, some route)
  unfolding find_route
  find_by_path rs r route path e = rw (path, find_route, e) refl

  abbrev upserted : RouteContext H K R → Option Text → Routers Re H K R → Routers Re H K R
  upserted route method rs = record rs {
    trie = Trie.upsert default_route route.pattern method (λ c added. copy c route) rs.trie;
  }

  add_to-trie :
      (rs : Routers Re H K R) (route : RouteContext H K R)
      → is_regex route.pattern ≡ false
      → is_named route.pattern ≡ false
      → (add_to engine route rs).0 ≡ upserted route (get_method route.method) rs
  unfolding add_to
  add_to-trie rs route tilde at = rw (tilde, at, add_to) refl

  -- A route for a method and a path without variables, which is not that of another route: once it is added
  -- to the routers of a site, a request for that path and method finds it, whatever regular
  -- expressions match the path too.
  pub find_route-add_to :
      (rs : Routers Re H K R) (route : RouteContext H K R) (method : HttpMethod) (r : Session H R)
      → is_regex route.pattern ≡ false
      → is_named route.pattern ≡ false
      → All IsLiteral (path_words route.pattern)
      → slot (path_words route.pattern) (method_name method) rs.trie ≡ none
      → route.method ≡ some method
      → r.request.method ≡ method
      → uri r ≡ route.pattern
      → find_route engine (add_to engine route rs).0 r ≡ some (r, some route)
  find_route-add_to rs route method r tilde at literal free takes asks same =
      let (b, got) =
        get-upsert (default_route {H = H} {K = K} {R = R}) route.pattern (method_name method)
          (λ c added. copy c route) rs.trie r.vars literal free in
      let rs' = upserted route (some (method_name method)) rs in
      ap (λ rs''. find_route engine rs'' r)
        (add_to-trie rs route tilde at ∙ ap (λ m. upserted route (get_method m) rs) takes)
      ∙ find_by_path rs' r route (ap is_named same ∙ at) (
          ap (λ m. Trie.get (method_name m) (uri r) r.vars rs'.trie) asks
          ∙ ap (λ u. Trie.get (method_name method) u r.vars rs'.trie) same
          ∙ got)
