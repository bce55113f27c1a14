-- ===== src/Http/ServerCore/Tables.antt =====
-- http/http_server_core.rs: the tables of routes and of phase handlers.
use ws_platform.Common.{
  Text, codes, Option, none, some, Bool, List, [], ◌∷◌, ◌++◌, lookup, insert, remove, get_or,
  if◌then◌else◌, strip_prefix, is_some, text_length, trim_any,
}
use ws_platform.Error.{Result, ok, err, CoreError, CoreResult, done, throw}
use ws_platform.Router.Trie.{new_node}
use ws_platform.Router.Trie
use ws_platform.Router.Named
use ws_platform.Router.Regex.{Engine}
use ws_platform.Router.Regex
use ws_platform.Core.Server.{Server}
use ws_platform.Core.Server
use ws_platform.Http.Types.{HttpMethod}
use ws_platform.Http.ServerCore.{
  RouteContext, ServerContext, Routers, SiteKey, site_key, get_method, copy, default_route,
}

-- The listeners hold the closure of `add_server`: its server, and its handler of content.
pub record HttpServerCore (Re H K R : Type 0) : Type 0 where
  pub server : Server (ServerContext H K R × Option K)
  pub routes : List (SiteKey × Routers Re H K R)
  pub phase_handlers : List (SiteKey × ServerContext H K R)

-- `get_addr`, for what `bind.parse()` gives.
abbrev pub get_addr : (Text → Result Text Text) → Text → Result CoreError Text
get_addr parse_addr bind = elim (parse_addr bind) [
  | ok addr ↦ ok addr
  | err e ↦ throw (codes "Failed to parse bind address: " ++ e)
]

abbrev pub site_of : Text → Option Text → SiteKey
site_of addr host = (addr, get_or host (codes "*"))

-- `path.trim_start_matches("~ ")`.
abbrev pub trim_tilde : Text → Text
trim_tilde path = trim_any (codes "~ " ∷ []) (text_length path) path

abbrev pub is_regex : Text → Bool
is_regex path = is_some (strip_prefix (codes "~") path)

abbrev pub is_named : Text → Bool
is_named path = is_some (strip_prefix (codes "@") path)

module _ (engine : Engine) {H K R : Type 0} where
  open engine use {Re}

  abbrev pub default_routers : Routers Re H K R
  default_routers = record { trie = new_node; regex = []; named = [] }

  -- What `add_route` does to the routers of a site.
  abbrev pub with_regex :
      Routers Re H K R
      → Result CoreError (List (Regex.RegexRoute Re (RouteContext H K R)))
      → Routers Re H K R × CoreResult
  with_regex rs (ok regex) = (record rs { regex = regex }, ok done)
  with_regex rs (err e) = (rs, err e)

  unfoldable pub add_to : RouteContext H K R → Routers Re H K R → Routers Re H K R × CoreResult
  unfolding Regex.upsert Named.upsert Trie.upsert
  add_to route rs =
      let path = route.pattern in
      let method = get_method route.method in
      if is_regex path
      then with_regex rs (
          Regex.upsert engine default_route (trim_tilde path) method (λ c added. copy c route)
            rs.regex)
      else if is_named path
      then (
        record rs {
          named = Named.upsert default_route path method (λ c added. copy c route) rs.named;
        },
        ok done,
      )
      else (
        record rs {
          trie = Trie.upsert default_route path method (λ c added. copy c route) rs.trie;
        },
        ok done,
      )

  -- `entry(key).or_default()`: the entry stays when the insertion fails.
  abbrev pub put_routers :
      SiteKey
      → List (SiteKey × Routers Re H K R)
      → Routers Re H K R × CoreResult
      → List (SiteKey × Routers Re H K R) × CoreResult
  put_routers key routes (rs, res) = (insert key rs routes, res)

  abbrev pub add_at :
      SiteKey
      → RouteContext H K R
      → List (SiteKey × Routers Re H K R)
      → List (SiteKey × Routers Re H K R) × CoreResult
  add_at key route routes =
      put_routers key routes (add_to route (get_or (lookup key routes) default_routers))

  unfoldable pub add_route :
      (Text → Result Text Text)
      → Text
      → RouteContext H K R
      → HttpServerCore Re H K R
      → HttpServerCore Re H K R × CoreResult
  unfolding lookup insert add_to
  add_route parse_addr bind route core = elim (get_addr parse_addr bind) [
    | err e ↦ (core, err e)
    | ok addr ↦ elim route.pattern [
      | [] ↦ (core, throw (codes "Pattern required"))
      | _ ↦
          let (routes, res) = add_at (site_of addr route.host) route core.routes in
          (record core { routes = routes }, res)
    ]
  ]

  -- What `remove_route` does to the routers of a site.
  unfoldable pub remove_from : Text → Option HttpMethod → Routers Re H K R → Routers Re H K R
  unfolding Regex.remove_route Named.remove_route Trie.remove_route
  remove_from path method rs =
      if is_regex path
      then record rs {
        regex = (Regex.remove_route engine (trim_tilde path) (get_method method) rs.regex).0;
      }
      else if is_named path
      then record rs { named = (Named.remove_route path (get_method method) rs.named).0 }
      else record rs { trie = (Trie.remove_route path (get_method method) rs.trie).0 }

  unfoldable pub remove_route :
      (Text → Result Text Text)
      → Text
      → Option Text
      → Text
      → Option HttpMethod
      → HttpServerCore Re H K R
      → HttpServerCore Re H K R × Result CoreError (Unit {0})
  unfolding lookup insert remove_from
  remove_route parse_addr bind host path method core = elim (get_addr parse_addr bind) [
    | err e ↦ (core, err e)
    | ok addr ↦ elim (lookup (site_of addr host) core.routes) [
      | none ↦ (core, ok tt)
      | some rs ↦ (
        record core {
          routes = insert (site_of addr host) (remove_from path method rs) core.routes;
        },
        ok tt,
      )
    ]
  ]

  unfoldable pub remove_server :
      (Text → Result Text Text)
      → Text
      → HttpServerCore Re H K R
      → HttpServerCore Re H K R × CoreResult
  unfolding Server.remove_listener Server.remove_server_handler
  remove_server parse_addr bind core = elim (get_addr parse_addr bind) [
    | err e ↦ (core, err e)
    | ok addr ↦ (
      record core {
        server = Server.remove_server_handler addr (Server.remove_listener addr core.server);
      },
      ok done,
    )
  ]

  unfoldable pub remove_server_with_routes :
      (Text → Result Text Text)
      → Text
      → Option Text
      → HttpServerCore Re H K R
      → HttpServerCore Re H K R × CoreResult
  unfolding remove_server remove
  remove_server_with_routes parse_addr bind host core = elim (get_addr parse_addr bind) [
    | err e ↦ (core, err e)
    | ok addr ↦
        let (core', res) = remove_server parse_addr bind core in
        (record core' { routes = remove (site_of addr host) core'.routes }, res)
  ]
