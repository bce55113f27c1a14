-- ===== src/Http/ServerCore/Servers.antt =====
-- http/http_server_core.rs: the phase handlers of a site, and `add_server`.
use ws_platform.Common.{Text, Option, some, List, [], ◌∷◌, ◌++◌, lookup, insert, get_or}
use ws_platform.Error.{Result, ok, err, CoreResult, done}
use ws_platform.Router.Regex.{Engine}
use ws_platform.Core.{Options}
use ws_platform.Core.Server.{Server, add_server_handler}
use ws_platform.Http.ServerCore.{
  Phase, RouteContext, ServerContext, SiteKey, site_key, default_server,
}
use ws_platform.Http.ServerCore.Tables.{HttpServerCore, get_addr, site_of, add_route}

module _ {H K R : Type 0} where
  -- `entry(key).or_default()`, with what is done to the entry.
  abbrev pub at_site :
      SiteKey
      → (ServerContext H K R → ServerContext H K R)
      → List (SiteKey × ServerContext H K R)
      → List (SiteKey × ServerContext H K R)
  at_site key f handlers = insert key (f (get_or (lookup key handlers) default_server)) handlers

  -- `push_back` on one of the six lists.
  abbrev pub push_setvar : Phase H R → ServerContext H K R → ServerContext H K R
  push_setvar h s = record s { setvar = s.setvar ++ h ∷ [] }

  abbrev pub push_rewrite : Phase H R → ServerContext H K R → ServerContext H K R
  push_rewrite h s = record s { rewrite = s.rewrite ++ h ∷ [] }

  abbrev pub push_access : Phase H R → ServerContext H K R → ServerContext H K R
  push_access h s = record s { access = s.access ++ h ∷ [] }

  abbrev pub push_log : H → ServerContext H K R → ServerContext H K R
  push_log h s = record s { log = s.log ++ h ∷ [] }

  abbrev pub push_header_filter : H → ServerContext H K R → ServerContext H K R
  push_header_filter h s = record s { header_filter = s.header_filter ++ h ∷ [] }

  abbrev pub push_body_filter : H → ServerContext H K R → ServerContext H K R
  push_body_filter h s = record s { body_filter = s.body_filter ++ h ∷ [] }

  -- `for_each`, over the handlers of a list.
  abbrev pub each :
      {A : Type 0}
      → (A → ServerContext H K R → ServerContext H K R)
      → List A
      → ServerContext H K R
      → ServerContext H K R
  each push [] s = s
  each push (h ∷ hs) s = each push hs (push h s)

  -- A list without handlers does not make an entry.
  abbrev pub add_each :
      {A : Type 0}
      → SiteKey
      → (A → ServerContext H K R → ServerContext H K R)
      → List A
      → List (SiteKey × ServerContext H K R)
      → List (SiteKey × ServerContext H K R)
  add_each key push [] handlers = handlers
  add_each key push (h ∷ hs) handlers = add_each key push hs (at_site key (push h) handlers)

  -- The six loops of `add_server` over the handlers of the server, in its order.
  unfoldable pub add_phases :
      SiteKey
      → ServerContext H K R
      → List (SiteKey × ServerContext H K R)
      → List (SiteKey × ServerContext H K R)
  unfolding lookup insert
  add_phases key s handlers = add_each key push_body_filter s.body_filter (
      add_each key push_header_filter s.header_filter (
        add_each key push_log s.log (
          add_each key push_access s.access
            (add_each key push_rewrite s.rewrite (add_each key push_setvar s.setvar handlers)))))

module _ (engine : Engine) {H K R : Type 0} (parse_addr : Text → Result Text Text) where
  open engine use {Re}

  -- `add_setvar_handler` and its five like.
  unfoldable pub add_handler :
      {A : Type 0}
      → (A → ServerContext H K R → ServerContext H K R)
      → Text
      → Option Text
      → A
      → HttpServerCore Re H K R
      → HttpServerCore Re H K R × CoreResult
  unfolding lookup insert
  add_handler push bind host h core = elim (get_addr parse_addr bind) [
    | err e ↦ (core, err e)
    | ok addr ↦ (
      record core { phase_handlers = at_site (site_of addr host) (push h) core.phase_handlers },
      ok done,
    )
  ]

  abbrev pub add_setvar_handler :
      Text
      → Option Text
      → Phase H R
      → HttpServerCore Re H K R
      → HttpServerCore Re H K R × CoreResult
  add_setvar_handler = add_handler push_setvar

  abbrev pub add_rewrite_handler :
      Text
      → Option Text
      → Phase H R
      → HttpServerCore Re H K R
      → HttpServerCore Re H K R × CoreResult
  add_rewrite_handler = add_handler push_rewrite

  abbrev pub add_access_handler :
      Text
      → Option Text
      → Phase H R
      → HttpServerCore Re H K R
      → HttpServerCore Re H K R × CoreResult
  add_access_handler = add_handler push_access

  abbrev pub add_log_handler :
      Text → Option Text → H → HttpServerCore Re H K R → HttpServerCore Re H K R × CoreResult
  add_log_handler = add_handler push_log

  abbrev pub add_header_filter_handler :
      Text → Option Text → H → HttpServerCore Re H K R → HttpServerCore Re H K R × CoreResult
  add_header_filter_handler = add_handler push_header_filter

  abbrev pub add_body_filter_handler :
      Text → Option Text → H → HttpServerCore Re H K R → HttpServerCore Re H K R × CoreResult
  add_body_filter_handler = add_handler push_body_filter

  -- The loop of `add_server` over the routes, which gives them the host of the server.
  unfoldable pub add_routes :
      Text
      → Option Text
      → List (RouteContext H K R)
      → HttpServerCore Re H K R
      → HttpServerCore Re H K R × CoreResult
  unfolding add_route
  add_routes bind host [] core = (core, ok done)
  add_routes bind host (route ∷ routes) core =
      let (core', res) = add_route engine parse_addr bind (record route { host = host }) core in
      let rest = add_routes bind host routes core' in
      elim res [ err e ↦ (core', err e) | ok code ↦ rest ]

  abbrev pub options_of : ServerContext H K R → Options
  options_of s = record {
    request_timeout = s.request_timeout;
    response_timeout = s.response_timeout;
    keepalive_timeout = s.keepalive_timeout;
    keepalive_requests = s.keepalive_requests;
  }

  -- `add_server`, after its handler is registered.
  abbrev pub after_register :
      Text
      → ServerContext H K R
      → HttpServerCore Re H K R
      → Server (ServerContext H K R × Option K) × CoreResult
      → HttpServerCore Re H K R × CoreResult
  after_register addr s core (server, err e) = (record core { server = server }, err e)
  after_register addr s core (server, ok code) =
      add_routes s.bind s.virtual_host (get_or s.routes []) (record core {
        server = server;
        phase_handlers = add_phases (site_of addr s.virtual_host) s core.phase_handlers;
      })

  unfoldable pub add_server :
      ServerContext H K R
      → Option K
      → HttpServerCore Re H K R
      → HttpServerCore Re H K R × CoreResult
  unfolding add_phases add_routes add_server_handler
  add_server s content core = elim (get_addr parse_addr s.bind) [
    | err e ↦ (core, err e)
    | ok addr ↦
        after_register addr s core
          (add_server_handler addr (s, content) (some (options_of s)) core.server)
  ]
