-- ===== src/Http/ServerCore/Phases.antt =====
-- http/http_server_core.rs: one round of the loop that serves a request, with its phases. A rewrite, or an
-- access handler that changes the uri, begins another round.
use ws_platform.Common.{
  Text, Option, none, some, not, List, [], ◌∷◌, ◌++◌, or_else, if◌then◌else◌, text_eq,
}
use ws_platform.Error.{Code, done, again, declined}
use ws_platform.Http.ServerCore.{Session, Phase, RouteContext, ServerContext, site_key}
use ws_platform.Http.ServerCore.Find.{uri}

-- `phase_handler`: the first handler that does not decline decides.
unfoldable pub phase_handler : {H R : Type 0} → List (Phase H R) → Session H R → Session H R × Code
phase_handler [] r = (r, declined)
phase_handler (h ∷ hs) r =
    let (r', code) = h r in
    let rest = phase_handler hs r' in
    elim code [ done ↦ (r', done) | again ↦ (r', again) | declined ↦ rest ]

-- Who answers: the content handler of a route, that of the server, or one of the two answers of the code.
pub data Answer (K : Type 0) : Type 0 where
  route_content server_content : K → Answer K
  unauthorized not_found : Answer K

-- A round of the loop: begin again, or answer the request.
pub data Round (H K R : Type 0) : Type 0 where
  continue : Session H R → Round H K R
  answers : Answer K → Session H R → Round H K R

abbrev pub set_error_log : {H R : Type 0} → Option Text → Session H R → Session H R
set_error_log none r = r
set_error_log (some log) r = record r { error_log = some log }

-- The answer to a request that may pass, where the route has no content, and where none is found.
abbrev pub default_answer : {K : Type 0} → Option K → Answer K
default_answer none = not_found
default_answer (some k) = server_content k

module _ {H K R : Type 0} where
  -- The lists of a server and of a route are appended to those of the request.
  abbrev pub add_server_filters : Option (ServerContext H K R) → Session H R → Session H R
  add_server_filters none r = r
  add_server_filters (some s) r = record r {
    header_filter = r.header_filter ++ s.header_filter;
    body_filter = r.body_filter ++ s.body_filter;
    log = r.log ++ s.log;
  }

  abbrev pub add_route_filters : RouteContext H K R → Session H R → Session H R
  add_route_filters route r = record r {
    header_filter = r.header_filter ++ route.header_filter;
    body_filter = r.body_filter ++ route.body_filter;
    flush = r.flush ++ route.flush;
    log = r.log ++ route.log;
  }

  abbrev pub phases_of :
      (ServerContext H K R → List (Phase H R)) → Option (ServerContext H K R) → List (Phase H R)
  phases_of f none = []
  phases_of f (some s) = f s

  -- The server runs its variables and then its rewrites.
  unfoldable pub server_rewrite : Option (ServerContext H K R) → Session H R → Session H R × Code
  unfolding phase_handler
  server_rewrite s r =
      phase_handler (phases_of (λ c. c.rewrite) s) (phase_handler (phases_of (λ c. c.setvar) s) r).0

  -- The rewrites of the route, unless one of the server has decided.
  abbrev pub route_rewrite : RouteContext H K R → Session H R × Code → Session H R × Code
  route_rewrite route (r, declined) = phase_handler route.rewrite r
  route_rewrite route (r, done) = (r, done)
  route_rewrite route (r, again) = (r, again)

  -- The access handlers of the server and then those of the route: `rc` keeps the code of the rewrites
  -- where there are no phase handlers.
  abbrev pub server_access : Option (ServerContext H K R) → Code → Session H R → Session H R × Code
  server_access none rc r = (r, rc)
  server_access (some s) rc r = phase_handler s.access r

  abbrev pub route_access : RouteContext H K R → Session H R × Code → Session H R × Code
  route_access route (r, declined) = phase_handler route.access r
  route_access route (r, done) = (r, done)
  route_access route (r, again) = (r, again)

  abbrev pub content_answer : Option K → RouteContext H K R → Answer K
  content_answer handler route = elim route.content [
    | some k ↦ route_content k
    | none ↦ default_answer handler
  ]

  abbrev pub finish :
      ServerContext H K R
      → Option (ServerContext H K R)
      → RouteContext H K R
      → Answer K
      → Session H R
      → Round H K R
  finish server s route answer r = answers answer (
      set_error_log (or_else route.error_log server.error_log)
        (add_route_filters route (add_server_filters s r)))

  abbrev pub after_access :
      ServerContext H K R
      → Option (ServerContext H K R)
      → Option K
      → RouteContext H K R
      → Text
      → Session H R × Code
      → Round H K R
  after_access server s handler route before (r, again) =
      if not (text_eq before (uri r)) then continue r else finish server s route unauthorized r
  after_access server s handler route before (r, done) =
      finish server s route (content_answer handler route) r
  after_access server s handler route before (r, declined) =
      finish server s route (content_answer handler route) r

  -- After the rewrites: `rc` is the code of those of the server.
  abbrev pub after_rewrite :
      ServerContext H K R
      → Option (ServerContext H K R)
      → Option K
      → RouteContext H K R
      → Code
      → Session H R × Code
      → Round H K R
  after_rewrite server s handler route rc (r, again) = continue r
  after_rewrite server s handler route rc (r, done) =
      after_access server s handler route (uri r) (route_access route (server_access s rc r))
  after_rewrite server s handler route rc (r, declined) =
      after_access server s handler route (uri r) (route_access route (server_access s rc r))

  unfoldable pub round_route :
      ServerContext H K R
      → Option (ServerContext H K R)
      → Option K
      → RouteContext H K R
      → Session H R
      → Round H K R
  unfolding server_rewrite phase_handler
  round_route server s handler route r =
      let (r', rc) = server_rewrite s r in
      after_rewrite server s handler route rc (route_rewrite route (r', rc))

  -- No route: only the phase handlers of the server.
  abbrev pub none_access :
      ServerContext H K R → ServerContext H K R → Option K → Session H R × Code → Round H K R
  none_access server s handler (r, again) =
      answers unauthorized (set_error_log server.error_log (add_server_filters (some s) r))
  none_access server s handler (r, done) =
      answers (default_answer handler)
        (set_error_log server.error_log (add_server_filters (some s) r))
  none_access server s handler (r, declined) =
      answers (default_answer handler)
        (set_error_log server.error_log (add_server_filters (some s) r))

  abbrev pub none_rewrite :
      ServerContext H K R → ServerContext H K R → Option K → Session H R × Code → Round H K R
  none_rewrite server s handler (r, again) = continue r
  none_rewrite server s handler (r, done) = none_access server s handler (phase_handler s.access r)
  none_rewrite server s handler (r, declined) =
      none_access server s handler (phase_handler s.access r)

  unfoldable pub round_none :
      ServerContext H K R → Option (ServerContext H K R) → Option K → Session H R → Round H K R
  unfolding server_rewrite phase_handler
  round_none server none handler r = answers (default_answer handler) r
  round_none server (some s) handler r = none_rewrite server s handler (server_rewrite (some s) r)

  abbrev pub round_picked :
      ServerContext H K R
      → Option (ServerContext H K R)
      → Option K
      → Session H R × Option (RouteContext H K R)
      → Round H K R
  round_picked server s handler (r, none) = round_none server s handler r
  round_picked server s handler (r, some route) = round_route server s handler route r
