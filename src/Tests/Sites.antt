-- ===== src/Tests/Sites.antt =====
-- http/http_server_core.rs, core/io.rs, variable.rs and the expansion of variables at concrete inputs.
use ws_platform.Common.{
  ℕ, zero, suc, ◌≡◌, ◌≢◌, ◌<◌, ◌||◌, ◌&&◌, not, refl, sym, subst, ◌⊎◌, inl, inr, Text, codes,
  Option, none, some, true, false, List, [], ◌∷◌, arith, text_eq, if◌then◌else◌, All, get_or,
}
use ws_platform.Error.{ok, done, again, declined}
use ws_platform.KeyVal.{Key, exact}
use ws_platform.Variable.{Variable, simple, cv, text, var}
use ws_platform.Variable.Complex.{complex, complex-template}
use ws_platform.Router.Regex.{Engine}
use ws_platform.Router.Trie.{new_node}
use ws_platform.Http.Types.{HttpMethod}
use ws_platform.Http.Request.{new}
use ws_platform.Http.Expand.{Scope, expand, expand-returns, IsRanked, Below}
use ws_platform.Http.ServerCore.{
  Session, RouteContext, ServerContext, Routers, default_route, default_server,
}
use ws_platform.Http.ServerCore.Find.{find_route, uri}
use ws_platform.Http.ServerCore.Phases.{phase_handler}
use ws_platform.Http.ServerCore.Serve.{serve_loop}
use ws_platform.Http.ServerCore.Rounds.{Refuses}
use ws_platform.Http.ServerCore.Endings.{serve_loop-Refused, Refused}
use ws_platform.Http.ServerCore.Tables.{add_to}
use ws_platform.Http.ServerCore.Routing.{find_route-add_to}
use ws_platform.Http.Plugins.{rewrite_handler}
use ws_platform.Http.Plugins.Rewriting.{serve_loop-rewrite_handler}
use ws_platform.Core.{default_options}
use ws_platform.Core.Listeners.{Io, valid, removed, OneOf, add_listener, remove_listener}
use ws_platform.Core.Listeners.Unique.{IsUnique, listens, add-remove-Listens}
use ws_platform.Tests.Shared.{ascii_key}

-- Expressions that match nothing; the handlers are numbers.
abbrev no_match : Engine
no_match = record { Re = Text; compile = λ t. ok t; captures = λ re t. none }

abbrev Ask : Type 0
Ask = Session ℕ (Unit {0})

abbrev asks : Text → Ask
asks uri = record {
  request = record (new (codes "localhost")) { method = HttpMethod.get; uri = uri };
  vars = [];
  header_filter = [];
  body_filter = [];
  flush = [];
  log = [];
  error_log = none;
}

abbrev Site : Type 0
Site = ServerContext ℕ ℕ (Unit {0})

abbrev Places : Type 0
Places = Routers Text ℕ ℕ (Unit {0})

abbrev nowhere_routes : Places
nowhere_routes = record { trie = new_node; regex = []; named = [] }

abbrev hello : RouteContext ℕ ℕ (Unit {0})
hello = record default_route {
  pattern = codes "/hello";
  method = some HttpMethod.get;
  content = some 7;
}

abbrev hello_routes : Places
unfolding add_to
hello_routes = (add_to no_match hello nowhere_routes).0

find_route-add_to_example :
    find_route no_match (add_to no_match hello nowhere_routes).0 (asks (codes "/hello"))
    ≡ some (asks (codes "/hello"), some hello)
unfolding ws_platform.Common.lookup ws_platform.Router.Trie.node_at
find_route-add_to_example =
    find_route-add_to no_match nowhere_routes hello HttpMethod.get (asks (codes "/hello")) refl refl
      (refl, (refl, tt)) refl refl refl refl

-- A site that refuses everything.
abbrev closed_site : Site
closed_site = record default_server { access = (λ r. (r, again)) ∷ [] }

closed_site-Refuses : Refuses closed_site.access
unfolding phase_handler
closed_site-Refuses r = (refl, refl)

serve_loop-Refused_example : Refused no_match (
    serve_loop no_match default_server
      (some closed_site)
      (some hello_routes)
      (some 9)
      2
      (asks (codes "/hello")))
serve_loop-Refused_example =
    serve_loop-Refused no_match default_server closed_site (some hello_routes) (some 9) 2
      (asks (codes "/hello")) closed_site-Refuses

-- A site with a rewrite that declines, and then the command `rewrite`.
abbrev moved_site : Site
moved_site = record default_server {
  rewrite =
      (λ r. (r, declined)) ∷ rewrite_handler (λ r v. codes "/hello") (simple (codes "/hello")) ∷ [];
}

serve_loop-rewrite_handler_example :
    serve_loop no_match default_server
      (some moved_site)
      (some hello_routes)
      (some 9)
      1000
      (asks (codes "/hello"))
    ≡ none
serve_loop-rewrite_handler_example =
    serve_loop-rewrite_handler no_match (λ r v. codes "/hello") (simple (codes "/hello"))
      ((λ r. (r, declined)) ∷ []) [] default_server moved_site (some hello_routes) (some 9) 1000
      (asks (codes "/hello")) refl ((λ r h. cc), tt)

-- The listeners: an address is listened on, another was removed.
abbrev some_listeners : Io
some_listeners = record {
  servers =
      (1, valid (codes "0.0.0.0:80") default_options 1)
      ∷ (2, removed (OneOf.valid (codes "0.0.0.0:81")))
      ∷ [];
  server_token = 3;
  updated = false;
}

add-remove-Listens_example :
    (let (io, code) = add_listener (codes "0.0.0.0:81") none some_listeners in
      ((a : Text)
        → listens a io.servers
          ≡ (text_eq (codes "0.0.0.0:81") a || listens a some_listeners.servers))
      × (code ≡ ok done)
      × IsUnique io.servers)
    × (((a : Text)
          → listens a (remove_listener (codes "0.0.0.0:81") some_listeners).servers
            ≡ (not (text_eq (codes "0.0.0.0:81") a) && listens a some_listeners.servers))
        × IsUnique (remove_listener (codes "0.0.0.0:81") some_listeners).servers)
add-remove-Listens_example =
    add-remove-Listens (codes "0.0.0.0:81") none some_listeners ((refl, tt), (tt, tt))

-- Templates: `/u/${id}/x`.
complex-template_example :
    complex {R = Unit {0}} (codes "/u/${id}/x")
    ≡ cv (text (codes "/u/") ∷ var (codes "id") ∷ text (codes "/x") ∷ [])
complex-template_example = complex-template ((codes "/u/", codes "id") ∷ []) (codes "/x") (
  ((λ e. omega (arith, e)), ((λ e. omega (arith, e)), ((λ e. omega (arith, e)), tt))),
  (
    (λ e. cc),
    (
      ((λ e. omega (arith, e)), (λ e. omega (arith, e))),
      (((λ e. omega (arith, e)), (λ e. omega (arith, e))), tt),
    ),
  ),
  ((λ e. omega (arith, e)), ((λ e. omega (arith, e)), tt)),
)

-- The variable `b` is made of `a`.
abbrev nested_scope : Scope (Unit {0})
nested_scope = record {
  headers = [];
  args = [];
  vars =
      (record { name = codes "a" }, simple (codes "1") ∷ [])
      ∷ (record { name = codes "b" }, cv (var (codes "a") ∷ []) ∷ [])
      ∷ [];
  self = tt;
}

abbrev rank_of : Option (Variable (Unit {0})) → ℕ
rank_of (some (cv parts)) = 1
rank_of v = 0

abbrev rank : Text → ℕ
unfolding exact
rank name = rank_of (exact name nested_scope.vars)

nested_scope-cases :
    (name : Text) (v : Variable (Unit {0}))
    → exact name nested_scope.vars ≡ some v
    → (v ≡ simple (codes "1")) ⊎ (v ≡ cv (var (codes "a") ∷ []))
unfolding exact ws_platform.Common.lookup ws_platform.KeyVal.get_arg
nested_scope-cases name v e = ground arith

nested_scope-IsRanked : IsRanked rank nested_scope
unfolding exact
nested_scope-IsRanked name v e =
    let ranked : Below rank (rank_of (some v)) v = elim (nested_scope-cases name v e) [
      | inl p ↦ subst (λ u. Below rank (rank_of (some u)) u) (sym p) tt
      | inr p ↦ subst (λ u. Below rank (rank_of (some u)) u) (sym p) (omega arith, tt)
    ] in
    subst (λ o. Below rank (rank_of o) v) (sym e) ranked

expand-returns_example : (t : Text) × (expand 3 nested_scope (cv (var (codes "b") ∷ [])) ≡ some t)
unfolding exact
expand-returns_example =
    expand-returns rank 2 nested_scope (cv (var (codes "b") ∷ [])) nested_scope-IsRanked
      (omega arith, tt)
