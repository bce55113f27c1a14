-- ===== src/Http/ServerCore.antt =====
-- http/http_server_core.rs: the tables of a server, by address and host, and the operations on them. A
-- handler of the phases is a function; the handlers of content, `K`, and of the filters and the log, `H`,
-- are run by others. `bind.parse()` is the argument `parse_addr`; the locks are left out.
pub mod Find
pub mod Phases
pub mod Serve
pub mod Rounds
pub mod Endings
pub mod Routing
pub mod Tables
pub mod Servers
use ws_platform.Common.{
  ℕ, Text, codes, Option, none, some, Bool, true, false, List, [], ◌∷◌, ◌++◌, Eq, lookup, insert,
  remove, get_or, text_eq, text_eq_refl, text_eq_sym, text_eq_trans, ◌&&◌, ◌≡◌, arith, ap,
  text_length, trim_any, if◌then◌else◌, strip_prefix, is_some,
}
use mathlib.Core.Option
use ws_platform.Error.{Result, ok, err, CoreError, Code, done, throw, ◌>>=◌}
use ws_platform.KeyVal.{Key, KeyVal}
use ws_platform.Variable.{Variable}
use ws_platform.Router.Trie.{TrieNode, new_node}
use ws_platform.Router.Trie
use ws_platform.Router.Named.{NamedRouter}
use ws_platform.Router.Named
use ws_platform.Router.Regex.{Engine, RegexRoute}
use ws_platform.Router.Regex
use ws_platform.Http.Types.{HttpMethod, method_name}
use ws_platform.Http.Request.{HttpRequest}

-- A request with the variables and the lists that the parsers leave alone.
pub record Session (H R : Type 0) : Type 0 where
  pub request : HttpRequest
  pub vars : KeyVal (Variable R)
  pub header_filter : List H
  pub body_filter : List H
  pub flush : List H
  pub log : List H
  pub error_log : Option Text

-- `RefHandler<HttpRequest, Code>`.
abbrev pub Phase : Type 0 → Type 0 → Type 0
Phase H R = Session H R → Session H R × Code

pub record RouteContext (H K R : Type 0) : Type 0 where
  pub host : Option Text
  pub pattern : Text
  pub method : Option HttpMethod
  pub error_log : Option Text
  pub setvar : List (Phase H R)
  pub rewrite : List (Phase H R)
  pub access : List (Phase H R)
  pub content : Option K
  pub header_filter : List H
  pub body_filter : List H
  pub flush : List H
  pub log : List H

pub record ServerContext (H K R : Type 0) : Type 0 where
  pub workgroup : Text
  pub bind : Text
  pub error_log : Option Text
  pub virtual_host : Option Text
  pub routes : Option (List (RouteContext H K R))
  pub request_timeout : Option ℕ
  pub response_timeout : Option ℕ
  pub keepalive_timeout : Option ℕ
  pub keepalive_requests : ℕ
  pub setvar : List (Phase H R)
  pub rewrite : List (Phase H R)
  pub access : List (Phase H R)
  pub header_filter : List H
  pub body_filter : List H
  pub log : List H

-- The defaults: `RouteContext::default` and `ServerContext::default`.
abbrev pub default_route : {H K R : Type 0} → RouteContext H K R
default_route = record {
  host = none;
  pattern = [];
  method = none;
  error_log = none;
  setvar = [];
  rewrite = [];
  access = [];
  content = none;
  header_filter = [];
  body_filter = [];
  flush = [];
  log = [];
}

abbrev pub default_server : {H K R : Type 0} → ServerContext H K R
default_server = record {
  workgroup = [];
  bind = [];
  error_log = none;
  virtual_host = none;
  routes = none;
  request_timeout = none;
  response_timeout = none;
  keepalive_timeout = none;
  keepalive_requests = 0;
  setvar = [];
  rewrite = [];
  access = [];
  header_filter = [];
  body_filter = [];
  log = [];
}

pub record Routers (Re H K R : Type 0) : Type 0 where
  pub trie : TrieNode (RouteContext H K R)
  pub regex : List (RegexRoute Re (RouteContext H K R))
  pub named : NamedRouter (RouteContext H K R)

-- The keys of the tables: an address, and a host or `*`.
abbrev pub SiteKey : Type 0
SiteKey = Text × Text

pub site_refl : (a : SiteKey) → (text_eq a.0 a.0 && text_eq a.1 a.1) ≡ true
site_refl a = ground (arith, text_eq_refl a.0, text_eq_refl a.1)

pub site_sym :
    (a b : SiteKey) → (text_eq a.0 b.0 && text_eq a.1 b.1) ≡ (text_eq b.0 a.0 && text_eq b.1 a.1)
site_sym a b = ground (arith, text_eq_sym a.0 b.0, text_eq_sym a.1 b.1)

pub site_trans :
    (a b c : SiteKey)
    → (text_eq a.0 b.0 && text_eq a.1 b.1) ≡ true
    → (text_eq b.0 c.0 && text_eq b.1 c.1) ≡ true
    → (text_eq a.0 c.0 && text_eq a.1 c.1) ≡ true
site_trans a b c = ground (arith, text_eq_trans a.0 b.0 c.0, text_eq_trans a.1 b.1 c.1)

instance abbrev pub site_key : Eq SiteKey
site_key = record {
  same = λ a b. text_eq a.0 b.0 && text_eq a.1 b.1;
  same_refl = site_refl;
  same_sym = site_sym;
  same_trans = site_trans;
}

-- `get_method`.
abbrev pub get_method : Option HttpMethod → Option Text
get_method none = none
get_method (some m) = some (method_name m)

-- `RouteContext::copy`.
abbrev pub copy : {H K R : Type 0} → RouteContext H K R → RouteContext H K R → RouteContext H K R
copy self src = record self {
  error_log = src.error_log;
  host = src.host;
  pattern = src.pattern;
  method = src.method;
  setvar = src.setvar;
  rewrite = src.rewrite;
  access = src.access;
  content = src.content;
  flush = src.flush;
  header_filter = src.header_filter;
  body_filter = src.body_filter;
  log = src.log;
}
