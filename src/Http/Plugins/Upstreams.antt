-- ===== src/Http/Plugins/Upstreams.antt =====
-- http/plugins/upstream.rs: the upstreams by their names, and the handler that tells their status. The timeouts
-- and the commands that fill the settings are left out; the counter of an upstream has `live` peers and the
-- upstream itself as owners.
use ws_platform.Common.{
  ℕ, ◌+◌, ◌-◌, ◌^◌, Text, codes, Option, none, some, Bool, false, List, [], ◌∷◌, ◌++◌, Eq, lookup,
  insert, if◌then◌else◌, text_key,
}
use ws_platform.Error.{Result, ok, CoreError, throw}
use ws_platform.KeyVal.{Key, exact}
use ws_platform.Client.{Client}
use ws_platform.Upstream.{
  Pools, Balancer, Upstream, Connected, add_primary, add_backup, active_count, idle,
}
use ws_platform.Upstream
use ws_platform.Http.Types.{HttpStatus}
use ws_platform.Http.Request.{HttpRequest}
use ws_platform.Http.Response.{Exchange, decimal}
use ws_platform.Http.Server.{respond}

-- `ServerContext`.
pub record ServerContext (A : Type 0) : Type 0 where
  pub keepalive : ℕ
  pub max_active : ℕ
  pub address : Option A
  pub backup : Bool

abbrev pub default_server : {A : Type 0} → ServerContext A
default_server = record { keepalive = 0; max_active = 2 ^ 64 - 1; address = none; backup = false }

-- `UpstreamContext`, with the state of its balancer.
pub record UpstreamContext (A S : Type 0) : Type 0 where
  pub name : Text
  pub keepalive : ℕ
  pub max_active : ℕ
  pub servers : List (ServerContext A)
  pub balancer : S

abbrev pub default_upstream : {A S : Type 0} → S → UpstreamContext A S
default_upstream balancer = record {
  name = [];
  keepalive = 0;
  max_active = 2 ^ 64 - 1;
  servers = [];
  balancer = balancer;
}

-- The exit of the block `servers.server`.
abbrev pub push_server :
    {A S : Type 0} → ServerContext A → UpstreamContext A S → UpstreamContext A S
push_server server u = record u { servers = u.servers ++ server ∷ [] }

module _ {A : Type 0} ⦃ea : Eq A⦄ (pools : Pools A) (b : Balancer A pools.Pool) where
  open pools use {Pool, Peer}

  abbrev pub Upstreams : Type 0
  Upstreams = List (Text × Upstream A Pool b.State)

  -- `Upstream::new`.
  abbrev pub new_upstream : UpstreamContext A b.State → Upstream A Pool b.State
  new_upstream ctx = record {
    max_keepalive = ctx.keepalive;
    max_active = ctx.max_active;
    live = 0;
    primary = [];
    backup = [];
    balancer = ctx.balancer;
  }

  abbrev pub add_at : ServerContext A → Option A → Upstream A Pool b.State → Upstream A Pool b.State
  add_at server none u = u
  add_at server (some addr) u =
      if server.backup
      then add_backup pools addr server.keepalive server.max_active u
      else add_primary pools addr server.keepalive server.max_active u

  unfoldable pub add_servers :
      List (ServerContext A) → Upstream A Pool b.State → Upstream A Pool b.State
  unfolding add_primary add_backup
  add_servers [] u = u
  add_servers (server ∷ servers) u = add_servers servers (add_at server server.address u)

  -- The exit of the block `upstreams.upstream`.
  unfoldable pub define : UpstreamContext A b.State → Upstreams → Upstreams
  unfolding add_servers insert
  define ctx us = insert ctx.name (add_servers ctx.servers (new_upstream ctx)) us

  -- `connect`: the upstream keeps the state of its balancer.
  unfoldable pub connect : Text → Upstreams → Upstreams × Result CoreError (Connected Peer)
  unfolding lookup insert Upstream.connect
  connect name us = elim (lookup name us) [
    | none ↦ (us, throw (codes "Upstream '" ++ name ++ codes "' not found"))
    | some u ↦ let (u', res) = Upstream.connect pools b u in (insert name u' us, ok res)
  ]

  abbrev pub status_lines : Upstream A Pool b.State → Text
  status_lines u =
      codes "active: "
      ++ decimal (active_count pools (u.live + 1) u)
      ++ 10 ∷ []
      ++ codes "idle: "
      ++ decimal (idle pools u)
      ++ 10 ∷ []

  -- The handler of the command `upstream_status`.
  unfoldable pub upstream_status : ⦃e : Eq Key⦄ → Upstreams → HttpRequest → Client → Exchange
  unfolding exact lookup
  upstream_status us r c = elim (exact (codes "upstream") r.args) [
    | none ↦ respond HttpStatus.bad_request (codes "upstream parameter requered") r c
    | some name ↦ elim (lookup name us) [
      | none ↦ respond HttpStatus.not_found (codes "upstream not found") r c
      | some u ↦ respond HttpStatus.ok (status_lines u) r c
    ]
  ]
