-- ===== src/Upstream.antt =====
-- upstream.rs, and the balancer of http/plugins/least_conn.rs: the servers behind a name. The pools of
-- connection_pool.rs are the argument `Pools`. The lock is left out: a call is one step. The
-- iteration over the servers goes along the list, in the same order at every call.
pub mod Balance
pub mod Connect
use ws_platform.Common.{
  ℕ, zero, suc, ◌+◌, ◌-◌, ◌^◌, ◌%◌, Text, codes, Option, none, some, Bool, true, false, List, [],
  ◌∷◌, length, get_elem?, ltb, ◌==◌, if◌then◌else◌, min, Eq, lookup, insert,
}
use ws_platform.Error.{Result, ok, err, CoreError, throw}

-- `ConnectionPool::with_timeouts`, for the two limits that differ between servers; `active` and `idle`;
-- and what a call of `connect` on the pool gives. A failed call is the same when it is made again.
pub record Pools (A : Type 0) : Type 1 where
  pub Pool : Type 0
  pub Peer : Type 0
  pub with_limits : ℕ → ℕ → Pool
  pub active : Pool → ℕ
  pub idle : Pool → ℕ
  pub connect : A → Pool → Result CoreError Peer

-- The outcome of `balance`.
pub data Choice (A : Type 0) : Type 0 where
  chosen : A → Choice A
  nothing panics : Choice A

-- The trait `UpstreamBalance`.
pub record Balancer (A P : Type 0) : Type 1 where
  pub State : Type 0
  pub balance : State → List (A × P) → State × Choice A

abbrev pub choice : {A : Type 0} → Option A → Choice A
choice none = nothing
choice (some a) = chosen a

module _ {A P : Type 0} where
  abbrev pub nth : List (A × P) → ℕ → Choice A
  nth servers i = elim (get_elem? servers i) [ some (a, p) ↦ chosen a | none ↦ panics ]

  -- `RoundRobin`, whose state is its index: `fetch_add` wraps, and a remainder by zero panics.
  unfoldable pub next_server : ℕ → List (A × P) → ℕ × Choice A
  next_server i servers =
      ((i + 1) % 2 ^ 64, if length servers == 0 then panics else nth servers (i % length servers))

  abbrev pub round_robin : Balancer A P
  round_robin = record { State = ℕ; balance = next_server }

  -- The loop of `BalanceLeastConn`, with `best`.
  unfoldable pub least_loop : (P → ℕ) → ℕ → Option A → List (A × P) → Option A
  least_loop active best addr [] = addr
  least_loop active best addr ((a, p) ∷ servers) =
      let better = least_loop active (active p) (some a) servers in
      let same = least_loop active best addr servers in if ltb (active p) best then better else same

  unfoldable pub least : (P → ℕ) → Unit {0} → List (A × P) → Unit {0} × Choice A
  unfolding least_loop
  least active s servers = (s, choice (least_loop active (2 ^ 64 - 1) none servers))

  abbrev pub least_conn : (P → ℕ) → Balancer A P
  least_conn active = record { State = Unit {0}; balance = least active }

-- `live` counts the peers that carry the user data of this upstream.
pub record Upstream (A P S : Type 0) : Type 0 where
  pub max_keepalive : ℕ
  pub max_active : ℕ
  pub live : ℕ
  pub primary : List (A × P)
  pub backup : List (A × P)
  pub balancer : S

-- The result of `connect`.
pub data Connected (Peer : Type 0) : Type 0 where
  connected : Peer → Connected Peer
  refused panicked : Connected Peer

-- A peer that is handed out counts as live.
abbrev pub live_after : {Peer : Type 0} → Connected Peer → ℕ → ℕ
live_after (connected peer) n = n + 1
live_after refused n = n
live_after panicked n = n

module _ {A : Type 0} ⦃e : Eq A⦄ (pools : Pools A) where
  open pools use {Pool, Peer}

  unfoldable pub add_primary : {S : Type 0} → A → ℕ → ℕ → Upstream A Pool S → Upstream A Pool S
  unfolding insert
  add_primary addr max_keepalive max_active u = record u {
    primary =
        insert addr
          (pools.with_limits (min max_keepalive u.max_keepalive) (min max_active u.max_active))
          u.primary;
  }

  unfoldable pub add_backup : {S : Type 0} → A → ℕ → ℕ → Upstream A Pool S → Upstream A Pool S
  unfolding insert
  add_backup addr max_keepalive max_active u = record u {
    backup =
        insert addr
          (pools.with_limits (min max_keepalive u.max_keepalive) (min max_active u.max_active))
          u.backup;
  }

  -- `active`, where the counter has this many owners.
  abbrev pub active_count : {S : Type 0} → ℕ → Upstream A Pool S → ℕ
  active_count owners u = min u.max_active (owners - 1)

  -- The loop over the servers that one round of `for i in 0..1` makes.
  unfoldable pub connect_loop :
      (b : Balancer A Pool) → ℕ → List (A × Pool) → b.State → b.State × Connected Peer
  unfolding lookup
  connect_loop b zero servers s = (s, refused)
  connect_loop b (suc rounds) servers s =
      let (s', pick) = b.balance s servers in
      let rest = connect_loop b rounds servers s' in
      elim pick [
        | nothing ↦ (s', refused)
        | panics ↦ (s', panicked)
        | chosen addr ↦ elim (lookup addr servers) [
          | none ↦ (s', refused)
          | some pool ↦ elim (pools.connect addr pool) [
            | ok peer ↦ (s', connected peer)
            | err e ↦ rest
          ]
        ]
      ]

  -- `connect`: the user data of the new peer is made before the test, so that the counter has the
  -- upstream, the live peers and itself as owners. `refused` is the error `Bad gateway`.
  unfoldable pub connect :
      (b : Balancer A Pool) → Upstream A Pool b.State → Upstream A Pool b.State × Connected Peer
  unfolding connect_loop
  connect b u =
      if active_count (u.live + 2) u == u.max_active
      then (u, refused)
      else let (s, res) = connect_loop b (length u.primary) u.primary u.balancer in
        (record u { balancer = s; live = live_after res u.live }, res)

  abbrev pub idle_sum : List (A × Pool) → ℕ
  idle_sum [] = 0
  idle_sum ((a, p) ∷ servers) = pools.idle p + idle_sum servers

  abbrev pub idle : {S : Type 0} → Upstream A Pool S → ℕ
  idle u = idle_sum u.primary
