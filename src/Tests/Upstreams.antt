-- ===== src/Tests/Upstreams.antt =====
-- Upstreams of two servers, of which one refuses.
use ws_platform.Common.{
  ℕ, Text, codes, ◌≡◌, refl, List, [], ◌∷◌, arith, IsMap, text_key, ◌==◌, if◌then◌else◌, lookup,
}
use ws_platform.Error.{ok, throw}
use ws_platform.Upstream.{
  Pools, Upstream, connected, round_robin, least, connect, connect_loop, next_server,
}
use ws_platform.Upstream.Balance.{Least, least-Least}
use ws_platform.Upstream.Connect.{IsConnected, connect-reaches}

-- Pools that are their numbers of active peers, of which those without a peer refuse.
abbrev counted : Pools Text
counted = record {
  Pool = ℕ;
  Peer = Text;
  with_limits = λ keepalive active. 0;
  active = λ n. n;
  idle = λ n. 0;
  connect = λ addr n. if n == 0 then throw (codes "refused") else ok addr;
}

abbrev servers : List (Text × ℕ)
servers = (codes "a", 0) ∷ (codes "b", 4) ∷ []

servers-IsMap : IsMap servers
servers-IsMap = ((refl, tt), (tt, tt))

abbrev balanced : {S : Type 0} → S → Upstream Text ℕ S
balanced s = record {
  max_keepalive = 5;
  max_active = 9;
  live = 4;
  primary = servers;
  backup = [];
  balancer = s;
}

-- From the index 2, the attempt at `a` fails and that at `b` succeeds.
connect_run : (connect counted round_robin (balanced 2)).1 ≡ connected (codes "b")
unfolding connect connect_loop next_server lookup
connect_run = refl

connect-reaches_example : IsConnected counted (connect counted round_robin (balanced 2)).1
connect-reaches_example =
    connect-reaches counted (balanced 2) 1 (codes "b") 4 (codes "b") servers-IsMap (omega arith)
      (omega arith) refl refl

least-Least_example : Least (λ n. n) servers (least (λ n. n) tt servers).1
least-Least_example = least-Least (λ n. n) servers
