-- ===== src/Tests/Pools.antt =====
-- connection_pool.rs at concrete pools.
use ws_platform.Common.{
  ℕ, ◌≡◌, ◌≤◌, refl, Option, none, some, true, false, [], ◌∷◌, length, codes, arith, if◌then◌else◌,
  ◌==◌, ◌^◌, ◌-◌, map,
}
use ws_platform.Error.{Result, ok, CoreError}
use ws_platform.TcpSocket.{TcpSocket}
use ws_platform.TcpSocket
use ws_platform.ConnectionPool.{
  ConnectionPool, Peer, World, Outcome, adds, got, refused, panicked, new, connect, give_back,
  new_peer, active, idle, hand_out, with_timeouts,
}
use ws_platform.ConnectionPool.Order.{IsSorted}
use ws_platform.ConnectionPool.Invariant.{IsPool}
use ws_platform.ConnectionPool.Connect.{connect-Dialled, Dialled}
use ws_platform.ConnectionPool.Runs.{
  Reach, start, next, connects, returns, fails, ticks, polls, uses, Reach-bounded,
  with_timeouts-IsPool,
}
use ws_platform.ConnectionPool.Return.{here, there}
use ws_platform.ConnectionPool.Changes.{fail}
use ws_platform.ConnectionPool.Limits.{give_back_unlimited}
use ws_platform.ConnectionPool.Monitor.{Monitor, silent, after_poll}

abbrev pub socket : ℕ → Option ℕ → TcpSocket
socket fd exp = record {
  stream = some (record { fd = fd; failing = false });
  owned = true;
  local_addr = codes "127.0.0.1:9000";
  remote_addr = codes "127.0.0.1:80";
  exp = exp;
}

abbrev pub failing_socket : ℕ → Option ℕ → TcpSocket
failing_socket fd exp = record (socket fd exp) {
  stream = some (record { fd = fd; failing = true });
}

abbrev pub nowhere : World
nowhere = record {
  peers = [];
  strong = λ i. 0;
  next_arc = 0;
  next_token = 1;
  now = 100;
  sent = [];
  closed = [];
}

-- A pool that keeps one idle connection at most, and allows two that are active.
abbrev pub small : ConnectionPool
small = record {
  max_keepalive = 1;
  max_active = 2;
  name = codes "backend";
  active = 0;
  keepalive = 1;
  timeout = none;
  keepalive_timeout = 86400;
  keepalive_requests = 2 ^ 64 - 1;
}

abbrev pub fresh_world : World
fresh_world = (new (codes "backend") 1 2 nowhere).1

abbrev pub dial : Option ℕ → Result CoreError TcpSocket
dial timeout = ok (socket 7 timeout)

abbrev pub idle_peer : ℕ → TcpSocket → Peer
idle_peer token s = record {
  upstream = none;
  pool = none;
  active = none;
  keepalive = some 1;
  token = token;
  userdata = false;
  requests = 1;
  stream = s;
}

-- The first idle connection has failed, the second is taken.
abbrev pub two_idle : World
two_idle = record nowhere {
  peers = idle_peer 3 (failing_socket 5 (some 110)) ∷ idle_peer 4 (socket 6 (some 120)) ∷ [];
}

connect-Dialled_example :
    Dialled small (ok (socket 7 none)) two_idle.peers (connect dial none small two_idle)
connect-Dialled_example = connect-Dialled small dial none two_idle ((λ e. cc), ((λ e. cc), tt)) refl

pub fresh_world-IsPool : IsPool small fresh_world []
unfolding with_timeouts
fresh_world-IsPool = with_timeouts-IsPool (codes "backend") 1 2 none none none nowhere

-- What `connect` gave.
abbrev pub peer_of : Outcome → Peer
peer_of (got p) = p
peer_of (refused e) = idle_peer 0 (socket 0 none)
peer_of panicked = idle_peer 0 (socket 0 none)

-- Two connections are handed out; the first is given back, its socket fails while it is idle, at 200
-- the monitor polls, and the second is given a timeout and stays out.
abbrev pub first_call : World × Outcome
first_call = connect dial none small fresh_world

abbrev second_call : World × Outcome
second_call = connect (λ timeout. ok (socket 8 timeout)) none small first_call.0

abbrev returned_world : World
returned_world = give_back none (peer_of first_call.1) second_call.0

abbrev failed_world : World
failed_world = record returned_world { peers = map (fail 7) returned_world.peers; now = 200 }

abbrev watching_none : Monitor
watching_none = record { keepalive = []; registered = [] }

abbrev last_world : World
last_world = (after_poll silent watching_none failed_world).1

abbrev user : Peer
user = record (fail 7 (peer_of second_call.1)) { stream = socket 8 (some 300) }

small-Reach : Reach small fresh_world last_world (user ∷ [])
unfolding connect give_back with_timeouts after_poll TcpSocket.valid
small-Reach =
    next
      (next
        (next
          (next
            (next
              (next (next start (connects dial none refl))
                (connects (λ timeout. ok (socket 8 timeout)) none refl))
              (returns none (there (peer_of second_call.1) (here []))))
            (fails 7))
          (ticks 200))
        (polls silent watching_none))
      (uses user (here []) refl refl refl)

Reach-bounded_example :
    (active small last_world ≡ 1)
    × (1 ≤ 2)
    × (idle small last_world ≡ length last_world.peers)
    × IsSorted last_world.peers
Reach-bounded_example =
    Reach-bounded small fresh_world last_world (user ∷ []) fresh_world-IsPool small-Reach

-- Two connections are idle already, where one should be, and the first is taken: it is kept all the same.
abbrev two_kept : World
two_kept = record fresh_world {
  peers = idle_peer 1 (socket 5 (some 86500)) ∷ idle_peer 2 (socket 6 (some 86600)) ∷ [];
  strong = λ i. if i == 0 then 1 else if i == 1 then 3 else 1;
  next_token = 3;
  next_arc = 4;
}

two_kept-IsPool : IsPool small two_kept []
two_kept-IsPool = record {
  apart = omega arith;
  fresh = omega arith;
  sorted = ((refl, tt), (tt, tt));
  idles = ((refl, refl, λ e. cc), ((refl, refl, λ e. cc), tt));
  outs = tt;
  actives = refl;
  counted = refl;
  tokens = (omega arith, (omega arith, tt));
  out_tokens = tt;
  crossed = tt;
  distinct = tt;
}

abbrev reused : World × Outcome
reused = connect dial none small two_kept

give_back_unlimited_example : length (give_back none (peer_of reused.1) reused.0).peers ≡ 2
unfolding connect TcpSocket.valid ws_platform.ConnectionPool.weak TcpSocket.weak
    TcpSocket.set_timeout
give_back_unlimited_example =
    give_back_unlimited small dial none none (peer_of reused.1) [] two_kept reused.0 two_kept-IsPool
      refl (λ e. omega (arith, e)) refl (λ e. omega (arith, e))
