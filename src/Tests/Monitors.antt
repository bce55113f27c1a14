-- ===== src/Tests/Monitors.antt =====
-- connection_pool.rs: the monitor at concrete pools.
use ws_platform.Common.{
  ℕ, zero, suc, ◌≡◌, refl, none, some, false, List, [], ◌∷◌, length, All, arith,
}
use ws_platform.TcpSocket.{TcpSocket}
use ws_platform.TcpSocket
use ws_platform.ConnectionPool.{Peer, connect, give_back, with_timeouts}
use ws_platform.ConnectionPool.Monitor.{Monitor, retain_timedout, receive_all}
use ws_platform.ConnectionPool.Monitor.Busy.{receive_all-refused}
use ws_platform.ConnectionPool.Monitor.Rounds.{retain_timedout-Gone, Gone}
use ws_platform.Tests.Pools.{
  socket, small, fresh_world, idle_peer, two_idle, dial, peer_of, first_call, fresh_world-IsPool,
}

-- At 115 the first of the two is over.
abbrev watched : List Peer
watched =
    record (idle_peer 3 (socket 5 (some 110))) { pool = some small }
    ∷ record (idle_peer 4 (socket 6 (some 120))) { pool = some small }
    ∷ []

retain_timedout-Gone_example :
    All (Gone 115 (retain_timedout 115 watched (5 ∷ 6 ∷ []) two_idle).2.peers) watched
retain_timedout-Gone_example =
    retain_timedout-Gone 115 watched (5 ∷ 6 ∷ []) two_idle ((refl, tt), (tt, tt))
      ((λ e. cc), ((λ e. cc), tt)) ((refl, tt), (tt, tt))

-- A monitor with as many peers as it can have.
abbrev copies : ℕ → Peer → List Peer
copies zero p = []
copies (suc n) p = let rest = copies n p in p ∷ rest

length-copies : (n : ℕ) (p : Peer) → length (copies n p) ≡ n
length-copies zero p = refl
length-copies (suc n) p = omega (arith, length-copies n p)

abbrev full_monitor : ℕ → Monitor
full_monitor n = record { keepalive = copies n (idle_peer 3 (socket 5 none)); registered = [] }

receive_all-refused_example :
    receive_all 100
      (λ p. false)
      (full_monitor 10240)
      (give_back none (peer_of first_call.1) first_call.0)
    ≡ none
unfolding connect TcpSocket.valid with_timeouts
receive_all-refused_example =
    receive_all-refused small dial none none 100 (λ p. false) (full_monitor 10240)
      (peer_of first_call.1) [] fresh_world first_call.0 fresh_world-IsPool refl refl
      (λ e. omega (arith, e)) refl (omega arith)
      (omega (arith, length-copies 10240 (idle_peer 3 (socket 5 none))))
