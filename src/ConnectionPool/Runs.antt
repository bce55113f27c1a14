-- ===== src/ConnectionPool/Runs.antt =====
-- connection_pool.rs: any sequence of steps of a pool, and its counters.
use ws_platform.Common.{
  ℕ, ◌≤◌, ◌≡◌, ◌≢◌, refl, Text, Option, List, [], ◌∷◌, length, length-map, map, arith,
}
use ws_platform.Error.{Result, CoreError}
use ws_platform.TcpSocket.{TcpSocket}
use ws_platform.TcpSocket
use ws_platform.ConnectionPool.{
  ConnectionPool, Peer, World, got, refused, active, idle, connect, give_back, close, with_timeouts,
}
use ws_platform.ConnectionPool.Order.{IsSorted}
use ws_platform.ConnectionPool.Monitor.{Monitor, Polled, after_poll}
use ws_platform.ConnectionPool.Monitor.Poll.{after_poll-IsPool}
use ws_platform.ConnectionPool.Changes.{fail, fail-IsPool, quiet-IsPool, used-IsPool}
use ws_platform.ConnectionPool.Invariant.{IsPool}
use ws_platform.ConnectionPool.Connect.{connect-Connects}
use ws_platform.ConnectionPool.Return.{Picks, Picks-length, Picks-IsPool, give_back-IsPool}

-- One step: a peer is handed out, or refused; one of those that are out is given back, closed or used in
-- any way that leaves its counters and its token, which are private; the socket of a descriptor fails,
-- be it idle or out; time goes on; or the monitor has polled.
pub data Step (self : ConnectionPool) : World → List Peer → World → List Peer → Type 0 where
  connects :
      (dial : Option ℕ → Result CoreError TcpSocket) (timeout : Option ℕ) {w w' : World} {p : Peer}
      {out : List Peer}
      → connect dial timeout self w ≡ (w', got p)
      → Step self w out w' (p ∷ out)
  refuses :
      (dial : Option ℕ → Result CoreError TcpSocket) (timeout : Option ℕ) {w w' : World}
      {e : CoreError} {out : List Peer}
      → connect dial timeout self w ≡ (w', refused e)
      → Step self w out w' out
  returns :
      (timeout : Option ℕ) {w : World} {p : Peer} {out rest : List Peer}
      → Picks p out rest
      → Step self w out (give_back timeout p w) rest
  closes :
      {w : World} {p : Peer} {out rest : List Peer}
      → Picks p out rest
      → Step self w out (close p w).1 ((close p w).0 ∷ rest)
  uses :
      (q : Peer) {w : World} {p : Peer} {out rest : List Peer}
      → Picks p out rest
      → q.active ≡ p.active
      → q.keepalive ≡ p.keepalive
      → q.token ≡ p.token
      → Step self w out w (q ∷ rest)
  fails :
      (fd : ℕ) {w : World} {out : List Peer}
      → Step self w out (record w { peers = map (fail fd) w.peers }) (map (fail fd) out)
  ticks : (now : ℕ) {w : World} {out : List Peer} → Step self w out (record w { now = now }) out
  polls :
      (polled : Polled) (m : Monitor) {w : World} {out : List Peer}
      → Step self w out (after_poll polled m w).1 out

pub data Reach (self : ConnectionPool) (w : World) : World → List Peer → Type 0 where
  start : Reach self w w []
  next :
      {v u : World} {ps qs : List Peer}
      → Reach self w v ps
      → Step self v ps u qs
      → Reach self w u qs

module _ (self : ConnectionPool) where
  pub IsPool-idle : (w : World) (out : List Peer) → IsPool self w out → idle self w ≡ length w.peers
  IsPool-idle w out v = omega (arith, v.counted, v.actives)

  pub IsPool-active : (w : World) (out : List Peer) → IsPool self w out → active self w ≡ length out
  IsPool-active w out v = omega (arith, v.actives)

  close-IsPool :
      (p : Peer) (out rest : List Peer) (w : World)
      → Picks p out rest
      → IsPool self w out
      → IsPool self (close p w).1 ((close p w).0 ∷ rest)
  unfolding close TcpSocket.close
  close-IsPool p out rest w k v =
      let c = close p w in
      used-IsPool self p c.0 rest c.1 refl refl refl (
        quiet-IsPool self w.now w.sent c.1.closed (p ∷ rest) w (Picks-IsPool self p out rest w k v))

  Step-IsPool :
      {w u : World} {ps qs : List Peer} → Step self w ps u qs → IsPool self w ps → IsPool self u qs
  Step-IsPool (connects dial timeout {w = w} {out = out} e) v =
      rw e at (connect-Connects self dial timeout out w v)
  Step-IsPool (refuses dial timeout {w = w} {out = out} e) v =
      rw e at (connect-Connects self dial timeout out w v)
  Step-IsPool (returns timeout {w = w} {p = p} {out = out} {rest = rest} k) v =
      give_back-IsPool self timeout p rest w (Picks-IsPool self p out rest w k v)
  Step-IsPool (closes {w = w} {p = p} {out = out} {rest = rest} k) v = close-IsPool p out rest w k v
  Step-IsPool (uses q {w = w} {p = p} {out = out} {rest = rest} k a b t) v =
      used-IsPool self p q rest w a b t (Picks-IsPool self p out rest w k v)
  Step-IsPool (fails fd {w = w} {out = out}) v = fail-IsPool self fd out w v
  Step-IsPool (ticks now {w = w} {out = out}) v = quiet-IsPool self now w.sent w.closed out w v
  Step-IsPool (polls polled m {w = w} {out = out}) v = after_poll-IsPool self out polled m w v

  connect_room :
      (dial : Option ℕ → Result CoreError TcpSocket) (timeout : Option ℕ) (w w' : World) (p : Peer)
      → connect dial timeout self w ≡ (w', got p)
      → active self w ≢ self.max_active
  unfolding connect
  connect_room dial timeout w w' p e h = ground arith

  Step-bound :
      {w u : World} {ps qs : List Peer}
      → Step self w ps u qs
      → IsPool self w ps
      → length ps ≤ self.max_active
      → length qs ≤ self.max_active
  Step-bound (connects dial timeout {w = w} {w' = w'} {p = p} {out = out} e) v h =
      omega (arith, connect_room dial timeout w w' p e, IsPool-active w out v)
  Step-bound (refuses dial timeout e) v h = h
  Step-bound (returns timeout k) v h = omega (arith, Picks-length k)
  Step-bound (closes k) v h = omega (arith, Picks-length k)
  Step-bound (uses q k a b t) v h = omega (arith, Picks-length k)
  Step-bound (fails fd {out = out}) v h = omega (arith, length-map out (fail fd))
  Step-bound (ticks now) v h = h
  Step-bound (polls polled m) v h = h

  Reach-IsPool :
      {w u : World} {out : List Peer}
      → IsPool self w []
      → Reach self w u out
      → IsPool self u out × (length out ≤ self.max_active)
  Reach-IsPool v start = (v, omega arith)
  Reach-IsPool v (next r s) = let (u, h) = Reach-IsPool v r in (Step-IsPool s u, Step-bound s u h)

  -- From a pool that has handed nothing out, through any sequence of `connect`, of peers that are given back,
  -- closed or used by their owners, of sockets that fail, of time that passes and of polls of the
  -- monitor, but not of messages to the monitor: `active` counts the connections that are out, at most
  -- `max_active`; `idle` counts the idle peers, which stay in order.
  pub Reach-bounded :
      (w u : World) (out : List Peer)
      → IsPool self w []
      → Reach self w u out
      → (active self u ≡ length out)
        × (length out ≤ self.max_active)
        × (idle self u ≡ length u.peers)
        × IsSorted u.peers
  Reach-bounded w u out v r =
      let (i, h) = Reach-IsPool v r in (IsPool-active u out i, h, IsPool-idle u out i, i.sorted)

-- A new pool has handed nothing out.
pub with_timeouts-IsPool :
    (name : Text) (max_keepalive max_active : ℕ) (timeout keepalive_timeout requests : Option ℕ)
    (w : World)
    → let (self, w') =
        with_timeouts name max_keepalive max_active timeout keepalive_timeout requests w in
      IsPool self w' []
unfolding with_timeouts
with_timeouts-IsPool name max_keepalive max_active timeout keepalive_timeout requests w = record {
  apart = omega arith;
  fresh = omega arith;
  sorted = tt;
  idles = tt;
  outs = tt;
  actives = ground arith;
  counted = ground arith;
  tokens = tt;
  out_tokens = tt;
  crossed = tt;
  distinct = tt;
}
