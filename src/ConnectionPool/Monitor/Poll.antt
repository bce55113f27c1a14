-- ===== src/ConnectionPool/Monitor/Poll.antt =====
-- connection_pool.rs: what the poll of the monitor does to the counters and the set of a pool.
use ws_platform.Common.{
  ℕ, ◌<◌, ◌≡◌, ◌≢◌, some, List, [], ◌∷◌, All, arith, inl, inr, Bool-cases, Option-cases,
}
use ws_platform.TcpSocket
use ws_platform.ConnectionPool.{ConnectionPool, Peer, World, remove_peer, discard}
use ws_platform.ConnectionPool.Order.{NoToken}
use ws_platform.ConnectionPool.Invariant.{IsPool, IsIdle}
use ws_platform.ConnectionPool.Monitor.{
  Monitor, Event, Polled, ready, silent, timed_out, interrupted, failed, remove_keepalive,
  remove_stored, find_peer, deregister, retain_timedout, sweep, ends, event_of, after_poll,
}
use ws_platform.ConnectionPool.Monitor.Removal.{
  remove_peer-All, remove_peer-IsSorted, find_peer-All, length-remove_peer,
}

crossed_removed :
    (p : Peer) (ps out : List Peer)
    → All (λ q. NoToken q.token ps) out
    → All (λ q. NoToken q.token (remove_peer p ps)) out
crossed_removed p ps [] h = tt
crossed_removed p ps (q ∷ out) (x, h) =
    (remove_peer-All (λ r. r.token ≢ q.token) p ps x, crossed_removed p ps out h)

module _ (self : ConnectionPool) (out : List Peer) where
  found-IsPool :
      (p q : Peer) (w : World)
      → find_peer p w.peers ≡ some q
      → IsPool self w out
      → IsPool self (record (discard q w) { peers = remove_peer p w.peers }) out
  unfolding discard
  found-IsPool p q w e v =
      let i = find_peer-All (IsIdle self) p q w.peers e v.idles in
      let n = length-remove_peer p q w.peers e in
      record {
        apart = v.apart;
        fresh = v.fresh;
        sorted = remove_peer-IsSorted p w.peers v.sorted;
        idles = remove_peer-All (IsIdle self) p w.peers v.idles;
        outs = v.outs;
        actives = ground (arith, v.apart, v.actives, i);
        counted = ground (arith, v.apart, v.counted, i, n);
        tokens = remove_peer-All (λ r. r.token < w.next_token) p w.peers v.tokens;
        out_tokens = v.out_tokens;
        crossed = crossed_removed p w.peers out v.crossed;
        distinct = v.distinct;
      }

  remove_keepalive-IsPool :
      (p : Peer) (w : World) → IsPool self w out → IsPool self (remove_keepalive p w) out
  unfolding remove_keepalive remove_stored
  remove_keepalive-IsPool p w v = elim (Option-cases p.pool) [
    | inl e ↦ rw (e, remove_keepalive) v
    | inr (c, e) ↦ elim (Option-cases (find_peer p w.peers)) [
      | inl lost ↦ rw (e, lost, remove_keepalive, remove_stored) v
      | inr (q, found) ↦ rw (e, found, remove_keepalive, remove_stored) (found-IsPool p q w found v)
    ]
  ]

  retain_timedout-IsPool :
      (now : ℕ) (ps : List Peer) (registered : List ℕ) (w : World)
      → IsPool self w out
      → IsPool self (retain_timedout now ps registered w).2 out
  unfolding retain_timedout
  retain_timedout-IsPool now [] registered w v = v
  retain_timedout-IsPool now (p ∷ ps) registered w v =
      elim (Bool-cases (TcpSocket.timedout now p.stream)) [
        | inl over ↦
            rw (over, retain_timedout)
              (retain_timedout-IsPool now ps (deregister p.stream.stream registered)
                (remove_keepalive p w) (remove_keepalive-IsPool p w v))
        | inr live ↦ rw (live, retain_timedout) v
      ]

  sweep-IsPool :
      (now : ℕ) (events : List (ℕ × Event)) (ps : List Peer) (registered : List ℕ) (w : World)
      → IsPool self w out
      → IsPool self (sweep now events ps registered w).2 out
  unfolding sweep
  sweep-IsPool now events [] registered w v = v
  sweep-IsPool now events (p ∷ ps) registered w v =
      elim (Bool-cases (ends (event_of p.token events) (TcpSocket.timedout now p.stream))) [
        | inl over ↦
            rw (over, sweep)
              (sweep-IsPool now events ps (deregister p.stream.stream registered)
                (remove_keepalive p w) (remove_keepalive-IsPool p w v))
        | inr live ↦ rw (live, sweep) (sweep-IsPool now events ps registered w v)
      ]

  -- Whatever the poll reports, and whatever the monitor watches.
  pub after_poll-IsPool :
      (polled : Polled) (m : Monitor) (w : World)
      → IsPool self w out
      → IsPool self (after_poll polled m w).1 out
  unfolding after_poll
  after_poll-IsPool silent m w v = retain_timedout-IsPool w.now m.keepalive m.registered w v
  after_poll-IsPool timed_out m w v = retain_timedout-IsPool w.now m.keepalive m.registered w v
  after_poll-IsPool interrupted m w v = retain_timedout-IsPool w.now m.keepalive m.registered w v
  after_poll-IsPool failed m w v = v
  after_poll-IsPool (ready []) m w v = v
  after_poll-IsPool (ready (e ∷ events)) m w v =
      sweep-IsPool w.now (e ∷ events) m.keepalive m.registered w v
