-- ===== src/ConnectionPool/Monitor/Rounds.antt =====
-- connection_pool.rs: what a round of the monitor does to the connections that are over.
use ws_platform.Common.{
  ℕ, ◌≡◌, ◌≢◌, refl, sym, ap, subst, none, true, false, List, [], ◌∷◌, All, arith, inl, inr,
  Bool-cases, if◌then◌else◌,
}
use ws_platform.TcpSocket
use ws_platform.ConnectionPool.{Peer, World, peer_eq, peer_lt}
use ws_platform.ConnectionPool.Monitor.{retain_timedout, remove_keepalive, deregister}
use ws_platform.ConnectionPool.Monitor.Removal.{
  Absent, remove_keepalive-All, remove_keepalive-IsSorted, remove_keepalive-Absent,
}
use ws_platform.ConnectionPool.Order.{IsSorted, Above}

abbrev IsOver : ℕ → Peer → Type 0
IsOver now p = TcpSocket.timedout now p.stream ≡ true

abbrev pub Expires : List Peer → Type 0
Expires = All (λ p. p.stream.exp ≢ none)

-- The peers that are not timed out.
abbrev pub alive : ℕ → List Peer → List Peer
alive now [] = []
alive now (p ∷ ps) =
    let rest = alive now ps in if TcpSocket.timedout now p.stream then rest else p ∷ rest

later_alive :
    (now : ℕ) (p q : Peer)
    → p.stream.exp ≢ none
    → TcpSocket.timedout now p.stream ≡ false
    → peer_lt p q ≡ true
    → TcpSocket.timedout now q.stream ≡ false
unfolding TcpSocket.timedout
later_alive now p q s h l = ground arith

alive-All :
    (now : ℕ) (ps : List Peer)
    → All (λ p. TcpSocket.timedout now p.stream ≡ false) ps
    → alive now ps ≡ ps
alive-All now [] h = refl
alive-All now (p ∷ ps) (x, h) = rw (x, alive-All now ps h) refl

Above-alive :
    (now : ℕ) (p : Peer) (ps : List Peer)
    → p.stream.exp ≢ none
    → TcpSocket.timedout now p.stream ≡ false
    → Above p ps
    → All (λ q. TcpSocket.timedout now q.stream ≡ false) ps
Above-alive now p [] s h a = tt
Above-alive now p (q ∷ ps) s h (l, a) = (later_alive now p q s h l, Above-alive now p ps s h a)

-- Though it stops at the first peer that is not timed out, the loop removes every peer that is, as
-- the peers are in the order of their expiry. They all have one.
pub retain_timedout-alive :
    (now : ℕ) (ps : List Peer) (registered : List ℕ) (w : World)
    → IsSorted ps
    → Expires ps
    → (retain_timedout now ps registered w).0 ≡ alive now ps
unfolding retain_timedout
retain_timedout-alive now [] registered w o s = refl
retain_timedout-alive now (p ∷ ps) registered w (a, o) (x, s) =
    elim (Bool-cases (TcpSocket.timedout now p.stream)) [
      | inl over ↦
          rw (over, retain_timedout)
            (retain_timedout-alive now ps (deregister p.stream.stream registered)
              (remove_keepalive p w) o s)
      | inr live ↦
          rw (live, retain_timedout)
            (ap (◌∷◌ p) (sym (alive-All now ps (Above-alive now p ps x live a))))
    ]

retain_over :
    (now : ℕ) (p : Peer) (ps : List Peer) (registered : List ℕ) (w : World)
    → TcpSocket.timedout now p.stream ≡ true
    → retain_timedout now (p ∷ ps) registered w
      ≡ retain_timedout now ps (deregister p.stream.stream registered) (remove_keepalive p w)
unfolding retain_timedout
retain_over now p ps registered w over = rw (over, retain_timedout) refl

retain_live :
    (now : ℕ) (p : Peer) (ps : List Peer) (registered : List ℕ) (w : World)
    → TcpSocket.timedout now p.stream ≡ false
    → retain_timedout now (p ∷ ps) registered w ≡ (p ∷ ps, registered, w)
unfolding retain_timedout
retain_live now p ps registered w live = rw (live, retain_timedout) refl

retain_timedout-All {κ} :
    (P : Peer → Type κ) (now : ℕ) (ps : List Peer) (registered : List ℕ) (w : World)
    → All P w.peers
    → All P (retain_timedout now ps registered w).2.peers
unfolding retain_timedout
retain_timedout-All P now [] registered w h = h
retain_timedout-All P now (p ∷ ps) registered w h =
    elim (Bool-cases (TcpSocket.timedout now p.stream)) [
      | inl over ↦
          subst (λ r. All P r.2.peers) (sym (retain_over now p ps registered w over))
            (retain_timedout-All P now ps (deregister p.stream.stream registered)
              (remove_keepalive p w) (remove_keepalive-All P p w h))
      | inr live ↦ subst (λ r. All P r.2.peers) (sym (retain_live now p ps registered w live)) h
    ]

-- A connection that is over.
abbrev pub Gone : ℕ → List Peer → Peer → Type 0
Gone now peers p = TcpSocket.timedout now p.stream ≡ true → p.pool ≢ none → Absent p peers

Gone-All :
    (now : ℕ) (peers ps : List Peer)
    → All (λ p. TcpSocket.timedout now p.stream ≡ false) ps
    → All (Gone now peers) ps
Gone-All now peers [] h = tt
Gone-All now peers (p ∷ ps) (x, h) = (λ over has. ground arith, Gone-All now peers ps h)

-- A watched connection that is timed out is then in the set of the pool no more, so that `connect`
-- cannot hand it out: for sets in order, with the connections that have a pool and an expiry.
pub retain_timedout-Gone :
    (now : ℕ) (ps : List Peer) (registered : List ℕ) (w : World)
    → IsSorted ps
    → Expires ps
    → IsSorted w.peers
    → All (Gone now (retain_timedout now ps registered w).2.peers) ps
unfolding retain_timedout
retain_timedout-Gone now [] registered w o s k = tt
retain_timedout-Gone now (p ∷ ps) registered w (a, o) (x, s) k =
    elim (Bool-cases (TcpSocket.timedout now p.stream)) [
      | inl over ↦
          subst (λ r. All (Gone now r.2.peers) (p ∷ ps))
            (sym (retain_over now p ps registered w over))
            (
              λ t has.
                  retain_timedout-All (λ q. peer_eq p q ≡ false) now ps
                    (deregister p.stream.stream registered) (remove_keepalive p w)
                    (remove_keepalive-Absent p w has k),
              retain_timedout-Gone now ps (deregister p.stream.stream registered)
                  (remove_keepalive p w) o s (remove_keepalive-IsSorted p w k),
            )
      | inr live ↦
          subst (λ r. All (Gone now r.2.peers) (p ∷ ps))
            (sym (retain_live now p ps registered w live))
            (λ t has. ground arith, Gone-All now w.peers ps (Above-alive now p ps x live a))
    ]
