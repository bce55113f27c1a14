-- ===== src/ConnectionPool/Monitor/Busy.antt =====
-- connection_pool.rs: a peer that the monitor has no room for.
use ws_platform.Common.{
  ℕ, zero, suc, ◌+◌, ◌<◌, ◌≤◌, ◌≡◌, ◌≢◌, refl, sym, ◌∙◌, subst, Option, none, some, Bool, true,
  false, List, [], ◌∷◌, ◌++◌, length, ap, inl, inr, Option-cases, arith, ◌==◌, ltb, ◌&&◌,
}
use ws_platform.Error.{Result, CoreError}
use ws_platform.TcpSocket.{TcpSocket}
use ws_platform.TcpSocket
use ws_platform.ConnectionPool.{
  ConnectionPool, Peer, World, adds, got, connect, give_back, set_keepalive, keep, kept, store,
  announce, clone, weak, idle,
}
use ws_platform.ConnectionPool.Invariant.{IsPool}
use ws_platform.ConnectionPool.Limits.{Handed, connect-Handed}
use ws_platform.ConnectionPool.Monitor.{Monitor, receive, receive_all, monitor_limit}

-- A valid peer with a handle whose counters are equal, which has served fewer requests than this.
record IsReady (w : World) (p : Peer) (copy : ConnectionPool) (n : ℕ) : Type 0 where
  owner : p.pool ≡ some copy
  counts : w.strong copy.keepalive ≡ w.strong copy.active
  limit : copy.max_keepalive ≢ 0
  good : TcpSocket.valid p.stream ≡ true
  served : p.requests + n < copy.keepalive_requests

abbrev weak_copy : Peer → Peer
weak_copy p = record p {
  pool = none;
  active = none;
  keepalive = none;
  userdata = false;
  stream = record p.stream { owned = false };
}

valid-weak : (p : Peer) → TcpSocket.valid p.stream ≡ true → weak p ≡ some (weak_copy p)
unfolding TcpSocket.valid weak TcpSocket.weak
valid-weak p h = elim (Option-cases p.stream.stream) [
  | inl e ↦ absurd (ground arith)
  | inr (s, e) ↦
      rw (e, weak, TcpSocket.weak)
        (ap
          (λ x.
            some (record (weak_copy p) { stream = record p.stream { stream = x; owned = false } }))
          e)
]

-- What the pool inserts, and what it is then.
abbrev inserted : Option ℕ → ConnectionPool → Peer → World → Peer
inserted timeout copy p w = kept timeout copy w.now (record p { pool = none; userdata = false })

abbrev inserting : Option ℕ → ConnectionPool → Peer → World → World
inserting timeout copy p w = store (inserted timeout copy p w) p.active w

taken_back :
    (timeout : Option ℕ) (w : World) (p : Peer) (copy : ConnectionPool) (n : ℕ)
    → IsReady w p copy (suc n)
    → give_back timeout p w
      ≡ announce copy (inserting timeout copy p w) (some (weak_copy (inserted timeout copy p w)))
unfolding give_back set_keepalive keep TcpSocket.valid kept
taken_back timeout w p copy n h =
    let room : (idle copy w == copy.max_keepalive) ≡ false = ground (arith, h.counts, h.limit) in
    let more : (p.requests + 1 == copy.keepalive_requests) ≡ false = ground (arith, h.served) in
    rw (h.owner, h.good, room, more, give_back, set_keepalive)
      (ap (announce copy (inserting timeout copy p w))
        (valid-weak (inserted timeout copy p w) h.good))

-- The pool takes the peer back, and announces a copy that is ready as well.
give_back-IsReady :
    (timeout : Option ℕ) (w : World) (p : Peer) (copy : ConnectionPool) (n : ℕ)
    → IsReady w p copy (suc n)
    → w.sent ≡ []
    → (q : Peer) × (other : ConnectionPool) × IsReady (give_back timeout p w) q other n
      × ((give_back timeout p w).sent ≡ adds q ∷ [])
unfolding announce clone store kept TcpSocket.valid
give_back-IsReady timeout w p copy n h quiet =
    let other = (clone copy (inserting timeout copy p w)).0 in
    let q = record (weak_copy (inserted timeout copy p w)) { pool = some other } in
    let same = sym (taken_back timeout w p copy n h) in
    (
      q,
      other,
      subst (λ u. IsReady u q other n) same
          (record {
            owner = refl;
            counts = ground arith;
            limit = h.limit;
            good = h.good;
            served = omega (arith, h.served);
          }),
      subst (λ u. u.sent ≡ adds q ∷ []) same (ap (λ ms. ms ++ adds q ∷ []) quiet),
    )

refused :
    (fuel : ℕ) (refuses : Peer → Bool) (m : Monitor) (w : World) (p : Peer)
    → monitor_limit ≤ length m.keepalive
    → w.sent ≡ adds p ∷ []
    → receive_all (suc fuel) refuses m w
      ≡ receive_all fuel refuses m (give_back none p (record w { sent = [] }))
unfolding receive_all receive
refused fuel refuses m w p full e =
    let no_room : (TcpSocket.valid p.stream && ltb (length m.keepalive) monitor_limit) ≡ false =
      ground (arith, full) in
    rw (e, receive_all) (rw (no_room, receive) refl)

ready-refused :
    (fuel : ℕ) (refuses : Peer → Bool) (m : Monitor) (w : World) (p : Peer) (copy : ConnectionPool)
    → monitor_limit ≤ length m.keepalive
    → w.sent ≡ adds p ∷ []
    → IsReady w p copy fuel
    → receive_all fuel refuses m w ≡ none
unfolding receive_all
ready-refused zero refuses m w p copy full e h = refl
ready-refused (suc fuel) refuses m w p copy full e h =
    let w0 : World = record w { sent = [] } in
    let h0 : IsReady w0 p copy (suc fuel) = record {
      owner = h.owner;
      counts = h.counts;
      limit = h.limit;
      good = h.good;
      served = h.served;
    } in
    let (q, other, k, said) = give_back-IsReady none w0 p copy fuel h0 refl in
    refused fuel refuses m w p full e
    ∙ ready-refused fuel refuses m (give_back none p w0) q other full said k

module _ (self : ConnectionPool) where
  -- A monitor that has all the peers it can have does not get past the message about a further one, as many
  -- rounds as this may still serve requests: it drops the peer, so that the pool inserts it, counts a
  -- request and announces it again. The further one is a connection that `connect` gave and that was
  -- given back while valid, with no other message on its way, in a pool whose counters and tokens are
  -- in order and whose `max_keepalive` is not 0.
  pub receive_all-refused :
      (dial : Option ℕ → Result CoreError TcpSocket) (timeout later : Option ℕ) (fuel : ℕ)
      (refuses : Peer → Bool) (m : Monitor) (p : Peer) (out : List Peer) (w w' : World)
      → IsPool self w out
      → connect dial timeout self w ≡ (w', got p)
      → w'.sent ≡ []
      → self.max_keepalive ≢ 0
      → TcpSocket.valid p.stream ≡ true
      → p.requests + suc fuel < self.keepalive_requests
      → monitor_limit ≤ length m.keepalive
      → receive_all fuel refuses m (give_back later p w') ≡ none
  receive_all-refused dial timeout later fuel refuses m p out w w' v e quiet limit good served
        full =
      let (copy, owner, counts, same_limit, same_requests) =
        subst (Handed self) e
          (connect-Handed self dial timeout w (omega (arith, v.apart, v.fresh), v.fresh)) in
      let h : IsReady w' p copy (suc fuel) = record {
        owner = owner;
        counts = counts;
        limit = λ z. limit (omega arith);
        good = good;
        served = omega arith;
      } in
      let (q, other, k, said) = give_back-IsReady later w' p copy fuel h quiet in
      ready-refused fuel refuses m (give_back later p w') q other full said k
