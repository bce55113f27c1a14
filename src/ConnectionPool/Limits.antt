-- ===== src/ConnectionPool/Limits.antt =====
-- connection_pool.rs: the limit on idle connections, and the handle that a peer carries.
use ws_platform.Common.{
  ℕ, suc, ◌+◌, ◌<◌, ◌≡◌, ◌≢◌, refl, ◌∙◌, subst, Option, none, some, true, false, List, [], ◌∷◌,
  length, arith, ◌==◌, Bool-cases, Option-cases, inl, inr, or_else,
}
use ws_platform.Error.{Result, ok, err, CoreError}
use ws_platform.TcpSocket.{TcpSocket}
use ws_platform.TcpSocket
use ws_platform.ConnectionPool.{
  ConnectionPool, Peer, World, Outcome, got, refused, panicked, active, idle, connect, connect_loop,
  connect_new, reuse, taken, new_peer, hand_out, discard, give_back, set_keepalive, keep, clone,
  kept, store, announce, weak,
}
use ws_platform.ConnectionPool.Order.{NoToken, length-insert_peer}
use ws_platform.ConnectionPool.Invariant.{IsPool}
use ws_platform.ConnectionPool.Connect.{Connects, connect-Connects}

announce-peers :
    (self : ConnectionPool) (w : World) (p : Option Peer)
    → length (announce self w p).peers ≡ length w.peers
unfolding announce clone
announce-peers self w none = refl
announce-peers self w (some p) = refl

store-length :
    (p : Peer) (active : Option ℕ) (w : World)
    → NoToken p.token w.peers
    → length (store p active w).peers ≡ suc (length w.peers)
unfolding store
store-length p active w n = length-insert_peer p w.peers n

kept-NoToken :
    (timeout : Option ℕ) (self : ConnectionPool) (p : Peer) (w : World)
    → NoToken p.token w.peers
    → NoToken (kept timeout self w.now p).token w.peers
unfolding kept
kept-NoToken timeout self p w n = n

-- The counters of a pool are older than the next ones.
abbrev pub IsBefore : ConnectionPool → World → Type 0
IsBefore self w = (self.active < w.next_arc) × (self.keepalive < w.next_arc)

module _ (self : ConnectionPool) where
  -- A peer that was handed out has a handle with the limits of the pool, and two equal counters.
  abbrev pub Handed : World × Outcome → Type 0
  Handed (w, got p) =
      (copy : ConnectionPool) × (p.pool ≡ some copy)
      × (w.strong copy.keepalive ≡ w.strong copy.active)
      × (copy.max_keepalive ≡ self.max_keepalive)
      × (copy.keepalive_requests ≡ self.keepalive_requests)
  Handed (w, refused e) = Unit
  Handed (w, panicked) = Unit

  hand_out-Handed :
      (p : Peer) (w : World)
      → IsBefore self w
      → Handed ((hand_out self p w).1, got (hand_out self p w).0)
  unfolding hand_out clone
  hand_out-Handed p w (a, k) = ((clone self w).0, refl, ground (arith, a, k), refl, refl)

  connect_new-Handed :
      (w : World) (dialled : Result CoreError TcpSocket)
      → IsBefore self w
      → Handed (connect_new self w dialled)
  unfolding connect_new new_peer
  connect_new-Handed w (err e) b = tt
  connect_new-Handed w (ok stream) b =
      hand_out-Handed (new_peer stream (some self.name) w).0 (new_peer stream (some self.name) w).1
        b

  reuse-Handed :
      (timeout : Option ℕ) (p copy : Peer) (w : World)
      → IsBefore self w
      → Handed (reuse timeout self p w (some copy))
  unfolding reuse taken
  reuse-Handed timeout p copy w b =
      hand_out-Handed (taken timeout self p copy w).0 (taken timeout self p copy w).1 b

  connect_loop-Handed :
      (dial : Option ℕ → Result CoreError TcpSocket) (timeout : Option ℕ) (ps : List Peer)
      (w : World)
      → IsBefore self w
      → Handed (connect_loop dial timeout self ps w)
  unfolding connect_loop discard
  connect_loop-Handed dial timeout [] w b =
      connect_new-Handed (record w { peers = [] }) (dial (or_else timeout self.timeout)) b
  connect_loop-Handed dial timeout (p ∷ ps) w b = elim (Option-cases (weak p)) [
    | inl e ↦ rw (e, connect_loop) tt
    | inr (copy, e) ↦ elim (Bool-cases (TcpSocket.valid p.stream)) [
      | inl good ↦
          rw (e, good, connect_loop)
            (rw e (reuse-Handed timeout p copy (record w { peers = ps }) b))
      | inr bad ↦ rw (e, bad, connect_loop) (connect_loop-Handed dial timeout ps (discard p w) b)
    ]
  ]

  pub connect-Handed :
      (dial : Option ℕ → Result CoreError TcpSocket) (timeout : Option ℕ) (w : World)
      → IsBefore self w
      → Handed (connect dial timeout self w)
  unfolding connect
  connect-Handed dial timeout w b = elim (Bool-cases (active self w == self.max_active)) [
    | inl full ↦ rw (full, connect) tt
    | inr room ↦ rw (room, connect) (connect_loop-Handed dial timeout w.peers w b)
  ]

  -- A peer that is given back to its handle.
  handed-peers :
      (timeout : Option ℕ) (p : Peer) (copy : ConnectionPool) (w : World)
      → NoToken p.token w.peers
      → p.pool ≡ some copy
      → w.strong copy.keepalive ≡ w.strong copy.active
      → copy.max_keepalive ≢ 0
      → TcpSocket.valid p.stream ≡ true
      → p.requests + 1 ≢ copy.keepalive_requests
      → length (give_back timeout p w).peers ≡ suc (length w.peers)
  unfolding give_back set_keepalive keep
  handed-peers timeout p copy w free e counts limit good more =
      let q = record p { pool = none; userdata = false } in
      let k = kept timeout copy w.now q in
      let room : (idle copy w == copy.max_keepalive) ≡ false = ground arith in
      let served : (p.requests + 1 == copy.keepalive_requests) ≡ false = ground arith in
      rw (e, good, room, served, give_back, set_keepalive)
        (announce-peers copy (store k q.active w) (weak k)
          ∙ store-length k q.active w (kept-NoToken timeout copy q w free))

  -- A peer that `connect` gave, in a pool whose counters and tokens are in order, is kept when it is given
  -- back, if it is valid and this was not the last of its `keepalive_requests` requests, however many
  -- idle peers there are: the limit `max_keepalive`, unless it is 0, stops nothing, as the handle in
  -- the peer is a clone with counters of its own.
  pub give_back_unlimited :
      (dial : Option ℕ → Result CoreError TcpSocket) (timeout later : Option ℕ) (p : Peer)
      (out : List Peer) (w w' : World)
      → IsPool self w out
      → connect dial timeout self w ≡ (w', got p)
      → self.max_keepalive ≢ 0
      → TcpSocket.valid p.stream ≡ true
      → p.requests + 1 ≢ self.keepalive_requests
      → length (give_back later p w').peers ≡ suc (length w'.peers)
  give_back_unlimited dial timeout later p out w w' v e limit good more =
      let (copy, owner, counts, same_limit, same_requests) =
        subst Handed e (connect-Handed dial timeout w (omega (arith, v.apart, v.fresh), v.fresh)) in
      let u = subst (Connects self out) e (connect-Connects self dial timeout out w v) in
      handed-peers later p copy w' u.crossed.0 owner counts (λ z. limit (omega arith)) good
        λ z. more (omega arith)
