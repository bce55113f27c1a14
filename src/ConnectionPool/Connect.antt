-- ===== src/ConnectionPool/Connect.antt =====
-- connection_pool.rs: `connect` keeps the invariant of the pool, and picks the first valid peer.
use ws_platform.Common.{
  ℕ, ◌≡◌, ◌≢◌, refl, Option, none, some, true, false, List, [], ◌∷◌, All, arith, ◌⊎◌, inl, inr,
  Bool-cases, Option-cases, or_else, ◌==◌, ◌++◌, ap,
}
use ws_platform.Error.{Result, ok, err, CoreError}
use ws_platform.TcpSocket.{TcpSocket}
use ws_platform.TcpSocket
use ws_platform.ConnectionPool.{
  ConnectionPool, Peer, World, Outcome, got, refused, panicked, discard, hand_out, clone, active,
  connect_new, connect_loop, connect, reuse, taken, weak, new_peer,
}
use ws_platform.ConnectionPool.Invariant.{
  IsPool, Below-NoToken, hand_out-IsPool, discard-IsPool, draw-IsPool,
}

module _ (self : ConnectionPool) where
  -- Every call of `connect` returns, and the peer that it got is out.
  abbrev pub Connects : List Peer → World × Outcome → Type 0
  Connects out (w, got p) = IsPool self w (p ∷ out)
  Connects out (w, refused e) = IsPool self w out
  Connects out (w, panicked) = ⊥

  connect_new-Connects :
      (dialled : Result CoreError TcpSocket) (w : World) (out : List Peer)
      → IsPool self w out
      → Connects out (connect_new self w dialled)
  unfolding connect_new new_peer
  connect_new-Connects (err e) w out v = v
  connect_new-Connects (ok stream) w out v =
      hand_out-IsPool self (new_peer stream (some self.name) w).0
        (new_peer stream (some self.name) w).1 out (draw-IsPool self w out v) (omega arith)
        (Below-NoToken w.next_token w.next_token w.peers (omega arith) v.tokens)
        (Below-NoToken w.next_token w.next_token out (omega arith) v.out_tokens)

  taken-IsPool :
      (timeout : Option ℕ) (p copy : Peer) (ps out : List Peer) (w : World)
      → IsPool self (record w { peers = p ∷ ps }) out
      → IsPool self (taken timeout self p copy (record w { peers = ps })).1 out
  unfolding taken discard
  taken-IsPool timeout p copy ps out w v =
      let u = draw-IsPool self _ out (discard-IsPool self p ps out w v) in
      record {
        apart = u.apart;
        fresh = u.fresh;
        sorted = u.sorted;
        idles = u.idles;
        outs = u.outs;
        actives = u.actives;
        counted = u.counted;
        tokens = u.tokens;
        out_tokens = u.out_tokens;
        crossed = u.crossed;
        distinct = u.distinct;
      }

  reuse-Connects :
      (timeout : Option ℕ) (p copy : Peer) (ps out : List Peer) (w : World)
      → IsPool self (record w { peers = p ∷ ps }) out
      → Connects out (reuse timeout self p (record w { peers = ps }) (some copy))
  unfolding reuse taken
  reuse-Connects timeout p copy ps out w v =
      hand_out-IsPool self (taken timeout self p copy (record w { peers = ps })).0
        (taken timeout self p copy (record w { peers = ps })).1 out
        (taken-IsPool timeout p copy ps out w v) (omega arith)
        (Below-NoToken w.next_token w.next_token ps (omega arith) v.tokens.1)
        (Below-NoToken w.next_token w.next_token out (omega arith) v.out_tokens)

  weak-some : (p : Peer) → p.stream.stream ≢ none → (copy : Peer) × (weak p ≡ some copy)
  unfolding weak TcpSocket.weak
  weak-some p h = elim (Option-cases p.stream.stream) [
    | inl e ↦ absurd (h e)
    | inr (s, e) ↦ rw (e, weak, TcpSocket.weak) (_, refl)
  ]

  connect_loop-Connects :
      (dial : Option ℕ → Result CoreError TcpSocket) (timeout : Option ℕ) (ps out : List Peer)
      (w : World)
      → IsPool self (record w { peers = ps }) out
      → Connects out (connect_loop dial timeout self ps w)
  unfolding connect_loop
  connect_loop-Connects dial timeout [] out w v = connect_new-Connects _ _ out v
  connect_loop-Connects dial timeout (p ∷ ps) out w v =
      let (copy, e) = weak-some p v.idles.0.2 in
      elim (Bool-cases (TcpSocket.valid p.stream)) [
        | inl good ↦ rw (e, good, connect_loop) (rw e (reuse-Connects timeout p copy ps out w v))
        | inr bad ↦
            rw (e, bad, connect_loop)
              (connect_loop-Connects dial timeout ps out (discard p w)
                (discard-IsPool self p ps out w v))
      ]

  pub connect-Connects :
      (dial : Option ℕ → Result CoreError TcpSocket) (timeout : Option ℕ) (out : List Peer)
      (w : World)
      → IsPool self w out
      → Connects out (connect dial timeout self w)
  unfolding connect
  connect-Connects dial timeout out w v = elim (Bool-cases (active self w == self.max_active)) [
    | inl full ↦ rw (full, connect) v
    | inr room ↦ rw (room, connect) (connect_loop-Connects dial timeout w.peers out w v)
  ]

  -- What `connect` gives, by the peers that were idle: the first that is valid, or a new connection.
  abbrev pub Reused : List Peer → World → Peer → Type 0
  Reused before after p =
      (dead : List Peer) × (q : Peer) × (rest : List Peer) × (before ≡ dead ++ q ∷ rest)
      × All (λ d. TcpSocket.valid d.stream ≡ false) dead
      × (TcpSocket.valid q.stream ≡ true)
      × (p.stream.stream ≡ q.stream.stream)
      × (after.peers ≡ rest)

  abbrev pub Dialled : Result CoreError TcpSocket → List Peer → World × Outcome → Type 0
  Dialled dialled before (w, panicked) = ⊥
  Dialled dialled before (w, refused e) =
      (dialled ≡ err e) × All (λ d. TcpSocket.valid d.stream ≡ false) before × (w.peers ≡ [])
  Dialled dialled before (w, got p) =
      ((dialled ≡ ok p.stream)
        × All (λ d. TcpSocket.valid d.stream ≡ false) before
        × (w.peers ≡ []))
      ⊎ Reused before w p

  Dialled-cons :
      (dialled : Result CoreError TcpSocket) (d : Peer) (before : List Peer) (r : World × Outcome)
      → TcpSocket.valid d.stream ≡ false
      → Dialled dialled before r
      → Dialled dialled (d ∷ before) r
  Dialled-cons dialled d before (w, panicked) bad h = h
  Dialled-cons dialled d before (w, refused e) bad (x, b, y) = (x, (bad, b), y)
  Dialled-cons dialled d before (w, got p) bad (inl (x, b, y)) = inl (x, (bad, b), y)
  Dialled-cons dialled d before (w, got p) bad (inr (dead, q, rest, e, b, good, same, left)) =
      inr (d ∷ dead, q, rest, ap (◌∷◌ d) e, (bad, b), good, same, left)

  connect_new-Dialled :
      (w : World) (dialled : Result CoreError TcpSocket)
      → Dialled dialled [] (connect_new self (record w { peers = [] }) dialled)
  unfolding connect_new new_peer hand_out clone
  connect_new-Dialled w (err e) = (refl, tt, refl)
  connect_new-Dialled w (ok s) = inl (refl, tt, refl)

  connect_loop-Dialled :
      (dial : Option ℕ → Result CoreError TcpSocket) (timeout : Option ℕ) (ps : List Peer)
      (w : World)
      → All (λ p. p.stream.stream ≢ none) ps
      → Dialled (dial (or_else timeout self.timeout)) ps (connect_loop dial timeout self ps w)
  unfolding connect_loop reuse taken hand_out clone TcpSocket.set_timeout
  connect_loop-Dialled dial timeout [] w h =
      connect_new-Dialled w (dial (or_else timeout self.timeout))
  connect_loop-Dialled dial timeout (p ∷ ps) w (s, h) =
      let (copy, e) = weak-some p s in
      elim (Bool-cases (TcpSocket.valid p.stream)) [
        | inl good ↦ rw (e, good, connect_loop) (rw e (inr ([], p, ps, refl, tt, good, refl, refl)))
        | inr bad ↦
            rw (e, bad, connect_loop)
              (Dialled-cons (dial (or_else timeout self.timeout)) p ps
                (connect_loop dial timeout self ps (discard p w)) bad
                (connect_loop-Dialled dial timeout ps (discard p w) h))
      ]

  -- Below the limit `connect` takes the first idle peer of the set that is valid, of those before it none
  -- stays; a new connection is made exactly when no idle peer is valid. The idle peers have streams.
  pub connect-Dialled :
      (dial : Option ℕ → Result CoreError TcpSocket) (timeout : Option ℕ) (w : World)
      → All (λ p. p.stream.stream ≢ none) w.peers
      → (active self w == self.max_active) ≡ false
      → Dialled (dial (or_else timeout self.timeout)) w.peers (connect dial timeout self w)
  unfolding connect
  connect-Dialled dial timeout w h room =
      rw (room, connect) (connect_loop-Dialled dial timeout w.peers w h)
