-- ===== src/ConnectionPool/Return.antt =====
-- connection_pool.rs: a peer that is given back, and one of those that are out.
use ws_platform.Common.{
  ℕ, suc, ◌+◌, ◌<◌, ◌≡◌, ◌≢◌, refl, sym, Option, none, some, true, false, List, [], ◌∷◌, length,
  All, arith, inl, inr, Bool-cases, Option-cases, ◌==◌,
}
use ws_platform.TcpSocket.{TcpSocket}
use ws_platform.TcpSocket
use ws_platform.ConnectionPool.{
  ConnectionPool, Peer, World, discard, clone, weak, set_keepalive, keep, give_back, kept, store,
  announce, insert_peer, idle,
}
use ws_platform.ConnectionPool.Order.{
  NoToken, insert_peer-All, insert_peer-IsSorted, length-insert_peer,
}
use ws_platform.ConnectionPool.Invariant.{IsIdle, IsOut, IsDistinct, IsPool}

-- One of the peers that are out, and the others.
pub data Picks (p : Peer) : List Peer → List Peer → Type 0 where
  here : (ps : List Peer) → Picks p (p ∷ ps) ps
  there : (q : Peer) {ps qs : List Peer} → Picks p ps qs → Picks p (q ∷ ps) (q ∷ qs)

Picks-All {κ} :
    (P : Peer → Type κ) {p : Peer} {ps qs : List Peer} → Picks p ps qs → All P ps → P p × All P qs
Picks-All P (here ps) h = h
Picks-All P (there q k) (x, h) = let (y, r) = Picks-All P k h in (y, (x, r))

pub Picks-length : {p : Peer} {ps qs : List Peer} → Picks p ps qs → length ps ≡ suc (length qs)
Picks-length (here ps) = refl
Picks-length (there q k) = omega (arith, Picks-length k)

Picks-IsDistinct :
    {p : Peer} {ps qs : List Peer}
    → Picks p ps qs
    → IsDistinct ps
    → NoToken p.token qs × IsDistinct qs
Picks-IsDistinct (here ps) h = h
Picks-IsDistinct (there q k) (n, h) =
    let (m, d) = Picks-IsDistinct k h in
    let (x, r) = Picks-All (λ r. r.token ≢ q.token) k n in (((λ e. x (sym e)), m), (r, d))

valid_stream : (p : Peer) → TcpSocket.valid p.stream ≡ true → p.stream.stream ≢ none
unfolding TcpSocket.valid
valid_stream p h e = ground arith

module _ (self : ConnectionPool) where
  -- The peer that is given back can be thought of as the first.
  pub Picks-IsPool :
      (p : Peer) (out rest : List Peer) (w : World)
      → Picks p out rest
      → IsPool self w out
      → IsPool self w (p ∷ rest)
  Picks-IsPool p out rest w k v = record {
    apart = v.apart;
    fresh = v.fresh;
    sorted = v.sorted;
    idles = v.idles;
    outs = Picks-All (IsOut self) k v.outs;
    actives = omega (arith, v.actives, Picks-length k);
    counted = omega (arith, v.counted, Picks-length k);
    tokens = v.tokens;
    out_tokens = Picks-All (λ q. q.token < w.next_token) k v.out_tokens;
    crossed = Picks-All (λ q. NoToken q.token w.peers) k v.crossed;
    distinct = Picks-IsDistinct k v.distinct;
  }

  -- The peer goes.
  dropped-IsPool :
      (p : Peer) (out : List Peer) (w : World)
      → IsPool self w (p ∷ out)
      → IsPool self (discard p w) out
  unfolding discard
  dropped-IsPool p out w v = record {
    apart = v.apart;
    fresh = v.fresh;
    sorted = v.sorted;
    idles = v.idles;
    outs = v.outs.1;
    actives = ground (arith, v.apart, v.actives, v.outs.0);
    counted = ground (arith, v.apart, v.counted, v.outs.0);
    tokens = v.tokens;
    out_tokens = v.out_tokens.1;
    crossed = v.crossed.1;
    distinct = v.distinct.1;
  }

  without_pool :
      (p : Peer) (out : List Peer) (w : World)
      → IsPool self w (p ∷ out)
      → IsPool self w (record p { pool = none; userdata = false } ∷ out)
  without_pool p out w v = record {
    apart = v.apart;
    fresh = v.fresh;
    sorted = v.sorted;
    idles = v.idles;
    outs = v.outs;
    actives = v.actives;
    counted = v.counted;
    tokens = v.tokens;
    out_tokens = v.out_tokens;
    crossed = v.crossed;
    distinct = v.distinct;
  }

  crossed_insert :
      (p : Peer) (ps out : List Peer)
      → NoToken p.token out
      → All (λ q. NoToken q.token ps) out
      → All (λ q. NoToken q.token (insert_peer p ps)) out
  crossed_insert p ps [] n h = tt
  crossed_insert p ps (q ∷ out) (x, n) (y, h) = (
    insert_peer-All (λ r. r.token ≢ q.token) p ps (λ e. x (sym e)) y,
    crossed_insert p ps out n h,
  )

  store-IsPool :
      (timeout : Option ℕ) (copy : ConnectionPool) (p : Peer) (out : List Peer) (w : World)
      → p.stream.stream ≢ none
      → IsPool self w (p ∷ out)
      → IsPool self (store (kept timeout copy w.now p) p.active w) out
  unfolding store kept
  store-IsPool timeout copy p out w s v =
      let p' = kept timeout copy w.now p in
      record {
        apart = v.apart;
        fresh = v.fresh;
        sorted = insert_peer-IsSorted p' w.peers v.sorted;
        idles = insert_peer-All (IsIdle self) p' w.peers (refl, v.outs.0.1, s) v.idles;
        outs = v.outs.1;
        actives = ground (arith, v.apart, v.actives, v.outs.0);
        counted =
            ground (arith, v.apart, v.counted, v.outs.0, length-insert_peer p' w.peers v.crossed.0);
        tokens = insert_peer-All (λ q. q.token < w.next_token) p' w.peers v.out_tokens.0 v.tokens;
        out_tokens = v.out_tokens.1;
        crossed = crossed_insert p' w.peers out v.distinct.0 v.crossed.1;
        distinct = v.distinct.1;
      }

  announce-IsPool :
      (copy : ConnectionPool) (out : List Peer) (w : World) (p : Option Peer)
      → IsPool self w out
      → IsPool self (announce copy w p) out
  unfolding announce clone
  announce-IsPool copy out w none v = v
  announce-IsPool copy out w (some p) v = record {
    apart = v.apart;
    fresh = omega (arith, v.fresh);
    sorted = v.sorted;
    idles = v.idles;
    outs = v.outs;
    actives = ground (arith, v.apart, v.fresh, v.actives);
    counted = ground (arith, v.apart, v.fresh, v.counted);
    tokens = v.tokens;
    out_tokens = v.out_tokens;
    crossed = v.crossed;
    distinct = v.distinct;
  }

  set_keepalive-IsPool :
      (timeout : Option ℕ) (copy : ConnectionPool) (p : Peer) (out : List Peer) (w : World)
      → IsPool self w (p ∷ out)
      → IsPool self (set_keepalive timeout copy p w) out
  unfolding set_keepalive keep
  set_keepalive-IsPool timeout copy p out w v = elim (Bool-cases (TcpSocket.valid p.stream)) [
    | inl good ↦ elim (Bool-cases (idle copy w == copy.max_keepalive)) [
      | inl full ↦ rw (good, full, set_keepalive) (dropped-IsPool p out w v)
      | inr room ↦ elim (Bool-cases (p.requests + 1 == copy.keepalive_requests)) [
        | inl last ↦ rw (good, room, last, set_keepalive) (dropped-IsPool p out w v)
        | inr more ↦
            rw (good, room, more, set_keepalive)
              (announce-IsPool copy out (store (kept timeout copy w.now p) p.active w)
                (weak (kept timeout copy w.now p))
                (store-IsPool timeout copy p out w (valid_stream p good) v))
      ]
    ]
    | inr bad ↦ rw (bad, set_keepalive) (dropped-IsPool p out w v)
  ]

  pub give_back-IsPool :
      (timeout : Option ℕ) (p : Peer) (out : List Peer) (w : World)
      → IsPool self w (p ∷ out)
      → IsPool self (give_back timeout p w) out
  unfolding give_back
  give_back-IsPool timeout p out w v = elim (Option-cases p.pool) [
    | inl e ↦ rw (e, give_back) (dropped-IsPool p out w v)
    | inr (copy, e) ↦
        rw (e, give_back)
          (set_keepalive-IsPool timeout copy (record p { pool = none; userdata = false }) out w
            (without_pool p out w v))
  ]
