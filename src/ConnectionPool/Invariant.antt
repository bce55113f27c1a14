-- ===== src/ConnectionPool/Invariant.antt =====
-- connection_pool.rs: what a pool keeps true of its counters and of its set of idle peers, while peers
-- are handed out and given back.
use ws_platform.Common.{
  ℕ, suc, ◌+◌, ◌≤◌, ◌<◌, ◌≡◌, ◌≢◌, refl, none, some, List, [], ◌∷◌, length, All, arith,
}
use ws_platform.ConnectionPool.{ConnectionPool, Peer, World, discard, hand_out, clone}
use ws_platform.ConnectionPool.Order.{IsSorted, NoToken}

-- An idle peer counts as kept alive, a peer that is out counts as active too.
abbrev pub IsIdle : ConnectionPool → Peer → Type 0
IsIdle self p = (p.active ≡ none) × (p.keepalive ≡ some self.keepalive) × (p.stream.stream ≢ none)

abbrev pub IsOut : ConnectionPool → Peer → Type 0
IsOut self p = (p.active ≡ some self.active) × (p.keepalive ≡ some self.keepalive)

abbrev pub IsDistinct : List Peer → Type 0
IsDistinct [] = Unit
IsDistinct (p ∷ ps) = NoToken p.token ps × IsDistinct ps

abbrev pub Below : ℕ → List Peer → Type 0
Below n = All (λ p. p.token < n)

-- `out` are the peers that the pool has handed out and that are not given back.
pub record IsPool (self : ConnectionPool) (w : World) (out : List Peer) : Type 0 where
  pub apart : self.active < self.keepalive
  pub fresh : self.keepalive < w.next_arc
  pub sorted : IsSorted w.peers
  pub idles : All (IsIdle self) w.peers
  pub outs : All (IsOut self) out
  pub actives : w.strong self.active ≡ suc (length out)
  pub counted : w.strong self.keepalive ≡ suc (length out + length w.peers)
  pub tokens : Below w.next_token w.peers
  pub out_tokens : Below w.next_token out
  pub crossed : All (λ p. NoToken p.token w.peers) out
  pub distinct : IsDistinct out

pub Below-NoToken : (n t : ℕ) (ps : List Peer) → n ≤ t → Below n ps → NoToken t ps
Below-NoToken n t [] h b = tt
Below-NoToken n t (p ∷ ps) h (l, b) = (λ e. omega arith, Below-NoToken n t ps h b)

pub Below-mono : (n m : ℕ) (ps : List Peer) → n ≤ m → Below n ps → Below m ps
Below-mono n m [] h b = tt
Below-mono n m (p ∷ ps) h (l, b) = (omega arith, Below-mono n m ps h b)

crossed_tail :
    (q : Peer) (qs out : List Peer)
    → All (λ p. NoToken p.token (q ∷ qs)) out
    → All (λ p. NoToken p.token qs) out
crossed_tail q qs [] h = tt
crossed_tail q qs (p ∷ out) (x, h) = (x.1, crossed_tail q qs out h)

module _ (self : ConnectionPool) where
  -- A peer with a token of its own is handed out.
  pub hand_out-IsPool :
      (p : Peer) (w : World) (out : List Peer)
      → IsPool self w out
      → p.token < w.next_token
      → NoToken p.token w.peers
      → NoToken p.token out
      → IsPool self (hand_out self p w).1 ((hand_out self p w).0 ∷ out)
  unfolding hand_out clone
  hand_out-IsPool p w out v less free apart = record {
    apart = v.apart;
    fresh = omega (arith, v.fresh);
    sorted = v.sorted;
    idles = v.idles;
    outs = ((refl, refl), v.outs);
    actives = ground (arith, v.apart, v.fresh, v.actives);
    counted = ground (arith, v.apart, v.fresh, v.counted);
    tokens = v.tokens;
    out_tokens = (less, v.out_tokens);
    crossed = (free, v.crossed);
    distinct = (apart, v.distinct);
  }

  -- An idle peer goes.
  pub discard-IsPool :
      (p : Peer) (ps out : List Peer) (w : World)
      → IsPool self (record w { peers = p ∷ ps }) out
      → IsPool self (record (discard p w) { peers = ps }) out
  unfolding discard
  discard-IsPool p ps out w v = record {
    apart = v.apart;
    fresh = v.fresh;
    sorted = v.sorted.1;
    idles = v.idles.1;
    outs = v.outs;
    actives = ground (arith, v.apart, v.actives, v.idles.0);
    counted = ground (arith, v.apart, v.counted, v.idles.0);
    tokens = v.tokens.1;
    out_tokens = v.out_tokens;
    crossed = crossed_tail p ps out v.crossed;
    distinct = v.distinct;
  }

  -- A token is drawn.
  pub draw-IsPool :
      (w : World) (out : List Peer)
      → IsPool self w out
      → IsPool self (record w { next_token = w.next_token + 1 }) out
  draw-IsPool w out v = record {
    apart = v.apart;
    fresh = v.fresh;
    sorted = v.sorted;
    idles = v.idles;
    outs = v.outs;
    actives = v.actives;
    counted = v.counted;
    tokens = Below-mono _ _ w.peers (omega arith) v.tokens;
    out_tokens = Below-mono _ _ out (omega arith) v.out_tokens;
    crossed = v.crossed;
    distinct = v.distinct;
  }
