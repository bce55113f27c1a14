-- ===== src/ConnectionPool/Changes.antt =====
-- connection_pool.rs: what happens to the connections of a pool without the pool: a socket fails, and the owner
-- of a peer uses it.
use ws_platform.Common.{
  ℕ, ◌<◌, ◌≡◌, ◌≢◌, refl, sym, ◌∙◌, subst, Option, none, some, List, [], ◌∷◌, map, length-map, All,
  arith, ◌==◌, ◌||◌,
}
use ws_platform.TcpSocket
use ws_platform.ConnectionPool.{ConnectionPool, Peer, World, Message}
use ws_platform.ConnectionPool.Order.{IsSorted, Above, NoToken}
use ws_platform.ConnectionPool.Invariant.{IsPool, IsIdle, IsOut, IsDistinct}

-- The socket of a descriptor fails: from now on `take_error` reports it, to whoever has the socket.
abbrev pub mark : ℕ → Option TcpSocket.Stream → Option TcpSocket.Stream
mark fd none = none
mark fd (some s) = some (record s { failing = s.failing || s.fd == fd })

abbrev pub fail : ℕ → Peer → Peer
fail fd p = record p { stream = record p.stream { stream = mark fd p.stream.stream } }

mark_some : (fd : ℕ) (s : Option TcpSocket.Stream) → s ≢ none → mark fd s ≢ none
mark_some fd none h = absurd (h refl)
mark_some fd (some s) h = λ e. cc

fail-Above :
    (fd : ℕ) (p : Peer) (ps : List Peer) → Above p ps → Above (fail fd p) (map (fail fd) ps)
fail-Above fd p [] h = tt
fail-Above fd p (q ∷ ps) (x, h) = (x, fail-Above fd p ps h)

fail-IsSorted : (fd : ℕ) (ps : List Peer) → IsSorted ps → IsSorted (map (fail fd) ps)
fail-IsSorted fd [] h = tt
fail-IsSorted fd (p ∷ ps) (a, h) = (fail-Above fd p ps a, fail-IsSorted fd ps h)

fail-NoToken : (fd t : ℕ) (ps : List Peer) → NoToken t ps → NoToken t (map (fail fd) ps)
fail-NoToken fd t [] h = tt
fail-NoToken fd t (p ∷ ps) (x, h) = (x, fail-NoToken fd t ps h)

fail-Below :
    (fd n : ℕ) (ps : List Peer)
    → All (λ p. p.token < n) ps
    → All (λ p. p.token < n) (map (fail fd) ps)
fail-Below fd n [] h = tt
fail-Below fd n (p ∷ ps) (x, h) = (x, fail-Below fd n ps h)

fail-crossed :
    (fd : ℕ) (ps out : List Peer)
    → All (λ p. NoToken p.token ps) out
    → All (λ p. NoToken p.token (map (fail fd) ps)) (map (fail fd) out)
fail-crossed fd ps [] h = tt
fail-crossed fd ps (p ∷ out) (x, h) = (fail-NoToken fd p.token ps x, fail-crossed fd ps out h)

fail-IsDistinct : (fd : ℕ) (ps : List Peer) → IsDistinct ps → IsDistinct (map (fail fd) ps)
fail-IsDistinct fd [] h = tt
fail-IsDistinct fd (p ∷ ps) (n, h) = (fail-NoToken fd p.token ps n, fail-IsDistinct fd ps h)

module _ (self : ConnectionPool) where
  fail-idles :
      (fd : ℕ) (ps : List Peer) → All (IsIdle self) ps → All (IsIdle self) (map (fail fd) ps)
  fail-idles fd [] h = tt
  fail-idles fd (p ∷ ps) ((a, k, s), h) =
      ((a, k, mark_some fd p.stream.stream s), fail-idles fd ps h)

  fail-outs : (fd : ℕ) (ps : List Peer) → All (IsOut self) ps → All (IsOut self) (map (fail fd) ps)
  fail-outs fd [] h = tt
  fail-outs fd (p ∷ ps) (x, h) = (x, fail-outs fd ps h)

  pub fail-IsPool :
      (fd : ℕ) (out : List Peer) (w : World)
      → IsPool self w out
      → IsPool self (record w { peers = map (fail fd) w.peers }) (map (fail fd) out)
  fail-IsPool fd out w v = record {
    apart = v.apart;
    fresh = v.fresh;
    sorted = fail-IsSorted fd w.peers v.sorted;
    idles = fail-idles fd w.peers v.idles;
    outs = fail-outs fd out v.outs;
    actives = omega (arith, v.actives, length-map out (fail fd));
    counted = omega (arith, v.counted, length-map out (fail fd), length-map w.peers (fail fd));
    tokens = fail-Below fd w.next_token w.peers v.tokens;
    out_tokens = fail-Below fd w.next_token out v.out_tokens;
    crossed = fail-crossed fd w.peers out v.crossed;
    distinct = fail-IsDistinct fd out v.distinct;
  }

  -- The clock, the messages and the descriptors that were closed do not matter.
  pub quiet-IsPool :
      (now : ℕ) (sent : List Message) (closed : List ℕ) (out : List Peer) (w : World)
      → IsPool self w out
      → IsPool self (record w { now = now; sent = sent; closed = closed }) out
  quiet-IsPool now sent closed out w v = record {
    apart = v.apart;
    fresh = v.fresh;
    sorted = v.sorted;
    idles = v.idles;
    outs = v.outs;
    actives = v.actives;
    counted = v.counted;
    tokens = v.tokens;
    out_tokens = v.out_tokens;
    crossed = v.crossed;
    distinct = v.distinct;
  }

  -- The owner of a peer has no access to its counters and its token.
  pub used-IsPool :
      (p q : Peer) (rest : List Peer) (w : World)
      → q.active ≡ p.active
      → q.keepalive ≡ p.keepalive
      → q.token ≡ p.token
      → IsPool self w (p ∷ rest)
      → IsPool self w (q ∷ rest)
  used-IsPool p q rest w a k t v = record {
    apart = v.apart;
    fresh = v.fresh;
    sorted = v.sorted;
    idles = v.idles;
    outs = ((a ∙ v.outs.0.0, k ∙ v.outs.0.1), v.outs.1);
    actives = v.actives;
    counted = v.counted;
    tokens = v.tokens;
    out_tokens = (subst (λ n. n < w.next_token) (sym t) v.out_tokens.0, v.out_tokens.1);
    crossed = (subst (λ n. NoToken n w.peers) (sym t) v.crossed.0, v.crossed.1);
    distinct = (subst (λ n. NoToken n rest) (sym t) v.distinct.0, v.distinct.1);
  }
