-- ===== src/Upstream/Connect.antt =====
-- upstream.rs: which servers `connect` tries.
use native.Mathlib.Nat
use ws_platform.Common.{
  ℕ, zero, suc, ◌+◌, ◌-◌, ◌^◌, ◌%◌, ◌<◌, Option, some, false, ◌≡◌, refl, sym, ◌∙◌, ap, List, [],
  ◌∷◌, length, get_elem?, ◌==◌, arith, Bool-cases, inl, inr, ◌⊎◌, Eq, lookup, IsMap, IsFresh,
  get_elem?-lt, subst,
}
use ws_platform.Error.{Result, ok, err, CoreError}
use ws_platform.Upstream.{
  Pools, Balancer, chosen, nth, next_server, round_robin, Connected, connected, refused, panicked,
  connect_loop, connect, Upstream, active_count, live_after, least_conn, least,
}

module _ {A P : Type 0} ⦃e : Eq A⦄ where
  IsFresh-get :
      (k j : A) (w : P) (m : List (A × P)) (i : ℕ)
      → IsFresh k m
      → get_elem? m i ≡ some (j, w)
      → e.same j k ≡ false
  IsFresh-get k j w [] i f at = cc
  IsFresh-get k j w ((h, v) ∷ m) zero (p, f) at = ground (arith, p, at)
  IsFresh-get k j w ((h, v) ∷ m) (suc i) (p, f) at = IsFresh-get k j w m i f at

  -- A server that stands in a map of servers is found by its address.
  lookup-get :
      (k : A) (w : P) (m : List (A × P)) (i : ℕ)
      → IsMap m
      → get_elem? m i ≡ some (k, w)
      → lookup k m ≡ some w
  unfolding lookup
  lookup-get k w [] i u at = cc
  lookup-get k w ((h, v) ∷ m) zero (f, u) at = ground (arith, at, e.same_refl k)
  lookup-get k w ((h, v) ∷ m) (suc i) (f, u) at =
      ground (arith, lookup-get k w m i u at, IsFresh-get h k w m i f at, e.same_sym h k)

module _ {A : Type 0} ⦃e : Eq A⦄ (pools : Pools A) where
  open pools use {Pool, Peer}

  -- A peer was handed out.
  abbrev pub IsConnected : Connected Peer → Type 0
  IsConnected (connected peer) = Unit
  IsConnected refused = ⊥
  IsConnected panicked = ⊥

  -- `RoundRobin` takes the server at the index, and goes on to the next index.
  next_server-chosen :
      (i : ℕ) (servers : List (A × Pool))
      → 0 < length servers
      → i + 1 < 2 ^ 64
      → (a : A) × (p : Pool) × (get_elem? servers (i % length servers) ≡ some (a, p))
        × ((next_server i servers).0 ≡ i + 1)
        × ((next_server i servers).1 ≡ chosen a)
  unfolding next_server
  next_server-chosen i servers some_server bound =
      let ((a, p), at) = get_elem?-lt (i % length servers) servers (Nat.mod-lt i some_server) in
      let present : (length servers == 0) ≡ false = ground arith in
      (a, p, at, Nat.mod-eq_of_lt bound, rw (present, nth, at))

  Attempt-cases :
      (r : Result CoreError Peer)
      → ((peer : Peer) × (r ≡ ok peer)) ⊎ ((x : CoreError) × (r ≡ err x))
  Attempt-cases (ok peer) = inl (peer, refl)
  Attempt-cases (err x) = inr (x, refl)

  -- The attempts go round: the one that is `j` places on is made, unless an earlier one succeeds.
  connect_loop-reaches :
      (rounds j i : ℕ) (servers : List (A × Pool)) (a : A) (p : Pool) (peer : Peer)
      → IsMap servers
      → 0 < length servers
      → i + rounds < 2 ^ 64
      → j < rounds
      → get_elem? servers ((i + j) % length servers) ≡ some (a, p)
      → pools.connect a p ≡ ok peer
      → IsConnected (connect_loop pools round_robin rounds servers i).1
  unfolding connect_loop
  connect_loop-reaches zero j i servers a p peer u n b less at up = absurd (omega arith)
  connect_loop-reaches (suc rounds) zero i servers a p peer u n b less at up =
      let (c, q, here, step, pick) = next_server-chosen i servers n (omega arith) in
      let found = lookup-get c q servers (i % length servers) u here in
      let start : i + zero ≡ i = omega arith in
      let same : ◌≡◌ {A = Option (A × Pool)} (some (c, q)) (some (a, p)) =
        sym here ∙ subst (λ k. get_elem? servers (k % length servers) ≡ some (a, p)) start at in
      let connects : pools.connect c q ≡ ok peer = cc in rw (pick, found, connects, connect_loop) tt
  connect_loop-reaches (suc rounds) (suc j) i servers a p peer u n b less at up =
      let (c, q, here, step, pick) = next_server-chosen i servers n (omega arith) in
      let found = lookup-get c q servers (i % length servers) u here in
      elim (Attempt-cases (pools.connect c q)) [
        | inl (peer', connects) ↦ rw (pick, found, connects, connect_loop) tt
        | inr (x, fails) ↦
            let shift : i + suc j ≡ i + 1 + j = omega arith in
            rw (pick, found, fails, connect_loop, step)
              (connect_loop-reaches rounds j (i + 1) servers a p peer u n (omega arith)
                (omega arith)
                (subst (λ k. get_elem? servers (k % length servers) ≡ some (a, p)) shift at) up)
      ]

  get_elem?-some :
      (m : ℕ) (servers : List (A × Pool)) (s : A × Pool)
      → get_elem? servers m ≡ some s
      → m < length servers
  get_elem?-some m [] s at = cc
  get_elem?-some zero (x ∷ servers) s at = omega arith
  get_elem?-some (suc m) (x ∷ servers) s at = omega (arith, get_elem?-some m servers s at)

  -- The number of places from the index on to a given place.
  abbrev distance : ℕ → ℕ → ℕ → ℕ
  distance i m n = (m + (n - i % n)) % n

  distance-reaches : (i m n : ℕ) → m < n → (i + distance i m n) % n ≡ m
  distance-reaches i m n h =
      let turned : i % n + (m + (n - i % n)) ≡ m + n =
        omega (arith, Nat.mod-lt i {m = n} (omega arith)) in
      Nat.add-mod-mod i (m + (n - i % n)) n
      ∙ sym (Nat.mod-add-mod i n (m + (n - i % n)))
      ∙ ap (λ k. k % n) turned
      ∙ Nat.add-mod_right m n
      ∙ Nat.mod-eq_of_lt h

  -- With `RoundRobin`, whose index is not about to wrap, on an upstream that is at least two below its
  -- limit of active peers and lists each primary server once: if any primary server accepts, then
  -- `connect` hands out a peer.
  pub connect-reaches :
      (u : Upstream A Pool ℕ) (m : ℕ) (a : A) (p : Pool) (peer : Peer)
      → IsMap u.primary
      → u.live + 1 < u.max_active
      → u.balancer + length u.primary < 2 ^ 64
      → get_elem? u.primary m ≡ some (a, p)
      → pools.connect a p ≡ ok peer
      → IsConnected (connect pools round_robin u).1
  unfolding connect
  connect-reaches u m a p peer unique below bound at accepts =
      let n = length u.primary in
      let inside = get_elem?-some m u.primary (a, p) at in
      let free : (active_count pools (u.live + 2) u == u.max_active) ≡ false = ground arith in
      rw (free, connect)
        (connect_loop-reaches n (distance u.balancer m n) u.balancer u.primary a p peer unique
          (omega arith) bound (Nat.mod-lt (m + (n - u.balancer % n)) (omega arith))
          (subst (λ k. get_elem? u.primary k ≡ some (a, p))
            (sym (distance-reaches u.balancer m n inside)) at)
          accepts)

  least_loop-fails :
      (active : Pool → ℕ) (rounds : ℕ) (servers : List (A × Pool)) (a : A) (p : Pool)
      (x : CoreError)
      → (least active tt servers).1 ≡ chosen a
      → lookup a servers ≡ some p
      → pools.connect a p ≡ err x
      → (connect_loop pools (least_conn active) rounds servers tt).1 ≡ refused
  unfolding connect_loop least
  least_loop-fails active zero servers a p x pick found fails = refl
  least_loop-fails active (suc rounds) servers a p x pick found fails =
      rw (pick, found, fails, connect_loop)
        (least_loop-fails active rounds servers a p x pick found fails)

  -- With `BalanceLeastConn`, a primary server that has the fewest active peers and refuses makes `connect`
  -- fail, whatever the other servers would do: each attempt is made at the same server.
  pub connect_least-refused :
      (active : Pool → ℕ) (u : Upstream A Pool (Unit {0})) (a : A) (p : Pool) (x : CoreError)
      → (least active tt u.primary).1 ≡ chosen a
      → lookup a u.primary ≡ some p
      → pools.connect a p ≡ err x
      → (connect pools (least_conn active) u).1 ≡ refused
  unfolding connect
  connect_least-refused active u a p x pick found fails =
      elim (Bool-cases (active_count pools (u.live + 2) u == u.max_active)) [
        | inl full ↦ rw (full, connect)
        | inr free ↦
            rw (free, connect)
              (least_loop-fails active (length u.primary) u.primary a p x pick found fails)
      ]

  live_after-below :
      (res : Connected Peer) (live limit : ℕ) → live + 1 < limit → live_after res live < limit
  live_after-below (connected peer) live limit h = omega arith
  live_after-below refused live limit h = omega arith
  live_after-below panicked live limit h = omega arith

  -- Below its limit of active peers an upstream stays below it, with any balancer: the peers that `connect`
  -- hands out never reach the limit, so that a limit of one allows none.
  pub connect-below :
      (b : Balancer A Pool) (u : Upstream A Pool b.State)
      → u.live < u.max_active
      → (connect pools b u).0.live < u.max_active
  unfolding connect
  connect-below b u h = elim (Bool-cases (active_count pools (u.live + 2) u == u.max_active)) [
    | inl full ↦ rw (full, connect) h
    | inr free ↦
        rw (free, connect)
          (live_after-below (connect_loop pools b (length u.primary) u.primary u.balancer).1 u.live
            u.max_active (ground arith))
  ]
