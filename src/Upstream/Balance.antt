-- ===== src/Upstream/Balance.antt =====
-- The balancer of http/plugins/least_conn.rs: which server it takes.
use ws_platform.Common.{
  ℕ, suc, ◌-◌, ◌^◌, ◌≤◌, ◌<◌, Option, none, some, ◌≡◌, refl, List, [], ◌∷◌, get_elem?, ltb, arith,
  All, Bool-cases, inl, inr, ◌⊎◌,
}
use ws_platform.Upstream.{least_loop, least, Choice, chosen, nothing, panics}

module _ {A P : Type 0} (active : P → ℕ) where
  -- A server of the list that has fewer active peers than `best`, and no more than any other.
  abbrev pub IsLeast : ℕ → List (A × P) → A → Type 0
  IsLeast best servers a =
      (p : P) × (i : ℕ) × (get_elem? servers i ≡ some (a, p))
      × (active p < best)
      × All (λ s. active p ≤ active s.1) servers

  abbrev Outcome : ℕ → Option A → List (A × P) → Option A → Type 0
  Outcome best addr servers r =
      ((r ≡ addr) × All (λ s. best ≤ active s.1) servers)
      ⊎ ((a : A) × (r ≡ some a) × IsLeast best servers a)

  Outcome-better :
      (best : ℕ) (addr r : Option A) (a : A) (p : P) (servers : List (A × P))
      → active p < best
      → Outcome (active p) (some a) servers r
      → Outcome best addr ((a, p) ∷ servers) r
  Outcome-better best addr r a p servers h (inl (e, rest)) =
      inr (a, e, (p, 0, refl, h, (omega arith, rest)))
  Outcome-better best addr r a p servers h (inr (b, e, (q, i, at, less, rest))) =
      inr (b, e, (q, suc i, at, omega arith, (omega arith, rest)))

  Outcome-same :
      (best : ℕ) (addr r : Option A) (a : A) (p : P) (servers : List (A × P))
      → best ≤ active p
      → Outcome best addr servers r
      → Outcome best addr ((a, p) ∷ servers) r
  Outcome-same best addr r a p servers h (inl (e, rest)) = inl (e, (h, rest))
  Outcome-same best addr r a p servers h (inr (b, e, (q, i, at, less, rest))) =
      inr (b, e, (q, suc i, at, less, (omega arith, rest)))

  least_loop-Outcome :
      (best : ℕ) (addr : Option A) (servers : List (A × P))
      → Outcome best addr servers (least_loop active best addr servers)
  unfolding least_loop
  least_loop-Outcome best addr [] = inl (refl, tt)
  least_loop-Outcome best addr ((a, p) ∷ servers) = elim (Bool-cases (ltb (active p) best)) [
    | inl less ↦
        rw (less, least_loop)
          (Outcome-better best addr _ a p servers (ground arith)
            (least_loop-Outcome (active p) (some a) servers))
    | inr no_less ↦
        rw (no_less, least_loop)
          (Outcome-same best addr _ a p servers (ground arith)
            (least_loop-Outcome best addr servers))
  ]

  -- What the balancer says of the servers.
  abbrev pub Least : List (A × P) → Choice A → Type 0
  Least servers (chosen a) = IsLeast (2 ^ 64 - 1) servers a
  Least servers nothing = All (λ s. 2 ^ 64 - 1 ≤ active s.1) servers
  Least servers panics = ⊥

  -- `BalanceLeastConn` takes a server of the list with the fewest active peers, and takes none only where
  -- every server has the greatest count that there is, or there is no server; it does not panic.
  pub least-Least : (servers : List (A × P)) → Least servers (least active tt servers).1
  unfolding least
  least-Least servers = elim (least_loop-Outcome (2 ^ 64 - 1) none servers) [
    | inl (e, rest) ↦ rw e rest
    | inr (a, e, found) ↦ rw e found
  ]
