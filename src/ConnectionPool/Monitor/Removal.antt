-- ===== src/ConnectionPool/Monitor/Removal.antt =====
-- connection_pool.rs: the removal of a peer from a set, and from that of its pool.
use ws_platform.Common.{
  suc, ◌≡◌, ◌≢◌, refl, sym, ap, subst, none, some, true, false, List, [], ◌∷◌, length, All, arith,
  inl, inr, Bool-cases, Option-cases,
}
use ws_platform.ConnectionPool.{Peer, World, remove_peer, peer_eq, peer_lt}
use ws_platform.ConnectionPool.Monitor.{remove_keepalive, remove_stored, find_peer}
use ws_platform.ConnectionPool.Order.{IsSorted, Above}

-- No peer of the list has the key of this one.
abbrev pub Absent : Peer → List Peer → Type 0
Absent p = All (λ q. peer_eq p q ≡ false)

pub remove_peer-All {κ} :
    (P : Peer → Type κ) (p : Peer) (qs : List Peer) → All P qs → All P (remove_peer p qs)
unfolding remove_peer
remove_peer-All P p [] h = tt
remove_peer-All P p (q ∷ qs) (x, h) = ground (arith, remove_peer-All P p qs h, x)

pub remove_peer-IsSorted : (p : Peer) (qs : List Peer) → IsSorted qs → IsSorted (remove_peer p qs)
unfolding remove_peer
remove_peer-IsSorted p [] h = tt
remove_peer-IsSorted p (q ∷ qs) (a, h) =
    ground (arith, remove_peer-IsSorted p qs h, remove_peer-All (λ r. peer_lt q r ≡ true) p qs a)

peer_eq_apart : (p q r : Peer) → peer_eq p q ≡ true → peer_lt q r ≡ true → peer_eq p r ≡ false
peer_eq_apart p q r e l = ground arith

Above-Absent : (p q : Peer) (rs : List Peer) → peer_eq p q ≡ true → Above q rs → Absent p rs
Above-Absent p q [] e a = tt
Above-Absent p q (r ∷ rs) e (l, a) = (peer_eq_apart p q r e l, Above-Absent p q rs e a)

remove_peer-Absent : (p : Peer) (qs : List Peer) → IsSorted qs → Absent p (remove_peer p qs)
unfolding remove_peer
remove_peer-Absent p [] h = tt
remove_peer-Absent p (q ∷ qs) (a, h) =
    ground (arith, remove_peer-Absent p qs h, Above-Absent p q qs)

pub find_none : (p : Peer) (qs : List Peer) → find_peer p qs ≡ none → remove_peer p qs ≡ qs
unfolding find_peer remove_peer
find_none p [] e = refl
find_none p (q ∷ qs) e = elim (Bool-cases (peer_eq p q)) [
  | inl same ↦ absurd (ground arith)
  | inr other ↦ rw (other, remove_peer) (ap (◌∷◌ q) (find_none p qs (rw (other, find_peer) at e)))
]

-- The set of the pool after a peer is removed from it.
pub remove_stored-peers : (p : Peer) (w : World) → (remove_stored p w).peers ≡ remove_peer p w.peers
unfolding remove_stored
remove_stored-peers p w = elim (Option-cases (find_peer p w.peers)) [
  | inl e ↦ rw (e, remove_stored) (sym (find_none p w.peers e))
  | inr (q, e) ↦ rw (e, remove_stored) refl
]

pub remove_keepalive-All {κ} :
    (P : Peer → Type κ) (p : Peer) (w : World) → All P w.peers → All P (remove_keepalive p w).peers
unfolding remove_keepalive
remove_keepalive-All P p w h = elim (Option-cases p.pool) [
  | inl e ↦ rw (e, remove_keepalive) h
  | inr (c, e) ↦
      rw (e, remove_keepalive)
        (subst (All P) (sym (remove_stored-peers p w)) (remove_peer-All P p w.peers h))
]

pub remove_keepalive-IsSorted :
    (p : Peer) (w : World) → IsSorted w.peers → IsSorted (remove_keepalive p w).peers
unfolding remove_keepalive
remove_keepalive-IsSorted p w h = elim (Option-cases p.pool) [
  | inl e ↦ rw (e, remove_keepalive) h
  | inr (c, e) ↦
      rw (e, remove_keepalive)
        (subst IsSorted (sym (remove_stored-peers p w)) (remove_peer-IsSorted p w.peers h))
]

pub remove_keepalive-Absent :
    (p : Peer) (w : World)
    → p.pool ≢ none
    → IsSorted w.peers
    → Absent p (remove_keepalive p w).peers
unfolding remove_keepalive
remove_keepalive-Absent p w has h = elim (Option-cases p.pool) [
  | inl e ↦ absurd (has e)
  | inr (c, e) ↦
      rw (e, remove_keepalive)
        (subst (Absent p) (sym (remove_stored-peers p w)) (remove_peer-Absent p w.peers h))
]

-- A peer that is found is one of the set, and the others stay.
pub find_peer-All {κ} :
    (P : Peer → Type κ) (p q : Peer) (qs : List Peer) → find_peer p qs ≡ some q → All P qs → P q
unfolding find_peer
find_peer-All P p q [] e h = absurd (cc)
find_peer-All P p q (r ∷ qs) e (x, h) = elim (Bool-cases (peer_eq p r)) [
  | inl same ↦ let first : r ≡ q = ground arith in subst P first x
  | inr other ↦ find_peer-All P p q qs (rw (other, find_peer) at e) h
]

pub length-remove_peer :
    (p q : Peer) (qs : List Peer)
    → find_peer p qs ≡ some q
    → length qs ≡ suc (length (remove_peer p qs))
unfolding find_peer remove_peer
length-remove_peer p q [] e = absurd (cc)
length-remove_peer p q (r ∷ qs) e = elim (Bool-cases (peer_eq p r)) [
  | inl same ↦ rw (same, remove_peer) refl
  | inr other ↦
      rw (other, remove_peer) (ap suc (length-remove_peer p q qs (rw (other, find_peer) at e)))
]
