-- ===== src/ConnectionPool/Order.antt =====
-- connection_pool.rs: the order of the peers (`impl Ord for Peer`), and the set that is sorted by it.
use ws_platform.Common.{
  ℕ, ◌≡◌, Option, Bool, true, false, List, [], ◌∷◌, ltb, ◌==◌, ◌&&◌, if◌then◌else◌, arith, All,
  length, ◌≢◌, suc,
}
use ws_platform.ConnectionPool.{Peer, exp_lt, exp_eq, peer_lt, insert_peer}

abbrev key_lt : Option ℕ → ℕ → Option ℕ → ℕ → Bool
key_lt a i b j = if exp_eq a b then ltb i j else exp_lt a b

key_lt_trans :
    (a b c : Option ℕ) (i j k : ℕ)
    → key_lt a i b j ≡ true
    → key_lt b j c k ≡ true
    → key_lt a i c k ≡ true
key_lt_trans a b c i j k = ground arith

key_lt_total :
    (a b : Option ℕ) (i j : ℕ)
    → key_lt a i b j ≡ false
    → (j == i && exp_eq b a) ≡ false
    → key_lt b j a i ≡ true
key_lt_total a b i j = ground arith

key_lt_irrefl : (a : Option ℕ) (i : ℕ) → key_lt a i a i ≡ false
key_lt_irrefl a i = ground arith

pub peer_lt_trans : (p q r : Peer) → peer_lt p q ≡ true → peer_lt q r ≡ true → peer_lt p r ≡ true
peer_lt_trans p q r = key_lt_trans p.stream.exp q.stream.exp r.stream.exp p.token q.token r.token

abbrev pub Above : Peer → List Peer → Type 0
Above p = All (λ q. peer_lt p q ≡ true)

abbrev pub IsSorted : List Peer → Type 0
IsSorted [] = Unit
IsSorted (p ∷ ps) = Above p ps × IsSorted ps

pub Above-trans : (p q : Peer) (rs : List Peer) → peer_lt p q ≡ true → Above q rs → Above p rs
Above-trans p q [] l h = tt
Above-trans p q (r ∷ rs) l (m, h) = (peer_lt_trans p q r l m, Above-trans p q rs l h)

pub insert_peer-All {κ} :
    (P : Peer → Type κ) (p : Peer) (qs : List Peer) → P p → All P qs → All P (insert_peer p qs)
unfolding insert_peer
insert_peer-All P p [] x h = (x, tt)
insert_peer-All P p (q ∷ qs) x (y, h) = ground (arith, insert_peer-All P p qs x h, y)

pub insert_peer-IsSorted : (p : Peer) (qs : List Peer) → IsSorted qs → IsSorted (insert_peer p qs)
unfolding insert_peer
insert_peer-IsSorted p [] h = (tt, tt)
insert_peer-IsSorted p (q ∷ qs) (a, h) = ground (
  arith,
  Above-trans p q qs,
  insert_peer-IsSorted p qs h,
  insert_peer-All (λ r. peer_lt q r ≡ true) p qs,
  key_lt_total p.stream.exp q.stream.exp p.token q.token,
  a,
)

-- No peer of the set has this token.
abbrev pub NoToken : ℕ → List Peer → Type 0
NoToken t = All (λ q. q.token ≢ t)

-- A peer with a token of its own is inserted.
pub length-insert_peer :
    (p : Peer) (qs : List Peer) → NoToken p.token qs → length (insert_peer p qs) ≡ suc (length qs)
unfolding insert_peer
length-insert_peer p [] h = omega arith
length-insert_peer p (q ∷ qs) (n, h) = ground (arith, length-insert_peer p qs h, n)
