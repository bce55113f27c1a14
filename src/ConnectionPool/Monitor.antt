-- ===== src/ConnectionPool/Monitor.antt =====
-- connection_pool.rs: the thread that watches idle connections (`ws: keepalive`), one round of its loop
-- at a time. Its own peers are weak copies, which hold a handle of their pool; there is one pool here. The
-- registry of mio's `Poll` is the list of the registered descriptors.
pub mod Removal
pub mod Rounds
pub mod Poll
pub mod Busy
use ws_platform.Common.{
  ℕ, zero, suc, ◌+◌, ◌-◌, Option, none, some, Bool, true, false, not, List, [], ◌∷◌, ◌++◌, ◌==◌,
  ◌&&◌, ltb, if◌then◌else◌, length,
}
use ws_platform.TcpSocket
use ws_platform.ConnectionPool.{
  Peer, Message, adds, removes, World, insert_peer, remove_peer, peer_eq, discard, release,
  give_back,
}

pub record Monitor : Type 0 where
  pub keepalive : List Peer
  pub registered : List ℕ

-- How long `poll` may wait: a second, or until the first peer expires.
abbrev pub wait_of : ℕ → Option ℕ → ℕ
wait_of now none = 1
wait_of now (some exp) = exp - now

unfoldable pub poll_timeout : ℕ → List Peer → ℕ
poll_timeout now [] = 1
poll_timeout now (p ∷ ps) = wait_of now p.stream.exp

-- `poll.registry().deregister(…)`, on a socket that may have no stream.
abbrev pub without : ℕ → List ℕ → List ℕ
without fd [] = []
without fd (x ∷ xs) = let rest = without fd xs in if x == fd then rest else x ∷ rest

abbrev pub deregister : Option TcpSocket.Stream → List ℕ → List ℕ
deregister none xs = xs
deregister (some stream) xs = without stream.fd xs

-- `BTreeSet::take`, the part that finds the peer.
unfoldable pub find_peer : Peer → List Peer → Option Peer
find_peer p [] = none
find_peer p (q ∷ qs) = let rest = find_peer p qs in if peer_eq p q then some q else rest

-- `peers.remove(&peer)`: the peer that is removed from the set of the pool goes.
unfoldable pub remove_stored : Peer → World → World
unfolding find_peer remove_peer discard
remove_stored p w = elim (find_peer p w.peers) [
  | none ↦ w
  | some q ↦ record (discard q w) { peers = remove_peer p w.peers }
]

-- `remove_keepalive`: a peer that has a pool is removed from the set of the pool.
unfoldable pub remove_keepalive : Peer → World → World
unfolding remove_stored
remove_keepalive p w = elim p.pool [ none ↦ w | some pool ↦ remove_stored p w ]

-- `retain_timedout`, over the peers of the monitor, its registry and the pool.
unfoldable pub retain_timedout : ℕ → List Peer → List ℕ → World → List Peer × List ℕ × World
unfolding remove_keepalive
retain_timedout now [] registered w = ([], registered, w)
retain_timedout now (p ∷ ps) registered w =
    let rest =
      retain_timedout now ps (deregister p.stream.stream registered) (remove_keepalive p w) in
    if TcpSocket.timedout now p.stream then rest else (p ∷ ps, registered, w)

-- What an event says: the remote end is closed, there is an error, or something else.
pub data Event : Type 0 where
  read_closed failed other : Event

-- The events that `poll` reports, by token; the last of a token counts.
unfoldable pub event_of : ℕ → List (ℕ × Event) → Option Event
event_of token [] = none
event_of token ((t, e) ∷ es) =
    let later = event_of token es in
    elim later [ some e' ↦ some e' | none ↦ if t == token then some e else none ]

-- Whether a peer goes: it is closed, has failed, or is timed out.
abbrev pub ends : Option Event → Bool → Bool
ends (some read_closed) over = true
ends (some failed) over = true
ends (some other) over = over
ends none over = over

-- The peers that stay after the events. The tokens of the peers differ, so that no event is used twice.
unfoldable pub sweep :
    ℕ → List (ℕ × Event) → List Peer → List ℕ → World → List Peer × List ℕ × World
unfolding event_of remove_keepalive
sweep now events [] registered w = ([], registered, w)
sweep now events (p ∷ ps) registered w =
    let gone = sweep now events ps (deregister p.stream.stream registered) (remove_keepalive p w) in
    let (kept, left, w') = sweep now events ps registered w in
    if ends (event_of p.token events) (TcpSocket.timedout now p.stream)
    then gone
    else (p ∷ kept, left, w')

-- How `poll` ends. The events of the signal (token 0) are left out of the list.
pub data Polled : Type 0 where
  ready : List (ℕ × Event) → Polled
  silent timed_out interrupted failed : Polled

abbrev pub watching : List Peer × List ℕ × World → Monitor × World
watching (keepalive, registered, w) = (record { keepalive = keepalive; registered = registered }, w)

-- `ready []` is the signal alone.
unfoldable pub after_poll : Polled → Monitor → World → Monitor × World
unfolding retain_timedout sweep
after_poll silent m w = watching (retain_timedout w.now m.keepalive m.registered w)
after_poll timed_out m w = watching (retain_timedout w.now m.keepalive m.registered w)
after_poll interrupted m w = watching (retain_timedout w.now m.keepalive m.registered w)
after_poll failed m w = (m, w)
after_poll (ready []) m w = (m, w)
after_poll (ready (e ∷ events)) m w = watching (sweep w.now (e ∷ events) m.keepalive m.registered w)

abbrev pub holds : ℕ → List ℕ → Bool
holds fd [] = false
holds fd (x ∷ xs) = let rest = holds fd xs in if x == fd then true else rest

-- A peer that the monitor does not keep is dropped, and it has its pool still: the pool takes it back.
abbrev pub lose : Peer → Monitor → World → Monitor × World
lose p m w = (m, give_back none p w)

-- A peer that is registered is inserted, unless the set has an equal one.
unfoldable pub watch : Peer → ℕ → Monitor → World → Monitor × World
unfolding insert_peer find_peer give_back
watch p fd m w =
    let m' = record m { registered = fd ∷ m.registered } in
    elim (find_peer p m.keepalive) [
      | none ↦ (record m' { keepalive = insert_peer p m.keepalive }, w)
      | some q ↦ lose p m' w
    ]

-- `register`, which reports a descriptor that is registered, and may fail otherwise. A peer that is valid
-- has a stream.
unfoldable pub add_peer : (Peer → Bool) → Peer → Monitor → World → Monitor × World
unfolding watch discard give_back
add_peer refuses p m w = elim p.stream.stream [
  | none ↦ lose p m w
  | some stream ↦
      if holds stream.fd m.registered
      then (m, discard (release p) w)
      else if refuses p
      then lose p m w
      else watch p stream.fd m w
]

abbrev pub monitor_limit : ℕ
monitor_limit = 10240

unfoldable pub receive : (Peer → Bool) → Message → Monitor → World → Monitor × World
unfolding add_peer remove_peer find_peer discard give_back
receive refuses (removes p) m w = elim (find_peer p m.keepalive) [
  | none ↦ (m, discard p w)
  | some q ↦ (
    record {
      keepalive = remove_peer p m.keepalive;
      registered = deregister q.stream.stream m.registered;
    },
    discard p (discard (release q) w),
  )
]
receive refuses (adds p) m w =
    if TcpSocket.valid p.stream && ltb (length m.keepalive) monitor_limit
    then add_peer refuses p m w
    else lose p m w

-- The messages in their order. A peer that the pool takes back is announced to the monitor again, so that
-- the loop need not end: without fuel it has not.
unfoldable pub receive_all : ℕ → (Peer → Bool) → Monitor → World → Option (Monitor × World)
unfolding receive
receive_all zero refuses m w = none
receive_all (suc fuel) refuses m w = elim w.sent [
  | [] ↦ some (m, w)
  | x ∷ xs ↦
      let (m', w') = receive refuses x m (record w { sent = xs }) in receive_all fuel refuses m' w'
]

-- A round: what `poll` reported, and then all messages.
unfoldable pub round : ℕ → (Peer → Bool) → Polled → Monitor → World → Option (Monitor × World)
unfolding after_poll receive_all
round fuel refuses polled m w =
    let (m', w') = after_poll polled m w in receive_all fuel refuses m' w'
