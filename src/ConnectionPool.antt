-- ===== src/ConnectionPool.antt =====
-- connection_pool.rs: the idle connections to a server, and the limits on them. The lock over the set
-- of peers makes a call one step. An `Arc<i8>` serves as a counter only: it is a number, under which
-- `World` keeps how many owners it has.
pub mod Monitor
pub mod Order
pub mod Invariant
pub mod Connect
pub mod Return
pub mod Changes
pub mod Runs
pub mod Limits
use ws_platform.Common.{
  ℕ, zero, suc, ◌+◌, ◌-◌, ◌^◌, ◌<◌, Text, codes, Option, none, some, Bool, true, false, not, List,
  [], ◌∷◌, ◌++◌, ltb, ◌==◌, ◌&&◌, if◌then◌else◌, or_else, get_or,
}
use ws_platform.Error.{Result, ok, err, CoreError, throw}
use ws_platform.TcpSocket.{TcpSocket}
use ws_platform.TcpSocket

abbrev pub unlimited : ℕ
unlimited = 2 ^ 64 - 1

pub record ConnectionPool : Type 0 where
  pub max_keepalive : ℕ
  pub max_active : ℕ
  pub name : Text
  pub active : ℕ
  pub keepalive : ℕ
  pub timeout : Option ℕ
  pub keepalive_timeout : ℕ
  pub keepalive_requests : ℕ

-- The user data is opaque: the field says whether there are any.
pub record Peer : Type 0 where
  pub upstream : Option Text
  pub pool : Option ConnectionPool
  pub active : Option ℕ
  pub keepalive : Option ℕ
  pub token : ℕ
  pub userdata : Bool
  pub requests : ℕ
  pub stream : TcpSocket

pub data Message : Type 0 where
  adds removes : Peer → Message

-- What the handles of one pool share: its set of peers, in order; and the counters, the tokens, the
-- clock, the messages on their way to the monitor and the descriptors that were closed.
pub record World : Type 0 where
  pub peers : List Peer
  pub strong : ℕ → ℕ
  pub next_arc : ℕ
  pub next_token : ℕ
  pub now : ℕ
  pub sent : List Message
  pub closed : List ℕ

abbrev pub set_count : ℕ → ℕ → (ℕ → ℕ) → ℕ → ℕ
set_count arc n strong = λ i. if i == arc then n else strong i

-- `Arc::clone` and the drop of an `Option<Arc<_>>`.
abbrev pub retain : ℕ → (ℕ → ℕ) → ℕ → ℕ
retain arc strong = set_count arc (strong arc + 1) strong

abbrev pub release_arc : Option ℕ → (ℕ → ℕ) → ℕ → ℕ
release_arc none strong = strong
release_arc (some arc) strong = set_count arc (strong arc - 1) strong

-- `SystemTime` and then the token; no expiry is before every expiry.
abbrev pub exp_lt : Option ℕ → Option ℕ → Bool
exp_lt none none = false
exp_lt none (some b) = true
exp_lt (some a) none = false
exp_lt (some a) (some b) = ltb a b

abbrev pub exp_eq : Option ℕ → Option ℕ → Bool
exp_eq none none = true
exp_eq none (some b) = false
exp_eq (some a) none = false
exp_eq (some a) (some b) = a == b

abbrev pub peer_lt : Peer → Peer → Bool
peer_lt p q =
    if exp_eq p.stream.exp q.stream.exp
    then ltb p.token q.token
    else exp_lt p.stream.exp q.stream.exp

abbrev pub peer_eq : Peer → Peer → Bool
peer_eq p q = p.token == q.token && exp_eq p.stream.exp q.stream.exp

-- `BTreeSet::insert`, which keeps an equal element, and `remove`.
unfoldable pub insert_peer : Peer → List Peer → List Peer
insert_peer p [] = p ∷ []
insert_peer p (q ∷ qs) =
    let rest = insert_peer p qs in
    if peer_lt p q then p ∷ q ∷ qs else if peer_eq p q then q ∷ qs else q ∷ rest

unfoldable pub remove_peer : Peer → List Peer → List Peer
remove_peer p [] = []
remove_peer p (q ∷ qs) = let rest = remove_peer p qs in if peer_eq p q then qs else q ∷ rest

-- `ConnectionPool::clone`: the counters of the copy are new.
unfoldable pub clone : ConnectionPool → World → ConnectionPool × World
clone p w = (
  record p { active = w.next_arc; keepalive = w.next_arc + 1 },
  record w {
    strong = set_count (w.next_arc + 1) 1 (set_count w.next_arc 1 w.strong);
    next_arc = w.next_arc + 2;
  },
)

-- `with_timeouts`, with the world of the new pool. The monitor, which the first call starts, is `Monitor`.
unfoldable pub with_timeouts :
    Text → ℕ → ℕ → Option ℕ → Option ℕ → Option ℕ → World → ConnectionPool × World
with_timeouts name max_keepalive max_active timeout keepalive_timeout keepalive_requests w = (
  record {
    max_keepalive = if max_keepalive == 0 then unlimited else max_keepalive;
    max_active = if max_active == 0 then unlimited else max_active;
    name = name;
    active = w.next_arc;
    keepalive = w.next_arc + 1;
    timeout = timeout;
    keepalive_timeout = get_or keepalive_timeout 86400;
    keepalive_requests = get_or keepalive_requests unlimited;
  },
  record w {
    peers = [];
    strong = set_count (w.next_arc + 1) 1 (set_count w.next_arc 1 w.strong);
    next_arc = w.next_arc + 2;
  },
)

abbrev pub new : Text → ℕ → ℕ → World → ConnectionPool × World
new name max_keepalive max_active = with_timeouts name max_keepalive max_active none none none

abbrev pub update_max_active : ℕ → ConnectionPool → ConnectionPool
update_max_active n p = record p { max_active = n }

abbrev pub update_max_keepalive : ℕ → ConnectionPool → ConnectionPool
update_max_keepalive n p = record p { max_keepalive = n }

-- `Arc::strong_count(…)` is one at least while the pool lives.
abbrev pub active : ConnectionPool → World → ℕ
active p w = w.strong p.active - 1

-- The subtraction wraps where more peers are active than are counted in all.
abbrev pub idle : ConnectionPool → World → ℕ
idle p w = w.strong p.keepalive - w.strong p.active

-- `Peer::weak`: no result is a panic.
unfoldable pub weak : Peer → Option Peer
weak p = elim (TcpSocket.weak p.stream) [
  | none ↦ none
  | some stream ↦
      some (record p {
        pool = none;
        active = none;
        keepalive = none;
        userdata = false;
        stream = stream;
      })
]

-- `Peer::take`: the peer, and what is left of it.
unfoldable pub take : Peer → Peer × Peer
unfolding TcpSocket.take
take p =
    let (stream, left) = TcpSocket.take p.stream in
    (
      record p { stream = stream },
      record p {
        upstream = none;
        pool = none;
        active = none;
        keepalive = none;
        userdata = false;
        stream = left;
      },
    )

-- A peer without a pool goes: its counters are released and its stream is dropped.
unfoldable pub discard : Peer → World → World
discard p w = record w {
  strong = release_arc p.keepalive (release_arc p.active w.strong);
  closed = w.closed ++ TcpSocket.drop p.stream;
}

-- `Peer::new`.
unfoldable pub new_peer : TcpSocket → Option Text → World → Peer × World
new_peer stream upstream w = (
  record {
    upstream = upstream;
    pool = none;
    active = none;
    keepalive = none;
    token = w.next_token;
    userdata = false;
    requests = 0;
    stream = stream;
  },
  record w { next_token = w.next_token + 1 },
)

-- The peer is handed out by the pool: it has a copy of the handle, and counts as active.
unfoldable pub hand_out : ConnectionPool → Peer → World → Peer × World
unfolding clone
hand_out self p w =
    let (copy, w') = clone self w in
    (
      record p { pool = some copy; active = some self.active; keepalive = some self.keepalive },
      record w' { strong = retain self.keepalive (retain self.active w'.strong) },
    )

-- What `connect` comes to.
pub data Outcome : Type 0 where
  got : Peer → Outcome
  refused : CoreError → Outcome
  panicked : Outcome

-- No idle peer is left: a new connection, where dialling gives one.
unfoldable pub connect_new : ConnectionPool → World → Result CoreError TcpSocket → World × Outcome
unfolding new_peer hand_out
connect_new self w (err e) = (w, refused e)
connect_new self w (ok stream) =
    let (p, w1) = new_peer stream (some self.name) w in
    let (p', w2) = hand_out self p w1 in (w2, got p')

-- An idle peer is taken back into use: the monitor gets a weak copy, and the peer a new token.
unfoldable pub taken : Option ℕ → ConnectionPool → Peer → Peer → World → Peer × World
taken timeout self p copy w =
    let (stream, exp) = TcpSocket.set_timeout w.now (or_else timeout self.timeout) p.stream in
    (
      record p { stream = stream; token = w.next_token },
      record w {
        sent = w.sent ++ removes copy ∷ [];
        next_token = w.next_token + 1;
        strong = release_arc p.keepalive (release_arc p.active w.strong);
      },
    )

unfoldable pub reuse : Option ℕ → ConnectionPool → Peer → World → Option Peer → World × Outcome
unfolding hand_out taken
reuse timeout self p w none = (w, panicked)
reuse timeout self p w (some copy) =
    let (p1, w1) = taken timeout self p copy w in let (p2, w2) = hand_out self p1 w1 in (w2, got p2)

-- The loop of `connect`: the first peers of the set, as long as they are not valid, go.
unfoldable pub connect_loop :
    (Option ℕ → Result CoreError TcpSocket)
    → Option ℕ
    → ConnectionPool
    → List Peer
    → World
    → World × Outcome
unfolding connect_new reuse discard
connect_loop dial timeout self [] w =
    connect_new self (record w { peers = [] }) (dial (or_else timeout self.timeout))
connect_loop dial timeout self (p ∷ ps) w =
    let next = connect_loop dial timeout self ps (discard p w) in
    elim (weak p) [
      | none ↦ (record w { peers = p ∷ ps }, panicked)
      | some copy ↦
          if TcpSocket.valid p.stream
          then reuse timeout self p (record w { peers = ps }) (weak p)
          else next
    ]

unfoldable pub connect :
    (Option ℕ → Result CoreError TcpSocket) → Option ℕ → ConnectionPool → World → World × Outcome
unfolding connect_loop
connect dial timeout self w =
    if active self w == self.max_active
    then (w, refused (record { text = codes "max_active has been reached to " ++ self.name }))
    else connect_loop dial timeout self w.peers w

-- `ConnectionPool::set_keepalive`, on a peer whose pool was taken out. First what it does to a peer that
-- it keeps, then the insertion into the set, and the message to the monitor. Without a stream
-- `weak` panics: not here, as a peer that is kept is valid.
unfoldable pub kept : Option ℕ → ConnectionPool → ℕ → Peer → Peer
kept timeout self now p = record p {
  active = none;
  requests = p.requests + 1;
  stream =
      TcpSocket.expire (TcpSocket.deadline now (some (get_or timeout self.keepalive_timeout)))
        p.stream;
}

unfoldable pub store : Peer → Option ℕ → World → World
unfolding insert_peer
store p active w = record w { peers = insert_peer p w.peers; strong = release_arc active w.strong }

unfoldable pub announce : ConnectionPool → World → Option Peer → World
unfolding clone
announce self w none = w
announce self w (some p) =
    let (copy, w') = clone self w in
    record w' { sent = w'.sent ++ adds (record p { pool = some copy }) ∷ [] }

unfoldable pub keep : Option ℕ → ConnectionPool → Peer → World → World
unfolding kept store announce
keep timeout self p w =
    let p' = kept timeout self w.now p in announce self (store p' p.active w) (weak p')

unfoldable pub set_keepalive : Option ℕ → ConnectionPool → Peer → World → World
unfolding keep
set_keepalive timeout self p w =
    if not (TcpSocket.valid p.stream)
    then discard p w
    else if idle self w == self.max_keepalive
    then discard p w
    else if p.requests + 1 == self.keepalive_requests
    then discard p w
    else keep timeout self p w

-- `Peer::set_keepalive`, and the drop of a peer (without a timeout).
unfoldable pub give_back : Option ℕ → Peer → World → World
unfolding set_keepalive
give_back timeout p w = elim p.pool [
  | none ↦ discard p w
  | some pool ↦ set_keepalive timeout pool (record p { pool = none; userdata = false }) w
]

-- `Peer::close`: the pool does not get the connection back.
unfoldable pub close : Peer → World → Peer × World
close p w =
    let (stream, fds) = TcpSocket.close p.stream in
    (record p { stream = stream; pool = none }, record w { closed = w.closed ++ fds })

abbrev pub release : Peer → Peer
release p = record p { pool = none }
