-- ===== src/Core/Clients.antt =====
-- core/io.rs: the connections of clients, each idle, with a request that is read or with a response that
-- is sent, and the times at which they expire. `Q` and `P` are the types of requests and responses, with
-- their operations as arguments. Whether a stream can be registered is the argument `registers`, for its
-- descriptor; what the poll then reports is the sequence of the calls.
pub mod Events
pub mod Expiry
pub mod Timeouts
pub mod Due
pub mod Runs
use ws_platform.Common.{
  ℕ, zero, suc, ◌+◌, ◌-◌, Option, none, some, Bool, true, false, ◌&&◌, List, [], ◌∷◌, ◌++◌, ◌≡◌,
  ltb, leb, ◌==◌, if◌then◌else◌, Eq, lookup, insert, remove, arith,
}
pub use ws_platform.Error.{
  Flush, finished, unfinished, refused, finished_with, read_more, write_more, read_write_more,
}
use ws_platform.Error.{Result, ok, err, CoreError, CoreResult, Code, done, again, declined}
use ws_platform.Core.{Options}

-- `ClientContext`, as far as the loop reads it: its stream, the expiry of that, and its `State`.
pub record Connection : Type 0 where
  pub fd : ℕ
  pub exp : Option ℕ
  pub opts : Options
  pub requests : ℕ

pub data Item (Q P : Type 0) : Type 0 where
  idle : Connection → Item Q P
  request : Connection → Q → Item Q P
  response : Connection → P → Option ℕ → Item Q P

-- The traits `Request` and `Response`, without their contexts. A flush names a peer by its descriptor.
pub record Protocol (Q P : Type 0) : Type 0 where
  pub new : Connection → Q
  pub parse : Q → Q × CoreResult
  pub flush : P → P × Result CoreError (Flush ℕ)

pub nat_refl : (a : ℕ) → (a == a) ≡ true
nat_refl a = ground arith

pub nat_sym : (a b : ℕ) → (a == b) ≡ (b == a)
nat_sym a b = ground arith

pub nat_trans : (a b c : ℕ) → (a == b) ≡ true → (b == c) ≡ true → (a == c) ≡ true
nat_trans a b c p q = ground arith

-- The equality of tokens.
instance abbrev pub token_key : Eq ℕ
token_key = record {
  same = λ a b. a == b;
  same_refl = nat_refl;
  same_sym = nat_sym;
  same_trans = nat_trans;
}

-- The keys of `keepalive`: an expiry and a token, in order.
abbrev pub Deadlines : Type 0
Deadlines = List (ℕ × ℕ)

abbrev pub key_eq : ℕ × ℕ → ℕ × ℕ → Bool
key_eq a b = a.0 == b.0 && a.1 == b.1

abbrev pub key_lt : ℕ × ℕ → ℕ × ℕ → Bool
key_lt a b = if a.0 == b.0 then ltb a.1 b.1 else ltb a.0 b.0

unfoldable pub insert_key : ℕ × ℕ → Deadlines → Deadlines
insert_key k [] = k ∷ []
insert_key k (j ∷ js) =
    let rest = insert_key k js in
    if key_lt k j then k ∷ j ∷ js else if key_eq k j then j ∷ js else j ∷ rest

unfoldable pub remove_key : ℕ × ℕ → Deadlines → Deadlines
remove_key k [] = []
remove_key k (j ∷ js) = let rest = remove_key k js in if key_eq k j then js else j ∷ rest

-- The state of the loop: `posted` are the requests that were given to the workers.
pub record Loop (Q P : Type 0) : Type 0 where
  pub now : ℕ
  pub clients : List (ℕ × Item Q P)
  pub keepalive : Deadlines
  pub unique_token : ℕ
  pub posted : List (Connection × Q)

-- `if let Some(exp) = … { keepalive.insert((exp, token)) }`, and `remove`.
abbrev pub track : ℕ → Option ℕ → Deadlines → Deadlines
track token none ks = ks
track token (some exp) ks = insert_key (exp, token) ks

abbrev pub untrack : ℕ → Option ℕ → Deadlines → Deadlines
untrack token none ks = ks
untrack token (some exp) ks = remove_key (exp, token) ks

-- `set_timeout` on the stream of a connection.
abbrev pub set_timeout : ℕ → Option ℕ → Connection → Connection
set_timeout now none c = record c { exp = none }
set_timeout now (some timeout) c = record c { exp = some (now + timeout) }

module _ {Q P : Type 0} where
  abbrev pub connection : Item Q P → Connection
  connection (idle c) = c
  connection (request c q) = c
  connection (response c p peer) = c

  -- A connection is put back under its token, with its expiry.
  unfoldable pub put : ℕ → Item Q P → Loop Q P → Loop Q P
  unfolding insert insert_key
  put token item l = record l {
    clients = insert token item l.clients;
    keepalive = track token (connection item).exp l.keepalive;
  }

  -- A connection is taken out, and so is its expiry.
  unfoldable pub take_out : ℕ → Item Q P → Loop Q P → Loop Q P
  unfolding remove remove_key
  take_out token item l = record l {
    clients = remove token l.clients;
    keepalive = untrack token (connection item).exp l.keepalive;
  }

  -- `keepalive.iter().next()`, as long as its time has come: the connections that are timed out go.
  unfoldable pub expire_loop : ℕ → Deadlines → List (ℕ × Item Q P) → Deadlines × List (ℕ × Item Q P)
  unfolding remove
  expire_loop now [] clients = ([], clients)
  expire_loop now ((exp, token) ∷ ks) clients =
      let rest = expire_loop now ks (remove token clients) in
      if ltb now exp then ((exp, token) ∷ ks, clients) else rest

  unfoldable pub expire : Loop Q P → Loop Q P
  unfolding expire_loop
  expire l =
      let (keepalive, clients) = expire_loop l.now l.keepalive l.clients in
      record l { keepalive = keepalive; clients = clients }

  -- A client is accepted by the listener of this token: the expiry is stored under the token of the
  -- listener.
  unfoldable pub accept : ℕ → Options → ℕ → Loop Q P → Loop Q P
  unfolding insert insert_key
  accept server_token opts fd l =
      let fresh : Connection = record { fd = fd; exp = none; opts = opts; requests = 0 } in
      let c = set_timeout l.now opts.request_timeout fresh in
      record l {
        clients = insert l.unique_token (idle c) l.clients;
        keepalive = track server_token c.exp l.keepalive;
        unique_token = l.unique_token + 1;
      }

  -- A worker has made a response.
  unfoldable pub ready : (ℕ → Bool) → Connection → P → Loop Q P → Loop Q P
  unfolding put
  ready registers c p l =
      let l' = record l { unique_token = l.unique_token + 1 } in
      if registers c.fd
      then put l.unique_token (response (set_timeout l.now c.opts.response_timeout c) p none) l'
      else l'
