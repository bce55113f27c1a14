-- ===== src/Core/Listeners.antt =====
-- core/io.rs: the listening sockets, in the table that the other threads change and the thread of the
-- event loop brings up to date. A listener is its local address; whether an address can be bound
-- and registered is the argument `binds`. The table is a hash map, iterated along the list.
pub mod Unique
use ws_platform.Common.{
  ℕ, suc, ◌+◌, Text, Option, none, some, Bool, true, false, List, [], ◌∷◌, ◌++◌, text_eq, ◌==◌,
  if◌then◌else◌, get_or,
}
use mathlib.Core.Option
use ws_platform.Error.{CoreResult, ok, err, done, declined, Code}
use ws_platform.Core.{Options, default_options}

pub data OneOf : Type 0 where
  invalid valid : Text → OneOf

pub data Server : Type 0 where
  invalid : Text → Options → ℕ → Server
  valid : Text → Options → ℕ → Server
  removed : OneOf → Server

pub record Io : Type 0 where
  pub servers : List (ℕ × Server)
  pub server_token : ℕ
  pub updated : Bool

abbrev pub address_of : OneOf → Text
address_of (OneOf.invalid a) = a
address_of (OneOf.valid a) = a

abbrev pub address : Server → Text
address (invalid a opts token) = a
address (valid a opts token) = a
address (removed one) = address_of one

-- `IO::new`, as far as the listeners go: the tokens begin at 1, of which `next` takes one.
abbrev pub new : Io
new = record { servers = []; server_token = 1; updated = true }

-- What `add_listener` makes of the server that has the address.
abbrev pub readd : Options → ℕ → Server → Server × Code
readd opts token (valid a o t) = (valid a o t, declined)
readd opts token (invalid a o t) = (invalid a o t, declined)
readd opts token (removed (OneOf.valid a)) = (valid a opts token, done)
readd opts token (removed (OneOf.invalid a)) = (invalid a opts token, done)

-- The loop of `add_listener`, and what it does to the server that it finds.
unfoldable pub add_loop : Text → Options → List (ℕ × Server) → Option (List (ℕ × Server) × Code)
add_loop addr opts [] = none
add_loop addr opts ((token, server) ∷ servers) =
    let rest = add_loop addr opts servers in
    let (server', code) = readd opts token server in
    if text_eq (address server) addr
    then some ((token, server') ∷ servers, code)
    else Option.map (λ r. ((token, server) ∷ r.0, r.1)) rest

unfoldable pub add_listener : Text → Option Options → Io → Io × CoreResult
unfolding add_loop
add_listener addr opts io =
    let opts' = get_or opts default_options in
    elim (add_loop addr opts' io.servers) [
      | some (servers, code) ↦ (record io { servers = servers; updated = true }, ok code)
      | none ↦ (
        record {
          servers = (io.server_token, invalid addr opts' io.server_token) ∷ io.servers;
          server_token = io.server_token + 1;
          updated = true;
        },
        ok done,
      )
    ]

-- The first server with the address that is not removed is.
unfoldable pub remove_loop : Text → List (ℕ × Server) → List (ℕ × Server)
remove_loop addr [] = []
remove_loop addr ((token, valid a opts t) ∷ servers) =
    let rest = remove_loop addr servers in
    if text_eq a addr
    then (token, removed (OneOf.valid a)) ∷ servers
    else (token, valid a opts t) ∷ rest
remove_loop addr ((token, invalid a opts t) ∷ servers) =
    let rest = remove_loop addr servers in
    if text_eq a addr
    then (token, removed (OneOf.invalid a)) ∷ servers
    else (token, invalid a opts t) ∷ rest
remove_loop addr ((token, removed one) ∷ servers) = (token, removed one) ∷ remove_loop addr servers

unfoldable pub remove_listener : Text → Io → Io
unfolding remove_loop
remove_listener addr io = record io { servers = remove_loop addr io.servers; updated = true }

-- `create_listener`, for the address of an invalid server.
abbrev pub listen : (Text → Bool) → ℕ → Server → Server
listen binds token (valid a opts t) = valid a opts t
listen binds token (invalid a opts t) = if binds a then valid a opts token else invalid a opts t
listen binds token (removed one) = removed one

-- `update_servers`: the removed servers go, and the invalid ones are tried.
unfoldable pub update_servers : (Text → Bool) → List (ℕ × Server) → List (ℕ × Server)
update_servers binds [] = []
update_servers binds ((token, removed one) ∷ servers) = update_servers binds servers
update_servers binds ((token, valid a opts t) ∷ servers) =
    (token, valid a opts t) ∷ update_servers binds servers
update_servers binds ((token, invalid a opts t) ∷ servers) =
    (token, listen binds token (invalid a opts t)) ∷ update_servers binds servers

-- The start of a round of the event loop.
unfoldable pub update : (Text → Bool) → Io → Io
unfolding update_servers
update binds io =
    if io.updated
    then record io { servers = update_servers binds io.servers; updated = false }
    else io

-- After a failed `accept` the listener is made again.
unfoldable pub relisten : (Text → Bool) → ℕ → List (ℕ × Server) → List (ℕ × Server)
relisten binds token [] = []
relisten binds token ((t, removed one) ∷ servers) = (t, removed one) ∷ relisten binds token servers
relisten binds token ((t, invalid a opts u) ∷ servers) =
    (t, invalid a opts u) ∷ relisten binds token servers
relisten binds token ((t, valid a opts u) ∷ servers) =
    let rest = relisten binds token servers in
    if t == token
    then (t, if binds a then valid a opts t else invalid a opts t) ∷ servers
    else (t, valid a opts u) ∷ rest
