-- ===== src/Tests/Loops.antt =====
-- core/io.rs at concrete inputs: the loop with a connection that has a request.
use ws_platform.Common.{
  ℕ, ◌≡◌, ◌<◌, refl, Option, none, some, true, [], ◌∷◌, arith, lookup, All, if◌then◌else◌, ◌==◌,
}
use ws_platform.Error.{ok, done, again}
use ws_platform.Core.{default_options, Options}
use ws_platform.Core.Clients.{
  Connection, finished, finished_with, idle, request, response, Protocol, Loop, token_key, put,
  take_out, expire, accept, insert_key,
}
use ws_platform.Core.Clients.Events.{on_request, on_response, handle_io}
use ws_platform.Core.Clients.Expiry.{IsTracked, deadline}
use ws_platform.Core.Clients.Runs.{
  empty, Reach, start, next, accepts, handles, ticks, expires, Reach-IsTracked,
}
use ws_platform.Core.Clients.Due.{NotDue, expire-Due, accept_untimed}

-- A request is complete after the reads that its number counts; a response has a peer to deregister.
abbrev counting : Protocol ℕ ℕ
counting = record {
  new = λ c. 1;
  parse = λ q. if q == 0 then (q, ok done) else (0, ok again);
  flush = λ p. if p == 0 then (0, ok finished) else (0, ok (finished_with 9));
}

abbrev timed : Options
timed = record default_options { keepalive_timeout = some 50; request_timeout = some 10 }

abbrev client : ℕ → Option ℕ → Connection
client fd exp = record { fd = fd; exp = exp; opts = timed; requests = 0 }

abbrev two_clients : Loop ℕ ℕ
two_clients = record {
  now = 100;
  clients = (7, idle (client 3 (some 90))) ∷ (8, response (client 4 (some 120)) 1 none) ∷ [];
  keepalive = (90, 7) ∷ (120, 8) ∷ [];
  unique_token = 9;
  posted = [];
}

two_clients-IsTracked : IsTracked two_clients
two_clients-IsTracked = record {
  tracked = (tt, (refl, tt));
  sorted = ((omega arith, tt), (tt, tt));
}

idle_io :
    handle_io counting (λ fd. true) 5 7 two_clients
    ≡ some (record two_clients {
      clients =
          (8, response (client 4 (some 120)) 1 none) ∷ (7, request (client 3 (some 110)) 0) ∷ [];
      keepalive = (110, 7) ∷ (120, 8) ∷ [];
    })
unfolding handle_io take_out put on_request insert_key
idle_io = refl

response_io :
    handle_io counting (λ fd. true) 5 8 two_clients
    ≡ some (record two_clients {
      clients =
          (7, idle (client 3 (some 90)))
          ∷ (8, idle (record (client 4 (some 150)) { requests = 1 }))
          ∷ [];
      keepalive = (90, 7) ∷ (150, 8) ∷ [];
    })
unfolding handle_io take_out put on_response insert_key
response_io = refl

-- A client is accepted at 100, sends the first part of its request, and at 105 nothing is due.
abbrev served : Loop ℕ ℕ
served = record (empty 105 3) {
  clients = (2, request (client 5 (some 110)) 0) ∷ [];
  keepalive = (110, 1) ∷ (110, 2) ∷ [];
}

served-Reach : Reach counting served
unfolding handle_io take_out put on_request insert_key accept expire
served-Reach =
    next
      (next (next (next (start 100 2) (accepts 1 timed 5)) (handles (λ fd. true) 5 2 refl))
        (ticks 105))
      expires

Reach-IsTracked_example : IsTracked served
Reach-IsTracked_example = Reach-IsTracked counting served served-Reach

expire-Due_example :
    All (λ c. (e : ℕ) → deadline c.1 ≡ some e → 100 < e) (expire two_clients).clients
    × ((token : ℕ)
        → NotDue 100 token two_clients.keepalive
        → lookup token (expire two_clients).clients ≡ lookup token two_clients.clients)
    × IsTracked (expire two_clients)
expire-Due_example = expire-Due two_clients two_clients-IsTracked

accept_untimed_example :
    lookup 9 (expire (record (accept 1 timed 5 two_clients) { now = 1000000 })).clients
    ≡ some (idle (client 5 (some 110)))
accept_untimed_example =
    accept_untimed 1 5 1000000 timed two_clients (omega arith) (omega arith, (omega arith, tt))
