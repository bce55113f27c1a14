-- ===== src/Core/Clients/Runs.antt =====
-- core/io.rs: the loop from its start, through any sequence of its parts.
use ws_platform.Common.{ℕ, some, Bool, [], ◌≡◌, subst}
use ws_platform.Core.{Options}
use ws_platform.Core.Clients.{Connection, Protocol, Loop, accept, ready, expire}
use ws_platform.Core.Clients.Events.{handle_io}
use ws_platform.Core.Clients.Expiry.{IsTracked}
use ws_platform.Core.Clients.Timeouts.{Stays, handle_io-Stays, accept-IsTracked, ready-IsTracked}
use ws_platform.Core.Clients.Due.{expire-Due}

module _ {Q P : Type 0} where
  -- `IO::new`, with the first token that is free.
  abbrev pub empty : ℕ → ℕ → Loop Q P
  empty now unique_token = record {
    now = now;
    clients = [];
    keepalive = [];
    unique_token = unique_token;
    posted = [];
  }

  -- What the loop does: a listener or a worker has something for it, a connection is ready, the
  -- connections that are timed out are closed; and the clock, which may be set to any time.
  pub data Step (protocol : Protocol Q P) : Loop Q P → Loop Q P → Type 0 where
    accepts :
        (server_token : ℕ) (opts : Options) (fd : ℕ) {l : Loop Q P}
        → Step protocol l (accept server_token opts fd l)
    completes :
        (registers : ℕ → Bool) (c : Connection) (p : P) {l : Loop Q P}
        → Step protocol l (ready registers c p l)
    handles :
        (registers : ℕ → Bool) (fuel token : ℕ) {l k : Loop Q P}
        → handle_io protocol registers fuel token l ≡ some k
        → Step protocol l k
    expires : {l : Loop Q P} → Step protocol l (expire l)
    ticks : (now : ℕ) {l : Loop Q P} → Step protocol l (record l { now = now })

  pub data Reach (protocol : Protocol Q P) : Loop Q P → Type 0 where
    start : (now unique_token : ℕ) → Reach protocol (empty now unique_token)
    next : {l k : Loop Q P} → Reach protocol l → Step protocol l k → Reach protocol k

  empty-IsTracked : (now unique_token : ℕ) → IsTracked (empty now unique_token)
  empty-IsTracked now unique_token = record { tracked = tt; sorted = tt }

  clock-IsTracked : (now : ℕ) (l : Loop Q P) → IsTracked l → IsTracked (record l { now = now })
  clock-IsTracked now l v = record { tracked = v.tracked; sorted = v.sorted }

  module _ (protocol : Protocol Q P) where
    Step-IsTracked : {l k : Loop Q P} → Step protocol l k → IsTracked l → IsTracked k
    Step-IsTracked (accepts server_token opts fd {l = l}) v =
        accept-IsTracked server_token opts fd l v
    Step-IsTracked (completes registers c p {l = l}) v = ready-IsTracked registers c p l v
    Step-IsTracked (handles registers fuel token {l = l} e) v =
        subst (Stays protocol) e (handle_io-Stays protocol registers fuel token l v)
    Step-IsTracked (expires {l = l}) v = (expire-Due l v).2
    Step-IsTracked (ticks now {l = l}) v = clock-IsTracked now l v

    -- The timeouts of connections are kept up: from an empty loop, through any sequence of new clients,
    -- responses of the workers, events of connections and expirations, at any times, every
    -- connection that has an expiry has its key, except a client that was accepted and has not sent
    -- anything; and the keys are in order.
    pub Reach-IsTracked : (l : Loop Q P) → Reach protocol l → IsTracked l
    Reach-IsTracked _ (start now unique_token) = empty-IsTracked now unique_token
    Reach-IsTracked _ (next r s) = Step-IsTracked s (Reach-IsTracked _ r)
