-- ===== src/Http/Proxy/Route.antt =====
-- http/plugins/proxy.rs: the servers of a route, and the flush handler of its responses. The state `W` is that of
-- the pools; `U` are the names of upstreams, which may depend on the request. The variables that are set
-- for the log are left out, and the end of a peer that is dropped.
use ws_platform.Common.{
  ℕ, zero, suc, Text, codes, Option, none, some, Bool, true, false, ◌&&◌, ltb, if◌then◌else◌, Eq,
}
use ws_platform.Error.{
  Result, ok, err, CoreError, Flush, finished_with, read_more, write_more, read_write_more, refused,
  finished, unfinished, throw,
}
use ws_platform.KeyVal.{Key}
use ws_platform.Client.{Client}
use ws_platform.ConnectionPool.{Peer}
use ws_platform.Http.Types.{HttpStatus}
use ws_platform.Http.Request.{HttpRequest}
use ws_platform.Http.Response.{Exchange}
use ws_platform.Http.Proxy.{HttpProxyContext, new, rank, st_protocol_end}
use ws_platform.Http.Proxy.Send.{Step, proxy, send_text}

pub record ProxyPass (U : Type 0) : Type 0 where
  pub pass : Option Text
  pub upstream : Option U

-- `ProxyContext`, without the settings of the pools.
pub record ProxyContext (U : Type 0) : Type 0 where
  pub primary : ProxyPass U
  pub backup : ProxyPass U

-- `get_addr`, where `is_addr` stands for the parser of socket addresses; another text is an upstream.
abbrev pub set_pass : {U : Type 0} → (Text → Bool) → (Text → U) → Text → ProxyPass U → ProxyPass U
set_pass is_addr complex pass p =
    if is_addr pass
    then record p { pass = some pass }
    else record p { upstream = some (complex pass) }

-- A connection to an upstream: its peer, and what its socket does.
abbrev pub Dialled : Type 0
Dialled = Result CoreError (Peer × Client)

-- How upstreams are reached: the one for a fixed address, and those that have a name.
pub record Dial (W U : Type 0) : Type 1 where
  pub fixed : Text → W → W × Dialled
  pub named : U → HttpRequest → W → W × Dialled

-- `get`: nothing where the upstream has a name.
unfoldable pub get : {U : Type 0} → ProxyPass U → Result CoreError (Option Text)
get u = elim u.upstream [
  | some name ↦ ok none
  | none ↦ elim u.pass [ some addr ↦ ok (some addr) | none ↦ throw (codes "'pass' is not defined") ]
]

abbrev pub unwrap : Result CoreError (Option Text) → Option Text
unwrap (ok a) = a
unwrap (err e) = none

abbrev pub no_backup : {U : Type 0} → ProxyContext U → Bool
no_backup p = elim p.backup.pass [
  | some addr ↦ false
  | none ↦ elim p.backup.upstream [ some name ↦ false | none ↦ true ]
]

-- What follows the primary: `gives_up` are errors that are returned at once.
abbrev pub or_backup :
    {W : Type 0} → Bool → (W → W × Option Dialled) → W × Option Dialled → W × Option Dialled
or_backup gives_up backup (w, none) = (w, none)
or_backup gives_up backup (w, some (ok peer)) = (w, some (ok peer))
or_backup gives_up backup (w, some (err e)) = if gives_up then (w, some (err e)) else backup w

abbrev pub is_named : Option Text → Bool
is_named none = true
is_named (some addr) = false

module _ {W U : Type 0} where
  -- A name that is missing is a panic.
  abbrev pub dial_named : Dial W U → Option U → HttpRequest → W → W × Option Dialled
  dial_named dial none r w = (w, none)
  dial_named dial (some name) r w = let (w', res) = dial.named name r w in (w', some res)

  abbrev pub dial_fixed : Dial W U → Text → W → W × Option Dialled
  dial_fixed dial addr w = let (w', res) = dial.fixed addr w in (w', some res)

  abbrev pub dial_either : Dial W U → Option Text → Option U → HttpRequest → W → W × Option Dialled
  dial_either dial none name r w = dial_named dial name r w
  dial_either dial (some addr) name r w = dial_fixed dial addr w

  -- `connect`, with what `get` made of the primary and the backup; no result is a panic.
  unfoldable pub connect :
      Dial W U → ProxyContext U → Option Text → Option Text → HttpRequest → W → W × Option Dialled
  connect dial p primary backup r w =
      or_backup (is_named primary && no_backup p)
        (λ w'. dial_either dial backup p.backup.upstream r w')
        (dial_either dial primary p.primary.upstream r w)

  -- The handler that the command `proxy` makes, unless its primary is missing.
  unfoldable pub connect_of :
      Dial W U → ProxyContext U → Result CoreError (HttpRequest → W → W × Option Dialled)
  unfolding get connect
  connect_of dial p = elim (get p.primary) [
    | err e ↦ err e
    | ok primary ↦ ok (connect dial p primary (unwrap (get p.backup)))
  ]

-- How the flush handler ends.
pub data Outcome : Type 0 where
  panicked running : Outcome
  returned : Result CoreError (Flush Peer) → Outcome

-- The context `proxy` of the response, with its connection.
abbrev pub Stored : Type 0
Stored = Option (HttpProxyContext × Client)

module _ {W : Type 0} (url_encode : Text → Text) ⦃e : Eq Key⦄ (is_utf8 : Text → Bool) (now : ℕ)
    (connect : HttpRequest → W → W × Option Dialled) where
  abbrev pub Handled : Type 0
  Handled = Stored × Exchange × W × Outcome

  -- The arms of `match res`; `again` is another round, which begins without a context.
  abbrev pub after_step : (Exchange → W → Handled) → W → Step url_encode → Handled
  after_step again w (ctx, c, x, none) = (none, x, w, panicked)
  after_step again w (ctx, c, x, some (ok (read_more peer))) =
      (some (ctx, c), x, w, returned (ok (read_more peer)))
  after_step again w (ctx, c, x, some (ok (write_more peer))) =
      (some (ctx, c), x, w, returned (ok (write_more peer)))
  after_step again w (ctx, c, x, some (ok (read_write_more peer))) =
      (some (ctx, c), x, w, returned (ok (read_write_more peer)))
  after_step again w (ctx, c, x, some (ok (finished_with peer))) =
      (none, x, w, returned (ok (finished_with peer)))
  after_step again w (ctx, c, x, some (ok finished)) = (none, x, w, returned (ok finished))
  after_step again w (ctx, c, x, some (ok unfinished)) = (none, x, w, returned (ok unfinished))
  after_step again w (ctx, c, x, some (ok refused)) = (none, x, w, returned (ok refused))
  after_step again w (ctx, c, x, some (err e)) =
      if ltb (rank ctx.state) (rank st_protocol_end)
      then again x w
      else (none, x, w, returned (err e))

  -- The arms of `match connect(…)`.
  abbrev pub after_connect :
      (HttpProxyContext → Client → Exchange → W → Handled) → Exchange → W × Option Dialled → Handled
  after_connect go x (w, none) = (none, x, w, panicked)
  after_connect go x (w, some (ok (peer, c))) = go (new peer) c x w
  after_connect go x (w, some (err e)) = (
    none,
    send_text url_encode HttpStatus.bad_gateway (codes "Bad gateway") x,
    w,
    returned (ok refused),
  )

  abbrev pub with_context :
      (HttpProxyContext → Client → Exchange → W → Handled) → Stored → Exchange → W → Handled
  with_context go (some (ctx, c)) x w = go ctx c x w
  with_context go none x w = after_connect go x (connect x.request w)

  -- The flush handler; `running` is too little fuel.
  unfoldable pub flush_handler : ℕ → Stored → Exchange → W → Handled
  unfolding proxy
  flush_handler zero stored x w = (stored, x, w, running)
  flush_handler (suc fuel) stored x w =
      with_context
        (λ ctx c x w. after_step (flush_handler fuel none) w (proxy url_encode is_utf8 now ctx c x))
        stored x w
