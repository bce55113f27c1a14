-- ===== src/Core/Server.antt =====
-- core/server.rs: a handler for each address, over the listeners. `F` is the type of the handlers.
use ws_platform.Common.{Text, Option, List, [], get_or, lookup, insert, remove, text_key}
use ws_platform.Error.{CoreResult, ok, err, done}
use ws_platform.Core.{Options}
use ws_platform.Core.Listeners.{Io}
use ws_platform.Core.Listeners

pub record Server (F : Type 0) : Type 0 where
  pub io : Io
  pub handlers : List (Text × F)

module _ {F : Type 0} where
  abbrev pub new : Server F
  new = record { io = Listeners.new; handlers = [] }

  -- `Server::handler`: the handler of the address that the client has connected to.
  unfoldable pub handler : List (Text × F) → F → Text → F
  unfolding lookup
  handler handlers default server_addr = get_or (lookup server_addr handlers) default

  unfoldable pub add_listener : Text → Option Options → Server F → Server F × CoreResult
  unfolding Listeners.add_listener
  add_listener addr opts s =
      let (io, code) = Listeners.add_listener addr opts s.io in (record s { io = io }, code)

  unfoldable pub remove_listener : Text → Server F → Server F
  unfolding Listeners.remove_listener
  remove_listener addr s = record s { io = Listeners.remove_listener addr s.io }

  -- `self.add_listener(addr, opts)?`, and the handler.
  abbrev pub put_handler : Text → F → Server F × CoreResult → Server F × CoreResult
  put_handler addr f (s, err e) = (s, err e)
  put_handler addr f (s, ok code) = (record s { handlers = insert addr f s.handlers }, ok done)

  unfoldable pub add_server_handler : Text → F → Option Options → Server F → Server F × CoreResult
  unfolding add_listener insert
  add_server_handler addr f opts s = put_handler addr f (add_listener addr opts s)

  unfoldable pub remove_server_handler : Text → Server F → Server F
  unfolding remove
  remove_server_handler addr s = record s { handlers = remove addr s.handlers }
