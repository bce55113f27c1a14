-- ===== src/Lib.antt =====
-- ws-platform: the core of an HTTP server, its buffered connections, request parser and routers.
--
-- The parts and their files. Paths of the source are from the root of the repository.
--   Common      Rust's lists, texts, options and hash maps, as far as the program uses them.
--   Error       src/error.rs and src/http/error.rs: the codes OK, AGAIN, DECLINED and the errors.
--   Buffer      src/buffer.rs: the byte buffer, with a panic as a missing result.
--   Client      src/client_context.rs: read, write and flush over a socket that is a list of answers
--               to its system calls. Client/Signals sees the socket as a stream of bytes and
--               conditions; Client/Flush is the sending side.
--   KeyVal      src/keyval.rs: the multimap of headers, arguments and variables.
--   Variable    src/variable.rs: the values of variables; Complex is the parser of templates.
--   Router      src/http/routers: Trie (trie.rs), Named (named.rs) and Regex (re.rs), each with its
--               operations and, in child modules, its table, its search and its invariant.
--   Http        Types and Encoding: the enumerations of src/http/mod.rs with their text forms in
--               src/http/internal/request.rs and response.rs. Scan: the loop that every parser runs.
--               Request: src/http/internal/request.rs, with Line (parse_method, parse_uri, parse_args,
--               parse_protocol), Headers (parse_headers) and Body (read_body and parse). Response:
--               src/http/internal/response.rs, its setters and, in Send, the writing of headers and
--               body. Framing is about the headers that delimit the body, Wire about what is written.
--               ServerCore: src/http/http_server_core.rs, with Tables and Servers (its tables), Find,
--               Phases and Serve (the loop that serves a request). Server: src/http/server.rs and the parse of
--               src/http/mod.rs, with the answer to a malformed request. Expand is HttpRequest::expand of
--               src/http/mod.rs. Plugins: the handlers of the small plugins of src/http/plugins, with
--               Upstreams (upstream.rs) and Rewriting (the command rewrite). Proxy:
--               src/http/plugins/proxy.rs, with Headers and Body (the response of an upstream), Send
--               (the request and one step of the exchange) and Route (the choice of the server and the
--               flush handler).
--   Upstream    src/upstream.rs and the balancer of src/http/plugins/least_conn.rs: the choice of a server
--               and the attempts of connect, over pools that are an argument.
--   TcpSocket   src/tcp_socket.rs: a stream with an expiry, and its weak copies.
--   ConnectionPool
--               src/connection_pool.rs: the pool and its peers; Monitor is the thread that watches idle
--               connections, one round at a time. Changes is what happens to connections without the pool.
--   Core        src/core/mod.rs (Options), src/core/io.rs, as Listeners (the listeners that come and go)
--               and Clients (the connections, their timeouts, handle_io in Events and the loop in Runs), and
--               src/core/server.rs (Server).
--   Tests       concrete runs, and uses of the theorems at concrete inputs.
--
-- How the parts interact. A parser takes bytes from the Buffer of its Client, and calls read when the
-- buffer is used up; read resets the buffer and fills it from the socket. The function of a parser on
-- one byte is named step_*, and Scan.scan runs it the way the loops of the source do. Headers and
-- arguments go into a KeyVal. A router is asked for the uri and the method of a request, and sets the
-- Variables of the request. The server core looks up the routers and handlers of a site, picks a route
-- and runs its handlers until one answers. The event loop parses requests, gives them to the workers and
-- flushes the responses; a response of the proxy is flushed by a handler, which opens a connection from a
-- pool, sends the request and parses what comes back, with the same loop over bytes as the request.
--
-- Names. A Rust method is the function of that name in its module. The methods remove of KeyVal and of
-- the routers are remove_name and remove_route, insert of the trie is insert_route, end of the buffer
-- is at_end; a field data is named bytes.
--
-- Bounds and fuel. Bytes are numbers, of which nothing assumes that they are below 256. Positions in a
-- buffer and lengths are unbounded, since they count bytes in memory; parse_usize refuses what does
-- not fit 64 bits. In the proxy the length of a chunk and its line end, and what is missing of a body
-- that is longer than its content length, wrap; a content length that reaches 2^64 when a position is
-- added to it is outside of the model. The loops of the parsers run on fuel: Scan.enough gives one
-- round more than the socket has signals left, and every round but the last uses one up. read_body has
-- two rounds more, one for the bytes in the buffer and one that sees that the body is complete. The
-- chunks of a response of an upstream have a round for every byte of the buffer and every signal. The
-- flush handler of the proxy has enough with two rounds. The loop that serves a request goes round
-- again only where a rewrite handler or an access handler asks for it, which a handler may do for
-- ever: no fuel is enough for every site. expand calls itself only for a variable that names another,
-- and has enough with one call more than these are nested. The loop of the monitor over its messages
-- may add messages of its own: no fuel is enough where the monitor is full. The flush of a response in
-- the event loop goes round once for each peer that is to be deregistered.
--
-- Parameters. The crates are arguments: unicase as Eq Key (an equivalence), regex as Router.Regex.Engine,
-- percent_encoding and String::from_utf8_lossy as Http.Request.Decoder, urlencoding and std::str::from_utf8
-- as arguments of the proxy. mio is a descriptor with what its calls report: whether a stream is registered is
-- an argument. Some parts take others as arguments, to be read on their own: Upstream has its pools
-- (Upstream.Pools, where a failed attempt to connect fails again within the same call), the event loop its
-- protocol (Core.Clients.Protocol), the proxy the connections of its servers (Http.Proxy.Route.Dial).
--
-- Left out. Locks, the clock and logs; the lists of filters of a request; the text of an address; the file
-- of a response and the handlers that its flush runs first; threads, the queue of the workers and polling.
-- Configuration, dynamic loading and logging are not modelled: they are input and output over third-party
-- code.
pub mod Buffer
pub mod Client
pub mod Common
pub mod ConnectionPool
pub mod Core
pub mod Error
pub mod Http
pub mod KeyVal
pub mod Router
pub mod TcpSocket
pub mod Tests
pub mod Upstream
pub mod Variable
