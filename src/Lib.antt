-- ===== src/Lib.antt =====
-- rfrp: a reverse proxy. A client (rfrpc) behind a firewall keeps a control connection to a server
-- (rfrps) with a public address and registers proxies there. For each user that connects to a
-- proxy the server asks the client for a work connection, and joins the two.
--
-- The parts, the files that model them, and the sources (paths from the repository's root):
--
-- - Constants, Errors, Auth: crates/rfrp-common/src/constants.rs, error.rs, auth/mod.rs.
-- - Protocol: crates/rfrp-common/src/protocol. Protocol/Frame is the codec of frames
--   (`FrameCodec::decode`, `encode`, `read_one_frame`), Protocol/Messages the messages and their
--   frames (`Message::to_frame`, `from_frame`), Protocol/ProxyErrors the codes of refusals.
-- - Datagrams: crates/rfrp-common/src/util/udp.rs, datagrams on a work connection.
-- - Text, Config: what the parsing of settings uses of `str`, and `[proxy] allow_ports` of
--   crates/rfrp-common/src/config/server.rs (Config/Ports); the validation of both configurations,
--   config/client.rs (Config/Client) and config/server.rs (Config/Server).
-- - Util: crates/rfrp-common/src/util. Util/Retry is accept.rs, Util/RateLimit ratelimit.rs,
--   Util/Counting counting.rs, Util/Http http.rs, Util/Addr addr.rs; Timeouts is how an attempt under
--   a time limit ends.
-- - Heartbeat: the heartbeat task that crates/rfrps/src/control.rs and crates/rfrpc/src/control.rs
--   have in the same words.
-- - Server: crates/rfrps/src. Server/State is `ServerState` (state.rs) with the sessions
--   (control/session.rs); Server/Logins the count of failed logins (state.rs); Server/Control the
--   login (control.rs), Server/Cleanup the end of a session (control.rs); Server/Registry the
--   registration of proxies (listener.rs, udp.rs); Server/Dispatch user connections (listener.rs);
--   Server/Work work connections (work.rs); Server/Vhost routing by host (vhost.rs); Server/Udp the
--   state of a UDP proxy (udp.rs); Server/Channel the channel of outgoing messages. Server/Accept is
--   the accept loop and Server/Connection a connection up to the handler of its first frame
--   (server.rs); Server/Loop the control loop of a session (control.rs). Server/Steps is the machine
--   of the server, whose steps are what runs under one lock or between two awaits, in any order, with
--   the states that it can reach, and Server/Udp/Machine the same for a UDP proxy.
-- - Dashboard: crates/rfrps/src/dashboard.rs, requests, login form, cookies and authorization.
-- - Client: crates/rfrpc/src. Client/Reconnect is the reading of the answer to a login and the waits
--   between connections, Client/Registration the registration of proxies and its retries,
--   Client/RunId the run id in its file, Client/Proxies the requests for proxies (client.rs);
--   Client/Control the state of a connection and its control loop (control.rs), Client/Work work
--   connections and the bridge of their datagrams (workconn.rs).
-- - Prelude, Map: helpers. A HashMap is an association list with distinct keys.
-- - Examples: the theorems at concrete inputs.
--
-- How the state is modelled. An operation takes the state of the server and returns the new one,
-- with its outcome, as if it ran alone. Where the source gives a lock back or awaits something
-- in the middle of an operation, other tasks come between, and the model says so:
-- `register_meanwhile` is a registration with what other tasks do while the port is bound
-- (`register_proxy` is the same alone), the rounds of a control loop (`Meets`) bring what other
-- tasks do before each round, during a registration and before the session is ended, and in
-- Server/Steps a login is split into its checks and its entry (`enter_session`), and a
-- registration into its entry and its answer. `handle_login` is a login with no other between
-- its check of the limit on sessions and its entry, which the source does under two locks; the
-- findings name what may happen there. A cleanup (`cleanup`) takes the locks of the tables one
-- after the other, and is one operation here. Sessions are shared objects (`Arc<Session>`), so
-- they stand in a store, `heap`, under their session ids; the table `sessions` holds references,
-- and an object lives on after its reference has been replaced. Streams, IP addresses and socket
-- addresses are numbers of which only equality is used. The clock, random values, whether a port
-- can be bound, whether a pooled connection is alive and whether a message could be sent are
-- arguments. serde_json is a record of functions whose reading undoes their writing, and Base64
-- and UTF-8 are another; the test of a UUID, the table of lower case, httparse, the making of a
-- text, the reading of socket addresses and the look for files are parameters. What the network
-- answers, when heartbeats are answered and what a peer sends are arguments: a loop is a
-- function of the list of what it meets.
--
-- Numbers: 32-bit and 64-bit counters wrap around as in the source (`% 2 ^ w`), except the gauge of
-- active connections, which the limit keeps small. A length in a frame is the 32-bit number of the
-- header.
--
-- Fuel: only `receive_all`, the read side of the loop on a UDP work connection, has fuel; more than
-- the number of datagrams is enough, and the theorem on it says so. All other loops are recursions
-- on their lists or rounds.
--
-- Not modelled: sockets, the handshake of TLS and its certificates, the bridging of streams, signals,
-- files, logging, the command line, the contents of the pages of the dashboard and of the client's
-- status page, and the printing of metrics, since they are input and output; draining at shutdown.
pub mod Prelude
pub mod Map
pub mod Constants
pub mod Errors
pub mod Timeouts
pub mod Auth
pub mod Protocol
pub mod Datagrams
pub mod Text
pub mod Util
pub mod Config
pub mod Heartbeat
pub mod Server
pub mod Dashboard
pub mod Client
pub mod Examples
