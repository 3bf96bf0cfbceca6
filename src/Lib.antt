-- ===== src/Lib.antt =====
-- hyperdriver: an HTTP client and server library over hyper and tower. This library models its own
-- logic; hyper, http, chateau, tokio and rustls are parameters or interfaces with named laws.
--
-- The server (server/conn) accepts streams, finds out by the first bytes of each whether it speaks
-- HTTP/2, and serves it with hyper's connection for that protocol; middleware puts what is known of
-- the connection into its requests. The client makes a key of each request for its pool of
-- connections, connects by DNS and TCP (several addresses race each other), with TLS where the URI asks
-- for it, picks the protocol by ALPN, and fits each request to the protocol of its connection.
--
--   Base       Boolean tests, lists over native numbers, Result, Poll and panics as values
--   Io         io errors, and hyper's `Read` as the interface `Reader` with its laws
--   Http       the http crate as the interface `Http`: URIs, header maps, requests
--   Rewind     rewind.rs: `Rewind`, `poll_read` and the writes
--   Server     ReadVersion: server/conn/auto.rs, `ReadVersion`. Upgrade: `UpgradableConnection`.
--              Sni: server/conn/tls/sni.rs. ConnInfo: server/conn/info.rs.
--              Acceptor: server/conn/acceptor.rs, server/conn/stream.rs.
--              Connecting: server/conn/connecting.rs, server/conn/mod.rs; Runs: the whole run of a
--              connection. Builder: server/builder.rs.
--              Wire: the way of the bytes from tokio's stream through bridge/io.rs, the detection and
--              rewind.rs to hyper
--   Eyeballs   happy_eyeballs.rs: `EyeballSet`
--   Service    Checks: service/http.rs. Host: service/host.rs. Executor: their stack, as
--              client/builder.rs puts it together. Timeout: service/timeout.rs, service/option.rs.
--              Preprocess: service/error.rs, service/incoming.rs
--   Client     Key: `UriKey` of client/mod.rs. Tls: client/conn/tls.rs. Dns: client/conn/dns.rs.
--              Handshake: client/conn/protocol/auto.rs. Builder: client/builder.rs.
--              Start: the default client of client/mod.rs, and its GET requests.
--              Stream: client/conn/stream/mod.rs. Single: client/conn/connection.rs and
--              client/conn/protocol/mod.rs. Handle: `Client` of client/mod.rs, as handles on a store.
--              Error: client/error.rs. Pool: what chateau's pool may hold of the connections that these
--              make, as a relation. Mock: the mock.rs of client/conn/stream and protocol
--   Info       info/mod.rs
--   Body       body/mod.rs
--   Bridge     bridge/io.rs; Sources: tokio's `AsyncRead` as the interface `AsyncSource`
--   Stream     stream/core.rs: `Braid`, and tokio's reads and writes as the interface `AsyncIo`
--   Layers     the middleware of service and server/conn as tower services: the parent has
--              service/timeout.rs, service/option.rs, service/error.rs and
--              client/conn/transport/unix.rs; Connection: server/conn/info.rs,
--              server/conn/tls/sni.rs, service/incoming.rs; Sending: service/host.rs,
--              service/http.rs; Executor: the stack of client/builder.rs below
--              the pool, and Outer: the one above it; Made: what a server makes for a stream;
--              Transport: client/conn/tls.rs and the resolver of client/conn/dns.rs;
--              Bridge: bridge/service.rs, with tower's `Oneshot` as an interface
--   Tests      runs on concrete input
--
-- Futures are polled by hand: a `poll` takes the state and gives a `Poll` and the new state, and
-- what the code does on a poll after completion is the value `panic`. Futures whose inside has no
-- state of its own are modelled by their result. Code that mutates through `&mut` gives the new value.
--
-- Bounds: `ReadVersion.read_loop` has 25 rounds, since each round but the last adds a byte to a buffer
-- of 24. `Upgrade.poll` has two rounds: the detection, and one poll of what it led to. `Eyeballs.drain`
-- has one round more than there are running attempts, since each round removes one. None is used up.
--
-- Not modelled: logging, `Debug`, most of `Default`, executors that only spawn (bridge/rt.rs), the wakers
-- of tasks, and the types of the layers themselves, which only wrap. service/client.rs, service/make.rs,
-- service/shared.rs and service/serviceref.rs are not compiled. The names of http headers are text in lower
-- case, and header values are their text. Schemes and authorities are kept as text; the equality of the
-- pool's keys, `SameKey`, ignores the case of their ASCII letters, as that of http's types is documented to.
pub mod Base
pub mod Io
pub mod Http
pub mod Info
pub mod Rewind
pub mod Server
pub mod Eyeballs
pub mod Service
pub mod Client
pub mod Body
pub mod Bridge
pub mod Stream
pub mod Layers
pub mod Tests
