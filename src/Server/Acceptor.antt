-- ===== src/Server/Acceptor.antt =====
-- src/server/conn/acceptor.rs and src/server/conn/stream.rs: accept connections, with or without TLS.
-- tokio's listeners and chateau's TLS acceptor and stream are parameters.
pub mod Accepts
pub mod Serves
use hyperdriver.Base.{
  ◌≡◌, Option, none, some, Result, ok, err, Poll, ready, pending, Outcome, value, panic, map_ready,
  map_ok,
}
use hyperdriver.Io.{IoError}
use hyperdriver.Stream.{AsyncIo, Braid, OptTlsStream}

-- src/server/conn/stream.rs, `Stream`; `Info` is `ConnectionInfo`.
pub record Stream (TlsStream IO Info : Type 0) : Type 0 where
  pub info : Info
  pub inner : OptTlsStream TlsStream IO

module _ {TlsStream IO : Type 0} where
  handshake_inner :
      (TlsStream → Poll (Result (Unit {0}) IoError) × TlsStream)
      → OptTlsStream TlsStream IO
      → Poll (Result (Unit {0}) IoError) × OptTlsStream TlsStream IO
  handshake_inner poll_tls (OptTlsStream.tls s) =
      let (result, s') = poll_tls s in (result, OptTlsStream.tls s')
  handshake_inner poll_tls (OptTlsStream.no_tls io) = (ready (ok tt), OptTlsStream.no_tls io)

  recv_inner : {R : Type 0} → (TlsStream → R) → R → OptTlsStream TlsStream IO → R
  recv_inner recv_tls no_info (OptTlsStream.no_tls io) = no_info
  recv_inner recv_tls no_info (OptTlsStream.tls s) = recv_tls s

module _ {TlsStream IO Info : Type 0} where
  -- `Stream::new`.
  unfoldable pub new : (IO → Info) → IO → Stream TlsStream IO Info
  new info_of io = record { info = info_of io; inner = OptTlsStream.no_tls io }

  -- `From<TlsStream<IO>> for Stream<IO>`.
  pub from_tls : (TlsStream → Info) → TlsStream → Stream TlsStream IO Info
  from_tls info_of s = record { info = info_of s; inner = OptTlsStream.tls s }

  -- `poll_handshake`.
  pub poll_handshake :
      (TlsStream → Poll (Result (Unit {0}) IoError) × TlsStream)
      → Stream TlsStream IO Info
      → Poll (Result (Unit {0}) IoError) × Stream TlsStream IO Info
  unfolding handshake_inner
  poll_handshake poll_tls s =
      let (result, inner) = handshake_inner poll_tls s.inner in (result, record s { inner = inner })

  -- `recv`; `no_info` is `TlsConnectionInfoReceiver::empty()`.
  pub recv : {R : Type 0} → (TlsStream → R) → R → Stream TlsStream IO Info → R
  unfolding recv_inner
  recv recv_tls no_info s = recv_inner recv_tls no_info s.inner

  -- `poll_read`, `poll_write` and the other methods of tokio's traits: the same call on `inner`.
  pub io_call {ℓ} :
      {A : Type ℓ}
      → (OptTlsStream TlsStream IO → A × OptTlsStream TlsStream IO)
      → Stream TlsStream IO Info
      → A × Stream TlsStream IO Info
  io_call call s = let (result, inner) = call s.inner in (result, record s { inner = inner })

  -- `AsyncRead for Stream` and `AsyncWrite for Stream`.
  pub stream_io : AsyncIo (OptTlsStream TlsStream IO) → AsyncIo (Stream TlsStream IO Info)
  unfolding io_call
  stream_io io = record {
    poll_read = λ s n. io_call (λ i. io.poll_read i n) s;
    poll_write = λ s bs. io_call (λ i. io.poll_write i bs) s;
    poll_flush = io_call io.poll_flush;
    poll_shutdown = io_call io.poll_shutdown;
  }

-- `AcceptorInner`, `Tls` being chateau's acceptor around the same core.
pub data Acceptor (Core Tls : Type 0) : Type 0 where
  no_tls : Core → Acceptor Core Tls
  tls : Tls → Acceptor Core Tls

module _ {Core Tls : Type 0} where
  -- `Acceptor::new`.
  pub new_acceptor : Core → Acceptor Core Tls
  new_acceptor core = no_tls core

  -- `Acceptor::with_tls`; `new_tls` is `TlsAcceptor::new` with the configuration.
  unfoldable pub with_tls : (Core → Tls) → Acceptor Core Tls → Outcome (Acceptor Core Tls)
  with_tls new_tls (no_tls core) = value (tls (new_tls core))
  with_tls new_tls (tls a) = panic

-- `AcceptorCoreInner`, over tokio's listeners.
pub data AcceptorCore (Tcp Duplex Unix : Type 0) : Type 0 where
  tcp : Tcp → AcceptorCore Tcp Duplex Unix
  duplex : Duplex → AcceptorCore Tcp Duplex Unix
  unix : Unix → AcceptorCore Tcp Duplex Unix

-- `Accept::poll_accept` of a listener that gives connections of type `C`.
abbrev pub Accept : (L C E : Type 0) → Type 0
Accept L C E = L → Poll (Result C E) × L

module _ {T D U T' D' U' E : Type 0} (tcp_accept : Accept T T' E) (duplex_accept : Accept D D' E)
    (unix_accept : Accept U U' E) where
  -- `AcceptorCore::poll_accept`.
  unfoldable pub core_accept : Accept (AcceptorCore T D U) (Braid T' D' U') E
  core_accept (tcp l) = let (r, l') = tcp_accept l in (map_ready (map_ok Braid.tcp) r, tcp l')
  core_accept (duplex l) =
      let (r, l') = duplex_accept l in (map_ready (map_ok Braid.duplex) r, duplex l')
  core_accept (unix l) = let (r, l') = unix_accept l in (map_ready (map_ok Braid.unix) r, unix l')

module _ {Core Tls TlsStream IO Info E : Type 0} (core : Accept Core IO E)
    (tls_core : Accept Tls TlsStream E) (io_info : IO → Info) (tls_info : TlsStream → Info) where
  -- `Acceptor::poll_accept`.
  unfoldable pub poll_accept : Accept (Acceptor Core Tls) (Stream TlsStream IO Info) E
  poll_accept (no_tls a) = let (r, a') = core a in (map_ready (map_ok (new io_info)) r, no_tls a')
  poll_accept (tls a) =
      let (r, a') = tls_core a in (map_ready (map_ok (from_tls tls_info)) r, tls a')

  -- `Stream::poll_next`.
  pub poll_next :
      Acceptor Core Tls → Poll (Option (Result (Stream TlsStream IO Info) E)) × Acceptor Core Tls
  unfolding poll_accept
  poll_next a = let (r, a') = poll_accept a in (map_ready some r, a')

-- `From<TcpListener>`, `From<DuplexIncoming>` and `From<UnixListener>` for `AcceptorCore`.
module _ {Tcp Duplex Unix : Type 0} where
  unfoldable pub core_of_tcp : Tcp → AcceptorCore Tcp Duplex Unix
  core_of_tcp l = tcp l

  pub core_of_duplex : Duplex → AcceptorCore Tcp Duplex Unix
  core_of_duplex l = duplex l

  pub core_of_unix : Unix → AcceptorCore Tcp Duplex Unix
  core_of_unix l = unix l

-- `From<T> for Acceptor`, by the conversion of `T` into its core.
unfoldable pub acceptor_of : {L Core Tls : Type 0} → (L → Core) → L → Acceptor Core Tls
acceptor_of into l = no_tls (into l)

-- `Acceptor::bind`, when `TcpListener::bind` is ready.
unfoldable pub bind :
    {Addr Tcp Duplex Unix Tls E : Type 0}
    → (Addr → Result Tcp E)
    → Addr
    → Result (Acceptor (AcceptorCore Tcp Duplex Unix) Tls) E
unfolding acceptor_of core_of_tcp
bind bind_tcp addr = map_ok (acceptor_of core_of_tcp) (bind_tcp addr)
