-- ===== src/Client/Stream.antt =====
-- src/client/conn/stream/mod.rs: the client's stream, with TLS or without. chateau's `TlsStream` and
-- what its `OptTlsStream` implements are parameters.
pub mod Once
use hyperdriver.Base.{ℕ, Bool, false, Option, none, Result, Poll, Outcome, value, panic, String}
use hyperdriver.Io.{IoError}
use hyperdriver.Stream.{AsyncIo, Braid, OptTlsStream, tls, no_tls, from_tcp, from_duplex, from_unix}

-- `Stream`.
pub record Stream (TlsStream IO : Type 0) : Type 0 where
  pub inner : OptTlsStream TlsStream IO

module _ {TlsStream IO : Type 0} where
  -- `Stream::new`.
  unfoldable pub new : IO → Stream TlsStream IO
  new io = record { inner = no_tls io }

  map_inner :
      {T TlsStream' : Type 0} → (IO → T) → OptTlsStream TlsStream IO → Outcome (Stream TlsStream' T)
  map_inner f (no_tls io) = value (record { inner = no_tls (f io) })
  map_inner f (tls s) = panic

  -- `Stream::map`; the TLS stream around another `IO` is another type.
  pub map_stream :
      {T TlsStream' : Type 0} → (IO → T) → Stream TlsStream IO → Outcome (Stream TlsStream' T)
  unfolding map_inner
  map_stream f s = map_inner f s.inner

  add_tls : (IO → TlsStream) → OptTlsStream TlsStream IO → Outcome (Stream TlsStream IO)
  add_tls new_tls (no_tls core) = value (record { inner = tls (new_tls core) })
  add_tls new_tls (tls s) = panic

  -- `Stream::tls`; `new_tls` is `TlsStream::new` with the domain and the configuration.
  pub with_tls :
      {Config : Type 0}
      → (IO → String → Config → TlsStream)
      → String
      → Config
      → Stream TlsStream IO
      → Outcome (Stream TlsStream IO)
  unfolding add_tls
  with_tls new_tls domain config s = add_tls (λ core. new_tls core domain config) s.inner

  -- `TlsHandshakeStream::poll_handshake`, by that of the inner stream.
  pub poll_handshake :
      (OptTlsStream TlsStream IO → Poll (Result (Unit {0}) IoError) × OptTlsStream TlsStream IO)
      → Stream TlsStream IO
      → Poll (Result (Unit {0}) IoError) × Stream TlsStream IO
  poll_handshake handshake s = let (r, inner) = handshake s.inner in (r, record { inner = inner })

  inner_info : {Info : Type 0} → (TlsStream → Info) → (IO → Info) → OptTlsStream TlsStream IO → Info
  inner_info of_tls of_io (tls s) = of_tls s
  inner_info of_tls of_io (no_tls io) = of_io io

  -- `HasConnectionInfo::info`.
  pub info : {Info : Type 0} → (TlsStream → Info) → (IO → Info) → Stream TlsStream IO → Info
  unfolding inner_info
  info of_tls of_io s = inner_info of_tls of_io s.inner

  -- `HasTlsConnectionInfo::tls_info`.
  pub tls_info : {Tls : Type 0} → (TlsStream → Option Tls) → Stream TlsStream IO → Option Tls
  unfolding inner_info
  tls_info of_tls s = inner_info of_tls (λ io. none) s.inner

  -- `PoolableStream::can_share`.
  pub can_share : (TlsStream → Bool) → Stream TlsStream IO → Bool
  unfolding inner_info
  can_share of_tls s = inner_info of_tls (λ io. false) s.inner

  on_inner :
      {A : Type 0}
      → (OptTlsStream TlsStream IO → A × OptTlsStream TlsStream IO)
      → Stream TlsStream IO
      → A × Stream TlsStream IO
  on_inner call s = let (a, inner) = call s.inner in (a, record { inner = inner })

  -- `AsyncRead for Stream` and `AsyncWrite for Stream`.
  pub stream_io : AsyncIo (OptTlsStream TlsStream IO) → AsyncIo (Stream TlsStream IO)
  unfolding on_inner
  stream_io io = record {
    poll_read = λ s n. on_inner (λ i. io.poll_read i n) s;
    poll_write = λ s bs. on_inner (λ i. io.poll_write i bs) s;
    poll_flush = on_inner io.poll_flush;
    poll_shutdown = on_inner io.poll_shutdown;
  }

-- `From<TcpStream>`, `From<DuplexStream>` and `From<UnixStream>` for `Stream`; the conversion into an
-- `OptTlsStream` is to a stream without TLS.
module _ {TlsStream T D U : Type 0} where
  pub stream_of_tcp : T → Stream TlsStream (Braid T D U)
  stream_of_tcp s = record { inner = no_tls (from_tcp s) }

  pub stream_of_duplex : D → Stream TlsStream (Braid T D U)
  stream_of_duplex s = record { inner = no_tls (from_duplex s) }

  pub stream_of_unix : U → Stream TlsStream (Braid T D U)
  stream_of_unix s = record { inner = no_tls (from_unix s) }

-- `From<OptTlsStream>` for `Stream`.
unfoldable pub from_inner :
    {TlsStream IO : Type 0} → OptTlsStream TlsStream IO → Stream TlsStream IO
from_inner inner = record { inner = inner }
