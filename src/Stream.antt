-- ===== src/Stream.antt =====
-- src/stream/core.rs: the stream that is one of three kinds, and the reads and writes that it passes
-- on. tokio's traits AsyncRead and AsyncWrite are the interface `AsyncIo`; the streams of chateau are
-- parameters with what they implement of it. `OptTlsStream` is chateau's type, with its constructors.
pub mod Refines
use hyperdriver.Base.{ℕ, List, [], ◌∷◌, Bool, Result, Poll}
use hyperdriver.Io.{ReadResult, IoError}

-- `AsyncRead` and `AsyncWrite`: a read into a buffer with room for so many bytes answers those put
-- there, and a write answers how many bytes it took.
pub record AsyncIo (S : Type 0) : Type 0 where
  pub poll_read : S → ℕ → ReadResult × S
  pub poll_write : S → List ℕ → Poll (Result ℕ IoError) × S
  pub poll_flush : S → Poll (Result (Unit {0}) IoError) × S
  pub poll_shutdown : S → Poll (Result (Unit {0}) IoError) × S

-- `BraidCore`, which `Braid` holds.
pub data Braid (TcpStream DuplexStream UnixStream : Type 0) : Type 0 where
  tcp : TcpStream → Braid TcpStream DuplexStream UnixStream
  duplex : DuplexStream → Braid TcpStream DuplexStream UnixStream
  unix : UnixStream → Braid TcpStream DuplexStream UnixStream

-- chateau's `OptTlsStream`.
pub data OptTlsStream (TlsStream IO : Type 0) : Type 0 where
  tls : TlsStream → OptTlsStream TlsStream IO
  no_tls : IO → OptTlsStream TlsStream IO

module _ {T D U : Type 0} where
  -- `dispatch_core!` on a method that changes the stream.
  dispatch : {A : Type 0} → (T → A × T) → (D → A × D) → (U → A × U) → Braid T D U → A × Braid T D U
  dispatch on_tcp on_duplex on_unix (tcp s) = let (a, s') = on_tcp s in (a, tcp s')
  dispatch on_tcp on_duplex on_unix (duplex s) = let (a, s') = on_duplex s in (a, duplex s')
  dispatch on_tcp on_duplex on_unix (unix s) = let (a, s') = on_unix s in (a, unix s')

  -- `HasConnectionInfo::info`; each stream's information comes with its address as a `BraidAddr`.
  pub info : {Info : Type 0} → (T → Info) → (D → Info) → (U → Info) → Braid T D U → Info
  info tcp_info duplex_info unix_info (tcp s) = tcp_info s
  info tcp_info duplex_info unix_info (duplex s) = duplex_info s
  info tcp_info duplex_info unix_info (unix s) = unix_info s

  -- `PoolableStream::can_share`.
  pub can_share : (T → Bool) → (D → Bool) → (U → Bool) → Braid T D U → Bool
  can_share tcp_shares duplex_shares unix_shares (tcp s) = tcp_shares s
  can_share tcp_shares duplex_shares unix_shares (duplex s) = duplex_shares s
  can_share tcp_shares duplex_shares unix_shares (unix s) = unix_shares s

  -- `AsyncRead for Braid` and `AsyncWrite for Braid`.
  pub braid_io : AsyncIo T → AsyncIo D → AsyncIo U → AsyncIo (Braid T D U)
  unfolding dispatch
  braid_io t d u = record {
    poll_read =
        λ s n. dispatch (λ s. t.poll_read s n) (λ s. d.poll_read s n) (λ s. u.poll_read s n) s;
    poll_write = λ s bs.
        dispatch (λ s. t.poll_write s bs) (λ s. d.poll_write s bs) (λ s. u.poll_write s bs) s;
    poll_flush = dispatch t.poll_flush d.poll_flush u.poll_flush;
    poll_shutdown = dispatch t.poll_shutdown d.poll_shutdown u.poll_shutdown;
  }

  -- `From<TcpStream>`, `From<DuplexStream>` and `From<UnixStream>` for `Braid`.
  unfoldable pub from_tcp : T → Braid T D U
  from_tcp s = tcp s

  unfoldable pub from_duplex : D → Braid T D U
  from_duplex s = duplex s

  unfoldable pub from_unix : U → Braid T D U
  from_unix s = unix s
