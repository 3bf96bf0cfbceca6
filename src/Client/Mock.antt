-- ===== src/Client/Mock.antt =====
-- src/client/conn/stream/mock.rs and src/client/conn/protocol/mock.rs: streams and senders for tests.
-- Their flags are shared by their clones, so they stand in a store; the counter of identifiers is the
-- static `IDENT`, 16 bits wide.
pub mod Shares
use hyperdriver.Base.{
  ℕ, ◌+◌, ◌%◌, ◌==◌, Bool, true, false, if◌then◌else◌, ◌&&◌, Option, some, Result, ok, Poll, ready,
}
use hyperdriver.Io.{IoError}
use hyperdriver.Stream.{AsyncIo}

pub record Store : Type 0 where
  pub ident : ℕ
  pub flags : ℕ → Bool
  pub next : ℕ

-- `StreamID::new`: `fetch_add` wraps around.
pub new_id : Store → ℕ × Store
new_id w = (w.ident, record w { ident = (w.ident + 1) % 65536 })

-- `Arc::new(AtomicBool::new(true))`.
new_flag : Store → ℕ × Store
new_flag w =
    (w.next, record w { flags = λ c. if c == w.next then true else w.flags c; next = w.next + 1 })

-- `MockStream`; `open` is the place of its flag.
pub record MockStream : Type 0 where
  pub open_flag : ℕ
  pub reusable : Bool
  pub id : ℕ

-- `MockStream::new`, and `single` and `reusable`.
pub new_stream : Bool → Store → MockStream × Store
unfolding new_flag new_id
new_stream reuse w =
    let (flag, w') = new_flag w in
    let (n, w'') = new_id w' in (record { open_flag = flag; reusable = reuse; id = n }, w'')

-- `MockStream::close` and `is_open`.
pub close_stream : MockStream → Store → Store
close_stream s w = record w { flags = λ c. if c == s.open_flag then false else w.flags c }

pub stream_is_open : MockStream → Store → Bool
stream_is_open s w = w.flags s.open_flag

-- `MockSender`.
pub record MockSender : Type 0 where
  pub id : ℕ
  pub stream : MockStream

-- `MockSender::single` and `reusable`.
pub new_sender : Bool → Store → MockSender × Store
unfolding new_id new_stream
new_sender reuse w =
    let (n, w') = new_id w in
    let (s, w'') = new_stream reuse w' in (record { id = n; stream = s }, w'')

-- `MockSender::close`, `is_open`, `can_share` and `reuse`; a clone has the same flag.
pub close : MockSender → Store → Store
unfolding close_stream
close s w = close_stream s.stream w

pub is_open : MockSender → Store → Bool
unfolding stream_is_open
is_open s w = stream_is_open s.stream w

pub can_share : MockSender → Bool
can_share s = s.stream.reusable

pub reuse : MockSender → Option MockSender
reuse s = some s

-- `MockSender::send_request`: the response has the body of the request.
pub send_request : {Body E : Type 0} → MockSender → Body → Result Body E
send_request s body = ok body

-- `MockProtocol`, with `multiplex_ready` and `call`.
pub record MockProtocol : Type 0 where
  pub multiplex : Bool

pub multiplex_ready : MockProtocol → MockStream → Bool
multiplex_ready p s = p.multiplex && s.reusable

pub connect : MockProtocol → MockStream → Store → MockSender × Store
unfolding new_id
connect p s w = let (n, w') = new_id w in (record { id = n; stream = s }, w')

-- `MockTls`: a stream with TLS information and a handshake that is done at once.
pub record MockTls (IO Info : Type 0) : Type 0 where
  pub inner : IO
  pub info : Info

module _ {IO Info : Type 0} where
  pub poll_handshake : MockTls IO Info → Poll (Result (Unit {0}) IoError) × MockTls IO Info
  poll_handshake s = (ready (ok tt), s)

  pub tls_info : MockTls IO Info → Option Info
  tls_info s = some s.info

  -- `AsyncRead for MockTls` and `AsyncWrite for MockTls`.
  pub mock_tls_io : AsyncIo IO → AsyncIo (MockTls IO Info)
  mock_tls_io io = record {
    poll_read = λ s n. let (r, inner) = io.poll_read s.inner n in (r, record s { inner = inner });
    poll_write =
        λ s bs. let (r, inner) = io.poll_write s.inner bs in (r, record s { inner = inner });
    poll_flush = λ s. let (r, inner) = io.poll_flush s.inner in (r, record s { inner = inner });
    poll_shutdown =
        λ s. let (r, inner) = io.poll_shutdown s.inner in (r, record s { inner = inner });
  }
