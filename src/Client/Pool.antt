-- ===== src/Client/Pool.antt =====
-- The pool of the client: chateau's pool gives a request a connection that it holds under the key of
-- the request. What it may hold is stated as a relation: a connection that the transport and the
-- protocol made for a request, under the key of that request, with what became of it since.
pub mod Alike
pub mod Mixes
pub mod Sends
use hyperdriver.Base.{ℕ, ◌≡◌, Option, some, String, Result, ok, Poll, ready}
use hyperdriver.Http.{Http, Request}
use hyperdriver.Client.Key.{UriKey, SameKey, build_key}
use hyperdriver.Client.Stream.{Stream}
use hyperdriver.Client.Tls
use hyperdriver.Client.Tls.{TlsTransport, AutoTlsTransport, Connect}
use hyperdriver.Client.Tls.Future.{start, drive}
use hyperdriver.Client.Handshake
use hyperdriver.Client.Handshake.{
  HttpConnection, AlpnHttpConnectionBuilder, reuse, send_request, poll_ready,
}

-- What the client is built of: chateau's two ways to connect with the polls of their futures, the
-- handshakes of hyper, and hyper's senders.
pub record Parts (h : Http) (B T Config : Type 0) : Type 1 where
  pub PlainFuture : Type 0
  pub TlsFuture : Type 0
  pub Io : Type 0
  pub TlsStream : Type 0
  pub ConnectError : Type 0
  pub Error : Type 0
  pub connect : T → Request h B → PlainFuture
  pub connect_tls : TlsTransport T Config → Request h B → Option String → TlsFuture
  pub poll_plain : PlainFuture → Poll (Result Io ConnectError) × PlainFuture
  pub poll_tls : TlsFuture → Poll (Result TlsStream Error) × TlsFuture
  pub connection_error : ConnectError → Error
  pub tls_info : Stream TlsStream Io → Option (Option String)
  pub Builder1 : Type 0
  pub Builder2 : Type 0
  pub Send1 : Type 0
  pub Send2 : Type 0
  pub HyperError : Type 0
  pub connect1 : Builder1 → Stream TlsStream Io → Result Send1 HyperError
  pub connect2 : Builder2 → Stream TlsStream Io → Result Send2 HyperError
  pub clone1 : Builder1 → Builder1
  pub clone2 : Builder2 → Builder2
  pub clone_sender : Send2 → Send2
  pub Response : Type 0
  pub send1 : Send1 → Request h B → Response × Send1
  pub send2 : Send2 → Request h B → Response × Send2
  pub Ready : Type 0
  pub ready1 : Send1 → Ready × Send1
  pub ready2 : Send2 → Ready × Send2

module _ (h : Http) {B T Config : Type 0} (p : Parts h B T Config)
    (transport : AutoTlsTransport T Config)
    (builder : AlpnHttpConnectionBuilder p.Builder1 p.Builder2) where
  abbrev pub Streams : Type 0
  Streams = Stream p.TlsStream p.Io

  abbrev pub Connections : Type 0
  Connections = HttpConnection p.Send1 p.Send2

  -- A stream that the transport connects for a request, in at most `n + 1` polls.
  abbrev pub Connected : ℕ → Request h B → Streams → Type 0
  Connected n req s =
      drive p.poll_plain p.poll_tls p.connection_error n
        (start p.connect p.connect_tls (Tls.call h transport req) req)
      ≡ ready (ok s)

  -- A connection that the protocol makes of a stream.
  abbrev pub Established : Streams → Connections → Type 0
  Established s c =
      (Handshake.call p.tls_info p.connect1 p.connect2 p.clone1 p.clone2 builder s).0 ≡ ok c

  -- The pool holds the connection under the key; `d` is how its stream was connected, and all
  -- connections in the pool were made for requests of which `P` holds.
  pub data Pooled (P : Request h B → Type 0) (k : UriKey) (d : Connect T Config) (s : Streams)
      : Connections → Type 0 where
    made :
        (req : Request h B) (n : ℕ) {c : Connections}
        → P req
        → SameKey (build_key h req) k
        → Tls.call h transport req ≡ d
        → Connected n req s
        → Established s c
        → Pooled P k d s c
    shared :
        {c c' : Connections}
        → Pooled P k d s c
        → reuse p.clone_sender c ≡ some c'
        → Pooled P k d s c'
    polled :
        {c : Connections} → Pooled P k d s c → Pooled P k d s (poll_ready p.ready1 p.ready2 c).1
    sent :
        {c : Connections} (req : Request h B)
        → Pooled P k d s c
        → Pooled P k d s (send_request h p.send1 p.send2 c req).1
