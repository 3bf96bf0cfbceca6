-- ===== src/Client/Single.antt =====
-- src/client/conn/connection.rs and src/client/conn/protocol/mod.rs: connections and handshakes for
-- HTTP/1 alone and for HTTP/2 alone. hyper's senders and handshakes are parameters.
pub mod Agrees
pub mod Builders
use hyperdriver.Base.{Bool, true, false, Option, none, some, Result, Poll, map_ok}
use hyperdriver.Http.{Http, Request, http_11}
use hyperdriver.Info.{HttpProtocol, http1, http2}
use hyperdriver.Client.Handshake
use hyperdriver.Client.Handshake.{HttpConnection}

-- chateau's `Connection` and `PoolableConnection`, with the version of `HttpConnectionInfo`; `F` is
-- the future of a response and `E` hyper's error.
pub record Connection (C Req F E : Type 0) : Type 0 where
  pub send_request : C → Req → F × C
  pub poll_ready : C → Poll (Result (Unit {0}) E) × C
  pub version : C → HttpProtocol
  pub is_open : C → Bool
  pub can_share : C → Bool
  pub reuse : C → Option C

pub record Http1Connection (Send : Type 0) : Type 0 where
  pub sender : Send

pub record Http2Connection (Send : Type 0) : Type 0 where
  pub sender : Send

-- hyper's `SendRequest`.
pub record Sender (Send Req F E : Type 0) : Type 0 where
  pub send_request : Send → Req → F × Send
  pub poll_ready : Send → Poll (Result (Unit {0}) E) × Send
  pub is_ready : Send → Bool
  pub clone : Send → Send

module _ (h : Http) {B Send F E : Type 0} (s : Sender Send (Request h B) F E) where
  -- `Http1Connection`.
  pub http1_connection : Connection (Http1Connection Send) (Request h B) F E
  http1_connection = record {
    send_request = λ c req.
        let (f, sender) = s.send_request c.sender (record req { version = http_11 }) in
        (f, record { sender = sender });
    poll_ready = λ c. let (r, sender) = s.poll_ready c.sender in (r, record { sender = sender });
    version = λ c. http1;
    is_open = λ c. s.is_ready c.sender;
    can_share = λ c. false;
    reuse = λ c. none;
  }

  -- `Http2Connection`.
  pub http2_connection : Connection (Http2Connection Send) (Request h B) F E
  http2_connection = record {
    send_request =
        λ c req. let (f, sender) = s.send_request c.sender req in (f, record { sender = sender });
    poll_ready = λ c. let (r, sender) = s.poll_ready c.sender in (r, record { sender = sender });
    version = λ c. http2;
    is_open = λ c. s.is_ready c.sender;
    can_share = λ c. true;
    reuse = λ c. some (record { sender = s.clone c.sender });
  }

-- `HttpConnection` of client/conn/protocol/auto.rs, behind the same traits.
module _ (h : Http) {B Send1 Send2 F E : Type 0} (s1 : Sender Send1 (Request h B) F E)
    (s2 : Sender Send2 (Request h B) F E) where
  pub auto_connection : Connection (HttpConnection Send1 Send2) (Request h B) F E
  auto_connection = record {
    send_request = Handshake.send_request h s1.send_request s2.send_request;
    poll_ready = Handshake.poll_ready s1.poll_ready s2.poll_ready;
    version = Handshake.version;
    is_open = Handshake.is_open s1.is_ready s2.is_ready;
    can_share = Handshake.can_share;
    reuse = Handshake.reuse s2.clone;
  }

-- `Http1Builder` and `Http2Builder`, when their handshakes are ready; the connection is driven by a
-- task of its own. `connect` is hyper's handshake.
module _ {Io Send E : Type 0} (connect : Io → Result Send E) where
  pub call_http1 : Io → Result (Http1Connection Send) E
  call_http1 io = map_ok (λ sender. record { sender = sender }) (connect io)

  pub call_http2 : Io → Result (Http2Connection Send) E
  call_http2 io = map_ok (λ sender. record { sender = sender }) (connect io)

-- `Multiplexed for Http1Builder` and `for Http2Builder`: `multiplex` and `multiplex_ready`.
pub multiplexes_http1 : {Io : Type 0} → Io → Bool × Bool
multiplexes_http1 io = (false, false)

pub multiplexes_http2 : {Io : Type 0} → Io → Bool × Bool
multiplexes_http2 io = (true, true)
