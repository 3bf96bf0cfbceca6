-- ===== src/Client/Handshake.antt =====
-- src/client/conn/protocol/auto.rs and src/client/conn/connection.rs: the handshake that picks the
-- protocol by ALPN, and the connections for HTTP/1 and HTTP/2. hyper's senders are parameters.
pub mod Picks
pub mod Builds
use hyperdriver.Base.{
  Bool, true, false, if◌then◌else◌, Option, none, some, and_then, String, str_eq, Result, ok, err,
  Poll, map_err, map_ok,
}
use hyperdriver.Http.{Http, Request, Version, http_11, http_2}
use hyperdriver.Info
use hyperdriver.Info.{HttpProtocol, http1, http2, http3}

-- `HttpConnection`, by its `InnerConnection`.
pub data HttpConnection (Send1 Send2 : Type 0) : Type 0 where
  h1 : Send1 → HttpConnection Send1 Send2
  h2 : Send2 → HttpConnection Send1 Send2

-- `AutoHttpProtocolError`.
pub data AutoHttpProtocolError (E : Type 0) : Type 0 where
  http1_error : E → AutoHttpProtocolError E
  http2_error : E → AutoHttpProtocolError E
  unsupported_protocol : HttpProtocol → AutoHttpProtocolError E

module _ {Send1 Send2 : Type 0} where
  -- `HttpConnection::version`.
  unfoldable pub version : HttpConnection Send1 Send2 → HttpProtocol
  version (h1 conn) = http1
  version (h2 conn) = http2

  -- `can_share`.
  unfoldable pub can_share : HttpConnection Send1 Send2 → Bool
  can_share (h1 conn) = false
  can_share (h2 conn) = true

  -- `reuse`; hyper's sender is cloned.
  unfoldable pub reuse :
      (Send2 → Send2) → HttpConnection Send1 Send2 → Option (HttpConnection Send1 Send2)
  reuse clone (h1 conn) = none
  reuse clone (h2 conn) = some (h2 (clone conn))

  -- `is_open`.
  unfoldable pub is_open : (Send1 → Bool) → (Send2 → Bool) → HttpConnection Send1 Send2 → Bool
  is_open ready1 ready2 (h1 conn) = ready1 conn
  is_open ready1 ready2 (h2 conn) = ready2 conn

  -- `poll_ready`.
  unfoldable pub poll_ready {ℓ} :
      {A : Type ℓ}
      → (Send1 → A × Send1)
      → (Send2 → A × Send2)
      → HttpConnection Send1 Send2
      → A × HttpConnection Send1 Send2
  poll_ready poll1 poll2 (h1 conn) = let (r, conn') = poll1 conn in (r, h1 conn')
  poll_ready poll1 poll2 (h2 conn) = let (r, conn') = poll2 conn in (r, h2 conn')

  -- `send_request`, with the version that hyper is to write.
  unfoldable pub send_request :
      (h : Http) {B F : Type 0}
      → (Send1 → Request h B → F × Send1)
      → (Send2 → Request h B → F × Send2)
      → HttpConnection Send1 Send2
      → Request h B
      → F × HttpConnection Send1 Send2
  send_request h send1 send2 (h1 conn) req =
      let (f, conn') = send1 conn (record req { version = http_11 }) in (f, h1 conn')
  send_request h send1 send2 (h2 conn) req =
      let (f, conn') = send2 conn (record req { version = http_2 }) in (f, h2 conn')

-- `tls.alpn.as_deref() == Some("h2")` on what `tls_info()` says of ALPN.
unfoldable pub alpn_is_h2 : Option String → Bool
alpn_is_h2 none = false
alpn_is_h2 (some alpn) = str_eq alpn "h2"

-- `tls_info` gives the ALPN of a stream with TLS; `connect1` and `connect2` are hyper's handshakes.
module _ {Io Send1 Send2 E : Type 0} (tls_info : Io → Option (Option String))
    (connect1 : Io → Result Send1 E) (connect2 : Io → Result Send2 E) where
  unfoldable pub has_h2 : Io → Bool
  unfolding alpn_is_h2
  has_h2 io = alpn_is_h2 (and_then (λ alpn. alpn) (tls_info io))

  -- `multiplex_ready`.
  pub multiplex_ready : Io → Bool
  unfolding has_h2
  multiplex_ready io = has_h2 io

  -- `handshake_h1` and `handshake_h2`, when they are ready.
  unfoldable pub handshake_h1 : Io → Result (HttpConnection Send1 Send2) E
  handshake_h1 io = map_ok h1 (connect1 io)

  unfoldable pub handshake_h2 : Io → Result (HttpConnection Send1 Send2) E
  handshake_h2 io = map_ok h2 (connect2 io)

  -- `handshake`, when it is ready.
  unfoldable pub handshake :
      Io → HttpProtocol → Result (HttpConnection Send1 Send2) (AutoHttpProtocolError E)
  unfolding handshake_h1 handshake_h2 has_h2
  handshake io http2 = map_err http2_error (handshake_h2 io)
  handshake io http1 =
      if has_h2 io
      then map_err http2_error (handshake_h2 io)
      else map_err http1_error (handshake_h1 io)
  handshake io http3 = err (unsupported_protocol http3)

-- `AlpnHttpConnectionBuilder`, over hyper's builders.
pub record AlpnHttpConnectionBuilder (Builder1 Builder2 : Type 0) : Type 0 where
  pub http1 : Builder1
  pub http2 : Builder2
  pub initial_protocol : HttpProtocol

-- `Default for AlpnHttpConnectionBuilder`; hyper's builders are its own defaults.
unfoldable pub default_builder :
    {Builder1 Builder2 : Type 0} → Builder1 → Builder2 → AlpnHttpConnectionBuilder Builder1 Builder2
default_builder new1 new2 = record { http1 = new1; http2 = new2; initial_protocol = http1 }

-- `Clone for AlpnHttpConnectionBuilder`.
unfoldable pub clone_builder :
    {Builder1 Builder2 : Type 0}
    → (Builder1 → Builder1)
    → (Builder2 → Builder2)
    → AlpnHttpConnectionBuilder Builder1 Builder2
    → AlpnHttpConnectionBuilder Builder1 Builder2
clone_builder clone1 clone2 b = record b { http1 = clone1 b.http1; http2 = clone2 b.http2 }

module _ {Builder1 Builder2 Io Send1 Send2 E : Type 0} (tls_info : Io → Option (Option String))
    (connect1 : Builder1 → Io → Result Send1 E) (connect2 : Builder2 → Io → Result Send2 E)
    (clone1 : Builder1 → Builder1) (clone2 : Builder2 → Builder2) where
  -- `tower::Service::call`, with its future when it is ready: the builder itself goes with the future,
  -- and a clone of it stays.
  unfoldable pub call :
      AlpnHttpConnectionBuilder Builder1 Builder2
      → Io
      → Result (HttpConnection Send1 Send2) (AutoHttpProtocolError E)
        × AlpnHttpConnectionBuilder Builder1 Builder2
  unfolding clone_builder
  call b io = (
    handshake tls_info (connect1 b.http1) (connect2 b.http2) io b.initial_protocol,
    clone_builder clone1 clone2 b,
  )
