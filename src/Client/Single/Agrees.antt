-- ===== src/Client/Single/Agrees.antt =====
-- The connection with ALPN agrees with the connections for one protocol.
use hyperdriver.Base.{◌≡◌, refl, map_some}
use hyperdriver.Http.{Http, Request, http_2}
use hyperdriver.Client.Handshake
use hyperdriver.Client.Handshake.{HttpConnection, h1, h2}
use hyperdriver.Client.Single.{
  Connection, Sender, http1_connection, http2_connection, auto_connection,
}

-- `view c` does what `c` does, on a request changed by `fit`.
pub record Agrees {C C' Req F E : Type 0} (c : Connection C Req F E) (c' : Connection C' Req F E)
    (fit : Req → Req) (view : C → C') : Type 0 where
  pub sends :
      (s : C) (req : Req)
      → c'.send_request (view s) req
        ≡ ((c.send_request s (fit req)).0, view (c.send_request s (fit req)).1)
  pub readies : (s : C) → c'.poll_ready (view s) ≡ ((c.poll_ready s).0, view (c.poll_ready s).1)
  pub versions : (s : C) → c'.version (view s) ≡ c.version s
  pub opens : (s : C) → c'.is_open (view s) ≡ c.is_open s
  pub shares : (s : C) → c'.can_share (view s) ≡ c.can_share s
  pub reuses : (s : C) → c'.reuse (view s) ≡ map_some view (c.reuse s)

module _ (h : Http) {B Send1 Send2 F E : Type 0} (s1 : Sender Send1 (Request h B) F E)
    (s2 : Sender Send2 (Request h B) F E) where
  -- A connection that ALPN gave agrees with the connection for its protocol alone in every operation:
  -- sending, readiness, version, whether it is open, shared or reused. But on HTTP/2 it sends a
  -- request with version HTTP/2, whatever the request's version was, where the connection for HTTP/2
  -- alone sends it with the version that it came with.
  pub auto_connection-Agrees :
      Agrees (http1_connection h s1) (auto_connection h s1 s2) (λ req. req) (λ c. h1 c.sender)
      × Agrees
          (http2_connection h s2)
          (auto_connection h s1 s2)
          (λ req. record req { version = http_2 })
          (λ c. h2 c.sender)
  unfolding auto_connection http1_connection http2_connection Handshake.version Handshake.can_share
      Handshake.is_open Handshake.reuse Handshake.poll_ready Handshake.send_request
  auto_connection-Agrees = (
    record {
      sends = λ s req. refl;
      readies = λ s. refl;
      versions = λ s. refl;
      opens = λ s. refl;
      shares = λ s. refl;
      reuses = λ s. refl;
    },
    record {
      sends = λ s req. refl;
      readies = λ s. refl;
      versions = λ s. refl;
      opens = λ s. refl;
      shares = λ s. refl;
      reuses = λ s. refl;
    },
  )
