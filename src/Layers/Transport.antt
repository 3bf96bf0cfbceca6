-- ===== src/Layers/Transport.antt =====
-- src/client/conn/tls.rs and src/client/conn/dns.rs: the transports and resolvers of the client as tower
-- services, around the ones of chateau.
pub mod Keeps
use hyperdriver.Base.{Option, none, some, List, String, Result, ok, Poll, ready, map_err, map_ready}
use hyperdriver.Http.{Http, Request}
use hyperdriver.Client.Tls.{get_tls_domain}
use hyperdriver.Client.Tls.Future
use hyperdriver.Client.Tls.Future.{BraidFuture}
use hyperdriver.Layers.{Service}

-- chateau's `TlsTransport` over a transport: a service of requests with the domain for TLS, whose
-- transport can be taken out (`transport`) and called in its place (`transport_mut`).
pub record TlsService (Inner Req F E : Type 0) : Type 1 where
  pub service : Service (Req × Option String) F E
  pub transport : service.State → Inner
  pub set_transport : service.State → Inner → service.State

-- `InnerBraid` over the states of the two.
pub data Braid (Plain Tls : Type 0) : Type 0 where
  plain : Plain → Braid Plain Tls
  tls : Tls → Braid Plain Tls

module _ (h : Http) {B FP FT E X : Type 0} (p : Service (Request h B) FP E)
    (t : TlsService p.State (Request h B) FT X) (connection : E → X) where
  -- `AutoTlsTransport::poll_ready`; `connection` is chateau's `TlsConnectionError::Connection`.
  unfoldable pub auto_ready :
      Braid p.State t.service.State → Poll (Result (Unit {0}) X) × Braid p.State t.service.State
  auto_ready (plain s) =
      let (r, s') = p.poll_ready s in (map_ready (map_err connection) r, plain s')
  auto_ready (tls s) = let (r, s') = t.service.poll_ready s in (r, tls s')

  -- `AutoTlsTransport::call`, by the domain for TLS.
  unfoldable pub auto_connect :
      Braid p.State t.service.State
      → Request h B
      → Option String
      → BraidFuture FP FT × Braid p.State t.service.State
  auto_connect (plain s) req domain = let (f, s') = p.call s req in (Future.plain f, plain s')
  auto_connect (tls s) req (some domain) =
      let (f, s') = t.service.call s (req, some domain) in (Future.tls f, tls s')
  auto_connect (tls s) req none =
      let (f, s') = p.call (t.transport s) req in (Future.plain f, tls (t.set_transport s s'))

  auto_clone : Braid p.State t.service.State → Braid p.State t.service.State
  auto_clone (plain s) = plain (p.clone s)
  auto_clone (tls s) = tls (t.service.clone s)

  -- `AutoTlsTransport`.
  unfoldable pub auto_tls : Service (Request h B) (BraidFuture FP FT) X
  unfolding auto_clone
  auto_tls = record {
    State = Braid p.State t.service.State;
    poll_ready = auto_ready;
    call = λ s req. auto_connect s req (get_tls_domain h req);
    clone = auto_clone;
  }

  -- `HttpTlsTransport`.
  unfoldable pub always_tls : Service (Request h B) (BraidFuture FP FT) X
  always_tls = record {
    State = t.service.State;
    poll_ready = t.service.poll_ready;
    call =
        λ s req. let (f, s') = t.service.call s (req, get_tls_domain h req) in (Future.tls f, s');
    clone = t.service.clone;
  }

-- `FirstAddrFuture`.
pub record FirstAddrFuture (F : Type 0) : Type 0 where
  pub inner : F

-- `FirstAddrResolver`.
unfoldable pub first_addr_layer :
    {Req F E : Type 0} → Service Req F E → Service Req (FirstAddrFuture F) E
first_addr_layer s = record {
  State = s.State;
  poll_ready = s.poll_ready;
  call = λ c req. let (f, c') = s.call c req in (record { inner = f }, c');
  clone = s.clone;
}
