-- ===== src/Layers/Transport/Keeps.antt =====
-- The transports keep tower's contract.
use hyperdriver.Base.{◌≡◌, refl, Option, none, some, String, Result, ok, Poll, ready}
use hyperdriver.Http.{Http, Request}
use hyperdriver.Client.Tls
use hyperdriver.Client.Tls.{get_tls_domain, TlsTransport, AutoTlsTransport, connect_by}
use hyperdriver.Client.Tls.Future
use hyperdriver.Client.Tls.Future.{BraidFuture, start}
use hyperdriver.Layers.{Service}
use hyperdriver.Layers.Contract.{KeepsContract, ready-map_err}
use hyperdriver.Layers.Transport.{
  TlsService, Braid, plain, tls, auto_ready, auto_connect, auto_tls, always_tls,
}

-- The inner future, whichever it is, is legal.
abbrev pub OfBraid : {FP FT : Type 0} → (FP → Type 0) → (FT → Type 0) → BraidFuture FP FT → Type 0
OfBraid LegalP LegalT (Future.plain f) = LegalP f
OfBraid LegalP LegalT (Future.tls f) = LegalT f

-- A state that `poll_ready` has just left ready.
abbrev pub WasReady : {Req F E : Type 0} (s : Service Req F E) → s.State → Type 0
WasReady s c =
    (before : s.State) × ((s.poll_ready before).0 ≡ ready (ok tt)) × (c ≡ (s.poll_ready before).1)

module _ (h : Http) {B FP FT E X : Type 0} (p : Service (Request h B) FP E)
    (t : TlsService p.State (Request h B) FT X) (connection : E → X) (LegalP : FP → Type 0)
    (LegalT : FT → Type 0) (keeps_p : KeepsContract p LegalP)
    (keeps_t : KeepsContract t.service LegalT) where
  -- What chateau's transport is relied on for: it is ready when its own transport is.
  abbrev pub PollsTransport : Type 0
  PollsTransport =
      (s : t.service.State)
      → (t.service.poll_ready s).0 ≡ ready (ok tt)
      → WasReady p (t.transport (t.service.poll_ready s).1)

  connect_legal :
      PollsTransport
      → (s : Braid p.State t.service.State) (req : Request h B) (domain : Option String)
      → (auto_ready h p t connection s).0 ≡ ready (ok tt)
      → OfBraid LegalP LegalT
          (auto_connect h p t connection (auto_ready h p t connection s).1 req domain).0
  unfolding auto_ready auto_connect
  connect_legal polls (plain s) req domain r = keeps_p s req (ready-map_err connection _ r)
  connect_legal polls (tls s) req (some domain) r = keeps_t s (req, some domain) r
  connect_legal polls (tls s) req none r =
      let (before, was, same) = polls s r in rw same (keeps_p before req was)

  -- The client's transports keep tower's contract, if chateau's transport with TLS is ready only when
  -- its own transport is: whether a connection is made with TLS or without, the service that makes it
  -- was left ready by its own `poll_ready`. That holds too where a transport with TLS connects
  -- without it and passes over chateau's transport to the one inside, which was polled by it.
  pub auto_tls-KeepsContract :
      PollsTransport
      → KeepsContract (auto_tls h p t connection) (OfBraid LegalP LegalT)
        × KeepsContract (always_tls h p t connection) (OfBraid LegalP LegalT)
  unfolding auto_tls always_tls
  auto_tls-KeepsContract polls = (
    λ s req r. connect_legal polls s req (get_tls_domain h req) r,
    λ s req r. keeps_t s (req, get_tls_domain h req) r,
  )

-- `AutoTlsTransport` with its whole state, as the service that polls and calls it.
module _ (h : Http) {B FP FT E X Config : Type 0} (p : Service (Request h B) FP E)
    (ready_tls : TlsTransport p.State Config
      → Poll (Result (Unit {0}) X) × TlsTransport p.State Config)
    (call_tls : TlsTransport p.State Config
      → Request h B × Option String
      → FT × TlsTransport p.State Config)
    (clone_tls : TlsTransport p.State Config → TlsTransport p.State Config)
    (connection : E → X) where
  abbrev whole : TlsService p.State (Request h B) FT X
  whole = record {
    service = record {
      State = TlsTransport p.State Config;
      poll_ready = ready_tls;
      call = call_tls;
      clone = clone_tls;
    };
    transport = λ s. s.transport;
    set_transport = λ s inner. record s { transport = inner };
  }

  abbrev state_of : AutoTlsTransport p.State Config → Braid p.State (TlsTransport p.State Config)
  state_of (Tls.plain s) = plain s
  state_of (Tls.tls s) = tls s

  by_domain :
      (a : AutoTlsTransport p.State Config) (req : Request h B) (domain : Option String)
      → (auto_connect h p whole connection (state_of a) req domain).0
        ≡ start (λ s r. (p.call s r).0) (λ s r d. (call_tls s (r, d)).0) (connect_by a domain) req
  unfolding auto_connect connect_by start
  by_domain (Tls.plain s) req domain = refl
  by_domain (Tls.tls s) req (some domain) = refl
  by_domain (Tls.tls s) req none = refl

  -- The service starts the same connection as `AutoTlsTransport::call` on what the transport holds.
  auto_connect-start :
      (a : AutoTlsTransport p.State Config) (req : Request h B)
      → (auto_connect h p whole connection (state_of a) req (get_tls_domain h req)).0
        ≡ start (λ s r. (p.call s r).0) (λ s r d. (call_tls s (r, d)).0) (Tls.call h a req) req
  unfolding Tls.call
  auto_connect-start a req = by_domain a req (get_tls_domain h req)
