-- ===== src/Client/Tls/Future.antt =====
-- src/client/conn/tls.rs: the futures of the transports, and the transport that always uses TLS.
-- chateau's transports are parameters: `connect` connects by the transport alone, `connect_tls` with TLS
-- to a domain, and each gives a future.
use hyperdriver.Base.{
  ℕ, zero, suc, Option, some, String, Result, Poll, ready, pending, map_err, map_ok, map_ready,
}
use hyperdriver.Http.{Http, Request}
use hyperdriver.Client.Stream.{Stream, new, from_inner}
use hyperdriver.Stream.{OptTlsStream}
use hyperdriver.Client.Tls.{TlsTransport, get_tls_domain, Connect, from_plain, from_tls}

-- `InnerBraidFuture`, which `TransportBraidFuture` holds.
pub data BraidFuture (PlainFuture TlsFuture : Type 0) : Type 0 where
  plain : PlainFuture → BraidFuture PlainFuture TlsFuture
  tls : TlsFuture → BraidFuture PlainFuture TlsFuture

module _ {Req T Config FP FT : Type 0} (connect : T → Req → FP)
    (connect_tls : TlsTransport T Config → Req → Option String → FT) where
  -- The future of `AutoTlsTransport::call`, by how it connects.
  unfoldable pub start : Connect T Config → Req → BraidFuture FP FT
  start (from_plain t) req = plain (connect t req)
  start (from_tls t domain) req = tls (connect_tls t req (some domain))

-- `HttpTlsTransport::call`.
unfoldable pub call_https :
    (h : Http) {B T Config FP FT : Type 0}
    → (TlsTransport T Config → Request h B → Option String → FT)
    → TlsTransport T Config
    → Request h B
    → BraidFuture FP FT
call_https h connect_tls t req = tls (connect_tls t req (get_tls_domain h req))

-- `connection` is chateau's `TlsConnectionError::Connection`.
module _ {FP FT IO TlsStream E X : Type 0} (poll_plain : FP → Poll (Result IO E) × FP)
    (poll_tls : FT → Poll (Result TlsStream X) × FT) (connection : E → X) where
  -- `TransportBraidFuture::poll`.
  unfoldable pub poll :
      BraidFuture FP FT → Poll (Result (Stream TlsStream IO) X) × BraidFuture FP FT
  poll (plain f) =
      let (r, f') = poll_plain f in (map_ready (λ r. map_err connection (map_ok new r)) r, plain f')
  poll (tls f) =
      let (r, f') = poll_tls f in
      (map_ready (map_ok (λ s. from_inner (OptTlsStream.tls s))) r, tls f')

  unfoldable pub again :
      (BraidFuture FP FT → Poll (Result (Stream TlsStream IO) X))
      → Poll (Result (Stream TlsStream IO) X) × BraidFuture FP FT
      → Poll (Result (Stream TlsStream IO) X)
  again more (ready r, f) = ready r
  again more (pending, f) = more f

  -- A task polls the future, and after `Pending` at most `n` more times.
  unfoldable pub drive : ℕ → BraidFuture FP FT → Poll (Result (Stream TlsStream IO) X)
  unfolding again poll
  drive zero f = (poll f).0
  drive (suc n) f = again (drive n) (poll f)
