-- ===== src/Layers/Connection.antt =====
-- src/server/conn/info.rs, src/server/conn/tls/sni.rs and src/service/incoming.rs: the services around
-- the one that answers the requests of a connection.
use hyperdriver.Base.{Option, none, some, map_err, map_ready}
use hyperdriver.Http.{Http, Request}
use hyperdriver.Service.Preprocess.{call_incoming}
use hyperdriver.Server.ConnInfo
use hyperdriver.Server.ConnInfo.{
  Extended, ConnectionWithInfo, ConnectionWithTlsInfo, MakeInfoFuture, MakeTlsInfoFuture,
  insert_info, insert_tls,
}
use hyperdriver.Server.Sni.{
  Authorities, TlsConnectionInfo, ValidateSniError, SniMiddlewareError, inner, handle,
}
use hyperdriver.Layers.{Service}

-- `ConnectionWithInfo` of server/conn/info.rs. The service that is called is the one that was polled;
-- its clone is kept.
unfoldable pub info_layer :
    {Req A T F E : Type 0} → Service (Extended Req A T) F E → Service (Extended Req A T) F E
info_layer {A = A} s = record {
  State = ConnectionWithInfo s.State A;
  poll_ready = λ c. let (r, s') = s.poll_ready c.inner in (r, record c { inner = s' });
  call = ConnInfo.call s.clone s.call;
  clone = λ c. record c { inner = s.clone c.inner };
}

-- `ConnectionWithTlsInfo`; `received` is what `rx.recv()` gives in the end.
module _ {Req A T Rx F E : Type 0} (received : Rx → Option T) where
  -- `ConnectionWithTlsInfo::call`, with its future at the point where it calls the inner service.
  unfoldable pub call_with_tls :
      (s : Service (Extended Req A T) F E)
      → ConnectionWithTlsInfo s.State Rx
      → Extended Req A T
      → F × ConnectionWithTlsInfo s.State Rx
  call_with_tls s c req =
      let (f, _) = s.call c.inner (insert_tls (received c.rx) req) in
      (f, record { inner = s.clone c.inner; rx = c.rx })

  unfoldable pub tls_info_layer : Service (Extended Req A T) F E → Service (Extended Req A T) F E
  unfolding call_with_tls
  tls_info_layer s = record {
    State = ConnectionWithTlsInfo s.State Rx;
    poll_ready = λ c. let (r, s') = s.poll_ready c.inner in (r, record c { inner = s' });
    call = call_with_tls s;
    clone = λ c. record c { inner = s.clone c.inner };
  }

-- `MakeServiceConnectionInfoService`: what is known of the stream goes with the future of the inner
-- make-service. `info_of` is `stream.info()`.
module _ {Io A F E : Type 0} (info_of : Io → A) where
  unfoldable pub make_call : (s : Service Io F E) → s.State → Io → MakeInfoFuture F A × s.State
  make_call s make stream =
      let (f, _) = s.call make stream in
      (record { future = f; info = some (info_of stream) }, s.clone make)

  unfoldable pub make_info_layer : Service Io F E → Service Io (MakeInfoFuture F A) E
  unfolding make_call
  make_info_layer s = record {
    State = s.State;
    poll_ready = s.poll_ready;
    call = make_call s;
    clone = s.clone;
  }

-- `MakeServiceTlsConnectionInfoService`; `recv` is `stream.recv()`.
module _ {Io Rx F E : Type 0} (recv : Io → Rx) where
  unfoldable pub make_tls_call :
      (s : Service Io F E) → s.State → Io → MakeTlsInfoFuture F Rx × s.State
  make_tls_call s make stream =
      let (f, _) = s.call make stream in
      (record { future = f; rx = some (recv stream) }, s.clone make)

  unfoldable pub make_tls_info_layer : Service Io F E → Service Io (MakeTlsInfoFuture F Rx) E
  unfolding make_tls_call
  make_tls_info_layer s = record {
    State = s.State;
    poll_ready = s.poll_ready;
    call = make_tls_call s;
    clone = s.clone;
  }

-- The future of `ValidateSNIService`: `Either` of an error that is there, and the inner future.
pub data SniFuture (F : Type 0) : Type 0 where
  refused : ValidateSniError → SniFuture F
  passed : F → SniFuture F

module _ (h : Http) (a : Authorities) {B A F : Type 0} where
  unfoldable pub sni_answer :
      {S : Type 0}
      → (S → Extended (Request h B) A TlsConnectionInfo → F × S)
      → S
      → Extended (Request h B) A TlsConnectionInfo
      → Option ValidateSniError × Option TlsConnectionInfo
      → SniFuture F × S
  sni_answer call_inner s req (some error, tls) = (refused error, s)
  sni_answer call_inner s req (none, tls) =
      let (f, s') = call_inner s (record req { tls = tls }) in (passed f, s')

  -- `ValidateSNIService`.
  unfoldable pub sni_layer :
      {E : Type 0}
      → Service (Extended (Request h B) A TlsConnectionInfo) F E
      → Service (Extended (Request h B) A TlsConnectionInfo) (SniFuture F) (SniMiddlewareError E)
  unfolding sni_answer
  sni_layer s = record {
    State = s.State;
    poll_ready = λ c. let (r, c') = s.poll_ready c in (map_ready (map_err inner) r, c');
    call = λ c req. sni_answer s.call c req (handle h a req.request req.tls);
    clone = s.clone;
  }

-- `IncomingRequestService` of service/incoming.rs.
pub incoming_layer :
    (h : Http) {BIn Incoming F E : Type 0}
    → (Incoming → BIn)
    → Service (Request h BIn) F E
    → Service (Request h Incoming) F E
incoming_layer h from s = record {
  State = s.State;
  poll_ready = s.poll_ready;
  call = call_incoming {h = h} from s.call;
  clone = s.clone;
}
