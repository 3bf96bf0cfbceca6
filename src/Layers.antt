-- ===== src/Layers.antt =====
-- The middleware of src/service and src/server/conn as tower services around an inner service. An
-- inner service is the interface `Service`: tower's `poll_ready` and `call`, and `clone`. Each layer
-- gives the service it makes of an inner one; its state is that of the inner service with what the
-- layer itself keeps, and a constant of the layer is an argument.
pub mod Connection
pub mod Sending
pub mod Contract
pub mod Executor
pub mod Outer
pub mod Bridge
pub mod Made
pub mod Transport
use hyperdriver.Base.{
  ℕ, Bool, if◌then◌else◌, Option, none, some, Result, ok, err, Poll, map_err, map_ready, Outcome,
  value, panic,
}
use hyperdriver.Http.{Http, Request}
use hyperdriver.Info.{HttpProtocol}
use hyperdriver.Service.Host.{call_connection}
use hyperdriver.Service.Checks
use hyperdriver.Service.Checks.{
  check_http1_request, check_http2_request, HttpRequestError, connection, Http2ChecksState,
}
use hyperdriver.Service.Timeout
use hyperdriver.Service.Timeout.{TimeoutFuture, Optional, middleware, service, call_optional}
use hyperdriver.Service.Preprocess
use hyperdriver.Service.Preprocess.{MaybeErrorFuture, call_incoming}
use hyperdriver.Server.ConnInfo
use hyperdriver.Server.ConnInfo.{Extended, ConnectionWithInfo, MakeInfoFuture, insert_info}
use hyperdriver.Server.Sni.{
  Authorities, TlsConnectionInfo, ValidateSniError, SniMiddlewareError, inner, handle,
}

-- `tower::Service`: requests, futures and errors.
pub record Service (Req F E : Type 0) : Type 1 where
  pub State : Type 0
  pub poll_ready : State → Poll (Result (Unit {0}) E) × State
  pub call : State → Req → F × State
  pub clone : State → State

optional_ready :
    {M S E ME : Type 0}
    → (ME → E)
    → (M → Poll (Result (Unit {0}) ME) × M)
    → (S → Poll (Result (Unit {0}) E) × S)
    → Optional M S
    → Poll (Result (Unit {0}) E) × Optional M S
optional_ready into ready_m ready_s (middleware m) =
    let (r, m') = ready_m m in (map_ready (map_err into) r, middleware m')
optional_ready into ready_m ready_s (service s) = let (r, s') = ready_s s in (r, service s')

optional_clone : {M S : Type 0} → (M → M) → (S → S) → Optional M S → Optional M S
optional_clone clone_m clone_s (middleware m) = middleware (clone_m m)
optional_clone clone_m clone_s (service s) = service (clone_s s)

module _ {Req F E : Type 0} where
  -- `Timeout` of service/timeout.rs.
  abbrev pub timeout_layer :
      {T : Type 0}
      → (ℕ → T)
      → ℕ
      → (Unit {0} → E)
      → Service Req F E
      → Service Req (TimeoutFuture F T E) E
  timeout_layer sleep timeout error s = record {
    State = s.State;
    poll_ready = s.poll_ready;
    call = Timeout.call s.call sleep timeout error;
    clone = s.clone;
  }

  -- `PreprocessService` of service/error.rs.
  pub preprocess_layer :
      (Req → Result Req E) → Service Req F E → Service Req (MaybeErrorFuture F E) E
  preprocess_layer preprocessor s = record {
    State = s.State;
    poll_ready = s.poll_ready;
    call = Preprocess.call s.call preprocessor;
    clone = s.clone;
  }

  -- `OptionService` of service/option.rs, over both of the services that it may hold.
  pub option_service :
      {FM ME : Type 0}
      → (ME → E)
      → Service Req FM ME
      → Service Req F E
      → Service Req (Optional FM F) E
  unfolding optional_ready optional_clone
  option_service into m s = record {
    State = Optional m.State s.State;
    poll_ready = optional_ready into m.poll_ready s.poll_ready;
    call = call_optional m.call s.call;
    clone = optional_clone m.clone s.clone;
  }

-- `UnixExtensionTransport` of src/client/conn/transport/unix.rs: the address comes from the request's
-- extensions. The transport that was polled is called, its clone stays, also when there is no address.
unfoldable pub unix_call :
    {S Req Addr F X : Type 0}
    → (S → S)
    → (S → Req × Addr → F × S)
    → X
    → S
    → Req
    → Option Addr
    → Result F X × S
unix_call clone call_inner no_address s req none = (err no_address, clone s)
unix_call clone call_inner no_address s req (some addr) =
    let (f, _) = call_inner s (req, addr) in (ok f, clone s)

unfoldable pub unix_layer :
    {Req Addr F X E : Type 0}
    → (Req → Option Addr)
    → X
    → Service (Req × Addr) F E
    → Service Req (Result F X) E
unfolding unix_call
unix_layer address no_address s = record {
  State = s.State;
  poll_ready = s.poll_ready;
  call = λ c req. unix_call s.clone s.call no_address c req (address req);
  clone = s.clone;
}
