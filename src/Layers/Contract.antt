-- ===== src/Layers/Contract.antt =====
-- The contract of tower's `Service`: `call` is called on a state which `poll_ready` has just left
-- ready. A layer keeps it if, called so itself, it calls the inner service only so.
pub mod Sending
use hyperdriver.Base.{
  ℕ, ◌≡◌, refl, Bool, Option, none, some, Result, ok, err, Poll, ready, pending, map_err, map_ready,
  Outcome, value, panic,
}
use hyperdriver.Http.{Http, Request}
use hyperdriver.Info.{HttpProtocol}
use hyperdriver.Service.Host.{call_connection}
use hyperdriver.Service.Checks
use hyperdriver.Service.Checks.{
  check_http1_request, check_http2_request, HttpRequestError, Http2ChecksState,
}
use hyperdriver.Service.Timeout
use hyperdriver.Service.Timeout.{TimeoutFuture, Optional, middleware, service, call_optional}
use hyperdriver.Service.Preprocess
use hyperdriver.Service.Preprocess.{MaybeErrorFuture, inner, error}
use hyperdriver.Server.ConnInfo
use hyperdriver.Server.ConnInfo.{Extended, MakeInfoFuture}
use hyperdriver.Server.Sni.{Authorities, TlsConnectionInfo, ValidateSniError, handle}
use hyperdriver.Layers.{
  Service, timeout_layer, preprocess_layer, option_service, optional_ready, unix_layer, unix_call,
}
use hyperdriver.Layers.Connection.{
  info_layer, tls_info_layer, call_with_tls, make_info_layer, make_call, SniFuture, refused, passed,
  sni_layer, sni_answer,
}
use hyperdriver.Layers.Sending.{host_layer, http1_layer, http2_layer, then_call, http2_call}

-- `Legal` is any property that the futures of calls on ready states have.
abbrev pub KeepsContract : {Req F E : Type 0} → Service Req F E → (F → Type 0) → Type 0
KeepsContract {Req} s Legal =
    (c : s.State) (req : Req)
    → (s.poll_ready c).0 ≡ ready (ok tt)
    → Legal (s.call (s.poll_ready c).1 req).0

-- What `Legal` says of the futures of the layers: the inner future, if there is one, is legal.
module _ {F : Type 0} (Legal : F → Type 0) where
  abbrev pub OfTimeout : {T E : Type 0} → TimeoutFuture F T E → Type 0
  OfTimeout t = Legal t.inner

  abbrev pub OfMaybe : {E : Type 0} → MaybeErrorFuture F E → Type 0
  OfMaybe (inner f) = Legal f
  OfMaybe (error e) = Unit

  abbrev pub OfMakeInfo : {A : Type 0} → MakeInfoFuture F A → Type 0
  OfMakeInfo m = Legal m.future

  abbrev pub OfSni : SniFuture F → Type 0
  OfSni (refused e) = Unit
  OfSni (passed f) = Legal f

  abbrev pub OfOutcome : Outcome F → Type 0
  OfOutcome panic = Unit
  OfOutcome (value f) = Legal f

  abbrev pub OfResult : {X : Type 0} → Result F X → Type 0
  OfResult (ok f) = Legal f
  OfResult (err e) = Unit

  abbrev pub OfHttp2 : {E : Type 0} → Http2ChecksState F E → Type 0
  OfHttp2 (Checks.service f) = Legal f
  OfHttp2 (Checks.error e) = Unit

  abbrev pub OfOptional : {FM : Type 0} → (FM → Type 0) → Optional FM F → Type 0
  OfOptional LegalM (middleware f) = LegalM f
  OfOptional LegalM (service f) = Legal f

-- A layer that maps the errors of `poll_ready` is ready only if the inner service is.
pub ready-map_err :
    {E E' : Type 0} (into : E → E') (p : Poll (Result (Unit {0}) E))
    → map_ready (map_err into) p ≡ ready (ok tt)
    → p ≡ ready (ok tt)
ready-map_err into (ready (ok u)) e = refl
ready-map_err into (ready (err x)) e = cc
ready-map_err into pending e = cc

module _ {Req F E : Type 0} (s : Service Req F E) (Legal : F → Type 0)
    (keeps : KeepsContract s Legal) where
  timeout_layer-KeepsContract :
      {T : Type 0} (sleep : ℕ → T) (timeout : ℕ) (timed_out : Unit {0} → E)
      → KeepsContract (timeout_layer sleep timeout timed_out s) (OfTimeout Legal)
  unfolding Timeout.call
  timeout_layer-KeepsContract sleep timeout timed_out c req r = keeps c req r

  called_legal :
      (c : s.State)
      → (s.poll_ready c).0 ≡ ready (ok tt)
      → (p : Result Req E) → OfMaybe Legal (Preprocess.called s.call (s.poll_ready c).1 p).0
  unfolding Preprocess.called
  called_legal c r (ok req) = keeps c req r
  called_legal c r (err e) = tt

  preprocess_layer-KeepsContract :
      (preprocessor : Req → Result Req E)
      → KeepsContract (preprocess_layer preprocessor s) (OfMaybe Legal)
  unfolding preprocess_layer Preprocess.call
  preprocess_layer-KeepsContract preprocessor c req r = called_legal c r (preprocessor req)

  option_service-KeepsContract :
      {FM ME : Type 0} (into : ME → E) (m : Service Req FM ME) (LegalM : FM → Type 0)
      → KeepsContract m LegalM
      → KeepsContract (option_service into m s) (OfOptional Legal LegalM)
  unfolding option_service optional_ready call_optional
  option_service-KeepsContract into m LegalM keeps_m (middleware c) req r =
      keeps_m c req (ready-map_err into _ r)
  option_service-KeepsContract into m LegalM keeps_m (service c) req r = keeps c req r

  -- The timeout, the preprocessor, the optional layer (over a layer that keeps the contract itself)
  -- and the make-service that collects connection information all keep tower's contract: called on a
  -- state that their `poll_ready` has left ready, they call the inner service, if at all, on a state
  -- that its own `poll_ready` has left ready. None of them calls a clone that was never polled.
  pub layers-KeepsContract :
      {T A FM ME : Type 0} (sleep : ℕ → T) (timeout : ℕ) (timed_out : Unit {0} → E)
      (preprocessor : Req → Result Req E) (info_of : Req → A) (into : ME → E)
      (m : Service Req FM ME) (LegalM : FM → Type 0)
      → KeepsContract m LegalM
      → KeepsContract (timeout_layer sleep timeout timed_out s) (OfTimeout Legal)
        × KeepsContract (preprocess_layer preprocessor s) (OfMaybe Legal)
        × KeepsContract (option_service into m s) (OfOptional Legal LegalM)
        × KeepsContract (make_info_layer info_of s) (OfMakeInfo Legal)
  unfolding make_info_layer make_call
  layers-KeepsContract sleep timeout timed_out preprocessor info_of into m LegalM keeps_m = (
    timeout_layer-KeepsContract sleep timeout timed_out,
    preprocess_layer-KeepsContract preprocessor,
    option_service-KeepsContract into m LegalM keeps_m,
    keeps,
  )

module _ {Req Addr F X E : Type 0} (address : Req → Option Addr) (no_address : X)
    (s : Service (Req × Addr) F E) (Legal : F → Type 0) (keeps : KeepsContract s Legal) where
  unix_legal :
      (c : s.State)
      → (s.poll_ready c).0 ≡ ready (ok tt)
      → (req : Req) (o : Option Addr)
      → OfResult Legal (unix_call s.clone s.call no_address (s.poll_ready c).1 req o).0
  unfolding unix_call
  unix_legal c r req none = tt
  unix_legal c r req (some addr) = keeps c (req, addr) r

  unix_layer-KeepsContract : KeepsContract (unix_layer address no_address s) (OfResult Legal)
  unfolding unix_layer
  unix_layer-KeepsContract c req r = unix_legal c r req (address req)

-- The services of a connection with TLS: the information about TLS in front of the check of the name.
module _ (h : Http) (a : Authorities) {B A F E : Type 0}
    (s : Service (Extended (Request h B) A TlsConnectionInfo) F E) (Legal : F → Type 0)
    (keeps : KeepsContract s Legal) where
  sni_legal :
      (c : s.State)
      → (s.poll_ready c).0 ≡ ready (ok tt)
      → (req : Extended (Request h B) A TlsConnectionInfo)
        (p : Option ValidateSniError × Option TlsConnectionInfo)
      → OfSni Legal (sni_answer h a s.call (s.poll_ready c).1 req p).0
  unfolding sni_answer
  sni_legal c r req (none, tls) = keeps c _ r
  sni_legal c r req (some e, tls) = tt

  sni_layer-KeepsContract : KeepsContract (sni_layer h a s) (OfSni Legal)
  unfolding sni_layer
  sni_layer-KeepsContract c req r =
      sni_legal c (ready-map_err _ _ r) req (handle h a req.request req.tls)

module _ {Req A T F E : Type 0} (s : Service (Extended Req A T) F E) (Legal : F → Type 0)
    (keeps : KeepsContract s Legal) where
  info_layer-KeepsContract : KeepsContract (info_layer s) Legal
  unfolding info_layer ConnInfo.call
  info_layer-KeepsContract c req r = keeps c.inner _ r

  tls_info_layer-KeepsContract :
      {Rx : Type 0} (received : Rx → Option T) → KeepsContract (tls_info_layer received s) Legal
  unfolding tls_info_layer call_with_tls
  tls_info_layer-KeepsContract received c req r = keeps c.inner _ r

-- The services that a server puts around the one that answers its requests keep tower's contract
-- together: the information about the connection, in front of the information about TLS, in front of
-- the check of the server name. Though both of the first leave a clone behind at each call, the
-- service that they call is the one that was polled.
pub connection_services-KeepsContract :
    (h : Http) (a : Authorities) {B A F E Rx : Type 0} (received : Rx → Option TlsConnectionInfo)
    (s : Service (Extended (Request h B) A TlsConnectionInfo) F E) (Legal : F → Type 0)
    → KeepsContract s Legal
    → KeepsContract (info_layer (tls_info_layer received (sni_layer h a s))) (OfSni Legal)
connection_services-KeepsContract h a received s Legal keeps =
    info_layer-KeepsContract _ (OfSni Legal) (
      tls_info_layer-KeepsContract _ (OfSni Legal) (sni_layer-KeepsContract h a s Legal keeps)
        received)
