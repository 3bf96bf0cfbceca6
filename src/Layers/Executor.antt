-- ===== src/Layers/Executor.antt =====
-- The stack of client/builder.rs below the pool as a service, and that it is `execute`.
pub mod Sends
use hyperdriver.Base.{◌≡◌, refl, Bool, none, some, Result, ok, err, Outcome, value, panic, ◌>>=◌}
use hyperdriver.Http.{Http, Request}
use hyperdriver.Info.{HttpProtocol}
use hyperdriver.Service.Host.{call_connection}
use hyperdriver.Service.Checks
use hyperdriver.Service.Checks.{
  check_http1_request, check_http2_request, HttpRequestError, Http2ChecksState,
}
use hyperdriver.Service.Executor.{then_http1, execute}
use hyperdriver.Layers.{Service}
use hyperdriver.Layers.Sending.{host_layer, http1_layer, http2_layer, then_call, http2_call}
use hyperdriver.Layers.Contract.{KeepsContract, OfOutcome, OfHttp2}
use hyperdriver.Layers.Contract.Sending.{
  host_layer-KeepsContract, http1_layer-KeepsContract, http2_layer-KeepsContract,
}

module _ (h : Http) (debug : Bool) {B C F E : Type 0} (version : C → HttpProtocol)
    (s : Service (C × Request h B) F E) where
  -- `ServiceBuilder::new()`, with SetHostHeaderLayer, Http2ChecksLayer and Http1ChecksLayer.
  abbrev pub executor :
      Service (C × Request h B) (Outcome (Http2ChecksState (Outcome F) E)) (HttpRequestError E)
  executor = host_layer h version (http2_layer h version (http1_layer h version debug s))

  -- The stack keeps tower's contract towards the service that sends the request.
  pub executor-KeepsContract :
      (Legal : F → Type 0)
      → KeepsContract s Legal
      → KeepsContract executor (OfOutcome (OfHttp2 (OfOutcome Legal)))
  executor-KeepsContract Legal keeps =
      let first = http1_layer h version debug s in
      host_layer-KeepsContract h version (http2_layer h version first) (OfHttp2 (OfOutcome Legal)) (
        http2_layer-KeepsContract h version first (OfOutcome Legal)
          (http1_layer-KeepsContract h version s Legal keeps debug))

  -- The call of the inner service for what `execute` makes of a request, as the future that the stack
  -- would give: the same panics and errors, with the inner future where it is called.
  pub sent :
      {S : Type 0}
      → (S → C × Request h B → F × S)
      → S
      → C
      → Outcome (Result (Request h B) (HttpRequestError E))
      → Outcome (Result F (HttpRequestError E)) × S
  sent call_inner c conn panic = (panic, c)
  sent call_inner c conn (value (err e)) = (value (err e), c)
  sent call_inner c conn (value (ok req)) =
      let (f, c') = call_inner c (conn, req) in (value (ok f), c')

  -- The future of the stack, with its layers of panics and errors put together.
  pub joined : Outcome (Http2ChecksState (Outcome F) E) → Outcome (Result F (HttpRequestError E))
  joined panic = panic
  joined (value (Checks.error none)) = panic
  joined (value (Checks.error (some e))) = value (err e)
  joined (value (Checks.service panic)) = panic
  joined (value (Checks.service (value f))) = value (ok f)

  pub join_call :
      {S : Type 0}
      → Outcome (Http2ChecksState (Outcome F) E) × S
      → Outcome (Result F (HttpRequestError E)) × S
  join_call (f, c) = (joined f, c)

  after_http1 :
      (c : s.State) (conn : C) (o : Outcome (Request h B))
      → let (f, c') = then_call h version s.call c conn o in
        join_call (value (Checks.service f), c')
        ≡ sent s.call c conn (o >>= (λ req. value (ok req)))
  unfolding then_call join_call joined sent
  after_http1 c conn panic = refl
  after_http1 c conn (value req) = refl

  after_http2 :
      (c : s.State) (conn : C) (p : Result (Request h B) (HttpRequestError E))
      → let (f, c') = http2_call h version (http1_layer h version debug s).call c conn p in
        join_call (value f, c') ≡ sent s.call c conn (then_http1 h debug (version conn) p)
  unfolding http2_call then_http1 join_call joined sent
  after_http2 c conn (err e) = refl
  after_http2 c conn (ok req) = after_http1 c conn (check_http1_request h debug (version conn) req)

  after_host :
      (c : s.State) (conn : C) (o : Outcome (Request h B))
      → join_call (
          then_call h version (http2_layer h version (http1_layer h version debug s)).call c conn o)
        ≡ sent s.call c conn (
            o >>= (λ req.
              then_http1 h debug (version conn) (check_http2_request h (version conn) req)))
  unfolding then_call join_call joined sent
  after_host c conn panic = refl
  after_host c conn (value req) = after_http2 c conn (check_http2_request h (version conn) req)

  -- Called with a connection and a request, the stack of services does what `execute` says of the
  -- protocol of that connection: it calls the service that sends the request, on the state that it
  -- was in, with the request that `execute` gives; it answers the error that `execute` gives, without
  -- calling that service; and it panics where `execute` does.
  pub executor-execute :
      (c : s.State) (conn : C) (req : Request h B)
      → join_call (executor.call c (conn, req))
        ≡ sent s.call c conn (execute h debug (version conn) req)
  unfolding execute
  executor-execute c conn req = after_host c conn (call_connection h (version conn) req)
