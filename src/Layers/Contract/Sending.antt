-- ===== src/Layers/Contract/Sending.antt =====
-- The layers of the client below the pool keep tower's contract.
use hyperdriver.Base.{◌≡◌, Bool, Result, ok, err, ready, Outcome, value, panic}
use hyperdriver.Http.{Http, Request}
use hyperdriver.Info.{HttpProtocol}
use hyperdriver.Service.Host.{call_connection}
use hyperdriver.Service.Checks.{check_http1_request, check_http2_request, HttpRequestError}
use hyperdriver.Layers.{Service}
use hyperdriver.Layers.Sending.{host_layer, http1_layer, http2_layer, then_call, http2_call}
use hyperdriver.Layers.Contract.{KeepsContract, OfOutcome, OfHttp2, ready-map_err}

-- The layers below the pool.
module _ (h : Http) {B C E F : Type 0} (version : C → HttpProtocol)
    (s : Service (C × Request h B) F E) (Legal : F → Type 0) (keeps : KeepsContract s Legal) where
  then_legal :
      (c : s.State)
      → (s.poll_ready c).0 ≡ ready (ok tt)
      → (conn : C) (o : Outcome (Request h B))
      → OfOutcome Legal (then_call h version s.call (s.poll_ready c).1 conn o).0
  unfolding then_call
  then_legal c r conn panic = tt
  then_legal c r conn (value req) = keeps c (conn, req) r

  pub host_layer-KeepsContract : KeepsContract (host_layer h version s) (OfOutcome Legal)
  host_layer-KeepsContract c (conn, req) r =
      then_legal c r conn (call_connection h (version conn) req)

  pub http1_layer-KeepsContract :
      (debug : Bool) → KeepsContract (http1_layer h version debug s) (OfOutcome Legal)
  http1_layer-KeepsContract debug c (conn, req) r =
      then_legal c r conn (check_http1_request h debug (version conn) req)

  checked_legal :
      (c : s.State)
      → (s.poll_ready c).0 ≡ ready (ok tt)
      → (conn : C) (p : Result (Request h B) (HttpRequestError E))
      → OfHttp2 Legal (http2_call h version s.call (s.poll_ready c).1 conn p).0
  unfolding http2_call
  checked_legal c r conn (ok req) = keeps c (conn, req) r
  checked_legal c r conn (err e) = tt

  pub http2_layer-KeepsContract : KeepsContract (http2_layer h version s) (OfHttp2 Legal)
  http2_layer-KeepsContract c (conn, req) r =
      checked_legal c (ready-map_err _ _ r) conn (check_http2_request h (version conn) req)
