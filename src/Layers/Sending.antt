-- ===== src/Layers/Sending.antt =====
-- src/service/host.rs and src/service/http.rs: the services in front of the one that sends a request
-- on a connection of the client.
use hyperdriver.Base.{Bool, some, Result, ok, err, map_err, map_ready, Outcome, value, panic}
use hyperdriver.Http.{Http, Request}
use hyperdriver.Info.{HttpProtocol}
use hyperdriver.Service.Host.{call_connection}
use hyperdriver.Service.Checks
use hyperdriver.Service.Checks.{
  check_http1_request, check_http2_request, HttpRequestError, connection, Http2ChecksState,
}
use hyperdriver.Layers.{Service}

-- The layers below the client's pool. A request comes with the connection it is for; a call that
-- panics in a layer is the future `panic`, and leaves the inner service alone.
module _ (h : Http) {B C : Type 0} (version : C → HttpProtocol) where
  unfoldable pub then_call :
      {S G : Type 0} → (S → C × Request h B → G × S) → S → C → Outcome (Request h B) → Outcome G × S
  then_call call_inner s conn panic = (panic, s)
  then_call call_inner s conn (value req) = let (f, s') = call_inner s (conn, req) in (value f, s')

  -- `SetHostHeader` of service/host.rs.
  abbrev pub host_layer :
      {G E : Type 0} → Service (C × Request h B) G E → Service (C × Request h B) (Outcome G) E
  host_layer s = record {
    State = s.State;
    poll_ready = s.poll_ready;
    call = λ c (conn, req). then_call s.call c conn (call_connection h (version conn) req);
    clone = s.clone;
  }

  -- `Http1ChecksService` of service/http.rs.
  abbrev pub http1_layer :
      {G E : Type 0}
      → Bool
      → Service (C × Request h B) G E
      → Service (C × Request h B) (Outcome G) E
  http1_layer debug s = record {
    State = s.State;
    poll_ready = s.poll_ready;
    call =
        λ c (conn, req). then_call s.call c conn (check_http1_request h debug (version conn) req);
    clone = s.clone;
  }

  unfoldable pub http2_call :
      {S G E : Type 0}
      → (S → C × Request h B → G × S)
      → S
      → C
      → Result (Request h B) (HttpRequestError E)
      → Http2ChecksState G E × S
  http2_call call_inner s conn (ok req) =
      let (f, s') = call_inner s (conn, req) in (Checks.service f, s')
  http2_call call_inner s conn (err e) = (Checks.error (some e), s)

  -- `Http2ChecksService` of service/http.rs.
  abbrev pub http2_layer :
      {G E : Type 0}
      → Service (C × Request h B) G E
      → Service (C × Request h B) (Http2ChecksState G E) (HttpRequestError E)
  http2_layer s = record {
    State = s.State;
    poll_ready = λ c. let (r, c') = s.poll_ready c in (map_ready (map_err connection) r, c');
    call = λ c (conn, req). http2_call s.call c conn (check_http2_request h (version conn) req);
    clone = s.clone;
  }
