-- ===== src/Layers/Executor/Sends.antt =====
-- What the stack of client/builder.rs below the pool sends, by the protocol of the connection.
use hyperdriver.Base.{◌≡◌, ap, ◌∙◌, Bool, Result, Outcome, value}
use hyperdriver.Http.{Http, Request}
use hyperdriver.Info.{HttpProtocol, http2}
use hyperdriver.Service.Checks.{HttpRequestError}
use hyperdriver.Service.Checks.Http2.{CheckedFor}
use hyperdriver.Service.Executor.{execute}
use hyperdriver.Service.Executor.Wire.{execute-CheckedFor}
use hyperdriver.Layers.{Service}
use hyperdriver.Layers.Executor.{executor, sent, join_call, executor-execute}

module _ (h : Http) (debug : Bool) {B C F E : Type 0} (version : C → HttpProtocol)
    (s : Service (C × Request h B) F E) where
  on_protocol :
      (c : s.State) (conn : C) (req : Request h B) (p : HttpProtocol)
      (r : Outcome (Result (Request h B) (HttpRequestError E)))
      → version conn ≡ p
      → execute h debug p req ≡ r
      → join_call h debug version s ((executor h debug version s).call c (conn, req))
        ≡ sent h debug version s s.call c conn r
  on_protocol c conn req p r v done =
      executor-execute h debug version s c conn req
      ∙ ap (sent h debug version s s.call c conn) (ap (λ v. execute h debug v req) v ∙ done)

  -- Called with an HTTP/2 connection, the stack of services refuses CONNECT, without a call of the
  -- service inside and so with its state as it was, and has it send any other request as HTTP/2 without
  -- Host and the connection headers.
  pub executor-CheckedFor :
      (c : s.State) (conn : C) (req : Request h B)
      → version conn ≡ http2
      → (r : Result (Request h B) (HttpRequestError E)) × (join_call h debug version s
            ((executor h debug version s).call c (conn, req))
          ≡ sent h debug version s s.call c conn (value r))
        × CheckedFor h E http2 req.method req r
  executor-CheckedFor c conn req v =
      let (r, done, checked) = execute-CheckedFor h debug E req in
      (r, on_protocol c conn req http2 (value r) v done, checked)
