-- ===== src/Service/Executor.antt =====
-- src/client/builder.rs, `executor` of `build_service`: the stack of SetHostHeaderLayer,
-- Http2ChecksLayer and Http1ChecksLayer, the first one outermost, in front of the connection.
pub mod Wire
pub mod Keeps
use hyperdriver.Base.{Bool, Result, ok, err, Outcome, value, panic, ◌>>=◌}
use hyperdriver.Http.{Http, Request}
use hyperdriver.Info.{HttpProtocol}
use hyperdriver.Service.Host.{call_connection}
use hyperdriver.Service.Checks.{check_http1_request, check_http2_request, HttpRequestError}

module _ (h : Http) (debug : Bool) {B E : Type 0} where
  unfoldable pub then_http1 :
      HttpProtocol
      → Result (Request h B) (HttpRequestError E)
      → Outcome (Result (Request h B) (HttpRequestError E))
  then_http1 protocol (err e) = value (err e)
  then_http1 protocol (ok req) =
      check_http1_request h debug protocol req >>= (λ req'. value (ok req'))

  -- The request that goes to the connection, or the error that the caller gets.
  unfoldable pub execute :
      HttpProtocol → Request h B → Outcome (Result (Request h B) (HttpRequestError E))
  unfolding then_http1
  execute protocol req =
      call_connection h protocol req
      >>= (λ req'. then_http1 protocol (check_http2_request h protocol req'))
