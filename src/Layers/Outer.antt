-- ===== src/Layers/Outer.antt =====
-- The services above the pool that src/client/builder.rs puts together: the timeout around the
-- redirects around the user agent, and src/service/incoming.rs for the responses. The pool's service
-- and tower-http's redirects are parameters.
pub mod Answers
use hyperdriver.Base.{ℕ, Option, none, some, String, Result, Poll}
use hyperdriver.Http.{Http, Request}
use hyperdriver.Service.Timeout
use hyperdriver.Service.Timeout.{TimeoutFuture, Optional, middleware, service, poll_optional}
use hyperdriver.Service.Preprocess.{poll_response}
use hyperdriver.Client.Builder.{ClientService, if_not_present}
use hyperdriver.Layers.{Service, timeout_layer}

-- `IncomingResponseService`, whose future `poll_response` polls.
abbrev pub response_layer : {Req F E : Type 0} → Service Req F E → Service Req F E
response_layer s = record {
  State = s.State;
  poll_ready = s.poll_ready;
  call = s.call;
  clone = s.clone;
}

-- `SetRequestHeaderLayer::if_not_present` for the user agent, of tower-http.
abbrev pub agent_layer :
    (h : Http) (crate_name : String) {B F E : Type 0}
    → String
    → Service (Request h B) F E
    → Service (Request h B) F E
agent_layer h crate_name agent s = record {
  State = s.State;
  poll_ready = s.poll_ready;
  call = λ c req. s.call c (if_not_present h crate_name (h.get req.headers "user-agent") agent req);
  clone = s.clone;
}

module _ {L Req FM F E : Type 0} (apply : L → Service Req F E → Service Req FM E) where
  -- `OptionLayer::layer` and the `OptionService` of it, when the errors are the same: a service with
  -- the layer, or the inner one as it is.
  abbrev pub optional_layer : Option L → Service Req F E → Service Req (Optional FM F) E
  optional_layer none s = record {
    State = s.State;
    poll_ready = s.poll_ready;
    call = λ c req. let (f, c') = s.call c req in (service f, c');
    clone = s.clone;
  }
  optional_layer (some l) s =
      let m = apply l s in
      record {
        State = m.State;
        poll_ready = m.poll_ready;
        call = λ c req. let (f, c') = m.call c req in (middleware f, c');
        clone = m.clone;
      }

module _ (h : Http) (crate_name : String) {T P Redirect Layer Config Pool B F FR E : Type 0}
    (follow : Redirect → Service (Request h B) F E → Service (Request h B) FR E) where
  -- The services from the redirects down to the pool.
  abbrev pub redirects :
      ClientService T P Redirect Layer Config Pool
      → Service (Request h B) F E
      → Service (Request h B) (Optional FR F) E
  redirects s pool =
      optional_layer follow s.redirect (agent_layer h crate_name s.user_agent (response_layer pool))

  -- `build_service`, between the user's layers and the pool.
  abbrev pub client_service :
      {Timer : Type 0}
      → (ℕ → Timer)
      → (Unit {0} → E)
      → ClientService T P Redirect Layer Config Pool
      → Service (Request h B) F E
      → Service (Request h B) (Optional (TimeoutFuture (Optional FR F) Timer E) (Optional FR F)) E
  client_service sleep timed_out s pool =
      optional_layer (λ d inner. timeout_layer sleep d timed_out inner) s.timeout (redirects s pool)

module _ {F FR R A E : Type 0} (from : A → R) (poll_pool : F → Poll (Result A E) × F)
    (poll_redirect : FR → Poll (Result R E) × FR) where
  -- A poll of the future of `redirects`.
  unfoldable pub poll_redirects : Optional FR F → Poll (Result R E) × Optional FR F
  poll_redirects = poll_optional (λ e. e) poll_redirect (poll_response from poll_pool)

  -- A poll of the future of `client_service`.
  unfoldable pub poll_client :
      {Timer : Type 0}
      → (Timer → Poll (Unit {0}) × Timer)
      → Optional (TimeoutFuture (Optional FR F) Timer E) (Optional FR F)
      → Poll (Result R E) × Optional (TimeoutFuture (Optional FR F) Timer E) (Optional FR F)
  poll_client poll_timer =
      poll_optional (λ e. e) (Timeout.poll poll_redirects poll_timer) poll_redirects
