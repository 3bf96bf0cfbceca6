-- ===== src/Service/Preprocess.antt =====
-- src/service/error.rs and src/service/incoming.rs: services that change a request before the inner
-- service sees it, or refuse it, and that change the body of the response.
pub mod Once
use hyperdriver.Base.{
  Option, none, some, Result, ok, err, Poll, ready, pending, Outcome, value, panic, map_ok,
  map_ready,
}
use hyperdriver.Http.{Http, Request}

-- `MaybeErrorFutureState`.
pub data MaybeErrorFuture (F E : Type 0) : Type 0 where
  inner : F → MaybeErrorFuture F E
  error : Option E → MaybeErrorFuture F E

module _ {F R E : Type 0} (poll_inner : F → Poll (Result R E) × F) where
  -- `MaybeErrorFuture::poll`.
  pub poll : MaybeErrorFuture F E → Outcome (Poll (Result R E)) × MaybeErrorFuture F E
  poll (inner f) = let (r, f') = poll_inner f in (value r, inner f')
  poll (error none) = (panic, error none)
  poll (error (some e)) = (value (ready (err e)), error none)

module _ {S Req F E : Type 0} (call_inner : S → Req → F × S) where
  unfoldable pub called : S → Result Req E → MaybeErrorFuture F E × S
  called s (ok req) = let (f, s') = call_inner s req in (inner f, s')
  called s (err e) = (error (some e), s)

  -- `PreprocessService::call`.
  unfoldable pub call : (Req → Result Req E) → S → Req → MaybeErrorFuture F E × S
  unfolding called
  call preprocessor s req = called s (preprocessor req)

-- `IncomingRequestService::call`; `from` makes the inner service's body of hyper's.
pub call_incoming :
    {h : Http} {S BIn Incoming F : Type 0}
    → (Incoming → BIn)
    → (S → Request h BIn → F × S)
    → S
    → Request h Incoming
    → F × S
call_incoming from call_inner s req = call_inner s (record {
  method = req.method;
  uri = req.uri;
  version = req.version;
  headers = req.headers;
  body = from req.body;
})

-- `IncomingResponseFuture::poll`; `map_body` is `Response::map` with the conversion.
pub poll_response :
    {F A B E : Type 0} → (A → B) → (F → Poll (Result A E) × F) → F → Poll (Result B E) × F
poll_response map_body poll_inner f =
    let (r, f') = poll_inner f in (map_ready (map_ok map_body) r, f')
