-- ===== src/Service/Preprocess/Once.antt =====
-- A refused request is answered once, and a future is not polled into its panic.
use hyperdriver.Base.{
  ◌≡◌, refl, ◌≢◌, none, some, Result, ok, err, Poll, ready, pending, value, panic,
}
use hyperdriver.Service.Preprocess.{MaybeErrorFuture, inner, error, poll, called, call}

module _ {F R E : Type 0} (poll_inner : F → Poll (Result R E) × F) where
  -- What an executor comes to: it polls the future again as long as it is pending.
  pub data Polls (first : MaybeErrorFuture F E) : MaybeErrorFuture F E → Type 0 where
    start : Polls first first
    again :
        {f : MaybeErrorFuture F E}
        → Polls first f
        → (poll poll_inner f).0 ≡ value pending
        → Polls first (poll poll_inner f).1

  abbrev IsLive : MaybeErrorFuture F E → Type 0
  IsLive (inner f) = Unit
  IsLive (error none) = ⊥
  IsLive (error (some e)) = Unit

  stays :
      (f : MaybeErrorFuture F E)
      → IsLive f
      → (poll poll_inner f).0 ≡ value pending
      → IsLive (poll poll_inner f).1
  unfolding poll
  stays (inner f) live e = tt
  stays (error none) live e = live
  stays (error (some x)) live e = cc

  Polls-IsLive : {first f : MaybeErrorFuture F E} → IsLive first → Polls first f → IsLive f
  Polls-IsLive live start = live
  Polls-IsLive live (again {f} before waits) = stays f (Polls-IsLive live before) waits

  IsLive-ne-panic : (f : MaybeErrorFuture F E) → IsLive f → (poll poll_inner f).0 ≢ panic
  unfolding poll
  IsLive-ne-panic (inner f) live e = cc
  IsLive-ne-panic (error none) live e = live
  IsLive-ne-panic (error (some x)) live e = cc

  module _ {S Req : Type 0} (call_inner : S → Req → F × S) (preprocessor : Req → Result Req E) where
    called-IsLive : (s : S) (r : Result Req E) → IsLive (called call_inner s r).0
    unfolding called
    called-IsLive s (ok req) = tt
    called-IsLive s (err e) = tt

    -- The future of a preprocessed call does not panic in any poll up to its answer, however often
    -- it was pending; and a request that the preprocessor refuses leaves the inner service as it was
    -- and is answered by that error in the first poll.
    call-Polls :
        (s : S) (req : Req) {f : MaybeErrorFuture F E}
        → Polls (call call_inner preprocessor s req).0 f
        → ((poll poll_inner f).0 ≢ panic)
          × ((e : E)
              → preprocessor req ≡ err e
              → ((call call_inner preprocessor s req).1 ≡ s)
                × ((poll poll_inner (call call_inner preprocessor s req).0).0
                    ≡ value (ready (err e))))
    unfolding call poll called
    call-Polls s req {f} before = (
      IsLive-ne-panic f (Polls-IsLive (called-IsLive s (preprocessor req)) before),
      λ e refused. (rw refused refl, rw refused refl),
    )
