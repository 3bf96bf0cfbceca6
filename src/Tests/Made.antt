-- ===== src/Tests/Made.antt =====
-- A server that answers each request by what it was shown of the connection.
use hyperdriver.Base.{
  map_ready, map_ok, map_err, err, ℕ, zero, suc, ◌+◌, ◌≡◌, refl, some, Result, ok, Poll, ready,
  pending, Outcome, value, and_then, false,
}
use hyperdriver.Http.{Request}
use hyperdriver.Http.Sample.{sample_http}
use hyperdriver.Server.ConnInfo.{Extended, poll, poll_tls}
use hyperdriver.Server.Sni.{SniMiddlewareError, inner, TlsConnectionInfo, request_host}
use hyperdriver.Layers.{Service}
use hyperdriver.Layers.Connection.{SniFuture}
use hyperdriver.Layers.Made.{drive, make_stream, made}
use hyperdriver.Layers.Bridge.{Oneshot, ready_after}
use hyperdriver.Layers.Made.Shows.{checked, Shown, served, make_stream-Shown}
use hyperdriver.Tests.Layers.{names}

abbrev Served : Type 0
Served = Extended (Request sample_http ℕ) ℕ TlsConnectionInfo

-- It is ready after so many polls as its state says.
abbrev counted : ℕ → Poll (Result (Unit {0}) ℕ) × ℕ
counted zero = (ready (ok tt), 0)
counted (suc n) = (pending, n)

-- Its futures are what the request carried, with the state.
abbrev shows : Service Served (ℕ × Served) ℕ
shows = record { State = ℕ; poll_ready = counted; call = λ c req. ((c, req), c); clone = λ c. c }

-- A make-service whose future takes as many polls as the stream says.
abbrev makes : Service ℕ ℕ ℕ
makes = record {
  State = ℕ;
  poll_ready = λ c. (ready (ok tt), c);
  call = λ c stream. (stream, c);
  clone = λ c. c;
}

abbrev make_poll : ℕ → Outcome (Poll (Result ℕ ℕ)) × ℕ
make_poll zero = (value (ready (ok 5)), 0)
make_poll (suc n) = (value pending, n)

abbrev example_tls : TlsConnectionInfo
example_tls = record { server_name = some "example.com"; validated = false }

-- A `oneshot` whose future is the service with the request.
module _ {Req F E : Type 0} (s : Service Req F E) where
  abbrev on_poll : Poll (Result (Unit {0}) E) → s.State → Req → Poll (Result F E)
  on_poll pending c req = pending
  on_poll (ready (ok u)) c req = ready (ok (s.call c req).0)
  on_poll (ready (err e)) c req = ready (err e)

  abbrev simple : Oneshot s
  simple = record {
    Future = s.State × Req;
    oneshot = λ c req. (c, req);
    poll =
        λ f. (on_poll (s.poll_ready f.0).0 (s.poll_ready f.0).1 f.1, ((s.poll_ready f.0).1, f.1));
    waits = λ c req e. rw e refl;
    fails = λ c req x e. rw e refl;
    calls = λ c req e. rw e refl;
  }

abbrev stack : Service Served (SniFuture (ℕ × Served)) (SniMiddlewareError ℕ)
stack = checked sample_http names shows (λ io. io + 10) (λ io. io) (λ rx. some example_tls)

make_stream-Shown_example :
    (drive (poll (poll_tls make_poll)) 3 (make_stream (λ io. io + 10) (λ io. io) makes 7 2)
      ≡ made (λ io. io + 10) (λ io. io) make_poll 2 (drive make_poll 3 2))
    × ((answers : ℕ → Request sample_http ℕ → SniFuture (ℕ × Served)) × ((k t : ℕ)
            (req : Request sample_http ℕ)
          → served sample_http names shows
              (λ io. io + 10)
              (λ io. io)
              (λ rx. some example_tls)
              (simple stack)
              k
              2
              t
              req
            ≡ map_ready
                (λ x. map_err inner (map_ok (λ t'. answers t' req) x))
                (ready_after shows k t))
        × ((t : ℕ) (req : Request sample_http ℕ)
            → Shown sample_http names shows t 12 example_tls req
                (request_host sample_http names req)
                (and_then names.parse example_tls.server_name)
                (answers t req)))
make_stream-Shown_example =
    make_stream-Shown sample_http names shows (λ io. io + 10) (λ io. io) (λ rx. some example_tls)
      makes make_poll (simple stack) 3 7 2 example_tls refl
