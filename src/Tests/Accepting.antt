-- ===== src/Tests/Accepting.antt =====
-- Futures of small types, driven to their end, and an acceptor of numbers.
use hyperdriver.Base.{
  ℕ, zero, suc, ◌+◌, ◌≡◌, ◌≢◌, refl, List, Option, none, some, String, Result, ok, Poll, ready,
  pending,
}
use hyperdriver.Http.{Request}
use hyperdriver.Http.Sample.{sample_http}
use hyperdriver.Stream.{Braid, OptTlsStream}
use hyperdriver.Stream.Refines.{Op, perform_all}
use hyperdriver.Client.Stream.{Stream, from_inner}
use hyperdriver.Client.Tls.{TlsTransport}
use hyperdriver.Server.Acceptor
use hyperdriver.Server.Acceptor.{
  Acceptor, AcceptorCore, poll_accept, core_accept, acceptor_of, core_of_tcp,
}
use hyperdriver.Server.Acceptor.Serves.{accepted-perform_all}
use hyperdriver.Service.Timeout
use hyperdriver.Service.Timeout.{TimeoutFuture, Optional}
use hyperdriver.Service.Timeout.Answers.{Fires}
use hyperdriver.Layers.{Service}
use hyperdriver.Layers.Outer.{redirects, client_service}
use hyperdriver.Layers.Outer.Answers.{run, poll_inner, poll_outer, timed, client_service-answers}
use hyperdriver.Tests.Clients.{service, sample_request}
use hyperdriver.Tests.Bodies.{timer_poll}
use hyperdriver.Tests.Handles.{Three, counting, passing, passing-Refines}

-- A future that is a number: how many polls it takes.
abbrev pub plain_poll : ℕ → Poll (Result ℕ ℕ) × ℕ
plain_poll zero = (ready (ok 80), 0)
plain_poll (suc n) = (pending, n)

abbrev pub tls_poll : ℕ → Poll (Result ℕ ℕ) × ℕ
tls_poll zero = (ready (ok 443), 0)
tls_poll (suc n) = (pending, n)

abbrev pub connect : ℕ → Request sample_http ℕ → ℕ
connect t req = t

abbrev pub connect_tls : TlsTransport ℕ ℕ → Request sample_http ℕ → Option String → ℕ
connect_tls t req domain = t.config + req.body

abbrev pub secure_stream : Stream ℕ ℕ
secure_stream = from_inner (OptTlsStream.tls 443)

-- An inner service that never answers.
abbrev silent : ℕ → Poll (Result ℕ ℕ) × ℕ
silent n = (pending, n + 1)

-- A pool whose connections never answer, behind redirects that pass everything on.
abbrev pool : Service (Request sample_http ℕ) ℕ ℕ
pool = record {
  State = ℕ;
  poll_ready = λ c. (ready (ok tt), c);
  call = λ c req. (req.body, c + 1);
  clone = λ c. c;
}

abbrev no_follow : ℕ → Service (Request sample_http ℕ) ℕ ℕ → Service (Request sample_http ℕ) ℕ ℕ
no_follow policy s = s

abbrev with_timeout :
    Option ℕ
    → Service (Request sample_http ℕ) (Optional (TimeoutFuture (Optional ℕ ℕ) ℕ ℕ) (Optional ℕ ℕ)) ℕ
with_timeout timeout =
    client_service sample_http "hyperdriver/0" no_follow (λ d. d) (λ u. 408)
      (record service { timeout = timeout }) pool

abbrev after : ℕ → Optional (TimeoutFuture (Optional ℕ ℕ) ℕ ℕ) (Optional ℕ ℕ) → Poll (Result ℕ ℕ)
after = run (poll_outer (λ d. d) (λ u. 408) (λ a. a) silent silent timer_poll)

client_service-answers_example :
    let f =
      ((redirects sample_http "hyperdriver/0" no_follow service pool).call 1 sample_request).0 in
    (after 4 ((with_timeout none).call 1 sample_request).0
      ≡ run (poll_inner (λ d. d) (λ u. 408) (λ a. a) silent silent timer_poll) 4 f)
    × (after 4 ((with_timeout (some 2)).call 1 sample_request).0
        ≡ Timeout.drive
            (poll_inner (λ d. d) (λ u. 408) (λ a. a) silent silent timer_poll)
            timer_poll
            4
            (timed (λ d. d) (λ u. 408) (λ a. a) silent silent timer_poll 2 f))
    × (Fires (poll_inner (λ d. d) (λ u. 408) (λ a. a) silent silent timer_poll) timer_poll 4 2
        → after 4 ((with_timeout (some 2)).call 1 sample_request).0 ≢ pending)
client_service-answers_example =
    client_service-answers (λ d. d) (λ u. 408) (λ a. a) silent silent timer_poll sample_http
      "hyperdriver/0" no_follow pool service 2 4 1 sample_request

abbrev accept_next : ℕ → Poll (Result ℕ ℕ) × ℕ
accept_next l = (ready (ok l), l + 1)

abbrev a_stream : Acceptor.Stream ℕ Three ℕ
a_stream = record { info = 1; inner = OptTlsStream.no_tls (Braid.tcp 3) }

accepted-perform_all_example :
    (c : ℕ) × ((accept_next 3).0 ≡ ready (ok c))
    × ((ops : List Op)
        → perform_all (Acceptor.stream_io passing) a_stream ops ≡ (
          (perform_all counting c ops).0,
          record {
            info = 1;
            inner = OptTlsStream.no_tls (Braid.tcp (perform_all counting c ops).1);
          },
        ))
unfolding poll_accept core_accept acceptor_of core_of_tcp Acceptor.new
accepted-perform_all_example =
    accepted-perform_all accept_next accept_next accept_next accept_next (λ b. 1) (λ s. 2) counting
      counting counting passing passing-Refines 3 a_stream refl
