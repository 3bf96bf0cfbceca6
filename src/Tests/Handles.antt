-- ===== src/Tests/Handles.antt =====
-- Clients, senders and streams of small types.
use hyperdriver.Base.{
  ℕ, ◌+◌, ◌≡◌, refl, true, List, [], ◌∷◌, some, String, Result, ok, Poll, ready, pending,
}
use hyperdriver.Http.{Request, http_2}
use hyperdriver.Http.Sample.{sample_http}
use hyperdriver.Stream.{AsyncIo, Braid, OptTlsStream, tls, no_tls, braid_io}
use hyperdriver.Stream.Refines.{Op, read, write, flush, shutdown, perform_all, Refines}
use hyperdriver.Client.Stream.{stream_io, stream_of_tcp, stream_of_duplex, stream_of_unix}
use hyperdriver.Client.Stream.Once.{stream_of-perform_all}
use hyperdriver.Client.Single.{Sender, http1_connection, http2_connection, auto_connection}
use hyperdriver.Client.Handshake.{h1, h2}
use hyperdriver.Client.Single.Agrees.{Agrees, auto_connection-Agrees}
use hyperdriver.Client.Mock.{Store, MockSender}
use hyperdriver.Client.Handle.{
  Clients, new_from_service, clone_client, service_of, request, poll_ready,
}
use hyperdriver.Client.Handle.Apart.{Apart, Reach, request-Apart}
use hyperdriver.Client.Handle.Apart

-- A stream that is a number: reads give it, writes add to it.
abbrev pub counting : AsyncIo ℕ
counting = record {
  poll_read = λ s n. (ready (ok (s ∷ [])), s);
  poll_write = λ s bs. (ready (ok 1), s + 1);
  poll_flush = λ s. (ready (ok tt), s);
  poll_shutdown = λ s. (pending, s);
}

abbrev pub Three : Type 0
Three = Braid ℕ ℕ ℕ

-- An `OptTlsStream` that passes calls on, with TLS and without.
abbrev pub passing : AsyncIo (OptTlsStream ℕ Three)
passing = record {
  poll_read = λ s n. elim s [
    | tls t ↦ let (r, t') = counting.poll_read t n in (r, tls t')
    | no_tls b ↦ let (r, b') = (braid_io counting counting counting).poll_read b n in (r, no_tls b')
  ];
  poll_write = λ s bs. elim s [
    | tls t ↦ let (r, t') = counting.poll_write t bs in (r, tls t')
    | no_tls b ↦
        let (r, b') = (braid_io counting counting counting).poll_write b bs in (r, no_tls b')
  ];
  poll_flush = λ s. elim s [
    | tls t ↦ let (r, t') = counting.poll_flush t in (r, tls t')
    | no_tls b ↦ let (r, b') = (braid_io counting counting counting).poll_flush b in (r, no_tls b')
  ];
  poll_shutdown = λ s. elim s [
    | tls t ↦ let (r, t') = counting.poll_shutdown t in (r, tls t')
    | no_tls b ↦
        let (r, b') = (braid_io counting counting counting).poll_shutdown b in (r, no_tls b')
  ];
}

pub passing-Refines : Refines (braid_io counting counting counting) passing no_tls
passing-Refines s (read n) = refl
passing-Refines s (write bs) = refl
passing-Refines s flush = refl
passing-Refines s shutdown = refl

abbrev pub some_ops : List Op
some_ops = write (1 ∷ []) ∷ read 8 ∷ shutdown ∷ []

stream_of-perform_all_example :
    (perform_all (stream_io passing) (stream_of_tcp 3) some_ops
      ≡ ((perform_all counting 3 some_ops).0, stream_of_tcp (perform_all counting 3 some_ops).1))
    × (perform_all (stream_io passing) (stream_of_duplex 4) some_ops ≡ (
      (perform_all counting 4 some_ops).0,
      stream_of_duplex (perform_all counting 4 some_ops).1,
    ))
    × (perform_all (stream_io passing) (stream_of_unix 5) some_ops
        ≡ ((perform_all counting 5 some_ops).0, stream_of_unix (perform_all counting 5 some_ops).1))
stream_of-perform_all_example =
    stream_of-perform_all counting counting counting passing passing-Refines some_ops 3 4 5

abbrev secured : ℕ → String → ℕ → ℕ
secured io domain config = io + config

-- hyper's sender as a number of requests sent.
abbrev counter : Sender ℕ (Request sample_http ℕ) ℕ ℕ
counter = record {
  send_request = λ s req. (req.body, s + 1);
  poll_ready = λ s. (ready (ok tt), s);
  is_ready = λ s. true;
  clone = λ s. s;
}

auto_connection-Agrees_example :
    Agrees
      (http1_connection sample_http counter)
      (auto_connection sample_http counter counter)
      (λ req. req)
      (λ c. h1 c.sender)
    × Agrees
        (http2_connection sample_http counter)
        (auto_connection sample_http counter counter)
        (λ req. record req { version = http_2 })
        (λ c. h2 c.sender)
auto_connection-Agrees_example = auto_connection-Agrees sample_http counter counter

abbrev store : Store
store = record { ident = 65535; flags = λ c. true; next = 2 }

abbrev sender : MockSender
sender = record { id = 1; stream = record { open_flag = 0; reusable = true; id = 2 } }

-- Two clients of one service, whose clone is a zero.
abbrev no_clients : Clients ℕ
no_clients = record { handles = []; cells = λ c. 9; next = 0 }

abbrev zeroed : ℕ → ℕ
zeroed s = 0

abbrev poll_number : ℕ → Poll (Result (Unit {0}) ℕ) × ℕ
poll_number s = (ready (ok tt), s + 1)

abbrev two_clients : Clients ℕ
two_clients = clone_client 0 (new_from_service 5 no_clients)

two_clients-Reach : Reach zeroed poll_number ◌+◌ two_clients
two_clients-Reach = Apart.cloned 0 (Apart.made 5 (Apart.start no_clients refl))

request-Apart_example :
    ((p : ℕ × Clients ℕ) × (request zeroed ◌+◌ 7 1 two_clients ≡ some p)
      × Apart zeroed (λ s. (s + 7, zeroed s)) 1 5 two_clients p)
    × ((p : Poll (Result (Unit {0}) ℕ) × Clients ℕ) × (poll_ready zeroed poll_number 1 two_clients
          ≡ some p)
        × Apart zeroed poll_number 1 5 two_clients p)
unfolding service_of new_from_service clone_client
request-Apart_example =
    request-Apart zeroed poll_number ◌+◌ 7 1 5 two_clients two_clients-Reach refl
