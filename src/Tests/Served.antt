-- ===== src/Tests/Served.antt =====
-- Connections of a server over a hyper that counts its polls.
use hyperdriver.Base.{
  ℕ, ◌+◌, Bool, true, false, List, [], ◌∷◌, if◌then◌else◌, String, ok, err, ready, pending,
}
use hyperdriver.Server.Upgrade.{Hyper}
use hyperdriver.Server.Connecting
use hyperdriver.Server.Connecting.{TowerHyperService, IncomingRequestService, connecting}
use hyperdriver.Server.Connecting.Runs.{Event, poll_it, shut_down}
use hyperdriver.Tests.Chunks.{chunks}
use hyperdriver.Server.ReadVersion
use hyperdriver.Server.Connecting.Runs.Built.{Built, build-run}
use hyperdriver.Tests.Chunks.{Chunk, piece, block}

-- A hyper whose connections count their polls, and are done after a shutdown.
abbrev counting_hyper : Hyper chunks.State (TowerHyperService (IncomingRequestService ℕ))
counting_hyper = record {
  Http1 = ℕ × Bool;
  Http2 = ℕ × Bool;
  Error = ℕ;
  serve_http1 = λ w s. (s.service.inner, false);
  serve_http2 = λ w s. (s.service.inner, false);
  poll_http1 = λ (n, stopped). (if stopped then ready (ok tt) else pending, (n + 1, stopped));
  poll_http2 = λ (n, stopped). (if stopped then ready (err n) else pending, (n + 1, stopped));
  shutdown_http1 = λ (n, stopped). (n, true);
  shutdown_http2 = λ (n, stopped). (n, true);
}

abbrev some_events : List Event
some_events = poll_it ∷ shut_down ∷ poll_it ∷ []

abbrev first_connection : Connecting.Http1Connection (ℕ × Bool)
first_connection = record { conn = (3, false) }

abbrev other_connection : Connecting.Http2Connection (ℕ × Bool)
other_connection = record { conn = (4, false) }

abbrev name : String
name = "auto"

-- A client that begins with a request line, after a while.
abbrev late_request : List Chunk
late_request = block ∷ block ∷ piece (b'G' ∷ b'E' ∷ b'T' ∷ []) ∷ []

build-run_example :
    Built chunks ℕ counting_hyper name 2 late_request 7
      (ReadVersion.drive chunks.poll_read 2 (ReadVersion.new late_request))
build-run_example = build-run chunks ℕ counting_hyper name 2 late_request 7
