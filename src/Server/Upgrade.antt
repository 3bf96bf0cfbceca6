-- ===== src/Server/Upgrade.antt =====
-- src/server/conn/auto.rs, `UpgradableConnection`: detect the protocol, then serve with hyper's
-- HTTP/1 or HTTP/2 connection. hyper's connections are the parameter `Hyper`.
pub mod Steps
pub mod Live
use hyperdriver.Base.{
  ℕ, zero, suc, Option, none, some, Result, ok, err, Poll, ready, pending, Outcome, value, panic,
  map_err, map_ready,
}
use hyperdriver.Io.{Reader, IoError}
use hyperdriver.Rewind.{Rewind}
use hyperdriver.Server.ReadVersion
use hyperdriver.Server.ReadVersion.{ReadVersion, PollResult}

-- hyper::server::conn: http1 (with upgrades) and http2, each built with its configuration.
pub record Hyper (I S : Type 0) : Type 1 where
  pub Http1 : Type 0
  pub Http2 : Type 0
  pub Error : Type 0
  pub serve_http1 : Rewind I → S → Http1
  pub serve_http2 : Rewind I → S → Http2
  pub poll_http1 : Http1 → Poll (Result (Unit {0}) Error) × Http1
  pub poll_http2 : Http2 → Poll (Result (Unit {0}) Error) × Http2
  pub shutdown_http1 : Http1 → Http1
  pub shutdown_http2 : Http2 → Http2

-- src/server/conn/mod.rs, `ConnectionError`; `B` stands for the boxed errors of services.
pub data ConnectionError (E B : Type 0) : Type 0 where
  hyper : E → ConnectionError E B
  service : B → ConnectionError E B
  protocol : IoError → ConnectionError E B

module _ (r : Reader) {S : Type 0} (B : Type 0) (h : Hyper r.State S) where
  pub data ConnectionState : Type 0 where
    read_version : ReadVersion r.State → Option S → ConnectionState
    http1 : h.Http1 → ConnectionState
    http2 : h.Http2 → ConnectionState

  abbrev pub Answer : Type 0
  Answer = Outcome (Poll (Result (Unit {0}) (ConnectionError h.Error B)))

  -- `Builder::serve_connection_with_upgrades`.
  unfoldable pub serve_connection : r.State → S → ConnectionState
  serve_connection io s = read_version (ReadVersion.new io) (some s)

  -- `graceful_shutdown`.
  unfoldable pub graceful_shutdown : ConnectionState → ConnectionState
  graceful_shutdown (http1 conn) = http1 (h.shutdown_http1 conn)
  graceful_shutdown (http2 conn) = http2 (h.shutdown_http2 conn)
  graceful_shutdown (read_version rv s) = read_version (ReadVersion.cancel rv) s

  -- `service.take().unwrap()`, and the connection for the protocol that was detected.
  unfoldable pub serve : ReadVersion.HttpProtocol → Rewind r.State → S → ConnectionState
  serve ReadVersion.http1 w s = http1 (h.serve_http1 w s)
  serve ReadVersion.http2 w s = http2 (h.serve_http2 w s)

  -- The case `ReadVersion` of the loop in `poll`; `again` is its next round.
  on_version :
      (ConnectionState → Answer × ConnectionState)
      → Option S
      → PollResult r.State × ReadVersion r.State
      → Answer × ConnectionState
  unfolding serve
  on_version again s (value pending, rv) = (value pending, read_version rv s)
  on_version again s (value (ready (err e)), rv) =
      (value (ready (err (protocol e))), read_version rv s)
  on_version again none (value (ready (ok (v, w))), rv) = (panic, read_version rv none)
  on_version again (some s) (value (ready (ok (v, w))), rv) = again (serve v w s)
  on_version again s (panic, rv) = (panic, read_version rv s)

  -- The loop in `poll`, with at most `n` rounds.
  pub rounds : ℕ → ConnectionState → Answer × ConnectionState
  unfolding on_version
  rounds zero st = (panic, st)
  rounds (suc n) (read_version rv s) = on_version (rounds n) s (ReadVersion.poll r.poll_read rv)
  rounds (suc n) (http1 conn) =
      let (result, conn') = h.poll_http1 conn in
      (value (map_ready (map_err hyper) result), http1 conn')
  rounds (suc n) (http2 conn) =
      let (result, conn') = h.poll_http2 conn in
      (value (map_ready (map_err hyper) result), http2 conn')

  -- `UpgradableConnection::poll`: a detection, and one poll of what it led to.
  unfoldable pub poll : ConnectionState → Answer × ConnectionState
  unfolding rounds
  poll = rounds 2
