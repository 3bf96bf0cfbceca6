-- ===== src/Tests/Streams.antt =====
-- Detection and serving on concrete connections.
use hyperdriver.Base.{
  ℕ, ◌≡◌, refl, ◌≢◌, ◌↔◌, List, [], ◌∷◌, ◌++◌, some, ok, err, ready, pending, value, panic, arith,
}
use hyperdriver.Io.{interrupted, from_kind}
use hyperdriver.Server.ReadVersion.{http2_prefix, http1, http2, new, drive}
use hyperdriver.Server.ReadVersion.Content.{Polled, bytes_of, drive-Polled, new-IsOpen}
use hyperdriver.Server.ReadVersion.Detect.{first_read, drive-http2_iff, drive-http1_of_split}
use hyperdriver.Server.ReadVersion.Rounds.{verdict}
use hyperdriver.Server.Upgrade.{
  Hyper, read_version, serve_connection, graceful_shutdown, poll, protocol,
}
use hyperdriver.Server.Upgrade.Live.{start, shut, Reach-ne-panic, shutdown_before_version}
use hyperdriver.Tests.Chunks
use hyperdriver.Tests.Chunks.{Chunk, piece, block, fault, chunks}

-- The preface after a pending read, and the preface in two pieces.
abbrev late_preface : List Chunk
late_preface = block ∷ piece (http2_prefix ++ 7 ∷ []) ∷ []

abbrev split_preface : List Chunk
split_preface = piece (b'P' ∷ b'R' ∷ []) ∷ piece (b'I' ∷ []) ∷ []

drive-Polled_example :
    Polled chunks (bytes_of chunks (new late_preface)) (drive chunks.poll_read 1 (new late_preface))
drive-Polled_example = drive-Polled chunks 1 (new late_preface) (new-IsOpen chunks late_preface)

drive-http2_iff_example :
    (verdict (drive chunks.poll_read 1 (new late_preface)).0 ≡ some http2)
    ↔ ((first_read chunks.poll_read 1 late_preface).0 ≡ ready (ok http2_prefix))
drive-http2_iff_example = drive-http2_iff chunks.poll_read 1 late_preface

first_late : (first_read chunks.poll_read 1 late_preface).0 ≡ ready (ok http2_prefix)
unfolding first_read Chunks.poll_read
first_late = refl

drive-http1_of_split_example : verdict (drive chunks.poll_read 0 (new split_preface)).0 ≡ some http1
unfolding first_read Chunks.poll_read
drive-http1_of_split_example =
    drive-http1_of_split chunks.poll_read 0 split_preface (b'P' ∷ b'R' ∷ []) _ refl (omega arith)
      refl

-- A hyper whose connections end at once.
abbrev hyper_sample : Hyper chunks.State ℕ
hyper_sample = record {
  Http1 = ℕ;
  Http2 = ℕ;
  Error = ℕ;
  serve_http1 = λ w s. s;
  serve_http2 = λ w s. s;
  poll_http1 = λ c. (ready (ok tt), c);
  poll_http2 = λ c. (pending, c);
  shutdown_http1 = λ c. c;
  shutdown_http2 = λ c. c;
}

Reach-ne-panic_example :
    (poll chunks ℕ hyper_sample (
      graceful_shutdown chunks ℕ hyper_sample
        (serve_connection chunks ℕ hyper_sample late_preface 5))).0
    ≢ panic
Reach-ne-panic_example = Reach-ne-panic chunks ℕ hyper_sample late_preface 5 (shut start)

shutdown_before_version_example :
    poll chunks ℕ hyper_sample
      (graceful_shutdown chunks ℕ hyper_sample (read_version (new split_preface) (some 5)))
    ≡ (
      value (ready (err (protocol (from_kind interrupted)))),
      graceful_shutdown chunks ℕ hyper_sample (read_version (new split_preface) (some 5)),
    )
shutdown_before_version_example =
    shutdown_before_version chunks ℕ hyper_sample (new split_preface) (some 5)

abbrev preface : List Chunk
preface = piece http2_prefix ∷ piece (9 ∷ []) ∷ []
