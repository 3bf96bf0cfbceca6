-- ===== src/Tests/Sources.antt =====
-- A stream of tokio that gives the pieces it was made of, read by hyper through the bridge and the
-- detection of the protocol.
use hyperdriver.Base.{
  ℕ, ◌+◌, ◌-◌, ◌≤◌, ◌≡◌, refl, max, List, [], ◌∷◌, ◌++◌, length, length-append, ok, err, ready,
  pending, arith,
}
use hyperdriver.Io.{ReadResult, IoError}
use hyperdriver.Rewind
use hyperdriver.Rewind.{Rewind}
use hyperdriver.Rewind.Content.{rewound}
use hyperdriver.Bridge.{ReadBuf, uninit, AsyncResult, answered}
use hyperdriver.Bridge.Appends.{IsValid}
use hyperdriver.Bridge.Sources.{Answers, AsyncSource, bridged, bridge_reader}
use hyperdriver.Server.ReadVersion.{HttpProtocol, http2_prefix, http2, new, poll, drive}
use hyperdriver.Server.Wire.{read_all, drive-read_all}
use hyperdriver.Tests.Chunks
use hyperdriver.Tests.Chunks.{
  Chunk, piece, block, chunks, poll_read-fits, poll_read-given, poll_read-pending, poll_read-fails,
}

abbrev put : ReadBuf → ReadResult × List Chunk → AsyncResult (List Chunk)
put b (ready (ok bs), s) = (
  ready (ok tt),
  record b {
    filled = b.filled ++ bs;
    initialized = max b.initialized (length b.filled + length bs);
  },
  s,
)
put b (ready (err e), s) = (ready (err e), b, s)
put b (pending, s) = (pending, b, s)

put-Answers :
    (s : List Chunk) (b : ReadBuf) (p : ReadResult × List Chunk)
    → IsValid b
    → ((bs : List ℕ) → p.0 ≡ ready (ok bs) → length bs ≤ b.capacity - length b.filled)
    → ((bs : List ℕ) → p.0 ≡ ready (ok bs) → Chunks.content s ≡ bs ++ Chunks.content p.1)
    → (p.0 ≡ pending → Chunks.content p.1 ≡ Chunks.content s)
    → ((x : IoError) → p.0 ≡ ready (err x) → Chunks.content p.1 ≡ Chunks.content s)
    → Answers Chunks.content s b (put b p)
put-Answers s b (ready (ok bs), s') v fits gives waits fails =
    let room : length bs ≤ b.capacity - length b.filled = fits bs refl in
    (bs, refl, omega (arith, length-append b.filled bs, v.filled, v.initialized), gives bs refl)
put-Answers s b (ready (err x), s') v fits gives waits fails = fails x refl
put-Answers s b (pending, s') v fits gives waits fails = waits refl

abbrev source : AsyncSource
source = record {
  State = List Chunk;
  poll_read = λ s b. put b (Chunks.poll_read s (b.capacity - length b.filled));
  content = Chunks.content;
  answers = λ s b v.
      put-Answers s b _ v (poll_read-fits s _) (poll_read-given s _) (poll_read-pending s _)
        (poll_read-fails s _);
}

-- The preface in its own piece, behind a pending read, and the first bytes of a frame.
abbrev sent : List Chunk
sent = block ∷ piece http2_prefix ∷ piece (0 ∷ 0 ∷ 6 ∷ []) ∷ []

abbrev handed_on : Rewind (List Chunk)
handed_on = Rewind.new (piece (0 ∷ 0 ∷ 6 ∷ []) ∷ []) http2_prefix

drive-read_all_example :
    ((read_all (Rewind.poll_read (bridged source)) (20 ∷ 0 ∷ 20 ∷ 2 ∷ []) handed_on).0
        ++ rewound
            (bridge_reader source)
            (read_all (Rewind.poll_read (bridged source)) (20 ∷ 0 ∷ 20 ∷ 2 ∷ []) handed_on).1
      ≡ source.content sent)
    × (◌≡◌ {A = HttpProtocol} http2 http2
        → (rest : List ℕ) × (source.content sent ≡ http2_prefix ++ rest))
unfolding uninit bridged answered drive poll new Chunks.poll_read Rewind.new
drive-read_all_example = drive-read_all source 1 sent http2 handed_on (20 ∷ 0 ∷ 20 ∷ 2 ∷ []) refl
