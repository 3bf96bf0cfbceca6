-- ===== src/Server/Wire.antt =====
-- From the socket to hyper: tokio's stream behind `TokioIo`, the detection of the protocol, and the
-- rewound reader that hyper is handed.
use hyperdriver.Base.{
  ℕ, ◌≡◌, refl, sym, ap, ◌∙◌, List, [], ◌∷◌, ◌++◌, append_assoc, ok, err, ready, pending, value,
  panic, arith,
}
use hyperdriver.Io.{Reader, ReadResult}
use hyperdriver.Rewind.{Rewind, poll_read}
use hyperdriver.Rewind.Content.{rewound, rewind_reader}
use hyperdriver.Bridge.Sources.{AsyncSource, bridged, bridge_reader}
use hyperdriver.Server.ReadVersion.{
  ReadVersion, HttpProtocol, http2, http2_prefix, new, PollResult, drive,
}
use hyperdriver.Server.ReadVersion.Content.{Polled, drive-Polled, new-IsOpen}
use hyperdriver.Server.ReadVersion.Detect.{drive-http2_iff}
use hyperdriver.Server.ReadVersion.Rounds.{verdict}
use hyperdriver.Server.ReadVersion.Detect.First.{first_read-content}

-- The bytes of a read, if it was answered with some.
given : ReadResult → List ℕ
given (ready (ok bs)) = bs
given (ready (err e)) = []
given pending = []

-- Reads into buffers of the given sizes, whatever they answer, and all bytes that they got.
unfoldable pub read_all : {I : Type 0} → (I → ℕ → ReadResult × I) → List ℕ → I → List ℕ × I
unfolding given
read_all poll_read [] s = ([], s)
read_all poll_read (n ∷ ns) s =
    let (result, s') = poll_read s n in
    let (bs, s'') = read_all poll_read ns s' in (given result ++ bs, s'')

module _ (r : Reader) where
  read-content :
      (s : r.State) (n : ℕ) (x : ReadResult)
      → (r.poll_read s n).0 ≡ x
      → given x ++ r.content (r.poll_read s n).1 ≡ r.content s
  unfolding given
  read-content s n (ready (ok bs)) e = sym (r.read_content s n bs e)
  read-content s n (ready (err x)) e = r.error_content s n x e
  read-content s n pending e = r.pending_content s n e

  read_all-content :
      (ns : List ℕ) (s : r.State)
      → (read_all r.poll_read ns s).0 ++ r.content (read_all r.poll_read ns s).1 ≡ r.content s
  unfolding read_all
  read_all-content [] s = refl
  read_all-content (n ∷ ns) s =
      append_assoc (given (r.poll_read s n).0) _ _
      ∙ ap (◌++◌ (given (r.poll_read s n).0)) (read_all-content ns (r.poll_read s n).1)
      ∙ read-content s n (r.poll_read s n).0 refl

module _ (r : Reader) where
  Polled-rewound :
      (total : List ℕ) (p : PollResult r.State × ReadVersion r.State) (v : HttpProtocol)
      (w : Rewind r.State)
      → Polled r total p
      → p.0 ≡ value (ready (ok (v, w)))
      → rewound r w ≡ total
  Polled-rewound total (value pending, rv) v w k e = cc
  Polled-rewound total (value (ready (err x)), rv) v w k e = cc
  Polled-rewound total (value (ready (ok (v', w'))), rv) v w k e =
      let same : w' ≡ w = ground arith in rw (← same) k
  Polled-rewound total (panic, rv) v w k e = absurd k

  decided :
      (n : ℕ) (s : r.State) (v : HttpProtocol) (w : Rewind r.State)
      → (drive r.poll_read n (new s)).0 ≡ value (ready (ok (v, w)))
      → rewound r w ≡ r.content s
  unfolding new
  decided n s v w e =
      Polled-rewound (r.content s) (drive r.poll_read n (new s)) v w
        (drive-Polled r n (new s) (new-IsOpen r s)) e

  preface :
      (n : ℕ) (s : r.State) (w : Rewind r.State)
      → (drive r.poll_read n (new s)).0 ≡ value (ready (ok (http2, w)))
      → (rest : List ℕ) × (r.content s ≡ http2_prefix ++ rest)
  preface n s w e =
      first_read-content r n s http2_prefix ((drive-http2_iff r.poll_read n s).0 (ap verdict e))

module _ (t : AsyncSource) where
  -- What hyper reads is what the client sent. When the detection on a stream of tokio behind
  -- `TokioIo` has decided, after however many pending polls, hyper may read through the rewound reader
  -- as often as it likes and into buffers of any sizes, also when reads fail or wait: the bytes that it
  -- gets, with those left, are all that the stream had at first, in order. And if the detection
  -- decided for HTTP/2, they start with the preface.
  pub drive-read_all :
      (n : ℕ) (s : t.State) (v : HttpProtocol) (w : Rewind t.State) (sizes : List ℕ)
      → (drive (bridged t) n (new s)).0 ≡ value (ready (ok (v, w)))
      → ((read_all (poll_read (bridged t)) sizes w).0
            ++ rewound (bridge_reader t) (read_all (poll_read (bridged t)) sizes w).1
          ≡ t.content s)
        × (v ≡ http2 → (rest : List ℕ) × (t.content s ≡ http2_prefix ++ rest))
  unfolding rewind_reader
  drive-read_all n s v w sizes e = (
    read_all-content (rewind_reader (bridge_reader t)) sizes w
        ∙ decided (bridge_reader t) n s v w e,
    λ h. preface (bridge_reader t) n s w (e ∙ ap (λ x. value (ready (ok (x, w)))) h),
  )
