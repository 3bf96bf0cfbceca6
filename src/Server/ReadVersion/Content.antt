-- ===== src/Server/ReadVersion/Content.antt =====
-- `ReadVersion::poll` ends within its loop's bound, and every byte that it took from the connection
-- is in its buffer or in the rewound reader that it returns.
use hyperdriver.Base.{
  ℕ, zero, suc, ◌+◌, ◌-◌, ◌<◌, ◌≤◌, ◌≡◌, refl, sym, ap, ◌∙◌, Bool, true, false, List, [], ◌∷◌, ◌++◌,
  Option, none, some, length, take, length-append, ok, err, ready, pending, value, panic, arith,
  append_assoc, Bool-cases, inl, inr, ltb, ltb→lt, if◌then◌else◌,
}
use hyperdriver.Io.{Reader, ReadResult, IoError, interrupted, from_kind}
use hyperdriver.Rewind.Content.{rewound, rewound-new}
use hyperdriver.Server.ReadVersion.{
  ReadVersion, HttpProtocol, prefix_len, new, cancel, Exit, blocked, failed, finished, out_of_fuel,
  is_http1, on_read, read_loop, PollResult, settle, poll_io, poll, drive_on, drive,
}

module _ (r : Reader) where
  open r use {State, content, read_fits, read_content, pending_content, error_content}

  -- The loop was left, with all bytes of `total` in the buffer or still to be read.
  abbrev Keeps : List ℕ → Exit State → Type 0
  Keeps total (blocked io buf) = (buf ++ content io ≡ total) × (length buf ≤ prefix_len)
  Keeps total (failed e io buf) = (buf ++ content io ≡ total) × (length buf ≤ prefix_len)
  Keeps total (finished v io buf) = (buf ++ content io ≡ total) × (length buf ≤ prefix_len)
  Keeps total out_of_fuel = ⊥

  -- What the laws of the reader say of one of its reads.
  record Reads (s : State) (n : ℕ) (p : ReadResult × State) : Type 0 where
    fits : (bs : List ℕ) → p.0 ≡ ready (ok bs) → length bs ≤ n
    given : (bs : List ℕ) → p.0 ≡ ready (ok bs) → content s ≡ bs ++ content p.1
    waits : p.0 ≡ pending → content p.1 ≡ content s
    fails : (e : IoError) → p.0 ≡ ready (err e) → content p.1 ≡ content s

  poll_read-Reads : (s : State) (n : ℕ) → Reads s n (r.poll_read s n)
  poll_read-Reads s n = record {
    fits = read_fits s n;
    given = read_content s n;
    waits = pending_content s n;
    fails = error_content s n;
  }

  module _ (again : State → List ℕ → Exit State) (buf : List ℕ)
      (more : (io : State) (filled : List ℕ)
        → length buf < length filled
        → length filled ≤ prefix_len
        → Keeps (filled ++ content io) (again io filled)) where
    on_read-Keeps :
        (s : State) (p : ReadResult × State)
        → length buf < prefix_len
        → Reads s (prefix_len - length buf) p
        → Keeps (buf ++ content s) (on_read again buf p)
    unfolding on_read is_http1
    on_read-Keeps s (pending, io) h a = (ap (◌++◌ buf) (a.waits refl), omega arith)
    on_read-Keeps s (ready (err e), io) h a = (ap (◌++◌ buf) (a.fails e refl), omega arith)
    on_read-Keeps s (ready (ok bs), io) h a =
        let fits : length bs ≤ prefix_len - length buf = a.fits bs refl in
        let size : length (buf ++ bs) ≡ length buf + length bs = length-append buf bs in
        let whole : (buf ++ bs) ++ content io ≡ buf ++ content s =
          append_assoc buf bs (content io) ∙ ap (◌++◌ buf) (sym (a.given bs refl)) in
        elim (Bool-cases (is_http1 buf (buf ++ bs))) [
          | inl plain ↦ rw plain (whole, omega arith)
          | inr longer ↦ rw longer (rw (← whole) (more io (buf ++ bs) (ground arith) (omega arith)))
        ]

  -- 24 - length buf rounds are enough, since each round but the last adds a byte.
  loop-Keeps :
      (fuel : ℕ) (v : HttpProtocol) (s : State) (buf : List ℕ)
      → prefix_len < fuel + length buf
      → length buf ≤ prefix_len
      → Keeps (buf ++ content s) (read_loop r.poll_read fuel v s buf)
  unfolding read_loop
  loop-Keeps zero v s buf h k = absurd (omega arith)
  loop-Keeps (suc fuel) v s buf h k = elim (Bool-cases (ltb (length buf) prefix_len)) [
    | inl short ↦ rw short (
        on_read-Keeps (read_loop r.poll_read fuel v) buf
          (λ io filled grows fits. loop-Keeps fuel v io filled (omega arith) fits) s _
          (ltb→lt _ _ short) (poll_read-Reads s _))
    | inr full ↦ rw full (refl, k)
  ]

  -- The bytes of the connection that are in the buffer or still to be read.
  abbrev pub bytes_of : ReadVersion State → List ℕ
  bytes_of rv = take rv.filled rv.buf ++ elim rv.io [ none ↦ [] | some s ↦ content s ]

  -- The detection is not finished: it holds the reader, and a full count of its buffer.
  pub record IsOpen (rv : ReadVersion State) : Type 0 where
    pub reader : State
    pub holds : rv.io ≡ some reader
    pub counted : rv.filled ≡ length rv.buf
    pub fits : rv.filled ≤ prefix_len

  -- What a poll gives: it never panics, a pending detection stays open, and the bytes are kept.
  abbrev pub Polled : List ℕ → PollResult State × ReadVersion State → Type 0
  Polled total (value pending, rv) = (bytes_of rv ≡ total) × IsOpen rv
  Polled total (value (ready (err e)), rv) = bytes_of rv ≡ total
  Polled total (value (ready (ok (v, w))), rv) = rewound r w ≡ total
  Polled total (panic, rv) = ⊥

  take-length : (bs : List ℕ) → take (length bs) bs ≡ bs
  take-length [] = refl
  take-length (b ∷ bs) = ap (◌∷◌ b) (take-length bs)

  settle-Polled :
      (total : List ℕ) (rv : ReadVersion State) (x : Exit State)
      → Keeps total x
      → Polled total (settle rv x)
  unfolding settle
  settle-Polled total rv (blocked io buf) (e, fits) =
      (rw (take-length buf) e, record { reader = io; holds = refl; counted = refl; fits = fits })
  settle-Polled total rv (failed x io buf) (e, fits) = rw (take-length buf) e
  settle-Polled total rv (finished v io buf) (e, fits) = rw (rewound-new r io buf) e
  settle-Polled total rv out_of_fuel k = absurd k

  poll_io-Polled :
      (rv : ReadVersion State) (s : State)
      → rv.filled ≡ length rv.buf
      → rv.filled ≤ prefix_len
      → Polled (take rv.filled rv.buf ++ content s) (poll_io r.poll_read (some s) rv)
  unfolding poll_io
  poll_io-Polled rv s e h =
      let size : length (take rv.filled rv.buf) ≡ length rv.buf =
        ap length (ap (λ n. take n rv.buf) e ∙ take-length rv.buf) in
      settle-Polled _ rv _ (
        loop-Keeps (suc prefix_len) rv.version s (take rv.filled rv.buf) (omega arith)
          (omega arith))

  any_io-Polled :
      (rv : ReadVersion State) (io : Option State) (s : State)
      → io ≡ some s
      → rv.filled ≡ length rv.buf
      → rv.filled ≤ prefix_len
      → Polled
          (take rv.filled rv.buf ++ elim io [ none ↦ [] | some s' ↦ content s' ])
          (poll_io r.poll_read io rv)
  any_io-Polled rv none s e c h = cc
  any_io-Polled rv (some s') s e c h = poll_io-Polled rv s' c h

  guard-Polled :
      (rv : ReadVersion State) (cancelled : Bool)
      → IsOpen rv
      → Polled (bytes_of rv) (
          if cancelled
          then (value (ready (err (from_kind interrupted))), rv)
          else poll_io r.poll_read rv.io rv)
  guard-Polled rv true o = refl
  guard-Polled rv false o = any_io-Polled rv rv.io o.reader o.holds o.counted o.fits

  -- One poll of an open detection does not panic: it ends within the loop's bound, and it loses no
  -- byte, whether it is pending, fails, is cancelled or decides.
  pub poll-Polled :
      (rv : ReadVersion State) → IsOpen rv → Polled (bytes_of rv) (poll r.poll_read rv)
  unfolding poll
  poll-Polled rv o = guard-Polled rv rv.cancelled o

  drive_on-Polled :
      (more : ReadVersion State → PollResult State × ReadVersion State)
      → ((rv : ReadVersion State) → IsOpen rv → Polled (bytes_of rv) (more rv))
      → (total : List ℕ) (p : PollResult State × ReadVersion State) → Polled total p
      → Polled total (drive_on r.poll_read more p)
  unfolding drive_on
  drive_on-Polled more ih total (value pending, rv) (e, o) = rw (← e) (ih rv o)
  drive_on-Polled more ih total (value (ready (err x)), rv) h = h
  drive_on-Polled more ih total (value (ready (ok (v, w))), rv) h = h
  drive_on-Polled more ih total (panic, rv) h = h

  -- However often an open detection is polled, it does not panic and no byte is lost: what a decided
  -- detection hands on, read through `Rewind`, is all that the connection had to give.
  pub drive-Polled :
      (n : ℕ) (rv : ReadVersion State) → IsOpen rv → Polled (bytes_of rv) (drive r.poll_read n rv)
  unfolding drive
  drive-Polled zero rv o = poll-Polled rv o
  drive-Polled (suc n) rv o =
      drive_on-Polled (drive r.poll_read n) (drive-Polled n) (bytes_of rv) _ (poll-Polled rv o)

  pub new-IsOpen : (s : State) → IsOpen (new s)
  unfolding new
  new-IsOpen s = record { reader = s; holds = refl; counted = refl; fits = omega arith }

  pub poll-cancel :
      (rv : ReadVersion State)
      → poll r.poll_read (cancel rv) ≡ (value (ready (err (from_kind interrupted))), cancel rv)
  unfolding poll cancel
  poll-cancel rv = refl
