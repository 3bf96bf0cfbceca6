-- ===== src/Bridge/Appends.antt =====
-- The bridge keeps the bytes: a read through it puts the next bytes of the source behind those that
-- are in the buffer, and reading through it both ways is reading the source.
use hyperdriver.Base.{
  ℕ, ◌+◌, ◌-◌, ◌≤◌, ◌≡◌, refl, ap, ◌∙◌, max, leb, true, List, ◌++◌, length, length-append, ok, err,
  ready, pending, Outcome, value, ◌>>=◌, arith,
}
use hyperdriver.Io.{Reader, ReadResult}
use hyperdriver.Bridge.{
  ReadBuf, uninit, assume_init, set_filled, AsyncResult, filled_by, async_read, answered,
  hyper_read,
}

-- The filled bytes are initialised, and the initialised ones are there.
pub record IsValid (b : ReadBuf) : Type 0 where
  pub filled : length b.filled ≤ b.initialized
  pub initialized : b.initialized ≤ b.capacity

leb_of_le : (a b : ℕ) → a ≤ b → leb a b ≡ true
leb_of_le a b h = ground arith

module _ (r : Reader) where
  -- What a read through the bridge gives, by what the source answers.
  abbrev pub Appended : ReadBuf → ReadResult × r.State → Outcome (AsyncResult r.State) → Type 0
  Appended b (ready (ok bs), io) o =
      (b' : ReadBuf) × (o ≡ value (ready (ok tt), b', io))
      × (b'.filled ≡ b.filled ++ bs)
      × (b'.capacity ≡ b.capacity)
      × IsValid b'
  Appended b (ready (err e), io) o = o ≡ value (ready (err e), b, io)
  Appended b (pending, io) o = o ≡ value (pending, b, io)

  filled_by-Appended :
      (b : ReadBuf) (p : ReadResult × r.State)
      → IsValid b
      → ((bs : List ℕ) → p.0 ≡ ready (ok bs) → length bs ≤ b.capacity - length b.filled)
      → Appended b p (filled_by b p)
  unfolding filled_by set_filled assume_init
  filled_by-Appended b (ready (ok bs), io) v fits =
      let room : length bs ≤ b.capacity - length b.filled = fits bs refl in
      let enough : leb (length b.filled + length bs)
            (max b.initialized (length b.filled + length bs))
          ≡ true =
        leb_of_le _ _ (omega arith) in
      (
        record b {
          filled = b.filled ++ bs;
          initialized = max b.initialized (length b.filled + length bs);
        },
        rw enough refl,
        refl,
        refl,
        record {
          filled = omega (arith, length-append b.filled bs);
          initialized = omega (arith, v.filled, v.initialized);
        },
      )
  filled_by-Appended b (ready (err e), io) v fits = refl
  filled_by-Appended b (pending, io) v fits = refl

  -- A read through the bridge into a valid buffer of tokio never panics, and keeps it valid: the
  -- bytes that the source gives stand behind those that were there, and an error or a pending read
  -- leaves the buffer as it is.
  async_read-Appended :
      (io : r.State) (b : ReadBuf)
      → IsValid b
      → Appended b (r.poll_read io (b.capacity - length b.filled)) (async_read r.poll_read io b)
  unfolding async_read
  async_read-Appended io b v =
      filled_by-Appended b (r.poll_read io (b.capacity - length b.filled)) v
        (r.read_fits io (b.capacity - length b.filled))

  answered_by :
      (n : ℕ) (p : ReadResult × r.State)
      → ((bs : List ℕ) → p.0 ≡ ready (ok bs) → length bs ≤ n)
      → (filled_by (uninit n) p >>= (λ x. value (answered x))) ≡ value p
  unfolding filled_by set_filled assume_init uninit answered
  answered_by n (ready (ok bs), io) fits =
      rw (leb_of_le (0 + length bs) (max 0 (0 + length bs)) (omega arith)) refl
  answered_by n (ready (err e), io) fits = refl
  answered_by n (pending, io) fits = refl

  -- Reading a source of hyper through tokio's trait and back through hyper's is reading it: the same
  -- answers with the same bytes, and the same source afterwards.
  hyper_read-async_read :
      (io : r.State) (n : ℕ) → hyper_read (async_read r.poll_read) io n ≡ value (r.poll_read io n)
  unfolding hyper_read async_read uninit
  hyper_read-async_read io n =
      let same : n - 0 ≡ n = omega arith in
      ap (λ k. filled_by (uninit n) (r.poll_read io k) >>= (λ x. value (answered x))) same
      ∙ answered_by n (r.poll_read io n) (r.read_fits io n)
