-- ===== src/Bridge.antt =====
-- src/bridge/io.rs: `TokioIo`, which makes hyper's `Read` of tokio's `AsyncRead` and the other way
-- round. The two buffers are those of the libraries, with what the bridge calls on them.
pub mod Appends
pub mod Sources
use hyperdriver.Base.{
  ℕ, ◌+◌, ◌-◌, max, leb, Bool, if◌then◌else◌, List, [], ◌∷◌, ◌++◌, length, Result, ok, err, Poll,
  ready, pending, Outcome, value, panic, ◌>>=◌,
}
use hyperdriver.Io.{ReadResult, IoError}

-- `tokio::io::ReadBuf`: the filled bytes, how many bytes are initialised, and how many there are.
pub record ReadBuf : Type 0 where
  pub filled : List ℕ
  pub initialized : ℕ
  pub capacity : ℕ

-- `ReadBuf::uninit`.
unfoldable pub uninit : ℕ → ReadBuf
uninit n = record { filled = []; initialized = 0; capacity = n }

-- `ReadBuf::assume_init`: the first `n` unfilled bytes are initialised.
assume_init : ℕ → ReadBuf → ReadBuf
assume_init n b = record b { initialized = max b.initialized (length b.filled + n) }

-- `ReadBuf::set_filled`, on a buffer whose bytes behind the filled ones are `bs`; it panics if more
-- are to be filled than are initialised.
set_filled : ℕ → List ℕ → ReadBuf → Outcome ReadBuf
set_filled n bs b =
    if leb n b.initialized then value (record b { filled = b.filled ++ bs }) else panic

-- What tokio's `AsyncRead::poll_read` answers, and hyper's writes.
abbrev pub AsyncResult : Type 0 → Type 0
AsyncResult I = Poll (Result (Unit {0}) IoError) × ReadBuf × I

module _ {I : Type 0} where
  -- `tokio::io::AsyncRead for TokioIo`: the answer of hyper's `poll_read` goes into tokio's buffer.
  filled_by : ReadBuf → ReadResult × I → Outcome (AsyncResult I)
  unfolding assume_init set_filled
  filled_by b (ready (ok bs), io) =
      let n_filled = length b.filled + length bs in
      set_filled n_filled bs (assume_init (length bs) b) >>= (λ b'. value (ready (ok tt), b', io))
  filled_by b (ready (err e), io) = value (ready (err e), b, io)
  filled_by b (pending, io) = value (pending, b, io)

  pub async_read : (I → ℕ → ReadResult × I) → I → ReadBuf → Outcome (AsyncResult I)
  unfolding filled_by
  async_read poll_read io b = filled_by b (poll_read io (b.capacity - length b.filled))

  -- `hyper::rt::Read for TokioIo`: tokio reads into a buffer of its own, whose filled bytes hyper's
  -- cursor then advances over.
  unfoldable pub answered : AsyncResult I → ReadResult × I
  answered (ready (ok u), b, io) = (ready (ok b.filled), io)
  answered (ready (err e), b, io) = (ready (err e), io)
  answered (pending, b, io) = (pending, io)

  pub hyper_read : (I → ReadBuf → Outcome (AsyncResult I)) → I → ℕ → Outcome (ReadResult × I)
  unfolding answered uninit
  hyper_read poll_read io n = poll_read io (uninit n) >>= (λ r. value (answered r))

-- `Write` and `AsyncWrite` for `TokioIo`: each method is a call of the same method of `inner`.
pub record TokioIo (I : Type 0) : Type 0 where
  pub inner : I

pub write {ℓ} : {I : Type 0} {A : Type ℓ} → (I → A × I) → TokioIo I → A × TokioIo I
write call io = let (result, inner') = call io.inner in (result, record { inner = inner' })
