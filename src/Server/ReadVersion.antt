-- ===== src/Server/ReadVersion.antt =====
-- src/server/conn/auto.rs, `ReadVersion`: recognise HTTP/2 by the first bytes of a connection.
pub mod Rounds
pub mod Detect
pub mod Content
use hyperdriver.Base.{
  ℕ, zero, suc, ◌-◌, ◌==◌, ltb, Bool, true, false, not, ◌||◌, if◌then◌else◌, List, [], ◌∷◌, ◌++◌,
  Option, none, some, length, take, drop, bytes_eq, Result, ok, err, Poll, ready, pending, Outcome,
  value, panic,
}
use hyperdriver.Io.{Reader, ReadResult, IoError, interrupted, from_kind}
use hyperdriver.Rewind
use hyperdriver.Rewind.{Rewind}

pub data HttpProtocol : Type 0 where
  http1 http2 : HttpProtocol

-- `HTTP2_PREFIX`, "PRI * HTTP/2.0\r\n\r\nSM\r\n\r\n".
abbrev pub http2_prefix : List ℕ
http2_prefix =
    b'P' ∷ b'R' ∷ b'I' ∷ b' ' ∷ b'*' ∷ b' ' ∷ b'H' ∷ b'T' ∷ b'T' ∷ b'P' ∷ b'/' ∷ b'2' ∷ b'.' ∷ b'0'
    ∷ 13 ∷ 10 ∷ 13 ∷ 10 ∷ b'S' ∷ b'M' ∷ 13 ∷ 10 ∷ 13 ∷ 10 ∷ []

-- The size of the array `buf`, and `HTTP2_PREFIX.len()`.
abbrev pub prefix_len : ℕ
prefix_len = 24

-- `buf` holds the cells of the array that were written; the others are not initialised.
pub record ReadVersion (I : Type 0) : Type 0 where
  pub io : Option I
  pub buf : List ℕ
  pub filled : ℕ
  pub version : HttpProtocol
  pub cancelled : Bool

-- `ReadVersion::new`.
unfoldable pub new : {I : Type 0} → I → ReadVersion I
new io = record { io = some io; buf = []; filled = 0; version = http2; cancelled = false }

-- `ReadVersion::cancel`.
unfoldable pub cancel : {I : Type 0} → ReadVersion I → ReadVersion I
cancel rv = record rv { cancelled = true }

-- How the `while` loop of `poll` is left: by the early returns of `ready!` and `?`, or at its end.
-- Each carries the reader and the filled part of the buffer.
pub data Exit (I : Type 0) : Type 0 where
  blocked : I → List ℕ → Exit I
  failed : IoError → I → List ℕ → Exit I
  finished : HttpProtocol → I → List ℕ → Exit I
  out_of_fuel : Exit I

-- The test after a read; `buf` is the filled part before it and `filled` the one after it.
is_http1 : List ℕ → List ℕ → Bool
is_http1 buf filled =
    length filled == length buf
    || not (bytes_eq (drop (length buf) filled) (drop (length buf) http2_prefix))

-- The loop's body behind `poll_read`; `again` is the next round.
pub on_read : {I : Type 0} → (I → List ℕ → Exit I) → List ℕ → ReadResult × I → Exit I
on_read again buf (pending, io) = blocked io buf
on_read again buf (ready (err e), io) = failed e io buf
on_read again buf (ready (ok bs), io) =
    let more = again io (buf ++ bs) in
    if is_http1 buf (buf ++ bs) then finished http1 io (buf ++ bs) else more

pub read_loop : {I : Type 0} → (I → ℕ → ReadResult × I) → ℕ → HttpProtocol → I → List ℕ → Exit I
unfolding on_read is_http1
read_loop poll_read zero version io buf = out_of_fuel
read_loop poll_read (suc fuel) version io buf =
    let again = read_loop poll_read fuel version in
    let round = on_read again buf (poll_read io (prefix_len - length buf)) in
    if ltb (length buf) prefix_len then round else finished version io buf

abbrev pub PollResult : Type 0 → Type 0
PollResult I = Outcome (Poll (Result (HttpProtocol × Rewind I) IoError))

-- The end of `poll`, and what it leaves in the fields.
settle : {I : Type 0} → ReadVersion I → Exit I → PollResult I × ReadVersion I
settle rv (blocked io buf) =
    (value pending, record rv { io = some io; buf = buf; filled = length buf })
settle rv (failed e io buf) =
    (value (ready (err e)), record rv { io = some io; buf = buf; filled = length buf })
settle rv (finished version io buf) = (
  value (ready (ok (version, Rewind.new io buf))),
  record rv { io = none; buf = buf; filled = length buf; version = version },
)
settle rv out_of_fuel = (panic, rv)

module _ {I : Type 0} (poll_read : I → ℕ → ReadResult × I) where
  -- `this.io.as_mut().unwrap()` and `this.io.take().unwrap()`: a poll after completion panics.
  poll_io : Option I → ReadVersion I → PollResult I × ReadVersion I
  poll_io none rv = (panic, rv)
  poll_io (some io) rv =
      settle rv (read_loop poll_read (suc prefix_len) rv.version io (take rv.filled rv.buf))

  -- `ReadVersion::poll`.
  unfoldable pub poll : ReadVersion I → PollResult I × ReadVersion I
  unfolding poll_io settle read_loop
  poll rv =
      if rv.cancelled then (value (ready (err (from_kind interrupted))), rv) else poll_io rv.io rv

  -- What an executor does with a polled future: again after `Pending`, else done.
  unfoldable pub drive_on :
      (ReadVersion I → PollResult I × ReadVersion I)
      → PollResult I × ReadVersion I
      → PollResult I × ReadVersion I
  drive_on more (value pending, rv') = more rv'
  drive_on more (value (ready x), rv') = (value (ready x), rv')
  drive_on more (panic, rv') = (panic, rv')

  -- A task polls the future, and after `Pending` at most `n` more times.
  unfoldable pub drive : ℕ → ReadVersion I → PollResult I × ReadVersion I
  unfolding drive_on
  drive zero rv = poll rv
  drive (suc n) rv = drive_on (drive n) (poll rv)
