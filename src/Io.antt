-- ===== src/Io.antt =====
-- What the connection code uses of std::io and of hyper's `Read`: io errors by kind, and the byte
-- source as an interface. `poll_read s n` is a read into a buffer with room for `n` bytes; it answers
-- the bytes put there. `content` is the specification's view: the bytes that the source has yet to
-- give. The laws are those of hyper::rt::Read: a read fits its buffer, gives the next bytes in order,
-- and one that does not deliver takes nothing from the source.
use hyperdriver.Base.{
  ℕ, ◌≤◌, ◌≡◌, List, ◌++◌, length, String, Result, ok, err, Poll, ready, pending,
}

-- The kinds of std::io::ErrorKind that the source makes; `other` is any error that it passes on.
pub data ErrorKind : Type 0 where
  interrupted invalid_data addr_not_available other : ErrorKind

pub record IoError : Type 0 where
  pub kind : ErrorKind
  pub message : String

-- `io::Error::from(kind)`.
abbrev pub from_kind : ErrorKind → IoError
from_kind k = record { kind = k; message = "" }

abbrev pub ReadResult : Type 0
ReadResult = Poll (Result (List ℕ) IoError)

pub record Reader : Type 1 where
  pub State : Type 0
  pub poll_read : State → ℕ → ReadResult × State
  pub content : State → List ℕ
  pub read_fits :
      (s : State) (n : ℕ) (bs : List ℕ) → (poll_read s n).0 ≡ ready (ok bs) → length bs ≤ n
  pub read_content :
      (s : State) (n : ℕ) (bs : List ℕ)
      → (poll_read s n).0 ≡ ready (ok bs)
      → content s ≡ bs ++ content (poll_read s n).1
  pub pending_content :
      (s : State) (n : ℕ) → (poll_read s n).0 ≡ pending → content (poll_read s n).1 ≡ content s
  pub error_content :
      (s : State) (n : ℕ) (e : IoError)
      → (poll_read s n).0 ≡ ready (err e)
      → content (poll_read s n).1 ≡ content s
