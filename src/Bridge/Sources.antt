-- ===== src/Bridge/Sources.antt =====
-- src/bridge/io.rs, `hyper::rt::Read for TokioIo`, over a source of tokio: what tokio's trait promises
-- is enough for what hyper's promises.
use hyperdriver.Base.{
  ℕ, ◌≤◌, ◌≡◌, refl, sym, ap, ◌∙◌, List, ◌++◌, length, ok, err, ready, pending, value, arith,
}
use hyperdriver.Io.{Reader, ReadResult, IoError}
use hyperdriver.Bridge.{ReadBuf, uninit, AsyncResult, answered, hyper_read}
use hyperdriver.Bridge.Appends.{IsValid}

module _ {I : Type 0} (content : I → List ℕ) where
  -- tokio's contract of `AsyncRead::poll_read`: a read that is done has put the next bytes behind
  -- those of the buffer, within its capacity, and one that is not has taken none.
  abbrev pub Answers : I → ReadBuf → AsyncResult I → Type 0
  Answers s b (ready (ok u), b', s') =
      (bs : List ℕ) × (b'.filled ≡ b.filled ++ bs)
      × (length b'.filled ≤ b.capacity)
      × (content s ≡ bs ++ content s')
  Answers s b (ready (err e), b', s') = content s' ≡ content s
  Answers s b (pending, b', s') = content s' ≡ content s

-- A source of tokio, with the bytes that it has yet to give.
pub record AsyncSource : Type 1 where
  pub State : Type 0
  pub poll_read : State → ReadBuf → AsyncResult State
  pub content : State → List ℕ
  pub answers : (s : State) (b : ReadBuf) → IsValid b → Answers content s b (poll_read s b)

uninit-IsValid : (n : ℕ) → IsValid (uninit n)
unfolding uninit
uninit-IsValid n = record { filled = omega arith; initialized = omega arith }

module _ (t : AsyncSource) where
  -- One read by hyper, as `hyper_read` has it.
  unfoldable pub bridged : t.State → ℕ → ReadResult × t.State
  unfolding answered
  bridged s n = answered (t.poll_read s (uninit n))

  hyper_read-bridged :
      (s : t.State) (n : ℕ) → hyper_read (λ s b. value (t.poll_read s b)) s n ≡ value (bridged s n)
  unfolding hyper_read bridged
  hyper_read-bridged s n = refl

  fits :
      (s : t.State) (n : ℕ) (p : AsyncResult t.State) (bs : List ℕ)
      → Answers t.content s (uninit n) p
      → (answered p).0 ≡ ready (ok bs)
      → length bs ≤ n
  unfolding answered uninit
  fits s n (ready (ok u), b, s') bs (cs, e, h, c) same =
      let filled : b.filled ≡ bs = ground arith in rw (← filled) h
  fits s n (ready (err x), b, s') bs a same = cc
  fits s n (pending, b, s') bs a same = cc

  gives :
      (s : t.State) (n : ℕ) (p : AsyncResult t.State) (bs : List ℕ)
      → Answers t.content s (uninit n) p
      → (answered p).0 ≡ ready (ok bs)
      → t.content s ≡ bs ++ t.content (answered p).1
  unfolding answered uninit
  gives s n (ready (ok u), b, s') bs (cs, e, h, c) same =
      let filled : b.filled ≡ bs = ground arith in c ∙ ap (λ x. x ++ t.content s') (sym e ∙ filled)
  gives s n (ready (err x), b, s') bs a same = cc
  gives s n (pending, b, s') bs a same = cc

  waits :
      (s : t.State) (n : ℕ) (p : AsyncResult t.State)
      → Answers t.content s (uninit n) p
      → (answered p).0 ≡ pending
      → t.content (answered p).1 ≡ t.content s
  unfolding answered
  waits s n (ready (ok u), b, s') a same = cc
  waits s n (ready (err x), b, s') a same = a
  waits s n (pending, b, s') a same = a

  fails :
      (s : t.State) (n : ℕ) (p : AsyncResult t.State) (x : IoError)
      → Answers t.content s (uninit n) p
      → (answered p).0 ≡ ready (err x)
      → t.content (answered p).1 ≡ t.content s
  unfolding answered
  fails s n (ready (ok u), b, s') x a same = ground arith
  fails s n (ready (err y), b, s') x a same = a
  fails s n (pending, b, s') x a same = a

  asked : (s : t.State) (n : ℕ) → Answers t.content s (uninit n) (t.poll_read s (uninit n))
  asked s n = t.answers s (uninit n) (uninit-IsValid n)

  pub bridged_fits :
      (s : t.State) (n : ℕ) (bs : List ℕ) → (bridged s n).0 ≡ ready (ok bs) → length bs ≤ n
  unfolding bridged
  bridged_fits s n bs e = fits s n _ bs (asked s n) e

  pub bridged_gives :
      (s : t.State) (n : ℕ) (bs : List ℕ)
      → (bridged s n).0 ≡ ready (ok bs)
      → t.content s ≡ bs ++ t.content (bridged s n).1
  unfolding bridged
  bridged_gives s n bs e = gives s n _ bs (asked s n) e

  pub bridged_waits :
      (s : t.State) (n : ℕ) → (bridged s n).0 ≡ pending → t.content (bridged s n).1 ≡ t.content s
  unfolding bridged
  bridged_waits s n e = waits s n _ (asked s n) e

  pub bridged_fails :
      (s : t.State) (n : ℕ) (x : IoError)
      → (bridged s n).0 ≡ ready (err x)
      → t.content (bridged s n).1 ≡ t.content s
  unfolding bridged
  bridged_fails s n x e = fails s n _ x (asked s n) e

  -- Through `TokioIo`, a source of tokio is a reader of hyper with the same bytes.
  abbrev pub bridge_reader : Reader
  bridge_reader = record {
    State = t.State;
    poll_read = bridged;
    content = t.content;
    read_fits = bridged_fits;
    read_content = bridged_gives;
    pending_content = bridged_waits;
    error_content = bridged_fails;
  }
