-- ===== src/Server/ReadVersion/Detect.antt =====
-- Which protocol `ReadVersion` recognises, and that the bytes it read are not lost.
pub mod First
use hyperdriver.Base.{
  Poll-cases, Bool-cases, inl, inr, if◌then◌else◌, ℕ, zero, suc, ◌<◌, ◌≡◌, refl, ap, ◌↔◌, ◌≢◌, Bool,
  true, false, List, [], ◌++◌, Option, none, some, length, bytes_eq, bytes_eq_iff, ok, err, ready,
  pending, value, panic, arith,
}
use hyperdriver.Io.{ReadResult, IoError}
use hyperdriver.Server.ReadVersion.{
  ReadVersion, HttpProtocol, http1, http2, http2_prefix, prefix_len, new, Exit, blocked, failed,
  finished, out_of_fuel, is_http1, on_read, read_loop, PollResult, settle, poll, drive_on, drive,
}
use hyperdriver.Server.ReadVersion.Rounds.{
  verdict, ok_round, poll-new-http2_iff, poll-new-http1_iff,
}

module _ {I : Type 0} (poll_read : I → ℕ → ReadResult × I) where
  -- The first read of the connection that is not pending, among `n + 1` reads.
  read_again : (I → ReadResult × I) → ReadResult × I → ReadResult × I
  read_again more (pending, io) = more io
  read_again more (ready x, io) = (ready x, io)

  unfoldable pub first_read : ℕ → I → ReadResult × I
  unfolding read_again
  first_read zero s = poll_read s prefix_len
  first_read (suc n) s = read_again (first_read n) (poll_read s prefix_len)

  read_again-pending :
      (more : I → ReadResult × I) (p : ReadResult × I)
      → p.0 ≡ pending
      → read_again more p ≡ more p.1
  unfolding read_again
  read_again-pending more (pending, io) e = refl
  read_again-pending more (ready x, io) e = cc

  read_again-ready :
      (more : I → ReadResult × I) (p : ReadResult × I) → p.0 ≢ pending → read_again more p ≡ p
  unfolding read_again
  read_again-ready more (pending, io) h = absurd (h refl)
  read_again-ready more (ready x, io) h = refl

  -- A pending read leaves the detection as it was, but for the reader.
  pending_round :
      (s : I) (again : I → List ℕ → Exit I) (p : ReadResult × I)
      → p.0 ≡ pending
      → settle (new s) (on_read again [] p) ≡ (value pending, new p.1)
  unfolding settle new on_read
  pending_round s again (pending, io) e = refl
  pending_round s again (ready x, io) e = cc

  poll-pending :
      (s : I)
      → (poll_read s prefix_len).0 ≡ pending
      → poll poll_read (new s) ≡ (value pending, new (poll_read s prefix_len).1)
  unfolding poll new
  poll-pending s e = pending_round s (read_loop poll_read prefix_len http2) _ e

  settle_failed :
      (s : I) (again : I → List ℕ → Exit I) (x : IoError) (io : I)
      → (settle (new s) (on_read again [] (ready (err x), io))).0 ≢ value pending
  unfolding settle on_read
  settle_failed s again x io e = cc

  settle_finished :
      (rv : ReadVersion I) (b : Bool) (v v' : HttpProtocol) (io : I) (bs : List ℕ)
      → (settle rv (if b then finished v io bs else finished v' io bs)).0 ≢ value pending
  unfolding settle
  settle_finished rv true v v' io bs e = cc
  settle_finished rv false v v' io bs e = cc

  ready_round :
      (s : I) (fuel : ℕ) (p : ReadResult × I)
      → (settle (new s) (on_read (read_loop poll_read (suc fuel) http2) [] p)).0 ≡ value pending
      → p.0 ≡ pending
  ready_round s fuel (pending, io) e = refl
  ready_round s fuel (ready (err x), io) e = absurd (settle_failed s _ x io e)
  ready_round s fuel (ready (ok bs), io) e = absurd (
      settle_finished (new s) (bytes_eq bs http2_prefix) http2 http1 io bs
        (rw (ok_round poll_read fuel http2 bs io) at e))

  poll-ready :
      (s : I) → (poll_read s prefix_len).0 ≢ pending → (poll poll_read (new s)).0 ≢ value pending
  unfolding poll new
  poll-ready s h e = h (ready_round s 23 (poll_read s prefix_len) e)

  drive_on-pending :
      (more : ReadVersion I → PollResult I × ReadVersion I) (p : PollResult I × ReadVersion I)
      (rv : ReadVersion I)
      → p ≡ (value pending, rv)
      → drive_on poll_read more p ≡ more rv
  unfolding drive_on
  drive_on-pending more p rv e = rw e

  drive_on-ready :
      (more : ReadVersion I → PollResult I × ReadVersion I) (p : PollResult I × ReadVersion I)
      → p.0 ≢ value pending
      → drive_on poll_read more p ≡ p
  unfolding drive_on
  drive_on-ready more (value pending, rv) h = absurd (h refl)
  drive_on-ready more (value (ready x), rv) h = refl
  drive_on-ready more (panic, rv) h = refl

  -- A detection that is polled until it is ready behaves like one that is polled once, when the
  -- connection's first read is ready.
  drive_reads {ℓ} :
      (P : PollResult I → ReadResult → Type ℓ)
      → ((s : I) → P (poll poll_read (new s)).0 (poll_read s prefix_len).0)
      → (n : ℕ) (s : I) → P (drive poll_read n (new s)).0 (first_read n s).0
  unfolding drive first_read
  drive_reads P once zero s = once s
  drive_reads P once (suc n) s = elim (Poll-cases (poll_read s prefix_len).0) [
    | inl e ↦
        rw
          (
            drive_on-pending (drive poll_read n) (poll poll_read (new s))
                (new (poll_read s prefix_len).1) (poll-pending s e),
            read_again-pending (first_read n) (poll_read s prefix_len) e,
          )
          (drive_reads P once n (poll_read s prefix_len).1)
    | inr (x, e) ↦
        let busy : (poll_read s prefix_len).0 ≢ pending = λ h. cc in
        rw
          (
            drive_on-ready (drive poll_read n) (poll poll_read (new s)) (poll-ready s busy),
            read_again-ready (first_read n) (poll_read s prefix_len) busy,
          )
          (once s)
  ]

  -- However often a new detection is polled, it decides for HTTP/2 exactly when the first read that
  -- the connection answers delivers the whole preface, all 24 bytes at once.
  pub drive-http2_iff :
      (n : ℕ) (s : I)
      → (verdict (drive poll_read n (new s)).0 ≡ some http2)
        ↔ ((first_read n s).0 ≡ ready (ok http2_prefix))
  drive-http2_iff =
      drive_reads (λ x y. (verdict x ≡ some http2) ↔ (y ≡ ready (ok http2_prefix)))
        (poll-new-http2_iff poll_read)

  drive-http1_iff :
      (n : ℕ) (s : I)
      → (verdict (drive poll_read n (new s)).0 ≡ some http1)
        ↔ ((bs : List ℕ) × ((first_read n s).0 ≡ ready (ok bs)) × (bs ≢ http2_prefix))
  drive-http1_iff =
      drive_reads
        (λ x y.
          (verdict x ≡ some http1) ↔ ((bs : List ℕ) × (y ≡ ready (ok bs)) × (bs ≢ http2_prefix)))
        (poll-new-http1_iff poll_read)

  -- So a preface that arrives in pieces is taken for HTTP/1: whenever the first answered read
  -- delivers fewer than 24 bytes, and be they the first bytes of the preface.
  pub drive-http1_of_split :
      (n : ℕ) (s : I) (bs rest : List ℕ)
      → http2_prefix ≡ bs ++ rest
      → length bs < prefix_len
      → (first_read n s).0 ≡ ready (ok bs)
      → verdict (drive poll_read n (new s)).0 ≡ some http1
  drive-http1_of_split n s bs rest start short e =
      (drive-http1_iff n s).1 (bs, e, λ same. absurd (omega (arith, ap length same)))
